-- ===== src/File/Small.antt =====
-- A write through a descriptor to a small file.
use pa.Common.{
  ℕ, zero, suc, ◌+◌, ◌-◌, ◌%◌, ◌^◌, ◌≤◌, ◌<◌, ◌≡◌, refl, sym, ap, ◌∙◌, subst, fun_ext, true, false,
  Bool, ltb, ◌==◌, eq_self, arith, pos, min, update,
}
use pa.Fs.{fd_inode, Fs, Inode, File, ok}
use pa.Inode.{positive, ilock, iunlock, writei}
use pa.Inode.Small.{Fits, written, writei-Stored}
use pa.File.{filewrite, write_rounds, max_write, rounds_of}

-- The file is open for writing, and no process holds the lock of its inode, which is in the cache.
pub record Writable (s : Fs) (f : ℕ) : Type 0 where
  pub type_lem : (s.files f).type ≡ fd_inode
  pub writable : (s.files f).writable ≡ true
  pub counted : positive (2 ^ 31) (s.icache (s.files f).ip).ref ≡ true
  pub unlocked : (s.icache (s.files f).ip).locked ≡ false
  pub valid : (s.icache (s.files f).ip).valid ≡ true

-- the inode with its lock set or not
abbrev with_lock : Bool → ℕ → Fs → Fs
with_lock b ip s = record s { icache = update s.icache ip (record (s.icache ip) { locked = b }) }

ilock-with_lock :
    (s : Fs) (ip : ℕ)
    → positive (2 ^ 31) (s.icache ip).ref ≡ true
    → (s.icache ip).locked ≡ false
    → (s.icache ip).valid ≡ true
    → ilock ip s ≡ ok tt (with_lock true ip s)
unfolding ilock
ilock-with_lock s ip counted unlocked valid = rw (counted, unlocked, valid) refl

iunlock-with_lock :
    (s : Fs) (ip : ℕ)
    → positive (2 ^ 31) (s.icache ip).ref ≡ true
    → (s.icache ip).locked ≡ true
    → iunlock ip s ≡ ok tt (with_lock false ip s)
unfolding iunlock
iunlock-with_lock s ip counted locked = rw (counted, locked) refl

write_rounds-done :
    (fuel : ℕ) (f : ℕ) (src : ℕ → ℕ) (i n : ℕ) (s : Fs)
    → n ≤ i
    → write_rounds fuel f src i n s ≡ ok i s
unfolding write_rounds
write_rounds-done zero f src i n s h = refl
write_rounds-done (suc fuel) f src i n s h =
    let stops : ltb i n ≡ false = ground arith in rw stops refl

abbrev moved : ℕ → (n : ℕ) → Fs → Fs
moved f n s = record s {
  files = update s.files f (record (s.files f) { off = ((s.files f).off + n) % 2 ^ 32 });
}

-- One round writes it all, when writei does.
write_rounds-one :
    (fuel : ℕ) (f : ℕ) (src : ℕ → ℕ) (n : ℕ) (s s2 : Fs)
    → 0 < n
    → n ≤ max_write
    → Writable s f
    → writei (s.files f).ip (λ j. src (0 + j)) (s.files f).off n (with_lock true (s.files f).ip s)
      ≡ ok (pos n) s2
    → positive (2 ^ 31) (s2.icache (s.files f).ip).ref ≡ true
    → (s2.icache (s.files f).ip).locked ≡ true
    → write_rounds (suc fuel) f src 0 n s
      ≡ ok (0 + n) (with_lock false (s.files f).ip (moved f n s2))
unfolding write_rounds
write_rounds-one fuel f src n s s2 some_bytes few w run counted locked =
    let more : ltb 0 n ≡ true = ground arith in
    let whole : min (n - 0) max_write ≡ n = omega arith in
    let full : (n == min (n - 0) max_write) ≡ true = ground arith in
    rw
      (
        more,
        whole,
        ilock-with_lock s (s.files f).ip w.counted w.unlocked w.valid,
        run,
        iunlock-with_lock (moved f n s2) (s.files f).ip counted locked,
        full,
      )
      (write_rounds-done fuel f src (0 + n) n (with_lock false (s.files f).ip (moved f n s2))
        (omega arith))

-- What is left to do when the one round has written it all.
filewrite-round :
    (s s2 : Fs) (f : ℕ) (src : ℕ → ℕ) (n : ℕ) (i : Inode)
    → Writable s f
    → n ≤ max_write
    → write_rounds n f src 0 n s ≡ ok (0 + n) (with_lock false (s.files f).ip (moved f n s2))
    → s2.files f ≡ s.files f
    → s2.icache (s.files f).ip ≡ (record i { locked = true })
    → (s' : Fs) × (filewrite f src n s ≡ ok (pos n) s')
      × (s'.files f ≡ (record (s.files f) { off = ((s.files f).off + n) % 2 ^ 32 }))
      × (s'.icache (s.files f).ip ≡ (record i { locked = false }))
unfolding filewrite
filewrite-round s s2 f src n i w few run same now =
    let count : rounds_of n ≡ n = ground arith in
    let whole : (0 + n == n) ≡ true = ground arith in
    (
      with_lock false (s.files f).ip (moved f n s2),
      rw (w.writable, w.type_lem, count, run, whole) refl,
      rw (eq_self f) (ap (λ (x : File). record x { off = (x.off + n) % 2 ^ 32 }) same),
      rw (eq_self (s.files f).ip) (ap (λ (x : Inode). record x { locked = false }) now),
    )

-- A write of at least one byte through a descriptor that is open for writing on a small file, whose inode
-- is in the cache and not locked, from an offset up to the size and within the 52 bytes of
-- `addrs`, returns the count: the bytes are in the inode at the offset of the descriptor, which
-- then stands behind them, and the inode is unlocked again.
pub filewrite-small :
    (s : Fs) (f : ℕ) (src : ℕ → ℕ) (n : ℕ)
    → Writable s f
    → Fits s (s.files f).ip (s.files f).off n
    → 0 < n
    → (s' : Fs) × (filewrite f src n s ≡ ok (pos n) s')
      × (s'.files f ≡ (record (s.files f) { off = ((s.files f).off + n) % 2 ^ 32 }))
      × (s'.icache (s.files f).ip
          ≡ (record (written (s.icache (s.files f).ip) src (s.files f).off n) { locked = false }))
filewrite-small s f src zero w fits some_bytes = absurd (omega arith)
filewrite-small s f src (suc m) w fits some_bytes =
    let few : suc m ≤ max_write = omega (arith, fits.bounded) in
    let s1 = with_lock true ip s in
    let inode : s1.icache ip ≡ (record (s.icache ip) { locked = true }) = rw (eq_self ip) refl in
    let wrote =
      writei-Stored s1 ip (λ j. src (0 + j)) off n
        (record {
          small = ap (λ i. i.type) inode ∙ fits.small;
          starts = subst (λ i. off ≤ i.size) (sym inode) fits.starts;
          bounded = fits.bounded;
        }) in
    let now : wrote.0.icache ip ≡ (record (written (s.icache ip) src off n) { locked = true }) =
      wrote.2.inode
      ∙ ap (λ i. written i (λ j. src (0 + j)) off n) inode
      ∙ ap (λ g. record (written (s.icache ip) g off n) { locked = true }) from_zero in
    let run =
      write_rounds-one m f src n s wrote.0 some_bytes few w wrote.1
        (ap (λ i. positive (2 ^ 31) i.ref) now ∙ w.counted) (ap (λ i. i.locked) now) in
    filewrite-round s wrote.0 f src n (written (s.icache ip) src off n) w few run
      (ap (λ x. x.files f) wrote.2.others) now
  where
    n : ℕ
    n = suc m

    ip : ℕ
    ip = (s.files f).ip

    off : ℕ
    off = (s.files f).off

    from_zero : ◌≡◌ {A = ℕ → ℕ} (λ j. src (0 + j)) src
    from_zero = fun_ext (λ j. let e : 0 + j ≡ j = omega arith in ap src e)
