-- ===== src/Inode/Evict.antt =====
-- What of a small file outlives the cache of inodes.
use pa.Common.{
  ℕ, ◌+◌, ◌^◌, ◌≤◌, ◌<◌, ◌≡◌, refl, sym, ap, ◌∙◌, subst, fun_ext, true, false, ◌&&◌, ltb, ◌==◌,
  eq_self, update, arith, ℤ, pos,
}
use pa.Fs.{t_sfile, Fs, Inode, Dinode, Result, ok, stop, blit}
use pa.Inode.{writei, readi, ilock, to_dinode, from_dinode, positive}
use pa.Inode.Small.{on_disk, written, Fits, Stored, writei-Stored, readi-small, written-size}

-- The cache no longer has the content of inode `ip` of `s`, and the disk has it as in `s`.
pub record Evicted (s : Fs) (ip : ℕ) (s' : Fs) : Type 0 where
  pub same_disk : on_disk s' ip ≡ on_disk s ip
  pub invalid : (s'.icache ip).valid ≡ false
  pub unlocked : (s'.icache ip).locked ≡ false
  pub referenced : positive (2 ^ 31) (s'.icache ip).ref ≡ true

-- ilock of an inode that is not in the cache reads it from the disk.
pub ilock-Evicted :
    (s s' : Fs) (ip : ℕ)
    → Evicted s ip s'
    → ((on_disk s ip).type == 0) ≡ false
    → ilock ip s'
      ≡ ok tt (record s' {
        icache =
            update s'.icache ip
              (record (from_dinode (on_disk s ip) (s'.icache ip)) { locked = true });
      })
unfolding ilock
ilock-Evicted s s' ip v typed =
    let typed' : ((on_disk s' ip).type == 0) ≡ false = ap (λ d. d.type == 0) v.same_disk ∙ typed in
    rw (v.referenced, v.unlocked, v.invalid, typed')
      (ap
        (λ d. ok tt (record s' {
          icache = update s'.icache ip (record (from_dinode d (s'.icache ip)) { locked = true });
        }))
        v.same_disk)

blit-disk :
    (dst addrs now : ℕ → ℕ) (off n : ℕ)
    → off + n ≤ 52
    → blit dst 0 (blit now 0 addrs 0 52) off n ≡ blit dst 0 addrs off n
blit-disk dst addrs now off n h = fun_ext (λ j. grind arith)

-- A small file that ilock reads from the disk shows the content on the disk.
readi-ilock :
    (s t : Fs) (ip : ℕ) (d : Dinode) (dst : ℕ → ℕ) (off n : ℕ)
    → Evicted s ip t
    → on_disk s ip ≡ d
    → d.type ≡ t_sfile
    → off + n ≤ d.size
    → off + n ≤ 52
    → (t' : Fs) × (ilock ip t ≡ ok tt t')
      × (readi ip dst off n t' ≡ ok (blit dst 0 d.addrs off n, pos n) t')
readi-ilock s t ip d dst off n v disk small below short =
    let i : Inode = record (from_dinode (on_disk s ip) (t.icache ip)) { locked = true } in
    let t' : Fs = record t { icache = update t.icache ip i } in
    let inode : t'.icache ip ≡ (record (from_dinode d (t.icache ip)) { locked = true }) =
      rw (eq_self ip) (ap (λ d. record (from_dinode d (t.icache ip)) { locked = true }) disk) in
    (
      t',
      ilock-Evicted s t ip v (ap (λ d. d.type == 0) disk ∙ rw small refl),
      readi-small t' ip dst off n (ap (λ x. x.type) inode ∙ small)
            (subst (λ x. off + n ≤ x.size) (sym inode) below) short
          ∙ ap (λ a. ok (blit dst 0 a off n, pos n) t') (ap (λ x. x.addrs) inode)
          ∙ ap (λ a. ok (a, pos n) t') (blit-disk dst d.addrs (t.icache ip).addrs off n short),
    )

abbrev value_or : {A : Type 0} → A → Result A → A
value_or d (ok a s) = a
value_or d (stop e) = d

abbrev state_or : {A : Type 0} → Fs → Result A → Fs
state_or d (ok a s) = s
state_or d (stop e) = d

-- What a writei that has returned has done.
writei-ok :
    (s s' : Fs) (ip : ℕ) (src : ℕ → ℕ) (off n : ℕ) (m : ℤ)
    → Fits s ip off n
    → writei ip src off n s ≡ ok m s'
    → (m ≡ pos n) × Stored s ip src off n s'
writei-ok s s' ip src off n m f e =
    let w = writei-Stored s ip src off n f in
    let same = sym e ∙ w.1 in
    (ap (value_or m) same, subst (Stored s ip src off n) (sym (ap (state_or s) same)) w.2)

-- the written bytes on their way through the disk
blit-through :
    (dst src addrs old : ℕ → ℕ) (off n : ℕ)
    → off + n ≤ 52
    → blit dst 0 (blit old 0 (blit addrs off src 0 n) 0 52) off n ≡ blit dst 0 src 0 n
blit-through dst src addrs old off n h = fun_ext (λ j. grind arith)

-- Let a write to a small file start at most at its size, end behind it, and stay within the 52 bytes of
-- `addrs`. What it has written outlives the cache: writei returns n, and when the inode has been recycled since and ilock reads it again,
-- readi gives the written bytes back.
pub readi-ilock-writei :
    (s s' t : Fs) (ip : ℕ) (src dst : ℕ → ℕ) (off n : ℕ) (m : ℤ)
    → Fits s ip off n
    → (s.icache ip).size < off + n
    → writei ip src off n s ≡ ok m s'
    → Evicted s' ip t
    → (m ≡ pos n)
      × (t' : Fs) × (ilock ip t ≡ ok tt t')
      × (readi ip dst off n t' ≡ ok (blit dst 0 src 0 n, pos n) t')
readi-ilock-writei s s' t ip src dst off n m f longer e v =
    let w = writei-ok s s' ip src off n m f e in
    let i = written (s.icache ip) src off n in
    let grows : (ltb 0 n && ltb (s.icache ip).size (off + n)) ≡ true = ground (arith, f.starts) in
    let r =
      readi-ilock s' t ip (to_dinode i (on_disk s ip)) dst off n v (w.1.disk ∙ rw grows refl)
        f.small (written-size (s.icache ip) src off n f.starts) f.bounded in
    (
      w.0,
      r.0,
      r.1,
      r.2
          ∙ ap (λ a. ok (a, pos n) r.0)
              (blit-through dst src (s.icache ip).addrs (on_disk s ip).addrs off n f.bounded),
    )

-- Let a write to a small file stay within its size, within the 52 bytes of `addrs`, and within the size of
-- the inode on the disk, which is a small file too. What it has written does not outlive the cache:
-- writei returns n, but when the inode has been recycled since and ilock reads it again, readi gives
-- what the disk held before the write.
pub readi-ilock-overwrite :
    (s s' t : Fs) (ip : ℕ) (src dst : ℕ → ℕ) (off n : ℕ) (m : ℤ)
    → Fits s ip off n
    → off + n ≤ (s.icache ip).size
    → (on_disk s ip).type ≡ t_sfile
    → off + n ≤ (on_disk s ip).size
    → writei ip src off n s ≡ ok m s'
    → Evicted s' ip t
    → (m ≡ pos n)
      × (t' : Fs) × (ilock ip t ≡ ok tt t')
      × (readi ip dst off n t' ≡ ok (blit dst 0 (on_disk s ip).addrs off n, pos n) t')
readi-ilock-overwrite s s' t ip src dst off n m f within small below e v =
    let w = writei-ok s s' ip src off n m f e in
    let stays : (ltb 0 n && ltb (s.icache ip).size (off + n)) ≡ false = ground arith in
    let r =
      readi-ilock s' t ip (on_disk s ip) dst off n v (w.1.disk ∙ rw stays refl) small below
        f.bounded in
    (w.0, r.0, r.1, r.2)
