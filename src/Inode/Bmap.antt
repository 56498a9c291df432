-- ===== src/Inode/Bmap.antt =====
-- What bmap does to a file and to the free map.
use pa.Common.{
  ℕ, ◌+◌, ◌-◌, ◌*◌, ◌≤◌, ◌<◌, ◌≡◌, ◌≢◌, refl, sym, ap, fun_ext, ◌∙◌, subst, true, false, ltb, ◌==◌,
  if◌then◌else◌, eq_self, ==_iff, update, Bool, Bool-cases, inl, inr, arith,
}
use pa.Syscall.{read_word, write_word}
use pa.Fs.{
  num_direct, max_file, Fs, Result, ok, stop, panic, stuck, overrun, continue, balloc, ◌>>◌, ◌>>=◌,
  pure, modify, gets, Exec,
}
use pa.Fs.Blocks.{used, Allocated, Balloc, balloc_lem}
use pa.Inode.{map_entry, bmap, set_addr}
use pa.Inode.Place.{
  with_addr, with_entry, Placed-addr, Placed-entry, fresh-nonzero, addrs-with_addr,
}
use pa.Inode.Map.{
  addrs_of, table_of, block_of, content, IsFile, Placed, content-Placed, IsFile-Placed, block_cases,
  Outside-Placed,
}
use pa.Inode.Updated.{
  count_free, Updated, Updated-same, Updated-trans, Updated-content, count_free_step,
  count_free_none,
}

-- What a search for a block may end in: `get` names the block afterwards, and a panic is only for
-- the lack of `need` free blocks.
abbrev pub Search : (s : Fs) (ip need : ℕ) (get : Fs → ℕ) → Result ℕ → Type 0
Search s ip need get (ok b s') =
    (b ≢ 0)
    × (get s' ≡ b)
    × Updated s ip (content s ip) s'
    × (count_free s s.sb.size ≤ need + count_free s' s'.sb.size)
Search s ip need get (stop panic) = count_free s s.sb.size < need
Search s ip need get (stop stuck) = ⊥
Search s ip need get (stop overrun) = ⊥

-- A file that has got a free block is as it was, but for its block map.
Updated-Placed :
    {s : Fs} {ip : ℕ} {target : ℕ → Bool} {b : ℕ} {s' : Fs}
    → IsFile s ip
    → Placed s ip target b s'
    → s'.icache ip ≡ (record (s.icache ip) { addrs = (s'.icache ip).addrs })
    → ((j : ℕ) → j ≢ ip → s'.icache j ≡ s.icache j)
    → s' ≡ (record s { bits = s'.bits; bytes = s'.bytes; icache = s'.icache })
    → Updated s ip (content s ip) s'
Updated-Placed {s} f p i o r = record {
  keeps =
      λ bn lt q. elim (block_cases f p bn) [ inl x ↦ absurd (q (p.vacant bn x.0)) | inr x ↦ x.1 ];
  file = IsFile-Placed f p;
  content_lem = content-Placed f p;
  outside = λ x out. (
    Outside-Placed f p x out,
    p.bytes_lem x (λ e. cc (p.fresh, out.used_lem, ap (used s) e)) (λ e. out.no_table (sym e)),
  );
  inode = i;
  others = o;
  rest = r;
}

count_free-Placed :
    {s : Fs} {ip : ℕ} {target : ℕ → Bool} {b : ℕ} {s' : Fs}
    → Placed s ip target b s'
    → count_free s s.sb.size ≤ 1 + count_free s' s'.sb.size
count_free-Placed {s} {ip} {target} {b} {s'} p =
    subst (λ n. count_free s s.sb.size ≤ 1 + count_free s' n) (ap (λ x. x.size) (sym p.super))
      (omega (arith, count_free_step s.sb.size s s' b p.below p.fresh p.used_lem))

-- The search for an entry of the inode.
map_entry-Search :
    (s : Fs) (ip n : ℕ)
    → IsFile s ip
    → n ≤ num_direct
    → Search s ip 1 (λ t. addrs_of t ip n) (map_entry ip n s)
unfolding map_entry
map_entry-Search s ip n f le = elim (Bool-cases (addrs_of s ip n == 0)) [
  | inr there ↦ rw there (ground arith, refl, Updated-same s ip f, omega arith)
  | inl vacant ↦ rw vacant (go ((==_iff (addrs_of s ip n) 0).0 vacant) (balloc s) (balloc_lem s))
]
  where
    placed :
        (b : ℕ) (t : Fs)
        → addrs_of s ip n ≡ 0
        → Allocated s b (record s { bits = t.bits; bytes = t.bytes })
        → Search s ip 1
            (λ x. addrs_of x ip n)
            (ok b (with_addr ip n b (record s { bits = t.bits; bytes = t.bytes })))
    placed b t vacant a =
        let p = Placed-addr s ip n b t.bits t.bytes f le vacant a in
        (
          fresh-nonzero f a,
          addrs-with_addr ip n b (record s { bits = t.bits; bytes = t.bytes }) n
                (omega (arith, a.below, f.small))
              ∙ rw (eq_self n) refl,
          Updated-Placed f p (rw (eq_self ip) refl) (λ j ne. ground arith) refl,
          count_free-Placed p,
        )

    go :
        addrs_of s ip n ≡ 0
        → (r : Result ℕ) → Balloc s r
        → Search s ip 1 (λ t. addrs_of t ip n) (continue r (λ b. set_addr ip n b >> pure b))
    go vacant (stop panic) h = omega (arith, count_free_none s.sb.size s h)
    go vacant (stop stuck) h = absurd h
    go vacant (stop overrun) h = absurd h
    go vacant (ok b t) a =
        subst (λ x. Search s ip 1 (λ t. addrs_of t ip n) (ok b (with_addr ip n b x))) (sym a.others)
          (placed b t vacant (subst (Allocated s b) a.others a))

-- The search for an entry of the block of addresses, which is there.
abbrev entry_part : (ip bn table : ℕ) → Exec ℕ
entry_part ip bn table = do
  addr ← gets (λ s. read_word (s.bytes table) (4 * (bn - num_direct)))
  (if addr == 0
      then (do
        b ← balloc
        modify (λ s. record s {
          bytes = update s.bytes table (write_word (s.bytes table) (4 * (bn - num_direct)) b);
        })
        pure b)
      else pure addr)

entry_part-Search :
    (s : Fs) (ip bn : ℕ)
    → IsFile s ip
    → table_of s ip ≢ 0
    → ltb bn num_direct ≡ false
    → Search s ip 1 (λ t. block_of t ip bn) (entry_part ip bn (table_of s ip) s)
entry_part-Search s ip bn f nz far =
    elim (Bool-cases (read_word (s.bytes (table_of s ip)) (4 * (bn - num_direct)) == 0)) [
      | inr there ↦ rw there (ground arith, old, Updated-same s ip f, omega arith)
      | inl vacant ↦ rw vacant (go vacant (balloc s) (balloc_lem s))
    ]
  where
    old : block_of s ip bn ≡ read_word (s.bytes (table_of s ip)) (4 * (bn - num_direct))
    old = let q : (table_of s ip == 0) ≡ false = ground arith in rw (far, q) refl

    placed :
        (b : ℕ) (t : Fs)
        → block_of s ip bn ≡ 0
        → Allocated s b (record s { bits = t.bits; bytes = t.bytes })
        → Search s ip 1
            (λ x. block_of x ip bn)
            (ok b (
              with_entry
                (table_of s ip)
                (bn - num_direct)
                b
                (record s { bits = t.bits; bytes = t.bytes })))
    placed b t vacant a =
        let p = Placed-entry s ip bn b t.bits t.bytes f nz far vacant a in
        (
          fresh-nonzero f a,
          p.blocks bn ∙ rw (eq_self bn) refl,
          Updated-Placed f p refl (λ j ne. refl) refl,
          count_free-Placed p,
        )

    go :
        (read_word (s.bytes (table_of s ip)) (4 * (bn - num_direct)) == 0) ≡ true
        → (r : Result ℕ) → Balloc s r
        → Search s ip 1
            (λ t. block_of t ip bn)
            (continue r (λ b.
              modify (λ t. record t {
                bytes =
                    update t.bytes
                      (table_of s ip)
                      (write_word (t.bytes (table_of s ip)) (4 * (bn - num_direct)) b);
              })
              >> pure b))
    go vacant (stop panic) h = omega (arith, count_free_none s.sb.size s h)
    go vacant (stop stuck) h = absurd h
    go vacant (stop overrun) h = absurd h
    go vacant (ok b t) a =
        subst
          (λ x.
            Search s ip 1 (λ t. block_of t ip bn)
              (ok b (with_entry (table_of s ip) (bn - num_direct) b x)))
          (sym a.others)
          (placed b t
            (old
              ∙ (==_iff (read_word (s.bytes (table_of s ip)) (4 * (bn - num_direct))) 0).0 vacant)
            (subst (Allocated s b) a.others a))

-- Two searches, one after the other.
Search-continue :
    (s : Fs) (ip : ℕ) (get get' : Fs → ℕ) (r : Result ℕ) (f : ℕ → Exec ℕ)
    → Search s ip 1 get r
    → ((b : ℕ) (t : Fs) → b ≢ 0 → get t ≡ b → IsFile t ip → Search t ip 1 get' (f b t))
    → Search s ip 2 get' (continue r f)
Search-continue s ip get get' (stop panic) f h k = omega (arith, h)
Search-continue s ip get get' (stop stuck) f h k = absurd h
Search-continue s ip get get' (stop overrun) f h k = absurd h
Search-continue s ip get get' (ok b t) f h k = go (f b t) (k b t h.0 h.1 h.2.file)
  where
    go : (r : Result ℕ) → Search t ip 1 get' r → Search s ip 2 get' r
    go (ok c u) m = (
      m.0,
      m.1,
      Updated-trans h.2 (Updated-content (λ x lt. h.2.content_lem x lt) m.2),
      omega (arith, h.3, m.3),
    )
    go (stop panic) m = omega (arith, h.3, m)
    go (stop stuck) m = absurd m
    go (stop overrun) m = absurd m

Search-more :
    (s : Fs) (ip : ℕ) (get : Fs → ℕ) (r : Result ℕ) → Search s ip 1 get r → Search s ip 2 get r
Search-more s ip get (ok b t) h = (h.0, h.1, h.2, omega (arith, h.3))
Search-more s ip get (stop panic) h = omega (arith, h)
Search-more s ip get (stop stuck) h = h
Search-more s ip get (stop overrun) h = h

bmap-direct : (s : Fs) (ip bn : ℕ) → ltb bn num_direct ≡ true → bmap ip bn s ≡ map_entry ip bn s
unfolding bmap
bmap-direct s ip bn direct = rw direct refl

bmap-indirect :
    (s : Fs) (ip bn : ℕ)
    → ltb bn num_direct ≡ false
    → bn < max_file
    → bmap ip bn s ≡ continue (map_entry ip num_direct s) (entry_part ip bn)
unfolding bmap
bmap-indirect s ip bn far lt =
    let near : ltb (bn - num_direct) 128 ≡ true = ground arith in rw (far, near) refl

block_of-direct :
    (ip bn : ℕ)
    → ltb bn num_direct ≡ true
    → ◌≡◌ {A = Fs → ℕ} (λ t. addrs_of t ip bn) (λ t. block_of t ip bn)
block_of-direct ip bn direct = fun_ext (λ t. rw direct refl)

-- For a file in order and a block number within the largest size, bmap returns the number of the block that
-- the block map has afterwards, which is not 0; the content of the file and what belongs to
-- something else stay as they are, and the file is in order. It takes two free blocks at most, and
-- panics only if there are fewer.
pub bmap-Search :
    (s : Fs) (ip bn : ℕ)
    → IsFile s ip
    → bn < max_file
    → Search s ip 2 (λ t. block_of t ip bn) (bmap ip bn s)
bmap-Search s ip bn f lt = elim (Bool-cases (ltb bn num_direct)) [
  | inl direct ↦ subst (Search s ip 2 (λ t. block_of t ip bn)) (sym (bmap-direct s ip bn direct)) (
      subst (λ g. Search s ip 2 g (map_entry ip bn s)) (block_of-direct ip bn direct)
        (Search-more s ip (λ t. addrs_of t ip bn) (map_entry ip bn s)
          (map_entry-Search s ip bn f (ground arith))))
  | inr far ↦ subst (Search s ip 2 (λ t. block_of t ip bn)) (sym (bmap-indirect s ip bn far lt)) (
      Search-continue s ip (λ t. addrs_of t ip num_direct) (λ t. block_of t ip bn)
        (map_entry ip num_direct s) (entry_part ip bn)
        (map_entry-Search s ip num_direct f (omega arith))
        (λ b t nz e g.
          subst (λ x. Search t ip 1 (λ t. block_of t ip bn) (entry_part ip bn x t)) e
            (entry_part-Search t ip bn g (λ z. nz (sym e ∙ z)) far)))
]
