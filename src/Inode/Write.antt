-- ===== src/Inode/Write.antt =====
-- writei on a file that keeps its content in blocks.
use pa.Common.{
  ℕ, zero, suc, ◌+◌, ◌-◌, ◌*◌, ◌/◌, ◌%◌, ◌≤◌, ◌<◌, ◌≡◌, ◌≢◌, refl, sym, ap, ◌∙◌, subst, false, ◌&&◌,
  ltb, leb, ◌==◌, if◌then◌else◌, eq_self, ==_iff, update, Bool-cases, inl, inr, arith,
}
use pa.Fs.{block_size, max_file, Fs, Result, blit}
use pa.Inode.{bmap, chunk, write_blocks}
use pa.Inode.Map.{table_of, block_of, byte_at, content, IsFile, IsFile-same}
use pa.Inode.Bmap.{bmap-Search}
use pa.Inode.Updated.{
  count_free, count_free_same, Updated, Updated-same, Updated-trans, Updated-content,
}
use pa.Inode.Read.{
  Transfer, blit-more, chunk_bounds, blocks_of-chunk, Transfer-round, Transfer-bmap, There-round,
}

-- the bytes of a block written
abbrev stored : (b : ℕ) → (src : ℕ → ℕ) → (o at m : ℕ) → Fs → Fs
stored b src o at m t = record t { bytes = update t.bytes b (blit (t.bytes b) o src at m) }

module _ (t : Fs) (ip b off m at : ℕ) (src : ℕ → ℕ) (f : IsFile t ip) (nz : b ≢ 0)
    (bound : off < max_file * block_size) (e : block_of t ip (off / block_size) ≡ b)
    (fits : off % block_size + m ≤ block_size) where
  abbrev t' : Fs
  t' = stored b src (off % block_size) at m t

  not_table : table_of t ip ≢ b
  not_table q = f.apart (off / block_size) (omega arith) (λ z. nz (sym e ∙ z)) (e ∙ sym q)

  block_of-stored : (x : ℕ) → block_of t' ip x ≡ block_of t ip x
  block_of-stored x =
      let ne : (table_of t ip == b) ≡ false = let apart = not_table in ground arith in rw ne refl

  content-stored :
      (k : ℕ) → k < max_file * block_size → content t' ip k ≡ blit (content t ip) off src at m k
  content-stored k lt = elim (Bool-cases (k / block_size == off / block_size)) [
    | inl row ↦
        let here : block_of t ip (k / block_size) ≡ b =
          ap (block_of t ip) ((==_iff (k / block_size) (off / block_size)).0 row) ∙ e in
        let some_block : (b == 0) ≡ false = ground arith in
        let old : content t ip k ≡ t.bytes b (k % block_size) =
          ap (λ x. byte_at t.bytes x (k % block_size)) here ∙ rw some_block refl in
        ap (λ x. byte_at t'.bytes x (k % block_size)) (block_of-stored (k / block_size) ∙ here)
        ∙ rw (some_block, eq_self b) (inside ((==_iff (k / block_size) (off / block_size)).0 row))
        ∙ ap (λ y. if leb off k && ltb k (off + m) then src (at + (k - off)) else y) (sym old)
    | inr away ↦
        let out : (leb off k && ltb k (off + m)) ≡ false = ground arith in
        ap (λ x. byte_at t'.bytes x (k % block_size)) (block_of-stored (k / block_size))
        ∙ elsewhere (block_of t ip (k / block_size)) (λ q z. not_here away z q)
        ∙ rw out refl
  ]
    where
      inside :
          k / block_size ≡ off / block_size
          → blit (t.bytes b) (off % block_size) src at m (k % block_size) ≡ (
              if leb off k && ltb k (off + m)
              then src (at + (k - off))
              else t.bytes b (k % block_size))
      inside row =
          let test : (leb (off % block_size) (k % block_size)
                && ltb (k % block_size) (off % block_size + m))
              ≡ (leb off k && ltb k (off + m)) =
            ground arith in
          let index : at + (k % block_size - off % block_size) ≡ at + (k - off) = omega arith in
          rw (test, index) refl

      not_here :
          (k / block_size == off / block_size) ≡ false
          → block_of t ip (k / block_size) ≡ b
          → block_of t ip (k / block_size) ≢ 0
          → ⊥
      not_here away z nz' =
          let same =
            f.distinct (k / block_size) (off / block_size) (omega arith) (omega arith) nz'
              (z ∙ sym e) in
          ground arith

      elsewhere :
          (x : ℕ)
          → (x ≢ 0 → x ≢ b)
          → byte_at t'.bytes x (k % block_size) ≡ byte_at t.bytes x (k % block_size)
      elsewhere x ne = elim (Bool-cases (x == 0)) [
        | inl z ↦ rw z refl
        | inr q ↦
            let no : (x == b) ≡ false = let w = ne (ground arith) in ground arith in rw (q, no) refl
      ]

  Updated-stored : Updated t ip (blit (content t ip) off src at m) t'
  Updated-stored = record {
    file = IsFile-same block_of-stored refl (λ x. refl) refl f;
    content_lem = content-stored;
    keeps = λ bn lt q. block_of-stored bn;
    outside = λ x o. (
      record {
        used_lem = o.used_lem;
        no_block = λ bn lt q. o.no_block bn lt (sym (block_of-stored bn) ∙ q);
        no_table = o.no_table;
      },
      let ne : (x == b) ≡ false =
            let q = o.no_block (off / block_size) (omega arith) in ground arith in
          rw ne refl,
    );
    inode = refl;
    others = λ j ne. refl;
    rest = refl;
  }

-- A round of writei, in front of the others.
write_round :
    (s t : Fs) (ip b : ℕ) (src : ℕ → ℕ) (at off tot n : ℕ) (r : Result ℕ)
    → tot < n
    → off + (n - tot) ≤ max_file * block_size
    → b ≢ 0
    → block_of t ip (off / block_size) ≡ b
    → Updated s ip (content s ip) t
    → count_free s s.sb.size ≤ 2 + count_free t t.sb.size
    → Transfer
        (stored b src (off % block_size) at (chunk tot off n) t)
        ip
        (off + chunk tot off n)
        (n - (tot + chunk tot off n))
        (λ o. o ≡ off + chunk tot off n + (n - (tot + chunk tot off n)))
        (blit
          (content (stored b src (off % block_size) at (chunk tot off n) t) ip)
          (off + chunk tot off n)
          src
          (at + chunk tot off n)
          (n - (tot + chunk tot off n)))
        r
    → Transfer s ip off
        (n - tot)
        (λ o. o ≡ off + (n - tot))
        (blit (content s ip) off src at (n - tot))
        r
write_round s t ip b src at off tot n r more bound nz e u count =
    Transfer-round s t2 ip off (off + m) (n - tot) (n - (tot + m)) (λ o. o ≡ off + (n - tot))
      (λ o. o ≡ off + m + (n - (tot + m))) (blit (content s ip) off src at (n - tot))
      (blit (content t2 ip) (off + m) src (at + m) (n - (tot + m))) r
      (subst (λ x. count_free s s.sb.size ≤ 2 + x)
        (sym (count_free_same t.sb.size t t2 (λ j lt. refl))) count)
      (blocks_of-chunk tot off n more) (λ o h. h ∙ omega (arith, c.1))
      (λ t3 v. Updated-trans (Updated-trans u v1) (Updated-content whole v))
      (λ t3 v w.
        There-round t2 t3 ip b off m (n - tot) (n - (tot + m)) nz e2 c.2 (omega (arith, c.1))
          (v.keeps (off / block_size) (omega (arith, c.0, c.1)) (λ z. nz (sym e2 ∙ z))) w)
  where
    m : ℕ
    m = chunk tot off n

    t2 : Fs
    t2 = stored b src (off % block_size) at m t

    c : (0 < m) × (tot + m ≤ n) × (off % block_size + m ≤ block_size)
    c = chunk_bounds tot off n more

    v1 : Updated t ip (blit (content t ip) off src at m) t2
    v1 = Updated-stored t ip b off m at src u.file nz (omega (arith, c.0, c.1)) e c.2

    e2 : block_of t2 ip (off / block_size) ≡ b
    e2 = v1.keeps (off / block_size) (omega (arith, c.0, c.1)) (λ z. nz (sym e ∙ z)) ∙ e

    whole :
        (k : ℕ)
        → k < max_file * block_size
        → blit (content t2 ip) (off + m) src (at + m) (n - (tot + m)) k
          ≡ blit (content s ip) off src at (n - tot) k
    whole k lt =
        blit-more (content s ip) (content t2 ip) src at off m (n - (tot + m)) k (
          v1.content_lem k lt
          ∙ ap (λ y. if leb off k && ltb k (off + m) then src (at + (k - off)) else y)
              (u.content_lem k lt))
        ∙ ap (λ r. blit (content s ip) off src at r k) (omega (arith, c.1))

-- The loop of writei: the bytes are in the file, and the rest of its content is as before.
pub write_blocks-Transfer :
    (fuel : ℕ) (s : Fs) (ip : ℕ) (src : ℕ → ℕ) (at off tot n : ℕ)
    → IsFile s ip
    → tot ≤ n
    → n - tot ≤ fuel
    → off + (n - tot) ≤ max_file * block_size
    → Transfer s ip off
        (n - tot)
        (λ o. o ≡ off + (n - tot))
        (blit (content s ip) off src at (n - tot))
        (write_blocks fuel ip src at off tot n s)
unfolding write_blocks
write_blocks-Transfer zero s ip src at off tot n f le enough bound = (
  omega arith,
  Updated-content (λ k lt. ground arith) (Updated-same s ip f),
  λ k ge lt. absurd (omega arith),
)
write_blocks-Transfer (suc fuel) s ip src at off tot n f le enough bound =
    elim (Bool-cases (ltb tot n)) [
      | inr stops ↦ rw stops (
        ground arith,
        Updated-content (λ k lt. ground arith) (Updated-same s ip f),
        λ k ge lt. absurd (ground arith),
      )
      | inl more ↦
          let c = chunk_bounds tot off n (ground arith) in
          let m = chunk tot off n in
          rw more (
            Transfer-bmap s ip off (n - tot) (off / block_size) (λ o. o ≡ off + (n - tot))
              (blit (content s ip) off src at (n - tot))
              (λ b t.
                write_blocks fuel ip src (at + m) (off + m) (tot + m) n
                  (stored b src (off % block_size) at m t))
              (bmap ip (off / block_size) s) (ground arith)
              (bmap-Search s ip (off / block_size) f (ground arith))
              (λ b t nz e u count.
                write_round s t ip b src at off tot n
                  (write_blocks fuel ip src (at + m) (off + m) (tot + m) n
                    (stored b src (off % block_size) at m t))
                  (ground arith) bound nz e u count
                  (write_blocks-Transfer fuel (stored b src (off % block_size) at m t) ip src
                    (at + m) (off + m) (tot + m) n
                    (Updated-stored t ip b off m at src u.file nz (ground arith) e c.2).file
                    (omega (arith, c.1)) (omega (arith, c.0, c.1)) (omega (arith, c.1)))))
    ]
