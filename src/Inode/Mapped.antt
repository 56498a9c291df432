-- ===== src/Inode/Mapped.antt =====
-- Reading where all blocks of a file are there, which changes nothing.
use pa.Common.{
  ℕ, zero, suc, ◌+◌, ◌-◌, ◌*◌, ◌/◌, ◌%◌, ◌^◌, ◌≤◌, ◌<◌, ◌≡◌, ◌≢◌, refl, sym, ap, fun_ext, ◌∙◌,
  subst, true, false, ◌||◌, ltb, ◌==◌, if◌then◌else◌, Bool-cases, inl, inr, arith, pos, ◌&&◌, leb,
  ℤ,
}
use pa.Syscall.{to_int, read_word}
use pa.Fs.{block_size, num_direct, max_file, t_dev, t_sfile, Fs, ok, blit}
use pa.Inode.{map_entry, bmap, chunk, read_blocks, readi, writei}
use pa.Inode.Map.{addrs_of, table_of, block_of, content}
use pa.Inode.Read.{chunk_bounds, content-at, blit-split, There}
use pa.Inode.Whole.{available, IsRegular, Writei, writei-Wrote}

-- The `n` bytes from `off` on are in blocks that are there, within the largest size.
pub record Mapped (s : Fs) (ip off n : ℕ) : Type 0 where
  pub there : There s ip off n
  pub bounded : off + n ≤ max_file * block_size

bmap-there :
    (s : Fs) (ip bn : ℕ)
    → bn < max_file
    → block_of s ip bn ≢ 0
    → bmap ip bn s ≡ ok (block_of s ip bn) s
unfolding bmap map_entry
bmap-there s ip bn lt some_block = elim (Bool-cases (ltb bn num_direct)) [
  | inl direct ↦
      let e : block_of s ip bn ≡ addrs_of s ip bn = rw direct refl in
      let here : (addrs_of s ip bn == 0) ≡ false =
        not_zero (addrs_of s ip bn) (λ z. some_block (e ∙ z)) in
      rw (direct, here) refl
  | inr far ↦ elim (Bool-cases (table_of s ip == 0)) [
    | inl z ↦ absurd (some_block (rw (far, z) refl))
    | inr table ↦
        let near : ltb (bn - num_direct) 128 ≡ true = ground arith in
        let e : block_of s ip bn ≡ read_word (s.bytes (table_of s ip)) (4 * (bn - num_direct)) =
          rw (far, table) refl in
        let here : (read_word (s.bytes (table_of s ip)) (4 * (bn - num_direct)) == 0) ≡ false =
          not_zero (read_word (s.bytes (table_of s ip)) (4 * (bn - num_direct)))
            (λ z. some_block (e ∙ z)) in
        rw (far, near, table, here) refl
  ]
]
  where
    not_zero : (x : ℕ) → x ≢ 0 → (x == 0) ≡ false
    not_zero x h = ground arith

read_blocks-Mapped :
    (fuel : ℕ) (s : Fs) (ip : ℕ) (dst : ℕ → ℕ) (at off tot n : ℕ)
    → n - tot ≤ fuel
    → Mapped s ip off (n - tot)
    → read_blocks fuel ip dst at off tot n s ≡ ok (blit dst at (content s ip) off (n - tot)) s
unfolding read_blocks
read_blocks-Mapped zero s ip dst at off tot n enough h =
    ap (λ d. ok d s) (fun_ext (λ j. ground arith))
read_blocks-Mapped (suc fuel) s ip dst at off tot n enough h = elim (Bool-cases (ltb tot n)) [
  | inr stops ↦ rw stops (ap (λ d. ok d s) (fun_ext (λ j. ground arith)))
  | inl more ↦
      let c = chunk_bounds tot off n (ground arith) in
      let m = chunk tot off n in
      let b = block_of s ip (off / block_size) in
      let there : b ≢ 0 = h.there off (omega arith) (ground arith) in
      let found : bmap ip (off / block_size) s ≡ ok b s =
        bmap-there s ip (off / block_size) (ground (arith, h.bounded)) there in
      rw (more, found)
        (read_blocks-Mapped fuel s ip (blit dst at (s.bytes b) (off % block_size) m) (at + m)
            (off + m) (tot + m) n (omega (arith, c.0, c.1))
            (record {
              there = λ k ge lt. h.there k (omega arith) (omega (arith, c.1));
              bounded = omega (arith, c.1, h.bounded);
            })
          ∙ ap (λ d. ok d s)
              (blit-split dst (s.bytes b) (content s ip) (content s ip) at (off % block_size) off m
                  (n - (tot + m))
                  (λ i lt. sym (content-at s ip b off i there refl (omega (arith, c.2))))
                  (λ i lt. refl)
                ∙ ap (blit dst at (content s ip) off) (omega (arith, c.1))))
]

-- Where all the blocks that it reads are there, readi of a file that is neither a device nor a small
-- file, at an offset up to its size, returns as many of the n bytes as the file has from
-- there on, and changes nothing.
pub readi-Mapped :
    (s : Fs) (ip : ℕ) (dst : ℕ → ℕ) (off n : ℕ)
    → ((s.icache ip).type == t_dev) ≡ false
    → ((s.icache ip).type == t_sfile) ≡ false
    → off ≤ (s.icache ip).size
    → off + n < 2 ^ 32
    → Mapped s ip off (available s ip off n)
    → readi ip dst off n s
      ≡ ok (blit dst 0 (content s ip) off (available s ip off n), pos (available s ip off n)) s
unfolding readi to_int
readi-Mapped s ip dst off n no_device no_small_file start short h =
    let inside : (ltb (s.icache ip).size off || ltb ((off + n) % 2 ^ 32) off) ≡ false =
      ground arith in
    let count : (if ltb (s.icache ip).size ((off + n) % 2 ^ 32)
          then (s.icache ip).size - off
          else n)
        ≡ available s ip off n =
      ground arith in
    let small : ltb (available s ip off n) (2 ^ 31) ≡ true = ground (arith, h.bounded) in
    let loop : read_blocks (available s ip off n) ip dst 0 off 0 (available s ip off n) s
        ≡ ok (blit dst 0 (content s ip) off (available s ip off n)) s =
      subst
        (λ q.
          read_blocks (available s ip off n) ip dst 0 off 0 (available s ip off n) s
          ≡ ok (blit dst 0 (content s ip) off q) s)
        (omega arith)
        (read_blocks-Mapped (available s ip off n) s ip dst 0 off 0 (available s ip off n)
          (omega arith) (subst (Mapped s ip off) (omega arith) h)) in
    rw (no_device, inside, no_small_file, count, loop, small) refl

read_back :
    (c' c src dst : ℕ → ℕ) (off n : ℕ)
    → ((k : ℕ) → k < off + n → c' k ≡ blit c off src 0 n k)
    → (j : ℕ) → blit dst 0 c' off n j ≡ blit dst 0 src 0 n j
read_back c' c src dst off n h j = elim (Bool-cases (leb 0 j && ltb j (0 + n))) [
  | inl inside ↦
      let test : (leb off (off + (j - 0)) && ltb (off + (j - 0)) (off + n)) ≡ true = ground arith in
      let index : 0 + (off + (j - 0) - off) ≡ 0 + (j - 0) = omega arith in
      rw inside (h (off + (j - 0)) (ground arith) ∙ rw test (ap src index))
  | inr out ↦ rw out refl
]

-- What writei has written to a file in order, of any type but a device or a small file, readi gives
-- back: after a writei that has returned, at an offset up to the size and with an end within the
-- largest size, readi of the n bytes at that offset returns them and n, and changes nothing.
pub readi-writei-regular :
    (s s' : Fs) (ip : ℕ) (src dst : ℕ → ℕ) (off n : ℕ) (v : ℤ)
    → IsRegular s ip
    → off ≤ (s.icache ip).size
    → off + n ≤ max_file * block_size
    → writei ip src off n s ≡ ok v s'
    → (v ≡ pos n) × (readi ip dst off n s' ≡ ok (blit dst 0 src 0 n, pos n) s')
readi-writei-regular s s' ip src dst off n v f start bound e =
    let w : Writei s ip src off n (ok v s') =
      subst (Writei s ip src off n) e (writei-Wrote s ip src off n f start bound) in
    let long : available s' ip off n ≡ n = ground (arith, w.1.size_lem) in
    let back : blit dst 0 (content s' ip) off n ≡ blit dst 0 src 0 n = fun_ext (
      read_back (content s' ip) (content s ip) src dst off n
        (λ k lt. w.1.content_lem k (omega (arith, bound, lt)))) in
    let mapped : Mapped s' ip off (available s' ip off n) =
      subst (Mapped s' ip off) (sym long) (record { there = w.1.there; bounded = bound }) in
    (
      w.0,
      readi-Mapped s' ip dst off n w.1.regular.no_device w.1.regular.no_small_file
            (ground (arith, w.1.size_lem)) (omega arith) mapped
          ∙ ap (λ q. ok (blit dst 0 (content s' ip) off q, pos q) s') long
          ∙ ap (λ d. ok (d, pos n) s') back,
    )
