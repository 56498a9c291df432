-- ===== src/Inode/Whole.antt =====
-- What readi and writei promise for a file that keeps its content in blocks.
use pa.Common.{
  ℕ, ◌+◌, ◌-◌, ◌*◌, ◌/◌, ◌%◌, ◌^◌, ◌≤◌, ◌<◌, ◌≡◌, ◌≢◌, refl, sym, ap, ◌∙◌, subst, true, false, ◌&&◌,
  ◌||◌, ltb, ◌==◌, if◌then◌else◌, eq_self, update, Bool, Bool-cases, inl, inr, arith, ℤ, pos, min,
}
use pa.Syscall.{to_int, read_word}
use pa.Fs.{
  block_size, num_direct, max_file, t_dev, t_sfile, inode_block, inodes_per_block, update2, Inode,
  Dinode, Fs, Result, ok, stop, panic, stuck, overrun, continue, blit, pure, ◌>>◌,
}
use pa.Inode.{read_blocks, write_blocks, readi, writei, grow, iupdate}
use pa.Inode.Map.{lookup, block_of, byte_at, content, IsFile, Outside, IsFile-same}
use pa.Inode.Updated.{count_free, Updated}
use pa.Inode.Read.{blocks_of, Transfer, read_blocks-Transfer, There}
use pa.Inode.Write.{write_blocks-Transfer}
use pa.Inode.Small.{on_disk}
use pa.Inode.{to_dinode}

-- An inode whose content is in blocks: a regular file or a directory, of a size that is possible.
pub record IsRegular (s : Fs) (ip : ℕ) : Type 0 where
  pub no_device : ((s.icache ip).type == t_dev) ≡ false
  pub no_small_file : ((s.icache ip).type == t_sfile) ≡ false
  pub bounded : (s.icache ip).size ≤ max_file * block_size
  pub file : IsFile s ip

-- The number of bytes that a read of `n` bytes at `off` gives.
abbrev pub available : Fs → (ip off n : ℕ) → ℕ
available s ip off n = min n ((s.icache ip).size - off)

-- For a file in order, of any type but a device or a small file, and an offset up to its size, where the
-- offset and n add up to less than 2 ^ 32, readi returns as many of the n bytes as the file has from there on, and leaves the content of
-- the file and what belongs to something else as it is; afterwards these bytes are in blocks that
-- are there. It panics only if there are fewer than two free
-- blocks for each block that it reads.
pub readi-Transfer :
    (s : Fs) (ip : ℕ) (dst : ℕ → ℕ) (off n : ℕ)
    → IsRegular s ip
    → off ≤ (s.icache ip).size
    → off + n < 2 ^ 32
    → Transfer {A = (ℕ → ℕ) × ℤ} s ip off
        (available s ip off n)
        (λ r.
          r ≡ (blit dst 0 (content s ip) off (available s ip off n), pos (available s ip off n)))
        (content s ip)
        (readi ip dst off n s)
unfolding readi to_int
readi-Transfer s ip dst off n f start short =
    let inside : (ltb (s.icache ip).size off || ltb ((off + n) % 2 ^ 32) off) ≡ false =
      ground arith in
    let count : (if ltb (s.icache ip).size ((off + n) % 2 ^ 32)
          then (s.icache ip).size - off
          else n)
        ≡ available s ip off n =
      ground arith in
    rw (f.no_device, inside, f.no_small_file, count)
      (go (read_blocks (available s ip off n) ip dst 0 off 0 (available s ip off n) s) (
        subst
          (λ q.
            Transfer s ip off q (λ d. d ≡ blit dst 0 (content s ip) off q) (content s ip)
              (read_blocks (available s ip off n) ip dst 0 off 0 (available s ip off n) s))
          (omega arith)
          (read_blocks-Transfer (available s ip off n) s ip dst 0 off 0 (available s ip off n)
            f.file (omega arith) (omega (arith, f.bounded)))))
  where
    k : ℕ
    k = available s ip off n

    go :
        (r : Result (ℕ → ℕ))
        → Transfer s ip off k (λ d. d ≡ blit dst 0 (content s ip) off k) (content s ip) r
        → Transfer {A = (ℕ → ℕ) × ℤ} s ip off k
            (λ r. r ≡ (blit dst 0 (content s ip) off k, pos k))
            (content s ip)
            (continue r (λ d. pure (d, to_int k)))
    go (ok d t) h =
        let small : to_int k ≡ pos k = ground (arith, f.bounded) in (rw (h.0, small) refl, h.1, h.2)
    go (stop panic) h = h
    go (stop stuck) h = h
    go (stop overrun) h = h

-- What writei has done to the file when it returns.
pub record Wrote (s : Fs) (ip : ℕ) (src : ℕ → ℕ) (off n : ℕ) (s' : Fs) : Type 0 where
  pub regular : IsRegular s' ip
  pub content_lem :
      (k : ℕ) → k < max_file * block_size → content s' ip k ≡ blit (content s ip) off src 0 n k
  pub size_lem :
      (s'.icache ip).size
      ≡ (if ltb 0 n && ltb (s.icache ip).size (off + n) then off + n else (s.icache ip).size)
  pub outside : (x : ℕ) → Outside s ip x → s'.bytes x ≡ s.bytes x
  pub others : (j : ℕ) → j ≢ ip → s'.icache j ≡ s.icache j
  pub there : There s' ip off n
  pub saved : (s.icache ip).size < off + n → on_disk s' ip ≡ to_dinode (s'.icache ip) (on_disk s ip)

-- What a writei may end in.
abbrev pub Writei : (s : Fs) (ip : ℕ) (src : ℕ → ℕ) (off n : ℕ) → Result ℤ → Type 0
Writei s ip src off n (ok v s') = (v ≡ pos n) × Wrote s ip src off n s'
Writei s ip src off n (stop panic) = count_free s s.sb.size < 2 * blocks_of off n
Writei s ip src off n (stop stuck) = ⊥
Writei s ip src off n (stop overrun) = ⊥

-- What the end of writei changes leaves the blocks of the file alone.
module _ (t : Fs) (ip : ℕ) (c : ℕ → Inode) (d : ℕ → ℕ → Dinode)
    (e : (c ip).addrs ≡ (t.icache ip).addrs) where
  abbrev t' : Fs
  t' = record t { icache = c; dinodes = d }

  blocks_same : (x : ℕ) → block_of t' ip x ≡ block_of t ip x
  blocks_same x = ap (λ a. lookup (λ n. read_word a (4 * n)) t.bytes x) e

  content_same : (k : ℕ) → content t' ip k ≡ content t ip k
  content_same k = ap (λ x. byte_at t.bytes x (k % block_size)) (blocks_same (k / block_size))

  IsFile-kept : IsFile t ip → IsFile t' ip
  IsFile-kept f =
      IsFile-same blocks_same (ap (λ a. read_word a (4 * num_direct)) e) (λ x. refl) refl f

grow-Wrote :
    (s t : Fs) (ip : ℕ) (src : ℕ → ℕ) (off n : ℕ)
    → IsRegular s ip
    → off ≤ (s.icache ip).size
    → off + n ≤ max_file * block_size
    → Updated s ip (blit (content s ip) off src 0 n) t
    → There t ip off n
    → Writei s ip src off n (continue (grow ip (off + n) n t) (λ x. pure (pos n)))
unfolding grow iupdate
grow-Wrote s t ip src off n f start bound u w =
    elim (Bool-cases (ltb 0 n && ltb (t.icache ip).size (off + n))) [
      | inr stays ↦ rw stays (
        refl,
        record {
          regular = record {
            no_device = ap (λ i. i.type == t_dev) u.inode ∙ f.no_device;
            no_small_file = ap (λ i. i.type == t_sfile) u.inode ∙ f.no_small_file;
            bounded = omega (arith, f.bounded, size);
            file = u.file;
          };
          content_lem = u.content_lem;
          size_lem = size ∙ not_longer (test stays);
          outside = λ x o. (u.outside x o).1;
          others = u.others;
          there = w;
          saved = λ lt. let h = test stays in absurd (ground arith);
        },
      )
      | inl longer ↦ rw longer (
        refl,
        record {
          regular = record {
            no_device = rw (eq_self ip) (ap (λ i. i.type == t_dev) u.inode ∙ f.no_device);
            no_small_file = rw (eq_self ip) (ap (λ i. i.type == t_sfile) u.inode ∙ f.no_small_file);
            bounded = rw (eq_self ip) bound;
            file = IsFile-kept t ip cache dinodes addrs u.file;
          };
          content_lem = λ k lt. content_same t ip cache dinodes addrs k ∙ u.content_lem k lt;
          size_lem = rw (eq_self ip) (let h = test longer in rw h refl);
          outside = λ x o. (u.outside x o).1;
          others = λ j ne. ground arith ∙ u.others j ne;
          there = λ k ge lt z.
              w k ge lt (sym (blocks_same t ip cache dinodes addrs (k / block_size)) ∙ z);
          saved = λ lt.
              rw
                (
                  eq_self ip,
                  eq_self (inode_block (t.icache ip).inum t.sb),
                  eq_self ((t.icache ip).inum % inodes_per_block),
                )
                (ap (to_dinode (record (t.icache ip) { size = off + n })) same_disk);
        },
      )
    ]
  where
    size : (t.icache ip).size ≡ (s.icache ip).size
    size = ap (λ i. i.size) u.inode

    test :
        {b : Bool}
        → (ltb 0 n && ltb (t.icache ip).size (off + n)) ≡ b
        → (ltb 0 n && ltb (s.icache ip).size (off + n)) ≡ b
    test h = ap (λ z. ltb 0 n && ltb z (off + n)) (sym size) ∙ h

    not_longer :
        (ltb 0 n && ltb (s.icache ip).size (off + n)) ≡ false
        → (s.icache ip).size
          ≡ (if ltb 0 n && ltb (s.icache ip).size (off + n) then off + n else (s.icache ip).size)
    not_longer h = rw h refl

    cache : ℕ → Inode
    cache = update t.icache ip (record (t.icache ip) { size = off + n })

    addrs : (cache ip).addrs ≡ (t.icache ip).addrs
    addrs = rw (eq_self ip) refl

    same_disk : on_disk t ip ≡ on_disk s ip
    same_disk =
        ap (λ x. on_disk x ip) u.rest
        ∙ ap (λ i. s.dinodes (inode_block i.inum s.sb) (i.inum % inodes_per_block)) u.inode

    dinodes : ℕ → ℕ → Dinode
    dinodes =
        update2 t.dinodes (inode_block (cache ip).inum t.sb) ((cache ip).inum % inodes_per_block) (
          to_dinode (cache ip)
            (t.dinodes (inode_block (cache ip).inum t.sb) ((cache ip).inum % inodes_per_block)))

-- For a file in order, of any type but a device or a small file, an offset up to its size and an
-- end within the largest size, writei returns n. Then the content of the file is as before with
-- the n bytes written at the offset, all in blocks that are there; its size is the end of the
-- write if that is more; if it has grown, the inode on the disk is the cached one; the blocks
-- that belong to something else and the other inodes in the cache are as before; and the file is
-- in order. It panics only if there are fewer than two free blocks for each block that it
-- touches.
pub writei-Wrote :
    (s : Fs) (ip : ℕ) (src : ℕ → ℕ) (off n : ℕ)
    → IsRegular s ip
    → off ≤ (s.icache ip).size
    → off + n ≤ max_file * block_size
    → Writei s ip src off n (writei ip src off n s)
unfolding writei to_int
writei-Wrote s ip src off n f start bound =
    let inside : (ltb (s.icache ip).size off || ltb ((off + n) % 2 ^ 32) off) ≡ false =
      ground arith in
    let fits : ltb (max_file * block_size) ((off + n) % 2 ^ 32) ≡ false = ground arith in
    let count : ltb n (2 ^ 31) ≡ true = ground arith in
    rw (f.no_device, inside, fits, f.no_small_file, count)
      (go (write_blocks n ip src 0 off 0 n s) (
        subst
          (λ q.
            Transfer s ip off q (λ o. o ≡ off + q) (blit (content s ip) off src 0 q)
              (write_blocks n ip src 0 off 0 n s))
          (omega arith)
          (write_blocks-Transfer n s ip src 0 off 0 n f.file (omega arith) (omega arith)
            (omega arith))))
  where
    go :
        (r : Result ℕ)
        → Transfer s ip off n (λ o. o ≡ off + n) (blit (content s ip) off src 0 n) r
        → Writei s ip src off n (continue r (λ o. grow ip o n >> pure (pos n)))
    go (ok o t) h =
        subst (λ o. Writei s ip src off n (continue (grow ip o n t) (λ x. pure (pos n)))) (sym h.0)
          (grow-Wrote s t ip src off n f start bound h.1 h.2)
    go (stop panic) h = h
    go (stop stuck) h = h
    go (stop overrun) h = h
