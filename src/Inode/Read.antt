-- ===== src/Inode/Read.antt =====
-- readi on a file that keeps its content in blocks.
use pa.Common.{
  ℕ, zero, suc, ◌+◌, ◌-◌, ◌*◌, ◌/◌, ◌%◌, ◌≤◌, ◌<◌, ◌≡◌, ◌≢◌, refl, sym, ap, fun_ext, ◌∙◌, true,
  false, ◌&&◌, ltb, leb, ◌==◌, if◌then◌else◌, Bool-cases, inl, inr, arith,
}
use pa.Fs.{block_size, max_file, Fs, Result, ok, stop, panic, stuck, overrun, continue, blit, Exec}
use pa.Inode.{bmap, chunk, read_blocks}
use pa.Inode.Map.{block_of, byte_at, content, IsFile}
use pa.Inode.Bmap.{Search, bmap-Search}
use pa.Inode.Updated.{count_free, Updated, Updated-same, Updated-trans, Updated-content}

-- the number of blocks that `n` bytes from `off` on touch
abbrev pub blocks_of : (off n : ℕ) → ℕ
blocks_of off n = if n == 0 then 0 else (off % block_size + n + 511) / block_size

-- The `n` bytes from `off` on are in blocks that are there.
abbrev pub There : Fs → (ip off n : ℕ) → Type 0
There s ip off n = (k : ℕ) → off ≤ k → k < off + n → block_of s ip (k / block_size) ≢ 0

-- What a transfer of `n` bytes from `off` on may end in: a panic is only for the lack of two free
-- blocks for each block that it touches.
abbrev pub Transfer :
    {A : Type 0} → (s : Fs) (ip off n : ℕ) (P : A → Type 0) (g : ℕ → ℕ) → Result A → Type 0
Transfer s ip off n P g (ok a s') = P a × Updated s ip g s' × There s' ip off n
Transfer s ip off n P g (stop panic) = count_free s s.sb.size < 2 * blocks_of off n
Transfer s ip off n P g (stop stuck) = ⊥
Transfer s ip off n P g (stop overrun) = ⊥

-- A byte of the block that bmap has found.
pub content-at :
    (s : Fs) (ip b off i : ℕ)
    → b ≢ 0
    → block_of s ip (off / block_size) ≡ b
    → off % block_size + i < block_size
    → content s ip (off + i) ≡ s.bytes b (off % block_size + i)
content-at s ip b off i nz e lt =
    let row : (off + i) / block_size ≡ off / block_size = omega arith in
    let column : (off + i) % block_size ≡ off % block_size + i = omega arith in
    let some_block : (b == 0) ≡ false = ground arith in
    ap (λ x. byte_at s.bytes (block_of s ip x) ((off + i) % block_size)) row
    ∙ ap (λ x. byte_at s.bytes x ((off + i) % block_size)) e
    ∙ rw (some_block, column) refl

-- A first part of `m` bytes, and the rest.
pub blit-split :
    (dst block c c1 : ℕ → ℕ) (at o off m r : ℕ)
    → ((i : ℕ) → i < m → block (o + i) ≡ c (off + i))
    → ((i : ℕ) → i < r → c1 (off + m + i) ≡ c (off + m + i))
    → blit (blit dst at block o m) (at + m) c1 (off + m) r ≡ blit dst at c off (m + r)
blit-split dst block c c1 at o off m r here behind = fun_ext split
  where
    split :
        (j : ℕ)
        → blit (blit dst at block o m) (at + m) c1 (off + m) r j ≡ blit dst at c off (m + r) j
    split j = elim (Bool-cases (leb (at + m) j && ltb j (at + m + r))) [
      | inl far ↦
          let whole : (leb at j && ltb j (at + (m + r))) ≡ true = ground arith in
          let same : off + m + (j - (at + m)) ≡ off + (j - at) = ground arith in
          rw (far, whole) (behind (j - (at + m)) (ground arith) ∙ ap c same)
      | inr not_far ↦ elim (Bool-cases (leb at j && ltb j (at + m))) [
        | inl near ↦
            let whole : (leb at j && ltb j (at + (m + r))) ≡ true = ground arith in
            rw (not_far, near, whole) (here (j - at) (ground arith))
        | inr not_near ↦
            let whole : (leb at j && ltb j (at + (m + r))) ≡ false = ground arith in
            rw (not_far, not_near, whole) refl
      ]
    ]

pub blit-more :
    (c c2 src : ℕ → ℕ) (at off m r k : ℕ)
    → c2 k ≡ blit c off src at m k
    → blit c2 (off + m) src (at + m) r k ≡ blit c off src at (m + r) k
blit-more c c2 src at off m r k e = grind arith

pub chunk_bounds :
    (tot off n : ℕ)
    → tot < n
    → (0 < chunk tot off n)
      × (tot + chunk tot off n ≤ n)
      × (off % block_size + chunk tot off n ≤ block_size)
chunk_bounds tot off n lt = omega arith

pub blocks_of-chunk :
    (tot off n : ℕ)
    → tot < n
    → 1 + blocks_of (off + chunk tot off n) (n - (tot + chunk tot off n)) ≤ blocks_of off (n - tot)
blocks_of-chunk tot off n lt = ground arith

-- One round in front of the others.
pub Transfer-round :
    {A : Type 0} (s s1 : Fs) (ip off off1 n n1 : ℕ) (P P1 : A → Type 0) (g g1 : ℕ → ℕ)
    (r : Result A)
    → count_free s s.sb.size ≤ 2 + count_free s1 s1.sb.size
    → 1 + blocks_of off1 n1 ≤ blocks_of off n
    → ((a : A) → P1 a → P a)
    → ((s2 : Fs) → Updated s1 ip g1 s2 → Updated s ip g s2)
    → ((s2 : Fs) → Updated s1 ip g1 s2 → There s2 ip off1 n1 → There s2 ip off n)
    → Transfer s1 ip off1 n1 P1 g1 r
    → Transfer s ip off n P g r
Transfer-round s s1 ip off off1 n n1 P P1 g g1 (ok a s2) count less p u w h =
    (p a h.0, u s2 h.1, w s2 h.1 h.2)
Transfer-round s s1 ip off off1 n n1 P P1 g g1 (stop panic) count less p u w h =
    omega (arith, count, less, h)
Transfer-round s s1 ip off off1 n n1 P P1 g g1 (stop stuck) count less p u w h = h
Transfer-round s s1 ip off off1 n n1 P P1 g g1 (stop overrun) count less p u w h = h

-- A round that starts with bmap.
pub Transfer-bmap :
    {A : Type 0} (s : Fs) (ip off n bn : ℕ) (P : A → Type 0) (g : ℕ → ℕ) (k : ℕ → Exec A)
    (r : Result ℕ)
    → 0 < blocks_of off n
    → Search s ip 2 (λ t. block_of t ip bn) r
    → ((b : ℕ) (t : Fs)
        → b ≢ 0
        → block_of t ip bn ≡ b
        → Updated s ip (content s ip) t
        → count_free s s.sb.size ≤ 2 + count_free t t.sb.size
        → Transfer s ip off n P g (k b t))
    → Transfer s ip off n P g (continue r k)
Transfer-bmap s ip off n bn P g k (ok b t) pos_blocks h f = f b t h.0 h.1 h.2 h.3
Transfer-bmap s ip off n bn P g k (stop panic) pos_blocks h f = omega (arith, h, pos_blocks)
Transfer-bmap s ip off n bn P g k (stop stuck) pos_blocks h f = h
Transfer-bmap s ip off n bn P g k (stop overrun) pos_blocks h f = h

-- The block of a round, and those of the rounds behind it.
pub There-round :
    (t t' : Fs) (ip b off m n n1 : ℕ)
    → b ≢ 0
    → block_of t ip (off / block_size) ≡ b
    → off % block_size + m ≤ block_size
    → off + m + n1 ≡ off + n
    → block_of t' ip (off / block_size) ≡ block_of t ip (off / block_size)
    → There t' ip (off + m) n1
    → There t' ip off n
There-round t t' ip b off m n n1 nz e fits whole same w k ge lt =
    elim (Bool-cases (ltb k (off + m))) [
      | inr far ↦ w k (ground arith) (omega (arith, whole))
      | inl near ↦
          let row : k / block_size ≡ off / block_size = ground arith in
          λ z. nz (sym e ∙ sym same ∙ sym (ap (block_of t' ip) row) ∙ z)
    ]

-- A round of readi, in front of the others.
read_round :
    (s t : Fs) (ip b : ℕ) (dst : ℕ → ℕ) (at off tot n : ℕ) (r : Result (ℕ → ℕ))
    → tot < n
    → off + (n - tot) ≤ max_file * block_size
    → b ≢ 0
    → block_of t ip (off / block_size) ≡ b
    → Updated s ip (content s ip) t
    → count_free s s.sb.size ≤ 2 + count_free t t.sb.size
    → Transfer t ip
        (off + chunk tot off n)
        (n - (tot + chunk tot off n))
        (λ d.
          d
          ≡ blit
              (blit dst at (t.bytes b) (off % block_size) (chunk tot off n))
              (at + chunk tot off n)
              (content t ip)
              (off + chunk tot off n)
              (n - (tot + chunk tot off n)))
        (content t ip)
        r
    → Transfer s ip off
        (n - tot)
        (λ d. d ≡ blit dst at (content s ip) off (n - tot))
        (content s ip)
        r
read_round s t ip b dst at off tot n r more bound nz e u count =
    Transfer-round s t ip off (off + m) (n - tot) (n - (tot + m))
      (λ d. d ≡ blit dst at (content s ip) off (n - tot))
      (λ d.
        d
        ≡ blit (blit dst at (t.bytes b) (off % block_size) m) (at + m) (content t ip) (off + m)
            (n - (tot + m)))
      (content s ip) (content t ip) r count (blocks_of-chunk tot off n more) (λ d h. h ∙ whole)
      (λ t' v. Updated-trans u (Updated-content u.content_lem v))
      (λ t' v w.
        let c = chunk_bounds tot off n more in
        There-round t t' ip b off m (n - tot) (n - (tot + m)) nz e c.2 (omega (arith, c.1))
          (v.keeps (off / block_size) (omega (arith, c.0, c.1)) (λ z. nz (sym e ∙ z))) w)
  where
    m : ℕ
    m = chunk tot off n

    whole :
        blit
          (blit dst at (t.bytes b) (off % block_size) m)
          (at + m)
          (content t ip)
          (off + m)
          (n - (tot + m))
        ≡ blit dst at (content s ip) off (n - tot)
    whole =
        let c = chunk_bounds tot off n more in
        blit-split dst (t.bytes b) (content s ip) (content t ip) at (off % block_size) off m
          (n - (tot + m))
          (λ i lt.
            sym (content-at t ip b off i nz e (omega (arith, c.2)))
            ∙ u.content_lem (off + i) (omega (arith, c.1)))
          (λ i lt. u.content_lem (off + m + i) (omega (arith, c.1)))
        ∙ ap (blit dst at (content s ip) off) (omega (arith, c.1))

-- The loop of readi: the bytes of the file, and nothing of its content changes.
pub read_blocks-Transfer :
    (fuel : ℕ) (s : Fs) (ip : ℕ) (dst : ℕ → ℕ) (at off tot n : ℕ)
    → IsFile s ip
    → n - tot ≤ fuel
    → off + (n - tot) ≤ max_file * block_size
    → Transfer s ip off
        (n - tot)
        (λ d. d ≡ blit dst at (content s ip) off (n - tot))
        (content s ip)
        (read_blocks fuel ip dst at off tot n s)
unfolding read_blocks
read_blocks-Transfer zero s ip dst at off tot n f enough bound =
    (fun_ext (λ j. ground arith), Updated-same s ip f, λ k ge lt. absurd (omega arith))
read_blocks-Transfer (suc fuel) s ip dst at off tot n f enough bound =
    elim (Bool-cases (ltb tot n)) [
      | inr stops ↦
          rw stops
            (fun_ext (λ j. ground arith), Updated-same s ip f, λ k ge lt. absurd (ground arith))
      | inl more ↦
          let c = chunk_bounds tot off n (ground arith) in
          let m = chunk tot off n in
          rw more (
            Transfer-bmap s ip off (n - tot) (off / block_size)
              (λ d. d ≡ blit dst at (content s ip) off (n - tot)) (content s ip)
              (λ b t.
                read_blocks fuel ip (blit dst at (t.bytes b) (off % block_size) m) (at + m)
                  (off + m) (tot + m) n t)
              (bmap ip (off / block_size) s) (ground arith)
              (bmap-Search s ip (off / block_size) f (ground arith))
              (λ b t nz e u count.
                read_round s t ip b dst at off tot n
                  (read_blocks fuel ip (blit dst at (t.bytes b) (off % block_size) m) (at + m)
                    (off + m) (tot + m) n t)
                  (ground arith) bound nz e u count
                  (read_blocks-Transfer fuel t ip (blit dst at (t.bytes b) (off % block_size) m)
                    (at + m) (off + m) (tot + m) n u.file (omega (arith, c.0, c.1))
                    (omega (arith, c.1)))))
    ]
