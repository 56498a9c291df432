-- ===== src/Fs/Blocks.antt =====
-- The block allocator as a set of used blocks: what balloc takes and what bfree gives back.
use pa.Common.{
  ℕ, zero, suc, ◌+◌, ◌-◌, ◌*◌, ◌/◌, ◌%◌, ◌≤◌, ◌<◌, ◌≡◌, ◌≢◌, refl, sym, ap, ◌∙◌, subst, true, false,
  Option, none, some, ltb, ◌==◌, if◌then◌else◌, eq_self, ==_iff, Bool, Bool-cases, inl, inr, arith,
}
use pa.Fs.{
  bits_per_block, Fs, Result, panic, stuck, overrun, ok, stop, bitmap_block, bzero, free_bit,
  free_block, balloc, bfree, readsb, mark, continue, pure,
}

-- Whether block `b` is marked in the free map.
abbrev pub used : Fs → ℕ → Bool
used s b = s.bits (bitmap_block b s.sb) (b % bits_per_block)

-- The first index of `map` from `lo` on that is free, before `hi` and with `b + i < size`, or none.
abbrev First : (ℕ → Bool) → (b lo hi size : ℕ) → Option ℕ → Type 0
First map b lo hi size none = (j : ℕ) → lo ≤ j → j < hi → b + j < size → map j ≡ true
First map b lo hi size (some i) =
    (lo ≤ i)
    × (i < hi)
    × (b + i < size)
    × (map i ≡ false)
    × ((j : ℕ) → lo ≤ j → j < i → map j ≡ true)

-- One more index in front that is used.
First-suc :
    (map : ℕ → Bool) (b lo hi size : ℕ) (o : Option ℕ)
    → map lo ≡ true
    → First map b (lo + 1) hi size o
    → First map b lo hi size o
First-suc map b lo hi size none h f = λ j ge lt below. elim (Bool-cases (j == lo)) [
  | inl e ↦ ap map (ground arith) ∙ h
  | inr e ↦ f j (ground arith) lt below
]
First-suc map b lo hi size (some i) h f = (
  omega (arith, f.0),
  f.1,
  f.2,
  f.3,
  λ j ge lt. elim (Bool-cases (j == lo)) [
    | inl e ↦ ap map (ground arith) ∙ h
    | inr e ↦ f.4 j (ground arith) lt
  ],
)

free_bit-First :
    (n : ℕ) (map : ℕ → Bool) (b bi size : ℕ)
    → First map b bi (bi + n) size (free_bit n map b bi size)
unfolding free_bit
free_bit-First zero map b bi size = λ j ge lt below. absurd (omega arith)
free_bit-First (suc n) map b bi size = elim (Bool-cases (ltb (b + bi) size)) [
  | inr over ↦ rw over (λ j ge lt below. absurd (ground arith))
  | inl more ↦ elim (Bool-cases (map bi)) [
    | inr free ↦
        rw (more, free)
          (omega arith, omega arith, ground arith, free, λ j ge lt. absurd (omega arith))
    | inl taken ↦
        rw (more, taken)
          (First-suc map b bi (bi + suc n) size (free_bit n map b (bi + 1) size) taken (
            subst (λ hi. First map b (bi + 1) hi size (free_bit n map b (bi + 1) size))
              (omega arith) (free_bit-First n map b (bi + 1) size)))
  ]
]

-- The lowest free block from `lo` on, below `size` and among the next `n` blocks, or none.
abbrev Lowest : Fs → (lo n : ℕ) → Option ℕ → Type 0
Lowest s lo n none = (j : ℕ) → lo ≤ j → j < lo + n → j < s.sb.size → used s j ≡ true
Lowest s lo n (some k) =
    (lo ≤ k) × (k < s.sb.size) × (used s k ≡ false) × ((j : ℕ) → lo ≤ j → j < k → used s j ≡ true)

-- Block `b + i` is bit `i` of the map block of `b`, when `b` is the first block of that map block.
used-add :
    (s : Fs) (b j : ℕ)
    → b % bits_per_block ≡ 0
    → b ≤ j
    → j < b + bits_per_block
    → used s j ≡ s.bits (bitmap_block b s.sb) (j - b)
used-add s b j start ge lt =
    let block : bitmap_block j s.sb ≡ bitmap_block b s.sb = omega arith in
    let bit : j % bits_per_block ≡ j - b = omega arith in
    ap (λ k. s.bits k (j % bits_per_block)) block ∙ ap (s.bits (bitmap_block b s.sb)) bit

-- A map block without a free block, before a search that starts behind it.
Lowest-next :
    (s : Fs) (b n m : ℕ) (o : Option ℕ)
    → m ≡ bits_per_block + n
    → ((j : ℕ) → b ≤ j → j < b + bits_per_block → j < s.sb.size → used s j ≡ true)
    → Lowest s (b + bits_per_block) n o
    → Lowest s b m o
Lowest-next s b n m none e full l = λ j ge lt below.
    elim (Bool-cases (ltb j (b + bits_per_block))) [
      | inl near ↦ full j ge (ground arith) below
      | inr far ↦ l j (ground arith) (omega arith) below
    ]
Lowest-next s b n m (some k) e full l = (
  omega (arith, l.0),
  l.1,
  l.2,
  λ j ge lt. elim (Bool-cases (ltb j (b + bits_per_block))) [
    | inl near ↦ full j ge (ground arith) (omega (arith, l.1))
    | inr far ↦ l.3 j (ground arith) lt
  ],
)

First-Lowest :
    (s : Fs) (b n i : ℕ)
    → b % bits_per_block ≡ 0
    → First (s.bits (bitmap_block b s.sb)) b 0 bits_per_block s.sb.size (some i)
    → Lowest s b n (some (b + i))
First-Lowest s b n i start f = (
  omega arith,
  f.2,
  used-add s b (b + i) start (omega arith) (omega (arith, f.1))
      ∙ ap (s.bits (bitmap_block b s.sb)) (omega arith)
      ∙ f.3,
  λ j ge lt.
      used-add s b j start ge (omega (arith, f.1, lt)) ∙ f.4 (j - b) (omega arith) (omega arith),
)

-- One round of the outer loop, on what the inner loop has found.
Lowest-round :
    (s : Fs) (b n m : ℕ) (o o' : Option ℕ)
    → m ≡ bits_per_block + n
    → b % bits_per_block ≡ 0
    → First (s.bits (bitmap_block b s.sb)) b 0 bits_per_block s.sb.size o
    → Lowest s (b + bits_per_block) n o'
    → Lowest s b m (elim o [ some bi ↦ some (b + bi) | none ↦ o' ])
Lowest-round s b n m none o' e start f l =
    Lowest-next s b n m o' e
      (λ j ge lt below.
        used-add s b j start ge lt ∙ f (j - b) (omega arith) (omega arith) (omega arith))
      l
Lowest-round s b n m (some i) o' e start f l = First-Lowest s b m i start f

free_block-Lowest :
    (n : ℕ) (s : Fs) (b : ℕ)
    → b % bits_per_block ≡ 0
    → Lowest s b (n * bits_per_block) (free_block n s b)
unfolding free_block
free_block-Lowest zero s b start = λ j ge lt below. absurd (omega arith)
free_block-Lowest (suc n) s b start = elim (Bool-cases (ltb b s.sb.size)) [
  | inr over ↦ rw over (λ j ge lt below. absurd (ground arith))
  | inl more ↦ rw more (
      Lowest-round s b (n * bits_per_block) (suc n * bits_per_block)
        (free_bit bits_per_block (s.bits (bitmap_block b s.sb)) b 0 s.sb.size)
        (free_block n s (b + bits_per_block)) (omega arith) start
        (free_bit-First bits_per_block (s.bits (bitmap_block b s.sb)) b 0 s.sb.size)
        (free_block-Lowest n s (b + bits_per_block) (omega arith)))
]

-- What balloc does: block `b` was the lowest free block; now it is used and zeroed, and nothing else
-- has changed.
pub record Allocated (s : Fs) (b : ℕ) (s' : Fs) : Type 0 where
  pub below : b < s.sb.size
  pub was_free : used s b ≡ false
  pub lowest : (j : ℕ) → j < b → used s j ≡ true
  pub used_lem : (j : ℕ) → used s' j ≡ (if j == b then true else used s j)
  pub bytes_lem : (j i : ℕ) → s'.bytes j i ≡ (if j == b then 0 else s.bytes j i)
  pub others : s' ≡ (record s { bits = s'.bits; bytes = s'.bytes })

-- The result of balloc: a panic when every block is used, the lowest free block otherwise.
abbrev pub Balloc : Fs → Result ℕ → Type 0
Balloc s (ok b s') = Allocated s b s'
Balloc s (stop panic) = (j : ℕ) → j < s.sb.size → used s j ≡ true
Balloc s (stop stuck) = ⊥
Balloc s (stop overrun) = ⊥

pub used-mark :
    (s : Fs) (b j : ℕ) (v : Bool) → used (mark b v s) j ≡ (if j == b then v else used s j)
used-mark s b j v = elim (Bool-cases (j == b)) [
  | inl same ↦
      rw (
        (==_iff j b).0 same,
        eq_self b,
        eq_self (bitmap_block b s.sb),
        eq_self (b % bits_per_block),
      )
  | inr new ↦ elim (Bool-cases (bitmap_block j s.sb == bitmap_block b s.sb)) [
    | inr away ↦ rw (new, away)
    | inl near ↦
        let bit : (j % bits_per_block == b % bits_per_block) ≡ false = ground arith in
        let block = (==_iff (bitmap_block j s.sb) (bitmap_block b s.sb)).0 near in
        rw (near, bit, new) (ap (λ k. s.bits k (j % bits_per_block)) (sym block))
  ]
]

-- balloc panics exactly when every block below the size is used. Otherwise it returns the lowest
-- free block, which is then used and full of zeros, and changes nothing else.
pub balloc_lem : (s : Fs) → Balloc s (balloc s)
unfolding balloc bzero
balloc_lem s =
    go (free_block (s.sb.size / bits_per_block + 1) s 0)
      (free_block-Lowest (s.sb.size / bits_per_block + 1) s 0 refl)
  where
    go :
        (o : Option ℕ)
        → Lowest s 0 ((s.sb.size / bits_per_block + 1) * bits_per_block) o
        → Balloc s (elim o [
          | none ↦ stop panic
          | some b ↦ continue (continue (ok tt (mark b true s)) (λ _. bzero b)) (λ _. pure b)
        ])
    go none l = λ j lt. l j (omega arith) (omega arith) lt
    go (some b) l = record {
      below = l.1;
      was_free = l.2;
      lowest = λ j lt. l.3 j (omega arith) lt;
      used_lem = λ j. used-mark s b j true;
      bytes_lem = λ j i. ground arith;
      others = refl;
    }

-- the state with the super block read again
abbrev pub reread : Fs → Fs
reread s = record s { sb = s.super }

-- The result of bfree: a panic when the block is free, and otherwise just this block becomes free.
abbrev pub Bfree : Fs → ℕ → Result Unit → Type 0
Bfree s b (ok x s') =
    (used (reread s) b ≡ true)
    × ((j : ℕ) → used s' j ≡ (if j == b then false else used (reread s) j))
    × (s' ≡ (record (reread s) { bits = s'.bits }))
Bfree s b (stop panic) = used (reread s) b ≡ false
Bfree s b (stop stuck) = ⊥
Bfree s b (stop overrun) = ⊥

-- bfree reads the super block again and panics exactly when the block is free in the free map
-- that the super block names; otherwise it frees the block and changes nothing else.
pub bfree_lem : (s : Fs) (b : ℕ) → Bfree s b (bfree b s)
unfolding bfree readsb
bfree_lem s b = elim (Bool-cases (used (reread s) b)) [
  | inl taken ↦ rw taken (taken, λ j. used-mark (reread s) b j false, refl)
  | inr free ↦ rw free free
]

-- While the super block in memory is the one on the disk, bfree of the block that balloc has returned
-- succeeds, and leaves the same blocks used as before balloc; only the content of that block is lost.
pub bfree-balloc :
    (s : Fs) (b : ℕ) (s' : Fs)
    → s.super ≡ s.sb
    → balloc s ≡ ok b s'
    → (s'' : Fs) × (bfree b s' ≡ ok tt s'')
      × ((j : ℕ) → used s'' j ≡ used s j)
      × ((j i : ℕ) → j ≢ b → s''.bytes j i ≡ s.bytes j i)
bfree-balloc s b s' same e = go (bfree b s') refl (bfree_lem s' b)
  where
    a : Allocated s b s'
    a = subst (Balloc s) e (balloc_lem s)

    stays : reread s' ≡ s'
    stays =
        ap (λ x. record s' { sb = x })
          (ap (λ x. x.super) a.others ∙ same ∙ sym (ap (λ x. x.sb) a.others))

    taken : used (reread s') b ≡ true
    taken = ap (λ x. used x b) stays ∙ a.used_lem b ∙ rw (eq_self b)

    go :
        (r : Result Unit)
        → bfree b s' ≡ r
        → Bfree s' b r
        → (s'' : Fs) × (bfree b s' ≡ ok tt s'')
          × ((j : ℕ) → used s'' j ≡ used s j)
          × ((j i : ℕ) → j ≢ b → s''.bytes j i ≡ s.bytes j i)
    go (stop stuck) run f = absurd f
    go (stop overrun) run f = absurd f
    go (stop panic) run f = cc (taken, f)
    go (ok tt s'') run f = (
      s'',
      run,
      λ j. f.1 j ∙ ap (λ x. if j == b then false else used x j) stays ∙ unmark j (a.used_lem j),
      λ j i ne. ap (λ x. x.bytes j i) f.2 ∙ a.bytes_lem j i ∙ ground arith,
    )
      where
        unmark :
            (j : ℕ)
            → used s' j ≡ (if j == b then true else used s j)
            → (if j == b then false else used s' j) ≡ used s j
        unmark j m = elim (Bool-cases (j == b)) [
          | inl e ↦ rw e (sym (ap (used s) ((==_iff j b).0 e) ∙ a.was_free))
          | inr n ↦ rw n (m ∙ rw n refl)
        ]
