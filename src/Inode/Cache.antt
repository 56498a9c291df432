-- ===== src/Inode/Cache.antt =====
-- The cache of inodes: an inode in use has one slot, and iget finds it or takes a free one.
use pa.Common.{
  ℕ, zero, suc, ◌+◌, ◌%◌, ◌^◌, ◌≤◌, ◌<◌, ◌≡◌, ◌≢◌, refl, sym, ap, ◌∙◌, subst, true, false, ◌&&◌,
  Option, none, some, ◌==◌, if◌then◌else◌, eq_self, ==_iff, update, Bool, Bool-cases, inl, inr,
  arith,
}
use pa.Fs.{num_inodes, Inode, Fs, Result, ok, stop, panic, stuck, overrun}
use pa.Inode.{positive, Slot, cached, missing, find_slot, iget}

-- The slot holds inode `inum` of `dev`, in use.
abbrev pub holds : (dev inum : ℕ) → Inode → Bool
holds dev inum i = positive (2 ^ 31) i.ref && i.dev == dev && i.inum == inum

-- What the scan over slots `i` to `i + n` finds, with the free slot that it already has.
abbrev Found : (c : ℕ → Inode) (dev inum i n : ℕ) → Option ℕ → Slot → Type 0
Found c dev inum i n empty (cached k) = (i ≤ k) × (k < i + n) × (holds dev inum (c k) ≡ true)
Found c dev inum i n (some e) (missing none) = ⊥
Found c dev inum i n none (missing none) =
    (j : ℕ) → i ≤ j → j < i + n → (holds dev inum (c j) ≡ false) × ((c j).ref ≢ 0)
Found c dev inum i n none (missing (some k)) =
    (i ≤ k)
    × (k < i + n)
    × ((c k).ref ≡ 0)
    × ((j : ℕ) → i ≤ j → j < i + n → holds dev inum (c j) ≡ false)
Found c dev inum i n (some e) (missing (some k)) =
    (k ≡ e) × ((j : ℕ) → i ≤ j → j < i + n → holds dev inum (c j) ≡ false)

-- A predicate on the first slot and on those behind it.
all_suc :
    (P : ℕ → Type 0) (i n : ℕ)
    → P i
    → ((j : ℕ) → i + 1 ≤ j → j < i + 1 + n → P j)
    → (j : ℕ) → i ≤ j
    → j < i + suc n
    → P j
all_suc P i n h f j ge lt = elim (Bool-cases (j == i)) [
  | inl e ↦ subst P (sym ((==_iff j i).0 e)) h
  | inr ne ↦ f j (ground arith) (omega arith)
]

Found-taken :
    (c : ℕ → Inode) (dev inum i n : ℕ) (empty : Option ℕ) (r : Slot)
    → holds dev inum (c i) ≡ false
    → (empty ≡ none → (c i).ref ≢ 0)
    → Found c dev inum (i + 1) n empty r
    → Found c dev inum i (suc n) empty r
Found-taken c dev inum i n empty (cached k) h t f = (omega (arith, f.0), omega (arith, f.1), f.2)
Found-taken c dev inum i n none (missing none) h t f =
    all_suc (λ j. (holds dev inum (c j) ≡ false) × ((c j).ref ≢ 0)) i n (h, t refl) f
Found-taken c dev inum i n none (missing (some k)) h t f = (
  omega (arith, f.0),
  omega (arith, f.1),
  f.2,
  all_suc (λ j. holds dev inum (c j) ≡ false) i n h f.3,
)
Found-taken c dev inum i n (some e) (missing none) h t f = f
Found-taken c dev inum i n (some e) (missing (some k)) h t f =
    (f.0, all_suc (λ j. holds dev inum (c j) ≡ false) i n h f.1)

Found-first :
    (c : ℕ → Inode) (dev inum i n : ℕ) (r : Slot)
    → holds dev inum (c i) ≡ false
    → (c i).ref ≡ 0
    → Found c dev inum (i + 1) n (some i) r
    → Found c dev inum i (suc n) none r
Found-first c dev inum i n (cached k) h t f = (omega (arith, f.0), omega (arith, f.1), f.2)
Found-first c dev inum i n (missing none) h t f = absurd f
Found-first c dev inum i n (missing (some k)) h t f = (
  omega (arith, f.0),
  omega (arith, f.0),
  ap (λ x. (c x).ref) f.0 ∙ t,
  all_suc (λ j. holds dev inum (c j) ≡ false) i n h f.1,
)

find_slot-Found :
    (n i dev inum : ℕ) (empty : Option ℕ) (c : ℕ → Inode)
    → Found c dev inum i n empty (find_slot n i dev inum empty c)
unfolding find_slot
find_slot-Found zero i dev inum none c = λ j ge lt. absurd (omega arith)
find_slot-Found zero i dev inum (some e) c = (refl, λ j ge lt. absurd (omega arith))
find_slot-Found (suc n) i dev inum (some e) c = elim (Bool-cases (holds dev inum (c i))) [
  | inl h ↦ rw h (omega arith, omega arith, h)
  | inr h ↦ rw h (
      Found-taken c dev inum i n (some e) (find_slot n (i + 1) dev inum (some e) c) h
        (λ q. absurd (cc q)) (find_slot-Found n (i + 1) dev inum (some e) c))
]
find_slot-Found (suc n) i dev inum none c = elim (Bool-cases (holds dev inum (c i))) [
  | inl h ↦ rw h (omega arith, omega arith, h)
  | inr h ↦ elim (Bool-cases ((c i).ref == 0)) [
    | inl free ↦
        rw (h, free)
          (Found-first c dev inum i n (find_slot n (i + 1) dev inum (some i) c) h (ground arith)
            (find_slot-Found n (i + 1) dev inum (some i) c))
    | inr busy ↦
        rw (h, busy)
          (Found-taken c dev inum i n none (find_slot n (i + 1) dev inum none c) h
            (λ q zero. absurd (ground arith)) (find_slot-Found n (i + 1) dev inum none c))
  ]
]

-- No two slots in use hold the same inode.
abbrev pub Unique : (ℕ → Inode) → Type 0
Unique c =
    (dev inum i j : ℕ)
    → i < num_inodes
    → j < num_inodes
    → holds dev inum (c i) ≡ true
    → holds dev inum (c j) ≡ true
    → i ≡ j

-- What iget does when it returns slot `i`: it is the slot that held the inode, with one more
-- reference, or if there was none a slot without references, which now holds it.
pub record Got (s : Fs) (dev inum i : ℕ) (s' : Fs) : Type 0 where
  pub bounded : i < num_inodes
  pub slot : s'.icache i ≡ (
      if holds dev inum (s.icache i)
      then record (s.icache i) { ref = ((s.icache i).ref + 1) % 2 ^ 32 }
      else record (s.icache i) { dev = dev; inum = inum; ref = 1; valid = false })
  pub recycled :
      holds dev inum (s.icache i) ≡ false
      → ((s.icache i).ref ≡ 0) × ((j : ℕ) → j < num_inodes → holds dev inum (s.icache j) ≡ false)
  pub others : (j : ℕ) → j ≢ i → s'.icache j ≡ s.icache j
  pub rest : s' ≡ (record s { icache = s'.icache })
  pub unique : Unique s'.icache

-- iget panics when no slot holds the inode and none is without references.
abbrev pub Iget : Fs → (dev inum : ℕ) → Result ℕ → Type 0
Iget s dev inum (ok i s') = Got s dev inum i s'
Iget s dev inum (stop panic) =
    (j : ℕ) → j < num_inodes → (holds dev inum (s.icache j) ≡ false) × ((s.icache j).ref ≢ 0)
Iget s dev inum (stop stuck) = ⊥
Iget s dev inum (stop overrun) = ⊥

-- A slot that holds the inode may hold it with another count, or no longer be in use.
Unique-same :
    (c : ℕ → Inode) (i : ℕ) (x : Inode)
    → Unique c
    → i < num_inodes
    → x.dev ≡ (c i).dev
    → x.inum ≡ (c i).inum
    → positive (2 ^ 31) (c i).ref ≡ true
    → Unique (update c i x)
Unique-same c i x u lt d n live dev inum a b la lb ha hb =
    u dev inum a b la lb (back a ha) (back b hb)
  where
    back : (j : ℕ) → holds dev inum (update c i x j) ≡ true → holds dev inum (c j) ≡ true
    back j h = elim (Bool-cases (j == i)) [
      | inr ne ↦ (rw ne at h)
      | inl e ↦
          let here : holds dev inum x ≡ true = (rw e at h) in
          ap (λ k. holds dev inum (c k)) ((==_iff j i).0 e) ∙ ground (arith, live, d, n)
    ]

-- A slot may take an inode that no slot holds.
Unique-new :
    (c : ℕ → Inode) (i : ℕ) (x : Inode)
    → Unique c
    → ((j : ℕ) → j < num_inodes → holds x.dev x.inum (c j) ≡ false)
    → Unique (update c i x)
Unique-new c i x u out dev inum a b la lb ha hb = elim (Bool-cases (a == i)) [
  | inl ea ↦ elim (Bool-cases (b == i)) [
    | inl eb ↦ (==_iff a i).0 ea ∙ sym ((==_iff b i).0 eb)
    | inr nb ↦ absurd (clash b lb (rw ea at ha) (rw nb at hb))
  ]
  | inr na ↦ elim (Bool-cases (b == i)) [
    | inl eb ↦ absurd (clash a la (rw eb at hb) (rw na at ha))
    | inr nb ↦ u dev inum a b la lb (rw na at ha) (rw nb at hb)
  ]
]
  where
    clash : (j : ℕ) → j < num_inodes → holds dev inum x ≡ true → holds dev inum (c j) ≡ true → ⊥
    clash j lt here there = let no = out j lt in ground arith

-- From a cache in which no two slots in use hold the same inode, iget panics exactly when no slot
-- holds the inode and every slot is in use. Otherwise it returns the slot that
-- holds the inode, with one more reference, or a slot without references that it
-- sets up for the inode; no other slot changes, and no two slots in use hold the same inode.
pub iget_lem : (dev inum : ℕ) (s : Fs) → Unique s.icache → Iget s dev inum (iget dev inum s)
unfolding iget
iget_lem dev inum s u =
    go (find_slot num_inodes 0 dev inum none s.icache)
      (find_slot-Found num_inodes 0 dev inum none s.icache)
  where
    go :
        (r : Slot)
        → Found s.icache dev inum 0 num_inodes none r
        → Iget s dev inum (elim r [
          | cached i ↦ ok i (record s {
            icache =
                update s.icache i (record (s.icache i) { ref = ((s.icache i).ref + 1) % 2 ^ 32 });
          })
          | missing none ↦ stop panic
          | missing (some i) ↦ ok i (record s {
            icache =
                update s.icache i
                  (record (s.icache i) { dev = dev; inum = inum; ref = 1; valid = false });
          })
        ])
    go (missing none) f = λ j lt. f j (omega arith) lt
    go (cached i) f = record {
      bounded = f.1;
      slot = rw (eq_self i, f.2);
      recycled = λ no. absurd (cc (no, f.2));
      others = λ j ne. ground arith;
      rest = refl;
      unique =
          Unique-same s.icache i (record (s.icache i) { ref = ((s.icache i).ref + 1) % 2 ^ 32 }) u
            f.1 refl refl (ground (arith, f.2));
    }
    go (missing (some i)) f = record {
      bounded = f.1;
      slot = rw (eq_self i, f.3 i f.0 f.1);
      recycled = λ no. (f.2, λ j lt. f.3 j (omega arith) lt);
      others = λ j ne. ground arith;
      rest = refl;
      unique =
          Unique-new s.icache i
            (record (s.icache i) { dev = dev; inum = inum; ref = 1; valid = false }) u
            (λ j lt. f.3 j (omega arith) lt);
    }
