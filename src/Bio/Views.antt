-- ===== src/Bio/Views.antt =====
-- What a block reads as, through the cache, and which operations keep that.
use pa.Common.{
  ◌≡◌, refl, sym, ap, ap₂, ◌∙◌, inl, inr, Bool, true, false, not, ◌&&◌, Option, none, some, List,
  [], ◌∷◌, ◌==◌, if◌then◌else◌, All, arith, Bool-cases, Option-cases, subst,
}
use pa.Bio.{Key, same_key, Buf, Cache, find_buf, change_buf, recycle}

pub same_key_lem : (a b : Key) → same_key a b ≡ true → a ≡ b
same_key_lem a b h =
    let d : a.dev ≡ b.dev = ground arith in
    let n : a.blockno ≡ b.blockno = ground arith in ap₂ (λ x y. record { dev = x; blockno = y }) d n

pub same_key_refl : (a : Key) → same_key a a ≡ true
same_key_refl a = ground arith

pub same_key_sym : (a b : Key) → same_key a b ≡ false → same_key b a ≡ false
same_key_sym a b h = ground arith

module _ {D : Type 0} where
  abbrev shown_key : Key → Option (Buf D) → Bool
  shown_key k none = true
  shown_key k (some b) = same_key b.key k

  abbrev list_or : Option (List (Buf D)) → List (Buf D)
  list_or none = []
  list_or (some bs) = bs

  -- A clean buffer that is valid holds what the disk holds, and one that is not valid is clean.
  abbrev pub Agrees : (Key → D) → Buf D → Type 0
  Agrees disk b =
      (b.valid ≡ true → b.dirty ≡ false → b.bytes ≡ disk b.key)
      × (b.valid ≡ false → b.dirty ≡ false)

  abbrev pub Absent : Key → List (Buf D) → Type 0
  Absent k = All (λ x. same_key x.key k ≡ false)

  -- No two buffers are of one block.
  abbrev pub Unique : List (Buf D) → Type 0
  Unique [] = Unit
  Unique (b ∷ bs) = Absent b.key bs × Unique bs

  pub record Coherent (c : Cache D) : Type 0 where
    pub agrees : All (Agrees c.disk) c.bufs
    pub unique : Unique c.bufs

  -- The block as a bread shows it.
  abbrev pub shown : (Key → D) → Key → Option (Buf D) → D
  shown disk k none = disk k
  shown disk k (some b) = if b.valid then b.bytes else disk k

  abbrev pub view : (Key → D) → List (Buf D) → Key → D
  view disk bs k = shown disk k (find_buf k bs)

  pub find_buf-Absent : (k : Key) (bs : List (Buf D)) → Absent k bs → find_buf k bs ≡ none
  unfolding find_buf
  find_buf-Absent k [] h = refl
  find_buf-Absent k (b ∷ bs) h = rw h.0 (find_buf-Absent k bs h.1)

  pub Absent-find_buf : (k : Key) (bs : List (Buf D)) → find_buf k bs ≡ none → Absent k bs
  unfolding find_buf
  Absent-find_buf k [] h = tt
  Absent-find_buf k (b ∷ bs) h = elim (Bool-cases (same_key b.key k)) [
    | inl here ↦ let e : some b ≡ none = rw (find_buf, here) at h in absurd (ground (arith, e))
    | inr gone ↦ (gone, Absent-find_buf k bs (rw (find_buf, gone) at h))
  ]

  pub find_buf-some :
      (k : Key) (bs : List (Buf D)) (b : Buf D) → find_buf k bs ≡ some b → same_key b.key k ≡ true
  unfolding find_buf
  find_buf-some k [] b h = ground (arith, h)
  find_buf-some k (x ∷ bs) b h = elim (Bool-cases (same_key x.key k)) [
    | inl here ↦
        let e : some x ≡ some b = rw (find_buf, here) at h in ap (λ o. shown_key k o) (sym e) ∙ here
    | inr gone ↦ find_buf-some k bs b (rw (find_buf, gone) at h)
  ]

  -- the buffer that recycling sets up
  abbrev fresh_buf : Key → Buf D → Buf D
  fresh_buf k b = record b { key = k; valid = false; dirty = false; refcnt = 1; locked = true }

  -- The list after recycling: one unused clean buffer has become the block's.
  pub data Recycled (k : Key) : List (Buf D) → List (Buf D) → Type 0 where
    taken :
        (b : Buf D) (bs : List (Buf D)) → b.dirty ≡ false → Recycled k (b ∷ bs) (fresh_buf k b ∷ bs)
    passed : (b : Buf D) (bs bs' : List (Buf D)) → Recycled k bs bs' → Recycled k (b ∷ bs) (b ∷ bs')

  pub recycle-Recycled :
      (k : Key) (bs bs' : List (Buf D)) → recycle k bs ≡ some bs' → Recycled k bs bs'
  unfolding recycle
  recycle-Recycled k [] bs' h = ground (arith, h)
  recycle-Recycled k (b ∷ bs) bs' h = elim (Option-cases (recycle k bs)) [
    | inr (rest, e) ↦
        let e' : some (b ∷ rest) ≡ some bs' = rw (recycle, e) at h in
        subst (Recycled k (b ∷ bs)) (ap (λ o. list_or o) e')
          (passed b bs rest (recycle-Recycled k bs rest e))
    | inl e ↦ elim (Bool-cases (b.refcnt == 0 && not b.dirty)) [
      | inl free ↦
          let e' : some (fresh_buf k b ∷ bs) ≡ some bs' = rw (recycle, e, free) at h in
          subst (Recycled k (b ∷ bs)) (ap (λ o. list_or o) e') (taken b bs (ground (arith, free)))
      | inr used ↦
          let e' : none ≡ some bs' = rw (recycle, e, used) at h in absurd (ground (arith, e'))
    ]
  ]

  shown-Agrees :
      (disk : Key → D) (b : Buf D)
      → Agrees disk b
      → b.dirty ≡ false
      → (if b.valid then b.bytes else disk b.key) ≡ disk b.key
  shown-Agrees disk b a clean = elim (Bool-cases b.valid) [
    | inl v ↦ rw v (a.0 v clean)
    | inr v ↦ rw v refl
  ]

  Recycled-Absent :
      (k j : Key) (bs bs' : List (Buf D))
      → Recycled k bs bs'
      → same_key k j ≡ false
      → Absent j bs
      → Absent j bs'
  Recycled-Absent k j _ _ (taken b bs d) ne h = (ne, h.1)
  Recycled-Absent k j _ _ (passed b bs bs' r) ne h = (h.0, Recycled-Absent k j bs bs' r ne h.1)

  -- Recycling a buffer for a block that has none changes what no block reads as.
  pub Recycled-view :
      (disk : Key → D) (k : Key) (bs bs' : List (Buf D))
      → Recycled k bs bs'
      → All (Agrees disk) bs
      → Unique bs
      → Absent k bs
      → All (Agrees disk) bs' × Unique bs' × ((j : Key) → view disk bs' j ≡ view disk bs j)
  unfolding find_buf
  Recycled-view disk k _ _ (taken b bs clean) agree uniq out = (
    ((λ v d. absurd (ground (arith, v)), λ v. refl), agree.1),
    (out.1, uniq.1),
    λ j. elim (Bool-cases (same_key k j)) [
      | inl same ↦
          subst (λ x. view disk (fresh_buf k b ∷ bs) x ≡ view disk (b ∷ bs) x)
            (same_key_lem k j same) (rw (same_key_refl k, out.0, find_buf-Absent k bs out.1) refl)
      | inr differ ↦ elim (Bool-cases (same_key b.key j)) [
        | inr gone ↦ rw (differ, gone) refl
        | inl here ↦
            subst
              (λ x. same_key k x ≡ false → view disk (fresh_buf k b ∷ bs) x ≡ view disk (b ∷ bs) x)
              (same_key_lem b.key j here)
              (λ ne.
                rw (ne, same_key_refl b.key, find_buf-Absent b.key bs uniq.0)
                  (sym (shown-Agrees disk b (agree.0) clean)))
              differ
      ]
    ],
  )
  Recycled-view disk k _ _ (passed b bs bs' r) agree uniq out =
      let (agree', uniq', same) = Recycled-view disk k bs bs' r agree.1 uniq.1 out.1 in
      (
        (agree.0, agree'),
        (Recycled-Absent k b.key bs bs' r (same_key_sym b.key k out.0) uniq.0, uniq'),
        λ j. elim (Bool-cases (same_key b.key j)) [
          | inl here ↦ rw here refl
          | inr gone ↦ rw gone (same j)
        ],
      )

  abbrev pub map_buf : (Buf D → Buf D) → Option (Buf D) → Option (Buf D)
  map_buf f none = none
  map_buf f (some b) = some (f b)

  module _ (k : Key) (f : Buf D → Buf D) (same : (x : Buf D) → (f x).key ≡ x.key) where
    pub find_buf-change_buf :
        (bs : List (Buf D)) (j : Key)
        → find_buf j (change_buf k f bs)
          ≡ (if same_key k j then map_buf f (find_buf j bs) else find_buf j bs)
    unfolding find_buf change_buf
    find_buf-change_buf [] j = elim (Bool-cases (same_key k j)) [
      | inl here ↦ rw here refl
      | inr gone ↦ rw gone refl
    ]
    find_buf-change_buf (b ∷ bs) j = elim (Bool-cases (same_key b.key k)) [
      | inl here ↦
          let at_k : same_key b.key j ≡ same_key k j =
            ap (λ x. same_key x j) (same_key_lem b.key k here) in
          let at_b : same_key (f b).key j ≡ same_key b.key j = ap (λ x. same_key x j) (same b) in
          elim (Bool-cases (same_key k j)) [
            | inl hit ↦ rw (here, at_b, at_k, hit) refl
            | inr miss ↦ rw (here, at_b, at_k, miss) refl
          ]
      | inr gone ↦ elim (Bool-cases (same_key b.key j)) [
        | inl hit ↦
            let other : same_key k j ≡ false =
              ap (same_key k) (sym (same_key_lem b.key j hit)) ∙ same_key_sym b.key k gone in
            rw (gone, hit, other) refl
        | inr miss ↦ rw (gone, miss) (find_buf-change_buf bs j)
      ]
    ]

    pub change_buf-Absent :
        (j : Key) (bs : List (Buf D)) → Absent j bs → Absent j (change_buf k f bs)
    unfolding change_buf
    change_buf-Absent j [] h = tt
    change_buf-Absent j (b ∷ bs) h = elim (Bool-cases (same_key b.key k)) [
      | inl here ↦ rw here (ap (λ x. same_key x j) (same b) ∙ h.0, h.1)
      | inr gone ↦ rw gone (h.0, change_buf-Absent j bs h.1)
    ]

    pub change_buf-Unique : (bs : List (Buf D)) → Unique bs → Unique (change_buf k f bs)
    unfolding change_buf
    change_buf-Unique [] u = tt
    change_buf-Unique (b ∷ bs) u = elim (Bool-cases (same_key b.key k)) [
      | inl here ↦ rw here (subst (λ x. Absent x bs) (sym (same b)) u.0, u.1)
      | inr gone ↦ rw gone (change_buf-Absent b.key bs u.0, change_buf-Unique bs u.1)
    ]

    pub change_buf-All :
        (P : Buf D → Type 0)
        → ((x : Buf D) → same_key x.key k ≡ true → P x → P (f x))
        → (bs : List (Buf D)) → All P bs
        → All P (change_buf k f bs)
    unfolding change_buf
    change_buf-All P step [] h = tt
    change_buf-All P step (b ∷ bs) h = elim (Bool-cases (same_key b.key k)) [
      | inl here ↦ rw here (step b here h.0, h.1)
      | inr gone ↦ rw gone (h.0, change_buf-All P step bs h.1)
    ]
