-- ===== src/Bio/Read.antt =====
-- bread shows a block as it was last written, and leaves every block as it reads.
use pa.Common.{
  ◌+◌, ◌%◌, ◌^◌, ◌≡◌, refl, sym, ap, ◌∙◌, ◌⊎◌, inl, inr, Bool, true, false, Option, none, some,
  List, [], ◌∷◌, All, arith, Bool-cases, Option-cases, subst,
}
use pa.Bio.{
  Key, same_key, Buf, Cache, Result, waits, panics, returns, find_buf, change_buf, recycle,
  acquire_buf, bget, transfer, read_in, bread,
}
use pa.Bio.Views.{
  Agrees, Absent, Coherent, shown, view, same_key_lem, same_key_refl, map_buf, Absent-find_buf,
  Recycled, taken, passed, recycle-Recycled, Recycled-view, find_buf-change_buf, change_buf-Unique,
  change_buf-All,
}

module _ {D : Type 0} where
  -- A state that reads as another one, block for block.
  pub record Reads (c c' : Cache D) : Type 0 where
    pub coherent : Coherent c'
    pub views : (j : Key) → view c'.disk c'.bufs j ≡ view c.disk c.bufs j

  Reads-trans : (a b c : Cache D) → Reads a b → Reads b c → Reads a c
  Reads-trans a b c x y = record { coherent = y.coherent; views = λ j. y.views j ∙ x.views j }

  abbrev cache_with : Cache D → List (Buf D) → Cache D
  cache_with c bs = record c { bufs = bs }

  shown-quiet :
      (disk : Key → D) (j : Key) (f : Buf D → Buf D)
      → ((x : Buf D) → (f x).valid ≡ x.valid)
      → ((x : Buf D) → (f x).bytes ≡ x.bytes)
      → (o : Option (Buf D)) → shown disk j (map_buf f o) ≡ shown disk j o
  shown-quiet disk j f valid bytes none = refl
  shown-quiet disk j f valid bytes (some b) = rw (valid b, bytes b) refl

  -- A change of a block's buffer that does not touch its contents and flags.
  quiet-Reads :
      (c : Cache D) (k : Key) (f : Buf D → Buf D)
      → ((x : Buf D) → (f x).key ≡ x.key)
      → ((x : Buf D) → (f x).valid ≡ x.valid)
      → ((x : Buf D) → (f x).dirty ≡ x.dirty)
      → ((x : Buf D) → (f x).bytes ≡ x.bytes)
      → Coherent c
      → Reads c (cache_with c (change_buf k f c.bufs))
  quiet-Reads c k f key valid dirty bytes co = record {
    coherent = record {
      agrees =
          change_buf-All k f key (Agrees c.disk)
            (λ x at_k a. (
              λ v d.
                  bytes x ∙ a.0 (sym (valid x) ∙ v) (sym (dirty x) ∙ d) ∙ ap c.disk (sym (key x)),
              λ v. dirty x ∙ a.1 (sym (valid x) ∙ v),
            ))
            c.bufs co.agrees;
      unique = change_buf-Unique k f key c.bufs co.unique;
    };
    views = λ j.
        ap (shown c.disk j) (find_buf-change_buf k f key c.bufs j)
        ∙ (elim (Bool-cases (same_key k j)) [
          | inr miss ↦ rw miss refl
          | inl hit ↦ rw hit (shown-quiet c.disk j f valid bytes (find_buf j c.bufs))
        ]);
  }

  -- What bread leaves of the block: a buffer that is locked and valid and holds what the block read
  -- as before.
  pub record Held (disk : Key → D) (bs bs' : List (Buf D)) (k : Key) : Type 0 where
    pub buf : Buf D
    pub found_lem : find_buf k bs' ≡ some buf
    pub locked_lem : buf.locked ≡ true
    pub valid_lem : buf.valid ≡ true
    pub bytes_lem : buf.bytes ≡ view disk bs k

  abbrev filled : D → Buf D → Buf D
  filled d x = record x { valid = true; bytes = d }

  -- Reading a block into its buffer, which was not valid.
  transfer-Reads :
      (c : Cache D) (k : Key) (b : Buf D)
      → find_buf k c.bufs ≡ some b
      → b.valid ≡ false
      → b.dirty ≡ false
      → b.locked ≡ true
      → Coherent c
      → Reads c (transfer k c) × Held c.disk c.bufs (transfer k c).bufs k
  unfolding transfer
  transfer-Reads c k b e invalid clean lock co =
      let f : Buf D → Buf D = filled (c.disk k) in
      let found : find_buf k (change_buf k f c.bufs) ≡ some (f b) =
        find_buf-change_buf k f (λ x. refl) c.bufs k ∙ rw (same_key_refl k, e) refl in
      rw (transfer, e, clean)
        (
          record {
            coherent = record {
              agrees =
                  change_buf-All k f (λ x. refl) (Agrees c.disk)
                    (λ x at_k a. (
                      λ v d. ap c.disk (sym (same_key_lem x.key k at_k)),
                      λ v. absurd (ground (arith, v)),
                    ))
                    c.bufs co.agrees;
              unique = change_buf-Unique k f (λ x. refl) c.bufs co.unique;
            };
            views = λ j.
                ap (shown c.disk j) (find_buf-change_buf k f (λ x. refl) c.bufs j)
                ∙ (elim (Bool-cases (same_key k j)) [
                  | inr miss ↦ rw miss refl
                  | inl hit ↦ rw hit (
                      subst
                        (λ x.
                          shown c.disk x (map_buf f (find_buf x c.bufs))
                          ≡ shown c.disk x (find_buf x c.bufs))
                        (same_key_lem k j hit) (rw (e, invalid) refl))
                ]);
          },
          record {
            buf = f b;
            found_lem = found;
            locked_lem = lock;
            valid_lem = refl;
            bytes_lem = rw (e, invalid) refl;
          },
        )

  abbrev cache_or : Cache D → Result D → Cache D
  cache_or d (waits c) = d
  cache_or d panics = d
  cache_or d (returns c) = c

  abbrev is_returned : Result D → Bool
  is_returned (waits c) = false
  is_returned panics = false
  is_returned (returns c) = true

  abbrev buf_or : Buf D → Option (Buf D) → Buf D
  buf_or d none = d
  buf_or d (some b) = b

  find-Agrees :
      (disk : Key → D) (k : Key) (bs : List (Buf D)) (b : Buf D)
      → find_buf k bs ≡ some b
      → All (Agrees disk) bs
      → Agrees disk b
  unfolding find_buf
  find-Agrees disk k [] b e a = absurd (ground (arith, e))
  find-Agrees disk k (x ∷ bs) b e a = elim (Bool-cases (same_key x.key k)) [
    | inl here ↦
        let e' : some x ≡ some b = rw (find_buf, here) at e in
        subst (Agrees disk) (ap (buf_or x) e') a.0
    | inr gone ↦ find-Agrees disk k bs b (rw (find_buf, gone) at e) a.1
  ]

  read_in_lem :
      (c c' : Cache D) (k : Key) (b : Buf D)
      → find_buf k c.bufs ≡ some b
      → b.locked ≡ true
      → Coherent c
      → read_in c k ≡ returns c'
      → Reads c c' × Held c.disk c.bufs c'.bufs k
  unfolding read_in
  read_in_lem c c' k b e lock co h = elim (Bool-cases b.valid) [
    | inl valid ↦
        let e' : returns c ≡ returns c' = rw (read_in, e, valid) at h in
        subst (λ x. Reads c x × Held c.disk c.bufs x.bufs k) (ap (cache_or c) e')
          (
            record { coherent = co; views = λ j. refl },
            record {
              buf = b;
              found_lem = e;
              locked_lem = lock;
              valid_lem = valid;
              bytes_lem = rw (e, valid) refl;
            },
          )
    | inr invalid ↦
        let e' : returns (transfer k c) ≡ returns c' = rw (read_in, e, invalid) at h in
        let clean = (find-Agrees c.disk k c.bufs b e co.agrees).1 invalid in
        subst (λ x. Reads c x × Held c.disk c.bufs x.bufs k) (ap (cache_or c) e')
          (transfer-Reads c k b e invalid clean lock co)
  ]

  Result-cases :
      (r : Result D)
      → ((c : Cache D) × (r ≡ waits c)) ⊎ ((r ≡ panics) ⊎ ((c : Cache D) × (r ≡ returns c)))
  Result-cases (waits c) = inl (c, refl)
  Result-cases panics = inr (inl refl)
  Result-cases (returns c) = inr (inr (c, refl))

  abbrev more_refs : Buf D → Buf D
  more_refs x = record x { refcnt = (x.refcnt + 1) % 2 ^ 32 }

  abbrev lock_up : Buf D → Buf D
  lock_up x = record x { locked = true }

  acquire_lem :
      (c c' : Cache D) (k : Key) (b : Buf D)
      → find_buf k c.bufs ≡ some b
      → Coherent c
      → acquire_buf c k ≡ returns c'
      → Reads c c' × ((b' : Buf D) × (find_buf k c'.bufs ≡ some b') × (b'.locked ≡ true))
  unfolding acquire_buf
  acquire_lem c c' k b e co h = elim (Bool-cases b.locked) [
    | inl held ↦
        let e' : waits c ≡ returns c' = rw (acquire_buf, e, held) at h in
        absurd (ground (arith, ap is_returned e'))
    | inr free ↦
        let e' : returns (cache_with c (change_buf k lock_up c.bufs)) ≡ returns c' =
          rw (acquire_buf, e, free) at h in
        subst (λ x. Reads c x × ((b' : Buf D) × (find_buf k x.bufs ≡ some b') × (b'.locked ≡ true)))
          (ap (cache_or c) e')
          (
            quiet-Reads c k lock_up (λ x. refl) (λ x. refl) (λ x. refl) (λ x. refl) co,
            (
              lock_up b,
              find_buf-change_buf k lock_up (λ x. refl) c.bufs k ∙ rw (same_key_refl k, e) refl,
              refl,
            ),
          )
  ]

  Recycled-find_buf :
      (k : Key) (bs bs' : List (Buf D))
      → Recycled k bs bs'
      → Absent k bs
      → (b : Buf D) × (find_buf k bs' ≡ some b) × (b.locked ≡ true)
  unfolding find_buf
  Recycled-find_buf k _ _ (taken b bs clean) out = (
    record b { key = k; valid = false; dirty = false; refcnt = 1; locked = true },
    rw (same_key_refl k) refl,
    refl,
  )
  Recycled-find_buf k _ _ (passed b bs bs' r) out =
      let (b', e, lock) = Recycled-find_buf k bs bs' r out.1 in (b', rw (out.0) e, lock)

  recycle-Reads :
      (c : Cache D) (k : Key) (bs : List (Buf D))
      → Coherent c
      → Absent k c.bufs
      → recycle k c.bufs ≡ some bs
      → Reads c (cache_with c bs) × ((b : Buf D) × (find_buf k bs ≡ some b) × (b.locked ≡ true))
  recycle-Reads c k bs co out h =
      let r = recycle-Recycled k c.bufs bs h in
      let (agrees, unique, views) = Recycled-view c.disk k c.bufs bs r co.agrees co.unique out in
      (
        record { coherent = record { agrees = agrees; unique = unique }; views = views },
        Recycled-find_buf k c.bufs bs r out,
      )

  bget_lem :
      (c c' : Cache D) (k : Key)
      → Coherent c
      → bget c k ≡ returns c'
      → Reads c c' × ((b : Buf D) × (find_buf k c'.bufs ≡ some b) × (b.locked ≡ true))
  unfolding bget
  bget_lem c c' k co h = elim (Option-cases (find_buf k c.bufs)) [
    | inl e ↦ elim (Option-cases (recycle k c.bufs)) [
      | inl full ↦
          let e' : panics ≡ returns c' = rw (bget, e, full) at h in
          absurd (ground (arith, ap is_returned e'))
      | inr (bs, took) ↦
          let e' : returns (cache_with c bs) ≡ returns c' = rw (bget, e, took) at h in
          subst (λ x. Reads c x × ((b : Buf D) × (find_buf k x.bufs ≡ some b) × (b.locked ≡ true)))
            (ap (cache_or c) e') (recycle-Reads c k bs co (Absent-find_buf k c.bufs e) took)
    ]
    | inr (b, e) ↦
        let c1 : Cache D = cache_with c (change_buf k more_refs c.bufs) in
        let r1 = quiet-Reads c k more_refs (λ x. refl) (λ x. refl) (λ x. refl) (λ x. refl) co in
        let e1 : find_buf k c1.bufs ≡ some (more_refs b) =
          find_buf-change_buf k more_refs (λ x. refl) c.bufs k ∙ rw (same_key_refl k, e) refl in
        let h' : acquire_buf c1 k ≡ returns c' = rw (bget, e) at h in
        let (r2, (b', e2, lock)) = acquire_lem c1 c' k (more_refs b) e1 r1.coherent h' in
        (Reads-trans c c1 c' r1 r2, (b', e2, lock))
  ]

  -- A bread that returns, on a cache with no two buffers of one block and its clean buffers as on the
  -- disk, keeps the cache so, leaves every block as it reads, and returns a locked buffer that holds
  -- the block as it reads, whether the block was cached or another buffer was recycled for it.
  pub bread_lem :
      (c c' : Cache D) (k : Key)
      → Coherent c
      → bread c k ≡ returns c'
      → Reads c c' × Held c.disk c.bufs c'.bufs k
  unfolding bread
  bread_lem c c' k co h = elim (Result-cases (bget c k)) [
    | inl (c1, e) ↦
        let e' : waits c1 ≡ returns c' = rw (bread, e) at h in
        absurd (ground (arith, ap is_returned e'))
    | inr (inl e) ↦
        let e' : panics ≡ returns c' = rw (bread, e) at h in
        absurd (ground (arith, ap is_returned e'))
    | inr (inr (c1, e)) ↦
        let (r1, (b, e1, lock)) = bget_lem c c1 k co e in
        let h' : read_in c1 k ≡ returns c' = rw (bread, e) at h in
        let (r2, held) = read_in_lem c1 c' k b e1 lock r1.coherent h' in
        (
          Reads-trans c c1 c' r1 r2,
          record {
            buf = held.buf;
            found_lem = held.found_lem;
            locked_lem = held.locked_lem;
            valid_lem = held.valid_lem;
            bytes_lem = held.bytes_lem ∙ r1.views k;
          },
        )
  ]
