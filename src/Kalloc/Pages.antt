-- ===== src/Kalloc/Pages.antt =====
-- The free list as a list of different pages.
use pa.Common.{
  ℕ, zero, suc, ◌+◌, ◌-◌, ◌*◌, ◌%◌, ◌^◌, ◌≤◌, ◌<◌, ◌≡◌, ◌≢◌, ◌↔◌, refl, sym, ◌∙◌, true, false, not,
  ◌||◌, none, some, ltb, leb, ◌==◌, eq_self, update, List, [], ◌∷◌, All, arith, Bool-cases, inl,
  inr,
}
use pa.Kalloc.{
  page_size, kern_base, phys_top, v2p, page_round_up, Kmem, junk, kfree, kalloc, free_loop,
  freerange,
}

-- A page that the allocator may own: aligned, behind the kernel and below the top of memory.
pub record IsPage (end v : ℕ) : Type 0 where
  pub aligned : v % page_size ≡ 0
  pub behind : end ≤ v
  pub based : kern_base ≤ v
  pub below : v < kern_base + phys_top

-- From `p` the links lead through the pages of the list to null.
abbrev pub Chain : (ℕ → ℕ) → ℕ → List ℕ → Type 0
Chain word p [] = p ≡ 0
Chain word p (x ∷ xs) = (p ≡ x) × Chain word (word x) xs

abbrev pub Missing : ℕ → List ℕ → Type 0
Missing v = All (λ x. x ≢ v)

abbrev pub Distinct : List ℕ → Type 0
Distinct [] = Unit
Distinct (x ∷ xs) = Missing x xs × Distinct xs

pub record Free (end : ℕ) (k : Kmem) (pages : List ℕ) : Type 0 where
  pub chain : Chain k.word k.freelist pages
  pub valid : All (IsPage end) pages
  pub distinct : Distinct pages

-- A page that is filled with junk and linked in leaves the links of the other pages alone.
Chain-link :
    (end : ℕ) (word : ℕ → ℕ) (v w p : ℕ) (xs : List ℕ)
    → v % page_size ≡ 0
    → All (IsPage end) xs
    → Missing v xs
    → Chain word p xs
    → Chain (update (junk word v) v w) p xs
Chain-link end word v w p [] hv ok out c = c
Chain-link end word v w p (x ∷ xs) hv ok out c =
    let here = ok.0 in
    let same : update (junk word v) v w x ≡ word x = ground (arith, here.aligned) in
    (c.0, rw same (Chain-link end word v w (word x) xs hv ok.1 out.1 c.1))

-- kfree of a page that is not on the free list puts it in front; it does not panic.
pub kfree-Free :
    (end : ℕ) (k : Kmem) (pages : List ℕ) (v : ℕ)
    → Free end k pages
    → IsPage end v
    → Missing v pages
    → (k' : Kmem) × (kfree end k v ≡ some k') × Free end k' (v ∷ pages)
unfolding kfree
kfree-Free end k pages v f page out = (
  record { word = update (junk k.word v) v k.freelist; freelist = v },
  ground (arith, page.aligned, page.behind, page.based, page.below),
  record {
    chain = (
      refl,
      rw (eq_self v)
          (Chain-link end k.word v k.freelist k.freelist pages page.aligned f.valid out f.chain),
    );
    valid = (page, f.valid);
    distinct = (out, f.distinct);
  },
)

-- The guard of kfree, and what makes a page.
IsPage-iff :
    (end v : ℕ)
    → v < 2 ^ 32
    → kern_base ≤ end
    → (not (v % page_size == 0) || ltb v end || leb phys_top (v2p v)) ≡ false ↔ IsPage end v
IsPage-iff end v small high = (
  λ h. record {
    aligned = ground arith;
    behind = ground arith;
    based = ground arith;
    below = ground arith;
  },
  λ page. ground (arith, page.aligned, page.behind, page.based, page.below),
)

-- For an address of 32 bits and a kernel that ends above KERNBASE, kfree panics exactly when the
-- address is no page of the allocator.
pub kfree-eq-none_iff :
    (end : ℕ) (k : Kmem) (v : ℕ)
    → v < 2 ^ 32
    → kern_base ≤ end
    → (kfree end k v ≡ none) ↔ ¬ IsPage end v
unfolding kfree
kfree-eq-none_iff end k v small high = (
  λ panic page. let pass = (IsPage-iff end v small high).1 page in ground arith,
  λ no_page. elim (Bool-cases (not (v % page_size == 0) || ltb v end || leb phys_top (v2p v))) [
    | inl fail ↦ ground arith
    | inr pass ↦ absurd (no_page ((IsPage-iff end v small high).0 pass))
  ],
)

-- kalloc of a free list with a page returns the first page, a page of the allocator, and
-- takes it off the list, which does not hold it any more.
pub kalloc-Free :
    (end : ℕ) (k : Kmem) (p : ℕ) (pages : List ℕ)
    → Free end k (p ∷ pages)
    → ((kalloc k).1 ≡ p) × IsPage end p × Missing p pages × Free end (kalloc k).0 pages
unfolding kalloc
kalloc-Free end k p pages f =
    let nonzero : not (k.freelist == 0) ≡ true = ground (arith, f.chain.0, f.valid.0.based) in
    rw nonzero (
      f.chain.0,
      f.valid.0,
      f.distinct.0,
      record { chain = rw (f.chain.0) f.chain.1; valid = f.valid.1; distinct = f.distinct.1 },
    )

-- With no free page it returns 0 and changes nothing.
pub kalloc-nil : (end : ℕ) (k : Kmem) → Free end k [] → kalloc k ≡ (k, 0)
unfolding kalloc
kalloc-nil end k f = let null : k.freelist ≡ 0 = f.chain in rw null refl

-- The `n` pages from `p` on, the last one first, in front of `pages`.
unfoldable pub pages_from : ℕ → ℕ → List ℕ → List ℕ
pages_from zero p pages = pages
pages_from (suc n) p pages = pages_from n (p + page_size) (p ∷ pages)

below-Missing : (p : ℕ) (pages : List ℕ) → All (λ x. x < p) pages → Missing p pages
below-Missing p [] h = tt
below-Missing p (x ∷ xs) h = (omega (arith, h.0), below-Missing p xs h.1)

below-add : (p d : ℕ) (pages : List ℕ) → All (λ x. x < p) pages → All (λ x. x < p + d) pages
below-add p d [] h = tt
below-add p d (x ∷ xs) h = (omega (arith, h.0), below-add p d xs h.1)

free_loop-step :
    (fuel end : ℕ) (k k' : Kmem) (p vend : ℕ)
    → (p + page_size) % 2 ^ 32 ≡ p + page_size
    → p + page_size ≤ vend
    → kfree end k p ≡ some k'
    → free_loop (suc fuel) end k p vend ≡ free_loop fuel end k' (p + page_size) vend
unfolding free_loop
free_loop-step fuel end k k' p vend sum fits put =
    let inside : leb ((p + page_size) % 2 ^ 32) vend ≡ true = ground arith in
    rw (inside, put, sum) refl

free_loop_lem :
    (n fuel : ℕ) (end : ℕ) (k : Kmem) (pages : List ℕ) (p vend : ℕ)
    → n < fuel
    → p % page_size ≡ 0
    → end ≤ p
    → kern_base ≤ p
    → p + n * page_size ≤ vend
    → vend < p + (n + 1) * page_size
    → vend ≤ kern_base + phys_top
    → Free end k pages
    → All (λ x. x < p) pages
    → (k' : Kmem) × (free_loop fuel end k p vend ≡ some k') × Free end k' (pages_from n p pages)
unfolding free_loop pages_from
free_loop_lem n zero end k pages p vend h1 h2 h3 h4 h5 h6 h7 f below = absurd (omega arith)
free_loop_lem zero (suc fuel) end k pages p vend h1 h2 h3 h4 h5 h6 h7 f below =
    let over : leb ((p + page_size) % 2 ^ 32) vend ≡ false = ground arith in (k, rw over refl, f)
free_loop_lem (suc n) (suc fuel) end k pages p vend h1 h2 h3 h4 h5 h6 h7 f below =
    let page : IsPage end p = record {
      aligned = h2;
      behind = h3;
      based = h4;
      below = omega arith;
    } in
    let (k', put, f') = kfree-Free end k pages p f page (below-Missing p pages below) in
    let (k'', go, f'') =
      free_loop_lem n fuel end k' (p ∷ pages) (p + page_size) vend (omega arith) (omega arith)
        (omega arith) (omega arith) (omega arith) (omega arith) h7 f'
        (omega arith, below-add p page_size pages below) in
    (k'', free_loop-step fuel end k k' p vend (omega arith) (omega arith) put ∙ go, f'')

diff-le : (a b : ℕ) → a ≤ b → (d : ℕ) × (a + d ≡ b)
diff-le a b h = (b - a, omega arith)

-- freerange(vstart, vend), with both between the kernel's end and the top of memory, vend not below
-- vstart rounded up to a page, and every page on the free list below vstart, ends without a panic,
-- in one round more than there are pages, and puts exactly the whole pages of the range on the
-- free list, the last one first.
pub freerange_lem :
    (n fuel : ℕ) (end : ℕ) (k : Kmem) (pages : List ℕ) (vstart vend : ℕ)
    → n < fuel
    → end ≤ vstart
    → kern_base ≤ vstart
    → vstart ≤ kern_base + phys_top
    → page_round_up vstart + n * page_size ≤ vend
    → vend < page_round_up vstart + (n + 1) * page_size
    → vend ≤ kern_base + phys_top
    → Free end k pages
    → All (λ x. x < vstart) pages
    → (k' : Kmem) × (freerange fuel end k vstart vend ≡ some k')
      × Free end k' (pages_from n (page_round_up vstart) pages)
unfolding freerange
freerange_lem n fuel end k pages vstart vend h1 h2 h3 h0 h4 h5 h6 f below =
    let up : vstart ≤ page_round_up vstart = omega arith in
    let (gap, whole) = diff-le vstart (page_round_up vstart) up in
    free_loop_lem n fuel end k pages (page_round_up vstart) vend h1 (omega arith) (omega arith)
      (omega arith) h4 h5 h6 f (rw (sym whole) (below-add vstart gap pages below))
