-- ===== src/Kalloc/Tests.antt =====
-- The allocator on two pages.
use pa.Common.{ℕ, ◌+◌, ◌≡◌, ◌↔◌, refl, none, some, [], ◌∷◌, arith}
use pa.Kalloc.{Kmem, kfree, kalloc, freerange, page_round_up}
use pa.Kalloc.Pages.{
  IsPage, Missing, Free, kfree-Free, kfree-eq-none_iff, kalloc-Free, pages_from, freerange_lem,
}

abbrev kernel_end : ℕ
kernel_end = 0x8010_0000

abbrev page_a : ℕ
page_a = 0x8010_1000

abbrev page_b : ℕ
page_b = 0x8010_2000

abbrev none_free : Kmem
none_free = record { word = λ a. 0; freelist = 0 }

none_free-Free : Free kernel_end none_free []
none_free-Free = record { chain = refl; valid = tt; distinct = tt }

page_a-IsPage : IsPage kernel_end page_a
page_a-IsPage = record {
  aligned = refl;
  behind = omega arith;
  based = omega arith;
  below = omega arith;
}

kfree-Free_example :
    (k : Kmem) × (kfree kernel_end none_free page_a ≡ some k) × Free kernel_end k (page_a ∷ [])
kfree-Free_example = kfree-Free kernel_end none_free [] page_a none_free-Free page_a-IsPage tt

kfree-eq-none_iff_example :
    (kfree kernel_end none_free (page_a + 1) ≡ none) ↔ ¬ IsPage kernel_end (page_a + 1)
kfree-eq-none_iff_example =
    kfree-eq-none_iff kernel_end none_free (page_a + 1) (omega arith) (omega arith)

abbrev one_free : Kmem
one_free = record { word = λ a. 0; freelist = page_a }

one_free-Free : Free kernel_end one_free (page_a ∷ [])
one_free-Free = record { chain = (refl, refl); valid = (page_a-IsPage, tt); distinct = (tt, tt) }

kalloc-Free_example :
    ((kalloc one_free).1 ≡ page_a)
    × IsPage kernel_end page_a
    × Missing page_a []
    × Free kernel_end (kalloc one_free).0 []
kalloc-Free_example = kalloc-Free kernel_end one_free page_a [] one_free-Free

freerange_lem_example :
    (k : Kmem) × (freerange 3 kernel_end none_free kernel_end 0x8010_2fff ≡ some k)
    × Free kernel_end k (pages_from 2 (page_round_up kernel_end) [])
freerange_lem_example =
    freerange_lem 2 3 kernel_end none_free [] kernel_end 0x8010_2fff (omega arith) (omega arith)
      (omega arith) (omega arith) (omega arith) (omega arith) (omega arith) none_free-Free tt
