-- ===== src/Strings/Compare.antt =====
-- `memcmp`, `strncmp` and `strlen` against what they are to compute.
use pa.Common.{ℕ, zero, suc, ◌+◌, ◌<◌, ◌≡◌, refl, ◌≢◌, ◌↔◌, arith, some, pos}
use pa.Strings.{Mem, memcmp, strncmp, strlen}

memcmp-zero :
    (m : Mem) (a b n : ℕ) → memcmp m a b n ≡ pos 0 → (i : ℕ) → i < n → m (a + i) ≡ m (b + i)
unfolding memcmp
memcmp-zero m a b zero h i lt = absurd (omega arith)
memcmp-zero m a b (suc n) h zero lt = ground arith
memcmp-zero m a b (suc n) h (suc i) lt =
    ground (arith, λ (e : memcmp m (a + 1) (b + 1) n ≡ pos 0). memcmp-zero m (a + 1) (b + 1) n e i)

memcmp_same :
    (m : Mem) (a b n : ℕ) → ((i : ℕ) → i < n → m (a + i) ≡ m (b + i)) → memcmp m a b n ≡ pos 0
unfolding memcmp
memcmp_same m a b zero h = refl
memcmp_same m a b (suc n) h =
    let rest = memcmp_same m (a + 1) (b + 1) n (λ i lt. ground (arith, h (suc i) (omega arith))) in
    ground (arith, h 0 (omega arith))

-- `memcmp` returns 0 exactly when the two ranges hold the same bytes.
pub memcmp-eq-zero_iff :
    (m : Mem) (a b n : ℕ) → (memcmp m a b n ≡ pos 0) ↔ ((i : ℕ) → i < n → m (a + i) ≡ m (b + i))
memcmp-eq-zero_iff m a b n = (memcmp-zero m a b n, memcmp_same m a b n)

-- Two texts agree in their first `n` bytes, or up to a common NUL among them.
abbrev pub SameText : Mem → ℕ → ℕ → ℕ → Type 0
SameText m p q n = (i : ℕ) → i < n → ((j : ℕ) → j < i → m (p + j) ≢ 0) → m (p + i) ≡ m (q + i)

-- The texts behind a common first byte that is no NUL.
SameText-tail :
    (m : Mem) (p q n : ℕ) → m p ≢ 0 → SameText m p q (suc n) → SameText m (p + 1) (q + 1) n
SameText-tail m p q n ne h i lt nz = ground (arith, h (suc i) (omega arith) earlier)
  where
    earlier : (j : ℕ) → j < suc i → m (p + j) ≢ 0
    earlier zero k = ground arith
    earlier (suc j) k = ground (arith, nz j (omega arith))

strncmp-zero : (m : Mem) (p q n : ℕ) → strncmp m p q n ≡ pos 0 → SameText m p q n
unfolding strncmp
strncmp-zero m p q zero h i lt nz = absurd (omega arith)
strncmp-zero m p q (suc n) h zero lt nz = ground arith
strncmp-zero m p q (suc n) h (suc i) lt nz =
    let first = nz 0 (omega arith) in
    ground (
      arith,
      λ (e : strncmp m (p + 1) (q + 1) n ≡ pos 0).
          strncmp-zero m (p + 1) (q + 1) n e i (omega arith)
            (λ j k. ground (arith, nz (suc j) (omega arith))),
    )

strncmp_same : (m : Mem) (p q n : ℕ) → SameText m p q n → strncmp m p q n ≡ pos 0
unfolding strncmp
strncmp_same m p q zero h = refl
strncmp_same m p q (suc n) h =
    let first = h 0 (omega arith) (λ j k. absurd (omega arith)) in
    ground (arith, λ (ne : m p ≢ 0). strncmp_same m (p + 1) (q + 1) n (SameText-tail m p q n ne h))

-- `strncmp` returns 0 exactly when the texts agree up to `n` bytes or the first NUL.
pub strncmp-eq-zero_iff : (m : Mem) (p q n : ℕ) → (strncmp m p q n ≡ pos 0) ↔ SameText m p q n
strncmp-eq-zero_iff m p q n = (strncmp-zero m p q n, strncmp_same m p q n)

strlen_from :
    (fuel : ℕ) (m : Mem) (s n k : ℕ)
    → k < fuel
    → m (s + (n + k)) ≡ 0
    → ((j : ℕ) → j < k → m (s + (n + j)) ≢ 0)
    → strlen fuel m s n ≡ some (n + k)
unfolding strlen
strlen_from zero m s n k lt z nz = absurd (omega arith)
strlen_from (suc fuel) m s n zero lt z nz = ground arith
strlen_from (suc fuel) m s n (suc k) lt z nz = ground (
  arith,
  nz 0 (omega arith),
  strlen_from fuel m s (n + 1) k (omega arith) (ground arith)
      (λ j h. ground (arith, nz (suc j) (omega arith))),
)

-- `strlen` returns the number of bytes before the first NUL, in one round more than that.
pub strlen_lem :
    (fuel : ℕ) (m : Mem) (s k : ℕ)
    → k < fuel
    → m (s + k) ≡ 0
    → ((j : ℕ) → j < k → m (s + j) ≢ 0)
    → strlen fuel m s 0 ≡ some k
strlen_lem fuel m s k lt z nz =
    ground (arith, strlen_from fuel m s 0 k lt (ground arith) (λ j h. ground (arith, nz j h)))
