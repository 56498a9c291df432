-- ===== src/Proc/Waits.antt =====
-- What the scan of wait finds.
use pa.Common.{
  ℕ, zero, suc, ◌+◌, ◌≤◌, ◌<◌, ◌≡◌, refl, sym, ap, ◌∙◌, ◌⊎◌, inl, inr, Bool, true, false, some,
  arith, Bool-cases, ℕ_discrete,
}
use pa.Proc.{Proc, is_zombie, is_parent, wait_scan, Scan, found, finished}

abbrev found_slot : Scan → ℕ
found_slot (found i) = i
found_slot (finished b) = 0

found-ne-finished : (i : ℕ) (b : Bool) → found i ≡ finished b → ⊥
found-ne-finished i b h = cc

pub some-inj : (x y : ℕ) → some x ≡ some y → x ≡ y
some-inj x y h = ground (arith, h)

pub Scan-cases : (s : Scan) → ((i : ℕ) × (s ≡ found i)) ⊎ ((b : Bool) × (s ≡ finished b))
Scan-cases (found i) = inl (i, refl)
Scan-cases (finished b) = inr (b, refl)

-- The scan finds a child that is a zombie,
pub wait_scan-found :
    (n p cur : ℕ) (kids : Bool) (t : ℕ → Proc) (i : ℕ)
    → wait_scan n p cur kids t ≡ found i
    → (is_parent (t i).parent cur ≡ true) × (is_zombie (t i).state ≡ true)
unfolding wait_scan
wait_scan-found zero p cur kids t i h = ground (arith, h)
wait_scan-found (suc n) p cur kids t i h = elim (Bool-cases (is_parent (t p).parent cur)) [
  | inr out ↦ wait_scan-found n (p + 1) cur kids t i (rw out at h)
  | inl kid ↦ elim (Bool-cases (is_zombie (t p).state)) [
    | inl z ↦
        let e : found p ≡ found i = rw (kid, z) at h in
        let here : p ≡ i = ap found_slot e in
        (
          ap (λ y. is_parent (t y).parent cur) (sym here) ∙ kid,
          ap (λ y. is_zombie (t y).state) (sym here) ∙ z,
        )
    | inr z ↦ wait_scan-found n (p + 1) cur true t i (rw (kid, z) at h)
  ]
]

wait_scan-true :
    (n p cur : ℕ) (t : ℕ → Proc) (b : Bool) → wait_scan n p cur true t ≡ finished b → b ≡ true
unfolding wait_scan
wait_scan-true zero p cur t b h = ground (arith, h)
wait_scan-true (suc n) p cur t b h = elim (Bool-cases (is_parent (t p).parent cur)) [
  | inr out ↦ wait_scan-true n (p + 1) cur t b (rw out at h)
  | inl kid ↦ elim (Bool-cases (is_zombie (t p).state)) [
    | inl z ↦ let e : found p ≡ finished b = rw (kid, z) at h in absurd (found-ne-finished p b e)
    | inr z ↦ wait_scan-true n (p + 1) cur t b (rw (kid, z) at h)
  ]
]

-- or says that no child is one, and whether there are children.
pub wait_scan-finished :
    (n p cur : ℕ) (kids : Bool) (t : ℕ → Proc) (b : Bool)
    → wait_scan n p cur kids t ≡ finished b
    → (j : ℕ) → p ≤ j
    → j < p + n
    → is_parent (t j).parent cur ≡ true
    → (is_zombie (t j).state ≡ false) × (b ≡ true)
unfolding wait_scan
wait_scan-finished zero p cur kids t b h j low high kid = absurd (omega arith)
wait_scan-finished (suc n) p cur kids t b h j low high kid =
    elim (Bool-cases (is_parent (t p).parent cur)) [
      | inr out ↦ elim (ℕ_discrete j p) [
        | yes same ↦ absurd (ground (arith, out, kid, ap (λ y. is_parent (t y).parent cur) same))
        | no more ↦
            wait_scan-finished n (p + 1) cur kids t b (rw out at h) j (omega arith) (omega arith)
              kid
      ]
      | inl kid' ↦ elim (Bool-cases (is_zombie (t p).state)) [
        | inl z ↦
            let e : found p ≡ finished b = rw (kid', z) at h in absurd (found-ne-finished p b e)
        | inr z ↦
            let rest : wait_scan n (p + 1) cur true t ≡ finished b = rw (kid', z) at h in
            elim (ℕ_discrete j p) [
              | yes same ↦
                  (ap (λ y. is_zombie (t y).state) same ∙ z, wait_scan-true n (p + 1) cur t b rest)
              | no more ↦
                  wait_scan-finished n (p + 1) cur true t b rest j (omega arith) (omega arith) kid
            ]
      ]
    ]

-- A scan that ends with children but no zombie has passed a child.
pub wait_scan-kid :
    (n p cur : ℕ) (t : ℕ → Proc)
    → wait_scan n p cur false t ≡ finished true
    → (j : ℕ) × (j < p + n) × (is_parent (t j).parent cur ≡ true)
unfolding wait_scan
wait_scan-kid zero p cur t h = absurd (ground (arith, h))
wait_scan-kid (suc n) p cur t h = elim (Bool-cases (is_parent (t p).parent cur)) [
  | inl kid ↦ (p, omega arith, kid)
  | inr out ↦
      let (j, inside, kid) = wait_scan-kid n (p + 1) cur t (rw out at h) in
      (j, omega (arith, inside), kid)
]

-- What a scan finds lies within it.
pub wait_scan-inside :
    (n p cur : ℕ) (kids : Bool) (t : ℕ → Proc) (i : ℕ)
    → wait_scan n p cur kids t ≡ found i
    → i < p + n
unfolding wait_scan
wait_scan-inside zero p cur kids t i h = absurd (found-ne-finished i kids (sym h))
wait_scan-inside (suc n) p cur kids t i h = elim (Bool-cases (is_parent (t p).parent cur)) [
  | inr out ↦ omega (arith, wait_scan-inside n (p + 1) cur kids t i (rw out at h))
  | inl kid ↦ elim (Bool-cases (is_zombie (t p).state)) [
    | inl z ↦
        let e : found p ≡ found i = rw (kid, z) at h in
        let here : p ≡ i = ap found_slot e in omega arith
    | inr z ↦ omega (arith, wait_scan-inside n (p + 1) cur true t i (rw (kid, z) at h))
  ]
]
