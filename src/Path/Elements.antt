-- ===== src/Path/Elements.antt =====
-- `skipelem` takes a path apart into its elements.
use pa.Common.{
  ℕ, zero, suc, ◌+◌, ◌-◌, ◌≤◌, ◌<◌, ◌≡◌, ◌≢◌, refl, subst, ap, ◌∙◌, ◌⊎◌, inl, inr, Bool, true,
  false, ◌&&◌, none, some, List, [], ◌∷◌, ◌++◌, ltb, leb, ◌==◌, if◌then◌else◌, update, length,
  length-append, take, arith, All, Bool-cases, append-nil, get_or, dec_lt, ℕ_discrete,
}
use pa.Path.{
  dir_siz, slash, skip_slashes, split_element, move_name, store_name, skip_named, skipelem,
}

abbrev pub AllSlashes : List ℕ → Type 0
AllSlashes = All (λ c. c ≡ slash)

abbrev pub NoSlash : List ℕ → Type 0
NoSlash = All (λ c. c ≢ slash)

abbrev pub starts_with_slash : List ℕ → Bool
starts_with_slash [] = false
starts_with_slash (c ∷ path) = c == slash

-- What a buffer of `k` bytes from `i` on says as a name: its bytes up to a NUL or the end.
unfoldable pub name_text : (ℕ → ℕ) → ℕ → ℕ → List ℕ
name_text name i zero = []
name_text name i (suc k) =
    let rest = name_text name (i + 1) k in if name i == 0 then [] else name i ∷ rest

skip_slashes_lem :
    (path : List ℕ)
    → (gap : List ℕ) × (path ≡ gap ++ skip_slashes path)
      × AllSlashes gap
      × (starts_with_slash (skip_slashes path) ≡ false)
unfolding skip_slashes
skip_slashes_lem [] = ([], refl, tt, refl)
skip_slashes_lem (c ∷ path) = elim (Bool-cases (c == slash)) [
  | inl more ↦
      let (gap, split, all, ends) = skip_slashes_lem path in
      rw more (c ∷ gap, ap (λ l. c ∷ l) split, (ground arith, all), ends)
  | inr stop ↦ rw stop ([], refl, tt, stop)
]

split_element_lem :
    (path : List ℕ)
    → let (s, behind) = split_element path in
      (path ≡ s ++ behind) × NoSlash s × ((behind ≡ []) ⊎ (starts_with_slash behind ≡ true))
unfolding split_element
split_element_lem [] = (refl, tt, inl refl)
split_element_lem (c ∷ path) = elim (Bool-cases (c == slash)) [
  | inl stop ↦ rw stop (refl, tt, inr stop)
  | inr more ↦
      let (split, no_slash, ends) = split_element_lem path in
      rw more (ap (λ l. c ∷ l) split, (ground arith, no_slash), ends)
]

move_name_lem :
    (name : ℕ → ℕ) (i k : ℕ) (s : List ℕ) (j : ℕ)
    → k ≤ length s
    → move_name name i k s j ≡ (if leb i j && ltb j (i + k) then get_or s (j - i) 0 else name j)
unfolding move_name
move_name_lem name i zero s j h = ground arith
move_name_lem name i (suc k) [] j h = absurd (omega arith)
move_name_lem name i (suc k) (c ∷ s) j h = elim (dec_lt i j) [
  | yes later ↦
      let next : j - i ≡ suc (j - (i + 1)) = omega arith in
      rw next (ground (arith, move_name_lem (update name i c) (i + 1) k s j (omega arith)))
  | no now ↦ elim (ℕ_discrete i j) [
    | yes same ↦
        let first : j - i ≡ 0 = omega arith in
        rw first (ground (arith, move_name_lem (update name i c) (i + 1) k s j (omega arith)))
    | no other ↦ ground (arith, move_name_lem (update name i c) (i + 1) k s j (omega arith))
  ]
]

-- No byte of a path is a NUL.
abbrev pub NoNul : List ℕ → Type 0
NoNul = All (λ c. c ≢ 0)

name_text-eq-take :
    (name : ℕ → ℕ) (i k : ℕ) (s : List ℕ)
    → NoNul s
    → ((j : ℕ) → j < k → j < length s → name (i + j) ≡ get_or s j 0)
    → (length s < k → name (i + length s) ≡ 0)
    → name_text name i k ≡ take k s
unfolding name_text
name_text-eq-take name i zero s h same ends = refl
name_text-eq-take name i (suc k) [] h same ends =
    let first : name i ≡ 0 = ground (arith, ends (omega arith)) in rw first
name_text-eq-take name i (suc k) (c ∷ s) h same ends =
    let first : name i ≡ c = ground (arith, same 0 (omega arith) (omega arith)) in
    let tail =
      name_text-eq-take name (i + 1) k s h.1
        (λ j lt inside. ground (arith, same (suc j) (omega arith) (omega arith)))
        (λ lt. ground (arith, ends (omega arith))) in
    ground arith

-- The name that is stored for an element is the element, or its first 14 bytes.
name_text-store_name :
    (name : ℕ → ℕ) (s : List ℕ) → NoNul s → name_text (store_name name s) 0 dir_siz ≡ take dir_siz s
unfolding store_name
name_text-store_name name s h = elim (Bool-cases (leb dir_siz (length s))) [
  | inl long ↦
      let fits : dir_siz ≤ length s = ground arith in
      rw long (
        name_text-eq-take (move_name name 0 dir_siz s) 0 dir_siz s h
          (λ j lt inside. ground (arith, move_name_lem name 0 dir_siz s j fits))
          (λ lt. absurd (omega arith)))
  | inr short ↦
      let name' : ℕ → ℕ = update (move_name name 0 (length s) s) (length s) 0 in
      rw short (
        name_text-eq-take name' 0 dir_siz s h
          (λ j lt inside. ground (arith, move_name_lem name 0 (length s) s j (omega arith)))
          (λ lt. ground arith))
]

NoNul-append : (xs ys : List ℕ) → NoNul (xs ++ ys) → NoNul xs × NoNul ys
NoNul-append [] ys h = (tt, h)
NoNul-append (x ∷ xs) ys h = let (left, right) = NoNul-append xs ys h.1 in ((h.0, left), right)

-- How a path is made of what `skipelem` goes over and what it returns.
pub record Taken (path rest : List ℕ) (name : ℕ → ℕ) : Type 0 where
  pub lead : List ℕ
  pub element : List ℕ
  pub gap : List ℕ
  pub split : path ≡ lead ++ (element ++ (gap ++ rest))
  pub leads : AllSlashes lead
  pub nonempty : 0 < length element
  pub plain : NoSlash element
  pub gaps : AllSlashes gap
  pub parted : (gap ≢ []) ⊎ (rest ≡ [])
  pub next_plain : starts_with_slash rest ≡ false
  pub name_lem : name_text name 0 dir_siz ≡ take dir_siz element

first-nonempty :
    (c : ℕ) (cs : List ℕ)
    → starts_with_slash (c ∷ cs) ≡ false
    → 0 < length (split_element (c ∷ cs)).0
unfolding split_element
first-nonempty c cs h = ground arith

-- Behind an element there is a slash or the end, so slashes were gone over or nothing is left.
parted-gap :
    (behind gap rest : List ℕ)
    → behind ≡ gap ++ rest
    → (behind ≡ []) ⊎ (starts_with_slash behind ≡ true)
    → starts_with_slash rest ≡ false
    → (gap ≢ []) ⊎ (rest ≡ [])
parted-gap behind [] rest e ends next = ground arith
parted-gap behind (g ∷ gap) rest e ends next = inl (λ nil. cc)

-- The part behind the leading slashes.
skip_named_lem :
    (path lead tail : List ℕ) (name : ℕ → ℕ)
    → NoNul path
    → path ≡ lead ++ tail
    → AllSlashes lead
    → starts_with_slash tail ≡ false
    → ((skip_named tail name ≡ none) × AllSlashes path)
      ⊎ ((rest : List ℕ) × (name' : ℕ → ℕ) × (skip_named tail name ≡ some (rest, name'))
          × Taken path rest name')
unfolding skip_named
skip_named_lem path lead [] name h split leads plain = inl (refl, rw (split, append-nil lead) leads)
skip_named_lem path lead (c ∷ cs) name h split leads plain =
    let (s, behind) = split_element (c ∷ cs) in
    let (whole, no_slash, ends) = split_element_lem (c ∷ cs) in
    let (gap, gap_split, gaps, next) = skip_slashes_lem behind in
    let behind_lead = NoNul-append lead (c ∷ cs) (subst NoNul split h) in
    let clean = NoNul-append s behind (subst NoNul whole behind_lead.1) in
    inr (
      skip_slashes behind,
      store_name name s,
      refl,
      record {
        lead = lead;
        element = s;
        gap = gap;
        split = split ∙ ap (λ l. lead ++ l) (whole ∙ ap (λ l. s ++ l) gap_split);
        leads = leads;
        nonempty = first-nonempty c cs plain;
        plain = no_slash;
        gaps = gaps;
        parted = parted-gap behind gap (skip_slashes behind) gap_split ends next;
        next_plain = next;
        name_lem = name_text-store_name name s clean.0;
      },
    )

-- On a path without a NUL, `skipelem` returns the null pointer exactly for a path of slashes only;
-- otherwise it goes over the leading slashes, the first element and the slashes behind it,
-- and leaves in `name` the element cut to 14 bytes.
pub skipelem_lem :
    (path : List ℕ) (name : ℕ → ℕ)
    → NoNul path
    → ((skipelem path name ≡ none) × AllSlashes path)
      ⊎ ((rest : List ℕ) × (name' : ℕ → ℕ) × (skipelem path name ≡ some (rest, name'))
          × Taken path rest name')
unfolding skipelem
skipelem_lem path name h =
    let (lead, split, leads, plain) = skip_slashes_lem path in
    skip_named_lem path lead (skip_slashes path) name h split leads plain

-- The path that is left is shorter, so the loop of namex ends.
pub length-Taken :
    {path rest : List ℕ} {name : ℕ → ℕ} → Taken path rest name → length rest < length path
length-Taken {rest} t =
    let total = ap length t.split ∙ length-append t.lead (t.element ++ (t.gap ++ rest)) in
    omega (arith, t.nonempty, length-append t.element (t.gap ++ rest), length-append t.gap rest)
