-- ===== src/Grep/Language.antt =====
-- What the patterns of grep.c mean, and that the matcher decides it.
use pa.Common.{
  ℕ, Bool, true, ◌||◌, List, [], ◌∷◌, ◌++◌, ◌==◌, if◌then◌else◌, All, ◌≡◌, ◌↔◌, ◌⊎◌, refl, sym, ap,
  subst, Bool-cases, inl, inr, arith,
}
use pa.Grep.{match_one, matchstar, is_empty, matchhere, match_any, match}

-- The byte `t` is one that `c` stands for.
abbrev Stands : ℕ → ℕ → Type 0
Stands c t = (c == b'.' || c == t) ≡ true

-- The text begins with a byte that `c` stands for, and the rest is as `P` says.
abbrev One : ℕ → (List ℕ → Type 0) → List ℕ → Type 0
One c P text = (t : ℕ) × (rest : List ℕ) × (text ≡ t ∷ rest) × Stands c t × P rest

-- The text begins with any number of bytes that `c` stands for, and the rest is as `P` says.
abbrev Star : ℕ → (List ℕ → Type 0) → List ℕ → Type 0
Star c P text = (xs : List ℕ) × (rest : List ℕ) × (text ≡ xs ++ rest) × All (Stands c) xs × P rest

-- The pattern matches at the beginning of the text.
abbrev pub Here : List ℕ → List ℕ → Type 0
Here [] text = Unit
Here (c ∷ []) text = if c == b'$' then text ≡ [] else One c (λ rest. Unit) text
Here (c ∷ d ∷ re) text = if d == b'*' then Star c (Here re) text else One c (Here (d ∷ re)) text

-- The pattern matches somewhere in the text.
abbrev Anywhere : List ℕ → List ℕ → Type 0
Anywhere re text = (xs : List ℕ) × (rest : List ℕ) × (text ≡ xs ++ rest) × Here re rest

-- The language of a pattern.
abbrev pub Matches : List ℕ → List ℕ → Type 0
Matches [] text = Anywhere [] text
Matches (c ∷ re) text = if c == b'^' then Here re text else Anywhere (c ∷ re) text

cons_head : (t u : ℕ) (xs ys : List ℕ) → ◌≡◌ {A = List ℕ} (t ∷ xs) (u ∷ ys) → t ≡ u
cons_head t u xs ys e = ap (λ (l : List ℕ). elim l [ [] ↦ t | y ∷ ys ↦ y ]) e

cons_tail : (t u : ℕ) (xs ys : List ℕ) → ◌≡◌ {A = List ℕ} (t ∷ xs) (u ∷ ys) → xs ≡ ys
cons_tail t u xs ys e = ap (λ (l : List ℕ). elim l [ [] ↦ xs | y ∷ ys ↦ ys ]) e

match_one_iff :
    (c : ℕ) (k : List ℕ → Bool) (P : List ℕ → Type 0) (text : List ℕ)
    → ((l : List ℕ) → (k l ≡ true) ↔ P l)
    → (match_one c k text ≡ true) ↔ One c P text
unfolding match_one
match_one_iff c k P [] h = (λ e. absurd (cc e), λ o. absurd (cc (o.2)))
match_one_iff c k P (t ∷ text) h = elim (Bool-cases (c == b'.' || c == t)) [
  | inl stands ↦ rw stands (
    λ e. (t, text, refl, stands, (h text).0 e),
    λ o. (h text).1 (subst P (sym (cons_tail t o.0 text o.1 o.2)) o.4),
  )
  | inr other_byte ↦ rw other_byte (
    λ e. absurd (cc e),
    λ o. absurd (let same = cons_head t o.0 text o.1 o.2 in cc (other_byte, o.3, same)),
  )
]

-- A text that begins with bytes that `c` stands for, seen from its first byte.
Star-cases :
    (c : ℕ) (P : List ℕ → Type 0) (t : ℕ) (text : List ℕ)
    → Star c P (t ∷ text)
    → P (t ∷ text) ⊎ (Stands c t × Star c P text)
Star-cases c P t text ([], rest, e, all, p) = inl (subst P (sym e) p)
Star-cases c P t text (x ∷ xs, rest, e, all, p) = inr (
  subst (Stands c) (sym (cons_head t x text (xs ++ rest) e)) all.0,
  (xs, rest, cons_tail t x text (xs ++ rest) e, all.1, p),
)

Star-nil : (c : ℕ) (P : List ℕ → Type 0) → Star c P [] → P []
Star-nil c P ([], rest, e, all, p) = subst P (sym e) p
Star-nil c P (x ∷ xs, rest, e, all, p) = absurd (cc e)

matchstar_iff :
    (c : ℕ) (k : List ℕ → Bool) (P : List ℕ → Type 0) (text : List ℕ)
    → ((l : List ℕ) → (k l ≡ true) ↔ P l)
    → (matchstar c k text ≡ true) ↔ Star c P text
unfolding matchstar
matchstar_iff c k P [] h = (λ e. ([], [], refl, tt, (h []).0 e), λ s. (h []).1 (Star-nil c P s))
matchstar_iff c k P (t ∷ text) h = elim (Bool-cases (k (t ∷ text))) [
  | inl here ↦ rw here (λ e. ([], t ∷ text, refl, tt, (h (t ∷ text)).0 here), λ s. refl)
  | inr later ↦ elim (Bool-cases (t == c || c == b'.')) [
    | inl more ↦
        let stands : Stands c t = ground arith in
        let rest = matchstar_iff c k P text h in
        rw (later, more)
          (
            λ e. let s = rest.0 e in (t ∷ s.0, s.1, ap (λ l. t ∷ l) s.2, (stands, s.3), s.4),
            λ s. elim (Star-cases c P t text s) [
              | inl p ↦ absurd (let yes_here = (h (t ∷ text)).1 p in cc (later, yes_here))
              | inr (st, tail) ↦ rest.1 tail
            ],
          )
    | inr stops ↦
        rw (later, stops)
          (
            λ e. absurd (cc e),
            λ s. elim (Star-cases c P t text s) [
              | inl p ↦ absurd (let yes_here = (h (t ∷ text)).1 p in cc (later, yes_here))
              | inr (st, tail) ↦ absurd (ground arith)
            ],
          )
  ]
]

is_empty_iff : (text : List ℕ) → (is_empty text ≡ true) ↔ (text ≡ [])
is_empty_iff [] = (λ e. refl, λ e. refl)
is_empty_iff (t ∷ text) = (λ e. absurd (cc e), λ e. absurd (cc e))

matchhere_iff : (re text : List ℕ) → (matchhere re text ≡ true) ↔ Here re text
unfolding matchhere
matchhere_iff [] text = (λ e. tt, λ h. refl)
matchhere_iff (c ∷ []) text = elim (Bool-cases (c == b'$')) [
  | inl end ↦ rw end (is_empty_iff text)
  | inr byte ↦
      rw byte (match_one_iff c (λ rest. true) (λ rest. Unit) text (λ l. (λ e. tt, λ u. refl)))
]
matchhere_iff (c ∷ d ∷ re) text = elim (Bool-cases (d == b'*')) [
  | inl star ↦ rw star (matchstar_iff c (matchhere re) (Here re) text (matchhere_iff re))
  | inr byte ↦
      rw byte (match_one_iff c (matchhere (d ∷ re)) (Here (d ∷ re)) text (matchhere_iff (d ∷ re)))
]

Anywhere-nil : (re : List ℕ) → Anywhere re [] → Here re []
Anywhere-nil re ([], rest, e, h) = subst (Here re) (sym e) h
Anywhere-nil re (x ∷ xs, rest, e, h) = absurd (cc e)

Anywhere-cases :
    (re : List ℕ) (t : ℕ) (text : List ℕ)
    → Anywhere re (t ∷ text)
    → Here re (t ∷ text) ⊎ Anywhere re text
Anywhere-cases re t text ([], rest, e, h) = inl (subst (Here re) (sym e) h)
Anywhere-cases re t text (x ∷ xs, rest, e, h) = inr (xs, rest, cons_tail t x text (xs ++ rest) e, h)

match_any_iff : (re text : List ℕ) → (match_any (matchhere re) text ≡ true) ↔ Anywhere re text
unfolding match_any
match_any_iff re [] = (
  λ e. ([], [], refl, (matchhere_iff re []).0 e),
  λ a. (matchhere_iff re []).1 (Anywhere-nil re a),
)
match_any_iff re (t ∷ text) = elim (Bool-cases (matchhere re (t ∷ text))) [
  | inl here ↦ rw here (λ e. ([], t ∷ text, refl, (matchhere_iff re (t ∷ text)).0 here), λ a. refl)
  | inr later ↦
      let rest = match_any_iff re text in
      rw later (
        λ e. let a = rest.0 e in (t ∷ a.0, a.1, ap (λ l. t ∷ l) a.2, a.3),
        λ a. elim (Anywhere-cases re t text a) [
          | inl h ↦
              absurd (let yes_here = (matchhere_iff re (t ∷ text)).1 h in cc (later, yes_here))
          | inr tail ↦ rest.1 tail
        ],
      )
]

-- match of a pattern and a text finds a match exactly when the text is in the language of the pattern:
-- behind a first `^` the pattern matches at the beginning of the text, and without it somewhere in
-- the text; `c*` stands for any number of bytes that `c` stands for, `.` for any byte, and a last
-- `$` for the end of the text.
pub match_iff : (re text : List ℕ) → (match re text ≡ true) ↔ Matches re text
unfolding match
match_iff [] text = match_any_iff [] text
match_iff (c ∷ re) text = elim (Bool-cases (c == b'^')) [
  | inl anchored ↦ rw anchored (matchhere_iff re text)
  | inr free ↦ rw free (match_any_iff (c ∷ re) text)
]
