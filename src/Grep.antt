-- ===== src/Grep.antt =====
-- grep.c: the matcher of regular expressions. A pattern and a text are the lists of their bytes
-- before the NUL.
pub mod Language
mod Tests
use pa.Common.{ℕ, Bool, true, false, ◌||◌, List, [], ◌∷◌, ◌==◌, if◌then◌else◌}

-- one byte that `c` stands for, and the rest
unfoldable pub match_one : (c : ℕ) → (List ℕ → Bool) → List ℕ → Bool
match_one c rest [] = false
match_one c rest (t ∷ text) = if c == b'.' || c == t then rest text else false

-- `matchstar(c, re, text)`, with the match of `re` at the beginning of a text
unfoldable pub matchstar : (c : ℕ) → (List ℕ → Bool) → List ℕ → Bool
matchstar c rest [] = rest []
matchstar c rest (t ∷ text) =
    let more = matchstar c rest text in
    if rest (t ∷ text) then true else if t == c || c == b'.' then more else false

abbrev pub is_empty : List ℕ → Bool
is_empty [] = true
is_empty (t ∷ text) = false

-- `matchhere(re, text)`
unfoldable pub matchhere : List ℕ → List ℕ → Bool
matchhere [] text = true
matchhere (c ∷ []) text = if c == b'$' then is_empty text else match_one c (λ rest. true) text
matchhere (c ∷ d ∷ re) text =
    let star = matchstar c (matchhere re) text in
    let one = match_one c (matchhere (d ∷ re)) text in if d == b'*' then star else one

-- the loop of match, which also looks at the empty end of the text
unfoldable pub match_any : (List ℕ → Bool) → List ℕ → Bool
match_any here [] = here []
match_any here (t ∷ text) =
    let later = match_any here text in if here (t ∷ text) then true else later

-- `match(re, text)`
unfoldable pub match : List ℕ → List ℕ → Bool
match [] text = match_any (matchhere []) text
match (c ∷ re) text = if c == b'^' then matchhere re text else match_any (matchhere (c ∷ re)) text
