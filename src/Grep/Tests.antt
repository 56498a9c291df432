-- ===== src/Grep/Tests.antt =====
-- Runs of the matcher.
use pa.Common.{ℕ, true, false, List, [], ◌∷◌, ◌≡◌, ◌↔◌, refl}
use pa.Grep.{match_one, matchstar, matchhere, match_any, match}
use pa.Grep.Language.{Matches, match_iff}

-- "^ab*.$"
abbrev pattern : List ℕ
pattern = b'^' ∷ b'a' ∷ b'b' ∷ b'*' ∷ b'.' ∷ b'$' ∷ []

-- "abbb"
abbrev abbb : List ℕ
abbb = b'a' ∷ b'b' ∷ b'b' ∷ b'b' ∷ []

anchored : match pattern abbb ≡ true
unfolding match match_any matchhere matchstar match_one
anchored = refl

not_at_the_start : match pattern (b'x' ∷ abbb) ≡ false
unfolding match match_any matchhere matchstar match_one
not_at_the_start = refl

in_the_middle : match (b'b' ∷ b'b' ∷ []) abbb ≡ true
unfolding match match_any matchhere matchstar match_one
in_the_middle = refl

match_iff_example : (match pattern abbb ≡ true) ↔ Matches pattern abbb
match_iff_example = match_iff pattern abbb
