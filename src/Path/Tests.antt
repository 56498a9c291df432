-- ===== src/Path/Tests.antt =====
-- The examples that fs.c gives for `skipelem`, and the theorem at a path.
use pa.Common.{ℕ, ◌≡◌, refl, ◌⊎◌, Option, none, some, List, [], ◌∷◌, arith}
use pa.Path.{dir_siz, skipelem}
use pa.Path.Elements.{AllSlashes, NoNul, name_text, Taken, skipelem_lem}

abbrev blank : ℕ → ℕ
blank i = 0

-- "///a//bb"
abbrev long_path : List ℕ
long_path = b'/' ∷ b'/' ∷ b'/' ∷ b'a' ∷ b'/' ∷ b'/' ∷ b'b' ∷ b'b' ∷ []

rest_of : Option (List ℕ × (ℕ → ℕ)) → List ℕ
rest_of none = b'!' ∷ []
rest_of (some (rest, name)) = rest

name_of : Option (List ℕ × (ℕ → ℕ)) → List ℕ
unfolding name_text
name_of none = b'!' ∷ []
name_of (some (rest, name)) = name_text name 0 dir_siz

-- skipelem("///a//bb", name) = "bb", setting name = "a"
second_rest : rest_of (skipelem long_path blank) ≡ b'b' ∷ b'b' ∷ []
unfolding skipelem rest_of
second_rest = refl

second_name : name_of (skipelem long_path blank) ≡ b'a' ∷ []
unfolding skipelem name_of
second_name = refl

-- skipelem("", name) = skipelem("////", name) = 0
only_slashes : skipelem (b'/' ∷ b'/' ∷ b'/' ∷ b'/' ∷ []) blank ≡ none
unfolding skipelem
only_slashes = refl

long_path-NoNul : NoNul long_path
long_path-NoNul = omega arith

skipelem_lem_example :
    ((skipelem long_path blank ≡ none) × AllSlashes long_path)
    ⊎ ((rest : List ℕ) × (name : ℕ → ℕ) × (skipelem long_path blank ≡ some (rest, name))
        × Taken long_path rest name)
skipelem_lem_example = skipelem_lem long_path blank long_path-NoNul
