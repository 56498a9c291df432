-- ===== src/Path.antt =====
-- The path elements of fs.c: `skipelem`, as `namex` calls it in turn.
pub mod Elements
mod Tests
use pa.Common.{
  ℕ, zero, suc, ◌+◌, Bool, true, false, not, ◌&&◌, Option, none, some, List, [], ◌∷◌, ltb, leb,
  ◌==◌, if◌then◌else◌, update, length,
}

abbrev pub dir_siz : ℕ
dir_siz = 14

abbrev pub slash : ℕ
slash = b'/'

-- A path is the list of its bytes before the NUL, so `*path == 0` holds at the end of the list.
-- `while(*path == '/') path++;`
unfoldable pub skip_slashes : List ℕ → List ℕ
skip_slashes [] = []
skip_slashes (c ∷ path) = if c == slash then skip_slashes path else c ∷ path

-- `while(*path != '/' && *path != 0) path++;`: the bytes gone over, and the path from there on
unfoldable pub split_element : List ℕ → List ℕ × List ℕ
split_element [] = ([], [])
split_element (c ∷ path) =
    let rest = split_element path in
    if not (c == slash) then (c ∷ rest.0, rest.1) else ([], c ∷ path)

-- `memmove(name + i, s, k)` from a text of at least `k` bytes
unfoldable pub move_name : (ℕ → ℕ) → ℕ → ℕ → List ℕ → ℕ → ℕ
move_name name i zero s = name
move_name name i (suc k) [] = name
move_name name i (suc k) (c ∷ s) = move_name (update name i c) (i + 1) k s

-- what `skipelem` leaves in `name` for the element `s`
unfoldable pub store_name : (ℕ → ℕ) → List ℕ → ℕ → ℕ
unfolding move_name
store_name name s =
    if leb dir_siz (length s)
    then move_name name 0 dir_siz s
    else update (move_name name 0 (length s) s) (length s) 0

-- `skipelem` from the first byte that is no slash on
unfoldable pub skip_named : List ℕ → (ℕ → ℕ) → Option (List ℕ × (ℕ → ℕ))
unfolding skip_slashes split_element store_name
skip_named [] name = none
skip_named (c ∷ path) name =
    let (s, behind) = split_element (c ∷ path) in some (skip_slashes behind, store_name name s)

-- `skipelem(path, name)`: the path returned and what `name` holds then; `none` is the null pointer.
unfoldable pub skipelem : List ℕ → (ℕ → ℕ) → Option (List ℕ × (ℕ → ℕ))
unfolding skip_slashes skip_named
skipelem path name = skip_named (skip_slashes path) name
