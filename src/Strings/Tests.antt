-- ===== src/Strings/Tests.antt =====
-- Runs of string.c on a small memory, and its theorems at concrete inputs.
use pa.Common.{
  ℕ, ◌+◌, ◌-◌, ◌%◌, ◌<◌, ◌≡◌, refl, ◌≢◌, ◌↔◌, ◌⊎◌, inr, [], ◌∷◌, arith, get_or, if◌then◌else◌, some,
  pos, negsuc,
}
use pa.Strings.{Mem, memset, memcmp, memmove, strncmp, strncpy, safestrcpy, strlen}
use pa.Strings.Move.{within, memmove_lem, memset_lem}
use pa.Strings.Compare.{SameText, memcmp-eq-zero_iff, strncmp-eq-zero_iff, strlen_lem}
use pa.Strings.Copy.{ended, strncpy_lem, strncmp-strncpy, text_length, nuls, safestrcpy_lem}

-- "ab" at 8 and "abc" at 16, each with its NUL
abbrev texts : Mem
texts a =
    get_or (0 ∷ 0 ∷ 0 ∷ 0 ∷ 0 ∷ 0 ∷ 0 ∷ 0 ∷ 97 ∷ 98 ∷ 0 ∷ 5 ∷ 5 ∷ 5 ∷ 5 ∷ 5 ∷ 97 ∷ 98 ∷ 99 ∷ 0 ∷ [])
      a 0

prefix_compares : strncmp texts 8 16 2 ≡ pos 0
unfolding strncmp
prefix_compares = refl

shorter_is_less : strncmp texts 8 16 14 ≡ negsuc 98
unfolding strncmp
shorter_is_less = refl

overlap : memmove texts 17 16 3 18 ≡ 98
unfolding memmove
overlap = refl

length_runs : strlen 10 texts 16 0 ≡ some 3
unfolding strlen
length_runs = refl

memmove_lem_example :
    memmove texts 17 16 3 18 ≡ (if within 17 3 18 then texts (16 + (18 - 17)) else texts 18)
memmove_lem_example = memmove_lem texts 17 16 3 18

memset_lem_example : memset texts 8 0x101 4 9 ≡ (if within 8 4 9 then 0x101 % 256 else texts 9)
memset_lem_example = memset_lem texts 8 0x101 4 9

memcmp-eq-zero_iff_example :
    (memcmp texts 8 16 2 ≡ pos 0) ↔ ((i : ℕ) → i < 2 → texts (8 + i) ≡ texts (16 + i))
memcmp-eq-zero_iff_example = memcmp-eq-zero_iff texts 8 16 2

strncmp-eq-zero_iff_example : (strncmp texts 8 16 14 ≡ pos 0) ↔ SameText texts 8 16 14
strncmp-eq-zero_iff_example = strncmp-eq-zero_iff texts 8 16 14

two_bytes : (j : ℕ) → j < 2 → texts (8 + j) ≢ 0
two_bytes j h = ground arith

strlen_lem_example : strlen 3 texts 8 0 ≡ some 2
strlen_lem_example = strlen_lem 3 texts 8 2 (omega arith) refl two_bytes

strncpy_lem_example : strncpy texts 40 8 14 43 ≡ (
    if within 40 14 43
    then (if ended texts 8 (43 - 40) then 0 else texts (8 + (43 - 40)))
    else texts 43)
strncpy_lem_example = strncpy_lem texts 40 8 14 43 (inr (omega arith))

strncmp-strncpy_example : strncmp (strncpy texts 40 8 14) 8 40 14 ≡ pos 0
strncmp-strncpy_example = strncmp-strncpy texts 40 8 14 (inr (omega arith))

safestrcpy_lem_example :
    let len = text_length texts 8 (16 - 1) in
    (len < 16)
    × ((len ≡ 16 - 1) ⊎ (texts (8 + len) ≡ 0))
    × (safestrcpy texts 40 8 16 41 ≡ (
        if within 40 len 41
        then texts (8 + (41 - 40))
        else if within (40 + len) (nuls len (16 - 1)) 41
        then 0
        else texts 41))
safestrcpy_lem_example = safestrcpy_lem texts 40 8 16 41 (omega arith) (inr (omega arith))
