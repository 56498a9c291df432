-- ===== src/Strings.antt =====
-- string.c
pub mod Move
pub mod Compare
pub mod Copy
mod Tests
use pa.Common.{
  ℕ, zero, suc, ◌+◌, ◌-◌, ◌*◌, ◌/◌, ◌%◌, ◌≤◌, ◌<◌, Bool, true, false, ◌&&◌, ◌||◌, not, Option, none,
  some, ltb, ◌==◌, if◌then◌else◌, update, ℤ, pos, sub_ℕ,
}

-- Memory is the function from an address to the byte there. The functions below are modelled on
-- ranges that do not wrap round the end of the address space, so an address is a plain number.
abbrev pub Mem : Type 0
Mem = ℕ → ℕ

-- `stosb(dst, c, n)`: `n` times the byte `c`
pub stosb : Mem → ℕ → ℕ → ℕ → Mem
stosb m dst c zero = m
stosb m dst c (suc n) = stosb (update m dst (c % 256)) (dst + 1) c n

-- `stosl(dst, w, n)`: `n` times the little-endian word `w`
pub stosl : Mem → ℕ → ℕ → ℕ → Mem
stosl m dst w zero = m
stosl m dst w (suc n) =
    stosl
      (update
        (update (update (update m dst (w % 256)) (dst + 1) (w / 256 % 256)) (dst + 2)
          (w / 65536 % 256))
        (dst + 3) (w / 16777216 % 256))
      (dst + 4) w n

-- the fill word of `memset`: `(c<<24)|(c<<16)|(c<<8)|c` of a byte, whose fields do not overlap
pub fill_word : ℕ → ℕ
fill_word c = c * 16777216 + c * 65536 + c * 256 + c

pub memset : Mem → ℕ → ℕ → ℕ → Mem
unfolding stosb stosl fill_word
memset m dst c n =
    if dst % 4 == 0 && n % 4 == 0
    then stosl m dst (fill_word (c % 256)) (n / 4)
    else stosb m dst c n

-- `*s1 - *s2` at the first difference
pub memcmp : Mem → ℕ → ℕ → ℕ → ℤ
memcmp m v1 v2 zero = pos 0
memcmp m v1 v2 (suc n) =
    let rest = memcmp m (v1 + 1) (v2 + 1) n in
    if not (m v1 == m v2) then sub_ℕ (m v1) (m v2) else rest

-- the two loops of `memmove`; `copy_down` takes the pointers behind the ranges
pub copy_up : Mem → ℕ → ℕ → ℕ → Mem
copy_up m d s zero = m
copy_up m d s (suc n) = copy_up (update m d (m s)) (d + 1) (s + 1) n

pub copy_down : Mem → ℕ → ℕ → ℕ → Mem
copy_down m d s zero = m
copy_down m d s (suc n) = copy_down (update m (d - 1) (m (s - 1))) (d - 1) (s - 1) n

pub memmove : Mem → ℕ → ℕ → ℕ → Mem
unfolding copy_up copy_down
memmove m dst src n =
    if ltb src dst && ltb dst (src + n)
    then copy_down m (dst + n) (src + n) n
    else copy_up m dst src n

pub memcpy : Mem → ℕ → ℕ → ℕ → Mem
unfolding memmove
memcpy m dst src n = memmove m dst src n

unfoldable pub strncmp : Mem → ℕ → ℕ → ℕ → ℤ
strncmp m p q zero = pos 0
strncmp m p q (suc n) =
    let rest = strncmp m (p + 1) (q + 1) n in
    if not (m p == 0) && m p == m q then rest else sub_ℕ (m p) (m q)

-- the second loop of `strncpy`
pub pad : Mem → ℕ → ℕ → Mem
pad m s zero = m
pad m s (suc n) = pad (update m s 0) (s + 1) n

-- `strncpy(s, t, n)` for `0 ≤ n`: the first loop ends at a NUL, with the second to follow, or when
-- `n` is used up
pub strncpy : Mem → ℕ → ℕ → ℕ → Mem
unfolding pad
strncpy m s t zero = m
strncpy m s t (suc n) =
    let rest = strncpy (update m s (m t)) (s + 1) (t + 1) n in
    if m t == 0 then pad (update m s (m t)) (s + 1) n else rest

-- the loop of `safestrcpy` with the store behind it, `n` being what `--n` leaves
pub safe_loop : Mem → ℕ → ℕ → ℕ → Mem
safe_loop m s t zero = update m s 0
safe_loop m s t (suc n) =
    let rest = safe_loop (update m s (m t)) (s + 1) (t + 1) n in
    if m t == 0 then update (update m s (m t)) (s + 1) 0 else rest

-- `safestrcpy(s, t, n)` for `0 ≤ n`
pub safestrcpy : Mem → ℕ → ℕ → ℕ → Mem
unfolding safe_loop
safestrcpy m s t zero = m
safestrcpy m s t (suc n) = safe_loop m s t n

-- `strlen`, with a bound on the rounds
pub strlen : ℕ → Mem → ℕ → ℕ → Option ℕ
strlen zero m s n = none
strlen (suc fuel) m s n =
    let rest = strlen fuel m s (n + 1) in if m (s + n) == 0 then some n else rest
