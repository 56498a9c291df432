-- ===== src/Strings/Move.antt =====
-- `memmove` and `memset`: every byte of memory after the call.
use pa.Common.{
  ℕ, zero, suc, ◌+◌, ◌-◌, ◌*◌, ◌/◌, ◌%◌, ◌≤◌, ◌<◌, ◌≡◌, ◌⊎◌, inl, inr, Bool, ◌&&◌, arith, ltb, leb,
  ◌==◌, if◌then◌else◌, update, Bool-cases,
}
use pa.Strings.{Mem, stosb, stosl, fill_word, memset, copy_up, copy_down, memmove}

-- Is `a` one of the `n` addresses from `d` on?
abbrev pub within : ℕ → ℕ → ℕ → Bool
within d n a = leb d a && ltb a (d + n)

copy_up_lem :
    (m : Mem) (d s n a : ℕ)
    → (d ≤ s) ⊎ (s + n ≤ d)
    → copy_up m d s n a ≡ (if within d n a then m (s + (a - d)) else m a)
unfolding copy_up
copy_up_lem m d s zero a h = ground arith
copy_up_lem m d s (suc n) a h = ground (arith, copy_up_lem (update m d (m s)) (d + 1) (s + 1) n a)

copy_down_lem :
    (m : Mem) (d s n a : ℕ)
    → s ≤ d
    → copy_down m (d + n) (s + n) n a ≡ (if within d n a then m (s + (a - d)) else m a)
unfolding copy_down
copy_down_lem m d s zero a h = ground arith
copy_down_lem m d s (suc n) a h =
    let last_d : d + suc n - 1 ≡ d + n = omega arith in
    let last_s : s + suc n - 1 ≡ s + n = omega arith in
    rw (last_d, last_s) (ground (arith, copy_down_lem (update m (d + n) (m (s + n))) d s n a))

-- After `memmove(dst, src, n)` the byte at `dst + i`, for `i < n`, is the one that was at `src + i`
-- before the call, also where the ranges overlap, and every other byte is as before.
pub memmove_lem :
    (m : Mem) (dst src n a : ℕ)
    → memmove m dst src n a ≡ (if within dst n a then m (src + (a - dst)) else m a)
unfolding memmove
memmove_lem m dst src n a = elim (Bool-cases (ltb src dst && ltb dst (src + n))) [
  | inl down ↦ rw down (copy_down_lem m dst src n a (ground arith))
  | inr up ↦ rw up (copy_up_lem m dst src n a (ground arith))
]

stosb_lem :
    (m : Mem) (dst c n a : ℕ) → stosb m dst c n a ≡ (if within dst n a then c % 256 else m a)
unfolding stosb
stosb_lem m dst c zero a = ground arith
stosb_lem m dst c (suc n) a = ground (arith, stosb_lem (update m dst (c % 256)) (dst + 1) c n a)

stosl_lem :
    (m : Mem) (dst c n a : ℕ)
    → c < 256
    → stosl m dst (fill_word c) n a ≡ (if within dst (4 * n) a then c else m a)
unfolding stosl fill_word
stosl_lem m dst c zero a h = ground arith
stosl_lem m dst c (suc n) a h =
    let w = fill_word c in
    let b0 : w % 256 ≡ c = omega arith in
    let b1 : w / 256 % 256 ≡ c = omega arith in
    let b2 : w / 65536 % 256 ≡ c = omega arith in
    let b3 : w / 16777216 % 256 ≡ c = omega arith in
    rw (b0, b1, b2, b3)
      (ground (
        arith,
        stosl_lem (update (update (update (update m dst c) (dst + 1) c) (dst + 2) c) (dst + 3) c)
            (dst + 4) c n a h,
      ))

-- After `memset(dst, c, n)` the `n` bytes from `dst` on are the low byte of `c`, and the others as
-- before, whether the call stores words or bytes.
pub memset_lem :
    (m : Mem) (dst c n a : ℕ) → memset m dst c n a ≡ (if within dst n a then c % 256 else m a)
unfolding memset
memset_lem m dst c n a = elim (Bool-cases (dst % 4 == 0 && n % 4 == 0)) [
  | inl words ↦
      let whole : 4 * (n / 4) ≡ n = ground arith in
      let filled = stosl_lem m dst (c % 256) (n / 4) a (omega arith) in
      rw words (rw whole at filled)
  | inr bytes ↦ rw bytes (stosb_lem m dst c n a)
]
