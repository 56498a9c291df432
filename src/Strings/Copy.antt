-- ===== src/Strings/Copy.antt =====
-- `strncpy` and `safestrcpy`: what the destination holds, and that a copied name compares equal.
use pa.Common.{
  ℕ, zero, suc, ◌+◌, ◌-◌, ◌≤◌, ◌<◌, ◌≡◌, refl, ◌∙◌, ◌⊎◌, inl, inr, ◌≢◌, Bool, false, ◌||◌, arith,
  ◌==◌, if◌then◌else◌, update, pos, Bool-cases, dec_lt,
}
use pa.Strings.{Mem, pad, strncpy, safe_loop, safestrcpy, strncmp}
use pa.Strings.Move.{within}
use pa.Strings.Compare.{strncmp-eq-zero_iff}

-- Is there a NUL among the first `k` bytes from `t` on?
pub ended : Mem → ℕ → ℕ → Bool
ended m t zero = false
ended m t (suc k) = m t == 0 || ended m (t + 1) k

-- The ranges of the call do not meet.
abbrev pub Apart : ℕ → ℕ → ℕ → Type 0
Apart s t n = (s + n ≤ t) ⊎ (t + n ≤ s)

pad_lem : (m : Mem) (s n a : ℕ) → pad m s n a ≡ (if within s n a then 0 else m a)
unfolding pad
pad_lem m s zero a = ground arith
pad_lem m s (suc n) a = ground (arith, pad_lem (update m s 0) (s + 1) n a)

-- The test of a byte of the range reads memory that the copy has not changed.
ended-update :
    (m : Mem) (s b t k : ℕ) → (s < t) ⊎ (t + k ≤ s) → ended (update m s b) t k ≡ ended m t k
unfolding ended
ended-update m s b t zero h = refl
ended-update m s b t (suc k) h = ground (arith, ended-update m s b (t + 1) k (ground arith))

-- After `strncpy(s, t, n)` on ranges that do not meet, the byte at `s + i`, for `i < n`, is the one at
-- `t + i`, or 0 if there is a NUL before it; every other byte is as before.
pub strncpy_lem :
    (m : Mem) (s t n a : ℕ)
    → Apart s t n
    → strncpy m s t n a
      ≡ (if within s n a then (if ended m t (a - s) then 0 else m (t + (a - s))) else m a)
unfolding strncpy ended
strncpy_lem m s t zero a h = ground arith
strncpy_lem m s t (suc n) a h = elim (dec_lt s a) [
  | yes later ↦
      let next : a - s ≡ suc (a - (s + 1)) = omega arith in
      rw next (
        ground (
          arith,
          pad_lem (update m s (m t)) (s + 1) n a,
          strncpy_lem (update m s (m t)) (s + 1) (t + 1) n a (omega arith),
          ended-update m s (m t) (t + 1) (a - (s + 1)),
        ))
  | no now ↦ ground (
    arith,
    pad_lem (update m s (m t)) (s + 1) n a,
    strncpy_lem (update m s (m t)) (s + 1) (t + 1) n a (omega arith),
  )
]

ended-false : (m : Mem) (t k : ℕ) → ((j : ℕ) → j < k → m (t + j) ≢ 0) → ended m t k ≡ false
unfolding ended
ended-false m t zero h = refl
ended-false m t (suc k) h = ground (
  arith,
  h 0 (omega arith),
  ended-false m (t + 1) k (λ j lt. ground (arith, h (suc j) (omega arith))),
)

strncpy-source : (m : Mem) (s t n j : ℕ) → j < n → Apart s t n → strncpy m s t n (t + j) ≡ m (t + j)
strncpy-source m s t n j lt apart = ground (arith, strncpy_lem m s t n (t + j) apart)

-- A name that `strncpy` has copied compares equal to its source, whatever its length: `strncmp` with
-- the same bound finds it again.
pub strncmp-strncpy : (m : Mem) (s t n : ℕ) → Apart s t n → strncmp (strncpy m s t n) t s n ≡ pos 0
strncmp-strncpy m s t n apart = (strncmp-eq-zero_iff (strncpy m s t n) t s n).1 λ i lt nz.
    let source = λ (j : ℕ) (k : j < n). strncpy-source m s t n j k apart in
    let index : s + i - s ≡ i = omega arith in
    let open_name = ended-false m t i (λ j k. ground (arith, nz j k, source j (omega arith))) in
    ground (arith, source i lt, strncpy_lem m s t n (s + i) apart, open_name)

-- The number of bytes before the first NUL, `n` at most.
pub text_length : Mem → ℕ → ℕ → ℕ
text_length m t zero = 0
text_length m t (suc n) = if m t == 0 then 0 else suc (text_length m (t + 1) n)

pub text_length_lem :
    (m : Mem) (t n : ℕ)
    → (text_length m t n ≤ n) × ((text_length m t n ≡ n) ⊎ (m (t + text_length m t n) ≡ 0))
unfolding text_length
text_length_lem m t zero = (omega arith, inl refl)
text_length_lem m t (suc n) = ground (arith, text_length_lem m (t + 1) n)

text_length-update :
    (m : Mem) (s b t n : ℕ)
    → (s < t) ⊎ (t + n ≤ s)
    → text_length (update m s b) t n ≡ text_length m t n
unfolding text_length
text_length-update m s b t zero h = refl
text_length-update m s b t (suc n) h =
    ground (arith, text_length-update m s b (t + 1) n (ground arith))

-- How many NULs the call writes: behind a NUL that it has copied it writes another.
abbrev pub nuls : ℕ → ℕ → ℕ
nuls len n = if len == n then 1 else 2

safe_loop_lem :
    (m : Mem) (s t n a : ℕ)
    → Apart s t (suc n)
    → safe_loop m s t n a ≡ (
        if within s (text_length m t n) a
        then m (t + (a - s))
        else if within (s + text_length m t n) (nuls (text_length m t n) n) a
        then 0
        else m a)
unfolding safe_loop text_length
safe_loop_lem m s t zero a h = ground arith
safe_loop_lem m s t (suc n) a h = elim (Bool-cases (m t == 0)) [
  | inl stop ↦ rw stop (ground arith)
  | inr go ↦
      let first : ℕ = text_length m (t + 1) n in
      let same : text_length (update m s (m t)) (t + 1) n ≡ first =
        text_length-update m s (m t) (t + 1) n (omega arith) in
      let shift : s + suc first ≡ s + 1 + first = omega arith in
      let ends : nuls (suc first) (suc n) ≡ nuls first n = ground arith in
      let rest = safe_loop_lem (update m s (m t)) (s + 1) (t + 1) n a (omega arith) in
      rw go (rw (shift, ends) ((rw same at rest) ∙ ground (arith, text_length_lem m (t + 1) n)))
]

-- `safestrcpy(s, t, n)` for `0 < n` on ranges that do not meet copies the bytes before the NUL, `n - 1`
-- of them at most, and writes a NUL behind them, so inside the range; it leaves all else alone but
-- for a second NUL behind one that it has copied.
pub safestrcpy_lem :
    (m : Mem) (s t n a : ℕ)
    → 0 < n
    → Apart s t n
    → let len = text_length m t (n - 1) in
      (len < n)
      × ((len ≡ n - 1) ⊎ (m (t + len) ≡ 0))
      × (safestrcpy m s t n a ≡ (
          if within s len a
          then m (t + (a - s))
          else if within (s + len) (nuls len (n - 1)) a
          then 0
          else m a))
unfolding safestrcpy
safestrcpy_lem m s t zero a h apart = absurd (omega arith)
safestrcpy_lem m s t (suc n) a h apart =
    let one : suc n - 1 ≡ n = omega arith in
    let bound = text_length_lem m t n in
    rw one (omega arith, bound.1, safe_loop_lem m s t n a apart)
