-- ===== src/Syscall/Args.antt =====
-- What the argument fetchers let through.
use pa.Common.{
  ℕ, zero, suc, ◌+◌, ◌-◌, ◌%◌, ◌^◌, ◌≤◌, ◌<◌, ◌≡◌, ◌≢◌, refl, ap, ◌∙◌, ◌⊎◌, inl, inr, ◌&&◌, none,
  some, ltb, leb, ◌==◌, if◌then◌else◌, arith, Bool-cases, Option-cases, ℤ, pos, negsuc, ℕ_discrete,
}
use pa.Syscall.{User, read_word, fetchint, find_nul, fetchstr, argint, outside_user, argptr}

-- The user part of the address space ends at KERNBASE.
abbrev pub user_limit : ℕ
user_limit = 2 ^ 31

-- For a process below KERNBASE, fetchint returns the word at the address exactly when all four
-- bytes of it lie in the process, wherever the address is; the sum does not let a wrap through.
pub fetchint_lem :
    (u : User) (mem : ℕ → ℕ) (addr : ℕ)
    → u.sz ≤ user_limit
    → addr < 2 ^ 32
    → fetchint u mem addr ≡ (if leb (addr + 4) u.sz then some (read_word mem addr) else none)
unfolding fetchint
fetchint_lem u mem addr limit small = ground arith

-- For a process below KERNBASE and a size that fits an int, argptr returns the argument word
-- exactly when the range that starts there lies in the process, with its first byte too.
pub argptr_lem :
    (u : User) (mem : ℕ → ℕ) (n size i : ℕ)
    → u.sz ≤ user_limit
    → size < 2 ^ 31
    → i < 2 ^ 32
    → argint u mem n ≡ some i
    → argptr u mem n (pos size) ≡ (if ltb i u.sz && leb (i + size) u.sz then some i else none)
unfolding argptr outside_user
argptr_lem u mem n size i limit fits small h = rw (argptr, h) (ground arith)

-- What the search for the NUL comes to.
find_nul_lem :
    (n : ℕ) (mem : ℕ → ℕ) (s pp : ℕ)
    → pp ≤ s
    → ((find_nul n mem s pp ≡ none) × ((j : ℕ) → s ≤ j → j < s + n → mem j ≢ 0))
      ⊎ ((len : ℕ) × (find_nul n mem s pp ≡ some len)
          × (s ≤ pp + len)
          × (pp + len < s + n)
          × (mem (pp + len) ≡ 0)
          × ((j : ℕ) → s ≤ j → j < pp + len → mem j ≢ 0))
unfolding find_nul
find_nul_lem zero mem s pp h = inl (refl, λ j low high. absurd (omega arith))
find_nul_lem (suc n) mem s pp h = elim (Bool-cases (mem s == 0)) [
  | inl nul ↦
      let back : pp + (s - pp) ≡ s = omega arith in
      inr (
        s - pp,
        rw nul refl,
        omega arith,
        omega arith,
        ap mem back ∙ ground arith,
        λ j low high. absurd (omega arith),
      )
  | inr more ↦
      let here : mem s ≢ 0 = ground arith in
      elim (find_nul_lem n mem (s + 1) pp (omega arith)) [
        | inl (e, out) ↦ inl (
          rw more e,
          λ j low high. elim (ℕ_discrete j s) [
            | yes same ↦ rw same here
            | no later ↦ out j (omega arith) (omega arith)
          ],
        )
        | inr (len, e, low, high, nul, before) ↦ inr (
          len,
          rw more e,
          omega arith,
          omega arith,
          nul,
          λ j lo hi. elim (ℕ_discrete j s) [
            | yes same ↦ rw same here
            | no later ↦ before j (omega arith) hi
          ],
        )
      ]
]

-- fetchstr either fails, and then the address is outside the process or no NUL follows in it,
-- or returns the address and the number of bytes before the first NUL, which lies in the process.
pub fetchstr_lem :
    (u : User) (mem : ℕ → ℕ) (addr : ℕ)
    → ((fetchstr u mem addr ≡ none) × ((j : ℕ) → addr ≤ j → j < u.sz → mem j ≢ 0))
      ⊎ ((len : ℕ) × (fetchstr u mem addr ≡ some (addr, len))
          × (addr + len < u.sz)
          × (mem (addr + len) ≡ 0)
          × ((j : ℕ) → addr ≤ j → j < addr + len → mem j ≢ 0))
unfolding fetchstr
fetchstr_lem u mem addr = elim (Bool-cases (leb u.sz addr)) [
  | inl out ↦ inl (rw out refl, λ j low high. absurd (ground arith))
  | inr inside ↦
      let room : addr + (u.sz - addr) ≡ u.sz = ground arith in
      elim (find_nul_lem (u.sz - addr) mem addr addr (omega arith)) [
        | inl (e, free) ↦ inl (rw (inside, e) refl, λ j low high. free j low (omega arith))
        | inr (len, e, low, high, nul, before) ↦
            inr (len, rw (inside, e) refl, omega arith, nul, before)
      ]
]

-- What a pointer that argptr returns has passed.
pub argptr-some :
    (u : User) (mem : ℕ → ℕ) (n : ℕ) (size : ℤ) (i : ℕ)
    → argptr u mem n size ≡ some i
    → (k : ℕ) × (size ≡ pos k) × (argint u mem n ≡ some i) × (i < u.sz) × ((i + k) % 2 ^ 32 ≤ u.sz)
unfolding argptr outside_user
argptr-some u mem n (negsuc k) i h = absurd (ground (arith, h))
argptr-some u mem n (pos k) i h = elim (Option-cases (argint u mem n)) [
  | inl out ↦ let e : none ≡ some i = rw (argptr, out) at h in absurd (ground (arith, e))
  | inr (i', e) ↦
      let h' : (if outside_user u i' k then none else some i') ≡ some i = rw (argptr, e) at h in
      elim (Bool-cases (outside_user u i' k)) [
        | inl bad ↦ let e' : none ≡ some i = rw bad at h' in absurd (ground (arith, e'))
        | inr good ↦
            let e' : some i' ≡ some i = rw good at h' in
            let same : i' ≡ i = ground (arith, e') in
            (k, refl, e ∙ ap some same, ground (arith, good, same), ground (arith, good, same))
      ]
]
