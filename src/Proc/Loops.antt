-- ===== src/Proc/Loops.antt =====
-- The loops over the process table: find_slot and wakeup1.
use pa.Common.{
  ℕ, zero, suc, ◌+◌, ◌≤◌, ◌<◌, ◌≡◌, inl, inr, Bool, true, false, ◌&&◌, none, some, ltb, leb,
  if◌then◌else◌, update, arith, Bool-cases, ℕ_discrete,
}
use pa.Proc.{num_procs, Chan, Proc, find_slot, wake_slot, wake_from, wakeup1}

-- A slot that the scan returns lies in the scanned range and passes the test.
pub find_slot-some :
    (n p : ℕ) (test : Proc → Bool) (t : ℕ → Proc) (i : ℕ)
    → find_slot n p test t ≡ some i
    → (p ≤ i) × (i < p + n) × (test (t i) ≡ true)
unfolding find_slot
find_slot-some zero p test t i h = ground arith
find_slot-some (suc n) p test t i h = elim (Bool-cases (test (t p))) [
  | inl yes_p ↦ ground arith
  | inr no_p ↦
      let rest : find_slot n (p + 1) test t ≡ some i = rw no_p at h in
      let (low, high, pass) = find_slot-some n (p + 1) test t i rest in
      (omega arith, omega arith, pass)
]

-- Without one, no slot of the range passes.
pub find_slot-none :
    (n p : ℕ) (test : Proc → Bool) (t : ℕ → Proc) (i : ℕ)
    → find_slot n p test t ≡ none
    → p ≤ i
    → i < p + n
    → test (t i) ≡ false
unfolding find_slot
find_slot-none zero p test t i h low high = absurd (omega arith)
find_slot-none (suc n) p test t i h low high = elim (Bool-cases (test (t p))) [
  | inl yes_p ↦ ground arith
  | inr no_p ↦
      let rest : find_slot n (p + 1) test t ≡ none = rw no_p at h in
      elim (ℕ_discrete i p) [
        | yes same ↦ rw same no_p
        | no more ↦ find_slot-none n (p + 1) test t i rest (omega arith) (omega arith)
      ]
]

wake_from_lem :
    (n p : ℕ) (chan : Chan) (t : ℕ → Proc) (j : ℕ)
    → wake_from n p chan t j ≡ (if leb p j && ltb j (p + n) then wake_slot chan (t j) else t j)
unfolding wake_from
wake_from_lem zero p chan t j = ground arith
wake_from_lem (suc n) p chan t j = elim (ℕ_discrete j p) [
  | yes same ↦
      rw same (ground (arith, wake_from_lem n (p + 1) chan (update t p (wake_slot chan (t p))) p))
  | no more ↦ ground (arith, wake_from_lem n (p + 1) chan (update t p (wake_slot chan (t p))) j)
]

-- wakeup1(chan) makes every process of the table that sleeps on chan runnable, and changes
-- nothing else.
pub wakeup1_lem :
    (chan : Chan) (t : ℕ → Proc) (j : ℕ)
    → wakeup1 chan t j ≡ (if ltb j num_procs then wake_slot chan (t j) else t j)
unfolding wakeup1
wakeup1_lem chan t j = ground (arith, wake_from_lem num_procs 0 chan t j)
