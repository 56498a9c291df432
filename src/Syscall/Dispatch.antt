-- ===== src/Syscall/Dispatch.antt =====
-- Runs of system calls through the dispatch.
use pa.Common.{
  ℕ, ◌+◌, ◌%◌, ◌^◌, ◌<◌, ◌≡◌, ◌∙◌, inl, inr, true, false, not, ◌&&◌, ltb, ◌==◌, if◌then◌else◌,
  arith, Bool-cases, List, [], ◌∷◌, All,
}
use pa.Syscall.{num_counts, updatecount, num_syscalls, Trapped, syscall}
use pa.Syscall.Counts.{Placed, count_of, occurrences, updatecount_lem, updatecount-inits}

-- A program makes the calls with these numbers, one after the other.
abbrev pub run_traps :
    {W : Type 0} → ℕ → (ℕ → Trapped W → Trapped W × ℕ) → List ℕ → Trapped W → Trapped W
run_traps base handler [] k = k
run_traps base handler (s ∷ rest) k =
    run_traps base handler rest (syscall base handler (record k { eax = s }))

module _ {W : Type 0} (base : ℕ) (handler : ℕ → Trapped W → Trapped W × ℕ) (placed : Placed base)
    (keeps_inits : (n : ℕ) (k : Trapped W) → (handler n k).0.inits ≡ k.inits)
    (keeps_counts : (n : ℕ) (k : Trapped W) (x : ℕ)
      → x < num_counts
      → count_of base (handler n k).0.mem x ≡ count_of base k.mem x) where
  -- One call counts, and is set up afterwards, whatever branch it takes.
  syscall-counts :
      (s : ℕ) (k : Trapped W) (j : ℕ)
      → s < num_counts
      → j < num_counts
      → let old = if k.inits then count_of base k.mem j else 0 in
        (count_of base (syscall base handler (record k { eax = s })).mem j
          ≡ (if j == s then (old + 1) % 2 ^ 32 else old))
        × ((syscall base handler (record k { eax = s })).inits ≡ true)
  unfolding syscall
  syscall-counts s k j hs hj =
      let counted = updatecount base k.mem k.inits s in
      let k1 : Trapped W = record k { eax = s; init = true; mem = counted.0; inits = counted.1 } in
      let step = updatecount_lem base k.mem k.inits s j placed hs hj in
      let ready = updatecount-inits base k.mem k.inits s in
      elim (Bool-cases (ltb s num_syscalls && not (s == 0))) [
        | inl valid ↦ rw (syscall, valid) (keeps_counts s k1 j hj ∙ step, keeps_inits s k1 ∙ ready)
        | inr wrong ↦ rw (syscall, wrong) (step, ready)
      ]

  traps-counts :
      (calls : List ℕ) (k : Trapped W) (j : ℕ)
      → All (λ s. s < num_counts) calls
      → j < num_counts
      → k.inits ≡ true
      → count_of base k.mem j < 2 ^ 32
      → count_of base (run_traps base handler calls k).mem j
        ≡ (count_of base k.mem j + occurrences j calls) % 2 ^ 32
  traps-counts [] k j hs hj on small = omega arith
  traps-counts (s ∷ rest) k j hs hj on small =
      let k' : Trapped W = syscall base handler (record k { eax = s }) in
      let (step, ready) = syscall-counts s k j hs.0 hj in
      let small' : count_of base k'.mem j < 2 ^ 32 = ground (arith, step, on, small) in
      let rest_lem = traps-counts rest k' j hs.1 hj ready small' in
      elim (Bool-cases (j == s)) [
        | inl same ↦ ground (arith, rest_lem, step, on, same)
        | inr differ ↦ ground (arith, rest_lem, step, on, differ)
      ]

  -- When the calls themselves leave the counters and inits alone: after a run of system calls
  -- with numbers below 23, the first of them the first since the start, each counter below 23 is
  -- the number of its calls in the run, modulo 2 ^ 32, whatever stood in memory before.
  pub run_traps-counts :
      (first : ℕ) (calls : List ℕ) (k : Trapped W) (j : ℕ)
      → All (λ s. s < num_counts) (first ∷ calls)
      → j < num_counts
      → k.inits ≡ false
      → count_of base (run_traps base handler (first ∷ calls) k).mem j
        ≡ occurrences j (first ∷ calls) % 2 ^ 32
  run_traps-counts first calls k j hs hj off =
      let k' : Trapped W = syscall base handler (record k { eax = first }) in
      let (step, ready) = syscall-counts first k j hs.0 hj in
      let small : count_of base k'.mem j < 2 ^ 32 = ground (arith, step, off) in
      let rest_lem = traps-counts calls k' j hs.1 hj ready small in
      ground (arith, rest_lem, step, off)
