-- ===== src/Log/Entries.antt =====
-- What log_write does to the entries of the log: it absorbs a block that is there.
use pa.Common.{
  ℕ, zero, suc, ◌+◌, ◌≤◌, ◌<◌, ◌≡◌, refl, ◌∙◌, ◌⊎◌, ◌≢◌, inl, arith, ◌==◌, if◌then◌else◌, update,
  true, ◌||◌, some, ℕ_discrete,
}
use pa.Log.{Log, log_size, find_block, log_write}
use pa.Log.Install.{logged}
use pa.Log.Recover.{logged-ext}

-- The search ends at the first entry that is `b`, or behind the last.
find_block_lem :
    (block : ℕ → ℕ) (b i k : ℕ)
    → let j = find_block block b i k in
      (i ≤ j)
      × (j ≤ i + k)
      × ((j ≡ i + k) ⊎ (block j ≡ b))
      × ((x : ℕ) → i ≤ x → x < j → block x ≢ b)
unfolding find_block
find_block_lem block b i zero =
    (omega arith, omega arith, inl (omega arith), λ x lo hi. absurd (omega arith))
find_block_lem block b i (suc k) =
    let (lo, hi, hit, miss) = find_block_lem block b (i + 1) k in
    (ground arith, ground arith, ground arith, λ x l h. ground (arith, miss x))

logged-update :
    (block : ℕ → ℕ) (b i tail k a : ℕ)
    → tail + k ≤ i
    → logged (update block i b) tail k a ≡ logged block tail k a
unfolding logged
logged-update block b i tail zero a h = refl
logged-update block b i tail (suc k) a h =
    ground (arith, logged-update block b i (tail + 1) k a (omega arith))

logged-snoc :
    (block : ℕ → ℕ) (tail k a : ℕ)
    → logged block tail (suc k) a ≡ (logged block tail k a || block (tail + k) == a)
unfolding logged
logged-snoc block tail zero a = ground arith
logged-snoc block tail (suc k) a = ground (arith, logged-snoc block (tail + 1) k a)

logged-entry :
    (block : ℕ → ℕ) (tail k i : ℕ) → tail ≤ i → i < tail + k → logged block tail k (block i) ≡ true
unfolding logged
logged-entry block tail zero i lo hi = absurd (omega arith)
logged-entry block tail (suc k) i lo hi = ground (arith, logged-entry block (tail + 1) k i)

-- The first `n` entries are different blocks.
abbrev pub Distinct : (ℕ → ℕ) → ℕ → Type 0
Distinct block n = (i j : ℕ) → i < j → j < n → block i ≢ block j

-- The entries after a search for `b` and a store of `b` where it ends.
abbrev entries : (ℕ → ℕ) → ℕ → ℕ → ℕ → ℕ
entries block b n = update block (find_block block b 0 n) b

abbrev entry_count : (ℕ → ℕ) → ℕ → ℕ → ℕ
entry_count block b n = if find_block block b 0 n == n then n + 1 else n

logged-entries :
    (block : ℕ → ℕ) (b n a : ℕ)
    → logged (entries block b n) 0 (entry_count block b n) a ≡ (logged block 0 n a || b == a)
logged-entries block b n a =
    let i : ℕ = find_block block b 0 n in
    let (lo, hi, hit, miss) = find_block_lem block b 0 n in
    elim (ℕ_discrete i n) [
      | yes new ↦
          let count : entry_count block b n ≡ suc n = ground arith in
          rw count
            (logged-snoc (entries block b n) 0 n a ∙ ground (arith, logged-update block b i 0 n a))
      | no old ↦
          let count : entry_count block b n ≡ n = ground arith in
          let there : block i ≡ b = ground arith in
          let same = logged-ext (entries block b n) block 0 n a (λ j l h. ground arith) in
          rw count (ground (arith, logged-entry block 0 n i (omega arith) (omega arith)))
    ]

Distinct-entries :
    (block : ℕ → ℕ) (b n : ℕ)
    → Distinct block n
    → Distinct (entries block b n) (entry_count block b n)
Distinct-entries block b n distinct i j lt bound =
    let (lo, hi, hit, miss) = find_block_lem block b 0 n in ground (arith, distinct i j, miss i)

-- What a call that does not panic leaves: one entry more for a new block, and none for one that is
-- logged already.
pub log_write-state :
    (l l' : Log) (b : ℕ)
    → log_write l b ≡ some l'
    → (l' ≡ record l { block = entries l.block b l.n; n = entry_count l.block b l.n })
      × (l.n < log_size)
      × (0 < l.outstanding)
unfolding log_write
log_write-state l l' b written = ground arith

-- After `log_write` of block `b` exactly the blocks logged before and `b` are logged, different entries
-- are still different blocks, and the log has grown by one entry at most.
pub log_write_lem :
    (l l' : Log) (b : ℕ)
    → log_write l b ≡ some l'
    → Distinct l.block l.n
    → ((a : ℕ) → logged l'.block 0 l'.n a ≡ (logged l.block 0 l.n a || b == a))
      × Distinct l'.block l'.n
      × (l'.n ≤ l.n + 1)
log_write_lem l l' b written distinct =
    let (e, room, inside) = log_write-state l l' b written in
    rw e
      (λ a. logged-entries l.block b l.n a, Distinct-entries l.block b l.n distinct, ground arith)
