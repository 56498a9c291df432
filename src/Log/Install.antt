-- ===== src/Log/Install.antt =====
-- What `install_trans` does, in a commit and in a recovery: every logged block gets, in the cache and on
-- the disk, the data that the log holds for it.
use pa.Common.{
  ℕ, zero, suc, ◌+◌, ◌≤◌, ◌<◌, ◌≡◌, refl, sym, ap, ◌∙◌, [], ◌∷◌, ◌++◌, append_assoc, append-nil,
  arith, ◌==◌, if◌then◌else◌, leb, Bool, false, ◌&&◌, ◌||◌,
}
use pa.Log.{Log, log_size, install_from}
use pa.Log.Blocks.{Block, Store, bread, modify, bwrite}
use pa.Log.Writes.{Writes}

-- Is `a` among the `k` logged block numbers from `tail` on?
unfoldable pub logged : (ℕ → ℕ) → ℕ → ℕ → ℕ → Bool
logged block tail zero a = false
logged block tail (suc k) a = block tail == a || logged block (tail + 1) k a

-- the blocks of the log, with its header
abbrev pub in_log : ℕ → ℕ → Bool
in_log start a = leb start a && leb a (start + log_size)

-- From `tail` on, `k` log blocks hold the contents `c` of the blocks that they stand for, and none
-- of these lies in the log.
abbrev pub Holds : Log → (ℕ → Block) → (ℕ → Block) → ℕ → ℕ → Type 0
Holds l c blocks tail k =
    (i : ℕ)
    → tail ≤ i
    → i < tail + k
    → (blocks (l.start + i + 1) ≡ c (l.block i)) × (in_log l.start (l.block i) ≡ false)

-- the writes that it makes
unfoldable pub install_writes : Log → (ℕ → Block) → ℕ → ℕ → Writes
install_writes l c tail zero = []
install_writes l c tail (suc k) = (l.block tail, c (l.block tail)) ∷ install_writes l c (tail + 1) k

pub record Installed (l : Log) (c : ℕ → Block) (st : Store) (tail k : ℕ) (st' : Store)
    : Type 0 where
  pub cache_lem : (a : ℕ) → st'.cache a ≡ (if logged l.block tail k a then c a else st.cache a)
  pub disk_lem : (a : ℕ) → st'.disk a ≡ (if logged l.block tail k a then c a else st.disk a)
  pub trace_lem : st'.trace ≡ st.trace ++ install_writes l c tail k

pub install_from-Installed :
    (l : Log) (c : ℕ → Block) (st : Store) (tail k : ℕ)
    → tail + k ≤ log_size
    → Holds l c st.cache tail k
    → Installed l c st tail k (install_from l st tail k)
unfolding install_from logged install_writes
install_from-Installed l c st tail zero fits h = record {
  cache_lem = λ a. refl;
  disk_lem = λ a. refl;
  trace_lem = sym (append-nil st.trace);
}
install_from-Installed l c st tail (suc k) fits h =
    let this = h tail (omega arith) (omega arith) in
    let b : ℕ = l.block tail in
    let v : Block = bread st (l.start + tail + 1) in
    let st₁ : Store = bwrite (modify st b v) b in
    let written : (modify st b v).cache b ≡ c b = ground arith in
    let next : Holds l c st₁.cache (tail + 1) k =
      λ i lo hi. ground (arith, h i (omega arith) (omega arith)) in
    let rest : Installed l c st₁ (tail + 1) k (install_from l st₁ (tail + 1) k) =
      install_from-Installed l c st₁ (tail + 1) k (omega arith) next in
    record {
      cache_lem = λ a. ground (arith, rest.cache_lem a);
      disk_lem = λ a. ground (arith, rest.disk_lem a);
      trace_lem =
          rest.trace_lem
          ∙ (append_assoc st.trace ((b, (modify st b v).cache b) ∷ []) _
              ∙ ap (λ x. st.trace ++ ((b, x) ∷ install_writes l c (tail + 1) k)) written);
    }
