-- ===== src/Log/Commit.antt =====
-- The disk writes of `commit`, in order: the log blocks, the header, the home blocks, the clear header.
use pa.Common.{
  ℕ, zero, suc, ◌+◌, ◌-◌, ◌≤◌, ◌<◌, ◌≡◌, refl, sym, ap, ◌∙◌, [], ◌∷◌, ◌++◌, append_assoc,
  append-nil, arith, if◌then◌else◌, update, leb, ltb, Bool, true, false, ◌&&◌, lt→ltb,
}
use pa.Log.{
  Log, log_size, write_log_from, write_log, head_blocks, write_head, install_trans, commit,
}
use pa.Log.Blocks.{Block, Store, bread, modify, bwrite}
use pa.Log.Writes.{Writes}
use pa.Log.Install.{logged, in_log, Holds, install_writes, Installed, install_from-Installed}

-- Is `a` the log block of one of the `k` entries from `tail` on?
abbrev pub slots : ℕ → ℕ → ℕ → ℕ → Bool
slots start tail k a = leb (start + tail + 1) a && ltb a (start + tail + k + 1)

unfoldable pub log_writes : Log → (ℕ → Block) → ℕ → ℕ → Writes
log_writes l c tail zero = []
log_writes l c tail (suc k) = (l.start + tail + 1, c (l.block tail)) ∷ log_writes l c (tail + 1) k

-- The logged blocks lie outside the log.
abbrev pub Homes : Log → ℕ → ℕ → Type 0
Homes l tail k = (i : ℕ) → tail ≤ i → i < tail + k → in_log l.start (l.block i) ≡ false

pub record Logged (l : Log) (st : Store) (tail k : ℕ) (st' : Store) : Type 0 where
  pub cache_lem :
      (a : ℕ)
      → st'.cache a
        ≡ (if slots l.start tail k a then st.cache (l.block (a - l.start - 1)) else st.cache a)
  pub disk_lem :
      (a : ℕ)
      → st'.disk a
        ≡ (if slots l.start tail k a then st.cache (l.block (a - l.start - 1)) else st.disk a)
  pub trace_lem : st'.trace ≡ st.trace ++ log_writes l st.cache tail k

log_writes-ext :
    (l : Log) (c c' : ℕ → Block) (tail k : ℕ)
    → ((i : ℕ) → tail ≤ i → i < tail + k → c (l.block i) ≡ c' (l.block i))
    → log_writes l c tail k ≡ log_writes l c' tail k
unfolding log_writes
log_writes-ext l c c' tail zero h = refl
log_writes-ext l c c' tail (suc k) h =
    let first = h tail (omega arith) (omega arith) in
    let rest = log_writes-ext l c c' (tail + 1) k (λ i lo hi. h i (omega arith) (omega arith)) in cc

write_log_from-Logged :
    (l : Log) (st : Store) (tail k : ℕ)
    → tail + k ≤ log_size
    → Homes l tail k
    → Logged l st tail k (write_log_from l st tail k)
unfolding write_log_from log_writes
write_log_from-Logged l st tail zero fits h = record {
  cache_lem = λ a. ground arith;
  disk_lem = λ a. ground arith;
  trace_lem = sym (append-nil st.trace);
}
write_log_from-Logged l st tail (suc k) fits h =
    let to : ℕ = l.start + tail + 1 in
    let v : Block = bread st (l.block tail) in
    let st₁ : Store = bwrite (modify st to v) to in
    let rest : Logged l st₁ (tail + 1) k (write_log_from l st₁ (tail + 1) k) =
      write_log_from-Logged l st₁ (tail + 1) k (omega arith)
        (λ i lo hi. h i (omega arith) (omega arith)) in
    let written : (modify st to v).cache to ≡ v = ground arith in
    let same =
      log_writes-ext l st₁.cache st.cache (tail + 1) k
        (λ i lo hi. ground (arith, h i (omega arith) (omega arith))) in
    record {
      cache_lem = λ a. ground (arith, rest.cache_lem a, h (a - l.start - 1));
      disk_lem = λ a. ground (arith, rest.disk_lem a, h (a - l.start - 1));
      trace_lem =
          rest.trace_lem
          ∙ (append_assoc st.trace ((to, (modify st to v).cache to) ∷ []) _
              ∙ ap (λ ws. st.trace ++ ws) (cc));
    }

-- The words of a header block.
pub head_blocks_lem :
    (block : ℕ → ℕ) (head : Block) (i k w : ℕ)
    → head_blocks block head i k w
      ≡ (if leb (i + 1) w && ltb w (i + k + 1) then block (w - 1) else head w)
unfolding head_blocks
head_blocks_lem block head i zero w = ground arith
head_blocks_lem block head i (suc k) w =
    ground (arith, head_blocks_lem block (update head (i + 1) (block i)) (i + 1) k w)

-- A header block that lists the entries of `l`.
abbrev pub Encodes : Log → Block → Type 0
Encodes l head = (head 0 ≡ l.n) × ((i : ℕ) → i < l.n → head (i + 1) ≡ l.block i)

-- the block that `write_head` writes, over the one `old` that it has read
abbrev pub head_of : Log → Block → Block
head_of l old = head_blocks l.block (update old 0 l.n) 0 l.n

pub head_of-Encodes : (l : Log) (old : Block) → Encodes l (head_of l old)
head_of-Encodes l old = (
  ground (arith, head_blocks_lem l.block (update old 0 l.n) 0 l.n 0),
  λ i h. ground (arith, head_blocks_lem l.block (update old 0 l.n) 0 l.n (i + 1)),
)

-- No block of the log is logged.
pub logged-in_log :
    (l : Log) (tail k a : ℕ)
    → Homes l tail k
    → in_log l.start a ≡ true
    → logged l.block tail k a ≡ false
unfolding logged
logged-in_log l tail zero a h e = refl
logged-in_log l tail (suc k) a h e = ground (
  arith,
  h tail (omega arith) (omega arith),
  logged-in_log l (tail + 1) k a (λ i lo hi. h i (omega arith) (omega arith)) e,
)

-- The writes of a commit that finds `c` in the cache.
unfoldable pub commit_writes : Log → (ℕ → Block) → Writes
commit_writes l c =
    let head = head_of l (c l.start) in
    log_writes l c 0 l.n
    ++ (l.start, head)
      ∷ (install_writes l c 0 l.n ++ (l.start, head_of (record l { n = 0 }) head) ∷ [])

-- A commit of a nonempty log makes these writes, and leaves every block outside the log as it was
-- in the cache, and on the disk as it is in the cache if it was logged.
pub record Committed (l : Log) (st : Store) (l' : Log) (st' : Store) : Type 0 where
  pub cleared : l' ≡ record l { n = 0 }
  pub cache_lem : (a : ℕ) → in_log l.start a ≡ false → st'.cache a ≡ st.cache a
  pub disk_lem :
      (a : ℕ)
      → in_log l.start a ≡ false
      → st'.disk a ≡ (if logged l.block 0 l.n a then st.cache a else st.disk a)
  pub header : st'.disk l.start 0 ≡ 0
  pub trace_lem : st'.trace ≡ st.trace ++ commit_writes l st.cache

-- The trace, put together from its parts.
commit_trace :
    (l : Log) (c : ℕ → Block) (t : Writes) {t₁ t₃ : Writes} {head clear : Block}
    → t₁ ≡ t ++ log_writes l c 0 l.n
    → t₃ ≡ (t₁ ++ (l.start, head) ∷ []) ++ install_writes l c 0 l.n
    → head ≡ head_of l (c l.start)
    → clear ≡ head_of (record l { n = 0 }) (head_of l (c l.start))
    → t₃ ++ (l.start, clear) ∷ [] ≡ t ++ commit_writes l c
unfolding commit_writes
commit_trace l c t e₁ e₃ eh ec = rw (e₃, e₁, eh, ec) (simp append_assoc)

pub commit-Committed :
    (l : Log) (st : Store)
    → 0 < l.n
    → l.n ≤ log_size
    → Homes l 0 l.n
    → Committed l st (commit l st).0 (commit l st).1
unfolding commit write_log write_head install_trans
commit-Committed l st some_blocks fits homes =
    let st₁ : Store = write_log_from l st 0 l.n in
    let one : Logged l st 0 l.n st₁ = write_log_from-Logged l st 0 l.n (omega arith) homes in
    let old_head : st₁.cache l.start ≡ st.cache l.start = ground (arith, one.cache_lem l.start) in
    let head : Block = head_of l (st₁.cache l.start) in
    let st₂ : Store = bwrite (modify st₁ l.start head) l.start in
    let held : Holds l st.cache st₂.cache 0 l.n =
      λ i lo hi. (ground (arith, one.cache_lem (l.start + i + 1)), homes i lo hi) in
    let st₃ : Store = install_trans l st₂ in
    let three : Installed l st.cache st₂ 0 l.n st₃ =
      install_from-Installed l st.cache st₂ 0 l.n (omega arith) held in
    let no_head : logged l.block 0 l.n l.start ≡ false =
      logged-in_log l 0 l.n l.start homes (ground arith) in
    let written : st₂.cache l.start ≡ head = ground arith in
    let kept : st₃.cache l.start ≡ head = ground (arith, three.cache_lem l.start) in
    let clear : Block = head_of (record l { n = 0 }) (st₃.cache l.start) in
    let clear_written : update st₃.cache l.start clear l.start ≡ clear = ground arith in
    rw (lt→ltb 0 l.n some_blocks) (record {
      cleared = refl;
      cache_lem = λ a out. ground (arith, three.cache_lem a, one.cache_lem a);
      disk_lem = λ a out. ground (arith, three.disk_lem a, one.disk_lem a);
      header = ground arith;
      trace_lem =
          commit_trace l st.cache st.trace one.trace_lem three.trace_lem
            (written ∙ ap (head_of l) old_head)
            (clear_written ∙ ap (head_of (record l { n = 0 })) (kept ∙ ap (head_of l) old_head));
    })
