-- ===== src/Log/Crash.antt =====
-- A crash at any disk write of a commit, and the recovery after it: all of the transaction or none.
use pa.Common.{
  ℕ, zero, suc, ◌+◌, ◌-◌, ◌≤◌, ◌<◌, ◌≡◌, refl, ap, ◌∙◌, ◌⊎◌, inl, inr, [], ◌∷◌, ◌++◌, arith,
  if◌then◌else◌, update, true, false, length, dec_lt,
}
use pa.Log.{Log, log_size, commit}
use pa.Log.Blocks.{Block, Store}
use pa.Log.Writes.{Disk, Writes, replay, crash, crash-append, Spares, crash-Spares}
use pa.Log.Install.{logged, in_log, install_writes}
use pa.Log.Commit.{
  slots, Homes, Encodes, log_writes, head_of, head_of-Encodes, commit_writes, logged-in_log,
  commit-Committed,
}
use pa.Log.Recover.{recovered, recovered-clear, recovered-full}

module _ (l : Log) (c : ℕ → Block) where
  length-log_writes : (tail k : ℕ) → length (log_writes l c tail k) ≡ k
  unfolding log_writes
  length-log_writes tail zero = refl
  length-log_writes tail (suc k) = ap suc (length-log_writes (tail + 1) k)

  length-install_writes : (tail k : ℕ) → length (install_writes l c tail k) ≡ k
  unfolding install_writes
  length-install_writes tail zero = refl
  length-install_writes tail (suc k) = ap suc (length-install_writes (tail + 1) k)

  log_writes-Spares :
      (tail k a : ℕ) → slots l.start tail k a ≡ false → Spares a (log_writes l c tail k)
  unfolding log_writes
  log_writes-Spares tail zero a h = tt
  log_writes-Spares tail (suc k) a h =
      (ground arith, log_writes-Spares (tail + 1) k a (ground arith))

  replay-log_writes :
      (d : Disk) (tail k a : ℕ)
      → replay d (log_writes l c tail k) a
        ≡ (if slots l.start tail k a then c (l.block (a - l.start - 1)) else d a)
  unfolding log_writes replay
  replay-log_writes d tail zero a = ground arith
  replay-log_writes d tail (suc k) a =
      let d' : Disk = update d (l.start + tail + 1) (c (l.block tail)) in
      ground (arith, replay-log_writes d' (tail + 1) k a)

  install_writes-Spares :
      (tail k a : ℕ) → logged l.block tail k a ≡ false → Spares a (install_writes l c tail k)
  unfolding install_writes logged
  install_writes-Spares tail zero a h = tt
  install_writes-Spares tail (suc k) a h =
      (ground arith, install_writes-Spares (tail + 1) k a (ground arith))

  replay-install_writes :
      (d : Disk) (tail k a : ℕ)
      → replay d (install_writes l c tail k) a ≡ (if logged l.block tail k a then c a else d a)
  unfolding install_writes replay logged
  replay-install_writes d tail zero a = refl
  replay-install_writes d tail (suc k) a =
      let d' : Disk = update d (l.block tail) (c (l.block tail)) in
      ground (arith, replay-install_writes d' (tail + 1) k a)

-- The blocks outside the log, as before the transaction, or as it has changed them.
abbrev pub Home : Log → Type 0
Home l = (a : ℕ) × (in_log l.start a ≡ false)

abbrev pub IsOld : Log → Disk → Disk → Type 0
IsOld l d d' = (h : Home l) → d' h.0 ≡ d h.0

abbrev pub IsNew : Log → (ℕ → Block) → Disk → Disk → Type 0
IsNew l c d d' = (h : Home l) → d' h.0 ≡ (if logged l.block 0 l.n h.0 then c h.0 else d h.0)

module _ (l : Log) (c : ℕ → Block) (d : Disk) (fits : l.n ≤ log_size) (homes : Homes l 0 l.n)
    (clear : d l.start 0 ≡ 0) where
  abbrev head : Block
  head = head_of l (c l.start)

  abbrev cleared : Block
  cleared = head_of (record l { n = 0 }) head

  abbrev logs : Writes
  logs = log_writes l c 0 l.n

  abbrev installs : Writes
  installs = install_writes l c 0 l.n

  -- The disk when the header has been written: the commit point.
  abbrev point : Disk
  point = update (replay d logs) l.start head

  crash_before : (k : ℕ) → IsOld l d (recovered l (crash d k logs))
  crash_before k (a, out) =
      let header : crash d k logs l.start ≡ d l.start =
        crash-Spares d k logs l.start (log_writes-Spares l c 0 l.n l.start (ground arith)) in
      let still : crash d k logs l.start 0 ≡ 0 = rw header clear in
      recovered-clear l (crash d k logs) still a out
      ∙ crash-Spares d k logs a (log_writes-Spares l c 0 l.n a (ground arith))

  -- What the installation does not touch.
  spared : (a : ℕ) → in_log l.start a ≡ true → Spares a installs
  spared a e = install_writes-Spares l c 0 l.n a (logged-in_log l 0 l.n a homes e)

  point_home : (a : ℕ) → in_log l.start a ≡ false → point a ≡ d a
  point_home a out = ground (arith, replay-log_writes l c d 0 l.n a)

  point_slot : (i : ℕ) → i < l.n → point (l.start + i + 1) ≡ c (l.block i)
  point_slot i h = ground (arith, replay-log_writes l c d 0 l.n (l.start + i + 1))

  -- Once the header is there, recovery comes to the new contents, if the log region is as it was then
  -- and each block outside it is old, or new if it was logged.
  finish :
      (d' : Disk)
      → ((a : ℕ) → in_log l.start a ≡ true → d' a ≡ point a)
      → ((a : ℕ) → in_log l.start a ≡ false → logged l.block 0 l.n a ≡ false → d' a ≡ d a)
      → IsNew l c d (recovered l d')
  finish d' log_same home_same (a, out) =
      let header : d' l.start ≡ head = ground (arith, log_same l.start) in
      let encodes : Encodes l (d' l.start) = rw header (head_of-Encodes l (c l.start)) in
      let slot : (i : ℕ) → i < l.n → d' (l.start + i + 1) ≡ c (l.block i) =
        λ i h. log_same (l.start + i + 1) (ground arith) ∙ point_slot i h in
      ground (arith, recovered-full l d' l c refl fits homes encodes slot a out, home_same a)

  crash_inside : (k : ℕ) → IsNew l c d (recovered l (crash point k installs))
  crash_inside k =
      finish (crash point k installs) (λ a e. crash-Spares point k installs a (spared a e))
        (λ a out free.
          crash-Spares point k installs a (install_writes-Spares l c 0 l.n a free)
          ∙ point_home a out)

  abbrev final : Disk
  final = update (replay point installs) l.start cleared

  crash_after : IsNew l c d (recovered l final)
  crash_after (a, out) =
      let written : final l.start ≡ cleared = ground arith in
      let still : final l.start 0 ≡ 0 =
        ap (λ (b : Block). b 0) written ∙ (head_of-Encodes (record l { n = 0 }) head).0 in
      ground (
        arith,
        recovered-clear l final still a out,
        replay-install_writes l c point 0 l.n a,
        point_home a,
      )

  late : (j : ℕ) → crash (replay point installs) (suc j) ((l.start, cleared) ∷ []) ≡ final
  unfolding crash
  late zero = refl
  late (suc j) = refl

  -- Where a crash can be: in the log writes, in the installation, behind the last write.
  crash_points :
      (k : ℕ)
      → (crash d k (commit_writes l c) ≡ crash d k logs)
        ⊎ (((j : ℕ) × (crash d k (commit_writes l c) ≡ crash point j installs))
            ⊎ (crash d k (commit_writes l c) ≡ final))
  unfolding commit_writes crash
  crash_points k =
      let behind : Writes = (l.start, head) ∷ (installs ++ (l.start, cleared) ∷ []) in
      elim (dec_lt (length logs) k) [
        | no early ↦ inl (crash-append d k logs behind ∙ ground arith)
        | yes over ↦
            let j : ℕ = k - length logs - 1 in
            let next : k - length logs ≡ suc j = omega arith in
            let here : crash d k (logs ++ behind)
                ≡ crash point j (installs ++ (l.start, cleared) ∷ []) =
              crash-append d k logs behind ∙ rw next (ground arith) in
            inr (elim (dec_lt (length installs) j) [
              | no early ↦ inl (
                j,
                here ∙ (crash-append point j installs ((l.start, cleared) ∷ []) ∙ ground arith),
              )
              | yes last ↦
                  let e : j - length installs ≡ suc (j - length installs - 1) = omega arith in
                  inr (
                    here
                    ∙ (crash-append point j installs ((l.start, cleared) ∷ [])
                        ∙ rw e (ground (arith, late (j - length installs - 1)))))
            ])
      ]

  -- A crash after any number of the writes.
  crash_commit :
      (k : ℕ)
      → IsOld l d (recovered l (crash d k (commit_writes l c)))
        ⊎ IsNew l c d (recovered l (crash d k (commit_writes l c)))
  crash_commit k = elim (crash_points k) [
    | inl e ↦ rw e (inl (crash_before k))
    | inr (inl (j, e)) ↦ rw e (inr (crash_inside j))
    | inr (inr e) ↦ rw e (inr crash_after)
  ]

crash_none : (l : Log) (d : Disk) (k : ℕ) → d l.start 0 ≡ 0 → IsOld l d (recovered l (crash d k []))
unfolding crash
crash_none l d zero clear (a, out) = recovered-clear l d clear a out
crash_none l d (suc k) clear (a, out) = recovered-clear l d clear a out

commit_nothing : (l : Log) (st : Store) → l.n ≡ 0 → commit l st ≡ (l, st)
unfolding commit
commit_nothing l st e = ground arith

-- Let a commit start on a disk whose log header is clear, with at most 30 logged blocks, none of them
-- in the log. Whatever number of its disk writes has been made when the machine stops, recovery
-- leaves outside the log either the old disk, or the old disk with every logged block as cached.
pub commit_atomic :
    (l : Log) (st : Store) (k : ℕ)
    → l.n ≤ log_size
    → Homes l 0 l.n
    → st.disk l.start 0 ≡ 0
    → st.trace ≡ []
    → IsOld l st.disk (recovered l (crash st.disk k (commit l st).1.trace))
      ⊎ IsNew l st.cache st.disk (recovered l (crash st.disk k (commit l st).1.trace))
commit_atomic l st k fits homes clear fresh = elim (dec_lt 0 l.n) [
  | yes some_blocks ↦
      let all = commit-Committed l st some_blocks fits homes in
      let e : (commit l st).1.trace ≡ commit_writes l st.cache = all.trace_lem ∙ rw fresh in
      rw e (crash_commit l st.cache st.disk fits homes clear k)
  | no nothing ↦
      let e : (commit l st).1.trace ≡ [] =
        ap (λ (r : Log × Store). r.1.trace) (commit_nothing l st (omega arith)) ∙ fresh in
      rw e (inl (crash_none l st.disk k clear))
]

-- A commit of at most 30 logged blocks, none inside the log, on a disk with a clear log header, run
-- to its end, leaves every logged block on the disk as cached and every other block outside the
-- log as it was, the log in memory empty, and the log header on the disk clear.
pub commit_durable :
    (l : Log) (st : Store)
    → l.n ≤ log_size
    → Homes l 0 l.n
    → st.disk l.start 0 ≡ 0
    → IsNew l st.cache st.disk (commit l st).1.disk
      × ((commit l st).0 ≡ record l { n = 0 })
      × ((commit l st).1.disk l.start 0 ≡ 0)
unfolding logged
commit_durable l st fits homes clear = elim (dec_lt 0 l.n) [
  | yes some_blocks ↦
      let all = commit-Committed l st some_blocks fits homes in
      (λ h. all.disk_lem h.0 h.1, all.cleared, all.header)
  | no nothing ↦
      let e : l.n ≡ 0 = omega arith in
      rw (commit_nothing l st e) (λ h. rw e refl, ap (λ (k : ℕ). record l { n = k }) e, clear)
]
