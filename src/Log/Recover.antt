-- ===== src/Log/Recover.antt =====
-- What `recover_from_log` makes of a disk, by the header that it finds.
use pa.Common.{
  ℕ, zero, suc, ◌+◌, ◌≤◌, ◌<◌, ◌≡◌, refl, [], arith, if◌then◌else◌, update, leb, ltb, false, ◌&&◌,
}
use pa.Log.{Log, log_size, install_from, read_blocks, read_head, recover_from_log}
use pa.Log.Blocks.{Block, Store}
use pa.Log.Writes.{Disk}
use pa.Log.Install.{logged, in_log, Holds, Installed, install_from-Installed}
use pa.Log.Commit.{Homes, Encodes}

-- The store after a restart: nothing is cached, so `bread` reads the disk.
abbrev pub boot : Disk → Store
boot d = record { cache = d; disk = d; trace = [] }

-- The disk after recovery.
abbrev pub recovered : Log → Disk → Disk
recovered l d = (recover_from_log l (boot d)).1.disk

read_blocks_lem :
    (head : Block) (block : ℕ → ℕ) (i k j : ℕ)
    → read_blocks head block i k j ≡ (if leb i j && ltb j (i + k) then head (j + 1) else block j)
unfolding read_blocks
read_blocks_lem head block i zero j = ground arith
read_blocks_lem head block i (suc k) j =
    ground (arith, read_blocks_lem head (update block i (head (i + 1))) (i + 1) k j)

pub logged-ext :
    (b b' : ℕ → ℕ) (tail k a : ℕ)
    → ((i : ℕ) → tail ≤ i → i < tail + k → b i ≡ b' i)
    → logged b tail k a ≡ logged b' tail k a
unfolding logged
logged-ext b b' tail zero a h = refl
logged-ext b b' tail (suc k) a h = ground (
  arith,
  h tail (omega arith) (omega arith),
  logged-ext b b' (tail + 1) k a (λ i lo hi. h i (omega arith) (omega arith)),
)

module _ (l₀ : Log) (d : Disk) where
  -- the log as recovery reads it
  found : Log
  unfolding read_head
  found = read_head l₀ (boot d)

  -- Outside the log recovery leaves what `install_trans` leaves.
  recovered_lem :
      (a : ℕ)
      → in_log l₀.start a ≡ false
      → recovered l₀ d a ≡ (install_from found (boot d) 0 (d l₀.start 0)).disk a
  unfolding recover_from_log found
  recovered_lem a out = ground arith

  -- With a clear header recovery changes no block but the header.
  pub recovered-clear :
      d l₀.start 0 ≡ 0 → (a : ℕ) → in_log l₀.start a ≡ false → recovered l₀ d a ≡ d a
  unfolding install_from
  recovered-clear clear a out = rw (recovered_lem a out, clear)

  -- With the header of `l` on the disk, and in the log the contents `c` of its blocks, recovery
  -- installs them, and changes no other block outside the log.
  pub recovered-full :
      (l : Log) (c : ℕ → Block)
      → l.start ≡ l₀.start
      → l.n ≤ log_size
      → Homes l 0 l.n
      → Encodes l (d l.start)
      → ((i : ℕ) → i < l.n → d (l.start + i + 1) ≡ c (l.block i))
      → (a : ℕ) → in_log l.start a ≡ false
      → recovered l₀ d a ≡ (if logged l.block 0 l.n a then c a else d a)
  unfolding found
  recovered-full l c here fits homes head data_there a out =
      let count : d l₀.start 0 ≡ l.n = ground arith in
      let same : (i : ℕ) → i < l.n → found.block i ≡ l.block i = λ i h.
        ground (arith, read_blocks_lem (d l₀.start) l₀.block 0 (d l₀.start 0) i, head.1 i h) in
      let held : Holds found c d 0 (d l₀.start 0) =
        λ i lo hi. ground (arith, same i, data_there i, homes i) in
      let done : Installed found c (boot d) 0 (d l₀.start 0)
          (install_from found (boot d) 0 (d l₀.start 0)) =
        install_from-Installed found c (boot d) 0 (d l₀.start 0) (omega arith) held in
      let ext =
        logged-ext found.block l.block 0 (d l₀.start 0) a (λ i lo hi. same i (omega arith)) in
      ground (arith, recovered_lem a, done.disk_lem a)
