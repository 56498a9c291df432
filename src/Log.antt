-- ===== src/Log.antt =====
-- log.c: the redo log, over the blocks that bread shows and the blocks on the disk.
pub mod Blocks
pub mod Writes
pub mod Install
pub mod Commit
pub mod Recover
pub mod Crash
pub mod Entries
pub mod Space
mod Tests
use pa.Common.{
  ℕ, zero, suc, ◌+◌, ◌*◌, ◌-◌, Bool, true, false, ◌||◌, Option, none, some, List, [], ltb, leb,
  ◌==◌, if◌then◌else◌, update,
}
use Blocks.{Block, Store, bread, modify, bwrite}

-- param.h
abbrev pub max_op_blocks : ℕ
max_op_blocks = 10

abbrev pub log_size : ℕ
log_size = max_op_blocks * 3

-- `struct log` with its header: `block` is `lh.block`, `LOGSIZE` numbers.
pub record Log : Type 0 where
  pub start : ℕ
  pub size : ℕ
  pub outstanding : ℕ
  pub committing : Bool
  pub n : ℕ
  pub block : ℕ → ℕ

-- The rounds of `install_trans` from `tail` on, `k` of them.
pub install_from : Log → Store → ℕ → ℕ → Store
install_from l st tail zero = st
install_from l st tail (suc k) =
    let data_of_log = bread st (l.start + tail + 1) in
    install_from l (bwrite (modify st (l.block tail) data_of_log) (l.block tail)) (tail + 1) k

pub install_trans : Log → Store → Store
unfolding install_from
install_trans l st = install_from l st 0 l.n

-- the loop of `read_head`, from the words of the header block behind the count
pub read_blocks : Block → (ℕ → ℕ) → ℕ → ℕ → ℕ → ℕ
read_blocks head block i zero = block
read_blocks head block i (suc k) = read_blocks head (update block i (head (i + 1))) (i + 1) k

-- `read_head`: word 0 of the block is `n`, word `i + 1` is `block[i]`
pub read_head : Log → Store → Log
unfolding read_blocks
read_head l st =
    let head = bread st l.start in
    record l { n = head 0; block = read_blocks head l.block 0 (head 0) }

-- the loop of `write_head`
pub head_blocks : (ℕ → ℕ) → Block → ℕ → ℕ → Block
head_blocks block head i zero = head
head_blocks block head i (suc k) = head_blocks block (update head (i + 1) (block i)) (i + 1) k

pub write_head : Log → Store → Store
unfolding head_blocks
write_head l st =
    let head = update (bread st l.start) 0 l.n in
    bwrite (modify st l.start (head_blocks l.block head 0 l.n)) l.start

pub recover_from_log : Log → Store → Log × Store
unfolding read_head install_trans write_head
recover_from_log l st =
    let l' = read_head l st in
    let l'' = record l' { n = 0 } in (l'', write_head l'' (install_trans l' st))

-- The rounds of `write_log` from `tail` on, `k` of them.
pub write_log_from : Log → Store → ℕ → ℕ → Store
write_log_from l st tail zero = st
write_log_from l st tail (suc k) =
    let from = bread st (l.block tail) in
    write_log_from l (bwrite (modify st (l.start + tail + 1) from) (l.start + tail + 1)) (tail + 1)
      k

pub write_log : Log → Store → Store
unfolding write_log_from
write_log l st = write_log_from l st 0 l.n

pub commit : Log → Store → Log × Store
unfolding write_log write_head install_trans
commit l st =
    let cleared = record l { n = 0 } in
    if ltb 0 l.n
    then (cleared, write_head cleared (install_trans l (write_head l (write_log l st))))
    else (l, st)

-- `initlog`, with `logstart` and `nlog` of the superblock. The header, 31 words, fits a block.
pub initlog : ℕ → ℕ → Log → Store → Log × Store
unfolding recover_from_log
initlog logstart nlog l st = recover_from_log (record l { start = logstart; size = nlog }) st

-- One round of the loop of `begin_op`: `none` if the caller goes to sleep.
pub begin_op : Log → Option Log
begin_op l =
    if l.committing
    then none
    else if ltb log_size (l.n + (l.outstanding + 1) * max_op_blocks)
    then none
    else some (record l { outstanding = l.outstanding + 1 })

-- `end_op` up to its first release of the lock, with `do_commit`; `none` is the panic. The counter is at
-- least 1 in a call, so that its fall to 0 is a fall from 1.
pub end_op_locked : Log → Option (Log × Bool)
end_op_locked l =
    let l' = record l { outstanding = l.outstanding - 1 } in
    if l.committing
    then none
    else if l.outstanding == 1
    then some (record l' { committing = true }, true)
    else some (l', false)

-- `end_op` after its commit
pub end_commit : Log → Log
end_commit l = record l { committing = false }

-- `end_op` as a whole, when nobody else touches the log. The last operation commits.
pub end_op : Log → Store → Option (Log × Store)
unfolding end_op_locked end_commit commit
end_op l st = elim (end_op_locked l) [
  | none ↦ none
  | some (l', do_commit) ↦
      let (c, st') = commit l' st in if do_commit then some (end_commit c, st') else some (l', st)
]

-- the search of `log_write`: the first of `k` entries from `i` on that is `b`, or the index behind
-- them
pub find_block : (ℕ → ℕ) → ℕ → ℕ → ℕ → ℕ
find_block block b i zero = i
find_block block b i (suc k) =
    let rest = find_block block b (i + 1) k in if block i == b then i else rest

-- `log_write` of a buffer for block `b`; `none` is a panic. What pins the buffer is in bio.c.
pub log_write : Log → ℕ → Option Log
unfolding find_block
log_write l b =
    let i = find_block l.block b 0 l.n in
    if leb log_size l.n || leb (l.size - 1) l.n
    then none
    else if ltb l.outstanding 1
    then none
    else some (record l { block = update l.block i b; n = if i == l.n then l.n + 1 else l.n })
