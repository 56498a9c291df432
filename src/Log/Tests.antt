-- ===== src/Log/Tests.antt =====
-- Runs of log.c on a small disk, and its theorems at concrete inputs.
use pa.Common.{
  true, ℕ, ◌+◌, ◌≤◌, ◌≡◌, refl, ◌≢◌, ◌⊎◌, false, ◌||◌, none, some, [], ◌∷◌, arith, ◌==◌,
}
use pa.Log.{Log, log_size, begin_op, end_op, end_op_locked, log_write, commit, recover_from_log}
use pa.Log.Blocks.{Store}
use pa.Log.Writes.{crash}
use pa.Log.Install.{logged}
use pa.Log.Commit.{Homes}
use pa.Log.Recover.{recovered}
use pa.Log.Crash.{IsOld, IsNew, commit_atomic, commit_durable}
use pa.Log.Entries.{Distinct, log_write_lem}
use pa.Log.Space.{Sys, Reach, here, later, begin_step, end_step, IsIdle, log_bounded}

-- Blocks 40 and 41 are logged.
abbrev two_blocks : Log
two_blocks = record {
  start = 2;
  size = 31;
  outstanding = 1;
  committing = false;
  n = 2;
  block = λ i. 40 + i;
}

abbrev changed : Store
changed = record { cache = λ a w. a + w; disk = λ a w. 0; trace = [] }

two_blocks-Homes : Homes two_blocks 0 2
two_blocks-Homes i lo hi = ground arith

-- After two writes the header is not there, after three it is.
crash_early :
    recovered two_blocks (crash changed.disk 2 (commit two_blocks changed).1.trace) 40 7 ≡ 0
unfolding recover_from_log commit crash
crash_early = refl

crash_late :
    recovered two_blocks (crash changed.disk 3 (commit two_blocks changed).1.trace) 40 7 ≡ 47
unfolding recover_from_log commit crash
crash_late = refl

commit_atomic_example :
    IsOld two_blocks changed.disk
      (recovered two_blocks (crash changed.disk 4 (commit two_blocks changed).1.trace))
    ⊎ IsNew two_blocks changed.cache changed.disk
        (recovered two_blocks (crash changed.disk 4 (commit two_blocks changed).1.trace))
commit_atomic_example = commit_atomic two_blocks changed 4 (omega arith) two_blocks-Homes refl refl

commit_durable_example :
    IsNew two_blocks changed.cache changed.disk (commit two_blocks changed).1.disk
    × ((commit two_blocks changed).0 ≡ record two_blocks { n = 0 })
    × ((commit two_blocks changed).1.disk 2 0 ≡ 0)
commit_durable_example = commit_durable two_blocks changed (omega arith) two_blocks-Homes refl

-- Block 40 is logged already: the call absorbs it.
absorbs : (l : Log) × (log_write two_blocks 40 ≡ some l)
unfolding log_write
absorbs = (_, refl)

two_blocks-Distinct : Distinct two_blocks.block 2
two_blocks-Distinct i j lt bound = omega arith

log_write_lem_example :
    ((a : ℕ) → logged absorbs.0.block 0 absorbs.0.n a ≡ (logged two_blocks.block 0 2 a || 40 == a))
    × Distinct absorbs.0.block absorbs.0.n
    × (absorbs.0.n ≤ 2 + 1)
log_write_lem_example = log_write_lem two_blocks absorbs.0 40 absorbs.1 two_blocks-Distinct

abbrev empty_log : Log
empty_log = record {
  start = 2;
  size = 31;
  outstanding = 0;
  committing = false;
  n = 0;
  block = λ i. 0;
}

abbrev quiet : Sys
quiet = record { log = empty_log; used = []; to_commit = 0; to_clear = 0 }

quiet-IsIdle : IsIdle quiet
quiet-IsIdle = record {
  idle = refl;
  outside = refl;
  nobody = refl;
  no_commit = refl;
  clear = refl;
  sized = omega arith;
}

begun : (l : Log) × (begin_op empty_log ≡ some l)
unfolding begin_op
begun = (_, refl)

abbrev one_running : Sys
one_running = record { log = begun.0; used = 0 ∷ []; to_commit = 0; to_clear = 0 }

one_running-Reach : Reach quiet one_running
one_running-Reach = later here (begin_step begun.1)

-- the only operation at its end, in the commit without the lock
closed : (l : Log) × (end_op_locked one_running.log ≡ some (l, true))
unfolding end_op_locked begun
closed = (_, refl)

abbrev committing : Sys
committing = record { log = closed.0; used = []; to_commit = 1; to_clear = 0 }

committing-Reach : Reach quiet committing
committing-Reach = later one_running-Reach (end_step [] 0 [] refl closed.1)

-- begin_op sleeps there, and end_op would panic.
begin_waits : begin_op committing.log ≡ none
unfolding begin_op closed
begin_waits = refl

end_panics : end_op committing.log changed ≡ none
unfolding end_op end_op_locked closed
end_panics = refl

log_bounded_example :
    (committing.log.n ≤ log_size)
    × Distinct committing.log.block committing.log.n
    × (((committing.to_commit + committing.to_clear ≡ 1) × (committing.used ≡ []))
        ⊎ ((committing.to_commit + committing.to_clear ≡ 0)
            × ((st : Store) → end_op committing.log st ≢ none)))
log_bounded_example = log_bounded quiet-IsIdle committing-Reach
