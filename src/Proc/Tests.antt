-- ===== src/Proc/Tests.antt =====
-- The process table with the first process and an exited child of it.
use pa.Common.{
  ◌^◌, ℕ, zero, suc, ◌+◌, ◌≤◌, ◌<◌, ◌≡◌, ◌≢◌, refl, ap, ◌⊎◌, Bool, true, false, none, some, [],
  arith, pos, negsuc, if◌then◌else◌, ltb,
}
use pa.Syscall.{to_int}
use pa.Proc.{
  num_procs, ProcState, unused, sleeping, runnable, running, zombie, Chan, null, slot, other, Proc,
  is_zombie, is_sleeping, Machine, Kernel, fork, exit, wait, Outcome, returned, asleep, wakeup1,
  wake_slot, kill, allocproc, find_slot, wait_scan, adopt_from, adopt_slot, exit_table, close_files,
  dup_files, wake_from,
}
use pa.Proc.Valid.{Numbers, is_alive, is_waiting}
use pa.Proc.Loops.{wakeup1_lem}
use pa.Proc.Births.{KernelValid}
use pa.Proc.Runs.{
  Steps, done, next, fork_step, forks, step_forks, Steps-Valid, zombie-found, Waited, wait-Waited,
  kill_lem,
}

abbrev blank : Proc
blank = record {
  sz = 0;
  pgdir = 0;
  kstack = 0;
  state = unused;
  pid = 0;
  parent = none;
  tf = λ i. 0;
  chan = null;
  killed = false;
  ofile = λ fd. 0;
  cwd = 0;
  name = [];
}

abbrev family : ℕ → Proc
family zero = record blank { state = running; pid = 1 }
family (suc zero) = record blank { state = zombie; pid = 2; parent = some 0 }
family (suc (suc j)) = blank

-- `W` counts the pages handed out.
abbrev counting : Machine ℕ
counting = record {
  kalloc = λ w. (w + 1, (w + 1));
  kfree = λ w p. w;
  copyuvm = λ w p n. (w + 1, w + 1);
  freevm = λ w p. w;
  filedup = λ w f. w;
  fileclose = λ w f. w;
  idup = λ w i. w;
  put_cwd = λ w i. w;
}

abbrev started : Kernel ℕ
started = record { world = 0; procs = family; nextpid = 3 }

outside_family : (j : ℕ) → num_procs ≤ j → family j ≡ blank
outside_family zero h = absurd (omega arith)
outside_family (suc zero) h = absurd (omega arith)
outside_family (suc (suc j)) h = refl

family-parent : (i j : ℕ) → (family j).parent ≡ some i → i ≡ 0
family-parent i zero h = ground (arith, h)
family-parent i (suc zero) h = ground (arith, h)
family-parent i (suc (suc j)) h = ground (arith, h)

family-no_loop : (j : ℕ) → (family j).parent ≢ some j
family-no_loop zero h = ground (arith, h)
family-no_loop (suc zero) h = ground (arith, h)
family-no_loop (suc (suc j)) h = ground (arith, h)

family-pid : (j : ℕ) → (family j).pid < 3
family-pid zero = omega arith
family-pid (suc zero) = omega arith
family-pid (suc (suc j)) = omega arith

abbrev is_used : Proc → Bool
is_used p = ltb 0 p.pid

family-used : (j : ℕ) → pa.Proc.is_unused (family j).state ≡ false → 0 < (family j).pid
family-used zero h = omega arith
family-used (suc zero) h = omega arith
family-used (suc (suc j)) h = absurd (ground (arith, h))

family-distinct : (i j : ℕ) → (family i).pid ≡ (family j).pid → 0 < (family i).pid → i ≡ j
family-distinct zero zero e h = refl
family-distinct zero (suc zero) e h = absurd (omega arith)
family-distinct zero (suc (suc j)) e h = absurd (omega arith)
family-distinct (suc zero) zero e h = absurd (omega arith)
family-distinct (suc zero) (suc zero) e h = refl
family-distinct (suc zero) (suc (suc j)) e h = absurd (omega arith)
family-distinct (suc (suc i)) j e h = absurd (omega arith)

family-Numbers : Numbers 3 family
family-Numbers = record {
  pid_below = family-pid;
  pid_used = family-used;
  pid_distinct = family-distinct;
}

started-Valid : KernelValid 0 started
started-Valid = record {
  init_alive = refl;
  init_inside = omega arith;
  outside = λ j h. ap (λ p. pa.Proc.is_unused p.state) (outside_family j h);
  outside_parent = λ j h. ap (λ p. p.parent) (outside_family j h);
  init_root = refl;
  no_loop = family-no_loop;
  parent_alive = λ i j h. ap (λ x. is_alive (family x).state) (family-parent i j h);
  woken = λ i j h w.
      absurd (ground (arith, w, ap (λ x. is_waiting (family x) x) (family-parent i j h)));
  numbers = λ few. family-Numbers;
}

-- the first process forks, and collects its exited child
abbrev forked : Kernel ℕ
forked = (fork counting started 0).0

abbrev fork_runs : Steps counting 0 started forked
fork_runs = next started forked forked (fork_step started 0 refl) (done forked)

one_fork : started.nextpid + forks counting 0 fork_runs ≤ 2 ^ 31
unfolding forks step_forks
one_fork = omega arith

Steps-Valid_example :
    KernelValid 0 forked × Numbers forked.nextpid forked.procs × (forked.nextpid ≤ 2 ^ 31)
Steps-Valid_example = Steps-Valid counting 0 started forked fork_runs started-Valid one_fork

zombie-found_example : (is_alive (family 0).state ≡ true) × (is_waiting (family 0) 0 ≡ false)
zombie-found_example =
    zombie-found counting 0 started started 0 1 started-Valid (done started) refl refl

wait-Waited_example : Waited counting started 0
wait-Waited_example = wait-Waited counting started 0

waits : (wait counting started 0).1 ≡ returned (pos 2)
unfolding wait wait_scan to_int
waits = refl

-- After the last word nextpid is 0 again, and before it a number is negative.
last_pid :
    ((fork counting (record started { nextpid = 0xffffffff }) 0).0.nextpid ≡ 0)
    × ((fork counting (record started { nextpid = 0xffffffff }) 0).1 ≡ negsuc 0)
unfolding fork allocproc find_slot to_int dup_files
last_pid = (refl, refl)

kill_lem_example :
    ((i : ℕ) × (i < num_procs)
      × ((family i).pid ≡ 2)
      × ((kill family 2).1 ≡ pos 0)
      × (((kill family 2).0 i).killed ≡ true)
      × (((kill family 2).0 i).state
          ≡ (if is_sleeping (family i).state then runnable else (family i).state))
      × ((j : ℕ) → j ≢ i → (kill family 2).0 j ≡ family j))
    ⊎ (((j : ℕ) → j < num_procs → (family j).pid ≢ 2) × (kill family 2 ≡ (family, negsuc 0)))
kill_lem_example = kill_lem family 2

wakeup1_lem_example :
    wakeup1 (slot 0) family 0
    ≡ (if ltb 0 num_procs then wake_slot (slot 0) (family 0) else family 0)
wakeup1_lem_example = wakeup1_lem (slot 0) family 0

-- kill(0) finds the first unused slot.
kills_unused : ((kill family 0).0 2).killed ≡ true
unfolding kill find_slot
kills_unused = refl

-- The fork after it claims that slot, and the new process is killed from its start.
abbrev after_kill : Kernel ℕ
after_kill = record started { procs = (kill family 0).0 }

born_killed : ((fork counting after_kill 0).0.procs 2).killed ≡ true
unfolding kill find_slot fork allocproc
born_killed = refl
