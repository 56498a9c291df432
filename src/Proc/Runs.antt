-- ===== src/Proc/Runs.antt =====
-- The kernel as a step relation: whole runs of the operations on the process table between two
-- switches, by any processes in any order.
use pa.Common.{
  ◌+◌, ◌≤◌, ◌^◌, sym, subst, ℕ, ◌<◌, ◌≡◌, ◌≢◌, refl, ap, ◌⊎◌, inl, inr, true, false, some, ◌==◌,
  if◌then◌else◌, update, arith, Bool-cases, Option-cases, pos, negsuc,
}
use pa.Syscall.{to_int}
use pa.Proc.{
  num_procs, runnable, running, Chan, slot, other, Proc, is_sleeping, is_zombie, is_parent, wakeup1,
  Machine, Kernel, fork, exit, wait, wait_scan, finished, freed, returned, asleep, schedule, yield,
  sleep, wake_up, kill, find_slot,
}
use pa.Proc.Valid.{Valid, Numbers, is_alive, is_waiting}
use pa.Proc.Loops.{find_slot-some, find_slot-none}
use pa.Proc.Moves.{
  schedule-Valid, yield-Valid, sleep-Valid, wake_up-Valid, wakeup1-Valid, kill-Valid,
}
use pa.Proc.Waits.{Scan-cases, wait_scan-found, wait_scan-finished, wait_scan-kid, wait_scan-inside}
use pa.Proc.Births.{KernelValid, Counted, fork-Valid, exit-Valid, wait-Valid, update_self}
use pa.Proc.Family.{update_ne}

module _ {W : Type 0} (m : Machine W) (init : ℕ) where
  abbrev pub IsRunning : Kernel W → ℕ → Type 0
  IsRunning k cur = (k.procs cur).state ≡ running

  abbrev pub with_procs : Kernel W → (ℕ → Proc) → Kernel W
  with_procs k t = record k { procs = t }

  pub data Step : Kernel W → Kernel W → Type 0 where
    fork_step : (k : Kernel W) (cur : ℕ) → IsRunning k cur → Step k (fork m k cur).0
    exit_step :
        (k k' : Kernel W) (cur : ℕ) → IsRunning k cur → exit m k cur init ≡ some k' → Step k k'
    wait_step : (k : Kernel W) (cur : ℕ) → IsRunning k cur → Step k (wait m k cur).0
    yield_step :
        (k : Kernel W) (cur : ℕ) → IsRunning k cur → Step k (with_procs k (yield cur k.procs))
    sleep_step :
        (k : Kernel W) (cur a : ℕ)
        → IsRunning k cur
        → Step k (with_procs k (sleep cur (other a) k.procs))
    wake_up_step : (k : Kernel W) (cur : ℕ) → Step k (with_procs k (wake_up cur k.procs))
    schedule_step :
        (k : Kernel W) (i : ℕ) (t : ℕ → Proc)
        → schedule i k.procs ≡ some t
        → Step k (with_procs k t)
    wakeup_step : (k : Kernel W) (chan : Chan) → Step k (with_procs k (wakeup1 chan k.procs))
    kill_step : (k : Kernel W) (pid : ℕ) → Step k (with_procs k (kill k.procs pid).0)
    -- The other files change what is theirs.
    world_step : (k : Kernel W) (w : W) → Step k (record k { world = w })

  pub data Steps : Kernel W → Kernel W → Type 0 where
    done : (k : Kernel W) → Steps k k
    next : (k k' k'' : Kernel W) → Step k k' → Steps k' k'' → Steps k k''

  -- the calls of fork in a run
  unfoldable pub step_forks : {k k' : Kernel W} → Step k k' → ℕ
  step_forks (fork_step k cur run) = 1
  step_forks (exit_step k k' cur run h) = 0
  step_forks (wait_step k cur run) = 0
  step_forks (yield_step k cur run) = 0
  step_forks (sleep_step k cur a run) = 0
  step_forks (wake_up_step k cur) = 0
  step_forks (schedule_step k i t h) = 0
  step_forks (wakeup_step k chan) = 0
  step_forks (kill_step k pid) = 0
  step_forks (world_step k w) = 0

  unfoldable pub forks : {k k' : Kernel W} → Steps k k' → ℕ
  forks (done k) = 0
  forks (next k k' k'' s rest) = step_forks s + forks rest

  Step-Counted :
      (n : ℕ) (k k' : Kernel W) (s : Step k k')
      → Counted init n k
      → (n' : ℕ) × (n' ≤ n + step_forks s) × Counted init n' k'
  unfolding step_forks
  Step-Counted n _ _ (fork_step k cur run) v = fork-Valid m init n k cur run v
  Step-Counted n _ _ (exit_step k k' cur run h) v =
      (n, omega arith, exit-Valid m init n k k' cur run h v)
  Step-Counted n _ _ (wait_step k cur run) v = (n, omega arith, wait-Valid m init n k cur run v)
  Step-Counted n _ _ (yield_step k cur run) v =
      (n, omega arith, (yield-Valid init n k.procs cur run v.0, v.1))
  Step-Counted n _ _ (sleep_step k cur a run) v =
      (n, omega arith, (sleep-Valid init n k.procs cur a run v.0, v.1))
  Step-Counted n _ _ (wake_up_step k cur) v =
      (n, omega arith, (wake_up-Valid init n k.procs cur v.0, v.1))
  Step-Counted n _ _ (schedule_step k i t h) v =
      (n, omega arith, (schedule-Valid init n k.procs i t h v.0, v.1))
  Step-Counted n _ _ (wakeup_step k chan) v =
      (n, omega arith, (wakeup1-Valid init n k.procs chan v.0, v.1))
  Step-Counted n _ _ (kill_step k pid) v =
      (n, omega arith, (kill-Valid init n k.procs pid v.0, v.1))
  Step-Counted n _ _ (world_step k w) v = (n, omega arith, v)

  Steps-Counted :
      (n : ℕ) (k k' : Kernel W) (s : Steps k k')
      → Counted init n k
      → (n' : ℕ) × (n' ≤ n + forks s) × Counted init n' k'
  unfolding forks
  Steps-Counted n _ _ (done k) v = (n, omega arith, v)
  Steps-Counted n _ _ (next k k' k'' s rest) v =
      let (n1, few, v1) = Step-Counted n k k' s v in
      let (n2, few', v2) = Steps-Counted n1 k' k'' rest v1 in (n2, omega arith, v2)

  -- From a valid process table, every interleaving of fork, exit, wait, yield, sleep, wakeup, kill
  -- and the scheduler, in which nextpid and the calls of fork add up to at most 2 ^ 31, leads to a
  -- valid one: the first process stays alive, every parent is alive, and the numbers of the
  -- processes are positive, different and below the next one to give, which is at most 2 ^ 31.
  pub Steps-Valid :
      (k k' : Kernel W) (s : Steps k k')
      → KernelValid init k
      → k.nextpid + forks s ≤ 2 ^ 31
      → KernelValid init k' × Numbers k'.nextpid k'.procs × (k'.nextpid ≤ 2 ^ 31)
  Steps-Valid k k' s v few =
      let (n, most, (v', agrees)) = Steps-Counted k.nextpid k k' s (v, λ _. refl) in
      let bound : n ≤ 2 ^ 31 = omega arith in
      let same = sym (agrees bound) in
      (
        subst (λ x. Valid init x k'.procs) same v',
        subst (λ x. Numbers x k'.procs) same (v'.numbers bound),
        omega arith,
      )

  -- In every state that any interleaving of these operations reaches from a valid process table, a
  -- zombie with a parent has one that is alive and does not sleep in wait: the wake-up of exit is
  -- never lost, also when the zombie was handed to the first process.
  pub zombie-found :
      (k k' : Kernel W) (i j : ℕ)
      → KernelValid init k
      → Steps k k'
      → (k'.procs j).parent ≡ some i
      → is_zombie (k'.procs j).state ≡ true
      → (is_alive (k'.procs i).state ≡ true) × (is_waiting (k'.procs i) i ≡ false)
  zombie-found k k' i j v s child dead =
      let (n, most, (v', agrees)) = Steps-Counted k.nextpid k k' s (v, λ _. refl) in
      (
        v'.parent_alive i j child,
        elim (Bool-cases (is_waiting (k'.procs i) i)) [
          | inl w ↦ absurd (ground (arith, v'.woken i j child w, dead))
          | inr w ↦ w
        ],
      )

-- What wait comes to.
pub data Waited {W : Type 0} (m : Machine W) (k : Kernel W) (cur : ℕ) : Type 0 where
  collected :
      (j : ℕ)
      → j < num_procs
      → is_parent (k.procs j).parent cur ≡ true
      → is_zombie (k.procs j).state ≡ true
      → (wait m k cur).1 ≡ returned (to_int (k.procs j).pid)
      → (wait m k cur).0.procs ≡ update k.procs j (freed (k.procs j))
      → Waited m k cur
  childless :
      ((j : ℕ) → j < num_procs → is_parent (k.procs j).parent cur ≡ false)
      → wait m k cur ≡ (k, returned (negsuc 0))
      → Waited m k cur
  killed_parent :
      (k.procs cur).killed ≡ true
      → ((j : ℕ)
          → j < num_procs
          → is_parent (k.procs j).parent cur ≡ true
          → is_zombie (k.procs j).state ≡ false)
      → wait m k cur ≡ (k, returned (negsuc 0))
      → Waited m k cur
  sleeps :
      (kid : ℕ)
      → kid < num_procs
      → is_parent (k.procs kid).parent cur ≡ true
      → (k.procs cur).killed ≡ false
      → ((j : ℕ)
          → j < num_procs
          → is_parent (k.procs j).parent cur ≡ true
          → is_zombie (k.procs j).state ≡ false)
      → (wait m k cur).1 ≡ asleep
      → (wait m k cur).0.procs ≡ sleep cur (slot cur) k.procs
      → Waited m k cur

-- Up to its next sleep, wait frees the slot of a zombie child and returns its number, if there is one. If
-- there is none, it returns -1 and changes nothing if the caller has no child or is killed; and it
-- falls asleep on its own slot if the caller has a child and is not killed.
pub wait-Waited : {W : Type 0} (m : Machine W) (k : Kernel W) (cur : ℕ) → Waited m k cur
unfolding wait
wait-Waited m k cur = elim (Scan-cases (wait_scan num_procs 0 cur false k.procs)) [
  | inl (j, e) ↦
      let (kid, z) = wait_scan-found num_procs 0 cur false k.procs j e in
      collected j (wait_scan-inside num_procs 0 cur false k.procs j e) kid z (rw (wait, e) refl)
        (rw (wait, e) refl)
  | inr (b, e) ↦
      let none_dead = wait_scan-finished num_procs 0 cur false k.procs b e in
      let alive_kids : (j : ℕ)
          → j < num_procs
          → is_parent (k.procs j).parent cur ≡ true
          → is_zombie (k.procs j).state ≡ false =
        λ j h kid. (none_dead j (omega arith) (omega arith) kid).0 in
      elim (Bool-cases b) [
        | inr none_kid ↦
            childless
              (λ j h. elim (Bool-cases (is_parent (k.procs j).parent cur)) [
                | inl kid ↦
                    absurd
                      (ground (arith, (none_dead j (omega arith) (omega arith) kid).1, none_kid))
                | inr out ↦ out
              ])
              (rw (wait, e, none_kid) refl)
        | inl kids ↦ elim (Bool-cases (k.procs cur).killed) [
          | inl dead ↦ killed_parent dead alive_kids (rw (wait, e, kids, dead) refl)
          | inr lives ↦
              let (kid, inside, own) =
                wait_scan-kid num_procs 0 cur k.procs (rw e (ap finished kids)) in
              sleeps kid (omega (arith, inside)) own lives alive_kids
                (rw (wait, e, kids, lives) refl) (rw (wait, e, kids, lives) refl)
        ]
      ]
]

-- kill of a number finds the first slot that has it, marks that process killed and makes it
-- runnable if it slept, and returns 0; when no slot has it, it returns -1 and changes nothing.
pub kill_lem :
    (t : ℕ → Proc) (pid : ℕ)
    → ((i : ℕ) × (i < num_procs)
        × ((t i).pid ≡ pid)
        × ((kill t pid).1 ≡ pos 0)
        × (((kill t pid).0 i).killed ≡ true)
        × (((kill t pid).0 i).state ≡ (if is_sleeping (t i).state then runnable else (t i).state))
        × ((j : ℕ) → j ≢ i → (kill t pid).0 j ≡ t j))
      ⊎ (((j : ℕ) → j < num_procs → (t j).pid ≢ pid) × (kill t pid ≡ (t, negsuc 0)))
unfolding kill
kill_lem t pid = elim (Option-cases (find_slot num_procs 0 (λ p. p.pid == pid) t)) [
  | inl out ↦ inr (
    λ j h same.
        ground (
          arith,
          find_slot-none num_procs 0 (λ p. p.pid == pid) t j out (omega arith) (omega arith),
        ),
    rw (kill, out) refl,
  )
  | inr (i, e) ↦
      let (low, high, same) = find_slot-some num_procs 0 (λ p. p.pid == pid) t i e in
      let q : Proc = record (t i) {
        killed = true;
        state = if is_sleeping (t i).state then runnable else (t i).state;
      } in
      inl (
        i,
        high,
        ground (arith, same),
        rw (kill, e) refl,
        rw (kill, e) (ap (λ p. p.killed) (update_self t i q)),
        rw (kill, e) (ap (λ p. p.state) (update_self t i q)),
        λ j differ. rw (kill, e) (update_ne t i q j differ),
      )
]
