-- ===== src/Proc.antt =====
-- proc.c: the process table, and the operations that move a process through its states. The
-- functions of other files that they call are the operations of `Machine`, over the state `W` of the rest
-- of the kernel.
pub mod Loops
pub mod Valid
pub mod Family
pub mod Exit
pub mod Leave
pub mod Moves
pub mod Waits
pub mod Births
pub mod Runs
mod Tests
use pa.Common.{
  ℕ, zero, suc, ◌+◌, Bool, true, false, not, ◌&&◌, ◌||◌, Option, none, some, List, [], ◌==◌,
  if◌then◌else◌, update, ℤ, pos, negsuc, take, ◌%◌, ◌^◌,
}
use pa.Syscall.{to_int}

abbrev pub num_procs : ℕ
num_procs = 64

abbrev pub num_ofiles : ℕ
num_ofiles = 16

pub data ProcState : Type 0 where
  unused : ProcState
  embryo : ProcState
  sleeping : ProcState
  runnable : ProcState
  running : ProcState
  zombie : ProcState

-- What a process sleeps on: null, a process's own slot (in `wait`), or any other address.
pub data Chan : Type 0 where
  null : Chan
  slot : ℕ → Chan
  other : ℕ → Chan

-- Processes are named by their slots in `ptable.proc`. `tf` is the trap frame by words, `name`
-- the bytes before the NUL, `pid` a word, `ofile` the addresses of open files, 0 for none.
pub record Proc : Type 0 where
  pub sz : ℕ
  pub pgdir : ℕ
  pub kstack : ℕ
  pub state : ProcState
  pub pid : ℕ
  pub parent : Option ℕ
  pub tf : ℕ → ℕ
  pub chan : Chan
  pub killed : Bool
  pub ofile : ℕ → ℕ
  pub cwd : ℕ
  pub name : List ℕ

abbrev pub is_unused : ProcState → Bool
is_unused unused = true
is_unused embryo = false
is_unused sleeping = false
is_unused runnable = false
is_unused running = false
is_unused zombie = false

abbrev pub is_sleeping : ProcState → Bool
is_sleeping unused = false
is_sleeping embryo = false
is_sleeping sleeping = true
is_sleeping runnable = false
is_sleeping running = false
is_sleeping zombie = false

abbrev pub is_runnable : ProcState → Bool
is_runnable unused = false
is_runnable embryo = false
is_runnable sleeping = false
is_runnable runnable = true
is_runnable running = false
is_runnable zombie = false

abbrev pub is_zombie : ProcState → Bool
is_zombie unused = false
is_zombie embryo = false
is_zombie sleeping = false
is_zombie runnable = false
is_zombie running = false
is_zombie zombie = true

-- `a == b` on channels
abbrev pub same_chan : Chan → Chan → Bool
same_chan null null = true
same_chan null (slot j) = false
same_chan null (other b) = false
same_chan (slot i) null = false
same_chan (slot i) (slot j) = i == j
same_chan (slot i) (other b) = false
same_chan (other a) null = false
same_chan (other a) (slot j) = false
same_chan (other a) (other b) = a == b

-- `p->parent == proc`
abbrev pub is_parent : Option ℕ → ℕ → Bool
is_parent none cur = false
is_parent (some i) cur = i == cur

abbrev pub parent_chan : Option ℕ → Chan
parent_chan none = null
parent_chan (some i) = slot i

-- The scan of the table for the first of the `n` slots from `p` on that passes a test.
pub find_slot : (n p : ℕ) → (Proc → Bool) → (ℕ → Proc) → Option ℕ
find_slot zero p test t = none
find_slot (suc n) p test t =
    let rest = find_slot n (p + 1) test t in if test (t p) then some p else rest

-- one round of wakeup1
abbrev pub wake_slot : Chan → Proc → Proc
wake_slot chan p =
    if is_sleeping p.state && same_chan p.chan chan then record p { state = runnable } else p

pub wake_from : (n p : ℕ) → Chan → (ℕ → Proc) → ℕ → Proc
wake_from zero p chan t = t
wake_from (suc n) p chan t = wake_from n (p + 1) chan (update t p (wake_slot chan (t p)))

pub wakeup1 : Chan → (ℕ → Proc) → ℕ → Proc
wakeup1 chan t = wake_from num_procs 0 chan t

-- The operations of other files: kalloc, kfree, copyuvm, freevm, filedup, fileclose, idup, and
-- `begin_op(); iput(cwd); end_op();`. The pointers are numbers, 0 for null.
pub record Machine (W : Type 0) : Type 0 where
  pub kalloc : W → W × ℕ
  pub kfree : W → ℕ → W
  pub copyuvm : W → ℕ → ℕ → W × ℕ
  pub freevm : W → ℕ → W
  pub filedup : W → ℕ → W
  pub fileclose : W → ℕ → W
  pub idup : W → ℕ → W
  pub put_cwd : W → ℕ → W

pub record Kernel (W : Type 0) : Type 0 where
  pub world : W
  pub procs : ℕ → Proc
  pub nextpid : ℕ

-- the new process that fork makes from the claimed slot and the caller
abbrev pub child : (np proc : Proc) (cur pgdir : ℕ) (files : ℕ → ℕ) → Proc
child np proc cur pgdir files = record np {
  pgdir = pgdir;
  sz = proc.sz;
  parent = some cur;
  tf = update proc.tf 7 0;
  ofile = files;
  cwd = proc.cwd;
  name = take 15 proc.name;
  state = runnable;
}

-- a zombie's slot when wait has freed it
abbrev pub freed : Proc → Proc
freed p = record p { kstack = 0; pid = 0; parent = none; name = []; killed = false; state = unused }

module _ {W : Type 0} (m : Machine W) where
  -- `allocproc()`; the layout of the new kernel stack is left out.
  pub allocproc : Kernel W → Kernel W × Option ℕ
  allocproc k = elim (find_slot num_procs 0 (λ p. is_unused p.state) k.procs) [
    | none ↦ (k, none)
    | some i ↦
        let old = k.procs i in
        let p : Proc = record old { state = embryo; pid = k.nextpid } in
        let (world, stack) = m.kalloc k.world in
        if stack == 0
        then (
          record {
            world = world;
            procs = update k.procs i (record p { kstack = 0; state = unused });
            nextpid = (k.nextpid + 1) % 2 ^ 32;
          },
          none,
        )
        else (
          record {
            world = world;
            procs = update k.procs i (record p { kstack = stack });
            nextpid = (k.nextpid + 1) % 2 ^ 32;
          },
          some i,
        )
  ]

  -- the loop over `ofile` in fork
  pub dup_files : (n fd : ℕ) → W → (ℕ → ℕ) → (ℕ → ℕ) → W × (ℕ → ℕ)
  dup_files zero fd w from to = (w, to)
  dup_files (suc n) fd w from to =
      let next = dup_files n (fd + 1) w from to in
      let copied = dup_files n (fd + 1) (m.filedup w (from fd)) from (update to fd (from fd)) in
      if from fd == 0 then next else copied

  -- `fork()`, called by the process in slot `cur`
  pub fork : Kernel W → (cur : ℕ) → Kernel W × ℤ
  fork k cur =
      let (k1, found) = allocproc k in
      elim found [
        | none ↦ (k1, negsuc 0)
        | some i ↦
            let proc = k1.procs cur in
            let np = k1.procs i in
            let (world, pgdir) = m.copyuvm k1.world proc.pgdir proc.sz in
            if pgdir == 0
            then (
              record k1 {
                world = m.kfree world np.kstack;
                procs = update k1.procs i (record np { pgdir = 0; kstack = 0; state = unused });
              },
              negsuc 0,
            )
            else let (world', files) = dup_files num_ofiles 0 world proc.ofile np.ofile in
              (
                record k1 {
                  world = m.idup world' proc.cwd;
                  procs = update k1.procs i (child np proc cur pgdir files);
                },
                to_int np.pid,
              )
      ]

  -- the loop over `ofile` in exit
  pub close_files : (n fd : ℕ) → W → (ℕ → ℕ) → W × (ℕ → ℕ)
  close_files zero fd w ofile = (w, ofile)
  close_files (suc n) fd w ofile =
      let next = close_files n (fd + 1) w ofile in
      let closed = close_files n (fd + 1) (m.fileclose w (ofile fd)) (update ofile fd 0) in
      if ofile fd == 0 then next else closed

-- one round of exit's second loop
pub adopt_slot : (p cur init : ℕ) → (ℕ → Proc) → ℕ → Proc
adopt_slot p cur init t =
    let old = t p in
    let adopted : ℕ → Proc = update t p (record old { parent = some init }) in
    if is_parent old.parent cur
    then (if is_zombie old.state then wakeup1 (slot init) adopted else adopted)
    else t

pub adopt_from : (n p cur init : ℕ) → (ℕ → Proc) → ℕ → Proc
adopt_from zero p cur init t = t
adopt_from (suc n) p cur init t = adopt_from n (p + 1) cur init (adopt_slot p cur init t)

-- What a call comes to up to its next switch to the scheduler.
pub data Outcome : Type 0 where
  returned : ℤ → Outcome
  asleep : Outcome

-- exit from `acquire(&ptable.lock)` to the switch
pub exit_table : (cur init : ℕ) → (ℕ → Proc) → ℕ → Proc
exit_table cur init t =
    let t1 = adopt_from num_procs 0 cur init (wakeup1 (parent_chan (t cur).parent) t) in
    let proc = t1 cur in update t1 cur (record proc { state = zombie })

-- What wait's scan finds: a zombie child, or whether there are children.
pub data Scan : Type 0 where
  found : ℕ → Scan
  finished : Bool → Scan

pub wait_scan : (n p cur : ℕ) → Bool → (ℕ → Proc) → Scan
wait_scan zero p cur havekids t = finished havekids
wait_scan (suc n) p cur havekids t =
    let pass = wait_scan n (p + 1) cur havekids t in
    let kid = wait_scan n (p + 1) cur true t in
    if not (is_parent (t p).parent cur)
    then pass
    else if is_zombie (t p).state
    then found p
    else kid

-- `sleep(chan, lk)` up to the switch; waking up clears `chan`.
pub sleep : (cur : ℕ) → Chan → (ℕ → Proc) → ℕ → Proc
sleep cur chan t = let proc = t cur in update t cur (record proc { chan = chan; state = sleeping })

module _ {W : Type 0} (m : Machine W) where
  -- `exit()`; `none` is the panic.
  pub exit : Kernel W → (cur init : ℕ) → Option (Kernel W)
  exit k cur init =
      let proc = k.procs cur in
      let (world, files) = close_files m num_ofiles 0 k.world proc.ofile in
      let t : ℕ → Proc = update k.procs cur (record proc { ofile = files; cwd = 0 }) in
      if cur == init
      then none
      else some (record k { world = m.put_cwd world proc.cwd; procs = exit_table cur init t })

  -- One round of the loop of `wait()`: it returns, or sleeps until the next round.
  pub wait : Kernel W → (cur : ℕ) → Kernel W × Outcome
  wait k cur = elim (wait_scan num_procs 0 cur false k.procs) [
    | found i ↦
        let p = k.procs i in
        (
          record k {
            world = m.freevm (m.kfree k.world p.kstack) p.pgdir;
            procs = update k.procs i (freed p);
          },
          returned (to_int p.pid),
        )
    | finished havekids ↦
        if not havekids || (k.procs cur).killed
        then (k, returned (negsuc 0))
        else (record k { procs = sleep cur (slot cur) k.procs }, asleep)
  ]

-- `scheduler()` at slot `i`: it runs the process there, if it may run.
pub schedule : ℕ → (ℕ → Proc) → Option (ℕ → Proc)
schedule i t =
    let p = t i in
    if not (is_runnable p.state) then none else some (update t i (record p { state = running }))

-- `yield()` up to the switch
pub yield : (cur : ℕ) → (ℕ → Proc) → ℕ → Proc
yield cur t = let proc = t cur in update t cur (record proc { state = runnable })

-- `p->chan = 0` when sleep goes on
pub wake_up : (cur : ℕ) → (ℕ → Proc) → ℕ → Proc
wake_up cur t = let proc = t cur in update t cur (record proc { chan = null })

-- `kill(pid)`
pub kill : (ℕ → Proc) → (pid : ℕ) → (ℕ → Proc) × ℤ
kill t pid = elim (find_slot num_procs 0 (λ p. p.pid == pid) t) [
  | none ↦ (t, negsuc 0)
  | some i ↦
      let p = t i in
      let state : ProcState = if is_sleeping p.state then runnable else p.state in
      (update t i (record p { killed = true; state = state }), pos 0)
]
