-- ===== src/Proc/Valid.antt =====
-- The invariant of the process table.
use pa.Common.{
  ◌^◌, ℕ, ◌≤◌, ◌<◌, ◌≡◌, ◌≢◌, refl, sym, ◌∙◌, inl, inr, Bool, true, false, not, ◌&&◌, ◌||◌, none,
  some, ltb, ◌==◌, update, arith, eq_self, Bool-cases, ℕ_discrete,
}
use pa.Proc.{
  num_procs, ProcState, unused, embryo, sleeping, runnable, running, zombie, Chan, slot, Proc,
  is_unused, is_sleeping, is_runnable, is_zombie, same_chan, wake_slot, wakeup1,
}
use pa.Proc.Loops.{wakeup1_lem}

-- in use, and not yet exited
abbrev pub is_alive : ProcState → Bool
is_alive s = not (is_unused s || is_zombie s)

abbrev pub is_waiting : Proc → ℕ → Bool
is_waiting p i = is_sleeping p.state && same_chan p.chan (slot i)

-- Process numbers are given once.
pub record Numbers (nextpid : ℕ) (t : ℕ → Proc) : Type 0 where
  pub pid_below : (j : ℕ) → (t j).pid < nextpid
  pub pid_used : (j : ℕ) → is_unused (t j).state ≡ false → 0 < (t j).pid
  pub pid_distinct : (i j : ℕ) → (t i).pid ≡ (t j).pid → 0 < (t i).pid → i ≡ j

-- `init` is the slot of the first process, `nextpid` one more than the count of the numbers given.
pub record Valid (init nextpid : ℕ) (t : ℕ → Proc) : Type 0 where
  pub init_alive : is_alive (t init).state ≡ true
  pub init_inside : init < num_procs
  -- Nothing stands outside the table.
  pub outside : (j : ℕ) → num_procs ≤ j → is_unused (t j).state ≡ true
  pub outside_parent : (j : ℕ) → num_procs ≤ j → (t j).parent ≡ none
  -- The first process has no parent, and none is its own.
  pub init_root : (t init).parent ≡ none
  pub no_loop : (j : ℕ) → (t j).parent ≢ some j
  -- Every parent is alive, so a zombie can be found by a wait.
  pub parent_alive : (i j : ℕ) → (t j).parent ≡ some i → is_alive (t i).state ≡ true
  -- No process sleeps in wait while a child of its is a zombie.
  pub woken :
      (i j : ℕ) → (t j).parent ≡ some i → is_waiting (t i) i ≡ true → is_zombie (t j).state ≡ false
  -- before the numbers leave the positive values of an int
  pub numbers : nextpid ≤ 2 ^ 31 → Numbers nextpid t

-- A change of one slot that keeps its number, its parent, and whether it is unused, and that
-- makes no zombie and does not fall asleep in wait.
pub record Mild (p q : Proc) : Type 0 where
  pub same_pid : q.pid ≡ p.pid
  pub same_parent : q.parent ≡ p.parent
  pub same_unused : is_unused q.state ≡ is_unused p.state
  pub same_zombie : is_zombie q.state ≡ is_zombie p.state
  pub no_wait : (i : ℕ) → is_waiting q i ≡ true → is_waiting p i ≡ true

-- A table stays valid when numbers, parents and the unused and zombie slots stay and the wake-up
-- property is proved of the new table.
pub same-Valid :
    (init nextpid : ℕ) (t t' : ℕ → Proc)
    → ((j : ℕ) → (t' j).pid ≡ (t j).pid)
    → ((j : ℕ) → (t' j).parent ≡ (t j).parent)
    → ((j : ℕ) → is_unused (t' j).state ≡ is_unused (t j).state)
    → ((j : ℕ) → is_zombie (t' j).state ≡ is_zombie (t j).state)
    → ((i j : ℕ)
        → (t j).parent ≡ some i
        → is_waiting (t' i) i ≡ true
        → is_zombie (t j).state ≡ false)
    → Valid init nextpid t
    → Valid init nextpid t'
same-Valid init nextpid t t' pid parent unu zom woken v = record {
  init_alive = rw (unu init, zom init) v.init_alive;
  init_inside = v.init_inside;
  outside = λ j h. unu j ∙ v.outside j h;
  outside_parent = λ j h. parent j ∙ v.outside_parent j h;
  init_root = parent init ∙ v.init_root;
  no_loop = λ j h. v.no_loop j (sym (parent j) ∙ h);
  parent_alive = λ i j h. rw (unu i, zom i) (v.parent_alive i j (sym (parent j) ∙ h));
  woken = λ i j h w. zom j ∙ woken i j (sym (parent j) ∙ h) w;
  numbers = λ few. record {
    pid_below = λ j. rw (pid j) ((v.numbers few).pid_below j);
    pid_used = λ j h. rw (pid j) ((v.numbers few).pid_used j (sym (unu j) ∙ h));
    pid_distinct = λ i j e pos.
        (v.numbers few).pid_distinct i j (sym (pid i) ∙ e ∙ pid j) (ground (arith, pid i));
  };
}

-- A table that changes mildly in every slot stays valid.
pub Mild-Valid :
    (init nextpid : ℕ) (t t' : ℕ → Proc)
    → ((j : ℕ) → Mild (t j) (t' j))
    → Valid init nextpid t
    → Valid init nextpid t'
Mild-Valid init nextpid t t' mild v =
    same-Valid init nextpid t t' (λ j. (mild j).same_pid) (λ j. (mild j).same_parent)
      (λ j. (mild j).same_unused) (λ j. (mild j).same_zombie)
      (λ i j h w. v.woken i j h ((mild i).no_wait i w)) v

pub Mild-refl : (p : Proc) → Mild p p
Mild-refl p = record {
  same_pid = refl;
  same_parent = refl;
  same_unused = refl;
  same_zombie = refl;
  no_wait = λ i h. h;
}

pub Mild-update :
    (t : ℕ → Proc) (i : ℕ) (q : Proc) → Mild (t i) q → (j : ℕ) → Mild (t j) (update t i q j)
Mild-update t i q mild j = elim (ℕ_discrete j i) [
  | yes same ↦ rw (same, eq_self i) mild
  | no differ ↦ let ne : (j == i) ≡ false = ground arith in rw ne (Mild-refl (t j))
]

pub is_sleeping_lem : (s : ProcState) → is_sleeping s ≡ true → s ≡ sleeping
is_sleeping_lem unused h = ground arith
is_sleeping_lem embryo h = ground arith
is_sleeping_lem sleeping h = refl
is_sleeping_lem runnable h = ground arith
is_sleeping_lem running h = ground arith
is_sleeping_lem zombie h = ground arith

pub is_runnable_lem : (s : ProcState) → is_runnable s ≡ true → s ≡ runnable
is_runnable_lem unused h = ground arith
is_runnable_lem embryo h = ground arith
is_runnable_lem sleeping h = ground arith
is_runnable_lem runnable h = refl
is_runnable_lem running h = ground arith
is_runnable_lem zombie h = ground arith

pub is_unused_lem : (s : ProcState) → is_unused s ≡ true → s ≡ unused
is_unused_lem unused h = refl
is_unused_lem embryo h = ground arith
is_unused_lem sleeping h = ground arith
is_unused_lem runnable h = ground arith
is_unused_lem running h = ground arith
is_unused_lem zombie h = ground arith

pub is_zombie_lem : (s : ProcState) → is_zombie s ≡ true → s ≡ zombie
is_zombie_lem unused h = ground arith
is_zombie_lem embryo h = ground arith
is_zombie_lem sleeping h = ground arith
is_zombie_lem runnable h = ground arith
is_zombie_lem running h = ground arith
is_zombie_lem zombie h = refl

wake-Mild : (p : Proc) → p.state ≡ sleeping → Mild p (record p { state = runnable })
wake-Mild p h = record {
  same_pid = refl;
  same_parent = refl;
  same_unused = rw h refl;
  same_zombie = rw h refl;
  no_wait = λ i w. ground arith;
}

wake_slot-Mild : (chan : Chan) (p : Proc) → Mild p (wake_slot chan p)
wake_slot-Mild chan p = elim (Bool-cases (is_sleeping p.state && same_chan p.chan chan)) [
  | inl wakes ↦ rw wakes (wake-Mild p (is_sleeping_lem p.state (ground arith)))
  | inr stays ↦ rw stays (Mild-refl p)
]

pub wakeup1-Mild : (chan : Chan) (t : ℕ → Proc) (j : ℕ) → Mild (t j) (wakeup1 chan t j)
wakeup1-Mild chan t j = elim (Bool-cases (ltb j num_procs)) [
  | inl inside ↦ rw (wakeup1_lem chan t j, inside) (wake_slot-Mild chan (t j))
  | inr beyond ↦ rw (wakeup1_lem chan t j, beyond) (Mild-refl (t j))
]
