-- ===== src/Proc/Moves.antt =====
-- The operations on the kernel's state keep the table valid.
use pa.Common.{
  ℕ, ◌≡◌, refl, sym, ap, subst, ◌∙◌, inl, inr, true, Option, none, some, ◌==◌, if◌then◌else◌,
  update, arith, Bool-cases, Option-cases,
}
use pa.Proc.{
  num_procs, sleeping, runnable, running, Chan, null, other, Proc, is_sleeping, is_runnable,
  wakeup1, schedule, yield, sleep, wake_up, kill, find_slot,
}
use pa.Proc.Valid.{
  Valid, Mild, Mild-Valid, Mild-update, wakeup1-Mild, is_runnable_lem, is_sleeping_lem,
}

abbrev value_or : (ℕ → Proc) → Option (ℕ → Proc) → ℕ → Proc
value_or d none = d
value_or d (some a) = a

some_value : (d : ℕ → Proc) {a b : ℕ → Proc} → some a ≡ some b → a ≡ b
some_value d h = ap (value_or d) h

run-Mild : (p : Proc) → is_runnable p.state ≡ true → Mild p (record p { state = running })
run-Mild p h = record {
  same_pid = refl;
  same_parent = refl;
  same_unused = rw (is_runnable_lem p.state h) refl;
  same_zombie = rw (is_runnable_lem p.state h) refl;
  no_wait = λ i w. ground arith;
}

module _ (init nextpid : ℕ) (t : ℕ → Proc) where
  pub update-Valid :
      (i : ℕ) (q : Proc) → Mild (t i) q → Valid init nextpid t → Valid init nextpid (update t i q)
  update-Valid i q mild v = Mild-Valid init nextpid t (update t i q) (Mild-update t i q mild) v

  pub schedule-Valid :
      (i : ℕ) (t' : ℕ → Proc)
      → schedule i t ≡ some t'
      → Valid init nextpid t
      → Valid init nextpid t'
  unfolding schedule
  schedule-Valid i t' h v = elim (Bool-cases (is_runnable (t i).state)) [
    | inr stop ↦ absurd (ground (arith, h, stop))
    | inl go ↦
        let q : Proc = record (t i) { state = running } in
        let ran : schedule i t ≡ some (update t i q) = rw (schedule, go) refl in
        subst (Valid init nextpid) (some_value t (sym ran ∙ h))
          (update-Valid i q (run-Mild (t i) go) v)
  ]

  pub yield-Valid :
      (cur : ℕ) → (t cur).state ≡ running → Valid init nextpid t → Valid init nextpid (yield cur t)
  unfolding yield
  yield-Valid cur h v =
      update-Valid cur (record (t cur) { state = runnable })
        (record {
          same_pid = refl;
          same_parent = refl;
          same_unused = rw h refl;
          same_zombie = rw h refl;
          no_wait = λ i w. ground arith;
        })
        v

  pub sleep-Valid :
      (cur a : ℕ)
      → (t cur).state ≡ running
      → Valid init nextpid t
      → Valid init nextpid (sleep cur (other a) t)
  unfolding sleep
  sleep-Valid cur a h v =
      update-Valid cur (record (t cur) { chan = other a; state = sleeping })
        (record {
          same_pid = refl;
          same_parent = refl;
          same_unused = rw h refl;
          same_zombie = rw h refl;
          no_wait = λ i w. ground arith;
        })
        v

  pub wake_up-Valid : (cur : ℕ) → Valid init nextpid t → Valid init nextpid (wake_up cur t)
  unfolding wake_up
  wake_up-Valid cur v =
      update-Valid cur (record (t cur) { chan = null })
        (record {
          same_pid = refl;
          same_parent = refl;
          same_unused = refl;
          same_zombie = refl;
          no_wait = λ i w. ground arith;
        })
        v

  pub wakeup1-Valid : (chan : Chan) → Valid init nextpid t → Valid init nextpid (wakeup1 chan t)
  wakeup1-Valid chan v = Mild-Valid init nextpid t (wakeup1 chan t) (wakeup1-Mild chan t) v

  killed-Mild :
      (p : Proc)
      → Mild p
          (record p { killed = true; state = if is_sleeping p.state then runnable else p.state })
  killed-Mild p = elim (Bool-cases (is_sleeping p.state)) [
    | inl asleep ↦ rw asleep (record {
      same_pid = refl;
      same_parent = refl;
      same_unused = rw (is_sleeping_lem p.state asleep) refl;
      same_zombie = rw (is_sleeping_lem p.state asleep) refl;
      no_wait = λ i w. ground arith;
    })
    | inr up ↦ rw up (record {
      same_pid = refl;
      same_parent = refl;
      same_unused = refl;
      same_zombie = refl;
      no_wait = λ i w. w;
    })
  ]

  pub kill-Valid : (pid : ℕ) → Valid init nextpid t → Valid init nextpid (kill t pid).0
  unfolding kill
  kill-Valid pid v = elim (Option-cases (find_slot num_procs 0 (λ p. p.pid == pid) t)) [
    | inl out ↦ rw (kill, out) v
    | inr (i, e) ↦
        rw (kill, e)
          (update-Valid i
            (record (t i) {
              killed = true;
              state = if is_sleeping (t i).state then runnable else (t i).state;
            })
            (killed-Mild (t i)) v)
  ]
