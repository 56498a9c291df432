-- ===== src/Proc/Exit.antt =====
-- exit keeps the table valid.
use pa.Common.{
  ℕ, ◌<◌, ◌≡◌, ◌≢◌, refl, sym, ap, ◌∙◌, ◌⊎◌, inl, inr, true, false, ◌&&◌, Option, none, some, ltb,
  ◌==◌, update, arith, eq_self, Bool-cases, ℕ_discrete,
}
use pa.Proc.{
  num_procs, slot, Proc, is_unused, is_sleeping, is_zombie, same_chan, is_parent, wake_slot,
  wakeup1, adopt_slot,
}
use pa.Proc.Valid.{Valid, Mild, Mild-refl, wakeup1-Mild, is_alive, is_waiting}
use pa.Proc.Loops.{wakeup1_lem}
use pa.Proc.Family.{update-cases}

pub is_parent-some : (o : Option ℕ) (x : ℕ) → is_parent o x ≡ true → o ≡ some x
is_parent-some none x h = ground arith
is_parent-some (some y) x h = ap some (ground arith)

pub some-is_parent : (o : Option ℕ) (x : ℕ) → o ≡ some x → is_parent o x ≡ true
some-is_parent o x h = rw h (eq_self x)

awake : (p : Proc) (x : ℕ) → is_waiting (wake_slot (slot x) p) x ≡ false
awake p x = elim (Bool-cases (is_sleeping p.state && same_chan p.chan (slot x))) [
  | inl wakes ↦ rw wakes refl
  | inr stays ↦ rw stays stays
]

-- Nobody who is in the table still sleeps on a channel that was woken.
pub wakeup1-awake :
    (t : ℕ → Proc) (x : ℕ) → x < num_procs → is_waiting (wakeup1 (slot x) t x) x ≡ false
wakeup1-awake t x h =
    let inside : ltb x num_procs ≡ true = ground arith in
    rw (wakeup1_lem (slot x) t x, inside) (awake (t x) x)

-- A change that hands the child in slot `p` to the first process and wakes that if the child
-- is a zombie.
pub record Adopted (init : ℕ) (t : ℕ → Proc) (p : ℕ) (r : ℕ → Proc) : Type 0 where
  pub mild : (j : ℕ) → Mild (update t p (record (t p) { parent = some init }) j) (r j)
  pub called : is_zombie (t p).state ≡ true → is_waiting (r init) init ≡ false
  pub child : (x : ℕ) × ((t p).parent ≡ some x)

pub adopt_slot-cases :
    (p cur init : ℕ) (t : ℕ → Proc)
    → init < num_procs
    → ((is_parent (t p).parent cur ≡ false) × (adopt_slot p cur init t ≡ t))
      ⊎ ((is_parent (t p).parent cur ≡ true) × Adopted init t p (adopt_slot p cur init t))
unfolding adopt_slot
adopt_slot-cases p cur init t h = elim (Bool-cases (is_parent (t p).parent cur)) [
  | inr out ↦ rw out (inl (refl, refl))
  | inl kid ↦ elim (Bool-cases (is_zombie (t p).state)) [
    | inl z ↦
        rw (kid, z)
          (inr (
            refl,
            record {
              mild = wakeup1-Mild (slot init) (update t p (record (t p) { parent = some init }));
              called =
                  λ z'. wakeup1-awake (update t p (record (t p) { parent = some init })) init h;
              child = (cur, is_parent-some (t p).parent cur kid);
            },
          ))
    | inr z ↦
        rw (kid, z)
          (inr (
            refl,
            record {
              mild = λ j. Mild-refl (update t p (record (t p) { parent = some init }) j);
              called = λ z'. absurd (ground arith);
              child = (cur, is_parent-some (t p).parent cur kid);
            },
          ))
  ]
]

-- A slot after a round: its number and its place among unused and zombies, as before.
pub record Near (p q : Proc) : Type 0 where
  pub near_pid : q.pid ≡ p.pid
  pub near_unused : is_unused q.state ≡ is_unused p.state
  pub near_zombie : is_zombie q.state ≡ is_zombie p.state
  pub near_wait : (i : ℕ) → is_waiting q i ≡ true → is_waiting p i ≡ true

hand_over-Near :
    (init : ℕ) (t : ℕ → Proc) (p j : ℕ)
    → Near (t j) (update t p (record (t p) { parent = some init }) j)
hand_over-Near init t p j = elim (ℕ_discrete j p) [
  | yes same ↦
      rw (same, eq_self p)
        (record { near_pid = refl; near_unused = refl; near_zombie = refl; near_wait = λ i h. h })
  | no differ ↦
      let ne : (j == p) ≡ false = ground arith in
      rw ne
        (record { near_pid = refl; near_unused = refl; near_zombie = refl; near_wait = λ i h. h })
]

Near-Mild : (p q r : Proc) → Near p q → Mild q r → Near p r
Near-Mild p q r n m = record {
  near_pid = m.same_pid ∙ n.near_pid;
  near_unused = m.same_unused ∙ n.near_unused;
  near_zombie = m.same_zombie ∙ n.near_zombie;
  near_wait = λ i h. n.near_wait i (m.no_wait i h);
}

pub Adopted-Near :
    (init : ℕ) (t : ℕ → Proc) (p : ℕ) (r : ℕ → Proc)
    → Adopted init t p r
    → (j : ℕ) → Near (t j) (r j)
Adopted-Near init t p r a j =
    Near-Mild (t j) (update t p (record (t p) { parent = some init }) j) (r j)
      (hand_over-Near init t p j) (a.mild j)

-- Whose child a slot is after a round.
pub hand_over-parent :
    (init : ℕ) (t : ℕ → Proc) (p : ℕ) (r : ℕ → Proc)
    → Adopted init t p r
    → (j : ℕ) → ((j ≡ p) × ((r j).parent ≡ some init)) ⊎ ((j ≢ p) × ((r j).parent ≡ (t j).parent))
hand_over-parent init t p r a j = elim (update-cases t p (record (t p) { parent = some init }) j) [
  | inl (same, e) ↦ inl (same, (a.mild j).same_parent ∙ ap (λ q. q.parent) e)
  | inr (differ, e) ↦ inr (differ, (a.mild j).same_parent ∙ ap (λ q. q.parent) e)
]

pub some-ne-none : (o : Option ℕ) (x : ℕ) → o ≡ some x → o ≡ none → ⊥
some-ne-none o x a b = cc

pub Adopted-Valid :
    (init nextpid : ℕ) (t : ℕ → Proc) (p : ℕ) (r : ℕ → Proc)
    → Valid init nextpid t
    → Adopted init t p r
    → Valid init nextpid r
Adopted-Valid init nextpid t p r v a =
    let near = Adopted-Near init t p r a in
    let no_root : init ≢ p = λ e.
      some-ne-none (t p).parent a.child.0 a.child.1
        (ap (λ j. (t j).parent) (sym e) ∙ v.init_root) in
    let alive : (j : ℕ) → is_alive (t j).state ≡ true → is_alive (r j).state ≡ true =
      λ j h. rw ((near j).near_unused, (near j).near_zombie) h in
    record {
      init_alive = alive init v.init_alive;
      init_inside = v.init_inside;
      outside = λ j h. (near j).near_unused ∙ v.outside j h;
      outside_parent = λ j h. elim (hand_over-parent init t p r a j) [
        | inl (same, e) ↦ absurd (
            some-ne-none (t p).parent a.child.0 a.child.1
              (ap (λ x. (t x).parent) (sym same) ∙ v.outside_parent j h))
        | inr (differ, e) ↦ e ∙ v.outside_parent j h
      ];
      init_root = elim (hand_over-parent init t p r a init) [
        | inl (same, e) ↦ absurd (no_root same)
        | inr (differ, e) ↦ e ∙ v.init_root
      ];
      no_loop = λ j h. elim (hand_over-parent init t p r a j) [
        | inl (same, e) ↦ no_root (ground (arith, e, h, same))
        | inr (differ, e) ↦ v.no_loop j (sym e ∙ h)
      ];
      parent_alive = λ x j h. elim (hand_over-parent init t p r a j) [
        | inl (same, e) ↦
            let root : x ≡ init = ground (arith, e, h) in
            ap (λ y. is_alive (r y).state) root ∙ alive init v.init_alive
        | inr (differ, e) ↦ alive x (v.parent_alive x j (sym e ∙ h))
      ];
      woken = λ x j h w. elim (hand_over-parent init t p r a j) [
        | inl (same, e) ↦
            let root : x ≡ init = ground (arith, e, h) in
            elim (Bool-cases (is_zombie (t p).state)) [
              | inl z ↦
                  let asleep : is_waiting (r init) init ≡ true =
                    ap (λ y. is_waiting (r y) y) (sym root) ∙ w in
                  absurd (ground (arith, a.called z, asleep))
              | inr z ↦ (near j).near_zombie ∙ ap (λ y. is_zombie (t y).state) same ∙ z
            ]
        | inr (differ, e) ↦ (near j).near_zombie ∙ v.woken x j (sym e ∙ h) ((near x).near_wait x w)
      ];
      numbers = λ few. record {
        pid_below = λ j. omega (arith, (near j).near_pid, (v.numbers few).pid_below j);
        pid_used = λ j h.
            omega
              (arith, (near j).near_pid, (v.numbers few).pid_used j (sym (near j).near_unused ∙ h));
        pid_distinct = λ i j e pos.
            (v.numbers few).pid_distinct i j (sym (near i).near_pid ∙ e ∙ (near j).near_pid)
              (omega (arith, (near i).near_pid, pos));
      };
    }
