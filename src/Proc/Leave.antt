-- ===== src/Proc/Leave.antt =====
-- The whole of exit's work on the table: all children handed over, the parent woken, the process
-- a zombie.
use pa.Common.{
  ℕ, zero, suc, ◌+◌, ◌≤◌, ◌<◌, ◌≡◌, ◌≢◌, refl, sym, ap, ◌∙◌, ◌⊎◌, inl, inr, true, false, some, ◌==◌,
  update, arith, Bool-cases, dec_lt, ℕ_discrete,
}
use pa.Proc.{
  num_procs, zombie, Chan, Proc, is_unused, is_zombie, is_parent, parent_chan, wakeup1, adopt_slot,
  adopt_from, exit_table,
}
use pa.Proc.Valid.{Valid, Mild, Mild-Valid, wakeup1-Mild, is_alive, is_waiting}
use pa.Proc.Family.{update-cases, update_ne}
use pa.Proc.Exit.{
  adopt_slot-cases, Adopted-Valid, Near, Adopted-Near, hand_over-parent, is_parent-some,
  some-is_parent, some-ne-none, wakeup1-awake,
}

-- What the rounds of the loop leave of a table.
record Later (cur init : ℕ) (t r : ℕ → Proc) : Type 0 where
  quiet : (x : ℕ) → is_waiting (t x) x ≡ false → is_waiting (r x) x ≡ false
  alive : (j : ℕ) → is_alive (r j).state ≡ is_alive (t j).state
  kept :
      (j : ℕ)
      → ((r j).parent ≡ (t j).parent) ⊎ (((t j).parent ≡ some cur) × ((r j).parent ≡ some init))

not-waiting :
    (p q : Proc) (x : ℕ)
    → (is_waiting q x ≡ true → is_waiting p x ≡ true)
    → is_waiting p x ≡ false
    → is_waiting q x ≡ false
not-waiting p q x back h = elim (Bool-cases (is_waiting q x)) [
  | inl w ↦ absurd (ground (arith, back w, h))
  | inr w ↦ w
]

adopt_slot-Later :
    (p cur init nextpid : ℕ) (t : ℕ → Proc)
    → Valid init nextpid t
    → init ≢ cur
    → Valid init nextpid (adopt_slot p cur init t)
      × Later cur init t (adopt_slot p cur init t)
      × (is_parent (adopt_slot p cur init t p).parent cur ≡ false)
adopt_slot-Later p cur init nextpid t v differ =
    elim (adopt_slot-cases p cur init t v.init_inside) [
      | inl (out, same) ↦
          rw same (v, record { quiet = λ x h. h; alive = λ j. refl; kept = λ j. inl refl }, out)
      | inr (kid, a) ↦
          let r : ℕ → Proc = adopt_slot p cur init t in
          let near : (j : ℕ) → Near (t j) (r j) = Adopted-Near init t p r a in
          (
            Adopted-Valid init nextpid t p r v a,
            record {
              quiet = λ x h. not-waiting (t x) (r x) x ((near x).near_wait x) h;
              alive = λ j. rw ((near j).near_unused, (near j).near_zombie) refl;
              kept = λ j. elim (hand_over-parent init t p r a j) [
                | inl (here, e) ↦
                    inr (ap (λ y. (t y).parent) here ∙ is_parent-some (t p).parent cur kid, e)
                | inr (there, e) ↦ inl e
              ];
            },
            elim (hand_over-parent init t p r a p) [
              | inl (here, e) ↦
                  let ne : (init == cur) ≡ false = ground arith in ap (λ o. is_parent o cur) e ∙ ne
              | inr (there, e) ↦ absurd (there refl)
            ],
          )
    ]

some-inj : (x y : ℕ) → some x ≡ some y → x ≡ y
some-inj x y h = ground (arith, h)

Later-trans :
    (cur init : ℕ) (t r s : ℕ → Proc)
    → init ≢ cur
    → Later cur init t r
    → Later cur init r s
    → Later cur init t s
Later-trans cur init t r s differ a b = record {
  quiet = λ x h. b.quiet x (a.quiet x h);
  alive = λ j. b.alive j ∙ a.alive j;
  kept = λ j. elim (a.kept j) [
    | inl same ↦ elim (b.kept j) [
      | inl same' ↦ inl (same' ∙ same)
      | inr (was, now) ↦ inr (sym same ∙ was, now)
    ]
    | inr (was, now) ↦ elim (b.kept j) [
      | inl same' ↦ inr (was, same' ∙ now)
      | inr (was', now') ↦ absurd (differ (some-inj init cur (sym now ∙ was')))
    ]
  ];
}

-- A slot that is no child of the exiting process does not become one.
Later-no_child :
    (cur init : ℕ) (t r : ℕ → Proc) (j : ℕ)
    → init ≢ cur
    → Later cur init t r
    → is_parent (t j).parent cur ≡ false
    → is_parent (r j).parent cur ≡ false
Later-no_child cur init t r j differ l h = elim (l.kept j) [
  | inl same ↦ ap (λ o. is_parent o cur) same ∙ h
  | inr (was, now) ↦
      let ne : (init == cur) ≡ false = ground arith in ap (λ o. is_parent o cur) now ∙ ne
]

adopt_from-Later :
    (n p cur init nextpid : ℕ) (t : ℕ → Proc)
    → Valid init nextpid t
    → init ≢ cur
    → Valid init nextpid (adopt_from n p cur init t)
      × Later cur init t (adopt_from n p cur init t)
      × ((j : ℕ) → p ≤ j → j < p + n → is_parent (adopt_from n p cur init t j).parent cur ≡ false)
unfolding adopt_from
adopt_from-Later zero p cur init nextpid t v differ = (
  v,
  record { quiet = λ x h. h; alive = λ j. refl; kept = λ j. inl refl },
  λ j low high. absurd (omega arith),
)
adopt_from-Later (suc n) p cur init nextpid t v differ =
    let r : ℕ → Proc = adopt_slot p cur init t in
    let (v1, l1, here) = adopt_slot-Later p cur init nextpid t v differ in
    let (v2, l2, rest) = adopt_from-Later n (p + 1) cur init nextpid r v1 differ in
    (
      v2,
      Later-trans cur init t r (adopt_from n (p + 1) cur init r) differ l1 l2,
      λ j low high. elim (ℕ_discrete j p) [
        | yes same ↦
            rw same (Later-no_child cur init r (adopt_from n (p + 1) cur init r) p differ l2 here)
        | no more ↦ rest j (omega arith) (omega arith)
      ],
    )

-- A process without children, whose parent does not sleep in wait, may become a zombie.
zombie-Valid :
    (cur init nextpid : ℕ) (t : ℕ → Proc)
    → Valid init nextpid t
    → init ≢ cur
    → is_alive (t cur).state ≡ true
    → ((j : ℕ) → (t j).parent ≢ some cur)
    → ((x : ℕ) → (t cur).parent ≡ some x → is_waiting (t x) x ≡ false)
    → Valid init nextpid (update t cur (record (t cur) { state = zombie }))
zombie-Valid cur init nextpid t v differ alive childless quiet =
    let q : Proc = record (t cur) { state = zombie } in
    let parents : (j : ℕ) → (update t cur q j).parent ≡ (t j).parent = λ j.
      elim (update-cases t cur q j) [
        | inl (same, e) ↦ ap (λ p. p.parent) e ∙ ap (λ y. (t y).parent) (sym same)
        | inr (differs, e) ↦ ap (λ p. p.parent) e
      ] in
    let pids : (j : ℕ) → (update t cur q j).pid ≡ (t j).pid = λ j. elim (update-cases t cur q j) [
      | inl (same, e) ↦ ap (λ p. p.pid) e ∙ ap (λ y. (t y).pid) (sym same)
      | inr (differs, e) ↦ ap (λ p. p.pid) e
    ] in
    let keep : (x j : ℕ) → (t j).parent ≡ some x → update t cur q x ≡ t x =
      λ x j h. update_ne t cur q x (λ e. childless j (h ∙ ap some e)) in
    record {
      init_alive = ap (λ p. is_alive p.state) (update_ne t cur q init differ) ∙ v.init_alive;
      init_inside = v.init_inside;
      outside = λ j h. elim (update-cases t cur q j) [
        | inl (same, e) ↦
            absurd (ground (arith, v.outside j h, alive, ap (λ y. is_unused (t y).state) same))
        | inr (differs, e) ↦ ap (λ p. is_unused p.state) e ∙ v.outside j h
      ];
      outside_parent = λ j h. parents j ∙ v.outside_parent j h;
      init_root = parents init ∙ v.init_root;
      no_loop = λ j h. v.no_loop j (sym (parents j) ∙ h);
      parent_alive = λ x j h.
          let h' = sym (parents j) ∙ h in
          ap (λ p. is_alive p.state) (keep x j h') ∙ v.parent_alive x j h';
      woken = λ x j h w.
          let h' = sym (parents j) ∙ h in
          let w' = ap (λ p. is_waiting p x) (sym (keep x j h')) ∙ w in
          elim (update-cases t cur q j) [
            | inl (same, e) ↦
                absurd (ground (arith, quiet x (ap (λ y. (t y).parent) (sym same) ∙ h'), w'))
            | inr (differs, e) ↦ ap (λ p. is_zombie p.state) e ∙ v.woken x j h' w'
          ];
      numbers = λ few. record {
        pid_below = λ j. omega (arith, pids j, (v.numbers few).pid_below j);
        pid_used = λ j h. elim (update-cases t cur q j) [
          | inl (same, e) ↦
              let used : is_unused (t j).state ≡ false =
                ap (λ y. is_unused (t y).state) same ∙ ground (arith, alive) in
              omega (arith, pids j, (v.numbers few).pid_used j used)
          | inr (differs, e) ↦
              omega (
                arith,
                pids j,
                (v.numbers few).pid_used j (ap (λ p. is_unused p.state) (sym e) ∙ h),
              )
        ];
        pid_distinct = λ i j e pos.
            (v.numbers few).pid_distinct i j (sym (pids i) ∙ e ∙ pids j)
              (omega (arith, pids i, pos));
      };
    }

parent-quiet :
    (cur init nextpid x : ℕ) (t : ℕ → Proc)
    → Valid init nextpid t
    → (t cur).parent ≡ some x
    → is_waiting (wakeup1 (parent_chan (t cur).parent) t x) x ≡ false
parent-quiet cur init nextpid x t v h = elim (dec_lt x num_procs) [
  | yes inside ↦ rw h (wakeup1-awake t x inside)
  | no beyond ↦ absurd (ground (arith, v.outside x (omega arith), v.parent_alive x cur h))
]

-- exit's work on the table keeps it valid, for any process but the first that is alive.
pub exit_table-Valid :
    (cur init nextpid : ℕ) (t : ℕ → Proc)
    → Valid init nextpid t
    → init ≢ cur
    → is_alive (t cur).state ≡ true
    → Valid init nextpid (exit_table cur init t)
unfolding exit_table
exit_table-Valid cur init nextpid t v differ alive =
    let chan : Chan = parent_chan (t cur).parent in
    let t1 : ℕ → Proc = wakeup1 chan t in
    let r : ℕ → Proc = adopt_from num_procs 0 cur init t1 in
    let mild : (j : ℕ) → Mild (t j) (t1 j) = wakeup1-Mild chan t in
    let v1 = Mild-Valid init nextpid t t1 mild v in
    let (v2, l, none_left) = adopt_from-Later num_procs 0 cur init nextpid t1 v1 differ in
    let alive1 : is_alive (t1 cur).state ≡ true =
      rw ((mild cur).same_unused, (mild cur).same_zombie) alive in
    let childless : (j : ℕ) → (r j).parent ≢ some cur = λ j h. elim (dec_lt j num_procs) [
      | yes inside ↦ absurd (
          ground
            (arith, none_left j (omega arith) (omega arith), some-is_parent (r j).parent cur h))
      | no beyond ↦ some-ne-none (r j).parent cur h (v2.outside_parent j (omega arith))
    ] in
    let quiet : (x : ℕ) → (r cur).parent ≡ some x → is_waiting (r x) x ≡ false = λ x h.
      elim (l.kept cur) [
        | inl same ↦
            let from : (t cur).parent ≡ some x = sym (mild cur).same_parent ∙ sym same ∙ h in
            l.quiet x (parent-quiet cur init nextpid x t v from)
        | inr (was, now) ↦ absurd (v1.no_loop cur was)
      ] in
    zombie-Valid cur init nextpid r v2 differ (l.alive cur ∙ alive1) childless quiet
