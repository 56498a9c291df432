-- ===== src/Proc/Family.antt =====
-- The moves that change who is in the table: a slot is claimed, freed, or becomes a zombie.
use pa.Common.{
  ◌≤◌, ◌^◌, ℕ, ◌+◌, ◌<◌, ◌≡◌, ◌≢◌, refl, sym, ap, ◌∙◌, ◌⊎◌, inl, inr, true, false, Option, none,
  some, ◌==◌, update, arith, ℕ_discrete,
}
use pa.Proc.{num_procs, Proc, is_unused, is_sleeping, is_zombie}
use pa.Proc.Valid.{Valid, is_alive, is_waiting, is_zombie_lem}

-- The value at a slot after an update, in both cases.
pub update-cases :
    (t : ℕ → Proc) (i : ℕ) (q : Proc) (j : ℕ)
    → ((j ≡ i) × (update t i q j ≡ q)) ⊎ ((j ≢ i) × (update t i q j ≡ t j))
update-cases t i q j = elim (ℕ_discrete j i) [
  | yes same ↦ inl (same, let eq : (j == i) ≡ true = ground arith in rw eq refl)
  | no differ ↦ inr (differ, let ne : (j == i) ≡ false = ground arith in rw ne refl)
]

pub update_ne : (t : ℕ → Proc) (i : ℕ) (q : Proc) (j : ℕ) → j ≢ i → update t i q j ≡ t j
update_ne t i q j h = let ne : (j == i) ≡ false = ground arith in rw ne refl

alive-ne :
    (t : ℕ → Proc) (i j : ℕ) → is_alive (t i).state ≡ false → is_alive (t j).state ≡ true → j ≢ i
alive-ne t i j dead alive same = ground (arith, ap (λ x. is_alive (t x).state) same)

-- Numbers stay distinct when the new one at slot `i` is 0 or no other slot's.
distinct-update :
    (t : ℕ → Proc) (i : ℕ) (q : Proc)
    → ((a b : ℕ) → (t a).pid ≡ (t b).pid → 0 < (t a).pid → a ≡ b)
    → ((b : ℕ) → (t b).pid ≡ q.pid → 0 < q.pid → ⊥)
    → (a b : ℕ) → (update t i q a).pid ≡ (update t i q b).pid
    → 0 < (update t i q a).pid
    → a ≡ b
distinct-update t i q old new a b e pos = elim (update-cases t i q a) [
  | inl (ai, ea) ↦ elim (update-cases t i q b) [
    | inl (bi, eb) ↦ ai ∙ sym bi
    | inr (bi, eb) ↦ absurd (
        new b (sym (ap (λ p. p.pid) eb) ∙ sym e ∙ ap (λ p. p.pid) ea)
          (omega (arith, ap (λ p. p.pid) ea, pos)))
  ]
  | inr (ai, ea) ↦ elim (update-cases t i q b) [
    | inl (bi, eb) ↦ absurd (
        new a (sym (ap (λ p. p.pid) ea) ∙ e ∙ ap (λ p. p.pid) eb)
          (omega (arith, ap (λ p. p.pid) eb, pos, e)))
    | inr (bi, eb) ↦
        old a b (sym (ap (λ p. p.pid) ea) ∙ e ∙ ap (λ p. p.pid) eb)
          (omega (arith, ap (λ p. p.pid) ea, pos))
  ]
]

-- What may be put in the unused slot `i` under the next process number.
pub record Claim (nextpid : ℕ) (t : ℕ → Proc) (i : ℕ) (q : Proc) : Type 0 where
  pub inside : i < num_procs
  pub free : is_unused (t i).state ≡ true
  pub fresh : nextpid ≤ 2 ^ 31 → q.pid ≡ nextpid
  pub no_zombie : is_zombie q.state ≡ false
  pub no_sleep : is_sleeping q.state ≡ false
  pub family : (x : ℕ) → q.parent ≡ some x → is_alive (t x).state ≡ true

pub Claim-Valid :
    (init nextpid : ℕ) (t : ℕ → Proc) (i : ℕ) (q : Proc)
    → Valid init nextpid t
    → Claim nextpid t i q
    → Valid init (nextpid + 1) (update t i q)
Claim-Valid init nextpid t i q v c =
    let dead : is_alive (t i).state ≡ false = ground (arith, c.free) in
    let keep : (x : ℕ) → is_alive (t x).state ≡ true → update t i q x ≡ t x =
      λ x alive. update_ne t i q x (alive-ne t i x dead alive) in
    let was : (x j : ℕ) → (update t i q j).parent ≡ some x → is_alive (t x).state ≡ true = λ x j h.
      elim (update-cases t i q j) [
        | inl (same, e) ↦ c.family x (ap (λ p. p.parent) (sym e) ∙ h)
        | inr (differ, e) ↦ v.parent_alive x j (ap (λ p. p.parent) (sym e) ∙ h)
      ] in
    record {
      init_alive = ap (λ p. is_alive p.state) (keep init v.init_alive) ∙ v.init_alive;
      init_inside = v.init_inside;
      outside = λ j h. elim (update-cases t i q j) [
        | inl (same, e) ↦ absurd (omega (arith, c.inside))
        | inr (differ, e) ↦ rw e (v.outside j h)
      ];
      outside_parent = λ j h. elim (update-cases t i q j) [
        | inl (same, e) ↦ absurd (omega (arith, c.inside))
        | inr (differ, e) ↦ rw e (v.outside_parent j h)
      ];
      init_root = ap (λ p. p.parent) (keep init v.init_alive) ∙ v.init_root;
      no_loop = λ j h. elim (update-cases t i q j) [
        | inl (same, e) ↦ alive-ne t i j dead (c.family j (ap (λ p. p.parent) (sym e) ∙ h)) same
        | inr (differ, e) ↦ v.no_loop j (ap (λ p. p.parent) (sym e) ∙ h)
      ];
      parent_alive = λ x j h. ap (λ p. is_alive p.state) (keep x (was x j h)) ∙ was x j h;
      woken = λ x j h w. elim (update-cases t i q j) [
        | inl (same, e) ↦ ap (λ p. is_zombie p.state) e ∙ c.no_zombie
        | inr (differ, e) ↦
            ap (λ p. is_zombie p.state) e
            ∙ v.woken x j (ap (λ p. p.parent) (sym e) ∙ h)
                (ap (λ p. is_waiting p x) (sym (keep x (was x j h))) ∙ w)
      ];
      numbers = λ few. record {
        pid_below = λ j. elim (update-cases t i q j) [
          | inl (same, e) ↦ omega (arith, ap (λ p. p.pid) e, c.fresh (omega arith))
          | inr (differ, e) ↦
              omega (arith, ap (λ p. p.pid) e, (v.numbers (omega arith)).pid_below j)
        ];
        pid_used = λ j h. elim (update-cases t i q j) [
          | inl (same, e) ↦ omega (
            arith,
            ap (λ p. p.pid) e,
            c.fresh (omega arith),
            (v.numbers (omega arith)).pid_below j,
          )
          | inr (differ, e) ↦ omega (
            arith,
            ap (λ p. p.pid) e,
            (v.numbers (omega arith)).pid_used j (ap (λ p. is_unused p.state) (sym e) ∙ h),
          )
        ];
        pid_distinct = distinct-update t i q (v.numbers (omega arith)).pid_distinct (λ b e pos.
            omega (arith, c.fresh (omega arith), (v.numbers (omega arith)).pid_below b));
      };
    }

-- What may stand in the slot of a zombie afterwards.
pub record Freed (t : ℕ → Proc) (i : ℕ) (q : Proc) : Type 0 where
  pub exited : is_zombie (t i).state ≡ true
  pub empty : is_unused q.state ≡ true
  pub numberless : q.pid ≡ 0
  pub orphaned : q.parent ≡ none

none-ne-some : (o : Option ℕ) (x : ℕ) → o ≡ none → o ≡ some x → ⊥
none-ne-some o x a b = cc

pub Freed-Valid :
    (init nextpid : ℕ) (t : ℕ → Proc) (i : ℕ) (q : Proc)
    → Valid init nextpid t
    → Freed t i q
    → Valid init nextpid (update t i q)
Freed-Valid init nextpid t i q v f =
    let dead : is_alive (t i).state ≡ false = ap is_alive (is_zombie_lem (t i).state f.exited) in
    let keep : (x : ℕ) → is_alive (t x).state ≡ true → update t i q x ≡ t x =
      λ x alive. update_ne t i q x (alive-ne t i x dead alive) in
    let old : (x j : ℕ) → (update t i q j).parent ≡ some x → (j ≢ i) × ((t j).parent ≡ some x) =
      λ x j h. elim (update-cases t i q j) [
        | inl (same, e) ↦
            absurd (none-ne-some q.parent x f.orphaned (ap (λ p. p.parent) (sym e) ∙ h))
        | inr (differ, e) ↦ (differ, ap (λ p. p.parent) (sym e) ∙ h)
      ] in
    record {
      init_alive = ap (λ p. is_alive p.state) (keep init v.init_alive) ∙ v.init_alive;
      init_inside = v.init_inside;
      outside = λ j h. elim (update-cases t i q j) [
        | inl (same, e) ↦ rw e f.empty
        | inr (differ, e) ↦ rw e (v.outside j h)
      ];
      outside_parent = λ j h. elim (update-cases t i q j) [
        | inl (same, e) ↦ rw e f.orphaned
        | inr (differ, e) ↦ rw e (v.outside_parent j h)
      ];
      init_root = ap (λ p. p.parent) (keep init v.init_alive) ∙ v.init_root;
      no_loop = λ j h. v.no_loop j (old j j h).1;
      parent_alive = λ x j h.
          let alive = v.parent_alive x j (old x j h).1 in
          ap (λ p. is_alive p.state) (keep x alive) ∙ alive;
      woken = λ x j h w.
          let (differ, h') = old x j h in
          ap (λ p. is_zombie p.state) (update_ne t i q j differ)
          ∙ v.woken x j h' (ap (λ p. is_waiting p x) (sym (keep x (v.parent_alive x j h'))) ∙ w);
      numbers = λ few. record {
        pid_below = λ j. elim (update-cases t i q j) [
          | inl (same, e) ↦
              omega (arith, ap (λ p. p.pid) e, f.numberless, (v.numbers few).pid_below j)
          | inr (differ, e) ↦ omega (arith, ap (λ p. p.pid) e, (v.numbers few).pid_below j)
        ];
        pid_used = λ j h. elim (update-cases t i q j) [
          | inl (same, e) ↦ absurd (ground (arith, ap (λ p. is_unused p.state) e, f.empty))
          | inr (differ, e) ↦ omega (
            arith,
            ap (λ p. p.pid) e,
            (v.numbers few).pid_used j (ap (λ p. is_unused p.state) (sym e) ∙ h),
          )
        ];
        pid_distinct =
            distinct-update t i q (v.numbers few).pid_distinct
              (λ b e pos. omega (arith, f.numberless));
      };
    }
