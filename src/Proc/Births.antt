-- ===== src/Proc/Births.antt =====
-- fork, exit and wait keep the table valid.
use pa.Common.{
  ◌%◌, ◌^◌, ℕ, ◌+◌, ◌≤◌, ◌<◌, ◌≡◌, ◌≢◌, refl, sym, ap, subst, ◌∙◌, ◌⊎◌, inl, inr, true, false, not,
  ◌||◌, Option, none, some, ◌==◌, update, arith, eq_self, Bool-cases, Option-cases, dec_lt, fun_ext,
}
use pa.Proc.{
  num_procs, num_ofiles, unused, embryo, sleeping, running, slot, Proc, is_unused, is_sleeping,
  is_zombie, is_parent, exit_table, Machine, Kernel, allocproc, fork, exit, wait, wait_scan, sleep,
  find_slot, child, freed, dup_files, close_files,
}
use pa.Proc.Valid.{Valid, same-Valid, is_alive, is_waiting}
use pa.Proc.Loops.{find_slot-some}
use pa.Proc.Family.{update-cases, Claim, Claim-Valid, Freed-Valid}
use pa.Proc.Exit.{some-is_parent, some-ne-none}
use pa.Proc.Waits.{some-inj, Scan-cases, wait_scan-found, wait_scan-finished}
use pa.Proc.Leave.{exit_table-Valid}

abbrev pub KernelValid : {W : Type 0} → ℕ → Kernel W → Type 0
KernelValid init k = Valid init k.nextpid k.procs

-- `n` is one more than the count of the numbers given; `nextpid` agrees with it until it leaves the
-- positive values of an int.
abbrev pub Counted : {W : Type 0} → (init n : ℕ) → Kernel W → Type 0
Counted init n k = Valid init n k.procs × (n ≤ 2 ^ 31 → k.nextpid ≡ n)

update-twice : (t : ℕ → Proc) (i : ℕ) (p q : Proc) → update (update t i p) i q ≡ update t i q
update-twice t i p q =
    fun_ext
      (λ j. elim (Bool-cases (j == i)) [ inl same ↦ rw same refl | inr differ ↦ rw differ refl ])

update-same :
    {X : Type 0} (f : Proc → X) (t : ℕ → Proc) (i : ℕ) (q : Proc)
    → f q ≡ f (t i)
    → (j : ℕ) → f (update t i q j) ≡ f (t j)
update-same f t i q h j = elim (update-cases t i q j) [
  | inl (same, e) ↦ ap f e ∙ h ∙ ap (λ y. f (t y)) (sym same)
  | inr (differ, e) ↦ ap f e
]

pub update_self : (t : ℕ → Proc) (i : ℕ) (p : Proc) → update t i p i ≡ p
update_self t i p = rw (eq_self i) refl

-- A slot claimed and then filled in.
Claim-twice :
    (init nextpid : ℕ) (t : ℕ → Proc) (i : ℕ) (p q : Proc)
    → Valid init nextpid t
    → Claim nextpid t i q
    → Valid init (nextpid + 1) (update (update t i p) i q)
Claim-twice init nextpid t i p q v c =
    rw (update-twice t i p q) (Claim-Valid init nextpid t i q v c)

-- What allocproc can come to.
record Allocated {W : Type 0} (k : Kernel W) (k1 : Kernel W) (i : ℕ) : Type 0 where
  p : Proc
  procs_lem : k1.procs ≡ update k.procs i p
  next_lem : k1.nextpid ≡ (k.nextpid + 1) % 2 ^ 32
  inside : i < num_procs
  free : is_unused (k.procs i).state ≡ true
  pid_lem : p.pid ≡ k.nextpid
  parent_lem : p.parent ≡ (k.procs i).parent

-- The claimed slot filled in.
fill :
    {W : Type 0} (init n : ℕ) (k k1 : Kernel W) (i : ℕ) (q : Proc)
    → Counted init n k
    → Allocated k k1 i
    → q.pid ≡ (k1.procs i).pid
    → is_zombie q.state ≡ false
    → is_sleeping q.state ≡ false
    → ((x : ℕ) → q.parent ≡ some x → is_alive (k.procs x).state ≡ true)
    → Valid init (n + 1) (update k1.procs i q)
fill init n k k1 i q v a pid zom sl family =
    let number : q.pid ≡ k.nextpid =
      pid
      ∙ ap (λ t. (t i).pid) a.procs_lem
      ∙ ap (λ r. r.pid) (update_self k.procs i a.p)
      ∙ a.pid_lem in
    rw a.procs_lem (
      Claim-twice init n k.procs i a.p q v.0 (record {
        inside = a.inside;
        free = a.free;
        fresh = λ few. number ∙ v.1 few;
        no_zombie = zom;
        no_sleep = sl;
        family = family;
      }))

Allocated-parent :
    {W : Type 0} (k k1 : Kernel W) (i : ℕ)
    → Allocated k k1 i
    → (k1.procs i).parent ≡ (k.procs i).parent
Allocated-parent k k1 i a =
    ap (λ t. (t i).parent) a.procs_lem
    ∙ ap (λ r. r.parent) (update_self k.procs i a.p)
    ∙ a.parent_lem

abbrev kernel_or : {W : Type 0} → Kernel W → Option (Kernel W) → Kernel W
kernel_or d none = d
kernel_or d (some k) = k

module _ {W : Type 0} (m : Machine W) where
  allocproc-cases :
      (init n : ℕ) (k : Kernel W)
      → Counted init n k
      → (((allocproc m k).1 ≡ none) × (n' : ℕ) × (n' ≤ n + 1) × Counted init n' (allocproc m k).0)
        ⊎ ((i : ℕ) × ((allocproc m k).1 ≡ some i) × Allocated k (allocproc m k).0 i)
  unfolding allocproc
  allocproc-cases init n k v =
      elim (Option-cases (find_slot num_procs 0 (λ p. is_unused p.state) k.procs)) [
        | inl full ↦ rw (allocproc, full) (inl (refl, n, omega arith, v))
        | inr (i, e) ↦
            let (low, high, free) =
              find_slot-some num_procs 0 (λ p. is_unused p.state) k.procs i e in
            elim (Bool-cases ((m.kalloc k.world).1 == 0)) [
              | inl out ↦
                  rw (allocproc, e, out)
                    (inl (
                      refl,
                      n + 1,
                      omega arith,
                      (
                        Claim-Valid init n k.procs i
                            (record (k.procs i) { pid = k.nextpid; kstack = 0; state = unused }) v.0
                            (record {
                              inside = high;
                              free = free;
                              fresh = v.1;
                              no_zombie = refl;
                              no_sleep = refl;
                              family = λ x h. v.0.parent_alive x i h;
                            }),
                        λ few. omega (arith, v.1 (omega arith)),
                      ),
                    ))
              | inr got ↦
                  rw (allocproc, e, got)
                    (inr (
                      i,
                      refl,
                      record {
                        p = record (k.procs i) {
                          state = embryo;
                          pid = k.nextpid;
                          kstack = (m.kalloc k.world).1;
                        };
                        procs_lem = refl;
                        next_lem = refl;
                        inside = high;
                        free = free;
                        pid_lem = refl;
                        parent_lem = refl;
                      },
                    ))
            ]
      ]

  pub fork-Valid :
      (init n : ℕ) (k : Kernel W) (cur : ℕ)
      → (k.procs cur).state ≡ running
      → Counted init n k
      → (n' : ℕ) × (n' ≤ n + 1) × Counted init n' (fork m k cur).0
  unfolding fork
  fork-Valid init n k cur run v = elim (allocproc-cases init n k v) [
    | inl (out, n', few, v') ↦ rw (fork, out) (n', few, v')
    | inr (i, e, a) ↦
        let k1 : Kernel W = (allocproc m k).0 in
        let agrees : n + 1 ≤ 2 ^ 31 → k1.nextpid ≡ n + 1 =
          λ few. omega (arith, a.next_lem, v.1 (omega arith)) in
        elim (Bool-cases ((m.copyuvm k1.world (k1.procs cur).pgdir (k1.procs cur).sz).1 == 0)) [
          | inl out ↦
              rw (fork, e, out)
                (
                  n + 1,
                  omega arith,
                  (
                    fill init n k k1 i
                        (record (k1.procs i) { pgdir = 0; kstack = 0; state = unused }) v a refl
                        refl refl
                        (λ x h. v.0.parent_alive x i (sym (Allocated-parent k k1 i a) ∙ h)),
                    agrees,
                  ),
                )
          | inr got ↦
              rw (fork, e, got)
                (
                  n + 1,
                  omega arith,
                  (
                    fill init n k k1 i
                        (child (k1.procs i) (k1.procs cur) cur
                          (m.copyuvm k1.world (k1.procs cur).pgdir (k1.procs cur).sz).1
                          (dup_files m num_ofiles 0
                            (m.copyuvm k1.world (k1.procs cur).pgdir (k1.procs cur).sz).0
                            (k1.procs cur).ofile (k1.procs i).ofile).1)
                        v a refl refl refl
                        (λ x h.
                          ap (λ y. is_alive (k.procs y).state) (sym (some-inj cur x h))
                          ∙ ap is_alive run),
                    agrees,
                  ),
                )
        ]
  ]

  pub exit-Valid :
      (init n : ℕ) (k k' : Kernel W) (cur : ℕ)
      → (k.procs cur).state ≡ running
      → exit m k cur init ≡ some k'
      → Counted init n k
      → Counted init n k'
  unfolding exit
  exit-Valid init n k k' cur run h v = elim (Bool-cases (cur == init)) [
    | inl first ↦ absurd (ground (arith, h, first))
    | inr late ↦
        let proc = k.procs cur in
        let closed = close_files m num_ofiles 0 k.world proc.ofile in
        let q : Proc = record proc { ofile = closed.1; cwd = 0 } in
        let t : ℕ → Proc = update k.procs cur q in
        let v1 : Valid init n t =
          same-Valid init n k.procs t (update-same (λ p. p.pid) k.procs cur q refl)
            (update-same (λ p. p.parent) k.procs cur q refl)
            (update-same (λ p. is_unused p.state) k.procs cur q refl)
            (update-same (λ p. is_zombie p.state) k.procs cur q refl)
            (λ i j h w.
              v.0.woken i j h (sym (update-same (λ p. is_waiting p i) k.procs cur q refl i) ∙ w))
            v.0 in
        let alive : is_alive (t cur).state ≡ true =
          update-same (λ p. is_alive p.state) k.procs cur q refl cur ∙ ap is_alive run in
        let differ : init ≢ cur = ground arith in
        let k2 : Kernel W = record k {
          world = m.put_cwd closed.0 proc.cwd;
          procs = exit_table cur init t;
        } in
        let gone : exit m k cur init ≡ some k2 = rw (exit, late) refl in
        subst (λ r. Counted init n r) (ap (kernel_or k) (sym gone ∙ h))
          (exit_table-Valid cur init n t v1 differ alive, v.1)
  ]

  -- A process falls asleep in wait only when none of its children is a zombie.
  wait-sleep-Valid :
      (init nextpid cur : ℕ) (t : ℕ → Proc)
      → (t cur).state ≡ running
      → ((j : ℕ)
          → 0 ≤ j
          → j < 0 + num_procs
          → is_parent (t j).parent cur ≡ true
          → is_zombie (t j).state ≡ false)
      → Valid init nextpid t
      → Valid init nextpid (sleep cur (slot cur) t)
  unfolding sleep
  wait-sleep-Valid init nextpid cur t run none_dead v =
      let q : Proc = record (t cur) { chan = slot cur; state = sleeping } in
      same-Valid init nextpid t (update t cur q) (update-same (λ p. p.pid) t cur q refl)
        (update-same (λ p. p.parent) t cur q refl)
        (update-same (λ p. is_unused p.state) t cur q (rw run refl))
        (update-same (λ p. is_zombie p.state) t cur q (rw run refl))
        (λ i j h w. elim (update-cases t cur q i) [
          | inl (same, e) ↦ elim (dec_lt j num_procs) [
            | yes inside ↦
                none_dead j (omega arith) (omega arith)
                  (some-is_parent (t j).parent cur (h ∙ ap some same))
            | no beyond ↦ absurd (some-ne-none (t j).parent i h (v.outside_parent j (omega arith)))
          ]
          | inr (differ, e) ↦ v.woken i j h (ap (λ p. is_waiting p i) (sym e) ∙ w)
        ])
        v

  pub wait-Valid :
      (init n : ℕ) (k : Kernel W) (cur : ℕ)
      → (k.procs cur).state ≡ running
      → Counted init n k
      → Counted init n (wait m k cur).0
  unfolding wait
  wait-Valid init n k cur run v = elim (Scan-cases (wait_scan num_procs 0 cur false k.procs)) [
    | inl (i, e) ↦
        let (kid, z) = wait_scan-found num_procs 0 cur false k.procs i e in
        rw (wait, e)
          (
            Freed-Valid init n k.procs i (freed (k.procs i)) v.0
                (record { exited = z; empty = refl; numberless = refl; orphaned = refl }),
            v.1,
          )
    | inr (b, e) ↦ elim (Bool-cases (not b || (k.procs cur).killed)) [
      | inl leaves ↦ rw (wait, e, leaves) (v.0, v.1)
      | inr stays ↦
          rw (wait, e, stays)
            (
              wait-sleep-Valid init n cur k.procs run
                  (λ j low high kid.
                    (wait_scan-finished num_procs 0 cur false k.procs b e j low high kid).0)
                  v.0,
              v.1,
            )
    ]
  ]
