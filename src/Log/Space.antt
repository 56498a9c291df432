-- ===== src/Log/Space.antt =====
-- The log never overflows: begin_op reserves space over any interleaving, also with a commit.
use pa.Common.{
  ℕ, ◌+◌, ◌-◌, ◌*◌, ◌≤◌, ◌<◌, ◌≡◌, refl, ap, ◌∙◌, ◌⊎◌, ◌≢◌, inl, inr, Bool, Bool-cases, sym, List,
  [], ◌∷◌, ◌++◌, arith, ◌==◌, if◌then◌else◌, true, false, length, length-append, none, some,
}
use pa.Log.{
  Log, log_size, max_op_blocks, begin_op, end_op_locked, end_commit, end_op, log_write, commit,
}
use pa.Log.Blocks.{Store}
use pa.Log.Entries.{Distinct, log_write-state, log_write_lem}

-- The operations between begin_op and end_op, and how many blocks each has passed to log_write. Then the
-- processes inside end_op that have set `do_commit`: `to_commit` of them before or in commit,
-- `to_clear` of them behind it, before they clear `committing`.
pub record Sys : Type 0 where
  pub log : Log
  pub used : List ℕ
  pub to_commit : ℕ
  pub to_clear : ℕ

-- What the operations may still write.
pub budget : List ℕ → ℕ
budget [] = 0
budget (u ∷ us) = (max_op_blocks - u) + budget us

-- Any operation may begin, if it need not sleep; write a block, if it has written fewer than ten; and
-- end. The last one then commits without the lock, and clears `committing` after that. Whatever else
-- the locks let in may come between.
pub data Step (s : Sys) : Sys → Type 0 where
  begin_step :
      {l : Log} → begin_op s.log ≡ some l → Step s (record s { log = l; used = 0 ∷ s.used })
  write_step :
      {l : Log} (xs : List ℕ) (u : ℕ) (ys : List ℕ) (b : ℕ)
      → s.used ≡ xs ++ u ∷ ys
      → u < max_op_blocks
      → log_write s.log b ≡ some l
      → Step s (record s { log = l; used = xs ++ (u + 1) ∷ ys })
  end_step :
      {l : Log} {do_commit : Bool} (xs : List ℕ) (u : ℕ) (ys : List ℕ)
      → s.used ≡ xs ++ u ∷ ys
      → end_op_locked s.log ≡ some (l, do_commit)
      → Step s (record s {
        log = l;
        used = xs ++ ys;
        to_commit = if do_commit then s.to_commit + 1 else s.to_commit;
      })
  commit_step :
      (k : ℕ) (st : Store)
      → s.to_commit ≡ k + 1
      → Step s (record s { log = (commit s.log st).0; to_commit = k; to_clear = s.to_clear + 1 })
  clear_step :
      (k : ℕ) → s.to_clear ≡ k + 1 → Step s (record s { log = end_commit s.log; to_clear = k })

pub data Reach (s : Sys) : Sys → Type 0 where
  here : Reach s s
  later : {t u : Sys} → Reach s t → Step t u → Reach s u

-- Nobody commits, or one process does and no operation runs.
abbrev pub Exclusive : Sys → Type 0
Exclusive s =
    ((s.log.committing ≡ false) × (s.to_commit + s.to_clear ≡ 0))
    ⊎ ((s.log.committing ≡ true) × (s.to_commit + s.to_clear ≡ 1) × (s.used ≡ []))

pub record Inv (s : Sys) : Type 0 where
  pub exclusive : Exclusive s
  pub counted : s.log.outstanding ≡ length s.used
  pub reserved : s.log.n + budget s.used ≤ log_size
  pub distinct : Distinct s.log.block s.log.n
  pub sized : log_size < s.log.size

budget-append : (xs ys : List ℕ) → budget (xs ++ ys) ≡ budget xs + budget ys
unfolding budget
budget-append [] ys = omega arith
budget-append (x ∷ xs) ys = omega (arith, budget-append xs ys)

budget-le : (us : List ℕ) → budget us ≤ length us * max_op_blocks
unfolding budget
budget-le [] = omega arith
budget-le (u ∷ us) = omega (arith, budget-le us)

length-split : (xs : List ℕ) (u : ℕ) (ys : List ℕ) → 0 < length (xs ++ u ∷ ys)
length-split xs u ys = omega (arith, length-append xs (u ∷ ys))

empty-length : (us : List ℕ) → length us ≡ 0 → us ≡ []
empty-length [] h = refl
empty-length (u ∷ us) h = absurd (omega arith)

-- While an operation runs, nobody commits.
running-lem :
    (s : Sys) (xs : List ℕ) (u : ℕ) (ys : List ℕ)
    → s.used ≡ xs ++ u ∷ ys
    → Exclusive s
    → (s.log.committing ≡ false) × (s.to_commit + s.to_clear ≡ 0)
running-lem s xs u ys split (inl e) = e
running-lem s xs u ys split (inr (on, one, nobody)) =
    absurd (omega (arith, length-split xs u ys, ap length (sym split ∙ nobody)))

commit-log :
    (l : Log) (st : Store)
    → let l' = (commit l st).0 in
      (l'.n ≡ 0)
      × (l'.outstanding ≡ l.outstanding)
      × (l'.size ≡ l.size)
      × (l'.block ≡ l.block)
      × (l'.committing ≡ l.committing)
unfolding commit
commit-log l st = ground arith

-- What a begin_op that does not sleep leaves.
begin_op-log :
    (l l' : Log)
    → begin_op l ≡ some l'
    → (l.committing ≡ false)
      × (l' ≡ record l { outstanding = l.outstanding + 1 })
      × (l.n + (l.outstanding + 1) * max_op_blocks ≤ log_size)
unfolding begin_op
begin_op-log l l' e = ground arith

begin-Inv :
    (s : Sys) (l : Log)
    → begin_op s.log ≡ some l
    → Inv s
    → Inv (record s { log = l; used = 0 ∷ s.used })
unfolding budget
begin-Inv s l e v =
    let (off, state, room) = begin_op-log s.log l e in
    rw state (record {
      exclusive = elim v.exclusive [ inl none_commits ↦ inl none_commits | inr on ↦ absurd (cc) ];
      counted = ground (arith, v.counted);
      reserved = omega (arith, budget-le s.used, v.counted, room);
      distinct = v.distinct;
      sized = v.sized;
    })

write-Inv :
    (s : Sys) (l : Log) (xs : List ℕ) (u : ℕ) (ys : List ℕ) (b : ℕ)
    → s.used ≡ xs ++ u ∷ ys
    → u < max_op_blocks
    → log_write s.log b ≡ some l
    → Inv s
    → Inv (record s { log = l; used = xs ++ (u + 1) ∷ ys })
unfolding budget
write-Inv s l xs u ys b split room e v =
    let (state, few, inside) = log_write-state s.log l b e in
    let (all, distinct, grown) = log_write_lem s.log l b e v.distinct in
    let before = ap budget split ∙ budget-append xs (u ∷ ys) in
    let size = ap length split ∙ length-append xs (u ∷ ys) in
    let (off, nobody) = running-lem s xs u ys split v.exclusive in
    record {
      exclusive = inl (ap (λ x. x.committing) state ∙ off, nobody);
      counted = ground (arith, length-append xs ((u + 1) ∷ ys));
      reserved = omega (arith, budget-append xs ((u + 1) ∷ ys), v.reserved);
      distinct = distinct;
      sized = ground arith;
    }

-- What the first part of an `end_op` that does not panic leaves of the log.
end_op_locked-log :
    (l l' : Log) (do_commit : Bool)
    → end_op_locked l ≡ some (l', do_commit)
    → (l' ≡ record l { outstanding = l.outstanding - 1; committing = do_commit })
      × (do_commit ≡ (l.outstanding == 1))
unfolding end_op_locked
end_op_locked-log l l' do_commit e = ground arith

end-Inv :
    (s : Sys) (l : Log) (do_commit : Bool) (xs : List ℕ) (u : ℕ) (ys : List ℕ)
    → s.used ≡ xs ++ u ∷ ys
    → end_op_locked s.log ≡ some (l, do_commit)
    → Inv s
    → Inv (record s {
      log = l;
      used = xs ++ ys;
      to_commit = if do_commit then s.to_commit + 1 else s.to_commit;
    })
unfolding budget
end-Inv s l do_commit xs u ys split e v =
    let before = ap budget split ∙ budget-append xs (u ∷ ys) in
    let size = ap length split ∙ length-append xs (u ∷ ys) in
    let after = budget-append xs ys in
    let size_after = length-append xs ys in
    let (state, last) = end_op_locked-log s.log l do_commit e in
    let (off, nobody) = running-lem s xs u ys split v.exclusive in
    rw state (record {
      exclusive = elim (Bool-cases do_commit) [
        | inl commits ↦
            rw commits
              (inr (refl, omega arith, empty-length (xs ++ ys) (ground (arith, v.counted))))
        | inr more ↦ rw more (inl (refl, nobody))
      ];
      counted = omega (arith, v.counted);
      reserved = omega (arith, v.reserved);
      distinct = v.distinct;
      sized = v.sized;
    })

commit-Inv :
    (s : Sys) (k : ℕ) (st : Store)
    → s.to_commit ≡ k + 1
    → Inv s
    → Inv (record s { log = (commit s.log st).0; to_commit = k; to_clear = s.to_clear + 1 })
commit-Inv s k st some_commits v =
    let (clear, same, size, block, flag) = commit-log s.log st in
    record {
      exclusive = elim v.exclusive [
        | inl (off, nobody) ↦ absurd (omega arith)
        | inr (on, one, idle) ↦ inr (flag ∙ on, omega arith, idle)
      ];
      counted = same ∙ v.counted;
      reserved = omega (arith, v.reserved);
      distinct = λ i j lt bound. absurd (omega arith);
      sized = omega (arith, v.sized);
    }

clear-Inv :
    (s : Sys) (k : ℕ)
    → s.to_clear ≡ k + 1
    → Inv s
    → Inv (record s { log = end_commit s.log; to_clear = k })
unfolding end_commit
clear-Inv s k some_clears v = record {
  exclusive = elim v.exclusive [
    | inl (off, nobody) ↦ absurd (omega arith)
    | inr (on, one, idle) ↦ inl (refl, omega arith)
  ];
  counted = v.counted;
  reserved = v.reserved;
  distinct = v.distinct;
  sized = v.sized;
}

Step-Inv : {s t : Sys} → Step s t → Inv s → Inv t
Step-Inv {s} (begin_step {l} e) v = begin-Inv s l e v
Step-Inv {s} (write_step {l} xs u ys b split room e) v = write-Inv s l xs u ys b split room e v
Step-Inv {s} (end_step {l} {do_commit} xs u ys split e) v = end-Inv s l do_commit xs u ys split e v
Step-Inv {s} (commit_step k st h) v = commit-Inv s k st h v
Step-Inv {s} (clear_step k h) v = clear-Inv s k h v

Reach-Inv : {s t : Sys} → Inv s → Reach s t → Inv t
Reach-Inv v here = v
Reach-Inv v (later r st) = Step-Inv st (Reach-Inv v r)

-- Outside a commit the panic of end_op is not reached.
end_op-some : (l : Log) (st : Store) → l.committing ≡ false → end_op l st ≢ none
unfolding end_op end_op_locked
end_op-some l st off = ground arith

-- the log after `initlog`, with no operation running
pub record IsIdle (s : Sys) : Type 0 where
  pub idle : s.log.committing ≡ false
  pub outside : s.log.outstanding ≡ 0
  pub nobody : s.used ≡ []
  pub no_commit : s.to_commit + s.to_clear ≡ 0
  pub clear : s.log.n ≡ 0
  pub sized : log_size < s.log.size

start-Inv : {s : Sys} → IsIdle s → Inv s
unfolding budget
start-Inv {s} e = record {
  exclusive = inl (e.idle, e.no_commit);
  counted = rw (e.nobody, e.outside);
  reserved = rw (e.nobody, e.clear) (omega arith);
  distinct = λ i j lt bound. absurd (omega (arith, e.clear));
  sized = e.sized;
}

-- From an idle log with at least 30 blocks for data, in any interleaving of begin_op, log_write and the
-- parts of end_op, which commits without the lock: the log holds at most 30 blocks, all different.
-- Either one process commits, and no operation is between begin_op and end_op; or nobody commits, and
-- end_op does not panic.
pub log_bounded :
    {s t : Sys}
    → IsIdle s
    → Reach s t
    → (t.log.n ≤ log_size)
      × Distinct t.log.block t.log.n
      × (((t.to_commit + t.to_clear ≡ 1) × (t.used ≡ []))
          ⊎ ((t.to_commit + t.to_clear ≡ 0) × ((st : Store) → end_op t.log st ≢ none)))
log_bounded {t} start r =
    let v = Reach-Inv (start-Inv start) r in
    (
      omega (arith, v.reserved),
      v.distinct,
      elim v.exclusive [
        | inl (off, nobody) ↦ inr (nobody, λ st. end_op-some t.log st off)
        | inr (on, one, idle) ↦ inl (one, idle)
      ],
    )
