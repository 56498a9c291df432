-- ===== src/Syscall/Counts.antt =====
-- The counters of system calls.
use pa.Common.{
  ℕ, zero, suc, ◌+◌, ◌-◌, ◌*◌, ◌%◌, ◌^◌, ◌≤◌, ◌<◌, ◌≡◌, ◌≢◌, refl, sym, ap, ◌∙◌, ◌⊎◌, inl, inr,
  Bool, true, false, ◌&&◌, ◌||◌, some, ltb, leb, ◌==◌, if◌then◌else◌, arith, eq_self, Bool-cases,
  Option-cases, pos, negsuc, List, [], ◌∷◌, ℕ_discrete, dec_lt,
}
use pa.Syscall.{
  User, read_word, write_word, to_int, argint, argptr, num_counts, count_at, clear_counts,
  updatecount, copy_counts, getcount, syscall,
}
use pa.Syscall.Args.{argptr-some}
use pa.Syscall.Words.{read_word-write_word, read_word-write_ne}

-- The counters end below the top of the address space.
abbrev pub Placed : ℕ → Type 0
Placed base = base + 4 * num_counts ≤ 2 ^ 32

-- the count that the array holds for call `i`
abbrev pub count_of : (base : ℕ) → (ℕ → ℕ) → (i : ℕ) → ℕ
count_of base mem i = read_word mem (count_at base i)

apart :
    (i j base : ℕ)
    → Placed base
    → i < num_counts
    → j < num_counts
    → i ≢ j
    → (count_at base i + 4 ≤ count_at base j) ⊎ (count_at base j + 4 ≤ count_at base i)
apart i j base h hi hj differ = elim (dec_lt i j) [
  | yes less ↦ inl (omega arith)
  | no more ↦ let after : j < i = ground arith in inr (omega arith)
]

count_of-write :
    (base : ℕ) (mem : ℕ → ℕ) (i j w : ℕ)
    → Placed base
    → i < num_counts
    → j < num_counts
    → w < 2 ^ 32
    → count_of base (write_word mem (count_at base j) w) i
      ≡ (if i == j then w else count_of base mem i)
count_of-write base mem i j w h hi hj hw = elim (ℕ_discrete i j) [
  | yes same ↦ rw (same, eq_self j) (read_word-write_word mem (count_at base j) w hw)
  | no differ ↦
      let ne : (i == j) ≡ false = ground arith in
      rw ne (
        read_word-write_ne mem (count_at base j) w (count_at base i)
          (apart i j base h hi hj differ))
]

clear_counts_lem :
    (n i base : ℕ) (mem : ℕ → ℕ) (j : ℕ)
    → Placed base
    → i + n ≤ num_counts
    → j < num_counts
    → count_of base (clear_counts n i base mem) j
      ≡ (if leb i j && ltb j (i + n) then 0 else count_of base mem j)
unfolding clear_counts
clear_counts_lem zero i base mem j h hi hj = ground arith
clear_counts_lem (suc n) i base mem j h hi hj =
    let mem' : ℕ → ℕ = write_word mem (count_at base i) 0 in
    ground (
      arith,
      clear_counts_lem n (i + 1) base mem' j h (omega arith) hj,
      count_of-write base mem j i 0 h hj (omega arith) (omega arith),
    )

added :
    (base : ℕ) (mem : ℕ → ℕ) (j syscall : ℕ)
    → Placed base
    → syscall < num_counts
    → j < num_counts
    → count_of base
        (write_word mem (count_at base syscall) ((count_of base mem syscall + 1) % 2 ^ 32))
        j
      ≡ (if j == syscall then (count_of base mem j + 1) % 2 ^ 32 else count_of base mem j)
added base mem j syscall h hs hj =
    let w = (count_of base mem syscall + 1) % 2 ^ 32 in
    let e = count_of-write base mem j syscall w h hj hs (omega arith) in
    elim (ℕ_discrete j syscall) [
      | yes same ↦ ground (arith, e, ap (count_of base mem) same)
      | no differ ↦ ground (arith, e)
    ]

-- A counted call whose number has an entry adds one to that entry and leaves the others; the first
-- one clears the array before.
pub updatecount_lem :
    (base : ℕ) (mem : ℕ → ℕ) (inits : Bool) (syscall j : ℕ)
    → Placed base
    → syscall < num_counts
    → j < num_counts
    → let old = if inits then count_of base mem j else 0 in
      count_of base (updatecount base mem inits syscall).0 j
      ≡ (if j == syscall then (old + 1) % 2 ^ 32 else old)
unfolding updatecount
updatecount_lem base mem true syscall j h hs hj = added base mem j syscall h hs hj
updatecount_lem base mem false syscall j h hs hj =
    let mem' : ℕ → ℕ = clear_counts num_counts 0 base mem in
    let cleared : count_of base mem' j ≡ 0 =
      ground (arith, clear_counts_lem num_counts 0 base mem j h (omega arith) hj) in
    ground (arith, added base mem' j syscall h hs hj, cleared)

-- how often call `j` stands in a run
abbrev pub occurrences : ℕ → List ℕ → ℕ
occurrences j [] = 0
occurrences j (s ∷ rest) = (if j == s then 1 else 0) + occurrences j rest

pub updatecount-inits :
    (base : ℕ) (mem : ℕ → ℕ) (inits : Bool) (s : ℕ) → (updatecount base mem inits s).1 ≡ true
unfolding updatecount
updatecount-inits base mem inits s = refl

-- A call number from 23 on, whose word, 4 * number bytes behind the start of the array, still ends within
-- the 2 ^ 32 bytes of the address space, writes behind the array: no counter changes once they are
-- set up, and that word grows by one, modulo 2 ^ 32.
pub updatecount-beyond :
    (base : ℕ) (mem : ℕ → ℕ) (syscall j : ℕ)
    → num_counts ≤ syscall
    → base + 4 * syscall + 4 ≤ 2 ^ 32
    → j < num_counts
    → (count_of base (updatecount base mem true syscall).0 j ≡ count_of base mem j)
      × (read_word (updatecount base mem true syscall).0 (base + 4 * syscall)
          ≡ (read_word mem (base + 4 * syscall) + 1) % 2 ^ 32)
unfolding updatecount
updatecount-beyond base mem syscall j high fits hj =
    let here : count_at base syscall ≡ base + 4 * syscall = omega arith in
    rw here (
      read_word-write_ne mem (base + 4 * syscall)
          ((read_word mem (base + 4 * syscall) + 1) % 2 ^ 32) (count_at base j) (inl (omega arith)),
      read_word-write_word mem (base + 4 * syscall)
          ((read_word mem (base + 4 * syscall) + 1) % 2 ^ 32) (omega arith),
    )

other_word :
    (mem : ℕ → ℕ) (counts i j v : ℕ)
    → j ≢ i
    → read_word (write_word mem (counts + 4 * i) v) (counts + 4 * j)
      ≡ read_word mem (counts + 4 * j)
other_word mem counts i j v differ = elim (dec_lt j i) [
  | yes less ↦ read_word-write_ne mem (counts + 4 * i) v (counts + 4 * j) (inl (omega arith))
  | no more ↦
      let after : i < j = ground arith in
      read_word-write_ne mem (counts + 4 * i) v (counts + 4 * j) (inr (omega arith))
]

copy_counts_lem :
    (n i base counts : ℕ) (mem : ℕ → ℕ) (j : ℕ)
    → Placed base
    → i + n ≤ num_counts
    → counts + 4 * num_counts ≤ base
    → j < num_counts
    → ((x : ℕ) → x < num_counts → count_of base mem x < 2 ^ 32)
    → read_word (copy_counts n i base counts mem) (counts + 4 * j)
      ≡ (if leb i j && ltb j (i + n) then count_of base mem j else read_word mem (counts + 4 * j))
unfolding copy_counts
copy_counts_lem zero i base counts mem j h hi hc hj small = ground arith
copy_counts_lem (suc n) i base counts mem j h hi hc hj small =
    let v = count_of base mem i in
    let mem' : ℕ → ℕ = write_word mem (counts + 4 * i) v in
    let kept : (x : ℕ) → x < num_counts → count_of base mem' x ≡ count_of base mem x =
      λ x hx. read_word-write_ne mem (counts + 4 * i) v (count_at base x) (inr (omega arith)) in
    let rest =
      copy_counts_lem n (i + 1) base counts mem' j h (omega arith) hc hj
        (λ x hx. omega (arith, kept x hx, small x hx)) in
    elim (ℕ_discrete j i) [
      | yes same ↦
          let first = read_word-write_word mem (counts + 4 * i) v (small i (omega arith)) in
          ground (
            arith,
            rest,
            first,
            ap (λ x. read_word mem' (counts + 4 * x)) same,
            ap (count_of base mem) same,
          )
      | no differ ↦ ground (arith, rest, kept j hj, other_word mem counts i j v differ)
    ]

not-failed : negsuc 0 ≡ pos 0 → ⊥
not-failed h = cc

below-base :
    (u : User) (base size counts k : ℕ)
    → to_int size ≡ pos k
    → num_counts ≤ size
    → counts < u.sz
    → (counts + k) % 2 ^ 32 ≤ u.sz
    → u.sz ≤ 2 ^ 31
    → u.sz + 69 ≤ base
    → counts + 4 * num_counts ≤ base
unfolding to_int
below-base u base size counts k int many low high limit room =
    elim (Bool-cases (ltb size (2 ^ 31))) [
      | inl small ↦
          let e : pos size ≡ pos k = rw small at int in
          let same : size ≡ k = ground (arith, e) in ground arith
      | inr big ↦
          let e : negsuc (2 ^ 32 - size - 1) ≡ pos k = rw big at int in absurd (ground (arith, e))
    ]

-- A getcount that returns 0 has stored the 23 counters, in order, at the pointer that was its first
-- argument, when user memory and the 69 bytes behind it end below the array.
pub getcount_lem :
    (u : User) (base : ℕ) (mem : ℕ → ℕ) (mem' : ℕ → ℕ)
    → Placed base
    → u.sz + 69 ≤ base
    → u.sz ≤ 2 ^ 31
    → ((x : ℕ) → x < num_counts → count_of base mem x < 2 ^ 32)
    → getcount u base mem ≡ (mem', pos 0)
    → (counts : ℕ) × (argint u mem 0 ≡ some counts)
      × ((j : ℕ) → j < num_counts → read_word mem' (counts + 4 * j) ≡ count_of base mem j)
unfolding getcount
getcount_lem u base mem mem' h room limit small ok = elim (Option-cases (argint u mem 1)) [
  | inl out ↦
      let e : (mem, negsuc 0) ≡ (mem', pos 0) = rw (getcount, out) at ok in
      absurd (not-failed (ap (λ r. r.1) e))
  | inr (size, got) ↦ elim (Option-cases (argptr u mem 0 (to_int size))) [
    | inl out ↦
        let e : (mem, negsuc 0) ≡ (mem', pos 0) = rw (getcount, got, out) at ok in
        absurd (not-failed (ap (λ r. r.1) e))
    | inr (counts, ptr) ↦ elim (Bool-cases (ltb size num_counts || counts == 0)) [
      | inl bad ↦
          let e : (mem, negsuc 0) ≡ (mem', pos 0) = rw (getcount, got, ptr, bad) at ok in
          absurd (not-failed (ap (λ r. r.1) e))
      | inr good ↦
          let e : (copy_counts num_counts 0 base counts mem, pos 0) ≡ (mem', pos 0) =
            rw (getcount, got, ptr, good) at ok in
          let many : num_counts ≤ size = ground (arith, good) in
          let (k, int, arg, low, high) = argptr-some u mem 0 (to_int size) counts ptr in
          let fits : counts + 4 * num_counts ≤ base =
            below-base u base size counts k int many low high limit room in
          (
            counts,
            arg,
            λ j hj.
                ap (λ r. read_word (r.0) (counts + 4 * j)) (sym e)
                ∙ ground (
                  arith,
                  copy_counts_lem num_counts 0 base counts mem j h (omega arith) fits hj small,
                ),
          )
    ]
  ]
]
