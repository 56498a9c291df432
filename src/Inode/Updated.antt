-- ===== src/Inode/Updated.antt =====
-- What changes and what stays when the content or the block map of a file changes.
use pa.Common.{
  ℕ, zero, suc, ◌+◌, ◌*◌, ◌<◌, ◌≡◌, ◌≢◌, refl, ap, ◌∙◌, true, false, ◌==◌, if◌then◌else◌, ==_iff,
  Bool-cases, inl, inr, arith, sym,
}
use pa.Fs.{block_size, max_file, Inode, Fs}
use pa.Fs.Blocks.{used}
use pa.Inode.Map.{content, IsFile, Outside, block_of}

-- the number of free blocks below `n`
abbrev pub count_free : Fs → ℕ → ℕ
count_free s zero = 0
count_free s (suc n) = (if used s n then 0 else 1) + count_free s n

-- What happens to the file when only its content and its block map change: `g` is the content
-- afterwards, and what belongs to something else is left alone.
pub record Updated (s : Fs) (ip : ℕ) (g : ℕ → ℕ) (s' : Fs) : Type 0 where
  pub file : IsFile s' ip
  pub content_lem : (k : ℕ) → k < max_file * block_size → content s' ip k ≡ g k
  pub keeps : (bn : ℕ) → bn < max_file → block_of s ip bn ≢ 0 → block_of s' ip bn ≡ block_of s ip bn
  pub outside : (x : ℕ) → Outside s ip x → Outside s' ip x × (s'.bytes x ≡ s.bytes x)
  pub inode : s'.icache ip ≡ (record (s.icache ip) { addrs = (s'.icache ip).addrs })
  pub others : (j : ℕ) → j ≢ ip → s'.icache j ≡ s.icache j
  pub rest : s' ≡ (record s { bits = s'.bits; bytes = s'.bytes; icache = s'.icache })

pub Updated-same : (s : Fs) (ip : ℕ) → IsFile s ip → Updated s ip (content s ip) s
Updated-same s ip f = record {
  file = f;
  content_lem = λ k lt. refl;
  keeps = λ bn lt q. refl;
  outside = λ x o. (o, refl);
  inode = refl;
  others = λ j ne. refl;
  rest = refl;
}

pub Updated-trans :
    {s : Fs} {ip : ℕ} {g h : ℕ → ℕ} {s1 s2 : Fs}
    → Updated s ip g s1
    → Updated s1 ip h s2
    → Updated s ip h s2
Updated-trans {s} {ip} {g} {h} {s1} {s2} u v = record {
  file = v.file;
  content_lem = v.content_lem;
  keeps = λ bn lt q. let e = u.keeps bn lt q in v.keeps bn lt (λ z. q (sym e ∙ z)) ∙ e;
  outside = λ x o. let m = u.outside x o in let n = v.outside x m.0 in (n.0, n.1 ∙ m.1);
  inode = v.inode ∙ ap (λ (i : Inode). record i { addrs = (s2.icache ip).addrs }) u.inode;
  others = λ j ne. v.others j ne ∙ u.others j ne;
  rest =
      v.rest
      ∙ ap (λ (t : Fs). record t { bits = s2.bits; bytes = s2.bytes; icache = s2.icache }) u.rest;
}

pub Updated-content :
    {s : Fs} {ip : ℕ} {g h : ℕ → ℕ} {s' : Fs}
    → ((k : ℕ) → k < max_file * block_size → g k ≡ h k)
    → Updated s ip g s'
    → Updated s ip h s'
Updated-content e u = record {
  file = u.file;
  content_lem = λ k lt. u.content_lem k lt ∙ e k lt;
  keeps = u.keeps;
  outside = u.outside;
  inode = u.inode;
  others = u.others;
  rest = u.rest;
}

pub count_free_same :
    (n : ℕ) (s s' : Fs)
    → ((j : ℕ) → j < n → used s' j ≡ used s j)
    → count_free s' n ≡ count_free s n
count_free_same zero s s' e = refl
count_free_same (suc n) s s' e =
    rw (e n (omega arith), count_free_same n s s' (λ j lt. e j (omega arith))) refl

-- One more block in use.
pub count_free_step :
    (n : ℕ) (s s' : Fs) (b : ℕ)
    → b < n
    → used s b ≡ false
    → ((j : ℕ) → used s' j ≡ (if j == b then true else used s j))
    → suc (count_free s' n) ≡ count_free s n
count_free_step zero s s' b lt u e = absurd (omega arith)
count_free_step (suc n) s s' b lt u e = elim (Bool-cases (n == b)) [
  | inl q ↦
      let here : used s' n ≡ true = e n ∙ rw q refl in
      let was : used s n ≡ false = ap (used s) ((==_iff n b).0 q) ∙ u in
      rw (here, was, count_free_same n s s' (λ j less. e j ∙ ground arith)) (omega arith)
  | inr q ↦
      let here : used s' n ≡ used s n = e n ∙ rw q refl in
      let rest = count_free_step n s s' b (ground arith) u e in rw here (omega (arith, rest))
]

pub count_free_none : (n : ℕ) (s : Fs) → ((j : ℕ) → j < n → used s j ≡ true) → count_free s n ≡ 0
count_free_none zero s f = refl
count_free_none (suc n) s f =
    rw (f n (omega arith), count_free_none n s (λ j lt. f j (omega arith))) refl
