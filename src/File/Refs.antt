-- ===== src/File/Refs.antt =====
-- The references of open files, and what a write through a descriptor does to a small file.
use pa.Common.{
  ℕ, ◌+◌, ◌-◌, ◌%◌, ◌^◌, ◌<◌, ◌≡◌, refl, sym, ap, ◌∙◌, true, ltb, ◌==◌, eq_self, ==_iff, Bool-cases,
  inl, inr, arith, update,
}
use pa.Fs.{Fs, ok, ◌>>=◌}
use pa.Inode.{positive}
use pa.File.{filedup, fileclose}

-- the file table with another count of references
abbrev with_ref : ℕ → (ref : ℕ) → Fs → Fs
with_ref f ref s = record s { files = update s.files f (record (s.files f) { ref = ref }) }

filedup-with_ref :
    (s : Fs) (f : ℕ)
    → positive (2 ^ 31) (s.files f).ref ≡ true
    → filedup f s ≡ ok f (with_ref f (((s.files f).ref + 1) % 2 ^ 32) s)
unfolding filedup
filedup-with_ref s f counted = rw counted refl

fileclose-with_ref :
    (s : Fs) (f : ℕ)
    → 1 < (s.files f).ref
    → (s.files f).ref < 2 ^ 31
    → fileclose f s ≡ ok tt (with_ref f ((s.files f).ref - 1) s)
unfolding fileclose
fileclose-with_ref s f several few =
    let counted : positive (2 ^ 31) (s.files f).ref ≡ true = ground arith in
    let shared : ltb 1 (s.files f).ref ≡ true = ground arith in rw (counted, shared) refl

with_ref-with_ref :
    (s : Fs) (f a b : ℕ)
    → b ≡ (s.files f).ref
    → (g : ℕ) → (with_ref f b (with_ref f a s)).files g ≡ s.files g
with_ref-with_ref s f a b e g = elim (Bool-cases (g == f)) [
  | inr ne ↦ rw ne refl
  | inl same ↦
      rw (same, eq_self f)
        (ap (λ (r : ℕ). record (s.files f) { ref = r }) e ∙ ap s.files (sym ((==_iff g f).0 same)))
]

-- filedup of an open file and then fileclose of it leave everything as it was.
pub fileclose-filedup :
    (s : Fs) (f : ℕ)
    → 0 < (s.files f).ref
    → (s.files f).ref + 1 < 2 ^ 31
    → (s' : Fs) × ((filedup f >>= fileclose) s ≡ ok tt s')
      × ((g : ℕ) → s'.files g ≡ s.files g)
      × (s' ≡ (record s { files = s'.files }))
fileclose-filedup s f opened few =
    let n = ((s.files f).ref + 1) % 2 ^ 32 in
    let t = with_ref f n s in
    let count : (t.files f).ref ≡ n = rw (eq_self f) refl in
    (
      with_ref f ((t.files f).ref - 1) t,
      rw (filedup-with_ref s f (ground arith))
          (fileclose-with_ref t f (omega (arith, count)) (omega (arith, count))),
      with_ref-with_ref s f n ((t.files f).ref - 1) (omega (arith, count)),
      refl,
    )
