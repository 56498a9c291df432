-- ===== src/Dir/Entries.antt =====
-- A directory as its entries: what dirlookup finds.
use pa.Common.{
  ℕ, zero, suc, ◌+◌, ◌*◌, ◌%◌, ◌≤◌, ◌<◌, ◌≡◌, refl, ap, ◌∙◌, subst, true, false, not, Bool, ◌&&◌,
  Option, none, some, ltb, ◌==◌, Bool-cases, inl, inr, arith, pos,
}
use pa.Fs.{Fs, ok, continue, pure, blit}
use pa.Inode.{iget, readi}
use pa.Inode.Map.{content}
use pa.Inode.Whole.{available}
use pa.Inode.Mapped.{Mapped, readi-Mapped}
use pa.Dir.{
  dirent_size, entry_inum, entry_name, namecmp, is_zero, is_dir, read_entry, lookup_from,
  entry_rounds, dirlookup,
}

-- A directory made of whole entries, all of them in blocks that are there.
pub record IsDir (s : Fs) (dp : ℕ) : Type 0 where
  pub type_lem : is_dir (s.icache dp) ≡ true
  pub whole : (s.icache dp).size % dirent_size ≡ 0
  pub mapped : Mapped s dp 0 (s.icache dp).size

-- the entry at an offset
abbrev pub entry_at : Fs → (dp off : ℕ) → ℕ → ℕ
entry_at s dp off = blit (λ i. 0) 0 (content s dp) off dirent_size

-- The entry at an offset is in use and has the name.
abbrev pub names : Fs → (dp : ℕ) → (name : ℕ → ℕ) → (off : ℕ) → Bool
names s dp name off =
    not (entry_inum (entry_at s dp off) == 0)
    && is_zero (namecmp name (entry_name (entry_at s dp off)))

-- No entry from `lo` on and before `hi` has the name.
abbrev pub Unnamed : Fs → (dp : ℕ) → (name : ℕ → ℕ) → (lo hi : ℕ) → Type 0
Unnamed s dp name lo hi =
    (o : ℕ) → lo ≤ o → o < hi → o % dirent_size ≡ 0 → names s dp name o ≡ false

-- The first entry from `lo` on with the name, and its inode number, or none.
abbrev pub FirstEntry : Fs → (dp : ℕ) → (name : ℕ → ℕ) → (lo : ℕ) → Option (ℕ × ℕ) → Type 0
FirstEntry s dp name lo none = Unnamed s dp name lo (s.icache dp).size
FirstEntry s dp name lo (some (off, inum)) =
    (lo ≤ off)
    × (off < (s.icache dp).size)
    × (off % dirent_size ≡ 0)
    × (names s dp name off ≡ true)
    × (inum ≡ entry_inum (entry_at s dp off))
    × Unnamed s dp name lo off

read_entry-IsDir :
    (s : Fs) (dp off : ℕ)
    → IsDir s dp
    → off % dirent_size ≡ 0
    → off < (s.icache dp).size
    → read_entry dp off s ≡ ok (entry_at s dp off) s
unfolding read_entry
read_entry-IsDir s dp off d aligned lt =
    let sixteen : available s dp off dirent_size ≡ dirent_size = omega (arith, d.whole) in
    let whole : readi dp (λ i. 0) off dirent_size s ≡ ok (entry_at s dp off, pos dirent_size) s =
      subst
        (λ q.
          readi dp (λ i. 0) off dirent_size s ≡ ok (blit (λ i. 0) 0 (content s dp) off q, pos q) s)
        sixteen
        (readi-Mapped s dp (λ i. 0) off dirent_size (ground (arith, d.type_lem))
          (ground (arith, d.type_lem)) (omega arith) (omega (arith, d.mapped.bounded))
          (record {
            there = λ k ge less. d.mapped.there k (omega arith) (omega arith);
            bounded = omega (arith, d.mapped.bounded);
          })) in
    rw whole refl

-- One more entry in front.
Unnamed-suc :
    (s : Fs) (dp : ℕ) (name : ℕ → ℕ) (lo hi : ℕ)
    → lo % dirent_size ≡ 0
    → names s dp name lo ≡ false
    → Unnamed s dp name (lo + dirent_size) hi
    → Unnamed s dp name lo hi
Unnamed-suc s dp name lo hi aligned h u o ge lt al = elim (Bool-cases (o == lo)) [
  | inl e ↦ ap (names s dp name) (ground arith) ∙ h
  | inr ne ↦ u o (ground arith) lt al
]

FirstEntry-suc :
    (s : Fs) (dp : ℕ) (name : ℕ → ℕ) (lo : ℕ) (r : Option (ℕ × ℕ))
    → lo % dirent_size ≡ 0
    → names s dp name lo ≡ false
    → FirstEntry s dp name (lo + dirent_size) r
    → FirstEntry s dp name lo r
FirstEntry-suc s dp name lo none aligned h f =
    Unnamed-suc s dp name lo (s.icache dp).size aligned h f
FirstEntry-suc s dp name lo (some (off, inum)) aligned h f =
    (omega (arith, f.0), f.1, f.2, f.3, f.4, Unnamed-suc s dp name lo off aligned h f.5)

lookup_from-FirstEntry :
    (n : ℕ) (s : Fs) (dp : ℕ) (name : ℕ → ℕ) (off : ℕ)
    → IsDir s dp
    → off % dirent_size ≡ 0
    → (s.icache dp).size < off + dirent_size * n
    → (r : Option (ℕ × ℕ)) × (lookup_from n dp name off s ≡ ok r s) × FirstEntry s dp name off r
unfolding lookup_from
lookup_from-FirstEntry zero s dp name off d aligned enough =
    (none, refl, λ o ge lt al. absurd (omega arith))
lookup_from-FirstEntry (suc n) s dp name off d aligned enough =
    elim (Bool-cases (ltb off (s.icache dp).size)) [
      | inr stops ↦ (none, rw stops refl, λ o ge lt al. absurd (ground arith))
      | inl more ↦
          let read = read_entry-IsDir s dp off d aligned (ground arith) in
          let rest =
            lookup_from-FirstEntry n s dp name (off + dirent_size) d (omega arith) (omega arith) in
          elim (Bool-cases (entry_inum (entry_at s dp off) == 0)) [
            | inl vacant ↦ (
              rest.0,
              rw (more, read, vacant) rest.1,
              FirstEntry-suc s dp name off rest.0 aligned (rw vacant refl) rest.2,
            )
            | inr taken ↦
                elim (Bool-cases (is_zero (namecmp name (entry_name (entry_at s dp off))))) [
                  | inr differs ↦ (
                    rest.0,
                    rw (more, read, taken, differs) rest.1,
                    FirstEntry-suc s dp name off rest.0 aligned (rw (taken, differs) refl) rest.2,
                  )
                  | inl same ↦ (
                    some (off, entry_inum (entry_at s dp off)),
                    rw (more, read, taken, same) refl,
                    (
                      omega arith,
                      ground arith,
                      aligned,
                      rw (taken, same) refl,
                      refl,
                      λ o ge lt al. absurd (omega arith),
                    ),
                  )
                ]
          ]
    ]

-- In a directory made of whole entries, whose blocks are all there, dirlookup finds the first entry in use with the
-- name, and gets the inode that it gives from the cache; if no entry has the name it returns
-- null. It changes nothing else.
pub dirlookup_lem :
    (s : Fs) (dp : ℕ) (name : ℕ → ℕ)
    → IsDir s dp
    → (r : Option (ℕ × ℕ)) × FirstEntry s dp name 0 r
      × (dirlookup dp name s ≡ elim r [
        | none ↦ ok none s
        | some (off, inum) ↦ continue (iget (s.icache dp).dev inum s) (λ ip. pure (some (ip, off)))
      ])
unfolding dirlookup
dirlookup_lem s dp name d =
    let size = (s.icache dp).size in
    let l = lookup_from-FirstEntry (entry_rounds size) s dp name 0 d refl (omega arith) in
    (l.0, l.2, go l.0 l.1)
  where
    go :
        (r : Option (ℕ × ℕ))
        → lookup_from (entry_rounds (s.icache dp).size) dp name 0 s ≡ ok r s
        → dirlookup dp name s ≡ elim r [
          | none ↦ ok none s
          | some (off, inum) ↦
              continue (iget (s.icache dp).dev inum s) (λ ip. pure (some (ip, off)))
        ]
    go none e = rw (d.type_lem, e) refl
    go (some (off, inum)) e = rw (d.type_lem, e) refl
