-- ===== src/Dir/Tests.antt =====
-- dirlookup in the root directory of a small file system.
use pa.Common.{ℕ, ◌<◌, ◌≡◌, ◌/◌, refl, ap, arith, ◌==◌, if◌then◌else◌, none, some, Option}
use pa.Fs.{ok, continue, pure}
use pa.Fs.Example.{small_fs}
use pa.Syscall.{read_word}
use pa.Inode.{iget}
use pa.Inode.Map.{block_of}
use pa.Dir.{dirlookup}
use pa.Dir.Entries.{IsDir, FirstEntry, dirlookup_lem}

abbrev name_f : ℕ → ℕ
name_f i = if i == 0 then 102 else 0

root_there : (k : ℕ) → k < 64 → block_of small_fs 1 (k / 512) ≡ 4
unfolding read_word
root_there k lt = let first : k / 512 ≡ 0 = omega arith in ap (block_of small_fs 1) first

root_IsDir : IsDir small_fs 1
root_IsDir = record {
  type_lem = refl;
  whole = refl;
  mapped = record {
    there = λ k ge lt e. let h = root_there k (omega arith) in omega arith;
    bounded = omega arith;
  };
}

dirlookup_lem_example :
    (r : Option (ℕ × ℕ)) × FirstEntry small_fs 1 name_f 0 r
    × (dirlookup 1 name_f small_fs ≡ elim r [
      | none ↦ ok none small_fs
      | some (off, inum) ↦ continue (iget 1 inum small_fs) (λ ip. pure (some (ip, off)))
    ])
dirlookup_lem_example = dirlookup_lem small_fs 1 name_f root_IsDir
