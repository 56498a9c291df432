-- ===== src/File/Tests.antt =====
-- The file table and a write to a small file, on a small file system.
use pa.Common.{ℕ, ◌+◌, ◌≡◌, refl, true, false, arith, update, pos}
use pa.Fs.{fd_inode, Fs, ok, ◌>>=◌}
use pa.Fs.Example.{small_fs, no_file}
use pa.Inode.Small.{written}
use pa.File.{filedup, fileclose, filewrite}
use pa.File.Refs.{fileclose-filedup}
use pa.File.Small.{filewrite-small}

-- File 0 is open for writing on the small file, at the end of its three bytes.
abbrev with_file : Fs
with_file = record small_fs {
  files =
      update small_fs.files 0
        (record no_file { type = fd_inode; ref = 1; writable = true; ip = 2; off = 3 });
}

abbrev letters : ℕ → ℕ
letters i = 65 + i

fileclose-filedup_example :
    (s' : Fs) × ((filedup 0 >>= fileclose) with_file ≡ ok tt s')
    × ((g : ℕ) → s'.files g ≡ with_file.files g)
    × (s' ≡ (record with_file { files = s'.files }))
fileclose-filedup_example = fileclose-filedup with_file 0 (omega arith) (omega arith)

filewrite-small_example :
    (s' : Fs) × (filewrite 0 letters 4 with_file ≡ ok (pos 4) s')
    × (s'.files 0 ≡ (record (with_file.files 0) { off = 7 }))
    × (s'.icache 2 ≡ (record (written (with_file.icache 2) letters 3 4) { locked = false }))
filewrite-small_example =
    filewrite-small with_file 0 letters 4
      (record { type_lem = refl; writable = refl; counted = refl; unlocked = refl; valid = refl })
      (record { small = refl; starts = omega arith; bounded = omega arith }) (omega arith)
