-- ===== src/Dir.antt =====
-- fs.c, directories and path names.
pub mod Entries
mod Tests
use pa.Common.{
  ℕ, zero, suc, ◌+◌, ◌-◌, ◌*◌, ◌/◌, ◌%◌, ◌^◌, Bool, true, false, not, ◌&&◌, ◌||◌, Option, none,
  some, List, [], ◌∷◌, ltb, leb, ◌==◌, if◌then◌else◌, update, ℤ, pos, negsuc,
}
use pa.Strings.{strncmp, strncpy}
use pa.Path.{dir_siz, slash, skipelem}
use pa.Fs.{t_dir, t_sdir, Inode, Fs, panic, Exec, ok, stop, ◌>>=◌, ◌>>◌, pure, fail, gets, modify}
use pa.Inode.{iget, idup, ilock, iunlock, iput, iunlockput, readi, writei}

-- `struct dirent` takes 16 bytes: `inum` in two and `name` in fourteen.
abbrev pub dirent_size : ℕ
dirent_size = 16

abbrev pub entry_inum : (ℕ → ℕ) → ℕ
entry_inum de = de 0 + de 1 * 0x100

abbrev pub entry_name : (ℕ → ℕ) → ℕ → ℕ
entry_name de i = de (2 + i)

-- two names in one memory, the first from 0 on and the second from 14 on
abbrev pub beside : (ℕ → ℕ) → (ℕ → ℕ) → ℕ → ℕ
beside s t a = if ltb a dir_siz then s a else t (a - dir_siz)

-- `namecmp(s, t)`
unfoldable pub namecmp : (ℕ → ℕ) → (ℕ → ℕ) → ℤ
namecmp s t = strncmp (beside s t) 0 dir_siz dir_siz

abbrev pub is_zero : ℤ → Bool
is_zero (pos n) = n == 0
is_zero (negsuc n) = false

abbrev pub is_full : ℤ → Bool
is_full (pos n) = n == dirent_size
is_full (negsuc n) = false

abbrev pub is_dir : Inode → Bool
is_dir i = i.type == t_dir || i.type == t_sdir

-- an entry of the directory, read in; a short read is a panic
unfoldable pub read_entry : (dp off : ℕ) → Exec (ℕ → ℕ)
read_entry dp off = do
  (de, r) ← readi dp (λ i. 0) off dirent_size
  if is_full r then pure de else fail panic

-- the loop of dirlookup, with the rounds left: the offset and the number found
unfoldable pub lookup_from : ℕ → (dp : ℕ) → (name : ℕ → ℕ) → (off : ℕ) → Exec (Option (ℕ × ℕ))
lookup_from zero dp name off = pure none
lookup_from (suc n) dp name off = do
  size ← gets (λ s. (s.icache dp).size)
  (if ltb off size
      then (do
        de ← read_entry dp off
        let next = lookup_from n dp name (off + dirent_size)
        if entry_inum de == 0
            then next
            else if is_zero (namecmp name (entry_name de))
            then pure (some (off, entry_inum de))
            else next)
      else pure none)

-- the rounds of a loop over the entries of a directory
abbrev pub entry_rounds : ℕ → ℕ
entry_rounds size = size / dirent_size + 1

-- `dirlookup(dp, name, poff)`: the inode and `*poff`
unfoldable pub dirlookup : (dp : ℕ) → (name : ℕ → ℕ) → Exec (Option (ℕ × ℕ))
dirlookup dp name = do
  d ← gets (λ s. s.icache dp)
  (if not (is_dir d) then fail panic else (do
    found ← lookup_from (entry_rounds d.size) dp name 0
    elim found [
      | none ↦ pure none
      | some (off, inum) ↦ (do ip ← iget d.dev inum; pure (some (ip, off)))
    ]))

-- the search of dirlink for an empty entry, with the rounds left
unfoldable pub empty_from : ℕ → (dp off : ℕ) → Exec ℕ
empty_from zero dp off = pure off
empty_from (suc n) dp off = do
  size ← gets (λ s. (s.icache dp).size)
  (if ltb off size
      then (do
        de ← read_entry dp off
        let next = empty_from n dp (off + dirent_size)
        if entry_inum de == 0 then pure off else next)
      else pure off)

-- `strncpy(de.name, name, DIRSIZ); de.inum = inum;`
unfoldable pub make_entry : (name : ℕ → ℕ) → (inum : ℕ) → (ℕ → ℕ) → ℕ → ℕ
make_entry name inum de i =
    let names = strncpy (beside (entry_name de) name) 0 dir_siz dir_siz in
    if i == 0 then inum % 0x100 else if i == 1 then inum / 0x100 % 0x100 else names (i - 2)

-- `dirlink(dp, name, inum)`
unfoldable pub dirlink : (dp : ℕ) → (name : ℕ → ℕ) → (inum : ℕ) → Exec ℤ
dirlink dp name inum = do
  found ← dirlookup dp name
  elim found [
    | some (ip, off) ↦ (do iput ip; pure (negsuc 0))
    | none ↦ (do
      size ← gets (λ s. (s.icache dp).size)
      off ← empty_from (entry_rounds size) dp 0
      r ← writei dp (make_entry name inum (λ i. 0)) off dirent_size
      if is_full r then pure (pos 0) else fail panic)
  ]

abbrev pub root_dev : ℕ
root_dev = 1

abbrev pub root_ino : ℕ
root_ino = 1

abbrev pub starts_absolute : List ℕ → Bool
starts_absolute [] = false
starts_absolute (c ∷ path) = c == slash

abbrev pub at_end : List ℕ → Bool
at_end [] = true
at_end (c ∷ path) = false

-- the end of namex, when no element is left
unfoldable pub namex_end : (parent : Bool) → (ip : ℕ) → (name : ℕ → ℕ) → Exec (Option (ℕ × (ℕ → ℕ)))
namex_end parent ip name = if parent then (do iput ip; pure none) else pure (some (ip, name))

-- the loop of namex, with a bound on its rounds: the inode, and what stands in `name`
unfoldable pub walk :
    ℕ → (parent : Bool) → (ip : ℕ) → List ℕ → (name : ℕ → ℕ) → Exec (Option (ℕ × (ℕ → ℕ)))
walk zero parent ip path name = namex_end parent ip name
walk (suc n) parent ip path name = elim (skipelem path name) [
  | none ↦ namex_end parent ip name
  | some (rest, name') ↦ (do
    ilock ip
    i ← gets (λ s. s.icache ip)
    (if not (is_dir i)
        then (do iunlockput ip; pure none)
        else if parent && at_end rest
        then (do iunlock ip; pure (some (ip, name')))
        else (do
          found ← dirlookup ip name'
          elim found [
            | none ↦ (do iunlockput ip; pure none)
            | some (next, off) ↦ (do iunlockput ip; walk n parent next rest name')
          ])))
]

abbrev pub path_rounds : List ℕ → ℕ
path_rounds [] = 1
path_rounds (c ∷ path) = suc (path_rounds path)

-- `namex(path, nameiparent, name)`; each round takes a byte of the path at least.
unfoldable pub namex : List ℕ → (parent : Bool) → (name : ℕ → ℕ) → Exec (Option (ℕ × (ℕ → ℕ)))
namex path parent name = do
  cwd ← gets (λ s. s.cwd)
  ip ← (if starts_absolute path then iget root_dev root_ino else idup cwd)
  walk (path_rounds path) parent ip path name

-- `namei(path)`
unfoldable pub namei : List ℕ → Exec (Option ℕ)
namei path = do
  found ← namex path false (λ i. 0)
  elim found [ none ↦ pure none | some (ip, name) ↦ pure (some ip) ]

-- `nameiparent(path, name)`
unfoldable pub nameiparent : List ℕ → Exec (Option (ℕ × (ℕ → ℕ)))
nameiparent path = namex path true (λ i. 0)
