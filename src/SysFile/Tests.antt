-- ===== src/SysFile/Tests.antt =====
-- Opening and creating files on a small file system.
use pa.Common.{ℕ, ◌≡◌, refl, true, [], ◌∷◌, update}
use pa.Syscall.{read_word, to_int}
use pa.Strings.{strncmp}
use pa.Path.{skipelem, skip_slashes, split_element, move_name, store_name, skip_named}
use pa.Fs.{Fs, Result, ok, stop}
use pa.Fs.Example.{small_fs}
use pa.Inode.{
  iget, find_slot, ilock, iunlock, iput, iunlockput, readi, read_blocks, bmap, map_entry,
}
use pa.Dir.{namecmp, read_entry, lookup_from, dirlookup, namex, namex_end, walk, nameiparent}
use pa.SysFile.{parent_type, create, open_create, o_create}
use pa.SysFile.Branches.{OpenInode, open_inode_lem}

-- the small file, locked
abbrev locked : Fs
locked = record small_fs {
  icache = update small_fs.icache 2 (record (small_fs.icache 2) { locked = true });
}

open_inode_lem_example : OpenInode locked 2 0
open_inode_lem_example = open_inode_lem locked 2 0 refl refl (λ f free. refl)

-- the references of the root directory
abbrev root_refs : {A : Type 0} → Result A → ℕ
root_refs (ok a s) = (s.icache 1).ref
root_refs (stop e) = 0

-- Opening "/g" with O_CREATE leaves one more reference to the root directory.
open_create_leaks : root_refs (open_create (47 ∷ 103 ∷ []) o_create small_fs) ≡ 2
unfolding open_create parent_type create nameiparent namex namex_end walk skipelem skip_slashes
    split_element move_name store_name skip_named iget find_slot ilock iunlock iput iunlockput
    dirlookup lookup_from read_entry namecmp strncmp readi read_blocks bmap map_entry read_word
    to_int
open_create_leaks = refl
