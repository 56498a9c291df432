-- ===== src/SysFile/Open.antt =====
-- sysfile.c: create, sys_open, the calls that make nodes, and sys_chdir.
use pa.Common.{
  ℕ, ◌+◌, ◌*◌, ◌/◌, ◌%◌, ◌^◌, Bool, not, ◌&&◌, ◌||◌, Option, none, some, List, ◌==◌, if◌then◌else◌,
  ℤ, pos, negsuc, is_negative,
}
use pa.Fs.{
  t_dir, t_file, t_dev, t_sdir, t_sfile, fd_inode, panic, Exec, ◌>>=◌, ◌>>◌, pure, fail, gets,
  modify,
}
use pa.Inode.{change_inode, ialloc, iupdate, ilock, iunlock, iput, iunlockput}
use pa.Dir.{is_dir, dirlookup, dirlink, namei, nameiparent}
use pa.File.{change_file, filealloc, fileclose}
use pa.SysFile.Args.{arg_path, arg_int, open_fd}
use pa.SysFile.Link.{dot, dot_dot}

-- create for a name that is there: the types that it opens again
abbrev pub reopens : (type old : ℕ) → Bool
reopens type old =
    (type == t_file && old == t_file)
    || ((type == t_sdir && old == t_sdir) || (type == t_sfile && old == t_sfile))

-- the entries "." and ".." of a new directory
unfoldable pub link_dots : (dp ip : ℕ) → Exec Unit
link_dots dp ip = do
  change_inode dp (λ x. record x { nlink = (x.nlink + 1) % 2 ^ 16 })
  iupdate dp
  own ← gets (λ s. (s.icache ip).inum)
  r ← dirlink ip dot own
  above ← gets (λ s. (s.icache dp).inum)
  (if is_negative r
      then fail panic
      else (do r' ← dirlink ip dot_dot above; if is_negative r' then fail panic else pure tt))

-- create for a name that is not there
unfoldable pub create_new : (dp : ℕ) → (name : ℕ → ℕ) → (type major minor : ℕ) → Exec (Option ℕ)
create_new dp name type major minor = do
  dev ← gets (λ s. (s.icache dp).dev)
  ip ← ialloc dev type
  ilock ip
  change_inode ip (λ x. record x { major = major; minor = minor; nlink = 1 })
  iupdate ip
  (if type == t_dir || type == t_sdir then link_dots dp ip else pure tt)
  inum ← gets (λ s. (s.icache ip).inum)
  r ← dirlink dp name inum
  (if is_negative r then fail panic else (do iunlockput dp; pure (some ip)))

-- `create(path, type, major, minor)`, which returns a locked inode
unfoldable pub create : List ℕ → (type major minor : ℕ) → Exec (Option ℕ)
create path type major minor = do
  parent ← nameiparent path
  elim parent [
    | none ↦ pure none
    | some (dp, name) ↦ (do
      ilock dp
      found ← dirlookup dp name
      elim found [
        | some (ip, off) ↦ (do
          iunlockput dp
          ilock ip
          old ← gets (λ s. (s.icache ip).type)
          (if reopens type old then pure (some ip) else (do iunlockput ip; pure none)))
        | none ↦ create_new dp name type major minor
      ])
  ]

-- `omode & bit`, for a bit that is a power of two
abbrev pub has_bit : (mode bit : ℕ) → Bool
has_bit mode bit = mode / bit % 2 == 1

abbrev pub o_wronly : ℕ
o_wronly = 0x001

abbrev pub o_rdwr : ℕ
o_rdwr = 0x002

abbrev pub o_create : ℕ
o_create = 0x200

abbrev pub o_sfile : ℕ
o_sfile = 0x400

-- `dp->type` in sys_open. The pointer is not checked: when it is null the field, 80 bytes into the
-- structure, is read from the memory of the process. The lock of `dp` is not held.
unfoldable pub parent_type : List ℕ → Exec ℕ
parent_type path = do
  parent ← nameiparent path
  elim parent [
    | none ↦ gets (λ s. s.mem 80 + s.mem 81 * 0x100)
    | some (dp, name) ↦ gets (λ s. (s.icache dp).type)
  ]

-- sys_open, with O_CREATE
unfoldable pub open_create : List ℕ → (omode : ℕ) → Exec (Option ℕ)
open_create path omode = do
  type ← parent_type path
  (if has_bit omode o_sfile
      then (if not (type == t_sdir) then pure none else create path t_sfile 0 0)
      else (if type == t_sdir then pure none else create path t_file 0 0))

-- sys_open, without it
unfoldable pub open_existing : List ℕ → (omode : ℕ) → Exec (Option ℕ)
open_existing path omode = do
  found ← namei path
  elim found [
    | none ↦ pure none
    | some ip ↦ (do
      ilock ip
      i ← gets (λ s. s.icache ip)
      (if is_dir i && not (omode == 0) then (do iunlockput ip; pure none) else pure (some ip)))
  ]

-- sys_open with the locked inode: a file and a descriptor for it
unfoldable pub open_inode : (ip omode : ℕ) → Exec ℤ
open_inode ip omode = do
  file ← filealloc
  elim file [
    | none ↦ (do iunlockput ip; pure (negsuc 0))
    | some f ↦ (do
      fd ← open_fd f
      elim fd [
        | none ↦ (do fileclose f; iunlockput ip; pure (negsuc 0))
        | some d ↦ (do
          iunlock ip
          change_file f (λ x. record x {
            type = fd_inode;
            ip = ip;
            off = 0;
            readable = not (has_bit omode o_wronly);
            writable = has_bit omode o_wronly || has_bit omode o_rdwr;
          })
          pure (pos d))
      ])
  ]

-- `sys_open()`
unfoldable pub sys_open : Exec ℤ
sys_open = do
  path ← arg_path 0
  mode ← arg_int 1
  elim path [
    | none ↦ pure (negsuc 0)
    | some p ↦ elim mode [
      | none ↦ pure (negsuc 0)
      | some omode ↦ (do
        found ← (if has_bit omode o_create then open_create p omode else open_existing p omode)
        elim found [ none ↦ pure (negsuc 0) | some ip ↦ open_inode ip omode ])
    ]
  ]

-- sys_mkdir, sys_mknod and mkSmallFilesdir, with the type and device numbers that they pass to create
unfoldable pub make_node : (type major minor : ℕ) → Exec ℤ
make_node type major minor = do
  path ← arg_path 0
  elim path [
    | none ↦ pure (negsuc 0)
    | some p ↦ (do
      made ← create p type major minor
      elim made [ none ↦ pure (negsuc 0) | some ip ↦ (do iunlockput ip; pure (pos 0)) ])
  ]

-- `sys_mkdir()`
unfoldable pub sys_mkdir : Exec ℤ
sys_mkdir = make_node t_dir 0 0

-- `mkSmallFilesdir()`
unfoldable pub mk_small_filesdir : Exec ℤ
mk_small_filesdir = make_node t_sdir 0 0

-- `sys_mknod()`
unfoldable pub sys_mknod : Exec ℤ
sys_mknod = do
  path ← arg_path 0
  major ← arg_int 1
  minor ← arg_int 2
  elim path [
    | none ↦ pure (negsuc 0)
    | some p ↦ elim major [
      | none ↦ pure (negsuc 0)
      | some a ↦ elim minor [
        | none ↦ pure (negsuc 0)
        | some b ↦ make_node t_dev (a % 2 ^ 16) (b % 2 ^ 16)
      ]
    ]
  ]

-- sys_chdir with the inode
unfoldable pub change_cwd : ℕ → Exec ℤ
change_cwd ip = do
  ilock ip
  i ← gets (λ s. s.icache ip)
  (if not (is_dir i) then (do iunlockput ip; pure (negsuc 0)) else (do
    iunlock ip
    cwd ← gets (λ s. s.cwd)
    iput cwd
    modify (λ s. record s { cwd = ip })
    pure (pos 0)))

-- `sys_chdir()`
unfoldable pub sys_chdir : Exec ℤ
sys_chdir = do
  path ← arg_path 0
  elim path [
    | none ↦ pure (negsuc 0)
    | some p ↦ (do found ← namei p; elim found [ none ↦ pure (negsuc 0) | some ip ↦ change_cwd ip ])
  ]
