-- ===== src/SysFile/Link.antt =====
-- sysfile.c: sys_link and sys_unlink.
use pa.Common.{
  ℕ, zero, suc, ◌+◌, ◌-◌, ◌*◌, ◌%◌, ◌^◌, Bool, true, false, not, ◌||◌, none, some, List, ltb, ◌==◌,
  if◌then◌else◌, ℤ, pos, negsuc, is_negative,
}
use pa.Fs.{panic, Exec, ◌>>=◌, ◌>>◌, pure, fail, gets}
use pa.Inode.{positive, change_inode, iupdate, ilock, iunlock, iput, iunlockput, writei}
use pa.Dir.{
  dirent_size, entry_inum, is_zero, is_full, is_dir, namecmp, read_entry, entry_rounds, dirlookup,
  dirlink, namei, nameiparent,
}
use pa.SysFile.Args.{arg_path}

-- `sys_link()` behind the lookup of the old name, with both names
abbrev pub undo_link : ℕ → Exec ℤ
undo_link ip = do
  ilock ip
  change_inode ip (λ i. record i { nlink = (i.nlink + 2 ^ 16 - 1) % 2 ^ 16 })
  iupdate ip
  iunlockput ip
  pure (negsuc 0)

unfoldable pub link_to : (ip : ℕ) → List ℕ → Exec ℤ
link_to ip new = do
  ilock ip
  i ← gets (λ s. s.icache ip)
  (if is_dir i then (do iunlockput ip; pure (negsuc 0)) else (do
    change_inode ip (λ x. record x { nlink = (x.nlink + 1) % 2 ^ 16 })
    iupdate ip
    iunlock ip
    found ← nameiparent new
    elim found [
      | none ↦ undo_link ip
      | some (dp, name) ↦ (do
        ilock dp
        devs ← gets (λ s. (s.icache dp).dev == (s.icache ip).dev)
        inum ← gets (λ s. (s.icache ip).inum)
        r ← (if devs then dirlink dp name inum else pure (negsuc 0))
        (if is_negative r
            then (do iunlockput dp; undo_link ip)
            else (do iunlockput dp; iput ip; pure (pos 0))))
    ]))

-- `sys_link()`
unfoldable pub sys_link : Exec ℤ
sys_link = do
  old ← arg_path 0
  new ← arg_path 1
  elim old [
    | none ↦ pure (negsuc 0)
    | some old_path ↦ elim new [
      | none ↦ pure (negsuc 0)
      | some new_path ↦ (do
        found ← namei old_path
        elim found [ none ↦ pure (negsuc 0) | some ip ↦ link_to ip new_path ])
    ]
  ]

-- the loop of isdirempty, with the rounds left
unfoldable pub empty_dir : ℕ → (dp off : ℕ) → Exec Bool
empty_dir zero dp off = pure true
empty_dir (suc n) dp off = do
  size ← gets (λ s. (s.icache dp).size)
  (if ltb off size
      then (do
        de ← read_entry dp off
        let next = empty_dir n dp (off + dirent_size)
        if not (entry_inum de == 0) then pure false else next)
      else pure true)

-- `isdirempty(dp)`
unfoldable pub isdirempty : ℕ → Exec Bool
isdirempty dp = do
  size ← gets (λ s. (s.icache dp).size)
  empty_dir (entry_rounds size) dp (2 * dirent_size)

-- a one-byte and a two-byte name, with the NUL behind them
abbrev pub dot : ℕ → ℕ
dot i = if i == 0 then b'.' else 0

abbrev pub dot_dot : ℕ → ℕ
dot_dot i = if i == 0 || i == 1 then b'.' else 0

-- the end of sys_unlink, with both inodes locked and the entry at `off`
unfoldable pub unlink_entry : (dp ip off : ℕ) → Exec ℤ
unlink_entry dp ip off = do
  r ← writei dp (λ i. 0) off dirent_size
  i ← gets (λ s. s.icache ip)
  (if not (is_full r) then fail panic else (do
    (if is_dir i
        then (do
          change_inode dp (λ x. record x { nlink = (x.nlink + 2 ^ 16 - 1) % 2 ^ 16 })
          iupdate dp)
        else pure tt)
    iunlockput dp
    change_inode ip (λ x. record x { nlink = (x.nlink + 2 ^ 16 - 1) % 2 ^ 16 })
    iupdate ip
    iunlockput ip
    pure (pos 0)))

-- sys_unlink from the parent directory on
unfoldable pub unlink_in : (dp : ℕ) → (name : ℕ → ℕ) → Exec ℤ
unlink_in dp name = do
  ilock dp
  (if is_zero (namecmp name dot) || is_zero (namecmp name dot_dot)
      then (do iunlockput dp; pure (negsuc 0))
      else (do
        found ← dirlookup dp name
        elim found [
          | none ↦ (do iunlockput dp; pure (negsuc 0))
          | some (ip, off) ↦ (do
            ilock ip
            i ← gets (λ s. s.icache ip)
            (if not (positive (2 ^ 15) i.nlink) then fail panic else (do
              empty ← (if is_dir i then isdirempty ip else pure true)
              (if not empty
                  then (do iunlockput ip; iunlockput dp; pure (negsuc 0))
                  else unlink_entry dp ip off))))
        ]))

-- `sys_unlink()`
unfoldable pub sys_unlink : Exec ℤ
sys_unlink = do
  path ← arg_path 0
  elim path [
    | none ↦ pure (negsuc 0)
    | some p ↦ (do
      found ← nameiparent p
      elim found [ none ↦ pure (negsuc 0) | some (dp, name) ↦ unlink_in dp name ])
  ]
