-- ===== src/SysFile/Args.antt =====
-- sysfile.c: the arguments of the system calls on files, and sys_read, sys_write and sys_fstat.
use pa.Inode.{Stat}
use pa.Common.{
  ℕ, zero, suc, ◌+◌, ◌-◌, Option, none, some, List, [], ◌∷◌, ℤ, negsuc, update, ◌/◌, ◌%◌, pos,
}
use pa.Syscall.{argint, argptr, argstr, argfd, fdalloc, to_int, write_word}
use pa.Fs.{Exec, ok, ◌>>=◌, ◌>>◌, pure, gets, modify, blit}
use pa.File.{fileread, filewrite, filestat}

-- the bytes of the string that argstr has found
abbrev pub text_from : ℕ → (ℕ → ℕ) → ℕ → List ℕ
text_from zero mem a = []
text_from (suc n) mem a = mem a ∷ text_from n mem (a + 1)

-- `argstr(n, &path)`, as the path
unfoldable pub arg_path : (n : ℕ) → Exec (Option (List ℕ))
arg_path n s = elim (argstr s.user s.mem n) [
  | none ↦ ok none s
  | some (a, len) ↦ ok (some (text_from len s.mem a)) s
]

abbrev pub arg_int : (n : ℕ) → Exec (Option ℕ)
arg_int n s = ok (argint s.user s.mem n) s

-- `argfd(n, 0, &f)`, as the slot of the file
abbrev pub arg_file : (n : ℕ) → Exec (Option ℕ)
arg_file n s = elim (argfd s.user s.mem s.ofile n) [
  | none ↦ ok none s
  | some (fd, f) ↦ ok (some (f - 1)) s
]

-- `fdalloc(f)`
unfoldable pub open_fd : (f : ℕ) → Exec (Option ℕ)
open_fd f s = let (ofile, fd) = fdalloc (f + 1) s.ofile in ok fd (record s { ofile = ofile })

-- the arguments of read and write: the file, the pointer and the count
unfoldable pub transfer_args : Exec (Option (ℕ × ℕ × ℕ))
transfer_args = do
  f ← arg_file 0
  elim f [
    | none ↦ pure none
    | some file ↦ (do
      n ← arg_int 2
      elim n [
        | none ↦ pure none
        | some count ↦ (do
          p ← gets (λ s. argptr s.user s.mem 1 (to_int count))
          elim p [ none ↦ pure none | some addr ↦ pure (some (file, addr, count)) ])
      ])
  ]

-- `sys_read()`
unfoldable pub sys_read : Exec ℤ
sys_read = do
  args ← transfer_args
  elim args [
    | none ↦ pure (negsuc 0)
    | some (f, addr, n) ↦ (do
      mem ← gets (λ s. s.mem)
      (dst, r) ← fileread f (λ i. mem (addr + i)) n
      modify (λ s. record s { mem = blit s.mem addr dst 0 n })
      pure r)
  ]

-- `sys_write()`
unfoldable pub sys_write : Exec ℤ
sys_write = do
  args ← transfer_args
  elim args [
    | none ↦ pure (negsuc 0)
    | some (f, addr, n) ↦ (do mem ← gets (λ s. s.mem); filewrite f (λ i. mem (addr + i)) n)
  ]

-- two bytes, the low one first
abbrev pub write_half : (ℕ → ℕ) → (a w : ℕ) → ℕ → ℕ
write_half mem a w = update (update mem a (w % 0x100)) (a + 1) (w / 0x100 % 0x100)

-- the fields of a `struct stat` in memory; the bytes of padding keep what they have
abbrev pub put_stat : (addr : ℕ) → Stat → (ℕ → ℕ) → ℕ → ℕ
put_stat addr st mem =
    let ids =
      write_word (write_word (write_half mem addr st.type) (addr + 4) st.dev) (addr + 8) st.ino in
    write_word (write_half ids (addr + 12) st.nlink) (addr + 16) st.size

-- `sys_fstat()`
unfoldable pub sys_fstat : Exec ℤ
sys_fstat = do
  f ← arg_file 0
  elim f [
    | none ↦ pure (negsuc 0)
    | some file ↦ (do
      p ← gets (λ s. argptr s.user s.mem 1 (pos 20))
      elim p [
        | none ↦ pure (negsuc 0)
        | some addr ↦ (do
          found ← filestat file
          elim found [
            | none ↦ pure (negsuc 0)
            | some st ↦ (do modify (λ s. record s { mem = put_stat addr st s.mem }); pure (pos 0))
          ])
      ])
  ]
