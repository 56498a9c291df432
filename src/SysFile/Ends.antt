-- ===== src/SysFile/Ends.antt =====
-- sysfile.c: sys_pipe.
use pa.Common.{ℕ, ◌+◌, Option, none, some, update, ℤ, pos, negsuc}
use pa.Syscall.{argptr, write_word}
use pa.Fs.{Exec, ◌>>=◌, ◌>>◌, pure, gets, modify}
use pa.File.{fileclose, pipealloc}
use pa.SysFile.Args.{open_fd}

-- sys_pipe when a descriptor is missing
unfoldable pub undo_pipe : Option ℕ → (rf wf : ℕ) → Exec ℤ
undo_pipe fd0 rf wf = do
  (elim fd0 [ none ↦ pure tt | some fd ↦ modify (λ s. record s { ofile = update s.ofile fd 0 }) ])
  fileclose rf
  fileclose wf
  pure (negsuc 0)

-- sys_pipe with both files
unfoldable pub open_ends : (addr rf wf : ℕ) → Exec ℤ
open_ends addr rf wf = do
  fd0 ← open_fd rf
  elim fd0 [
    | none ↦ undo_pipe none rf wf
    | some d0 ↦ (do
      fd1 ← open_fd wf
      elim fd1 [
        | none ↦ undo_pipe (some d0) rf wf
        | some d1 ↦ (do
          modify (λ s. record s { mem = write_word (write_word s.mem addr d0) (addr + 4) d1 })
          pure (pos 0))
      ])
  ]

-- `sys_pipe()`
unfoldable pub sys_pipe : Exec ℤ
sys_pipe = do
  p ← gets (λ s. argptr s.user s.mem 0 (pos 8))
  elim p [
    | none ↦ pure (negsuc 0)
    | some addr ↦ (do
      files ← pipealloc
      elim files [ none ↦ pure (negsuc 0) | some (rf, wf) ↦ open_ends addr rf wf ])
  ]
