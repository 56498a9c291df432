-- ===== src/File.antt =====
-- file.c, and pipealloc of pipe.c: the table of open files.
pub mod Refs
pub mod Small
mod Tests
use pa.Common.{
  ℕ, zero, suc, ◌+◌, ◌-◌, ◌*◌, ◌/◌, ◌%◌, ◌^◌, Bool, true, false, not, ◌&&◌, ◌||◌, Option, none,
  some, List, [], ◌∷◌, ltb, leb, ◌==◌, if◌then◌else◌, update, ℤ, pos, negsuc, is_negative, get_or,
  min,
}
use pa.Pipe.{Pipe, Outcome, done, failed, asleep, pipewrite, piperead, pipeclose}
use pa.Syscall.{to_int}
use pa.Fs.{
  File, fd_none, fd_pipe, fd_inode, Fs, panic, stuck, Exec, ok, stop, ◌>>=◌, ◌>>◌, pure, fail, gets,
  modify, blit,
}
use pa.Inode.{Stat, positive, stati, ilock, iunlock, iput, readi, writei}

abbrev pub num_files : ℕ
num_files = 100

abbrev pub change_file : ℕ → (File → File) → Exec Unit
change_file f g = modify (λ s. record s { files = update s.files f (g (s.files f)) })

-- the loop of filealloc, with the rounds left
unfoldable pub free_file : ℕ → (f : ℕ) → (ℕ → File) → Option ℕ
free_file zero f files = none
free_file (suc n) f files =
    let rest = free_file n (f + 1) files in if (files f).ref == 0 then some f else rest

-- `filealloc()`
unfoldable pub filealloc : Exec (Option ℕ)
filealloc s = elim (free_file num_files 0 s.files) [
  | none ↦ ok none s
  | some f ↦ (do change_file f (λ x. record x { ref = 1 }); pure (some f)) s
]

-- `filedup(f)`
unfoldable pub filedup : ℕ → Exec ℕ
filedup f = do
  file ← gets (λ s. s.files f)
  (if not (positive (2 ^ 31) file.ref)
      then fail panic
      else (do change_file f (λ x. record x { ref = (x.ref + 1) % 2 ^ 32 }); pure f))

-- `pipeclose` of the pipe at a page, which frees the page behind the last end
unfoldable pub close_pipe : (page : ℕ) → (writable : Bool) → Exec Unit
close_pipe page writable s =
    let (p, woken, free) = pipeclose (s.pipes page) writable in
    ok tt (record s {
      pipes = update s.pipes page p;
      freelist = if free then page ∷ s.freelist else s.freelist;
    })

-- what fileclose does with a file that nothing refers to any more
unfoldable pub close_last : File → Exec Unit
close_last ff = elim ff.type [
  | fd_pipe ↦ close_pipe ff.pipe ff.writable
  | fd_inode ↦ iput ff.ip
  | fd_none ↦ pure tt
]

-- `fileclose(f)`
unfoldable pub fileclose : ℕ → Exec Unit
fileclose f = do
  ff ← gets (λ s. s.files f)
  (if not (positive (2 ^ 31) ff.ref)
      then fail panic
      else if ltb 1 ff.ref
      then change_file f (λ x. record x { ref = ff.ref - 1 })
      else (do change_file f (λ x. record x { ref = 0; type = fd_none }); close_last ff))

-- `filestat(f, st)`; `none` is -1.
unfoldable pub filestat : ℕ → Exec (Option Stat)
filestat f = do
  file ← gets (λ s. s.files f)
  elim file.type [
    | fd_inode ↦ (do
      ilock file.ip
      st ← gets (λ s. stati (s.icache file.ip))
      iunlock file.ip
      pure (some st))
    | fd_pipe ↦ pure none
    | fd_none ↦ pure none
  ]

-- a list of bytes at the start of a buffer
abbrev pub put_list : (ℕ → ℕ) → List ℕ → ℕ → ℕ
put_list dst [] i = dst i
put_list dst (b ∷ bs) zero = b
put_list dst (b ∷ bs) (suc i) = put_list (λ j. dst (j + 1)) bs i

-- `piperead` of the pipe at a page
unfoldable pub read_pipe : (page : ℕ) → (dst : ℕ → ℕ) → (n : ℕ) → Exec ((ℕ → ℕ) × ℤ)
read_pipe page dst n s =
    let (p, bytes, woken, end) = piperead s.killed (s.pipes page) n in
    elim end [
      | done k ↦ ok (put_list dst bytes, pos k) (record s { pipes = update s.pipes page p })
      | failed ↦ ok (dst, negsuc 0) (record s { pipes = update s.pipes page p })
      | asleep i ↦ stop stuck
    ]

-- the first `n` bytes of a buffer
abbrev pub take_bytes : ℕ → (ℕ → ℕ) → List ℕ
take_bytes zero src = []
take_bytes (suc n) src = src 0 ∷ take_bytes n (λ i. src (i + 1))

-- `pipewrite` of the pipe at a page
unfoldable pub write_pipe : (page : ℕ) → (src : ℕ → ℕ) → (n : ℕ) → Exec ℤ
write_pipe page src n s =
    let (p, woken, end) = pipewrite s.killed (s.pipes page) (take_bytes n src) in
    elim end [
      | done k ↦ ok (pos k) (record s { pipes = update s.pipes page p })
      | failed ↦ ok (negsuc 0) (record s { pipes = update s.pipes page p })
      | asleep i ↦ stop stuck
    ]

-- `f->off += r` for a positive `r`
abbrev pub advance : ℕ → ℤ → Exec Unit
advance f (pos r) = change_file f (λ x. record x { off = (x.off + r) % 2 ^ 32 })
advance f (negsuc r) = pure tt

-- the count of a loop `for(i = 0; i < n; i++)`, for an int that may be negative
abbrev pub rounds_of : ℕ → ℕ
rounds_of n = if ltb n (2 ^ 31) then n else 0

-- `fileread(f, addr, n)`, with what stands at `addr` afterwards
unfoldable pub fileread : (f : ℕ) → (dst : ℕ → ℕ) → (n : ℕ) → Exec ((ℕ → ℕ) × ℤ)
fileread f dst n = do
  file ← gets (λ s. s.files f)
  (if not file.readable then pure (dst, negsuc 0) else elim file.type [
    | fd_pipe ↦ read_pipe file.pipe dst (rounds_of n)
    | fd_inode ↦ (do
      ilock file.ip
      (dst', r) ← readi file.ip dst file.off n
      advance f r
      iunlock file.ip
      pure (dst', r))
    | fd_none ↦ fail panic
  ])

-- the bytes of one transaction of filewrite: `((LOGSIZE-1-1-2) / 2) * 512`
abbrev pub max_write : ℕ
max_write = (30 - 1 - 1 - 2) / 2 * 512

-- the loop of filewrite, with a bound on its rounds: how far it has come
unfoldable pub write_rounds : ℕ → (f : ℕ) → (src : ℕ → ℕ) → (i n : ℕ) → Exec ℕ
write_rounds zero f src i n = pure i
write_rounds (suc fuel) f src i n =
    if ltb i n
    then (do
      let n1 = min (n - i) max_write
      file ← gets (λ s. s.files f)
      ilock file.ip
      r ← writei file.ip (λ j. src (i + j)) file.off n1
      advance f r
      iunlock file.ip
      elim r [
        | negsuc e ↦ pure i
        | pos k ↦ if k == n1 then write_rounds fuel f src (i + k) n else fail panic
      ])
    else pure i

-- `filewrite(f, addr, n)`. A round that goes on writes a byte at least, so `n` rounds are enough, and none are
-- made when `n` is negative.
unfoldable pub filewrite : (f : ℕ) → (src : ℕ → ℕ) → (n : ℕ) → Exec ℤ
filewrite f src n = do
  file ← gets (λ s. s.files f)
  (if not file.writable then pure (negsuc 0) else elim file.type [
    | fd_pipe ↦ (do
      r ← write_pipe file.pipe src (rounds_of n)
      pure (if ltb n (2 ^ 31) then r else to_int n))
    | fd_inode ↦ (do
      i ← write_rounds (rounds_of n) f src 0 (rounds_of n)
      if i == n then pure (pos n) else pure (negsuc 0))
    | fd_none ↦ fail panic
  ])

abbrev pub new_pipe : Pipe → Pipe
new_pipe p = record p { readopen = true; writeopen = true; nwrite = 0; nread = 0 }

-- the end of pipealloc, with both files and a page
abbrev pub open_pipe : (f0 f1 page : ℕ) → Exec Unit
open_pipe f0 f1 page = do
  modify (λ s. record s { pipes = update s.pipes page (new_pipe (s.pipes page)) })
  change_file f0 (λ x. record x { type = fd_pipe; readable = true; writable = false; pipe = page })
  change_file f1 (λ x. record x { type = fd_pipe; readable = false; writable = true; pipe = page })

-- `kalloc()` and its list of pages
unfoldable pub take_page : Exec (Option ℕ)
take_page s = elim s.freelist [
  | [] ↦ ok none s
  | page ∷ rest ↦ ok (some page) (record s { freelist = rest })
]

-- `pipealloc(f0, f1)`; `none` is -1.
unfoldable pub pipealloc : Exec (Option (ℕ × ℕ))
pipealloc = do
  f0 ← filealloc
  elim f0 [
    | none ↦ pure none
    | some r ↦ (do
      f1 ← filealloc
      elim f1 [
        | none ↦ (do fileclose r; pure none)
        | some w ↦ (do
          page ← take_page
          elim page [
            | none ↦ (do fileclose r; fileclose w; pure none)
            | some p ↦ (do open_pipe r w p; pure (some (r, w)))
          ])
      ])
  ]
