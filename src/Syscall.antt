-- ===== src/Syscall.antt =====
-- syscall.c: fetching the arguments of a system call from user memory, counting the calls, and the
-- dispatch; with the counters and the descriptor table of sysfile.c.
pub mod Words
pub mod Args
pub mod Counts
pub mod Dispatch
pub mod Descriptors
mod Tests
use pa.Common.{
  ℕ, zero, suc, ◌+◌, ◌-◌, ◌*◌, ◌/◌, ◌%◌, ◌^◌, Bool, true, false, not, ◌&&◌, ◌||◌, Option, none,
  some, ltb, leb, ◌==◌, if◌then◌else◌, update, ℤ, pos, negsuc, is_negative, List, [], ◌∷◌,
}

-- Memory is a function from addresses to bytes; a word is stored with its low byte first.
unfoldable pub read_word : (ℕ → ℕ) → ℕ → ℕ
read_word mem a = mem a + mem (a + 1) * 0x100 + mem (a + 2) * 0x1_0000 + mem (a + 3) * 0x100_0000

unfoldable pub write_word : (ℕ → ℕ) → ℕ → ℕ → ℕ → ℕ
write_word mem a w =
    update
      (update (update (update mem a (w % 0x100)) (a + 1) (w / 0x100 % 0x100)) (a + 2)
        (w / 0x1_0000 % 0x100))
      (a + 3) (w / 0x100_0000 % 0x100)

-- an unsigned word read as an int
unfoldable pub to_int : ℕ → ℤ
to_int w = if ltb w (2 ^ 31) then pos w else negsuc (2 ^ 32 - w - 1)

-- The part of a process that the calls read: its size, and `tf->esp`.
pub record User : Type 0 where
  pub sz : ℕ
  pub esp : ℕ

-- `fetchint(addr, ip)`: the word; `none` is -1.
pub fetchint : User → (ℕ → ℕ) → (addr : ℕ) → Option ℕ
fetchint u mem addr =
    if leb u.sz addr || ltb u.sz ((addr + 4) % 2 ^ 32) then none else some (read_word mem addr)

-- the loop of fetchstr, with the rounds left
pub find_nul : ℕ → (ℕ → ℕ) → (s pp : ℕ) → Option ℕ
find_nul zero mem s pp = none
find_nul (suc n) mem s pp =
    let rest = find_nul n mem (s + 1) pp in if mem s == 0 then some (s - pp) else rest

-- `fetchstr(addr, pp)`: the pointer set and the length returned; `none` is -1.
pub fetchstr : User → (ℕ → ℕ) → (addr : ℕ) → Option (ℕ × ℕ)
fetchstr u mem addr =
    if leb u.sz addr
    then none
    else elim (find_nul (u.sz - addr) mem addr addr) [ none ↦ none | some len ↦ some (addr, len) ]

-- `argint(n, ip)`
pub argint : User → (ℕ → ℕ) → (n : ℕ) → Option ℕ
argint u mem n = fetchint u mem ((u.esp + 4 + 4 * n) % 2 ^ 32)

-- the test of argptr, for `size` not negative
pub outside_user : User → (i size : ℕ) → Bool
outside_user u i size = leb u.sz i || ltb u.sz ((i + size) % 2 ^ 32)

-- `argptr(n, pp, size)`
pub argptr : User → (ℕ → ℕ) → (n : ℕ) → (size : ℤ) → Option ℕ
argptr u mem n (pos size) = elim (argint u mem n) [
  | none ↦ none
  | some i ↦ if outside_user u i size then none else some i
]
argptr u mem n (negsuc k) = none

-- `argstr(n, pp)`
pub argstr : User → (ℕ → ℕ) → (n : ℕ) → Option (ℕ × ℕ)
argstr u mem n = elim (argint u mem n) [ none ↦ none | some addr ↦ fetchstr u mem addr ]

abbrev pub num_counts : ℕ
num_counts = 23

-- `count_array` stands at the address `base`.
abbrev pub count_at : (base i : ℕ) → ℕ
count_at base i = (base + 4 * i) % 2 ^ 32

-- the loop that clears the counters
pub clear_counts : (n i base : ℕ) → (ℕ → ℕ) → ℕ → ℕ
clear_counts zero i base mem = mem
clear_counts (suc n) i base mem = clear_counts n (i + 1) base (write_word mem (count_at base i) 0)

-- `updatecount(syscall)`, with `inits`; the index is not checked.
pub updatecount : (base : ℕ) → (ℕ → ℕ) → (inits : Bool) → (syscall : ℕ) → (ℕ → ℕ) × Bool
updatecount base mem inits syscall =
    let mem' : ℕ → ℕ = if not inits then clear_counts num_counts 0 base mem else mem in
    let a = count_at base syscall in (write_word mem' a ((read_word mem' a + 1) % 2 ^ 32), true)

-- the loop of getcount
pub copy_counts : (n i base counts : ℕ) → (ℕ → ℕ) → ℕ → ℕ
copy_counts zero i base counts mem = mem
copy_counts (suc n) i base counts mem =
    copy_counts n (i + 1) base counts
      (write_word mem (counts + 4 * i) (read_word mem (count_at base i)))

-- `getcount()`: memory afterwards, and whether 0 is returned
pub getcount : User → (base : ℕ) → (ℕ → ℕ) → (ℕ → ℕ) × ℤ
getcount u base mem = elim (argint u mem 1) [
  | none ↦ (mem, negsuc 0)
  | some size ↦ elim (argptr u mem 0 (to_int size)) [
    | none ↦ (mem, negsuc 0)
    | some counts ↦
        if ltb size num_counts || counts == 0
        then (mem, negsuc 0)
        else (copy_counts num_counts 0 base counts mem, pos 0)
  ]
]

-- The number of entries of `syscalls`; entry 0 is null.
abbrev pub num_syscalls : ℕ
num_syscalls = 24

-- The kernel as `syscall` sees it: `eax` of the trap frame, memory, `init` and `inits`, and what
-- the calls themselves work on.
pub record Trapped (W : Type 0) : Type 0 where
  pub eax : ℕ
  pub mem : ℕ → ℕ
  pub init : Bool
  pub inits : Bool
  pub world : W

-- `syscall()`, with the functions in the table as an argument.
pub syscall : {W : Type 0} → (base : ℕ) → (ℕ → Trapped W → Trapped W × ℕ) → Trapped W → Trapped W
syscall {W = W} base handler k =
    let num = k.eax in
    let counted = updatecount base k.mem k.inits num in
    let k1 : Trapped W = record k { init = true; mem = counted.0; inits = counted.1 } in
    let called = handler num k1 in
    if ltb num num_syscalls && not (num == 0)
    then record (called.0) { eax = called.1 }
    else record k1 { eax = 2 ^ 32 - 1 }

-- `ofile` holds the addresses of open files, 0 for none.
abbrev pub num_files : ℕ
num_files = 16

-- `argfd(n, pfd, pf)`: the descriptor and the file
pub argfd : User → (ℕ → ℕ) → (ofile : ℕ → ℕ) → (n : ℕ) → Option (ℕ × ℕ)
argfd u mem ofile n = elim (argint u mem n) [
  | none ↦ none
  | some fd ↦
      if is_negative (to_int fd) || leb num_files fd || ofile fd == 0
      then none
      else some (fd, ofile fd)
]

-- the loop of fdalloc
pub fd_from : (n fd f : ℕ) → (ℕ → ℕ) → (ℕ → ℕ) × Option ℕ
fd_from zero fd f ofile = (ofile, none)
fd_from (suc n) fd f ofile =
    let rest = fd_from n (fd + 1) f ofile in
    if ofile fd == 0 then (update ofile fd f, some fd) else rest

-- `fdalloc(f)`
pub fdalloc : (f : ℕ) → (ℕ → ℕ) → (ℕ → ℕ) × Option ℕ
fdalloc f ofile = fd_from num_files 0 f ofile

module _ {W : Type 0} (filedup fileclose : W → ℕ → W) where
  -- `sys_dup()`
  pub sys_dup : User → (ℕ → ℕ) → W → (ofile : ℕ → ℕ) → W × (ℕ → ℕ) × ℤ
  sys_dup u mem w ofile = elim (argfd u mem ofile 0) [
    | none ↦ (w, ofile, negsuc 0)
    | some (old, f) ↦
        let (ofile', found) = fdalloc f ofile in
        elim found [ none ↦ (w, ofile', negsuc 0) | some fd ↦ (filedup w f, ofile', pos fd) ]
  ]

  -- `sys_close()`
  pub sys_close : User → (ℕ → ℕ) → W → (ofile : ℕ → ℕ) → W × (ℕ → ℕ) × ℤ
  sys_close u mem w ofile = elim (argfd u mem ofile 0) [
    | none ↦ (w, ofile, negsuc 0)
    | some (fd, f) ↦ (fileclose w f, update ofile fd 0, pos 0)
  ]
