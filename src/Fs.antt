-- ===== src/Fs.antt =====
-- fs.c, up to the block allocator: the state of the file system, its actions, and balloc and bfree.
pub mod Blocks
pub mod Example
mod Tests
use pa.Common.{
  ℕ, zero, suc, ◌+◌, ◌-◌, ◌*◌, ◌/◌, ◌%◌, ◌^◌, Bool, true, false, not, ◌&&◌, ◌||◌, Option, none,
  some, ltb, leb, ◌==◌, if◌then◌else◌, update, ℤ, pos, negsuc, List,
}
use pa.Pipe.{Pipe}
use pa.Syscall.{User}

abbrev pub block_size : ℕ
block_size = 512

abbrev pub num_direct : ℕ
num_direct = 12

abbrev pub num_indirect : ℕ
num_indirect = 128

abbrev pub max_file : ℕ
max_file = num_direct + num_indirect

abbrev pub inodes_per_block : ℕ
inodes_per_block = 8

abbrev pub bits_per_block : ℕ
bits_per_block = 4096

abbrev pub num_inodes : ℕ
num_inodes = 50

abbrev pub t_dir : ℕ
t_dir = 1

abbrev pub t_file : ℕ
t_file = 2

abbrev pub t_dev : ℕ
t_dev = 3

abbrev pub t_sdir : ℕ
t_sdir = 4

abbrev pub t_sfile : ℕ
t_sfile = 5

pub record Super : Type 0 where
  pub size : ℕ
  pub nblocks : ℕ
  pub ninodes : ℕ
  pub nlog : ℕ
  pub logstart : ℕ
  pub inodestart : ℕ
  pub bmapstart : ℕ

-- `struct dinode`; `addrs` is the array by its bytes, since small files keep their content in it.
pub record Dinode : Type 0 where
  pub type : ℕ
  pub major : ℕ
  pub minor : ℕ
  pub nlink : ℕ
  pub size : ℕ
  pub addrs : ℕ → ℕ

-- `struct inode`; `valid` is the flag I_VALID and `locked` the sleep lock. `addrs` is the
-- array by its 52 bytes; what stands behind them in memory is not part of the inode.
pub record Inode : Type 0 where
  pub dev : ℕ
  pub inum : ℕ
  pub ref : ℕ
  pub locked : Bool
  pub valid : Bool
  pub type : ℕ
  pub major : ℕ
  pub minor : ℕ
  pub nlink : ℕ
  pub size : ℕ
  pub addrs : ℕ → ℕ

-- the enum in `struct file`
pub data FileType : Type 0 where
  fd_none : FileType
  fd_pipe : FileType
  fd_inode : FileType

-- `struct file`; `pipe` and `ip` name the slots of a pipe and of an inode.
pub record File : Type 0 where
  pub type : FileType
  pub ref : ℕ
  pub readable : Bool
  pub writable : Bool
  pub pipe : ℕ
  pub ip : ℕ
  pub off : ℕ

-- The file system in memory and on the disk, as bread shows it. A block of the free map is seen as
-- its bits, a block of inodes as its inodes, any other block as its bytes. `readers` and
-- `writers` are the device functions of `devsw`. `files` is `ftable`; the pipes are named by their
-- pages, and `freelist` holds the pages that kalloc hands out, in order. The last fields are the
-- running process: its descriptors, with a file's slot plus one or 0, its memory and
-- whether it is killed.
pub record Fs : Type 0 where
  pub sb : Super
  pub super : Super
  pub bits : ℕ → ℕ → Bool
  pub dinodes : ℕ → ℕ → Dinode
  pub bytes : ℕ → ℕ → ℕ
  pub icache : ℕ → Inode
  pub cwd : ℕ
  pub readers : ℕ → Option ((ℕ → ℕ) → ℕ → (ℕ → ℕ) × ℤ)
  pub writers : ℕ → Option ((ℕ → ℕ) → ℕ → ℤ)
  pub files : ℕ → File
  pub pipes : ℕ → Pipe
  pub freelist : List ℕ
  pub ofile : ℕ → ℕ
  pub user : User
  pub mem : ℕ → ℕ
  pub killed : Bool

-- How a call may not return: by a panic, or by waiting, for a sleep lock or at a pipe. `overrun` is a
-- call that goes over the end of `addrs`, into the inodes, the page list and the log that stand behind
-- it in memory: from there on the model says nothing.
pub data Stop : Type 0 where
  panic : Stop
  stuck : Stop
  overrun : Stop

pub data Result (A : Type 0) : Type 0 where
  ok : A → Fs → Result A
  stop : Stop → Result A

abbrev pub Exec : Type 0 → Type 0
Exec A = Fs → Result A

abbrev pub continue : {A B : Type 0} → Result A → (A → Exec B) → Result B
continue (ok a s) f = f a s
continue (stop e) f = stop e

infixl 10 ◌>>=◌ ◌>>◌
abbrev pub ◌>>=◌ : {A B : Type 0} → Exec A → (A → Exec B) → Exec B
◌>>=◌ m f s = continue (m s) f

abbrev pub ◌>>◌ : {A B : Type 0} → Exec A → Exec B → Exec B
◌>>◌ m n s = continue (m s) (λ _. n)

abbrev pub pure : {A : Type 0} → A → Exec A
pure a s = ok a s

abbrev pub fail : {A : Type 0} → Stop → Exec A
fail e s = stop e

abbrev pub gets : {A : Type 0} → (Fs → A) → Exec A
gets f s = ok (f s) s

abbrev pub modify : (Fs → Fs) → Exec Unit
modify f s = ok tt (f s)

-- a change of one block, in one of the views
abbrev pub update2 {ℓ} : {A : Type ℓ} → (ℕ → ℕ → A) → ℕ → ℕ → A → ℕ → ℕ → A
update2 f b i v = update f b (update (f b) i v)

-- `memmove(dst + d, src + s, n)` between two objects
abbrev pub blit : (ℕ → ℕ) → ℕ → (ℕ → ℕ) → ℕ → ℕ → ℕ → ℕ
blit dst d src s n j = if leb d j && ltb j (d + n) then src (s + (j - d)) else dst j

-- `BBLOCK(b, sb)`
abbrev pub bitmap_block : ℕ → Super → ℕ
bitmap_block b sb = b / bits_per_block + sb.bmapstart

-- `IBLOCK(i, sb)`
abbrev pub inode_block : ℕ → Super → ℕ
inode_block i sb = i / inodes_per_block + sb.inodestart

-- `readsb(dev, &sb)`
unfoldable pub readsb : Exec Unit
readsb = modify (λ s. record s { sb = s.super })

-- `bzero(dev, bno)`
unfoldable pub bzero : ℕ → Exec Unit
bzero bno = modify (λ s. record s { bytes = update s.bytes bno (λ i. 0) })

-- the inner loop of balloc, with the rounds left: the first free bit from `bi` on
unfoldable pub free_bit : ℕ → (ℕ → Bool) → (b bi size : ℕ) → Option ℕ
free_bit zero map b bi size = none
free_bit (suc n) map b bi size =
    let rest = free_bit n map b (bi + 1) size in
    if ltb (b + bi) size then (if not (map bi) then some bi else rest) else none

-- the outer loop of balloc, with a bound on its rounds: the block found
unfoldable pub free_block : ℕ → Fs → (b : ℕ) → Option ℕ
free_block zero s b = none
free_block (suc n) s b =
    let rest = free_block n s (b + bits_per_block) in
    if ltb b s.sb.size
    then elim (free_bit bits_per_block (s.bits (bitmap_block b s.sb)) b 0 s.sb.size) [
      | some bi ↦ some (b + bi)
      | none ↦ rest
    ]
    else none

-- the bit of block `b` set to `v`
abbrev pub mark : ℕ → Bool → Fs → Fs
mark b v s = record s { bits = update2 s.bits (bitmap_block b s.sb) (b % bits_per_block) v }

-- `balloc(dev)`; the rounds of the outer loop are as many as there are blocks in the free map.
unfoldable pub balloc : Exec ℕ
balloc s = elim (free_block (s.sb.size / bits_per_block + 1) s 0) [
  | none ↦ stop panic
  | some b ↦ (do modify (mark b true); bzero b; pure b) s
]

-- `bfree(dev, b)`
unfoldable pub bfree : ℕ → Exec Unit
bfree b = do
  readsb
  used ← gets (λ s. s.bits (bitmap_block b s.sb) (b % bits_per_block))
  if not used then fail panic else modify (mark b false)
