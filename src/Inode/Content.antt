-- ===== src/Inode/Content.antt =====
-- fs.c: stati, readi and writei.
use pa.Common.{
  Bool, ℕ, zero, suc, ◌+◌, ◌-◌, ◌*◌, ◌/◌, ◌%◌, ◌^◌, ◌&&◌, ◌||◌, Option, none, some, ltb, ◌==◌,
  if◌then◌else◌, update, ℤ, negsuc, min,
}
use pa.Syscall.{to_int}
use pa.Fs.{
  block_size, max_file, t_dev, t_sfile, Inode, Exec, ok, ◌>>=◌, ◌>>◌, pure, gets, modify, blit,
  stop, overrun,
}
use pa.Inode.Slots.{change_inode, iupdate}
use pa.Inode.Extents.{bmap}

-- `struct stat`
pub record Stat : Type 0 where
  pub type : ℕ
  pub dev : ℕ
  pub ino : ℕ
  pub nlink : ℕ
  pub size : ℕ

-- `stati(ip, st)`
unfoldable pub stati : Inode → Stat
stati i = record { type = i.type; dev = i.dev; ino = i.inum; nlink = i.nlink; size = i.size }

-- `m` of a round of readi and writei
abbrev pub chunk : (tot off n : ℕ) → ℕ
chunk tot off n = min (n - tot) (block_size - off % block_size)

-- the loop of readi, with a bound on its rounds, from the offset `at` of `dst` on
unfoldable pub read_blocks : ℕ → (ip : ℕ) → (dst : ℕ → ℕ) → (at off tot n : ℕ) → Exec (ℕ → ℕ)
read_blocks zero ip dst at off tot n = pure dst
read_blocks (suc fuel) ip dst at off tot n =
    if ltb tot n
    then (do
      b ← bmap ip (off / block_size)
      block ← gets (λ s. s.bytes b)
      let m = chunk tot off n
      read_blocks fuel ip (blit dst at block (off % block_size) m) (at + m) (off + m) (tot + m) n)
    else pure dst

-- the device function at a major number, if it is one
abbrev pub device : {A : Type 0} → (ℕ → Option A) → ℕ → Option A
device table major = if ltb major 10 then table major else none

-- Do `n` bytes from `off` on leave the 52 bytes of `addrs`?
abbrev pub beyond : (off n : ℕ) → Bool
beyond off n = ltb 0 n && ltb 52 (off + n)

-- `readi(ip, dst, off, n)`, with what stands at `dst` afterwards. Each round moves a byte at least, so `n`
-- rounds are enough. The memmove of a small file does not ask for the 52 bytes.
unfoldable pub readi : (ip : ℕ) → (dst : ℕ → ℕ) → (off n : ℕ) → Exec ((ℕ → ℕ) × ℤ)
readi ip dst off n s =
    let i = s.icache ip in
    if i.type == t_dev
    then elim (device s.readers i.major) [ none ↦ ok (dst, negsuc 0) s | some f ↦ ok (f dst n) s ]
    else if ltb i.size off || ltb ((off + n) % 2 ^ 32) off
    then ok (dst, negsuc 0) s
    else let n' = if ltb i.size ((off + n) % 2 ^ 32) then i.size - off else n in
      if i.type == t_sfile
      then if beyond off n' then stop overrun else ok (blit dst 0 i.addrs off n', to_int n') s
      else (do dst' ← read_blocks n' ip dst 0 off 0 n'; pure (dst', to_int n')) s

-- the loop of writei, with a bound on its rounds: the offset behind
unfoldable pub write_blocks : ℕ → (ip : ℕ) → (src : ℕ → ℕ) → (at off tot n : ℕ) → Exec ℕ
write_blocks zero ip src at off tot n = pure off
write_blocks (suc fuel) ip src at off tot n =
    if ltb tot n
    then (do
      b ← bmap ip (off / block_size)
      let m = chunk tot off n
      modify (λ s. record s {
        bytes = update s.bytes b (blit (s.bytes b) (off % block_size) src at m);
      })
      write_blocks fuel ip src (at + m) (off + m) (tot + m) n)
    else pure off

-- the end of writei: the size grows to the offset behind what was written
unfoldable pub grow : (ip off n : ℕ) → Exec Unit
grow ip off n s =
    if ltb 0 n && ltb (s.icache ip).size off
    then (do change_inode ip (λ i. record i { size = off }); iupdate ip) s
    else ok tt s

-- `writei(ip, src, off, n)`. The second test of the size at its end never holds, since `grow` has
-- just made the size at least `off`. The memmove of a small file does not ask for the 52 bytes.
unfoldable pub writei : (ip : ℕ) → (src : ℕ → ℕ) → (off n : ℕ) → Exec ℤ
writei ip src off n s =
    let i = s.icache ip in
    if i.type == t_dev
    then elim (device s.writers i.major) [ none ↦ ok (negsuc 0) s | some f ↦ ok (f src n) s ]
    else if ltb i.size off || ltb ((off + n) % 2 ^ 32) off
    then ok (negsuc 0) s
    else if ltb (max_file * block_size) ((off + n) % 2 ^ 32)
    then ok (negsuc 0) s
    else if i.type == t_sfile
    then if beyond off n
      then stop overrun
      else (do
        change_inode ip (λ x. record x { addrs = blit x.addrs off src 0 n })
        grow ip (off + n) n
        pure (to_int n))
          s
    else (do off' ← write_blocks n ip src 0 off 0 n; grow ip off' n; pure (to_int n)) s
