-- ===== src/Inode/Extents.antt =====
-- fs.c: the block map of an inode, itrunc, and iput.
use pa.Common.{ℕ, zero, suc, ◌+◌, ◌-◌, ◌*◌, ◌%◌, ◌^◌, false, ◌&&◌, ltb, ◌==◌, if◌then◌else◌, update}
use pa.Syscall.{read_word, write_word}
use pa.Fs.{
  num_direct, num_indirect, Fs, panic, Exec, ok, ◌>>=◌, ◌>>◌, pure, fail, gets, modify, balloc,
  bfree,
}
use pa.Inode.Slots.{change_inode, iupdate, iunlock}

-- entry `n` of `ip->addrs`, and the change of it
abbrev pub addr_at : (ip n : ℕ) → Fs → ℕ
addr_at ip n s = read_word (s.icache ip).addrs (4 * n)

abbrev pub set_addr : (ip n addr : ℕ) → Exec Unit
set_addr ip n addr = change_inode ip (λ i. record i { addrs = write_word i.addrs (4 * n) addr })

-- the block at entry `n`, allocated if there is none
unfoldable pub map_entry : (ip n : ℕ) → Exec ℕ
map_entry ip n s =
    let addr = addr_at ip n s in
    if addr == 0 then (do b ← balloc; set_addr ip n b; pure b) s else ok addr s

-- `bmap(ip, bn)`
unfoldable pub bmap : (ip bn : ℕ) → Exec ℕ
bmap ip bn =
    if ltb bn num_direct
    then map_entry ip bn
    else if ltb (bn - num_direct) num_indirect
    then (do
      table ← map_entry ip num_direct
      addr ← gets (λ s. read_word (s.bytes table) (4 * (bn - num_direct)))
      (if addr == 0
          then (do
            b ← balloc
            modify (λ s. record s {
              bytes = update s.bytes table (write_word (s.bytes table) (4 * (bn - num_direct)) b);
            })
            pure b)
          else pure addr))
    else fail panic

-- the loops of itrunc, with the rounds left
unfoldable pub free_direct : ℕ → (ip i : ℕ) → Exec Unit
free_direct zero ip i = pure tt
free_direct (suc n) ip i = do
  addr ← gets (addr_at ip i)
  if addr == 0 then pure tt else (do bfree addr; set_addr ip i 0)
  free_direct n ip (i + 1)

unfoldable pub free_indirect : ℕ → (table j : ℕ) → Exec Unit
free_indirect zero table j = pure tt
free_indirect (suc n) table j = do
  addr ← gets (λ s. read_word (s.bytes table) (4 * j))
  if addr == 0 then pure tt else bfree addr
  free_indirect n table (j + 1)

-- `itrunc(ip)`
unfoldable pub itrunc : ℕ → Exec Unit
itrunc ip = do
  free_direct num_direct ip 0
  table ← gets (addr_at ip num_direct)
  (if table == 0
      then pure tt
      else (do free_indirect num_indirect table 0; bfree table; set_addr ip num_direct 0))
  change_inode ip (λ i. record i { size = 0 })
  iupdate ip

-- `iput(ip)`
unfoldable pub iput : ℕ → Exec Unit
iput ip = do
  i ← gets (λ s. s.icache ip)
  (if i.ref == 1 && i.valid && i.nlink == 0
      then (do
        itrunc ip
        change_inode ip (λ x. record x { type = 0 })
        iupdate ip
        change_inode ip (λ x. record x { valid = false }))
      else pure tt)
  change_inode ip (λ x. record x { ref = (x.ref + 2 ^ 32 - 1) % 2 ^ 32 })

-- `iunlockput(ip)`
unfoldable pub iunlockput : ℕ → Exec Unit
iunlockput ip = do iunlock ip; iput ip
