-- ===== src/Inode/Slots.antt =====
-- fs.c: the cache of inodes in use, and the allocation of inodes.
use pa.Common.{
  ℕ, zero, suc, ◌+◌, ◌%◌, ◌^◌, Bool, true, false, not, ◌&&◌, ◌||◌, Option, none, some, ltb, ◌==◌,
  if◌then◌else◌, update,
}
use pa.Fs.{
  inodes_per_block, num_inodes, Dinode, Inode, Fs, panic, stuck, Exec, stop, ◌>>◌, pure, modify,
  update2, blit, inode_block, readsb,
}

-- `iinit(dev)`, but for the locks and the message
unfoldable pub iinit : Exec Unit
iinit = readsb

-- a signed comparison of an int or a short with 0
abbrev pub positive : (half n : ℕ) → Bool
positive half n = ltb 0 n && ltb n half

abbrev pub change_inode : ℕ → (Inode → Inode) → Exec Unit
change_inode ip f = modify (λ s. record s { icache = update s.icache ip (f (s.icache ip)) })

-- the scan of iget over the cache, with the rounds left; `empty` is the slot remembered
pub data Slot : Type 0 where
  cached : ℕ → Slot
  missing : Option ℕ → Slot

unfoldable pub find_slot : ℕ → (i dev inum : ℕ) → Option ℕ → (ℕ → Inode) → Slot
find_slot zero i dev inum empty c = missing empty
find_slot (suc n) i dev inum empty c =
    let taken = find_slot n (i + 1) dev inum empty c in
    let first = find_slot n (i + 1) dev inum (some i) c in
    if positive (2 ^ 31) (c i).ref && (c i).dev == dev && (c i).inum == inum
    then cached i
    else elim empty [ some e ↦ taken | none ↦ if (c i).ref == 0 then first else taken ]

-- `iget(dev, inum)`
unfoldable pub iget : ℕ → ℕ → Exec ℕ
iget dev inum s = elim (find_slot num_inodes 0 dev inum none s.icache) [
  | cached i ↦ (do change_inode i (λ ip. record ip { ref = (ip.ref + 1) % 2 ^ 32 }); pure i) s
  | missing none ↦ stop panic
  | missing (some i) ↦
      (do
        change_inode i (λ ip. record ip { dev = dev; inum = inum; ref = 1; valid = false })
        pure i)
        s
]

-- the search of ialloc, with the rounds left
unfoldable pub free_inode : ℕ → Fs → (inum : ℕ) → Option ℕ
free_inode zero s inum = none
free_inode (suc n) s inum =
    let rest = free_inode n s (inum + 1) in
    if ltb inum s.sb.ninodes
    then (if (s.dinodes (inode_block inum s.sb) (inum % inodes_per_block)).type == 0
        then some inum
        else rest)
    else none

abbrev pub set_dinode : ℕ → Dinode → Exec Unit
set_dinode inum d = modify (λ s. record s {
  dinodes = update2 s.dinodes (inode_block inum s.sb) (inum % inodes_per_block) d;
})

-- a dinode of zeros, but for its type
abbrev pub fresh_dinode : ℕ → Dinode
fresh_dinode type = record {
  type = type;
  major = 0;
  minor = 0;
  nlink = 0;
  size = 0;
  addrs = λ i. 0;
}

-- `ialloc(dev, type)`
unfoldable pub ialloc : (dev type : ℕ) → Exec ℕ
ialloc dev type s = elim (free_inode s.sb.ninodes s 1) [
  | none ↦ stop panic
  | some inum ↦ (do set_dinode inum (fresh_dinode type); iget dev inum) s
]

-- what iupdate writes
abbrev pub to_dinode : Inode → Dinode → Dinode
to_dinode ip old = record {
  type = ip.type;
  major = ip.major;
  minor = ip.minor;
  nlink = ip.nlink;
  size = ip.size;
  addrs = blit old.addrs 0 ip.addrs 0 52;
}

-- `iupdate(ip)`
unfoldable pub iupdate : ℕ → Exec Unit
iupdate ip s =
    let i = s.icache ip in
    set_dinode i.inum
      (to_dinode i (s.dinodes (inode_block i.inum s.sb) (i.inum % inodes_per_block))) s

-- `idup(ip)`
unfoldable pub idup : ℕ → Exec ℕ
idup ip = do change_inode ip (λ i. record i { ref = (i.ref + 1) % 2 ^ 32 }); pure ip

-- what ilock reads
abbrev pub from_dinode : Dinode → Inode → Inode
from_dinode d i = record i {
  type = d.type;
  major = d.major;
  minor = d.minor;
  nlink = d.nlink;
  size = d.size;
  addrs = blit i.addrs 0 d.addrs 0 52;
  valid = true;
}

-- `ilock(ip)`, of a pointer that is not null
unfoldable pub ilock : ℕ → Exec Unit
ilock ip s =
    let i = s.icache ip in
    let d = s.dinodes (inode_block i.inum s.sb) (i.inum % inodes_per_block) in
    if not (positive (2 ^ 31) i.ref)
    then stop panic
    else if i.locked
    then stop stuck
    else if i.valid
    then change_inode ip (λ x. record x { locked = true }) s
    else if d.type == 0
    then stop panic
    else change_inode ip (λ x. record (from_dinode d x) { locked = true }) s

-- `iunlock(ip)`
unfoldable pub iunlock : ℕ → Exec Unit
iunlock ip s =
    let i = s.icache ip in
    if not i.locked || not (positive (2 ^ 31) i.ref)
    then stop panic
    else change_inode ip (λ x. record x { locked = false }) s
