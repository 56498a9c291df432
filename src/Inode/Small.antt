-- ===== src/Inode/Small.antt =====
-- Small files, whose content stands in the inode itself: what writei and readi do to them.
use pa.Common.{
  ℕ, ◌+◌, ◌%◌, ◌^◌, ◌≤◌, ◌≡◌, refl, sym, ap, ◌∙◌, subst, fun_ext, true, false, ◌&&◌, ◌||◌, ltb,
  ◌==◌, if◌then◌else◌, eq_self, update, Bool-cases, inl, inr, arith, pos,
}
use pa.Syscall.{to_int}
use pa.Fs.{t_sfile, inodes_per_block, Fs, Inode, Dinode, ok, blit, inode_block, update2}
use pa.Inode.{writei, readi, grow, iupdate, to_dinode, beyond}

-- inode `ip` as it is on the disk
abbrev pub on_disk : Fs → ℕ → Dinode
on_disk s ip =
    s.dinodes (inode_block (s.icache ip).inum s.sb) ((s.icache ip).inum % inodes_per_block)

-- the inode with `n` bytes of `src` written at `off`
abbrev pub written : Inode → (ℕ → ℕ) → (off n : ℕ) → Inode
written i src off n = record i {
  addrs = blit i.addrs off src 0 n;
  size = if ltb 0 n && ltb i.size (off + n) then off + n else i.size;
}

-- A small file, with an offset up to its size and a write that stays within the 52 bytes of `addrs`.
pub record Fits (s : Fs) (ip off n : ℕ) : Type 0 where
  pub small : (s.icache ip).type ≡ t_sfile
  pub starts : off ≤ (s.icache ip).size
  pub bounded : off + n ≤ 52

-- What writei does to a small file: it changes the cached inode, and if the file grows
-- the inode on the disk.
pub record Stored (s : Fs) (ip : ℕ) (src : ℕ → ℕ) (off n : ℕ) (s' : Fs) : Type 0 where
  pub inode : s'.icache ip ≡ written (s.icache ip) src off n
  pub disk : on_disk s' ip ≡ (
      if ltb 0 n && ltb (s.icache ip).size (off + n)
      then to_dinode (written (s.icache ip) src off n) (on_disk s ip)
      else on_disk s ip)
  pub others : s' ≡ (record s { icache = s'.icache; dinodes = s'.dinodes })

-- The end of writei on a small file, whether it grows or not.
grow-Stored :
    (s : Fs) (ip : ℕ) (src : ℕ → ℕ) (off n : ℕ)
    → (s' : Fs) × (grow ip (off + n) n (record s {
      icache =
          update s.icache ip
            (record (s.icache ip) { addrs = blit (s.icache ip).addrs off src 0 n });
    })
        ≡ ok tt s')
      × Stored s ip src off n s'
unfolding grow iupdate
grow-Stored s ip src off n = elim (Bool-cases (ltb 0 n && ltb (s.icache ip).size (off + n))) [
  | inl longer ↦ (
    record s {
      icache =
          update
            (update s.icache ip
              (record (s.icache ip) { addrs = blit (s.icache ip).addrs off src 0 n }))
            ip (written (s.icache ip) src off n);
      dinodes =
          update2 s.dinodes (inode_block (s.icache ip).inum s.sb)
            ((s.icache ip).inum % inodes_per_block)
            (to_dinode (written (s.icache ip) src off n) (on_disk s ip));
    },
    rw (eq_self ip, longer),
    record {
      inode = rw (eq_self ip, longer);
      disk = rw (
        eq_self ip,
        longer,
        eq_self (inode_block (s.icache ip).inum s.sb),
        eq_self ((s.icache ip).inum % inodes_per_block),
      );
      others = refl;
    },
  )
  | inr fits ↦ (
    record s {
      icache =
          update s.icache ip
            (record (s.icache ip) { addrs = blit (s.icache ip).addrs off src 0 n });
    },
    rw (eq_self ip, fits),
    record { inode = rw (eq_self ip, fits); disk = rw (eq_self ip, fits); others = refl },
  )
]

pub writei-Stored :
    (s : Fs) (ip : ℕ) (src : ℕ → ℕ) (off n : ℕ)
    → Fits s ip off n
    → (s' : Fs) × (writei ip src off n s ≡ ok (pos n) s') × Stored s ip src off n s'
unfolding writei to_int
writei-Stored s ip src off n f =
    let regular : ((s.icache ip).type == 3) ≡ false = ground (arith, f.small) in
    let small : ((s.icache ip).type == 5) ≡ true = ground (arith, f.small) in
    let inside : (ltb (s.icache ip).size off || ltb ((off + n) % 2 ^ 32) off) ≡ false =
      ground (arith, f.starts, f.bounded) in
    let bounded : ltb 71680 ((off + n) % 2 ^ 32) ≡ false = ground (arith, f.bounded) in
    let count : ltb n (2 ^ 31) ≡ true = ground (arith, f.bounded) in
    let stays : beyond off n ≡ false = ground (arith, f.bounded) in
    let g = grow-Stored s ip src off n in
    (g.0, rw (regular, inside, bounded, small, stays, g.1, count), g.2)

-- A read inside a small file.
pub readi-small :
    (s : Fs) (ip : ℕ) (dst : ℕ → ℕ) (off n : ℕ)
    → (s.icache ip).type ≡ t_sfile
    → off + n ≤ (s.icache ip).size
    → off + n ≤ 52
    → readi ip dst off n s ≡ ok (blit dst 0 (s.icache ip).addrs off n, pos n) s
unfolding readi to_int
readi-small s ip dst off n small inside short =
    let regular : ((s.icache ip).type == 3) ≡ false = ground (arith, small) in
    let small' : ((s.icache ip).type == 5) ≡ true = ground (arith, small) in
    let from : (ltb (s.icache ip).size off || ltb ((off + n) % 2 ^ 32) off) ≡ false =
      ground arith in
    let to : ltb (s.icache ip).size ((off + n) % 2 ^ 32) ≡ false = ground arith in
    let count : ltb n (2 ^ 31) ≡ true = ground arith in
    let stays : beyond off n ≡ false = ground arith in rw (regular, from, to, small', stays, count)

-- Reading back what was just written.
blit-blit :
    (dst src addrs : ℕ → ℕ) (off n : ℕ)
    → blit dst 0 (blit addrs off src 0 n) off n ≡ blit dst 0 src 0 n
blit-blit dst src addrs off n = fun_ext (λ j. grind arith)

pub written-size :
    (i : Inode) (src : ℕ → ℕ) (off n : ℕ) → off ≤ i.size → off + n ≤ (written i src off n).size
written-size i src off n h = ground arith

-- What writei has written to a small file, readi gives back, and the state stays as it is.
pub readi-writei :
    (s : Fs) (ip : ℕ) (src dst : ℕ → ℕ) (off n : ℕ)
    → Fits s ip off n
    → (s' : Fs) × (writei ip src off n s ≡ ok (pos n) s')
      × (readi ip dst off n s' ≡ ok (blit dst 0 src 0 n, pos n) s')
readi-writei s ip src dst off n f =
    let w = writei-Stored s ip src off n f in
    let i = written (s.icache ip) src off n in
    (
      w.0,
      w.1,
      readi-small w.0 ip dst off n (ap (λ x. x.type) w.2.inode ∙ f.small)
            (subst (λ x. off + n ≤ x.size) (sym w.2.inode)
              (written-size (s.icache ip) src off n f.starts))
            f.bounded
          ∙ ap (λ a. ok (blit dst 0 a off n, pos n) w.0) (ap (λ x. x.addrs) w.2.inode)
          ∙ ap (λ a. ok (a, pos n) w.0) (blit-blit dst src (s.icache ip).addrs off n),
    )
