-- ===== src/Inode/Tests.antt =====
-- Runs of the inode functions on a small file system, and their theorems at concrete inputs.
use pa.Common.{
  ℕ, ◌+◌, ◌≡◌, ◌≢◌, refl, sym, ap, ◌∙◌, true, false, ◌&&◌, leb, ◌==◌, if◌then◌else◌, update,
  Bool-cases, inl, inr, arith, ℤ, pos,
}
use pa.Syscall.{to_int, read_word}
use pa.Fs.{Fs, ok, stop, overrun, blit, update2}
use pa.Fs.Blocks.{used}
use pa.Fs.Example.{small_fs, in_core, no_inode}
use pa.Inode.{iget, ilock, iupdate, writei, readi, grow, bmap, map_entry, write_blocks, to_dinode}
use pa.Inode.Small.{Fits, written, readi-writei}
use pa.Inode.Evict.{Evicted, readi-ilock-writei, readi-ilock-overwrite}
use pa.Inode.Cache.{Unique, Iget, iget_lem, holds}
use pa.Inode.Map.{block_of, content, IsFile}
use pa.Inode.Bmap.{Search, bmap-Search}
use pa.Inode.Read.{Transfer}
use pa.Inode.Mapped.{readi-writei-regular}
use pa.Inode.Whole.{IsRegular, available, Writei, readi-Transfer, writei-Wrote}

abbrev letters : ℕ → ℕ
letters i = 65 + i

abbrev nothing : ℕ → ℕ
nothing i = 0

appends : Fits small_fs 2 3 5
appends = record { small = refl; starts = omega arith; bounded = omega arith }

-- as many bytes at offset 3 as the array holds
readi-writei_example :
    (s' : Fs) × (writei 2 letters 3 49 small_fs ≡ ok (pos 49) s')
    × (readi 2 nothing 3 49 s' ≡ ok (blit nothing 0 letters 0 49, pos 49) s')
readi-writei_example =
    readi-writei small_fs 2 letters nothing 3 49
      (record { small = refl; starts = omega arith; bounded = omega arith })

-- one byte more
writes_beyond : writei 2 letters 3 50 small_fs ≡ stop overrun
unfolding writei
writes_beyond = refl

-- the small file with one byte written in its middle, and recycled after that
abbrev overwritten : Fs
overwritten = record small_fs {
  icache =
      update small_fs.icache 2
        (record (small_fs.icache 2) { addrs = blit (small_fs.icache 2).addrs 1 letters 0 1 });
}

overwrites : writei 2 letters 1 1 small_fs ≡ ok (pos 1) overwritten
unfolding writei grow to_int
overwrites = refl

abbrev recycled : Fs
recycled = record overwritten {
  icache = update overwritten.icache 2 (record (overwritten.icache 2) { valid = false });
}

recycled-Evicted : Evicted overwritten 2 recycled
recycled-Evicted = record { same_disk = refl; invalid = refl; unlocked = refl; referenced = refl }

readi-ilock-overwrite_example :
    (pos 1 ≡ pos 1)
    × (t' : Fs) × (ilock 2 recycled ≡ ok tt t')
    × (readi 2 nothing 1 1 t' ≡ ok (blit nothing 0 (small_fs.dinodes 2 2).addrs 1 1, pos 1) t')
readi-ilock-overwrite_example =
    readi-ilock-overwrite small_fs overwritten recycled 2 letters nothing 1 1 (pos 1)
      (record { small = refl; starts = omega arith; bounded = omega arith }) (omega arith) refl
      (omega arith) overwrites recycled-Evicted

-- Slot i holds inode i of device 1, or nothing.
holds-small_fs : (dev inum i : ℕ) → holds dev inum (small_fs.icache i) ≡ true → i ≡ inum
holds-small_fs dev inum i h = elim (Bool-cases (leb 1 i && leb i 3)) [
  | inl there ↦ let now : holds dev inum (in_core i) ≡ true = (rw there at h) in ground arith
  | inr gone ↦ absurd (let now : holds dev inum no_inode ≡ true = (rw gone at h) in ground arith)
]

small_fs-Unique : Unique small_fs.icache
small_fs-Unique dev inum i j li lj hi hj =
    holds-small_fs dev inum i hi ∙ sym (holds-small_fs dev inum j hj)

iget_lem_example : Iget small_fs 1 5 (iget 1 5 small_fs)
iget_lem_example = iget_lem 1 5 small_fs small_fs-Unique

-- "g" has one block, number 5.
block_of-small_fs : (bn : ℕ) → block_of small_fs 3 bn ≡ (if bn == 0 then 5 else 0)
unfolding read_word
block_of-small_fs bn = grind arith

g_zero : (bn : ℕ) → block_of small_fs 3 bn ≢ 0 → bn ≡ 0
g_zero bn h = let e = block_of-small_fs bn in ground arith

g_IsFile : IsFile small_fs 3
unfolding read_word
g_IsFile = record {
  distinct = λ x y lx ly h e. g_zero x h ∙ sym (g_zero y (λ z. h (e ∙ z)));
  apart = λ x lx h e. h e;
  marked = λ x lx h. ap (λ z. used small_fs (block_of small_fs 3 z)) (g_zero x h);
  table_marked = λ h. absurd (h refl);
  zero_marked = refl;
  small = omega arith;
}

g_IsRegular : IsRegular small_fs 3
g_IsRegular = record {
  no_device = refl;
  no_small_file = refl;
  bounded = omega arith;
  file = g_IsFile;
}

-- the second block, which is not there yet
bmap-Search_example : Search small_fs 3 2 (λ t. block_of t 3 1) (bmap 3 1 small_fs)
bmap-Search_example = bmap-Search small_fs 3 1 g_IsFile (omega arith)

readi-Transfer_example :
    Transfer {A = (ℕ → ℕ) × ℤ} small_fs 3 0
      (available small_fs 3 0 10)
      (λ r. r ≡ (
        blit nothing 0 (content small_fs 3) 0 (available small_fs 3 0 10),
        pos (available small_fs 3 0 10),
      ))
      (content small_fs 3)
      (readi 3 nothing 0 10 small_fs)
readi-Transfer_example =
    readi-Transfer small_fs 3 nothing 0 10 g_IsRegular (omega arith) (omega arith)

-- across the end of the first block
writei-Wrote_example : Writei small_fs 3 letters 2 600 (writei 3 letters 2 600 small_fs)
writei-Wrote_example = writei-Wrote small_fs 3 letters 2 600 g_IsRegular (omega arith) (omega arith)

-- both bytes of "g" written over
abbrev g_written : Fs
g_written = record small_fs {
  bytes = update small_fs.bytes 5 (blit (small_fs.bytes 5) 0 letters 0 2);
}

writes_g : writei 3 letters 0 2 small_fs ≡ ok (pos 2) g_written
unfolding writei write_blocks bmap map_entry grow to_int read_word
writes_g = refl

readi-writei-regular_example :
    (pos 2 ≡ pos 2)
    × (readi 3 nothing 0 2 g_written ≡ ok (blit nothing 0 letters 0 2, pos 2) g_written)
readi-writei-regular_example =
    readi-writei-regular small_fs g_written 3 letters nothing 0 2 (pos 2) g_IsRegular (omega arith)
      (omega arith) writes_g

-- the small file with five bytes behind its three, and recycled after that
abbrev longer : Fs
longer = record small_fs {
  icache =
      update
        (update small_fs.icache 2
          (record (small_fs.icache 2) { addrs = blit (small_fs.icache 2).addrs 3 letters 0 5 }))
        2 (written (small_fs.icache 2) letters 3 5);
  dinodes =
      update2 small_fs.dinodes 2 2
        (to_dinode (written (small_fs.icache 2) letters 3 5) (small_fs.dinodes 2 2));
}

makes_longer : writei 2 letters 3 5 small_fs ≡ ok (pos 5) longer
unfolding writei grow iupdate to_int
makes_longer = refl

abbrev longer_recycled : Fs
longer_recycled = record longer {
  icache = update longer.icache 2 (record (longer.icache 2) { valid = false });
}

longer-Evicted : Evicted longer 2 longer_recycled
longer-Evicted = record { same_disk = refl; invalid = refl; unlocked = refl; referenced = refl }

readi-ilock-writei_example :
    (pos 5 ≡ pos 5)
    × (t' : Fs) × (ilock 2 longer_recycled ≡ ok tt t')
    × (readi 2 nothing 3 5 t' ≡ ok (blit nothing 0 letters 0 5, pos 5) t')
readi-ilock-writei_example =
    readi-ilock-writei small_fs longer longer_recycled 2 letters nothing 3 5 (pos 5) appends
      (omega arith) makes_longer longer-Evicted
