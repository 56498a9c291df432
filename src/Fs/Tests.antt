-- ===== src/Fs/Tests.antt =====
-- Runs of the block allocator on a small disk, and its theorems at concrete inputs.
use pa.Common.{ℕ, ◌≡◌, ◌≢◌, refl, true, update}
use pa.Fs.{Fs, panic, ok, stop, mark, balloc, bzero, bfree, readsb, free_bit, free_block}
use pa.Fs.Blocks.{Balloc, Bfree, used, balloc_lem, bfree_lem, bfree-balloc}
use pa.Fs.Example.{small_fs}

-- what balloc leaves
abbrev after : Fs
after = record (mark 6 true small_fs) { bytes = update small_fs.bytes 6 (λ i. 0) }

balloc_takes_first : balloc small_fs ≡ ok 6 after
unfolding balloc bzero free_block free_bit
balloc_takes_first = refl

free_block_twice : bfree 9 small_fs ≡ stop panic
unfolding bfree readsb
free_block_twice = refl

balloc_lem_example : Balloc small_fs (balloc small_fs)
balloc_lem_example = balloc_lem small_fs

bfree_lem_example : Bfree small_fs 5 (bfree 5 small_fs)
bfree_lem_example = bfree_lem small_fs 5

bfree-balloc_example :
    (s'' : Fs) × (bfree 6 after ≡ ok tt s'')
    × ((j : ℕ) → used s'' j ≡ used small_fs j)
    × ((j i : ℕ) → j ≢ 6 → s''.bytes j i ≡ small_fs.bytes j i)
bfree-balloc_example = bfree-balloc small_fs 6 after refl balloc_takes_first
