-- ===== src/Bio/Tests.antt =====
-- A cache of two buffers, on blocks that are numbers.
use pa.Common.{ℕ, ◌+◌, ◌≡◌, refl, true, false, [], ◌∷◌, arith}
use pa.Bio.{Key, Buf, Cache, returns, find_buf, change_buf, recycle, bget, transfer, read_in, bread}
use pa.Bio.Views.{Coherent}
use pa.Bio.Read.{Reads, Held, bread_lem}

abbrev block : ℕ → Key
block n = record { dev = 1; blockno = n }

abbrev unused_buf : ℕ → Buf ℕ
unused_buf n = record {
  key = block n;
  valid = true;
  dirty = false;
  locked = false;
  refcnt = 0;
  bytes = n + 100;
}

abbrev two_bufs : Cache ℕ
two_bufs = record { bufs = unused_buf 7 ∷ unused_buf 8 ∷ []; disk = λ k. k.blockno + 100 }

two_bufs-Coherent : Coherent two_bufs
two_bufs-Coherent = record {
  agrees = (
    (λ v d. refl, λ v. absurd (ground (arith, v))),
    ((λ v d. refl, λ v. absurd (ground (arith, v))), tt),
  );
  unique = ((refl, tt), (tt, tt));
}

-- Block 9 takes the buffer at the back, that of block 8.
abbrev read_nine : Cache ℕ
read_nine = record {
  bufs =
      unused_buf 7
      ∷ record {
        key = block 9;
        valid = true;
        dirty = false;
        locked = true;
        refcnt = 1;
        bytes = 109;
      }
      ∷ [];
  disk = two_bufs.disk;
}

reads_nine : bread two_bufs (block 9) ≡ returns read_nine
unfolding bread bget find_buf recycle read_in transfer change_buf
reads_nine = refl

bread_lem_example :
    Reads two_bufs read_nine × Held two_bufs.disk two_bufs.bufs read_nine.bufs (block 9)
bread_lem_example = bread_lem two_bufs read_nine (block 9) two_bufs-Coherent reads_nine
