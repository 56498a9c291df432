-- ===== src/Pipe/Tests.antt =====
-- Runs of pipe.c on small pipes, and its theorems at concrete inputs.
use pa.Common.{ℕ, ◌-◌, ◌^◌, ◌≤◌, ◌≡◌, refl, true, false, List, [], ◌∷◌, ◌++◌, arith, length}
use pa.Pipe.{
  pipe_size, Pipe, done, failed, asleep, put, write_run, pipewrite, piperead, pipeclose, advance,
}
use pa.Pipe.Queue.{IsValid}
use pa.Pipe.Write.{Written, pipewrite-Written}
use pa.Pipe.Read.{Read, piperead-Read}
use pa.Pipe.Stream.{Stream, Reach, start, later, write_step, sent-eq-received}

abbrev fresh : Pipe
fresh = record { buf = λ i. 0; nread = 0; nwrite = 0; readopen = true; writeopen = true }

-- Both indices are about to wrap; three bytes are in it.
abbrev wrapping : Pipe
wrapping = record {
  buf = λ i. 7;
  nread = 2 ^ 32 - 2;
  nwrite = 1;
  readopen = true;
  writeopen = true;
}

-- No room at all.
abbrev stuffed : Pipe
stuffed = record { buf = λ i. 7; nread = 5; nwrite = 517; readopen = true; writeopen = true }

wrapping-IsValid : IsValid wrapping
wrapping-IsValid = omega arith

write_then_read : (piperead false (pipewrite false fresh (65 ∷ 66 ∷ [])).0 5).1 ≡ 65 ∷ 66 ∷ []
unfolding pipewrite piperead put advance
write_then_read = refl

write_blocks : (pipewrite false stuffed (65 ∷ [])).2 ≡ asleep 0
unfolding pipewrite
write_blocks = refl

write_killed : (pipewrite true stuffed (65 ∷ [])).2 ≡ failed
unfolding pipewrite
write_killed = refl

read_at_end : (piperead false (pipeclose fresh true).0 5).3 ≡ done 0
unfolding piperead pipeclose
read_at_end = refl

last_close_frees : (pipeclose (pipeclose fresh true).0 false).2 ≡ true
unfolding pipeclose
last_close_frees = refl

pipewrite-Written_example :
    Written false wrapping
      (65 ∷ 66 ∷ [])
      0
      (pipewrite false wrapping (65 ∷ 66 ∷ [])).0
      (pipewrite false wrapping (65 ∷ 66 ∷ [])).2
pipewrite-Written_example = pipewrite-Written false (65 ∷ 66 ∷ []) wrapping-IsValid

piperead-Read_example :
    Read false wrapping 2
      (piperead false wrapping 2).0
      (piperead false wrapping 2).1
      (piperead false wrapping 2).3
piperead-Read_example = piperead-Read false 2 wrapping-IsValid

abbrev after_write : Stream
after_write = record {
  pipe = (write_run false fresh (65 ∷ 66 ∷ []) 0).0;
  sent = 65 ∷ 66 ∷ [];
  received = [];
}

Reach-after_write : Reach fresh after_write
Reach-after_write = later start (write_step false (65 ∷ 66 ∷ []) 0)

sent-eq-received_example :
    (flight : List ℕ) × (after_write.sent ≡ after_write.received ++ flight)
    × (length flight ≤ pipe_size)
sent-eq-received_example = sent-eq-received refl refl Reach-after_write
