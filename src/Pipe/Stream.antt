-- ===== src/Pipe/Stream.antt =====
-- A pipe between processes, as a sequence of atomic runs of pipe.c in any order: writers and readers
-- that start, sleep and come back, and ends that close.
use pa.Common.{
  ℕ, ◌≤◌, ◌≡◌, sym, ap, ◌∙◌, Bool, true, false, List, [], ◌++◌, append_assoc, arith, length, take,
}
use pa.Pipe.{pipe_size, Pipe, write_run, piperead, pipeclose}
use pa.Pipe.Queue.{count, contents, IsValid, length-window}
use pa.Pipe.Write.{room, write_run-Written}
use pa.Pipe.Read.{piperead-Read}

-- A pipe with its history: the bytes that were ever stored in it, and those ever returned.
pub record Stream : Type 0 where
  pub pipe : Pipe
  pub sent : List ℕ
  pub received : List ℕ

-- A run of `pipewrite` from any byte on, as at its start or after a sleep; a run of `piperead`; a
-- close of either end.
pub data Step (s : Stream) : Stream → Type 0 where
  write_step :
      (killed : Bool) (bs : List ℕ) (i : ℕ)
      → Step s (record {
        pipe = (write_run killed s.pipe bs i).0;
        sent = s.sent ++ take (room s.pipe) bs;
        received = s.received;
      })
  read_step :
      (killed : Bool) (n : ℕ)
      → Step s (record {
        pipe = (piperead killed s.pipe n).0;
        sent = s.sent;
        received = s.received ++ (piperead killed s.pipe n).1;
      })
  close_step : (writable : Bool) → Step s (record s { pipe = (pipeclose s.pipe writable).0 })

-- `p` is the pipe as `pipealloc` makes it: both indices zero, and any bytes in the page.
pub data Reach (p : Pipe) : Stream → Type 0 where
  start : Reach p (record { pipe = p; sent = []; received = [] })
  later : {s t : Stream} → Reach p s → Step s t → Reach p t

pub record Inv (s : Stream) : Type 0 where
  pub valid : IsValid s.pipe
  pub kept : s.sent ≡ s.received ++ contents s.pipe

Step-Inv : {s t : Stream} → Step s t → Inv s → Inv t
unfolding pipeclose
Step-Inv {s} (write_step killed bs i) v =
    let w = write_run-Written killed bs i v.valid in
    record {
      valid = w.valid;
      kept =
          rw (w.queue, v.kept) (append_assoc s.received (contents s.pipe) (take (room s.pipe) bs));
    }
Step-Inv {s} (read_step killed n) v =
    let r = piperead-Read killed n v.valid in
    record {
      valid = r.valid;
      kept =
          v.kept
          ∙ (ap (λ l. s.received ++ l) (sym r.queue)
              ∙ sym (append_assoc s.received (piperead killed s.pipe n).1 _));
    }
Step-Inv (close_step true) v = record { valid = ground arith; kept = v.kept }
Step-Inv (close_step false) v = record { valid = ground arith; kept = v.kept }

Reach-Inv : {p : Pipe} {s : Stream} → p.nread ≡ 0 → p.nwrite ≡ 0 → Reach p s → Inv s
Reach-Inv {p} r w start =
    let none_yet : count p ≡ 0 = omega arith in record { valid = omega arith; kept = rw none_yet }
Reach-Inv r w (later h st) = Step-Inv st (Reach-Inv r w h)

-- In every state that a fresh pipe can reach, the bytes returned to the readers, followed by at most
-- 512 bytes still in the pipe, are the bytes that the writers stored, in order.
pub sent-eq-received :
    {p : Pipe} {s : Stream}
    → p.nread ≡ 0
    → p.nwrite ≡ 0
    → Reach p s
    → (flight : List ℕ) × (s.sent ≡ s.received ++ flight) × (length flight ≤ pipe_size)
sent-eq-received {s} r w h =
    let inv = Reach-Inv r w h in
    (
      contents s.pipe,
      inv.kept,
      omega (arith, length-window s.pipe.buf s.pipe.nread (count s.pipe), inv.valid.bounded),
    )
