-- ===== src/Pipe/Write.antt =====
-- What a run of `pipewrite` does to the queue of a pipe.
use pa.Common.{
  ℕ, suc, ◌+◌, ◌-◌, ◌≡◌, refl, sym, ◌∙◌, inl, inr, Bool, true, false, not, ◌||◌, leb, List, [], ◌∷◌,
  ◌++◌, append_assoc, append-nil, arith, if◌then◌else◌, length, take, take-nil, Bool-cases,
}
use pa.Pipe.{
  pipe_size, Pipe, Outcome, done, failed, asleep, full, put, blocked, write_run, pipewrite,
}
use pa.Pipe.Queue.{count, contents, IsValid, full_iff, put-IsValid, contents-put, count-put}

-- The free slots.
abbrev pub room : Pipe → ℕ
room p = pipe_size - count p

-- A run from byte `i` on, with the bytes `bs` left, puts as many of them into the queue as there is
-- room for. With room for all it returns the count; otherwise the pipe is full, and the run fails if
-- the process is killed or there is no reader, and sleeps at the first byte that has no room.
pub record Written (killed : Bool) (p : Pipe) (bs : List ℕ) (i : ℕ) (p' : Pipe) (o : Outcome)
    : Type 0 where
  pub valid : IsValid p'
  pub queue : contents p' ≡ contents p ++ take (room p) bs
  pub opens : (p'.readopen ≡ p.readopen) × (p'.writeopen ≡ p.writeopen)
  pub outcome : o ≡ (
      if leb (length bs) (room p)
      then done (i + length bs)
      else if not p.readopen || killed
      then failed
      else asleep (i + room p))

Written-put :
    (killed : Bool) {p : Pipe} (b : ℕ) (bs : List ℕ) (i : ℕ) {p' : Pipe} {o : Outcome}
    → IsValid p
    → full p ≡ false
    → Written killed (put p b) bs (i + 1) p' o
    → Written killed p (b ∷ bs) i p' o
unfolding put
Written-put killed {p} b bs i v free w =
    let grown : count (put p b) ≡ suc (count p) = count-put b v free in
    let less : room p ≡ suc (room (put p b)) = omega (arith, (full_iff v).1 free) in
    record {
      valid = w.valid;
      queue =
          rw (less, w.queue, contents-put b v free)
            (append_assoc (contents p) (b ∷ []) (take (room (put p b)) bs));
      opens = w.opens;
      outcome =
          w.outcome
          ∙ (let count_up : i + 1 + length bs ≡ i + suc (length bs) = omega arith in
              let place : i + 1 + room (put p b) ≡ i + suc (room (put p b)) = omega arith in
              rw (less, count_up, place) (ground arith));
    }

blocked-Written :
    (killed : Bool) {p : Pipe} (b : ℕ) (bs : List ℕ) (i : ℕ)
    → IsValid p
    → full p ≡ true
    → Written killed p (b ∷ bs) i (blocked killed p i).0 (blocked killed p i).2
unfolding blocked
blocked-Written killed {p} b bs i v stop =
    let none_left : room p ≡ 0 = omega (arith, (full_iff v).0 stop) in
    record {
      valid = ground arith;
      queue = rw none_left (ground (arith, append-nil (contents p)));
      opens = ground arith;
      outcome = rw none_left (ground arith);
    }

-- On a valid pipe a run of the write loop leaves a valid pipe and does what `Written` says.
pub write_run-Written :
    (killed : Bool) (bs : List ℕ) (i : ℕ) {p : Pipe}
    → IsValid p
    → Written killed p bs i (write_run killed p bs i).0 (write_run killed p bs i).2
unfolding write_run
write_run-Written killed [] i {p} v = record {
  valid = v;
  queue = rw take-nil (sym (append-nil (contents p)));
  opens = (refl, refl);
  outcome = ground arith;
}
write_run-Written killed (b ∷ bs) i {p} v = elim (Bool-cases (full p)) [
  | inl stop ↦ rw stop (blocked-Written killed b bs i v stop)
  | inr free ↦ rw free (
      Written-put killed b bs i v free (write_run-Written killed bs (i + 1) (put-IsValid b v free)))
]

-- `pipewrite` on a valid pipe, up to its first sleep: the bytes for which there is room are appended
-- to the queue in order, the count is returned if that was all of them, and otherwise the call
-- fails or sleeps at the first byte without room.
pub pipewrite-Written :
    (killed : Bool) (addr : List ℕ) {p : Pipe}
    → IsValid p
    → Written killed p addr 0 (pipewrite killed p addr).0 (pipewrite killed p addr).2
unfolding pipewrite
pipewrite-Written killed addr v = write_run-Written killed addr 0 v
