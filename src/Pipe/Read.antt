-- ===== src/Pipe/Read.antt =====
-- What `piperead` does to the queue of a pipe.
use pa.Common.{
  ℕ, zero, suc, ◌%◌, ◌≡◌, refl, ap, inl, inr, Bool, true, false, List, [], ◌∷◌, ◌++◌, arith,
  if◌then◌else◌, length, take, drop, take-append-drop, Bool-cases, ◌&&◌,
}
use pa.Pipe.{
  pipe_size, Pipe, Outcome, done, failed, asleep, empty, advance, copy_loop, count_bytes, starved,
  piperead,
}
use pa.Pipe.Queue.{count, contents, IsValid, advance-IsValid, contents-advance}

pub record Copied (p : Pipe) (n : ℕ) (p' : Pipe) (bytes : List ℕ) : Type 0 where
  pub valid : IsValid p'
  pub queue : contents p' ≡ drop n (contents p)
  pub bytes_lem : bytes ≡ take n (contents p)
  pub opens : (p'.readopen ≡ p.readopen) × (p'.writeopen ≡ p.writeopen)

Copied-advance :
    {p p' : Pipe} {bytes : List ℕ} (n : ℕ)
    → IsValid p
    → empty p ≡ false
    → Copied (advance p) n p' bytes
    → Copied p (suc n) p' (p.buf (p.nread % pipe_size) ∷ bytes)
unfolding advance
Copied-advance {p} n v more c = record {
  valid = c.valid;
  queue = rw (contents-advance v more) c.queue;
  bytes_lem = rw (contents-advance v more) (ap (λ l. p.buf (p.nread % pipe_size) ∷ l) c.bytes_lem);
  opens = c.opens;
}

contents-empty : {p : Pipe} → IsValid p → empty p ≡ true → contents p ≡ []
contents-empty {p} v e = let none_left : count p ≡ 0 = ground arith in rw none_left

-- The copy loop takes the first `n` bytes off the queue, or all if there are fewer.
pub copy_loop-Copied :
    (n : ℕ) {p : Pipe} → IsValid p → Copied p n (copy_loop p n).0 (copy_loop p n).1
unfolding copy_loop
copy_loop-Copied zero v = record { valid = v; queue = refl; bytes_lem = refl; opens = (refl, refl) }
copy_loop-Copied (suc n) {p} v = elim (Bool-cases (empty p)) [
  | inl stop ↦ rw stop (record {
    valid = v;
    queue = rw (contents-empty v stop) refl;
    bytes_lem = rw (contents-empty v stop) refl;
    opens = (refl, refl);
  })
  | inr more ↦ rw more (Copied-advance n v more (copy_loop-Copied n (advance-IsValid v more)))
]

length-count_bytes : (bs : List ℕ) → count_bytes bs ≡ length bs
unfolding count_bytes
length-count_bytes [] = refl
length-count_bytes (b ∷ bs) = ap suc (length-count_bytes bs)

abbrev pub is_empty : List ℕ → Bool
is_empty [] = true
is_empty (b ∷ bs) = false

-- Nothing is there to read, and more may come.
abbrev pub waits : Pipe → Bool
waits p = is_empty (contents p) && p.writeopen

-- What `piperead` does: with nothing there and the write end open it leaves the pipe alone, and fails or
-- sleeps; otherwise it takes the first `n` bytes off the queue and returns their number.
pub record Read (killed : Bool) (p : Pipe) (n : ℕ) (p' : Pipe) (bytes : List ℕ) (o : Outcome)
    : Type 0 where
  pub valid : IsValid p'
  pub queue : bytes ++ contents p' ≡ contents p
  pub opens : (p'.readopen ≡ p.readopen) × (p'.writeopen ≡ p.writeopen)
  pub taken : bytes ≡ (if waits p then [] else take n (contents p))
  pub unchanged : (if waits p then p' else p) ≡ p
  pub outcome : o ≡ (if waits p then (if killed then failed else asleep 0) else done (length bytes))

starved-Read :
    (killed : Bool) (n : ℕ) {p : Pipe}
    → IsValid p
    → empty p && p.writeopen ≡ true
    → Read killed p n (starved killed p).0 (starved killed p).1 (starved killed p).3
unfolding starved
starved-Read killed n {p} v wait =
    let nothing : contents p ≡ [] = contents-empty v (ground arith) in
    let open_end : p.writeopen ≡ true = ground arith in
    let w : waits p ≡ true = rw (nothing, open_end) in
    record {
      valid = v;
      queue = refl;
      opens = (refl, refl);
      taken = rw w;
      unchanged = rw w;
      outcome = rw w;
    }

not-waits : {p : Pipe} → IsValid p → (empty p && p.writeopen) ≡ false → waits p ≡ false
not-waits {p} v go = elim (Bool-cases (empty p)) [
  | inl e ↦ ground arith
  | inr more ↦ rw (contents-advance v more)
]

-- `piperead` on a valid pipe, up to its first sleep: it returns the first `n` bytes of the queue, or
-- all of them if there are fewer, unless the queue is empty and the write end open; then it
-- fails, if the process is killed, or sleeps, and the pipe is as before.
pub piperead-Read :
    (killed : Bool) (n : ℕ) {p : Pipe}
    → IsValid p
    → Read killed p n (piperead killed p n).0 (piperead killed p n).1 (piperead killed p n).3
unfolding piperead
piperead-Read killed n {p} v = elim (Bool-cases (empty p && p.writeopen)) [
  | inl wait ↦ rw wait (starved-Read killed n v wait)
  | inr go ↦
      let c = copy_loop-Copied n v in
      let w : waits p ≡ false = not-waits v go in
      rw go (record {
        valid = c.valid;
        queue = rw (c.bytes_lem, c.queue) (take-append-drop n (contents p));
        opens = c.opens;
        taken = rw w c.bytes_lem;
        unchanged = rw w;
        outcome = rw w (ap done (length-count_bytes _));
      })
]
