-- ===== src/Pipe.antt =====
-- pipe.c
pub mod Queue
pub mod Write
pub mod Read
pub mod Stream
mod Tests
use pa.Common.{
  ℕ, zero, suc, ◌+◌, ◌-◌, ◌%◌, ◌^◌, ◌≤◌, ◌<◌, ◌≡◌, Bool, true, false, not, ◌&&◌, ◌||◌, List, [],
  ◌∷◌, ◌==◌, if◌then◌else◌, update,
}

abbrev pub pipe_size : ℕ
pipe_size = 512

-- `struct pipe` without its lock. `nread` and `nwrite` are uints, and wrap.
pub record Pipe : Type 0 where
  pub buf : ℕ → ℕ
  pub nread : ℕ
  pub nwrite : ℕ
  pub readopen : Bool
  pub writeopen : Bool

-- The channels that the functions sleep on and wake, `&p->nread` and `&p->nwrite`.
pub data Chan : Type 0 where
  nread_chan nwrite_chan : Chan

-- How a run of `pipewrite` or `piperead` ends: it returns a count, it returns -1, or it sleeps with
-- `i` bytes done, to come back to the head of its while loop.
pub data Outcome : Type 0 where
  done : ℕ → Outcome
  failed : Outcome
  asleep : ℕ → Outcome

abbrev pub full : Pipe → Bool
full p = p.nwrite == (p.nread + pipe_size) % 2 ^ 32

abbrev pub empty : Pipe → Bool
empty p = p.nread == p.nwrite

-- `p->data[p->nwrite++ % PIPESIZE] = b`
pub put : Pipe → ℕ → Pipe
put p b = record p { buf = update p.buf (p.nwrite % pipe_size) b; nwrite = (p.nwrite + 1) % 2 ^ 32 }

-- `p->nread++`, after the byte at the old index is read
pub advance : Pipe → Pipe
advance p = record p { nread = (p.nread + 1) % 2 ^ 32 }

-- the body of the while loop of `pipewrite`, at a full pipe
pub blocked : Bool → Pipe → ℕ → Pipe × List Chan × Outcome
blocked killed p i =
    if not p.readopen || killed then (p, [], failed) else (p, nread_chan ∷ [], asleep i)

-- The part of `pipewrite` between two sleeps, which the lock makes atomic. The list is
-- `addr[i .. n)`, and `killed` is `proc->killed`. It returns the channels that it wakes.
pub write_run : Bool → Pipe → List ℕ → ℕ → Pipe × List Chan × Outcome
write_run killed p [] i = (p, nread_chan ∷ [], done i)
write_run killed p (b ∷ bs) i =
    let rest = write_run killed (put p b) bs (i + 1) in if full p then blocked killed p i else rest

-- `pipewrite(p, addr, n)`, up to its first sleep
pub pipewrite : Bool → Pipe → List ℕ → Pipe × List Chan × Outcome
unfolding write_run blocked
pipewrite killed p addr = write_run killed p addr 0

-- the copy loop of `piperead`
pub copy_loop : Pipe → ℕ → Pipe × List ℕ
copy_loop p zero = (p, [])
copy_loop p (suc n) =
    let rest = copy_loop (advance p) n in
    if empty p then (p, []) else (rest.0, p.buf (p.nread % pipe_size) ∷ rest.1)

pub count_bytes : List ℕ → ℕ
count_bytes [] = 0
count_bytes (b ∷ bs) = suc (count_bytes bs)

-- the body of the while loop of `piperead`, at an empty pipe
pub starved : Bool → Pipe → Pipe × List ℕ × List Chan × Outcome
starved killed p = (p, [], [], if killed then failed else asleep 0)

-- `piperead(p, addr, n)`, up to its first sleep, with the bytes that it stores at `addr`
pub piperead : Bool → Pipe → ℕ → Pipe × List ℕ × List Chan × Outcome
unfolding copy_loop count_bytes starved
piperead killed p n =
    let (p', bytes) = copy_loop p n in
    if empty p && p.writeopen
    then starved killed p
    else (p', bytes, nwrite_chan ∷ [], done (count_bytes bytes))

-- `pipeclose(p, writable)`: the channel that it wakes, and whether it frees the page
pub pipeclose : Pipe → Bool → Pipe × List Chan × Bool
pipeclose p writable =
    let p' = if writable then record p { writeopen = false } else record p { readopen = false } in
    let woken = if writable then nread_chan else nwrite_chan in
    (p', woken ∷ [], not p'.readopen && not p'.writeopen)
