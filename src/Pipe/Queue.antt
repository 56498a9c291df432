-- ===== src/Pipe/Queue.antt =====
-- The abstract view of pipe.c as a bounded queue of bytes: what the pipe holds is the `count` bytes from `nread` on.
use pa.Common.{
  ℕ, zero, suc, ◌+◌, ◌-◌, ◌%◌, ◌^◌, ◌≤◌, ◌<◌, ◌≡◌, refl, ap, ap₂, true, false, List, [], ◌∷◌, ◌++◌,
  arith, update, length,
}
use pa.Pipe.{pipe_size, Pipe, full, empty, put, advance}

-- the `n` bytes from index `r` on; indices wrap at 2 ^ 32 and slots at the size
abbrev pub window : (ℕ → ℕ) → ℕ → ℕ → List ℕ
window buf r zero = []
window buf r (suc n) = buf (r % pipe_size) ∷ window buf ((r + 1) % 2 ^ 32) n

abbrev pub count : Pipe → ℕ
count p = (p.nwrite + 2 ^ 32 - p.nread) % 2 ^ 32

-- The bytes in the pipe, oldest first.
abbrev pub contents : Pipe → List ℕ
contents p = window p.buf p.nread (count p)

pub record IsValid (p : Pipe) : Type 0 where
  pub nread_word : p.nread < 2 ^ 32
  pub nwrite_word : p.nwrite < 2 ^ 32
  pub bounded : count p ≤ pipe_size

pub length-window : (buf : ℕ → ℕ) (r n : ℕ) → length (window buf r n) ≡ n
length-window buf r zero = refl
length-window buf r (suc n) = ap suc (length-window buf ((r + 1) % 2 ^ 32) n)

-- A slot outside a window leaves it as it is, and the next slot extends it.
window-update :
    (buf : ℕ → ℕ) (b r n w : ℕ)
    → r < 2 ^ 32
    → n < pipe_size
    → w ≡ (r + n) % 2 ^ 32
    → window (update buf (w % pipe_size) b) r (suc n) ≡ window buf r n ++ (b ∷ [])
window-update buf b r zero w hr hn e = ground arith
window-update buf b r (suc n) w hr hn e =
    ap₂ ◌∷◌ (ground arith)
      (window-update buf b ((r + 1) % 2 ^ 32) n w (omega arith) (omega arith) (omega arith))

pub full_iff :
    {p : Pipe}
    → IsValid p
    → (full p ≡ true → count p ≡ pipe_size) × (full p ≡ false → count p < pipe_size)
full_iff v = ground arith

pub put-IsValid : {p : Pipe} (b : ℕ) → IsValid p → full p ≡ false → IsValid (put p b)
unfolding put
put-IsValid b v h = ground arith

pub count-put : {p : Pipe} (b : ℕ) → IsValid p → full p ≡ false → count (put p b) ≡ suc (count p)
unfolding put
count-put b v h = ground arith

pub contents-put :
    {p : Pipe} (b : ℕ) → IsValid p → full p ≡ false → contents (put p b) ≡ contents p ++ (b ∷ [])
unfolding put
contents-put {p} b v h =
    rw (count-put b v h)
      (window-update p.buf b p.nread (count p) p.nwrite (omega arith) (ground arith) (ground arith))

pub advance-IsValid : {p : Pipe} → IsValid p → empty p ≡ false → IsValid (advance p)
unfolding advance
advance-IsValid v h = ground arith

pub contents-advance :
    {p : Pipe}
    → IsValid p
    → empty p ≡ false
    → contents p ≡ p.buf (p.nread % pipe_size) ∷ contents (advance p)
unfolding advance
contents-advance {p} v h = let e : count p ≡ suc (count (advance p)) = ground arith in rw e

pub count-advance : {p : Pipe} → IsValid p → empty p ≡ false → count p ≡ suc (count (advance p))
unfolding advance
count-advance v h = ground arith
