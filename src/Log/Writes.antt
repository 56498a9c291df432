-- ===== src/Log/Writes.antt =====
-- Sequences of disk writes, and the disk after the first `k` of them: what a crash leaves.
use pa.Common.{
  ℕ, zero, suc, ◌-◌, ◌≡◌, refl, ◌≢◌, List, [], ◌∷◌, ◌++◌, arith, length, if◌then◌else◌, update, All,
  leb,
}
use pa.Log.Blocks.{Block}

abbrev pub Disk : Type 0
Disk = ℕ → Block

abbrev pub Writes : Type 0
Writes = List (ℕ × Block)

unfoldable pub replay : Disk → Writes → Disk
replay d [] = d
replay d ((b, v) ∷ ws) = replay (update d b v) ws

-- The disk if the machine stops after `k` of the writes.
unfoldable pub crash : Disk → ℕ → Writes → Disk
crash d zero ws = d
crash d (suc k) [] = d
crash d (suc k) ((b, v) ∷ ws) = crash (update d b v) k ws

pub replay-append : (d : Disk) (xs ys : Writes) → replay d (xs ++ ys) ≡ replay (replay d xs) ys
unfolding replay
replay-append d [] ys = refl
replay-append d ((b, v) ∷ xs) ys = replay-append (update d b v) xs ys

-- A crash in a sequence of two parts is in the first, or in the second behind the whole first.
pub crash-append :
    (d : Disk) (k : ℕ) (xs ys : Writes)
    → crash d k (xs ++ ys)
      ≡ (if leb k (length xs) then crash d k xs else crash (replay d xs) (k - length xs) ys)
unfolding replay crash
crash-append d zero [] ys = refl
crash-append d zero (x ∷ xs) ys = ground arith
crash-append d (suc k) [] ys = ground arith
crash-append d (suc k) ((b, v) ∷ xs) ys =
    let e : suc k - suc (length xs) ≡ k - length xs = omega arith in
    rw e (ground (arith, crash-append (update d b v) k xs ys))

-- No write of the sequence goes to `a`.
abbrev pub Spares : ℕ → Writes → Type 0
Spares a ws = All (λ w. a ≢ w.0) ws

pub crash-Spares : (d : Disk) (k : ℕ) (ws : Writes) (a : ℕ) → Spares a ws → crash d k ws a ≡ d a
unfolding crash
crash-Spares d zero ws a h = refl
crash-Spares d (suc k) [] a h = refl
crash-Spares d (suc k) ((b, v) ∷ ws) a h = ground (arith, crash-Spares (update d b v) k ws a)

pub replay-Spares : (d : Disk) (ws : Writes) (a : ℕ) → Spares a ws → replay d ws a ≡ d a
unfolding replay
replay-Spares d [] a h = refl
replay-Spares d ((b, v) ∷ ws) a h = ground (arith, replay-Spares (update d b v) ws a)
