-- ===== src/Syscall/Words.antt =====
-- Words in a memory of bytes.
use pa.Common.{ℕ, ◌+◌, ◌^◌, ◌≤◌, ◌<◌, ◌≡◌, refl, ◌⊎◌, inl, inr, arith}
use pa.Syscall.{read_word, write_word}

-- A word that was written is read back, cut to 32 bits.
pub read_word-write_word :
    (mem : ℕ → ℕ) (a w : ℕ) → w < 2 ^ 32 → read_word (write_word mem a w) a ≡ w
unfolding read_word write_word
read_word-write_word mem a w h = ground arith

-- A byte outside the word stays.
pub write_word-byte :
    (mem : ℕ → ℕ) (a w b : ℕ) → (b < a) ⊎ (a + 4 ≤ b) → write_word mem a w b ≡ mem b
unfolding write_word
write_word-byte mem a w b (inl h) = ground arith
write_word-byte mem a w b (inr h) = ground arith

-- A word that does not meet the written one stays.
pub read_word-write_ne :
    (mem : ℕ → ℕ) (a w b : ℕ)
    → (b + 4 ≤ a) ⊎ (a + 4 ≤ b)
    → read_word (write_word mem a w) b ≡ read_word mem b
unfolding read_word
read_word-write_ne mem a w b (inl h) =
    rw
      (
        write_word-byte mem a w b (inl (omega arith)),
        write_word-byte mem a w (b + 1) (inl (omega arith)),
        write_word-byte mem a w (b + 2) (inl (omega arith)),
        write_word-byte mem a w (b + 3) (inl (omega arith)),
      )
      refl
read_word-write_ne mem a w b (inr h) =
    rw
      (
        write_word-byte mem a w b (inr (omega arith)),
        write_word-byte mem a w (b + 1) (inr (omega arith)),
        write_word-byte mem a w (b + 2) (inr (omega arith)),
        write_word-byte mem a w (b + 3) (inr (omega arith)),
      )
      refl
