-- ===== src/Log/Blocks.antt =====
-- The blocks of one device as log.c sees them: what `bread` returns of each, and what is on the disk.
use pa.Common.{ℕ, List, [], ◌∷◌, ◌++◌, update}

-- A block of 512 bytes, as its 128 words.
abbrev pub Block : Type 0
Block = ℕ → ℕ

-- `cache b` is the data of the buffer that `bread` returns for block `b`. `trace` keeps the disk
-- writes in their order; the code has no such list.
pub record Store : Type 0 where
  pub cache : ℕ → Block
  pub disk : ℕ → Block
  pub trace : List (ℕ × Block)

abbrev pub bread : Store → ℕ → Block
bread st b = st.cache b

-- A change of the data of a locked buffer.
abbrev pub modify : Store → ℕ → Block → Store
modify st b v = record st { cache = update st.cache b v }

abbrev pub bwrite : Store → ℕ → Store
bwrite st b = record st {
  disk = update st.disk b (st.cache b);
  trace = st.trace ++ ((b, st.cache b) ∷ []);
}
