-- ===== src/Bio.antt =====
-- bio.c: the buffer cache, with the transfer of a block that `iderw` of ide.c ends with.
pub mod Views
pub mod Read
mod Tests
use pa.Common.{
  ℕ, zero, suc, ◌+◌, ◌-◌, ◌%◌, ◌^◌, Bool, true, false, not, ◌&&◌, ◌||◌, Option, none, some, List,
  [], ◌∷◌, ◌==◌, if◌then◌else◌,
}

-- A block number with its device.
pub record Key : Type 0 where
  pub dev : ℕ
  pub blockno : ℕ

-- `b->dev == dev && b->blockno == blockno`
abbrev pub same_key : Key → Key → Bool
same_key a b = a.dev == b.dev && a.blockno == b.blockno

-- A buffer; `valid` and `dirty` are the flags, `locked` the sleep lock. `D` is the type of a block.
pub record Buf (D : Type 0) : Type 0 where
  pub key : Key
  pub valid : Bool
  pub dirty : Bool
  pub locked : Bool
  pub refcnt : ℕ
  pub bytes : D

-- `bufs` is the list from `head.next` on, the most recently used first; `disk` is the disk.
pub record Cache (D : Type 0) : Type 0 where
  pub bufs : List (Buf D)
  pub disk : Key → D

-- A call waits for a buffer's sleep lock, with the cache as it is meanwhile, panics, or returns.
pub data Result (D : Type 0) : Type 0 where
  waits : Cache D → Result D
  panics : Result D
  returns : Cache D → Result D

module _ {D : Type 0} where
  pub find_buf : Key → List (Buf D) → Option (Buf D)
  find_buf k [] = none
  find_buf k (b ∷ bs) = let rest = find_buf k bs in if same_key b.key k then some b else rest

  -- the change of the first buffer of a block
  pub change_buf : Key → (Buf D → Buf D) → List (Buf D) → List (Buf D)
  change_buf k f [] = []
  change_buf k f (b ∷ bs) =
      let rest = change_buf k f bs in if same_key b.key k then f b ∷ bs else b ∷ rest

  -- bget's second loop, from the back: the last unused clean buffer is taken for the block.
  pub recycle : Key → List (Buf D) → Option (List (Buf D))
  recycle k [] = none
  recycle k (b ∷ bs) = elim (recycle k bs) [
    | some bs' ↦ some (b ∷ bs')
    | none ↦
        if b.refcnt == 0 && not b.dirty
        then some
            (record b { key = k; valid = false; dirty = false; refcnt = 1; locked = true } ∷ bs)
        else none
  ]

  -- `acquiresleep(&b->lock)` for the buffer of the block, also when the caller has waited
  pub acquire_buf : Cache D → Key → Result D
  acquire_buf c k = elim (find_buf k c.bufs) [
    | none ↦ panics
    | some b ↦
        if b.locked
        then waits c
        else returns (record c { bufs = change_buf k (λ x. record x { locked = true }) c.bufs })
  ]

  -- `bget(dev, blockno)`
  pub bget : Cache D → Key → Result D
  bget c k = elim (find_buf k c.bufs) [
    | some b ↦
        acquire_buf
          (record c {
            bufs = change_buf k (λ x. record x { refcnt = (x.refcnt + 1) % 2 ^ 32 }) c.bufs;
          })
          k
    | none ↦ elim (recycle k c.bufs) [
      | none ↦ panics
      | some bufs' ↦ returns (record c { bufs = bufs' })
    ]
  ]

  -- what `iderw` has done when it returns, for the buffer of the block
  pub transfer : Key → Cache D → Cache D
  transfer k c = elim (find_buf k c.bufs) [
    | none ↦ c
    | some b ↦
        if b.dirty
        then record {
          bufs = change_buf k (λ x. record x { valid = true; dirty = false }) c.bufs;
          disk = λ j. if same_key k j then b.bytes else c.disk j;
        }
        else record c {
          bufs = change_buf k (λ x. record x { valid = true; bytes = c.disk k }) c.bufs;
        }
  ]

  -- bread from where bget has returned
  pub read_in : Cache D → Key → Result D
  read_in c k = elim (find_buf k c.bufs) [
    | none ↦ panics
    | some b ↦ if not b.valid then returns (transfer k c) else returns c
  ]

  -- `bread(dev, blockno)`
  pub bread : Cache D → Key → Result D
  bread c k = elim (bget c k) [ waits c' ↦ waits c' | panics ↦ panics | returns c' ↦ read_in c' k ]

  -- `bwrite(b)`, for the buffer of the block
  pub bwrite : Cache D → Key → Result D
  bwrite c k = elim (find_buf k c.bufs) [
    | none ↦ panics
    | some b ↦
        if not b.locked
        then panics
        else returns
            (transfer k (record c { bufs = change_buf k (λ x. record x { dirty = true }) c.bufs }))
  ]

  pub remove_buf : Key → List (Buf D) → List (Buf D)
  remove_buf k [] = []
  remove_buf k (b ∷ bs) = let rest = remove_buf k bs in if same_key b.key k then bs else b ∷ rest

  -- `brelse(b)`, for the buffer of the block
  pub brelse : Cache D → Key → Result D
  brelse c k = elim (find_buf k c.bufs) [
    | none ↦ panics
    | some b ↦
        let b' : Buf D = record b { locked = false; refcnt = (b.refcnt + 2 ^ 32 - 1) % 2 ^ 32 } in
        if not b.locked
        then panics
        else if b'.refcnt == 0
        then returns (record c { bufs = b' ∷ remove_buf k c.bufs })
        else returns (record c { bufs = change_buf k (λ x. b') c.bufs })
  ]
