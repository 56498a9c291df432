-- ===== src/Inode/Map.antt =====
-- The block map of a file that is not small: the blocks that bmap names, and the content that they make up.
use pa.Common.{
  ℕ, ◌-◌, ◌*◌, ◌/◌, ◌%◌, ◌^◌, ◌≤◌, ◌<◌, ◌≡◌, ◌≢◌, ◌⊎◌, refl, sym, ap, ◌∙◌, true, false, ltb, ◌==◌,
  if◌then◌else◌, eq_self, ==_iff, Bool, Bool-cases, inl, inr, arith,
}
use pa.Syscall.{read_word, write_word}
use pa.Fs.{block_size, num_direct, max_file, Fs}
use pa.Fs.Blocks.{used}

-- Block `bn` of a file with the addresses `a`; 0 if there is none.
abbrev pub lookup : (a : ℕ → ℕ) → (bytes : ℕ → ℕ → ℕ) → ℕ → ℕ
lookup a bytes bn =
    if ltb bn num_direct
    then a bn
    else if a num_direct == 0
    then 0
    else read_word (bytes (a num_direct)) (4 * (bn - num_direct))

abbrev pub addrs_of : Fs → ℕ → ℕ → ℕ
addrs_of s ip n = read_word (s.icache ip).addrs (4 * n)

abbrev pub table_of : Fs → ℕ → ℕ
table_of s ip = addrs_of s ip num_direct

abbrev pub block_of : Fs → ℕ → ℕ → ℕ
block_of s ip = lookup (addrs_of s ip) s.bytes

-- a byte of a block; a block that is not there reads as zeros
abbrev pub byte_at : (ℕ → ℕ → ℕ) → (block o : ℕ) → ℕ
byte_at bytes block o = if block == 0 then 0 else bytes block o

-- byte `k` of the file
abbrev pub content : Fs → ℕ → ℕ → ℕ
content s ip k = byte_at s.bytes (block_of s ip (k / block_size)) (k % block_size)

-- The blocks of the file are marked in the free map and all different, and so is the block that
-- holds the rest of the addresses; block 0 is marked.
pub record IsFile (s : Fs) (ip : ℕ) : Type 0 where
  pub distinct :
      (bn bm : ℕ)
      → bn < max_file
      → bm < max_file
      → block_of s ip bn ≢ 0
      → block_of s ip bn ≡ block_of s ip bm
      → bn ≡ bm
  pub apart : (bn : ℕ) → bn < max_file → block_of s ip bn ≢ 0 → block_of s ip bn ≢ table_of s ip
  pub marked : (bn : ℕ) → bn < max_file → block_of s ip bn ≢ 0 → used s (block_of s ip bn) ≡ true
  pub table_marked : table_of s ip ≢ 0 → used s (table_of s ip) ≡ true
  pub zero_marked : used s 0 ≡ true
  pub small : s.sb.size ≤ 2 ^ 32

-- Being in order depends on the blocks, the free map and the size of the disk only.
pub IsFile-same :
    {s s' : Fs} {ip : ℕ}
    → ((x : ℕ) → block_of s' ip x ≡ block_of s ip x)
    → table_of s' ip ≡ table_of s ip
    → ((x : ℕ) → used s' x ≡ used s x)
    → s'.sb.size ≡ s.sb.size
    → IsFile s ip
    → IsFile s' ip
IsFile-same {s} {s'} {ip} b t u z f = record {
  distinct = λ x y lx ly q e. f.distinct x y lx ly (λ w. q (b x ∙ w)) (sym (b x) ∙ e ∙ b y);
  apart = λ x lx q e. f.apart x lx (λ w. q (b x ∙ w)) (sym (b x) ∙ e ∙ t);
  marked = λ x lx q. u (block_of s' ip x) ∙ ap (used s) (b x) ∙ f.marked x lx (λ w. q (b x ∙ w));
  table_marked = λ q. u (table_of s' ip) ∙ ap (used s) t ∙ f.table_marked (λ w. q (t ∙ w));
  zero_marked = u 0 ∙ f.zero_marked;
  small = omega (arith, z, f.small);
}

pub read-write_same : (mem : ℕ → ℕ) (a w : ℕ) → w < 2 ^ 32 → read_word (write_word mem a w) a ≡ w
unfolding read_word write_word
read-write_same mem a w h = grind arith

pub read-write_apart :
    (mem : ℕ → ℕ) (i j w : ℕ)
    → i ≢ j
    → read_word (write_word mem (4 * i) w) (4 * j) ≡ read_word mem (4 * j)
unfolding read_word write_word
read-write_apart mem i j w h = grind arith

pub read_zeros : (a : ℕ) → read_word (λ i. 0) a ≡ 0
unfolding read_word
read_zeros a = refl

-- A block that belongs to something else.
pub record Outside (s : Fs) (ip x : ℕ) : Type 0 where
  pub used_lem : used s x ≡ true
  pub no_block : (bn : ℕ) → bn < max_file → block_of s ip bn ≢ x
  pub no_table : table_of s ip ≢ x

-- The file has got the free block `b`, full of zeros: as the block at `target`, or for the rest of its
-- addresses.
pub record Placed (s : Fs) (ip : ℕ) (target : ℕ → Bool) (b : ℕ) (s' : Fs) : Type 0 where
  pub below : b < s.sb.size
  pub fresh : used s b ≡ false
  pub used_lem : (x : ℕ) → used s' x ≡ (if x == b then true else used s x)
  pub zeroed : (i : ℕ) → s'.bytes b i ≡ 0
  pub bytes_lem : (x : ℕ) → x ≢ b → x ≢ table_of s ip → s'.bytes x ≡ s.bytes x
  pub blocks : (bn : ℕ) → block_of s' ip bn ≡ (if target bn then b else block_of s ip bn)
  pub vacant : (bn : ℕ) → target bn ≡ true → block_of s ip bn ≡ 0
  pub single : (bn bm : ℕ) → target bn ≡ true → target bm ≡ true → bn ≡ bm
  pub table :
      (table_of s' ip ≡ table_of s ip)
      ⊎ ((table_of s ip ≡ 0) × (table_of s' ip ≡ b) × ((bn : ℕ) → target bn ≡ false))
  pub super : s'.sb ≡ s.sb

module _ {s : Fs} {ip : ℕ} {target : ℕ → Bool} {b : ℕ} {s' : Fs} (f : IsFile s ip)
    (p : Placed s ip target b s') where
  pub other_block : (bn : ℕ) → bn < max_file → block_of s ip bn ≢ b
  other_block bn lt e = elim (Bool-cases (block_of s ip bn == 0)) [
    | inl z ↦ cc (p.fresh, f.zero_marked, ap (used s) (sym e ∙ (==_iff (block_of s ip bn) 0).0 z))
    | inr q ↦ cc (p.fresh, f.marked bn lt (ground arith), ap (used s) e)
  ]

  pub other_table : table_of s ip ≢ b
  other_table e = elim (Bool-cases (table_of s ip == 0)) [
    | inl z ↦ cc (p.fresh, f.zero_marked, ap (used s) (sym e ∙ (==_iff (table_of s ip) 0).0 z))
    | inr q ↦ cc (p.fresh, f.table_marked (ground arith), ap (used s) e)
  ]

  still_used : (x : ℕ) → used s x ≡ true → used s' x ≡ true
  still_used x u = p.used_lem x ∙ rw u (ground arith)

  now_used : used s' b ≡ true
  now_used = p.used_lem b ∙ rw (eq_self b) refl

  pub content-Placed : (k : ℕ) → k < max_file * block_size → content s' ip k ≡ content s ip k
  content-Placed k lt = elim (Bool-cases (target (k / block_size))) [
    | inl t ↦
        ap (λ x. byte_at s'.bytes x (k % block_size)) (p.blocks (k / block_size) ∙ rw t refl)
        ∙ placed
        ∙ sym (ap (λ x. byte_at s.bytes x (k % block_size)) (p.vacant (k / block_size) t))
    | inr t ↦
        ap (λ x. byte_at s'.bytes x (k % block_size)) (p.blocks (k / block_size) ∙ rw t refl)
        ∙ same_byte (block_of s ip (k / block_size)) (other_block (k / block_size) (omega arith))
            (λ q. f.apart (k / block_size) (omega arith) q)
  ]
    where
      placed : byte_at s'.bytes b (k % block_size) ≡ 0
      placed = ground (arith, p.zeroed (k % block_size))

      same_byte :
          (x : ℕ)
          → x ≢ b
          → (x ≢ 0 → x ≢ table_of s ip)
          → byte_at s'.bytes x (k % block_size) ≡ byte_at s.bytes x (k % block_size)
      same_byte x nb nt = elim (Bool-cases (x == 0)) [
        | inl z ↦ rw z refl
        | inr q ↦ rw q (ap (λ g. g (k % block_size)) (p.bytes_lem x nb (nt (ground arith))))
      ]

  -- A block of the file is the new one or was a block of it before.
  pub block_cases :
      (bn : ℕ)
      → ((target bn ≡ true) × (block_of s' ip bn ≡ b))
        ⊎ ((target bn ≡ false) × (block_of s' ip bn ≡ block_of s ip bn))
  block_cases bn = elim (Bool-cases (target bn)) [
    | inl t ↦ inl (t, p.blocks bn ∙ rw t refl)
    | inr t ↦ inr (t, p.blocks bn ∙ rw t refl)
  ]

  pub IsFile-Placed : IsFile s' ip
  IsFile-Placed = record {
    distinct = λ bn bm ln lm q e. elim (block_cases bn) [
      | inl x ↦ elim (block_cases bm) [
        | inl y ↦ p.single bn bm x.0 y.0
        | inr y ↦ absurd (other_block bm lm (sym y.1 ∙ sym e ∙ x.1))
      ]
      | inr x ↦ elim (block_cases bm) [
        | inl y ↦ absurd (other_block bn ln (sym x.1 ∙ e ∙ y.1))
        | inr y ↦ f.distinct bn bm ln lm (λ z. q (x.1 ∙ z)) (sym x.1 ∙ e ∙ y.1)
      ]
    ];
    apart = λ bn lt q e. elim p.table [
      | inl t ↦ elim (block_cases bn) [
        | inl x ↦ other_table (sym t ∙ sym e ∙ x.1)
        | inr x ↦ f.apart bn lt (λ z. q (x.1 ∙ z)) (sym x.1 ∙ e ∙ t)
      ]
      | inr t ↦ elim (block_cases bn) [
        | inl x ↦ cc (x.0, t.2 bn)
        | inr x ↦ other_block bn lt (sym x.1 ∙ e ∙ t.1)
      ]
    ];
    marked = λ bn lt q. elim (block_cases bn) [
      | inl x ↦ ap (used s') x.1 ∙ now_used
      | inr x ↦ ap (used s') x.1 ∙ still_used (block_of s ip bn) (f.marked bn lt (λ z. q (x.1 ∙ z)))
    ];
    table_marked = λ q. elim p.table [
      | inl t ↦ ap (used s') t ∙ still_used (table_of s ip) (f.table_marked (λ z. q (t ∙ z)))
      | inr t ↦ ap (used s') t.1 ∙ now_used
    ];
    zero_marked = still_used 0 f.zero_marked;
    small = rw (p.super) f.small;
  }

  pub Outside-Placed : (x : ℕ) → Outside s ip x → Outside s' ip x
  Outside-Placed x o = record {
    used_lem = still_used x o.used_lem;
    no_block = λ bn lt e. elim (block_cases bn) [
      | inl y ↦ cc (p.fresh, o.used_lem, ap (used s) (sym y.1 ∙ e))
      | inr y ↦ o.no_block bn lt (sym y.1 ∙ e)
    ];
    no_table = λ e. elim p.table [
      | inl t ↦ o.no_table (sym t ∙ e)
      | inr t ↦ cc (p.fresh, o.used_lem, ap (used s) (sym t.1 ∙ e))
    ];
  }
