-- ===== src/Inode/Place.antt =====
-- One more block for a file: what the change of an address does to its block map.
use pa.Common.{
  ℕ, ◌-◌, ◌*◌, ◌^◌, ◌≤◌, ◌<◌, ◌≡◌, ◌≢◌, refl, sym, ap, fun_ext, ◌∙◌, true, false, ◌&&◌, ltb, ◌==◌,
  if◌then◌else◌, eq_self, ==_iff, update, Bool, Bool-cases, inl, inr, arith,
}
use pa.Syscall.{read_word, write_word}
use pa.Fs.{num_direct, Fs}
use pa.Fs.Blocks.{used, Allocated}
use pa.Inode.Map.{
  lookup, addrs_of, table_of, block_of, IsFile, Placed, read-write_same, read-write_apart,
  read_zeros,
}

abbrev pub with_addr : (ip n b : ℕ) → Fs → Fs
with_addr ip n b s = record s {
  icache =
      update s.icache ip
        (record (s.icache ip) { addrs = write_word (s.icache ip).addrs (4 * n) b });
}

-- A block that balloc returns is not block 0 and does not belong to the file.
pub fresh-nonzero : {s : Fs} {ip b : ℕ} {s' : Fs} → IsFile s ip → Allocated s b s' → b ≢ 0
fresh-nonzero {s} f a e = cc (a.was_free, f.zero_marked, ap (used s) e)

fresh-table : {s : Fs} {ip b : ℕ} {s' : Fs} → IsFile s ip → Allocated s b s' → table_of s ip ≢ b
fresh-table {s} {ip} f a e = elim (Bool-cases (table_of s ip == 0)) [
  | inl z ↦ fresh-nonzero f a (sym e ∙ (==_iff (table_of s ip) 0).0 z)
  | inr q ↦ cc (a.was_free, f.table_marked (ground arith), ap (used s) e)
]

pub addrs-with_addr :
    (ip n b : ℕ) (s : Fs) (m : ℕ)
    → b < 2 ^ 32
    → addrs_of (with_addr ip n b s) ip m ≡ (if m == n then b else addrs_of s ip m)
addrs-with_addr ip n b s m small = elim (Bool-cases (m == n)) [
  | inl e ↦
      rw (eq_self ip, e)
        (ap (λ x. read_word (write_word (s.icache ip).addrs (4 * n) b) (4 * x)) ((==_iff m n).0 e)
          ∙ read-write_same (s.icache ip).addrs (4 * n) b small)
  | inr ne ↦ rw (eq_self ip, ne) (read-write_apart (s.icache ip).addrs n m b (ground arith))
]

-- The block map with one more entry at `n`.
lookup-new :
    (a a' : ℕ → ℕ) (bytes bytes' : ℕ → ℕ → ℕ) (b n bn : ℕ)
    → n ≤ num_direct
    → a n ≡ 0
    → b ≢ 0
    → ((m : ℕ) → a' m ≡ (if m == n then b else a m))
    → ((i : ℕ) → bytes' b i ≡ 0)
    → bytes' (a num_direct) ≡ bytes (a num_direct)
    → lookup a' bytes' bn ≡ (if ltb n num_direct && bn == n then b else lookup a bytes bn)
lookup-new a a' bytes bytes' b n bn le vacant nz new zeros keeps =
    elim (Bool-cases (ltb bn num_direct)) [
      | inl direct ↦ rw (direct, new bn) (ground arith)
      | inr far ↦
          let out : (ltb n num_direct && bn == n) ≡ false = ground arith in
          elim (Bool-cases (num_direct == n)) [
            | inl here ↦
                let table : a' num_direct ≡ b = new num_direct ∙ rw here refl in
                let gone : (a num_direct == 0) ≡ true = ground (arith, vacant) in
                let some_block : (b == 0) ≡ false = ground arith in
                let empty : bytes' b ≡ (λ i. 0) = fun_ext zeros in
                rw (far, out, table, gone, some_block, empty) (read_zeros (4 * (bn - num_direct)))
            | inr there ↦
                let table : a' num_direct ≡ a num_direct = new num_direct ∙ rw there refl in
                rw (far, out, table, keeps) refl
          ]
    ]

lookup-vacant :
    (a : ℕ → ℕ) (bytes : ℕ → ℕ → ℕ) (n bn : ℕ)
    → a n ≡ 0
    → (ltb n num_direct && bn == n) ≡ true
    → lookup a bytes bn ≡ 0
lookup-vacant a bytes n bn vacant e =
    let direct : ltb bn num_direct ≡ true = ground arith in
    let same : bn ≡ n = ground arith in rw direct (ap a same ∙ vacant)

pub Placed-addr :
    (s : Fs) (ip n b : ℕ) (bits : ℕ → ℕ → Bool) (bytes : ℕ → ℕ → ℕ)
    → IsFile s ip
    → n ≤ num_direct
    → addrs_of s ip n ≡ 0
    → Allocated s b (record s { bits = bits; bytes = bytes })
    → Placed s ip
        (λ bn. ltb n num_direct && bn == n)
        b
        (with_addr ip n b (record s { bits = bits; bytes = bytes }))
Placed-addr s ip n b bits bytes f le vacant a = record {
  below = a.below;
  fresh = a.was_free;
  used_lem = a.used_lem;
  zeroed = zeroed;
  bytes_lem = λ x nb nt. keeps x nb;
  blocks = λ bn.
      lookup-new (addrs_of s ip) (addrs_of t ip) s.bytes bytes b n bn le vacant (fresh-nonzero f a)
        new zeroed (keeps (table_of s ip) (fresh-table f a));
  vacant = λ bn e. lookup-vacant (addrs_of s ip) s.bytes n bn vacant e;
  single = λ bn bm e u. ground arith;
  table = elim (Bool-cases (num_direct == n)) [
    | inl here ↦ inr (
      ap (addrs_of s ip) ((==_iff num_direct n).0 here) ∙ vacant,
      new num_direct ∙ rw here refl,
      λ bn. ground arith,
    )
    | inr there ↦ inl (new num_direct ∙ rw there refl)
  ];
  super = refl;
}
  where
    t : Fs
    t = with_addr ip n b (record s { bits = bits; bytes = bytes })

    small : b < 2 ^ 32
    small = omega (arith, a.below, f.small)

    new : (m : ℕ) → addrs_of t ip m ≡ (if m == n then b else addrs_of s ip m)
    new m = addrs-with_addr ip n b (record s { bits = bits; bytes = bytes }) m small

    zeroed : (i : ℕ) → bytes b i ≡ 0
    zeroed i = a.bytes_lem b i ∙ rw (eq_self b) refl

    keeps : (x : ℕ) → x ≢ b → bytes x ≡ s.bytes x
    keeps x ne = fun_ext (λ i. a.bytes_lem x i ∙ ground arith)

abbrev pub with_entry : (table j b : ℕ) → Fs → Fs
with_entry table j b s = record s {
  bytes = update s.bytes table (write_word (s.bytes table) (4 * j) b);
}

-- The block map with one more entry in the block of addresses.
lookup-entry :
    (a : ℕ → ℕ) (bytes : ℕ → ℕ → ℕ) (b bn x : ℕ)
    → a num_direct ≢ 0
    → ltb bn num_direct ≡ false
    → b < 2 ^ 32
    → lookup a
        (update bytes (a num_direct) (write_word (bytes (a num_direct)) (4 * (bn - num_direct)) b))
        x
      ≡ (if x == bn then b else lookup a bytes x)
lookup-entry a bytes b bn x nz far small = elim (Bool-cases (ltb x num_direct)) [
  | inl direct ↦ let no : (x == bn) ≡ false = ground arith in rw (direct, no) refl
  | inr indirect ↦
      let some_block : (a num_direct == 0) ≡ false = ground arith in
      elim (Bool-cases (x == bn)) [
        | inl e ↦
            rw (indirect, some_block, e, eq_self (a num_direct))
              (ap
                  (λ y.
                    read_word (write_word (bytes (a num_direct)) (4 * (bn - num_direct)) b)
                      (4 * (y - num_direct)))
                  ((==_iff x bn).0 e)
                ∙ read-write_same (bytes (a num_direct)) (4 * (bn - num_direct)) b small)
        | inr ne ↦
            rw (indirect, some_block, ne, eq_self (a num_direct))
              (read-write_apart (bytes (a num_direct)) (bn - num_direct) (x - num_direct) b
                (ground arith))
      ]
]

pub Placed-entry :
    (s : Fs) (ip bn b : ℕ) (bits : ℕ → ℕ → Bool) (bytes : ℕ → ℕ → ℕ)
    → IsFile s ip
    → table_of s ip ≢ 0
    → ltb bn num_direct ≡ false
    → block_of s ip bn ≡ 0
    → Allocated s b (record s { bits = bits; bytes = bytes })
    → Placed s ip
        (λ x. x == bn)
        b
        (with_entry (table_of s ip) (bn - num_direct) b (record s { bits = bits; bytes = bytes }))
Placed-entry s ip bn b bits bytes f nz far vacant a = record {
  below = a.below;
  fresh = a.was_free;
  used_lem = a.used_lem;
  zeroed = λ i. rw (not_table) (a.bytes_lem b i ∙ rw (eq_self b) refl);
  bytes_lem = λ x nb nt. ground (arith, keeps x nb);
  blocks = λ x. lookup-entry (addrs_of s ip) bytes b bn x nz far small ∙ old x;
  vacant = λ x e. ap (block_of s ip) ((==_iff x bn).0 e) ∙ vacant;
  single = λ x y e u. ground arith;
  table = inl refl;
  super = refl;
}
  where
    small : b < 2 ^ 32
    small = omega (arith, a.below, f.small)

    keeps : (x : ℕ) → x ≢ b → bytes x ≡ s.bytes x
    keeps x ne = fun_ext (λ i. a.bytes_lem x i ∙ ground arith)

    not_table : (b == table_of s ip) ≡ false
    not_table = let ne = fresh-table f a in ground arith

    old :
        (x : ℕ)
        → (if x == bn then b else lookup (addrs_of s ip) bytes x)
          ≡ (if x == bn then b else block_of s ip x)
    old x = rw (keeps (table_of s ip) (fresh-table f a)) refl
