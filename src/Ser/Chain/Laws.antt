-- ===== src/Ser/Chain/Laws.antt =====
-- Numbers that are read from two slices, of which the first has two bytes left (core/src/ser.rs).
use bitcoins_rs.Base.{
  Bool-cases, Bytes, IsByte, [], ap, arith, drop, drop_all, fail_if, fail_if-eq-ok, false,
  from_le_bytes, if-true, inl, inr, leb, leb→le, leb→lt, le→leb, ltb, lt→ltb, ok, ok-pair_injective,
  refl, suc, sym, take, take_all, true, zero, ℕ, ◌-◌, ◌<◌, ◌==◌, ◌>>◌, ◌∙◌, ◌∷◌, ◌≡◌, ◌≤◌, ◌⊎◌,
}
use bitcoins_rs.Ser.Chain.{read_body_chained, read_compact_int_chained}
use bitcoins_rs.Ser.CompactInt.{
  fill_buf, prefix_byte_len, prefix_len_from_first_byte, read_body, read_compact_int,
}
use bitcoins_rs.Ser.Stream.{non_minimal_var_int, read_byte}

one_byte_len : (n : ℕ) → n ≤ 0xfc → prefix_byte_len n ≡ 1
unfolding prefix_byte_len
one_byte_len n h = if-true (leb n 0xfc) _ _ (le→leb n 0xfc h)

one_byte_flag : (c : ℕ) → c ≤ 0xfc → prefix_len_from_first_byte c ≡ 1
unfolding prefix_len_from_first_byte
one_byte_flag c h = if-true (leb c 0xfc) _ _ (le→leb c 0xfc h)

-- A number of one byte is read as it is, and as it is from one slice.
pub chained_short :
    (c d : ℕ) (second : Bytes)
    → c ≤ 0xfc
    → (read_compact_int_chained (c ∷ d ∷ []) second ≡ ok (c, d ∷ second))
      × (read_compact_int (c ∷ d ∷ second) ≡ ok (c, d ∷ second))
unfolding read_compact_int_chained read_compact_int read_body_chained read_byte read_body
chained_short c d second h =
    (rw (one_byte_flag c h, one_byte_len c h) refl, rw (one_byte_flag c h, one_byte_len c h) refl)

one_byte_body : (c d k : ℕ) → 1 ≤ k → read_body c (suc k) (d ∷ []) ≡ (d, [])
unfolding read_body from_le_bytes
one_byte_body c d zero h = absurd (omega arith)
one_byte_body c d (suc k) h =
    let body : ltb 1 (suc (suc k)) ≡ true = lt→ltb 1 (suc (suc k)) (omega arith) in
    let chunk : take (suc (suc k) - 1) (d ∷ []) ≡ d ∷ [] =
      take_all (suc (suc k) - 1) (d ∷ []) (omega arith) in
    let left : drop (suc (suc k) - 1) (d ∷ []) ≡ [] =
      drop_all (suc (suc k) - 1) (d ∷ []) (omega arith) in
    let number : from_le_bytes (fill_buf (d ∷ [])) ≡ d = omega arith in
    rw (body, chunk, left, number) refl

-- Behind a flag the one byte of the first slice is the number, and the check of minimality is left.
chained_flag :
    (c d k : ℕ) (second : Bytes)
    → prefix_len_from_first_byte c ≡ suc k
    → 1 ≤ k
    → read_compact_int_chained (c ∷ d ∷ []) second
      ≡ (fail_if (ltb (prefix_byte_len d) (suc k)) non_minimal_var_int >> ok (d, second))
unfolding read_compact_int_chained read_body_chained
chained_flag c d k second flag some_body = rw (flag, one_byte_body c d k some_body) refl

pub chained_two :
    (d : ℕ) (second : Bytes)
    → 0xfd ≤ d
    → IsByte d
    → read_compact_int_chained (0xfd ∷ d ∷ []) second ≡ ok (d, second)
unfolding prefix_byte_len prefix_len_from_first_byte
chained_two d second more h =
    let three : ltb (prefix_byte_len d) 3 ≡ false = ground arith in
    chained_flag 0xfd d 2 second refl (omega arith)
    ∙ ap (λ b. fail_if b non_minimal_var_int >> ok (d, second)) three

-- No other flag is minimal for it.
chained_long :
    (c d : ℕ)
    → 0xfc < c
    → IsByte c
    → IsByte d
    → (k : ℕ) × (prefix_len_from_first_byte c ≡ suc k)
      × (1 ≤ k)
      × (ltb (prefix_byte_len d) (suc k) ≡ false → (c ≡ 0xfd) × (0xfd ≤ d))
unfolding prefix_byte_len prefix_len_from_first_byte
chained_long c d h hc hd = elim (Bool-cases (c == 0xfd)) [
  | inl two ↦ (2, ground arith, omega arith, λ e. ground arith)
  | inr more ↦ elim (Bool-cases (c == 0xfe)) [
    | inl four ↦ (4, ground arith, omega arith, λ e. ground arith)
    | inr eight ↦ (8, ground arith, omega arith, λ e. ground arith)
  ]
]

-- The numbers that are read, and what is left.
pub read_compact_int_chained-only :
    (c d : ℕ) (second : Bytes) (n : ℕ) (r : Bytes)
    → IsByte c
    → IsByte d
    → read_compact_int_chained (c ∷ d ∷ []) second ≡ ok (n, r)
    → (c ≤ 0xfc) ⊎ ((c ≡ 0xfd) × (0xfd ≤ d) × (d ≡ n) × (second ≡ r))
read_compact_int_chained-only c d second n r hc hd e = elim (Bool-cases (leb c 0xfc)) [
  | inl short ↦ inl (leb→le c 0xfc short)
  | inr wide ↦
      let (k, flag, some_body, only) = chained_long c d (leb→lt c 0xfc wide) hc hd in
      let (minimal, made') =
        fail_if-eq-ok _ _ _ (sym (chained_flag c d k second flag some_body) ∙ e) in
      let (two, more) = only minimal in
      let (same, left) = ok-pair_injective made' in inr (two, more, same, left)
]
