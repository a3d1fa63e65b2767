-- ===== src/Ser/CompactInt/Laws.antt =====
-- The format of a VarInt of core/src/ser.rs in plain arithmetic.
use bitcoins_rs.Base.{
  All, Bool-cases, Bytes, IsByte, IsU64, [], append_assoc, arith, drop-append,
  from_le_bytes-append_zeros, from_le_bytes-le_bytes, if◌then◌else◌, inl, inr, le_bytes,
  le_bytes-IsByte, leb, length, length-le_bytes, le→leb, le→ltb, ltb, lt→ltb, ok, refl, suc,
  take-append, true, width, ℕ, ◌++◌, ◌-◌, ◌<◌, ◌∷◌, ◌≡◌, ◌≤◌, ◌⊎◌,
}
use bitcoins_rs.Ser.CompactInt.{
  first_byte_from_len, prefix_byte_len, prefix_len_from_first_byte, read_body, read_compact_int,
  write_compact_int,
}
use bitcoins_rs.Ser.Stream.{read_byte, write}

-- The format: the number itself, or a flag and two, four or eight bytes.
unfoldable pub compact_int : ℕ → Bytes
compact_int n =
    if leb n 0xfc
    then n ∷ []
    else (if leb n 0xffff
        then 0xfd ∷ le_bytes 2 n
        else (if leb n 0xffff_ffff then 0xfe ∷ le_bytes 4 n else 0xff ∷ le_bytes 8 n))

pub write_compact_int_lem :
    (n : ℕ) (w : Bytes) → write_compact_int n w ≡ (prefix_byte_len n, w ++ compact_int n)
unfolding write_compact_int compact_int write le_bytes prefix_byte_len first_byte_from_len
write_compact_int_lem n w = ground (
  arith,
  append_assoc w (0xfd ∷ []) (le_bytes 2 n),
  append_assoc w (0xfe ∷ []) (le_bytes 4 n),
  append_assoc w (0xff ∷ []) (le_bytes 8 n),
)

pub length-compact_int : (n : ℕ) → length (compact_int n) ≡ prefix_byte_len n
unfolding compact_int prefix_byte_len le_bytes
length-compact_int n = ground arith

pub compact_int-IsByte : (n : ℕ) → All IsByte (compact_int n)
unfolding compact_int
compact_int-IsByte n = ground (arith, le_bytes-IsByte 2 n, le_bytes-IsByte 4 n, le_bytes-IsByte 8 n)

pub compact_int-some_byte : (n : ℕ) → 0 < length (compact_int n)
unfolding compact_int
compact_int-some_byte n = ground arith

-- A body that is all there is read as it was written.
pub read_body-append :
    (k prefix n : ℕ) (r : Bytes)
    → 1 ≤ k
    → k ≤ 8
    → n < width k
    → read_body prefix (suc k) (le_bytes k n ++ r) ≡ (n, r)
unfolding read_body
read_body-append k prefix n r h0 h8 fits =
    let long : ltb 1 (suc k) ≡ true = lt→ltb 1 (suc k) (omega arith) in
    let body : suc k - 1 ≡ k = omega arith in
    rw (
      long,
      body,
      take-append k (le_bytes k n) r (length-le_bytes k n),
      drop-append k (le_bytes k n) r (length-le_bytes k n),
      from_le_bytes-append_zeros (le_bytes k n),
      from_le_bytes-le_bytes k n fits,
    )

-- A number behind a flag, and the words that are written and read for it.
pub record IsLong (n k prefix : ℕ) : Type 0 where
  pub format : compact_int n ≡ prefix ∷ le_bytes k n
  pub flag : prefix_len_from_first_byte prefix ≡ suc k
  pub minimal : prefix_byte_len n ≡ suc k
  pub fits : n < width k
  pub some_body : 1 ≤ k
  pub one_word : k ≤ 8

pub compact_int-cases :
    (n : ℕ)
    → IsU64 n
    → ((n ≤ 0xfc) × (compact_int n ≡ n ∷ []) × (prefix_byte_len n ≡ 1))
      ⊎ ((k : ℕ) × (prefix : ℕ) × IsLong n k prefix)
unfolding compact_int prefix_byte_len prefix_len_from_first_byte
compact_int-cases n h = elim (Bool-cases (leb n 0xfc)) [
  | inl short ↦ inl (ground arith, rw short, rw short)
  | inr wide ↦ elim (Bool-cases (leb n 0xffff)) [
    | inl two ↦ inr (
      2,
      0xfd,
      record {
        format = rw (wide, two);
        flag = refl;
        minimal = rw (wide, two);
        fits = ground arith;
        some_body = omega arith;
        one_word = omega arith;
      },
    )
    | inr more ↦ elim (Bool-cases (leb n 0xffff_ffff)) [
      | inl four ↦ inr (
        4,
        0xfe,
        record {
          format = rw (wide, more, four);
          flag = refl;
          minimal = rw (wide, more, four);
          fits = ground arith;
          some_body = omega arith;
          one_word = omega arith;
        },
      )
      | inr all ↦ inr (
        8,
        0xff,
        record {
          format = rw (wide, more, all);
          flag = refl;
          minimal = rw (wide, more, all);
          fits = h;
          some_body = omega arith;
          one_word = omega arith;
        },
      )
    ]
  ]
]

read_short :
    (n : ℕ) (r : Bytes) → n ≤ 0xfc → prefix_byte_len n ≡ 1 → read_compact_int (n ∷ r) ≡ ok (n, r)
unfolding read_compact_int read_byte read_body prefix_len_from_first_byte
read_short n r h m = rw (le→leb n 0xfc h, m)

read_long :
    (n k prefix : ℕ) (r : Bytes)
    → IsLong n k prefix
    → read_compact_int (prefix ∷ (le_bytes k n ++ r)) ≡ ok (n, r)
unfolding read_compact_int read_byte
read_long n k prefix r l = rw (
  l.flag,
  read_body-append k prefix n r l.some_body l.one_word l.fits,
  l.minimal,
  le→ltb (suc k) (suc k) (omega arith),
)

-- A VarInt is read back as it was written, and what follows it is left.
pub read_compact_int-compact_int :
    (n : ℕ) (r : Bytes) → IsU64 n → read_compact_int (compact_int n ++ r) ≡ ok (n, r)
read_compact_int-compact_int n r h = elim (compact_int-cases n h) [
  | inl (short, e, m) ↦ rw e (read_short n r short m)
  | inr (k, prefix, l) ↦ rw l.format (read_long n k prefix r l)
]
