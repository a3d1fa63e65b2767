-- ===== src/Ser/Format.antt =====
-- core/src/ser.rs: the trait `ByteFormat` with its default methods, the format of `u8`, and the
-- length-prefixed vectors.
pub mod Codec
pub mod U8
pub mod PrefixVec
pub mod UntilEnd
use bitcoins_rs.Base.{
  Bytes, List, Result, [], drop, err, fail_if, length, map_err, map_ok, not, ok, panic, suc, take,
  zero, ℕ, ◌+◌, ◌==◌, ◌>>=◌, ◌>>◌, ◌∷◌,
}
use bitcoins_rs.Ser.CompactInt.{read_compact_int, write_compact_int}
use bitcoins_rs.Ser.Stream.{
  SerError, insufficient_seq_items, io_error, read_byte, read_exact, write,
}

pub data ReadSeqMode : Type 0 where
  exactly at_most : ℕ → ReadSeqMode
  until_end : ReadSeqMode

-- The trait, as the record of an implementation's methods. `from_ser` is `E: From<SerError>`.
pub record ByteFormat (E A : Type 0) : Type 0 where
  pub from_ser : SerError → E
  pub serialized_length : A → ℕ
  pub read_from : Bytes → Result E (A × Bytes)
  pub write_to : A → Bytes → ℕ × Bytes
  pub read_seq_from : ReadSeqMode → Bytes → Result E (List A × Bytes)

-- `for _ in 0..number { v.push(Self::read_from(reader)?); }`
unfoldable pub read_items :
    {E A : Type 0} → (Bytes → Result E (A × Bytes)) → ℕ → Bytes → Result E (List A × Bytes)
read_items read zero r = ok ([], r)
read_items read (suc number) r = do
  (obj, r1) ← read r
  (v, r2) ← read_items read number r1
  ok (obj ∷ v, r2)

-- `while let Ok(obj) = Self::read_from(reader) { v.push(obj); }`. Each item of a format here takes
-- a byte at least, so the input's length bounds the rounds; a loop that goes on is `panic`. What a
-- failed read leaves of a reader is not specified: here it is where the failed item began.
unfoldable pub read_until_end :
    {E A : Type 0} → (Bytes → Result E (A × Bytes)) → ℕ → Bytes → Result E (List A × Bytes)
read_until_end read zero r = panic
read_until_end read (suc fuel) r = elim (read r) [
  | ok (obj, r1) ↦ map_ok (λ p. (obj ∷ p.0, p.1)) (read_until_end read fuel r1)
  | err e ↦ ok ([], r)
  | panic ↦ panic
]

unfoldable pub default_read_seq_from :
    {E A : Type 0} (from_ser : SerError → E) (read : Bytes → Result E (A × Bytes))
    → ReadSeqMode
    → Bytes
    → Result E (List A × Bytes)
default_read_seq_from from_ser read (exactly number) r = do
  (v, r') ← read_items read number r
  fail_if (not (length v == number)) (from_ser (insufficient_seq_items number (length v)))
  ok (v, r')
default_read_seq_from from_ser read (at_most limit) r = read_items read limit r
default_read_seq_from from_ser read until_end r = read_until_end read (suc (length r)) r

-- `write_seq_to`, from `written` on.
unfoldable pub write_items : {A : Type 0} → (A → Bytes → ℕ × Bytes) → List A → ℕ → Bytes → ℕ × Bytes
write_items write_item [] written w = (written, w)
write_items write_item (item ∷ iter) written w =
    let (n, w') = write_item item w in write_items write_item iter (written + n) w'

unfoldable pub read_u8 : Bytes → Result SerError (ℕ × Bytes)
read_u8 r = do (b, r') ← map_err io_error (read_byte r); ok (b, r')

-- The method that `u8` overrides.
unfoldable pub u8_read_seq_from : ReadSeqMode → Bytes → Result SerError (List ℕ × Bytes)
u8_read_seq_from (exactly number) r = map_err io_error (read_exact number r)
u8_read_seq_from (at_most limit) r = ok (take limit r, drop limit r)
u8_read_seq_from until_end r = ok (r, [])

abbrev pub u8_format : ByteFormat SerError ℕ
u8_format = record {
  from_ser = λ e. e;
  serialized_length = λ _. 1;
  read_from = read_u8;
  write_to = λ b w. write (b ∷ []) w;
  read_seq_from = u8_read_seq_from;
}

module _ {E A : Type 0} (F : ByteFormat E A) where
  unfoldable pub read_prefix_vec : Bytes → Result E (List A × Bytes)
  read_prefix_vec r = do
    (items, r') ← map_err F.from_ser (read_compact_int r)
    F.read_seq_from (exactly items) r'

  unfoldable pub write_prefix_vec : List A → Bytes → ℕ × Bytes
  write_prefix_vec v w =
      let (n1, w1) = write_compact_int (length v) w in
      let (n2, w2) = write_items F.write_to v 0 w1 in (n1 + n2, w2)
