-- ===== src/Wrapped/Laws.antt =====
-- The format of the byte vectors of core/src/macros.rs.
use bitcoins_rs.Base.{All, Bytes, IsByte, ap, arith, length, length-append, ok, ◌++◌, ◌≡◌}
use bitcoins_rs.Ser.CompactInt.Laws.{compact_int, length-compact_int}
use bitcoins_rs.Ser.Format.Codec.{
  IsCanonical, IsCodec, IsMeasured, default-encode_all, default-only, encode_all, encode_vec,
}
use bitcoins_rs.Ser.Format.PrefixVec.{
  IsVec, encode_vec-some_byte, read_prefix_vec-encode_vec, read_prefix_vec-only,
  write_prefix_vec_bytes, write_prefix_vec_count,
}
use bitcoins_rs.Ser.Format.U8.{
  encode_all-u8, encode_u8, u8_format-IsCanonical, u8_format-IsCodec, u8_format-IsMeasured,
}
use bitcoins_rs.Wrapped.{len_prefix, read_wrapped, wrapped_format, wrapped_length, write_wrapped}

abbrev pub encode_wrapped : Bytes → Bytes
encode_wrapped = encode_vec encode_u8

abbrev pub IsScript : Bytes → Type 0
IsScript = IsVec IsByte

read_wrapped_back : (v r : Bytes) → IsScript v → read_wrapped (encode_wrapped v ++ r) ≡ ok (v, r)
unfolding read_wrapped
read_wrapped_back v r h = read_prefix_vec-encode_vec u8_format-IsCodec v r h

read_wrapped_only :
    (bs r v : Bytes)
    → All IsByte bs
    → read_wrapped bs ≡ ok (v, r)
    → (bs ≡ encode_wrapped v ++ r) × IsScript v
unfolding read_wrapped
read_wrapped_only bs r v h e = read_prefix_vec-only u8_format-IsCanonical bs r v h e

pub wrapped_format-IsCodec : IsCodec wrapped_format IsScript encode_wrapped
unfolding write_wrapped
wrapped_format-IsCodec = record {
  write_bytes = write_prefix_vec_bytes u8_format-IsCodec;
  read_back = read_wrapped_back;
  read_seq_back =
      default-encode_all (λ e. e) read_wrapped IsScript encode_wrapped read_wrapped_back;
}

pub wrapped_format-IsCanonical : IsCanonical wrapped_format IsScript encode_wrapped
wrapped_format-IsCanonical = record {
  read_only = read_wrapped_only;
  read_seq_only = default-only (λ e. e) read_wrapped IsScript encode_wrapped read_wrapped_only;
  some_byte = encode_vec-some_byte encode_u8;
}

wrapped_size : (v : Bytes) → wrapped_length v ≡ length (encode_wrapped v)
unfolding wrapped_length len_prefix encode_vec
wrapped_size v = omega (
  arith,
  length-append (compact_int (length v)) (encode_all encode_u8 v),
  length-compact_int (length v),
  ap length (encode_all-u8 v),
)

pub wrapped_format-IsMeasured : IsMeasured wrapped_format encode_wrapped
unfolding write_wrapped
wrapped_format-IsMeasured = record {
  write_count = write_prefix_vec_count u8_format-IsMeasured;
  size = wrapped_size;
}

pub write_wrapped_bytes : (v w : Bytes) → (write_wrapped v w).1 ≡ w ++ encode_wrapped v
write_wrapped_bytes v w = wrapped_format-IsCodec.write_bytes v w
