-- ===== src/Wrapped.antt =====
-- core/src/macros.rs, `wrap_prefixed_byte_vector!`: a vector of bytes behind its length, which is
-- the format of Script, ScriptSig, ScriptPubkey and WitnessStackItem. The newtype is the vector.
pub mod Laws
use bitcoins_rs.Base.{Bytes, Result, length, ℕ, ◌+◌}
use bitcoins_rs.Ser.CompactInt.{prefix_byte_len}
use bitcoins_rs.Ser.Format.{
  ByteFormat, default_read_seq_from, read_prefix_vec, u8_format, write_prefix_vec,
}
use bitcoins_rs.Ser.Stream.{SerError}

unfoldable pub len_prefix : Bytes → ℕ
len_prefix v = prefix_byte_len (length v)

unfoldable pub wrapped_length : Bytes → ℕ
wrapped_length v = length v + len_prefix v

unfoldable pub read_wrapped : Bytes → Result SerError (Bytes × Bytes)
read_wrapped r = read_prefix_vec u8_format r

unfoldable pub write_wrapped : Bytes → Bytes → ℕ × Bytes
write_wrapped v w = write_prefix_vec u8_format v w

abbrev pub wrapped_format : ByteFormat SerError Bytes
wrapped_format = record {
  from_ser = λ e. e;
  serialized_length = wrapped_length;
  read_from = read_wrapped;
  write_to = write_wrapped;
  read_seq_from = default_read_seq_from (λ e. e) read_wrapped;
}
