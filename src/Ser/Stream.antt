-- ===== src/Ser/Stream.antt =====
-- core/src/ser.rs: the error type, and the reads and writes of words. A `std::io::Read` is what
-- a slice or a `Cursor` is, the bytes not yet read; a `std::io::Write` is what a `Vec<u8>` or a
-- hasher is, the bytes written so far, so it takes a whole buffer and never fails.
pub mod Laws
use bitcoins_rs.Base.{
  Bytes, Result, [], drop, err, from_le_bytes, if◌then◌else◌, le_bytes, leb, length, map_err, ok,
  take, ℕ, ◌++◌, ◌>>=◌, ◌∷◌,
}

-- `read_exact` reports the end of the input, and nothing else fails in memory.
pub data IoError : Type 0 where
  unexpected_eof : IoError

-- The errors of the `hex` and `base64` crates are kept without their payloads. A component error
-- holds the error whose text the source formats into its `String`.
pub data SerError : Type 0 where
  non_minimal_var_int from_hex_error decode_error : SerError
  io_error : IoError → SerError
  component_error : SerError → SerError
  insufficient_seq_items : ℕ → ℕ → SerError

-- `Read::read_exact` into a buffer of `k` bytes: the buffer, and the reader behind it.
unfoldable pub read_exact : ℕ → Bytes → Result IoError (Bytes × Bytes)
read_exact k r = if leb k (length r) then ok (take k r, drop k r) else err unexpected_eof

-- `read_exact` into `[0u8; 1]`.
unfoldable pub read_byte : Bytes → Result IoError (ℕ × Bytes)
read_byte [] = err unexpected_eof
read_byte (b ∷ r) = ok (b, r)

-- `Write::write`: the count, and the writer behind it.
unfoldable pub write : Bytes → Bytes → ℕ × Bytes
write buf w = (length buf, w ++ buf)

unfoldable pub read_u32_le : Bytes → Result SerError (ℕ × Bytes)
read_u32_le r = do (buf, r') ← map_err io_error (read_exact 4 r); ok (from_le_bytes buf, r')

unfoldable pub write_u32_le : ℕ → Bytes → ℕ × Bytes
write_u32_le number w = write (le_bytes 4 number) w

unfoldable pub read_u64_le : Bytes → Result SerError (ℕ × Bytes)
read_u64_le r = do (buf, r') ← map_err io_error (read_exact 8 r); ok (from_le_bytes buf, r')

unfoldable pub write_u64_le : ℕ → Bytes → ℕ × Bytes
write_u64_le number w = write (le_bytes 8 number) w
