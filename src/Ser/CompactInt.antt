-- ===== src/Ser/CompactInt.antt =====
-- core/src/ser.rs: the Bitcoin-style VarInt.
pub mod Laws
pub mod Canonical
use bitcoins_rs.Base.{
  Bytes, Option, Result, [], drop, fail_if, from_le_bytes, if◌then◌else◌, le_bytes, leb, length,
  ltb, map_err, none, ok, replicate, some, take, ℕ, ◌%◌, ◌++◌, ◌+◌, ◌-◌, ◌==◌, ◌>>=◌, ◌>>◌, ◌∷◌,
}
use bitcoins_rs.Ser.Stream.{SerError, io_error, non_minimal_var_int, read_byte, write}

unfoldable pub prefix_byte_len : ℕ → ℕ
prefix_byte_len number =
    if leb number 0xfc
    then 1
    else (if leb number 0xffff then 3 else (if leb number 0xffff_ffff then 5 else 9))

unfoldable pub first_byte_from_len : ℕ → Option ℕ
first_byte_from_len number =
    if number == 3
    then some 0xfd
    else (if number == 5 then some 0xfe else (if number == 9 then some 0xff else none))

unfoldable pub prefix_len_from_first_byte : ℕ → ℕ
prefix_len_from_first_byte number =
    if leb number 0xfc then 1 else (if number == 0xfd then 3 else (if number == 0xfe then 5 else 9))

unfoldable pub write_compact_int : ℕ → Bytes → ℕ × Bytes
write_compact_int number w =
    let prefix_len = prefix_byte_len number in
    elim (first_byte_from_len prefix_len) [
      | none ↦ write ((number % 256) ∷ []) w
      | some prefix ↦
          let (n1, w1) = write (prefix ∷ []) w in
          let (n2, w2) = write (take (prefix_len - 1) (le_bytes 8 number)) w1 in (n1 + n2, w2)
    ]

-- `body.read(&mut buf)` on `[0u8; 8]`: what there was to read, over the zeros.
abbrev pub fill_buf : Bytes → Bytes
fill_buf chunk = chunk ++ replicate (8 - length chunk) 0

-- The number behind a prefix byte. One `read` of a slice takes what is there, at most
-- `prefix_len - 1` bytes, and reports no error when that is less.
unfoldable pub read_body : ℕ → ℕ → Bytes → ℕ × Bytes
read_body prefix prefix_len r =
    if ltb 1 prefix_len
    then (from_le_bytes (fill_buf (take (prefix_len - 1) r)), drop (prefix_len - 1) r)
    else (prefix, r)

unfoldable pub read_compact_int : Bytes → Result SerError (ℕ × Bytes)
read_compact_int reader = do
  (prefix, r) ← map_err io_error (read_byte reader)
  let prefix_len = prefix_len_from_first_byte prefix
  let (number, r') = read_body prefix prefix_len r
  fail_if (ltb (prefix_byte_len number) prefix_len) non_minimal_var_int
  ok (number, r')
