-- ===== src/Ser/Chain.antt =====
-- core/src/ser.rs over `first.chain(second)` of `std::io`, two slices. `read_exact` reads on where
-- the first ends. One `read` does not: it stops at the end of the first, if there is any of it.
pub mod Laws
use bitcoins_rs.Base.{Bytes, List, Result, [], fail_if, ltb, map_err, ok, ℕ, ◌++◌, ◌>>=◌, ◌>>◌, ◌∷◌}
use bitcoins_rs.Ser.CompactInt.{
  prefix_byte_len, prefix_len_from_first_byte, read_body, read_compact_int,
}
use bitcoins_rs.Ser.Format.{ByteFormat, exactly}
use bitcoins_rs.Ser.Stream.{SerError, non_minimal_var_int}

unfoldable pub read_body_chained : ℕ → ℕ → Bytes → Bytes → ℕ × Bytes
read_body_chained prefix prefix_len [] second = read_body prefix prefix_len second
read_body_chained prefix prefix_len (b ∷ first) second =
    let (number, left) = read_body prefix prefix_len (b ∷ first) in (number, left ++ second)

-- `read_compact_int`. What it leaves is given as the bytes of both, so a second number that the end
-- of the first cuts is not covered.
unfoldable pub read_compact_int_chained : Bytes → Bytes → Result SerError (ℕ × Bytes)
read_compact_int_chained [] second = read_compact_int second
read_compact_int_chained (prefix ∷ first) second = do
  let prefix_len = prefix_len_from_first_byte prefix
  let (number, left) = read_body_chained prefix prefix_len first second
  fail_if (ltb (prefix_byte_len number) prefix_len) non_minimal_var_int
  ok (number, left)

-- `read_prefix_vec`
unfoldable pub read_prefix_vec_chained :
    {E A : Type 0} → ByteFormat E A → Bytes → Bytes → Result E (List A × Bytes)
read_prefix_vec_chained F first second = do
  (items, r) ← map_err F.from_ser (read_compact_int_chained first second)
  F.read_seq_from (exactly items) r
