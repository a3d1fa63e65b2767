-- ===== src/Handshakes/Covenant.antt =====
-- handshakes/src/types/covenant.rs: a type, and items of data that are byte vectors. A covenant type
-- is its number.
pub mod Laws
use bitcoins_rs.Base.{
  Bytes, List, Result, [], err, if◌then◌else◌, leb, length, map_err, ok, suc, sum_map, zero, ℕ, ◌+◌,
  ◌>>=◌, ◌>>◌, ◌∷◌,
}
use bitcoins_rs.Ser.CompactInt.{prefix_byte_len, read_compact_int, write_compact_int}
use bitcoins_rs.Ser.Format.{write_items}
use bitcoins_rs.Ser.Stream.{SerError, read_byte, write}
use bitcoins_rs.Wrapped.{read_wrapped, wrapped_length, write_wrapped}

pub data CovenantError : Type 0 where
  unknown_covenant : CovenantError

-- The twelve arms of `TryFrom<u8>`.
unfoldable pub covenant_type_from : ℕ → Result CovenantError ℕ
covenant_type_from u = if leb u 11 then ok u else err unknown_covenant

pub record Covenant : Type 0 where
  pub covenant_type : ℕ
  pub covenant_data : List Bytes

-- `NONE`, and no data.
abbrev pub null_covenant : Covenant
null_covenant = record { covenant_type = 0; covenant_data = [] }

unfoldable pub covenant_data_length : List Bytes → ℕ
covenant_data_length items = prefix_byte_len (length items) + sum_map wrapped_length items

-- `for _ in 0..count`
unfoldable pub read_covenant_items : ℕ → Bytes → Result SerError (List Bytes × Bytes)
read_covenant_items zero r = ok ([], r)
read_covenant_items (suc count) r = do
  (item, r1) ← read_wrapped r
  (items, r2) ← read_covenant_items count r1
  ok (item ∷ items, r2)

unfoldable pub read_covenant_data : Bytes → Result SerError (List Bytes × Bytes)
read_covenant_data r = do (count, r1) ← read_compact_int r; read_covenant_items count r1

unfoldable pub write_covenant_data : List Bytes → Bytes → ℕ × Bytes
write_covenant_data items w =
    let (total, w1) = write_compact_int (length items) w in write_items write_wrapped items total w1

unfoldable pub covenant_length : Covenant → ℕ
covenant_length c = 1 + covenant_data_length c.covenant_data

unfoldable pub read_covenant : Bytes → Result SerError (Covenant × Bytes)
read_covenant r = do
  (covenant_type, r1) ← map_err SerError.io_error (read_byte r)
  (covenant_data, r2) ← read_covenant_data r1
  ok (record { covenant_type = covenant_type; covenant_data = covenant_data }, r2)

unfoldable pub write_covenant : Covenant → Bytes → ℕ × Bytes
write_covenant c w =
    let (n1, w1) = write (c.covenant_type ∷ []) w in
    let (n2, w2) = write_covenant_data c.covenant_data w1 in (n1 + n2, w2)
