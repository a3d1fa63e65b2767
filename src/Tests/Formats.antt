-- ===== src/Tests/Formats.antt =====
-- The serialization formats at the sample data.
use bitcoins_rs.Base.{
  IsU64, [], arith, from_le_bytes, length, ok, refl, sum_map, ◌*◌, ◌++◌, ◌+◌, ◌↔◌, ◌∷◌, ◌≡◌,
}
use bitcoins_rs.Bitcoins.Tx.{legacy, read_tx, witness}
use bitcoins_rs.Bitcoins.Tx.Laws.{
  IsFormed, IsShort, encode_read, encode_tx, read_tx_back, read_tx_only,
}
use bitcoins_rs.Bitcoins.Witness.{witness_length}
use bitcoins_rs.Bitcoins.Witness.Format.{encode_witness}
use bitcoins_rs.Bitcoins.Witness.Write.{witness_size}
use bitcoins_rs.Ser.CompactInt.{
  prefix_byte_len, prefix_len_from_first_byte, read_body, read_compact_int,
}
use bitcoins_rs.Ser.CompactInt.Canonical.{IsEncodedBy, read_compact_int-canonical}
use bitcoins_rs.Ser.Stream.{read_byte}
use bitcoins_rs.Tests.Samples.{
  encode_legacy-sample, encode_witness-sample, sample_legacy, sample_legacy-IsLegacy,
  sample_witness, sample_witness-IsWitness,
}

-- A flag that announces two bytes, with none of them there.
cut_number : read_compact_int (0xfd ∷ 0xff ∷ []) ≡ ok (255, [])
unfolding read_compact_int read_byte prefix_len_from_first_byte read_body from_le_bytes
    prefix_byte_len
cut_number = refl

read_compact_int-canonical_example : IsEncodedBy 255 [] (0xfd ∷ 0xff ∷ []) × IsU64 255
read_compact_int-canonical_example =
    read_compact_int-canonical (0xfd ∷ 0xff ∷ []) [] 255 (omega arith, (omega arith, tt)) cut_number

witness_size_example :
    witness_length sample_witness
      + sum_map (λ wit. prefix_byte_len (length wit)) sample_witness.witnesses
    ≡ length (encode_witness sample_witness) + 2 * prefix_byte_len 2
witness_size_example = witness_size sample_witness sample_witness-IsWitness

read_tx_back_example :
    (read_tx (encode_tx (legacy sample_legacy) ++ []) ≡ ok (legacy sample_legacy, []))
    ↔ IsShort (legacy sample_legacy)
read_tx_back_example =
    read_tx_back (legacy sample_legacy) [] (sample_legacy-IsLegacy, λ h. absurd cc)
      encode_legacy-sample

read_tx_only_example :
    (encode_tx (witness sample_witness) ++ [] ≡ encode_read (witness sample_witness) ++ [])
    × IsFormed (witness sample_witness)
read_tx_only_example =
    read_tx_only (encode_tx (witness sample_witness) ++ []) [] (witness sample_witness)
      encode_witness-sample
      ((read_tx_back (witness sample_witness) [] sample_witness-IsWitness encode_witness-sample).1
        tt)
