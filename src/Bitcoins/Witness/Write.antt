-- ===== src/Bitcoins/Witness/Write.antt =====
-- Writing witness transactions (bitcoins/src/types/witness.rs), and their length.
use bitcoins_rs.Base.{
  All, Bytes, List, [], append_assoc, arith, le_bytes, length, length-append, length-le_bytes,
  sum_map, ℕ, ◌*◌, ◌++◌, ◌+◌, ◌∙◌, ◌∷◌, ◌≡◌,
}
use bitcoins_rs.Bitcoins.Legacy.Format.{sum_map-encode_vec}
use bitcoins_rs.Bitcoins.TxIn.{input_format, input_length}
use bitcoins_rs.Bitcoins.TxIn.Laws.{IsInput, encode_input, input_format-IsCodec, input_size}
use bitcoins_rs.Bitcoins.TxOut.{output_format, output_length}
use bitcoins_rs.Bitcoins.TxOut.Laws.{
  IsOutput, encode_output, output_format-IsCodec, output_format-IsMeasured,
}
use bitcoins_rs.Bitcoins.Witness.{WitnessStack, WitnessTx, witness_length, write_witness}
use bitcoins_rs.Bitcoins.Witness.Format.{IsWitness, encode_stack, encode_witness}
use bitcoins_rs.Ser.CompactInt.{prefix_byte_len}
use bitcoins_rs.Ser.Format.{write_items, write_prefix_vec}
use bitcoins_rs.Ser.Format.Codec.{encode_all, encode_vec, write_items_lem}
use bitcoins_rs.Ser.Format.PrefixVec.{write_prefix_vec_bytes}
use bitcoins_rs.Ser.Stream.{write, write_u32_le}
use bitcoins_rs.Ser.Stream.Laws.{write_u32_le_lem}
use bitcoins_rs.Wrapped.{wrapped_format, wrapped_length}
use bitcoins_rs.Wrapped.Laws.{encode_wrapped, wrapped_format-IsCodec, wrapped_format-IsMeasured}

stack-write :
    (v : WitnessStack) (w : Bytes) → (write_prefix_vec wrapped_format v w).1 ≡ w ++ encode_stack v
stack-write v w = write_prefix_vec_bytes wrapped_format-IsCodec v w

-- Writing appends the encoding to what was written before.
pub witness_write : (tx : WitnessTx) (w : Bytes) → (write_witness tx w).1 ≡ w ++ encode_witness tx
unfolding write_witness write
witness_write tx w =
    let l = tx.legacy_tx in
    let v = le_bytes 4 l.version in
    let f : Bytes = 0 ∷ 1 ∷ [] in
    let i = encode_vec encode_input l.vin in
    let o = encode_vec encode_output l.vout in
    let s = encode_all encode_stack tx.witnesses in
    rw
      (
        write_u32_le_lem l.locktime
            (write_items (write_prefix_vec wrapped_format) tx.witnesses 0
              (write_prefix_vec output_format l.vout
                (write_prefix_vec input_format l.vin ((write_u32_le l.version w).1 ++ f)).1).1).1,
        write_items_lem encode_stack (write_prefix_vec wrapped_format) stack-write tx.witnesses 0
            (write_prefix_vec output_format l.vout
              (write_prefix_vec input_format l.vin ((write_u32_le l.version w).1 ++ f)).1).1,
        write_prefix_vec_bytes output_format-IsCodec l.vout
            (write_prefix_vec input_format l.vin ((write_u32_le l.version w).1 ++ f)).1,
        write_prefix_vec_bytes input_format-IsCodec l.vin ((write_u32_le l.version w).1 ++ f),
        write_u32_le_lem l.version w,
      )
      (append_assoc ((((w ++ v) ++ f) ++ i) ++ o) s _
        ∙ append_assoc (((w ++ v) ++ f) ++ i) o _
        ∙ append_assoc ((w ++ v) ++ f) i _
        ∙ append_assoc (w ++ v) f _
        ∙ append_assoc w v _)

pub length-encode_witness :
    (tx : WitnessTx)
    → length (encode_witness tx)
      ≡ 10
        + length (encode_vec encode_input tx.legacy_tx.vin)
        + length (encode_vec encode_output tx.legacy_tx.vout)
        + length (encode_all encode_stack tx.witnesses)
length-encode_witness tx =
    let l = tx.legacy_tx in
    let i = encode_vec encode_input l.vin in
    let o = encode_vec encode_output l.vout in
    let s = encode_all encode_stack tx.witnesses in
    let lock = le_bytes 4 l.locktime in
    omega (
      arith,
      length-append (le_bytes 4 l.version) ((0 ∷ 1 ∷ []) ++ (i ++ (o ++ (s ++ lock)))),
      length-append i (o ++ (s ++ lock)),
      length-append o (s ++ lock),
      length-append s lock,
      length-le_bytes 4 l.version,
      length-le_bytes 4 l.locktime,
    )

-- Each witness is counted with the prefix of the number of witnesses, not with its own.
stacks_size :
    (n : ℕ) (ws : List WitnessStack)
    → sum_map (λ wit. prefix_byte_len n + sum_map wrapped_length wit) ws
        + sum_map (λ wit. prefix_byte_len (length wit)) ws
      ≡ length (encode_all encode_stack ws) + length ws * prefix_byte_len n
unfolding encode_all
stacks_size n [] = omega arith
stacks_size n (v ∷ ws) = omega (
  arith,
  stacks_size n ws,
  length-append (encode_stack v) (encode_all encode_stack ws),
  sum_map-encode_vec wrapped_length encode_wrapped (λ _. Unit {0})
      (λ a _. wrapped_format-IsMeasured.size a) v (all_units v),
)
  where
    all_units : (xs : List Bytes) → All (λ _. Unit {0}) xs
    all_units [] = tt
    all_units (x ∷ xs) = (tt, all_units xs)

-- `serialized_length` is off by the prefixes: it counts the prefix of the number of witnesses once
-- for each witness, where the bytes written have the prefix of each witness's own length.
pub witness_size :
    (tx : WitnessTx)
    → IsWitness tx
    → witness_length tx + sum_map (λ wit. prefix_byte_len (length wit)) tx.witnesses
      ≡ length (encode_witness tx) + length tx.witnesses * prefix_byte_len (length tx.witnesses)
unfolding witness_length
witness_size tx h = omega (
  arith,
  length-encode_witness tx,
  stacks_size (length tx.witnesses) tx.witnesses,
  sum_map-encode_vec input_length encode_input IsInput input_size tx.legacy_tx.vin
      h.legacy_ok.vin_ok.1,
  sum_map-encode_vec output_length encode_output IsOutput (λ o _. output_format-IsMeasured.size o)
      tx.legacy_tx.vout h.legacy_ok.vout_ok.1,
)
