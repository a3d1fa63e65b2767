-- ===== src/Bitcoins/Witness.antt =====
-- bitcoins/src/types/witness.rs: witness transactions and their BIP143 sighash.
pub mod Format
pub mod Write
pub mod Preimage
pub mod Commitment
pub mod Bip143
pub mod Outcomes
use bitcoins_rs.Base.{
  Bytes, List, Result, [], bytes_eq, fail_if, get_elem?, if◌then◌else◌, leb, length, map, map_err,
  not, ok, resize, sum_map, unwrap, ℕ, ◌&&◌, ◌+◌, ◌==◌, ◌>>=◌, ◌>>◌, ◌||◌, ◌∷◌,
}
use bitcoins_rs.Bitcoins.Legacy.{
  LegacySighashArgs, LegacyTx, new_legacy, write_legacy, write_legacy_preimage,
}
use bitcoins_rs.Bitcoins.Sighash.{
  Sighash, TxError, all_acp, bad_witness_flag, is_acp, is_none_mode, is_single, is_single_mode,
  none_unsupported, ser_error, sighash_single_bug, single, single_acp, to_u8,
}
use bitcoins_rs.Bitcoins.TxIn.{TxInput, input_format, input_length, write_outpoint}
use bitcoins_rs.Bitcoins.TxOut.{TxOut, output_format, output_length, write_output}
use bitcoins_rs.Hashes.{HashFunctions, hash256, null_digest}
use bitcoins_rs.Ser.CompactInt.{prefix_byte_len}
use bitcoins_rs.Ser.Format.{
  ByteFormat, default_read_seq_from, read_items, read_prefix_vec, write_items, write_prefix_vec,
}
use bitcoins_rs.Ser.Stream.{read_exact, read_u32_le, write, write_u32_le, write_u64_le}
use bitcoins_rs.Wrapped.{wrapped_format, wrapped_length, write_wrapped}

pub record WitnessSighashArgs : Type 0 where
  pub index : ℕ
  pub sighash_flag : Sighash
  pub prevout_script : Bytes
  pub prevout_value : ℕ

-- A `Witness` is the stack of its items.
abbrev pub WitnessStack : Type 0
WitnessStack = List Bytes

pub record WitnessTx : Type 0 where
  pub legacy_tx : LegacyTx
  pub witnesses : List WitnessStack

-- `From<&WitnessSighashArgs> for LegacySighashArgs`
abbrev pub legacy_args : WitnessSighashArgs → LegacySighashArgs
legacy_args s = record {
  index = s.index;
  sighash_flag = s.sighash_flag;
  prevout_script = s.prevout_script;
}

unfoldable pub from_legacy : LegacyTx → WitnessTx
from_legacy tx = record { legacy_tx = tx; witnesses = map (λ _. []) tx.vin }

-- `WitnessTransaction::new`
unfoldable pub new_witness :
    ℕ → List TxInput → List TxOut → List WitnessStack → ℕ → Result TxError WitnessTx
new_witness version vins vouts witnesses locktime = do
  let wits =
      if length witnesses == length vins then witnesses else resize (length vins) [] witnesses
  legacy_tx ← new_legacy version vins vouts locktime
  ok (record { legacy_tx = legacy_tx; witnesses = wits })

-- `Transaction::new` of a witness transaction: all witnesses are empty.
unfoldable pub new_witness_unsigned : ℕ → List TxInput → List TxOut → ℕ → Result TxError WitnessTx
new_witness_unsigned version vin vout locktime = do
  let witnesses : List WitnessStack = map (λ _. []) vin
  legacy_tx ← new_legacy version vin vout locktime
  ok (record { legacy_tx = legacy_tx; witnesses = witnesses })

-- `write_legacy_sighash_preimage`
unfoldable pub write_witness_legacy_preimage :
    WitnessTx → Bytes → LegacySighashArgs → Result TxError Bytes
write_witness_legacy_preimage tx w args = write_legacy_preimage tx.legacy_tx w args

unfoldable pub read_stack : Bytes → Result TxError (WitnessStack × Bytes)
read_stack r = map_err ser_error (read_prefix_vec wrapped_format r)

unfoldable pub read_witness : Bytes → Result TxError (WitnessTx × Bytes)
read_witness r = do
  (version, r1) ← map_err ser_error (read_u32_le r)
  (flag, r2) ← map_err TxError.io_error (read_exact 2 r1)
  fail_if (not (bytes_eq flag (0 ∷ 1 ∷ []))) (bad_witness_flag flag)
  (vin, r3) ← map_err ser_error (read_prefix_vec input_format r2)
  (vout, r4) ← map_err ser_error (read_prefix_vec output_format r3)
  (witnesses, r5) ← read_items read_stack (length vin) r4
  (locktime, r6) ← map_err ser_error (read_u32_le r5)
  let legacy_tx : LegacyTx = record {
    version = version;
    vin = vin;
    vout = vout;
    locktime = locktime;
  }
  ok (record { legacy_tx = legacy_tx; witnesses = witnesses }, r6)

unfoldable pub write_witness : WitnessTx → Bytes → ℕ × Bytes
write_witness tx w =
    let (len, w1) = write_u32_le tx.legacy_tx.version w in
    let (n1, w2) = write (0 ∷ 1 ∷ []) w1 in
    let (n2, w3) = write_prefix_vec input_format tx.legacy_tx.vin w2 in
    let (n3, w4) = write_prefix_vec output_format tx.legacy_tx.vout w3 in
    let (n4, w5) = write_items (write_prefix_vec wrapped_format) tx.witnesses 0 w4 in
    let (n5, w6) = write_u32_le tx.legacy_tx.locktime w5 in (len + n1 + n2 + n3 + n4 + n5, w6)

-- The prefix that is counted for each witness is that of the number of witnesses, as in the source.
unfoldable pub witness_length : WitnessTx → ℕ
witness_length tx =
    4
    + 2
    + prefix_byte_len (length tx.legacy_tx.vin)
    + sum_map input_length tx.legacy_tx.vin
    + prefix_byte_len (length tx.legacy_tx.vout)
    + sum_map output_length tx.legacy_tx.vout
    + sum_map (λ wit. prefix_byte_len (length tx.witnesses) + sum_map wrapped_length wit)
        tx.witnesses
    + 4

abbrev pub witness_format : ByteFormat TxError WitnessTx
witness_format = record {
  from_ser = ser_error;
  serialized_length = witness_length;
  read_from = read_witness;
  write_to = write_witness;
  read_seq_from = default_read_seq_from ser_error read_witness;
}

module _ (H : HashFunctions) where
  -- `txid` leaves the witnesses out, and `wtxid` does not.
  unfoldable pub legacy_txid : LegacyTx → Bytes
  legacy_txid tx = hash256 H (write_legacy tx []).1

  unfoldable pub witness_txid : WitnessTx → Bytes
  witness_txid tx = legacy_txid tx.legacy_tx

  unfoldable pub wtxid : WitnessTx → Bytes
  wtxid tx = hash256 H (write_witness tx []).1

  unfoldable pub hash_prevouts : WitnessTx → Sighash → Bytes
  hash_prevouts tx flag =
      if is_acp flag
      then null_digest 32
      else hash256 H (write_items (λ i. write_outpoint i.outpoint) tx.legacy_tx.vin 0 []).1

  unfoldable pub hash_sequence : WitnessTx → Sighash → Bytes
  hash_sequence tx flag =
      if is_single flag || is_acp flag
      then null_digest 32
      else hash256 H (write_items (λ i. write_u32_le i.sequence) tx.legacy_tx.vin 0 []).1

  unfoldable pub hash_outputs : WitnessTx → ℕ → Sighash → Result TxError Bytes
  hash_outputs tx index Sighash.all =
      ok (hash256 H (write_items write_output tx.legacy_tx.vout 0 []).1)
  hash_outputs tx index all_acp = ok (hash256 H (write_items write_output tx.legacy_tx.vout 0 []).1)
  hash_outputs tx index single = do
    output ← unwrap (get_elem? tx.legacy_tx.vout index)
    ok (hash256 H (write_output output []).1)
  hash_outputs tx index single_acp = do
    output ← unwrap (get_elem? tx.legacy_tx.vout index)
    ok (hash256 H (write_output output []).1)
  hash_outputs tx index _ = ok (null_digest 32)

  -- `write_witness_sighash_preimage`: the writer behind it.
  unfoldable pub write_witness_preimage :
      WitnessTx → Bytes → WitnessSighashArgs → Result TxError Bytes
  write_witness_preimage tx w args = do
    fail_if (is_none_mode args.sighash_flag) none_unsupported
    fail_if (is_single_mode args.sighash_flag && leb (length tx.legacy_tx.vout) args.index)
        sighash_single_bug
    input ← unwrap (get_elem? tx.legacy_tx.vin args.index)
    let w1 = (write_u32_le tx.legacy_tx.version w).1
    let w2 = (write (hash_prevouts tx args.sighash_flag) w1).1
    let w3 = (write (hash_sequence tx args.sighash_flag) w2).1
    let w4 = (write_outpoint input.outpoint w3).1
    let w5 = (write_wrapped args.prevout_script w4).1
    let w6 = (write_u64_le args.prevout_value w5).1
    let w7 = (write_u32_le input.sequence w6).1
    outputs ← hash_outputs tx args.index args.sighash_flag
    let w8 = (write outputs w7).1
    let w9 = (write_u32_le tx.legacy_tx.locktime w8).1
    ok (write_u32_le (to_u8 args.sighash_flag) w9).1
