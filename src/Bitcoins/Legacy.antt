-- ===== src/Bitcoins/Legacy.antt =====
-- bitcoins/src/types/legacy.rs: legacy transactions and their sighash.
pub mod Format
pub mod Chained
pub mod Preimage
pub mod Outcomes
pub mod Copy
pub mod Commitment
use bitcoins_rs.Base.{
  Bytes, List, Result, [], fail_if, get_elem?, if◌then◌else◌, is_empty, leb, length, map_err, ok,
  replicate, sum_map, unwrap, ℕ, ◌++◌, ◌+◌, ◌==◌, ◌>>=◌, ◌>>◌, ◌∷◌,
}
use bitcoins_rs.Bitcoins.Sighash.{
  Sighash, TxError, empty_vin, empty_vout, is_acp, is_none_mode, is_single_mode, none_unsupported,
  ser_error, sighash_single_bug, to_u8,
}
use bitcoins_rs.Bitcoins.TxIn.{TxInput, input_format, input_length}
use bitcoins_rs.Bitcoins.TxOut.{TxOut, null_output, output_format, output_length}
use bitcoins_rs.Ser.Chain.{read_prefix_vec_chained}
use bitcoins_rs.Ser.CompactInt.{prefix_byte_len}
use bitcoins_rs.Ser.Format.{ByteFormat, default_read_seq_from, read_prefix_vec, write_prefix_vec}
use bitcoins_rs.Ser.Stream.{read_u32_le, write_u32_le}

pub record LegacySighashArgs : Type 0 where
  pub index : ℕ
  pub sighash_flag : Sighash
  pub prevout_script : Bytes

pub record LegacyTx : Type 0 where
  pub version : ℕ
  pub vin : List TxInput
  pub vout : List TxOut
  pub locktime : ℕ

-- `LegacyTx::new`
unfoldable pub new_legacy : ℕ → List TxInput → List TxOut → ℕ → Result TxError LegacyTx
new_legacy version vins vouts locktime = do
  fail_if (is_empty vins) empty_vin
  fail_if (is_empty vouts) empty_vout
  ok (record { version = version; vin = vins; vout = vouts; locktime = locktime })

-- The loop of `legacy_sighash_prep`, from input `i` on.
unfoldable pub prep_inputs : ℕ → ℕ → Bytes → List TxInput → List TxInput
prep_inputs i index prevout_script [] = []
prep_inputs i index prevout_script (txin ∷ vin) =
    record txin { script_sig = if i == index then prevout_script else [] }
    ∷ prep_inputs (i + 1) index prevout_script vin

unfoldable pub legacy_sighash_prep : LegacyTx → ℕ → Bytes → LegacyTx
legacy_sighash_prep tx index prevout_script = record tx {
  vin = prep_inputs 0 index prevout_script tx.vin;
}

-- The loop of `legacy_sighash_single` over the inputs, from input `i` on.
unfoldable pub zero_sequences : ℕ → ℕ → List TxInput → List TxInput
zero_sequences i index [] = []
zero_sequences i index (txin ∷ vin) =
    (if i == index then txin else record txin { sequence = 0 }) ∷ zero_sequences (i + 1) index vin

unfoldable pub legacy_sighash_single : LegacyTx → ℕ → Result TxError LegacyTx
legacy_sighash_single copy_tx index = do
  out ← unwrap (get_elem? copy_tx.vout index)
  ok (record copy_tx {
    vin = zero_sequences 0 index copy_tx.vin;
    vout = replicate index null_output ++ (out ∷ []);
  })

unfoldable pub legacy_sighash_anyone_can_pay : LegacyTx → ℕ → Result TxError LegacyTx
legacy_sighash_anyone_can_pay copy_tx index = do
  txin ← unwrap (get_elem? copy_tx.vin index)
  ok (record copy_tx { vin = txin ∷ [] })

unfoldable pub legacy_length : LegacyTx → ℕ
legacy_length tx =
    4
    + prefix_byte_len (length tx.vin)
    + sum_map input_length tx.vin
    + prefix_byte_len (length tx.vout)
    + sum_map output_length tx.vout
    + 4

unfoldable pub read_legacy : Bytes → Result TxError (LegacyTx × Bytes)
read_legacy r = do
  (version, r1) ← map_err ser_error (read_u32_le r)
  (vin, r2) ← map_err ser_error (read_prefix_vec input_format r1)
  (vout, r3) ← map_err ser_error (read_prefix_vec output_format r2)
  (locktime, r4) ← map_err ser_error (read_u32_le r3)
  ok (record { version = version; vin = vin; vout = vout; locktime = locktime }, r4)

-- `LegacyTx::read_from` of `tag.chain(reader)`, where six bytes were read into the tag. The count of
-- the inputs begins in its fifth byte, so the end of the tag can cut that number, and no later one.
unfoldable pub read_legacy_chained : Bytes → Bytes → Result TxError (LegacyTx × Bytes)
read_legacy_chained tag reader = do
  (version, chain) ← map_err ser_error (read_u32_le tag)
  (vin, r2) ← map_err ser_error (read_prefix_vec_chained input_format chain reader)
  (vout, r3) ← map_err ser_error (read_prefix_vec output_format r2)
  (locktime, r4) ← map_err ser_error (read_u32_le r3)
  ok (record { version = version; vin = vin; vout = vout; locktime = locktime }, r4)

-- The counts of the two vectors are dropped, as in the source.
unfoldable pub write_legacy : LegacyTx → Bytes → ℕ × Bytes
write_legacy tx w =
    let (len, w1) = write_u32_le tx.version w in
    let (_, w2) = write_prefix_vec input_format tx.vin w1 in
    let (_, w3) = write_prefix_vec output_format tx.vout w2 in
    let (n, w4) = write_u32_le tx.locktime w3 in (len + n, w4)

abbrev pub legacy_format : ByteFormat TxError LegacyTx
legacy_format = record {
  from_ser = ser_error;
  serialized_length = legacy_length;
  read_from = read_legacy;
  write_to = write_legacy;
  read_seq_from = default_read_seq_from ser_error read_legacy;
}

-- The copy that SIGHASH_SINGLE and ANYONECANPAY make of the prepared transaction.
unfoldable pub legacy_sighash_copy : LegacyTx → LegacySighashArgs → Result TxError LegacyTx
legacy_sighash_copy tx args = do
  fail_if (is_none_mode args.sighash_flag) none_unsupported
  let copy_tx = legacy_sighash_prep tx args.index args.prevout_script
  copy1 ←
      (if is_single_mode args.sighash_flag
        then fail_if (leb (length tx.vout) args.index) sighash_single_bug
          >> legacy_sighash_single copy_tx args.index
        else ok copy_tx)
  (if is_acp args.sighash_flag then legacy_sighash_anyone_can_pay copy1 args.index else ok copy1)

-- `write_sighash_preimage`: the writer behind it.
unfoldable pub write_legacy_preimage : LegacyTx → Bytes → LegacySighashArgs → Result TxError Bytes
write_legacy_preimage tx w args = do
  copy_tx ← legacy_sighash_copy tx args
  let w1 = (write_legacy copy_tx w).1
  ok (write_u32_le (to_u8 args.sighash_flag) w1).1
