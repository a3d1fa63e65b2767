-- ===== src/Bitcoins/Tx.antt =====
-- bitcoins/src/types/tx.rs: a transaction that is a witness or a legacy one.
pub mod Laws
pub mod Outpoints
use bitcoins_rs.Base.{
  Bool, Bytes, List, Option, Result, [], bytes_eq, drop, false, get_elem?, if◌then◌else◌, length,
  ltb, map_err, map_ok, none, ok, take, true, ℕ, ◌&&◌, ◌++◌, ◌>>=◌, ◌>>◌, ◌∷◌,
}
use bitcoins_rs.Bitcoins.Legacy.{
  LegacyTx, legacy_length, read_legacy_chained, write_legacy, write_legacy_preimage,
}
use bitcoins_rs.Bitcoins.Sighash.{TxError}
use bitcoins_rs.Bitcoins.TxIn.{Outpoint, TxInput}
use bitcoins_rs.Bitcoins.TxOut.{TxOut}
use bitcoins_rs.Bitcoins.Witness.{
  WitnessSighashArgs, WitnessStack, WitnessTx, from_legacy, legacy_args, legacy_txid, read_witness,
  witness_length, witness_txid, write_witness, write_witness_preimage,
}
use bitcoins_rs.Hashes.{HashFunctions}
use bitcoins_rs.Ser.Stream.{read_exact}

-- `BitcoinTx`
pub data BitcoinTx : Type 0 where
  witness : WitnessTx → BitcoinTx
  legacy : LegacyTx → BitcoinTx

unfoldable pub is_witness : BitcoinTx → Bool
is_witness (witness _) = true
is_witness (legacy _) = false

unfoldable pub is_legacy : BitcoinTx → Bool
is_legacy (witness _) = false
is_legacy (legacy _) = true

unfoldable pub tx_length : BitcoinTx → ℕ
tx_length (witness tx) = witness_length tx
tx_length (legacy tx) = legacy_length tx

-- The six bytes of the tag are chained back on the front of the reader. A witness transaction has
-- its flag in the last two of them, so it reads all of them exactly, and then from the reader alone.
unfoldable pub read_tx : Bytes → Result TxError (BitcoinTx × Bytes)
read_tx r = do
  (tag, reader) ← map_err TxError.io_error (read_exact 6 r)
  (if bytes_eq (take 2 (drop 4 tag)) (0 ∷ 1 ∷ [])
      then map_ok (λ p. (witness p.0, p.1)) (read_witness (tag ++ reader))
      else map_ok (λ p. (legacy p.0, p.1)) (read_legacy_chained tag reader))

unfoldable pub write_tx : BitcoinTx → Bytes → ℕ × Bytes
write_tx (witness tx) w = write_witness tx w
write_tx (legacy tx) w = write_legacy tx w

-- `BitcoinTx::new`, which checks nothing.
unfoldable pub new_tx : ℕ → List TxInput → List TxOut → ℕ → Result TxError BitcoinTx
new_tx version vin vout locktime =
    ok (legacy (record { version = version; vin = vin; vout = vout; locktime = locktime }))

unfoldable pub as_legacy : BitcoinTx → LegacyTx
as_legacy (witness tx) = tx.legacy_tx
as_legacy (legacy tx) = tx

unfoldable pub witnesses_of : BitcoinTx → List WitnessStack
witnesses_of (witness tx) = tx.witnesses
witnesses_of (legacy _) = []

unfoldable pub into_witness : BitcoinTx → WitnessTx
into_witness (witness tx) = tx
into_witness (legacy tx) = from_legacy tx

unfoldable pub version_of : BitcoinTx → ℕ
version_of tx = (as_legacy tx).version

unfoldable pub inputs_of : BitcoinTx → List TxInput
inputs_of tx = (as_legacy tx).vin

unfoldable pub outputs_of : BitcoinTx → List TxOut
outputs_of tx = (as_legacy tx).vout

unfoldable pub locktime_of : BitcoinTx → ℕ
locktime_of tx = (as_legacy tx).locktime

module _ (H : HashFunctions) where
  unfoldable pub txid_of : BitcoinTx → Bytes
  txid_of (witness tx) = witness_txid H tx
  txid_of (legacy tx) = legacy_txid H tx

  -- `write_sighash_preimage`
  unfoldable pub write_tx_preimage : BitcoinTx → Bytes → WitnessSighashArgs → Result TxError Bytes
  write_tx_preimage (witness tx) w args = write_witness_preimage H tx w args
  write_tx_preimage (legacy tx) w args = write_legacy_preimage tx w (legacy_args args)

  -- The index is in range where the outputs are indexed.
  unfoldable pub txout_from_outpoint : BitcoinTx → Outpoint → Option TxOut
  txout_from_outpoint tx outpoint =
      if bytes_eq outpoint.txid (txid_of tx) && ltb outpoint.idx (length (outputs_of tx))
      then get_elem? (outputs_of tx) outpoint.idx
      else none
