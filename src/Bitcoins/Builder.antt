-- ===== src/Bitcoins/Builder.antt =====
-- bitcoins/src/builder.rs: the builder of transactions.
pub mod Witnesses
pub mod Laws
use bitcoins_rs.Base.{
  Bool, Bytes, List, Result, [], drop, false, if◌then◌else◌, is_empty, leb, length, map_ok, min,
  not, suc, take, zero, ℕ, ◌++◌, ◌||◌, ◌∷◌,
}
use bitcoins_rs.Bitcoins.Address.{
  Address, AddressCodecs, EncodingResult, NetworkParams, decode_address,
}
use bitcoins_rs.Bitcoins.Legacy.{LegacyTx, new_legacy}
use bitcoins_rs.Bitcoins.Sighash.{TxError}
use bitcoins_rs.Bitcoins.Tx.{
  BitcoinTx, inputs_of, is_witness, legacy, locktime_of, outputs_of, version_of, witness,
  witnesses_of,
}
use bitcoins_rs.Bitcoins.TxIn.{Outpoint, TxInput, new_input}
use bitcoins_rs.Bitcoins.TxOut.{TxOut, new_output, op_return}
use bitcoins_rs.Bitcoins.Witness.{WitnessStack, WitnessTx, new_witness}

-- `BitcoinTxBuilder`
pub record TxBuilder : Type 0 where
  pub version : ℕ
  pub vin : List TxInput
  pub vout : List TxOut
  pub locktime : ℕ
  pub witnesses : List WitnessStack
  pub produce_witness : Bool

-- `Vec::insert` at an index that is not behind the end.
abbrev pub insert {ℓ} : {A : Type ℓ} → ℕ → A → List A → List A
insert index a v = take index v ++ (a ∷ drop index v)

abbrev pub new_builder : TxBuilder
new_builder = record {
  version = 0;
  vin = [];
  vout = [];
  locktime = 0;
  witnesses = [];
  produce_witness = false;
}

unfoldable pub from_tx : BitcoinTx → TxBuilder
from_tx tx = record {
  version = version_of tx;
  vin = inputs_of tx;
  vout = outputs_of tx;
  locktime = locktime_of tx;
  witnesses = witnesses_of tx;
  produce_witness = is_witness tx;
}

unfoldable pub extend_witnesses : List WitnessStack → TxBuilder → TxBuilder
extend_witnesses witnesses b = record b { witnesses = b.witnesses ++ witnesses }

-- The `witness` is an input, and it is inserted into the inputs.
unfoldable pub insert_witness : ℕ → TxInput → TxBuilder → TxBuilder
insert_witness index witness' b = record b {
  vin = insert (min index (length b.vin)) witness' b.vin;
}

unfoldable pub add_op_return : Bytes → TxBuilder → TxBuilder
add_op_return message b = record b { vout = b.vout ++ (op_return message ∷ []) }

-- `vin[input_idx].script_sig = script_sig`, in range.
unfoldable pub sign_at : ℕ → Bytes → List TxInput → List TxInput
sign_at i script_sig [] = []
sign_at zero script_sig (t ∷ vin) = record t { script_sig = script_sig } ∷ vin
sign_at (suc i) script_sig (t ∷ vin) = t ∷ sign_at i script_sig vin

unfoldable pub set_script_sig : ℕ → Bytes → TxBuilder → TxBuilder
set_script_sig input_idx script_sig b =
    if leb (length b.vin) input_idx
    then b
    else record b { vin = sign_at input_idx script_sig b.vin }

unfoldable pub build_legacy : TxBuilder → Result TxError LegacyTx
build_legacy b = new_legacy b.version b.vin b.vout b.locktime

unfoldable pub build_witness : TxBuilder → Result TxError WitnessTx
build_witness b = new_witness b.version b.vin b.vout b.witnesses b.locktime

unfoldable pub pay_script_pubkey : ℕ → Bytes → TxBuilder → TxBuilder
pay_script_pubkey value script_pubkey b = record b {
  vout = b.vout ++ (new_output value script_pubkey ∷ []);
}

unfoldable pub set_version : ℕ → TxBuilder → TxBuilder
set_version version b = record b { version = version }

unfoldable pub spend : Outpoint → ℕ → TxBuilder → TxBuilder
spend prevout sequence b = record b { vin = b.vin ++ (new_input prevout [] sequence ∷ []) }

-- The encoder `T` is given by the codecs and the network.
unfoldable pub pay :
    (C : AddressCodecs) → NetworkParams → ℕ → Address → TxBuilder → EncodingResult C TxBuilder
pay C P value address b =
    map_ok (λ script_pubkey. pay_script_pubkey value script_pubkey b) (decode_address C P address)

unfoldable pub insert_input : ℕ → TxInput → TxBuilder → TxBuilder
insert_input index input b = record b { vin = insert (min index (length b.vin)) input b.vin }

unfoldable pub extend_inputs : List TxInput → TxBuilder → TxBuilder
extend_inputs inputs b = record b { vin = b.vin ++ inputs }

unfoldable pub insert_output : ℕ → TxOut → TxBuilder → TxBuilder
insert_output index output b = record b { vout = insert (min index (length b.vout)) output b.vout }

unfoldable pub extend_outputs : List TxOut → TxBuilder → TxBuilder
extend_outputs outputs b = record b { vout = b.vout ++ outputs }

unfoldable pub set_locktime : ℕ → TxBuilder → TxBuilder
set_locktime locktime b = record b { locktime = locktime }

unfoldable pub build : TxBuilder → Result TxError BitcoinTx
build b =
    if b.produce_witness || not (is_empty b.witnesses)
    then map_ok witness (new_witness b.version b.vin b.vout b.witnesses b.locktime)
    else map_ok legacy (new_legacy b.version b.vin b.vout b.locktime)
