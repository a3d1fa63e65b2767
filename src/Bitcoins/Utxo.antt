-- ===== src/Bitcoins/Utxo.antt =====
-- bitcoins/src/types/utxo.rs: outputs that can be spent, and the scripts to sign for them.
pub mod Laws
use bitcoins_rs.Base.{
  Bool, Bytes, Option, Result, [], bytes_eq, false, get_elem?, if◌then◌else◌, none, ok, panic, some,
  true, unwrap, ℕ, ◌%◌, ◌++◌, ◌>>=◌, ◌>>◌, ◌^◌, ◌∷◌,
}
use bitcoins_rs.Bitcoins.Legacy.{LegacySighashArgs}
use bitcoins_rs.Bitcoins.Script.{
  ScriptType, non_standard, op_return_data, pkh, sh, standard_type, wpkh, wsh,
}
use bitcoins_rs.Bitcoins.Sighash.{Sighash, TxError}
use bitcoins_rs.Bitcoins.Tx.{BitcoinTx, outputs_of, txid_of}
use bitcoins_rs.Bitcoins.TxIn.{Outpoint, new_outpoint}
use bitcoins_rs.Bitcoins.TxOut.{TxOut}
use bitcoins_rs.Bitcoins.Witness.{WitnessSighashArgs}
use bitcoins_rs.Hashes.{HashFunctions, hash160}

pub data SpendScript : Type 0 where
  no_script missing : SpendScript
  known : Bytes → SpendScript

unfoldable pub spend_of_type : ScriptType → SpendScript
spend_of_type (sh _) = missing
spend_of_type (wsh _) = missing
spend_of_type (pkh _) = no_script
spend_of_type (wpkh _) = no_script
spend_of_type (op_return_data _) = no_script
spend_of_type non_standard = no_script

-- `SpendScript::from_script_pubkey`
abbrev pub from_script_pubkey : Bytes → SpendScript
from_script_pubkey script = spend_of_type (standard_type script)

pub record Utxo : Type 0 where
  pub outpoint : Outpoint
  pub value : ℕ
  pub script_pubkey : Bytes
  pub spend_script : SpendScript

-- The match in `Utxo::new`, whose last arm panics.
unfoldable pub kept_script : SpendScript → SpendScript → Result TxError SpendScript
kept_script no_script given = ok no_script
kept_script missing given = ok given
kept_script (known _) given = panic

unfoldable pub new_utxo : Outpoint → ℕ → Bytes → SpendScript → Result TxError Utxo
new_utxo outpoint value script_pubkey spend_script = do
  kept ← kept_script (from_script_pubkey script_pubkey) spend_script
  ok record {
    outpoint = outpoint;
    value = value;
    script_pubkey = script_pubkey;
    spend_script = kept;
  }

unfoldable pub from_output_and_outpoint : TxOut → Outpoint → Utxo
from_output_and_outpoint output outpoint = record {
  outpoint = outpoint;
  value = output.value;
  script_pubkey = output.script_pubkey;
  spend_script = from_script_pubkey output.script_pubkey;
}

-- The legacy script of a witness public key hash.
unfoldable pub wpkh_script : Bytes → Bytes
wpkh_script payload = (0x76 ∷ 0xa9 ∷ 0x14 ∷ []) ++ (payload ++ (0x88 ∷ 0xac ∷ []))

-- The match in `signing_script` where no spend script is needed.
unfoldable pub key_script : ScriptType → Bytes → Option Bytes
key_script (pkh _) spk = some spk
key_script (wpkh payload) spk = some (wpkh_script payload)
key_script (sh _) spk = none
key_script (wsh _) spk = none
key_script (op_return_data _) spk = none
key_script non_standard spk = none

unfoldable pub chosen_script : SpendScript → ScriptType → Bytes → Option Bytes
chosen_script no_script type' spk = key_script type' spk
chosen_script (known script) type' spk = some script
chosen_script missing type' spk = none

-- `Utxo::signing_script`
unfoldable pub signing_script : Utxo → Option Bytes
signing_script u = chosen_script u.spend_script (standard_type u.script_pubkey) u.script_pubkey

unfoldable pub sighash_args : Utxo → ℕ → Sighash → Option LegacySighashArgs
sighash_args u index flag = elim (signing_script u) [
  | none ↦ none
  | some prevout_script ↦
      some record { index = index; sighash_flag = flag; prevout_script = prevout_script }
]

unfoldable pub witness_sighash_args : Utxo → ℕ → Sighash → Option WitnessSighashArgs
witness_sighash_args u index flag = elim (signing_script u) [
  | none ↦ none
  | some prevout_script ↦ some record {
    index = index;
    sighash_flag = flag;
    prevout_script = prevout_script;
    prevout_value = u.value;
  }
]

module _ (H : HashFunctions) where
  -- `Utxo::from_tx_output`, with the index cut to 32 bits.
  unfoldable pub from_tx_output : BitcoinTx → ℕ → Result TxError Utxo
  from_tx_output tx idx = do
    output ← unwrap (get_elem? (outputs_of tx) idx)
    ok (from_output_and_outpoint output (new_outpoint (txid_of H tx) (idx % 2 ^ 32)))

  -- The tests of `set_spend_script`.
  unfoldable pub fits_type : ScriptType → Bytes → Bool
  fits_type (sh data') script = bytes_eq data' (hash160 H script)
  fits_type (wsh data') script = bytes_eq data' (H.sha256 script)
  fits_type (pkh _) script = false
  fits_type (wpkh _) script = false
  fits_type (op_return_data _) script = false
  fits_type non_standard script = false

  unfoldable pub set_spend_script : Utxo → Bytes → Utxo × Bool
  set_spend_script u script =
      if fits_type (standard_type u.script_pubkey) script
      then (record u { spend_script = known script }, true)
      else (u, false)
