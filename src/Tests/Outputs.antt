-- ===== src/Tests/Outputs.antt =====
-- UTXOs and the Handshake types at sample data.
use bitcoins_rs.Base.{
  [], arith, false, length, ok, refl, replicate, some, take, true, ◌++◌, ◌<◌, ◌↔◌, ◌∷◌, ◌≡◌, ◌⊎◌,
}
use bitcoins_rs.Bitcoins.Script.{p2sh, standard_type}
use bitcoins_rs.Bitcoins.TxIn.{new_outpoint}
use bitcoins_rs.Bitcoins.TxOut.{new_output}
use bitcoins_rs.Bitcoins.Utxo.{Utxo, from_output_and_outpoint, set_spend_script, signing_script}
use bitcoins_rs.Bitcoins.Utxo.Laws.{
  IsSigned, IsSpendScript, from_output, set_spend_script_outcome, signing_script-IsSigned,
  with_script,
}
use bitcoins_rs.Handshakes.Input.{
  HandshakeInput, handshake_input_length, read_handshake_input, write_handshake_input,
}
use bitcoins_rs.Handshakes.Input.Laws.{read_handshake_input-write_handshake_input}
use bitcoins_rs.Handshakes.LockingScript.{
  LockingScript, locking_length, locking_p2wpkh, write_locking_script,
}
use bitcoins_rs.Handshakes.LockingScript.Laws.{locking_length-write_locking_script}
use bitcoins_rs.Handshakes.Output.{HandshakeOutput, read_handshake_output, write_handshake_output}
use bitcoins_rs.Handshakes.Output.Laws.{read_handshake_output-write_handshake_output}
use bitcoins_rs.Tests.Samples.{check_bytes→All, sample_bytes-IsScript, sample_hashes, sample_id}

abbrev sample_utxo : Utxo
sample_utxo =
    from_output_and_outpoint (new_output 5 (p2sh sample_hashes (3 ∷ []))) (new_outpoint sample_id 0)

set_spend_script_outcome_example :
    ((set_spend_script sample_hashes sample_utxo (3 ∷ [])).1 ≡ true)
      × IsSpendScript sample_hashes (standard_type sample_utxo.script_pubkey) (3 ∷ [])
      × (signing_script (set_spend_script sample_hashes sample_utxo (3 ∷ [])).0 ≡ some (3 ∷ []))
    ⊎ (set_spend_script sample_hashes sample_utxo (3 ∷ []) ≡ (sample_utxo, false))
      × ¬ (IsSpendScript sample_hashes (standard_type sample_utxo.script_pubkey) (3 ∷ []))
set_spend_script_outcome_example = set_spend_script_outcome sample_hashes sample_utxo (3 ∷ [])

signing_script-IsSigned_example :
    let u = (set_spend_script sample_hashes sample_utxo (3 ∷ [])).0 in
    IsSigned sample_hashes (standard_type u.script_pubkey) u.script_pubkey (signing_script u)
signing_script-IsSigned_example =
    signing_script-IsSigned sample_hashes (set_spend_script sample_hashes sample_utxo (3 ∷ [])).0 (
      with_script sample_utxo (3 ∷ [])
        (from_output (new_output 5 (p2sh sample_hashes (3 ∷ []))) (new_outpoint sample_id 0)))

abbrev sample_locking_script : LockingScript
sample_locking_script = locking_p2wpkh (λ key. take 20 (key ++ replicate 20 9)) (3 ∷ [])

abbrev sample_handshake_output : HandshakeOutput
sample_handshake_output = record {
  value = 7;
  locking_script = sample_locking_script;
  covenant = record { covenant_type = 3; covenant_data = (0x51 ∷ []) ∷ (0x51 ∷ []) ∷ [] };
}

read_handshake_output-write_handshake_output_example :
    read_handshake_output ((write_handshake_output sample_handshake_output []).1 ++ (1 ∷ []))
    ≡ ok (sample_handshake_output, 1 ∷ [])
unfolding bitcoins_rs.Handshakes.LockingScript.locking_p2wpkh bitcoins_rs.Tests.Samples.check_bytes
read_handshake_output-write_handshake_output_example =
    read_handshake_output-write_handshake_output sample_handshake_output (1 ∷ []) (
      omega arith,
      (omega arith, check_bytes→All sample_locking_script.witness_program refl),
      (omega arith, (sample_bytes-IsScript, (sample_bytes-IsScript, tt))),
    )

-- Three bytes of length are written for this one, and one is announced.
abbrev long_locking_script : LockingScript
long_locking_script = record { version = 1; witness_program = replicate 253 0 }

locking_length-write_locking_script_example :
    ((write_locking_script long_locking_script []).0 ≡ locking_length long_locking_script)
    ↔ (length long_locking_script.witness_program < 253)
locking_length-write_locking_script_example =
    locking_length-write_locking_script long_locking_script []

abbrev sample_handshake_input : HandshakeInput
sample_handshake_input = record { outpoint = record { txid = sample_id; idx = 1 }; sequence = 5 }

read_handshake_input-write_handshake_input_example :
    (read_handshake_input ((write_handshake_input sample_handshake_input []).1 ++ (1 ∷ []))
      ≡ ok (sample_handshake_input, 1 ∷ []))
    × ((write_handshake_input sample_handshake_input []).0
        ≡ handshake_input_length sample_handshake_input)
read_handshake_input-write_handshake_input_example =
    read_handshake_input-write_handshake_input sample_handshake_input (1 ∷ [])
      (refl, omega arith, omega arith)
