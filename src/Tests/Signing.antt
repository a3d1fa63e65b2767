-- ===== src/Tests/Signing.antt =====
-- The sighashes at the sample data.
use bitcoins_rs.Base.{Bytes, [], arith, map, ok, refl, some, ◌↔◌, ◌∙◌, ◌∷◌, ◌≡◌}
use bitcoins_rs.Bitcoins.Legacy.{
  LegacyTx, legacy_sighash_anyone_can_pay, legacy_sighash_copy, legacy_sighash_prep,
  legacy_sighash_single, new_legacy, prep_inputs, write_legacy_preimage, zero_sequences,
}
use bitcoins_rs.Bitcoins.Legacy.Commitment.{legacy_preimage_commits}
use bitcoins_rs.Bitcoins.Legacy.Format.{IsLegacy}
use bitcoins_rs.Bitcoins.Legacy.Outcomes.{
  legacy_outcome, legacy_preimage_ignores_scripts, legacy_preimage_outcome, legacy_preimage_total,
  outcome,
}
use bitcoins_rs.Bitcoins.Legacy.Preimage.{IsSighashCopy, legacy_sighash_copy-IsSighashCopy}
use bitcoins_rs.Bitcoins.Sighash.{is_acp, is_none_mode, is_single_mode, single, single_acp}
use bitcoins_rs.Bitcoins.TxIn.{new_input, unsigned}
use bitcoins_rs.Bitcoins.TxIn.Laws.{IsInput}
use bitcoins_rs.Bitcoins.Witness.{WitnessTx, legacy_args, new_witness, write_witness_preimage}
use bitcoins_rs.Bitcoins.Witness.Bip143.{bip143, write_witness_preimage_iff}
use bitcoins_rs.Bitcoins.Witness.Commitment.{IsSameCommitment, witness_preimage_commits}
use bitcoins_rs.Bitcoins.Witness.Format.{IsWitness}
use bitcoins_rs.Bitcoins.Witness.Outcomes.{
  stripped, witness_outcome, witness_preimage_ignores_scripts, witness_preimage_outcome,
  witness_preimage_total,
}
use bitcoins_rs.Tests.Samples.{
  first_input, first_output, sample_args, sample_args-IsArgs, sample_bytes-IsScript, sample_hashes,
  sample_id-IsDigest, sample_legacy, sample_legacy-IsLegacy, sample_witness,
  sample_witness-IsWitness, second_input,
}

abbrev stripped_witness : WitnessTx
stripped_witness = stripped sample_witness ([] ∷ [] ∷ [])

stripped_witness-IsWitness : IsWitness stripped_witness
unfolding stripped unsigned
stripped_witness-IsWitness = record {
  legacy_ok = record {
    version_fits = omega arith;
    vin_ok = (omega arith, (unsigned_ok, (unsigned_ok', tt)));
    vout_ok = sample_legacy-IsLegacy.vout_ok;
    locktime_fits = omega arith;
  };
  one_each = refl;
  stacks_ok = ((omega arith, tt), ((omega arith, tt), tt));
}
  where
    unsigned_ok : IsInput (new_input first_input.outpoint [] first_input.sequence)
    unsigned_ok = record {
      outpoint_ok = record { txid_digest = sample_id-IsDigest; idx_fits = omega arith };
      script_ok = (omega arith, tt);
      sequence_fits = omega arith;
    }

    unsigned_ok' : IsInput (new_input second_input.outpoint [] second_input.sequence)
    unsigned_ok' = record {
      outpoint_ok = record { txid_digest = sample_id-IsDigest; idx_fits = omega arith };
      script_ok = (omega arith, tt);
      sequence_fits = omega arith;
    }

single_preimage :
    (out : Bytes) × (write_witness_preimage sample_hashes sample_witness [] (sample_args single 1)
      ≡ ok out)
unfolding is_none_mode is_single_mode
single_preimage =
    witness_preimage_total sample_hashes sample_witness [] (sample_args single 1) refl
      (λ _. omega arith) (omega arith)

-- Two transactions that differ in their script sigs and witnesses.
witness_preimage_commits_example :
    IsSameCommitment sample_hashes sample_witness
      (sample_args single 1)
      stripped_witness
      (sample_args single 1)
witness_preimage_commits_example =
    witness_preimage_commits sample_hashes sample_witness stripped_witness (sample_args single 1)
      (sample_args single 1) single_preimage.0 sample_witness-IsWitness stripped_witness-IsWitness
      (sample_args-IsArgs single 1) (sample_args-IsArgs single 1) single_preimage.1
      (witness_preimage_ignores_scripts sample_hashes sample_witness ([] ∷ [] ∷ []) []
          (sample_args single 1)
        ∙ single_preimage.1)

write_witness_preimage_iff_example :
    (write_witness_preimage sample_hashes sample_witness [] (sample_args single 1)
      ≡ ok single_preimage.0)
    ↔ (bip143 sample_hashes sample_witness.legacy_tx [] (sample_args single 1)
        ≡ some single_preimage.0)
write_witness_preimage_iff_example =
    write_witness_preimage_iff sample_hashes sample_witness [] (sample_args single 1)
      single_preimage.0

witness_preimage_outcome_example :
    outcome (write_witness_preimage sample_hashes sample_witness [] (sample_args single 2))
    ≡ witness_outcome sample_witness (sample_args single 2)
witness_preimage_outcome_example =
    witness_preimage_outcome sample_hashes sample_witness [] (sample_args single 2)

one_witness :
    (tx : WitnessTx) × (new_witness 2
        (first_input ∷ second_input ∷ [])
        (first_output ∷ [])
        (((1 ∷ []) ∷ []) ∷ [])
        0
      ≡ ok tx)
unfolding new_witness new_legacy
one_witness = (_, refl)

legacy_single_preimage :
    (out : Bytes) × (write_legacy_preimage sample_legacy [] (legacy_args (sample_args single_acp 1))
      ≡ ok out)
unfolding is_none_mode is_single_mode is_acp
legacy_single_preimage =
    legacy_preimage_total sample_legacy [] (legacy_args (sample_args single_acp 1)) refl
      (λ _. omega arith) (λ _. omega arith)

abbrev unsigned_legacy : LegacyTx
unsigned_legacy = record sample_legacy { vin = map unsigned sample_legacy.vin }

unsigned_legacy-IsLegacy : IsLegacy unsigned_legacy
unfolding stripped
unsigned_legacy-IsLegacy = stripped_witness-IsWitness.legacy_ok

legacy_preimage_commits_example :
    (legacy_sighash_copy sample_legacy (legacy_args (sample_args single_acp 1))
      ≡ legacy_sighash_copy unsigned_legacy (legacy_args (sample_args single_acp 1)))
    × (single_acp ≡ single_acp)
legacy_preimage_commits_example =
    legacy_preimage_commits sample_legacy unsigned_legacy (legacy_args (sample_args single_acp 1))
      (legacy_args (sample_args single_acp 1)) legacy_single_preimage.0 sample_legacy-IsLegacy
      unsigned_legacy-IsLegacy sample_bytes-IsScript sample_bytes-IsScript legacy_single_preimage.1
      (legacy_preimage_ignores_scripts sample_legacy [] (legacy_args (sample_args single_acp 1))
        ∙ legacy_single_preimage.1)

single_acp_copy :
    (copy : LegacyTx) × (legacy_sighash_copy sample_legacy (legacy_args (sample_args single_acp 1))
      ≡ ok copy)
unfolding legacy_sighash_copy legacy_sighash_prep legacy_sighash_single
    legacy_sighash_anyone_can_pay prep_inputs zero_sequences is_none_mode is_single_mode is_acp
single_acp_copy = (_, refl)

legacy_sighash_copy-IsSighashCopy_example :
    IsSighashCopy sample_legacy (legacy_args (sample_args single_acp 1)) single_acp_copy.0
legacy_sighash_copy-IsSighashCopy_example =
    legacy_sighash_copy-IsSighashCopy sample_legacy (legacy_args (sample_args single_acp 1))
      single_acp_copy.0 single_acp_copy.1

legacy_preimage_outcome_example :
    outcome (write_legacy_preimage sample_legacy [] (legacy_args (sample_args single 2)))
    ≡ legacy_outcome sample_legacy (legacy_args (sample_args single 2))
legacy_preimage_outcome_example =
    legacy_preimage_outcome sample_legacy [] (legacy_args (sample_args single 2))
