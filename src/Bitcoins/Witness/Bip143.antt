-- ===== src/Bitcoins/Witness/Bip143.antt =====
-- The preimage of BIP143, mode by mode, and what bitcoins/src/types/witness.rs writes.
use bitcoins_rs.Base.{
  Bytes, List, Option, Result, [], ap, arith, false, get_elem?, get_elem?-bound, le_bytes, length,
  none, ok, ok-injective, refl, replicate, some, some-eq_some, suc, sym, true, unwrap, zero, ℕ,
  ◌++◌, ◌<◌, ◌>>=◌, ◌↔◌, ◌∙◌, ◌∷◌, ◌≡◌,
}
use bitcoins_rs.Bitcoins.Legacy.{LegacyTx}
use bitcoins_rs.Bitcoins.Sighash.{
  Sighash, TxError, all_acp, is_acp, is_none_mode, is_single, is_single_mode, none_acp, single,
  single_acp, to_u8,
}
use bitcoins_rs.Bitcoins.TxIn.{TxInput}
use bitcoins_rs.Bitcoins.TxIn.Laws.{encode_outpoint}
use bitcoins_rs.Bitcoins.TxOut.{TxOut, write_output}
use bitcoins_rs.Bitcoins.TxOut.Laws.{encode_output, output_write}
use bitcoins_rs.Bitcoins.Witness.{
  WitnessSighashArgs, WitnessTx, hash_outputs, hash_prevouts, hash_sequence, write_witness_preimage,
}
use bitcoins_rs.Bitcoins.Witness.Outcomes.{witness_preimage_total}
use bitcoins_rs.Bitcoins.Witness.Preimage.{
  hash_prevouts_lem, hash_sequence_lem, preimage_fields, write_witness_preimage-IsPreimage,
}
use bitcoins_rs.Hashes.{HashFunctions, hash256}
use bitcoins_rs.Ser.Format.{write_items}
use bitcoins_rs.Ser.Format.Codec.{encode_all, write_items_lem}
use bitcoins_rs.Wrapped.Laws.{encode_wrapped}

module _ (H : HashFunctions) where
  abbrev twice : Bytes → Bytes
  twice b = H.sha256 (H.sha256 b)

  abbrev all_outpoints : List TxInput → Bytes
  all_outpoints vin = twice (encode_all (λ i. encode_outpoint i.outpoint) vin)

  abbrev all_outputs : List TxOut → Bytes
  all_outputs vout = twice (encode_all encode_output vout)

  -- All outpoints, unless anyone can pay.
  abbrev pub prevouts_digest : Sighash → List TxInput → Bytes
  prevouts_digest Sighash.all vin = all_outpoints vin
  prevouts_digest Sighash.none vin = all_outpoints vin
  prevouts_digest single vin = all_outpoints vin
  prevouts_digest all_acp vin = replicate 32 0
  prevouts_digest none_acp vin = replicate 32 0
  prevouts_digest single_acp vin = replicate 32 0

  -- All sequence numbers, for the mode ALL alone.
  abbrev pub sequences_digest : Sighash → List TxInput → Bytes
  sequences_digest Sighash.all vin = twice (encode_all (λ i. le_bytes 4 i.sequence) vin)
  sequences_digest Sighash.none vin = replicate 32 0
  sequences_digest single vin = replicate 32 0
  sequences_digest all_acp vin = replicate 32 0
  sequences_digest none_acp vin = replicate 32 0
  sequences_digest single_acp vin = replicate 32 0

  abbrev one_output : Option TxOut → Option Bytes
  one_output none = none
  one_output (some o) = some (twice (encode_output o))

  -- All outputs, or the one at the index of the input. NONE is not supported, and neither is SINGLE
  -- without an output at the index.
  abbrev pub outputs_digest : Sighash → ℕ → List TxOut → Option Bytes
  outputs_digest Sighash.all index vout = some (all_outputs vout)
  outputs_digest all_acp index vout = some (all_outputs vout)
  outputs_digest single index vout = one_output (get_elem? vout index)
  outputs_digest single_acp index vout = one_output (get_elem? vout index)
  outputs_digest Sighash.none index vout = none
  outputs_digest none_acp index vout = none

  -- The ten fields, for the signed input and the digest of the outputs.
  abbrev pub fields : LegacyTx → WitnessSighashArgs → TxInput → Bytes → Bytes
  fields tx args input outputs =
      le_bytes 4 tx.version
      ++ (prevouts_digest args.sighash_flag tx.vin
          ++ (sequences_digest args.sighash_flag tx.vin
              ++ (encode_outpoint input.outpoint
                  ++ (encode_wrapped args.prevout_script
                      ++ (le_bytes 8 args.prevout_value
                          ++ (le_bytes 4 input.sequence
                              ++ (outputs
                                  ++ (le_bytes 4 tx.locktime
                                      ++ le_bytes 4 (to_u8 args.sighash_flag)))))))))

  abbrev behind :
      LegacyTx → Bytes → WitnessSighashArgs → Option TxInput → Option Bytes → Option Bytes
  behind tx w args none outputs = none
  behind tx w args (some input) none = none
  behind tx w args (some input) (some outputs) = some (w ++ fields tx args input outputs)

  -- The preimage behind what was written before, if there is an input at the index and the mode is
  -- supported.
  abbrev pub bip143 : LegacyTx → Bytes → WitnessSighashArgs → Option Bytes
  bip143 tx w args =
      behind tx w args (get_elem? tx.vin args.index)
        (outputs_digest args.sighash_flag args.index tx.vout)

  hash_prevouts-prevouts_digest :
      (tx : WitnessTx) (flag : Sighash)
      → hash_prevouts H tx flag ≡ prevouts_digest flag tx.legacy_tx.vin
  unfolding is_acp
  hash_prevouts-prevouts_digest tx Sighash.all = hash_prevouts_lem H tx Sighash.all
  hash_prevouts-prevouts_digest tx Sighash.none = hash_prevouts_lem H tx Sighash.none
  hash_prevouts-prevouts_digest tx single = hash_prevouts_lem H tx single
  hash_prevouts-prevouts_digest tx all_acp = hash_prevouts_lem H tx all_acp
  hash_prevouts-prevouts_digest tx none_acp = hash_prevouts_lem H tx none_acp
  hash_prevouts-prevouts_digest tx single_acp = hash_prevouts_lem H tx single_acp

  hash_sequence-sequences_digest :
      (tx : WitnessTx) (flag : Sighash)
      → is_none_mode flag ≡ false
      → hash_sequence H tx flag ≡ sequences_digest flag tx.legacy_tx.vin
  unfolding is_acp is_single is_none_mode
  hash_sequence-sequences_digest tx Sighash.all h = hash_sequence_lem H tx Sighash.all
  hash_sequence-sequences_digest tx Sighash.none h = cc
  hash_sequence-sequences_digest tx single h = hash_sequence_lem H tx single
  hash_sequence-sequences_digest tx all_acp h = hash_sequence_lem H tx all_acp
  hash_sequence-sequences_digest tx none_acp h = cc
  hash_sequence-sequences_digest tx single_acp h = hash_sequence_lem H tx single_acp

  all_written :
      (vout : List TxOut) (d : Bytes)
      → hash256 H (write_items write_output vout 0 []).1 ≡ d
      → some (all_outputs vout) ≡ some d
  unfolding hash256
  all_written vout d e =
      ap (λ b. some (twice b))
        (sym (write_items_lem encode_output write_output output_write vout 0 []))
      ∙ ap some e

  one_written :
      (o : Option TxOut) (d : Bytes)
      → ◌≡◌ {A = Result TxError Bytes}
          (unwrap o >>= λ output. ok (hash256 H (write_output output []).1))
          (ok d)
      → one_output o ≡ some d
  unfolding hash256
  one_written none d e = cc
  one_written (some o) d e =
      ap (λ b. some (twice b)) (sym (output_write o [])) ∙ ap some (ok-injective e)

  hash_outputs-outputs_digest :
      (tx : WitnessTx) (index : ℕ) (flag : Sighash) (d : Bytes)
      → is_none_mode flag ≡ false
      → hash_outputs H tx index flag ≡ ok d
      → outputs_digest flag index tx.legacy_tx.vout ≡ some d
  unfolding hash_outputs is_none_mode
  hash_outputs-outputs_digest tx index Sighash.all d h e =
      all_written tx.legacy_tx.vout d (ok-injective e)
  hash_outputs-outputs_digest tx index all_acp d h e =
      all_written tx.legacy_tx.vout d (ok-injective e)
  hash_outputs-outputs_digest tx index single d h e =
      one_written (get_elem? tx.legacy_tx.vout index) d e
  hash_outputs-outputs_digest tx index single_acp d h e =
      one_written (get_elem? tx.legacy_tx.vout index) d e
  hash_outputs-outputs_digest tx index Sighash.none d h e = cc
  hash_outputs-outputs_digest tx index none_acp d h e = cc

  fields_same :
      (tx : WitnessTx) (args : WitnessSighashArgs) (i : TxInput) (o : Bytes)
      → is_none_mode args.sighash_flag ≡ false
      → preimage_fields H tx args i o ≡ fields tx.legacy_tx args i o
  fields_same tx args i o mode =
      rw
        (
          hash_prevouts-prevouts_digest tx args.sighash_flag,
          hash_sequence-sequences_digest tx args.sighash_flag mode,
        )
        refl

  written_is_bip143 :
      (tx : WitnessTx) (w : Bytes) (args : WitnessSighashArgs) (out : Bytes)
      → write_witness_preimage H tx w args ≡ ok out
      → bip143 tx.legacy_tx w args ≡ some out
  written_is_bip143 tx w args out e =
      let p = write_witness_preimage-IsPreimage H tx w args out e in
      let digest =
        hash_outputs-outputs_digest tx args.index args.sighash_flag p.outputs p.mode_ok
          p.outputs_digest in
      rw (p.input_found, digest)
        (ap (λ z. some (w ++ z)) (sym (fields_same tx args p.input p.outputs p.mode_ok))
          ∙ ap some (sym p.layout))

  one_output-some :
      (vout : List TxOut) (index : ℕ) (d : Bytes)
      → one_output (get_elem? vout index) ≡ some d
      → index < length vout
  one_output-some [] index d e = cc
  one_output-some (o ∷ vout) zero d e = omega arith
  one_output-some (o ∷ vout) (suc index) d e = omega (arith, one_output-some vout index d e)

  -- What a preimage asks of the mode and the outputs.
  supported :
      (flag : Sighash) (index : ℕ) (vout : List TxOut) (d : Bytes)
      → outputs_digest flag index vout ≡ some d
      → (is_none_mode flag ≡ false) × (is_single_mode flag ≡ true → index < length vout)
  unfolding is_none_mode is_single_mode
  supported Sighash.all index vout d e = (refl, λ h. absurd cc)
  supported all_acp index vout d e = (refl, λ h. absurd cc)
  supported single index vout d e = (refl, λ h. one_output-some vout index d e)
  supported single_acp index vout d e = (refl, λ h. one_output-some vout index d e)
  supported Sighash.none index vout d e = cc
  supported none_acp index vout d e = cc

  behind-some :
      (tx : LegacyTx) (w : Bytes) (args : WitnessSighashArgs) (input : Option TxInput)
      (outputs : Option Bytes) (out : Bytes)
      → behind tx w args input outputs ≡ some out
      → (i : TxInput) × (d : Bytes) × (input ≡ some i) × (outputs ≡ some d)
  behind-some tx w args none outputs out e = cc
  behind-some tx w args (some i) none out e = cc
  behind-some tx w args (some i) (some d) out e = (i, d, refl, refl)

  -- The preimage that is written is the one of BIP143, behind what was written before, and one is
  -- written exactly if BIP143 has one for an input at the index and a mode that is supported.
  pub write_witness_preimage_iff :
      (tx : WitnessTx) (w : Bytes) (args : WitnessSighashArgs) (out : Bytes)
      → (write_witness_preimage H tx w args ≡ ok out) ↔ (bip143 tx.legacy_tx w args ≡ some out)
  write_witness_preimage_iff tx w args out = (
    written_is_bip143 tx w args out,
    λ e.
        let l = tx.legacy_tx in
        let (i, d, found, digest) =
          behind-some l w args (get_elem? l.vin args.index)
            (outputs_digest args.sighash_flag args.index l.vout) out e in
        let (mode, one) = supported args.sighash_flag args.index l.vout d digest in
        let (out', written) =
          witness_preimage_total H tx w args mode one (get_elem?-bound l.vin args.index found) in
        let same : out' ≡ out = some-eq_some (sym (written_is_bip143 tx w args out' written) ∙ e) in
        written ∙ ap ok same,
  )
