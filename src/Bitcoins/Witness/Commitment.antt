-- ===== src/Bitcoins/Witness/Commitment.antt =====
-- The commitment of a BIP143 preimage (bitcoins/src/types/witness.rs).
use bitcoins_rs.Base.{
  Bytes, IsU64, [], ap, append-injective, append_assoc, from_le_bytes, from_le_bytes-le_bytes,
  get_elem?, le_bytes, length-le_bytes, ok, ok-pair_injective, some, sym, width, ℕ, ◌++◌, ◌<◌, ◌∙◌,
  ◌≡◌,
}
use bitcoins_rs.Bitcoins.Legacy.Commitment.{flag_word-injective}
use bitcoins_rs.Bitcoins.Legacy.Copy.{get_elem?-All}
use bitcoins_rs.Bitcoins.Legacy.Preimage.{map_elem}
use bitcoins_rs.Bitcoins.TxIn.{Outpoint, new_input, unsigned}
use bitcoins_rs.Bitcoins.TxIn.Laws.{IsInput, IsOutpoint, encode_outpoint}
use bitcoins_rs.Bitcoins.Witness.{
  WitnessSighashArgs, WitnessTx, hash_outputs, hash_prevouts, hash_sequence, write_witness_preimage,
}
use bitcoins_rs.Bitcoins.Witness.Format.{IsWitness}
use bitcoins_rs.Bitcoins.Witness.Preimage.{
  hash_outputs_size, hash_prevouts_size, hash_sequence_size, write_witness_preimage-IsPreimage,
}
use bitcoins_rs.Hashes.{HashFunctions}
use bitcoins_rs.Wrapped.{read_wrapped}
use bitcoins_rs.Wrapped.Laws.{IsScript, encode_wrapped, wrapped_format-IsCodec}

-- Two signings that commit to the same things: all but the other inputs' script sigs, and the
-- lists behind the three digests.
pub record IsSameCommitment (H : HashFunctions) (tx : WitnessTx) (args : WitnessSighashArgs)
    (tx' : WitnessTx) (args' : WitnessSighashArgs) : Type 0 where
  pub version : tx.legacy_tx.version ≡ tx'.legacy_tx.version
  pub prevouts : hash_prevouts H tx args.sighash_flag ≡ hash_prevouts H tx' args'.sighash_flag
  pub sequences : hash_sequence H tx args.sighash_flag ≡ hash_sequence H tx' args'.sighash_flag
  pub signed_input :
      map_elem unsigned (get_elem? tx.legacy_tx.vin args.index)
      ≡ map_elem unsigned (get_elem? tx'.legacy_tx.vin args'.index)
  pub script : args.prevout_script ≡ args'.prevout_script
  pub value : args.prevout_value ≡ args'.prevout_value
  pub outputs :
      hash_outputs H tx args.index args.sighash_flag
      ≡ hash_outputs H tx' args'.index args'.sighash_flag
  pub locktime : tx.legacy_tx.locktime ≡ tx'.legacy_tx.locktime
  pub mode : args.sighash_flag ≡ args'.sighash_flag

-- What is asked of the arguments of a signing.
pub record IsArgs (args : WitnessSighashArgs) : Type 0 where
  pub script_ok : IsScript args.prevout_script
  pub value_ok : IsU64 args.prevout_value

word-injective :
    (k n m : ℕ) {r s : Bytes}
    → n < width k
    → m < width k
    → le_bytes k n ++ r ≡ le_bytes k m ++ s
    → (n ≡ m) × (r ≡ s)
word-injective k n m hn hm e =
    let (same, rest) =
      append-injective (le_bytes k n) (le_bytes k m)
        (length-le_bytes k n ∙ sym (length-le_bytes k m)) e in
    (
      sym (from_le_bytes-le_bytes k n hn) ∙ ap from_le_bytes same ∙ from_le_bytes-le_bytes k m hm,
      rest,
    )

outpoint-injective :
    (o o' : Outpoint) {r s : Bytes}
    → IsOutpoint o
    → IsOutpoint o'
    → encode_outpoint o ++ r ≡ encode_outpoint o' ++ s
    → (o ≡ o') × (r ≡ s)
outpoint-injective o o' {r} {s} h h' e =
    let (txid, e1) = append-injective o.txid o'.txid (h.txid_digest.0 ∙ sym h'.txid_digest.0) (
      sym (append_assoc o.txid (le_bytes 4 o.idx) r)
      ∙ e
      ∙ append_assoc o'.txid (le_bytes 4 o'.idx) s) in
    let (idx, e2) = word-injective 4 o.idx o'.idx h.idx_fits h'.idx_fits e1 in
    ((λ i. record { txid = txid i; idx = idx i }), e2)

script-injective :
    (v v' : Bytes) {r s : Bytes}
    → IsScript v
    → IsScript v'
    → encode_wrapped v ++ r ≡ encode_wrapped v' ++ s
    → (v ≡ v') × (r ≡ s)
script-injective v v' {r} {s} h h' e = ok-pair_injective (
    sym (wrapped_format-IsCodec.read_back v r h)
    ∙ ap read_wrapped e
    ∙ wrapped_format-IsCodec.read_back v' s h')

module _ (H : HashFunctions) (tx tx' : WitnessTx) (args args' : WitnessSighashArgs) where
  -- Equal preimages of two valid transactions with valid arguments commit to the same version,
  -- locktime, mode, signed input, prevout script and value, and to equal digests of the outpoints,
  -- the sequence numbers and the outputs.
  pub witness_preimage_commits :
      (out : Bytes)
      → IsWitness tx
      → IsWitness tx'
      → IsArgs args
      → IsArgs args'
      → write_witness_preimage H tx [] args ≡ ok out
      → write_witness_preimage H tx' [] args' ≡ ok out
      → IsSameCommitment H tx args tx' args'
  unfolding unsigned
  witness_preimage_commits out h h' ha ha' e e' =
      let p = write_witness_preimage-IsPreimage H tx [] args out e in
      let p' = write_witness_preimage-IsPreimage H tx' [] args' out e' in
      let l = h.legacy_ok in
      let l' = h'.legacy_ok in
      let i = (get_elem?-All IsInput tx.legacy_tx.vin args.index l.vin_ok.1 p.input_found).0 in
      let i' = (get_elem?-All IsInput tx'.legacy_tx.vin args'.index l'.vin_ok.1 p'.input_found).0 in
      let (version, e1) =
        word-injective 4 tx.legacy_tx.version tx'.legacy_tx.version l.version_fits l'.version_fits
          (sym p.layout ∙ p'.layout) in
      let (prevouts, e2) =
        append-injective (hash_prevouts H tx args.sighash_flag)
          (hash_prevouts H tx' args'.sighash_flag)
          (hash_prevouts_size H tx args.sighash_flag
            ∙ sym (hash_prevouts_size H tx' args'.sighash_flag))
          e1 in
      let (sequences, e3) =
        append-injective (hash_sequence H tx args.sighash_flag)
          (hash_sequence H tx' args'.sighash_flag)
          (hash_sequence_size H tx args.sighash_flag
            ∙ sym (hash_sequence_size H tx' args'.sighash_flag))
          e2 in
      let (outpoint, e4) =
        outpoint-injective p.input.outpoint p'.input.outpoint i.outpoint_ok i'.outpoint_ok e3 in
      let (script, e5) =
        script-injective args.prevout_script args'.prevout_script ha.script_ok ha'.script_ok e4 in
      let (value, e6) =
        word-injective 8 args.prevout_value args'.prevout_value ha.value_ok ha'.value_ok e5 in
      let (sequence, e7) =
        word-injective 4 p.input.sequence p'.input.sequence i.sequence_fits i'.sequence_fits e6 in
      let (outputs, e8) =
        append-injective p.outputs p'.outputs
          (hash_outputs_size H tx args.index args.sighash_flag p.outputs p.outputs_digest
            ∙ sym (
                hash_outputs_size H tx' args'.index args'.sighash_flag p'.outputs
                  p'.outputs_digest))
          e7 in
      let (locktime, e9) =
        word-injective 4 tx.legacy_tx.locktime tx'.legacy_tx.locktime l.locktime_fits
          l'.locktime_fits e8 in
      record {
        version = version;
        prevouts = prevouts;
        sequences = sequences;
        signed_input =
            ap (map_elem unsigned) p.input_found
            ∙ (λ j. some (unsigned (new_input (outpoint j) [] (sequence j))))
            ∙ ap (map_elem unsigned) (sym p'.input_found);
        script = script;
        value = value;
        outputs = p.outputs_digest ∙ ap ok outputs ∙ sym p'.outputs_digest;
        locktime = locktime;
        mode = flag_word-injective args.sighash_flag args'.sighash_flag e9;
      }
