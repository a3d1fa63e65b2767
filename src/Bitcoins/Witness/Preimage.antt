-- ===== src/Bitcoins/Witness/Preimage.antt =====
-- The layout and the digests of the BIP143 preimage (bitcoins/src/types/witness.rs).
use bitcoins_rs.Base.{
  >>=-eq-ok, Bool-cases, Bytes, Option, Result, [], ap, append_assoc, fail_if-eq-ok, false,
  get_elem?, if◌then◌else◌, inl, inr, le_bytes, length, none, ok, ok-injective, refl, some, sym,
  unwrap, unwrap-eq-ok, ℕ, ◌++◌, ◌>>=◌, ◌||◌, ◌∙◌, ◌≡◌,
}
use mathlib.Core.Path.{subst}
use bitcoins_rs.Bitcoins.Sighash.{
  Sighash, TxError, all_acp, is_acp, is_none_mode, is_single, none_acp, single, single_acp, to_u8,
}
use bitcoins_rs.Bitcoins.TxIn.{TxInput, write_outpoint}
use bitcoins_rs.Bitcoins.TxIn.Laws.{encode_outpoint, outpoint_write}
use bitcoins_rs.Bitcoins.TxOut.{TxOut, write_output}
use bitcoins_rs.Bitcoins.Witness.{
  WitnessSighashArgs, WitnessTx, hash_outputs, hash_prevouts, hash_sequence, write_witness_preimage,
}
use bitcoins_rs.Hashes.{HashFunctions, hash256, null_digest}
use bitcoins_rs.Ser.Format.Codec.{encode_all, write_items_lem}
use bitcoins_rs.Ser.Stream.{write, write_u32_le, write_u64_le}
use bitcoins_rs.Ser.Stream.Laws.{write_u32_le_bytes, write_u32_le_lem, write_u64_le_bytes}
use bitcoins_rs.Wrapped.{write_wrapped}
use bitcoins_rs.Wrapped.Laws.{encode_wrapped, write_wrapped_bytes}

module _ (H : HashFunctions) where
  -- The digest of the outpoints is zeros under ANYONECANPAY, else the double SHA-256 of all of them.
  pub hash_prevouts_lem :
      (tx : WitnessTx) (flag : Sighash)
      → hash_prevouts H tx flag ≡ (
          if is_acp flag
          then null_digest 32
          else H.sha256 (H.sha256 (encode_all (λ i. encode_outpoint i.outpoint) tx.legacy_tx.vin)))
  unfolding hash_prevouts hash256
  hash_prevouts_lem tx flag = rw (
      write_items_lem (λ i. encode_outpoint i.outpoint) (λ i. write_outpoint i.outpoint)
        (λ i w. outpoint_write i.outpoint w) tx.legacy_tx.vin 0 [])

  -- The digest of the sequence numbers is zeros for SINGLE and ANYONECANPAY, else the double SHA-256
  -- of all of them.
  pub hash_sequence_lem :
      (tx : WitnessTx) (flag : Sighash)
      → hash_sequence H tx flag ≡ (
          if is_single flag || is_acp flag
          then null_digest 32
          else H.sha256 (H.sha256 (encode_all (λ i. le_bytes 4 i.sequence) tx.legacy_tx.vin)))
  unfolding hash_sequence hash256
  hash_sequence_lem tx flag = rw (
      write_items_lem (λ i. le_bytes 4 i.sequence) (λ i. write_u32_le i.sequence)
        (λ i w. ap (λ p. p.1) (write_u32_le_lem i.sequence w)) tx.legacy_tx.vin 0 [])

  hash256_size : (b : Bytes) → length (hash256 H b) ≡ 32
  unfolding hash256
  hash256_size b = H.sha256_size (H.sha256 b)

  pub hash_prevouts_size : (tx : WitnessTx) (flag : Sighash) → length (hash_prevouts H tx flag) ≡ 32
  unfolding hash_prevouts
  hash_prevouts_size tx flag = elim (Bool-cases (is_acp flag)) [
    | inl e ↦ rw e
    | inr e ↦ rw e (hash256_size _)
  ]

  pub hash_sequence_size : (tx : WitnessTx) (flag : Sighash) → length (hash_sequence H tx flag) ≡ 32
  unfolding hash_sequence
  hash_sequence_size tx flag = elim (Bool-cases (is_single flag || is_acp flag)) [
    | inl e ↦ rw e
    | inr e ↦ rw e (hash256_size _)
  ]

  one_output_size :
      (o : Option TxOut) (d : Bytes)
      → ◌≡◌ {A = Result TxError Bytes}
          (unwrap o >>= λ output. ok (hash256 H (write_output output []).1))
          (ok d)
      → length d ≡ 32
  one_output_size none d e = cc
  one_output_size (some o) d e = subst (λ z. length z ≡ 32) (ok-injective e) (hash256_size _)

  pub hash_outputs_size :
      (tx : WitnessTx) (index : ℕ) (flag : Sighash) (d : Bytes)
      → hash_outputs H tx index flag ≡ ok d
      → length d ≡ 32
  unfolding hash_outputs
  hash_outputs_size tx index Sighash.all d e =
      subst (λ z. length z ≡ 32) (ok-injective e) (hash256_size _)
  hash_outputs_size tx index all_acp d e =
      subst (λ z. length z ≡ 32) (ok-injective e) (hash256_size _)
  hash_outputs_size tx index single d e = one_output_size (get_elem? tx.legacy_tx.vout index) d e
  hash_outputs_size tx index single_acp d e =
      one_output_size (get_elem? tx.legacy_tx.vout index) d e
  hash_outputs_size tx index Sighash.none d e = subst (λ z. length z ≡ 32) (ok-injective e) refl
  hash_outputs_size tx index none_acp d e = subst (λ z. length z ≡ 32) (ok-injective e) refl

  -- The fields that are written, for the input and the digest of the outputs.
  abbrev pub preimage_fields : WitnessTx → WitnessSighashArgs → TxInput → Bytes → Bytes
  preimage_fields tx args input outputs =
      le_bytes 4 tx.legacy_tx.version
      ++ (hash_prevouts H tx args.sighash_flag
          ++ (hash_sequence H tx args.sighash_flag
              ++ (encode_outpoint input.outpoint
                  ++ (encode_wrapped args.prevout_script
                      ++ (le_bytes 8 args.prevout_value
                          ++ (le_bytes 4 input.sequence
                              ++ (outputs
                                  ++ (le_bytes 4 tx.legacy_tx.locktime
                                      ++ le_bytes 4 (to_u8 args.sighash_flag)))))))))

  -- What a successful preimage is made of.
  pub record IsPreimage (tx : WitnessTx) (w : Bytes) (args : WitnessSighashArgs) (out : Bytes)
      : Type 0 where
    pub input : TxInput
    pub outputs : Bytes
    pub mode_ok : is_none_mode args.sighash_flag ≡ false
    pub input_found : get_elem? tx.legacy_tx.vin args.index ≡ some input
    pub outputs_digest : hash_outputs H tx args.index args.sighash_flag ≡ ok outputs
    pub layout : out ≡ w ++ preimage_fields tx args input outputs

  -- The writes of the preimage, one after the other.
  pub writes :
      (tx : WitnessTx) (w : Bytes) (args : WitnessSighashArgs) (i : TxInput) (o : Bytes)
      → (write_u32_le
          (to_u8 args.sighash_flag)
          (write_u32_le tx.legacy_tx.locktime
            (write o
              (write_u32_le i.sequence
                (write_u64_le args.prevout_value
                  (write_wrapped args.prevout_script
                    (write_outpoint i.outpoint
                      (write
                        (hash_sequence H tx args.sighash_flag)
                        (write
                          (hash_prevouts H tx args.sighash_flag)
                          (write_u32_le tx.legacy_tx.version w).1).1).1).1).1).1).1).1).1).1
        ≡ w ++ preimage_fields tx args i o
  unfolding write
  writes tx w args i o =
      simp
        (write_u32_le_bytes, write_u64_le_bytes, write_wrapped_bytes, outpoint_write, append_assoc)

  -- A preimage that is written has these fields, with the digests of the code, after what was there.
  pub write_witness_preimage-IsPreimage :
      (tx : WitnessTx) (w : Bytes) (args : WitnessSighashArgs) (out : Bytes)
      → write_witness_preimage H tx w args ≡ ok out
      → IsPreimage tx w args out
  unfolding write_witness_preimage
  write_witness_preimage-IsPreimage tx w args out e =
      let (mode, e1) = fail_if-eq-ok _ _ _ e in
      let (_, e2) = fail_if-eq-ok _ _ _ e1 in
      let (i, m, e3) = >>=-eq-ok (unwrap (get_elem? tx.legacy_tx.vin args.index)) _ e2 in
      let (o, m', e4) = >>=-eq-ok (hash_outputs H tx args.index args.sighash_flag) _ e3 in
      record {
        input = i;
        outputs = o;
        mode_ok = mode;
        input_found = unwrap-eq-ok (get_elem? tx.legacy_tx.vin args.index) m;
        outputs_digest = m';
        layout = sym (ok-injective e4) ∙ writes tx w args i o;
      }
