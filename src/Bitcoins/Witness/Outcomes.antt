-- ===== src/Bitcoins/Witness/Outcomes.antt =====
-- The outcomes of the BIP143 sighash and the constructor of bitcoins/src/types/witness.rs.
use bitcoins_rs.Base.{
  ==_iff, Bool, Bool-cases, Bytes, List, Option-cases, [], and-eq_true, ap, arith, err, false,
  get_elem?, if◌then◌else◌, inl, inr, leb, leb→le, length, length-resize, le→leb, lt→leb, map, ok,
  ok-injective, panic, refl, resize, suc, take, true, zero, ℕ, ◌&&◌, ◌++◌, ◌+◌, ◌-◌, ◌<◌, ◌==◌, ◌∷◌,
  ◌≡◌, ◌≢◌, ◌≤◌,
}
use mathlib.Core.Path.{subst}
use bitcoins_rs.Bitcoins.Legacy.{new_legacy}
use bitcoins_rs.Bitcoins.Legacy.Outcomes.{
  Outcome, get_elem?-le, get_elem?-lt, made, outcome, panics, refused, single_ne_none, when_leb,
}
use bitcoins_rs.Bitcoins.Legacy.Preimage.{map_elem}
use bitcoins_rs.Bitcoins.Sighash.{
  Sighash, all_acp, is_none_mode, is_single_mode, none_acp, none_unsupported, sighash_single_bug,
  single, single_acp,
}
use bitcoins_rs.Bitcoins.TxIn.{TxInput, unsigned, write_outpoint}
use bitcoins_rs.Bitcoins.TxOut.{TxOut, write_output}
use bitcoins_rs.Bitcoins.Witness.{
  WitnessSighashArgs, WitnessStack, WitnessTx, hash_outputs, hash_prevouts, hash_sequence,
  new_witness, write_witness_preimage,
}
use bitcoins_rs.Bitcoins.Witness.Preimage.{preimage_fields, writes}
use bitcoins_rs.Hashes.{HashFunctions, hash256, null_digest}
use bitcoins_rs.Ser.Format.{write_items}
use bitcoins_rs.Ser.Stream.{write_u32_le}

write_items-map :
    {A B : Type 0} (f : B → Bytes → ℕ × Bytes) (g : A → B) (v : List A) (n : ℕ) (w : Bytes)
    → write_items f (map g v) n w ≡ write_items (λ a. f (g a)) v n w
unfolding write_items
write_items-map f g [] n w = refl
write_items-map f g (a ∷ v) n w = write_items-map f g v (n + (f (g a) w).0) (f (g a) w).1

get_elem?-unsigned :
    (v : List TxInput) (i : ℕ) → get_elem? (map unsigned v) i ≡ map_elem unsigned (get_elem? v i)
get_elem?-unsigned [] i = refl
get_elem?-unsigned (t ∷ v) zero = refl
get_elem?-unsigned (t ∷ v) (suc i) = get_elem?-unsigned v i

-- The transaction with other witnesses, and with no script sigs.
unfoldable pub stripped : WitnessTx → List WitnessStack → WitnessTx
stripped tx ws = record {
  legacy_tx = record {
    version = tx.legacy_tx.version;
    vin = map unsigned tx.legacy_tx.vin;
    vout = tx.legacy_tx.vout;
    locktime = tx.legacy_tx.locktime;
  };
  witnesses = ws;
}

-- NONE is refused; a SINGLE with no output at its index is refused; an index with no input panics.
unfoldable pub witness_outcome : WitnessTx → WitnessSighashArgs → Outcome
witness_outcome tx args =
    if is_none_mode args.sighash_flag
    then refused none_unsupported
    else (if is_single_mode args.sighash_flag && leb (length tx.legacy_tx.vout) args.index
        then refused sighash_single_bug
        else (if leb (length tx.legacy_tx.vin) args.index then panics else made))

module _ (H : HashFunctions) where
  hash_prevouts-stripped :
      (tx : WitnessTx) (ws : List WitnessStack) (flag : Sighash)
      → hash_prevouts H (stripped tx ws) flag ≡ hash_prevouts H tx flag
  unfolding hash_prevouts stripped unsigned
  hash_prevouts-stripped tx ws flag =
      rw (
        write_items-map (λ (i : TxInput). write_outpoint i.outpoint) unsigned tx.legacy_tx.vin 0 [])

  hash_sequence-stripped :
      (tx : WitnessTx) (ws : List WitnessStack) (flag : Sighash)
      → hash_sequence H (stripped tx ws) flag ≡ hash_sequence H tx flag
  unfolding hash_sequence stripped unsigned
  hash_sequence-stripped tx ws flag =
      rw (write_items-map (λ (i : TxInput). write_u32_le i.sequence) unsigned tx.legacy_tx.vin 0 [])

  hash_outputs-stripped :
      (tx : WitnessTx) (ws : List WitnessStack) (index : ℕ) (flag : Sighash)
      → hash_outputs H (stripped tx ws) index flag ≡ hash_outputs H tx index flag
  unfolding hash_outputs stripped
  hash_outputs-stripped tx ws index Sighash.all = refl
  hash_outputs-stripped tx ws index _ = refl

  -- The preimage depends neither on the witnesses nor on the script sigs.
  pub witness_preimage_ignores_scripts :
      (tx : WitnessTx) (ws : List WitnessStack) (w : Bytes) (args : WitnessSighashArgs)
      → write_witness_preimage H (stripped tx ws) w args ≡ write_witness_preimage H tx w args
  unfolding write_witness_preimage stripped unsigned
  witness_preimage_ignores_scripts tx ws w args =
      elim (Option-cases (get_elem? tx.legacy_tx.vin args.index)) [
        | inl missing ↦ rw (get_elem?-unsigned tx.legacy_tx.vin args.index, missing)
        | inr (i, found) ↦ rw (
          get_elem?-unsigned tx.legacy_tx.vin args.index,
          found,
          hash_prevouts-stripped tx ws args.sighash_flag,
          hash_sequence-stripped tx ws args.sighash_flag,
          hash_outputs-stripped tx ws args.index args.sighash_flag,
        )
      ]

  hash_outputs-total :
      (tx : WitnessTx) (index : ℕ) (flag : Sighash)
      → (is_single_mode flag ≡ true → index < length tx.legacy_tx.vout)
      → (d : Bytes) × (hash_outputs H tx index flag ≡ ok d)
  unfolding hash_outputs is_single_mode
  hash_outputs-total tx index Sighash.all h =
      (hash256 H (write_items write_output tx.legacy_tx.vout 0 []).1, refl)
  hash_outputs-total tx index all_acp h =
      (hash256 H (write_items write_output tx.legacy_tx.vout 0 []).1, refl)
  hash_outputs-total tx index single h =
      let (o, e) = get_elem?-lt tx.legacy_tx.vout index (h refl) in
      (hash256 H (write_output o []).1, rw e)
  hash_outputs-total tx index single_acp h =
      let (o, e) = get_elem?-lt tx.legacy_tx.vout index (h refl) in
      (hash256 H (write_output o []).1, rw e)
  hash_outputs-total tx index Sighash.none h = (null_digest 32, refl)
  hash_outputs-total tx index none_acp h = (null_digest 32, refl)

  single_guard : (n index : ℕ) (b : Bool) → (b ≡ true → index < n) → (b && leb n index) ≡ false
  single_guard n index true h = lt→leb n index (h refl)
  single_guard n index false h = refl

  pub witness_preimage_total :
      (tx : WitnessTx) (w : Bytes) (args : WitnessSighashArgs)
      → is_none_mode args.sighash_flag ≡ false
      → (is_single_mode args.sighash_flag ≡ true → args.index < length tx.legacy_tx.vout)
      → args.index < length tx.legacy_tx.vin
      → (out : Bytes) × (write_witness_preimage H tx w args ≡ ok out)
  unfolding write_witness_preimage
  witness_preimage_total tx w args mode one input =
      let (i, found) = get_elem?-lt tx.legacy_tx.vin args.index input in
      let (d, outputs) = hash_outputs-total tx args.index args.sighash_flag one in
      (
        w ++ preimage_fields H tx args i d,
        rw
            (
              mode,
              single_guard (length tx.legacy_tx.vout) args.index (is_single_mode args.sighash_flag)
                  one,
              found,
              outputs,
            )
            (ap ok (writes H tx w args i d)),
      )

  witness_preimage_failures :
      (tx : WitnessTx) (w : Bytes) (args : WitnessSighashArgs)
      → (is_none_mode args.sighash_flag ≡ true
          → write_witness_preimage H tx w args ≡ err none_unsupported)
        × (is_single_mode args.sighash_flag ≡ true
            → length tx.legacy_tx.vout ≤ args.index
            → write_witness_preimage H tx w args ≡ err sighash_single_bug)
        × (is_none_mode args.sighash_flag ≡ false
            → (is_single_mode args.sighash_flag ≡ true → args.index < length tx.legacy_tx.vout)
            → length tx.legacy_tx.vin ≤ args.index
            → write_witness_preimage H tx w args ≡ panic)
  unfolding write_witness_preimage
  witness_preimage_failures tx w args = (
    λ h. rw h,
    λ h l.
        rw (single_ne_none args.sighash_flag h, h, le→leb (length tx.legacy_tx.vout) args.index l),
    λ mode one l. rw (
      mode,
      single_guard (length tx.legacy_tx.vout) args.index (is_single_mode args.sighash_flag) one,
      get_elem?-le tx.legacy_tx.vin args.index l,
    ),
  )

  -- For every transaction and all arguments, the preimage is made, refused, or panics, as
  -- `witness_outcome` says.
  pub witness_preimage_outcome :
      (tx : WitnessTx) (w : Bytes) (args : WitnessSighashArgs)
      → outcome (write_witness_preimage H tx w args) ≡ witness_outcome tx args
  unfolding outcome witness_outcome
  witness_preimage_outcome tx w args =
      let (no_mode, no_output, no_input) = witness_preimage_failures tx w args in
      let vouts = length tx.legacy_tx.vout in
      let vins = length tx.legacy_tx.vin in
      elim (Bool-cases (is_none_mode args.sighash_flag)) [
        | inl e ↦ rw (no_mode e, e)
        | inr mode ↦ elim (Bool-cases (is_single_mode args.sighash_flag && leb vouts args.index)) [
          | inl e ↦
              let (one, none_there) = and-eq_true (is_single_mode args.sighash_flag) _ e in
              rw (no_output one (leb→le vouts args.index none_there), mode, one, none_there)
          | inr there ↦
              let in_range = when_leb (is_single_mode args.sighash_flag) vouts args.index there in
              elim (Bool-cases (leb vins args.index)) [
                | inl e ↦ rw (no_input mode in_range (leb→le vins args.index e), mode, there, e)
                | inr found ↦
                    let (out, written) =
                      witness_preimage_total tx w args mode in_range (ground arith) in
                    rw (written, mode, there, found)
              ]
        ]
      ]

-- The witnesses that `WitnessTransaction::new` makes for `n` inputs.
abbrev pub fitted : ℕ → List WitnessStack → List WitnessStack
fitted n wits = if length wits == n then wits else resize n [] wits

length-fitted : (n : ℕ) (wits : List WitnessStack) → length (fitted n wits) ≡ n
length-fitted n wits = elim (Bool-cases (length wits == n)) [
  | inl same ↦ rw same ((==_iff (length wits) n).0 same)
  | inr other ↦ rw other (length-resize n [] wits)
]

take-resize :
    (n : ℕ) (a : WitnessStack) (v : List WitnessStack) → take (length v) (resize n a v) ≡ take n v
take-resize zero a v =
    let nothing : 0 - length v ≡ 0 = omega arith in rw nothing (take_nil (length v))
  where
    take_nil : (k : ℕ) → take {A = WitnessStack} k [] ≡ []
    take_nil zero = refl
    take_nil (suc k) = refl
take-resize (suc n) a [] = refl
take-resize (suc n) a (x ∷ v) =
    let same : suc n - suc (length v) ≡ n - length v = omega arith in
    rw same (ap (λ l. x ∷ l) (take-resize n a v))

take-fitted : (n : ℕ) (wits : List WitnessStack) → take (length wits) (fitted n wits) ≡ take n wits
take-fitted n wits = elim (Bool-cases (length wits == n)) [
  | inl same ↦ let size : length wits ≡ n = (==_iff (length wits) n).0 same in rw (same, size)
  | inr other ↦ rw other (take-resize n [] wits)
]

-- `WitnessTransaction::new` keeps the inputs and the outputs, refuses to have none of either, and
-- gives every input a witness: the witnesses given, cut to the number of inputs or filled up.
pub new_witness_lem :
    (version : ℕ) (vins : List TxInput) (vouts : List TxOut) (wits : List WitnessStack)
    (locktime : ℕ) (tx : WitnessTx)
    → new_witness version vins vouts wits locktime ≡ ok tx
    → (vins ≢ [])
      × (vouts ≢ [])
      × (tx.legacy_tx.vin ≡ vins)
      × (tx.legacy_tx.vout ≡ vouts)
      × (length tx.witnesses ≡ length tx.legacy_tx.vin)
      × (take (length wits) tx.witnesses ≡ take (length vins) wits)
unfolding new_witness new_legacy
new_witness_lem version [] vouts wits locktime tx e = cc
new_witness_lem version (v ∷ vins) [] wits locktime tx e = cc
new_witness_lem version (v ∷ vins) (o ∷ vouts) wits locktime tx e =
    subst
      (λ (t : WitnessTx).
        ((v ∷ vins) ≢ [])
        × ((o ∷ vouts) ≢ [])
        × (t.legacy_tx.vin ≡ v ∷ vins)
        × (t.legacy_tx.vout ≡ o ∷ vouts)
        × (length t.witnesses ≡ length t.legacy_tx.vin)
        × (take (length wits) t.witnesses ≡ take (suc (length vins)) wits))
      (ok-injective e)
      (
        λ h. absurd cc,
        λ h. absurd cc,
        refl,
        refl,
        length-fitted (suc (length vins)) wits,
        take-fitted (suc (length vins)) wits,
      )
