-- ===== src/Bitcoins/Legacy/Outcomes.antt =====
-- The outcomes of the legacy sighash (bitcoins/src/types/legacy.rs).
use bitcoins_rs.Base.{
  Bool, Bool-cases, Bytes, List, Option-cases, Result, [], and-eq_true, ap, arith, err, fail_if,
  false, get_elem?, if◌then◌else◌, inl, inr, leb, leb→le, length, le→leb, lt→leb, map, none, ok,
  panic, refl, replicate, some, suc, sym, true, unwrap, zero, ℕ, ◌&&◌, ◌++◌, ◌+◌, ◌<◌, ◌>>=◌, ◌>>◌,
  ◌∙◌, ◌∷◌, ◌≡◌, ◌≤◌,
}
use bitcoins_rs.Bitcoins.Legacy.{
  LegacySighashArgs, LegacyTx, legacy_sighash_anyone_can_pay, legacy_sighash_copy,
  legacy_sighash_prep, legacy_sighash_single, prep_inputs, write_legacy, write_legacy_preimage,
  zero_sequences,
}
use bitcoins_rs.Bitcoins.Legacy.Preimage.{
  acp_copy, committed_by, map_elem, single_copy, single_copy-Shape, single_inputs_lem,
}
use bitcoins_rs.Bitcoins.Sighash.{
  Sighash, TxError, all, all_acp, is_acp, is_none_mode, is_single_mode, none_acp, none_unsupported,
  sighash_single_bug, single, single_acp, to_u8,
}
use bitcoins_rs.Bitcoins.TxIn.{TxInput, unsigned}
use bitcoins_rs.Bitcoins.TxOut.{null_output}
use bitcoins_rs.Ser.Stream.{write_u32_le}

pub get_elem?-lt :
    {A : Type 0} (v : List A) (i : ℕ) → i < length v → (a : A) × (get_elem? v i ≡ some a)
get_elem?-lt [] i h = absurd (omega arith)
get_elem?-lt (x ∷ v) zero h = (x, refl)
get_elem?-lt (x ∷ v) (suc i) h = get_elem?-lt v i (omega arith)

pub get_elem?-le : {A : Type 0} (v : List A) (i : ℕ) → length v ≤ i → get_elem? v i ≡ none
get_elem?-le [] i h = refl
get_elem?-le (x ∷ v) zero h = absurd (omega arith)
get_elem?-le (x ∷ v) (suc i) h = get_elem?-le v i (omega arith)

single_copy-total :
    (tx : LegacyTx) (args : LegacySighashArgs) (one : Bool)
    → (one ≡ true → args.index < length tx.vout)
    → (copy1 : LegacyTx) × (single_copy tx args one ≡ ok copy1)
unfolding single_copy legacy_sighash_single legacy_sighash_prep
single_copy-total tx args false h = (_, refl)
single_copy-total tx args true h =
    let (o, found) = get_elem?-lt tx.vout args.index (h refl) in
    let prepared = prep_inputs 0 args.index args.prevout_script tx.vin in
    let made : LegacyTx = record tx {
      vin = zero_sequences 0 args.index prepared;
      vout = replicate args.index null_output ++ (o ∷ []);
    } in
    (made, rw (lt→leb (length tx.vout) args.index (h refl), found))

-- The input to be signed, in the copy.
copy_input :
    (tx : LegacyTx) (args : LegacySighashArgs) (one : Bool) (copy1 : LegacyTx)
    → single_copy tx args one ≡ ok copy1
    → get_elem? copy1.vin args.index
      ≡ map_elem (committed_by one args args.index) (get_elem? tx.vin args.index)
copy_input tx args one copy1 m =
    ap (λ v. get_elem? v args.index) (single_copy-Shape tx args one copy1 m).inputs
    ∙ single_inputs_lem tx args one args.index

acp_copy-total :
    (tx : LegacyTx) (args : LegacySighashArgs) (one acp : Bool) (copy1 : LegacyTx)
    → single_copy tx args one ≡ ok copy1
    → (acp ≡ true → args.index < length tx.vin)
    → (copy : LegacyTx) × (acp_copy args.index copy1 acp ≡ ok copy)
unfolding acp_copy legacy_sighash_anyone_can_pay
acp_copy-total tx args one false copy1 m h = (copy1, refl)
acp_copy-total tx args one true copy1 m h =
    let (t, found) = get_elem?-lt tx.vin args.index (h refl) in
    let made : LegacyTx = record copy1 { vin = committed_by one args args.index t ∷ [] } in
    (made, rw (copy_input tx args one copy1 m, found))

pub legacy_preimage_total :
    (tx : LegacyTx) (w : Bytes) (args : LegacySighashArgs)
    → is_none_mode args.sighash_flag ≡ false
    → (is_single_mode args.sighash_flag ≡ true → args.index < length tx.vout)
    → (is_acp args.sighash_flag ≡ true → args.index < length tx.vin)
    → (out : Bytes) × (write_legacy_preimage tx w args ≡ ok out)
unfolding write_legacy_preimage legacy_sighash_copy single_copy acp_copy
legacy_preimage_total tx w args no_none single_ok acp_ok =
    let one = is_single_mode args.sighash_flag in
    let acp = is_acp args.sighash_flag in
    let (copy1, m) = single_copy-total tx args one single_ok in
    let (copy, m') = acp_copy-total tx args one acp copy1 m acp_ok in
    ((write_u32_le (to_u8 args.sighash_flag) (write_legacy copy w).1).1, rw (no_none, m, m'))

pub single_ne_none : (f : Sighash) → is_single_mode f ≡ true → is_none_mode f ≡ false
unfolding is_single_mode is_none_mode
single_ne_none all h = refl
single_ne_none Sighash.none h = absurd (cc)
single_ne_none single h = refl
single_ne_none all_acp h = refl
single_ne_none none_acp h = absurd (cc)
single_ne_none single_acp h = refl

acp_copy-panic :
    (tx : LegacyTx) (args : LegacySighashArgs) (one : Bool) (copy1 : LegacyTx)
    → single_copy tx args one ≡ ok copy1
    → length tx.vin ≤ args.index
    → acp_copy args.index copy1 true ≡ panic
unfolding acp_copy legacy_sighash_anyone_can_pay
acp_copy-panic tx args one copy1 m l =
    rw (copy_input tx args one copy1 m, get_elem?-le tx.vin args.index l)

legacy_preimage_failures :
    (tx : LegacyTx) (w : Bytes) (args : LegacySighashArgs)
    → (is_none_mode args.sighash_flag ≡ true
        → write_legacy_preimage tx w args ≡ err none_unsupported)
      × (is_single_mode args.sighash_flag ≡ true
          → length tx.vout ≤ args.index
          → write_legacy_preimage tx w args ≡ err sighash_single_bug)
      × (is_acp args.sighash_flag ≡ true
          → is_none_mode args.sighash_flag ≡ false
          → (is_single_mode args.sighash_flag ≡ true → args.index < length tx.vout)
          → length tx.vin ≤ args.index
          → write_legacy_preimage tx w args ≡ panic)
unfolding write_legacy_preimage legacy_sighash_copy single_copy acp_copy
legacy_preimage_failures tx w args = (λ h. rw h, single_bug, no_input)
  where
    single_bug :
        is_single_mode args.sighash_flag ≡ true
        → length tx.vout ≤ args.index
        → write_legacy_preimage tx w args ≡ err sighash_single_bug
    single_bug h l =
        rw (single_ne_none args.sighash_flag h, h, le→leb (length tx.vout) args.index l)

    no_input :
        is_acp args.sighash_flag ≡ true
        → is_none_mode args.sighash_flag ≡ false
        → (is_single_mode args.sighash_flag ≡ true → args.index < length tx.vout)
        → length tx.vin ≤ args.index
        → write_legacy_preimage tx w args ≡ panic
    no_input acp no_none single_ok l =
        let one = is_single_mode args.sighash_flag in
        let (copy1, m) = single_copy-total tx args one single_ok in
        rw (no_none, m, acp, acp_copy-panic tx args one copy1 m l)

-- How a signing ends.
pub data Outcome : Type 0 where
  made : Outcome
  refused : TxError → Outcome
  panics : Outcome

unfoldable pub outcome : {A : Type 0} → Result TxError A → Outcome
outcome (ok _) = made
outcome (err e) = refused e
outcome panic = panics

-- NONE is refused; a SINGLE with no output at its index is refused; an ANYONECANPAY with no input at
-- its index panics.
unfoldable pub legacy_outcome : LegacyTx → LegacySighashArgs → Outcome
legacy_outcome tx args =
    if is_none_mode args.sighash_flag
    then refused none_unsupported
    else (if is_single_mode args.sighash_flag && leb (length tx.vout) args.index
        then refused sighash_single_bug
        else (if is_acp args.sighash_flag && leb (length tx.vin) args.index then panics else made))

pub when_leb : (b : Bool) (n i : ℕ) → (b && leb n i) ≡ false → b ≡ true → i < n
when_leb true n i h e = ground arith
when_leb false n i h e = cc

-- For every transaction and all arguments, the preimage is made, refused, or panics, as
-- `legacy_outcome` says.
pub legacy_preimage_outcome :
    (tx : LegacyTx) (w : Bytes) (args : LegacySighashArgs)
    → outcome (write_legacy_preimage tx w args) ≡ legacy_outcome tx args
unfolding outcome legacy_outcome
legacy_preimage_outcome tx w args =
    let (no_mode, no_output, no_input) = legacy_preimage_failures tx w args in
    elim (Bool-cases (is_none_mode args.sighash_flag)) [
      | inl e ↦ rw (no_mode e, e)
      | inr mode ↦
          elim (Bool-cases (is_single_mode args.sighash_flag && leb (length tx.vout) args.index)) [
            | inl e ↦
                let (one, none_there) = and-eq_true (is_single_mode args.sighash_flag) _ e in
                rw (
                  no_output one (leb→le (length tx.vout) args.index none_there),
                  mode,
                  one,
                  none_there,
                )
            | inr there ↦
                let in_range =
                  when_leb (is_single_mode args.sighash_flag) (length tx.vout) args.index there in
                elim (Bool-cases (is_acp args.sighash_flag && leb (length tx.vin) args.index)) [
                  | inl e ↦
                      let (acp, none_there) = and-eq_true (is_acp args.sighash_flag) _ e in
                      rw (
                        no_input acp mode in_range (leb→le (length tx.vin) args.index none_there),
                        mode,
                        there,
                        acp,
                        none_there,
                      )
                  | inr found ↦
                      let (out, written) =
                        legacy_preimage_total tx w args mode in_range
                          (when_leb (is_acp args.sighash_flag) (length tx.vin) args.index found) in
                      rw (written, mode, there, found)
                ]
          ]
    ]

prep_inputs-unsigned :
    (i index : ℕ) (script : Bytes) (vin : List TxInput)
    → prep_inputs i index script (map unsigned vin) ≡ prep_inputs i index script vin
unfolding prep_inputs unsigned
prep_inputs-unsigned i index script [] = refl
prep_inputs-unsigned i index script (t ∷ vin) = rw (prep_inputs-unsigned (i + 1) index script vin)

-- The preimage does not depend on the script sigs: they can change without touching a signature.
pub legacy_preimage_ignores_scripts :
    (tx : LegacyTx) (w : Bytes) (args : LegacySighashArgs)
    → write_legacy_preimage (record tx { vin = map unsigned tx.vin }) w args
      ≡ write_legacy_preimage tx w args
unfolding write_legacy_preimage legacy_sighash_copy legacy_sighash_prep
legacy_preimage_ignores_scripts tx w args =
    rw (prep_inputs-unsigned 0 args.index args.prevout_script tx.vin)

-- The ANYONECANPAY copy of a transaction with the inputs `v`.
acp_of : LegacyTx → LegacySighashArgs → List TxInput → Bool → Result TxError LegacyTx
acp_of tx args v one =
    single_copy (record tx { vin = v }) args one >>= λ c. acp_copy args.index c true

acp_of-vin :
    (tx : LegacyTx) (args : LegacySighashArgs) (v v' : List TxInput) (one : Bool)
    → get_elem? v args.index ≡ get_elem? v' args.index
    → acp_of tx args v one ≡ acp_of tx args v' one
unfolding acp_of single_copy acp_copy legacy_sighash_anyone_can_pay legacy_sighash_single
    legacy_sighash_prep
acp_of-vin tx args v v' false h =
    ap (λ o. unwrap o >>= λ t. ok (record tx { vin = t ∷ [] }))
      (single_inputs_lem (record tx { vin = v }) args false args.index
        ∙ ap (map_elem _) h
        ∙ sym (single_inputs_lem (record tx { vin = v' }) args false args.index))
acp_of-vin tx args v v' true h = elim (Bool-cases (leb (length tx.vout) args.index)) [
  | inl bug ↦ rw bug
  | inr found ↦ elim (Option-cases (get_elem? tx.vout args.index)) [
    | inl e ↦ rw (found, e)
    | inr (o, e) ↦
        rw (found, e)
          (ap
            (λ x. unwrap x >>= λ t.
              ok (record tx { vin = t ∷ []; vout = replicate args.index null_output ++ (o ∷ []) }))
            (single_inputs_lem (record tx { vin = v }) args true args.index
              ∙ ap (map_elem _) h
              ∙ sym (single_inputs_lem (record tx { vin = v' }) args true args.index)))
  ]
]

-- Under ANYONECANPAY the preimage depends on the input at the index and on no other.
pub legacy_preimage_ignores_inputs :
    (tx : LegacyTx) (w : Bytes) (args : LegacySighashArgs) (v v' : List TxInput)
    → is_acp args.sighash_flag ≡ true
    → get_elem? v args.index ≡ get_elem? v' args.index
    → write_legacy_preimage (record tx { vin = v }) w args
      ≡ write_legacy_preimage (record tx { vin = v' }) w args
unfolding write_legacy_preimage legacy_sighash_copy single_copy acp_copy acp_of
legacy_preimage_ignores_inputs tx w args v v' acp h = rw acp (
    ap
      (λ c. (fail_if (is_none_mode args.sighash_flag) none_unsupported >> c) >>= λ copy.
        ok (write_u32_le (to_u8 args.sighash_flag) (write_legacy copy w).1).1)
      (acp_of-vin tx args v v' (is_single_mode args.sighash_flag) h))
