-- ===== src/Bitcoins/Legacy/Preimage.antt =====
-- The signed copy of the legacy sighash (bitcoins/src/types/legacy.rs).
use bitcoins_rs.Base.{
  >>=-eq-ok, Bool, Bytes, List, Option, Option-cases, Result, [], ap, arith, fail_if, fail_if-eq-ok,
  false, get_elem?, if◌then◌else◌, inl, inr, leb, length, none, not, ok, ok-injective, refl,
  replicate, some, suc, sym, true, unwrap, unwrap-eq-ok, zero, ℕ, ◌&&◌, ◌++◌, ◌+◌, ◌==◌, ◌>>◌, ◌∙◌,
  ◌∷◌, ◌≡◌,
}
use mathlib.Core.Path.{subst}
use native.Mathlib.Nat.{add-zero}
use bitcoins_rs.Bitcoins.Legacy.{
  LegacySighashArgs, LegacyTx, legacy_sighash_anyone_can_pay, legacy_sighash_copy,
  legacy_sighash_prep, legacy_sighash_single, prep_inputs, zero_sequences,
}
use bitcoins_rs.Bitcoins.Sighash.{TxError, is_acp, is_single_mode, sighash_single_bug}
use bitcoins_rs.Bitcoins.TxIn.{TxInput}
use bitcoins_rs.Bitcoins.TxOut.{null_output}

abbrev pub map_elem : (f : TxInput → TxInput) → Option TxInput → Option TxInput
map_elem f none = none
map_elem f (some t) = some (f t)

pub get_elem?-prep_inputs :
    (k index : ℕ) (script : Bytes) (vin : List TxInput) (i : ℕ)
    → get_elem? (prep_inputs k index script vin) i
      ≡ map_elem
          (λ t. record t { script_sig = if (k + i) == index then script else [] })
          (get_elem? vin i)
unfolding prep_inputs
get_elem?-prep_inputs k index script [] i = refl
get_elem?-prep_inputs k index script (t ∷ vin) zero = rw add-zero
get_elem?-prep_inputs k index script (t ∷ vin) (suc i) =
    let next : k + 1 + i ≡ k + suc i = omega arith in
    rw (get_elem?-prep_inputs (k + 1) index script vin i, next)

get_elem?-zero_sequences :
    (k index : ℕ) (vin : List TxInput) (i : ℕ)
    → get_elem? (zero_sequences k index vin) i
      ≡ map_elem (λ t. if (k + i) == index then t else record t { sequence = 0 }) (get_elem? vin i)
unfolding zero_sequences
get_elem?-zero_sequences k index [] i = refl
get_elem?-zero_sequences k index (t ∷ vin) zero = rw add-zero
get_elem?-zero_sequences k index (t ∷ vin) (suc i) =
    let next : k + 1 + i ≡ k + suc i = omega arith in
    rw (get_elem?-zero_sequences (k + 1) index vin i, next)

-- Input `i` as the signature commits to it, where `one` says that the mode is a SINGLE.
abbrev pub committed_by : Bool → LegacySighashArgs → ℕ → TxInput → TxInput
committed_by one args i t = record {
  outpoint = t.outpoint;
  script_sig = if i == args.index then args.prevout_script else [];
  sequence = if one && not (i == args.index) then 0 else t.sequence;
}

abbrev pub committed_input : LegacySighashArgs → ℕ → TxInput → TxInput
committed_input args = committed_by (is_single_mode args.sighash_flag) args

abbrev pub to_list : {A : Type 0} → Option A → List A
to_list none = []
to_list (some a) = a ∷ []

-- What the signed copy of `tx` is, for each kind of mode.
pub record IsSighashCopy (tx : LegacyTx) (args : LegacySighashArgs) (copy : LegacyTx) : Type 0 where
  pub same_version : copy.version ≡ tx.version
  pub same_locktime : copy.locktime ≡ tx.locktime
  pub inputs :
      (i : ℕ)
      → get_elem? copy.vin i ≡ (
          if is_acp args.sighash_flag
          then get_elem?
              (to_list (map_elem (committed_input args args.index) (get_elem? tx.vin args.index)))
              i
          else map_elem (committed_input args i) (get_elem? tx.vin i))
  pub outputs : copy.vout ≡ (
      if is_single_mode args.sighash_flag
      then replicate args.index null_output ++ to_list (get_elem? tx.vout args.index)
      else tx.vout)

-- The copy before ANYONECANPAY drops inputs from it.
unfoldable pub single_copy : LegacyTx → LegacySighashArgs → Bool → Result TxError LegacyTx
single_copy tx args s =
    let copy_tx = legacy_sighash_prep tx args.index args.prevout_script in
    if s
    then fail_if (leb (length tx.vout) args.index) sighash_single_bug
      >> legacy_sighash_single copy_tx args.index
    else ok copy_tx

-- The inputs of that copy.
abbrev pub single_inputs : LegacyTx → LegacySighashArgs → Bool → List TxInput
single_inputs tx args one =
    let prepared = prep_inputs 0 args.index args.prevout_script tx.vin in
    if one then zero_sequences 0 args.index prepared else prepared

pub single_inputs_lem :
    (tx : LegacyTx) (args : LegacySighashArgs) (one : Bool) (i : ℕ)
    → get_elem? (single_inputs tx args one) i
      ≡ map_elem (committed_by one args i) (get_elem? tx.vin i)
single_inputs_lem tx args false i =
    get_elem?-prep_inputs 0 args.index args.prevout_script tx.vin i
    ∙ elim (Option-cases (get_elem? tx.vin i)) [ inl e ↦ rw e | inr (t, e) ↦ rw e (ground arith) ]
single_inputs_lem tx args true i =
    get_elem?-zero_sequences 0 args.index (prep_inputs 0 args.index args.prevout_script tx.vin) i
    ∙ ap (map_elem _) (get_elem?-prep_inputs 0 args.index args.prevout_script tx.vin i)
    ∙ elim (Option-cases (get_elem? tx.vin i)) [ inl e ↦ rw e | inr (t, e) ↦ rw e (ground arith) ]

pub record Shape (tx : LegacyTx) (args : LegacySighashArgs) (one : Bool) (copy : LegacyTx)
    : Type 0 where
  pub version_kept : copy.version ≡ tx.version
  pub locktime_kept : copy.locktime ≡ tx.locktime
  pub inputs : copy.vin ≡ single_inputs tx args one
  pub outputs : copy.vout ≡ (
      if one
      then replicate args.index null_output ++ to_list (get_elem? tx.vout args.index)
      else tx.vout)

pub single_copy-Shape :
    (tx : LegacyTx) (args : LegacySighashArgs) (one : Bool) (copy : LegacyTx)
    → single_copy tx args one ≡ ok copy
    → Shape tx args one copy
unfolding single_copy legacy_sighash_prep legacy_sighash_single
single_copy-Shape tx args false copy e =
    subst (Shape tx args false) (ok-injective e)
      (record { version_kept = refl; locktime_kept = refl; inputs = refl; outputs = refl })
single_copy-Shape tx args true copy e =
    let prepared = legacy_sighash_prep tx args.index args.prevout_script in
    let guarded = legacy_sighash_single prepared args.index in
    let (_, e1) = fail_if-eq-ok (leb (length tx.vout) args.index) sighash_single_bug guarded e in
    let (o', m, e2) = >>=-eq-ok (unwrap (get_elem? tx.vout args.index)) _ e1 in
    let found = unwrap-eq-ok (get_elem? tx.vout args.index) m in
    subst (Shape tx args true) (ok-injective e2) (record {
      version_kept = refl;
      locktime_kept = refl;
      inputs = refl;
      outputs = ap (λ z. replicate args.index null_output ++ to_list z) (sym found);
    })

unfoldable pub acp_copy : ℕ → LegacyTx → Bool → Result TxError LegacyTx
acp_copy index copy1 acp = if acp then legacy_sighash_anyone_can_pay copy1 index else ok copy1

-- The copy with the inputs that ANYONECANPAY leaves.
pub record Kept (index : ℕ) (copy1 : LegacyTx) (acp : Bool) (copy : LegacyTx) : Type 0 where
  pub version_kept : copy.version ≡ copy1.version
  pub locktime_kept : copy.locktime ≡ copy1.locktime
  pub outputs_kept : copy.vout ≡ copy1.vout
  pub inputs : copy.vin ≡ (if acp then to_list (get_elem? copy1.vin index) else copy1.vin)

pub acp_copy-Kept :
    (index : ℕ) (copy1 : LegacyTx) (acp : Bool) (copy : LegacyTx)
    → acp_copy index copy1 acp ≡ ok copy
    → Kept index copy1 acp copy
unfolding acp_copy legacy_sighash_anyone_can_pay
acp_copy-Kept index copy1 false copy e =
    subst (Kept index copy1 false) (ok-injective e)
      (record { version_kept = refl; locktime_kept = refl; outputs_kept = refl; inputs = refl })
acp_copy-Kept index copy1 true copy e =
    let (t', m, e1) = >>=-eq-ok (unwrap (get_elem? copy1.vin index)) _ e in
    let found = unwrap-eq-ok (get_elem? copy1.vin index) m in
    subst (Kept index copy1 true) (ok-injective e1) (record {
      version_kept = refl;
      locktime_kept = refl;
      outputs_kept = refl;
      inputs = ap to_list (sym found);
    })

acp_inputs :
    (acp : Bool) (copy1 : LegacyTx) (args : LegacySighashArgs) (i : ℕ)
    (signed same : Option TxInput)
    → get_elem? copy1.vin args.index ≡ signed
    → get_elem? copy1.vin i ≡ same
    → get_elem? (if acp then to_list (get_elem? copy1.vin args.index) else copy1.vin) i
      ≡ (if acp then get_elem? (to_list signed) i else same)
acp_inputs true copy1 args i signed same h k = rw h
acp_inputs false copy1 args i signed same h k = k

-- The signed copy has, input by input and output by output, what its mode commits to.
pub legacy_sighash_copy-IsSighashCopy :
    (tx : LegacyTx) (args : LegacySighashArgs) (copy : LegacyTx)
    → legacy_sighash_copy tx args ≡ ok copy
    → IsSighashCopy tx args copy
unfolding legacy_sighash_copy single_copy acp_copy
legacy_sighash_copy-IsSighashCopy tx args copy e =
    let one = is_single_mode args.sighash_flag in
    let (_, e1) = fail_if-eq-ok _ _ _ e in
    let (copy1, m, e2) = >>=-eq-ok (single_copy tx args one) _ e1 in
    let s = single_copy-Shape tx args one copy1 m in
    let k = acp_copy-Kept args.index copy1 (is_acp args.sighash_flag) copy e2 in
    let at = λ (i : ℕ). ap (λ v. get_elem? v i) s.inputs ∙ single_inputs_lem tx args one i in
    record {
      same_version = k.version_kept ∙ s.version_kept;
      same_locktime = k.locktime_kept ∙ s.locktime_kept;
      inputs = λ i.
          ap (λ v. get_elem? v i) k.inputs
          ∙ acp_inputs (is_acp args.sighash_flag) copy1 args i _ _ (at args.index) (at i);
      outputs = k.outputs_kept ∙ s.outputs;
    }
