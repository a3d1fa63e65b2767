-- ===== src/Bitcoins/Builder/Laws.antt =====
-- The transactions that the builder makes (bitcoins/src/builder.rs).
use bitcoins_rs.Base.{
  >>=-eq-ok, Bool-cases, Bytes, List, [], ap, arith, drop, get_elem?, if-false, if-true,
  if◌then◌else◌, inl, inr, is_empty, leb, leb→le, length, length-append, length-drop, length-take,
  map_ok, map_ok-eq-ok, min, not, ok, ok-injective, refl, suc, sym, take, zero, ℕ, ◌==◌, ◌||◌, ◌∙◌,
  ◌∷◌, ◌≡◌, ◌≢◌, ◌≤◌,
}
use mathlib.Core.Path.{subst}
use bitcoins_rs.Bitcoins.Builder.{
  TxBuilder, build, insert_input, insert_witness, set_script_sig, sign_at,
}
use bitcoins_rs.Bitcoins.Builder.Witnesses.{new_witness_one_each, one_each}
use bitcoins_rs.Bitcoins.Legacy.{LegacyTx, new_legacy}
use bitcoins_rs.Bitcoins.Legacy.Outcomes.{made, outcome, refused}
use bitcoins_rs.Bitcoins.Legacy.Preimage.{map_elem}
use bitcoins_rs.Bitcoins.Sighash.{empty_vin, empty_vout}
use bitcoins_rs.Bitcoins.Tx.{BitcoinTx, as_legacy, is_witness, legacy, witness, witnesses_of}
use bitcoins_rs.Bitcoins.TxIn.{TxInput, new_input}
use bitcoins_rs.Bitcoins.TxOut.{TxOut}
use bitcoins_rs.Bitcoins.Witness.{WitnessTx, new_witness}

-- The guards of the constructors hold.
abbrev pub HasBoth : List TxInput → List TxOut → Type 0
HasBoth vin vout = (vin ≢ []) × (vout ≢ [])

-- A transaction with inputs and outputs, and a witness for each input if it is a witness one.
abbrev pub IsBuildable : BitcoinTx → Type 0
IsBuildable (legacy tx) = HasBoth tx.vin tx.vout
IsBuildable (witness tx) =
    HasBoth tx.legacy_tx.vin tx.legacy_tx.vout × (length tx.witnesses ≡ length tx.legacy_tx.vin)

both :
    (version : ℕ) (vin : List TxInput) (vout : List TxOut) (locktime : ℕ) (tx : LegacyTx)
    → new_legacy version vin vout locktime ≡ ok tx
    → HasBoth vin vout
      × (tx ≡ record { version = version; vin = vin; vout = vout; locktime = locktime })
unfolding new_legacy
both version [] vout locktime tx e = cc
both version (i ∷ vin) [] locktime tx e = cc
both version (i ∷ vin) (o ∷ vout) locktime tx e =
    ((λ h. absurd cc, λ h. absurd cc), sym (ok-injective e))

-- What a builder with `b`'s data built.
abbrev pub IsBuilt : TxBuilder → BitcoinTx → Type 0
IsBuilt b tx =
    HasBoth b.vin b.vout
    × (is_witness tx ≡ (b.produce_witness || not (is_empty b.witnesses)))
    × (as_legacy tx
        ≡ record { version = b.version; vin = b.vin; vout = b.vout; locktime = b.locktime })
    × (witnesses_of tx ≡ (if is_witness tx then one_each b.vin b.witnesses else []))

-- What a builder builds is a witness transaction exactly if it was asked for one or has witnesses;
-- it has the builder's version, inputs, outputs and lock time, and there are inputs and outputs. A
-- witness transaction has the builder's witnesses, cut or filled up to one for each input.
pub build-IsBuilt : (b : TxBuilder) (tx : BitcoinTx) → build b ≡ ok tx → IsBuilt b tx
unfolding build new_witness is_witness as_legacy witnesses_of
build-IsBuilt b tx e = elim (Bool-cases (b.produce_witness || not (is_empty b.witnesses))) [
  | inl flagged ↦
      let (flagged_tx, m, which) =
        map_ok-eq-ok witness (new_witness b.version b.vin b.vout b.witnesses b.locktime)
          (sym (if-true _ _ _ flagged) ∙ e) in
      let (l, m', e') = >>=-eq-ok (new_legacy b.version b.vin b.vout b.locktime) _ m in
      let (h, same) = both b.version b.vin b.vout b.locktime l m' in
      (
        h,
        ap is_witness (sym which) ∙ sym flagged,
        ap as_legacy (sym which)
            ∙ ap (λ (t : WitnessTx). t.legacy_tx) (sym (ok-injective e'))
            ∙ same,
        subst (λ t. witnesses_of t ≡ (if is_witness t then one_each b.vin b.witnesses else []))
            which
            (ap (λ (t : WitnessTx). t.witnesses) (sym (ok-injective e'))
              ∙ new_witness_one_each b.vin b.witnesses),
      )
  | inr plain ↦
      let (l, m, which) =
        map_ok-eq-ok legacy (new_legacy b.version b.vin b.vout b.locktime)
          (sym (if-false _ _ _ plain) ∙ e) in
      let (h, same) = both b.version b.vin b.vout b.locktime l m in
      (
        h,
        ap is_witness (sym which) ∙ sym plain,
        ap as_legacy (sym which) ∙ same,
        subst (λ t. witnesses_of t ≡ (if is_witness t then one_each b.vin b.witnesses else []))
            which refl,
      )
]

-- Building succeeds if there are inputs and outputs, and is refused for what is empty if not, with
-- witnesses or without.
pub outcome-build :
    (b : TxBuilder)
    → outcome (build b) ≡ (
        if is_empty b.vin
        then refused empty_vin
        else (if is_empty b.vout then refused empty_vout else made))
unfolding build new_legacy new_witness outcome
outcome-build b = elim (Bool-cases (b.produce_witness || not (is_empty b.witnesses))) [
  | inl flagged ↦ rw flagged (of_witness b.vin b.vout)
  | inr plain ↦ rw plain (of_legacy b.vin b.vout)
]
  where
    of_legacy :
        (vin : List TxInput) (vout : List TxOut)
        → outcome (map_ok legacy (new_legacy b.version vin vout b.locktime)) ≡ (
            if is_empty vin
            then refused empty_vin
            else (if is_empty vout then refused empty_vout else made))
    of_legacy [] vout = refl
    of_legacy (i ∷ vin) [] = refl
    of_legacy (i ∷ vin) (o ∷ vout) = refl

    of_witness :
        (vin : List TxInput) (vout : List TxOut)
        → outcome (map_ok witness (new_witness b.version vin vout b.witnesses b.locktime)) ≡ (
            if is_empty vin
            then refused empty_vin
            else (if is_empty vout then refused empty_vout else made))
    of_witness [] vout = refl
    of_witness (i ∷ vin) [] = refl
    of_witness (i ∷ vin) (o ∷ vout) = refl

-- `insert_witness` changes the inputs, as `insert_input` does, and no witness.
pub insert_witness_lem :
    (index : ℕ) (i : TxInput) (b : TxBuilder)
    → (insert_witness index i b ≡ insert_input index i b)
      × ((insert_witness index i b).witnesses ≡ b.witnesses)
      × (length (insert_witness index i b).vin ≡ suc (length b.vin))
unfolding insert_witness insert_input
insert_witness_lem index i b = (
  refl,
  refl,
  omega (
    arith,
    length-append (take (min index (length b.vin)) b.vin)
        (i ∷ drop (min index (length b.vin)) b.vin),
    length-take (min index (length b.vin)) b.vin,
    length-drop (min index (length b.vin)) b.vin,
  ),
)

sign_at_lem :
    (i j : ℕ) (sig : Bytes) (v : List TxInput)
    → get_elem? (sign_at i sig v) j ≡ (
        if i == j
        then map_elem (λ t. new_input t.outpoint sig t.sequence) (get_elem? v j)
        else get_elem? v j)
unfolding sign_at
sign_at_lem i j sig [] = ground arith
sign_at_lem zero zero sig (t ∷ v) = refl
sign_at_lem zero (suc j) sig (t ∷ v) = ground arith
sign_at_lem (suc i) zero sig (t ∷ v) = ground arith
sign_at_lem (suc i) (suc j) sig (t ∷ v) =
    let same : (suc i == suc j) ≡ (i == j) = ground arith in rw same (sign_at_lem i j sig v)

sign_at_outside : (i : ℕ) (sig : Bytes) (v : List TxInput) → length v ≤ i → sign_at i sig v ≡ v
unfolding sign_at
sign_at_outside i sig [] h = refl
sign_at_outside zero sig (t ∷ v) h = absurd (omega arith)
sign_at_outside (suc i) sig (t ∷ v) h = ap (λ l. t ∷ l) (sign_at_outside i sig v (omega arith))

-- Signing with `set_script_sig` gives the input at the index, if there is one, the script sig, keeps
-- its outpoint and sequence, and changes no other input.
pub set_script_sig_lem :
    (i j : ℕ) (sig : Bytes) (b : TxBuilder)
    → get_elem? (set_script_sig i sig b).vin j ≡ (
        if i == j
        then map_elem (λ t. new_input t.outpoint sig t.sequence) (get_elem? b.vin j)
        else get_elem? b.vin j)
unfolding set_script_sig
set_script_sig_lem i j sig b = elim (Bool-cases (leb (length b.vin) i)) [
  | inl outside ↦ rw outside (
      ap (λ v. get_elem? v j) (sym (sign_at_outside i sig b.vin (leb→le (length b.vin) i outside)))
      ∙ sign_at_lem i j sig b.vin)
  | inr inside ↦ rw inside (sign_at_lem i j sig b.vin)
]
