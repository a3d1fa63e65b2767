-- ===== src/Bitcoins/Legacy/Copy.antt =====
-- The format of the copies that the legacy sighash makes (bitcoins/src/types/legacy.rs).
use bitcoins_rs.Base.{
  >>=-eq-ok, All, All-append, Bool, Bytes, IsU64, List, [], ap, arith, false, get_elem?,
  if◌then◌else◌, length, length-append, length-replicate, ok, ok-injective, refl, replicate, some,
  some-eq_some, suc, sym, true, unwrap, unwrap-eq-ok, zero, ℕ, ◌+◌, ◌<◌, ◌==◌, ◌∷◌, ◌≡◌,
}
use mathlib.Core.Path.{subst}
use bitcoins_rs.Bitcoins.Legacy.{
  LegacySighashArgs, LegacyTx, legacy_sighash_anyone_can_pay, legacy_sighash_prep,
  legacy_sighash_single, prep_inputs, zero_sequences,
}
use bitcoins_rs.Bitcoins.Legacy.Format.{IsLegacy}
use bitcoins_rs.Bitcoins.TxIn.{TxInput}
use bitcoins_rs.Bitcoins.TxIn.Laws.{IsInput}
use bitcoins_rs.Bitcoins.TxOut.{null_output}
use bitcoins_rs.Bitcoins.TxOut.Laws.{IsOutput}
use bitcoins_rs.Wrapped.Laws.{IsScript}

prep_inputs-IsInput :
    (i index : ℕ) (script : Bytes) (vin : List TxInput)
    → IsScript script
    → All IsInput vin
    → All IsInput (prep_inputs i index script vin)
unfolding prep_inputs
prep_inputs-IsInput i index script [] hs h = tt
prep_inputs-IsInput i index script (t ∷ vin) hs (ht, h) = (
  record {
    outpoint_ok = ht.outpoint_ok;
    script_ok = choose (i == index);
    sequence_fits = ht.sequence_fits;
  },
  prep_inputs-IsInput (i + 1) index script vin hs h,
)
  where
    choose : (b : Bool) → IsScript (if b then script else [])
    choose true = hs
    choose false = (omega arith, tt)

length-prep_inputs :
    (i index : ℕ) (script : Bytes) (vin : List TxInput)
    → length (prep_inputs i index script vin) ≡ length vin
unfolding prep_inputs
length-prep_inputs i index script [] = refl
length-prep_inputs i index script (t ∷ vin) = ap suc (length-prep_inputs (i + 1) index script vin)

zero_sequences-IsInput :
    (i index : ℕ) (vin : List TxInput) → All IsInput vin → All IsInput (zero_sequences i index vin)
unfolding zero_sequences
zero_sequences-IsInput i index [] h = tt
zero_sequences-IsInput i index (t ∷ vin) (ht, h) =
    (choose (i == index), zero_sequences-IsInput (i + 1) index vin h)
  where
    choose : (b : Bool) → IsInput (if b then t else record t { sequence = 0 })
    choose true = ht
    choose false = record {
      outpoint_ok = ht.outpoint_ok;
      script_ok = ht.script_ok;
      sequence_fits = omega arith;
    }

length-zero_sequences :
    (i index : ℕ) (vin : List TxInput) → length (zero_sequences i index vin) ≡ length vin
unfolding zero_sequences
length-zero_sequences i index [] = refl
length-zero_sequences i index (t ∷ vin) = ap suc (length-zero_sequences (i + 1) index vin)

pub get_elem?-All :
    {A : Type 0} (P : A → Type 0) (v : List A) (i : ℕ) {a : A}
    → All P v
    → get_elem? v i ≡ some a
    → P a × (i < length v)
get_elem?-All P [] i h e = cc
get_elem?-All P (x ∷ v) zero (hx, h) e = (subst P (some-eq_some e) hx, omega arith)
get_elem?-All P (x ∷ v) (suc i) (hx, h) e =
    let (p, lt) = get_elem?-All P v i h e in (p, omega arith)

null_outputs-IsOutput : (n : ℕ) → All IsOutput (replicate n null_output)
null_outputs-IsOutput zero = tt
null_outputs-IsOutput (suc n) =
    (record { value_fits = omega arith; script_ok = (omega arith, tt) }, null_outputs-IsOutput n)

module _ (tx : LegacyTx) (args : LegacySighashArgs) (valid : IsLegacy tx)
    (script : IsScript args.prevout_script) where
  pub prep-IsLegacy : IsLegacy (legacy_sighash_prep tx args.index args.prevout_script)
  unfolding legacy_sighash_prep
  prep-IsLegacy = record {
    version_fits = valid.version_fits;
    vin_ok = (
      subst IsU64 (sym (length-prep_inputs 0 args.index args.prevout_script tx.vin)) valid.vin_ok.0,
      prep_inputs-IsInput 0 args.index args.prevout_script tx.vin script valid.vin_ok.1,
    );
    vout_ok = valid.vout_ok;
    locktime_fits = valid.locktime_fits;
  }

pub single-IsLegacy :
    (tx : LegacyTx) (index : ℕ) (copy : LegacyTx)
    → IsLegacy tx
    → legacy_sighash_single tx index ≡ ok copy
    → IsLegacy copy
unfolding legacy_sighash_single
single-IsLegacy tx index copy h e =
    let (o, m, e1) = >>=-eq-ok (unwrap (get_elem? tx.vout index)) _ e in
    let (ho, lt) =
      get_elem?-All IsOutput tx.vout index h.vout_ok.1 (unwrap-eq-ok (get_elem? tx.vout index) m) in
    let outs = replicate index null_output in
    subst IsLegacy (ok-injective e1) (record {
      version_fits = h.version_fits;
      vin_ok = (
        subst IsU64 (sym (length-zero_sequences 0 index tx.vin)) h.vin_ok.0,
        zero_sequences-IsInput 0 index tx.vin h.vin_ok.1,
      );
      vout_ok = (
        omega (arith, h.vout_ok.0, length-append outs (o ∷ []), length-replicate index null_output),
        All-append IsOutput outs (o ∷ []) (null_outputs-IsOutput index) (ho, tt),
      );
      locktime_fits = h.locktime_fits;
    })

pub acp-IsLegacy :
    (tx : LegacyTx) (index : ℕ) (copy : LegacyTx)
    → IsLegacy tx
    → legacy_sighash_anyone_can_pay tx index ≡ ok copy
    → IsLegacy copy
unfolding legacy_sighash_anyone_can_pay
acp-IsLegacy tx index copy h e =
    let (t, m, e1) = >>=-eq-ok (unwrap (get_elem? tx.vin index)) _ e in
    let (ht, _) =
      get_elem?-All IsInput tx.vin index h.vin_ok.1 (unwrap-eq-ok (get_elem? tx.vin index) m) in
    subst IsLegacy (ok-injective e1) (record {
      version_fits = h.version_fits;
      vin_ok = (omega arith, (ht, tt));
      vout_ok = h.vout_ok;
      locktime_fits = h.locktime_fits;
    })
