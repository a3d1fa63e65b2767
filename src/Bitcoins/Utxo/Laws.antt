-- ===== src/Bitcoins/Utxo/Laws.antt =====
-- Spend scripts of bitcoins/src/types/utxo.rs.
use bitcoins_rs.Base.{
  Bool-cases, Bytes, Option, ap, bytes_eq_refl, bytes_eq→eq, false, inl, inr, none, refl, some, sym,
  true, ◌≡◌, ◌⊎◌,
}
use mathlib.Core.Path.{subst}
use bitcoins_rs.Bitcoins.Script.{
  ScriptType, non_standard, op_return_data, pkh, sh, standard_type, wpkh, wsh,
}
use bitcoins_rs.Bitcoins.TxIn.{Outpoint}
use bitcoins_rs.Bitcoins.TxOut.{TxOut}
use bitcoins_rs.Bitcoins.Utxo.{
  SpendScript, Utxo, chosen_script, fits_type, from_output_and_outpoint, key_script, known, missing,
  no_script, set_spend_script, signing_script, spend_of_type, wpkh_script,
}
use bitcoins_rs.Hashes.{HashFunctions, hash160}

module _ (H : HashFunctions) where
  -- The script whose hash a script pubkey of this type has.
  abbrev pub IsSpendScript : ScriptType → Bytes → Type 0
  IsSpendScript type' s = (type' ≡ sh (hash160 H s)) ⊎ (type' ≡ wsh (H.sha256 s))

  fits_type-IsSpendScript :
      (type' : ScriptType) (s : Bytes) → fits_type H type' s ≡ true → IsSpendScript type' s
  unfolding fits_type
  fits_type-IsSpendScript (sh h) s e = inl (ap sh (bytes_eq→eq h (hash160 H s) e))
  fits_type-IsSpendScript (wsh h) s e = inr (ap wsh (bytes_eq→eq h (H.sha256 s) e))
  fits_type-IsSpendScript (pkh h) s e = cc
  fits_type-IsSpendScript (wpkh h) s e = cc
  fits_type-IsSpendScript (op_return_data h) s e = cc
  fits_type-IsSpendScript non_standard s e = cc

  IsSpendScript-fits_type :
      (type' : ScriptType) (s : Bytes) → IsSpendScript type' s → fits_type H type' s ≡ true
  unfolding fits_type
  IsSpendScript-fits_type type' s (inl e) = rw e (bytes_eq_refl (hash160 H s))
  IsSpendScript-fits_type type' s (inr e) = rw e (bytes_eq_refl (H.sha256 s))

  -- A script is set, and signed from then on, exactly if the script pubkey has its hash; otherwise
  -- nothing changes.
  pub set_spend_script_outcome :
      (u : Utxo) (s : Bytes)
      → ((set_spend_script H u s).1 ≡ true)
          × IsSpendScript (standard_type u.script_pubkey) s
          × (signing_script (set_spend_script H u s).0 ≡ some s)
        ⊎ (set_spend_script H u s ≡ (u, false))
          × ¬ (IsSpendScript (standard_type u.script_pubkey) s)
  unfolding set_spend_script signing_script chosen_script
  set_spend_script_outcome u s =
      let type' = standard_type u.script_pubkey in
      elim (Bool-cases (fits_type H type' s)) [
        | inl fits ↦ inl (rw fits refl, fits_type-IsSpendScript type' s fits, rw fits refl)
        | inr other ↦
            inr (rw other refl, λ spend. let fits = IsSpendScript-fits_type type' s spend in cc)
      ]

  -- A UTXO that begins as an output and whose spend script is only set.
  pub data IsMade : Utxo → Type 0 where
    from_output :
        (output : TxOut) (outpoint : Outpoint) → IsMade (from_output_and_outpoint output outpoint)
    with_script : (u : Utxo) (s : Bytes) → IsMade u → IsMade (set_spend_script H u s).0

  -- A spend script that a script pubkey of this type can have.
  abbrev pub IsConsistent : ScriptType → SpendScript → Type 0
  IsConsistent (sh h) no_script = ⊥
  IsConsistent (sh h) missing = Unit
  IsConsistent (sh h) (known s) = h ≡ hash160 H s
  IsConsistent (wsh h) no_script = ⊥
  IsConsistent (wsh h) missing = Unit
  IsConsistent (wsh h) (known s) = h ≡ H.sha256 s
  IsConsistent _ no_script = Unit
  IsConsistent _ missing = ⊥
  IsConsistent _ (known s) = ⊥

  -- What is signed for a script pubkey of this type, and nothing else: the script pubkey, the
  -- legacy script of its key, or the script that has its hash, once it is known.
  abbrev pub IsSigned : ScriptType → Bytes → Option Bytes → Type 0
  IsSigned (pkh h) spk signed = signed ≡ some spk
  IsSigned (wpkh h) spk signed = signed ≡ some (wpkh_script h)
  IsSigned (sh h) spk none = Unit
  IsSigned (sh h) spk (some s) = h ≡ hash160 H s
  IsSigned (wsh h) spk none = Unit
  IsSigned (wsh h) spk (some s) = h ≡ H.sha256 s
  IsSigned (op_return_data d) spk signed = signed ≡ none
  IsSigned non_standard spk signed = signed ≡ none

  spend_of_type-IsConsistent : (type' : ScriptType) → IsConsistent type' (spend_of_type type')
  unfolding spend_of_type
  spend_of_type-IsConsistent (sh h) = tt
  spend_of_type-IsConsistent (wsh h) = tt
  spend_of_type-IsConsistent (pkh h) = tt
  spend_of_type-IsConsistent (wpkh h) = tt
  spend_of_type-IsConsistent (op_return_data d) = tt
  spend_of_type-IsConsistent non_standard = tt

  known-IsConsistent :
      (type' : ScriptType) (s : Bytes) → IsSpendScript type' s → IsConsistent type' (known s)
  known-IsConsistent type' s (inl e) = subst (λ t. IsConsistent t (known s)) (sym e) refl
  known-IsConsistent type' s (inr e) = subst (λ t. IsConsistent t (known s)) (sym e) refl

  made-IsConsistent :
      (u : Utxo) → IsMade u → IsConsistent (standard_type u.script_pubkey) u.spend_script
  unfolding from_output_and_outpoint set_spend_script
  made-IsConsistent _ (from_output output outpoint) =
      spend_of_type-IsConsistent (standard_type output.script_pubkey)
  made-IsConsistent _ (with_script u s history) =
      let type' = standard_type u.script_pubkey in
      elim (Bool-cases (fits_type H type' s)) [
        | inl fits ↦ rw fits (known-IsConsistent type' s (fits_type-IsSpendScript type' s fits))
        | inr other ↦ rw other (made-IsConsistent u history)
      ]

  chosen_script-IsSigned :
      (type' : ScriptType) (spend : SpendScript) (spk : Bytes)
      → IsConsistent type' spend
      → IsSigned type' spk (chosen_script spend type' spk)
  unfolding chosen_script key_script
  chosen_script-IsSigned (sh h) missing spk c = tt
  chosen_script-IsSigned (sh h) (known s) spk c = c
  chosen_script-IsSigned (wsh h) missing spk c = tt
  chosen_script-IsSigned (wsh h) (known s) spk c = c
  chosen_script-IsSigned (pkh h) no_script spk c = refl
  chosen_script-IsSigned (wpkh h) no_script spk c = refl
  chosen_script-IsSigned (op_return_data d) no_script spk c = refl
  chosen_script-IsSigned non_standard no_script spk c = refl
  chosen_script-IsSigned (sh h) no_script spk c = absurd c
  chosen_script-IsSigned (wsh h) no_script spk c = absurd c
  chosen_script-IsSigned (pkh h) missing spk c = absurd c
  chosen_script-IsSigned (pkh h) (known s) spk c = absurd c
  chosen_script-IsSigned (wpkh h) missing spk c = absurd c
  chosen_script-IsSigned (wpkh h) (known s) spk c = absurd c
  chosen_script-IsSigned (op_return_data d) missing spk c = absurd c
  chosen_script-IsSigned (op_return_data d) (known s) spk c = absurd c
  chosen_script-IsSigned non_standard missing spk c = absurd c
  chosen_script-IsSigned non_standard (known s) spk c = absurd c

  -- What a UTXO that is made of an output has signed is what its script pubkey commits to.
  pub signing_script-IsSigned :
      (u : Utxo)
      → IsMade u
      → IsSigned (standard_type u.script_pubkey) u.script_pubkey (signing_script u)
  unfolding signing_script
  signing_script-IsSigned u history =
      chosen_script-IsSigned (standard_type u.script_pubkey) u.spend_script u.script_pubkey
        (made-IsConsistent u history)
