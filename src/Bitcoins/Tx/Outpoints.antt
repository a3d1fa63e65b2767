-- ===== src/Bitcoins/Tx/Outpoints.antt =====
-- Outputs of a transaction that an outpoint finds (bitcoins/src/types/tx.rs).
use bitcoins_rs.Base.{
  Bool-cases, Option, and-eq_true, bytes_eq, bytes_eq_refl, bytes_eq→eq, get_elem?, get_elem?-bound,
  if-false, if-true, inl, inr, length, ltb, lt→ltb, none, some, sym, ◌&&◌, ◌↔◌, ◌∙◌, ◌≡◌,
}
use bitcoins_rs.Bitcoins.Tx.{BitcoinTx, outputs_of, txid_of, txout_from_outpoint}
use bitcoins_rs.Bitcoins.TxIn.{Outpoint}
use bitcoins_rs.Bitcoins.TxOut.{TxOut}
use bitcoins_rs.Hashes.{HashFunctions}

module _ (H : HashFunctions) where
  -- An outpoint finds an output of a transaction exactly if it has the transaction's id and the
  -- index of that output.
  pub txout_from_outpoint_lem :
      (tx : BitcoinTx) (o : Outpoint) (out : TxOut)
      → (txout_from_outpoint H tx o ≡ some out)
        ↔ ((o.txid ≡ txid_of H tx) × (get_elem? (outputs_of tx) o.idx ≡ some out))
  unfolding txout_from_outpoint
  txout_from_outpoint_lem tx o out = (
    λ h. elim (Bool-cases (bytes_eq o.txid (txid_of H tx) && ltb o.idx (length (outputs_of tx)))) [
      | inl found ↦ (
        bytes_eq→eq o.txid (txid_of H tx) (and-eq_true _ _ found).0,
        sym (if-true _ (get_elem? (outputs_of tx) o.idx) none found) ∙ h,
      )
      | inr absent ↦
          let nothing : ◌≡◌ {A = Option TxOut} none (some out) =
            sym (if-false _ (get_elem? (outputs_of tx) o.idx) none absent) ∙ h in
          absurd cc
    ],
    λ (same, found). rw (
      same,
      bytes_eq_refl (txid_of H tx),
      lt→ltb o.idx (length (outputs_of tx)) (get_elem?-bound (outputs_of tx) o.idx found),
      found,
    ),
  )
