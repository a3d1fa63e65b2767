-- ===== src/Bitcoins/Legacy/Commitment.antt =====
-- The commitment of a legacy sighash preimage (bitcoins/src/types/legacy.rs).
use bitcoins_rs.Base.{
  >>=-eq-ok, Bool, Bytes, [], ap, append_assoc, arith, fail_if, fail_if-eq-ok, false, from_le_bytes,
  from_le_bytes-le_bytes, if◌then◌else◌, le_bytes, leb, length, ok, ok-injective, ok-pair_injective,
  sym, true, ◌++◌, ◌>>◌, ◌∙◌, ◌≡◌,
}
use mathlib.Core.Path.{subst}
use bitcoins_rs.Bitcoins.Legacy.{
  LegacySighashArgs, LegacyTx, legacy_sighash_anyone_can_pay, legacy_sighash_copy,
  legacy_sighash_prep, legacy_sighash_single, read_legacy, write_legacy, write_legacy_preimage,
}
use bitcoins_rs.Bitcoins.Legacy.Copy.{acp-IsLegacy, prep-IsLegacy, single-IsLegacy}
use bitcoins_rs.Bitcoins.Legacy.Format.{IsLegacy, encode_legacy, read_legacy_back, legacy_write}
use bitcoins_rs.Bitcoins.Sighash.{Sighash, is_acp, is_single_mode, sighash_single_bug, to_u8}
use bitcoins_rs.Bitcoins.Sighash.Laws.{to_u8-IsByte, to_u8-injective}
use bitcoins_rs.Ser.Stream.Laws.{write_u32_le_lem}
use bitcoins_rs.Wrapped.Laws.{IsScript}

-- A preimage is the encoding of the signed copy, and the mode's byte as a word.
pub legacy_preimage-eq-ok :
    (tx : LegacyTx) (w : Bytes) (args : LegacySighashArgs) {out : Bytes}
    → write_legacy_preimage tx w args ≡ ok out
    → (copy : LegacyTx) × (legacy_sighash_copy tx args ≡ ok copy)
      × (out ≡ w ++ (encode_legacy copy ++ le_bytes 4 (to_u8 args.sighash_flag)))
unfolding write_legacy_preimage
legacy_preimage-eq-ok tx w args e =
    let (copy, m, e1) = >>=-eq-ok (legacy_sighash_copy tx args) _ e in
    let flag = to_u8 args.sighash_flag in
    (
      copy,
      m,
      sym (ok-injective e1)
          ∙ ap (λ p. p.1) (write_u32_le_lem flag (write_legacy copy w).1)
          ∙ ap (λ z. z ++ le_bytes 4 flag) (legacy_write copy w)
          ∙ append_assoc w (encode_legacy copy) (le_bytes 4 flag),
    )

copy-IsLegacy :
    (tx : LegacyTx) (args : LegacySighashArgs) (copy : LegacyTx)
    → IsLegacy tx
    → IsScript args.prevout_script
    → legacy_sighash_copy tx args ≡ ok copy
    → IsLegacy copy
unfolding legacy_sighash_copy
copy-IsLegacy tx args copy h hs e =
    let prepared = legacy_sighash_prep tx args.index args.prevout_script in
    let one = legacy_sighash_single prepared args.index in
    let bug = leb (length tx.vout) args.index in
    let (_, e1) = fail_if-eq-ok _ _ _ e in
    let (copy1, m, e2) =
      >>=-eq-ok
        (if is_single_mode args.sighash_flag
          then fail_if bug sighash_single_bug >> one
          else ok prepared)
        _ e1 in
    after_acp copy1 (is_acp args.sighash_flag)
      (after_single copy1 (is_single_mode args.sighash_flag) m) e2
  where
    after_single :
        (copy1 : LegacyTx) (b : Bool)
        → (if b
            then fail_if (leb (length tx.vout) args.index) sighash_single_bug
              >> legacy_sighash_single
                  (legacy_sighash_prep tx args.index args.prevout_script)
                  args.index
            else ok (legacy_sighash_prep tx args.index args.prevout_script))
          ≡ ok copy1
        → IsLegacy copy1
    after_single copy1 true m =
        single-IsLegacy (legacy_sighash_prep tx args.index args.prevout_script) args.index copy1
          (prep-IsLegacy tx args h hs) (fail_if-eq-ok (leb (length tx.vout) args.index) _ _ m).1
    after_single copy1 false m = subst IsLegacy (ok-injective m) (prep-IsLegacy tx args h hs)

    after_acp :
        (copy1 : LegacyTx) (b : Bool)
        → IsLegacy copy1
        → (if b then legacy_sighash_anyone_can_pay copy1 args.index else ok copy1) ≡ ok copy
        → IsLegacy copy
    after_acp copy1 true h1 m = acp-IsLegacy copy1 args.index copy h1 m
    after_acp copy1 false h1 m = subst IsLegacy (ok-injective m) h1

pub flag_word-injective : (f g : Sighash) → le_bytes 4 (to_u8 f) ≡ le_bytes 4 (to_u8 g) → f ≡ g
flag_word-injective f g e = to_u8-injective f g (
    sym (from_le_bytes-le_bytes 4 (to_u8 f) (omega (arith, to_u8-IsByte f)))
    ∙ ap from_le_bytes e
    ∙ from_le_bytes-le_bytes 4 (to_u8 g) (omega (arith, to_u8-IsByte g)))

-- Equal preimages of two transactions, each valid and with a valid prevout script, come from the
-- same mode and from equal signed copies: no two different copies share a preimage.
pub legacy_preimage_commits :
    (tx tx' : LegacyTx) (args args' : LegacySighashArgs) (out : Bytes)
    → IsLegacy tx
    → IsLegacy tx'
    → IsScript args.prevout_script
    → IsScript args'.prevout_script
    → write_legacy_preimage tx [] args ≡ ok out
    → write_legacy_preimage tx' [] args' ≡ ok out
    → (legacy_sighash_copy tx args ≡ legacy_sighash_copy tx' args')
      × (args.sighash_flag ≡ args'.sighash_flag)
legacy_preimage_commits tx tx' args args' out h h' hs hs' e e' =
    let (copy, m, o) = legacy_preimage-eq-ok tx [] args e in
    let (copy', m', o') = legacy_preimage-eq-ok tx' [] args' e' in
    let flag = le_bytes 4 (to_u8 args.sighash_flag) in
    let flag' = le_bytes 4 (to_u8 args'.sighash_flag) in
    let back = read_legacy_back copy flag (copy-IsLegacy tx args copy h hs m) in
    let back' = read_legacy_back copy' flag' (copy-IsLegacy tx' args' copy' h' hs' m') in
    let (same, same_flag) = ok-pair_injective (sym back ∙ ap read_legacy (sym o ∙ o') ∙ back') in
    (m ∙ ap ok same ∙ sym m', flag_word-injective _ _ same_flag)
