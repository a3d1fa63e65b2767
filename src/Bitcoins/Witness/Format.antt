-- ===== src/Bitcoins/Witness/Format.antt =====
-- Reading witness transactions (bitcoins/src/types/witness.rs).
use bitcoins_rs.Base.{
  >>=-eq-ok, All, Bytes, IsByte, [], ap, append_assoc, arith, bytes_eq, bytes_eq→eq, fail_if-eq-ok,
  le_bytes, length, map_err-eq-ok, not, ok, ok-injective, refl, try-eq-ok, ◌++◌, ◌∙◌, ◌∷◌, ◌≡◌,
}
use mathlib.Core.Path.{subst}
use bitcoins_rs.Bitcoins.Legacy.Format.{IsLegacy}
use bitcoins_rs.Bitcoins.Sighash.{TxError, bad_witness_flag, ser_error}
use bitcoins_rs.Bitcoins.TxIn.{input_format}
use bitcoins_rs.Bitcoins.TxIn.Laws.{encode_input, input_format-IsCanonical, input_format-IsCodec}
use bitcoins_rs.Bitcoins.TxOut.{output_format}
use bitcoins_rs.Bitcoins.TxOut.Laws.{
  encode_output, output_format-IsCanonical, output_format-IsCodec,
}
use bitcoins_rs.Bitcoins.Witness.{WitnessStack, WitnessTx, read_stack, read_witness}
use bitcoins_rs.Ser.Format.{read_items, read_prefix_vec}
use bitcoins_rs.Ser.Format.Codec.{encode_all, encode_vec, read_items-encode_all, read_items-only}
use bitcoins_rs.Ser.Format.PrefixVec.{IsVec, read_prefix_vec-encode_vec, read_prefix_vec-only}
use bitcoins_rs.Ser.Stream.{read_exact, read_u32_le}
use bitcoins_rs.Ser.Stream.Laws.{
  read_exact-append, read_exact-eq-ok, read_u32_le-append, read_u32_le-eq-ok, rest-IsByte,
  split_then,
}
use bitcoins_rs.Wrapped.{wrapped_format}
use bitcoins_rs.Wrapped.Laws.{
  IsScript, encode_wrapped, wrapped_format-IsCanonical, wrapped_format-IsCodec,
}

abbrev pub IsStack : WitnessStack → Type 0
IsStack = IsVec IsScript

abbrev pub encode_stack : WitnessStack → Bytes
encode_stack = encode_vec encode_wrapped

pub record IsWitness (tx : WitnessTx) : Type 0 where
  pub legacy_ok : IsLegacy tx.legacy_tx
  pub one_each : length tx.witnesses ≡ length tx.legacy_tx.vin
  pub stacks_ok : All IsStack tx.witnesses

abbrev pub encode_witness : WitnessTx → Bytes
encode_witness tx =
    le_bytes 4 tx.legacy_tx.version
    ++ ((0 ∷ 1 ∷ [])
        ++ (encode_vec encode_input tx.legacy_tx.vin
            ++ (encode_vec encode_output tx.legacy_tx.vout
                ++ (encode_all encode_stack tx.witnesses ++ le_bytes 4 tx.legacy_tx.locktime))))

read_stack_back :
    (v : WitnessStack) (r : Bytes) → IsStack v → read_stack (encode_stack v ++ r) ≡ ok (v, r)
unfolding read_stack
read_stack_back v r h = rw (read_prefix_vec-encode_vec wrapped_format-IsCodec v r h)

read_stack_only :
    (bs r : Bytes) (v : WitnessStack)
    → All IsByte bs
    → read_stack bs ≡ ok (v, r)
    → (bs ≡ encode_stack v ++ r) × IsStack v
unfolding read_stack
read_stack_only bs r v h e =
    read_prefix_vec-only wrapped_format-IsCanonical bs r v h
      (map_err-eq-ok ser_error (read_prefix_vec wrapped_format bs) e)

-- Reading takes the encoding of a witness transaction off the input and leaves what follows.
pub read_witness_back :
    (tx : WitnessTx) (r : Bytes) → IsWitness tx → read_witness (encode_witness tx ++ r) ≡ ok (tx, r)
unfolding read_witness bytes_eq
read_witness_back tx r h =
    let l = tx.legacy_tx in
    let vins = encode_vec encode_input l.vin in
    let vouts = encode_vec encode_output l.vout in
    let wits = encode_all encode_stack tx.witnesses in
    let lock = le_bytes 4 l.locktime in
    let stacks =
      read_items-encode_all ser_error read_stack IsStack encode_stack read_stack_back tx.witnesses
        (lock ++ r) h.stacks_ok in
    rw (
      append_assoc (le_bytes 4 l.version) ((0 ∷ 1 ∷ []) ++ (vins ++ (vouts ++ (wits ++ lock)))) r,
      append_assoc vins (vouts ++ (wits ++ lock)) r,
      append_assoc vouts (wits ++ lock) r,
      append_assoc wits lock r,
      read_u32_le-append l.version ((0 ∷ 1 ∷ []) ++ (vins ++ (vouts ++ (wits ++ (lock ++ r)))))
          h.legacy_ok.version_fits,
      read_exact-append 2 (0 ∷ 1 ∷ []) (vins ++ (vouts ++ (wits ++ (lock ++ r)))) refl,
      read_prefix_vec-encode_vec input_format-IsCodec l.vin (vouts ++ (wits ++ (lock ++ r)))
          h.legacy_ok.vin_ok,
      read_prefix_vec-encode_vec output_format-IsCodec l.vout (wits ++ (lock ++ r))
          h.legacy_ok.vout_ok,
      ← h.one_each,
      stacks,
      read_u32_le-append l.locktime r h.legacy_ok.locktime_fits,
    )

-- Whatever input is accepted is the encoding of the transaction returned, followed by the rest; the
-- transaction has one witness for each input.
pub read_witness_only :
    (bs r : Bytes) (tx : WitnessTx)
    → All IsByte bs
    → read_witness bs ≡ ok (tx, r)
    → (bs ≡ encode_witness tx ++ r) × IsWitness tx
unfolding read_witness
read_witness_only bs r tx h e =
    let ((ver, r1), m1, e1) = try-eq-ok ser_error (read_u32_le bs) _ e in
    let ((flag, r2), m2, e2) = try-eq-ok TxError.io_error (read_exact 2 r1) _ e1 in
    let (eq_flag, e2') =
      fail_if-eq-ok (not (bytes_eq flag (0 ∷ 1 ∷ []))) (bad_witness_flag flag) _ e2 in
    let ((vin, r3), m3, e3) = try-eq-ok ser_error (read_prefix_vec input_format r2) _ e2' in
    let ((vout, r4), m4, e4) = try-eq-ok ser_error (read_prefix_vec output_format r3) _ e3 in
    let ((wits, r5), m5, e5) = >>=-eq-ok (read_items read_stack (length vin) r4) _ e4 in
    let ((lock, r6), m6, e6) = try-eq-ok ser_error (read_u32_le r5) _ e5 in
    let (split1, hv) = read_u32_le-eq-ok bs h m1 in
    let h1 = rest-IsByte bs (le_bytes 4 ver) r1 h split1 in
    let (split2, _, _, _) = read_exact-eq-ok 2 r1 m2 in
    let the_flag : flag ≡ 0 ∷ 1 ∷ [] = bytes_eq→eq flag (0 ∷ 1 ∷ []) (ground arith) in
    let h2 = rest-IsByte r1 flag r2 h1 split2 in
    let (split3, hi) = read_prefix_vec-only input_format-IsCanonical r2 r3 vin h2 m3 in
    let h3 = rest-IsByte r2 (encode_vec encode_input vin) r3 h2 split3 in
    let (split4, ho) = read_prefix_vec-only output_format-IsCanonical r3 r4 vout h3 m4 in
    let h4 = rest-IsByte r3 (encode_vec encode_output vout) r4 h3 split4 in
    let (split5, len, hw) =
      read_items-only ser_error read_stack IsStack encode_stack read_stack_only (length vin) r4 r5
        wits h4 m5 in
    let h5 = rest-IsByte r4 (encode_all encode_stack wits) r5 h4 split5 in
    let (split6, hl) = read_u32_le-eq-ok r5 h5 m6 in
    let lock' = le_bytes 4 lock in
    let wits' = encode_all encode_stack wits in
    let vout' = encode_vec encode_output vout in
    let vin' = encode_vec encode_input vin in
    let split56 = split_then r4 wits' lock' r5 r6 split5 split6 in
    let split46 = split_then r3 vout' (wits' ++ lock') r4 r6 split4 split56 in
    let split36 = split_then r2 vin' (vout' ++ (wits' ++ lock')) r3 r6 split3 split46 in
    let split2' = split2 ∙ ap (λ z. z ++ r2) the_flag in
    let split26 =
      split_then r1 (0 ∷ 1 ∷ []) (vin' ++ (vout' ++ (wits' ++ lock'))) r2 r6 split2' split36 in
    subst (λ p. (bs ≡ encode_witness p.0 ++ p.1) × IsWitness p.0) (ok-injective e6)
      (
        split_then bs (le_bytes 4 ver) ((0 ∷ 1 ∷ []) ++ (vin' ++ (vout' ++ (wits' ++ lock')))) r1 r6
            split1 split26,
        record {
          legacy_ok = record { version_fits = hv; vin_ok = hi; vout_ok = ho; locktime_fits = hl };
          one_each = len;
          stacks_ok = hw;
        },
      )
