-- ===== src/Bitcoins/Tx/Laws.antt =====
-- The format of transactions of either kind (bitcoins/src/types/tx.rs).
use bitcoins_rs.Base.{
  All, Bool-cases, Bytes, IsByte, List, [], ap, append_assoc, arith, bytes_eq, drop, drop-append,
  false, if-false, if-true, if◌then◌else◌, inl, inr, le_bytes, leb, length, length-append,
  length-le_bytes, le→leb, map_ok, map_ok-eq-ok, ne→==, ok, refl, split, sym, take, try-eq-ok, ℕ,
  ◌++◌, ◌+◌, ◌<◌, ◌↔◌, ◌∙◌, ◌∷◌, ◌≡◌, ◌≢◌,
}
use mathlib.Core.Path.{ap₂, subst}
use bitcoins_rs.Bitcoins.Legacy.{LegacyTx, read_legacy, read_legacy_chained}
use bitcoins_rs.Bitcoins.Legacy.Chained.{
  chained_count, encode_chained, legacy_parts, read_legacy_chained_only, read_legacy_chained_short,
}
use bitcoins_rs.Bitcoins.Legacy.Format.{IsLegacy, encode_legacy, read_legacy_back}
use bitcoins_rs.Bitcoins.Sighash.{TxError}
use bitcoins_rs.Bitcoins.Tx.{BitcoinTx, legacy, read_tx, witness}
use bitcoins_rs.Bitcoins.TxIn.Laws.{encode_input}
use bitcoins_rs.Bitcoins.TxOut.Laws.{encode_output}
use bitcoins_rs.Bitcoins.Witness.{WitnessTx, read_witness}
use bitcoins_rs.Bitcoins.Witness.Format.{
  IsWitness, encode_stack, encode_witness, read_witness_back, read_witness_only,
}
use bitcoins_rs.Ser.CompactInt.Laws.{compact_int}
use bitcoins_rs.Ser.Format.Codec.{encode_all, encode_vec}
use bitcoins_rs.Ser.Stream.{read_exact}
use bitcoins_rs.Ser.Stream.Laws.{read_exact-append, read_exact-eq-ok}

abbrev pub encode_tx : BitcoinTx → Bytes
encode_tx (witness tx) = encode_witness tx
encode_tx (legacy tx) = encode_legacy tx

-- A transaction of either kind that fits its format; a legacy one has an input.
abbrev pub IsTx : BitcoinTx → Type 0
IsTx (witness tx) = IsWitness tx
IsTx (legacy tx) = IsLegacy tx × (tx.vin ≢ [])

-- What the tag selects, for input that has at least the six bytes of it.
read_tx_lem :
    (version : Bytes) (c d : ℕ) (behind : Bytes)
    → length version ≡ 4
    → read_tx (version ++ (c ∷ d ∷ behind)) ≡ (
        if bytes_eq (c ∷ d ∷ []) (0 ∷ 1 ∷ [])
        then map_ok (λ p. (witness p.0, p.1)) (read_witness (version ++ (c ∷ d ∷ behind)))
        else map_ok (λ p. (legacy p.0, p.1)) (read_legacy_chained (version ++ (c ∷ d ∷ [])) behind))
unfolding read_tx
read_tx_lem version c d behind h =
    let tag = version ++ (c ∷ d ∷ []) in
    let front : version ++ (c ∷ d ∷ behind) ≡ tag ++ behind =
      sym (append_assoc version (c ∷ d ∷ []) behind) in
    let six : length tag ≡ 6 = omega (arith, length-append version (c ∷ d ∷ [])) in
    rw (front, read_exact-append 6 tag behind six, drop-append 4 version (c ∷ d ∷ []) h)

first_ne : (c d : ℕ) → c ≢ 0 → bytes_eq (c ∷ d ∷ []) (0 ∷ 1 ∷ []) ≡ false
unfolding bytes_eq
first_ne c d h = rw (ne→== c 0 h)

length-nonzero : {A : Type 0} (v : List A) → v ≢ [] → length v ≢ 0
length-nonzero [] h = absurd (h refl)
length-nonzero (x ∷ v) h = omega arith

first_byte : (s : Bytes) → 0 < length s → (d : ℕ) × (behind : Bytes) × (s ≡ d ∷ behind)
first_byte [] h = absurd (omega arith)
first_byte (d ∷ behind) h = (d, behind, refl)

read_witness_tx_back :
    (tx : WitnessTx) (r : Bytes)
    → IsWitness tx
    → read_tx (encode_witness tx ++ r) ≡ ok (witness tx, r)
unfolding bytes_eq
read_witness_tx_back tx r h =
    let behind =
      encode_vec encode_input tx.legacy_tx.vin
      ++ (encode_vec encode_output tx.legacy_tx.vout
          ++ (encode_all encode_stack tx.witnesses ++ le_bytes 4 tx.legacy_tx.locktime)) in
    let version = le_bytes 4 tx.legacy_tx.version in
    let shape : encode_witness tx ++ r ≡ version ++ (0 ∷ 1 ∷ (behind ++ r)) =
      append_assoc version (0 ∷ 1 ∷ behind) r in
    let back : read_witness (version ++ (0 ∷ 1 ∷ (behind ++ r))) ≡ ok (tx, r) =
      ap read_witness (sym shape) ∙ read_witness_back tx r h in
    ap read_tx shape
    ∙ read_tx_lem version 0 1 (behind ++ r) (length-le_bytes 4 tx.legacy_tx.version)
    ∙ ap (map_ok (λ p. (witness p.0, p.1))) back

read_legacy_tx_back :
    (tx : LegacyTx) (r : Bytes)
    → IsLegacy tx
    → tx.vin ≢ []
    → length tx.vin < 253
    → read_tx (encode_legacy tx ++ r) ≡ ok (legacy tx, r)
unfolding compact_int
read_legacy_tx_back tx r h inputs few =
    let n = length tx.vin in
    let version = le_bytes 4 tx.version in
    let tail = encode_vec encode_output tx.vout ++ le_bytes 4 tx.locktime in
    let rest = encode_all encode_input tx.vin ++ (tail ++ r) in
    let some_rest : 0 < length rest = omega (
      arith,
      length-append (encode_all encode_input tx.vin) (tail ++ r),
      length-append tail r,
      length-append (encode_vec encode_output tx.vout) (le_bytes 4 tx.locktime),
      length-le_bytes 4 tx.locktime,
    ) in
    let (d, behind, next) = first_byte rest some_rest in
    let short : compact_int n ≡ n ∷ [] = if-true (leb n 0xfc) _ _ (le→leb n 0xfc (omega arith)) in
    let shape : encode_legacy tx ++ r ≡ version ++ (n ∷ d ∷ behind) =
      legacy_parts tx r ∙ ap₂ (λ a b. version ++ (a ++ b)) short next in
    let size = length-le_bytes 4 tx.version in
    let back : read_legacy_chained (version ++ (n ∷ d ∷ [])) behind ≡ ok (tx, r) =
      read_legacy_chained_short version n d behind size (omega arith)
      ∙ ap read_legacy (sym shape)
      ∙ read_legacy_back tx r h in
    ap read_tx shape
    ∙ read_tx_lem version n d behind size
    ∙ if-false _ _ _ (first_ne n d (length-nonzero tx.vin inputs))
    ∙ ap (map_ok (λ p. (legacy p.0, p.1))) back

-- The data of a transaction fits its format, and a legacy one has a count of inputs that is read.
abbrev pub IsFormed : BitcoinTx → Type 0
IsFormed (witness tx) = IsWitness tx
IsFormed (legacy tx) = IsLegacy tx × (length tx.vin < 256)

-- The input that a transaction is read from: its encoding, but the count of the inputs of a legacy
-- one is cut behind its second byte.
abbrev pub encode_read : BitcoinTx → Bytes
encode_read (witness tx) = encode_witness tx
encode_read (legacy tx) = encode_chained tx

-- Whatever input is accepted is the encoding of the transaction returned, followed by the rest, but
-- that a count of inputs from 253 to 255 is given by one byte behind its flag.
pub read_tx_only :
    (bs r : Bytes) (tx : BitcoinTx)
    → All IsByte bs
    → read_tx bs ≡ ok (tx, r)
    → (bs ≡ encode_read tx ++ r) × IsFormed tx
unfolding read_tx
read_tx_only bs r tx h e =
    let ((tag, reader), m1, e1) = try-eq-ok TxError.io_error (read_exact 6 bs) _ e in
    let (split, six, _, _) = read_exact-eq-ok 6 bs m1 in
    let bytes = subst (All IsByte) split h in
    elim (Bool-cases (bytes_eq (take 2 (drop 4 tag)) (0 ∷ 1 ∷ []))) [
      | inl tagged ↦
          let chosen : map_ok (λ p. (witness p.0, p.1)) (read_witness (tag ++ reader))
              ≡ ok (tx, r) =
            sym (if-true _ _ _ tagged) ∙ e1 in
          let ((t, r'), m2, e2) = map_ok-eq-ok _ _ chosen in
          let (same, formed) = read_witness_only (tag ++ reader) r' t bytes m2 in
          subst (λ p. (bs ≡ encode_read p.0 ++ p.1) × IsFormed p.0) e2 (split ∙ same, formed)
      | inr untagged ↦
          let chosen : map_ok (λ p. (legacy p.0, p.1)) (read_legacy_chained tag reader)
              ≡ ok (tx, r) =
            sym (if-false _ _ _ untagged) ∙ e1 in
          let ((t, r'), m2, e2) = map_ok-eq-ok _ _ chosen in
          let (same, formed, few) = read_legacy_chained_only tag reader t r' six bytes m2 in
          subst (λ p. (bs ≡ encode_read p.0 ++ p.1) × IsFormed p.0) e2 (split ∙ same, (formed, few))
    ]

-- A legacy transaction has fewer inputs than a number of one byte counts.
abbrev pub IsShort : BitcoinTx → Type 0
IsShort (witness tx) = Unit
IsShort (legacy tx) = length tx.vin < 253

-- The two forms of a count have the same length for a number of one byte alone.
same_count : (n : ℕ) → length (compact_int n) ≡ length (chained_count n) → n < 253
unfolding compact_int chained_count le_bytes
same_count n e = ground arith

framed_length :
    (v c x t r : Bytes)
    → length ((v ++ ((c ++ x) ++ t)) ++ r) ≡ length c + (length v + length x + length t + length r)
framed_length v c x t r = omega (
  arith,
  length-append (v ++ ((c ++ x) ++ t)) r,
  length-append v ((c ++ x) ++ t),
  length-append (c ++ x) t,
  length-append c x,
)

same_form :
    (tx : LegacyTx) (r : Bytes)
    → encode_legacy tx ++ r ≡ encode_chained tx ++ r
    → length tx.vin < 253
unfolding encode_vec
same_form tx r e =
    let n = length tx.vin in
    let v = le_bytes 4 tx.version in
    let x = encode_all encode_input tx.vin in
    let t = encode_vec encode_output tx.vout ++ le_bytes 4 tx.locktime in
    same_count n (
      omega (
        arith,
        ap length e,
        framed_length v (compact_int n) x t r,
        framed_length v (chained_count n) x t r,
      ))

-- The encoding of a transaction is read back, and what follows it is left, exactly if it is not a
-- legacy one of 253 inputs or more; a legacy transaction has an input.
pub read_tx_back :
    (tx : BitcoinTx) (r : Bytes)
    → IsTx tx
    → All IsByte (encode_tx tx ++ r)
    → (read_tx (encode_tx tx ++ r) ≡ ok (tx, r)) ↔ IsShort tx
read_tx_back (witness tx) r h bytes = (λ _. tt, λ _. read_witness_tx_back tx r h)
read_tx_back (legacy tx) r (h, inputs) bytes = (
  λ e. same_form tx r (read_tx_only (encode_legacy tx ++ r) r (legacy tx) bytes e).0,
  λ few. read_legacy_tx_back tx r h inputs few,
)
