-- ===== src/Bitcoins/Legacy/Chained.antt =====
-- Legacy transactions that are read from a tag of six bytes and what is behind it
-- (bitcoins/src/types/legacy.rs, as bitcoins/src/types/tx.rs calls it).
use bitcoins_rs.Base.{
  All, Bool-cases, Bytes, IsByte, IsU32, List, [], ap, append-injective, append_assoc, arith,
  if-false, if◌then◌else◌, inl, inr, le_bytes, leb, leb→le, leb→lt, length, length-le_bytes, le→leb,
  lt→leb, ok, ok-injective, refl, split, sym, try-eq-ok, ℕ, ◌++◌, ◌<◌, ◌∙◌, ◌∷◌, ◌≡◌, ◌≤◌,
}
use mathlib.Core.Path.{ap₂, subst}
use bitcoins_rs.Bitcoins.Legacy.{LegacyTx, read_legacy, read_legacy_chained}
use bitcoins_rs.Bitcoins.Legacy.Format.{IsLegacy, encode_legacy, read_legacy_only}
use bitcoins_rs.Bitcoins.Sighash.{ser_error}
use bitcoins_rs.Bitcoins.TxIn.{TxInput, input_format}
use bitcoins_rs.Bitcoins.TxIn.Laws.{IsInput, encode_input, input_format-IsCanonical}
use bitcoins_rs.Bitcoins.TxOut.{TxOut, output_format}
use bitcoins_rs.Bitcoins.TxOut.Laws.{IsOutput, encode_output, output_format-IsCanonical}
use bitcoins_rs.Ser.Chain.{read_compact_int_chained, read_prefix_vec_chained}
use bitcoins_rs.Ser.Chain.Laws.{chained_short, read_compact_int_chained-only}
use bitcoins_rs.Ser.CompactInt.Laws.{compact_int}
use bitcoins_rs.Ser.Format.{read_prefix_vec}
use bitcoins_rs.Ser.Format.Codec.{encode_all, encode_vec}
use bitcoins_rs.Ser.Format.PrefixVec.{IsVec, read_prefix_vec-only}
use bitcoins_rs.Ser.Stream.{read_u32_le}
use bitcoins_rs.Ser.Stream.Laws.{
  All-left, read_exact-append, read_u32_le-eq-ok, rest-IsByte, split_then,
}

-- The count of inputs that is read as `n`: from 0xfd on one byte behind the flag stands for two.
unfoldable pub chained_count : ℕ → Bytes
chained_count n = if leb n 0xfc then n ∷ [] else 0xfd ∷ n ∷ []

abbrev pub encode_chained : LegacyTx → Bytes
encode_chained tx =
    le_bytes 4 tx.version
    ++ ((chained_count (length tx.vin) ++ encode_all encode_input tx.vin)
        ++ (encode_vec encode_output tx.vout ++ le_bytes 4 tx.locktime))

-- With a count of one byte the end of the tag cuts nothing.
pub read_legacy_chained_short :
    (version : Bytes) (c d : ℕ) (reader : Bytes)
    → length version ≡ 4
    → c ≤ 0xfc
    → read_legacy_chained (version ++ (c ∷ d ∷ [])) reader
      ≡ read_legacy (version ++ (c ∷ d ∷ reader))
unfolding read_legacy_chained read_legacy read_u32_le read_prefix_vec_chained read_prefix_vec
read_legacy_chained_short version c d reader size short =
    let (chained, plain) = chained_short c d reader short in
    rw
      (
        read_exact-append 4 version (c ∷ d ∷ []) size,
        read_exact-append 4 version (c ∷ d ∷ reader) size,
        chained,
        plain,
      )
      refl

-- The tag of an input that is longer.
pub split_tag :
    (tag : Bytes)
    → length tag ≡ 6
    → (version : Bytes) × (c : ℕ) × (d : ℕ) × (tag ≡ version ++ (c ∷ d ∷ [])) × (length version ≡ 4)
split_tag (a ∷ b ∷ e ∷ f ∷ c ∷ d ∷ []) h = (a ∷ b ∷ e ∷ f ∷ [], c, d, refl, refl)
split_tag [] h = absurd (omega arith)
split_tag (a ∷ []) h = absurd (omega arith)
split_tag (a ∷ b ∷ []) h = absurd (omega arith)
split_tag (a ∷ b ∷ e ∷ []) h = absurd (omega arith)
split_tag (a ∷ b ∷ e ∷ f ∷ []) h = absurd (omega arith)
split_tag (a ∷ b ∷ e ∷ f ∷ c ∷ []) h = absurd (omega arith)
split_tag (a ∷ b ∷ e ∷ f ∷ c ∷ d ∷ g ∷ s) h = absurd (omega arith)

chained_count_long : (c d n : ℕ) → c ≡ 0xfd → 0xfd ≤ d → n ≡ d → chained_count n ≡ c ∷ d ∷ []
unfolding chained_count
chained_count_long c d n two more same =
    if-false (leb n 0xfc) _ _ (lt→leb n 0xfc (omega arith)) ∙ ap₂ (λ a b. a ∷ b ∷ []) (sym two) same

-- A number of one byte is counted as it is written.
pub chained_count_short : (n : ℕ) → n ≤ 0xfc → chained_count n ≡ compact_int n
unfolding chained_count compact_int
chained_count_short n h = rw (le→leb n 0xfc h) refl

-- A number whose first byte is no flag has no other byte.
compact_int_first :
    (n c : ℕ) (rest left : Bytes) → compact_int n ++ rest ≡ c ∷ left → c ≤ 0xfc → n ≤ 0xfc
unfolding compact_int
compact_int_first n c rest left e h = ground arith

encode_chained_short : (tx : LegacyTx) → length tx.vin ≤ 0xfc → encode_legacy tx ≡ encode_chained tx
unfolding encode_vec
encode_chained_short tx h =
    ap
      (λ z.
        le_bytes 4 tx.version
        ++ ((z ++ encode_all encode_input tx.vin)
            ++ (encode_vec encode_output tx.vout ++ le_bytes 4 tx.locktime)))
      (sym (chained_count_short (length tx.vin) h))

-- The parts of an encoding and of what follows it.
pub legacy_parts :
    (tx : LegacyTx) (r : Bytes)
    → encode_legacy tx ++ r
      ≡ le_bytes 4 tx.version
        ++ (compact_int (length tx.vin)
            ++ (encode_all encode_input tx.vin
                ++ ((encode_vec encode_output tx.vout ++ le_bytes 4 tx.locktime) ++ r)))
unfolding encode_vec
legacy_parts tx r =
    let items = encode_all encode_input tx.vin in
    let tail = encode_vec encode_output tx.vout ++ le_bytes 4 tx.locktime in
    append_assoc (le_bytes 4 tx.version) ((compact_int (length tx.vin) ++ items) ++ tail) r
    ∙ ap (λ z. le_bytes 4 tx.version ++ z)
        (append_assoc (compact_int (length tx.vin) ++ items) tail r
          ∙ append_assoc (compact_int (length tx.vin)) items (tail ++ r))

-- What is accepted is the form with the count that is read, and the transaction has fewer than 256
-- inputs.
abbrev IsChained : Bytes → LegacyTx × Bytes → Type 0
IsChained bs (tx, r) = (bs ≡ encode_chained tx ++ r) × IsLegacy tx × (length tx.vin < 256)

short_only :
    (version : Bytes) (c d : ℕ) (reader : Bytes) (tx : LegacyTx) (r : Bytes)
    → length version ≡ 4
    → c ≤ 0xfc
    → All IsByte (version ++ (c ∷ d ∷ reader))
    → read_legacy_chained (version ++ (c ∷ d ∷ [])) reader ≡ ok (tx, r)
    → IsChained (version ++ (c ∷ d ∷ reader)) (tx, r)
short_only version c d reader tx r size short bytes e =
    let plain = sym (read_legacy_chained_short version c d reader size short) ∙ e in
    let (same, formed) = read_legacy_only (version ++ (c ∷ d ∷ reader)) r tx bytes plain in
    let items = encode_all encode_input tx.vin in
    let tail = encode_vec encode_output tx.vout ++ le_bytes 4 tx.locktime in
    let parts : version ++ (c ∷ d ∷ reader)
        ≡ le_bytes 4 tx.version ++ (compact_int (length tx.vin) ++ (items ++ (tail ++ r))) =
      same ∙ legacy_parts tx r in
    let (_, behind) =
      append-injective version (le_bytes 4 tx.version) (size ∙ sym (length-le_bytes 4 tx.version))
        parts in
    let few =
      compact_int_first (length tx.vin) c (items ++ (tail ++ r)) (d ∷ reader) (sym behind) short in
    (same ∙ ap (λ z. z ++ r) (encode_chained_short tx few), formed, omega (arith, few))

tail_only :
    (bs r2 r : Bytes) (vout : List TxOut) (lock : ℕ)
    → All IsByte bs
    → read_prefix_vec output_format bs ≡ ok (vout, r2)
    → read_u32_le r2 ≡ ok (lock, r)
    → (bs ≡ (encode_vec encode_output vout ++ le_bytes 4 lock) ++ r)
      × IsVec IsOutput vout
      × IsU32 lock
tail_only bs r2 r vout lock h m m' =
    let (split, outs) = read_prefix_vec-only output_format-IsCanonical bs r2 vout h m in
    let h2 = rest-IsByte bs (encode_vec encode_output vout) r2 h split in
    let (split', fits) = read_u32_le-eq-ok r2 h2 m' in
    (split_then bs (encode_vec encode_output vout) (le_bytes 4 lock) r2 r split split', outs, fits)

-- The count and the inputs behind a tag.
inputs_only :
    (c d : ℕ) (reader : Bytes) (vin : List TxInput) (r : Bytes)
    → 0xfc < c
    → IsByte c
    → IsByte d
    → All IsByte reader
    → read_prefix_vec_chained input_format (c ∷ d ∷ []) reader ≡ ok (vin, r)
    → (c ∷ d ∷ reader ≡ (chained_count (length vin) ++ encode_all encode_input vin) ++ r)
      × IsVec IsInput vin
      × (length vin < 256)
unfolding read_prefix_vec_chained
inputs_only c d reader vin r wide hc hd h e =
    let ((n, r1), m, e1) = try-eq-ok (λ x. x) (read_compact_int_chained (c ∷ d ∷ []) reader) _ e in
    elim (read_compact_int_chained-only c d reader n r1 hc hd m) [
      | inl short ↦ absurd (omega arith)
      | inr (two, more, number, left) ↦
          let (split, count, valid) =
            input_format-IsCanonical.read_seq_only n r1 r vin (subst (All IsByte) left h) e1 in
          let flag = chained_count_long c d (length vin) two more (count ∙ sym number) in
          (
            ap (λ z. c ∷ d ∷ z) (left ∙ split)
                ∙ ap (λ z. (z ++ encode_all encode_input vin) ++ r) (sym flag),
            (omega (arith, count, number), valid),
            omega (arith, count, number),
          )
    ]

long_only :
    (version : Bytes) (c d : ℕ) (reader : Bytes) (tx : LegacyTx) (r : Bytes)
    → length version ≡ 4
    → 0xfc < c
    → All IsByte (version ++ (c ∷ d ∷ []))
    → All IsByte reader
    → read_legacy_chained (version ++ (c ∷ d ∷ [])) reader ≡ ok (tx, r)
    → IsChained (version ++ (c ∷ d ∷ reader)) (tx, r)
unfolding read_legacy_chained
long_only version c d reader tx r size wide ht h e =
    let tag = version ++ (c ∷ d ∷ []) in
    let ((ver, chain), m1, e1) = try-eq-ok ser_error (read_u32_le tag) _ e in
    let ((vin, r2), m2, e2) =
      try-eq-ok ser_error (read_prefix_vec_chained input_format chain reader) _ e1 in
    let ((vout, r3), m3, e3) = try-eq-ok ser_error (read_prefix_vec output_format r2) _ e2 in
    let ((lock, r4), m4, e4) = try-eq-ok ser_error (read_u32_le r3) _ e3 in
    let (split1, hv) = read_u32_le-eq-ok tag ht m1 in
    let (same, left) =
      append-injective version (le_bytes 4 ver) (size ∙ sym (length-le_bytes 4 ver)) split1 in
    let (hc, (hd, _)) = rest-IsByte tag version (c ∷ d ∷ []) ht refl in
    let (split2, hi, few) =
      inputs_only c d reader vin r2 wide hc hd h
        (ap (λ z. read_prefix_vec_chained input_format z reader) left ∙ m2) in
    let vins = chained_count (length vin) ++ encode_all encode_input vin in
    let h2 = rest-IsByte (c ∷ d ∷ reader) vins r2 (hc, (hd, h)) split2 in
    let (split3, ho, hl) = tail_only r2 r3 r4 vout lock h2 m3 m4 in
    let whole : version ++ (c ∷ d ∷ reader) ≡ le_bytes 4 ver ++ (c ∷ d ∷ reader) =
      ap (λ z. z ++ (c ∷ d ∷ reader)) same in
    let tail = encode_vec encode_output vout ++ le_bytes 4 lock in
    subst (IsChained (version ++ (c ∷ d ∷ reader))) (ok-injective e4) (
      split_then (version ++ (c ∷ d ∷ reader)) (le_bytes 4 ver) (vins ++ tail) (c ∷ d ∷ reader) r4
          whole (split_then (c ∷ d ∷ reader) vins tail r2 r4 split2 split3),
      record { version_fits = hv; vin_ok = hi; vout_ok = ho; locktime_fits = hl },
      few,
    )

pub read_legacy_chained_only :
    (tag reader : Bytes) (tx : LegacyTx) (r : Bytes)
    → length tag ≡ 6
    → All IsByte (tag ++ reader)
    → read_legacy_chained tag reader ≡ ok (tx, r)
    → (tag ++ reader ≡ encode_chained tx ++ r) × IsLegacy tx × (length tx.vin < 256)
read_legacy_chained_only tag reader tx r six bytes e =
    let (version, c, d, parts, size) = split_tag tag six in
    let whole : tag ++ reader ≡ version ++ (c ∷ d ∷ reader) =
      ap (λ z. z ++ reader) parts ∙ append_assoc version (c ∷ d ∷ []) reader in
    let e' = ap (λ z. read_legacy_chained z reader) (sym parts) ∙ e in
    let ht = subst (All IsByte) parts (All-left IsByte tag reader bytes) in
    let (same, formed, few) : IsChained (version ++ (c ∷ d ∷ reader)) (tx, r) =
      elim (Bool-cases (leb c 0xfc)) [
        | inl short ↦
            short_only version c d reader tx r size (leb→le c 0xfc short)
              (subst (All IsByte) whole bytes) e'
        | inr wide ↦
            long_only version c d reader tx r size (leb→lt c 0xfc wide) ht
              (rest-IsByte (tag ++ reader) tag reader bytes refl) e'
      ] in
    (whole ∙ same, formed, few)
