-- ===== src/Bitcoins/Legacy/Format.antt =====
-- The format of legacy transactions (bitcoins/src/types/legacy.rs).
use bitcoins_rs.Base.{
  All, Bytes, IsByte, IsU32, List, [], ap, append_assoc, arith, le_bytes, length, length-append,
  length-le_bytes, ok, ok-injective, refl, sum_map, try-eq-ok, ℕ, ◌++◌, ◌+◌, ◌<◌, ◌∙◌, ◌∷◌, ◌≡◌,
}
use mathlib.Core.Path.{subst}
use bitcoins_rs.Bitcoins.Legacy.{LegacyTx, legacy_length, read_legacy, write_legacy}
use bitcoins_rs.Bitcoins.Sighash.{ser_error}
use bitcoins_rs.Bitcoins.TxIn.{input_format, input_length}
use bitcoins_rs.Bitcoins.TxIn.Laws.{
  IsInput, encode_input, input_format-IsCanonical, input_format-IsCodec, input_size,
}
use bitcoins_rs.Bitcoins.TxOut.{output_format, output_length}
use bitcoins_rs.Bitcoins.TxOut.Laws.{
  IsOutput, encode_output, output_format-IsCanonical, output_format-IsCodec,
  output_format-IsMeasured,
}
use bitcoins_rs.Ser.CompactInt.{prefix_byte_len}
use bitcoins_rs.Ser.CompactInt.Laws.{compact_int, length-compact_int}
use bitcoins_rs.Ser.Format.{read_prefix_vec, write_prefix_vec}
use bitcoins_rs.Ser.Format.Codec.{encode_all, encode_vec}
use bitcoins_rs.Ser.Format.PrefixVec.{
  IsVec, encode_vec-some_byte, read_prefix_vec-encode_vec, read_prefix_vec-only,
  write_prefix_vec_bytes,
}
use bitcoins_rs.Ser.Stream.{read_u32_le, write, write_u32_le}
use bitcoins_rs.Ser.Stream.Laws.{
  read_u32_le-append, read_u32_le-eq-ok, rest-IsByte, split_then, write_u32_le_lem,
}

pub record IsLegacy (tx : LegacyTx) : Type 0 where
  pub version_fits : IsU32 tx.version
  pub vin_ok : IsVec IsInput tx.vin
  pub vout_ok : IsVec IsOutput tx.vout
  pub locktime_fits : IsU32 tx.locktime

abbrev pub encode_legacy : LegacyTx → Bytes
encode_legacy tx =
    le_bytes 4 tx.version
    ++ (encode_vec encode_input tx.vin
        ++ (encode_vec encode_output tx.vout ++ le_bytes 4 tx.locktime))

-- Reading takes the encoding of a transaction off the input and leaves what follows.
pub read_legacy_back :
    (tx : LegacyTx) (r : Bytes) → IsLegacy tx → read_legacy (encode_legacy tx ++ r) ≡ ok (tx, r)
unfolding read_legacy
read_legacy_back tx r h =
    let vouts = encode_vec encode_output tx.vout in
    let vins = encode_vec encode_input tx.vin in
    let lock = le_bytes 4 tx.locktime in
    rw (
      append_assoc (le_bytes 4 tx.version) (vins ++ (vouts ++ lock)) r,
      append_assoc vins (vouts ++ lock) r,
      append_assoc vouts lock r,
      read_u32_le-append tx.version (vins ++ (vouts ++ (lock ++ r))) h.version_fits,
      read_prefix_vec-encode_vec input_format-IsCodec tx.vin (vouts ++ (lock ++ r)) h.vin_ok,
      read_prefix_vec-encode_vec output_format-IsCodec tx.vout (lock ++ r) h.vout_ok,
      read_u32_le-append tx.locktime r h.locktime_fits,
    )

-- Whatever input is accepted is the encoding of the transaction returned, followed by the rest.
pub read_legacy_only :
    (bs r : Bytes) (tx : LegacyTx)
    → All IsByte bs
    → read_legacy bs ≡ ok (tx, r)
    → (bs ≡ encode_legacy tx ++ r) × IsLegacy tx
unfolding read_legacy
read_legacy_only bs r tx h e =
    let ((ver, r1), m1, e1) = try-eq-ok ser_error (read_u32_le bs) _ e in
    let ((vin, r2), m2, e2) = try-eq-ok ser_error (read_prefix_vec input_format r1) _ e1 in
    let ((vout, r3), m3, e3) = try-eq-ok ser_error (read_prefix_vec output_format r2) _ e2 in
    let ((lock, r4), m4, e4) = try-eq-ok ser_error (read_u32_le r3) _ e3 in
    let (split1, hv) = read_u32_le-eq-ok bs h m1 in
    let h1 = rest-IsByte bs (le_bytes 4 ver) r1 h split1 in
    let (split2, hi) = read_prefix_vec-only input_format-IsCanonical r1 r2 vin h1 m2 in
    let h2 = rest-IsByte r1 (encode_vec encode_input vin) r2 h1 split2 in
    let (split3, ho) = read_prefix_vec-only output_format-IsCanonical r2 r3 vout h2 m3 in
    let h3 = rest-IsByte r2 (encode_vec encode_output vout) r3 h2 split3 in
    let (split4, hl) = read_u32_le-eq-ok r3 h3 m4 in
    let vouts = encode_vec encode_output vout ++ le_bytes 4 lock in
    let split34 =
      split_then r2 (encode_vec encode_output vout) (le_bytes 4 lock) r3 r4 split3 split4 in
    let vins = encode_vec encode_input vin in
    subst (λ p. (bs ≡ encode_legacy p.0 ++ p.1) × IsLegacy p.0) (ok-injective e4)
      (
        split_then bs (le_bytes 4 ver) (vins ++ vouts) r1 r4 split1
            (split_then r1 vins vouts r2 r4 split2 split34),
        record { version_fits = hv; vin_ok = hi; vout_ok = ho; locktime_fits = hl },
      )

-- Writing appends the encoding to what was written before.
pub legacy_write : (tx : LegacyTx) (w : Bytes) → (write_legacy tx w).1 ≡ w ++ encode_legacy tx
unfolding write_legacy
legacy_write tx w =
    rw
      (
        write_u32_le_lem tx.locktime
            (write_prefix_vec output_format tx.vout
              (write_prefix_vec input_format tx.vin (write_u32_le tx.version w).1).1).1,
        write_prefix_vec_bytes output_format-IsCodec tx.vout
            (write_prefix_vec input_format tx.vin (write_u32_le tx.version w).1).1,
        write_prefix_vec_bytes input_format-IsCodec tx.vin (write_u32_le tx.version w).1,
        write_u32_le_lem tx.version w,
      )
      (let v = le_bytes 4 tx.version in
        let i = encode_vec encode_input tx.vin in
        let o = encode_vec encode_output tx.vout in
        append_assoc ((w ++ v) ++ i) o _ ∙ append_assoc (w ++ v) i _ ∙ append_assoc w v _)

pub length-encode_legacy :
    (tx : LegacyTx)
    → length (encode_legacy tx)
      ≡ 8 + length (encode_vec encode_input tx.vin) + length (encode_vec encode_output tx.vout)
length-encode_legacy tx =
    let vouts = encode_vec encode_output tx.vout in
    let vins = encode_vec encode_input tx.vin in
    let lock = le_bytes 4 tx.locktime in
    omega (
      arith,
      length-append (le_bytes 4 tx.version) (vins ++ (vouts ++ lock)),
      length-append vins (vouts ++ lock),
      length-append vouts lock,
      length-le_bytes 4 tx.version,
      length-le_bytes 4 tx.locktime,
    )

write_legacy_returns : (tx : LegacyTx) (w : Bytes) → (write_legacy tx w).0 ≡ 8
unfolding write_legacy write_u32_le write
write_legacy_returns tx w =
    omega (arith, length-le_bytes 4 tx.version, length-le_bytes 4 tx.locktime)

-- The count that is returned is 8 for every transaction, fewer than the bytes that are written.
pub write_legacy_count :
    (tx : LegacyTx) (w : Bytes)
    → ((write_legacy tx w).0 ≡ 8) × (8 + length w < length (write_legacy tx w).1)
write_legacy_count tx w = (
  write_legacy_returns tx w,
  omega (
    arith,
    ap length (legacy_write tx w),
    length-append w (encode_legacy tx),
    length-encode_legacy tx,
    encode_vec-some_byte encode_input tx.vin,
  ),
)

sum_map-encode_all :
    {A : Type 0} (f : A → ℕ) (encode : A → Bytes) (Valid : A → Type 0)
    → ((a : A) → Valid a → f a ≡ length (encode a))
    → (v : List A) → All Valid v
    → sum_map f v ≡ length (encode_all encode v)
unfolding encode_all
sum_map-encode_all f encode Valid size [] h = refl
sum_map-encode_all f encode Valid size (a ∷ v) (ha, h) = omega (
  arith,
  size a ha,
  sum_map-encode_all f encode Valid size v h,
  length-append (encode a) (encode_all encode v),
)

-- The length of a vector's encoding, as `serialized_length` sums it up.
pub sum_map-encode_vec :
    {A : Type 0} (f : A → ℕ) (encode : A → Bytes) (Valid : A → Type 0)
    → ((a : A) → Valid a → f a ≡ length (encode a))
    → (v : List A) → All Valid v
    → prefix_byte_len (length v) + sum_map f v ≡ length (encode_vec encode v)
unfolding encode_vec
sum_map-encode_vec f encode Valid size v h = omega (
  arith,
  sum_map-encode_all f encode Valid size v h,
  length-compact_int (length v),
  length-append (compact_int (length v)) (encode_all encode v),
)

-- `serialized_length` is the number of bytes that are written.
pub legacy_size : (tx : LegacyTx) → IsLegacy tx → legacy_length tx ≡ length (encode_legacy tx)
unfolding legacy_length
legacy_size tx h = omega (
  arith,
  length-encode_legacy tx,
  sum_map-encode_vec input_length encode_input IsInput input_size tx.vin h.vin_ok.1,
  sum_map-encode_vec output_length encode_output IsOutput (λ o _. output_format-IsMeasured.size o)
      tx.vout h.vout_ok.1,
)
