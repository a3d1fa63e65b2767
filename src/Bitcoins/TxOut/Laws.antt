-- ===== src/Bitcoins/TxOut/Laws.antt =====
-- The format of outputs (bitcoins/src/types/txout.rs).
use bitcoins_rs.Base.{
  >>=-eq-ok, All, Bytes, IsByte, IsU64, ap, append_assoc, arith, le_bytes, length, length-append,
  length-le_bytes, ok, ok-injective, ◌++◌, ◌+◌, ◌≡◌,
}
use mathlib.Core.Path.{subst}
use bitcoins_rs.Bitcoins.TxOut.{TxOut, output_format, output_length, read_output, write_output}
use bitcoins_rs.Ser.Format.Codec.{
  IsCanonical, IsCodec, IsMeasured, default-encode_all, default-only,
}
use bitcoins_rs.Ser.Stream.{read_u64_le, write_u64_le}
use bitcoins_rs.Ser.Stream.Laws.{
  read_u64_le-append, read_u64_le-eq-ok, rest-IsByte, split_then, write_u64_le_lem,
}
use bitcoins_rs.Wrapped.{read_wrapped}
use bitcoins_rs.Wrapped.Laws.{
  IsScript, encode_wrapped, wrapped_format-IsCanonical, wrapped_format-IsCodec,
  wrapped_format-IsMeasured,
}

pub record IsOutput (o : TxOut) : Type 0 where
  pub value_fits : IsU64 o.value
  pub script_ok : IsScript o.script_pubkey

abbrev pub encode_output : TxOut → Bytes
encode_output o = le_bytes 8 o.value ++ encode_wrapped o.script_pubkey

read_output_back :
    (o : TxOut) (r : Bytes) → IsOutput o → read_output (encode_output o ++ r) ≡ ok (o, r)
unfolding read_output
read_output_back o r h = rw (
  append_assoc (le_bytes 8 o.value) (encode_wrapped o.script_pubkey) r,
  read_u64_le-append o.value (encode_wrapped o.script_pubkey ++ r) h.value_fits,
  wrapped_format-IsCodec.read_back o.script_pubkey r h.script_ok,
)

read_output_only :
    (bs r : Bytes) (o : TxOut)
    → All IsByte bs
    → read_output bs ≡ ok (o, r)
    → (bs ≡ encode_output o ++ r) × IsOutput o
unfolding read_output
read_output_only bs r o h e =
    let ((value, r1), m1, e1) = >>=-eq-ok (read_u64_le bs) _ e in
    let ((s, r2), m2, e2) = >>=-eq-ok (read_wrapped r1) _ e1 in
    let (split1, hv) = read_u64_le-eq-ok bs h m1 in
    let (split2, hs) =
      wrapped_format-IsCanonical.read_only r1 r2 s (rest-IsByte bs (le_bytes 8 value) r1 h split1)
        m2 in
    subst (λ p. (bs ≡ encode_output p.0 ++ p.1) × IsOutput p.0) (ok-injective e2)
      (
        split_then bs (le_bytes 8 value) (encode_wrapped s) r1 r2 split1 split2,
        record { value_fits = hv; script_ok = hs },
      )

pub output_write : (o : TxOut) (w : Bytes) → (write_output o w).1 ≡ w ++ encode_output o
unfolding write_output
output_write o w = rw (
  wrapped_format-IsCodec.write_bytes o.script_pubkey (write_u64_le o.value w).1,
  write_u64_le_lem o.value w,
  append_assoc w (le_bytes 8 o.value) (encode_wrapped o.script_pubkey),
)

length-encode_output :
    (o : TxOut) → length (encode_output o) ≡ 8 + length (encode_wrapped o.script_pubkey)
length-encode_output o = omega (
  arith,
  length-append (le_bytes 8 o.value) (encode_wrapped o.script_pubkey),
  length-le_bytes 8 o.value,
)

pub output_format-IsCodec : IsCodec output_format IsOutput encode_output
output_format-IsCodec = record {
  write_bytes = output_write;
  read_back = read_output_back;
  read_seq_back = default-encode_all (λ e. e) read_output IsOutput encode_output read_output_back;
}

pub output_format-IsCanonical : IsCanonical output_format IsOutput encode_output
output_format-IsCanonical = record {
  read_only = read_output_only;
  read_seq_only = default-only (λ e. e) read_output IsOutput encode_output read_output_only;
  some_byte = λ o. omega (arith, length-encode_output o);
}

pub output_format-IsMeasured : IsMeasured output_format encode_output
unfolding write_output output_length
output_format-IsMeasured = record {
  write_count = λ o w. omega (
    arith,
    length-encode_output o,
    wrapped_format-IsMeasured.write_count o.script_pubkey (write_u64_le o.value w).1,
    ap (λ p. p.0) (write_u64_le_lem o.value w),
  );
  size = λ o. omega (arith, length-encode_output o, wrapped_format-IsMeasured.size o.script_pubkey);
}
