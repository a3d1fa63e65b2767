-- ===== src/Bitcoins/TxIn/Laws.antt =====
-- The formats of outpoints and inputs (bitcoins/src/types/txin.rs).
use bitcoins_rs.Base.{
  >>=-eq-ok, All, Bytes, IsByte, IsU32, ap, append_assoc, arith, le_bytes, length, length-append,
  length-le_bytes, ok, ok-injective, try-eq-ok, ◌++◌, ◌+◌, ◌∙◌, ◌≡◌,
}
use mathlib.Core.Path.{subst}
use bitcoins_rs.Bitcoins.TxIn.{
  Outpoint, TxInput, input_format, input_length, read_input, read_outpoint, write_input,
  write_outpoint,
}
use bitcoins_rs.Hashes.{read_digest}
use bitcoins_rs.Hashes.Laws.{IsDigest, read_digest_back, read_digest_only}
use bitcoins_rs.Ser.Format.Codec.{IsCanonical, IsCodec, default-encode_all, default-only}
use bitcoins_rs.Ser.Stream.{component_error, read_u32_le, write}
use bitcoins_rs.Ser.Stream.Laws.{
  read_u32_le-append, read_u32_le-eq-ok, rest-IsByte, split_then, write_u32_le_lem,
}
use bitcoins_rs.Wrapped.{read_wrapped, write_wrapped}
use bitcoins_rs.Wrapped.Laws.{
  IsScript, encode_wrapped, wrapped_format-IsCanonical, wrapped_format-IsCodec,
  wrapped_format-IsMeasured,
}

pub record IsOutpoint (o : Outpoint) : Type 0 where
  pub txid_digest : IsDigest 32 o.txid
  pub idx_fits : IsU32 o.idx

abbrev pub encode_outpoint : Outpoint → Bytes
encode_outpoint o = o.txid ++ le_bytes 4 o.idx

read_outpoint_back :
    (o : Outpoint) (r : Bytes) → IsOutpoint o → read_outpoint (encode_outpoint o ++ r) ≡ ok (o, r)
unfolding read_outpoint
read_outpoint_back o r h = rw (
  append_assoc o.txid (le_bytes 4 o.idx) r,
  read_digest_back 32 o.txid (le_bytes 4 o.idx ++ r) h.txid_digest,
  read_u32_le-append o.idx r h.idx_fits,
)

read_outpoint_only :
    (bs r : Bytes) (o : Outpoint)
    → All IsByte bs
    → read_outpoint bs ≡ ok (o, r)
    → (bs ≡ encode_outpoint o ++ r) × IsOutpoint o
unfolding read_outpoint
read_outpoint_only bs r o h e =
    let ((txid, r1), m1, e1) = try-eq-ok component_error (read_digest 32 bs) _ e in
    let ((idx, r2), m2, e2) = >>=-eq-ok (read_u32_le r1) _ e1 in
    let (split1, digest) = read_digest_only 32 bs r1 txid h m1 in
    let (split2, fits) = read_u32_le-eq-ok r1 (rest-IsByte bs txid r1 h split1) m2 in
    subst (λ p. (bs ≡ encode_outpoint p.0 ++ p.1) × IsOutpoint p.0) (ok-injective e2)
      (
        split_then bs txid (le_bytes 4 idx) r1 r2 split1 split2,
        record { txid_digest = digest; idx_fits = fits },
      )

pub outpoint_write : (o : Outpoint) (w : Bytes) → (write_outpoint o w).1 ≡ w ++ encode_outpoint o
unfolding write_outpoint write
outpoint_write o w =
    ap (λ p. p.1) (write_u32_le_lem o.idx (w ++ o.txid)) ∙ append_assoc w o.txid (le_bytes 4 o.idx)

length-encode_outpoint : (o : Outpoint) → length (encode_outpoint o) ≡ length o.txid + 4
length-encode_outpoint o =
    omega (arith, length-append o.txid (le_bytes 4 o.idx), length-le_bytes 4 o.idx)

pub outpoint_count :
    (o : Outpoint) (w : Bytes) → (write_outpoint o w).0 ≡ length (encode_outpoint o)
unfolding write_outpoint write
outpoint_count o w =
    omega (arith, length-encode_outpoint o, ap (λ p. p.0) (write_u32_le_lem o.idx (w ++ o.txid)))

pub record IsInput (i : TxInput) : Type 0 where
  pub outpoint_ok : IsOutpoint i.outpoint
  pub script_ok : IsScript i.script_sig
  pub sequence_fits : IsU32 i.sequence

abbrev pub encode_input : TxInput → Bytes
encode_input i =
    encode_outpoint i.outpoint ++ (encode_wrapped i.script_sig ++ le_bytes 4 i.sequence)

read_input_back :
    (i : TxInput) (r : Bytes) → IsInput i → read_input (encode_input i ++ r) ≡ ok (i, r)
unfolding read_input
read_input_back i r h = rw (
  append_assoc (encode_outpoint i.outpoint) (encode_wrapped i.script_sig ++ le_bytes 4 i.sequence)
      r,
  append_assoc (encode_wrapped i.script_sig) (le_bytes 4 i.sequence) r,
  read_outpoint_back i.outpoint (encode_wrapped i.script_sig ++ (le_bytes 4 i.sequence ++ r))
      h.outpoint_ok,
  wrapped_format-IsCodec.read_back i.script_sig (le_bytes 4 i.sequence ++ r) h.script_ok,
  read_u32_le-append i.sequence r h.sequence_fits,
)

read_input_only :
    (bs r : Bytes) (i : TxInput)
    → All IsByte bs
    → read_input bs ≡ ok (i, r)
    → (bs ≡ encode_input i ++ r) × IsInput i
unfolding read_input
read_input_only bs r i h e =
    let ((o, r1), m1, e1) = >>=-eq-ok (read_outpoint bs) _ e in
    let ((s, r2), m2, e2) = >>=-eq-ok (read_wrapped r1) _ e1 in
    let ((q, r3), m3, e3) = >>=-eq-ok (read_u32_le r2) _ e2 in
    let (split1, ho) = read_outpoint_only bs r1 o h m1 in
    let h1 = rest-IsByte bs (encode_outpoint o) r1 h split1 in
    let (split2, hs) = wrapped_format-IsCanonical.read_only r1 r2 s h1 m2 in
    let (split3, hq) = read_u32_le-eq-ok r2 (rest-IsByte r1 (encode_wrapped s) r2 h1 split2) m3 in
    subst (λ p. (bs ≡ encode_input p.0 ++ p.1) × IsInput p.0) (ok-injective e3)
      (
        split_then bs (encode_outpoint o) (encode_wrapped s ++ le_bytes 4 q) r1 r3 split1
            (split_then r1 (encode_wrapped s) (le_bytes 4 q) r2 r3 split2 split3),
        record { outpoint_ok = ho; script_ok = hs; sequence_fits = hq },
      )

input_write : (i : TxInput) (w : Bytes) → (write_input i w).1 ≡ w ++ encode_input i
unfolding write_input
input_write i w = rw (
  write_u32_le_lem i.sequence (write_wrapped i.script_sig (write_outpoint i.outpoint w).1).1,
  wrapped_format-IsCodec.write_bytes i.script_sig (write_outpoint i.outpoint w).1,
  outpoint_write i.outpoint w,
  append_assoc (w ++ encode_outpoint i.outpoint) (encode_wrapped i.script_sig)
      (le_bytes 4 i.sequence),
  append_assoc w (encode_outpoint i.outpoint)
      (encode_wrapped i.script_sig ++ le_bytes 4 i.sequence),
)

length-encode_input :
    (i : TxInput)
    → length (encode_input i) ≡ length i.outpoint.txid + 8 + length (encode_wrapped i.script_sig)
length-encode_input i = omega (
  arith,
  length-append (encode_outpoint i.outpoint) (encode_wrapped i.script_sig ++ le_bytes 4 i.sequence),
  length-append (encode_wrapped i.script_sig) (le_bytes 4 i.sequence),
  length-encode_outpoint i.outpoint,
  length-le_bytes 4 i.sequence,
)

pub input_count : (i : TxInput) (w : Bytes) → (write_input i w).0 ≡ length (encode_input i)
unfolding write_input
input_count i w = omega (
  arith,
  length-encode_input i,
  length-encode_outpoint i.outpoint,
  outpoint_count i.outpoint w,
  wrapped_format-IsMeasured.write_count i.script_sig (write_outpoint i.outpoint w).1,
  ap (λ p. p.0)
      (write_u32_le_lem i.sequence (write_wrapped i.script_sig (write_outpoint i.outpoint w).1).1),
)

-- The length that is computed for an input of a 32-byte txid is that of its encoding.
pub input_size : (i : TxInput) → IsInput i → input_length i ≡ length (encode_input i)
unfolding input_length
input_size i h = omega (
  arith,
  length-encode_input i,
  wrapped_format-IsMeasured.size i.script_sig,
  h.outpoint_ok.txid_digest.0,
)

pub input_format-IsCodec : IsCodec input_format IsInput encode_input
input_format-IsCodec = record {
  write_bytes = input_write;
  read_back = read_input_back;
  read_seq_back = default-encode_all (λ e. e) read_input IsInput encode_input read_input_back;
}

pub input_format-IsCanonical : IsCanonical input_format IsInput encode_input
input_format-IsCanonical = record {
  read_only = read_input_only;
  read_seq_only = default-only (λ e. e) read_input IsInput encode_input read_input_only;
  some_byte = λ i. omega (arith, length-encode_input i);
}
