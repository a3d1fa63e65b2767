-- ===== src/Bitcoins/TxOut.antt =====
-- bitcoins/src/types/txout.rs: outputs.
pub mod Laws
use bitcoins_rs.Base.{Bytes, Result, [], length, ok, take, ℕ, ◌%◌, ◌+◌, ◌>>=◌, ◌>>◌, ◌∷◌}
use bitcoins_rs.Ser.Format.{ByteFormat, default_read_seq_from}
use bitcoins_rs.Ser.Stream.{SerError, read_u64_le, write_u64_le}
use bitcoins_rs.Wrapped.{read_wrapped, wrapped_format, write_wrapped}

pub record TxOut : Type 0 where
  pub value : ℕ
  pub script_pubkey : Bytes

abbrev pub new_output : ℕ → Bytes → TxOut
new_output value script_pubkey = record { value = value; script_pubkey = script_pubkey }

abbrev pub null_output : TxOut
null_output = new_output 0xffff_ffff_ffff_ffff []

-- `TxOut::op_return`, with the data cut to 75 bytes.
unfoldable pub op_return : Bytes → TxOut
op_return payload = let cut = take 75 payload in new_output 0 (0x6a ∷ (length cut % 256) ∷ cut)

unfoldable pub output_length : TxOut → ℕ
output_length o = 8 + wrapped_format.serialized_length o.script_pubkey

unfoldable pub read_output : Bytes → Result SerError (TxOut × Bytes)
read_output r = do
  (value, r1) ← read_u64_le r
  (script_pubkey, r2) ← read_wrapped r1
  ok (new_output value script_pubkey, r2)

unfoldable pub write_output : TxOut → Bytes → ℕ × Bytes
write_output o w =
    let (len, w1) = write_u64_le o.value w in
    let (n, w2) = write_wrapped o.script_pubkey w1 in (len + n, w2)

abbrev pub output_format : ByteFormat SerError TxOut
output_format = record {
  from_ser = λ e. e;
  serialized_length = output_length;
  read_from = read_output;
  write_to = write_output;
  read_seq_from = default_read_seq_from (λ e. e) read_output;
}
