-- ===== src/Bitcoins/TxIn.antt =====
-- bitcoins/src/types/txin.rs: outpoints and inputs, with a `TXID` of 32 bytes for the digest `M`.
pub mod Laws
use bitcoins_rs.Base.{Bytes, Result, [], map_err, ok, ℕ, ◌+◌, ◌>>=◌, ◌>>◌}
use bitcoins_rs.Hashes.{digest_format, null_digest, reversed}
use bitcoins_rs.Ser.Format.{ByteFormat, default_read_seq_from}
use bitcoins_rs.Ser.Stream.{SerError, component_error, read_u32_le, write_u32_le}
use bitcoins_rs.Wrapped.{read_wrapped, wrapped_format, write_wrapped}

pub record Outpoint : Type 0 where
  pub txid : Bytes
  pub idx : ℕ

abbrev pub new_outpoint : Bytes → ℕ → Outpoint
new_outpoint txid idx = record { txid = txid; idx = idx }

unfoldable pub null_outpoint : Outpoint
null_outpoint = new_outpoint (null_digest 32) 0xffff_ffff

unfoldable pub from_explorer_format : Bytes → ℕ → Outpoint
from_explorer_format txid_be idx = new_outpoint (reversed txid_be) idx

-- The bytes that `txid_be_hex` prints.
unfoldable pub txid_be : Outpoint → Bytes
txid_be o = reversed o.txid

abbrev pub txid_format : ByteFormat SerError Bytes
txid_format = digest_format 32

unfoldable pub read_outpoint : Bytes → Result SerError (Outpoint × Bytes)
read_outpoint r = do
  (txid, r1) ← map_err component_error (txid_format.read_from r)
  (idx, r2) ← read_u32_le r1
  ok (new_outpoint txid idx, r2)

unfoldable pub write_outpoint : Outpoint → Bytes → ℕ × Bytes
write_outpoint o w =
    let (len, w1) = txid_format.write_to o.txid w in
    let (n, w2) = write_u32_le o.idx w1 in (len + n, w2)

abbrev pub outpoint_format : ByteFormat SerError Outpoint
outpoint_format = record {
  from_ser = λ e. e;
  serialized_length = λ _. 36;
  read_from = read_outpoint;
  write_to = write_outpoint;
  read_seq_from = default_read_seq_from (λ e. e) read_outpoint;
}

pub record TxInput : Type 0 where
  pub outpoint : Outpoint
  pub script_sig : Bytes
  pub sequence : ℕ

abbrev pub new_input : Outpoint → Bytes → ℕ → TxInput
new_input outpoint script_sig sequence = record {
  outpoint = outpoint;
  script_sig = script_sig;
  sequence = sequence;
}

-- `TxInput::unsigned`: the input without its script sig.
unfoldable pub unsigned : TxInput → TxInput
unsigned i = new_input i.outpoint [] i.sequence

unfoldable pub input_length : TxInput → ℕ
input_length i =
    let len = outpoint_format.serialized_length i.outpoint in
    let len' = len + wrapped_format.serialized_length i.script_sig in len' + 4

unfoldable pub read_input : Bytes → Result SerError (TxInput × Bytes)
read_input r = do
  (outpoint, r1) ← read_outpoint r
  (script_sig, r2) ← read_wrapped r1
  (sequence, r3) ← read_u32_le r2
  ok (new_input outpoint script_sig sequence, r3)

unfoldable pub write_input : TxInput → Bytes → ℕ × Bytes
write_input i w =
    let (len, w1) = write_outpoint i.outpoint w in
    let (n1, w2) = write_wrapped i.script_sig w1 in
    let (n2, w3) = write_u32_le i.sequence w2 in (len + n1 + n2, w3)

abbrev pub input_format : ByteFormat SerError TxInput
input_format = record {
  from_ser = λ e. e;
  serialized_length = input_length;
  read_from = read_input;
  write_to = write_input;
  read_seq_from = default_read_seq_from (λ e. e) read_input;
}
