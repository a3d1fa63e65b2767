-- ===== src/Handshakes/Output.antt =====
-- handshakes/src/types/txout.rs: outputs that carry a covenant.
pub mod Laws
use bitcoins_rs.Base.{Bytes, Result, err, ok, panic, take, ℕ, ◌+◌, ◌>>=◌, ◌>>◌}
use bitcoins_rs.Handshakes.Covenant.{
  Covenant, covenant_length, null_covenant, read_covenant, write_covenant,
}
use bitcoins_rs.Handshakes.LockingScript.{
  LockingScript, LockingScriptType, locking_length, locking_non_standard, locking_type,
  null_locking_script, read_locking_script, write_locking_script,
}
use bitcoins_rs.Ser.Stream.{SerError, read_u64_le, write_u64_le}

pub record HandshakeOutput : Type 0 where
  pub value : ℕ
  pub locking_script : LockingScript
  pub covenant : Covenant

unfoldable pub null_handshake_output : HandshakeOutput
null_handshake_output = record {
  value = 0;
  locking_script = null_locking_script;
  covenant = null_covenant;
}

-- `TxOut::op_return`, with the data cut to 40 bytes.
unfoldable pub handshake_op_return : Bytes → HandshakeOutput
handshake_op_return payload = record {
  value = 0;
  locking_script = record { version = 31; witness_program = take 40 payload };
  covenant = null_covenant;
}

-- `unwrap_or` of an error.
unfoldable pub handshake_output_type : HandshakeOutput → LockingScriptType
handshake_output_type o = elim (locking_type o.locking_script) [
  | ok type' ↦ type'
  | err e ↦ locking_non_standard
  | panic ↦ locking_non_standard
]

unfoldable pub handshake_output_length : HandshakeOutput → ℕ
handshake_output_length o = 8 + locking_length o.locking_script + covenant_length o.covenant

unfoldable pub read_handshake_output : Bytes → Result SerError (HandshakeOutput × Bytes)
read_handshake_output r = do
  (value, r1) ← read_u64_le r
  (locking_script, r2) ← read_locking_script r1
  (covenant, r3) ← read_covenant r2
  ok (record { value = value; locking_script = locking_script; covenant = covenant }, r3)

unfoldable pub write_handshake_output : HandshakeOutput → Bytes → ℕ × Bytes
write_handshake_output o w =
    let (n1, w1) = write_u64_le o.value w in
    let (n2, w2) = write_locking_script o.locking_script w1 in
    let (n3, w3) = write_covenant o.covenant w2 in (n1 + n2 + n3, w3)
