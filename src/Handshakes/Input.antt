-- ===== src/Handshakes/Input.antt =====
-- handshakes/src/types/txin.rs: outpoints and inputs, which have no script. A TXID is a digest of 32
-- bytes.
pub mod Laws
use bitcoins_rs.Base.{Bytes, Result, map_err, ok, ℕ, ◌+◌, ◌>>=◌, ◌>>◌}
use bitcoins_rs.Hashes.{null_digest, read_digest}
use bitcoins_rs.Ser.Stream.{SerError, component_error, read_u32_le, write, write_u32_le}

pub record HandshakeOutpoint : Type 0 where
  pub txid : Bytes
  pub idx : ℕ

abbrev pub null_handshake_outpoint : HandshakeOutpoint
null_handshake_outpoint = record { txid = null_digest 32; idx = 0xffff_ffff }

unfoldable pub read_handshake_outpoint : Bytes → Result SerError (HandshakeOutpoint × Bytes)
read_handshake_outpoint r = do
  (txid, r1) ← map_err component_error (read_digest 32 r)
  (idx, r2) ← read_u32_le r1
  ok (record { txid = txid; idx = idx }, r2)

unfoldable pub write_handshake_outpoint : HandshakeOutpoint → Bytes → ℕ × Bytes
write_handshake_outpoint o w =
    let (len, w1) = write o.txid w in let (n, w2) = write_u32_le o.idx w1 in (len + n, w2)

abbrev pub handshake_outpoint_length : HandshakeOutpoint → ℕ
handshake_outpoint_length o = 36

pub record HandshakeInput : Type 0 where
  pub outpoint : HandshakeOutpoint
  pub sequence : ℕ

abbrev pub default_handshake_input : HandshakeInput
default_handshake_input = record { outpoint = null_handshake_outpoint; sequence = 0xffff_ffff }

abbrev pub handshake_input_length : HandshakeInput → ℕ
handshake_input_length i = handshake_outpoint_length i.outpoint + 4

unfoldable pub read_handshake_input : Bytes → Result SerError (HandshakeInput × Bytes)
read_handshake_input r = do
  (outpoint, r1) ← read_handshake_outpoint r
  (sequence, r2) ← read_u32_le r1
  ok (record { outpoint = outpoint; sequence = sequence }, r2)

unfoldable pub write_handshake_input : HandshakeInput → Bytes → ℕ × Bytes
write_handshake_input i w =
    let (len, w1) = write_handshake_outpoint i.outpoint w in
    let (n, w2) = write_u32_le i.sequence w1 in (len + n, w2)
