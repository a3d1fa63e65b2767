-- ===== src/Handshakes/Input/Laws.antt =====
-- The format of inputs (handshakes/src/types/txin.rs).
use bitcoins_rs.Base.{
  Bytes, IsU32, [], ap, append_assoc, le_bytes, length, ok, refl, ◌++◌, ◌+◌, ◌∙◌, ◌≡◌,
}
use bitcoins_rs.Handshakes.Input.{
  HandshakeInput, handshake_input_length, read_handshake_input, read_handshake_outpoint,
  write_handshake_input, write_handshake_outpoint,
}
use bitcoins_rs.Hashes.{read_digest}
use bitcoins_rs.Ser.Stream.{write}
use bitcoins_rs.Ser.Stream.Laws.{read_exact-append, read_u32_le-append, write_u32_le_lem}

abbrev encode_handshake_input : HandshakeInput → Bytes
encode_handshake_input i = i.outpoint.txid ++ (le_bytes 4 i.outpoint.idx ++ le_bytes 4 i.sequence)

abbrev pub IsHandshakeInput : HandshakeInput → Type 0
IsHandshakeInput i = (length i.outpoint.txid ≡ 32) × IsU32 i.outpoint.idx × IsU32 i.sequence

write_handshake_input_lem :
    (i : HandshakeInput) (w : Bytes)
    → write_handshake_input i w ≡ (length i.outpoint.txid + 4 + 4, w ++ encode_handshake_input i)
unfolding write_handshake_input write_handshake_outpoint write
write_handshake_input_lem i w =
    let w1 = w ++ i.outpoint.txid in
    let idx_bytes = le_bytes 4 i.outpoint.idx in
    rw
      (
        write_u32_le_lem i.outpoint.idx w1,
        write_u32_le_lem i.sequence (w1 ++ idx_bytes),
        append_assoc w1 idx_bytes (le_bytes 4 i.sequence),
        append_assoc w i.outpoint.txid (idx_bytes ++ le_bytes 4 i.sequence),
      )
      refl

-- An input whose TXID has 32 bytes is read back from what it writes, what follows it is left, and
-- the length that is announced is the number of bytes that are written.
pub read_handshake_input-write_handshake_input :
    (i : HandshakeInput) (r : Bytes)
    → IsHandshakeInput i
    → (read_handshake_input ((write_handshake_input i []).1 ++ r) ≡ ok (i, r))
      × ((write_handshake_input i []).0 ≡ handshake_input_length i)
unfolding read_handshake_input read_handshake_outpoint read_digest
read_handshake_input-write_handshake_input i r (size, idx_fits, sequence_fits) =
    let idx_bytes = le_bytes 4 i.outpoint.idx in
    let sequence_bytes = le_bytes 4 i.sequence in
    let written = write_handshake_input_lem i [] in
    (
      rw
          (
            ap (λ p. p.1) written,
            append_assoc i.outpoint.txid (idx_bytes ++ sequence_bytes) r,
            append_assoc idx_bytes sequence_bytes r,
            read_exact-append 32 i.outpoint.txid (idx_bytes ++ (sequence_bytes ++ r)) size,
            read_u32_le-append i.outpoint.idx (sequence_bytes ++ r) idx_fits,
            read_u32_le-append i.sequence r sequence_fits,
          )
          refl,
      ap (λ p. p.0) written ∙ ap (λ n. n + 4 + 4) size,
    )
