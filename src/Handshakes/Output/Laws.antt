-- ===== src/Handshakes/Output/Laws.antt =====
-- The format of outputs (handshakes/src/types/txout.rs).
use bitcoins_rs.Base.{Bytes, IsU64, [], ap, append_assoc, le_bytes, ok, refl, ◌++◌, ◌∙◌, ◌≡◌}
use bitcoins_rs.Handshakes.Covenant.Laws.{
  IsCovenant, encode_covenant, read_covenant-encode_covenant, write_covenant_bytes,
}
use bitcoins_rs.Handshakes.LockingScript.{write_locking_script}
use bitcoins_rs.Handshakes.LockingScript.Laws.{
  encode_locking_script, read_locking_script-encode_locking_script, write_locking_script_bytes,
}
use bitcoins_rs.Handshakes.Output.{HandshakeOutput, read_handshake_output, write_handshake_output}
use bitcoins_rs.Ser.Stream.{write_u64_le}
use bitcoins_rs.Ser.Stream.Laws.{read_u64_le-append, write_u64_le_lem}
use bitcoins_rs.Wrapped.Laws.{IsScript}

abbrev encode_handshake_output : HandshakeOutput → Bytes
encode_handshake_output o =
    le_bytes 8 o.value ++ (encode_locking_script o.locking_script ++ encode_covenant o.covenant)

-- A value that a `u64` holds, and byte vectors.
abbrev pub IsHandshakeOutput : HandshakeOutput → Type 0
IsHandshakeOutput o =
    IsU64 o.value × IsScript o.locking_script.witness_program × IsCovenant o.covenant

write_handshake_output_bytes :
    (o : HandshakeOutput) → (write_handshake_output o []).1 ≡ encode_handshake_output o
unfolding write_handshake_output
write_handshake_output_bytes o =
    let w1 = (write_u64_le o.value []).1 in
    let w2 = (write_locking_script o.locking_script w1).1 in
    write_covenant_bytes o.covenant w2
    ∙ ap (λ w. w ++ encode_covenant o.covenant)
        (write_locking_script_bytes o.locking_script w1
          ∙ ap (λ w. w ++ encode_locking_script o.locking_script)
              (ap (λ p. p.1) (write_u64_le_lem o.value [])))
    ∙ append_assoc (le_bytes 8 o.value) (encode_locking_script o.locking_script)
        (encode_covenant o.covenant)

-- An output of valid parts is read back from what it writes, and what follows it is left.
pub read_handshake_output-write_handshake_output :
    (o : HandshakeOutput) (r : Bytes)
    → IsHandshakeOutput o
    → read_handshake_output ((write_handshake_output o []).1 ++ r) ≡ ok (o, r)
unfolding read_handshake_output
read_handshake_output-write_handshake_output o r (fits, script, covenant_ok) =
    let script_bytes = encode_locking_script o.locking_script in
    let covenant_bytes = encode_covenant o.covenant in
    rw
      (
        write_handshake_output_bytes o,
        append_assoc (le_bytes 8 o.value) (script_bytes ++ covenant_bytes) r,
        append_assoc script_bytes covenant_bytes r,
        read_u64_le-append o.value (script_bytes ++ (covenant_bytes ++ r)) fits,
        read_locking_script-encode_locking_script o.locking_script (covenant_bytes ++ r) script,
        read_covenant-encode_covenant o.covenant r covenant_ok,
      )
      refl
