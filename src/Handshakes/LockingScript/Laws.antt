-- ===== src/Handshakes/LockingScript/Laws.antt =====
-- The format and the types of locking scripts (handshakes/src/types/lockingscript.rs).
use bitcoins_rs.Base.{
  Bytes, [], append_assoc, arith, length, ok, refl, sym, ◌++◌, ◌<◌, ◌↔◌, ◌∙◌, ◌∷◌, ◌≡◌,
}
use bitcoins_rs.Handshakes.LockingScript.{
  LockingScript, locking_length, read_locking_script, write_locking_script,
}
use bitcoins_rs.Ser.CompactInt.{prefix_byte_len}
use bitcoins_rs.Ser.Stream.{read_byte, write}
use bitcoins_rs.Wrapped.{len_prefix, wrapped_length, write_wrapped}
use bitcoins_rs.Wrapped.Laws.{
  IsScript, encode_wrapped, wrapped_format-IsCodec, wrapped_format-IsMeasured, write_wrapped_bytes,
}

abbrev pub encode_locking_script : LockingScript → Bytes
encode_locking_script s = s.version ∷ encode_wrapped s.witness_program

pub write_locking_script_bytes :
    (s : LockingScript) (w : Bytes) → (write_locking_script s w).1 ≡ w ++ encode_locking_script s
unfolding write_locking_script write
write_locking_script_bytes s w =
    write_wrapped_bytes s.witness_program (w ++ (s.version ∷ []))
    ∙ append_assoc w (s.version ∷ []) (encode_wrapped s.witness_program)

pub read_locking_script-encode_locking_script :
    (s : LockingScript) (r : Bytes)
    → IsScript s.witness_program
    → read_locking_script (encode_locking_script s ++ r) ≡ ok (s, r)
unfolding read_locking_script read_byte
read_locking_script-encode_locking_script s r h =
    rw (wrapped_format-IsCodec.read_back s.witness_program r h) refl

-- The length that is announced is the number of bytes that are written exactly if the program has
-- fewer than 253 bytes.
pub locking_length-write_locking_script :
    (s : LockingScript) (w : Bytes)
    → ((write_locking_script s w).0 ≡ locking_length s) ↔ (length s.witness_program < 253)
unfolding write_locking_script locking_length write wrapped_length len_prefix prefix_byte_len
locking_length-write_locking_script s w =
    let v = s.witness_program in
    let count : (write_wrapped v (w ++ (s.version ∷ []))).0 ≡ wrapped_length v =
      wrapped_format-IsMeasured.write_count v (w ++ (s.version ∷ []))
      ∙ sym (wrapped_format-IsMeasured.size v) in
    (λ same. ground (arith, count), λ few. ground (arith, count))
