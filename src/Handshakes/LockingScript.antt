-- ===== src/Handshakes/LockingScript.antt =====
-- handshakes/src/types/lockingscript.rs: a version and a witness program, which is its bytes. The
-- digests BLAKE2b-160 and SHA3-256 of the crates are parameters.
pub mod Laws
use bitcoins_rs.Base.{
  Bytes, Option, Result, [], err, if◌then◌else◌, length, ltb, map_err, none, not, ok, panic,
  replicate, some, ℕ, ◌%◌, ◌+◌, ◌==◌, ◌>>=◌, ◌>>◌, ◌||◌, ◌∷◌,
}
use bitcoins_rs.Ser.Stream.{SerError, read_byte, write}
use bitcoins_rs.Wrapped.{read_wrapped, write_wrapped}

pub data LockingScriptError : Type 0 where
  invalid_witness_program_size_error : LockingScriptError

pub record LockingScript : Type 0 where
  pub version : ℕ
  pub witness_program : Bytes

-- `clone_from_slice` into a buffer of `size` bytes, which panics on another number of them.
unfoldable pub clone_from_slice : ℕ → Bytes → Result LockingScriptError Bytes
clone_from_slice size v = if length v == size then ok v else panic

-- `WitnessProgram::split`: the vector that is cloned into has capacity, and no bytes.
unfoldable pub split_program : Bytes → Result LockingScriptError (ℕ × Bytes)
split_program program = do data' ← clone_from_slice 0 program; ok (length program % 256, data')

-- `From<WitnessProgram>` for arrays of 20 and of 32 bytes.
abbrev pub program_20 : Bytes → Result LockingScriptError Bytes
program_20 program = clone_from_slice 20 program

abbrev pub program_32 : Bytes → Result LockingScriptError Bytes
program_32 program = clone_from_slice 32 program

unfoldable pub null_locking_script : LockingScript
null_locking_script = record { version = 0; witness_program = replicate 20 0 }

-- `LockingScript::new`: `split_at` and the indices panic on fewer than two bytes.
unfoldable pub new_locking_script : Bytes → Result LockingScriptError LockingScript
new_locking_script [] = panic
new_locking_script (_ ∷ []) = panic
new_locking_script (version ∷ size ∷ data') =
    if size == length data' % 256
    then ok record { version = version; witness_program = data' }
    else err invalid_witness_program_size_error

-- `From<Vec<u8>>`: `split_off(2)` panics on one byte.
unfoldable pub locking_script_from : Bytes → Result LockingScriptError LockingScript
locking_script_from [] = panic
locking_script_from (_ ∷ []) = panic
locking_script_from (version ∷ _ ∷ program) =
    ok record { version = version; witness_program = program }

unfoldable pub locking_length : LockingScript → ℕ
locking_length s = 2 + length s.witness_program

unfoldable pub read_locking_script : Bytes → Result SerError (LockingScript × Bytes)
read_locking_script r = do
  (version, r1) ← map_err SerError.io_error (read_byte r)
  (program, r2) ← read_wrapped r1
  ok (record { version = version; witness_program = program }, r2)

unfoldable pub write_locking_script : LockingScript → Bytes → ℕ × Bytes
write_locking_script s w =
    let (n1, w1) = write (s.version ∷ []) w in
    let (n2, w2) = write_wrapped s.witness_program w1 in (n1 + n2, w2)

pub data LockingScriptType : Type 0 where
  locking_wpkh locking_wsh locking_op_return : Bytes → LockingScriptType
  locking_non_standard : LockingScriptType

unfoldable pub locking_p2wpkh : (Bytes → Bytes) → Bytes → LockingScript
locking_p2wpkh blake2b160 key = record { version = 0; witness_program = blake2b160 key }

unfoldable pub locking_p2wsh : (Bytes → Bytes) → Bytes → LockingScript
locking_p2wsh sha3_256 script = record { version = 0; witness_program = sha3_256 script }

unfoldable pub locking_op_return_data : LockingScript → Option Bytes
locking_op_return_data s =
    if not (s.version == 31)
    then none
    else if ltb (length s.witness_program) 2 || ltb 40 (length s.witness_program)
    then none
    else some s.witness_program

unfoldable pub locking_type : LockingScript → Result LockingScriptError LockingScriptType
locking_type s =
    if s.version == 31
    then ok (locking_op_return s.witness_program)
    else if s.version == 0
    then (if length s.witness_program == 20
        then ok (locking_wpkh s.witness_program)
        else if length s.witness_program == 32
        then ok (locking_wsh s.witness_program)
        else err invalid_witness_program_size_error)
    else ok locking_non_standard
