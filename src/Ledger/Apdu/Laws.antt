-- ===== src/Ledger/Apdu/Laws.antt =====
-- Laws of ledger/src/common.rs.
use bitcoins_rs.Base.{
  Bytes, Option, Result, [], ap, append-nil, append_assoc, arith, if◌then◌else◌, is_empty, length,
  length-append, length-take, min, none, ok, ok-injective, ok_or, refl, some, ℕ, ◌%◌, ◌++◌, ◌+◌,
  ◌<◌, ◌^◌, ◌↔◌, ◌∷◌, ◌≡◌, ◌≤◌,
}
use mathlib.Core.Path.{ap₂}
use bitcoins_rs.Ledger.Apdu.{
  ApduCommand, ApduResponseCodes, LedgerError, arm, bad_key_handle, cla_not_supported, code_of,
  codes, command_length, command_not_allowed, conditions_not_satisfied, data_invalid, empty_buffer,
  execution_error, ins_not_supported, invalid_p1p2, max_data_size, new_data, no_error,
  output_buffer_too_small, serialize, sign_verify_error, try_from, unknown, unknown_apdu_code,
  unlock_device_error, write_command, wrong_length,
}

-- What the constructors of APDUData keep to.
pub new_data_bound : (buf : Bytes) → length (new_data buf) ≤ max_data_size
unfolding new_data
new_data_bound buf = omega (arith, length-take (min (length buf) max_data_size) buf)

-- The bytes of a command: the header, then the data behind its length if there is any, then the
-- length of the response if there is one.
pub command_bytes : ApduCommand → Bytes
command_bytes c =
    (0xe0 ∷ c.ins ∷ c.p1 ∷ c.p2 ∷ [])
    ++ (if is_empty c.data_bytes then [] else length c.data_bytes ∷ c.data_bytes)
    ++ elim c.response_len [ none ↦ [] | some n ↦ n ∷ [] ]

of_parts : ℕ → ℕ → ℕ → Bytes → Option ℕ → ApduCommand
of_parts ins p1 p2 d o = record { ins = ins; p1 = p1; p2 = p2; data_bytes = d; response_len = o }

write_parts :
    (ins p1 p2 : ℕ) (d : Bytes) (o : Option ℕ) (w : Bytes)
    → length d ≤ max_data_size
    → write_command (of_parts ins p1 p2 d o) w ≡ (
      length (command_bytes (of_parts ins p1 p2 d o)),
      w ++ command_bytes (of_parts ins p1 p2 d o),
    )
unfolding write_command command_bytes command_length of_parts
write_parts ins p1 p2 [] none w h = refl
write_parts ins p1 p2 [] (some n) w h = ap (λ l. (5, l)) (simp append_assoc)
write_parts ins p1 p2 (b ∷ d) none w h =
    let fits : length (b ∷ d) % 256 ≡ length (b ∷ d) = omega arith in
    let count : 4 + 1 + length (b ∷ d) + 0
        ≡ length ((0xe0 ∷ ins ∷ p1 ∷ p2 ∷ []) ++ (length (b ∷ d) ∷ b ∷ d) ++ []) =
      omega (arith, length-append (b ∷ d) []) in
    ap₂ (λ n l. (n, l)) count (rw fits (simp (append_assoc, append-nil)))
write_parts ins p1 p2 (b ∷ d) (some n) w h =
    let fits : length (b ∷ d) % 256 ≡ length (b ∷ d) = omega arith in
    let count : 4 + 1 + length (b ∷ d) + 1
        ≡ length ((0xe0 ∷ ins ∷ p1 ∷ p2 ∷ []) ++ (length (b ∷ d) ∷ b ∷ d) ++ (n ∷ [])) =
      omega (arith, length-append (b ∷ d) (n ∷ [])) in
    ap₂ (λ n l. (n, l)) count (rw fits (simp append_assoc))

-- A command whose data is no longer than 255 bytes is written as its bytes, behind what was written
-- before, and the count returned is how many they are.
pub write_command_lem :
    (c : ApduCommand) (w : Bytes)
    → length c.data_bytes ≤ max_data_size
    → write_command c w ≡ (length (command_bytes c), w ++ command_bytes c)
unfolding of_parts
write_command_lem c w h = write_parts c.ins c.p1 c.p2 c.data_bytes c.response_len w h

optional_data : (d : Bytes) → length (if is_empty d then [] else length d ∷ d) ≤ length d + 1
optional_data [] = omega arith
optional_data (b ∷ d) = omega arith

optional_length :
    (o : Option ℕ) → length (elim o as (λ x. Bytes) [ none ↦ [] | some n ↦ n ∷ [] ]) ≤ 1
optional_length none = omega arith
optional_length (some n) = omega arith

pub command_fits :
    (c : ApduCommand) → length c.data_bytes ≤ max_data_size → length (serialize c) < 2 ^ 16
unfolding serialize command_bytes
command_fits c h =
    let written : serialize c ≡ command_bytes c = ap (λ r. r.1) (write_command_lem c [] h) in
    omega (
      arith,
      ap length written,
      length-append (if is_empty c.data_bytes then [] else length c.data_bytes ∷ c.data_bytes)
          (elim c.response_len as (λ x. Bytes) [ none ↦ [] | some n ↦ n ∷ [] ]),
      optional_data c.data_bytes,
      optional_length c.response_len,
    )

pub arm-code_of : (r : ApduResponseCodes) → arm (code_of r) codes ≡ some r
unfolding arm code_of
arm-code_of no_error = refl
arm-code_of execution_error = refl
arm-code_of wrong_length = refl
arm-code_of unlock_device_error = refl
arm-code_of empty_buffer = refl
arm-code_of output_buffer_too_small = refl
arm-code_of data_invalid = refl
arm-code_of conditions_not_satisfied = refl
arm-code_of command_not_allowed = refl
arm-code_of bad_key_handle = refl
arm-code_of invalid_p1p2 = refl
arm-code_of ins_not_supported = refl
arm-code_of cla_not_supported = refl
arm-code_of unknown = refl
arm-code_of sign_verify_error = refl

arm_only : (code : ℕ) (r : ApduResponseCodes) → arm code codes ≡ some r → code ≡ code_of r
unfolding arm code_of
arm_only code r h = ground arith

-- A code is converted exactly to the response whose number it is.
pub try_from_iff :
    {E : Type 0} (code : ℕ) (r : ApduResponseCodes)
    → (try_from {HidError = E} code ≡ ok r) ↔ (code ≡ code_of r)
unfolding try_from
try_from_iff {E = E} code r = (
  λ h. arm_only code r (found (arm code codes) h),
  λ e. rw e (ap (ok_or (unknown_apdu_code (code_of r))) (arm-code_of r)),
)
  where
    found :
        (o : Option ApduResponseCodes)
        → ◌≡◌ {A = Result (LedgerError E) ApduResponseCodes}
            (ok_or (unknown_apdu_code code) o)
            (ok r)
        → o ≡ some r
    found none k = cc
    found (some x) k = ap some (ok-injective k)
