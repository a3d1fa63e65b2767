-- ===== src/Ledger/Apdu.antt =====
-- ledger/src/common.rs and errors.rs: APDU commands and answers.
pub mod Laws
use bitcoins_rs.Base.{
  Bool, Bytes, List, Option, Result, [], drop, err, false, if◌then◌else◌, is_empty, length, ltb,
  min, none, not, ok, ok_or, panic, resize, some, take, true, ℕ, ◌%◌, ◌*◌, ◌++◌, ◌+◌, ◌-◌, ◌==◌,
  ◌>>=◌, ◌∷◌,
}

-- `MAX_DATA_SIZE`
abbrev pub max_data_size : ℕ
max_data_size = 255

-- `APDUData` is its bytes.
abbrev pub ApduData : Type 0
ApduData = Bytes

unfoldable pub new_data : Bytes → ApduData
new_data buf = take (min (length buf) max_data_size) buf

unfoldable pub resize_data : ApduData → ℕ → ℕ → ApduData
resize_data data' new_size fill_with = resize (min new_size max_data_size) fill_with data'

-- `From<Vec<u8>>`
unfoldable pub data_from_vec : Bytes → ApduData
data_from_vec v = resize (min (length v) max_data_size) 0 v

pub record ApduCommand : Type 0 where
  pub ins : ℕ
  pub p1 : ℕ
  pub p2 : ℕ
  pub data_bytes : ApduData
  pub response_len : Option ℕ

unfoldable pub command_length : ApduCommand → ℕ
command_length c =
    let with_data = if not (is_empty c.data_bytes) then 4 + 1 + length c.data_bytes else 4 in
    with_data + elim c.response_len [ none ↦ 0 | some n ↦ 1 ]

-- `APDUCommand::write_to`: the count that it returns, and the writer.
unfoldable pub write_command : ApduCommand → Bytes → ℕ × Bytes
write_command c w =
    let w1 = w ++ (0xe0 ∷ c.ins ∷ c.p1 ∷ c.p2 ∷ []) in
    let w2 =
      if not (is_empty c.data_bytes)
      then (w1 ++ ((length c.data_bytes % 256) ∷ [])) ++ c.data_bytes
      else w1 in
    let w3 : Bytes = elim c.response_len [ none ↦ w2 | some n ↦ w2 ++ (n ∷ []) ] in
    (command_length c, w3)

-- `APDUCommand::serialize`
unfoldable pub serialize : ApduCommand → Bytes
serialize c = (write_command c []).1

pub data ApduResponseCodes : Type 0 where
  no_error execution_error wrong_length unlock_device_error empty_buffer : ApduResponseCodes
  output_buffer_too_small data_invalid conditions_not_satisfied : ApduResponseCodes
  command_not_allowed bad_key_handle invalid_p1p2 ins_not_supported : ApduResponseCodes
  cla_not_supported unknown sign_verify_error : ApduResponseCodes

-- The discriminants.
unfoldable pub code_of : ApduResponseCodes → ℕ
code_of no_error = 0x9000
code_of execution_error = 0x6400
code_of wrong_length = 0x6700
code_of unlock_device_error = 0x6804
code_of empty_buffer = 0x6982
code_of output_buffer_too_small = 0x6983
code_of data_invalid = 0x6984
code_of conditions_not_satisfied = 0x6985
code_of command_not_allowed = 0x6986
code_of bad_key_handle = 0x6a80
code_of invalid_p1p2 = 0x6b00
code_of ins_not_supported = 0x6d00
code_of cla_not_supported = 0x6e00
code_of unknown = 0x6f00
code_of sign_verify_error = 0x6f01

-- `APDUResponseCodes::is_success`
unfoldable pub is_success_code : ApduResponseCodes → Bool
is_success_code no_error = true
is_success_code _ = false

-- `NativeTransportError`, but the errors of the device list, which the exchange does not meet.
pub data NativeTransportError (HidError : Type 0) : Type 0 where
  sequence_mismatch : ℕ → ℕ → NativeTransportError HidError
  could_not_send : NativeTransportError HidError
  incomplete_header : NativeTransportError HidError
  hid : HidError → NativeTransportError HidError

pub data LedgerError (HidError : Type 0) : Type 0 where
  response_too_short : Bytes → LedgerError HidError
  bad_retcode : ApduResponseCodes → LedgerError HidError
  unknown_apdu_code : ℕ → LedgerError HidError
  native_transport_error : NativeTransportError HidError → LedgerError HidError

-- The arms of the match, in order.
abbrev pub codes : List (ℕ × ApduResponseCodes)
codes =
    (0x9000, no_error)
    ∷ (0x6400, execution_error)
    ∷ (0x6700, wrong_length)
    ∷ (0x6804, unlock_device_error)
    ∷ (0x6982, empty_buffer)
    ∷ (0x6983, output_buffer_too_small)
    ∷ (0x6984, data_invalid)
    ∷ (0x6985, conditions_not_satisfied)
    ∷ (0x6986, command_not_allowed)
    ∷ (0x6a80, bad_key_handle)
    ∷ (0x6b00, invalid_p1p2)
    ∷ (0x6d00, ins_not_supported)
    ∷ (0x6e00, cla_not_supported)
    ∷ (0x6f00, unknown)
    ∷ (0x6f01, sign_verify_error)
    ∷ []

unfoldable pub arm : ℕ → List (ℕ × ApduResponseCodes) → Option ApduResponseCodes
arm code [] = none
arm code ((c, r) ∷ arms) = let rest = arm code arms in if code == c then some r else rest

module _ {HidError : Type 0} where
  -- `TryFrom<u16>`
  unfoldable pub try_from : ℕ → Result (LedgerError HidError) ApduResponseCodes
  try_from code = ok_or (unknown_apdu_code code) (arm code codes)

  -- `APDUAnswer` is its response bytes.
  unfoldable pub from_answer : Bytes → Result (LedgerError HidError) Bytes
  from_answer response =
      if ltb (length response) 2 then err (response_too_short response) else ok response

module _ {E : Type 0} where
  -- `APDUAnswer::retcode`, which panics on fewer than two bytes.
  unfoldable pub retcode : Bytes → Result E ℕ
  retcode response = elim (drop (length response - 2) response) [
    | high ∷ low ∷ [] ↦ ok (256 * high + low)
    | _ ↦ panic
  ]

  -- `APDUAnswer::response_status`
  unfoldable pub response_status : Bytes → Result E (Option ApduResponseCodes)
  response_status response = retcode response >>= λ code. ok (arm code codes)

  -- `APDUAnswer::is_success`
  unfoldable pub is_success : Bytes → Result E Bool
  is_success response = response_status response >>= λ status.
      ok (elim status [ some opcode ↦ is_success_code opcode | none ↦ false ])

  -- `APDUAnswer::data`
  unfoldable pub answer_data : Bytes → Result E (Option Bytes)
  answer_data response = is_success response >>= λ success.
      ok (if success then some (take (length response - 2) response) else none)
