-- ===== src/Bitcoins/Address.antt =====
-- Addresses: core/src/enc/bases.rs, bitcoins/src/enc/bases.rs and bitcoins/src/enc/encoder.rs. A
-- string is its UTF-8 bytes. The codecs come from the crates `bech32` and `base58check`.
pub mod Laws
use bitcoins_rs.Base.{
  Bytes, Result, [], bytes_eq, err, fail_if, if◌then◌else◌, length, ltb, map_err, map_ok, not, ok,
  panic, take, ℕ, ◌%◌, ◌+◌, ◌==◌, ◌>>=◌, ◌>>◌, ◌||◌, ◌∷◌,
}
use bitcoins_rs.Bitcoins.Script.{
  ScriptType, non_standard, op_return_data, pkh, sh, standard_type, wpkh, wsh,
}

-- What is called of the two crates, with their errors.
pub record AddressCodecs : Type 1 where
  pub BechError : Type 0
  pub B58Error : Type 0
  pub invalid_length : BechError
  pub try_from_u8 : ℕ → Result BechError ℕ
  pub to_base32 : Bytes → Bytes
  pub from_base32 : Bytes → Result BechError Bytes
  pub b32_encode : Bytes → Bytes → Result BechError Bytes
  pub b32_decode : Bytes → Result BechError (Bytes × Bytes)
  pub to_base58check : Bytes → ℕ → Bytes
  pub from_base58check : Bytes → Result B58Error (ℕ × Bytes)

pub data EncodingError (BechError B58Error : Type 0) : Type 0 where
  unknown_script_type null_data_script invalid_size_error : EncodingError BechError B58Error
  wrong_hrp : Bytes → Bytes → EncodingError BechError B58Error
  wrong_version : ℕ → ℕ → EncodingError BechError B58Error
  b58_error : B58Error → EncodingError BechError B58Error
  bech_error : BechError → EncodingError BechError B58Error
  segwit_version_error : ℕ → EncodingError BechError B58Error

pub data Address : Type 0 where
  pkh_address sh_address wpkh_address wsh_address : Bytes → Address

unfoldable pub as_string : Address → Bytes
as_string (pkh_address s) = s
as_string (sh_address s) = s
as_string (wpkh_address s) = s
as_string (wsh_address s) = s

pub record NetworkParams : Type 0 where
  pub hrp : Bytes
  pub pkh_version : ℕ
  pub sh_version : ℕ

-- `Main`, `Test` and `Sig`
abbrev pub main_params : NetworkParams
main_params = record { hrp = 0x62 ∷ 0x63 ∷ []; pkh_version = 0x00; sh_version = 0x05 }

abbrev pub test_params : NetworkParams
test_params = record { hrp = 0x74 ∷ 0x62 ∷ []; pkh_version = 0x6f; sh_version = 0xc4 }

abbrev pub sig_params : NetworkParams
sig_params = record { hrp = 0x73 ∷ 0x62 ∷ []; pkh_version = 0x7d; sh_version = 0x57 }

module _ (C : AddressCodecs) where
  abbrev pub EncodingResult : Type 0 → Type 0
  EncodingResult A = Result (EncodingError C.BechError C.B58Error) A

  -- `encode_bech32` and `decode_bech32` of core.
  unfoldable pub core_encode_bech32 : Bytes → ℕ → Bytes → EncodingResult Bytes
  core_encode_bech32 hrp v h = do
    version ← map_err bech_error (C.try_from_u8 v)
    map_err bech_error (C.b32_encode hrp (version ∷ C.to_base32 h))

  -- Splitting no data at 1 panics.
  unfoldable pub split_version : Bytes → Result (EncodingError C.BechError C.B58Error) (ℕ × Bytes)
  split_version [] = panic
  split_version (v ∷ p) = ok (v, p)

  unfoldable pub core_decode_bech32 : Bytes → Bytes → EncodingResult (ℕ × Bytes)
  core_decode_bech32 expected_hrp s = do
    (hrp, data') ← map_err bech_error (C.b32_decode s)
    fail_if (not (bytes_eq hrp expected_hrp)) (wrong_hrp hrp expected_hrp)
    (v, p) ← split_version data'
    payload ← map_err bech_error (C.from_base32 p)
    ok (v, payload)

  unfoldable pub encode_base58 : ℕ → Bytes → Bytes
  encode_base58 version v = C.to_base58check v version

  unfoldable pub decode_base58 : ℕ → Bytes → EncodingResult Bytes
  decode_base58 expected_version s = do
    (version, data') ← map_err b58_error (C.from_base58check s)
    fail_if (not (version == expected_version)) (wrong_version version expected_version)
    ok data'

  -- `encode_bech32` and `decode_bech32` of bitcoins.
  unfoldable pub encode_bech32 : Bytes → Bytes → EncodingResult Bytes
  encode_bech32 hrp [] = err (bech_error C.invalid_length)
  encode_bech32 hrp (_ ∷ []) = err (bech_error C.invalid_length)
  encode_bech32 hrp (version ∷ len ∷ payload) = do
    fail_if (ltb 40 (length payload + 2)) (bech_error C.invalid_length)
    fail_if (ltb 16 version || not (len == length payload)) unknown_script_type
    core_encode_bech32 hrp version payload

  unfoldable pub decode_bech32 : Bytes → Bytes → EncodingResult Bytes
  decode_bech32 expected_hrp s = do
    (version, data') ← core_decode_bech32 expected_hrp s
    ok (version ∷ (length data' % 256) ∷ data')

  module _ (P : NetworkParams) where
    unfoldable pub encode_as : ScriptType → Bytes → EncodingResult Address
    encode_as (pkh payload) s = ok (pkh_address (encode_base58 P.pkh_version payload))
    encode_as (sh payload) s = ok (sh_address (encode_base58 P.sh_version payload))
    encode_as (wsh _) s = map_ok wsh_address (encode_bech32 P.hrp s)
    encode_as (wpkh _) s = map_ok wpkh_address (encode_bech32 P.hrp s)
    encode_as (op_return_data _) s = err null_data_script
    encode_as non_standard s = err unknown_script_type

    unfoldable pub encode_address : Bytes → EncodingResult Address
    encode_address s = encode_as (standard_type s) s

    -- `unwrap` of a result.
    abbrev unwrap_ok : EncodingResult Bytes → EncodingResult Bytes
    unwrap_ok (ok a) = ok a
    unwrap_ok (err _) = panic
    unwrap_ok panic = panic

    -- What is decoded is taken for the script as it is.
    unfoldable pub decode_address : Address → EncodingResult Bytes
    decode_address (pkh_address s) = unwrap_ok (decode_base58 P.pkh_version s)
    decode_address (sh_address s) = unwrap_ok (decode_base58 P.sh_version s)
    decode_address (wpkh_address s) = unwrap_ok (decode_bech32 P.hrp s)
    decode_address (wsh_address s) = unwrap_ok (decode_bech32 P.hrp s)

    -- `string_to_address` of a string that begins with the prefix.
    unfoldable pub witness_address : Bytes → EncodingResult Address
    witness_address s = do
      result ← decode_bech32 P.hrp s
      (if length result == 22
          then ok (wpkh_address s)
          else (if length result == 34 then ok (wsh_address s) else err unknown_script_type))

    -- `is_ok`: a panic of the call is one here.
    unfoldable pub legacy_address : Bytes → EncodingResult Address
    legacy_address s = elim (decode_base58 P.pkh_version s) [
      | ok _ ↦ ok (pkh_address s)
      | err _ ↦ elim (decode_base58 P.sh_version s) [
        | ok _ ↦ ok (sh_address s)
        | err _ ↦ err unknown_script_type
        | panic ↦ panic
      ]
      | panic ↦ panic
    ]

    unfoldable pub string_to_address : Bytes → EncodingResult Address
    string_to_address s =
        if bytes_eq (take (length P.hrp) s) P.hrp then witness_address s else legacy_address s
