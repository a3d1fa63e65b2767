-- ===== src/Tests/Scripts.antt =====
-- Script types, addresses and the builder at sample data.
use bitcoins_rs.Base.{
  Bytes, Result, [], bytes_eq, drop, drop-append, err, false, if◌then◌else◌, is_empty, length, ltb,
  lt→ltb, ok, ok-injective, refl, replicate, take, take-append, ℕ, ◌++◌, ◌∷◌, ◌≡◌, ◌⊎◌,
}
use bitcoins_rs.Bitcoins.Address.{
  AddressCodecs, core_encode_bech32, decode_address, encode_address, encode_as, encode_bech32,
  main_params, wpkh_address,
}
use bitcoins_rs.Bitcoins.Address.Laws.{IsCodecs, decode_address-encode_address, decoded}
use bitcoins_rs.Bitcoins.Builder.{TxBuilder, build}
use bitcoins_rs.Bitcoins.Builder.Laws.{IsBuilt, build-IsBuilt, outcome-build}
use bitcoins_rs.Bitcoins.Legacy.{new_legacy}
use bitcoins_rs.Bitcoins.Legacy.Outcomes.{made, outcome, refused}
use bitcoins_rs.Bitcoins.Script.{
  extract_op_return_data, non_standard, op_return_data, p2pkh, p2sh, p2wpkh, p2wsh, pkh, sh,
  standard_type, template_type, wpkh, wsh,
}
use bitcoins_rs.Bitcoins.Script.Laws.{IsScriptOf, standard_type-built, standard_type_sound}
use bitcoins_rs.Bitcoins.Sighash.{empty_vin, empty_vout}
use bitcoins_rs.Bitcoins.Tx.{BitcoinTx}
use bitcoins_rs.Bitcoins.TxOut.{op_return}
use bitcoins_rs.Bitcoins.Witness.{new_witness}
use bitcoins_rs.Hashes.{hash160}
use bitcoins_rs.Tests.Samples.{first_input, first_output, sample_hashes}

abbrev sample_hash : Bytes
sample_hash = replicate 20 4

abbrev sample_wpkh : Bytes
sample_wpkh = (0x00 ∷ 0x14 ∷ []) ++ sample_hash

standard_type_sound_example :
    (standard_type sample_wpkh ≡ non_standard) ⊎ IsScriptOf (standard_type sample_wpkh) sample_wpkh
standard_type_sound_example = standard_type_sound sample_wpkh

standard_type-built_example :
    (standard_type (p2pkh sample_hashes (3 ∷ [])) ≡ pkh (hash160 sample_hashes (3 ∷ [])))
    × (standard_type (p2wpkh sample_hashes (3 ∷ [])) ≡ wpkh (hash160 sample_hashes (3 ∷ [])))
    × (standard_type (p2sh sample_hashes (3 ∷ [])) ≡ sh (hash160 sample_hashes (3 ∷ [])))
    × (standard_type (p2wsh sample_hashes (3 ∷ [])) ≡ wsh (sample_hashes.sha256 (3 ∷ [])))
    × (standard_type (op_return (3 ∷ [])).script_pubkey ≡ op_return_data (take 75 (3 ∷ [])))
standard_type-built_example = standard_type-built sample_hashes (3 ∷ [])

-- Codecs that put a version or a length in front.
abbrev split_front : Bytes → Result (Unit {0}) (Bytes × Bytes)
split_front [] = err tt
split_front (n ∷ s) = ok (take n s, drop n s)

abbrev split_byte : Bytes → Result (Unit {0}) (ℕ × Bytes)
split_byte [] = err tt
split_byte (version ∷ v) = ok (version, v)

abbrev sample_codecs : AddressCodecs
sample_codecs = record {
  BechError = Unit {0};
  B58Error = Unit {0};
  invalid_length = tt;
  try_from_u8 = λ v. if ltb v 32 then ok v else err tt;
  to_base32 = λ v. v;
  from_base32 = λ v. ok v;
  b32_encode = λ hrp data'. ok (length hrp ∷ (hrp ++ data'));
  b32_decode = split_front;
  to_base58check = λ v version. version ∷ v;
  from_base58check = split_byte;
}

sample_codecs-IsCodecs : IsCodecs sample_codecs
sample_codecs-IsCodecs = record {
  base58_back = λ v version. refl;
  u5_fits = λ v h. rw (lt→ltb v 32 h);
  base32_back = λ v. refl;
  b32_back = λ hrp data' s lower e. rw (
    ← ok-injective e,
    take-append (length hrp) hrp data' refl,
    drop-append (length hrp) hrp data' refl,
  );
}

abbrev sample_string : Bytes
sample_string = 2 ∷ 0x62 ∷ 0x63 ∷ 0 ∷ sample_hash

sample_encoded :
    encode_address sample_codecs main_params sample_wpkh ≡ ok (wpkh_address sample_string)
unfolding encode_address encode_as encode_bech32 core_encode_bech32 standard_type template_type
    extract_op_return_data bytes_eq
sample_encoded = refl

decode_address-encode_address_example :
    decode_address sample_codecs main_params (wpkh_address sample_string)
    ≡ ok (decoded (standard_type sample_wpkh) sample_wpkh)
decode_address-encode_address_example =
    decode_address-encode_address sample_codecs-IsCodecs main_params sample_wpkh
      (wpkh_address sample_string) (refl, (refl, tt)) sample_encoded

abbrev sample_builder : TxBuilder
sample_builder = record {
  version = 1;
  vin = first_input ∷ [];
  vout = first_output ∷ [];
  locktime = 3;
  witnesses = ((8 ∷ []) ∷ []) ∷ [];
  produce_witness = false;
}

sample_build : (tx : BitcoinTx) × (build sample_builder ≡ ok tx)
unfolding build new_witness new_legacy
sample_build = (_, refl)

build-IsBuilt_example : IsBuilt sample_builder sample_build.0
build-IsBuilt_example = build-IsBuilt sample_builder sample_build.0 sample_build.1

outcome-build_example : outcome (build sample_builder) ≡ (
    if is_empty sample_builder.vin
    then refused empty_vin
    else (if is_empty sample_builder.vout then refused empty_vout else made))
outcome-build_example = outcome-build sample_builder
