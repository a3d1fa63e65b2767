-- ===== src/Bitcoins/Address/Laws.antt =====
-- Addresses and the scripts they are made from (bitcoins/src/enc/encoder.rs).
use bitcoins_rs.Base.{
  ==_refl, All, Bytes, [], ap, arith, bytes_eq_refl, fail_if-eq-ok, false, leb, length, ltb,
  map_err-eq-ok, map_ok-eq-ok, not, ok, ok-injective, sym, try-eq-ok, ℕ, ◌%◌, ◌&&◌, ◌+◌, ◌<◌, ◌==◌,
  ◌||◌, ◌∙◌, ◌∷◌, ◌≡◌,
}
use bitcoins_rs.Bitcoins.Address.{
  Address, AddressCodecs, NetworkParams, bech_error, core_decode_bech32, core_encode_bech32,
  decode_address, decode_base58, decode_bech32, encode_address, encode_as, encode_base58,
  encode_bech32, pkh_address, sh_address, split_version, wpkh_address, wsh_address,
}
use bitcoins_rs.Bitcoins.Script.{
  ScriptType, non_standard, op_return_data, pkh, sh, standard_type, wpkh, wsh,
}

-- A human-readable part without upper-case letters. The encoder writes it in lower case.
abbrev pub HasNoUpper : Bytes → Type 0
HasNoUpper hrp = All (λ c. (leb 65 c && leb c 90) ≡ false) hrp

-- The documented behaviour of the two crates: decoding undoes encoding, for a human-readable part in
-- lower case, and a number below 32 is a `u5`.
pub record IsCodecs (C : AddressCodecs) : Type 0 where
  pub base58_back :
      (v : Bytes) (version : ℕ) → C.from_base58check (C.to_base58check v version) ≡ ok (version, v)
  pub u5_fits : (v : ℕ) → v < 32 → C.try_from_u8 v ≡ ok v
  pub base32_back : (v : Bytes) → C.from_base32 (C.to_base32 v) ≡ ok v
  pub b32_back :
      (hrp data' s : Bytes)
      → HasNoUpper hrp
      → C.b32_encode hrp data' ≡ ok s
      → C.b32_decode s ≡ ok (hrp, data')

-- What the decoder gives for the address of the script `s`.
abbrev pub decoded : ScriptType → Bytes → Bytes
decoded (pkh d) s = d
decoded (sh d) s = d
decoded _ s = s

module _ {C : AddressCodecs} (laws : IsCodecs C) where
  base58_read_back :
      (version : ℕ) (v : Bytes) → decode_base58 C version (encode_base58 C version v) ≡ ok v
  unfolding decode_base58 encode_base58
  base58_read_back version v = rw (laws.base58_back v version, ==_refl version)

  core_bech32_read_back :
      (hrp : Bytes) (v : ℕ) (h s : Bytes)
      → HasNoUpper hrp
      → v < 32
      → core_encode_bech32 C hrp v h ≡ ok s
      → core_decode_bech32 C hrp s ≡ ok (v, h)
  unfolding core_encode_bech32 core_decode_bech32 split_version
  core_bech32_read_back hrp v h s lower fits e =
      let (u, m, e1) = try-eq-ok bech_error (C.try_from_u8 v) _ e in
      let same : u ≡ v = ok-injective (sym m ∙ laws.u5_fits v fits) in
      let encoded : C.b32_encode hrp (v ∷ C.to_base32 h) ≡ ok s =
        ap (λ z. C.b32_encode hrp (z ∷ C.to_base32 h)) (sym same) ∙ map_err-eq-ok bech_error _ e1 in
      rw (
        laws.b32_back hrp (v ∷ C.to_base32 h) s lower encoded,
        bytes_eq_refl hrp,
        laws.base32_back h,
      )

  -- A witness program that could be encoded is read back.
  pub bech32_read_back :
      (hrp prog s : Bytes)
      → HasNoUpper hrp
      → encode_bech32 C hrp prog ≡ ok s
      → decode_bech32 C hrp s ≡ ok prog
  unfolding encode_bech32 decode_bech32
  bech32_read_back hrp [] s lower e = cc
  bech32_read_back hrp (_ ∷ []) s lower e = cc
  bech32_read_back hrp (version ∷ len ∷ payload) s lower e =
      let (short, e1) = fail_if-eq-ok (ltb 40 (length payload + 2)) _ _ e in
      let (program, e2) = fail_if-eq-ok (ltb 16 version || not (len == length payload)) _ _ e1 in
      let back = core_bech32_read_back hrp version payload s lower (ground arith) e2 in
      let one_byte : length payload % 256 ≡ length payload = ground arith in
      let size : len ≡ length payload = ground arith in rw (back, one_byte, size)

  -- On a network whose human-readable part is in lower case, decoding the address of a script gives
  -- back the script for the two witness types. For the other two it gives the digest in the script
  -- alone.
  pub decode_address-encode_address :
      (P : NetworkParams) (s : Bytes) (a : Address)
      → HasNoUpper P.hrp
      → encode_address C P s ≡ ok a
      → decode_address C P a ≡ ok (decoded (standard_type s) s)
  unfolding encode_address decode_address encode_as
  decode_address-encode_address P s a lower e = back (standard_type s) e
    where
      back : (t : ScriptType) → encode_as C P t s ≡ ok a → decode_address C P a ≡ ok (decoded t s)
      back (pkh d) e =
          let which : pkh_address (encode_base58 C P.pkh_version d) ≡ a = ok-injective e in
          rw (← which, base58_read_back P.pkh_version d)
      back (sh d) e =
          let which : sh_address (encode_base58 C P.sh_version d) ≡ a = ok-injective e in
          rw (← which, base58_read_back P.sh_version d)
      back (wpkh d) e =
          let (string, encoded, which) = map_ok-eq-ok wpkh_address _ e in
          rw (← which, bech32_read_back P.hrp s string lower encoded)
      back (wsh d) e =
          let (string, encoded, which) = map_ok-eq-ok wsh_address _ e in
          rw (← which, bech32_read_back P.hrp s string lower encoded)
      back (op_return_data d) e = cc
      back non_standard e = cc
