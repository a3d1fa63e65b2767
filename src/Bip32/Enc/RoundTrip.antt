-- ===== src/Bip32/Enc/RoundTrip.antt =====
-- Reading back extended keys (bip32/src/enc.rs).
use bitcoins_rs.Base.{
  ==_refl, Bytes, [], ap, append-nil, append_assoc, arith, bytes_eq_refl, drop-append,
  from_le_bytes, from_le_bytes-le_bytes, le_bytes, length, length-append, length-le_bytes,
  length-reverse, length-take, le→ltb, map_err, ne→==, ok, refl, some, take, take-append, ℕ, ◌++◌,
  ◌+◌, ◌-◌, ◌<◌, ◌^◌, ◌∙◌, ◌∷◌, ◌≡◌, ◌≢◌,
}
use mathlib.Core.List.{reverse, reverse-reverse}
use bitcoins_rs.Bip32.Enc.{
  Base58, XkeyParams, decode_b58_check, encode_b58_check, hint_for, read_array, read_chain_code,
  read_depth, read_index, read_info, read_parent, read_xpriv, read_xpriv_body, read_xpub,
  read_xpub_body, version_for, write_key_details, write_xpriv, write_xpub, xpriv_from_base58,
  xpriv_to_base58, xpub_from_base58, xpub_to_base58,
}
use bitcoins_rs.Bip32.Keys.{
  Curve, Hint, XkeyInfo, Xpriv, Xpub, be_bytes, compatibility, legacy_hint, segwit,
}
use bitcoins_rs.Bip32.Keys.Laws.{IsCurve}
use bitcoins_rs.Bip32.Path.Text.{io_failed}
use bitcoins_rs.Hashes.{HashFunctions, hash256}
use bitcoins_rs.Ser.Stream.{write}
use bitcoins_rs.Ser.Stream.Laws.{read_exact-append}

-- What is documented of the codec: a string that was encoded decodes to its bytes.
unfoldable pub IsBase58 : Base58 → Type 0
IsBase58 B = (v : Bytes) → B.decode (B.encode v) ≡ some v

-- The fields of the information on a key have their sizes.
pub record IsInfo (info : XkeyInfo) : Type 0 where
  pub depth_fits : info.depth < 256
  pub parent_size : length info.parent ≡ 4
  pub index_fits : info.index < 2 ^ 32
  pub chain_code_size : length info.chain_code ≡ 32

-- The three versions of private keys differ, and so do those of public keys.
pub record AreVersions (bip32 bip49 bip84 : ℕ) : Type 0 where
  pub bip32_fits : bip32 < 2 ^ 32
  pub bip49_fits : bip49 < 2 ^ 32
  pub bip84_fits : bip84 < 2 ^ 32
  pub bip49_differs : bip49 ≢ bip32
  pub bip84_differs : bip84 ≢ bip32
  pub last_differ : bip84 ≢ bip49

length-be_bytes : (n : ℕ) → length (be_bytes n) ≡ 4
length-be_bytes n = length-reverse (le_bytes 4 n) ∙ length-le_bytes 4 n

from_be_bytes-be_bytes : (n : ℕ) → n < 2 ^ 32 → from_le_bytes (reverse (be_bytes n)) ≡ n
from_be_bytes-be_bytes n h =
    ap from_le_bytes (reverse-reverse (le_bytes 4 n)) ∙ from_le_bytes-le_bytes 4 n h

read_array-append :
    (size : ℕ) (buf rest : Bytes)
    → length buf ≡ size
    → read_array size (buf ++ rest) ≡ ok (buf, rest)
read_array-append size buf rest h = ap (map_err io_failed) (read_exact-append size buf rest h)

-- The bytes of the information on a key.
info_bytes : XkeyInfo → Bytes
info_bytes info = info.depth ∷ (info.parent ++ (be_bytes info.index ++ info.chain_code))

write_key_details_lem :
    (info : XkeyInfo) (w : Bytes) → (write_key_details info w).1 ≡ w ++ info_bytes info
unfolding write_key_details write info_bytes
write_key_details_lem info w = simp append_assoc

one_byte : (b : ℕ) → from_le_bytes (b ∷ []) ≡ b
unfolding from_le_bytes
one_byte b = omega arith

read_depth_back : (depth : ℕ) (rest : Bytes) → read_depth ((depth ∷ []) ++ rest) ≡ ok (depth, rest)
unfolding read_depth
read_depth_back depth rest = rw (read_array-append 1 (depth ∷ []) rest refl, one_byte depth) refl

read_index_back :
    (index : ℕ) (rest : Bytes)
    → index < 2 ^ 32
    → read_index (be_bytes index ++ rest) ≡ ok (index, rest)
unfolding read_index
read_index_back index rest h =
    rw
      (
        read_array-append 4 (be_bytes index) rest (length-be_bytes index),
        from_be_bytes-be_bytes index h,
      )
      refl

read_info_back :
    (info : XkeyInfo) (rest : Bytes)
    → IsInfo info
    → read_info (info_bytes info ++ rest) info.hint ≡ ok (info, rest)
unfolding read_info read_parent read_chain_code info_bytes
read_info_back info rest h =
    let behind_index = info.chain_code ++ rest in
    let behind_parent = be_bytes info.index ++ behind_index in
    let split : info_bytes info ++ rest ≡ (info.depth ∷ []) ++ (info.parent ++ behind_parent) =
      simp append_assoc in
    rw
      (
        split,
        read_depth_back info.depth (info.parent ++ behind_parent),
        read_array-append 4 info.parent behind_parent h.parent_size,
        read_index_back info.index behind_index h.index_fits,
        read_array-append 32 info.chain_code rest h.chain_code_size,
      )
      refl

hint_for-version_for :
    (bip32 bip49 bip84 : ℕ) (hint : Hint)
    → AreVersions bip32 bip49 bip84
    → hint_for bip32 bip49 bip84 (be_bytes (version_for bip32 bip49 bip84 hint)) ≡ ok hint
unfolding hint_for version_for
hint_for-version_for bip32 bip49 bip84 legacy_hint v =
    rw (from_be_bytes-be_bytes bip32 v.bip32_fits, ==_refl bip32) refl
hint_for-version_for bip32 bip49 bip84 compatibility v =
    rw (from_be_bytes-be_bytes bip49 v.bip49_fits, ne→== bip49 bip32 v.bip49_differs, ==_refl bip49)
      refl
hint_for-version_for bip32 bip49 bip84 segwit v =
    rw
      (
        from_be_bytes-be_bytes bip84 v.bip84_fits,
        ne→== bip84 bip32 v.bip84_differs,
        ne→== bip84 bip49 v.last_differ,
        ==_refl bip84,
      )
      refl

-- A string made of some bytes decodes to them: the checksum that is appended is the one expected.
pub decode_b58_check-encode_b58_check :
    (H : HashFunctions) (B : Base58) (v : Bytes)
    → IsBase58 B
    → decode_b58_check H B (encode_b58_check H B v) ≡ ok v
unfolding decode_b58_check encode_b58_check IsBase58 hash256
decode_b58_check-encode_b58_check H B v back =
    let checksum = take 4 (hash256 H v) in
    let size : length checksum ≡ 4 =
      omega (arith, length-take 4 (hash256 H v), H.sha256_size (H.sha256 v)) in
    let whole : length (v ++ checksum) ≡ length v + 4 = omega (arith, length-append v checksum) in
    let idx : length (v ++ checksum) - 4 ≡ length v = omega arith in
    rw
      (
        back (v ++ checksum),
        le→ltb (length (v ++ checksum)) 4 (omega arith),
        idx,
        take-append (length v) v checksum refl,
        drop-append (length v) v checksum refl,
        bytes_eq_refl checksum,
      )
      refl

module _ (P : XkeyParams) (H : HashFunctions) (B : Base58) (C : Curve)
    (hmac_sha512 : Bytes → Bytes → Bytes) where
  read_xpriv_back :
      (k : Xpriv H C hmac_sha512)
      → IsCurve C
      → AreVersions P.priv_version P.bip49_priv_version P.bip84_priv_version
      → IsInfo k.xkey_info
      → read_xpriv P H B C hmac_sha512 (write_xpriv P H B C hmac_sha512 k []).1 ≡ ok (k, [])
  unfolding read_xpriv write_xpriv read_xpriv_body write
  read_xpriv_back k curve versions info =
      let version =
        version_for P.priv_version P.bip49_priv_version P.bip84_priv_version k.xkey_info.hint in
      let key_part = C.key_bytes k.key ++ [] in
      let body = info_bytes k.xkey_info ++ ((0 ∷ []) ++ key_part) in
      let split : (write_xpriv P H B C hmac_sha512 k []).1 ≡ be_bytes version ++ body =
        rw (write_key_details_lem k.xkey_info (be_bytes version))
          (simp (append_assoc, append-nil)) in
      rw
        (
          split,
          read_array-append 4 (be_bytes version) body (length-be_bytes version),
          hint_for-version_for P.priv_version P.bip49_priv_version P.bip84_priv_version
              k.xkey_info.hint versions,
          read_info_back k.xkey_info ((0 ∷ []) ++ key_part) info,
          read_array-append 1 (0 ∷ []) key_part refl,
          one_byte 0,
          read_array-append 32 (C.key_bytes k.key) [] (curve.key_size k.key),
          curve.key_back k.key,
        )
        refl

  read_xpub_back :
      (k : Xpub H C hmac_sha512)
      → IsCurve C
      → AreVersions P.pub_version P.bip49_pub_version P.bip84_pub_version
      → IsInfo k.xkey_info
      → read_xpub P H B C hmac_sha512 (write_xpub P H B C hmac_sha512 k []).1 ≡ ok (k, [])
  unfolding read_xpub write_xpub read_xpub_body write
  read_xpub_back k curve versions info =
      let version =
        version_for P.pub_version P.bip49_pub_version P.bip84_pub_version k.xkey_info.hint in
      let key_part = C.sec1_bytes k.key ++ [] in
      let split : (write_xpub P H B C hmac_sha512 k []).1
          ≡ be_bytes version ++ (info_bytes k.xkey_info ++ key_part) =
        rw (write_key_details_lem k.xkey_info (be_bytes version))
          (simp (append_assoc, append-nil)) in
      rw
        (
          split,
          read_array-append 4 (be_bytes version) (info_bytes k.xkey_info ++ key_part)
              (length-be_bytes version),
          hint_for-version_for P.pub_version P.bip49_pub_version P.bip84_pub_version
              k.xkey_info.hint versions,
          read_info_back k.xkey_info key_part info,
          read_array-append 33 (C.sec1_bytes k.key) [] (curve.sec1_size k.key),
          curve.sec1_back k.key,
        )
        refl

  -- An extended private key, with its hint, is read back from its base58check string.
  pub xpriv_from_base58-xpriv_to_base58 :
      (k : Xpriv H C hmac_sha512)
      → IsBase58 B
      → IsCurve C
      → AreVersions P.priv_version P.bip49_priv_version P.bip84_priv_version
      → IsInfo k.xkey_info
      → xpriv_from_base58 P H B C hmac_sha512 (xpriv_to_base58 P H B C hmac_sha512 k) ≡ ok k
  unfolding xpriv_from_base58 xpriv_to_base58
  xpriv_from_base58-xpriv_to_base58 k back curve versions info =
      rw
        (
          decode_b58_check-encode_b58_check H B (write_xpriv P H B C hmac_sha512 k []).1 back,
          read_xpriv_back k curve versions info,
        )
        refl

  -- An extended public key, with its hint, is read back from its base58check string.
  pub xpub_from_base58-xpub_to_base58 :
      (k : Xpub H C hmac_sha512)
      → IsBase58 B
      → IsCurve C
      → AreVersions P.pub_version P.bip49_pub_version P.bip84_pub_version
      → IsInfo k.xkey_info
      → xpub_from_base58 P H B C hmac_sha512 (xpub_to_base58 P H B C hmac_sha512 k) ≡ ok k
  unfolding xpub_from_base58 xpub_to_base58
  xpub_from_base58-xpub_to_base58 k back curve versions info =
      rw
        (
          decode_b58_check-encode_b58_check H B (write_xpub P H B C hmac_sha512 k []).1 back,
          read_xpub_back k curve versions info,
        )
        refl
