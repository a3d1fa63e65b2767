-- ===== src/Bip32/Enc.antt =====
-- bip32/src/enc.rs: extended keys as bytes and as base58check strings. The codec of base58 is that
-- of the crate `bs58`; a string is its bytes.
pub mod RoundTrip
use bitcoins_rs.Base.{
  Bytes, Option, Result, [], bytes_eq, drop, err, fail_if, from_le_bytes, if◌then◌else◌, length,
  ltb, map_err, not, ok, ok_or, panic, take, ℕ, ◌++◌, ◌+◌, ◌-◌, ◌==◌, ◌>>=◌, ◌>>◌, ◌∷◌,
}
use mathlib.Core.List.{reverse}
use bitcoins_rs.Bip32.Keys.{
  Curve, Hint, XkeyInfo, Xpriv, Xpub, be_bytes, compatibility, legacy_hint, segwit,
}
use bitcoins_rs.Bip32.Path.Text.{
  Bip32Error, backend_error, bad_b58_checksum, bad_padding, bad_xpriv_version_bytes, bs58_error,
  io_failed,
}
use bitcoins_rs.Hashes.{HashFunctions, hash256}
use bitcoins_rs.Ser.Stream.{read_exact, write}

-- `NetworkParams`
pub record XkeyParams : Type 0 where
  pub priv_version : ℕ
  pub bip49_priv_version : ℕ
  pub bip84_priv_version : ℕ
  pub pub_version : ℕ
  pub bip49_pub_version : ℕ
  pub bip84_pub_version : ℕ

unfoldable pub main_xkeys : XkeyParams
main_xkeys = record {
  priv_version = 0x0488_ade4;
  bip49_priv_version = 0x049d_7878;
  bip84_priv_version = 0x04b2_430c;
  pub_version = 0x0488_b21e;
  bip49_pub_version = 0x049d_7cb2;
  bip84_pub_version = 0x04b2_4746;
}

unfoldable pub test_xkeys : XkeyParams
test_xkeys = record {
  priv_version = 0x0435_8394;
  bip49_priv_version = 0x044a_4e28;
  bip84_priv_version = 0x045f_18bc;
  pub_version = 0x0435_87cf;
  bip49_pub_version = 0x044a_5262;
  bip84_pub_version = 0x045f_1cf6;
}

-- `bs58::encode` and `bs58::decode`.
pub record Base58 : Type 0 where
  pub encode : Bytes → Bytes
  pub decode : Bytes → Option Bytes

-- `read_exact` with the conversion of its error.
abbrev pub read_array : ℕ → Bytes → Result Bip32Error (Bytes × Bytes)
read_array size reader = map_err io_failed (read_exact size reader)

unfoldable pub read_depth : Bytes → Result Bip32Error (ℕ × Bytes)
read_depth reader = do (buf, r) ← read_array 1 reader; ok (from_le_bytes buf, r)

unfoldable pub read_parent : Bytes → Result Bip32Error (Bytes × Bytes)
read_parent reader = read_array 4 reader

unfoldable pub read_index : Bytes → Result Bip32Error (ℕ × Bytes)
read_index reader = do (buf, r) ← read_array 4 reader; ok (from_le_bytes (reverse buf), r)

unfoldable pub read_chain_code : Bytes → Result Bip32Error (Bytes × Bytes)
read_chain_code reader = read_array 32 reader

-- The four reads that the bodies begin with.
unfoldable pub read_info : Bytes → Hint → Result Bip32Error (XkeyInfo × Bytes)
read_info reader hint = do
  (depth, r1) ← read_depth reader
  (parent, r2) ← read_parent r1
  (index, r3) ← read_index r2
  (chain_code, r4) ← read_chain_code r3
  ok (
    record { depth = depth; parent = parent; index = index; chain_code = chain_code; hint = hint },
    r4,
  )

-- `write_key_details`
unfoldable pub write_key_details : XkeyInfo → Bytes → ℕ × Bytes
write_key_details info writer =
    let (n1, w1) = write (info.depth ∷ []) writer in
    let (n2, w2) = write info.parent w1 in
    let (n3, w3) = write (be_bytes info.index) w2 in
    let (n4, w4) = write info.chain_code w3 in (n1 + n2 + n3 + n4, w4)

-- The version that is written for a hint, and the hint that is read from a version.
unfoldable pub version_for : ℕ → ℕ → ℕ → Hint → ℕ
version_for bip32 bip49 bip84 legacy_hint = bip32
version_for bip32 bip49 bip84 compatibility = bip49
version_for bip32 bip49 bip84 segwit = bip84

unfoldable pub hint_for : ℕ → ℕ → ℕ → Bytes → Result Bip32Error Hint
hint_for bip32 bip49 bip84 buf =
    let version_bytes = from_le_bytes (reverse buf) in
    if version_bytes == bip32
    then ok legacy_hint
    else (if version_bytes == bip49
        then ok compatibility
        else (if version_bytes == bip84 then ok segwit else err (bad_xpriv_version_bytes buf)))

module _ (H : HashFunctions) (B : Base58) where
  -- `data.len() - 4` panics on fewer than four bytes.
  unfoldable pub decode_b58_check : Bytes → Result Bip32Error Bytes
  decode_b58_check s = do
    data' ← ok_or bs58_error (B.decode s)
    idx ← (if ltb (length data') 4 then panic else ok (length data' - 4))
    let payload = take idx data'
    let checksum = drop idx data'
    let expected = take 4 (hash256 H payload)
    if not (bytes_eq expected checksum) then err bad_b58_checksum else ok payload

  unfoldable pub encode_b58_check : Bytes → Bytes
  encode_b58_check v = B.encode (v ++ take 4 (hash256 H v))

module _ (P : XkeyParams) (H : HashFunctions) (B : Base58) (C : Curve)
    (hmac_sha512 : Bytes → Bytes → Bytes) where
  unfoldable pub write_xpub : Xpub H C hmac_sha512 → Bytes → ℕ × Bytes
  write_xpub key writer =
      let version =
        version_for P.pub_version P.bip49_pub_version P.bip84_pub_version key.xkey_info.hint in
      let (n1, w1) = write (be_bytes version) writer in
      let (n2, w2) = write_key_details key.xkey_info w1 in
      let (n3, w3) = write (C.sec1_bytes key.key) w2 in (n1 + n2 + n3, w3)

  unfoldable pub write_xpriv : Xpriv H C hmac_sha512 → Bytes → ℕ × Bytes
  write_xpriv key writer =
      let version =
        version_for P.priv_version P.bip49_priv_version P.bip84_priv_version key.xkey_info.hint in
      let (n1, w1) = write (be_bytes version) writer in
      let (n2, w2) = write_key_details key.xkey_info w1 in
      let (n3, w3) = write (0 ∷ []) w2 in
      let (n4, w4) = write (C.key_bytes key.key) w3 in (n1 + n2 + n3 + n4, w4)

  unfoldable pub read_xpriv_body : Bytes → Hint → Result Bip32Error (Xpriv H C hmac_sha512 × Bytes)
  read_xpriv_body reader hint = do
    (info, r1) ← read_info reader hint
    (padding, r2) ← read_array 1 r1
    fail_if (not (from_le_bytes padding == 0)) (bad_padding (from_le_bytes padding))
    (buf, r3) ← read_array 32 r2
    key ← ok_or backend_error (C.from_key_bytes buf)
    ok (record { key = key; xkey_info = info }, r3)

  unfoldable pub read_xpub_body : Bytes → Hint → Result Bip32Error (Xpub H C hmac_sha512 × Bytes)
  read_xpub_body reader hint = do
    (info, r1) ← read_info reader hint
    (buf, r2) ← read_array 33 r1
    key ← ok_or backend_error (C.from_sec1_bytes buf)
    ok (record { key = key; xkey_info = info }, r2)

  unfoldable pub read_xpriv_without_network :
      Bytes → Result Bip32Error (Xpriv H C hmac_sha512 × Bytes)
  read_xpriv_without_network reader = do
    (buf, r) ← read_array 4 reader
    read_xpriv_body r legacy_hint

  unfoldable pub read_xpub_without_network :
      Bytes → Result Bip32Error (Xpub H C hmac_sha512 × Bytes)
  read_xpub_without_network reader = do (buf, r) ← read_array 4 reader; read_xpub_body r legacy_hint

  unfoldable pub read_xpriv : Bytes → Result Bip32Error (Xpriv H C hmac_sha512 × Bytes)
  read_xpriv reader = do
    (buf, r) ← read_array 4 reader
    hint ← hint_for P.priv_version P.bip49_priv_version P.bip84_priv_version buf
    read_xpriv_body r hint

  -- A wrong version is reported as one of a private key here too.
  unfoldable pub read_xpub : Bytes → Result Bip32Error (Xpub H C hmac_sha512 × Bytes)
  read_xpub reader = do
    (buf, r) ← read_array 4 reader
    hint ← hint_for P.pub_version P.bip49_pub_version P.bip84_pub_version buf
    read_xpub_body r hint

  unfoldable pub xpriv_to_base58 : Xpriv H C hmac_sha512 → Bytes
  xpriv_to_base58 k = encode_b58_check H B (write_xpriv k []).1

  unfoldable pub xpub_to_base58 : Xpub H C hmac_sha512 → Bytes
  xpub_to_base58 k = encode_b58_check H B (write_xpub k []).1

  unfoldable pub xpriv_from_base58 : Bytes → Result Bip32Error (Xpriv H C hmac_sha512)
  xpriv_from_base58 s = do data' ← decode_b58_check H B s; (key, rest) ← read_xpriv data'; ok key

  unfoldable pub xpub_from_base58 : Bytes → Result Bip32Error (Xpub H C hmac_sha512)
  xpub_from_base58 s = do data' ← decode_b58_check H B s; (key, rest) ← read_xpub data'; ok key
