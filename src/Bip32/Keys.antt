-- ===== src/Bip32/Keys.antt =====
-- bip32/src/primitives.rs and xkeys.rs: extended keys and their derivation. The curve is that of
-- the crate `k256`, and the keyed hash that of `hmac` with `sha2`.
pub mod Laws
pub mod Children
use bitcoins_rs.Base.{
  Bytes, Option, Result, [], drop, err, fail_if, if◌then◌else◌, le_bytes, leb, length, ltb, none,
  ok, ok_or, panic, replicate, some, suc, take, unwrap, zero, ℕ, ◌++◌, ◌+◌, ◌>>=◌, ◌>>◌, ◌^◌, ◌∷◌,
}
use mathlib.Core.List.{reverse}
use bitcoins_rs.Bip32.Path.{DerivationPath, bip32_harden}
use bitcoins_rs.Bip32.Path.Text.{
  Bip32Error, bad_tweak, elliptic_curve_error, hardened_derivation_failed, seed_too_short,
}
use bitcoins_rs.Hashes.{HashFunctions, hash160}
use bitcoins_rs.Provider.Tips.{retry}

pub data Hint : Type 0 where
  legacy_hint compatibility segwit : Hint

-- A fingerprint and a chain code are their bytes.
pub record XkeyInfo : Type 0 where
  pub depth : ℕ
  pub parent : Bytes
  pub index : ℕ
  pub chain_code : Bytes
  pub hint : Hint

-- `SigningKey` is also the type of the scalars that are not zero. `sum_of` is their sum, if that is
-- not zero, and `add_points` the sum of two points as a key.
pub record Curve : Type 1 where
  pub SigningKey : Type 0
  pub VerifyingKey : Type 0
  pub from_key_bytes : Bytes → Option SigningKey
  pub key_bytes : SigningKey → Bytes
  pub verifying_key : SigningKey → VerifyingKey
  pub sum_of : SigningKey → SigningKey → Option SigningKey
  pub from_sec1_bytes : Bytes → Option VerifyingKey
  pub sec1_bytes : VerifyingKey → Bytes
  pub add_points : VerifyingKey → VerifyingKey → VerifyingKey

-- `u32::to_be_bytes` and `from_be_bytes`.
abbrev pub be_bytes : ℕ → Bytes
be_bytes n = reverse (le_bytes 4 n)

-- `"Bitcoin seed"`
abbrev pub seed : Bytes
seed = 66 ∷ 105 ∷ 116 ∷ 99 ∷ 111 ∷ 105 ∷ 110 ∷ 32 ∷ 115 ∷ 101 ∷ 101 ∷ 100 ∷ []

-- An addition on an unsigned type with this many values, which panics above the last.
abbrev pub checked_add : ℕ → ℕ → ℕ → Result Bip32Error ℕ
checked_add values a b = if ltb (a + b) values then ok (a + b) else panic

-- The information on a child.
unfoldable pub child_info : XkeyInfo → Bytes → ℕ → Bytes → Result Bip32Error XkeyInfo
child_info info fingerprint index chain_code = do
  depth ← checked_add 256 info.depth 1
  ok record {
    depth = depth;
    parent = fingerprint;
    index = index;
    chain_code = chain_code;
    hint = info.hint;
  }

-- The match on the hash: any error leads to the next index.
unfoldable pub or_next :
    {S A : Type 0}
    → Result Bip32Error S
    → (S → Result Bip32Error A)
    → (Unit {0} → Result Bip32Error A)
    → Result Bip32Error A
or_next (ok split) made_key retry = made_key split
or_next (err e) made_key retry = retry tt
or_next panic made_key retry = panic

-- `Parent::derive_path`, on a path that is parsed already.
unfoldable pub derive_path :
    {S : Type 0} → (S → ℕ → Result Bip32Error S) → S → DerivationPath → Result Bip32Error S
derive_path derive_child current [] = ok current
derive_path derive_child current (index ∷ path) =
    derive_child current index >>= λ child. derive_path derive_child child path

module _ (H : HashFunctions) (C : Curve) (hmac_sha512 : Bytes → Bytes → Bytes) where
  pub record Xpriv : Type 0 where
    pub key : C.SigningKey
    pub xkey_info : XkeyInfo

  pub record Xpub : Type 0 where
    pub key : C.VerifyingKey
    pub xkey_info : XkeyInfo

  unfoldable pub hmac_and_split : Bytes → Bytes → Result Bip32Error (C.SigningKey × Bytes)
  hmac_and_split key_data data' = do
    let result = hmac_sha512 key_data data'
    left ← ok_or elliptic_curve_error (C.from_key_bytes (take 32 result))
    ok (left, drop 32 result)

  -- `XPriv::verify_key`
  unfoldable pub verify_key : Xpriv → Xpub
  verify_key k = record { key = C.verifying_key k.key; xkey_info = k.xkey_info }

  -- `XPub::fingerprint` and `XPriv::fingerprint`
  unfoldable pub xpub_fingerprint : Xpub → Bytes
  xpub_fingerprint k = take 4 (hash160 H (C.sec1_bytes k.key))

  unfoldable pub xpriv_fingerprint : Xpriv → Bytes
  xpriv_fingerprint k = xpub_fingerprint (verify_key k)

  -- `XPriv::custom_root_node`. A `NonZeroScalar` is not zero.
  unfoldable pub custom_root_node : Bytes → Bytes → Option Hint → Result Bip32Error Xpriv
  custom_root_node hmac_key data' hint = do
    fail_if (ltb (length data') 16) seed_too_short
    (key, chain_code) ← hmac_and_split hmac_key data'
    ok record {
      key = key;
      xkey_info = record {
        depth = 0;
        parent = replicate 4 0;
        index = 0;
        chain_code = chain_code;
        hint = elim hint [ some h ↦ h | none ↦ segwit ];
      };
    }

  unfoldable pub custom_root_from_seed : Bytes → Option Hint → Result Bip32Error Xpriv
  custom_root_from_seed data' hint = custom_root_node seed data' hint

  -- What is hashed for a private child.
  unfoldable pub child_data : Xpriv → ℕ → Bytes
  child_data k index =
      if leb bip32_harden index
      then (0 ∷ C.key_bytes k.key) ++ be_bytes index
      else C.sec1_bytes (C.verifying_key k.key) ++ be_bytes index

  -- The rest of `XPriv::derive_child`, from the tweak on.
  unfoldable pub tweak_xpriv : Xpriv → ℕ → C.SigningKey × Bytes → Result Bip32Error Xpriv
  tweak_xpriv k index (tweak, chain_code) = do
    parent_key ← unwrap (C.from_key_bytes (C.key_bytes k.key))
    tweaked ← ok_or bad_tweak (C.sum_of tweak parent_key)
    info ← child_info k.xkey_info (xpriv_fingerprint k) index chain_code
    ok record { key = tweaked; xkey_info = info }

  -- `XPriv::derive_child`: the next index is tried when the hash is no key, on fuel.
  unfoldable pub derive_xpriv : ℕ → Xpriv → ℕ → Result Bip32Error Xpriv
  derive_xpriv zero k index = panic
  derive_xpriv (suc fuel) k index =
      or_next (hmac_and_split k.xkey_info.chain_code (child_data k index))
        (λ split. tweak_xpriv k index split)
        (λ _. checked_add (2 ^ 32) index 1 >>= derive_xpriv fuel k)

  -- The rest of `XPub::derive_child`, from the tweak on, which is not zero.
  unfoldable pub tweak_xpub : Xpub → ℕ → C.SigningKey × Bytes → Result Bip32Error Xpub
  tweak_xpub k index (tweak, chain_code) = do
    parent_key ← unwrap (C.from_sec1_bytes (C.sec1_bytes k.key))
    let tweak_point = C.add_points (C.verifying_key tweak) parent_key
    info ← child_info k.xkey_info (xpub_fingerprint k) index chain_code
    ok record { key = tweak_point; xkey_info = info }

  -- `XPub::derive_child`
  unfoldable pub derive_xpub : ℕ → Xpub → ℕ → Result Bip32Error Xpub
  derive_xpub zero k index = panic
  derive_xpub (suc fuel) k index =
      if leb bip32_harden index
      then err hardened_derivation_failed
      else or_next (hmac_and_split k.xkey_info.chain_code (C.sec1_bytes k.key ++ be_bytes index))
          (λ split. tweak_xpub k index split)
          (λ _. checked_add (2 ^ 32) index 1 >>= derive_xpub fuel k)
