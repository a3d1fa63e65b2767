-- ===== src/Bip32/Derived.antt =====
-- bip32/src/derived.rs: keys that carry their derivation from a root.
pub mod Ancestors
use bitcoins_rs.Base.{
  Bool, Bytes, Option, Result, [], bytes_eq, false, none, ok, some, ℕ, ◌&&◌, ◌>>=◌, ◌>>◌,
}
use bitcoins_rs.Bip32.Keys.{
  Curve, Hint, Xpriv, Xpub, custom_root_node, derive_path, derive_xpriv, derive_xpub, verify_key,
  xpriv_fingerprint,
}
use bitcoins_rs.Bip32.Path.{KeyDerivation, derivation_extended, path_to_descendant}
use bitcoins_rs.Bip32.Path.Text.{Bip32Error}
use bitcoins_rs.Hashes.{HashFunctions}

module _ (H : HashFunctions) (C : Curve) (hmac_sha512 : Bytes → Bytes → Bytes) where
  pub record DerivedXpriv : Type 0 where
    pub xpriv : Xpriv H C hmac_sha512
    pub derivation : KeyDerivation

  pub record DerivedXpub : Type 0 where
    pub xpub : Xpub H C hmac_sha512
    pub derivation : KeyDerivation

  -- `DerivedXPriv::verify_key`
  unfoldable pub derived_verify_key : DerivedXpriv → DerivedXpub
  derived_verify_key k = record {
    xpub = verify_key H C hmac_sha512 k.xpriv;
    derivation = k.derivation;
  }

  -- `DerivedXPriv::custom_root_node`
  unfoldable pub derived_root_node : Bytes → Bytes → Option Hint → Result Bip32Error DerivedXpriv
  derived_root_node hmac_key data' hint = do
    xpriv ← custom_root_node H C hmac_sha512 hmac_key data' hint
    ok record {
      xpriv = xpriv;
      derivation = record { root = xpriv_fingerprint H C hmac_sha512 xpriv; path = [] };
    }

  -- `Parent::derive_child` of both, with the fuel of the key's.
  unfoldable pub derive_derived_xpriv : ℕ → DerivedXpriv → ℕ → Result Bip32Error DerivedXpriv
  derive_derived_xpriv fuel k index = do
    xpriv ← derive_xpriv H C hmac_sha512 fuel k.xpriv index
    ok record { xpriv = xpriv; derivation = derivation_extended k.derivation index }

  unfoldable pub derive_derived_xpub : ℕ → DerivedXpub → ℕ → Result Bip32Error DerivedXpub
  derive_derived_xpub fuel k index = do
    xpub ← derive_xpub H C hmac_sha512 fuel k.xpub index
    ok record { xpub = xpub; derivation = derivation_extended k.derivation index }

  -- `==` on derivations, paths and public keys.
  unfoldable pub derivation_eq : KeyDerivation → KeyDerivation → Bool
  derivation_eq d e = bytes_eq d.root e.root && bytes_eq d.path e.path

  unfoldable pub derived_xpub_eq : DerivedXpub → DerivedXpub → Bool
  derived_xpub_eq k other =
      bytes_eq (C.sec1_bytes k.xpub.key) (C.sec1_bytes other.xpub.key)
      && derivation_eq k.derivation other.derivation

  -- `DerivedXPriv::is_private_ancestor_of`
  unfoldable pub is_private_ancestor_of : ℕ → DerivedXpriv → DerivedXpub → Result Bip32Error Bool
  is_private_ancestor_of fuel k other = elim (path_to_descendant k.derivation other.derivation) [
    | some path ↦ do
      descendant ← derive_path (derive_derived_xpriv fuel) k path
      ok (derived_xpub_eq (derived_verify_key descendant) other)
    | none ↦ ok false
  ]

  -- `DerivedXPub::is_public_ancestor_of`
  unfoldable pub is_public_ancestor_of : ℕ → DerivedXpub → DerivedXpub → Result Bip32Error Bool
  is_public_ancestor_of fuel k other = elim (path_to_descendant k.derivation other.derivation) [
    | some path ↦ do
      descendant ← derive_path (derive_derived_xpub fuel) k path
      ok (derived_xpub_eq descendant other)
    | none ↦ ok false
  ]
