-- ===== src/Bip32/Derived/Ancestors.antt =====
-- Ancestors and descendants of keys (bip32/src/derived.rs).
use bitcoins_rs.Base.{
  >>=-eq-ok, All, Bytes, [], ap, append-nil, append_assoc, arith, bytes_eq_refl, ok, ok-injective,
  refl, some, sym, true, ℕ, ◌++◌, ◌+◌, ◌<◌, ◌∙◌, ◌∷◌, ◌≡◌, ◌≤◌,
}
use bitcoins_rs.Bip32.Derived.{
  DerivedXpriv, derivation_eq, derive_derived_xpriv, derive_derived_xpub, derived_verify_key,
  derived_xpub_eq, is_private_ancestor_of, is_public_ancestor_of,
}
use bitcoins_rs.Bip32.Keys.{Curve, derive_path, derive_xpriv, verify_key}
use bitcoins_rs.Bip32.Keys.Children.{derive_xpriv_reach, derive_xpub-verify_key}
use bitcoins_rs.Bip32.Keys.Laws.{IsCurve}
use bitcoins_rs.Bip32.Path.{
  DerivationPath, bip32_harden, derivation_extended, extended, path_to_descendant, without_prefix,
}
use bitcoins_rs.Bip32.Path.Laws.{without_prefix_lem}
use bitcoins_rs.Hashes.{HashFunctions}

-- A path whose indices stay below the hardened ones whatever the retries on this fuel.
unfoldable pub IsNormalPath : ℕ → DerivationPath → Type 0
IsNormalPath fuel = All (λ index. index + fuel ≤ bip32_harden)

module _ (H : HashFunctions) (C : Curve) (hmac_sha512 : Bytes → Bytes → Bytes) where
  -- The derivation of a descendant is that of its ancestor with the path behind it.
  path_derivation :
      (fuel : ℕ) (k child : DerivedXpriv H C hmac_sha512) (path : DerivationPath)
      → derive_path (derive_derived_xpriv H C hmac_sha512 fuel) k path ≡ ok child
      → (child.derivation.root ≡ k.derivation.root)
        × (child.derivation.path ≡ k.derivation.path ++ path)
  unfolding derive_path derive_derived_xpriv derivation_extended extended
  path_derivation fuel k child [] h =
      let same = ok-injective h in
      (
        ap (λ c. c.derivation.root) (sym same),
        ap (λ c. c.derivation.path) (sym same) ∙ sym (append-nil k.derivation.path),
      )
  path_derivation fuel k child (index ∷ path) h =
      let (next, derived, h1) = >>=-eq-ok (derive_derived_xpriv H C hmac_sha512 fuel k index) _ h in
      let (xpriv, keyed, h2) =
        >>=-eq-ok (derive_xpriv H C hmac_sha512 fuel k.xpriv index) _ derived in
      let (root, behind) = path_derivation fuel next child path h1 in
      let one = ap (λ c. c.derivation) (sym (ok-injective h2)) in
      (
        root ∙ ap (λ d. d.root) one,
        behind ∙ ap (λ d. d.path ++ path) one ∙ append_assoc k.derivation.path (index ∷ []) path,
      )

  -- A key is a private ancestor of what is derived from it along any path: it finds the path, derives
  -- the same key along it and recognises it.
  pub is_private_ancestor_of-derive_path :
      (fuel : ℕ) (k child : DerivedXpriv H C hmac_sha512) (path : DerivationPath)
      → derive_path (derive_derived_xpriv H C hmac_sha512 fuel) k path ≡ ok child
      → is_private_ancestor_of H C hmac_sha512 fuel k (derived_verify_key H C hmac_sha512 child)
        ≡ ok true
  unfolding is_private_ancestor_of path_to_descendant derived_verify_key derived_xpub_eq
      derivation_eq verify_key
  is_private_ancestor_of-derive_path fuel k child path h =
      let (root, behind) = path_derivation fuel k child path h in
      let found : without_prefix child.derivation.path k.derivation.path ≡ some path =
        (without_prefix_lem child.derivation.path k.derivation.path path).1 behind in
      rw
        (
          is_private_ancestor_of,
          found,
          h,
          bytes_eq_refl (C.sec1_bytes (C.verifying_key child.xpriv.key)),
          bytes_eq_refl child.derivation.root,
          bytes_eq_refl child.derivation.path,
        )
        refl

  derive_derived_xpub-verify_key :
      (fuel : ℕ) (k child : DerivedXpriv H C hmac_sha512) (index : ℕ)
      → IsCurve C
      → index + fuel ≤ bip32_harden
      → derive_derived_xpriv H C hmac_sha512 fuel k index ≡ ok child
      → derive_derived_xpub H C hmac_sha512 fuel (derived_verify_key H C hmac_sha512 k) index
        ≡ ok (derived_verify_key H C hmac_sha512 child)
  unfolding derive_derived_xpriv derive_derived_xpub derived_verify_key
  derive_derived_xpub-verify_key fuel k child index curve normal h =
      let (xpriv, keyed, h1) = >>=-eq-ok (derive_xpriv H C hmac_sha512 fuel k.xpriv index) _ h in
      let below : xpriv.xkey_info.index < bip32_harden =
        omega (arith, derive_xpriv_reach H C hmac_sha512 fuel k.xpriv xpriv index curve keyed) in
      rw (derive_xpub-verify_key H C hmac_sha512 fuel k.xpriv xpriv index curve keyed below)
        (ap (λ c. ok (derived_verify_key H C hmac_sha512 c)) (ok-injective h1))

  -- The public key of what a key derives along a normal path is what its public key derives along it.
  public_path :
      (fuel : ℕ) (k child : DerivedXpriv H C hmac_sha512) (path : DerivationPath)
      → IsCurve C
      → IsNormalPath fuel path
      → derive_path (derive_derived_xpriv H C hmac_sha512 fuel) k path ≡ ok child
      → derive_path
          (derive_derived_xpub H C hmac_sha512 fuel)
          (derived_verify_key H C hmac_sha512 k)
          path
        ≡ ok (derived_verify_key H C hmac_sha512 child)
  unfolding derive_path IsNormalPath
  public_path fuel k child [] curve normal h =
      ap (λ c. ok (derived_verify_key H C hmac_sha512 c)) (ok-injective h)
  public_path fuel k child (index ∷ path) curve (low, normal) h =
      let (next, derived, h1) = >>=-eq-ok (derive_derived_xpriv H C hmac_sha512 fuel k index) _ h in
      rw (derive_derived_xpub-verify_key fuel k next index curve low derived)
        (public_path fuel next child path curve normal h1)

  -- The public key of a key is a public ancestor of the public key of what the key derives along a
  -- normal path: it finds the path, derives the same public key along it and recognises it.
  pub is_public_ancestor_of-derive_path :
      (fuel : ℕ) (k child : DerivedXpriv H C hmac_sha512) (path : DerivationPath)
      → IsCurve C
      → IsNormalPath fuel path
      → derive_path (derive_derived_xpriv H C hmac_sha512 fuel) k path ≡ ok child
      → is_public_ancestor_of H C hmac_sha512 fuel
          (derived_verify_key H C hmac_sha512 k)
          (derived_verify_key H C hmac_sha512 child)
        ≡ ok true
  unfolding is_public_ancestor_of path_to_descendant derived_verify_key derived_xpub_eq
      derivation_eq verify_key
  is_public_ancestor_of-derive_path fuel k child path curve normal h =
      let (root, behind) = path_derivation fuel k child path h in
      let found : without_prefix child.derivation.path k.derivation.path ≡ some path =
        (without_prefix_lem child.derivation.path k.derivation.path path).1 behind in
      rw
        (
          is_public_ancestor_of,
          found,
          public_path fuel k child path curve normal h,
          bytes_eq_refl (C.sec1_bytes (C.verifying_key child.xpriv.key)),
          bytes_eq_refl child.derivation.root,
          bytes_eq_refl child.derivation.path,
        )
        refl
