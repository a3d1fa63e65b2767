-- ===== src/Bip32/Keys/Children.antt =====
-- The children of extended keys (bip32/src/xkeys.rs).
use bitcoins_rs.Base.{
  >>=-eq-ok, Bytes, Result, ap, arith, err, if-false, if-true, inl, inr, leb, ltb, lt→leb, lt→ltb,
  ok, panic, refl, some, suc, sym, zero, ℕ, ◌++◌, ◌+◌, ◌<◌, ◌>>=◌, ◌^◌, ◌∙◌, ◌≡◌, ◌⊎◌,
}
use mathlib.Core.Path.{subst}
use bitcoins_rs.Bip32.Keys.{
  Curve, Xpriv, Xpub, be_bytes, checked_add, child_data, child_info, derive_xpriv, derive_xpub,
  hmac_and_split, or_next, tweak_xpriv, tweak_xpub, verify_key, xpriv_fingerprint,
}
use bitcoins_rs.Bip32.Keys.Laws.{
  IsChild, IsCurve, checked_add-eq-ok, child_info_fits, child_of, child_of-IsChild, ok_ne_panic,
  tweak_xpriv_lem, tweak_xpub_lem,
}
use bitcoins_rs.Bip32.Path.{bip32_harden}
use bitcoins_rs.Bip32.Path.Text.{Bip32Error, hardened_derivation_failed}
use bitcoins_rs.Hashes.{HashFunctions}

module _ (H : HashFunctions) (C : Curve) (hmac_sha512 : Bytes → Bytes → Bytes) where
  -- What is made of a hash.
  abbrev from_hash :
      ℕ
      → Xpriv H C hmac_sha512
      → ℕ
      → Result Bip32Error (C.SigningKey × Bytes)
      → Result Bip32Error (Xpriv H C hmac_sha512)
  from_hash fuel k index hash =
      or_next hash (λ split. tweak_xpriv H C hmac_sha512 k index split)
        (λ _. checked_add (2 ^ 32) index 1 >>= derive_xpriv H C hmac_sha512 fuel k)

  abbrev pub_hash :
      ℕ
      → Xpriv H C hmac_sha512
      → ℕ
      → Result Bip32Error (C.SigningKey × Bytes)
      → Result Bip32Error (Xpub H C hmac_sha512)
  pub_hash fuel k index hash =
      or_next hash (λ split. tweak_xpub H C hmac_sha512 (verify_key H C hmac_sha512 k) index split)
        (λ _.
          checked_add (2 ^ 32) index 1
          >>= derive_xpub H C hmac_sha512 fuel (verify_key H C hmac_sha512 k))

  -- How a child comes about: from the hash at its own index, or like a child of the next index.
  child_cases :
      (fuel : ℕ) (k child : Xpriv H C hmac_sha512) (index : ℕ)
      (split : Result Bip32Error (C.SigningKey × Bytes))
      → hmac_and_split H C hmac_sha512 k.xkey_info.chain_code (child_data H C hmac_sha512 k index)
        ≡ split
      → derive_xpriv H C hmac_sha512 (suc fuel) k index ≡ ok child
      → ((t : C.SigningKey) × (c : Bytes) × (split ≡ ok (t, c))
          × (tweak_xpriv H C hmac_sha512 k index (t, c) ≡ ok child))
        ⊎ ((e : Bip32Error) × (split ≡ err e)
            × (index + 1 < 2 ^ 32)
            × (derive_xpriv H C hmac_sha512 fuel k (index + 1) ≡ ok child))
  unfolding derive_xpriv or_next
  child_cases fuel k child index (ok (t, c)) e h =
      inl (t, c, refl, subst (λ m. from_hash fuel k index m ≡ ok child) e h)
  child_cases fuel k child index (err x) e h =
      let h1 : (checked_add (2 ^ 32) index 1 >>= derive_xpriv H C hmac_sha512 fuel k) ≡ ok child =
        subst (λ m. from_hash fuel k index m ≡ ok child) e h in
      let (next, added, h2) = >>=-eq-ok (checked_add (2 ^ 32) index 1) _ h1 in
      let (fits, sum) = checked_add-eq-ok (2 ^ 32) index 1 added in
      inr (x, refl, fits, subst (λ n. derive_xpriv H C hmac_sha512 fuel k n ≡ ok child) sum h2)
  child_cases fuel k child index panic e h =
      absurd (ok_ne_panic (sym (subst (λ m. from_hash fuel k index m ≡ ok child) e h)))

  -- A private child has one level more than its parent, the parent's fingerprint and hint, and an
  -- index that is not before the one asked for.
  pub derive_xpriv-IsChild :
      (fuel : ℕ) (k child : Xpriv H C hmac_sha512) (index : ℕ)
      → IsCurve C
      → derive_xpriv H C hmac_sha512 fuel k index ≡ ok child
      → IsChild H C hmac_sha512 k index child
  unfolding derive_xpriv
  derive_xpriv-IsChild zero k child index curve h = cc
  derive_xpriv-IsChild (suc fuel) k child index curve h =
      elim (child_cases fuel k child index _ refl h) [
        | inl (t, c, split, tweaked) ↦
            let (sum, informed) = tweak_xpriv_lem H C hmac_sha512 k index t c child curve tweaked in
            let (fits, info) =
              child_info_fits k.xkey_info child.xkey_info (xpriv_fingerprint H C hmac_sha512 k)
                index c informed in
            child_of-IsChild H C hmac_sha512 k child index c fits info
        | inr (e, split, fits, again) ↦
            let later = derive_xpriv-IsChild fuel k child (index + 1) curve again in
            record {
              deeper = later.deeper;
              depth_fits = later.depth_fits;
              from_parent = later.from_parent;
              not_before = omega (arith, later.not_before);
              same_hint = later.same_hint;
            }
      ]

  -- The public key of a child that is not hardened is the child of the public key: when a private key
  -- has a child whose index is not hardened, its public key has the child's public key.
  pub derive_xpub-verify_key :
      (fuel : ℕ) (k child : Xpriv H C hmac_sha512) (index : ℕ)
      → IsCurve C
      → derive_xpriv H C hmac_sha512 fuel k index ≡ ok child
      → child.xkey_info.index < bip32_harden
      → derive_xpub H C hmac_sha512 fuel (verify_key H C hmac_sha512 k) index
        ≡ ok (verify_key H C hmac_sha512 child)
  unfolding derive_xpriv derive_xpub or_next child_data verify_key
  derive_xpub-verify_key zero k child index curve h normal = cc
  derive_xpub-verify_key (suc fuel) k child index curve h normal =
      let below : index < bip32_harden =
        omega (arith, (derive_xpriv-IsChild (suc fuel) k child index curve h).not_before) in
      let data' = C.sec1_bytes (C.verifying_key k.key) ++ be_bytes index in
      let same : child_data H C hmac_sha512 k index ≡ data' =
        if-false (leb bip32_harden index) _ _ (lt→leb bip32_harden index below) in
      let hash = hmac_and_split H C hmac_sha512 k.xkey_info.chain_code in
      let opened =
        if-false (leb bip32_harden index) (err hardened_derivation_failed)
          (pub_hash fuel k index (hash data')) (lt→leb bip32_harden index below) in
      elim (child_cases fuel k child index _ refl h) [
        | inl (t, c, split, tweaked) ↦
            opened
            ∙ ap (pub_hash fuel k index) (ap hash (sym same) ∙ split)
            ∙ tweak_xpub_lem H C hmac_sha512 k index t c child curve tweaked
        | inr (e, split, fits, again) ↦
            opened
            ∙ ap (pub_hash fuel k index) (ap hash (sym same) ∙ split)
            ∙ ap (λ m. m >>= derive_xpub H C hmac_sha512 fuel (verify_key H C hmac_sha512 k))
                (if-true (ltb (index + 1) (2 ^ 32)) _ _ (lt→ltb (index + 1) (2 ^ 32) fits))
            ∙ derive_xpub-verify_key fuel k child (index + 1) curve again normal
      ]

  -- Each round of fuel can take the index one further.
  pub derive_xpriv_reach :
      (fuel : ℕ) (k child : Xpriv H C hmac_sha512) (index : ℕ)
      → IsCurve C
      → derive_xpriv H C hmac_sha512 fuel k index ≡ ok child
      → child.xkey_info.index < index + fuel
  unfolding derive_xpriv child_of
  derive_xpriv_reach zero k child index curve h = cc
  derive_xpriv_reach (suc fuel) k child index curve h =
      elim (child_cases fuel k child index _ refl h) [
        | inl (t, c, split, tweaked) ↦
            let (sum, informed) = tweak_xpriv_lem H C hmac_sha512 k index t c child curve tweaked in
            let (fits, info) =
              child_info_fits k.xkey_info child.xkey_info (xpriv_fingerprint H C hmac_sha512 k)
                index c informed in
            omega (arith, ap (λ i. i.index) info)
        | inr (e, split, fits, again) ↦
            omega (arith, derive_xpriv_reach fuel k child (index + 1) curve again)
      ]

  -- With a level left below the key, a hash at the index that is a key, and a sum with it that is not
  -- zero, one round of fuel is enough, and the child has that sum and the index asked for.
  pub derive_xpriv_returns :
      (fuel : ℕ) (k : Xpriv H C hmac_sha512) (index : ℕ) (t s : C.SigningKey) (c : Bytes)
      → IsCurve C
      → k.xkey_info.depth + 1 < 256
      → hmac_and_split H C hmac_sha512 k.xkey_info.chain_code (child_data H C hmac_sha512 k index)
        ≡ ok (t, c)
      → C.sum_of t k.key ≡ some s
      → derive_xpriv H C hmac_sha512 (suc fuel) k index
        ≡ ok record {
          key = s;
          xkey_info = child_of k.xkey_info (xpriv_fingerprint H C hmac_sha512 k) index c;
        }
  unfolding derive_xpriv or_next tweak_xpriv child_info child_of
  derive_xpriv_returns fuel k index t s c curve deep hash sum =
      ap (from_hash fuel k index) hash
      ∙ rw (curve.key_back k.key, sum, lt→ltb (k.xkey_info.depth + 1) 256 deep) refl
