-- ===== src/Bip32/Keys/Laws.antt =====
-- Laws of bip32/src/xkeys.rs, for a curve whose encodings can be read back and whose keys add up.
use bitcoins_rs.Base.{
  >>=-eq-ok, Bool-cases, Bytes, Option, Result, ap, arith, if-false, if-true, inl, inr, length, ltb,
  ltb→lt, none, ok, ok-injective, ok_or, panic, refl, some, some-eq_some, sym, unwrap, unwrap-eq-ok,
  ℕ, ◌+◌, ◌<◌, ◌∙◌, ◌≡◌, ◌≤◌,
}
use mathlib.Core.Path.{subst}
use bitcoins_rs.Bip32.Keys.{
  Curve, XkeyInfo, Xpriv, checked_add, child_info, tweak_xpriv, tweak_xpub, verify_key,
  xpriv_fingerprint,
}
use bitcoins_rs.Bip32.Path.Text.{bad_tweak}
use bitcoins_rs.Hashes.{HashFunctions}

-- What is documented of the keys: encodings are read back, and the key of a sum is the sum of the
-- keys' points.
pub record IsCurve (C : Curve) : Type 0 where
  pub key_size : (k : C.SigningKey) → length (C.key_bytes k) ≡ 32
  pub key_back : (k : C.SigningKey) → C.from_key_bytes (C.key_bytes k) ≡ some k
  pub sec1_size : (p : C.VerifyingKey) → length (C.sec1_bytes p) ≡ 33
  pub sec1_back : (p : C.VerifyingKey) → C.from_sec1_bytes (C.sec1_bytes p) ≡ some p
  pub sum_points :
      (t k s : C.SigningKey)
      → C.sum_of t k ≡ some s
      → C.add_points (C.verifying_key t) (C.verifying_key k) ≡ C.verifying_key s

pub ok_ne_panic : {E A : Type 0} {a : A} → ◌≡◌ {A = Result E A} (ok a) panic → ⊥
ok_ne_panic h = cc

pub ok_or-eq-ok {ℓ κ} :
    {E : Type ℓ} {A : Type κ} (e : E) (o : Option A) {a : A} → ok_or e o ≡ ok a → o ≡ some a
ok_or-eq-ok e none h = cc
ok_or-eq-ok e (some a) h = ap some (ok-injective h)

pub checked_add-eq-ok :
    (values a b : ℕ) {c : ℕ} → checked_add values a b ≡ ok c → (a + b < values) × (c ≡ a + b)
checked_add-eq-ok values a b h = elim (Bool-cases (ltb (a + b) values)) [
  | inl fits ↦ (
    ltb→lt (a + b) values fits,
    ok-injective (sym h ∙ if-true (ltb (a + b) values) (ok (a + b)) panic fits),
  )
  | inr over ↦ absurd (ok_ne_panic (sym h ∙ if-false (ltb (a + b) values) (ok (a + b)) panic over))
]

-- The information on a child, when there is a level left for it.
unfoldable pub child_of : XkeyInfo → Bytes → ℕ → Bytes → XkeyInfo
child_of info fingerprint index chain_code = record {
  depth = info.depth + 1;
  parent = fingerprint;
  index = index;
  chain_code = chain_code;
  hint = info.hint;
}

pub child_info_fits :
    (info info1 : XkeyInfo) (fingerprint : Bytes) (index : ℕ) (chain_code : Bytes)
    → child_info info fingerprint index chain_code ≡ ok info1
    → (info.depth + 1 < 256) × (info1 ≡ child_of info fingerprint index chain_code)
unfolding child_info child_of
child_info_fits info info1 fingerprint index chain_code h =
    let (depth, added, h1) = >>=-eq-ok (checked_add 256 info.depth 1) _ h in
    let (fits, sum) = checked_add-eq-ok 256 info.depth 1 added in
    (
      fits,
      sym (ok-injective h1)
          ∙ ap (λ d. record (child_of info fingerprint index chain_code) { depth = d }) sum,
    )

module _ (H : HashFunctions) (C : Curve) (hmac_sha512 : Bytes → Bytes → Bytes) where
  -- What a child has of its parent: one level more, the parent's fingerprint, an index that is not
  -- before the one asked for, and the same hint.
  pub record IsChild (k : Xpriv H C hmac_sha512) (index : ℕ) (child : Xpriv H C hmac_sha512)
      : Type 0 where
    pub deeper : child.xkey_info.depth ≡ k.xkey_info.depth + 1
    pub depth_fits : child.xkey_info.depth < 256
    pub from_parent : child.xkey_info.parent ≡ xpriv_fingerprint H C hmac_sha512 k
    pub not_before : index ≤ child.xkey_info.index
    pub same_hint : child.xkey_info.hint ≡ k.xkey_info.hint

  pub child_of-IsChild :
      (k child : Xpriv H C hmac_sha512) (index : ℕ) (c : Bytes)
      → k.xkey_info.depth + 1 < 256
      → child.xkey_info ≡ child_of k.xkey_info (xpriv_fingerprint H C hmac_sha512 k) index c
      → IsChild k index child
  unfolding child_of
  child_of-IsChild k child index c fits info = record {
    deeper = ap (λ i. i.depth) info;
    depth_fits = omega (arith, ap (λ i. i.depth) info);
    from_parent = ap (λ i. i.parent) info;
    not_before = omega (arith, ap (λ i. i.index) info);
    same_hint = ap (λ i. i.hint) info;
  }

  pub tweak_xpriv_lem :
      (k : Xpriv H C hmac_sha512) (index : ℕ) (t : C.SigningKey) (c : Bytes)
      (child : Xpriv H C hmac_sha512)
      → IsCurve C
      → tweak_xpriv H C hmac_sha512 k index (t, c) ≡ ok child
      → (C.sum_of t k.key ≡ some child.key)
        × (child_info k.xkey_info (xpriv_fingerprint H C hmac_sha512 k) index c
            ≡ ok child.xkey_info)
  unfolding tweak_xpriv
  tweak_xpriv_lem k index t c child curve h =
      let (parent_key, read, h1) = >>=-eq-ok (unwrap (C.from_key_bytes (C.key_bytes k.key))) _ h in
      let (tweaked, added, h2) = >>=-eq-ok (ok_or bad_tweak (C.sum_of t parent_key)) _ h1 in
      let (info, informed, h3) =
        >>=-eq-ok (child_info k.xkey_info (xpriv_fingerprint H C hmac_sha512 k) index c) _ h2 in
      let same : parent_key ≡ k.key =
        some-eq_some
          (sym (unwrap-eq-ok (C.from_key_bytes (C.key_bytes k.key)) read) ∙ curve.key_back k.key) in
      let result = ok-injective h3 in
      (
        subst (λ p. C.sum_of t p ≡ some child.key) same
            (ok_or-eq-ok bad_tweak (C.sum_of t parent_key) added ∙ ap (λ x. some x.key) result),
        informed ∙ ap (λ x. ok x.xkey_info) result,
      )

  -- The public side of a tweak.
  pub tweak_xpub_lem :
      (k : Xpriv H C hmac_sha512) (index : ℕ) (t : C.SigningKey) (c : Bytes)
      (child : Xpriv H C hmac_sha512)
      → IsCurve C
      → tweak_xpriv H C hmac_sha512 k index (t, c) ≡ ok child
      → tweak_xpub H C hmac_sha512 (verify_key H C hmac_sha512 k) index (t, c)
        ≡ ok (verify_key H C hmac_sha512 child)
  unfolding tweak_xpub verify_key xpriv_fingerprint
  tweak_xpub_lem k index t c child curve h =
      let (sum, info) = tweak_xpriv_lem k index t c child curve h in
      rw (curve.sec1_back (C.verifying_key k.key), info, curve.sum_points t k.key child.key sum)
        refl
