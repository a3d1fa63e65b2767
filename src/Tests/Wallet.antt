-- ===== src/Tests/Wallet.antt =====
-- Extended keys at sample data, with the numbers modulo 3 as a curve: the keys are 1 and 2, and a
-- point is a number, where the first is the one that is not a key.
use bitcoins_rs.Base.{
  Bool, Bytes, Option, [], arith, false, length, none, ok, refl, replicate, some, suc, true, zero,
  ℕ, ◌∷◌, ◌≡◌,
}
use bitcoins_rs.Bip32.Derived.{
  DerivedXpriv, derive_derived_xpriv, derived_verify_key, is_public_ancestor_of,
}
use bitcoins_rs.Bip32.Derived.Ancestors.{IsNormalPath, is_public_ancestor_of-derive_path}
use bitcoins_rs.Bip32.Enc.{Base58, main_xkeys, xpriv_from_base58, xpriv_to_base58}
use bitcoins_rs.Bip32.Enc.RoundTrip.{
  AreVersions, IsBase58, IsInfo, xpriv_from_base58-xpriv_to_base58,
}
use bitcoins_rs.Bip32.Keys.{
  Curve, Xpriv, Xpub, child_info, compatibility, derive_path, derive_xpriv, derive_xpub,
  hmac_and_split, or_next, tweak_xpriv, verify_key, xpriv_fingerprint,
}
use bitcoins_rs.Bip32.Keys.Children.{derive_xpriv-IsChild, derive_xpub-verify_key}
use bitcoins_rs.Bip32.Keys.Laws.{IsChild, IsCurve}
use bitcoins_rs.Bip32.Path.{derivation_extended, extended}
use bitcoins_rs.Tests.Samples.{sample_hashes}

abbrev small_key : ℕ → Option Bool
small_key (suc zero) = some true
small_key (suc (suc zero)) = some false
small_key _ = none

abbrev first_of : Bytes → ℕ
first_of [] = 0
first_of (b ∷ bs) = b

abbrev number_of : Bool → ℕ
number_of true = 1
number_of false = 2

abbrev small_sum : Bool → Bool → Option Bool
small_sum true true = some false
small_sum false false = some true
small_sum true false = none
small_sum false true = none

abbrev small_add : Option Bool → Option Bool → Option Bool
small_add none q = q
small_add (some a) none = some a
small_add (some a) (some b) = small_sum a b

abbrev point_bytes : Option Bool → Bytes
point_bytes none = replicate 33 0
point_bytes (some b) = number_of b ∷ replicate 32 0

abbrev small_point : ℕ → Option (Option Bool)
small_point zero = some none
small_point (suc zero) = some (some true)
small_point (suc (suc zero)) = some (some false)
small_point _ = none

abbrev small_curve : Curve
small_curve = record {
  SigningKey = Bool;
  VerifyingKey = Option Bool;
  from_key_bytes = λ b. small_key (first_of b);
  key_bytes = λ k. number_of k ∷ replicate 31 0;
  verifying_key = some;
  sum_of = small_sum;
  from_sec1_bytes = λ b. small_point (first_of b);
  sec1_bytes = point_bytes;
  add_points = small_add;
}

small_sum_points : (t k s : Bool) → small_sum t k ≡ some s → small_add (some t) (some k) ≡ some s
small_sum_points t k s h = h

small_curve-IsCurve : IsCurve small_curve
small_curve-IsCurve = record {
  key_size = λ k. refl;
  key_back = key_back_small;
  sec1_size = sec1_size_small;
  sec1_back = sec1_back_small;
  sum_points = small_sum_points;
}
  where
    key_back_small : (k : Bool) → small_key (number_of k) ≡ some k
    key_back_small true = refl
    key_back_small false = refl

    sec1_size_small : (p : Option Bool) → length (point_bytes p) ≡ 33
    sec1_size_small none = refl
    sec1_size_small (some b) = refl

    sec1_back_small : (p : Option Bool) → small_point (first_of (point_bytes p)) ≡ some p
    sec1_back_small none = refl
    sec1_back_small (some true) = refl
    sec1_back_small (some false) = refl

abbrev small_hmac : Bytes → Bytes → Bytes
small_hmac key_data data' = 1 ∷ replicate 63 5

abbrev root_key : Xpriv sample_hashes small_curve small_hmac
root_key = record {
  key = true;
  xkey_info = record {
    depth = 0;
    parent = replicate 4 0;
    index = 0;
    chain_code = replicate 32 9;
    hint = compatibility;
  };
}

abbrev root_derived : DerivedXpriv sample_hashes small_curve small_hmac
root_derived = record {
  xpriv = root_key;
  derivation = record { root = 1 ∷ 2 ∷ 3 ∷ 4 ∷ []; path = [] };
}

abbrev child_key : Xpriv sample_hashes small_curve small_hmac
child_key = record {
  key = false;
  xkey_info = record {
    depth = 1;
    parent = xpriv_fingerprint sample_hashes small_curve small_hmac root_key;
    index = 7;
    chain_code = replicate 32 5;
    hint = compatibility;
  };
}

root_child : derive_xpriv sample_hashes small_curve small_hmac 2 root_key 7 ≡ ok child_key
unfolding derive_xpriv or_next hmac_and_split tweak_xpriv child_info
root_child = refl

derive_xpriv-IsChild_example : IsChild sample_hashes small_curve small_hmac root_key 7 child_key
derive_xpriv-IsChild_example =
    derive_xpriv-IsChild sample_hashes small_curve small_hmac 2 root_key child_key 7
      small_curve-IsCurve root_child

derive_xpub-verify_key_example :
    derive_xpub sample_hashes small_curve small_hmac 2
      (verify_key sample_hashes small_curve small_hmac root_key)
      7
    ≡ ok (verify_key sample_hashes small_curve small_hmac child_key)
derive_xpub-verify_key_example =
    derive_xpub-verify_key sample_hashes small_curve small_hmac 2 root_key child_key 7
      small_curve-IsCurve root_child (omega arith)

abbrev child_derived : DerivedXpriv sample_hashes small_curve small_hmac
child_derived = record {
  xpriv = child_key;
  derivation = record root_derived.derivation { path = 7 ∷ [] };
}

root_path :
    derive_path (derive_derived_xpriv sample_hashes small_curve small_hmac 2) root_derived (7 ∷ [])
    ≡ ok child_derived
unfolding derive_path derive_derived_xpriv derivation_extended extended derive_xpriv or_next
    hmac_and_split tweak_xpriv child_info
root_path = refl

normal_path : IsNormalPath 2 (7 ∷ [])
unfolding IsNormalPath
normal_path = (omega arith, tt)

is_public_ancestor_of-derive_path_example :
    is_public_ancestor_of sample_hashes small_curve small_hmac 2
      (derived_verify_key sample_hashes small_curve small_hmac root_derived)
      (derived_verify_key sample_hashes small_curve small_hmac child_derived)
    ≡ ok true
is_public_ancestor_of-derive_path_example =
    is_public_ancestor_of-derive_path sample_hashes small_curve small_hmac 2 root_derived
      child_derived (7 ∷ []) small_curve-IsCurve normal_path root_path

abbrev plain_codec : Base58
plain_codec = record { encode = λ v. v; decode = some }

plain_codec-IsBase58 : IsBase58 plain_codec
unfolding IsBase58
plain_codec-IsBase58 = λ v. refl

root_key_IsInfo : IsInfo root_key.xkey_info
root_key_IsInfo = record {
  depth_fits = omega arith;
  parent_size = refl;
  index_fits = omega arith;
  chain_code_size = refl;
}

priv_versions :
    AreVersions main_xkeys.priv_version main_xkeys.bip49_priv_version main_xkeys.bip84_priv_version
unfolding main_xkeys
priv_versions = record {
  bip32_fits = omega arith;
  bip49_fits = omega arith;
  bip84_fits = omega arith;
  bip49_differs = λ e. omega arith;
  bip84_differs = λ e. omega arith;
  last_differ = λ e. omega arith;
}

pub_versions :
    AreVersions main_xkeys.pub_version main_xkeys.bip49_pub_version main_xkeys.bip84_pub_version
unfolding main_xkeys
pub_versions = record {
  bip32_fits = omega arith;
  bip49_fits = omega arith;
  bip84_fits = omega arith;
  bip49_differs = λ e. omega arith;
  bip84_differs = λ e. omega arith;
  last_differ = λ e. omega arith;
}

xpriv_from_base58-xpriv_to_base58_example :
    xpriv_from_base58 main_xkeys sample_hashes plain_codec small_curve small_hmac
      (xpriv_to_base58 main_xkeys sample_hashes plain_codec small_curve small_hmac root_key)
    ≡ ok root_key
xpriv_from_base58-xpriv_to_base58_example =
    xpriv_from_base58-xpriv_to_base58 main_xkeys sample_hashes plain_codec small_curve small_hmac
      root_key plain_codec-IsBase58 small_curve-IsCurve priv_versions root_key_IsInfo

abbrev root_pub : Xpub sample_hashes small_curve small_hmac
root_pub = record { key = some true; xkey_info = root_key.xkey_info }
