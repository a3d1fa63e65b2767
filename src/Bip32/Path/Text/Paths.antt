-- ===== src/Bip32/Path/Text/Paths.antt =====
-- Paths and their strings (bip32/src/path.rs).
use bitcoins_rs.Base.{
  All, All-append, Bool-cases, Bytes, HasNo, List, [], arith, bytes_eq, false, inl, inr, join, leb,
  map, ne→==, ok, refl, split, split-join, ℕ, ◌%◌, ◌<◌, ◌==◌, ◌^◌, ◌∷◌, ◌≡◌,
}
use bitcoins_rs.Bip32.Path.{DerivationPath, bip32_harden}
use bitcoins_rs.Bip32.Path.Text.{
  custom_string, derivation_string, encode_index, parse_parts, to_string, try_parse_path,
}
use bitcoins_rs.Bip32.Path.Text.RoundTrip.{
  IsDecimal, digits-IsDecimal, try_parse_index-encode_index,
}

-- A character that is no slash, and before the letter m.
abbrev IsPlain : ℕ → Type 0
IsPlain c = ((c == 47) ≡ false) × (c < 109)

decimals-IsPlain : (s : Bytes) → All IsDecimal s → All IsPlain s
decimals-IsPlain [] h = tt
decimals-IsPlain (c ∷ s) ((low, high), h) =
    ((ne→== c 47 (λ e. absurd (omega arith)), omega arith), decimals-IsPlain s h)

encode_index-IsPlain : (idx : ℕ) → All IsPlain (encode_index idx 39)
unfolding encode_index
encode_index-IsPlain idx =
    let s = to_string (idx % bip32_harden) in
    let plain : All IsPlain s = decimals-IsPlain s (digits-IsDecimal 10 (idx % bip32_harden)) in
    elim (Bool-cases (leb bip32_harden idx)) [
      | inl hard ↦ rw hard (All-append IsPlain s (39 ∷ []) plain ((refl, omega arith), tt))
      | inr normal ↦ rw normal plain
    ]

plain-HasNo : (s : Bytes) → All IsPlain s → HasNo 47 s
plain-HasNo [] h = tt
plain-HasNo (c ∷ s) ((other, low), h) = (other, plain-HasNo s h)

plain_is_no_root : (s : Bytes) → All IsPlain s → bytes_eq s (109 ∷ []) ≡ false
unfolding bytes_eq
plain_is_no_root [] h = refl
plain_is_no_root (c ∷ s) ((other, low), h) =
    let no_m : (c == 109) ≡ false = ne→== c 109 (λ e. absurd (omega arith)) in rw no_m refl

abbrev encode_indices : DerivationPath → List Bytes
encode_indices path = map (λ s. encode_index s 39) path

encode_indices-HasNo : (path : DerivationPath) → All (HasNo 47) (encode_indices path)
encode_indices-HasNo [] = tt
encode_indices-HasNo (idx ∷ path) =
    (plain-HasNo (encode_index idx 39) (encode_index-IsPlain idx), encode_indices-HasNo path)

parse_parts-encode_indices :
    (path : DerivationPath)
    → All (λ idx. idx < 2 ^ 32) path
    → parse_parts (encode_indices path) ≡ ok path
unfolding parse_parts
parse_parts-encode_indices [] h = refl
parse_parts-encode_indices (idx ∷ path) (small, h) =
    let index : bytes_eq (encode_index idx 39) (109 ∷ []) ≡ false =
      plain_is_no_root (encode_index idx 39) (encode_index-IsPlain idx) in
    rw (index, try_parse_index-encode_index idx 39 small refl, parse_parts-encode_indices path h)
      refl

-- A path of indices below 2^32 is read back from its string.
pub try_parse_path-derivation_string :
    (path : DerivationPath)
    → All (λ idx. idx < 2 ^ 32) path
    → try_parse_path (derivation_string path) ≡ ok path
unfolding try_parse_path derivation_string custom_string parse_parts bytes_eq
try_parse_path-derivation_string path h =
    let cut : split 47 (join 47 ((109 ∷ []) ∷ encode_indices path))
        ≡ (109 ∷ []) ∷ encode_indices path =
      split-join 47 ((109 ∷ []) ∷ encode_indices path) (omega arith)
        ((refl, tt), encode_indices-HasNo path) in
    rw (cut, parse_parts-encode_indices path h) refl
