-- ===== src/Bip32/Path/Laws.antt =====
-- Prefixes, the last hardened index and the bytes of derivation paths (bip32/src/path.rs).
use bitcoins_rs.Base.{
  ==_iff, ==_refl, All, All-reverse, Bool-cases, Bytes, List, Option, [], and-eq_true, ap,
  append-nil, append_assoc, arith, bytes_eq, bytes_eq_refl, bytes_eq→eq, drop, drop-append, false,
  get_elem?, if◌then◌else◌, inl, inr, le_bytes, leb, leb→le, length, length-append, length-le_bytes,
  length-reverse, le→ltb, ltb, none, not, ok, refl, some, some-eq_some, suc, sym, true, ℕ, ◌*◌,
  ◌++◌, ◌+◌, ◌-◌, ◌<◌, ◌==◌, ◌↔◌, ◌∙◌, ◌∷◌, ◌≡◌, ◌≤◌,
}
use mathlib.Core.List.{reverse, reverse-append, reverse-reverse}
use mathlib.Core.Path.{ap₂, subst}
use bitcoins_rs.Bip32.Path.{
  DerivationPath, KeyDerivation, bip32_harden, checked_sub, derivation_length,
  is_possible_ancestor_of, last_hardened, position, same_root, starts_with, without_prefix,
  write_derivation, write_indices,
}
use bitcoins_rs.Ser.Format.Codec.{encode_all}
use bitcoins_rs.Ser.Stream.{write}

starts_with-append : (q r : DerivationPath) → starts_with (q ++ r) q ≡ true
unfolding starts_with
starts_with-append [] r = refl
starts_with-append (x ∷ q) r = rw (==_refl x, starts_with-append q r)

starts_with-eq_true : (p q : DerivationPath) → starts_with p q ≡ true → p ≡ q ++ drop (length q) p
unfolding starts_with
starts_with-eq_true p [] h = refl
starts_with-eq_true [] (y ∷ q) h = cc
starts_with-eq_true (x ∷ p) (y ∷ q) h =
    let (first, rest) = and-eq_true (x == y) (starts_with p q) h in
    ap₂ ◌∷◌ ((==_iff x y).0 first) (starts_with-eq_true p q rest)

-- A path without a prefix is what is appended to the prefix to get the path, and there is one exactly
-- if the path begins with the prefix.
pub without_prefix_lem : (p q r : DerivationPath) → (without_prefix p q ≡ some r) ↔ (p ≡ q ++ r)
unfolding without_prefix
without_prefix_lem p q r = (
  λ h. elim (Bool-cases (starts_with p q)) [
    | inl begins ↦
        let found : ◌≡◌ {A = Option DerivationPath} (some (drop (length q) p)) (some r) =
          sym (ap (λ b. if not b then none else some (drop (length q) p)) begins) ∙ h in
        starts_with-eq_true p q begins ∙ ap (λ z. q ++ z) (some-eq_some found)
    | inr other ↦
        let nothing : ◌≡◌ {A = Option DerivationPath} none (some r) =
          sym (ap (λ b. if not b then none else some (drop (length q) p)) other) ∙ h in
        absurd cc
  ],
  λ e. rw (e, starts_with-append q r, drop-append (length q) q r refl),
)

-- A key is a possible ancestor of another exactly if the roots are the same and the path between
-- them exists.
pub is_possible_ancestor_of_lem :
    (k d : KeyDerivation)
    → (is_possible_ancestor_of k d ≡ true)
      ↔ ((k.root ≡ d.root) × (r : DerivationPath) × (d.path ≡ k.path ++ r))
unfolding is_possible_ancestor_of same_root
is_possible_ancestor_of_lem k d = (
  λ h.
      let (roots, begins) = and-eq_true (bytes_eq k.root d.root) (starts_with d.path k.path) h in
      (
        bytes_eq→eq k.root d.root roots,
        drop (length k.path) d.path,
        starts_with-eq_true d.path k.path begins,
      ),
  λ (same, r, e). rw (same, bytes_eq_refl d.root, e, starts_with-append k.path r),
)

abbrev IsNormal : ℕ → Type 0
IsNormal v = v < bip32_harden

-- The last hardened index of a path, with its place, or that there is none.
pub data IsLastHardened : DerivationPath → ℕ × Option ℕ → Type 0 where
  no_hardened : (p : DerivationPath) → All IsNormal p → IsLastHardened p (0, none)
  one_hardened :
      (front back : DerivationPath) (v : ℕ)
      → bip32_harden ≤ v
      → All IsNormal back
      → IsLastHardened (front ++ (v ∷ back)) (length front, some v)

-- Where the first hardened index of a list is.
data IsPosition : List ℕ → Option ℕ → Type 0 where
  nowhere : (l : List ℕ) → All IsNormal l → IsPosition l none
  at :
      (pre post : List ℕ) (v : ℕ)
      → bip32_harden ≤ v
      → All IsNormal pre
      → IsPosition (pre ++ (v ∷ post)) (some (length pre))

position_lem : (l : List ℕ) → IsPosition l (position l)
unfolding position
position_lem [] = nowhere [] tt
position_lem (v ∷ l) = elim (Bool-cases (leb bip32_harden v)) [
  | inl hard ↦ rw hard (at [] l v (leb→le bip32_harden v hard) tt)
  | inr normal ↦ rw normal (later v (position l) (ground arith) (position_lem l))
]
  where
    later :
        {l : List ℕ} (v : ℕ) (o : Option ℕ)
        → IsNormal v
        → IsPosition l o
        → IsPosition (v ∷ l) (elim o [ none ↦ none | some i ↦ some (suc i) ])
    later v _ h (nowhere l n) = nowhere (v ∷ l) (h, n)
    later v _ h (at pre post x hx n) = at (v ∷ pre) post x hx (h, n)

checked_sub-append : (n m : ℕ) → checked_sub (n + m) m ≡ ok n
checked_sub-append n m =
    let enough : ltb (n + m) m ≡ false = le→ltb (n + m) m (omega arith) in
    let same : n + m - m ≡ n = omega arith in rw (enough, same)

get_elem?-middle :
    (front back : DerivationPath) (v : ℕ) → get_elem? (front ++ (v ∷ back)) (length front) ≡ some v
get_elem?-middle [] back v = refl
get_elem?-middle (x ∷ front) back v = get_elem?-middle front back v

-- The last hardened index of a path that is split there, with `rev_pos` indices behind it.
last_hardened-split :
    (front back : DerivationPath) (v rev_pos : ℕ)
    → rev_pos ≡ length back
    → position (reverse (front ++ (v ∷ back))) ≡ some rev_pos
    → last_hardened (front ++ (v ∷ back)) ≡ ok (length front, some v)
unfolding last_hardened
last_hardened-split front back v rev_pos size h =
    let long : length (front ++ (v ∷ back)) ≡ length front + 1 + length back =
      omega (arith, length-append front (v ∷ back)) in
    rw (
      last_hardened,
      h,
      long,
      size,
      checked_sub-append (length front + 1) (length back),
      checked_sub-append (length front) 1,
      get_elem?-middle front back v,
    )

reverse-middle :
    (pre post : DerivationPath) (v : ℕ)
    → reverse (pre ++ (v ∷ post)) ≡ reverse post ++ (v ∷ reverse pre)
reverse-middle pre post v =
    reverse-append pre (v ∷ post)
    ∙ ap (λ z. z ++ reverse pre) (reverse-append (v ∷ []) post)
    ∙ append_assoc (reverse post) (v ∷ []) (reverse pre)

from_position :
    (l : List ℕ) (o : Option ℕ) (p : DerivationPath)
    → IsPosition l o
    → reverse p ≡ l
    → position (reverse p) ≡ o
    → (r : ℕ × Option ℕ) × (last_hardened p ≡ ok r) × IsLastHardened p r
unfolding last_hardened
from_position _ _ p (nowhere l n) e h =
    let normal =
      subst (All IsNormal) (ap reverse (sym e) ∙ reverse-reverse p) (All-reverse IsNormal l n) in
    ((0, none), rw (last_hardened, h), no_hardened p normal)
from_position _ _ p (at pre post v hard n) e h =
    let front = reverse post in
    let back = reverse pre in
    let split : p ≡ front ++ (v ∷ back) =
      sym (reverse-reverse p) ∙ ap reverse e ∙ reverse-middle pre post v in
    let found : position (reverse (front ++ (v ∷ back))) ≡ some (length pre) =
      ap (λ z. position (reverse z)) (sym split) ∙ h in
    (
      (length front, some v),
      ap last_hardened split
          ∙ last_hardened-split front back v (length pre) (sym (length-reverse pre)) found,
      subst (λ z. IsLastHardened z (length front, some v)) (sym split)
          (one_hardened front back v hard (All-reverse IsNormal pre n)),
    )

-- `last_hardened` returns on every path, with the last index that is hardened and its place in the
-- path, or with place 0 and no index if none is.
pub last_hardened-IsLastHardened :
    (p : DerivationPath) → (r : ℕ × Option ℕ) × (last_hardened p ≡ ok r) × IsLastHardened p r
last_hardened-IsLastHardened p =
    from_position (reverse p) (position (reverse p)) p (position_lem (reverse p)) refl refl

write_indices_lem :
    (path : DerivationPath) (n : ℕ) (w : Bytes)
    → write_indices path n w ≡ (n + 4 * length path, w ++ encode_all (le_bytes 4) path)
unfolding write_indices encode_all write
write_indices_lem [] n w = rw append-nil (ap (λ z. (z, w)) (omega arith))
write_indices_lem (i ∷ path) n w =
    write_indices_lem path (n + length (le_bytes 4 i)) (w ++ le_bytes 4 i)
    ∙ ap₂ (λ a b. (a, b)) (omega (arith, length-le_bytes 4 i))
        (append_assoc w (le_bytes 4 i) (encode_all (le_bytes 4) path))

-- For a fingerprint of four bytes, writing a derivation appends the fingerprint and the indices as
-- little-endian words, and returns the length computed beforehand.
pub write_derivation_lem :
    (k : KeyDerivation) (w : Bytes)
    → length k.root ≡ 4
    → write_derivation k w ≡ (derivation_length k, w ++ (k.root ++ encode_all (le_bytes 4) k.path))
unfolding write_derivation derivation_length write
write_derivation_lem k w h =
    write_indices_lem k.path (length k.root) (w ++ k.root)
    ∙ ap₂ (λ a b. (a, b)) (omega (arith, h))
        (append_assoc w k.root (encode_all (le_bytes 4) k.path))
