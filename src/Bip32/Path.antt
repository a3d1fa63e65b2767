-- ===== src/Bip32/Path.antt =====
-- bip32/src/path.rs: derivation paths, and paths from the fingerprint of a root key.
use bitcoins_rs.Base.{
  Bool, Bytes, List, Option, Result, [], bytes_eq, drop, false, get_elem?, if◌then◌else◌, le_bytes,
  leb, length, ltb, none, not, ok, panic, resize, some, suc, true, unwrap, ℕ, ◌&&◌, ◌*◌, ◌++◌, ◌+◌,
  ◌-◌, ◌==◌, ◌>>=◌, ◌>>◌, ◌∷◌,
}
use mathlib.Core.List.{reverse}
use bitcoins_rs.Ser.Stream.{write}
pub mod Laws
pub mod Text

-- `BIP32_HARDEN`
abbrev pub bip32_harden : ℕ
bip32_harden = 0x8000_0000

-- `DerivationPath`
abbrev pub DerivationPath : Type 0
DerivationPath = List ℕ

-- Subtraction of `usize`, which panics below zero.
abbrev pub checked_sub : ℕ → ℕ → Result (Unit {0}) ℕ
checked_sub a b = if ltb a b then panic else ok (a - b)

unfoldable pub starts_with : DerivationPath → DerivationPath → Bool
starts_with path [] = true
starts_with [] (y ∷ other) = false
starts_with (x ∷ path) (y ∷ other) = (x == y) && starts_with path other

unfoldable pub without_prefix : DerivationPath → DerivationPath → Option DerivationPath
without_prefix path prefix =
    if not (starts_with path prefix) then none else some (drop (length prefix) path)

-- `iter().position(|v| *v >= BIP32_HARDEN)`
unfoldable pub position : List ℕ → Option ℕ
position [] = none
position (v ∷ iter) =
    let rest = position iter in
    if leb bip32_harden v then some 0 else elim rest [ none ↦ none | some i ↦ some (suc i) ]

unfoldable pub last_hardened : DerivationPath → Result (Unit {0}) (ℕ × Option ℕ)
last_hardened path = elim (position (reverse path)) [
  | some rev_pos ↦ do
    behind ← checked_sub (length path) rev_pos
    pos ← checked_sub behind 1
    v ← unwrap (get_elem? path pos)
    ok (pos, some v)
  | none ↦ ok (0, none)
]

unfoldable pub resized : DerivationPath → ℕ → ℕ → DerivationPath
resized path size pad_with = resize size pad_with path

unfoldable pub extended : DerivationPath → ℕ → DerivationPath
extended path idx = path ++ (idx ∷ [])

-- A fingerprint is its four bytes.
pub record KeyDerivation : Type 0 where
  pub root : Bytes
  pub path : DerivationPath

unfoldable pub same_root : KeyDerivation → KeyDerivation → Bool
same_root k other = bytes_eq k.root other.root

unfoldable pub is_possible_ancestor_of : KeyDerivation → KeyDerivation → Bool
is_possible_ancestor_of k other = same_root k other && starts_with other.path k.path

unfoldable pub path_to_descendant : KeyDerivation → KeyDerivation → Option DerivationPath
path_to_descendant k descendant = without_prefix descendant.path k.path

unfoldable pub derivation_resized : KeyDerivation → ℕ → ℕ → KeyDerivation
derivation_resized k size pad_with = record { root = k.root; path = resized k.path size pad_with }

unfoldable pub derivation_extended : KeyDerivation → ℕ → KeyDerivation
derivation_extended k idx = record { root = k.root; path = extended k.path idx }

unfoldable pub derivation_length : KeyDerivation → ℕ
derivation_length k = 4 + 4 * length k.path

-- The loop of `write_to`, with the length so far.
unfoldable pub write_indices : DerivationPath → ℕ → Bytes → ℕ × Bytes
write_indices [] len w = (len, w)
write_indices (i ∷ path) len w =
    let (n, w1) = write (le_bytes 4 i) w in write_indices path (len + n) w1

unfoldable pub write_derivation : KeyDerivation → Bytes → ℕ × Bytes
write_derivation k w = let (len, w1) = write k.root w in write_indices k.path len w1
