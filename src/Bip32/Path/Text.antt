-- ===== src/Bip32/Path/Text.antt =====
-- The strings of bip32/src/path.rs, of indices and of paths. A string is its UTF-8 bytes.
pub mod RoundTrip
pub mod Paths
use bitcoins_rs.Base.{
  Bool, Bytes, List, Option, Result, [], bytes_eq, err, false, if◌then◌else◌, is_empty, join, leb,
  ltb, map, map_err, none, ok, panic, some, split, suc, zero, ℕ, ◌%◌, ◌&&◌, ◌*◌, ◌++◌, ◌+◌, ◌-◌,
  ◌/◌, ◌==◌, ◌>>=◌, ◌^◌, ◌||◌, ◌∷◌,
}
use bitcoins_rs.Bip32.Path.{DerivationPath, bip32_harden}
use bitcoins_rs.Ser.Stream.{IoError, SerError}

-- The errors of the crates `k256` and `bs58` are without their contents.
pub data Bip32Error : Type 0 where
  backend_error elliptic_curve_error bs58_error : Bip32Error
  io_failed : IoError → Bip32Error
  ser_failed : SerError → Bip32Error
  seed_too_short invalid_key hardened_derivation_failed bad_tweak : Bip32Error
  bad_xpriv_version_bytes bad_xpub_version_bytes : Bytes → Bip32Error
  bad_padding : ℕ → Bip32Error
  bad_b58_checksum : Bip32Error
  malformatted_derivation : Bytes → Bip32Error
  no_recovery_id invalid_bip32_path : Bip32Error

-- `u32::to_string`, with a round of fuel for each digit.
unfoldable pub digits : ℕ → ℕ → Bytes
digits zero n = []
digits (suc fuel) n =
    let front = digits fuel (n / 10) in
    if ltb n 10 then (48 + n) ∷ [] else front ++ ((48 + n % 10) ∷ [])

abbrev pub to_string : ℕ → Bytes
to_string n = digits 10 n

-- `str::parse::<u32>` of digits, from a value on: no other character, and no value above `u32::MAX`.
unfoldable pub parse_digits : ℕ → Bytes → Option ℕ
parse_digits value [] = some value
parse_digits value (c ∷ s) =
    let rest = parse_digits (value * 10 + (c - 48)) s in
    if leb 48 c && leb c 57 && ltb (value * 10 + (c - 48)) (2 ^ 32) then rest else none

-- An empty string is refused, and a `+` in front is not.
unfoldable pub parse_u32 : Bytes → Option ℕ
parse_u32 [] = none
parse_u32 (c ∷ s) =
    if c == 43 then (if is_empty s then none else parse_digits 0 s) else parse_digits 0 (c ∷ s)

-- `encode_index`
unfoldable pub encode_index : ℕ → ℕ → Bytes
encode_index idx harden =
    let s = to_string (idx % bip32_harden) in if leb bip32_harden idx then s ++ (harden ∷ []) else s

-- The last character is `'` or `h`.
unfoldable pub ends_hardened : Bytes → Bool
ends_hardened [] = false
ends_hardened (c ∷ []) = (c == 39) || (c == 104)
ends_hardened (c ∷ d ∷ s) = ends_hardened (d ∷ s)

-- `String::pop`
unfoldable pub pop : Bytes → Bytes
pop [] = []
pop (c ∷ []) = []
pop (c ∷ d ∷ s) = c ∷ pop (d ∷ s)

-- The addition of the hardened flag panics where it overflows, as it does with overflow checks.
unfoldable pub try_parse_index : Bytes → Result Bip32Error ℕ
try_parse_index s =
    let harden = ends_hardened s in
    let index_str = if harden then pop s else s in
    elim (parse_u32 index_str) [
      | none ↦ err (malformatted_derivation s)
      | some v ↦
          if harden
          then (if ltb (v + bip32_harden) (2 ^ 32) then ok (v + bip32_harden) else panic)
          else ok v
    ]

-- The parts of a path that are no `m`, up to the first that is no index.
unfoldable pub parse_parts : List Bytes → Result Bip32Error (List ℕ)
parse_parts [] = ok []
parse_parts (v ∷ parts) =
    let rest = parse_parts parts in
    let parsed = try_parse_index v >>= λ index. rest >>= λ indices. ok (index ∷ indices) in
    if bytes_eq v (109 ∷ []) then rest else parsed

-- `try_parse_path`
unfoldable pub try_parse_path : Bytes → Result Bip32Error (List ℕ)
try_parse_path path = map_err (λ _. malformatted_derivation path) (parse_parts (split 47 path))

-- `DerivationPath::custom_string`
unfoldable pub custom_string : DerivationPath → Bytes → ℕ → ℕ → Bytes
custom_string path root joiner harden = join joiner (root ∷ map (λ s. encode_index s harden) path)

-- `DerivationPath::derivation_string`
unfoldable pub derivation_string : DerivationPath → Bytes
derivation_string path = custom_string path (109 ∷ []) 47 39
