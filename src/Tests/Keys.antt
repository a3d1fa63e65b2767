-- ===== src/Tests/Keys.antt =====
-- Derivation paths at sample data.
use bitcoins_rs.Base.{[], arith, ok, ◌∷◌, ◌≡◌}
use bitcoins_rs.Bip32.Path.{DerivationPath, KeyDerivation}
use bitcoins_rs.Bip32.Path.Text.{derivation_string, try_parse_path}
use bitcoins_rs.Bip32.Path.Text.Paths.{try_parse_path-derivation_string}

abbrev sample_path : DerivationPath
sample_path = 0x8000_0001 ∷ 0x8000_0002 ∷ 3 ∷ []

abbrev sample_derivation : DerivationPath → KeyDerivation
sample_derivation path = record { root = 1 ∷ 2 ∷ 3 ∷ 4 ∷ []; path = path }

try_parse_path-derivation_string_example :
    try_parse_path (derivation_string (2147483692 ∷ 0 ∷ 32 ∷ [])) ≡ ok (2147483692 ∷ 0 ∷ 32 ∷ [])
try_parse_path-derivation_string_example =
    try_parse_path-derivation_string (2147483692 ∷ 0 ∷ 32 ∷ [])
      (omega arith, (omega arith, (omega arith, tt)))
