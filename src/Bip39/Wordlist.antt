-- ===== src/Bip39/Wordlist.antt =====
-- bip39/src/wordlist/mod.rs: a list of words, which is the lines of the file. A string is its bytes.
use bitcoins_rs.Base.{
  Bytes, List, Option, Result, [], bytes_eq, err, get_elem?, if◌then◌else◌, leb, none, ok_or, some,
  suc, unwrap, ℕ, ◌∷◌,
}

pub data WordlistError : Type 0 where
  invalid_index : ℕ → WordlistError
  invalid_word : Bytes → WordlistError

-- `iter().position(|element| element == &word)`
unfoldable pub word_position : Bytes → List Bytes → Option ℕ
word_position word [] = none
word_position word (element ∷ words) =
    let rest = word_position word words in
    if bytes_eq element word then some 0 else elim rest [ none ↦ none | some i ↦ some (suc i) ]

-- `Wordlist::get`
unfoldable pub get : List Bytes → ℕ → Result WordlistError Bytes
get words index =
    if leb 2048 index then err (invalid_index index) else unwrap (get_elem? words index)

-- `Wordlist::get_index`
unfoldable pub get_index : List Bytes → Bytes → Result WordlistError ℕ
get_index words word = ok_or (invalid_word word) (word_position word words)
