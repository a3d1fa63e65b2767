-- ===== src/Bip39/Mnemonic.antt =====
-- bip39/src/mnemonic.rs: mnemonics as entropy and as phrases. The random bytes, the keyed stretching
-- of the crate `pbkdf2` and the words are parameters.
pub mod Bits
pub mod Chunks
pub mod Phrases
pub mod RoundTrip
use bitcoins_rs.Base.{
  Bool, Bytes, List, Option, Result, [], bytes_eq, drop, err, false, get_elem?, if◌then◌else◌, join,
  leb, length, map, map_err, none, ok, some, split, suc, take, true, unwrap, zero, ℕ, ◌%◌, ◌*◌,
  ◌++◌, ◌+◌, ◌-◌, ◌/◌, ◌==◌, ◌>>=◌, ◌>>◌, ◌^◌, ◌∷◌,
}
use mathlib.Core.List.{flat_map}
use bitcoins_rs.Bip32.Keys.{Curve, Xpriv, custom_root_from_seed, derive_path, derive_xpriv}
use bitcoins_rs.Bip32.Path.{DerivationPath}
use bitcoins_rs.Bip32.Path.Text.{Bip32Error}
use bitcoins_rs.Bip39.Wordlist.{WordlistError, get_index}
use bitcoins_rs.Hashes.{HashFunctions}

pub data MnemonicError : Type 0 where
  invalid_entropy_length : ℕ → MnemonicError
  invalid_phrase : Bytes → MnemonicError
  invalid_word_count : ℕ → MnemonicError
  wordlist_failed : WordlistError → MnemonicError
  bip32_failed : Bip32Error → MnemonicError

-- `Mnemonic` is its entropy.
abbrev pub Mnemonic : Type 0
Mnemonic = Bytes

-- The match on a number of words: the number of bytes.
unfoldable pub entropy_length : ℕ → Result MnemonicError ℕ
entropy_length wc =
    if wc == 12
    then ok 16
    else if wc == 15
    then ok 20
    else if wc == 18
    then ok 24
    else if wc == 21
    then ok 28
    else if wc == 24
    then ok 32
    else err (invalid_word_count wc)

-- `Mnemonic::word_count`
unfoldable pub word_count : Mnemonic → Result MnemonicError ℕ
word_count m =
    let el = length m in
    if el == 16
    then ok 12
    else if el == 20
    then ok 15
    else if el == 24
    then ok 18
    else if el == 28
    then ok 21
    else if el == 32
    then ok 24
    else err (invalid_entropy_length el)

-- `Mnemonic::new_with_count`, with the 32 bytes that the generator gives.
unfoldable pub new_with_count : Bytes → ℕ → Result MnemonicError Mnemonic
new_with_count random count = do size ← entropy_length count; ok (take size random)

-- The bits of a number of `k` bits, the highest one first (`Msb0`).
unfoldable pub msb_bits : ℕ → ℕ → List Bool
msb_bits zero n = []
msb_bits (suc k) n = if leb (2 ^ k) n then true ∷ msb_bits k (n - 2 ^ k) else false ∷ msb_bits k n

abbrev pub byte_bits : Bytes → List Bool
byte_bits v = flat_map (msb_bits 8) v

-- `*bit as u16`
abbrev pub bit : Bool → ℕ
bit true = 1
bit false = 0

-- The sum of a chunk of 11 bits, from the bit `i` on.
unfoldable pub index_from : ℕ → List Bool → ℕ
index_from i [] = 0
index_from i (b ∷ bits) = bit b * 2 ^ (10 - i) + index_from (suc i) bits

-- `chunks`, with fuel for as many chunks as there are elements.
unfoldable pub chunks_from : {A : Type 0} → ℕ → ℕ → List A → List (List A)
chunks_from zero n xs = []
chunks_from (suc fuel) n [] = []
chunks_from (suc fuel) n (x ∷ xs) = take n (x ∷ xs) ∷ chunks_from fuel n (drop n (x ∷ xs))

abbrev pub chunks : {A : Type 0} → ℕ → List A → List (List A)
chunks n xs = chunks_from (length xs) n xs

-- `wordlist[index as usize]` of each chunk.
unfoldable pub phrase_words : List Bytes → List (List Bool) → Result MnemonicError (List Bytes)
phrase_words words [] = ok []
phrase_words words (index ∷ rest) = do
  word ← unwrap (get_elem? words (index_from 0 index))
  behind ← phrase_words words rest
  ok (word ∷ behind)

-- The bits of `index as u16` but the first five.
unfoldable pub index_bits : ℕ → List Bool
index_bits index = drop 5 (msb_bits 8 ((index / 256) % 256) ++ msb_bits 8 (index % 256))

-- The loop over the words of a phrase.
unfoldable pub read_words : List Bytes → List Bytes → Result MnemonicError (List Bool)
read_words words [] = ok []
read_words words (word ∷ rest) = do
  index ← map_err wordlist_failed (get_index words word)
  behind ← read_words words rest
  ok (index_bits index ++ behind)

-- `as_slice()[0..length]`: the bits in bytes, whose sum begins at 2^7, and of which there are enough
-- with 11 bits a word. The last byte may be partial, and is not in the slice then.
unfoldable pub leading_bytes : ℕ → List Bool → Bytes
leading_bytes size bits = take size (map (index_from 3) (chunks 8 bits))

module _ (H : HashFunctions) (words : List Bytes) where
  -- The bits of the entropy and of the checksum.
  unfoldable pub encoding : Mnemonic → ℕ → Result MnemonicError (List Bool)
  encoding m count = do
    first ← unwrap (get_elem? (H.sha256 m) 0)
    let checksum = take (count / 3) (msb_bits 8 first)
    ok (byte_bits m ++ checksum)

  unfoldable pub to_phrase : Mnemonic → Result MnemonicError Bytes
  to_phrase m = do
    count ← word_count m
    bits ← encoding m count
    chosen ← phrase_words words (chunks 11 bits)
    ok (join 32 chosen)

  unfoldable pub new_from_phrase : Bytes → Result MnemonicError Mnemonic
  new_from_phrase phrase = do
    let given = split 32 phrase
    size ← entropy_length (length given)
    bits ← read_words words given
    let mnemonic = leading_bytes size bits
    printed ← to_phrase mnemonic
    if bytes_eq phrase printed then ok mnemonic else err (invalid_phrase phrase)

  -- `to_seed`, with the stretching of the phrase and the salt.
  unfoldable pub to_seed :
      (Bytes → Bytes → Bytes) → Mnemonic → Option Bytes → Result MnemonicError Bytes
  to_seed pbkdf2 m password = do
    phrase ← to_phrase m
    let given = elim password as (λ o. Bytes) [ some p ↦ p | none ↦ [] ]
    ok (pbkdf2 phrase ((109 ∷ 110 ∷ 101 ∷ 109 ∷ 111 ∷ 110 ∷ 105 ∷ 99 ∷ []) ++ given))

  -- `master_key`
  unfoldable pub master_key :
      (C : Curve) (hmac_sha512 pbkdf2 : Bytes → Bytes → Bytes)
      → Mnemonic
      → Option Bytes
      → Result MnemonicError (Xpriv H C hmac_sha512)
  master_key C hmac_sha512 pbkdf2 m password = do
    seed_bytes ← to_seed pbkdf2 m password
    map_err bip32_failed (custom_root_from_seed H C hmac_sha512 seed_bytes none)

  -- `derive_key`, on a path that is parsed already.
  unfoldable pub derive_key :
      (fuel : ℕ) (C : Curve) (hmac_sha512 pbkdf2 : Bytes → Bytes → Bytes)
      → Mnemonic
      → DerivationPath
      → Option Bytes
      → Result MnemonicError (Xpriv H C hmac_sha512)
  derive_key fuel C hmac_sha512 pbkdf2 m path password = do
    root ← master_key C hmac_sha512 pbkdf2 m password
    map_err bip32_failed (derive_path (derive_xpriv H C hmac_sha512 fuel) root path)
