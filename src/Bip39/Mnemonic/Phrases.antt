-- ===== src/Bip39/Mnemonic/Phrases.antt =====
-- Words of a phrase, in bip39/src/mnemonic.rs and bip39/src/wordlist/mod.rs.
use bitcoins_rs.Base.{
  All, Bool, Bytes, HasNo, List, [], ap, arith, bytes_eq, bytes_eq_refl, false, get_elem?, if-true,
  length, ok, refl, some, some-eq_some, suc, true, zero, ℕ, ◌<◌, ◌^◌, ◌∷◌, ◌≡◌,
}
use mathlib.Core.Path.{subst}
use bitcoins_rs.Bip32.Path.{position}
use bitcoins_rs.Bip39.Mnemonic.{index_from, phrase_words, read_words}
use bitcoins_rs.Bip39.Mnemonic.Bits.{
  bits_value, bits_value-lt, index_bits-bits_value, index_from-bits_value,
}
use bitcoins_rs.Bip39.Mnemonic.Chunks.{flatten}
use bitcoins_rs.Bip39.Wordlist.{get_index, word_position}

abbrev pub IsDistinct : List Bytes → Type 0
IsDistinct [] = Unit
IsDistinct (w ∷ words) = All (λ v. bytes_eq w v ≡ false) words × IsDistinct words

-- A list of 2048 words, as every language has it.
abbrev pub IsWordlist : List Bytes → Type 0
IsWordlist words = (length words ≡ 2048) × All (HasNo 32) words × IsDistinct words

All-get_elem? :
    {A : Type 0} (P : A → Type 0) (v : List A) (i : ℕ) {a : A}
    → All P v
    → get_elem? v i ≡ some a
    → P a
All-get_elem? P [] i k h = cc
All-get_elem? P (x ∷ v) zero (p, k) h = subst P (some-eq_some h) p
All-get_elem? P (x ∷ v) (suc i) (p, k) h = All-get_elem? P v i k h

-- A word of distinct ones is found where it stands.
word_position-get_elem? :
    (words : List Bytes) (i : ℕ) {w : Bytes}
    → IsDistinct words
    → get_elem? words i ≡ some w
    → word_position w words ≡ some i
unfolding word_position
word_position-get_elem? [] i d h = cc
word_position-get_elem? (v ∷ words) zero {w} d h =
    let same : v ≡ w = some-eq_some h in
    let found : bytes_eq v w ≡ true = subst (λ u. bytes_eq v u ≡ true) same (bytes_eq_refl v) in
    if-true (bytes_eq v w) _ _ found
word_position-get_elem? (v ∷ words) (suc i) {w} (others, d) h =
    let other : bytes_eq v w ≡ false = All-get_elem? (λ u. bytes_eq v u ≡ false) words i others h in
    rw (other, word_position-get_elem? words i d h) refl

pub get_elem?-made :
    {A : Type 0} (v : List A) (i : ℕ) → i < length v → (a : A) × (get_elem? v i ≡ some a)
get_elem?-made [] i h = absurd (omega arith)
get_elem?-made (x ∷ v) zero h = (x, refl)
get_elem?-made (x ∷ v) (suc i) h = get_elem?-made v i (omega arith)

-- Each of the 2048 numbers has its word.
word_of :
    (words : List Bytes) (i : ℕ)
    → IsWordlist words
    → i < 2048
    → (w : Bytes) × (get_elem? words i ≡ some w) × (get_index words w ≡ ok i) × HasNo 32 w
unfolding get_index
word_of words i (size, spaces, distinct) h =
    let (w, found) = get_elem?-made words i (omega arith) in
    (
      w,
      found,
      rw (word_position-get_elem? words i distinct found) refl,
      All-get_elem? (HasNo 32) words i spaces found,
    )

-- The words of eleven bits each are read back as these bits.
pub read_words-phrase_words :
    (words : List Bytes) (cs : List (List Bool))
    → IsWordlist words
    → All (λ c. length c ≡ 11) cs
    → (chosen : List Bytes) × (phrase_words words cs ≡ ok chosen)
      × (read_words words chosen ≡ ok (flatten cs))
      × All (HasNo 32) chosen
      × (length chosen ≡ length cs)
unfolding phrase_words read_words
read_words-phrase_words words [] good h = ([], refl, refl, tt, refl)
read_words-phrase_words words (c ∷ cs) good (size, sizes) =
    let number : index_from 0 c ≡ bits_value c = index_from-bits_value 0 c (omega arith) in
    let small : bits_value c < 2048 = subst (λ m. bits_value c < 2 ^ m) size (bits_value-lt c) in
    let (w, found, position, clear) = word_of words (bits_value c) good small in
    let (chosen, picked, back, clears, count) = read_words-phrase_words words cs good sizes in
    (
      w ∷ chosen,
      rw (number, found, picked) refl,
      rw (position, back, index_bits-bits_value c size) refl,
      (clear, clears),
      ap suc count,
    )
