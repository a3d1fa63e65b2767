-- ===== src/Tests/Phrases.antt =====
-- Mnemonics at a list of 2048 words of two bytes.
use bitcoins_rs.Base.{
  All, Bytes, HasNo, IsByte, List, [], ap, arith, bytes_eq, false, join, length, ne→==, ok, refl,
  replicate, split, suc, zero, ℕ, ◌%◌, ◌++◌, ◌+◌, ◌/◌, ◌<◌, ◌↔◌, ◌∷◌, ◌≡◌,
}
use bitcoins_rs.Bip39.Mnemonic.{Mnemonic, new_from_phrase, to_phrase}
use bitcoins_rs.Bip39.Mnemonic.Phrases.{IsDistinct, IsWordlist}
use bitcoins_rs.Bip39.Mnemonic.RoundTrip.{new_from_phrase-to_phrase, new_from_phrase_iff}
use bitcoins_rs.Tests.Samples.{check_bytes→All, sample_hashes}

abbrev number_word : ℕ → Bytes
number_word i = (65 + i / 64) ∷ (65 + i % 64) ∷ []

abbrev numbered : ℕ → ℕ → List Bytes
numbered first zero = []
numbered first (suc n) = number_word first ∷ numbered (suc first) n

length-numbered : (first n : ℕ) → length (numbered first n) ≡ n
length-numbered first zero = refl
length-numbered first (suc n) = ap suc (length-numbered (suc first) n)

numbered-HasNo : (first n : ℕ) → All (HasNo 32) (numbered first n)
numbered-HasNo first zero = tt
numbered-HasNo first (suc n) = (
  (ne→== (65 + first / 64) 32 (omega arith), (ne→== (65 + first % 64) 32 (omega arith), tt)),
  numbered-HasNo (suc first) n,
)

different : (i j : ℕ) → i < j → bytes_eq (number_word i) (number_word j) ≡ false
unfolding bytes_eq
different i j h = ground arith

others_differ :
    (i first n : ℕ) → i < first → All (λ v. bytes_eq (number_word i) v ≡ false) (numbered first n)
others_differ i first zero h = tt
others_differ i first (suc n) h = (different i first h, others_differ i (suc first) n (omega arith))

numbered-IsDistinct : (first n : ℕ) → IsDistinct (numbered first n)
numbered-IsDistinct first zero = tt
numbered-IsDistinct first (suc n) =
    (others_differ first (suc first) n (omega arith), numbered-IsDistinct (suc first) n)

abbrev word_list : List Bytes
word_list = numbered 0 2048

word_list-IsWordlist : IsWordlist word_list
word_list-IsWordlist = (length-numbered 0 2048, numbered-HasNo 0 2048, numbered-IsDistinct 0 2048)

-- Twelve words, each the first one but the last two.
abbrev sample_entropy : Mnemonic
sample_entropy = replicate 13 0 ++ (255 ∷ 1 ∷ 18 ∷ [])

new_from_phrase-to_phrase_example :
    (phrase : Bytes) × (to_phrase sample_hashes word_list sample_entropy ≡ ok phrase)
    × (length (split 32 phrase) ≡ 12)
    × (new_from_phrase sample_hashes word_list phrase ≡ ok sample_entropy)
unfolding bitcoins_rs.Tests.Samples.check_bytes bitcoins_rs.Bip39.Mnemonic.word_count
new_from_phrase-to_phrase_example =
    new_from_phrase-to_phrase sample_hashes word_list sample_entropy 12 word_list-IsWordlist
      (check_bytes→All sample_entropy refl) refl

-- Twelve times the first word.
abbrev sample_phrase : Bytes
sample_phrase = join 32 (replicate 12 (65 ∷ 65 ∷ []))

new_from_phrase_iff_example :
    (new_from_phrase sample_hashes word_list sample_phrase ≡ ok (replicate 16 0)) ↔ (
      (to_phrase sample_hashes word_list (replicate 16 0) ≡ ok sample_phrase)
      × All IsByte (replicate 16 0))
new_from_phrase_iff_example =
    new_from_phrase_iff sample_hashes word_list sample_phrase (replicate 16 0) word_list-IsWordlist
