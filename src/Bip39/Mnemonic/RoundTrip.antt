-- ===== src/Bip39/Mnemonic/RoundTrip.antt =====
-- Phrases of bip39/src/mnemonic.rs, read and written.
-- The numbers of a mnemonic of `count` words.
use bitcoins_rs.Base.{
  >>=-eq-ok, All, Bool, Bool-cases, Bytes, IsByte, List, ap, arith, bytes_eq, bytes_eq_refl,
  bytes_eq→eq, err, if-false, if-true, inl, inr, join, length, length-append, length-take, ok,
  ok-injective, refl, split, split-join, sym, take, ℕ, ◌*◌, ◌++◌, ◌+◌, ◌/◌, ◌<◌, ◌↔◌, ◌∙◌, ◌≡◌, ◌≤◌,
}
use mathlib.Core.Path.{subst}
use bitcoins_rs.Bip39.Mnemonic.{
  Mnemonic, byte_bits, chunks, chunks_from, encoding, entropy_length, invalid_phrase, leading_bytes,
  msb_bits, new_from_phrase, read_words, to_phrase, word_count,
}
use bitcoins_rs.Bip39.Mnemonic.Bits.{length-msb_bits}
use bitcoins_rs.Bip39.Mnemonic.Chunks.{
  chunks_from-flatten, flatten, into_blocks, leading_bytes-IsByte, leading_bytes-byte_bits,
  length-byte_bits,
}
use bitcoins_rs.Bip39.Mnemonic.Phrases.{IsWordlist, get_elem?-made, read_words-phrase_words}
use bitcoins_rs.Hashes.{HashFunctions}

word_count_sizes :
    (m : Mnemonic) (count : ℕ)
    → word_count m ≡ ok count
    → (entropy_length count ≡ ok (length m))
      × (8 * length m + count / 3 ≡ count * 11)
      × (count / 3 ≤ 8)
      × (0 < count)
unfolding word_count entropy_length
word_count_sizes m count h = ground arith

module _ (H : HashFunctions) (words : List Bytes) where
  accepted :
      (phrase : Bytes) (m : Mnemonic)
      → new_from_phrase H words phrase ≡ ok m
      → (to_phrase H words m ≡ ok phrase) × All IsByte m
  unfolding new_from_phrase
  accepted phrase m h =
      let (size, counted, h1) = >>=-eq-ok (entropy_length (length (split 32 phrase))) _ h in
      let (bits, read, h2) = >>=-eq-ok (read_words words (split 32 phrase)) _ h1 in
      let (printed, written, h3) = >>=-eq-ok (to_phrase H words (leading_bytes size bits)) _ h2 in
      elim (Bool-cases (bytes_eq phrase printed)) [
        | inl same ↦
            let made' : leading_bytes size bits ≡ m =
              ok-injective (sym (if-true (bytes_eq phrase printed) _ _ same) ∙ h3) in
            (
              ap (to_phrase H words) (sym made')
                  ∙ written
                  ∙ ap ok (sym (bytes_eq→eq phrase printed same)),
              subst (All IsByte) made' (leading_bytes-IsByte size bits),
            )
        | inr other ↦
            let failed : err (invalid_phrase phrase) ≡ ok m =
              sym (if-false (bytes_eq phrase printed) _ _ other) ∙ h3 in
            cc
      ]

  -- The bits of a mnemonic, and eleven of them for each word.
  encoding-blocks :
      (m : Mnemonic) (count : ℕ)
      → word_count m ≡ ok count
      → (rest : List Bool) × (encoding H words m count ≡ ok (byte_bits m ++ rest))
        × (length (byte_bits m ++ rest) ≡ count * 11)
  unfolding encoding
  encoding-blocks m count h =
      let (first, hashed) = get_elem?-made (H.sha256 m) 0 (omega (arith, H.sha256_size m)) in
      let (sized, whole, small, positive) = word_count_sizes m count h in
      let checksum = take (count / 3) (msb_bits 8 first) in
      (
        checksum,
        rw hashed refl,
        omega (
          arith,
          whole,
          small,
          length-append (byte_bits m) checksum,
          length-byte_bits m,
          length-take (count / 3) (msb_bits 8 first),
          length-msb_bits 8 first,
        ),
      )

  -- A mnemonic of bytes, of one of the five lengths, has a phrase, and the phrase gives it back.
  pub new_from_phrase-to_phrase :
      (m : Mnemonic) (count : ℕ)
      → IsWordlist words
      → All IsByte m
      → word_count m ≡ ok count
      → (phrase : Bytes) × (to_phrase H words m ≡ ok phrase)
        × (length (split 32 phrase) ≡ count)
        × (new_from_phrase H words phrase ≡ ok m)
  unfolding to_phrase new_from_phrase
  new_from_phrase-to_phrase m count good small h =
      let (sized, whole, low, positive) = word_count_sizes m count h in
      let (rest, encoded, eleven) = encoding-blocks m count h in
      let bits = byte_bits m ++ rest in
      let (cs, flat, blocks, sizes) = into_blocks 11 count bits eleven in
      let (chosen, picked, back, clears, many) = read_words-phrase_words words cs good sizes in
      let cut : chunks 11 bits ≡ cs =
        ap (chunks_from (length bits) 11) (sym flat)
        ∙ chunks_from-flatten (length bits) 10 cs (omega arith) sizes in
      let given : split 32 (join 32 chosen) ≡ chosen = split-join 32 chosen (omega arith) clears in
      let written : to_phrase H words m ≡ ok (join 32 chosen) = rw (h, encoded, cut, picked) refl in
      let counted : length chosen ≡ count = many ∙ blocks in
      let read : leading_bytes (length m) (flatten cs) ≡ m =
        ap (leading_bytes (length m)) flat ∙ leading_bytes-byte_bits m rest small in
      (
        join 32 chosen,
        written,
        ap length given ∙ counted,
        rw (given, counted, sized, back, read, written, bytes_eq_refl (join 32 chosen)) refl,
      )

  -- With 2048 distinct words without spaces, a phrase is accepted for a mnemonic exactly if the
  -- mnemonic consists of bytes and the phrase is the one that it prints.
  pub new_from_phrase_iff :
      (phrase : Bytes) (m : Mnemonic)
      → IsWordlist words
      → (new_from_phrase H words phrase ≡ ok m) ↔ ((to_phrase H words m ≡ ok phrase) × All IsByte m)
  unfolding to_phrase
  new_from_phrase_iff phrase m good = (
    accepted phrase m,
    λ (printed, small).
        let (count, counted, _) = >>=-eq-ok (word_count m) _ printed in
        let (own, written, _, back) = new_from_phrase-to_phrase m count good small counted in
        let same : own ≡ phrase = ok-injective (sym written ∙ printed) in
        ap (new_from_phrase H words) (sym same) ∙ back,
  )
