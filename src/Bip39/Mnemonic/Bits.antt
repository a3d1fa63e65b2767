-- ===== src/Bip39/Mnemonic/Bits.antt =====
-- Bits of bip39/src/mnemonic.rs.
use bitcoins_rs.Base.{
  Bool, Bool-cases, List, [], ap, arith, drop, false, if-false, if-true, inl, inr, leb, leb→le,
  leb→lt, length, length-append, length-drop, length-take, le→leb, lt→leb, refl, replicate, suc,
  sym, take, take-append-drop, true, zero, ℕ, ◌%◌, ◌*◌, ◌++◌, ◌+◌, ◌-◌, ◌/◌, ◌<◌, ◌^◌, ◌∙◌, ◌∷◌,
  ◌≡◌, ◌≤◌,
}
use mathlib.Core.Path.{subst}
use native.Mathlib.Nat.{add-mul, one-mul, two-pow-succ}
use bitcoins_rs.Bip39.Mnemonic.{bit, index_bits, index_from, msb_bits}

-- The number that bits write, the highest one first.
abbrev pub bits_value : List Bool → ℕ
bits_value [] = 0
bits_value (b ∷ bits) = bit b * 2 ^ length bits + bits_value bits

pub bits_value-lt : (bits : List Bool) → bits_value bits < 2 ^ length bits
bits_value-lt [] = omega arith
bits_value-lt (true ∷ bits) = omega (arith, bits_value-lt bits, two-pow-succ (length bits))
bits_value-lt (false ∷ bits) = omega (arith, bits_value-lt bits, two-pow-succ (length bits))

-- A chunk of no more than eleven bits, from the bit on that leaves room for them.
pub index_from-bits_value :
    (i : ℕ) (bits : List Bool) → i + length bits ≡ 11 → index_from i bits ≡ bits_value bits
unfolding index_from
index_from-bits_value i [] h = refl
index_from-bits_value i (b ∷ bits) h =
    let place : 10 - i ≡ length bits = omega arith in
    rw (place, index_from-bits_value (suc i) bits (omega arith)) refl

-- The bits of the number of some bits are these bits.
pub msb_bits-bits_value :
    (k : ℕ) (bits : List Bool) → length bits ≡ k → msb_bits k (bits_value bits) ≡ bits
unfolding msb_bits
msb_bits-bits_value zero [] h = refl
msb_bits-bits_value zero (b ∷ bits) h = absurd (omega arith)
msb_bits-bits_value (suc k) [] h = absurd (omega arith)
msb_bits-bits_value (suc k) (true ∷ bits) h =
    let same : 2 ^ length bits ≡ 2 ^ k = ap (λ m. 2 ^ m) (omega arith) in
    let high : 2 ^ k ≤ 1 * 2 ^ length bits + bits_value bits = omega (arith, same) in
    let low : 1 * 2 ^ length bits + bits_value bits - 2 ^ k ≡ bits_value bits =
      omega (arith, same) in
    if-true (leb (2 ^ k) (1 * 2 ^ length bits + bits_value bits)) _ _
      (le→leb (2 ^ k) (1 * 2 ^ length bits + bits_value bits) high)
    ∙ ap (λ r. true ∷ r) (ap (msb_bits k) low ∙ msb_bits-bits_value k bits (omega arith))
msb_bits-bits_value (suc k) (false ∷ bits) h =
    let same : 2 ^ length bits ≡ 2 ^ k = ap (λ m. 2 ^ m) (omega arith) in
    let low : 0 * 2 ^ length bits + bits_value bits ≡ bits_value bits = omega arith in
    if-false (leb (2 ^ k) (0 * 2 ^ length bits + bits_value bits)) _ _ (
      lt→leb (2 ^ k) (0 * 2 ^ length bits + bits_value bits)
        (omega (arith, same, bits_value-lt bits)))
    ∙ ap (λ r. false ∷ r) (ap (msb_bits k) low ∙ msb_bits-bits_value k bits (omega arith))

pub length-msb_bits : (k n : ℕ) → length (msb_bits k n) ≡ k
unfolding msb_bits
length-msb_bits zero n = refl
length-msb_bits (suc k) n = elim (Bool-cases (leb (2 ^ k) n)) [
  | inl high ↦ rw high (ap suc (length-msb_bits k (n - 2 ^ k)))
  | inr low ↦ rw low (ap suc (length-msb_bits k n))
]

-- The number of the bits of a number is that number, if it has no more bits.
pub bits_value-msb_bits : (k n : ℕ) → n < 2 ^ k → bits_value (msb_bits k n) ≡ n
unfolding msb_bits
bits_value-msb_bits zero n h = omega arith
bits_value-msb_bits (suc k) n h =
    let double : 2 ^ suc k ≡ 2 ^ k + 2 ^ k = two-pow-succ k in
    elim (Bool-cases (leb (2 ^ k) n)) [
      | inl high ↦
          let size : 2 ^ length (msb_bits k (n - 2 ^ k)) ≡ 2 ^ k =
            ap (λ m. 2 ^ m) (length-msb_bits k (n - 2 ^ k)) in
          rw high (
            omega (
              arith,
              size,
              leb→le (2 ^ k) n high,
              bits_value-msb_bits k (n - 2 ^ k) (omega (arith, double)),
            ))
      | inr low ↦ rw low (omega (arith, bits_value-msb_bits k n (leb→lt (2 ^ k) n low)))
    ]

two_pow-add : (m n : ℕ) → 2 ^ (m + n) ≡ 2 ^ m * 2 ^ n
two_pow-add zero n = ap (λ k. 2 ^ k) (omega arith) ∙ sym (one-mul (2 ^ n))
two_pow-add (suc m) n =
    let sum : suc m + n ≡ suc (m + n) = omega arith in
    ap (λ k. 2 ^ k) sum
    ∙ two-pow-succ (m + n)
    ∙ ap (λ k. k + k) (two_pow-add m n)
    ∙ sym (add-mul (2 ^ m) (2 ^ m) (2 ^ n))
    ∙ ap (λ p. p * 2 ^ n) (sym (two-pow-succ m))

bits_value-append :
    (xs ys : List Bool) → bits_value (xs ++ ys) ≡ bits_value xs * 2 ^ length ys + bits_value ys
bits_value-append [] ys = omega arith
bits_value-append (true ∷ xs) ys =
    let split : (1 * 2 ^ length xs + bits_value xs) * 2 ^ length ys
        ≡ 1 * 2 ^ length xs * 2 ^ length ys + bits_value xs * 2 ^ length ys =
      add-mul (1 * 2 ^ length xs) (bits_value xs) (2 ^ length ys) in
    let head : 1 * 2 ^ length xs * 2 ^ length ys ≡ 2 ^ length xs * 2 ^ length ys =
      ap (λ m. m * 2 ^ length ys) (one-mul (2 ^ length xs)) in
    let size : 2 ^ length (xs ++ ys) ≡ 2 ^ length xs * 2 ^ length ys =
      ap (λ m. 2 ^ m) (length-append xs ys) ∙ two_pow-add (length xs) (length ys) in
    omega (arith, split, head, size, bits_value-append xs ys)
bits_value-append (false ∷ xs) ys = omega (arith, bits_value-append xs ys)

-- The bits of a word are those of its index, where the index is that of eleven bits.
pub index_bits-bits_value :
    (bits : List Bool) → length bits ≡ 11 → index_bits (bits_value bits) ≡ bits
unfolding index_bits
index_bits-bits_value bits h =
    let high = take 3 bits in
    let low = drop 3 bits in
    let high_size : length high ≡ 3 = omega (arith, length-take 3 bits) in
    let low_size : length low ≡ 8 = omega (arith, length-drop 3 bits) in
    let whole : bits_value bits ≡ bits_value high * 2 ^ length low + bits_value low =
      ap bits_value (sym (take-append-drop 3 bits)) ∙ bits_value-append high low in
    let two_bytes : bits_value bits ≡ bits_value high * 256 + bits_value low =
      whole ∙ ap (λ m. bits_value high * 2 ^ m + bits_value low) low_size in
    let high_small : bits_value high < 8 =
      subst (λ m. bits_value high < 2 ^ m) high_size (bits_value-lt high) in
    let low_small : bits_value low < 256 =
      subst (λ m. bits_value low < 2 ^ m) low_size (bits_value-lt low) in
    let first : (bits_value bits / 256) % 256 ≡ bits_value high = omega arith in
    let second : bits_value bits % 256 ≡ bits_value low = omega arith in
    let padded : List Bool = replicate 5 false ++ high in
    let small : bits_value high ≡ bits_value padded = omega arith in
    let pad : msb_bits 8 (bits_value high) ≡ padded =
      ap (msb_bits 8) small ∙ msb_bits-bits_value 8 padded (omega arith) in
    rw (first, second, msb_bits-bits_value 8 low low_size, pad) (take-append-drop 3 bits)
