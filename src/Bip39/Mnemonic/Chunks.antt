-- ===== src/Bip39/Mnemonic/Chunks.antt =====
-- Chunks of bits, in bip39/src/mnemonic.rs.
use bitcoins_rs.Base.{
  All, All-take, Bool, Bytes, IsByte, List, [], ap, append_assoc, arith, drop, drop-append, false,
  length, length-append, length-drop, length-take, map, refl, suc, take, take-append,
  take-append-drop, true, zero, ℕ, ◌*◌, ◌++◌, ◌+◌, ◌-◌, ◌<◌, ◌^◌, ◌∙◌, ◌∷◌, ◌≡◌, ◌≤◌,
}
use mathlib.Core.Path.{ap₂}
use native.Mathlib.Nat.{suc-mul, two-pow-succ, zero-mul}
use bitcoins_rs.Bip39.Mnemonic.{
  bit, byte_bits, chunks, chunks_from, index_from, leading_bytes, msb_bits,
}
use bitcoins_rs.Bip39.Mnemonic.Bits.{bits_value-msb_bits, index_from-bits_value, length-msb_bits}

abbrev pub flatten : {A : Type 0} → List (List A) → List A
flatten [] = []
flatten (v ∷ vs) = v ++ flatten vs

-- A chunk is taken off the front.
pub chunks_from-front :
    {A : Type 0} (fuel n : ℕ) (c rest : List A)
    → length c ≡ suc n
    → chunks_from (suc fuel) (suc n) (c ++ rest) ≡ c ∷ chunks_from fuel (suc n) rest
unfolding chunks_from
chunks_from-front fuel n [] rest h = absurd (omega arith)
chunks_from-front fuel n (x ∷ c) rest h =
    ap₂ (λ d r. d ∷ chunks_from fuel (suc n) r) (take-append (suc n) (x ∷ c) rest h)
      (drop-append (suc n) (x ∷ c) rest h)

pub chunks_from-flatten :
    {A : Type 0} (fuel n : ℕ) (cs : List (List A))
    → length cs ≤ fuel
    → All (λ c. length c ≡ suc n) cs
    → chunks_from fuel (suc n) (flatten cs) ≡ cs
unfolding chunks_from
chunks_from-flatten zero n [] h k = refl
chunks_from-flatten (suc fuel) n [] h k = refl
chunks_from-flatten zero n (c ∷ cs) h k = absurd (omega arith)
chunks_from-flatten (suc fuel) n (c ∷ cs) h (size, sizes) =
    chunks_from-front fuel n c (flatten cs) size
    ∙ ap (λ r. c ∷ r) (chunks_from-flatten fuel n cs (omega arith) sizes)

-- Bits of a multiple of the size are such chunks.
pub into_blocks :
    {A : Type 0} (n k : ℕ) (v : List A)
    → length v ≡ k * n
    → (cs : List (List A)) × (flatten cs ≡ v) × (length cs ≡ k) × All (λ c. length c ≡ n) cs
into_blocks n zero [] h = ([], refl, refl, tt)
into_blocks n zero (x ∷ v) h = absurd (omega (arith, zero-mul n))
into_blocks n (suc k) v h =
    let whole : suc k * n ≡ k * n + n = suc-mul k n in
    let behind : length (drop n v) ≡ k * n = omega (arith, whole, length-drop n v) in
    let front : length (take n v) ≡ n = omega (arith, whole, length-take n v) in
    let (cs, same, count, sizes) = into_blocks n k (drop n v) behind in
    (
      take n v ∷ cs,
      ap (λ r. take n v ++ r) same ∙ take-append-drop n v,
      ap suc count,
      (front, sizes),
    )

pub length-byte_bits : (v : Bytes) → length (byte_bits v) ≡ 8 * length v
unfolding mathlib.Core.List.flat_map
length-byte_bits [] = refl
length-byte_bits (x ∷ v) =
    omega
      (arith, length-append (msb_bits 8 x) (byte_bits v), length-msb_bits 8 x, length-byte_bits v)

byte_bits-cons :
    (x : ℕ) (v : Bytes) (rest : List Bool)
    → byte_bits (x ∷ v) ++ rest ≡ msb_bits 8 x ++ (byte_bits v ++ rest)
unfolding mathlib.Core.List.flat_map
byte_bits-cons x v rest = append_assoc (msb_bits 8 x) (byte_bits v) rest

-- The bytes that the leading bits are of.
leading :
    (fuel : ℕ) (v : Bytes) (rest : List Bool)
    → length v ≤ fuel
    → All IsByte v
    → take (length v) (map (index_from 3) (chunks_from fuel 8 (byte_bits v ++ rest))) ≡ v
leading fuel [] rest h k = refl
leading zero (x ∷ v) rest h k = absurd (omega arith)
leading (suc fuel) (x ∷ v) rest h (small, k) =
    let front : chunks_from (suc fuel) 8 (byte_bits (x ∷ v) ++ rest)
        ≡ msb_bits 8 x ∷ chunks_from fuel 8 (byte_bits v ++ rest) =
      ap (chunks_from (suc fuel) 8) (byte_bits-cons x v rest)
      ∙ chunks_from-front fuel 7 (msb_bits 8 x) (byte_bits v ++ rest) (length-msb_bits 8 x) in
    let first : index_from 3 (msb_bits 8 x) ≡ x =
      index_from-bits_value 3 (msb_bits 8 x) (omega (arith, length-msb_bits 8 x))
      ∙ bits_value-msb_bits 8 x small in
    ap (λ cs. take (suc (length v)) (map (index_from 3) cs)) front
    ∙ ap₂ ◌∷◌ first (leading fuel v rest (omega arith) k)

pub leading_bytes-byte_bits :
    (v : Bytes) (rest : List Bool)
    → All IsByte v
    → leading_bytes (length v) (byte_bits v ++ rest) ≡ v
unfolding leading_bytes
leading_bytes-byte_bits v rest k =
    leading (length (byte_bits v ++ rest)) v rest
      (omega (arith, length-append (byte_bits v) rest, length-byte_bits v)) k

-- Some bits from a place on are below what the place before it stands for.
index_from-lt :
    (k i : ℕ) (bits : List Bool) → i + k ≡ 11 → length bits ≤ k → index_from i bits < 2 ^ k
unfolding index_from
index_from-lt k i [] e h = pos k
  where
    pos : (k : ℕ) → 0 < 2 ^ k
    pos zero = omega arith
    pos (suc k) = omega (arith, two-pow-succ k, pos k)
index_from-lt zero i (b ∷ bits) e h = absurd (omega arith)
index_from-lt (suc k) i (b ∷ bits) e h =
    let rest = index_from-lt k (suc i) bits (omega arith) (omega arith) in
    let place : 10 - i ≡ k = omega arith in rw place (place_below b rest)
  where
    place_below : (b : Bool) {n : ℕ} → n < 2 ^ k → bit b * 2 ^ k + n < 2 ^ suc k
    place_below true h = omega (arith, two-pow-succ k)
    place_below false h = omega (arith, two-pow-succ k)

chunks_from-length :
    {A : Type 0} (fuel n : ℕ) (v : List A) → All (λ c. length c ≤ n) (chunks_from fuel n v)
unfolding chunks_from
chunks_from-length zero n v = tt
chunks_from-length (suc fuel) n [] = tt
chunks_from-length (suc fuel) n (x ∷ v) =
    (omega (arith, length-take n (x ∷ v)), chunks_from-length fuel n (drop n (x ∷ v)))

All-map_index :
    (cs : List (List Bool)) → All (λ c. length c ≤ 8) cs → All IsByte (map (index_from 3) cs)
All-map_index [] h = tt
All-map_index (c ∷ cs) (size, h) = (index_from-lt 8 3 c refl size, All-map_index cs h)

-- Leading bytes of any bits are bytes.
pub leading_bytes-IsByte : (size : ℕ) (bits : List Bool) → All IsByte (leading_bytes size bits)
unfolding leading_bytes
leading_bytes-IsByte size bits =
    All-take IsByte size (map (index_from 3) (chunks 8 bits))
      (All-map_index (chunks 8 bits) (chunks_from-length (length bits) 8 bits))
