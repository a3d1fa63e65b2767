-- ===== src/Bip32/Path/Text/RoundTrip.antt =====
-- Indices and their strings (bip32/src/path.rs).
use bitcoins_rs.Base.{
  All, All-append, Bool-cases, Bytes, Option, [], ap, arith, false, if-false, if-true, inl, inr,
  leb, leb→le, length, length-append, ltb, ltb→lt, lt→ltb, ne→==, none, ok, refl, some,
  some-eq_some, suc, sym, true, zero, ℕ, ◌%◌, ◌&&◌, ◌*◌, ◌++◌, ◌+◌, ◌-◌, ◌/◌, ◌<◌, ◌==◌, ◌^◌, ◌||◌,
  ◌∙◌, ◌∷◌, ◌≡◌, ◌≤◌,
}
use bitcoins_rs.Bip32.Path.{bip32_harden}
use bitcoins_rs.Bip32.Path.Text.{
  digits, encode_index, ends_hardened, parse_digits, parse_u32, pop, to_string, try_parse_index,
}

parse_digits-append :
    (xs ys : Bytes) (a b : ℕ)
    → parse_digits a xs ≡ some b
    → parse_digits a (xs ++ ys) ≡ parse_digits b ys
unfolding parse_digits
parse_digits-append [] ys a b h = ap (λ z. parse_digits z ys) (some-eq_some h)
parse_digits-append (c ∷ xs) ys a b h =
    elim (Bool-cases (leb 48 c && leb c 57 && ltb (a * 10 + (c - 48)) (2 ^ 32))) [
      | inl good ↦
          rw good
            (parse_digits-append xs ys (a * 10 + (c - 48)) b (sym (if-true _ _ none good) ∙ h))
      | inr bad ↦
          let nothing : ◌≡◌ {A = Option ℕ} none (some b) =
            sym (if-false _ (parse_digits (a * 10 + (c - 48)) xs) none bad) ∙ h in
          absurd cc
    ]

one_digit :
    (a d : ℕ) → d < 10 → a * 10 + d < 2 ^ 32 → parse_digits a ((48 + d) ∷ []) ≡ some (a * 10 + d)
unfolding parse_digits
one_digit a d h k = ground arith

parse_digits-digits :
    (fuel n : ℕ) → n < 2 ^ 32 → n < 10 ^ fuel → parse_digits 0 (digits fuel n) ≡ some n
unfolding digits parse_digits
parse_digits-digits zero n h k = ap some (omega arith)
parse_digits-digits (suc fuel) n h k = elim (Bool-cases (ltb n 10)) [
  | inl small ↦
      let same : 0 * 10 + n ≡ n = omega arith in
      rw small (one_digit 0 n (ltb→lt n 10 small) (omega (arith, h)) ∙ ap some same)
  | inr more ↦
      let front : n / 10 < 10 ^ fuel = omega arith in
      let back : n / 10 * 10 + n % 10 ≡ n = omega arith in
      let last = one_digit (n / 10) (n % 10) (omega arith) (omega arith) in
      rw more (
        parse_digits-append (digits fuel (n / 10)) ((48 + n % 10) ∷ []) 0 (n / 10)
          (parse_digits-digits fuel (n / 10) (omega arith) front)
        ∙ last
        ∙ ap some back)
]

abbrev pub IsDecimal : ℕ → Type 0
IsDecimal c = (48 ≤ c) × (c ≤ 57)

pub digits-IsDecimal : (fuel n : ℕ) → All IsDecimal (digits fuel n)
unfolding digits
digits-IsDecimal zero n = tt
digits-IsDecimal (suc fuel) n = elim (Bool-cases (ltb n 10)) [
  | inl small ↦ rw small ((omega arith, omega (arith, ltb→lt n 10 small)), tt)
  | inr more ↦ rw more (
      All-append IsDecimal (digits fuel (n / 10)) ((48 + n % 10) ∷ [])
        (digits-IsDecimal fuel (n / 10)) ((omega arith, omega arith), tt))
]

digits_some : (fuel n : ℕ) → 0 < length (digits (suc fuel) n)
unfolding digits
digits_some fuel n = elim (Bool-cases (ltb n 10)) [
  | inl small ↦ rw small (omega arith)
  | inr more ↦ rw more (omega (arith, length-append (digits fuel (n / 10)) ((48 + n % 10) ∷ [])))
]

parse_u32-parse_digits :
    (s : Bytes) → All IsDecimal s → 0 < length s → parse_u32 s ≡ parse_digits 0 s
unfolding parse_u32
parse_u32-parse_digits [] h l = absurd (omega arith)
parse_u32-parse_digits (c ∷ s) ((low, _), h) l =
    let no_sign : (c == 43) ≡ false = ne→== c 43 (λ e. absurd (omega arith)) in rw no_sign

ends_hardened_plain : (s : Bytes) → All IsDecimal s → ends_hardened s ≡ false
unfolding ends_hardened
ends_hardened_plain [] h = refl
ends_hardened_plain (c ∷ []) ((low, high), h) =
    let no_quote : (c == 39) ≡ false = ne→== c 39 (λ e. absurd (omega arith)) in
    let no_h : (c == 104) ≡ false = ne→== c 104 (λ e. absurd (omega arith)) in rw (no_quote, no_h)
ends_hardened_plain (c ∷ d ∷ s) (_, h) = ends_hardened_plain (d ∷ s) h

ends_hardened-append :
    (s : Bytes) (c : ℕ) → ((c == 39) || (c == 104)) ≡ true → ends_hardened (s ++ (c ∷ [])) ≡ true
unfolding ends_hardened
ends_hardened-append [] c h = h
ends_hardened-append (x ∷ []) c h = h
ends_hardened-append (x ∷ y ∷ s) c h = ends_hardened-append (y ∷ s) c h

pop-append : (s : Bytes) (c : ℕ) → pop (s ++ (c ∷ [])) ≡ s
unfolding pop
pop-append [] c = refl
pop-append (x ∷ []) c = refl
pop-append (x ∷ y ∷ s) c = ap (λ z. x ∷ z) (pop-append (y ∷ s) c)

parse_u32-to_string : (n : ℕ) → n < 2 ^ 32 → parse_u32 (to_string n) ≡ some n
parse_u32-to_string n h =
    parse_u32-parse_digits (to_string n) (digits-IsDecimal 10 n) (digits_some 9 n)
    ∙ parse_digits-digits 10 n h (omega arith)

hardened_index :
    (s : Bytes) (n : ℕ)
    → ends_hardened s ≡ true
    → parse_u32 (pop s) ≡ some n
    → n + bip32_harden < 2 ^ 32
    → try_parse_index s ≡ ok (n + bip32_harden)
unfolding try_parse_index
hardened_index s n e p h = rw (try_parse_index, e, p, e, lt→ltb (n + bip32_harden) (2 ^ 32) h)

plain_index :
    (s : Bytes) (n : ℕ) → ends_hardened s ≡ false → parse_u32 s ≡ some n → try_parse_index s ≡ ok n
unfolding try_parse_index
plain_index s n e p = rw (try_parse_index, e, p, e)

-- An index below 2^32 is read back from its string, for either sign of a hardened one.
pub try_parse_index-encode_index :
    (idx harden : ℕ)
    → idx < 2 ^ 32
    → ((harden == 39) || (harden == 104)) ≡ true
    → try_parse_index (encode_index idx harden) ≡ ok idx
unfolding encode_index
try_parse_index-encode_index idx harden h sign =
    let n = idx % bip32_harden in
    let printed = parse_u32-to_string n (omega arith) in
    elim (Bool-cases (leb bip32_harden idx)) [
      | inl hard ↦
          let whole : n + bip32_harden ≡ idx = omega (arith, leb→le bip32_harden idx hard) in
          let marked : encode_index idx harden ≡ to_string n ++ (harden ∷ []) = rw hard in
          ap try_parse_index marked
          ∙ hardened_index (to_string n ++ (harden ∷ [])) n
              (ends_hardened-append (to_string n) harden sign)
              (ap parse_u32 (pop-append (to_string n) harden) ∙ printed) (omega (arith, whole, h))
          ∙ ap ok whole
      | inr normal ↦
          let whole : n ≡ idx = ground arith in
          let bare : encode_index idx harden ≡ to_string n = rw normal in
          ap try_parse_index bare
          ∙ plain_index (to_string n) n (ends_hardened_plain (to_string n) (digits-IsDecimal 10 n))
              printed
          ∙ ap ok whole
    ]
