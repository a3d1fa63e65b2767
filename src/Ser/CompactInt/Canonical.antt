-- ===== src/Ser/CompactInt/Canonical.antt =====
-- The inputs that core/src/ser.rs accepts as a VarInt.
use bitcoins_rs.Base.{
  ==_iff, All, All-append, All-take, Bool-cases, Bytes, IsByte, IsU64, Result, [], ap, append-nil,
  arith, drop, drop_all, fail_if, false, from_le_bytes, from_le_bytes-append_zeros,
  from_le_bytes-lt, inl, inr, le_bytes, le_bytes-from_le_bytes, leb, leb→le, length, length-append,
  length-replicate, length-take, le→leb, ltb, lt→ltb, ok, refl, replicate, suc, sym, take,
  take-append-drop, take_all, width, width-le, zero, ℕ, ◌++◌, ◌-◌, ◌<◌, ◌==◌, ◌>>◌, ◌∙◌, ◌∷◌, ◌≡◌,
  ◌≤◌, ◌⊎◌,
}
use mathlib.Core.Path.{subst}
use bitcoins_rs.Ser.CompactInt.{
  fill_buf, prefix_byte_len, prefix_len_from_first_byte, read_body, read_compact_int,
}
use bitcoins_rs.Ser.CompactInt.Laws.{compact_int}
use bitcoins_rs.Ser.Stream.{SerError, non_minimal_var_int, read_byte}

-- A prefix byte that announces a body of `k` bytes, and what the check of minimality leaves.
record IsFlag (p k : ℕ) : Type 0 where
  flag : prefix_len_from_first_byte p ≡ suc k
  some_body : 1 ≤ k
  one_word : k ≤ 8
  format :
      (n : ℕ)
      → n < width k
      → ltb (prefix_byte_len n) (suc k) ≡ false
      → (compact_int n ≡ p ∷ le_bytes k n) × (0xfd ≤ n)

two_bytes-IsFlag : IsFlag 0xfd 2
unfolding prefix_len_from_first_byte prefix_byte_len compact_int
two_bytes-IsFlag = record {
  flag = refl;
  some_body = omega arith;
  one_word = omega arith;
  format = λ n h e. (ground arith, ground arith);
}

four_bytes-IsFlag : IsFlag 0xfe 4
unfolding prefix_len_from_first_byte prefix_byte_len compact_int
four_bytes-IsFlag = record {
  flag = refl;
  some_body = omega arith;
  one_word = omega arith;
  format = λ n h e. (ground arith, ground arith);
}

eight_bytes-IsFlag : IsFlag 0xff 8
unfolding prefix_len_from_first_byte prefix_byte_len compact_int
eight_bytes-IsFlag = record {
  flag = refl;
  some_body = omega arith;
  one_word = omega arith;
  format = λ n h e. (ground arith, ground arith);
}

first_byte_cases :
    (p : ℕ) → IsByte p → ((p ≤ 0xfc) × (prefix_len_from_first_byte p ≡ 1)) ⊎ ((k : ℕ) × IsFlag p k)
unfolding prefix_len_from_first_byte
first_byte_cases p h = elim (Bool-cases (leb p 0xfc)) [
  | inl short ↦ inl (ground arith, rw short)
  | inr wide ↦ elim (Bool-cases (p == 0xfd)) [
    | inl two ↦ inr (2, subst (λ z. IsFlag z 2) (sym ((==_iff p 0xfd).0 two)) two_bytes-IsFlag)
    | inr more ↦ elim (Bool-cases (p == 0xfe)) [
      | inl four ↦ inr (4, subst (λ z. IsFlag z 4) (sym ((==_iff p 0xfe).0 four)) four_bytes-IsFlag)
      | inr last ↦
          let all : 0xff ≡ p = ground arith in
          inr (8, subst (λ z. IsFlag z 8) all eight_bytes-IsFlag)
    ]
  ]
]

replicate-IsByte : (m : ℕ) → All IsByte (replicate m 0)
replicate-IsByte zero = tt
replicate-IsByte (suc m) = (omega arith, replicate-IsByte m)

-- The bytes read, and the zeros of the buffer behind them up to the body's length.
body_bytes :
    (k : ℕ) (t : Bytes)
    → k ≤ 8
    → All IsByte t
    → (le_bytes k (from_le_bytes (fill_buf (take k t))) ≡ take k t ++ replicate (k - length t) 0)
      × (from_le_bytes (fill_buf (take k t)) < width k)
body_bytes k t h8 h = (
  rw value (le_bytes-from_le_bytes k padded size bytes),
  rw value (from_le_bytes-lt k padded size bytes),
)
  where
    padded : Bytes
    padded = take k t ++ replicate (k - length t) 0

    size : length padded ≡ k
    size = omega (
      arith,
      length-append (take k t) (replicate (k - length t) 0),
      length-take k t,
      length-replicate {A = ℕ} (k - length t) 0,
    )

    bytes : All IsByte padded
    bytes = All-append IsByte (take k t) _ (All-take IsByte k t h) (replicate-IsByte (k - length t))

    value : from_le_bytes (fill_buf (take k t)) ≡ from_le_bytes padded
    value = from_le_bytes-append_zeros (take k t) _ ∙ sym (from_le_bytes-append_zeros (take k t) _)

-- What a number read from `bs`, with `r` left over, has to do with `bs`.
abbrev pub IsEncodedBy : ℕ → Bytes → Bytes → Type 0
IsEncodedBy n r bs =
    (bs ≡ compact_int n ++ r)
    ⊎ ((r ≡ []) × (0xfd ≤ n) × (m : ℕ) × (0 < m) × (compact_int n ≡ bs ++ replicate m 0))

long_canonical :
    (p k n : ℕ) (t r : Bytes)
    → IsFlag p k
    → All IsByte t
    → n ≡ from_le_bytes (fill_buf (take k t))
    → r ≡ drop k t
    → ltb (prefix_byte_len n) (suc k) ≡ false
    → IsEncodedBy n r (p ∷ t) × IsU64 n
long_canonical p k n t r f h en er big = (
  elim (Bool-cases (leb k (length t))) [
    | inl whole ↦ inl (all (leb→le _ _ whole))
    | inr cut ↦ inr (missing (ground arith))
  ],
  omega (arith, fits, width-le k 8 f.one_word),
)
  where
    fits : n < width k
    fits = subst (λ z. z < width k) (sym en) (body_bytes k t f.one_word h).1

    body : le_bytes k n ≡ take k t ++ replicate (k - length t) 0
    body =
        subst (λ z. le_bytes k z ≡ take k t ++ replicate (k - length t) 0) (sym en)
          (body_bytes k t f.one_word h).0

    format : compact_int n ≡ p ∷ le_bytes k n
    format = (f.format n fits big).0

    all : k ≤ length t → p ∷ t ≡ compact_int n ++ r
    all l =
        let none_missing : k - length t ≡ 0 = omega arith in
        let body' : le_bytes k n ≡ take k t = body ∙ rw (none_missing, append-nil) in
        rw (format, body', er, take-append-drop k t)

    missing :
        length t < k
        → (r ≡ []) × (0xfd ≤ n) × (m : ℕ) × (0 < m) × (compact_int n ≡ (p ∷ t) ++ replicate m 0)
    missing l = (
      er ∙ drop_all k t (omega arith),
      (f.format n fits big).1,
      k - length t,
      omega arith,
      format
          ∙ ap (λ z. p ∷ z)
              (body ∙ ap (λ z. z ++ replicate (k - length t) 0) (take_all k t (omega arith))),
    )

-- The two tests of `read_compact_int` behind the prefix byte.
tail_read : ℕ → ℕ → Bytes → Result SerError (ℕ × Bytes)
tail_read p len t = do
  let (number, r') = read_body p len t
  fail_if (ltb (prefix_byte_len number) len) non_minimal_var_int
  ok (number, r')

tail_read-eq-ok :
    (p len n : ℕ) (t r : Bytes)
    → tail_read p len t ≡ ok (n, r)
    → ((read_body p len t).0 ≡ n)
      × ((read_body p len t).1 ≡ r)
      × (ltb (prefix_byte_len n) len ≡ false)
unfolding tail_read
tail_read-eq-ok p len n t r e = ground arith

read_body_long :
    (p k : ℕ) (t : Bytes)
    → 1 ≤ k
    → read_body p (suc k) t ≡ (from_le_bytes (fill_buf (take k t)), drop k t)
unfolding read_body
read_body_long p k t h =
    let body : suc k - 1 ≡ k = omega arith in rw (lt→ltb 1 (suc k) (omega arith), body)

long_read :
    (p k n : ℕ) (t r : Bytes)
    → IsFlag p k
    → All IsByte t
    → tail_read p (suc k) t ≡ ok (n, r)
    → IsEncodedBy n r (p ∷ t) × IsU64 n
long_read p k n t r f h e =
    let (en, er, big) = tail_read-eq-ok p (suc k) n t r e in
    let body = read_body_long p k t f.some_body in
    long_canonical p k n t r f h (sym en ∙ ap (λ z. z.0) body) (sym er ∙ ap (λ z. z.1) body) big

short_read :
    (p n : ℕ) (t r : Bytes)
    → p ≤ 0xfc
    → tail_read p 1 t ≡ ok (n, r)
    → IsEncodedBy n r (p ∷ t) × IsU64 n
unfolding read_body compact_int
short_read p n t r h e =
    let (en, er, _) = tail_read-eq-ok p 1 n t r e in
    (inl (rw (← en, ← er, le→leb p 0xfc h)), omega arith)

-- A number that was read is a `u64`; the input is its encoding with the rest, or stops inside that
-- encoding where only zeros are missing, and then nothing is left.
pub read_compact_int-canonical :
    (bs r : Bytes) (n : ℕ)
    → All IsByte bs
    → read_compact_int bs ≡ ok (n, r)
    → IsEncodedBy n r bs × IsU64 n
unfolding read_compact_int read_byte tail_read
read_compact_int-canonical [] r n h e = cc
read_compact_int-canonical (p ∷ t) r n (hp, h) e = elim (first_byte_cases p hp) [
  | inl (short, len) ↦ short_read p n t r short (rw (← len) e)
  | inr (k, f) ↦ long_read p k n t r f h (rw (← f.flag) e)
]
