-- ===== src/Ser/Stream/Laws.antt =====
-- What the reads and writes of core/src/ser.rs do to a stream in memory.
use bitcoins_rs.Base.{
  All, Bytes, IsByte, IsU32, IsU64, [], ap, append_assoc, arith, drop, drop-append, from_le_bytes,
  from_le_bytes-le_bytes, from_le_bytes-lt, le_bytes, le_bytes-from_le_bytes, length, length-append,
  length-le_bytes, length-take, le→leb, ok, ok-pair_injective, refl, sym, take, take-append,
  take-append-drop, try-eq-ok, width, ℕ, ◌++◌, ◌<◌, ◌∙◌, ◌∷◌, ◌≡◌, ◌≤◌,
}
use mathlib.Core.Path.{subst}
use bitcoins_rs.Ser.Stream.{
  io_error, read_exact, read_u32_le, read_u64_le, write, write_u32_le, write_u64_le,
}

pub read_exact-append : (k : ℕ) (xs r : Bytes) → length xs ≡ k → read_exact k (xs ++ r) ≡ ok (xs, r)
unfolding read_exact
read_exact-append k xs r h =
    let fits : k ≤ length (xs ++ r) = omega (arith, length-append xs r) in
    rw (le→leb _ _ fits, take-append k xs r h, drop-append k xs r h)

-- What `read_exact` returned, with the rest, is the input.
pub read_exact-eq-ok :
    (k : ℕ) (bs : Bytes) {xs r : Bytes}
    → read_exact k bs ≡ ok (xs, r)
    → (bs ≡ xs ++ r) × (length xs ≡ k) × (xs ≡ take k bs) × (r ≡ drop k bs)
unfolding read_exact
read_exact-eq-ok k bs h = ground (arith, take-append-drop k bs, length-take k bs)

pub write_lem : (buf w : Bytes) → write buf w ≡ (length buf, w ++ buf)
unfolding write
write_lem buf w = refl

pub read_u32_le-append : (n : ℕ) (r : Bytes) → IsU32 n → read_u32_le (le_bytes 4 n ++ r) ≡ ok (n, r)
unfolding read_u32_le
read_u32_le-append n r h =
    rw (read_exact-append 4 (le_bytes 4 n) r (length-le_bytes 4 n), from_le_bytes-le_bytes 4 n h)

pub read_u64_le-append : (n : ℕ) (r : Bytes) → IsU64 n → read_u64_le (le_bytes 8 n ++ r) ≡ ok (n, r)
unfolding read_u64_le
read_u64_le-append n r h =
    rw (read_exact-append 8 (le_bytes 8 n) r (length-le_bytes 8 n), from_le_bytes-le_bytes 8 n h)

pub write_u32_le_lem : (n : ℕ) (w : Bytes) → write_u32_le n w ≡ (4, w ++ le_bytes 4 n)
unfolding write_u32_le write
write_u32_le_lem n w = rw (length-le_bytes 4 n)

pub write_u64_le_lem : (n : ℕ) (w : Bytes) → write_u64_le n w ≡ (8, w ++ le_bytes 8 n)
unfolding write_u64_le write
write_u64_le_lem n w = rw (length-le_bytes 8 n)

pub All-left {ℓ} : (P : ℕ → Type ℓ) (xs ys : Bytes) → All P (xs ++ ys) → All P xs
All-left P [] ys h = tt
All-left P (x ∷ xs) ys (p, h) = (p, All-left P xs ys h)

pub All-right {ℓ} : (P : ℕ → Type ℓ) (xs ys : Bytes) → All P (xs ++ ys) → All P ys
All-right P [] ys h = h
All-right P (x ∷ xs) ys (p, h) = All-right P xs ys h

-- A word that was read is in range, and the input was its encoding and the rest.
word-eq-ok :
    (k : ℕ) (bs xs r : Bytes) (n : ℕ)
    → All IsByte bs
    → bs ≡ xs ++ r
    → length xs ≡ k
    → from_le_bytes xs ≡ n
    → (bs ≡ le_bytes k n ++ r) × (n < width k)
word-eq-ok k bs xs r n h e l m =
    let bytes : All IsByte xs = All-left IsByte xs r (subst (All IsByte) e h) in
    (
      e ∙ ap (λ z. z ++ r) (sym (le_bytes-from_le_bytes k xs l bytes) ∙ ap (le_bytes k) m),
      subst (λ z. z < width k) m (from_le_bytes-lt k xs l bytes),
    )

pub read_u32_le-eq-ok :
    (bs : Bytes) {n : ℕ} {r : Bytes}
    → All IsByte bs
    → read_u32_le bs ≡ ok (n, r)
    → (bs ≡ le_bytes 4 n ++ r) × IsU32 n
unfolding read_u32_le
read_u32_le-eq-ok bs {n} {r} h e =
    let ((xs, r'), m, k) = try-eq-ok io_error (read_exact 4 bs) _ e in
    let (en, er) = ok-pair_injective k in
    let (split, len, _, _) = read_exact-eq-ok 4 bs m in
    word-eq-ok 4 bs xs r n h (split ∙ ap (λ z. xs ++ z) er) len en

pub read_u64_le-eq-ok :
    (bs : Bytes) {n : ℕ} {r : Bytes}
    → All IsByte bs
    → read_u64_le bs ≡ ok (n, r)
    → (bs ≡ le_bytes 8 n ++ r) × IsU64 n
unfolding read_u64_le
read_u64_le-eq-ok bs {n} {r} h e =
    let ((xs, r'), m, k) = try-eq-ok io_error (read_exact 8 bs) _ e in
    let (en, er) = ok-pair_injective k in
    let (split, len, _, _) = read_exact-eq-ok 8 bs m in
    word-eq-ok 8 bs xs r n h (split ∙ ap (λ z. xs ++ z) er) len en

-- What is behind a part of the input that was read is bytes too.
pub rest-IsByte : (bs xs r : Bytes) → All IsByte bs → bs ≡ xs ++ r → All IsByte r
rest-IsByte bs xs r h e = All-right IsByte xs r (subst (All IsByte) e h)

-- Two parts read one after the other are one.
pub split_then : (bs xs ys r r' : Bytes) → bs ≡ xs ++ r → r ≡ ys ++ r' → bs ≡ (xs ++ ys) ++ r'
split_then bs xs ys r r' e e' = e ∙ ap (λ z. xs ++ z) e' ∙ sym (append_assoc xs ys r')

pub write_u32_le_bytes : (n : ℕ) (w : Bytes) → (write_u32_le n w).1 ≡ w ++ le_bytes 4 n
write_u32_le_bytes n w = ap (λ p. p.1) (write_u32_le_lem n w)

pub write_u64_le_bytes : (n : ℕ) (w : Bytes) → (write_u64_le n w).1 ≡ w ++ le_bytes 8 n
write_u64_le_bytes n w = ap (λ p. p.1) (write_u64_le_lem n w)
