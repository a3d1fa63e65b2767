-- ===== src/Base/Words.antt =====
-- Bytes and machine words: a `u8` is a number below 256, a byte slice or vector a list of them.
use Prim.Native.Nat.{ℕ, zero, suc, ◌+◌, ◌*◌, ◌/◌, ◌%◌, ◌^◌, ◌≤◌, ◌<◌}
use mathlib.Core.Path.{◌≡◌, refl, ap}
use mathlib.Core.List.{List, [], ◌∷◌, ◌++◌}
use mathlib.Core.Bool.{Bool, true, false, ◌&&◌}
use native.Mathlib.Omega.{arith}
use bitcoins_rs.Base.Tests.{◌==◌, ==_refl}
use bitcoins_rs.Base.Lists.{length, All, replicate}

abbrev pub Bytes : Type 0
Bytes = List ℕ

abbrev pub IsByte : ℕ → Type 0
IsByte b = b < 256

abbrev pub IsU16 : ℕ → Type 0
IsU16 n = n < 2 ^ 16

abbrev pub IsU32 : ℕ → Type 0
IsU32 n = n < 2 ^ 32

abbrev pub IsU64 : ℕ → Type 0
IsU64 n = n < 2 ^ 64

-- `to_le_bytes` and `from_le_bytes` of an unsigned word of `k` bytes.
unfoldable pub le_bytes : ℕ → ℕ → Bytes
le_bytes zero n = []
le_bytes (suc k) n = (n % 256) ∷ le_bytes k (n / 256)

unfoldable pub from_le_bytes : Bytes → ℕ
from_le_bytes [] = 0
from_le_bytes (b ∷ bs) = b + 256 * from_le_bytes bs

pub length-le_bytes : (k n : ℕ) → length (le_bytes k n) ≡ k
unfolding le_bytes
length-le_bytes zero n = refl
length-le_bytes (suc k) n = ap suc (length-le_bytes k (n / 256))

pub le_bytes-IsByte : (k n : ℕ) → All IsByte (le_bytes k n)
unfolding le_bytes
le_bytes-IsByte zero n = tt
le_bytes-IsByte (suc k) n = (omega arith, le_bytes-IsByte k (n / 256))

-- The words that `k` bytes hold are the numbers below this bound.
abbrev pub width : ℕ → ℕ
width zero = 1
width (suc k) = 256 * width k

pub from_le_bytes-le_bytes : (k n : ℕ) → n < width k → from_le_bytes (le_bytes k n) ≡ n
unfolding le_bytes from_le_bytes
from_le_bytes-le_bytes zero n h = omega arith
from_le_bytes-le_bytes (suc k) n h = omega (arith, from_le_bytes-le_bytes k (n / 256) (omega arith))

pub le_bytes-from_le_bytes :
    (k : ℕ) (bs : Bytes) → length bs ≡ k → All IsByte bs → le_bytes k (from_le_bytes bs) ≡ bs
unfolding le_bytes from_le_bytes
le_bytes-from_le_bytes zero [] e h = refl
le_bytes-from_le_bytes zero (b ∷ bs) e h = absurd (omega arith)
le_bytes-from_le_bytes (suc k) [] e h = absurd (omega arith)
le_bytes-from_le_bytes (suc k) (b ∷ bs) e (hb, h) =
    let low : (b + 256 * from_le_bytes bs) % 256 ≡ b = omega arith in
    let high : (b + 256 * from_le_bytes bs) / 256 ≡ from_le_bytes bs = omega arith in
    rw (low, high, le_bytes-from_le_bytes k bs (omega arith) h)

pub from_le_bytes-lt :
    (k : ℕ) (bs : Bytes) → length bs ≡ k → All IsByte bs → from_le_bytes bs < width k
unfolding from_le_bytes
from_le_bytes-lt zero [] e h = omega arith
from_le_bytes-lt zero (b ∷ bs) e h = absurd (omega arith)
from_le_bytes-lt (suc k) [] e h = absurd (omega arith)
from_le_bytes-lt (suc k) (b ∷ bs) e (hb, h) = omega (arith, from_le_bytes-lt k bs (omega arith) h)

-- Zeros at the end of a little-endian word do not count.
pub from_le_bytes-append_zeros :
    (xs : Bytes) (m : ℕ) → from_le_bytes (xs ++ replicate m 0) ≡ from_le_bytes xs
unfolding from_le_bytes
from_le_bytes-append_zeros [] zero = refl
from_le_bytes-append_zeros [] (suc m) = omega (arith, from_le_bytes-append_zeros [] m)
from_le_bytes-append_zeros (x ∷ xs) m = omega (arith, from_le_bytes-append_zeros xs m)

pub width-le : (k m : ℕ) → k ≤ m → width k ≤ width m
width-le zero zero h = omega arith
width-le zero (suc m) h = omega (arith, width-le zero m (omega arith))
width-le (suc k) zero h = absurd (omega arith)
width-le (suc k) (suc m) h = omega (arith, width-le k m (omega arith))

-- `==` on byte slices.
unfoldable pub bytes_eq : Bytes → Bytes → Bool
bytes_eq [] [] = true
bytes_eq [] (y ∷ ys) = false
bytes_eq (x ∷ xs) [] = false
bytes_eq (x ∷ xs) (y ∷ ys) = (x == y) && bytes_eq xs ys

pub bytes_eq→eq : (xs ys : Bytes) → bytes_eq xs ys ≡ true → xs ≡ ys
unfolding bytes_eq
bytes_eq→eq [] [] h = refl
bytes_eq→eq [] (y ∷ ys) h = cc
bytes_eq→eq (x ∷ xs) [] h = cc
bytes_eq→eq (x ∷ xs) (y ∷ ys) h = ground (arith, bytes_eq→eq xs ys)

pub bytes_eq_refl : (xs : Bytes) → bytes_eq xs xs ≡ true
unfolding bytes_eq
bytes_eq_refl [] = refl
bytes_eq_refl (x ∷ xs) = rw (==_refl x, bytes_eq_refl xs)
