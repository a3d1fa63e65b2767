-- ===== src/Base/Outcome.antt =====
-- What a call of a Rust function that returns `Result<A, E>` does, and the `?` operator.
use mathlib.Core.Path.{◌≡◌, refl, ap}
use mathlib.Core.Bool.{Bool, true, false}
use mathlib.Core.Option.{Option, none, some}

-- `panic` is a call that does not return: an index out of bounds, an overflow, an
-- `unwrap`, or a loop without end.
pub data Result {ℓ κ} (E : Type ℓ) (A : Type κ) : Type (ℓ ⊔ κ) where
  ok : A → Result E A
  err : E → Result E A
  panic : Result E A

infixl 5 ◌>>=◌ ◌>>◌
abbrev pub ◌>>=◌ {ℓ κ μ} :
    {E : Type ℓ} {A : Type κ} {B : Type μ} → Result E A → (A → Result E B) → Result E B
panic >>= k = panic
err e >>= k = err e
ok a >>= k = k a

abbrev pub ◌>>◌ {ℓ κ} : {E : Type ℓ} {B : Type κ} → Result E (Unit {0}) → Result E B → Result E B
m >> k = m >>= λ _. k

-- `map_err`, and the conversion of the error that `?` makes.
abbrev pub map_err {ℓ κ μ} :
    {E : Type ℓ} {F : Type κ} {A : Type μ} → (E → F) → Result E A → Result F A
map_err g (ok a) = ok a
map_err g (err e) = err (g e)
map_err g panic = panic

abbrev pub map_ok {ℓ κ μ} :
    {E : Type ℓ} {A : Type κ} {B : Type μ} → (A → B) → Result E A → Result E B
map_ok g (ok a) = ok (g a)
map_ok g (err e) = err e
map_ok g panic = panic

-- `if test { return Err(e) }`.
abbrev pub fail_if {ℓ} : {E : Type ℓ} → Bool → E → Result E (Unit {0})
fail_if true e = err e
fail_if false e = ok tt

-- `.unwrap()` and indexing: `none` panics.
abbrev pub unwrap {ℓ κ} : {E : Type ℓ} {A : Type κ} → Option A → Result E A
unwrap none = panic
unwrap (some a) = ok a

-- `.ok_or(e)`.
abbrev pub ok_or {ℓ κ} : {E : Type ℓ} {A : Type κ} → E → Option A → Result E A
ok_or e none = err e
ok_or e (some a) = ok a

-- A chain that gave a result had one from its first call.
pub >>=-eq-ok {ℓ κ μ} :
    {E : Type ℓ} {A : Type κ} {B : Type μ} (call : Result E A) (then' : A → Result E B) {out : B}
    → (call >>= then') ≡ ok out
    → (mid : A) × (call ≡ ok mid) × (then' mid ≡ ok out)
>>=-eq-ok panic then' made = cc
>>=-eq-ok (err e) then' made = cc
>>=-eq-ok (ok mid) then' made = (mid, refl, made)

pub try-eq-ok {ℓ κ μ ν} :
    {E : Type ℓ} {F : Type κ} {A : Type μ} {B : Type ν} (g : E → F) (m : Result E A)
    (f : A → Result F B) {b : B}
    → (map_err g m >>= f) ≡ ok b
    → (a : A) × (m ≡ ok a) × (f a ≡ ok b)
try-eq-ok g (ok a) f h = (a, refl, h)
try-eq-ok g (err e) f h = cc
try-eq-ok g panic f h = cc

pub ok-injective {ℓ κ} :
    {E : Type ℓ} {A : Type κ} {a b : A} → ◌≡◌ {A = Result E A} (ok a) (ok b) → a ≡ b
ok-injective h = cc

pub ok-pair_injective {ℓ κ μ} :
    {E : Type ℓ} {A : Type κ} {B : Type μ} {a c : A} {b d : B}
    → ◌≡◌ {A = Result E (A × B)} (ok (a, b)) (ok (c, d))
    → (a ≡ c) × (b ≡ d)
ok-pair_injective h = (ap (λ p. p.0) (ok-injective h), ap (λ p. p.1) (ok-injective h))

pub fail_if-eq-ok {ℓ κ} :
    {E : Type ℓ} {A : Type κ} (b : Bool) (x : E) (m : Result E A) {y : A}
    → (fail_if b x >> m) ≡ ok y
    → (b ≡ false) × (m ≡ ok y)
fail_if-eq-ok true x m h = cc
fail_if-eq-ok false x m h = (refl, h)

pub map_err-eq-ok {ℓ κ μ} :
    {E : Type ℓ} {F : Type κ} {A : Type μ} (g : E → F) (m : Result E A) {a : A}
    → map_err g m ≡ ok a
    → m ≡ ok a
map_err-eq-ok g (ok a) h = cc
map_err-eq-ok g (err e) h = cc
map_err-eq-ok g panic h = cc

pub unwrap-eq-ok {ℓ κ} :
    {E : Type ℓ} {A : Type κ} (o : Option A) {a : A}
    → ◌≡◌ {A = Result E A} (unwrap o) (ok a)
    → o ≡ some a
unwrap-eq-ok none h = cc
unwrap-eq-ok (some a) h = ap some (ok-injective h)

pub some-eq_some {ℓ} : {A : Type ℓ} {a b : A} → ◌≡◌ {A = Option A} (some a) (some b) → a ≡ b
some-eq_some h = cc

pub map_ok-eq-ok {ℓ κ μ} :
    {E : Type ℓ} {A : Type κ} {B : Type μ} (g : A → B) (m : Result E A) {b : B}
    → map_ok g m ≡ ok b
    → (a : A) × (m ≡ ok a) × (g a ≡ b)
map_ok-eq-ok g (ok a) h = (a, refl, ok-injective h)
map_ok-eq-ok g (err e) h = cc
map_ok-eq-ok g panic h = cc
