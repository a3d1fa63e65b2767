-- ===== src/Base/Strings.antt =====
-- `join` and `split` of strings, with one character between the parts.
use Prim.Native.Nat.{ℕ, ◌<◌}
use mathlib.Core.Path.{◌≡◌, ap, sym, ◌∙◌}
use mathlib.Core.List.{List, [], ◌∷◌, ◌++◌, append-nil, append_assoc}
use mathlib.Core.Bool.{false}
use native.Mathlib.Omega.{arith}
use bitcoins_rs.Base.Tests.{if◌then◌else◌, ◌==◌, if-false, if-true, ==_refl}
use bitcoins_rs.Base.Lists.{length, All}

unfoldable pub join : ℕ → List (List ℕ) → List ℕ
join sep [] = []
join sep (w ∷ []) = w
join sep (w ∷ v ∷ words) = w ++ (sep ∷ join sep (v ∷ words))

unfoldable pub split_from : ℕ → List ℕ → List ℕ → List (List ℕ)
split_from sep word [] = word ∷ []
split_from sep word (c ∷ s) =
    let next = split_from sep [] s in
    let more = split_from sep (word ++ (c ∷ [])) s in if c == sep then word ∷ next else more

abbrev pub split : ℕ → List ℕ → List (List ℕ)
split sep s = split_from sep [] s

-- A part that `split` does not cut.
abbrev pub HasNo : ℕ → List ℕ → Type 0
HasNo sep word = All (λ c. (c == sep) ≡ false) word

split_from_part :
    (sep : ℕ) (read word s : List ℕ)
    → HasNo sep word
    → split_from sep read (word ++ (sep ∷ s)) ≡ (read ++ word) ∷ split_from sep [] s
unfolding split_from
split_from_part sep read [] s h =
    if-true (sep == sep) _ _ (==_refl sep)
    ∙ ap (λ w. w ∷ split_from sep [] s) (sym (append-nil read))
split_from_part sep read (c ∷ word) s (other, h) =
    if-false (c == sep) _ _ other
    ∙ split_from_part sep (read ++ (c ∷ [])) word s h
    ∙ ap (λ w. w ∷ split_from sep [] s) (append_assoc read (c ∷ []) word)

split_from_last :
    (sep : ℕ) (read word : List ℕ) → HasNo sep word → split_from sep read word ≡ (read ++ word) ∷ []
unfolding split_from
split_from_last sep read [] h = ap (λ w. w ∷ []) (sym (append-nil read))
split_from_last sep read (c ∷ word) (other, h) =
    if-false (c == sep) _ _ other
    ∙ split_from_last sep (read ++ (c ∷ [])) word h
    ∙ ap (λ w. w ∷ []) (append_assoc read (c ∷ []) word)

pub split-join :
    (sep : ℕ) (words : List (List ℕ))
    → 0 < length words
    → All (HasNo sep) words
    → split sep (join sep words) ≡ words
unfolding join
split-join sep [] n h = absurd (omega arith)
split-join sep (w ∷ []) n (h, hs) = split_from_last sep [] w h
split-join sep (w ∷ v ∷ words) n (h, hs) =
    split_from_part sep [] w (join sep (v ∷ words)) h
    ∙ ap (λ r. w ∷ r) (split-join sep (v ∷ words) (omega arith) hs)
