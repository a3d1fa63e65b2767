-- ===== src/Bitcoins/Builder/Witnesses.antt =====
-- The witnesses of a transaction that the builder makes (bitcoins/src/builder.rs).
-- One witness for each input: those given, and empty ones where they are too few.
use bitcoins_rs.Base.{
  ==_iff, Bool-cases, List, [], ap, arith, if-false, if-true, if◌then◌else◌, inl, inr, length, refl,
  replicate, resize, suc, take, zero, ℕ, ◌++◌, ◌-◌, ◌==◌, ◌∙◌, ◌∷◌, ◌≡◌,
}
use bitcoins_rs.Bitcoins.TxIn.{TxInput}
use bitcoins_rs.Bitcoins.Witness.{WitnessStack}

abbrev pub one_each : {A : Type 0} → List A → List WitnessStack → List WitnessStack
one_each [] wits = []
one_each (_ ∷ vin) [] = [] ∷ one_each vin []
one_each (_ ∷ vin) (wit ∷ wits) = wit ∷ one_each vin wits

none_given : {A : Type 0} (vin : List A) (k : ℕ) → length vin ≡ k → replicate k [] ≡ one_each vin []
none_given [] zero h = refl
none_given [] (suc k) h = absurd (omega arith)
none_given (i ∷ vin) zero h = absurd (omega arith)
none_given (i ∷ vin) (suc k) h = ap (λ l. [] ∷ l) (none_given vin k (omega arith))

filled_up :
    {A : Type 0} (vin : List A) (wits : List WitnessStack) (n k : ℕ)
    → length vin ≡ n
    → k ≡ n - length wits
    → take n wits ++ replicate k [] ≡ one_each vin wits
filled_up [] wits zero zero h e = refl
filled_up [] wits zero (suc k) h e = absurd (omega arith)
filled_up [] wits (suc n) k h e = absurd (omega arith)
filled_up (i ∷ vin) wits zero k h e = absurd (omega arith)
filled_up (i ∷ vin) [] (suc n) k h e = none_given (i ∷ vin) k (omega arith)
filled_up (i ∷ vin) (wit ∷ wits) (suc n) k h e =
    ap (λ l. wit ∷ l) (filled_up vin wits n k (omega arith) (omega arith))

as_many :
    {A : Type 0} (vin : List A) (wits : List WitnessStack)
    → length wits ≡ length vin
    → wits ≡ one_each vin wits
as_many [] [] h = refl
as_many [] (wit ∷ wits) h = absurd (omega arith)
as_many (i ∷ vin) [] h = absurd (omega arith)
as_many (i ∷ vin) (wit ∷ wits) h = ap (λ l. wit ∷ l) (as_many vin wits (omega arith))

-- The witnesses that the constructor takes or makes.
pub new_witness_one_each :
    (vin : List TxInput) (wits : List WitnessStack)
    → (if length wits == length vin then wits else resize (length vin) [] wits) ≡ one_each vin wits
new_witness_one_each vin wits = elim (Bool-cases (length wits == length vin)) [
  | inl same ↦ if-true _ _ _ same ∙ as_many vin wits ((==_iff (length wits) (length vin)).0 same)
  | inr other ↦
      if-false _ _ _ other ∙ filled_up vin wits (length vin) (length vin - length wits) refl refl
]
