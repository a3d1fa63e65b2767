-- ===== src/Ser/Format/UntilEnd.antt =====
-- The default `read_seq_from` of core/src/ser.rs to the end of the reader.
use bitcoins_rs.Base.{
  Bytes, List, Result, [], arith, err, inl, inr, length, ok, panic, refl, suc, zero, ℕ, ◌<◌, ◌∷◌,
  ◌≡◌, ◌≢◌, ◌⊎◌,
}
use bitcoins_rs.Ser.Format.{default_read_seq_from, read_until_end, until_end}
use bitcoins_rs.Ser.Stream.{SerError}

module _ {E A : Type 0} (read : Bytes → Result E (A × Bytes)) where
  -- A reader of items that returns on every input, and takes at least a byte where it succeeds.
  pub record IsConsuming : Type 0 where
    pub returns : (bs : Bytes) → read bs ≢ panic
    pub takes : (bs r : Bytes) (a : A) → read bs ≡ ok (a, r) → length r < length bs

  item_cases :
      (bs : Bytes)
      → IsConsuming
      → ((a : A) × (r : Bytes) × (read bs ≡ ok (a, r)) × (length r < length bs))
        ⊎ ((e : E) × (read bs ≡ err e))
  item_cases bs c = cases (read bs) refl
    where
      cases :
          (m : Result E (A × Bytes))
          → read bs ≡ m
          → ((a : A) × (r : Bytes) × (read bs ≡ ok (a, r)) × (length r < length bs))
            ⊎ ((e : E) × (read bs ≡ err e))
      cases (ok (a, r)) h = inl (a, r, h, c.takes bs r a h)
      cases (err e) h = inr (e, h)
      cases panic h = absurd (c.returns bs h)

  read_until_end-returns :
      (fuel : ℕ) (bs : Bytes)
      → IsConsuming
      → length bs < fuel
      → (v : List A) × (r : Bytes) × (read_until_end read fuel bs ≡ ok (v, r))
  unfolding read_until_end
  read_until_end-returns zero bs c h = absurd (omega arith)
  read_until_end-returns (suc fuel) bs c h = elim (item_cases bs c) [
    | inl (a, r, found, shorter) ↦
        let (v, r', rest) = read_until_end-returns fuel r c (omega arith) in
        (a ∷ v, r', rw (read_until_end, found, rest))
    | inr (e, stopped) ↦ ([], bs, rw (read_until_end, stopped))
  ]

  -- Reading to the end returns on every input, for a reader of items that returns and takes at least
  -- a byte for each: the rounds are bounded by the bytes there are.
  pub read_seq_until_end_returns :
      (from_ser : SerError → E) (bs : Bytes)
      → IsConsuming
      → (v : List A) × (r : Bytes) × (default_read_seq_from from_ser read until_end bs ≡ ok (v, r))
  unfolding default_read_seq_from
  read_seq_until_end_returns from_ser bs c =
      read_until_end-returns (suc (length bs)) bs c (omega arith)
