-- ===== src/Ser/Format/Codec.antt =====
-- The laws of an implementation of `ByteFormat` (core/src/ser.rs), and its default methods under
-- them.
use bitcoins_rs.Base.{
  ==_refl, >>=-eq-ok, All, Bytes, IsByte, List, Result, [], ap, append-nil, append_assoc, arith,
  fail_if-eq-ok, length, length-append, ok, ok-injective, ok-pair_injective, refl, suc, sym, zero,
  ℕ, ◌++◌, ◌+◌, ◌<◌, ◌∙◌, ◌∷◌, ◌≡◌, ◌≤◌,
}
use mathlib.Core.Path.{subst}
use bitcoins_rs.Ser.CompactInt.Laws.{compact_int}
use bitcoins_rs.Ser.Format.{ByteFormat, default_read_seq_from, exactly, read_items, write_items}
use bitcoins_rs.Ser.Stream.{SerError}
use bitcoins_rs.Ser.Stream.Laws.{All-right}

-- The items' encodings, one after the other.
unfoldable pub encode_all : {A : Type 0} → (A → Bytes) → List A → Bytes
encode_all encode [] = []
encode_all encode (a ∷ v) = encode a ++ encode_all encode v

-- A length prefix, and the items.
unfoldable pub encode_vec : {A : Type 0} → (A → Bytes) → List A → Bytes
encode_vec encode v = compact_int (length v) ++ encode_all encode v

-- Writing and reading back, of one value and of a sequence.
pub record IsCodec {E A : Type 0} (F : ByteFormat E A) (Valid : A → Type 0) (encode : A → Bytes)
    : Type 0 where
  pub write_bytes : (a : A) (w : Bytes) → (F.write_to a w).1 ≡ w ++ encode a
  pub read_back : (a : A) (r : Bytes) → Valid a → F.read_from (encode a ++ r) ≡ ok (a, r)
  pub read_seq_back :
      (v : List A) (r : Bytes)
      → All Valid v
      → F.read_seq_from (exactly (length v)) (encode_all encode v ++ r) ≡ ok (v, r)

-- Bytes that are read are the encoding of the value read.
pub record IsCanonical {E A : Type 0} (F : ByteFormat E A) (Valid : A → Type 0) (encode : A → Bytes)
    : Type 0 where
  pub read_only :
      (bs r : Bytes) (a : A)
      → All IsByte bs
      → F.read_from bs ≡ ok (a, r)
      → (bs ≡ encode a ++ r) × Valid a
  pub read_seq_only :
      (n : ℕ) (bs r : Bytes) (v : List A)
      → All IsByte bs
      → F.read_seq_from (exactly n) bs ≡ ok (v, r)
      → (bs ≡ encode_all encode v ++ r) × (length v ≡ n) × All Valid v
  pub some_byte : (a : A) → 0 < length (encode a)

-- The count that a write returns, and the length that is computed beforehand.
pub record IsMeasured {E A : Type 0} (F : ByteFormat E A) (encode : A → Bytes) : Type 0 where
  pub write_count : (a : A) (w : Bytes) → (F.write_to a w).0 ≡ length (encode a)
  pub size : (a : A) → F.serialized_length a ≡ length (encode a)

module _ {E A : Type 0} (from_ser : SerError → E) (read : Bytes → Result E (A × Bytes))
    (Valid : A → Type 0) (encode : A → Bytes) where
  pub read_items-encode_all :
      ((a : A) (r : Bytes) → Valid a → read (encode a ++ r) ≡ ok (a, r))
      → (v : List A) (r : Bytes) → All Valid v
      → read_items read (length v) (encode_all encode v ++ r) ≡ ok (v, r)
  unfolding read_items encode_all
  read_items-encode_all back [] r h = refl
  read_items-encode_all back (a ∷ v) r (ha, h) = rw (
    append_assoc (encode a) (encode_all encode v) r,
    back a (encode_all encode v ++ r) ha,
    read_items-encode_all back v r h,
  )

  pub default-encode_all :
      ((a : A) (r : Bytes) → Valid a → read (encode a ++ r) ≡ ok (a, r))
      → (v : List A) (r : Bytes) → All Valid v
      → default_read_seq_from from_ser read (exactly (length v)) (encode_all encode v ++ r)
        ≡ ok (v, r)
  unfolding default_read_seq_from
  default-encode_all back v r h = rw (read_items-encode_all back v r h, ==_refl (length v))

  pub read_items-only :
      ((bs r : Bytes) (a : A)
        → All IsByte bs
        → read bs ≡ ok (a, r)
        → (bs ≡ encode a ++ r) × Valid a)
      → (n : ℕ) (bs r : Bytes) (v : List A) → All IsByte bs
      → read_items read n bs ≡ ok (v, r)
      → (bs ≡ encode_all encode v ++ r) × (length v ≡ n) × All Valid v
  unfolding read_items encode_all
  read_items-only only zero bs r v h e = cons_nil (ok-pair_injective e)
    where
      cons_nil :
          ([] ≡ v) × (bs ≡ r) → (bs ≡ encode_all encode v ++ r) × (length v ≡ zero) × All Valid v
      cons_nil (ev, er) =
          subst (λ z. (bs ≡ encode_all encode z ++ r) × (length z ≡ zero) × All Valid z) ev
            (er, refl, tt)
  read_items-only only (suc n) bs r v h e =
      let ((a, r1), m1, e1) = >>=-eq-ok (read bs) _ e in
      let ((v', r2), m2, e2) = >>=-eq-ok (read_items read n r1) _ e1 in
      let (split, ha) = only bs r1 a h m1 in
      let h1 = All-right IsByte (encode a) r1 (subst (All IsByte) split h) in
      let (split', len, hv) = read_items-only only n r1 r2 v' h1 m2 in
      subst (λ p. (bs ≡ encode_all encode p.0 ++ p.1) × (length p.0 ≡ suc n) × All Valid p.0)
        (ok-injective e2)
        (
          split
              ∙ ap (λ z. encode a ++ z) split'
              ∙ sym (append_assoc (encode a) (encode_all encode v') r2),
          ap suc len,
          (ha, hv),
        )

  pub default-only :
      ((bs r : Bytes) (a : A)
        → All IsByte bs
        → read bs ≡ ok (a, r)
        → (bs ≡ encode a ++ r) × Valid a)
      → (n : ℕ) (bs r : Bytes) (v : List A) → All IsByte bs
      → default_read_seq_from from_ser read (exactly n) bs ≡ ok (v, r)
      → (bs ≡ encode_all encode v ++ r) × (length v ≡ n) × All Valid v
  unfolding default_read_seq_from
  default-only only n bs r v h e =
      let ((v', r'), m, e1) = >>=-eq-ok (read_items read n bs) _ e in
      let (_, e2) = fail_if-eq-ok _ _ _ e1 in
      subst (λ p. (bs ≡ encode_all encode p.0 ++ p.1) × (length p.0 ≡ n) × All Valid p.0)
        (ok-injective e2) (read_items-only only n bs r' v' h m)

module _ {A : Type 0} (encode : A → Bytes) where
  pub write_items_lem :
      (write_item : A → Bytes → ℕ × Bytes)
      → ((a : A) (w : Bytes) → (write_item a w).1 ≡ w ++ encode a)
      → (v : List A) (n : ℕ) (w : Bytes)
      → (write_items write_item v n w).1 ≡ w ++ encode_all encode v
  unfolding write_items encode_all
  write_items_lem write_item h [] n w = sym (append-nil w)
  write_items_lem write_item h (a ∷ v) n w =
      write_items_lem write_item h v (n + (write_item a w).0) (write_item a w).1
      ∙ ap (λ z. z ++ encode_all encode v) (h a w)
      ∙ append_assoc w (encode a) (encode_all encode v)

  pub write_items_count :
      (write_item : A → Bytes → ℕ × Bytes)
      → ((a : A) (w : Bytes) → (write_item a w).0 ≡ length (encode a))
      → (v : List A) (n : ℕ) (w : Bytes)
      → (write_items write_item v n w).0 ≡ n + length (encode_all encode v)
  unfolding write_items encode_all
  write_items_count write_item h [] n w = omega arith
  write_items_count write_item h (a ∷ v) n w = omega (
    arith,
    write_items_count write_item h v (n + (write_item a w).0) (write_item a w).1,
    h a w,
    length-append (encode a) (encode_all encode v),
  )

  pub length-le-encode_all :
      ((a : A) → 0 < length (encode a)) → (v : List A) → length v ≤ length (encode_all encode v)
  unfolding encode_all
  length-le-encode_all h [] = omega arith
  length-le-encode_all h (a ∷ v) =
      omega (arith, h a, length-le-encode_all h v, length-append (encode a) (encode_all encode v))
