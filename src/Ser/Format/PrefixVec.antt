-- ===== src/Ser/Format/PrefixVec.antt =====
-- The length-prefixed vectors of core/src/ser.rs, for items of any lawful format.
use bitcoins_rs.Base.{
  All, Bytes, IsByte, IsU64, List, [], ap, append_assoc, arith, inl, inr, length, length-append, ok,
  sym, try-eq-ok, ℕ, ◌++◌, ◌<◌, ◌∙◌, ◌≡◌, ◌≤◌,
}
use mathlib.Core.Path.{subst}
use bitcoins_rs.Ser.CompactInt.{read_compact_int, write_compact_int}
use bitcoins_rs.Ser.CompactInt.Canonical.{read_compact_int-canonical}
use bitcoins_rs.Ser.CompactInt.Laws.{
  compact_int, compact_int-some_byte, length-compact_int, read_compact_int-compact_int,
  write_compact_int_lem,
}
use bitcoins_rs.Ser.Format.{ByteFormat, exactly, read_prefix_vec, write_prefix_vec}
use bitcoins_rs.Ser.Format.Codec.{
  IsCanonical, IsCodec, IsMeasured, encode_all, encode_vec, length-le-encode_all, write_items_count,
  write_items_lem,
}
use bitcoins_rs.Ser.Stream.Laws.{All-right}

-- A vector whose length a `u64` holds.
abbrev pub IsVec : {A : Type 0} → (A → Type 0) → List A → Type 0
IsVec Valid v = IsU64 (length v) × All Valid v

pub write_prefix_vec_count :
    {E A : Type 0} {F : ByteFormat E A} {encode : A → Bytes}
    → IsMeasured F encode
    → (v : List A) (w : Bytes) → (write_prefix_vec F v w).0 ≡ length (encode_vec encode v)
unfolding write_prefix_vec encode_vec
write_prefix_vec_count {F} {encode} m v w = omega (
  arith,
  write_items_count encode F.write_to m.write_count v 0 (write_compact_int (length v) w).1,
  ap (λ p. p.0) (write_compact_int_lem (length v) w),
  length-compact_int (length v),
  length-append (compact_int (length v)) (encode_all encode v),
)

pub encode_vec-some_byte :
    {A : Type 0} (encode : A → Bytes) (v : List A) → 0 < length (encode_vec encode v)
unfolding encode_vec
encode_vec-some_byte encode v = omega (
  arith,
  length-append (compact_int (length v)) (encode_all encode v),
  compact_int-some_byte (length v),
)

module _ {E A : Type 0} {F : ByteFormat E A} {Valid : A → Type 0} {encode : A → Bytes} where
  pub write_prefix_vec_bytes :
      IsCodec F Valid encode
      → (v : List A) (w : Bytes) → (write_prefix_vec F v w).1 ≡ w ++ encode_vec encode v
  unfolding write_prefix_vec encode_vec
  write_prefix_vec_bytes c v w =
      write_items_lem encode F.write_to c.write_bytes v 0 (write_compact_int (length v) w).1
      ∙ ap (λ z. z ++ encode_all encode v) (ap (λ p. p.1) (write_compact_int_lem (length v) w))
      ∙ append_assoc w (compact_int (length v)) (encode_all encode v)

  -- A vector of valid items of a lawful format, with a length that a `u64` holds, is read back and what
  -- follows it is left.
  pub read_prefix_vec-encode_vec :
      IsCodec F Valid encode
      → (v : List A) (r : Bytes) → IsVec Valid v
      → read_prefix_vec F (encode_vec encode v ++ r) ≡ ok (v, r)
  unfolding read_prefix_vec encode_vec
  read_prefix_vec-encode_vec c v r (fits, h) = rw (
    append_assoc (compact_int (length v)) (encode_all encode v) r,
    read_compact_int-compact_int (length v) (encode_all encode v ++ r) fits,
    c.read_seq_back v r h,
  )

  -- Behind a cut VarInt nothing is left for its items, so the vector is not read.
  cut_reads_nothing :
      IsCanonical F Valid encode
      → (n : ℕ) (r r' : Bytes) (v : List A) → r' ≡ []
      → 0xfd ≤ n
      → F.read_seq_from (exactly n) r' ≡ ok (v, r)
      → ⊥
  cut_reads_nothing c n r r' v none_left big e =
      let (split, len, _) =
        c.read_seq_only n [] r v tt
          (subst (λ z. F.read_seq_from (exactly n) z ≡ ok (v, r)) none_left e) in
      omega (
        arith,
        length-le-encode_all encode c.some_byte v,
        length-append (encode_all encode v) r,
        ap length split,
      )

  pub read_prefix_vec-only :
      IsCanonical F Valid encode
      → (bs r : Bytes) (v : List A) → All IsByte bs
      → read_prefix_vec F bs ≡ ok (v, r)
      → (bs ≡ encode_vec encode v ++ r) × IsVec Valid v
  unfolding read_prefix_vec encode_vec
  read_prefix_vec-only c bs r v h e =
      let ((n, r'), m, e1) = try-eq-ok F.from_ser (read_compact_int bs) _ e in
      let (enc, fits) = read_compact_int-canonical bs r' n h m in
      elim enc [
        | inl split ↦
            let h' = All-right IsByte (compact_int n) r' (subst (All IsByte) split h) in
            let (split', len, hv) = c.read_seq_only n r' r v h' e1 in
            (
              split
                  ∙ ap (λ z. compact_int n ++ z) split'
                  ∙ sym (append_assoc (compact_int n) (encode_all encode v) r)
                  ∙ ap (λ z. (compact_int z ++ encode_all encode v) ++ r) (sym len),
              (subst IsU64 (sym len) fits, hv),
            )
        | inr (none_left, big, _, _, _) ↦ absurd (cut_reads_nothing c n r r' v none_left big e1)
      ]
