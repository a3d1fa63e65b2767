-- ===== src/Ser/Format/U8.antt =====
-- The format of `u8` in core/src/ser.rs, whose sequences are read in one piece.
use bitcoins_rs.Base.{
  All, Bytes, IsByte, [], ap, arith, length, map_err-eq-ok, ok, ok-injective, refl, sym, ℕ, ◌++◌,
  ◌∙◌, ◌∷◌, ◌≡◌,
}
use mathlib.Core.Path.{subst}
use bitcoins_rs.Ser.Format.{exactly, read_u8, u8_format, u8_read_seq_from}
use bitcoins_rs.Ser.Format.Codec.{IsCanonical, IsCodec, IsMeasured, encode_all}
use bitcoins_rs.Ser.Stream.{io_error, read_byte, read_exact, write}
use bitcoins_rs.Ser.Stream.Laws.{All-left, read_exact-append, read_exact-eq-ok}

abbrev pub encode_u8 : ℕ → Bytes
encode_u8 b = b ∷ []

pub encode_all-u8 : (v : Bytes) → encode_all encode_u8 v ≡ v
unfolding encode_all
encode_all-u8 [] = refl
encode_all-u8 (b ∷ v) = ap (λ z. b ∷ z) (encode_all-u8 v)

pub u8_format-IsCodec : IsCodec u8_format IsByte encode_u8
unfolding write read_u8 read_byte u8_read_seq_from
u8_format-IsCodec = record {
  write_bytes = λ b w. refl;
  read_back = λ b r h. refl;
  read_seq_back = λ v r h. rw (encode_all-u8 v, read_exact-append (length v) v r refl);
}

u8_read_only :
    (bs r : Bytes) (a : ℕ)
    → All IsByte bs
    → read_u8 bs ≡ ok (a, r)
    → (bs ≡ encode_u8 a ++ r) × IsByte a
unfolding read_u8 read_byte
u8_read_only [] r a h e = cc
u8_read_only (b ∷ bs) r a (hb, h) e =
    subst (λ p. (b ∷ bs ≡ encode_u8 p.0 ++ p.1) × IsByte p.0) (ok-injective e) (refl, hb)

u8_read_seq_only :
    (n : ℕ) (bs r v : Bytes)
    → All IsByte bs
    → u8_read_seq_from (exactly n) bs ≡ ok (v, r)
    → (bs ≡ encode_all encode_u8 v ++ r) × (length v ≡ n) × All IsByte v
unfolding u8_read_seq_from
u8_read_seq_only n bs r v h e =
    let (split, len, _, _) = read_exact-eq-ok n bs (map_err-eq-ok io_error (read_exact n bs) e) in
    (
      split ∙ ap (λ z. z ++ r) (sym (encode_all-u8 v)),
      len,
      All-left IsByte v r (subst (All IsByte) split h),
    )

pub u8_format-IsCanonical : IsCanonical u8_format IsByte encode_u8
u8_format-IsCanonical = record {
  read_only = u8_read_only;
  read_seq_only = u8_read_seq_only;
  some_byte = λ a. omega arith;
}

pub u8_format-IsMeasured : IsMeasured u8_format encode_u8
unfolding write
u8_format-IsMeasured = record { write_count = λ a w. refl; size = λ a. refl }
