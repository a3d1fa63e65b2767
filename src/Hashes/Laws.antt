-- ===== src/Hashes/Laws.antt =====
-- The format of digests (core/src/macros.rs) and the order of their bytes
-- (core/src/hashes/mod.rs).
use bitcoins_rs.Base.{
  All, Bytes, IsByte, ap, arith, length, length-reverse, map_err-eq-ok, ok, refl, take_all, ℕ, ◌++◌,
  ◌∙◌, ◌≡◌,
}
use mathlib.Core.List.{reverse, reverse-reverse}
use mathlib.Core.Path.{subst}
use bitcoins_rs.Hashes.{digest_format, read_digest, reversed}
use bitcoins_rs.Ser.Format.Codec.{IsCodec, default-encode_all}
use bitcoins_rs.Ser.Stream.{io_error, read_exact, write}
use bitcoins_rs.Ser.Stream.Laws.{All-left, read_exact-append, read_exact-eq-ok}

abbrev pub IsDigest : ℕ → Bytes → Type 0
IsDigest size d = (length d ≡ size) × All IsByte d

reversed_lem : (d : Bytes) → reversed d ≡ reverse d
unfolding reversed
reversed_lem d = take_all (length d) (reverse d) (omega (arith, length-reverse d))

-- Turning the byte order twice gives the digest back, and no byte is lost on the way.
pub reversed-reversed : (d : Bytes) → (reversed (reversed d) ≡ d) × (length (reversed d) ≡ length d)
reversed-reversed d = (
  reversed_lem (reversed d) ∙ ap reverse (reversed_lem d) ∙ reverse-reverse d,
  ap length (reversed_lem d) ∙ length-reverse d,
)

module _ (size : ℕ) where
  pub read_digest_back : (d r : Bytes) → IsDigest size d → read_digest size (d ++ r) ≡ ok (d, r)
  unfolding read_digest
  read_digest_back d r (len, _) = rw (read_exact-append size d r len)

  pub read_digest_only :
      (bs r d : Bytes)
      → All IsByte bs
      → read_digest size bs ≡ ok (d, r)
      → (bs ≡ d ++ r) × IsDigest size d
  unfolding read_digest
  read_digest_only bs r d h e =
      let (split, len, _, _) =
        read_exact-eq-ok size bs (map_err-eq-ok io_error (read_exact size bs) e) in
      (split, (len, All-left IsByte d r (subst (All IsByte) split h)))

  pub digest_format-IsCodec : IsCodec (digest_format size) (IsDigest size) (λ d. d)
  unfolding write
  digest_format-IsCodec = record {
    write_bytes = λ d w. refl;
    read_back = read_digest_back;
    read_seq_back =
        default-encode_all (λ e. e) (read_digest size) (IsDigest size) (λ d. d) read_digest_back;
  }
