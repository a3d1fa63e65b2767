-- ===== src/Hashes.antt =====
-- core/src/hashes/mod.rs and `marked_digest!` of core/src/macros.rs. A marked digest is its bytes.
-- The hash functions come from the crates `sha2` and `ripemd160`; a hasher that is written to is
-- the bytes written so far.
pub mod Laws
use bitcoins_rs.Base.{Bytes, Result, length, map_err, replicate, take, ℕ, ◌≡◌}
use mathlib.Core.List.{reverse}
use bitcoins_rs.Ser.Format.{ByteFormat, default_read_seq_from}
use bitcoins_rs.Ser.Stream.{SerError, io_error, read_exact, write}

-- The digests of the crates, with their output sizes.
pub record HashFunctions : Type 0 where
  pub sha256 : Bytes → Bytes
  pub ripemd160 : Bytes → Bytes
  pub sha256_size : (data' : Bytes) → length (sha256 data') ≡ 32
  pub ripemd160_size : (data' : Bytes) → length (ripemd160 data') ≡ 20

-- `finalize` of a `Hash256` and a `Hash160` that `written` was written to.
unfoldable pub hash256 : HashFunctions → Bytes → Bytes
hash256 H written = H.sha256 (H.sha256 written)

unfoldable pub hash160 : HashFunctions → Bytes → Bytes
hash160 H written = H.ripemd160 (H.sha256 written)

-- `MarkedDigestOutput::reversed`
unfoldable pub reversed : Bytes → Bytes
reversed digest = let digest_bytes = reverse digest in take (length digest) digest_bytes

-- `Default::default()` of a digest of `size` bytes.
abbrev pub null_digest : ℕ → Bytes
null_digest size = replicate size 0

unfoldable pub read_digest : ℕ → Bytes → Result SerError (Bytes × Bytes)
read_digest size r = map_err io_error (read_exact size r)

abbrev pub digest_format : ℕ → ByteFormat SerError Bytes
digest_format size = record {
  from_ser = λ e. e;
  serialized_length = length;
  read_from = read_digest size;
  write_to = write;
  read_seq_from = default_read_seq_from (λ e. e) (read_digest size);
}
