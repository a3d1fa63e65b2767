-- ===== src/Tests/Samples.antt =====
-- Sample data: a transaction with two inputs and two outputs, of each kind.
use bitcoins_rs.Base.{
  All, Bool, Bytes, IsByte, [], and-eq_true, arith, le_bytes, length-resize, ltb, ltb→lt, refl,
  replicate, resize, suc, true, zero, ℕ, ◌&&◌, ◌++◌, ◌∷◌, ◌≡◌,
}
use bitcoins_rs.Bitcoins.Legacy.{LegacyTx}
use bitcoins_rs.Bitcoins.Legacy.Format.{IsLegacy, encode_legacy}
use bitcoins_rs.Bitcoins.Sighash.{Sighash}
use bitcoins_rs.Bitcoins.TxIn.{TxInput, new_input, new_outpoint}
use bitcoins_rs.Bitcoins.TxIn.Laws.{IsInput}
use bitcoins_rs.Bitcoins.TxOut.{TxOut, new_output}
use bitcoins_rs.Bitcoins.TxOut.Laws.{IsOutput}
use bitcoins_rs.Bitcoins.Witness.{WitnessSighashArgs, WitnessTx}
use bitcoins_rs.Bitcoins.Witness.Commitment.{IsArgs}
use bitcoins_rs.Bitcoins.Witness.Format.{IsWitness, encode_witness}
use bitcoins_rs.Hashes.{HashFunctions}
use bitcoins_rs.Hashes.Laws.{IsDigest}
use bitcoins_rs.Ser.CompactInt.Laws.{compact_int}
use bitcoins_rs.Ser.Format.Codec.{encode_all, encode_vec}
use bitcoins_rs.Wrapped.Laws.{IsScript}

-- Sizes stand for the digests.
abbrev pub sample_hashes : HashFunctions
sample_hashes = record {
  sha256 = resize 32 0;
  ripemd160 = resize 20 0;
  sha256_size = λ b. length-resize 32 0 b;
  ripemd160_size = λ b. length-resize 20 0 b;
}

abbrev pub sample_id : Bytes
sample_id = replicate 32 7

abbrev pub first_input : TxInput
first_input = new_input (new_outpoint sample_id 1) (0x51 ∷ []) 0xffff_ffff

abbrev pub second_input : TxInput
second_input = new_input (new_outpoint sample_id 0) [] 5

abbrev pub first_output : TxOut
first_output = new_output 1000 (0x6a ∷ 1 ∷ 9 ∷ [])

abbrev pub second_output : TxOut
second_output = new_output 7 []

abbrev pub sample_legacy : LegacyTx
sample_legacy = record {
  version = 2;
  vin = first_input ∷ second_input ∷ [];
  vout = first_output ∷ second_output ∷ [];
  locktime = 0;
}

abbrev pub sample_witness : WitnessTx
sample_witness = record { legacy_tx = sample_legacy; witnesses = ((1 ∷ 2 ∷ []) ∷ []) ∷ [] ∷ [] }

abbrev pub sample_args : Sighash → ℕ → WitnessSighashArgs
sample_args flag index = record {
  index = index;
  sighash_flag = flag;
  prevout_script = 0x51 ∷ [];
  prevout_value = 600;
}

pub sample_id-IsDigest : IsDigest 32 sample_id
sample_id-IsDigest = (refl, all_sevens 32)
  where
    all_sevens : (n : ℕ) → All IsByte (replicate n 7)
    all_sevens zero = tt
    all_sevens (suc n) = (omega arith, all_sevens n)

pub sample_bytes-IsScript : IsScript (0x51 ∷ [])
sample_bytes-IsScript = (omega arith, (omega arith, tt))

first_input-IsInput : IsInput first_input
first_input-IsInput = record {
  outpoint_ok = record { txid_digest = sample_id-IsDigest; idx_fits = omega arith };
  script_ok = sample_bytes-IsScript;
  sequence_fits = omega arith;
}

second_input-IsInput : IsInput second_input
second_input-IsInput = record {
  outpoint_ok = record { txid_digest = sample_id-IsDigest; idx_fits = omega arith };
  script_ok = (omega arith, tt);
  sequence_fits = omega arith;
}

first_output-IsOutput : IsOutput first_output
first_output-IsOutput = record {
  value_fits = omega arith;
  script_ok = (omega arith, (omega arith, (omega arith, (omega arith, tt))));
}

second_output-IsOutput : IsOutput second_output
second_output-IsOutput = record { value_fits = omega arith; script_ok = (omega arith, tt) }

pub sample_legacy-IsLegacy : IsLegacy sample_legacy
sample_legacy-IsLegacy = record {
  version_fits = omega arith;
  vin_ok = (omega arith, (first_input-IsInput, (second_input-IsInput, tt)));
  vout_ok = (omega arith, (first_output-IsOutput, (second_output-IsOutput, tt)));
  locktime_fits = omega arith;
}

pub sample_witness-IsWitness : IsWitness sample_witness
sample_witness-IsWitness = record {
  legacy_ok = sample_legacy-IsLegacy;
  one_each = refl;
  stacks_ok = (
    (omega arith, ((omega arith, (omega arith, (omega arith, tt))), tt)),
    ((omega arith, tt), tt),
  );
}

pub sample_args-IsArgs : (flag : Sighash) (index : ℕ) → IsArgs (sample_args flag index)
sample_args-IsArgs flag index = record { script_ok = sample_bytes-IsScript; value_ok = omega arith }

unfoldable pub check_bytes : Bytes → Bool
check_bytes [] = true
check_bytes (b ∷ bs) = ltb b 256 && check_bytes bs

pub check_bytes→All : (bs : Bytes) → check_bytes bs ≡ true → All IsByte bs
unfolding check_bytes
check_bytes→All [] h = tt
check_bytes→All (b ∷ bs) h =
    let (one, rest) = and-eq_true (ltb b 256) (check_bytes bs) h in
    (ltb→lt b 256 one, check_bytes→All bs rest)

pub encode_legacy-sample : All IsByte (encode_legacy sample_legacy ++ [])
unfolding check_bytes le_bytes encode_vec encode_all compact_int
encode_legacy-sample = check_bytes→All (encode_legacy sample_legacy ++ []) refl

pub encode_witness-sample : All IsByte (encode_witness sample_witness ++ [])
unfolding check_bytes le_bytes encode_vec encode_all compact_int
encode_witness-sample = check_bytes→All (encode_witness sample_witness ++ []) refl
