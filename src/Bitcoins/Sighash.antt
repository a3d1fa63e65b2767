-- ===== src/Bitcoins/Sighash.antt =====
-- bitcoins/src/types/tx.rs: the errors of transactions and the sighash modes.
pub mod Laws
use bitcoins_rs.Base.{Bool, Bytes, Result, err, false, if◌then◌else◌, ok, true, ℕ, ◌==◌}
use Prim.Native.Nat.{bit_and}
use bitcoins_rs.Ser.Stream.{IoError, SerError}

-- `io_error` is raised by a `?` on a read in a transaction; a read in a component is a `ser_error`.
pub data TxError : Type 0 where
  ser_error : SerError → TxError
  io_error : IoError → TxError
  none_unsupported sighash_single_bug : TxError
  unknown_sighash : ℕ → TxError
  bad_witness_flag : Bytes → TxError
  wrong_sighash_args empty_vout empty_vin : TxError

pub data Sighash : Type 0 where
  all none single all_acp none_acp single_acp : Sighash

unfoldable pub to_u8 : Sighash → ℕ
to_u8 all = 0x01
to_u8 none = 0x02
to_u8 single = 0x03
to_u8 all_acp = 0x81
to_u8 none_acp = 0x82
to_u8 single_acp = 0x83

unfoldable pub from_u8 : ℕ → Result TxError Sighash
from_u8 flag =
    if flag == 0x01
    then ok all
    else (if flag == 0x02
        then ok none
        else (if flag == 0x03
            then ok single
            else (if flag == 0x81
                then ok all_acp
                else (if flag == 0x82
                    then ok none_acp
                    else (if flag == 0x83 then ok single_acp else err (unknown_sighash flag))))))

-- The derived `==` with a mode, as the sighash functions use it.
unfoldable pub is_none_mode : Sighash → Bool
is_none_mode none = true
is_none_mode none_acp = true
is_none_mode _ = false

unfoldable pub is_single_mode : Sighash → Bool
is_single_mode single = true
is_single_mode single_acp = true
is_single_mode _ = false

unfoldable pub is_single : Sighash → Bool
is_single single = true
is_single _ = false

-- `sighash_flag as u8 & 0x80 == 0x80`
unfoldable pub is_acp : Sighash → Bool
unfolding to_u8
is_acp flag = bit_and (to_u8 flag) 0x80 == 0x80
