-- ===== src/Bitcoins/Script.antt =====
-- bitcoins/src/types/script.rs: standard script pubkeys. A public key is given by its bytes.
pub mod Laws
use bitcoins_rs.Base.{
  Bytes, Option, [], bytes_eq, drop, if◌then◌else◌, leb, length, none, some, take, ◌&&◌, ◌++◌, ◌==◌,
  ◌∷◌,
}
use bitcoins_rs.Hashes.{HashFunctions, hash160}

module _ (H : HashFunctions) where
  unfoldable pub p2pkh : Bytes → Bytes
  p2pkh key = (0x76 ∷ 0xa9 ∷ 0x14 ∷ []) ++ (hash160 H key ++ (0x88 ∷ 0xac ∷ []))

  unfoldable pub p2wpkh : Bytes → Bytes
  p2wpkh key = (0x00 ∷ 0x14 ∷ []) ++ hash160 H key

  unfoldable pub p2sh : Bytes → Bytes
  p2sh script = (0xa9 ∷ 0x14 ∷ []) ++ (hash160 H script ++ (0x87 ∷ []))

  unfoldable pub p2wsh : Bytes → Bytes
  p2wsh script = (0x00 ∷ 0x20 ∷ []) ++ H.sha256 script

pub data ScriptType : Type 0 where
  pkh sh wpkh wsh : Bytes → ScriptType
  op_return_data : Bytes → ScriptType
  non_standard : ScriptType

-- Fewer than two bytes are no op return.
unfoldable pub extract_op_return_data : Bytes → Option Bytes
extract_op_return_data [] = none
extract_op_return_data (_ ∷ []) = none
extract_op_return_data (op ∷ size ∷ data') =
    if op == 0x6a && leb size 75 && (size == length data') then some data' else none

-- The match on the length of the script.
unfoldable pub template_type : Bytes → ScriptType
template_type items =
    if length items == 0x19
    then (if bytes_eq (take 3 items) (0x76 ∷ 0xa9 ∷ 0x14 ∷ [])
          && bytes_eq (drop 0x17 items) (0x88 ∷ 0xac ∷ [])
        then pkh (take 20 (drop 3 items))
        else non_standard)
    else (if length items == 0x17
        then (if bytes_eq (take 2 items) (0xa9 ∷ 0x14 ∷ [])
              && bytes_eq (drop 0x16 items) (0x87 ∷ [])
            then sh (take 20 (drop 2 items))
            else non_standard)
        else (if length items == 0x16
            then (if bytes_eq (take 2 items) (0x00 ∷ 0x14 ∷ [])
                then wpkh (take 20 (drop 2 items))
                else non_standard)
            else (if length items == 0x22
                then (if bytes_eq (take 2 items) (0x00 ∷ 0x20 ∷ [])
                    then wsh (take 32 (drop 2 items))
                    else non_standard)
                else non_standard)))

unfoldable pub standard_type : Bytes → ScriptType
standard_type items = elim (extract_op_return_data items) [
  | some data' ↦ op_return_data data'
  | none ↦ template_type items
]
