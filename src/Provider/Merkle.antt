-- ===== src/Provider/Merkle.antt =====
-- provider/src/utils.rs: merkle trees and branches over the ids of a block's transactions.
pub mod Reference
pub mod Tree
pub mod Branch
use bitcoins_rs.Base.{
  Bytes, List, Option, Result, [], bytes_eq, get_elem?, if◌then◌else◌, length, ltb, min, none, ok,
  panic, some, suc, unwrap, zero, ℕ, ◌%◌, ◌++◌, ◌+◌, ◌-◌, ◌/◌, ◌==◌, ◌>>=◌, ◌>>◌, ◌∷◌,
}
use bitcoins_rs.Hashes.{HashFunctions, hash256, null_digest}

-- `idx ^ 1`
abbrev pub flip : ℕ → ℕ
flip idx = if idx % 2 == 0 then idx + 1 else idx - 1

-- `block.iter().position(|t| *t == txid)`
unfoldable pub txid_position : Bytes → List Bytes → Option ℕ
txid_position txid [] = none
txid_position txid (t ∷ block) =
    let rest = txid_position txid block in
    if bytes_eq t txid then some 0 else elim rest [ none ↦ none | some i ↦ some (suc i) ]

-- The loop `while size > 1` of `create_branch`, on fuel.
unfoldable pub climb : ℕ → List Bytes → ℕ → ℕ → ℕ → List Bytes → Result (Unit {0}) (List Bytes)
climb zero nodes i size idx branch = panic
climb (suc fuel) nodes i size idx branch =
    if ltb 1 size
    then (unwrap (get_elem? nodes (i + min (flip idx) (size - 1))) >>= λ node.
        climb fuel nodes (i + size) ((size + 1) / 2) (idx / 2) (branch ++ (node ∷ [])))
    else ok branch

module _ (H : HashFunctions) where
  -- The loop over `j`, from `j` on, for the `count` steps that are left.
  unfoldable pub push_row : ℕ → List Bytes → ℕ → ℕ → ℕ → Result (Unit {0}) (List Bytes)
  push_row zero nodes i size j = ok nodes
  push_row (suc count) nodes i size j = do
    let k = min (j + 1) (size - 1)
    left ← unwrap (get_elem? nodes (i + j))
    right ← unwrap (get_elem? nodes (i + k))
    push_row count (nodes ++ (hash256 H (left ++ right) ∷ [])) i size (j + 2)

  -- The loop `while size > 1`, on fuel.
  unfoldable pub grow : ℕ → List Bytes → ℕ → ℕ → Result (Unit {0}) (List Bytes)
  grow zero nodes i size = panic
  grow (suc fuel) nodes i size =
      if ltb 1 size
      then (push_row ((size + 1) / 2) nodes i size 0 >>= λ nodes1.
          grow fuel nodes1 (i + size) ((size + 1) / 2))
      else ok nodes

  unfoldable pub create_tree : List Bytes → Result (Unit {0}) (List Bytes)
  create_tree leaves =
      let size = length leaves in
      if size == 0 then ok (leaves ++ (null_digest 32 ∷ [])) else grow size leaves 0 size

  unfoldable pub create_branch : ℕ → List Bytes → Result (Unit {0}) (List Bytes)
  create_branch index leaves = do
    let size = length leaves
    nodes ← create_tree leaves
    climb (suc size) nodes 0 size index []

  unfoldable pub merkle_from_txid_list :
      Bytes → List Bytes → Result (Unit {0}) (Option (ℕ × List Bytes))
  merkle_from_txid_list txid block = elim (txid_position txid block) [
    | some i ↦ do branch ← create_branch i block; ok (some (i, branch))
    | none ↦ ok none
  ]
