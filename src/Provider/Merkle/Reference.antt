-- ===== src/Provider/Merkle/Reference.antt =====
-- Merkle trees without indices, for the functions of provider/src/utils.rs.
use bitcoins_rs.Base.{
  Bytes, List, [], arith, if◌then◌else◌, length, ℕ, ◌%◌, ◌++◌, ◌+◌, ◌/◌, ◌<◌, ◌==◌, ◌∷◌, ◌≡◌,
}
use bitcoins_rs.Hashes.{HashFunctions, hash256}

module _ (H : HashFunctions) where
  -- The row above: the hashes of the pairs, where the last node is paired with itself.
  unfoldable pub row_above : List Bytes → List Bytes
  row_above [] = []
  row_above (x ∷ []) = hash256 H (x ++ x) ∷ []
  row_above (x ∷ y ∷ row) = hash256 H (x ++ y) ∷ row_above row

  -- The rows of a tree, one after the other, and the root of a row.
  pub data IsTree : List Bytes → List Bytes → Type 0 where
    top : (x : Bytes) → IsTree (x ∷ []) (x ∷ [])
    above :
        (row nodes : List Bytes)
        → 1 < length row
        → IsTree (row_above row) nodes
        → IsTree row (row ++ nodes)

  pub data IsRoot : List Bytes → Bytes → Type 0 where
    top_root : (x : Bytes) → IsRoot (x ∷ []) x
    above_root :
        (row : List Bytes) (x : Bytes) → 1 < length row → IsRoot (row_above row) x → IsRoot row x

  -- What a branch proves of a leaf at an index: the hash of the leaf with each sibling in turn, which
  -- is on the side that the index's bit tells.
  unfoldable pub fold_branch : ℕ → Bytes → List Bytes → Bytes
  fold_branch idx node [] = node
  fold_branch idx node (sibling ∷ branch) =
      fold_branch (idx / 2)
        (if idx % 2 == 0 then hash256 H (node ++ sibling) else hash256 H (sibling ++ node)) branch

  pub length-row_above : (row : List Bytes) → length (row_above row) ≡ (length row + 1) / 2
  unfolding row_above
  length-row_above [] = omega arith
  length-row_above (x ∷ []) = omega arith
  length-row_above (x ∷ y ∷ row) = omega (arith, length-row_above row)
