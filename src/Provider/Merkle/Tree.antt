-- ===== src/Provider/Merkle/Tree.antt =====
-- The tree that provider/src/utils.rs makes.
use bitcoins_rs.Base.{
  Bytes, List, [], ap, append-nil, append_assoc, arith, get_elem?, if-false, if-true, length,
  length-append, ltb, lt→ltb, min, ne→==, ok, refl, suc, sym, zero, ℕ, ◌++◌, ◌+◌, ◌-◌, ◌/◌, ◌<◌,
  ◌==◌, ◌>>=◌, ◌∙◌, ◌∷◌, ◌≡◌, ◌≤◌,
}
use mathlib.Core.Path.{subst}
use bitcoins_rs.Hashes.{HashFunctions, hash256}
use bitcoins_rs.Provider.Merkle.{create_tree, grow, push_row}
use bitcoins_rs.Provider.Merkle.Reference.{IsTree, above, length-row_above, row_above, top}

pub get_elem?-append :
    {A : Type 0} (xs ys : List A) (m n : ℕ)
    → m ≡ length xs + n
    → get_elem? (xs ++ ys) m ≡ get_elem? ys n
get_elem?-append [] ys m n h = ap (get_elem? ys) (omega arith)
get_elem?-append (x ∷ xs) ys zero n h = absurd (omega arith)
get_elem?-append (x ∷ xs) ys (suc m) n h = get_elem?-append xs ys m n (omega arith)

module _ (H : HashFunctions) where
  -- From a place in a row on, the hashes of the rest of the row are pushed.
  push_row_lem :
      (count : ℕ) (base rest done : List Bytes) (i size j : ℕ)
      → length base ≡ i + j
      → size ≡ j + length rest
      → count ≡ (length rest + 1) / 2
      → push_row H count (base ++ (rest ++ done)) i size j
        ≡ ok ((base ++ (rest ++ done)) ++ row_above H rest)
  unfolding push_row row_above
  push_row_lem zero base [] done i size j b s c = ap ok (sym (append-nil _))
  push_row_lem zero base (x ∷ rest) done i size j b s c = absurd (omega arith)
  push_row_lem (suc count) base [] done i size j b s c = absurd (omega arith)
  push_row_lem (suc zero) base (x ∷ []) done i size j b s c =
      let left = get_elem?-append base (x ∷ done) (i + j) 0 (omega arith) in
      let right = get_elem?-append base (x ∷ done) (i + min (j + 1) (size - 1)) 0 (omega arith) in
      rw (left, right) refl
  push_row_lem (suc (suc count)) base (x ∷ []) done i size j b s c = absurd (omega arith)
  push_row_lem (suc count) base (x ∷ y ∷ rest) done i size j b s c =
      let left = get_elem?-append base (x ∷ y ∷ (rest ++ done)) (i + j) 0 (omega arith) in
      let right =
        get_elem?-append base (x ∷ y ∷ (rest ++ done)) (i + min (j + 1) (size - 1)) 1
          (omega arith) in
      let pushed : List Bytes = hash256 H (x ++ y) ∷ [] in
      let step : (base ++ (x ∷ y ∷ (rest ++ done))) ++ pushed
          ≡ (base ++ (x ∷ y ∷ [])) ++ (rest ++ (done ++ pushed)) =
        simp append_assoc in
      rw (left, right)
        (ap (λ nodes. push_row H count nodes i size (j + 2)) step
          ∙ push_row_lem count (base ++ (x ∷ y ∷ [])) rest (done ++ pushed) i size (j + 2)
              (omega (arith, length-append base (x ∷ y ∷ []))) (omega arith) (omega arith)
          ∙ ap (λ nodes. ok (nodes ++ row_above H rest)) (sym step)
          ∙ ap ok (append_assoc (base ++ (x ∷ y ∷ (rest ++ done))) pushed (row_above H rest)))

  -- The rows from one row on, behind the rows below it.
  grow_lem :
      (fuel : ℕ) (base row : List Bytes) (i : ℕ)
      → length base ≡ i
      → 0 < length row
      → length row ≤ fuel
      → (nodes : List Bytes) × (grow H fuel (base ++ row) i (length row) ≡ ok (base ++ nodes))
        × IsTree H row nodes
  unfolding grow
  grow_lem zero base row i b n f = absurd (omega arith)
  grow_lem (suc fuel) base [] i b n f = absurd (omega arith)
  grow_lem (suc fuel) base (x ∷ []) i b n f = (x ∷ [], refl, top x)
  grow_lem (suc fuel) base (x ∷ y ∷ rest) i b n f =
      let row : List Bytes = x ∷ y ∷ rest in
      let count = length-row_above H row in
      let made =
        push_row_lem ((length row + 1) / 2) base row [] i (length row) 0 (omega arith) (omega arith)
          refl in
      let (nodes, grown, tree) =
        grow_lem fuel (base ++ row) (row_above H row) (i + length row)
          (omega (arith, length-append base row)) (omega arith) (omega arith) in
      let size = length row in
      let row_made : push_row H ((size + 1) / 2) (base ++ row) i size 0
          ≡ ok ((base ++ row) ++ row_above H row) =
        subst
          (λ r.
            push_row H ((size + 1) / 2) (base ++ r) i size 0 ≡ ok ((base ++ r) ++ row_above H row))
          (append-nil row) made in
      let all_grown : grow H (suc fuel) (base ++ row) i size ≡ ok (base ++ (row ++ nodes)) =
        if-true (ltb 1 size) _ _ (lt→ltb 1 size (omega arith))
        ∙ ap (λ m. m >>= λ nodes1. grow H fuel nodes1 (i + size) ((size + 1) / 2)) row_made
        ∙ ap (grow H fuel ((base ++ row) ++ row_above H row) (i + size)) (sym count)
        ∙ grown
        ∙ ap ok (append_assoc base row nodes) in
      (row ++ nodes, all_grown, above row nodes (omega arith) tree)

  -- A tree over some leaves is made, and is their rows, one after the other.
  pub create_tree-IsTree :
      (leaves : List Bytes)
      → 0 < length leaves
      → (nodes : List Bytes) × (create_tree H leaves ≡ ok nodes) × IsTree H leaves nodes
  unfolding create_tree
  create_tree-IsTree leaves some_leaf =
      let (nodes, grown, tree) =
        grow_lem (length leaves) [] leaves 0 refl some_leaf (omega arith) in
      (
        nodes,
        if-false (length leaves == 0) _ _ (ne→== (length leaves) 0 (λ e. omega arith)) ∙ grown,
        tree,
      )
