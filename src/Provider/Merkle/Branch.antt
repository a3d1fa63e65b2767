-- ===== src/Provider/Merkle/Branch.antt =====
-- The branches that provider/src/utils.rs makes.
use bitcoins_rs.Base.{
  All, Bool-cases, Bytes, List, [], ap, append-nil, append_assoc, arith, bytes_eq, bytes_eq_refl,
  bytes_eq→eq, false, get_elem?, get_elem?-bound, if-true, if◌then◌else◌, inl, inr, length,
  length-append, ltb, lt→ltb, min, none, ok, refl, some, some-eq_some, suc, sym, true, unwrap, zero,
  ℕ, ◌%◌, ◌++◌, ◌+◌, ◌-◌, ◌/◌, ◌<◌, ◌==◌, ◌>>=◌, ◌∙◌, ◌∷◌, ◌≡◌, ◌≢◌, ◌≤◌, ◌⊎◌,
}
use mathlib.Core.Path.{ap₂}
use bitcoins_rs.Hashes.{HashFunctions, hash256}
use bitcoins_rs.Provider.Merkle.{climb, create_branch, flip, merkle_from_txid_list, txid_position}
use bitcoins_rs.Provider.Merkle.Reference.{
  IsRoot, IsTree, above, above_root, fold_branch, length-row_above, row_above, top, top_root,
}
use bitcoins_rs.Provider.Merkle.Tree.{create_tree-IsTree, get_elem?-append}

pair_low : (n : ℕ) → min (flip 0) (suc (suc n) - 1) ≡ 1
pair_low n = ground arith

pair_high : (n : ℕ) → min (flip 1) (suc (suc n) - 1) ≡ 0
pair_high n = ground arith

pair_later :
    (idx n : ℕ)
    → idx < n
    → min (flip (suc (suc idx))) (suc (suc n) - 1) ≡ suc (suc (min (flip idx) (n - 1)))
pair_later idx n h = ground arith

get_elem?-front :
    {A : Type 0} (xs ys : List A) (k : ℕ) {a : A}
    → get_elem? xs k ≡ some a
    → get_elem? (xs ++ ys) k ≡ some a
get_elem?-front [] ys k h = cc
get_elem?-front (x ∷ xs) ys zero h = h
get_elem?-front (x ∷ xs) ys (suc k) h = get_elem?-front xs ys k h

bytes_eq_differs : (xs ys : Bytes) → xs ≡ ys → bytes_eq xs ys ≢ false
bytes_eq_differs xs ys e h = let same : bytes_eq xs ys ≡ true = rw e (bytes_eq_refl ys) in cc

-- The txid_position found is one of the id, and with none the id is nowhere.
position_lem :
    (txid : Bytes) (block : List Bytes)
    → ((i : ℕ) × (txid_position txid block ≡ some i) × (get_elem? block i ≡ some txid))
      ⊎ ((txid_position txid block ≡ none) × All (λ t. t ≢ txid) block)
unfolding txid_position
position_lem txid [] = inr (refl, tt)
position_lem txid (t ∷ block) = elim (Bool-cases (bytes_eq t txid)) [
  | inl same ↦ inl (0, rw same refl, ap some (bytes_eq→eq t txid same))
  | inr other ↦
      let differs : t ≢ txid = λ e. bytes_eq_differs t txid e other in
      elim (position_lem txid block) [
        | inl (i, found, there) ↦ inl (suc i, rw (other, found) refl, there)
        | inr (absent, none_there) ↦ inr (rw (other, absent) refl, (differs, none_there))
      ]
]

module _ (H : HashFunctions) where
  -- A node, hashed with its sibling, is the node above it.
  sibling_lem :
      (row : List Bytes) (idx : ℕ) (node : Bytes)
      → get_elem? row idx ≡ some node
      → (sibling : Bytes) × (get_elem? row (min (flip idx) (length row - 1)) ≡ some sibling)
        × (get_elem? (row_above H row) (idx / 2)
            ≡ some
                (if idx % 2 == 0 then hash256 H (node ++ sibling) else hash256 H (sibling ++ node)))
  unfolding row_above
  sibling_lem [] idx node h = cc
  sibling_lem (x ∷ []) zero node h = (x, refl, rw (some-eq_some h) refl)
  sibling_lem (x ∷ []) (suc idx) node h = cc
  sibling_lem (x ∷ y ∷ row) zero node h =
      (y, ap (get_elem? (x ∷ y ∷ row)) (pair_low (length row)), rw (some-eq_some h) refl)
  sibling_lem (x ∷ y ∷ row) (suc zero) node h =
      (x, ap (get_elem? (x ∷ y ∷ row)) (pair_high (length row)), rw (some-eq_some h) refl)
  sibling_lem (x ∷ y ∷ row) (suc (suc idx)) node h =
      let (sibling, found, above_it) = sibling_lem row idx node h in
      let half : suc (suc idx) / 2 ≡ suc (idx / 2) = omega arith in
      let parity : suc (suc idx) % 2 ≡ idx % 2 = omega arith in
      (
        sibling,
        ap (get_elem? (x ∷ y ∷ row))
              (pair_later idx (length row) (omega (arith, get_elem?-bound row idx h)))
            ∙ found,
        rw (half, parity) above_it,
      )

  -- From a node of a row on, the branch leads to the root of the row.
  climb_lem :
      (fuel : ℕ) (base row nodes : List Bytes) (i idx : ℕ) (node : Bytes) (branch : List Bytes)
      → length base ≡ i
      → length row ≤ fuel
      → IsTree H row nodes
      → get_elem? row idx ≡ some node
      → (siblings : List Bytes) × (root : Bytes) × (climb
            (suc fuel)
            (base ++ nodes)
            i
            (length row)
            idx
            branch
          ≡ ok (branch ++ siblings))
        × IsRoot H row root
        × (fold_branch H idx node siblings ≡ root)
  unfolding climb fold_branch
  climb_lem fuel base row nodes i zero node branch b f (top x) h =
      ([], x, ap ok (sym (append-nil branch)), top_root x, sym (some-eq_some h))
  climb_lem fuel base row nodes i (suc idx) node branch b f (top x) h = cc
  climb_lem zero base row nodes i idx node branch b f (above r t more tree) h = absurd (omega arith)
  climb_lem (suc fuel) base row nodes i idx node branch b f (above r t more tree) h =
      let (sibling, found, up) = sibling_lem r idx node h in
      let k = min (flip idx) (length r - 1) in
      let read : get_elem? (base ++ (r ++ t)) (i + k) ≡ some sibling =
        get_elem?-append base (r ++ t) (i + k) k (omega arith) ∙ get_elem?-front r t k found in
      let count = length-row_above H r in
      let (siblings, root, climbed, is_root, folded) =
        climb_lem fuel (base ++ r) (row_above H r) t (i + length r) (idx / 2) _
          (branch ++ (sibling ∷ [])) (omega (arith, length-append base r)) (omega arith) tree up in
      (
        sibling ∷ siblings,
        root,
        if-true (ltb 1 (length r)) _ _ (lt→ltb 1 (length r) more)
            ∙ ap
                (λ o. unwrap o >>= λ n.
                  climb (suc fuel) (base ++ (r ++ t)) (i + length r) ((length r + 1) / 2) (idx / 2)
                    (branch ++ (n ∷ [])))
                read
            ∙ ap₂
                (λ nodes size.
                  climb (suc fuel) nodes (i + length r) size (idx / 2) (branch ++ (sibling ∷ [])))
                (sym (append_assoc base r t)) (sym count)
            ∙ climbed
            ∙ ap ok (append_assoc branch (sibling ∷ []) siblings),
        above_root r root more is_root,
        folded,
      )

  -- For every index of a leaf a branch is made, and with the index it leads from the leaf to the
  -- root of the leaves.
  pub create_branch-IsRoot :
      (leaves : List Bytes) (index : ℕ) (leaf : Bytes)
      → get_elem? leaves index ≡ some leaf
      → (branch : List Bytes) × (root : Bytes) × (create_branch H index leaves ≡ ok branch)
        × IsRoot H leaves root
        × (fold_branch H index leaf branch ≡ root)
  unfolding create_branch
  create_branch-IsRoot leaves index leaf h =
      let (nodes, grown, tree) =
        create_tree-IsTree H leaves (omega (arith, get_elem?-bound leaves index h)) in
      let (branch, root, climbed, is_root, folded) =
        climb_lem (length leaves) [] leaves nodes 0 index leaf [] refl (omega arith) tree h in
      (branch, root, rw grown climbed, is_root, folded)

  -- An id in a block gets an index at which the block has it, and a branch that leads from the id to
  -- the root of the block; an id that is not in the block gets nothing.
  pub merkle_from_txid_list-IsRoot :
      (txid : Bytes) (block : List Bytes)
      → ((i : ℕ) × (branch : List Bytes) × (root : Bytes) × (merkle_from_txid_list H txid block
            ≡ ok (some (i, branch)))
          × (get_elem? block i ≡ some txid)
          × IsRoot H block root
          × (fold_branch H i txid branch ≡ root))
        ⊎ ((merkle_from_txid_list H txid block ≡ ok none) × All (λ t. t ≢ txid) block)
  unfolding merkle_from_txid_list
  merkle_from_txid_list-IsRoot txid block = elim (position_lem txid block) [
    | inl (i, found, there) ↦
        let (branch, root, branched, is_root, folded) = create_branch-IsRoot block i txid there in
        inl (
          i,
          branch,
          root,
          rw (merkle_from_txid_list, found, branched) refl,
          there,
          is_root,
          folded,
        )
    | inr (absent, none_there) ↦ inr (rw (merkle_from_txid_list, absent) refl, none_there)
  ]
