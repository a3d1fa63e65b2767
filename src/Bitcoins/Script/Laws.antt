-- ===== src/Bitcoins/Script/Laws.antt =====
-- The recognition of standard scripts (bitcoins/src/types/script.rs).
use bitcoins_rs.Base.{
  ==_iff, ==_refl, Bool, Bool-cases, Bytes, Option, Option-cases, [], and-eq_true, ap, append-nil,
  arith, bytes_eq, bytes_eq→eq, drop, drop-append, drop_all, false, if◌then◌else◌, inl, inr, leb,
  leb→le, length, length-append, length-drop, length-take, le→leb, none, refl, some, some-eq_some,
  suc, sym, take, take-append, take-append-drop, take_all, true, zero, ℕ, ◌%◌, ◌&&◌, ◌++◌, ◌+◌,
  ◌==◌, ◌∙◌, ◌∷◌, ◌≡◌, ◌≤◌, ◌⊎◌,
}
use mathlib.Core.Path.{ap₂, subst}
use bitcoins_rs.Bitcoins.Script.{
  ScriptType, extract_op_return_data, non_standard, op_return_data, p2pkh, p2sh, p2wpkh, p2wsh, pkh,
  sh, standard_type, template_type, wpkh, wsh,
}
use bitcoins_rs.Bitcoins.TxOut.{op_return}
use bitcoins_rs.Hashes.{HashFunctions, hash160}

-- The scripts of each standard type.
pub data IsScriptOf : ScriptType → Bytes → Type 0 where
  is_pkh :
      (d : Bytes)
      → length d ≡ 20
      → IsScriptOf (pkh d) ((0x76 ∷ 0xa9 ∷ 0x14 ∷ []) ++ (d ++ (0x88 ∷ 0xac ∷ [])))
  is_sh : (d : Bytes) → length d ≡ 20 → IsScriptOf (sh d) ((0xa9 ∷ 0x14 ∷ []) ++ (d ++ (0x87 ∷ [])))
  is_wpkh : (d : Bytes) → length d ≡ 20 → IsScriptOf (wpkh d) ((0x00 ∷ 0x14 ∷ []) ++ d)
  is_wsh : (d : Bytes) → length d ≡ 32 → IsScriptOf (wsh d) ((0x00 ∷ 0x20 ∷ []) ++ d)
  is_op_return : (d : Bytes) → length d ≤ 75 → IsScriptOf (op_return_data d) (0x6a ∷ length d ∷ d)

-- A script made by a template has the type of that template.
pub standard_type_complete : (t : ScriptType) (s : Bytes) → IsScriptOf t s → standard_type s ≡ t
unfolding standard_type template_type extract_op_return_data bytes_eq
standard_type_complete _ _ (is_pkh d h) =
    let size : length (d ++ (0x88 ∷ 0xac ∷ [])) ≡ 22 =
      omega (arith, length-append d (0x88 ∷ 0xac ∷ [])) in
    rw (size, take-append 20 d (0x88 ∷ 0xac ∷ []) h, drop-append 20 d (0x88 ∷ 0xac ∷ []) h)
standard_type_complete _ _ (is_sh d h) =
    let size : length (d ++ (0x87 ∷ [])) ≡ 21 = omega (arith, length-append d (0x87 ∷ [])) in
    rw (size, take-append 20 d (0x87 ∷ []) h, drop-append 20 d (0x87 ∷ []) h)
standard_type_complete _ _ (is_wpkh d h) = rw (h, take_all 20 d (omega arith))
standard_type_complete _ _ (is_wsh d h) = rw (h, take_all 32 d (omega arith))
standard_type_complete _ _ (is_op_return d h) =
    let extracted : extract_op_return_data (0x6a ∷ length d ∷ d) ≡ some d =
      rw (le→leb (length d) 75 h, ==_refl (length d)) in
    rw (standard_type, extracted)

drop-drop : (k n m : ℕ) (s : Bytes) → m ≡ k + n → drop n (drop k s) ≡ drop m s
drop-drop zero n m s h = ap (λ z. drop z s) (omega arith)
drop-drop (suc k) zero (suc m) [] h = refl
drop-drop (suc k) (suc n) (suc m) [] h = refl
drop-drop (suc k) n zero s h = absurd (omega arith)
drop-drop (suc k) n (suc m) (x ∷ s) h = drop-drop k n m s (omega arith)

-- A script that begins and ends as a template does is the template around what is between.
between :
    (k n m : ℕ) (s front back : Bytes)
    → m ≡ k + n
    → bytes_eq (take k s) front ≡ true
    → bytes_eq (drop m s) back ≡ true
    → s ≡ front ++ (take n (drop k s) ++ back)
between k n m s front back h f b =
    sym (take-append-drop k s)
    ∙ ap₂ ◌++◌ (bytes_eq→eq (take k s) front f) (
        sym (take-append-drop n (drop k s))
        ∙ ap (λ z. take n (drop k s) ++ z) (drop-drop k n m s h ∙ bytes_eq→eq (drop m s) back b))

length-between : (k n : ℕ) (s : Bytes) → k + n ≤ length s → length (take n (drop k s)) ≡ n
length-between k n s h = omega (arith, length-take n (drop k s), length-drop k s)

abbrev IsSound : ScriptType → Bytes → Type 0
IsSound t s = (t ≡ non_standard) ⊎ IsScriptOf t s

choose :
    (b : Bool) (x y : ScriptType) (s : Bytes)
    → (b ≡ true → IsSound x s)
    → (b ≡ false → IsSound y s)
    → IsSound (if b then x else y) s
choose true x y s f g = f refl
choose false x y s f g = g refl

-- A script that is its template's front and then the digest, to the end.
to_end :
    (n m : ℕ) (s front : Bytes)
    → length s ≡ m
    → m ≡ 2 + n
    → bytes_eq (take 2 s) front ≡ true
    → s ≡ front ++ take n (drop 2 s)
unfolding bytes_eq
to_end n m s front l h f =
    between 2 n m s front [] h f (ap (λ z. bytes_eq z []) (drop_all m s (omega arith)))
    ∙ ap (λ z. front ++ z) (append-nil (take n (drop 2 s)))

template_type-IsSound : (s : Bytes) → IsSound (template_type s) s
unfolding template_type
template_type-IsSound s =
    choose (length s == 0x19) _ _ s
      (λ l.
        choose _ (pkh (take 20 (drop 3 s))) non_standard s
          (λ c.
            let (f, b) = and-eq_true _ _ c in
            let whole = between 3 20 23 s (0x76 ∷ 0xa9 ∷ 0x14 ∷ []) (0x88 ∷ 0xac ∷ []) refl f b in
            let fits = length-between 3 20 s (omega (arith, (==_iff (length s) 0x19).0 l)) in
            inr (
              subst (IsScriptOf (pkh (take 20 (drop 3 s)))) (sym whole)
                (is_pkh (take 20 (drop 3 s)) fits)))
          (λ _. inl refl))
      (λ _.
        choose (length s == 0x17) _ _ s
          (λ l.
            choose _ (sh (take 20 (drop 2 s))) non_standard s
              (λ c.
                let (f, b) = and-eq_true _ _ c in
                let whole = between 2 20 22 s (0xa9 ∷ 0x14 ∷ []) (0x87 ∷ []) refl f b in
                let fits = length-between 2 20 s (omega (arith, (==_iff (length s) 0x17).0 l)) in
                inr (
                  subst (IsScriptOf (sh (take 20 (drop 2 s)))) (sym whole)
                    (is_sh (take 20 (drop 2 s)) fits)))
              (λ _. inl refl))
          (λ _.
            choose (length s == 0x16) _ _ s
              (λ l.
                choose _ (wpkh (take 20 (drop 2 s))) non_standard s
                  (λ c.
                    let size = (==_iff (length s) 0x16).0 l in
                    let whole = to_end 20 22 s (0x00 ∷ 0x14 ∷ []) size refl c in
                    let fits = length-between 2 20 s (omega (arith, size)) in
                    inr (
                      subst (IsScriptOf (wpkh (take 20 (drop 2 s)))) (sym whole)
                        (is_wpkh (take 20 (drop 2 s)) fits)))
                  (λ _. inl refl))
              (λ _.
                choose (length s == 0x22) _ _ s
                  (λ l.
                    choose _ (wsh (take 32 (drop 2 s))) non_standard s
                      (λ c.
                        let size = (==_iff (length s) 0x22).0 l in
                        let whole = to_end 32 34 s (0x00 ∷ 0x20 ∷ []) size refl c in
                        let fits = length-between 2 32 s (omega (arith, size)) in
                        inr (
                          subst (IsScriptOf (wsh (take 32 (drop 2 s)))) (sym whole)
                            (is_wsh (take 32 (drop 2 s)) fits)))
                      (λ _. inl refl))
                  (λ _. inl refl))))

extract_op_return_data-IsScriptOf :
    (s d : Bytes) → extract_op_return_data s ≡ some d → IsScriptOf (op_return_data d) s
unfolding extract_op_return_data
extract_op_return_data-IsScriptOf [] d h = cc
extract_op_return_data-IsScriptOf (op ∷ []) d h = cc
extract_op_return_data-IsScriptOf (op ∷ size ∷ d') d h =
    elim (Bool-cases (op == 0x6a && leb size 75 && (size == length d'))) [
      | inl fits ↦
          let (f, same) = and-eq_true (op == 0x6a && leb size 75) (size == length d') fits in
          let (tag, small) = and-eq_true (op == 0x6a) (leb size 75) f in
          let found : ◌≡◌ {A = Option Bytes} (some d') (some d) =
            sym (ap (λ b. if b then some d' else none) fits) ∙ h in
          let script : (0x6a ∷ length d' ∷ d') ≡ op ∷ size ∷ d' =
            ap₂ (λ x y. x ∷ y ∷ d') (sym ((==_iff op 0x6a).0 tag))
              (sym ((==_iff size (length d')).0 same)) in
          let bound : length d' ≤ 75 =
            omega (arith, (==_iff size (length d')).0 same, leb→le size 75 small) in
          subst (λ z. IsScriptOf (op_return_data z) (op ∷ size ∷ d')) (some-eq_some found)
            (subst (IsScriptOf (op_return_data d')) script (is_op_return d' bound))
      | inr fails ↦
          let nothing : ◌≡◌ {A = Option Bytes} none (some d) =
            sym (ap (λ b. if b then some d' else none) fails) ∙ h in
          absurd cc
    ]

-- A script has a standard type only if it is made by the template of that type.
pub standard_type_sound :
    (s : Bytes) → (standard_type s ≡ non_standard) ⊎ IsScriptOf (standard_type s) s
unfolding standard_type
standard_type_sound s = elim (Option-cases (extract_op_return_data s)) [
  | inl nothing ↦ rw (standard_type, nothing) (template_type-IsSound s)
  | inr (d, found) ↦ rw (standard_type, found) (inr (extract_op_return_data-IsScriptOf s d found))
]

module _ (H : HashFunctions) where
  length-hash160 : (b : Bytes) → length (hash160 H b) ≡ 20
  unfolding hash160
  length-hash160 b = H.ripemd160_size (H.sha256 b)

  -- The scripts that are built from a key or a script have their type, with the digest in it, and
  -- an op return output that of its message, cut to 75 bytes.
  pub standard_type-built :
      (b : Bytes)
      → (standard_type (p2pkh H b) ≡ pkh (hash160 H b))
        × (standard_type (p2wpkh H b) ≡ wpkh (hash160 H b))
        × (standard_type (p2sh H b) ≡ sh (hash160 H b))
        × (standard_type (p2wsh H b) ≡ wsh (H.sha256 b))
        × (standard_type (op_return b).script_pubkey ≡ op_return_data (take 75 b))
  unfolding p2pkh p2wpkh p2sh p2wsh op_return
  standard_type-built b =
      let small : length (take 75 b) ≤ 75 = omega (arith, length-take 75 b) in
      let kept : length (take 75 b) % 256 ≡ length (take 75 b) = omega arith in
      (
        standard_type_complete _ _ (is_pkh (hash160 H b) (length-hash160 b)),
        standard_type_complete _ _ (is_wpkh (hash160 H b) (length-hash160 b)),
        standard_type_complete _ _ (is_sh (hash160 H b) (length-hash160 b)),
        standard_type_complete _ _ (is_wsh (H.sha256 b) (H.sha256_size b)),
        rw kept (standard_type_complete _ _ (is_op_return (take 75 b) small)),
      )
