-- ===== src/Provider/Last/Laws.antt =====
-- The value of the future for the last item (provider/src/utils.rs).
use bitcoins_rs.Base.{
  List, Option, Result, [], map, none, ok, refl, some, unwrap, ◌++◌, ◌>>=◌, ◌∙◌, ◌∷◌, ◌≡◌,
}
use bitcoins_rs.Provider.Last.{drive, poll_last}
use bitcoins_rs.Provider.Poll.{Poll, pending, ready}

-- What a stream gives that has not ended: nothing yet, or an item.
abbrev pub gives : {I : Type 0} → Option I → Poll (Option I)
gives none = pending
gives (some i) = ready (some i)

-- The item that no later one follows.
unfoldable pub last_item : {I : Type 0} → List (Option I) → Option I
last_item [] = none
last_item (x ∷ steps) = elim (last_item steps) [ some i ↦ some i | none ↦ x ]

-- The later of two items.
or_else : {I : Type 0} → Option I → Option I → Option I
or_else (some i) item = some i
or_else none item = item

value_of : {I : Type 0} → Option I → Result (Unit {0}) (Poll (Option I))
value_of o = unwrap o >>= λ i. ok (ready (some i))

later_none :
    {I : Type 0} (later item : Option I)
    → value_of (or_else later item)
      ≡ value_of (or_else (elim later [ some i ↦ some i | none ↦ none ]) item)
unfolding or_else value_of
later_none none item = refl
later_none (some i) item = refl

later_some :
    {I : Type 0} (later : Option I) (i : I) (item : Option I)
    → value_of (or_else later (some i))
      ≡ value_of (or_else (elim later [ some j ↦ some j | none ↦ some i ]) item)
unfolding or_else value_of
later_some none i item = refl
later_some (some j) i item = refl

later_alone : {I : Type 0} (later : Option I) → value_of (or_else later none) ≡ value_of later
unfolding or_else value_of
later_alone none = refl
later_alone (some i) = refl

drive_from :
    {I : Type 0} (item : Option I) (steps : List (Option I)) (more : List (Poll (Option I)))
    → drive item (map gives steps ++ (ready none ∷ more))
      ≡ (unwrap (or_else (last_item steps) item) >>= λ i. ok (ready (some i)))
unfolding drive poll_last last_item or_else value_of
drive_from none [] more = refl
drive_from (some i) [] more = refl
drive_from item (none ∷ steps) more = drive_from item steps more ∙ later_none (last_item steps) item
drive_from item (some i ∷ steps) more =
    drive_from (some i) steps more ∙ later_some (last_item steps) i item

-- A stream that gives items and then ends makes the future the last of them, and makes it panic if
-- there were none.
pub drive_lem :
    {I : Type 0} (steps : List (Option I)) (more : List (Poll (Option I)))
    → drive none (map gives steps ++ (ready none ∷ more))
      ≡ (unwrap (last_item steps) >>= λ i. ok (ready (some i)))
unfolding value_of
drive_lem steps more = drive_from none steps more ∙ later_alone (last_item steps)
