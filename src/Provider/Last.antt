-- ===== src/Provider/Last.antt =====
-- provider/src/utils.rs: the future for the last item of a stream.
pub mod Laws
use bitcoins_rs.Base.{List, Option, Result, [], none, ok, some, unwrap, ◌>>=◌, ◌>>◌, ◌∷◌}
use bitcoins_rs.Provider.Poll.{Poll, pending, ready}

-- `Last::poll`, on the item so far and what the stream gives: the item kept, and the value of the
-- future. A stream that ends with no item panics.
unfoldable pub poll_last :
    {I : Type 0} → Option I → Poll (Option I) → Result (Unit {0}) (Option I × Poll (Option I))
poll_last item pending = ok (item, pending)
poll_last item (ready (some i)) = ok (some i, pending)
poll_last item (ready none) = unwrap item >>= λ last. ok (none, ready (some last))

-- The polls of the future over what the stream gives, until it has a value.
unfoldable pub drive :
    {I : Type 0} → Option I → List (Poll (Option I)) → Result (Unit {0}) (Poll (Option I))
drive item [] = ok pending
drive item (p ∷ polls) = do
  (item1, value) ← poll_last item p
  elim value [ pending ↦ drive item1 polls | ready v ↦ ok (ready v) ]
