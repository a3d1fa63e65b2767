-- ===== src/Provider/Poll/Runs.antt =====
-- Streams polled over a list of inputs, and what can be shown of every such run.
use bitcoins_rs.Base.{
  >>=-eq-ok, Bool, List, Option, Result, [], err, false, none, not, ok, ok-pair_injective, panic,
  refl, some, ◌++◌, ◌>>=◌, ◌∷◌, ◌≡◌,
}
use mathlib.Core.Path.{subst}
use bitcoins_rs.Provider.Poll.{
  Poll, Polled, ProviderFut, pending, poll_fut, ready, resolved, unresolved,
}

-- The future that is polled gives an answer, unless it has done so before.
pub poll_fut-eq-ok :
    {A B : Type 0} (fut : ProviderFut) (a : Poll A) (k : Poll A → Result (Unit {0}) B) {b : B}
    → (poll_fut fut a >>= k) ≡ ok b
    → (fut ≡ unresolved) × (k a ≡ ok b)
unfolding poll_fut
poll_fut-eq-ok unresolved a k h = (refl, h)
poll_fut-eq-ok resolved a k h = cc

-- What a poll yields to the consumer.
abbrev pub items_of : {I : Type 0} → Poll (Option I) → List I
items_of pending = []
items_of (ready none) = []
items_of (ready (some i)) = i ∷ []

-- Whether a poll leaves the task with nothing that wakes it.
unfoldable pub is_asleep : {S I : Type 0} → Result (Unit {0}) (Polled S I) → Bool
is_asleep (ok p) = elim p.item [ pending ↦ not p.woken | ready i ↦ false ]
is_asleep (err e) = false
is_asleep panic = false

module _ {S I E : Type 0} (poll : S → E → Result (Unit {0}) (Polled S I)) where
  -- The polls of a consumer, one for each input: the state left and the items yielded.
  unfoldable pub run : S → List E → Result (Unit {0}) (S × List I)
  run s [] = ok (s, [])
  run s (e ∷ es) = do p ← poll s e; rest ← run p.left es; ok (rest.0, items_of p.item ++ rest.1)

  -- A property of a state and of the items to come holds of every run, if it holds when there are
  -- none to come and each poll keeps it.
  pub run-trace :
      (Good : S → List I → Type 0)
      → ((s : S) → Good s [])
      → ((s : S) (e : E) (p : Polled S I) (l : List I)
          → poll s e ≡ ok p
          → Good p.left l
          → Good s (items_of p.item ++ l))
      → (s t : S) (es : List E) (l : List I) → run s es ≡ ok (t, l)
      → Good s l
  unfolding run
  run-trace Good start step s t [] l h = subst (Good s) (ok-pair_injective h).1 (start s)
  run-trace Good start step s t (e ∷ es) l h =
      let (p, polled, h1) = >>=-eq-ok (poll s e) _ h in
      let (rest, went, h2) = >>=-eq-ok (run p.left es) _ h1 in
      let behind = run-trace Good start step p.left rest.0 es rest.1 went in
      subst (Good s) (ok-pair_injective h2).1 (step s e p rest.1 polled behind)

  -- An invariant of every poll is one of every run.
  pub run-invariant :
      (Inv : S → Type 0)
      → ((s : S) (e : E) (p : Polled S I) → poll s e ≡ ok p → Inv s → Inv p.left)
      → (s t : S) (es : List E) (l : List I) → run s es ≡ ok (t, l)
      → Inv s
      → Inv t
  unfolding run
  run-invariant Inv step s t [] l h i = subst Inv (ok-pair_injective h).0 i
  run-invariant Inv step s t (e ∷ es) l h i =
      let (p, polled, h1) = >>=-eq-ok (poll s e) _ h in
      let (rest, went, h2) = >>=-eq-ok (run p.left es) _ h1 in
      subst Inv (ok-pair_injective h2).0
        (run-invariant Inv step p.left rest.0 es rest.1 went (step s e p polled i))

  pub run-cons :
      (s t : S) (e : E) (es : List E) (p : Polled S I) (l : List I)
      → poll s e ≡ ok p
      → run p.left es ≡ ok (t, l)
      → run s (e ∷ es) ≡ ok (t, items_of p.item ++ l)
  unfolding run
  run-cons s t e es p l polled went = rw (polled, went) refl

  pub run-panic :
      (s : S) (e e' : E) (es : List E) (p : Polled S I)
      → poll s e ≡ ok p
      → poll p.left e' ≡ panic
      → run s (e ∷ e' ∷ es) ≡ panic
  unfolding run
  run-panic s e e' es p polled stuck = rw (polled, stuck) refl
