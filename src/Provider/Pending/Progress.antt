-- ===== src/Provider/Pending/Progress.antt =====
-- How far a pending transaction gets, and when it is left asleep (provider/src/pending.rs).
use bitcoins_rs.Base.{
  All, Bool, Bytes, List, Option, Result, [], ap, arith, false, if-true, inl, inr, ltb, none, not,
  ok, refl, some, sym, true, ℕ, ◌++◌, ◌∷◌, ◌≡◌, ◌≤◌, ◌⊎◌,
}
use mathlib.Core.Path.{subst}
use bitcoins_rs.Provider.Pending.{
  PendingAnswers, PendingItem, PendingTx, PendingTxStates, broadcasting, completed, dropped, ended,
  on_broadcast, on_confs, on_known, paused, poll_pending, poll_pending_in, waiting_conf_fut,
}
use bitcoins_rs.Provider.Poll.{
  Poll, Polled, Response, from_parsing, pending, poll_fut, ready, resolved, unpause, unresolved,
}
use bitcoins_rs.Provider.Poll.Runs.{is_asleep, items_of, run, run-cons}

-- The states in which no future is left that has given its value.
abbrev pub is_live : PendingTxStates → Bool
is_live (broadcasting unresolved) = true
is_live (broadcasting resolved) = false
is_live paused = true
is_live (waiting_conf_fut unresolved) = true
is_live (waiting_conf_fut resolved) = false
is_live dropped = true
is_live completed = true

-- No failed broadcast and no error of parsing.
abbrev pub calm_broadcast : Poll (Response Bytes) → Bool
calm_broadcast (ready (inl e)) = false
calm_broadcast _ = true

abbrev pub calm_confs : Poll (Response (Option ℕ)) → Bool
calm_confs (ready (inl e)) = not (from_parsing e)
calm_confs _ = true

pub record IsCalm (a : PendingAnswers) : Type 0 where
  pub sent : calm_broadcast a.broadcast ≡ true
  pub parsed : calm_confs a.confs ≡ true

live_unpause :
    (elapsed : Bool) (s : PendingTx)
    → s.state ≡ paused
    → is_live
        (unpause {I = PendingItem} elapsed s
          (record s { state = waiting_conf_fut unresolved })).left.state
      ≡ true
unfolding unpause
live_unpause true s e = refl
live_unpause false s e = ap is_live e

live_known : (s : PendingTx) (confs : ℕ) → is_live (on_known s confs).left.state ≡ true
unfolding on_known
live_known s confs = ground arith

calm_on_confs :
    (s : PendingTx) (answer : Poll (Response (Option ℕ)))
    → s.state ≡ waiting_conf_fut unresolved
    → calm_confs answer ≡ true
    → (p : Polled PendingTx PendingItem) × (on_confs s answer ≡ ok p)
      × (is_live p.left.state ≡ true)
unfolding on_confs
calm_on_confs s pending e c = (_, refl, ap is_live e)
calm_on_confs s (ready (inr none)) e c = (_, refl, refl)
calm_on_confs s (ready (inr (some confs))) e c = (_, refl, live_known s confs)
calm_on_confs s (ready (inl x)) e c = (
  record { left = record s { state = paused }; item = pending; woken = false },
  if-true (not (from_parsing x)) _ _ c,
  refl,
)

calm_poll_in :
    (st : PendingTxStates) (s : PendingTx) (a : PendingAnswers)
    → s.state ≡ st
    → is_live st ≡ true
    → IsCalm a
    → (p : Polled PendingTx PendingItem) × (poll_pending_in st s a ≡ ok p)
      × (is_live p.left.state ≡ true)
unfolding poll_pending_in poll_fut on_broadcast on_confs on_known unpause
calm_poll_in (broadcasting resolved) s a e l c = cc
calm_poll_in (broadcasting unresolved) s a e l c = calm_sent a.broadcast c.sent
  where
    calm_sent :
        (answer : Poll (Response Bytes))
        → calm_broadcast answer ≡ true
        → (p : Polled PendingTx PendingItem) × (◌≡◌
            {A = Result (Unit {0}) (Polled PendingTx PendingItem)}
            (ok (on_broadcast s answer))
            (ok p))
          × (is_live p.left.state ≡ true)
    calm_sent pending k = (_, refl, ap is_live e)
    calm_sent (ready (inl x)) k = cc
    calm_sent (ready (inr id)) k = (_, refl, refl)
calm_poll_in paused s a e l c = (_, refl, live_unpause a.elapsed s e)
calm_poll_in (waiting_conf_fut resolved) s a e l c = cc
calm_poll_in (waiting_conf_fut unresolved) s a e l c = calm_on_confs s a.confs e c.parsed
calm_poll_in dropped s a e l c = (_, refl, ap is_live e)
calm_poll_in completed s a e l c = (_, refl, ap is_live e)

-- A broadcast that fails, fewer confirmations than wanted, and an error that is not from parsing.
unfoldable pub falls_asleep : PendingTxStates → ℕ → PendingAnswers → Bool
falls_asleep (broadcasting unresolved) wanted a = elim a.broadcast [
  | pending ↦ false
  | ready (inl e) ↦ true
  | ready (inr id) ↦ false
]
falls_asleep (waiting_conf_fut unresolved) wanted a = elim a.confs [
  | pending ↦ false
  | ready (inl e) ↦ not (from_parsing e)
  | ready (inr none) ↦ false
  | ready (inr (some confs)) ↦ ltb confs wanted
]
falls_asleep _ wanted a = false

pending_asleep_in :
    (st : PendingTxStates) (s : PendingTx) (a : PendingAnswers)
    → is_asleep (poll_pending_in st s a) ≡ falls_asleep st s.confs_wanted a
unfolding is_asleep falls_asleep poll_pending_in poll_fut on_broadcast on_confs on_known unpause
pending_asleep_in st s a = ground arith

-- Whatever its state, a poll of a pending transaction that no future has ended in leaves the task
-- with nothing that wakes it exactly if the broadcast failed, there were fewer confirmations than
-- wanted, or the provider's error is not one of parsing.
pub pending_asleep :
    (s : PendingTx) (a : PendingAnswers)
    → is_asleep (poll_pending s a) ≡ falls_asleep s.state s.confs_wanted a
unfolding poll_pending
pending_asleep s a = pending_asleep_in s.state s a

-- Under answers that are no failed broadcast and no error of parsing, every run from a state that
-- holds no spent future returns, and leaves such a state.
pub pending_total :
    (s : PendingTx) (answers : List PendingAnswers)
    → is_live s.state ≡ true
    → All IsCalm answers
    → (t : PendingTx) × (items : List PendingItem) × (run poll_pending s answers ≡ ok (t, items))
      × (is_live t.state ≡ true)
unfolding run poll_pending
pending_total s [] l c = (s, [], refl, l)
pending_total s (a ∷ answers) l (calm, c) =
    let (p, polled, live) = calm_poll_in s.state s a refl l calm in
    let (t, items, went, l') = pending_total p.left answers live c in
    (t, items_of p.item ++ items, run-cons poll_pending s t a answers p items polled went, l')

-- The states from which the stream goes on.
abbrev pub pending_going : PendingTxStates → Bool
pending_going (broadcasting unresolved) = true
pending_going paused = true
pending_going (waiting_conf_fut unresolved) = true
pending_going _ = false

-- The provider takes the transaction and knows of enough confirmations, and the interval is over.
pub record IsEnough (wanted : ℕ) (a : PendingAnswers) : Type 0 where
  pub taken : (id : Bytes) × (a.broadcast ≡ ready (inr id))
  pub deep : (confs : ℕ) × (wanted ≤ confs) × (a.confs ≡ ready (inr (some confs)))
  pub over : a.elapsed ≡ true

enough_known :
    (s : PendingTx) (confs : ℕ) → s.confs_wanted ≤ confs → (on_known s confs).left.state ≡ completed
unfolding on_known
enough_known s confs h = ground arith

completes_waiting :
    (s : PendingTx) (a : PendingAnswers)
    → s.state ≡ waiting_conf_fut unresolved
    → IsEnough s.confs_wanted a
    → (p : Polled PendingTx PendingItem) × (poll_pending s a ≡ ok p) × (p.left.state ≡ completed)
unfolding poll_pending poll_pending_in poll_fut on_confs
completes_waiting s a e h =
    let (confs, enough, known) = h.deep in
    (on_known s confs, simp (e, known), enough_known s confs enough)

stays_completed :
    (s : PendingTx) (answers : List PendingAnswers)
    → s.state ≡ completed
    → run poll_pending s answers ≡ ok (s, [])
unfolding run poll_pending poll_pending_in
stays_completed s [] e = refl
stays_completed s (a ∷ answers) e =
    run-cons poll_pending s s a answers (ended s) [] (ap (λ st. poll_pending_in st s a) e)
      (stays_completed s answers e)

completes_from_waiting :
    (s : PendingTx) (a : PendingAnswers) (more : List PendingAnswers)
    → s.state ≡ waiting_conf_fut unresolved
    → IsEnough s.confs_wanted a
    → (t : PendingTx) × (items : List PendingItem) × (run poll_pending s (a ∷ more) ≡ ok (t, items))
      × (t.state ≡ completed)
completes_from_waiting s a more e h =
    let (p, polled, done) = completes_waiting s a e h in
    (
      p.left,
      items_of p.item ++ [],
      run-cons poll_pending s p.left a more p [] polled (stays_completed p.left more done),
      done,
    )

going_next :
    (st : PendingTxStates) (s : PendingTx) (a : PendingAnswers)
    → s.state ≡ st
    → pending_going st ≡ true
    → IsEnough s.confs_wanted a
    → (p : Polled PendingTx PendingItem) × (poll_pending s a ≡ ok p)
      × (((p.left.state ≡ waiting_conf_fut unresolved) × (p.left.confs_wanted ≡ s.confs_wanted))
          ⊎ (p.left.state ≡ completed))
unfolding poll_pending poll_pending_in poll_fut unpause on_broadcast
going_next (broadcasting unresolved) s a e g h =
    (on_broadcast s (ready (inr h.taken.0)), simp (e, h.taken.1), inl (refl, refl))
going_next (broadcasting resolved) s a e g h = cc
going_next paused s a e g h = (
  record { left = record s { state = waiting_conf_fut unresolved }; item = pending; woken = true },
  simp (e, h.over),
  inl (refl, refl),
)
going_next (waiting_conf_fut unresolved) s a e g h =
    let (p, polled, done) = completes_waiting s a e h in (p, polled, inr done)
going_next (waiting_conf_fut resolved) s a e g h = cc
going_next dropped s a e g h = cc
going_next completed s a e g h = cc

-- Two polls with a provider that takes the transaction and knows of enough confirmations, and with
-- the interval over, complete the stream from every state that goes on, and it stays completed
-- whatever is answered then.
pub pending_completes :
    (s : PendingTx) (a b : PendingAnswers) (more : List PendingAnswers)
    → pending_going s.state ≡ true
    → IsEnough s.confs_wanted a
    → IsEnough s.confs_wanted b
    → (t : PendingTx) × (items : List PendingItem) × (run poll_pending s (a ∷ b ∷ more)
        ≡ ok (t, items))
      × (t.state ≡ completed)
pending_completes s a b more g ha hb =
    let (p, polled, next) = going_next s.state s a refl g ha in
    elim next [
      | inl (waiting, wanted) ↦
          let (t, items, went, done) =
            completes_from_waiting p.left b more waiting
              (subst (λ n. IsEnough n b) (sym wanted) hb) in
          (t, _, run-cons poll_pending s t a (b ∷ more) p items polled went, done)
      | inr over ↦ (
        p.left,
        _,
        run-cons poll_pending s p.left a (b ∷ more) p [] polled
            (stays_completed p.left (b ∷ more) over),
        over,
      )
    ]
