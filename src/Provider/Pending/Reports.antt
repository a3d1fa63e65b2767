-- ===== src/Provider/Pending/Reports.antt =====
-- What a pending transaction reports (provider/src/pending.rs).
use bitcoins_rs.Base.{
  Bool, Bytes, List, Option, Result, [], ap, arith, err, false, inl, inr, none, ok, ok-injective,
  refl, some, true, ℕ, ◌++◌, ◌∙◌, ◌∷◌, ◌≡◌, ◌≤◌, ◌⊎◌,
}
use mathlib.Core.Path.{subst}
use bitcoins_rs.Bitcoins.Tx.{BitcoinTx, txid_of}
use bitcoins_rs.Hashes.{HashFunctions}
use bitcoins_rs.Provider.Pending.{
  PendingAnswers, PendingItem, PendingTx, PendingTxStates, broadcasting, completed, dropped,
  new_pending, on_broadcast, on_confs, on_known, paused, pending_confirmations, poll_pending,
  poll_pending_in, waiting_conf_fut,
}
use bitcoins_rs.Provider.Poll.{Poll, Polled, Response, pending, ready, unpause, unresolved}
use bitcoins_rs.Provider.Poll.Runs.{items_of, poll_fut-eq-ok, run, run-trace}

-- The items once the transaction is broadcast.
IsAfter : PendingTx → List PendingItem → Type 0
IsAfter s l =
    (l ≡ [])
    ⊎ (((confs : ℕ) × (s.confs_wanted ≤ confs) × (l ≡ ok (confs, s.txid) ∷ []))
        ⊎ (l ≡ err s.tx ∷ []))

-- The items to come in each state.
IsToCome : PendingTxStates → PendingTx → List PendingItem → Type 0
unfolding IsAfter
IsToCome (broadcasting fut) s l =
    (l ≡ []) ⊎ ((rest : List PendingItem) × (l ≡ ok (0, s.txid) ∷ rest) × IsAfter s rest)
IsToCome paused s l = IsAfter s l
IsToCome (waiting_conf_fut fut) s l = IsAfter s l
IsToCome dropped s l = l ≡ []
IsToCome completed s l = l ≡ []

abbrev Good : PendingTx → List PendingItem → Type 0
Good s l = IsToCome s.state s l

IsToCome-none : (st : PendingTxStates) (s : PendingTx) → IsToCome st s []
unfolding IsToCome IsAfter
IsToCome-none (broadcasting fut) s = inl refl
IsToCome-none paused s = inl refl
IsToCome-none (waiting_conf_fut fut) s = inl refl
IsToCome-none dropped s = refl
IsToCome-none completed s = refl

on_known-IsAfter :
    (s : PendingTx) (confs : ℕ) (l : List PendingItem)
    → Good (on_known s confs).left l
    → IsAfter s (items_of (on_known s confs).item ++ l)
unfolding on_known IsToCome IsAfter
on_known-IsAfter s confs l h = ground arith

on_confs-IsAfter :
    (s : PendingTx) (answer : Poll (Response (Option ℕ))) (p : Polled PendingTx PendingItem)
    (l : List PendingItem)
    → IsToCome s.state s l ≡ IsAfter s l
    → on_confs s answer ≡ ok p
    → Good p.left l
    → IsAfter s (items_of p.item ++ l)
unfolding on_confs IsToCome IsAfter on_known
on_confs-IsAfter s pending p l e h g =
    subst (λ q. Good q.left l → IsAfter s (items_of q.item ++ l)) (ok-injective h)
      (λ g. subst (λ x. x) e g) g
on_confs-IsAfter s (ready (inr (some confs))) p l e h g =
    subst (λ q. Good q.left l → IsAfter s (items_of q.item ++ l)) (ok-injective h)
      (on_known-IsAfter s confs l) g
on_confs-IsAfter s (ready (inr none)) p l e h g = ground arith
on_confs-IsAfter s (ready (inl x)) p l e h g = ground arith

on_broadcast-IsToCome :
    (s : PendingTx) (answer : Poll (Response Bytes)) (l : List PendingItem)
    → s.state ≡ broadcasting unresolved
    → Good (on_broadcast s answer).left l
    → IsToCome (broadcasting unresolved) s (items_of (on_broadcast s answer).item ++ l)
unfolding on_broadcast IsToCome IsAfter
on_broadcast-IsToCome s pending l e g = subst (λ st. IsToCome st s l) e g
on_broadcast-IsToCome s (ready (inl x)) l e g = g
on_broadcast-IsToCome s (ready (inr id)) l e g = inr (l, refl, g)

unpause-IsAfter :
    (elapsed : Bool) (s : PendingTx) (p : Polled PendingTx PendingItem) (l : List PendingItem)
    → s.state ≡ paused
    → ◌≡◌ {A = Result (Unit {0}) (Polled PendingTx PendingItem)}
        (ok (unpause elapsed s (record s { state = waiting_conf_fut unresolved })))
        (ok p)
    → Good p.left l
    → IsAfter s (items_of p.item ++ l)
unfolding unpause IsToCome IsAfter
unpause-IsAfter true s p l e h g = ground arith
unpause-IsAfter false s p l e h g = ground arith

poll_in-Good :
    (st : PendingTxStates) (s : PendingTx) (a : PendingAnswers) (p : Polled PendingTx PendingItem)
    (l : List PendingItem)
    → s.state ≡ st
    → poll_pending_in st s a ≡ ok p
    → Good p.left l
    → IsToCome st s (items_of p.item ++ l)
unfolding poll_pending_in IsToCome unpause
poll_in-Good (broadcasting fut) s a p l e h g =
    let (live, h1) = poll_fut-eq-ok fut a.broadcast _ h in
    subst (λ q. Good q.left l → IsToCome (broadcasting unresolved) s (items_of q.item ++ l))
      (ok-injective h1) (on_broadcast-IsToCome s a.broadcast l (e ∙ ap broadcasting live)) g
poll_in-Good paused s a p l e h g = unpause-IsAfter a.elapsed s p l e h g
poll_in-Good (waiting_conf_fut fut) s a p l e h g =
    let (live, h1) = poll_fut-eq-ok fut a.confs _ h in
    on_confs-IsAfter s a.confs p l (ap (λ st. IsToCome st s l) e) h1 g
poll_in-Good dropped s a p l e h g = ground arith
poll_in-Good completed s a p l e h g = ground arith

-- Nothing, or that the transaction was sent and then at most one more item, which is a number of
-- confirmations of at least the wanted ones, or the transaction back.
abbrev pub IsReport : Bytes → BitcoinTx → ℕ → List PendingItem → Type 0
IsReport txid tx wanted items =
    (items ≡ [])
    ⊎ ((items ≡ ok (0, txid) ∷ [])
        ⊎ (((confs : ℕ) × (wanted ≤ confs) × (items ≡ ok (0, txid) ∷ ok (confs, txid) ∷ []))
            ⊎ (items ≡ ok (0, txid) ∷ err tx ∷ [])))

-- What a pending transaction reports, under any answers of the provider and the timer: nothing, or
-- that it was sent and then at most one more item, which is a number of confirmations of at least
-- the wanted ones, or the transaction back when it was dropped.
pub pending_reports :
    (H : HashFunctions) (tx : BitcoinTx) (wanted : ℕ) (answers : List PendingAnswers)
    (t : PendingTx) (items : List PendingItem)
    → run poll_pending (pending_confirmations wanted (new_pending H tx)) answers ≡ ok (t, items)
    → IsReport (txid_of H tx) tx wanted items
unfolding IsToCome new_pending pending_confirmations IsAfter poll_pending
pending_reports H tx wanted answers t items h =
    let s = pending_confirmations wanted (new_pending H tx) in
    let reports =
      run-trace poll_pending Good (λ s. IsToCome-none s.state s)
        (λ s a p l k g. poll_in-Good s.state s a p l refl k g) s t answers items h in
    elim reports [
      | inl nothing ↦ inl nothing
      | inr (rest, split, after) ↦ elim after [
        | inl alone ↦ inr (inl (split ∙ ap (λ r. ok (0, txid_of H tx) ∷ r) alone))
        | inr (inl (confs, enough, one)) ↦
            inr (inr (inl (confs, enough, split ∙ ap (λ r. ok (0, txid_of H tx) ∷ r) one)))
        | inr (inr lost) ↦ inr (inr (inr (split ∙ ap (λ r. ok (0, txid_of H tx) ∷ r) lost)))
      ]
    ]
