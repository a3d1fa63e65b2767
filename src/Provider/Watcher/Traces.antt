-- ===== src/Provider/Watcher/Traces.antt =====
-- The items that a watcher yields one after the other (provider/src/watcher.rs).
use bitcoins_rs.Base.{List, [], arith, none, ok, refl, some, sym, ℕ, ◌++◌, ◌<◌, ◌∷◌, ◌≡◌}
use mathlib.Core.Path.{subst}
use bitcoins_rs.Bitcoins.TxIn.{Outpoint}
use bitcoins_rs.Provider.Poll.Runs.{run, run-trace}
use bitcoins_rs.Provider.Watcher.{
  PollingWatcher, WatcherAnswers, WatcherItem, new_watcher, poll_watcher, watcher_confirmations,
}
use bitcoins_rs.Provider.Watcher.Refines.{
  View, Watch, appears, closed, deepens, idle, seen, settles, taken, unseen, vanishes, view,
  watcher_refines,
}

-- What may come after an item, for a watch of `wanted` confirmations: after a drop, a spend with
-- none; after a spend that has too few, the same spend with more, or a drop; and nothing after one
-- that has enough.
abbrev pub Follows : ℕ → WatcherItem → WatcherItem → Type 0
Follows wanted (c, none) (d, none) = ⊥
Follows wanted (c, none) (d, some txid) = d ≡ 0
Follows wanted (c, some txid) (d, none) = (c < wanted) × (d ≡ 0)
Follows wanted (c, some txid) (d, some next) = (c < wanted) × (c < d) × (next ≡ txid)

abbrev pub IsTrace : ℕ → List WatcherItem → Type 0
IsTrace wanted [] = Unit
IsTrace wanted (x ∷ []) = Unit
IsTrace wanted (x ∷ y ∷ l) = Follows wanted x y × IsTrace wanted (y ∷ l)

-- The items to come, after the one that the view remembers.
Good : ℕ → View → List WatcherItem → Type 0
Good wanted unseen l = IsTrace wanted ((0, none) ∷ l)
Good wanted (seen c txid) l = c < wanted → IsTrace wanted ((c, some txid) ∷ l)
Good wanted closed l = l ≡ []

Good-none : (wanted : ℕ) (v : View) → Good wanted v []
unfolding Good
Good-none wanted unseen = tt
Good-none wanted (seen c txid) = λ h. tt
Good-none wanted closed = refl

Watch-Good :
    (wanted : ℕ) {v v' : View} {items : List WatcherItem} (l : List WatcherItem)
    → Watch wanted v items v'
    → Good wanted v' l
    → Good wanted v (items ++ l)
unfolding Good
Watch-Good wanted l (idle v) g = g
Watch-Good wanted l (appears txid h) g = (refl, g h)
Watch-Good wanted l (taken txid h) g =
    subst (λ r. IsTrace wanted ((0, none) ∷ (0, some txid) ∷ r)) (sym g) (refl, tt)
Watch-Good wanted l (deepens c d txid more below) g = λ h. ((h, more, refl), g below)
Watch-Good wanted l (settles c d txid enough) g = λ h.
    subst (λ r. IsTrace wanted ((c, some txid) ∷ (d, some txid) ∷ r)) (sym g)
      ((h, omega arith, refl), tt)
Watch-Good wanted l (vanishes c txid) g = λ h. ((h, refl), g)

-- The items of a watcher, under any answers of the provider and the timer: the first is a spend with
-- no confirmations, as is the one after a drop; a spend with too few confirmations is followed by the
-- same with more, or by a drop; and nothing follows one with as many as are wanted.
pub watcher-IsTrace :
    (outpoint : Outpoint) (wanted : ℕ) (answers : List WatcherAnswers) (t : PollingWatcher)
    (items : List WatcherItem)
    → run poll_watcher (watcher_confirmations wanted (new_watcher outpoint)) answers ≡ ok (t, items)
    → IsTrace wanted ((0, none) ∷ items)
unfolding Good watcher_confirmations new_watcher view
watcher-IsTrace outpoint wanted answers t items h =
    let s = watcher_confirmations wanted (new_watcher outpoint) in
    run-trace poll_watcher (λ s l. Good s.confirmations (view s.state) l)
      (λ s. Good-none s.confirmations (view s.state))
      (λ s a p l polled g.
        let (step, same) = watcher_refines s a p polled in
        Watch-Good s.confirmations l step (subst (λ n. Good n (view p.left.state) l) same g))
      s t answers items h
