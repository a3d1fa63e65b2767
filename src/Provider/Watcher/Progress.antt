-- ===== src/Provider/Watcher/Progress.antt =====
-- How far a watcher gets, and when it is left asleep (provider/src/watcher.rs).
use bitcoins_rs.Base.{
  Bool, Bytes, List, Option, ap, arith, false, inl, inr, leb, ltb, none, not, panic, refl, some,
  true, ℕ, ◌&&◌, ◌∷◌, ◌≡◌, ◌≤◌, ◌⊎◌,
}
use bitcoins_rs.Provider.Poll.{
  Poll, Response, from_parsing, pending, poll_fut, ready, resolved, unpause, unresolved,
}
use bitcoins_rs.Provider.Poll.Runs.{is_asleep, run, run-panic}
use bitcoins_rs.Provider.Watcher.{
  PollingWatcher, WatcherAnswers, WatcherStates, completed, keep_waiting, on_outspend, on_spend,
  on_spend_confs, on_spend_known, paused, poll_watcher, poll_watcher_in, waiting_more_confs,
  waiting_spends,
}

-- Confirmations that are no more than before and fewer than wanted, and an error that is not from
-- parsing.
unfoldable pub watcher_falls_asleep : WatcherStates → ℕ → WatcherAnswers → Bool
watcher_falls_asleep (waiting_more_confs previous_confs txid unresolved) wanted a = elim a.confs [
  | pending ↦ false
  | ready (inl e) ↦ not (from_parsing e)
  | ready (inr none) ↦ false
  | ready (inr (some confs)) ↦ leb confs previous_confs && ltb confs wanted
]
watcher_falls_asleep _ wanted a = false

asleep_in :
    (st : WatcherStates) (s : PollingWatcher) (a : WatcherAnswers)
    → is_asleep (poll_watcher_in st s a) ≡ watcher_falls_asleep st s.confirmations a
unfolding is_asleep watcher_falls_asleep poll_watcher_in poll_fut on_outspend on_spend keep_waiting
    on_spend_confs on_spend_known unpause
asleep_in st s a = ground arith

-- A poll of a watcher leaves the task with nothing that wakes it exactly if the spend has no more
-- confirmations than before and fewer than wanted, or the provider's error is not one of parsing.
pub watcher_asleep :
    (s : PollingWatcher) (a : WatcherAnswers)
    → is_asleep (poll_watcher s a) ≡ watcher_falls_asleep s.state s.confirmations a
unfolding poll_watcher
watcher_asleep s a = asleep_in s.state s a

-- The provider knows of no spend, or fails.
abbrev pub finds_nothing : Poll (Response (Option Bytes)) → Bool
finds_nothing pending = false
finds_nothing (ready (inl e)) = true
finds_nothing (ready (inr none)) = true
finds_nothing (ready (inr (some txid))) = false

nothing_found :
    (s : PollingWatcher) (answer : Poll (Response (Option Bytes)))
    → finds_nothing answer ≡ true
    → (on_outspend s false answer).left.state ≡ waiting_spends resolved
unfolding on_outspend keep_waiting unpause
nothing_found s pending h = cc
nothing_found s (ready (inl e)) h = refl
nothing_found s (ready (inr none)) h = refl
nothing_found s (ready (inr (some txid))) h = cc

-- A watcher to which the provider answers that there is no spend, or fails, before the interval is
-- over, panics in the next poll, whatever is answered then: it polls the future that has ended.
pub watcher_panics :
    (s : PollingWatcher) (a b : WatcherAnswers) (more : List WatcherAnswers)
    → s.state ≡ waiting_spends unresolved
    → a.elapsed ≡ false
    → finds_nothing a.outspend ≡ true
    → run poll_watcher s (a ∷ b ∷ more) ≡ panic
unfolding poll_watcher poll_watcher_in poll_fut
watcher_panics s a b more live early h =
    run-panic poll_watcher s a b more (on_outspend s false a.outspend) (rw (live, early) refl) (
      ap (λ st. poll_watcher_in st (on_outspend s false a.outspend).left b)
        (nothing_found s a.outspend h))

-- The states from which the stream goes on.
abbrev pub watcher_going : WatcherStates → Bool
watcher_going (waiting_spends unresolved) = true
watcher_going (paused c txid) = true
watcher_going (waiting_more_confs c txid unresolved) = true
watcher_going _ = false

-- The provider knows of the spend and of enough confirmations, and the interval is over.
pub record IsSpendEnough (wanted : ℕ) (a : WatcherAnswers) : Type 0 where
  pub spent : (txid : Bytes) × (a.outspend ≡ ready (inr (some txid)))
  pub deep : (confs : ℕ) × (wanted ≤ confs) × (a.confs ≡ ready (inr (some confs)))
  pub over : a.elapsed ≡ true

-- The watcher waits for the same confirmations, or is done.
IsOnWay : PollingWatcher → PollingWatcher → Type 0
IsOnWay s t =
    ((c : ℕ) × (txid : Bytes) × (t.state ≡ waiting_more_confs c txid unresolved)
      × (t.confirmations ≡ s.confirmations))
    ⊎ (t.state ≡ completed)
