-- ===== src/Provider/Watcher.antt =====
-- provider/src/watcher.rs: an outpoint that is watched until its spend has enough confirmations.
pub mod Refines
pub mod Traces
pub mod Progress
use bitcoins_rs.Base.{
  Bool, Bytes, Option, Result, false, if◌then◌else◌, inl, inr, leb, ltb, none, not, ok, panic, some,
  true, ℕ, ◌&&◌, ◌>>=◌,
}
use bitcoins_rs.Bitcoins.TxIn.{Outpoint}
use bitcoins_rs.Provider.Poll.{
  Poll, Polled, ProviderFut, Response, from_parsing, pending, poll_fut, ready, resolved, unpause,
  unresolved,
}

pub data WatcherStates : Type 0 where
  waiting_spends : ProviderFut → WatcherStates
  paused : ℕ → Bytes → WatcherStates
  waiting_more_confs : ℕ → Bytes → ProviderFut → WatcherStates
  completed : WatcherStates

-- The fields but the interval and the provider.
pub record PollingWatcher : Type 0 where
  pub outpoint : Outpoint
  pub confirmations : ℕ
  pub state : WatcherStates

-- `PollingWatcher::new`
unfoldable pub new_watcher : Outpoint → PollingWatcher
new_watcher outpoint = record {
  outpoint = outpoint;
  confirmations = 0;
  state = waiting_spends unresolved;
}

-- `PollingWatcher::confirmations`
unfoldable pub watcher_confirmations : ℕ → PollingWatcher → PollingWatcher
watcher_confirmations confs s = record s { confirmations = confs }

-- What the provider and the timer answer in one poll.
pub record WatcherAnswers : Type 0 where
  pub outspend : Poll (Response (Option Bytes))
  pub confs : Poll (Response (Option ℕ))
  pub elapsed : Bool

abbrev pub WatcherItem : Type 0
WatcherItem = ℕ × Option Bytes

abbrev pub moved :
    PollingWatcher
    → WatcherStates
    → Poll (Option WatcherItem)
    → Bool
    → Polled PollingWatcher WatcherItem
moved s st item woken = record { left = record s { state = st }; item = item; woken = woken }

-- A spend is seen.
unfoldable pub on_spend : PollingWatcher → Bytes → Polled PollingWatcher WatcherItem
on_spend s txid =
    if ltb 0 s.confirmations
    then moved s (waiting_more_confs 0 txid unresolved) (ready (some (0, some txid))) false
    else moved s completed (ready (some (0, some txid))) true

-- The `else` of `WaitingSpends`: the future stays as the poll left it until the interval is over.
unfoldable pub keep_waiting :
    PollingWatcher → Bool → ProviderFut → Polled PollingWatcher WatcherItem
keep_waiting s elapsed polled =
    unpause elapsed (record s { state = waiting_spends polled })
      (record s { state = waiting_spends unresolved })

unfoldable pub on_outspend :
    PollingWatcher → Bool → Poll (Response (Option Bytes)) → Polled PollingWatcher WatcherItem
on_outspend s elapsed pending = keep_waiting s elapsed unresolved
on_outspend s elapsed (ready (inl e)) = keep_waiting s elapsed resolved
on_outspend s elapsed (ready (inr none)) = keep_waiting s elapsed resolved
on_outspend s elapsed (ready (inr (some txid))) = on_spend s txid

-- The spend has confirmations. With no more than before and too few, the spent future stays.
unfoldable pub on_spend_known : PollingWatcher → ℕ → Bytes → ℕ → Polled PollingWatcher WatcherItem
on_spend_known s previous_confs txid confs =
    if ltb previous_confs confs && ltb confs s.confirmations
    then moved s (paused confs txid) (ready (some (confs, some txid))) false
    else (if leb s.confirmations confs
        then moved s completed (ready (some (confs, some txid))) true
        else moved s (waiting_more_confs previous_confs txid resolved) pending false)

-- The match on the confirmations. An error of parsing panics.
unfoldable pub on_spend_confs :
    PollingWatcher
    → ℕ
    → Bytes
    → Poll (Response (Option ℕ))
    → Result (Unit {0}) (Polled PollingWatcher WatcherItem)
on_spend_confs s previous_confs txid pending =
    ok (moved s (waiting_more_confs previous_confs txid unresolved) pending true)
on_spend_confs s previous_confs txid (ready (inr none)) =
    ok (moved s (waiting_spends unresolved) (ready (some (0, none))) false)
on_spend_confs s previous_confs txid (ready (inr (some confs))) =
    ok (on_spend_known s previous_confs txid confs)
on_spend_confs s previous_confs txid (ready (inl e)) =
    if not (from_parsing e) then ok (moved s (paused previous_confs txid) pending false) else panic

unfoldable pub poll_watcher_in :
    WatcherStates
    → PollingWatcher
    → WatcherAnswers
    → Result (Unit {0}) (Polled PollingWatcher WatcherItem)
poll_watcher_in (waiting_spends fut) s a =
    poll_fut fut a.outspend >>= λ answer. ok (on_outspend s a.elapsed answer)
poll_watcher_in (paused previous_confs txid) s a =
    ok
      (unpause a.elapsed s (record s { state = waiting_more_confs previous_confs txid unresolved }))
poll_watcher_in (waiting_more_confs previous_confs txid fut) s a =
    poll_fut fut a.confs >>= λ answer. on_spend_confs s previous_confs txid answer
poll_watcher_in completed s a = ok (moved s completed (ready none) false)

-- `PollingWatcher::poll_next`
unfoldable pub poll_watcher :
    PollingWatcher → WatcherAnswers → Result (Unit {0}) (Polled PollingWatcher WatcherItem)
poll_watcher s a = poll_watcher_in s.state s a
