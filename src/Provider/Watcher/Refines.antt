-- ===== src/Provider/Watcher/Refines.antt =====
-- The watcher of provider/src/watcher.rs against what a consumer may see of a spend.
use bitcoins_rs.Base.{
  Bool, Bool-cases, Bytes, List, Option, [], and-eq_true, ap, arith, false, if-true, inl, inr, leb,
  leb→le, ltb, ltb→lt, none, not, ok, ok-injective, panic, refl, some, sym, true, ℕ, ◌&&◌, ◌<◌, ◌∙◌,
  ◌∷◌, ◌≡◌, ◌≤◌,
}
use mathlib.Core.Path.{subst}
use bitcoins_rs.Provider.Poll.{
  Poll, Polled, ProviderFut, Response, from_parsing, pending, ready, resolved, unpause, unresolved,
}
use bitcoins_rs.Provider.Poll.Runs.{items_of, poll_fut-eq-ok}
use bitcoins_rs.Provider.Tips.{retry}
use bitcoins_rs.Provider.Watcher.{
  PollingWatcher, WatcherAnswers, WatcherItem, WatcherStates, completed, keep_waiting, on_outspend,
  on_spend, on_spend_confs, on_spend_known, paused, poll_watcher, poll_watcher_in,
  waiting_more_confs, waiting_spends,
}

-- A spend is not seen, or was last reported with some confirmations, or the watch is over.
pub data View : Type 0 where
  unseen : View
  seen : ℕ → Bytes → View
  closed : View

-- The steps of a watch for `wanted` confirmations, with what each yields.
pub data Watch (wanted : ℕ) : View → List WatcherItem → View → Type 0 where
  idle : (v : View) → Watch wanted v [] v
  appears : (txid : Bytes) → 0 < wanted → Watch wanted unseen ((0, some txid) ∷ []) (seen 0 txid)
  taken : (txid : Bytes) → wanted ≡ 0 → Watch wanted unseen ((0, some txid) ∷ []) closed
  deepens :
      (c d : ℕ) (txid : Bytes)
      → c < d
      → d < wanted
      → Watch wanted (seen c txid) ((d, some txid) ∷ []) (seen d txid)
  settles :
      (c d : ℕ) (txid : Bytes)
      → wanted ≤ d
      → Watch wanted (seen c txid) ((d, some txid) ∷ []) closed
  vanishes : (c : ℕ) (txid : Bytes) → Watch wanted (seen c txid) ((0, none) ∷ []) unseen

unfoldable pub view : WatcherStates → View
view (waiting_spends fut) = unseen
view (paused confs txid) = seen confs txid
view (waiting_more_confs confs txid fut) = seen confs txid
view completed = closed

-- What a poll in the state `st` may do.
IsStep : PollingWatcher → WatcherStates → Polled PollingWatcher WatcherItem → Type 0
IsStep s st p =
    Watch s.confirmations (view st) (items_of p.item) (view p.left.state)
    × (p.left.confirmations ≡ s.confirmations)

on_spend-IsStep :
    (s : PollingWatcher) (fut : ProviderFut) (txid : Bytes)
    → IsStep s (waiting_spends fut) (on_spend s txid)
unfolding IsStep on_spend view
on_spend-IsStep s fut txid = elim (Bool-cases (ltb 0 s.confirmations)) [
  | inl more ↦ rw more (appears txid (ltb→lt 0 s.confirmations more), refl)
  | inr over ↦ rw over (taken txid (ground arith), refl)
]

keep_waiting-IsStep :
    (elapsed : Bool) (s : PollingWatcher) (fut polled : ProviderFut)
    → IsStep s (waiting_spends fut) (keep_waiting s elapsed polled)
unfolding IsStep keep_waiting unpause view
keep_waiting-IsStep true s fut polled = (idle unseen, refl)
keep_waiting-IsStep false s fut polled = (idle unseen, refl)

on_outspend-IsStep :
    (s : PollingWatcher) (elapsed : Bool) (fut : ProviderFut)
    (answer : Poll (Response (Option Bytes)))
    → IsStep s (waiting_spends fut) (on_outspend s elapsed answer)
unfolding on_outspend
on_outspend-IsStep s elapsed fut pending = keep_waiting-IsStep elapsed s fut unresolved
on_outspend-IsStep s elapsed fut (ready (inl e)) = keep_waiting-IsStep elapsed s fut resolved
on_outspend-IsStep s elapsed fut (ready (inr none)) = keep_waiting-IsStep elapsed s fut resolved
on_outspend-IsStep s elapsed fut (ready (inr (some txid))) = on_spend-IsStep s fut txid

on_known-IsStep :
    (s : PollingWatcher) (c : ℕ) (txid : Bytes) (fut : ProviderFut) (confs : ℕ)
    → IsStep s (waiting_more_confs c txid fut) (on_spend_known s c txid confs)
unfolding IsStep on_spend_known view
on_known-IsStep s c txid fut confs = elim (Bool-cases (ltb c confs && ltb confs s.confirmations)) [
  | inl deeper ↦
      let (more, below) = and-eq_true (ltb c confs) _ deeper in
      rw deeper
        (deepens c confs txid (ltb→lt c confs more) (ltb→lt confs s.confirmations below), refl)
  | inr same ↦ elim (Bool-cases (leb s.confirmations confs)) [
    | inl enough ↦
        rw (same, enough) (settles c confs txid (leb→le s.confirmations confs enough), refl)
    | inr fewer ↦ rw (same, fewer) (idle (seen c txid), refl)
  ]
]

on_confs-IsStep :
    (s : PollingWatcher) (c : ℕ) (txid : Bytes) (fut : ProviderFut)
    (answer : Poll (Response (Option ℕ))) (p : Polled PollingWatcher WatcherItem)
    → on_spend_confs s c txid answer ≡ ok p
    → IsStep s (waiting_more_confs c txid fut) p
unfolding on_spend_confs IsStep view
on_confs-IsStep s c txid fut pending p h =
    subst (IsStep s (waiting_more_confs c txid fut)) (ok-injective h) (idle (seen c txid), refl)
on_confs-IsStep s c txid fut (ready (inr none)) p h =
    subst (IsStep s (waiting_more_confs c txid fut)) (ok-injective h) (vanishes c txid, refl)
on_confs-IsStep s c txid fut (ready (inr (some confs))) p h =
    subst (IsStep s (waiting_more_confs c txid fut)) (ok-injective h)
      (on_known-IsStep s c txid fut confs)
on_confs-IsStep s c txid fut (ready (inl e)) p h = elim (Bool-cases (not (from_parsing e))) [
  | inl retry ↦
      subst (IsStep s (waiting_more_confs c txid fut))
        (ok-injective (sym (if-true (not (from_parsing e)) _ panic retry) ∙ h))
        (idle (seen c txid), refl)
  | inr parsing ↦ absurd (cc)
]

unpause-IsStep :
    (elapsed : Bool) (s : PollingWatcher) (c : ℕ) (txid : Bytes)
    → s.state ≡ paused c txid
    → IsStep s
        (paused c txid)
        (unpause elapsed s (record s { state = waiting_more_confs c txid unresolved }))
unfolding IsStep unpause view
unpause-IsStep true s c txid e = (idle (seen c txid), refl)
unpause-IsStep false s c txid e = (
  subst (λ v. Watch s.confirmations (seen c txid) [] v) (ap view (sym e)) (idle (seen c txid)),
  refl,
)

poll_in-IsStep :
    (st : WatcherStates) (s : PollingWatcher) (a : WatcherAnswers)
    (p : Polled PollingWatcher WatcherItem)
    → s.state ≡ st
    → poll_watcher_in st s a ≡ ok p
    → IsStep s st p
unfolding poll_watcher_in IsStep view
poll_in-IsStep (waiting_spends fut) s a p e h =
    let (live, h1) = poll_fut-eq-ok fut a.outspend _ h in
    subst (IsStep s (waiting_spends fut)) (ok-injective h1)
      (on_outspend-IsStep s a.elapsed fut a.outspend)
poll_in-IsStep (paused c txid) s a p e h =
    subst (IsStep s (paused c txid)) (ok-injective h) (unpause-IsStep a.elapsed s c txid e)
poll_in-IsStep (waiting_more_confs c txid fut) s a p e h =
    let (live, h1) = poll_fut-eq-ok fut a.confs _ h in on_confs-IsStep s c txid fut a.confs p h1
poll_in-IsStep completed s a p e h = subst (IsStep s completed) (ok-injective h) (idle closed, refl)

-- Every poll of a watcher that returns is a step of the watch for as many confirmations, and yields
-- what that step does.
pub watcher_refines :
    (s : PollingWatcher) (a : WatcherAnswers) (p : Polled PollingWatcher WatcherItem)
    → poll_watcher s a ≡ ok p
    → Watch s.confirmations (view s.state) (items_of p.item) (view p.left.state)
      × (p.left.confirmations ≡ s.confirmations)
unfolding poll_watcher IsStep
watcher_refines s a p h = poll_in-IsStep s.state s a p refl h
