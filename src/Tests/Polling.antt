-- ===== src/Tests/Polling.antt =====
-- The streams of the provider and merkle proofs at sample data.
use bitcoins_rs.Base.{
  All, Bool, Bytes, List, Option, [], arith, false, get_elem?, inr, length, none, ok, panic, refl,
  some, true, ℕ, ◌+◌, ◌∷◌, ◌≡◌, ◌≢◌, ◌⊎◌,
}
use bitcoins_rs.Bitcoins.Tx.{BitcoinTx, legacy, txid_of}
use bitcoins_rs.Bitcoins.TxIn.{new_outpoint}
use bitcoins_rs.Provider.Merkle.{merkle_from_txid_list}
use bitcoins_rs.Provider.Merkle.Branch.{merkle_from_txid_list-IsRoot}
use bitcoins_rs.Provider.Merkle.Reference.{IsRoot, fold_branch}
use bitcoins_rs.Provider.Pending.{
  PendingAnswers, PendingItem, PendingTx, PendingTxStates, new_pending, on_broadcast, on_confs,
  on_known, pending_confirmations, poll_pending, poll_pending_in,
}
use bitcoins_rs.Provider.Pending.Progress.{
  IsCalm, IsEnough, falls_asleep, pending_asleep, pending_completes, pending_going,
}
use bitcoins_rs.Provider.Pending.Reports.{IsReport, pending_reports}
use bitcoins_rs.Provider.Poll.{Poll, Response, pending, poll_fut, ready, unpause, unresolved}
use bitcoins_rs.Provider.Poll.Runs.{is_asleep, run}
use bitcoins_rs.Provider.Tips.{Tips, new_tips, poll_tips}
use bitcoins_rs.Provider.Tips.Laws.{IsFresh, tips_lem}
use bitcoins_rs.Provider.Watcher.{
  PollingWatcher, WatcherAnswers, WatcherStates, new_watcher, on_outspend, on_spend, on_spend_confs,
  on_spend_known, poll_watcher, poll_watcher_in, waiting_more_confs, watcher_confirmations,
}
use bitcoins_rs.Provider.Watcher.Progress.{watcher_panics}
use bitcoins_rs.Provider.Watcher.Refines.{Watch, seen, unseen, view, watcher_refines}
use bitcoins_rs.Provider.Watcher.Traces.{IsTrace, watcher-IsTrace}
use bitcoins_rs.Tests.Samples.{sample_hashes, sample_id, sample_legacy}

abbrev sample_tx : BitcoinTx
sample_tx = legacy sample_legacy

abbrev pending_answers : Poll (Response (Option ℕ)) → PendingAnswers
pending_answers confs = record { broadcast = ready (inr []); confs = confs; elapsed = true }

abbrev sent : PendingTx
sent = pending_confirmations 2 (new_pending sample_hashes sample_tx)

abbrev at_last : PendingTx
at_last = record sent { state = PendingTxStates.completed; confs_have = 3 }

abbrev deep_enough : Poll (Response (Option ℕ))
deep_enough = ready (inr (some 3))

sent_run :
    run poll_pending sent (
      pending_answers pending
      ∷ pending_answers (ready (inr (some 1)))
      ∷ pending_answers pending
      ∷ pending_answers deep_enough
      ∷ [])
    ≡ ok (
      at_last,
      ok (0, txid_of sample_hashes sample_tx) ∷ ok (3, txid_of sample_hashes sample_tx) ∷ [],
    )
unfolding run poll_pending poll_pending_in on_broadcast on_confs on_known poll_fut unpause
    new_pending pending_confirmations
sent_run = refl

sent_going : pending_going sent.state ≡ true
unfolding new_pending pending_confirmations
sent_going = refl

pending_reports_example :
    IsReport
      (txid_of sample_hashes sample_tx)
      sample_tx
      2
      (ok (0, txid_of sample_hashes sample_tx) ∷ ok (3, txid_of sample_hashes sample_tx) ∷ [])
pending_reports_example = pending_reports sample_hashes sample_tx 2 _ at_last _ sent_run

pending_IsEnough : IsEnough 2 (pending_answers deep_enough)
pending_IsEnough = record { taken = ([], refl); deep = (3, omega arith, refl); over = refl }

pending_completes_example :
    (t : PendingTx) × (items : List PendingItem) × (run poll_pending sent
        (pending_answers deep_enough ∷ pending_answers deep_enough ∷ [])
      ≡ ok (t, items))
    × (t.state ≡ PendingTxStates.completed)
unfolding pending_confirmations new_pending
pending_completes_example =
    pending_completes sent (pending_answers deep_enough) (pending_answers deep_enough) [] sent_going
      pending_IsEnough pending_IsEnough

pending_asleep_example :
    is_asleep (poll_pending sent (pending_answers pending))
    ≡ falls_asleep (PendingTxStates.broadcasting unresolved) 2 (pending_answers pending)
unfolding pending_confirmations new_pending
pending_asleep_example = pending_asleep sent (pending_answers pending)

sample_IsCalm : IsCalm (pending_answers pending)
sample_IsCalm = record { sent = refl; parsed = refl }

abbrev sample_watcher : PollingWatcher
sample_watcher = watcher_confirmations 2 (new_watcher (new_outpoint sample_id 1))

abbrev watcher_answers : Option Bytes → Option ℕ → Bool → WatcherAnswers
watcher_answers outspend confs elapsed = record {
  outspend = ready (inr outspend);
  confs = ready (inr confs);
  elapsed = elapsed;
}

abbrev first_spent : PollingWatcher
first_spent = record sample_watcher { state = waiting_more_confs 0 sample_id unresolved }

abbrev settled : PollingWatcher
settled = record sample_watcher { state = WatcherStates.completed }

first_poll :
    poll_watcher sample_watcher (watcher_answers (some sample_id) none true)
    ≡ ok record { left = first_spent; item = ready (some (0, some sample_id)); woken = false }
unfolding poll_watcher poll_watcher_in poll_fut on_outspend on_spend watcher_confirmations
    new_watcher
first_poll = refl

watcher_refines_example :
    Watch 2 unseen ((0, some sample_id) ∷ []) (seen 0 sample_id) × (first_spent.confirmations ≡ 2)
unfolding view watcher_confirmations new_watcher
watcher_refines_example =
    watcher_refines sample_watcher (watcher_answers (some sample_id) none true) _ first_poll

watcher_run :
    run poll_watcher sample_watcher (
      watcher_answers (some sample_id) none true
      ∷ watcher_answers none (some 1) true
      ∷ watcher_answers none none true
      ∷ watcher_answers none (some 2) true
      ∷ [])
    ≡ ok (settled, (0, some sample_id) ∷ (1, some sample_id) ∷ (2, some sample_id) ∷ [])
unfolding run poll_watcher poll_watcher_in poll_fut on_outspend on_spend on_spend_confs
    on_spend_known unpause watcher_confirmations new_watcher
watcher_run = refl

watcher-IsTrace_example :
    IsTrace 2 ((0, none) ∷ (0, some sample_id) ∷ (1, some sample_id) ∷ (2, some sample_id) ∷ [])
watcher-IsTrace_example = watcher-IsTrace (new_outpoint sample_id 1) 2 _ settled _ watcher_run

watcher_panics_example :
    run poll_watcher sample_watcher
      (watcher_answers none none false ∷ watcher_answers (some sample_id) none true ∷ [])
    ≡ panic
unfolding watcher_confirmations new_watcher
watcher_panics_example =
    watcher_panics sample_watcher (watcher_answers none none false)
      (watcher_answers (some sample_id) none true) [] refl refl refl

tips_lem_example :
    (t : Tips) × (items : List Bytes) × (run poll_tips
        (new_tips 2)
        (record { tip_hash = ready (inr sample_id); elapsed = true } ∷ [])
      ≡ ok (t, items))
    × (t.limit + length items ≡ 2)
    × IsFresh none items
tips_lem_example = tips_lem 2 (record { tip_hash = ready (inr sample_id); elapsed = true } ∷ [])

abbrev sample_block : List Bytes
sample_block = sample_id ∷ [] ∷ (1 ∷ []) ∷ []

merkle_from_txid_list-IsRoot_example :
    ((i : ℕ) × (branch : List Bytes) × (root : Bytes) × (merkle_from_txid_list sample_hashes
          (1 ∷ [])
          sample_block
        ≡ ok (some (i, branch)))
      × (get_elem? sample_block i ≡ some (1 ∷ []))
      × IsRoot sample_hashes sample_block root
      × (fold_branch sample_hashes i (1 ∷ []) branch ≡ root))
    ⊎ ((merkle_from_txid_list sample_hashes (1 ∷ []) sample_block ≡ ok none)
        × All (λ t. t ≢ (1 ∷ [])) sample_block)
merkle_from_txid_list-IsRoot_example =
    merkle_from_txid_list-IsRoot sample_hashes (1 ∷ []) sample_block
