-- ===== src/Provider/Pending.antt =====
-- provider/src/pending.rs: a transaction that is broadcast and watched until it has enough
-- confirmations.
pub mod Reports
pub mod Progress
use bitcoins_rs.Base.{
  Bool, Bytes, Option, Result, err, false, if◌then◌else◌, inl, inr, leb, ltb, none, not, ok, panic,
  some, true, ℕ, ◌&&◌, ◌>>=◌,
}
use bitcoins_rs.Bitcoins.Tx.{BitcoinTx, txid_of}
use bitcoins_rs.Hashes.{HashFunctions}
use bitcoins_rs.Provider.Poll.{
  Poll, Polled, ProviderFut, Response, from_parsing, not_ready, pending, poll_fut, ready, resolved,
  unpause, unresolved,
}

pub data PendingTxStates : Type 0 where
  broadcasting : ProviderFut → PendingTxStates
  paused : PendingTxStates
  waiting_conf_fut : ProviderFut → PendingTxStates
  dropped : PendingTxStates
  completed : PendingTxStates

-- The fields but the interval and the provider.
pub record PendingTx : Type 0 where
  pub txid : Bytes
  pub tx : BitcoinTx
  pub confs_wanted : ℕ
  pub confs_have : ℕ
  pub state : PendingTxStates

-- `PendingTx::new`
unfoldable pub new_pending : HashFunctions → BitcoinTx → PendingTx
new_pending H tx = record {
  txid = txid_of H tx;
  tx = tx;
  confs_wanted = 0;
  confs_have = 0;
  state = broadcasting unresolved;
}

-- `PendingTx::confirmations`
unfoldable pub pending_confirmations : ℕ → PendingTx → PendingTx
pending_confirmations confs s = record s { confs_wanted = confs }

-- What the provider and the timer answer in one poll.
pub record PendingAnswers : Type 0 where
  pub broadcast : Poll (Response Bytes)
  pub confs : Poll (Response (Option ℕ))
  pub elapsed : Bool

abbrev pub PendingItem : Type 0
PendingItem = Result BitcoinTx (ℕ × Bytes)

-- The branches of the match on the broadcast.
unfoldable pub on_broadcast : PendingTx → Poll (Response Bytes) → Polled PendingTx PendingItem
on_broadcast s pending = not_ready s
on_broadcast s (ready (inl e)) = record {
  left = record s { state = broadcasting resolved };
  item = pending;
  woken = false;
}
on_broadcast s (ready (inr id)) = record {
  left = record s { state = waiting_conf_fut unresolved };
  item = ready (some (ok (0, s.txid)));
  woken = true;
}

-- The branch of a transaction that the provider knows.
unfoldable pub on_known : PendingTx → ℕ → Polled PendingTx PendingItem
on_known s confs =
    let s1 = record s { confs_have = confs } in
    if ltb s1.confs_have confs && ltb confs s1.confs_wanted
    then record {
      left = record s1 { state = paused };
      item = ready (some (ok (confs, s1.txid)));
      woken = false;
    }
    else (if leb s1.confs_wanted confs
        then record {
          left = record s1 { state = completed };
          item = ready (some (ok (confs, s1.txid)));
          woken = true;
        }
        else record { left = record s1 { state = paused }; item = pending; woken = false })

-- The match on the confirmations. An error of parsing panics.
unfoldable pub on_confs :
    PendingTx → Poll (Response (Option ℕ)) → Result (Unit {0}) (Polled PendingTx PendingItem)
on_confs s pending = ok (not_ready s)
on_confs s (ready (inr (some confs))) = ok (on_known s confs)
on_confs s (ready (inr none)) =
    ok record { left = record s { state = dropped }; item = ready (some (err s.tx)); woken = true }
on_confs s (ready (inl e)) =
    if not (from_parsing e)
    then ok record { left = record s { state = paused }; item = pending; woken = false }
    else panic

-- A stream that has ended gives `None`.
abbrev pub ended : {S I : Type 0} → S → Polled S I
ended s = record { left = s; item = ready none; woken = false }

unfoldable pub poll_pending_in :
    PendingTxStates → PendingTx → PendingAnswers → Result (Unit {0}) (Polled PendingTx PendingItem)
poll_pending_in (broadcasting fut) s a =
    poll_fut fut a.broadcast >>= λ answer. ok (on_broadcast s answer)
poll_pending_in paused s a =
    ok (unpause a.elapsed s (record s { state = waiting_conf_fut unresolved }))
poll_pending_in (waiting_conf_fut fut) s a = poll_fut fut a.confs >>= λ answer. on_confs s answer
poll_pending_in dropped s a = ok (ended s)
poll_pending_in completed s a = ok (ended s)

-- `PendingTx::poll_next`
unfoldable pub poll_pending :
    PendingTx → PendingAnswers → Result (Unit {0}) (Polled PendingTx PendingItem)
poll_pending s a = poll_pending_in s.state s a
