-- ===== src/Provider/Tips.antt =====
-- provider/src/chain.rs: the stream of chain tips.
pub mod Laws
use bitcoins_rs.Base.{
  Bool, Bytes, Option, Result, bytes_eq, false, if◌then◌else◌, inl, inr, none, ok, some, ℕ, ◌-◌,
  ◌==◌, ◌>>=◌,
}
use bitcoins_rs.Provider.Poll.{
  Poll, Polled, ProviderFut, Response, not_ready, pending, poll_fut, ready, unpause, unresolved,
}

-- The fields but the interval and the provider.
pub record Tips : Type 0 where
  pub limit : ℕ
  pub fut_opt : Option ProviderFut
  pub last : Option Bytes

-- `Tips::new`
unfoldable pub new_tips : ℕ → Tips
new_tips limit = record { limit = limit; fut_opt = some unresolved; last = none }

-- What the provider and the timer answer in one poll.
pub record TipsAnswers : Type 0 where
  pub tip_hash : Poll (Response Bytes)
  pub elapsed : Bool

-- `if let Some(hash) = *last { if hash == block_hash ...`
unfoldable pub just_saw : Option Bytes → Bytes → Bool
just_saw none block_hash = false
just_saw (some hash) block_hash = bytes_eq hash block_hash

-- The end of `poll_next`, where the interval is polled.
unfoldable pub retry : Tips → Bool → Polled Tips Bytes
retry s elapsed = unpause elapsed s (record s { fut_opt = some unresolved })

-- The result of the future, which is gone by then.
unfoldable pub on_tip : Tips → Bool → Poll (Response Bytes) → Polled Tips Bytes
on_tip s elapsed pending = not_ready s
on_tip s elapsed (ready (inl e)) = retry (record s { fut_opt = none }) elapsed
on_tip s elapsed (ready (inr block_hash)) =
    if just_saw s.last block_hash
    then record { left = record s { fut_opt = none }; item = pending; woken = false }
    else record {
      left = record { limit = s.limit - 1; fut_opt = none; last = some block_hash };
      item = ready (some block_hash);
      woken = false;
    }

-- `Tips::poll_next`. The limit is not 0 where 1 is taken from it.
unfoldable pub poll_tips : Tips → TipsAnswers → Result (Unit {0}) (Polled Tips Bytes)
poll_tips s a =
    if s.limit == 0
    then ok record { left = s; item = ready none; woken = false }
    else elim s.fut_opt [
      | some fut ↦ poll_fut fut a.tip_hash >>= λ answer. ok (on_tip s a.elapsed answer)
      | none ↦ ok (retry s a.elapsed)
    ]
