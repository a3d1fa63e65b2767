-- ===== src/Provider/Poll.antt =====
-- What a poll of a stream reads and gives: the errors of provider/src/provider.rs, the futures of
-- provider/src/lib.rs and the macro `unpause!` of provider/src/macros.rs.
pub mod Runs
use bitcoins_rs.Base.{Bool, Option, Result, false, if◌then◌else◌, ok, panic, true, ◌⊎◌}

-- `std::task::Poll`
pub data Poll {ℓ} (A : Type ℓ) : Type ℓ where
  pending : Poll A
  ready : A → Poll A

-- The payloads that `from_parsing` does not read are left out.
pub data ProviderError : Type 0 where
  serde_json_error : ProviderError
  encoder_error : ProviderError
  coins_ser_error : ProviderError
  unsupported : ProviderError
  rpc_error_response : ProviderError
  custom : Bool → ProviderError

unfoldable pub from_parsing : ProviderError → Bool
from_parsing serde_json_error = true
from_parsing encoder_error = true
from_parsing coins_ser_error = true
from_parsing unsupported = false
from_parsing rpc_error_response = false
from_parsing (custom parsing) = parsing

-- What a call of the provider comes to.
abbrev pub Response : Type 0 → Type 0
Response A = ProviderError ⊎ A

-- A boxed future of an `async fn`. Once it has given its value it panics when it is polled again.
pub data ProviderFut : Type 0 where
  unresolved : ProviderFut
  resolved : ProviderFut

unfoldable pub poll_fut : {A : Type 0} → ProviderFut → Poll A → Result (Unit {0}) (Poll A)
poll_fut unresolved answer = ok answer
poll_fut resolved answer = panic

-- What a call of `poll_next` leaves and returns. `woken` tells that the task will be polled again:
-- the waker was called, or was left with a future or a timer that is pending.
pub record Polled (S : Type 0) (I : Type 0) : Type 0 where
  pub left : S
  pub item : Poll (Option I)
  pub woken : Bool

-- `return Poll::Pending` of `ready!`, which leaves the waker with what was polled.
abbrev pub not_ready : {S I : Type 0} → S → Polled S I
not_ready s = record { left = s; item = pending; woken = true }

-- `unpause!`: `elapsed` tells whether the interval has, and `next` is the state with the new future.
unfoldable pub unpause : {S I : Type 0} → Bool → S → S → Polled S I
unpause elapsed s next =
    if elapsed then record { left = next; item = pending; woken = true } else not_ready s
