-- ===== src/Ledger/Hid/Exchange.antt =====
-- The exchange of a command for an answer (ledger/src/transports/hid.rs, ledger/src/common.rs).
use bitcoins_rs.Base.{
  Bytes, List, Result, [], arith, drop-append, err, if-false, if◌then◌else◌, inr, length,
  length-append, le→ltb, ltb, map, none, ok, refl, some, ℕ, ◌*◌, ◌++◌, ◌+◌, ◌-◌, ◌<◌, ◌^◌, ◌∷◌, ◌≡◌,
  ◌≤◌,
}
use bitcoins_rs.Ledger.Apdu.{
  ApduCommand, LedgerError, arm, bad_retcode, codes, from_answer, is_success_code, max_data_size,
  response_status, retcode, serialize,
}
use bitcoins_rs.Ledger.Apdu.Laws.{command_fits}
use bitcoins_rs.Ledger.Hid.{exchange, ledger_channel, write_apdu}
use bitcoins_rs.Ledger.Hid.RoundTrip.{read_response_apdu-write_apdu, takes_all}

last_two :
    {E : Type 0} (payload : Bytes) (high low : ℕ)
    → retcode {E = E} (payload ++ (high ∷ low ∷ [])) ≡ ok (256 * high + low)
unfolding retcode
last_two payload high low =
    let count : length (payload ++ (high ∷ low ∷ [])) - 2 ≡ length payload =
      omega (arith, length-append payload (high ∷ low ∷ [])) in
    rw (retcode, count, drop-append (length payload) payload (high ∷ low ∷ []) refl) refl

module _ {HidError : Type 0} where
  -- What an exchange makes of an answer with a code.
  pub exchange_result : ℕ → Bytes → Result (LedgerError HidError) Bytes
  exchange_result code answer = elim (arm code codes) [
    | none ↦ ok answer
    | some r ↦ if is_success_code r then ok answer else err (bad_retcode r)
  ]

  from_answer_long :
      (answer : Bytes) → 2 ≤ length answer → from_answer {HidError = HidError} answer ≡ ok answer
  unfolding from_answer
  from_answer_long answer h = if-false (ltb (length answer) 2) _ _ (le→ltb (length answer) 2 h)

  -- A command whose data is no longer than 255 bytes, for which the device takes every packet and
  -- answers with the packets of a payload and a code: the exchange gives the answer, unless the code
  -- is a known one that is no success, which is the error then.
  pub exchange_lem :
      (c : ApduCommand) (payload : Bytes) (high low : ℕ)
      → length c.data_bytes ≤ max_data_size
      → length payload + 2 < 2 ^ 16
      → (packets : List Bytes) × (write_apdu
            (takes_all {HidError = HidError})
            ledger_channel
            (payload ++ (high ∷ low ∷ []))
          ≡ ok packets)
        × (exchange (takes_all {HidError = HidError}) (map inr packets) c
            ≡ exchange_result (256 * high + low) (payload ++ (high ∷ low ∷ [])))
  unfolding exchange exchange_result response_status
  exchange_lem c payload high low d l =
      let answer = payload ++ (high ∷ low ∷ []) in
      let count : length answer ≡ length payload + 2 = length-append payload (high ∷ low ∷ []) in
      let (packets, framed, answered) =
        read_response_apdu-write_apdu {HidError = HidError} ledger_channel answer (omega arith) in
      let (sent, went, back) =
        read_response_apdu-write_apdu {HidError = HidError} ledger_channel (serialize c)
          (command_fits c d) in
      (
        packets,
        framed,
        rw (went, answered, from_answer_long answer (omega arith), last_two payload high low) refl,
      )
