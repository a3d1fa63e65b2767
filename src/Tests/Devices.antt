-- ===== src/Tests/Devices.antt =====
-- Ledger commands, answers and packets at sample data. An error of the device is a number.
use bitcoins_rs.Base.{
  All, Bytes, List, [], arith, inl, inr, length-replicate, map, ok, replicate, some, suc, zero, ℕ,
  ◌*◌, ◌++◌, ◌+◌, ◌∷◌, ◌≡◌, ◌⊎◌,
}
use bitcoins_rs.Ledger.Apdu.{ApduCommand}
use bitcoins_rs.Ledger.Hid.{exchange, ledger_channel, read_response_apdu, write_apdu}
use bitcoins_rs.Ledger.Hid.Exchange.{exchange_lem, exchange_result}
use bitcoins_rs.Ledger.Hid.RoundTrip.{read_response_apdu-write_apdu, takes_all}
use bitcoins_rs.Ledger.Hid.Stops.{IsRead, read_response_apdu_stops}

abbrev sample_command : ApduCommand
sample_command = record {
  ins = 1;
  p1 = 0;
  p2 = 0;
  data_bytes = 0 ∷ 0 ∷ 0 ∷ 1 ∷ 0 ∷ 0 ∷ 0 ∷ 1 ∷ [];
  response_len = some 13;
}

read_response_apdu-write_apdu_example :
    (packets : List Bytes) × (write_apdu (takes_all {HidError = ℕ}) ledger_channel (replicate 100 7)
      ≡ ok packets)
    × (read_response_apdu {HidError = ℕ} (map inr packets) ≡ ok (replicate 100 7))
read_response_apdu-write_apdu_example =
    read_response_apdu-write_apdu ledger_channel (replicate 100 7) (omega arith)

exchange_lem_example :
    (packets : List Bytes) × (write_apdu
        (takes_all {HidError = ℕ})
        ledger_channel
        (replicate 100 7 ++ (0x90 ∷ 0 ∷ []))
      ≡ ok packets)
    × (exchange (takes_all {HidError = ℕ}) (map inr packets) sample_command
        ≡ exchange_result (256 * 0x90 + 0) (replicate 100 7 ++ (0x90 ∷ 0 ∷ [])))
exchange_lem_example =
    exchange_lem sample_command (replicate 100 7) 0x90 0 (omega arith) (omega arith)

abbrev no_bytes : ℕ ⊎ Bytes
no_bytes = inr []

empty_reads : (n : ℕ) → All IsRead (replicate n no_bytes)
unfolding IsRead
empty_reads zero = tt
empty_reads (suc n) = (tt, empty_reads n)

read_response_apdu_stops_example :
    read_response_apdu {HidError = ℕ} (replicate 1111 no_bytes ++ (inl 5 ∷ []))
    ≡ read_response_apdu (replicate 1111 no_bytes)
read_response_apdu_stops_example =
    read_response_apdu_stops (replicate 1111 no_bytes) (inl 5 ∷ []) (empty_reads 1111)
      (omega (arith, length-replicate 1111 no_bytes))
