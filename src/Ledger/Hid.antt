-- ===== src/Ledger/Hid.antt =====
-- ledger/src/transports/hid.rs: the packets of commands and answers. The device is what it answers
-- to each write and what it gives to each read.
pub mod Packets
pub mod RoundTrip
pub mod Exchange
pub mod Stops
use bitcoins_rs.Base.{
  Bytes, List, Result, [], drop, err, fail_if, if◌then◌else◌, inl, inr, leb, length, ltb, map_err,
  min, none, not, ok, panic, replicate, some, suc, take, zero, ℕ, ◌%◌, ◌&&◌, ◌*◌, ◌++◌, ◌+◌, ◌-◌,
  ◌/◌, ◌==◌, ◌>>=◌, ◌>>◌, ◌||◌, ◌∷◌, ◌⊎◌,
}
use bitcoins_rs.Bip32.Path.{position}
use bitcoins_rs.Ledger.Apdu.{
  ApduCommand, LedgerError, NativeTransportError, bad_retcode, command_length, could_not_send,
  from_answer, hid, incomplete_header, is_success_code, native_transport_error, response_status,
  sequence_mismatch, serialize,
}

abbrev pub ledger_channel : ℕ
ledger_channel = 0x0101

abbrev pub ledger_packet_size : ℕ
ledger_packet_size = 64

-- `write_apdu`: the data after the two bytes of its length.
unfoldable pub in_data : Bytes → Bytes
in_data apdu_command =
    let command_length = length apdu_command in
    ((command_length / 256) % 256) ∷ (command_length % 256) ∷ apdu_command

-- `buffer[5..5 + chunk.len()].copy_from_slice(chunk)`, with the two bytes of the index. What was
-- in the buffer behind the chunk stays.
unfoldable pub fill_packet : Bytes → ℕ → Bytes → Bytes
fill_packet buffer sequence_idx chunk =
    take 3 buffer
    ++ (((sequence_idx / 256) % 256)
        ∷ (sequence_idx % 256)
        ∷ (chunk ++ drop (5 + length chunk) buffer))

-- The first buffer: the channel and the tag.
abbrev pub first_buffer : ℕ → Bytes
first_buffer channel =
    ((channel / 256) % 256) ∷ (channel % 256) ∷ 0x05 ∷ replicate (ledger_packet_size - 3) 0

-- `read_u16::<BigEndian>`
unfoldable pub from_be_bytes : ℕ → ℕ → ℕ
from_be_bytes high low = 256 * high + low

-- `read_response_header`: the index of a packet.
unfoldable pub received_seq_idx : Bytes → ℕ
received_seq_idx buffer = elim (drop 3 buffer) [
  | high ∷ low ∷ rest ↦ from_be_bytes high low
  | _ ↦ 0
]

-- The length in the first packet.
unfoldable pub received_length : Bytes → ℕ
received_length buffer = elim (drop 5 buffer) [ high ∷ low ∷ rest ↦ from_be_bytes high low | _ ↦ 0 ]

-- What the bytes of a read leave in the buffer: those behind them stay.
unfoldable pub fill_response : Bytes → Bytes → Bytes
fill_response data_read buffer = take (length buffer) data_read ++ drop (length data_read) buffer

module _ {HidError : Type 0} where
  -- The match on what the device says of a write: an error, or how much was written.
  unfoldable pub check_write : HidError ⊎ ℕ → Result (NativeTransportError HidError) (Unit {0})
  check_write (inl x) = err (hid x)
  check_write (inr size) = fail_if (ltb size ledger_packet_size) could_not_send

  -- The loop over the chunks, with the packets that are sent. `chunks` cuts the data on fuel.
  unfoldable pub send_chunks :
      (Bytes → HidError ⊎ ℕ)
      → ℕ
      → Bytes
      → ℕ
      → Bytes
      → Result (NativeTransportError HidError) (List Bytes)
  send_chunks device zero buffer sequence_idx rest = panic
  send_chunks device (suc fuel) buffer sequence_idx [] = ok []
  send_chunks device (suc fuel) buffer sequence_idx (b ∷ rest) = do
    let chunk = take (ledger_packet_size - 5) (b ∷ rest)
    let buffer1 = fill_packet buffer sequence_idx chunk
    check_write (device buffer1)
    sent ←
        send_chunks device fuel buffer1 (sequence_idx + 1)
          (drop (ledger_packet_size - 5) (b ∷ rest))
    ok (buffer1 ∷ sent)

  unfoldable pub write_apdu :
      (Bytes → HidError ⊎ ℕ) → ℕ → Bytes → Result (NativeTransportError HidError) (List Bytes)
  write_apdu device channel apdu_command =
      send_chunks device (suc (length (in_data apdu_command))) (first_buffer channel) 0
        (in_data apdu_command)

  -- The loop of `read_response_apdu`, over what the device gives to each read. A device that gives
  -- nothing more makes `read_timeout` return 0. The offset is below the expected length where it
  -- is taken from it, and the index stays far below 2^16.
  unfoldable pub read_packets :
      List (HidError ⊎ Bytes)
      → Bytes
      → ℕ
      → ℕ
      → ℕ
      → Bytes
      → Result (NativeTransportError HidError) Bytes
  read_packets [] buffer sequence_idx expected offset answer_buf = err incomplete_header
  read_packets (inl x ∷ reads) buffer sequence_idx expected offset answer_buf = err (hid x)
  read_packets (inr data_read ∷ reads) buffer sequence_idx expected offset answer_buf = do
    let res = length data_read
    fail_if ((sequence_idx == 0 && ltb res 7) || ltb res 5) incomplete_header
    let buffer1 = fill_response data_read buffer
    let rcv_seq_idx = received_seq_idx buffer1
    fail_if (not (rcv_seq_idx == sequence_idx)) (sequence_mismatch rcv_seq_idx sequence_idx)
    let position = if rcv_seq_idx == 0 then 7 else 5
    let expected1 = if rcv_seq_idx == 0 then received_length buffer1 else expected
    let missing = expected1 - offset
    let remaining_in_buf = length buffer1 - position
    let new_chunk = take (min remaining_in_buf missing) (drop position buffer1)
    let answer1 = answer_buf ++ new_chunk
    let offset1 = offset + length new_chunk
    if leb expected1 offset1
        then ok answer1
        else read_packets reads buffer1 (sequence_idx + 1) expected1 offset1 answer1

  unfoldable pub read_response_apdu :
      List (HidError ⊎ Bytes) → Result (NativeTransportError HidError) Bytes
  read_response_apdu reads = read_packets reads (replicate ledger_packet_size 0) 0 0 0 []

  -- `TransportNativeHID::exchange`
  unfoldable pub exchange :
      (Bytes → HidError ⊎ ℕ)
      → List (HidError ⊎ Bytes)
      → ApduCommand
      → Result (LedgerError HidError) Bytes
  exchange device reads command = do
    sent ← map_err native_transport_error (write_apdu device ledger_channel (serialize command))
    answer_buf ← map_err native_transport_error (read_response_apdu reads)
    apdu_answer ← from_answer answer_buf
    status ← response_status apdu_answer
    elim status [
      | none ↦ ok apdu_answer
      | some response ↦
          if is_success_code response then ok apdu_answer else err (bad_retcode response)
    ]
