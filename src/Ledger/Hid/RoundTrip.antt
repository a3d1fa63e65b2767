-- ===== src/Ledger/Hid/RoundTrip.antt =====
-- Commands of ledger/src/transports/hid.rs, cut into packets and put together again.
use bitcoins_rs.Base.{
  Bool-cases, Bytes, List, [], ap, append_assoc, arith, drop, drop_all, if-false, if-true, inl, inr,
  leb, leb→le, leb→lt, length, length-drop, length-take, le→leb, lt→leb, map, ok, refl, replicate,
  suc, sym, take, take-append-drop, take_all, zero, ℕ, ◌%◌, ◌++◌, ◌+◌, ◌-◌, ◌/◌, ◌<◌, ◌>>=◌, ◌^◌,
  ◌∙◌, ◌∷◌, ◌≡◌, ◌≤◌, ◌⊎◌,
}
use bitcoins_rs.Ledger.Hid.{
  check_write, fill_packet, first_buffer, from_be_bytes, in_data, ledger_packet_size, read_packets,
  read_response_apdu, received_length, send_chunks, write_apdu,
}
use bitcoins_rs.Ledger.Hid.Packets.{
  drop_more, length-fill_packet, packet_chunk, packet_index, read_chunk, read_first,
}

-- A device that takes every packet whole.
abbrev pub takes_all : {HidError : Type 0} → Bytes → HidError ⊎ ℕ
takes_all packet = inr ledger_packet_size

packet_length :
    (packet : Bytes) (n : ℕ) (rest : Bytes)
    → n < 2 ^ 16
    → drop 5 packet ≡ ((n / 256) % 256) ∷ (n % 256) ∷ rest
    → received_length packet ≡ n
unfolding received_length from_be_bytes
packet_length packet n rest small split = rw (received_length, split) (omega arith)

module _ {HidError : Type 0} where
  send_step :
      (fuel : ℕ) (buffer : Bytes) (i : ℕ) (rest : Bytes)
      → 0 < length rest
      → send_chunks (takes_all {HidError = HidError}) (suc fuel) buffer i rest ≡ (
          send_chunks takes_all fuel (fill_packet buffer i (take 59 rest)) (i + 1) (drop 59 rest)
          >>= λ sent. ok (fill_packet buffer i (take 59 rest) ∷ sent))
  unfolding send_chunks check_write
  send_step fuel buffer i [] h = absurd (omega arith)
  send_step fuel buffer i (x ∷ rest) h = refl

  send_end :
      (fuel : ℕ) (buffer : Bytes) (i : ℕ)
      → 0 < fuel
      → send_chunks (takes_all {HidError = HidError}) fuel buffer i [] ≡ ok []
  unfolding send_chunks
  send_end zero buffer i h = absurd (omega arith)
  send_end (suc fuel) buffer i h = refl

  -- Behind the first packet: the chunks that are sent are put together again.
  chunks_back :
      (fuel : ℕ) (buffer stale rest answer : Bytes) (i expected offset : ℕ)
      → length buffer ≡ 64
      → length stale ≡ 64
      → length rest < fuel
      → 0 < length rest
      → offset + length rest ≡ expected
      → 0 < i
      → i + length rest < 2 ^ 16
      → (packets : List Bytes) × (send_chunks (takes_all {HidError = HidError}) fuel buffer i rest
          ≡ ok packets)
        × (read_packets {HidError = HidError} (map inr packets) stale i expected offset answer
            ≡ ok (answer ++ rest))
  chunks_back zero buffer stale rest answer i expected offset b st f r o p l = absurd (omega arith)
  chunks_back (suc fuel) buffer stale rest answer i expected offset b st f r o p l =
      let chunk = take 59 rest in
      let behind = drop 59 rest in
      let packet = fill_packet buffer i chunk in
      let short : length chunk ≤ 59 = omega (arith, length-take 59 rest) in
      let left : length behind ≡ length rest - 59 = length-drop 59 rest in
      let size : length packet ≡ 64 = length-fill_packet buffer i chunk b short in
      let read = λ (packets : List Bytes).
        read_chunk {HidError = HidError} (map inr packets) packet stale chunk
          (drop (5 + length chunk) buffer) answer i expected offset size st (λ e. omega arith)
          (packet_index buffer i chunk b (omega arith)) (packet_chunk buffer i chunk b)
          (omega (arith, length-take 59 rest)) in
      elim (Bool-cases (leb (length rest) 59)) [
        | inl last ↦
            let one : chunk ≡ rest = take_all 59 rest (leb→le (length rest) 59 last) in
            let none_left : behind ≡ [] = drop_all 59 rest (leb→le (length rest) 59 last) in
            (
              packet ∷ [],
              send_step fuel buffer i rest r
                  ∙ ap
                      (λ d.
                        send_chunks takes_all fuel packet (i + 1) d >>= λ sent. ok (packet ∷ sent))
                      none_left
                  ∙ ap (λ m. m >>= λ sent. ok (packet ∷ sent))
                      (send_end fuel packet (i + 1) (omega arith)),
              read []
                  ∙ if-true (leb expected (offset + length chunk)) _ _
                      (le→leb expected (offset + length chunk) (omega (arith, ap length one)))
                  ∙ ap (λ c. ok (answer ++ c)) one,
            )
        | inr more ↦
            let bigger : 59 < length rest = leb→lt (length rest) 59 more in
            let (packets, sent, back) =
              chunks_back fuel packet packet behind (answer ++ chunk) (i + 1) expected
                (offset + length chunk) size size (omega arith) (omega arith)
                (omega (arith, length-take 59 rest)) (omega arith) (omega arith) in
            (
              packet ∷ packets,
              send_step fuel buffer i rest r ∙ ap (λ m. m >>= λ sent. ok (packet ∷ sent)) sent,
              read packets
                  ∙ if-false (leb expected (offset + length chunk)) _ _
                      (lt→leb expected (offset + length chunk) (omega (arith, length-take 59 rest)))
                  ∙ back
                  ∙ ap ok (
                      append_assoc answer chunk behind
                      ∙ ap (λ l. answer ++ l) (take-append-drop 59 rest)),
            )
      ]

  -- The first packet, and what is behind it.
  first_back :
      (fuel : ℕ) (buffer stale apdu : Bytes)
      → length buffer ≡ 64
      → length stale ≡ 64
      → length apdu + 2 < suc fuel
      → length apdu < 2 ^ 16
      → (packets : List Bytes) × (send_chunks
            (takes_all {HidError = HidError})
            (suc fuel)
            buffer
            0
            (in_data apdu)
          ≡ ok packets)
        × (read_packets {HidError = HidError} (map inr packets) stale 0 0 0 [] ≡ ok apdu)
  unfolding in_data
  first_back fuel buffer stale apdu b st f small =
      let chunk = take 57 apdu in
      let behind = drop 57 apdu in
      let packet = fill_packet buffer 0 (take 59 (in_data apdu)) in
      let short : length (take 59 (in_data apdu)) ≤ 59 =
        omega (arith, length-take 59 (in_data apdu)) in
      let left : length behind ≡ length apdu - 57 = length-drop 57 apdu in
      let size = length-fill_packet buffer 0 (take 59 (in_data apdu)) b short in
      let whole = packet_chunk buffer 0 (take 59 (in_data apdu)) b in
      let tail = drop (5 + length (take 59 (in_data apdu))) buffer in
      let read = λ (packets : List Bytes).
        read_first {HidError = HidError} (map inr packets) packet stale chunk tail (length apdu)
          size st (packet_index buffer 0 (take 59 (in_data apdu)) b (omega arith))
          (packet_length packet (length apdu) (chunk ++ tail) small whole)
          (sym (drop_more 5 2 packet) ∙ ap (drop 2) whole) (omega (arith, length-take 57 apdu)) in
      elim (Bool-cases (leb (length apdu) 57)) [
        | inl last ↦
            let one : chunk ≡ apdu = take_all 57 apdu (leb→le (length apdu) 57 last) in
            let none_left : behind ≡ [] = drop_all 57 apdu (leb→le (length apdu) 57 last) in
            (
              packet ∷ [],
              send_step fuel buffer 0 (in_data apdu) (omega arith)
                  ∙ ap
                      (λ d.
                        send_chunks takes_all fuel packet (0 + 1) d >>= λ sent. ok (packet ∷ sent))
                      none_left
                  ∙ ap (λ m. m >>= λ sent. ok (packet ∷ sent))
                      (send_end fuel packet 1 (omega arith)),
              read []
                  ∙ if-true (leb (length apdu) (0 + length chunk)) _ _
                      (le→leb (length apdu) (0 + length chunk) (omega (arith, ap length one)))
                  ∙ ap ok one,
            )
        | inr more ↦
            let bigger : 57 < length apdu = leb→lt (length apdu) 57 more in
            let (packets, sent, back) =
              chunks_back fuel packet packet behind chunk 1 (length apdu) (0 + length chunk) size
                size (omega arith) (omega arith) (omega (arith, length-take 57 apdu)) (omega arith)
                (omega arith) in
            (
              packet ∷ packets,
              send_step fuel buffer 0 (in_data apdu) (omega arith)
                  ∙ ap (λ m. m >>= λ sent. ok (packet ∷ sent)) sent,
              read packets
                  ∙ if-false (leb (length apdu) (0 + length chunk)) _ _
                      (lt→leb (length apdu) (0 + length chunk) (omega (arith, length-take 57 apdu)))
                  ∙ back
                  ∙ ap ok (take-append-drop 57 apdu),
            )
      ]

  -- A command shorter than 2^16 bytes is sent to a device that takes every packet, and the packets,
  -- read as an answer, give the command back.
  pub read_response_apdu-write_apdu :
      (channel : ℕ) (apdu_command : Bytes)
      → length apdu_command < 2 ^ 16
      → (packets : List Bytes) × (write_apdu (takes_all {HidError = HidError}) channel apdu_command
          ≡ ok packets)
        × (read_response_apdu {HidError = HidError} (map inr packets) ≡ ok apdu_command)
  unfolding write_apdu read_response_apdu in_data
  read_response_apdu-write_apdu channel apdu_command small =
      first_back (length (in_data apdu_command)) (first_buffer channel)
        (replicate ledger_packet_size 0) apdu_command refl refl (omega arith) small
