-- ===== src/Ledger/Hid/Packets.antt =====
-- The packets of ledger/src/transports/hid.rs.
use bitcoins_rs.Base.{
  ==_refl, Bytes, List, [], ap, append-nil, arith, drop, drop-append, drop_all, if◌then◌else◌, inr,
  leb, length, length-append, length-drop, length-take, min, ne→==, ok, refl, suc, sym, take,
  take-append, take_all, zero, ℕ, ◌%◌, ◌++◌, ◌+◌, ◌-◌, ◌/◌, ◌<◌, ◌^◌, ◌∙◌, ◌∷◌, ◌≡◌, ◌≢◌, ◌≤◌, ◌⊎◌,
}
use mathlib.Core.Path.{ap₂}
use bitcoins_rs.Ledger.Hid.{
  fill_packet, fill_response, from_be_bytes, read_packets, received_length, received_seq_idx,
}

pub length-fill_packet :
    (buffer : Bytes) (i : ℕ) (chunk : Bytes)
    → length buffer ≡ 64
    → length chunk ≤ 59
    → length (fill_packet buffer i chunk) ≡ 64
unfolding fill_packet
length-fill_packet buffer i chunk b c = omega (
  arith,
  length-append (take 3 buffer)
      (((i / 256) % 256) ∷ (i % 256) ∷ (chunk ++ drop (5 + length chunk) buffer)),
  length-take 3 buffer,
  length-append chunk (drop (5 + length chunk) buffer),
  length-drop (5 + length chunk) buffer,
)

-- What the reader finds in a packet.
pub drop_packet :
    (buffer : Bytes) (i : ℕ) (chunk : Bytes)
    → length buffer ≡ 64
    → drop 3 (fill_packet buffer i chunk)
      ≡ ((i / 256) % 256) ∷ (i % 256) ∷ (chunk ++ drop (5 + length chunk) buffer)
unfolding fill_packet
drop_packet buffer i chunk b = drop-append 3 (take 3 buffer) _ (omega (arith, length-take 3 buffer))

pub drop_more : {A : Type 0} (m n : ℕ) (xs : List A) → drop n (drop m xs) ≡ drop (m + n) xs
drop_more zero n xs = ap (λ k. drop k xs) (omega arith)
drop_more (suc m) n [] = drop_all n [] (omega arith) ∙ sym (drop_all (suc m + n) [] (omega arith))
drop_more (suc m) n (x ∷ xs) =
    let count : suc (m + n) ≡ suc m + n = omega arith in
    drop_more m n xs ∙ ap (λ k. drop k (x ∷ xs)) count

-- The reader's view of a packet that the writer filled.
pub packet_index :
    (buffer : Bytes) (i : ℕ) (chunk : Bytes)
    → length buffer ≡ 64
    → i < 2 ^ 16
    → received_seq_idx (fill_packet buffer i chunk) ≡ i
unfolding received_seq_idx from_be_bytes
packet_index buffer i chunk b small =
    rw (received_seq_idx, drop_packet buffer i chunk b) (omega arith)

pub packet_chunk :
    (buffer : Bytes) (i : ℕ) (chunk : Bytes)
    → length buffer ≡ 64
    → drop 5 (fill_packet buffer i chunk) ≡ chunk ++ drop (5 + length chunk) buffer
packet_chunk buffer i chunk b =
    sym (drop_more 3 2 (fill_packet buffer i chunk)) ∙ ap (drop 2) (drop_packet buffer i chunk b)

-- A read of a whole packet leaves the packet in the buffer.
pub fill_response_whole :
    (packet buffer : Bytes) → length packet ≡ length buffer → fill_response packet buffer ≡ packet
unfolding fill_response
fill_response_whole packet buffer e =
    ap₂ (λ x y. x ++ y) (take_all (length buffer) packet (omega arith))
      (drop_all (length packet) buffer (omega arith))
    ∙ append-nil packet

module _ {HidError : Type 0} where
  -- A packet behind the first one that has what its index says.
  pub read_chunk :
      (reads : List (HidError ⊎ Bytes)) (packet stale chunk tail answer : Bytes)
      (i expected offset : ℕ)
      → length packet ≡ 64
      → length stale ≡ 64
      → i ≢ 0
      → received_seq_idx packet ≡ i
      → drop 5 packet ≡ chunk ++ tail
      → min 59 (expected - offset) ≡ length chunk
      → read_packets (inr packet ∷ reads) stale i expected offset answer ≡ (
          if leb expected (offset + length chunk)
          then ok (answer ++ chunk)
          else read_packets reads packet (i + 1) expected (offset + length chunk) (answer ++ chunk))
  unfolding read_packets
  read_chunk reads packet stale chunk tail answer i expected offset p st ne idx split k =
      let whole = fill_response_whole packet stale (p ∙ sym st) in
      let got : take (min 59 (expected - offset)) (chunk ++ tail) ≡ chunk =
        ap (λ n. take n (chunk ++ tail)) k ∙ take-append (length chunk) chunk tail refl in
      let later = ne→== i 0 ne in rw (whole, idx, p, later, ==_refl i) (rw (split, got) refl)

  -- The first packet, which carries the length.
  pub read_first :
      (reads : List (HidError ⊎ Bytes)) (packet stale chunk tail : Bytes) (expected : ℕ)
      → length packet ≡ 64
      → length stale ≡ 64
      → received_seq_idx packet ≡ 0
      → received_length packet ≡ expected
      → drop 7 packet ≡ chunk ++ tail
      → min 57 (expected - 0) ≡ length chunk
      → read_packets (inr packet ∷ reads) stale 0 0 0 [] ≡ (
          if leb expected (0 + length chunk)
          then ok chunk
          else read_packets reads packet 1 expected (0 + length chunk) chunk)
  unfolding read_packets
  read_first reads packet stale chunk tail expected p st idx total split k =
      let whole = fill_response_whole packet stale (p ∙ sym st) in
      let got : take (min 57 (expected - 0)) (chunk ++ tail) ≡ chunk =
        ap (λ n. take n (chunk ++ tail)) k ∙ take-append (length chunk) chunk tail refl in
      rw (whole, idx, p, total) (rw (split, got) refl)
