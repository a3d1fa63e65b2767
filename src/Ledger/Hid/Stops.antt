-- ===== src/Ledger/Hid/Stops.antt =====
-- How many packets ledger/src/transports/hid.rs reads.
use bitcoins_rs.Base.{
  ==_iff, ==_refl, All, All-append, All-drop, All-take, Bool, Bool-cases, Bytes, IsByte, List, [],
  arith, drop, false, if◌then◌else◌, inl, inr, leb, leb→lt, length, length-append, length-drop,
  length-take, ltb, min, ne→==, refl, replicate, suc, take, true, zero, ℕ, ◌*◌, ◌++◌, ◌+◌, ◌-◌, ◌<◌,
  ◌==◌, ◌^◌, ◌||◌, ◌∙◌, ◌∷◌, ◌≡◌, ◌≢◌, ◌≤◌, ◌⊎◌,
}
use bitcoins_rs.Ledger.Hid.{
  fill_response, from_be_bytes, ledger_packet_size, read_packets, read_response_apdu,
  received_length, received_seq_idx,
}

length-fill_response :
    (data_read buffer : Bytes) → length (fill_response data_read buffer) ≡ length buffer
unfolding fill_response
length-fill_response data_read buffer = omega (
  arith,
  length-append (take (length buffer) data_read) (drop (length data_read) buffer),
  length-take (length buffer) data_read,
  length-drop (length data_read) buffer,
)

if-either :
    {A : Type 0} (b : Bool) (x y y' : A)
    → (b ≡ false → y ≡ y')
    → (if b then x else y) ≡ (if b then x else y')
if-either true x y y' h = refl
if-either false x y y' h = h refl

two_bytes :
    (l : Bytes)
    → All IsByte l
    → elim l [ high ∷ low ∷ rest ↦ from_be_bytes high low | _ ↦ 0 ] < 2 ^ 16
unfolding from_be_bytes
two_bytes [] h = omega arith
two_bytes (x ∷ []) h = omega arith
two_bytes (x ∷ y ∷ l) (hx, (hy, h)) = omega arith

received_length_bound : (buffer : Bytes) → All IsByte buffer → received_length buffer < 2 ^ 16
unfolding received_length
received_length_bound buffer h = two_bytes (drop 5 buffer) (All-drop IsByte 5 buffer h)

fill_response_bytes :
    (data_read buffer : Bytes)
    → All IsByte data_read
    → All IsByte buffer
    → All IsByte (fill_response data_read buffer)
unfolding fill_response
fill_response_bytes data_read buffer h k =
    All-append IsByte (take (length buffer) data_read) (drop (length data_read) buffer)
      (All-take IsByte (length buffer) data_read h) (All-drop IsByte (length data_read) buffer k)

zero_bytes : (n : ℕ) → All IsByte (replicate n 0)
zero_bytes zero = tt
zero_bytes (suc n) = (omega arith, zero_bytes n)

-- What the device gives to a read, if it gives bytes.
unfoldable pub IsRead : {HidError : Type 0} → HidError ⊎ Bytes → Type 0
IsRead (inl x) = Unit
IsRead (inr data_read) = All IsByte data_read

module _ {HidError : Type 0} where
  -- Behind the first packet, each one has 59 bytes or all that are missing.
  later_stops :
      (reads more : List (HidError ⊎ Bytes)) (buffer answer : Bytes) (i expected offset : ℕ)
      → length buffer ≡ 64
      → i ≢ 0
      → offset < expected
      → expected ≤ offset + 59 * length reads
      → read_packets (reads ++ more) buffer i expected offset answer
        ≡ read_packets reads buffer i expected offset answer
  unfolding read_packets
  later_stops [] more buffer answer i expected offset b ne o e = absurd (omega arith)
  later_stops (inl x ∷ reads) more buffer answer i expected offset b ne o e = refl
  later_stops (inr d ∷ reads) more buffer answer i expected offset b ne o e =
      let buffer1 = fill_response d buffer in
      let size : length buffer1 ≡ 64 = length-fill_response d buffer ∙ b in
      let later = ne→== i 0 ne in
      elim (Bool-cases (ltb (length d) 5)) [
        | inl cut ↦ rw (later, cut) refl
        | inr long ↦ elim (Bool-cases (received_seq_idx buffer1 == i)) [
          | inl same ↦
              let idx : received_seq_idx buffer1 ≡ i =
                (==_iff (received_seq_idx buffer1) i).0 same in
              rw (later, long, idx, ==_refl i, later, size)
                (let got = take (min 59 (expected - offset)) (drop 5 buffer1) in
                  if-either (leb expected (offset + length got)) _ _ _ (λ unfinished.
                    let behind : offset + length got < expected =
                      leb→lt expected (offset + length got) unfinished in
                    let enough : expected ≤ (offset + length got) + 59 * length reads = omega (
                      arith,
                      length-take (min 59 (expected - offset)) (drop 5 buffer1),
                      length-drop 5 buffer1,
                    ) in
                    later_stops reads more buffer1 (answer ++ got) (i + 1) expected
                      (offset + length got) size (λ z. omega arith) behind enough))
          | inr other ↦ rw (later, long, other) refl
        ]
      ]

  first_stops :
      (reads more : List (HidError ⊎ Bytes)) (buffer : Bytes)
      → length buffer ≡ 64
      → All IsByte buffer
      → All IsRead reads
      → 1111 ≤ length reads
      → read_packets (reads ++ more) buffer 0 0 0 [] ≡ read_packets reads buffer 0 0 0 []
  unfolding read_packets IsRead
  first_stops [] more buffer b k h n = absurd (omega arith)
  first_stops (inl x ∷ reads) more buffer b k h n = refl
  first_stops (inr d ∷ reads) more buffer b k (hd, h) n =
      let buffer1 = fill_response d buffer in
      let size : length buffer1 ≡ 64 = length-fill_response d buffer ∙ b in
      let total = received_length buffer1 in
      let small : total < 2 ^ 16 =
        received_length_bound buffer1 (fill_response_bytes d buffer hd k) in
      elim (Bool-cases (ltb (length d) 7 || ltb (length d) 5)) [
        | inl cut ↦ rw cut refl
        | inr long ↦ elim (Bool-cases (received_seq_idx buffer1 == 0)) [
          | inl same ↦
              rw (long, same, size)
                (let got = take (min 57 (total - 0)) (drop 7 buffer1) in
                  if-either (leb total (0 + length got)) _ _ _ (λ unfinished.
                    let behind : 0 + length got < total =
                      leb→lt total (0 + length got) unfinished in
                    let enough : total ≤ (0 + length got) + 59 * length reads = omega (
                      arith,
                      length-take (min 57 (total - 0)) (drop 7 buffer1),
                      length-drop 7 buffer1,
                    ) in
                    later_stops reads more buffer1 got (0 + 1) total (0 + length got) size
                      (λ z. omega arith) behind enough))
          | inr other ↦ rw (long, other) refl
        ]
      ]

  -- However many packets a device gives, no more than 1111 are read.
  pub read_response_apdu_stops :
      (reads more : List (HidError ⊎ Bytes))
      → All IsRead reads
      → 1111 ≤ length reads
      → read_response_apdu (reads ++ more) ≡ read_response_apdu reads
  unfolding read_response_apdu
  read_response_apdu_stops reads more h n =
      first_stops reads more (replicate ledger_packet_size 0) refl (zero_bytes 64) h n
