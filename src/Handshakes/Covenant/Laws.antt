-- ===== src/Handshakes/Covenant/Laws.antt =====
-- The format of covenants (handshakes/src/types/covenant.rs).
use bitcoins_rs.Base.{All, Bytes, List, [], ap, append_assoc, length, ok, refl, ◌++◌, ◌∙◌, ◌∷◌, ◌≡◌}
use bitcoins_rs.Handshakes.Covenant.{
  Covenant, read_covenant, read_covenant_data, read_covenant_items, write_covenant,
  write_covenant_data,
}
use bitcoins_rs.Ser.CompactInt.{write_compact_int}
use bitcoins_rs.Ser.CompactInt.Laws.{
  compact_int, read_compact_int-compact_int, write_compact_int_lem,
}
use bitcoins_rs.Ser.Format.Codec.{encode_all, encode_vec, write_items_lem}
use bitcoins_rs.Ser.Format.PrefixVec.{IsVec}
use bitcoins_rs.Ser.Stream.{read_byte, write}
use bitcoins_rs.Wrapped.{write_wrapped}
use bitcoins_rs.Wrapped.Laws.{IsScript, encode_wrapped, wrapped_format-IsCodec, write_wrapped_bytes}

abbrev pub encode_covenant : Covenant → Bytes
encode_covenant c = c.covenant_type ∷ encode_vec encode_wrapped c.covenant_data

-- Items that a covenant can have: byte vectors, and no more than a `u64` counts.
abbrev pub IsCovenant : Covenant → Type 0
IsCovenant c = IsVec IsScript c.covenant_data

read_covenant_items-encode_all :
    (items : List Bytes) (r : Bytes)
    → All IsScript items
    → read_covenant_items (length items) (encode_all encode_wrapped items ++ r) ≡ ok (items, r)
unfolding read_covenant_items encode_all
read_covenant_items-encode_all [] r h = refl
read_covenant_items-encode_all (v ∷ items) r (valid, h) =
    rw
      (
        append_assoc (encode_wrapped v) (encode_all encode_wrapped items) r,
        wrapped_format-IsCodec.read_back v (encode_all encode_wrapped items ++ r) valid,
        read_covenant_items-encode_all items r h,
      )
      refl

pub write_covenant_bytes :
    (c : Covenant) (w : Bytes) → (write_covenant c w).1 ≡ w ++ encode_covenant c
unfolding write_covenant write_covenant_data write encode_vec
write_covenant_bytes c w =
    let items = c.covenant_data in
    let w1 = w ++ (c.covenant_type ∷ []) in
    write_items_lem encode_wrapped write_wrapped write_wrapped_bytes items
      (write_compact_int (length items) w1).0 (write_compact_int (length items) w1).1
    ∙ ap (λ z. z ++ encode_all encode_wrapped items)
        (ap (λ p. p.1) (write_compact_int_lem (length items) w1))
    ∙ append_assoc w1 (compact_int (length items)) (encode_all encode_wrapped items)
    ∙ append_assoc w (c.covenant_type ∷ [])
        (compact_int (length items) ++ encode_all encode_wrapped items)

pub read_covenant-encode_covenant :
    (c : Covenant) (r : Bytes) → IsCovenant c → read_covenant (encode_covenant c ++ r) ≡ ok (c, r)
unfolding read_covenant read_covenant_data read_byte encode_vec
read_covenant-encode_covenant c r (fits, h) =
    let items = c.covenant_data in
    rw
      (
        append_assoc (compact_int (length items)) (encode_all encode_wrapped items) r,
        read_compact_int-compact_int (length items) (encode_all encode_wrapped items ++ r) fits,
        read_covenant_items-encode_all items r h,
      )
      refl
