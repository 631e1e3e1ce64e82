-- ===== src/Coder/Decoder/AckRemainder.antt =====
-- What a decoder does with the reason code of a PUBACK, and its properties.
use aqua.Base.{
  ℕ, ◌+◌, ◌≡◌, refl, true, false, ◌∷◌, ◌++◌, Option, length, arith, is_empty, ◌==◌, unwrap_or, leb,
  le→leb, length-append,
}
use aqua.Outcome.{ok}
use aqua.Bytes.{Bytes, advance, byte_pair_at, u16_bytes}
use aqua.Bytes.Cursor.{At-start, At-byte_pair}
use aqua.Property.{packet_id_try_from}
use aqua.Packet.Puback.{default_puback}
use aqua.Coder.ControlPacket.{ControlPacket, puback, decode_variable_header, decode_payload}
use aqua.Coder.Decoder.{
  Decoder, done, fixed_header_decoded, variable_header_decoded, ready, pending, poll_decode,
  poll_variable_header, poll_payload, read_variable_header,
}

-- What is decoded of a PUBACK
abbrev pub acknowledges : ℕ → Option ℕ → ControlPacket
acknowledges id v =
    puback (record default_puback { packet_id = id; protocol_version = unwrap_or v 0 })

ack_header_read :
    (d : Decoder) (id : ℕ) (behind : Bytes)
    → d.tmp_packet ≡ puback default_puback
    → d.buf ≡ u16_bytes id ++ behind
    → read_variable_header d ≡ ok (acknowledges id d.protocol_version, 2, behind)
unfolding decode_variable_header packet_id_try_from advance u16_bytes
ack_header_read d id behind tmp holds =
    let pair : byte_pair_at (u16_bytes id ++ behind) 0 ≡ ok id =
      At-byte_pair id behind (At-start _) in
    let two : leb 2 (length (u16_bytes id ++ behind)) ≡ true =
      le→leb 2 (length (u16_bytes id ++ behind))
        (omega (arith, length-append (u16_bytes id) behind)) in
    rw (tmp, holds) (rw pair (rw two refl))

ack_header_polled :
    (d : Decoder) (id x : ℕ) (extra rest : Bytes)
    → d.state ≡ fixed_header_decoded
    → d.tmp_packet ≡ puback default_puback
    → d.remain_length_counter ≡ 0
    → d.remaining_length ≡ 2 + length (x ∷ extra)
    → d.buf ≡ u16_bytes id ++ (x ∷ extra ++ rest)
    → poll_decode d ≡ (
      record d {
        state = variable_header_decoded;
        tmp_packet = acknowledges id d.protocol_version;
        remain_length_counter = 2;
        buf = x ∷ extra ++ rest;
      },
      pending true,
    )
unfolding poll_decode poll_variable_header
ack_header_polled d id x extra rest state tmp counter len holds =
    let some_bytes : is_empty d.buf ≡ false = unfold u16_bytes in rw holds refl in
    let counted : d.remain_length_counter + 2 ≡ 2 = omega (arith, counter) in
    let more : (2 == d.remaining_length) ≡ false = ground (arith, len) in
    rw (some_bytes, state, ack_header_read d id (x ∷ extra ++ rest) tmp holds, counted, more) refl

-- Of a PUBACK whose remaining length is more than 2, two polls after the fixed header decode the packet id
-- alone; all that stands behind the packet id, its own reason code and properties included, is left in
-- the buffer as the start of the next packet.
pub puback_remainder :
    (d : Decoder) (id x : ℕ) (extra rest : Bytes)
    → d.state ≡ fixed_header_decoded
    → d.tmp_packet ≡ puback default_puback
    → d.remain_length_counter ≡ 0
    → d.remaining_length ≡ 2 + length (x ∷ extra)
    → d.buf ≡ u16_bytes id ++ (x ∷ extra ++ rest)
    → let (d', result) = poll_decode (poll_decode d).0 in
      (result ≡ ready (ok (acknowledges id d.protocol_version)))
      × (d'.state ≡ done)
      × (d'.buf ≡ (x ∷ extra) ++ rest)
unfolding poll_decode poll_payload decode_payload
puback_remainder d id x extra rest state tmp counter len holds =
    rw (ack_header_polled d id x extra rest state tmp counter len holds) (refl, refl, refl)
