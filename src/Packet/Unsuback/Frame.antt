-- ===== src/Packet/Unsuback/Frame.antt =====
-- The frame of an encoded `Unsuback`: its header and its payload together.
use aqua.Base.{
  ℕ, suc, ◌≡◌, refl, ap, List, [], ◌∷◌, ◌++◌, map, some, length, arith, length-append, append_assoc,
}
use aqua.Outcome.{ok, >>=-eq-ok}
use aqua.Bytes.{Bytes, u16_bytes}
use aqua.Wire.{encode_variable_bytes}
use aqua.Packet.{frame, IsFramed}
use aqua.Packet.Unsuback.{
  Unsuback, UnsubackReasonCode, reason_byte, measure, property_part, encode_header,
  encode_payload_chunk,
}

length-map : (cs : List UnsubackReasonCode) → length (map reason_byte cs) ≡ length cs
length-map [] = refl
length-map (c ∷ cs) = ap suc (length-map cs)

measure-length :
    (p : Unsuback) (enc pro : Bytes) (remaining_length : ℕ)
    → measure p ≡ ok (enc, pro, remaining_length)
    → remaining_length
      ≡ length
          ((u16_bytes p.packet_id ++ property_part p enc pro) ++ map reason_byte p.reason_codes)
unfolding measure property_part u16_bytes
measure-length p enc pro remaining_length h = ground (
  arith,
  length-append enc pro,
  length-map p.reason_codes,
  length-append (enc ++ pro) (map reason_byte p.reason_codes),
)

-- The remaining length that the header of a `Unsuback` announces counts the rest of the header and the
-- payload, one byte for each reason code.
pub unsuback_encode-IsFramed :
    (p : Unsuback) (out payload : Bytes)
    → encode_header p ≡ ok out
    → encode_payload_chunk p ≡ ok (some payload)
    → IsFramed 0xb0 (out ++ payload)
unfolding encode_header encode_payload_chunk frame
unsuback_encode-IsFramed p out payload h k =
    let ((enc, pro, remaining), e, h') = >>=-eq-ok (measure p) _ h in
    let front = u16_bytes p.packet_id ++ property_part p enc pro in
    let codes = map reason_byte p.reason_codes in
    (
      front ++ codes,
      ground (
        arith,
        h',
        k,
        measure-length p enc pro remaining e,
        append_assoc (encode_variable_bytes (length (front ++ codes))) front codes,
      ),
    )
