-- ===== src/Packet/Pubrel/Frame.antt =====
-- The frame of an encoded `Pubrel`, and where it is wrong.
use aqua.Base.{ℕ, ◌+◌, ◌≤◌, ◌≡◌, ◌∷◌, ◌++◌, none, some, length, arith, length-append}
use aqua.Outcome.{ok, >>=-eq-ok}
use aqua.Bytes.{Bytes, u16_bytes}
use aqua.Wire.{encode_variable_bytes}
use aqua.Wire.VarInt.{length-encode_variable_bytes}
use aqua.Packet.{frame, IsFramed}
use aqua.Packet.Pubrel.{Pubrel, PubrelProperties, measure, reason_part, encode_header, encode}

measure-length :
    (p : Pubrel) (enc pro : Bytes) (remaining_length : ℕ)
    → (p.reason_code ≡ none → p.pubrel_properties ≡ none)
    → measure p ≡ ok (enc, pro, remaining_length)
    → remaining_length ≡ length (u16_bytes p.packet_id ++ reason_part p enc pro)
unfolding measure reason_part u16_bytes
measure-length p enc pro remaining_length covered h = ground (arith, length-append enc pro)

-- The remaining length that an encoded `Pubrel` announces is the number of the bytes that follow it,
-- if the packet has no properties without a reason code.
pub pubrel_encode_header-IsFramed :
    (p : Pubrel) (out : Bytes)
    → (p.reason_code ≡ none → p.pubrel_properties ≡ none)
    → encode_header p ≡ ok out
    → IsFramed 0x62 out
unfolding encode_header frame
pubrel_encode_header-IsFramed p out covered h =
    let ((enc, pro, remaining), e, h') = >>=-eq-ok (measure p) _ h in
    (
      u16_bytes p.packet_id ++ reason_part p enc pro,
      ground (arith, h', measure-length p enc pro remaining covered e),
    )

-- A version 5 `Pubrel` with properties and no reason code, whatever the properties are, announces more
-- bytes than it writes: a reason code and the properties too, where it writes the packet id only.
pub pubrel_encode_header_short :
    (p : Pubrel) (props : PubrelProperties) (pro : Bytes)
    → 5 ≤ p.protocol_version
    → p.reason_code ≡ none
    → p.pubrel_properties ≡ some props
    → encode props ≡ ok pro
    → (announced : ℕ) × (encode_header p
        ≡ ok (0x62 ∷ encode_variable_bytes announced ++ u16_bytes p.packet_id))
      × (length (u16_bytes p.packet_id) + 2 + length pro ≤ announced)
unfolding encode_header
pubrel_encode_header_short p props pro version none_given given e = (
  2 + 1 + length (encode_variable_bytes (length pro)) + length pro,
  unfold u16_bytes in ground (arith, e),
  unfold u16_bytes in omega (arith, (length-encode_variable_bytes (length pro)).0),
)
