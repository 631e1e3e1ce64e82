-- ===== src/Packet/Pubcomp/Frame.antt =====
-- The frame of an encoded `Pubcomp`, and where it is wrong.
use aqua.Base.{ℕ, ◌+◌, ◌≤◌, ◌≡◌, ◌∷◌, ◌++◌, none, some, length, arith, length-append}
use aqua.Outcome.{ok, >>=-eq-ok}
use aqua.Bytes.{Bytes, u16_bytes}
use aqua.Wire.{encode_variable_bytes}
use aqua.Packet.{frame, IsFramed}
use aqua.Packet.Pubcomp.{Pubcomp, PubcompProperties, measure, reason_part, encode_header, encode}

measure-length :
    (p : Pubcomp) (enc pro : Bytes) (remaining_length : ℕ)
    → (p.pubcomp_reason ≡ none → p.pubcomp_properties ≡ none)
    → measure p ≡ ok (enc, pro, remaining_length)
    → remaining_length ≡ length (u16_bytes p.packet_id ++ reason_part p enc pro)
unfolding measure reason_part u16_bytes
measure-length p enc pro remaining_length covered h = ground (arith, length-append enc pro)

-- The remaining length that an encoded `Pubcomp` announces is the number of the bytes that follow it,
-- if the packet has no properties without a reason code.
pub pubcomp_encode_header-IsFramed :
    (p : Pubcomp) (out : Bytes)
    → (p.pubcomp_reason ≡ none → p.pubcomp_properties ≡ none)
    → encode_header p ≡ ok out
    → IsFramed 0x70 out
unfolding encode_header frame
pubcomp_encode_header-IsFramed p out covered h =
    let ((enc, pro, remaining), e, h') = >>=-eq-ok (measure p) _ h in
    (
      u16_bytes p.packet_id ++ reason_part p enc pro,
      ground (arith, h', measure-length p enc pro remaining covered e),
    )

-- A version 5 `Pubcomp` with properties and no reason code announces their bytes, and writes only the
-- two bytes of its packet id.
pub pubcomp_encode_header_short :
    (p : Pubcomp) (props : PubcompProperties) (pro : Bytes)
    → 5 ≤ p.protocol_version
    → p.pubcomp_reason ≡ none
    → p.pubcomp_properties ≡ some props
    → encode props ≡ ok pro
    → encode_header p
      ≡ ok (
          0x70
            ∷ encode_variable_bytes
                (2 + 1 + length (encode_variable_bytes (length pro)) + length pro)
          ++ u16_bytes p.packet_id)
unfolding encode_header u16_bytes
pubcomp_encode_header_short p props pro version none_given given e = ground (arith, e)
