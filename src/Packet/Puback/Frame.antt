-- ===== src/Packet/Puback/Frame.antt =====
-- The frame of an encoded `Puback`.
use aqua.Base.{ℕ, ◌≡◌, ◌++◌, length, arith, length-append}
use aqua.Outcome.{ok, >>=-eq-ok}
use aqua.Bytes.{Bytes, u16_bytes}
use aqua.Packet.{frame, IsFramed}
use aqua.Packet.Puback.{Puback, measure, reason_part, encode_header}

measure-length :
    (p : Puback) (enc pro : Bytes) (remaining_length : ℕ)
    → measure p ≡ ok (enc, pro, remaining_length)
    → remaining_length ≡ length (u16_bytes p.packet_id ++ reason_part p enc pro)
unfolding measure reason_part u16_bytes
measure-length p enc pro remaining_length h = ground (arith, length-append enc pro)

-- The remaining length that an encoded `Puback` announces is the number of the bytes that follow it,
-- for both protocol versions, with and without a reason code and properties.
pub puback_encode_header-IsFramed :
    (p : Puback) (out : Bytes) → encode_header p ≡ ok out → IsFramed 0x40 out
unfolding encode_header frame
puback_encode_header-IsFramed p out h =
    let ((enc, pro, remaining), e, h') = >>=-eq-ok (measure p) _ h in
    (
      u16_bytes p.packet_id ++ reason_part p enc pro,
      ground (arith, h', measure-length p enc pro remaining e),
    )
