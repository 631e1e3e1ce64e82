-- ===== src/Coder/Encoder/Frame.antt =====
-- `encode_all` writes one whole MQTT frame behind what the buffer held.
use aqua.Base.{ℕ, ◌≡◌, refl, [], ◌++◌, none, length, append_assoc}
use aqua.Outcome.{ok, >>=-eq-ok}
use aqua.Bytes.{Bytes}
use aqua.Wire.{encode_variable_bytes}
use aqua.Packet.{frame, IsFramed}
use aqua.Packet.Ping.{pingresp_encode_header, pingresp_encode_payload_chunk}
use aqua.Packet.Puback
use aqua.Packet.Puback.Frame.{puback_encode_header-IsFramed}
use aqua.Packet.Pubrec
use aqua.Packet.Pubrec.Frame.{pubrec_encode_header-IsFramed}
use aqua.Packet.Pubrel
use aqua.Packet.Pubrel.Frame.{pubrel_encode_header-IsFramed}
use aqua.Packet.Pubcomp
use aqua.Packet.Pubcomp.Frame.{pubcomp_encode_header-IsFramed}
use aqua.Packet.Suback
use aqua.Packet.Suback.Frame.{suback_encode-IsFramed}
use aqua.Packet.Unsuback
use aqua.Packet.Unsuback.Frame.{unsuback_encode-IsFramed}
use aqua.Packet.Connack
use aqua.Packet.Connack.Frame.{HasShortProperties, connack_encode_header-IsFramed}
use aqua.Packet.Publish
use aqua.Packet.Publish.{first_byte}
use aqua.Packet.Publish.Frame.{publish_encode-IsFramed}
use aqua.Coder.ControlPacket.{
  ControlPacket, connect, disconnect, connack, publish, undefined, no_operation,
  disconnectcp_operation, subscribe, suback, pingreq, pingresp, unsubscribe, unsuback, puback,
  pubrec, pubrel, pubcomp, encode_header, encode_payload_chunk,
}
use aqua.Coder.Encoder.{encode_all}

-- The conditions under which the length that a packet announces is right.
abbrev pub IsWellFormed : ControlPacket → Type 0
IsWellFormed (connack p) = HasShortProperties p
IsWellFormed (publish p) = length p.payload_data ≡ p.payload_length
IsWellFormed (pubrel p) = p.reason_code ≡ none → p.pubrel_properties ≡ none
IsWellFormed (pubcomp p) = p.pubcomp_reason ≡ none → p.pubcomp_properties ≡ none
IsWellFormed p = Unit

abbrev pub first_of : ControlPacket → ℕ
first_of (connack p) = 0x20
first_of (publish p) = first_byte p
first_of (puback p) = 0x40
first_of (pubrec p) = 0x50
first_of (pubrel p) = 0x62
first_of (pubcomp p) = 0x70
first_of (suback p) = 0x90
first_of (unsuback p) = 0xb0
first_of p = 0xd0

abbrev pub IsWritten : ℕ → Bytes → Bytes → Type 0
IsWritten first buffer out = (body : Bytes) × (out ≡ buffer ++ frame first body)

chunk-IsWritten :
    (first : ℕ) (buffer header payload out : Bytes)
    → IsFramed first (header ++ payload)
    → ok ((buffer ++ header) ++ payload) ≡ ok out
    → IsWritten first buffer out
chunk-IsWritten first buffer header payload out (body, e) h =
    (body, cc (append_assoc buffer header payload, e, h))

header-IsWritten :
    (first : ℕ) (buffer header out : Bytes)
    → IsFramed first header
    → ok (buffer ++ header) ≡ ok out
    → IsWritten first buffer out
header-IsWritten first buffer header out (body, e) h = (body, cc (e, h))

-- Every packet that is encoded is written as one MQTT frame behind the bytes that the buffer held: the
-- first byte of its kind, the remaining length, and exactly that many bytes. The conditions are, for a
-- Connack, that its properties are shorter than 128 bytes where it writes any, for a Publish, that
-- `payload_length` is the length of the payload, and for a Pubrel or Pubcomp, that it has no properties
-- where it has no reason code.
pub encode_all-IsFramed :
    (packet : ControlPacket) (buffer out : Bytes)
    → IsWellFormed packet
    → encode_all packet buffer ≡ ok out
    → IsWritten (first_of packet) buffer out
unfolding encode_all encode_header encode_payload_chunk Connack.encode_payload_chunk
    Puback.encode_payload_chunk Pubrec.encode_payload_chunk Pubrel.encode_payload_chunk
    Pubcomp.encode_payload_chunk Suback.encode_payload_chunk Unsuback.encode_payload_chunk
    Publish.encode_payload_chunk pingresp_encode_header pingresp_encode_payload_chunk frame
    encode_variable_bytes
encode_all-IsFramed (connack p) buffer out well h =
    let (header, e, h') = >>=-eq-ok (Connack.encode_header p) _ h in
    header-IsWritten _ buffer header out (connack_encode_header-IsFramed p header well e) h'
encode_all-IsFramed (puback p) buffer out well h =
    let (header, e, h') = >>=-eq-ok (Puback.encode_header p) _ h in
    header-IsWritten _ buffer header out (puback_encode_header-IsFramed p header e) h'
encode_all-IsFramed (pubrec p) buffer out well h =
    let (header, e, h') = >>=-eq-ok (Pubrec.encode_header p) _ h in
    header-IsWritten _ buffer header out (pubrec_encode_header-IsFramed p header e) h'
encode_all-IsFramed (pubrel p) buffer out well h =
    let (header, e, h') = >>=-eq-ok (Pubrel.encode_header p) _ h in
    header-IsWritten _ buffer header out (pubrel_encode_header-IsFramed p header well e) h'
encode_all-IsFramed (pubcomp p) buffer out well h =
    let (header, e, h') = >>=-eq-ok (Pubcomp.encode_header p) _ h in
    header-IsWritten _ buffer header out (pubcomp_encode_header-IsFramed p header well e) h'
encode_all-IsFramed (publish p) buffer out well h =
    let (header, e, h') = >>=-eq-ok (Publish.encode_header p) _ h in
    chunk-IsWritten _ buffer header _ out (publish_encode-IsFramed p header _ well e refl) h'
encode_all-IsFramed (suback p) buffer out well h =
    let (header, e, h') = >>=-eq-ok (Suback.encode_header p) _ h in
    chunk-IsWritten _ buffer header _ out (suback_encode-IsFramed p header _ e refl) h'
encode_all-IsFramed (unsuback p) buffer out well h =
    let (header, e, h') = >>=-eq-ok (Unsuback.encode_header p) _ h in
    chunk-IsWritten _ buffer header _ out (unsuback_encode-IsFramed p header _ e refl) h'
encode_all-IsFramed pingresp buffer out well h = ([], cc h)
encode_all-IsFramed (connect p) buffer out well h = cc
encode_all-IsFramed (disconnect p) buffer out well h = cc
encode_all-IsFramed (subscribe p) buffer out well h = cc
encode_all-IsFramed (unsubscribe p) buffer out well h = cc
encode_all-IsFramed undefined buffer out well h = cc
encode_all-IsFramed no_operation buffer out well h = cc
encode_all-IsFramed disconnectcp_operation buffer out well h = cc
encode_all-IsFramed pingreq buffer out well h = cc
