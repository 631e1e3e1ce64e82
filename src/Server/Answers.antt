-- ===== src/Server/Answers.antt =====
-- Every answer of the server binary can be written to the client.
use aqua.Base.{ℕ, refl, Option, none, some, All}
use aqua.Bytes.{Bytes}
use aqua.Property.{QoS, qos0, qos1, qos2}
use aqua.Packet.Puback
use aqua.Packet.Pubrec
use aqua.Packet.Pubcomp
use aqua.Packet.Suback
use aqua.Packet.Unsuback
use aqua.Packet.Ping.{pingresp_encode_header, pingresp_encode_payload_chunk}
use aqua.Coder.ControlPacket.{
  ControlPacket, connect, disconnect, connack, publish, undefined, no_operation,
  disconnectcp_operation, subscribe, suback, pingreq, pingresp, unsubscribe, unsuback, puback,
  pubrec, pubrel, pubcomp, encode_header, encode_payload_chunk,
}
use aqua.Coder.Encoder.{encode_all}
use aqua.Coder.Encoder.Bare.{IsEncoded, encoded}
use aqua.Connection.Responses.{new}
use aqua.Server.{
  serve_request, publish_answer, puback_for, pubrec_for, pubcomp_for, suback_for, unsuback_for,
}

publish_answer-IsEncoded :
    (qos : QoS) (packet_id : Option ℕ) (buffer : Bytes)
    → All (IsEncoded buffer) (publish_answer qos packet_id).packets
unfolding new encode_all encode_header encode_payload_chunk Puback.encode_header
    Puback.encode_payload_chunk Puback.measure Puback.reason_part Pubrec.encode_header
    Pubrec.encode_payload_chunk Pubrec.measure Pubrec.reason_part
publish_answer-IsEncoded qos0 id buffer = tt
publish_answer-IsEncoded qos1 none buffer = tt
publish_answer-IsEncoded qos1 (some id) buffer = (encoded (puback_for id) buffer _ tt refl, tt)
publish_answer-IsEncoded qos2 none buffer = tt
publish_answer-IsEncoded qos2 (some id) buffer = (encoded (pubrec_for id) buffer _ tt refl, tt)

-- Whatever a client sends, each packet that the server's service answers is encoded, as one frame behind
-- what the buffer holds.
pub serve_request-IsEncoded :
    (request : ControlPacket) (buffer : Bytes)
    → All (IsEncoded buffer) (serve_request request).packets
unfolding serve_request new encode_all encode_header encode_payload_chunk Suback.encode_header
    Suback.encode_payload_chunk Suback.measure Suback.property_part Unsuback.encode_header
    Unsuback.encode_payload_chunk Unsuback.measure Unsuback.property_part Pubcomp.encode_header
    Pubcomp.encode_payload_chunk Pubcomp.measure Pubcomp.reason_part pingresp_encode_header
    pingresp_encode_payload_chunk
serve_request-IsEncoded pingreq buffer = (encoded pingresp buffer _ tt refl, tt)
serve_request-IsEncoded (subscribe p) buffer = (encoded (suback_for p) buffer _ tt refl, tt)
serve_request-IsEncoded (publish p) buffer = publish_answer-IsEncoded p.qos p.packet_id buffer
serve_request-IsEncoded (pubrel p) buffer =
    (encoded (pubcomp_for p.packet_id) buffer _ (λ e. refl) refl, tt)
serve_request-IsEncoded (unsubscribe p) buffer = (encoded (unsuback_for p) buffer _ tt refl, tt)
serve_request-IsEncoded (connect p) buffer = tt
serve_request-IsEncoded (disconnect p) buffer = tt
serve_request-IsEncoded (connack p) buffer = tt
serve_request-IsEncoded undefined buffer = tt
serve_request-IsEncoded no_operation buffer = tt
serve_request-IsEncoded disconnectcp_operation buffer = tt
serve_request-IsEncoded (suback p) buffer = tt
serve_request-IsEncoded pingresp buffer = tt
serve_request-IsEncoded (unsuback p) buffer = tt
serve_request-IsEncoded (puback p) buffer = tt
serve_request-IsEncoded (pubrec p) buffer = tt
serve_request-IsEncoded (pubcomp p) buffer = tt
