-- ===== src/Server.antt =====
-- src/main.rs: the two services of the server binary.
pub mod Answers
use aqua.Base.{ℕ, [], ◌∷◌, Option, none, some, List, map, Bool, true, false, length, replicate}
use aqua.Property.{QoS, qos0, qos1, qos2}
use aqua.Packet.Puback.{Puback}
use aqua.Packet.Pubrec.{Pubrec}
use aqua.Packet.Pubcomp.{Pubcomp}
use aqua.Packet.Suback.{Suback, SubackReasonCode, granted_qos0, granted_qos1, granted_qos2}
use aqua.Packet.Unsuback.{Unsuback, success}
use aqua.Packet.Subscribe.{Subscribe}
use aqua.Packet.Unsubscribe.{Unsubscribe}
use aqua.Coder.ControlPacket.{
  ControlPacket, connect, publish, subscribe, suback, pingreq, pingresp, unsubscribe, unsuback,
  puback, pubrec, pubrel, pubcomp,
}
use aqua.Connection.Responses.{Response, ConnackResponse, new}

-- `Response::default()`
abbrev pub no_packets : Response
no_packets = record { packets = [] }

-- `Some(packet_id)` falls through to the empty response where the packet has no id.
abbrev pub answer_id : Option ℕ → (ℕ → ControlPacket) → Response
answer_id none make = no_packets
answer_id (some id) make = new (make id)

-- The packets that the service builds, each for MQTT 3.1.1
abbrev pub puback_for : ℕ → ControlPacket
puback_for id =
    puback (record {
      packet_id = id;
      reason_code = none;
      puback_properties = none;
      protocol_version = 4;
    })

abbrev pub pubrec_for : ℕ → ControlPacket
pubrec_for id =
    pubrec (record {
      packet_id = id;
      reason_code = none;
      pubrec_properties = none;
      protocol_version = 4;
    })

abbrev pub pubcomp_for : ℕ → ControlPacket
pubcomp_for id = pubcomp (record {
  packet_id = id;
  pubcomp_reason = none;
  protocol_version = 4;
  pubcomp_properties = none;
})

abbrev pub publish_answer : QoS → Option ℕ → Response
publish_answer qos0 packet_id = no_packets
publish_answer qos1 packet_id = answer_id packet_id puback_for
publish_answer qos2 packet_id = answer_id packet_id pubrec_for

-- The code that is pushed for each topic filter: `qos` is always QoS 0.
abbrev pub granted : QoS → SubackReasonCode
granted qos0 = granted_qos0
granted qos1 = granted_qos1
granted qos2 = granted_qos2

abbrev pub suback_for : Subscribe → ControlPacket
suback_for p = suback (record {
  packet_id = p.packet_id;
  suback_properties = none;
  reason_codes = map (λ filter. granted qos0) p.topic_filters;
  protocol_version = 4;
})

abbrev pub unsuback_for : Unsubscribe → ControlPacket
unsuback_for p = unsuback (record {
  packet_id = p.packet_id;
  unsuback_properties = none;
  reason_codes = replicate (length p.topic_filters) success;
  protocol_version = 4;
})

-- The service for the packets behind a CONNECT
unfoldable pub serve_request : ControlPacket → Response
unfolding new
serve_request pingreq = new pingresp
serve_request (subscribe p) = new (suback_for p)
serve_request (publish p) = publish_answer p.qos p.packet_id
serve_request (pubrel p) = new (pubcomp_for p.packet_id)
serve_request (unsubscribe p) = new (unsuback_for p)
serve_request p = no_packets

-- The service for a CONNECT
unfoldable pub serve_connect : ControlPacket → ConnackResponse
serve_connect (connect p) = record {
  session_present = false;
  version = p.protocol_ver;
  connack_properties = none;
}
serve_connect p = record { session_present = false; version = 0; connack_properties = none }
