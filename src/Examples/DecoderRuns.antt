-- ===== src/Examples/DecoderRuns.antt =====
-- mqtt_coder/src/decoder.rs: a PUBLISH of QoS 1 over a connection of version 5, and a SUBSCRIBE of
-- two filters and a CONNECT with a will over one of version 4.
use aqua.Base.{◌≡◌, refl, some, true, false, List, All, [], ◌∷◌, ◌++◌, arith}
use aqua.Outcome.{ok, err, insufficient_bytes}
use aqua.Packet.Connect as ConnectPacket
use aqua.Packet.Connect.{Connect, default_connect}
use aqua.Packet.Connect.Properties.{default_flags}
use aqua.Packet.Connect.Will.{decode_payload_will}
use aqua.Bytes.{u16_bytes}
use aqua.Utf8.{letter}
use aqua.Wire.{encode_variable_bytes}
use aqua.Wire.Text.{text_bytes}
use aqua.Property.{qos1, qos2}
use aqua.Packet.Subscribe.{SubscribeOption, receive_all, ignore_retained_always, default_subscribe}
use aqua.Packet.Subscribe.Options.{option_byte}
use aqua.Packet.Subscribe.Filters.{Filter, IsFilter, filters_bytes}
use aqua.Packet.Publish.{Publish}
use aqua.Coder.ControlPacket.{publish, subscribe}
use aqua.Coder.Decoder.{Decoder, done, ready, new, set_protocol_version, poll_decode}
use aqua.Coder.Decoder.PublishId.{HasPublishId}
use aqua.Coder.Decoder.Delivered.{Decodes, begun, fed, versioned, polled, delivered-HasPublishId}
use aqua.Coder.Decoder.SubscribeFrame.{subscribe_delivered}
use aqua.Coder.Decoder.PublishRoundTrip.{publish_round_trip}
use aqua.Examples.CoderRuns.{
  message_5, message_5-IsWritable, front_5, written_5, listening, listening_5, bytes_5, encoded_5,
  behind,
}

-- The bytes of the message and more have come; its payload is still to be decoded.
abbrev pub mid_decoder : Decoder
mid_decoder = (poll_decode (poll_decode (record listening_5 { buf = bytes_5 ++ behind })).0).0

abbrev pub come : Publish
come = record message_5 { protocol_version = 0 }

pub mid_decoder-Decodes : Decodes mid_decoder
unfolding set_protocol_version new
mid_decoder-Decodes = polled _ (polled _ (fed _ (bytes_5 ++ behind) (versioned new (some 5) begun)))

pub mid_decoder-delivers : (poll_decode mid_decoder).1 ≡ ready (ok (publish come))
mid_decoder-delivers =
    (publish_round_trip message_5 message_5-IsWritable front_5 written_5 listening_5 behind bytes_5
      (omega arith) (omega arith) refl refl encoded_5).0

delivered-HasPublishId_example : HasPublishId (publish come)
delivered-HasPublishId_example =
    delivered-HasPublishId mid_decoder (publish come) mid_decoder-Decodes mid_decoder-delivers

-- QoS 2, the rest of the options as they are by default
abbrev wanted : SubscribeOption
wanted = record {
  retain_handling = receive_all;
  retain_as_published = false;
  no_local = false;
  qos = qos2;
}

-- QoS 1, with every other option set
abbrev unusual : SubscribeOption
unusual = record {
  retain_handling = ignore_retained_always;
  retain_as_published = true;
  no_local = true;
  qos = qos1;
}

abbrev filters_a : List Filter
filters_a = (0x61 ∷ [], unusual) ∷ []

filters_a-IsFilter : All IsFilter ((0x61 ∷ [], wanted) ∷ filters_a)
filters_a-IsFilter = ((letter, omega arith), ((letter, omega arith), tt))

subscribe_delivered_example :
    let d1 =
      (poll_decode (record listening {
        buf =
            (0x82 ∷ 10 ∷ [])
            ++ ((0 ∷ 7 ∷ []) ++ ((0 ∷ 1 ∷ 0x61 ∷ 2 ∷ 0 ∷ 1 ∷ 0x61 ∷ 0x2d ∷ []) ++ behind));
      })).0 in
    let d2 = (poll_decode d1).0 in
    (((poll_decode d2).1
        ≡ ready (
            ok (
              subscribe (record default_subscribe {
                packet_id = 7;
                payload_length = 8;
                topic_filters = (0x61 ∷ [], wanted) ∷ filters_a;
              }))))
      × ((poll_decode d2).0.buf ≡ behind)
      × ((poll_decode d2).0.state ≡ done))
unfolding filters_bytes option_byte text_bytes u16_bytes encode_variable_bytes
subscribe_delivered_example =
    subscribe_delivered 7 (0x61 ∷ [], wanted) filters_a filters_a-IsFilter listening 4 behind
      (omega arith) (omega arith) refl refl

-- A CONNECT with a client id `a`, a will topic `a` and a will payload of one byte
abbrev with_will : Connect
with_will = record default_connect { connect_flags = record default_flags { will_flag = true } }

decode_payload_will_example :
    ConnectPacket.decode_payload with_will
      ((0 ∷ 1 ∷ 0x61 ∷ []) ++ ((0 ∷ 1 ∷ 0x61 ∷ []) ++ (0 ∷ 1 ∷ 9 ∷ [])))
      (some 4)
    ≡ err insufficient_bytes
unfolding text_bytes u16_bytes
decode_payload_will_example =
    decode_payload_will with_will (0x61 ∷ []) 0x61 [] (0 ∷ 1 ∷ 9 ∷ []) (some 4) refl letter
      (omega arith) (omega arith) (omega arith)
