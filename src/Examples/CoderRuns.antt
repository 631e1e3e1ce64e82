-- ===== src/Examples/CoderRuns.antt =====
-- mqtt_coder/src on particular packets.
use aqua.Base.{
  ◌/◌, ◌^◌, ◌<◌, ◌≤◌, ◌+◌, ◌≡◌, ◌≢◌, List, inr, refl, true, false, [], ◌∷◌, ◌++◌, none, some, arith,
}
use aqua.Outcome.{ok, out_of_fuel}
use aqua.Bytes.{Bytes, u16_bytes}
use aqua.Utf8.{letter}
use aqua.Wire.{encode_variable_bytes}
use aqua.Property.{qos1, UserProperty}
use aqua.Property.Writers.{cast_text}
use aqua.Packet.Publish.{Publish}
use aqua.Packet.Publish as PublishPacket
use aqua.Packet.Publish.RoundTrip.{IsWritable}
use aqua.Packet.Publish.Properties.{
  PublishProperties, default_properties, build_bytes, user_properties_part,
}
use aqua.Packet.Publish.Fields.{IsText}
use aqua.Packet.Publish.Written.{IsReadable}
use aqua.Packet.Puback.{default_puback}
use aqua.Packet.Disconnect.{default_disconnect}
use aqua.Coder.ControlPacket.{
  publish, puback, undefined, disconnect, encode_header, encode_payload_chunk,
}
use aqua.Coder.Decoder.{Decoder, done, fixed_header_decoded, ready, pending, poll_decode}
use aqua.Coder.Decoder.PublishRoundTrip.{publish_round_trip}
use aqua.Coder.Decoder.AckRemainder.{acknowledges, puback_remainder}
use aqua.Coder.Decoder.Steps as Steps
use aqua.Coder.Decoder.Steps.{waiting, disconnect_waits}
use aqua.Coder.FixedHeader.{decode_fixed_header}
use aqua.Coder.FixedHeader.Types.{type_of, decode_fixed_header-type_of}
use aqua.Packet.Disconnect.Reason.{normal_disconnection}
use aqua.Wire.{decode_variable_length}
use aqua.Bytes.{index}
use aqua.Coder.Encoder.{encode_all, payload}
use aqua.Coder.Encoder.Polls.{polls, copies, poll_encode_repeats}
use aqua.Coder.Encoder.Frame.{IsWritten, encode_all-IsFramed}
use aqua.Coder.Total.{poll_decode_total}

-- Two bytes for the topic `a`, retained, at QoS 1
abbrev message : Publish
message = record {
  dup = false;
  qos = qos1;
  retain = true;
  topic_name = 0x61 ∷ [];
  pub_properties = none;
  packet_id = some 7;
  payload_length = 2;
  payload_data = 1 ∷ 2 ∷ [];
  protocol_version = 4;
}

abbrev message_bytes : Bytes
message_bytes = 0x33 ∷ 7 ∷ 0 ∷ 1 ∷ 0x61 ∷ 0 ∷ 7 ∷ 1 ∷ 2 ∷ []

message_encoded : encode_all (publish message) [] ≡ ok message_bytes
unfolding encode_all encode_header encode_payload_chunk PublishPacket.encode_header
    PublishPacket.encode_payload_chunk PublishPacket.variable_header PublishPacket.first_byte
    encode_variable_bytes cast_text u16_bytes
message_encoded = refl

abbrev pub listening : Decoder
listening = record {
  state = done;
  tmp_packet = undefined;
  protocol_version = some 4;
  remaining_length = 0;
  remain_length_counter = 0;
  buf = [];
}

abbrev pub behind : Bytes
behind = 0xe0 ∷ 0 ∷ []

-- The same message in version 5, with a topic alias and a user property
abbrev alias_3 : PublishProperties
alias_3 = record default_properties {
  topic_alias = some 3;
  user_properties = some (record { key = 0x61 ∷ []; value = 0x61 ∷ [] } ∷ []);
}

abbrev pub message_5 : Publish
message_5 = record message { pub_properties = some alias_3; protocol_version = 5 }

abbrev pub front_5 : Bytes
front_5 = 0 ∷ 1 ∷ 0x61 ∷ 0 ∷ 7 ∷ 10 ∷ 0x23 ∷ 0 ∷ 3 ∷ 0x26 ∷ 0 ∷ 1 ∷ 0x61 ∷ 0 ∷ 1 ∷ 0x61 ∷ []

abbrev pub bytes_5 : Bytes
bytes_5 = 0x33 ∷ 18 ∷ (front_5 ++ (1 ∷ 2 ∷ []))

alias_3-IsReadable : IsReadable alias_3
alias_3-IsReadable = record {
  alias_given = λ c e. ground arith;
  response = λ c e. cc;
  correlation = λ c e. cc;
  users = λ us e. rw (← some_users us e) (λ none_there. cc, ((one_letter, one_letter), tt));
  identifiers = λ is e. cc;
  content = λ c e. cc;
}
  where
    one_letter : IsText (0x61 ∷ [])
    one_letter = (letter, omega arith)

    some_users :
        (us : List UserProperty)
        → alias_3.user_properties ≡ some us
        → record { key = 0x61 ∷ []; value = 0x61 ∷ [] } ∷ [] ≡ us
    some_users us e = cc

pub message_5-IsWritable : IsWritable message_5
unfolding build_bytes user_properties_part cast_text u16_bytes
message_5-IsWritable = record {
  topic = letter;
  topic_fits = omega arith;
  payload = refl;
  form = inr (refl, alias_3, refl, alias_3-IsReadable, omega arith);
  id = λ h. cc;
}

pub written_5 : PublishPacket.variable_header message_5 ≡ ok front_5
unfolding PublishPacket.variable_header build_bytes user_properties_part cast_text u16_bytes
    encode_variable_bytes
written_5 = refl

pub encoded_5 : encode_all (publish message_5) [] ≡ ok bytes_5
unfolding encode_all encode_header encode_payload_chunk PublishPacket.encode_header
    PublishPacket.encode_payload_chunk PublishPacket.variable_header PublishPacket.first_byte
    encode_variable_bytes cast_text u16_bytes build_bytes user_properties_part
encoded_5 = refl

abbrev pub listening_5 : Decoder
listening_5 = record listening { protocol_version = some 5 }

publish_round_trip_example :
    let d1 = (poll_decode (record listening_5 { buf = bytes_5 ++ behind })).0 in
    let d2 = (poll_decode d1).0 in
    (((poll_decode d2).1 ≡ ready (ok (publish (record message_5 { protocol_version = 0 }))))
      × ((poll_decode d2).0.buf ≡ behind)
      × ((poll_decode d2).0.state ≡ done))
publish_round_trip_example =
    publish_round_trip message_5 message_5-IsWritable front_5 written_5 listening_5 behind bytes_5
      (omega arith) (omega arith) refl refl encoded_5

encode_all-IsFramed_example : IsWritten 0x33 [] message_bytes
unfolding PublishPacket.first_byte
encode_all-IsFramed_example =
    encode_all-IsFramed (publish message) [] message_bytes refl message_encoded

poll_decode_total_example :
    (poll_decode (record listening { buf = message_bytes })).1 ≢ ready out_of_fuel
poll_decode_total_example = poll_decode_total (record listening { buf = message_bytes })

-- A PUBACK with the reason code success, version 5, behind its fixed header
abbrev acked : Decoder
acked = record {
  state = fixed_header_decoded;
  tmp_packet = puback default_puback;
  protocol_version = some 5;
  remaining_length = 3;
  remain_length_counter = 0;
  buf = 0 ∷ 7 ∷ 0 ∷ 0xe0 ∷ 0 ∷ [];
}

puback_remainder_example :
    let (d', result) = poll_decode (poll_decode acked).0 in
    (result ≡ ready (ok (acknowledges 7 (some 5))))
    × (d'.state ≡ done)
    × (d'.buf ≡ (0 ∷ []) ++ behind)
unfolding u16_bytes
puback_remainder_example = puback_remainder acked 7 0 [] behind refl refl refl refl refl

bare_header :
    decode_fixed_header (0xe0 ∷ 0 ∷ []) 0 (some 4) ≡ ok (disconnect default_disconnect, 2, 0)
unfolding decode_fixed_header index decode_variable_length
bare_header = refl

decode_fixed_header-type_of_example :
    (type_of (disconnect default_disconnect) ≡ 0xe0 / 16)
    × (type_of (disconnect default_disconnect) ≢ 12)
    × (0 < 2 ^ 28)
    × (1 < 2)
    × (2 ≤ 5)
    × (2 ≤ 1 + 1)
decode_fixed_header-type_of_example =
    decode_fixed_header-type_of 0xe0 (0 ∷ []) (some 4) (disconnect default_disconnect) 2 0
      (omega arith, (omega arith, tt)) bare_header

disconnect_waits_example :
    let d' = Steps.polls 3 (poll_decode (waiting listening (0xe0 ∷ 0x00 ∷ []))).0 in
    let d'' = record d' { buf = behind } in
    ((poll_decode d').1 ≡ pending false)
    × ((poll_decode d'').1
        ≡ ready
            (ok (disconnect (record default_disconnect { reason_code = normal_disconnection }))))
    × ((poll_decode d'').0.buf ≡ behind)
disconnect_waits_example = disconnect_waits listening 3 behind (omega arith)

message_chunk : encode_payload_chunk (publish message) ≡ ok (some (1 ∷ 2 ∷ []))
unfolding encode_payload_chunk PublishPacket.encode_payload_chunk
message_chunk = refl

poll_encode_repeats_example :
    polls 2 (publish message) payload [] ≡ ok (payload, 1 ∷ 2 ∷ 1 ∷ 2 ∷ [])
unfolding copies
poll_encode_repeats_example = poll_encode_repeats 2 (publish message) (1 ∷ 2 ∷ []) [] message_chunk
