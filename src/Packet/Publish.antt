-- ===== src/Packet/Publish.antt =====
-- mqtt_coder/src/mqtt.rs: `Publish`, its properties, its encoder and its decoder.
pub mod Properties
pub mod Total
pub mod Frame
pub mod Fields
pub mod Written
pub mod RoundTrip
use aqua.Base.{
  ℕ, zero, suc, ◌+◌, ◌-◌, ◌*◌, ◌/◌, ◌%◌, ◌≡◌, refl, ap, Bool, true, false, not, ◌&&◌, ◌||◌, List,
  [], ◌∷◌, ◌++◌, map, Option, none, some, leb, ltb, ◌==◌, if◌then◌else◌, length, unwrap_or, is_some,
  bit_and, bit_or, take, drop,
}
use aqua.Outcome.{
  Outcome, ok, err, panic, out_of_fuel, MqttError, unexpected, insufficient_bytes, invalid_format,
  ◌>>=◌, unwrap,
}
use aqua.Bytes.{Bytes, index, get_or_invalid, u16_bytes, u32_bytes, advance, checked_sub}
use aqua.Wire.{encode_variable_bytes, decode_variable_length, decode_utf8_string, bool_to_bytes}
use aqua.Property.{
  QoS, qos0, qos1, qos2, qos_try_from, UserProperty, PayloadFormatIndicator, indicator_code,
  payload_format_indicator_try_from, user_property_try_from, message_expiry_interval_try_from,
  session_expiry_interval_try_from, will_delay_interval_try_from, maximum_packet_size_try_from,
  topic_alias_try_from, receive_maximum_try_from, topic_alias_maximum_try_from, keep_alive_try_from,
  packet_id_try_from, protocol_version_try_from, request_response_information_try_from,
  request_problem_information_try_from, response_topic_try_from, content_type_try_from,
  reason_string_try_from, server_reference_try_from, authentication_method_try_from,
  topic_name_try_from, topic_filter_try_from, client_id_try_from, user_name_try_from,
  protocol_name_try_from, correlation_data_try_from, authentication_data_try_from,
  will_payload_try_from, password_try_from, subscription_identifier_try_from, push,
}
use aqua.Property.Writers.{cast_text}
use Properties.{PublishProperties, default_properties, build_bytes, property_arm}
use aqua.Property.Loop.{property_block}

pub record Publish : Type 0 where
  pub dup : Bool
  pub qos : QoS
  pub retain : Bool
  pub topic_name : Bytes
  pub pub_properties : Option PublishProperties
  pub packet_id : Option ℕ
  pub payload_length : ℕ
  pub payload_data : Bytes
  pub protocol_version : ℕ

abbrev pub default_publish : Publish
default_publish = record {
  dup = false;
  qos = qos0;
  retain = false;
  topic_name = [];
  pub_properties = none;
  packet_id = none;
  payload_length = 0;
  payload_data = [];
  protocol_version = 0;
}

abbrev pub is_qos0 : QoS → Bool
is_qos0 qos0 = true
is_qos0 qos1 = false
is_qos0 qos2 = false

-- `self.qos == QoS::QoS1 || self.qos == QoS::QoS2`, with the length test before the packet id
abbrev pub packet_id_part : QoS → Bytes → ℕ → Outcome (Option ℕ × ℕ)
packet_id_part qos buf next_pos =
    if is_qos0 qos
    then ok (none, next_pos)
    else if ltb (length buf) (next_pos + 1)
    then err insufficient_bytes
    else do (id, next_pos) ← packet_id_try_from buf next_pos; ok (some id, next_pos)

abbrev pub publish_properties_block : Bytes → ℕ → Outcome (Option PublishProperties × ℕ)
publish_properties_block buf next_pos = do
  (property_length, next_pos) ← decode_variable_length buf next_pos
  (props, next_pos) ←
      property_block (property_arm buf) buf property_length next_pos default_properties
  ok (some props, next_pos)

-- The packet decoded into is fresh, so that its packet id and properties are `None` before.
unfoldable pub decode_variable_header : Publish → Bytes → ℕ → ℕ → Option ℕ → Outcome (Publish × ℕ)
decode_variable_header p buf start_pos remaining_length protocol_version = do
  (topic, next_pos) ← topic_name_try_from buf start_pos
  (id, next_pos) ← packet_id_part p.qos buf next_pos
  version ← unwrap protocol_version
  (props, next_pos) ←
      if leb 5 version
      then publish_properties_block buf next_pos
      else ok (p.pub_properties, next_pos)
  payload_length ← checked_sub remaining_length (next_pos - start_pos)
  ok (
    record p {
      topic_name = topic;
      packet_id = if is_qos0 p.qos then p.packet_id else id;
      pub_properties = props;
      payload_length = payload_length;
    },
    next_pos,
  )

unfoldable pub decode_payload : Publish → Bytes → Option ℕ → Outcome (Publish × Bytes)
decode_payload p buf protocol_version =
    if ltb (length buf) p.payload_length
    then err insufficient_bytes
    else ok (record p { payload_data = take p.payload_length buf }, drop p.payload_length buf)

abbrev pub qos_bits : QoS → ℕ
qos_bits qos0 = 0
qos_bits qos1 = 2
qos_bits qos2 = 4

unfoldable pub first_byte : Publish → ℕ
first_byte p =
    bit_or (bit_or (bit_or 0x30 (if p.dup then 8 else 0)) (qos_bits p.qos))
      (if p.retain then 1 else 0)

abbrev pub build_optional : Option PublishProperties → Bytes
build_optional none = []
build_optional (some p) = build_bytes p

unfoldable pub variable_header : Publish → Outcome Bytes
variable_header p = do
  let props = if p.protocol_version == 5 then build_optional p.pub_properties else []
  id ← if is_qos0 p.qos then ok [] else (do id ← unwrap p.packet_id; ok (u16_bytes id))
  ok (
      cast_text p.topic_name
      ++ (id
          ++ (if p.protocol_version == 5
              then encode_variable_bytes (length props) ++ props
              else [])))

unfoldable pub encode_header : Publish → Outcome Bytes
encode_header p = do
  variable_header_buf ← variable_header p
  ok (
      first_byte p ∷ encode_variable_bytes (length variable_header_buf + p.payload_length)
      ++ variable_header_buf)

unfoldable pub encode_payload_chunk : Publish → Outcome (Option Bytes)
encode_payload_chunk p = ok (some p.payload_data)
