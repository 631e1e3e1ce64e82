-- ===== src/Packet/Disconnect.antt =====
-- mqtt_coder/src/mqtt.rs: `Disconnect`, its properties and its decoder.
pub mod Reason
pub mod Total
use Reason.{DisconnectReasonCode, normal_disconnection, convert}
use aqua.Base.{
  ℕ, zero, suc, ◌+◌, ◌-◌, ◌*◌, ◌/◌, ◌%◌, ◌≡◌, refl, ap, Bool, true, false, not, ◌&&◌, ◌||◌, List,
  [], ◌∷◌, ◌++◌, map, Option, none, some, leb, ltb, ◌==◌, if◌then◌else◌, length, unwrap_or, is_some,
  bit_and, bit_or, take, drop,
}
use aqua.Outcome.{
  Outcome, ok, err, panic, out_of_fuel, MqttError, unexpected, insufficient_bytes, invalid_format,
  ◌>>=◌, unwrap,
}
use aqua.Bytes.{Bytes, index, get_or_invalid, u16_bytes, u32_bytes, advance, checked_sub}
use aqua.Wire.{encode_variable_bytes, decode_variable_length, decode_utf8_string, bool_to_bytes}
use aqua.Property.{
  QoS, qos0, qos1, qos2, qos_try_from, UserProperty, PayloadFormatIndicator, indicator_code,
  payload_format_indicator_try_from, user_property_try_from, message_expiry_interval_try_from,
  session_expiry_interval_try_from, will_delay_interval_try_from, maximum_packet_size_try_from,
  topic_alias_try_from, receive_maximum_try_from, topic_alias_maximum_try_from, keep_alive_try_from,
  packet_id_try_from, protocol_version_try_from, request_response_information_try_from,
  request_problem_information_try_from, response_topic_try_from, content_type_try_from,
  reason_string_try_from, server_reference_try_from, authentication_method_try_from,
  topic_name_try_from, topic_filter_try_from, client_id_try_from, user_name_try_from,
  protocol_name_try_from, correlation_data_try_from, authentication_data_try_from,
  will_payload_try_from, password_try_from, subscription_identifier_try_from, push,
}
use aqua.Property.Writers.{cast_text}
use aqua.Property.Loop.{property_block}

pub record DisconnectProperties : Type 0 where
  pub session_expiry_interval : Option ℕ
  pub reason_string : Option Bytes
  pub user_properties : Option (List UserProperty)
  pub server_reference : Option Bytes

abbrev pub default_properties : DisconnectProperties
default_properties = record {
  session_expiry_interval = none;
  reason_string = none;
  user_properties = none;
  server_reference = none;
}

pub record Disconnect : Type 0 where
  pub reason_code : DisconnectReasonCode
  pub disconnect_properties : Option DisconnectProperties

abbrev pub default_disconnect : Disconnect
default_disconnect = record { reason_code = normal_disconnection; disconnect_properties = none }

unfoldable pub property_arm :
    Bytes → ℕ → ℕ → DisconnectProperties → Outcome (DisconnectProperties × ℕ)
property_arm buf id pos p =
    if id == 0x11
    then (if is_some p.session_expiry_interval then err invalid_format else do
      (v, next_pos) ← session_expiry_interval_try_from buf pos
      ok (record p { session_expiry_interval = some v }, next_pos))
    else if id == 0x26
    then (do
      (v, next_pos) ← user_property_try_from buf pos
      ok (record p { user_properties = push p.user_properties v }, next_pos))
    else if id == 0x1f
    then (if is_some p.reason_string then err invalid_format else do
      (v, next_pos) ← reason_string_try_from buf pos
      ok (record p { reason_string = some v }, next_pos))
    else if id == 0x1c
    then (do
      (v, next_pos) ← server_reference_try_from buf pos
      ok (record p { server_reference = some v }, next_pos))
    else err invalid_format

unfoldable pub decode_variable_header :
    Disconnect → Bytes → ℕ → ℕ → Option ℕ → Outcome (Disconnect × ℕ)
decode_variable_header p buf start_pos remaining_length protocol_version =
    if remaining_length == 0
    then ok (record p { reason_code = normal_disconnection }, start_pos)
    else do
      (reason, next_pos) ← convert buf start_pos
      let p = record p { reason_code = reason }
      version ← unwrap protocol_version
      if leb 5 version
          then (do
            (property_length, next_pos) ← decode_variable_length buf next_pos
            (pro, next_pos) ←
                property_block (property_arm buf) buf property_length next_pos default_properties
            ok (record p { disconnect_properties = some pro }, next_pos))
          else ok (p, next_pos)

unfoldable pub decode_payload : Disconnect → Bytes → Option ℕ → Outcome (Disconnect × Bytes)
decode_payload p buf protocol_version = ok (p, buf)
