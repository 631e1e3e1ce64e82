-- ===== src/Packet/Unsubscribe.antt =====
-- mqtt_coder/src/mqtt.rs: `Unsubscribe`, its properties and its decoder.
pub mod Total
use aqua.Base.{
  ℕ, zero, suc, ◌+◌, ◌-◌, ◌*◌, ◌/◌, ◌%◌, ◌≡◌, refl, ap, Bool, true, false, not, ◌&&◌, ◌||◌, List,
  [], ◌∷◌, ◌++◌, map, Option, none, some, leb, ltb, ◌==◌, if◌then◌else◌, length, unwrap_or, is_some,
  bit_and, bit_or, take, drop,
}
use aqua.Outcome.{
  Outcome, ok, err, panic, out_of_fuel, MqttError, unexpected, insufficient_bytes, invalid_format,
  ◌>>=◌, unwrap,
}
use aqua.Bytes.{Bytes, index, get_or_invalid, u16_bytes, u32_bytes, advance, checked_sub}
use aqua.Wire.{encode_variable_bytes, decode_variable_length, decode_utf8_string, bool_to_bytes}
use aqua.Property.{
  QoS, qos0, qos1, qos2, qos_try_from, UserProperty, PayloadFormatIndicator, indicator_code,
  payload_format_indicator_try_from, user_property_try_from, message_expiry_interval_try_from,
  session_expiry_interval_try_from, will_delay_interval_try_from, maximum_packet_size_try_from,
  topic_alias_try_from, receive_maximum_try_from, topic_alias_maximum_try_from, keep_alive_try_from,
  packet_id_try_from, protocol_version_try_from, request_response_information_try_from,
  request_problem_information_try_from, response_topic_try_from, content_type_try_from,
  reason_string_try_from, server_reference_try_from, authentication_method_try_from,
  topic_name_try_from, topic_filter_try_from, client_id_try_from, user_name_try_from,
  protocol_name_try_from, correlation_data_try_from, authentication_data_try_from,
  will_payload_try_from, password_try_from, subscription_identifier_try_from, push,
}
use aqua.Property.Writers.{cast_text}
use aqua.Property.Loop.{property_block}

pub record UnsubscribeProperties : Type 0 where
  pub user_properties : List UserProperty

pub record Unsubscribe : Type 0 where
  pub topic_filters : List Bytes
  pub unsubscribe_properties : Option UnsubscribeProperties
  pub protocol_version : ℕ
  pub payload_length : ℕ
  pub packet_id : ℕ

abbrev pub default_unsubscribe : Unsubscribe
default_unsubscribe = record {
  topic_filters = [];
  unsubscribe_properties = none;
  protocol_version = 0;
  payload_length = 0;
  packet_id = 0;
}

-- `get_or_insert_with(UnsubscribeProperties::new).push(prop)`
abbrev pub push_property :
    Option UnsubscribeProperties → UserProperty → Option UnsubscribeProperties
push_property none prop = some (record { user_properties = prop ∷ [] })
push_property (some p) prop = some (record p { user_properties = p.user_properties ++ prop ∷ [] })

unfoldable pub property_arm : Bytes → ℕ → ℕ → Unsubscribe → Outcome (Unsubscribe × ℕ)
property_arm buf id pos p =
    if id == 0x26
    then (do
      (user_property, next_pos) ← user_property_try_from buf pos
      ok (
        record p { unsubscribe_properties = push_property p.unsubscribe_properties user_property },
        next_pos,
      ))
    else err invalid_format

abbrev unsubscribe_properties_block : Unsubscribe → Bytes → ℕ → Outcome (Unsubscribe × ℕ)
unsubscribe_properties_block p buf next_pos = do
  (property_length, next_pos) ← decode_variable_length buf next_pos
  property_block (property_arm buf) buf property_length next_pos p

unfoldable pub decode_variable_header :
    Unsubscribe → Bytes → ℕ → ℕ → Option ℕ → Outcome (Unsubscribe × ℕ)
decode_variable_header p buf start_pos remaining_length protocol_version = do
  (packet_id, next_pos) ← packet_id_try_from buf start_pos
  let p = record p { packet_id = packet_id }
  version ← unwrap protocol_version
  (p, next_pos) ←
      if leb 5 version then unsubscribe_properties_block p buf next_pos else ok (p, next_pos)
  payload_length ← checked_sub remaining_length (next_pos - start_pos)
  ok (record p { payload_length = payload_length }, next_pos)

-- Each round takes two bytes at least.
unfoldable pub topic_filters_loop : ℕ → Unsubscribe → Bytes → ℕ → Outcome (Unsubscribe × ℕ)
topic_filters_loop zero p buf next_pos = out_of_fuel
topic_filters_loop (suc fuel) p buf next_pos =
    let more = do
      (res, pos) ← topic_filter_try_from buf next_pos
      topic_filters_loop fuel (record p { topic_filters = p.topic_filters ++ res ∷ [] }) buf pos
    in if next_pos == p.payload_length
      then ok (p, next_pos)
      else if ltb p.payload_length next_pos
      then err invalid_format
      else more

unfoldable pub decode_payload : Unsubscribe → Bytes → Option ℕ → Outcome (Unsubscribe × Bytes)
decode_payload p buf protocol_version = do
  (p, next_pos) ← topic_filters_loop (p.payload_length + 1) p buf 0
  rest ← advance buf next_pos
  ok (p, rest)
