-- ===== src/Packet/Subscribe.antt =====
-- mqtt_coder/src/mqtt.rs: `Subscribe`, its options and its decoder.
pub mod Total
pub mod Options
pub mod Filters
use aqua.Base.{
  ℕ, zero, suc, ◌+◌, ◌-◌, ◌*◌, ◌/◌, ◌%◌, ◌≡◌, refl, ap, Bool, true, false, not, ◌&&◌, ◌||◌, List,
  [], ◌∷◌, ◌++◌, map, Option, none, some, leb, ltb, ◌==◌, if◌then◌else◌, length, unwrap_or, is_some,
  bit_and, bit_or, take, drop,
}
use aqua.Outcome.{
  Outcome, ok, err, panic, out_of_fuel, MqttError, unexpected, insufficient_bytes, invalid_format,
  ◌>>=◌, unwrap,
}
use aqua.Bytes.{Bytes, index, get_or_invalid, u16_bytes, u32_bytes, advance, checked_sub}
use aqua.Wire.{encode_variable_bytes, decode_variable_length, decode_utf8_string, bool_to_bytes}
use aqua.Property.{
  QoS, qos0, qos1, qos2, qos_try_from, UserProperty, PayloadFormatIndicator, indicator_code,
  payload_format_indicator_try_from, user_property_try_from, message_expiry_interval_try_from,
  session_expiry_interval_try_from, will_delay_interval_try_from, maximum_packet_size_try_from,
  topic_alias_try_from, receive_maximum_try_from, topic_alias_maximum_try_from, keep_alive_try_from,
  packet_id_try_from, protocol_version_try_from, request_response_information_try_from,
  request_problem_information_try_from, response_topic_try_from, content_type_try_from,
  reason_string_try_from, server_reference_try_from, authentication_method_try_from,
  topic_name_try_from, topic_filter_try_from, client_id_try_from, user_name_try_from,
  protocol_name_try_from, correlation_data_try_from, authentication_data_try_from,
  will_payload_try_from, password_try_from, subscription_identifier_try_from, push,
}
use aqua.Property.Writers.{cast_text}
use aqua.Property.Loop.{property_block}

pub data RetainHandling : Type 0 where
  receive_all ignore_retained_initial ignore_retained_always : RetainHandling

unfoldable pub retain_handling_try_from : ℕ → Outcome RetainHandling
retain_handling_try_from value =
    if value == 0
    then ok receive_all
    else if value == 1
    then ok ignore_retained_initial
    else if value == 2
    then ok ignore_retained_always
    else err invalid_format

pub record SubscribeOption : Type 0 where
  pub retain_handling : RetainHandling
  pub retain_as_published : Bool
  pub no_local : Bool
  pub qos : QoS

unfoldable pub subscribe_option_try_from : Bytes → ℕ → Outcome (SubscribeOption × ℕ)
subscribe_option_try_from buf start_pos = do
  b ← index buf start_pos
  qos ← qos_try_from (bit_and b 0x03)
  let nl = not (bit_and b 0x04 == 0)
  let rap = not (bit_and b 0x08 == 0)
  rh ← retain_handling_try_from (b / 16)
  ok (
    record { retain_handling = rh; retain_as_published = rap; no_local = nl; qos = qos },
    start_pos + 1,
  )

pub record SubscribeProperties : Type 0 where
  pub subscription_identifier : Option ℕ
  pub user_properties : Option (List UserProperty)

pub record Subscribe : Type 0 where
  pub packet_id : ℕ
  pub sub_properties : SubscribeProperties
  pub topic_filters : List (Bytes × SubscribeOption)
  pub payload_length : ℕ

abbrev pub default_properties : SubscribeProperties
default_properties = record { subscription_identifier = none; user_properties = none }

abbrev pub default_subscribe : Subscribe
default_subscribe = record {
  packet_id = 0;
  sub_properties = default_properties;
  topic_filters = [];
  payload_length = 0;
}

unfoldable pub property_arm :
    Bytes → ℕ → ℕ → SubscribeProperties → Outcome (SubscribeProperties × ℕ)
property_arm buf id pos p =
    if id == 0x26
    then (do
      (v, next_pos) ← user_property_try_from buf pos
      ok (record p { user_properties = push p.user_properties v }, next_pos))
    else if id == 0x0b
    then (do
      (v, next_pos) ← subscription_identifier_try_from buf pos
      ok (record p { subscription_identifier = some v }, next_pos))
    else err invalid_format

abbrev subscribe_properties_block :
    SubscribeProperties → Bytes → ℕ → Outcome (SubscribeProperties × ℕ)
subscribe_properties_block p buf next_pos = do
  (property_length, next_pos) ← decode_variable_length buf next_pos
  property_block (property_arm buf) buf property_length next_pos p

unfoldable pub decode_variable_header :
    Subscribe → Bytes → ℕ → ℕ → Option ℕ → Outcome (Subscribe × ℕ)
decode_variable_header p buf start_pos remaining_length none = err unexpected
decode_variable_header p buf start_pos remaining_length (some version) = do
  (packet_id, next_pos) ← packet_id_try_from buf start_pos
  (props, next_pos) ←
      if leb 5 version
      then subscribe_properties_block p.sub_properties buf next_pos
      else ok (p.sub_properties, next_pos)
  payload_length ← checked_sub remaining_length (next_pos - start_pos)
  ok (
    record p { packet_id = packet_id; sub_properties = props; payload_length = payload_length },
    next_pos,
  )

-- The loop tests its end behind each filter; each round takes three bytes at least.
unfoldable pub topic_filters_loop : ℕ → Subscribe → Bytes → ℕ → Outcome (Subscribe × ℕ)
topic_filters_loop zero p buf next_pos = out_of_fuel
topic_filters_loop (suc fuel) p buf next_pos = do
  (f, pos) ← topic_filter_try_from buf next_pos
  (op, pos) ← subscribe_option_try_from buf pos
  let p = record p { topic_filters = p.topic_filters ++ (f, op) ∷ [] }
  let more = topic_filters_loop fuel p buf pos
  if p.payload_length == pos
      then ok (p, pos)
      else if ltb p.payload_length pos
      then err unexpected
      else more

unfoldable pub decode_payload : Subscribe → Bytes → Option ℕ → Outcome (Subscribe × Bytes)
decode_payload p buf protocol_version = if p.payload_length == 0 then err unexpected else do
  (p, next_pos) ← topic_filters_loop p.payload_length p buf 0
  rest ← advance buf next_pos
  ok (p, rest)
