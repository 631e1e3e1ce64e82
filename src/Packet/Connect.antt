-- ===== src/Packet/Connect.antt =====
-- mqtt_coder/src/mqtt.rs: `Connect` and its decoder.
pub mod Properties
pub mod Total
pub mod Will
use Properties.{
  ConnectFlags, default_flags, connect_flags_try_from, ConnectProperties, default_properties,
  property_arm, WillProperties, default_will, will_arm,
}
use aqua.Base.{
  ℕ, zero, suc, ◌+◌, ◌-◌, ◌*◌, ◌/◌, ◌%◌, ◌≡◌, refl, ap, Bool, true, false, not, ◌&&◌, ◌||◌, List,
  [], ◌∷◌, ◌++◌, map, Option, none, some, leb, ltb, ◌==◌, if◌then◌else◌, length, unwrap_or, is_some,
  bit_and, bit_or, take, drop,
}
use aqua.Outcome.{
  Outcome, ok, err, panic, out_of_fuel, MqttError, unexpected, insufficient_bytes, invalid_format,
  ◌>>=◌, unwrap,
}
use aqua.Bytes.{Bytes, index, get_or_invalid, u16_bytes, u32_bytes, advance, checked_sub}
use aqua.Wire.{encode_variable_bytes, decode_variable_length, decode_utf8_string, bool_to_bytes}
use aqua.Property.{
  QoS, qos0, qos1, qos2, qos_try_from, UserProperty, PayloadFormatIndicator, indicator_code,
  payload_format_indicator_try_from, user_property_try_from, message_expiry_interval_try_from,
  session_expiry_interval_try_from, will_delay_interval_try_from, maximum_packet_size_try_from,
  topic_alias_try_from, receive_maximum_try_from, topic_alias_maximum_try_from, keep_alive_try_from,
  packet_id_try_from, protocol_version_try_from, request_response_information_try_from,
  request_problem_information_try_from, response_topic_try_from, content_type_try_from,
  reason_string_try_from, server_reference_try_from, authentication_method_try_from,
  topic_name_try_from, topic_filter_try_from, client_id_try_from, user_name_try_from,
  protocol_name_try_from, correlation_data_try_from, authentication_data_try_from,
  will_payload_try_from, password_try_from, subscription_identifier_try_from, push,
}
use aqua.Property.Writers.{cast_text}
use aqua.Property.Loop.{property_block}

pub record Connect : Type 0 where
  pub protocol_name : Bytes
  pub protocol_ver : ℕ
  pub connect_flags : ConnectFlags
  pub keepalive : ℕ
  pub properties : ConnectProperties
  pub client_id : Bytes
  pub username : Option Bytes
  pub password : Option Bytes
  pub will_properties : WillProperties
  pub will_topic : Option Bytes
  pub will_payload : Option Bytes

abbrev pub default_connect : Connect
default_connect = record {
  protocol_name = [];
  protocol_ver = 0;
  connect_flags = default_flags;
  keepalive = 0;
  properties = default_properties;
  client_id = [];
  username = none;
  password = none;
  will_properties = default_will;
  will_topic = none;
  will_payload = none;
}

unfoldable pub decode_variable_header : Connect → Bytes → ℕ → ℕ → Option ℕ → Outcome (Connect × ℕ)
decode_variable_header p buf start_pos remaining_length protocol_version = do
  (name, next_pos) ← protocol_name_try_from buf start_pos
  (ver, next_pos) ← protocol_version_try_from buf next_pos
  (flags, next_pos) ← connect_flags_try_from buf next_pos
  (keepalive, next_pos) ← keep_alive_try_from buf next_pos
  let p = record p {
    protocol_name = name;
    protocol_ver = ver;
    connect_flags = flags;
    keepalive = keepalive;
  }
  if not (ver == 5) then ok (p, next_pos) else do
    (property_length, next_pos) ← decode_variable_length buf next_pos
    (props, next_pos) ← property_block (property_arm buf) buf property_length next_pos p.properties
    ok (record p { properties = props }, next_pos)

-- `if self.connect_flags.will_flag { … }`
unfoldable pub decode_will : Connect → Bytes → ℕ → Outcome (Connect × ℕ)
decode_will p buf next_pos = if not p.connect_flags.will_flag then ok (p, next_pos) else do
  (will_property_length, next_pos) ← decode_variable_length buf next_pos
  (props, next_pos) ←
      property_block (will_arm buf) buf will_property_length next_pos p.will_properties
  (topic, next_pos) ← topic_name_try_from buf next_pos
  (payload, next_pos) ← will_payload_try_from buf next_pos
  ok (
    record p { will_properties = props; will_topic = some topic; will_payload = some payload },
    next_pos,
  )

unfoldable pub decode_username : Connect → Bytes → ℕ → Outcome (Connect × ℕ)
decode_username p buf next_pos =
    if p.connect_flags.user_name_flag
    then (do
      (v, next_pos) ← user_name_try_from buf next_pos
      ok (record p { username = some v }, next_pos))
    else ok (p, next_pos)

unfoldable pub decode_password : Connect → Bytes → ℕ → Outcome (Connect × ℕ)
decode_password p buf next_pos =
    if p.connect_flags.password_flag
    then (do
      (v, next_pos) ← password_try_from buf next_pos
      ok (record p { password = some v }, next_pos))
    else ok (p, next_pos)

unfoldable pub decode_payload : Connect → Bytes → Option ℕ → Outcome (Connect × Bytes)
unfolding decode_will decode_username decode_password
decode_payload p buf protocol_version = do
  (id, next_pos) ← client_id_try_from buf 0
  (p, next_pos) ← decode_will (record p { client_id = id }) buf next_pos
  (p, next_pos) ← decode_username p buf next_pos
  (p, next_pos) ← decode_password p buf next_pos
  rest ← advance buf next_pos
  ok (p, rest)
