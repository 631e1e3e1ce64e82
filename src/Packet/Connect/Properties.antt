-- ===== src/Packet/Connect/Properties.antt =====
-- mqtt_coder/src/mqtt.rs: the properties of `Connect` and of its will, and its flags.
use aqua.Base.{
  ℕ, ◌+◌, ◌/◌, Bool, false, not, ◌&&◌, List, Option, none, some, ◌==◌, if◌then◌else◌, is_some,
  bit_and,
}
use aqua.Outcome.{Outcome, ok, err, invalid_format, ◌>>=◌}
use aqua.Bytes.{Bytes, index}
use aqua.Property.{
  QoS, qos0, qos_try_from, UserProperty, PayloadFormatIndicator, payload_format_indicator_try_from,
  user_property_try_from, message_expiry_interval_try_from, session_expiry_interval_try_from,
  will_delay_interval_try_from, maximum_packet_size_try_from, receive_maximum_try_from,
  topic_alias_maximum_try_from, request_response_information_try_from,
  request_problem_information_try_from, response_topic_try_from, content_type_try_from,
  authentication_method_try_from, correlation_data_try_from, authentication_data_try_from, push,
}

pub record ConnectFlags : Type 0 where
  pub user_name_flag : Bool
  pub password_flag : Bool
  pub will_retain : Bool
  pub will_qos : QoS
  pub will_flag : Bool
  pub clean_start : Bool

abbrev pub default_flags : ConnectFlags
default_flags = record {
  user_name_flag = false;
  password_flag = false;
  will_retain = false;
  will_qos = qos0;
  will_flag = false;
  clean_start = false;
}

unfoldable pub connect_flags_try_from : Bytes → ℕ → Outcome (ConnectFlags × ℕ)
connect_flags_try_from buf start_pos = do
  b ← index buf start_pos
  if not (bit_and b 0x01 == 0) then err invalid_format else do
    will_qos ← qos_try_from (bit_and b 0x18 / 8)
    ok (
      record {
        user_name_flag = not (bit_and b 0x80 == 0);
        password_flag = not (bit_and b 0x40 == 0);
        will_retain = not (bit_and b 0x20 == 0);
        will_qos = will_qos;
        will_flag = not (bit_and b 0x04 == 0);
        clean_start = not (bit_and b 0x02 == 0);
      },
      start_pos + 1,
    )

pub record ConnectProperties : Type 0 where
  pub session_expiry_interval : Option ℕ
  pub receive_maximum : Option ℕ
  pub maximum_packet_size : Option ℕ
  pub topic_alias_maximum : Option ℕ
  pub request_response_information : Option Bool
  pub request_problem_information : Option Bool
  pub user_properties : Option (List UserProperty)
  pub authentication_method : Option Bytes
  pub authentication_data : Option Bytes

abbrev pub default_properties : ConnectProperties
default_properties = record {
  session_expiry_interval = none;
  receive_maximum = none;
  maximum_packet_size = none;
  topic_alias_maximum = none;
  request_response_information = none;
  request_problem_information = none;
  user_properties = none;
  authentication_method = none;
  authentication_data = none;
}

unfoldable pub property_match : Bytes → ℕ → ℕ → ConnectProperties → Outcome (ConnectProperties × ℕ)
property_match buf id pos p =
    if id == 0x11
    then (if is_some p.session_expiry_interval then err invalid_format else do
      (v, next_pos) ← session_expiry_interval_try_from buf pos
      ok (record p { session_expiry_interval = some v }, next_pos))
    else if id == 0x21
    then (if is_some p.receive_maximum then err invalid_format else do
      (v, next_pos) ← receive_maximum_try_from buf pos
      ok (record p { receive_maximum = some v }, next_pos))
    else if id == 0x27
    then (if is_some p.maximum_packet_size then err invalid_format else do
      (v, next_pos) ← maximum_packet_size_try_from buf pos
      ok (record p { maximum_packet_size = some v }, next_pos))
    else if id == 0x22
    then (if is_some p.topic_alias_maximum then err invalid_format else do
      (v, next_pos) ← topic_alias_maximum_try_from buf pos
      ok (record p { topic_alias_maximum = some v }, next_pos))
    else if id == 0x19
    then (if is_some p.request_response_information then err invalid_format else do
      (v, next_pos) ← request_response_information_try_from buf pos
      ok (record p { request_response_information = some v }, next_pos))
    else if id == 0x17
    then (if is_some p.request_problem_information then err invalid_format else do
      (v, next_pos) ← request_problem_information_try_from buf pos
      ok (record p { request_problem_information = some v }, next_pos))
    else if id == 0x26
    then (do
      (v, next_pos) ← user_property_try_from buf pos
      ok (record p { user_properties = push p.user_properties v }, next_pos))
    else if id == 0x15
    then (if is_some p.authentication_method then err invalid_format else do
      (v, next_pos) ← authentication_method_try_from buf pos
      ok (record p { authentication_method = some v }, next_pos))
    else if id == 0x16
    then (if is_some p.authentication_data then err invalid_format else do
      (v, next_pos) ← authentication_data_try_from buf pos
      ok (record p { authentication_data = some v }, next_pos))
    else err invalid_format

-- The test behind each property: no authentication data without a method before it.
unfoldable pub property_arm : Bytes → ℕ → ℕ → ConnectProperties → Outcome (ConnectProperties × ℕ)
unfolding property_match
property_arm buf id pos p = do
  (p, next_pos) ← property_match buf id pos p
  if is_some p.authentication_data && not (is_some p.authentication_method)
      then err invalid_format
      else ok (p, next_pos)

pub record WillProperties : Type 0 where
  pub will_delay_interval : Option ℕ
  pub payload_format_indicator : Option PayloadFormatIndicator
  pub message_expiry_interval : Option ℕ
  pub content_type : Option Bytes
  pub response_topic : Option Bytes
  pub correlation_data : Option Bytes
  pub user_properties : Option (List UserProperty)
  pub subscription_identifier : Option ℕ

abbrev pub default_will : WillProperties
default_will = record {
  will_delay_interval = none;
  payload_format_indicator = none;
  message_expiry_interval = none;
  content_type = none;
  response_topic = none;
  correlation_data = none;
  user_properties = none;
  subscription_identifier = none;
}

unfoldable pub will_arm : Bytes → ℕ → ℕ → WillProperties → Outcome (WillProperties × ℕ)
will_arm buf id pos p =
    if id == 0x18
    then (if is_some p.will_delay_interval then err invalid_format else do
      (v, next_pos) ← will_delay_interval_try_from buf pos
      ok (record p { will_delay_interval = some v }, next_pos))
    else if id == 0x01
    then (if is_some p.payload_format_indicator then err invalid_format else do
      (v, next_pos) ← payload_format_indicator_try_from buf pos
      ok (record p { payload_format_indicator = some v }, next_pos))
    else if id == 0x02
    then (if is_some p.message_expiry_interval then err invalid_format else do
      (v, next_pos) ← message_expiry_interval_try_from buf pos
      ok (record p { message_expiry_interval = some v }, next_pos))
    else if id == 0x03
    then (if is_some p.content_type then err invalid_format else do
      (v, next_pos) ← content_type_try_from buf pos
      ok (record p { content_type = some v }, next_pos))
    else if id == 0x08
    then (if is_some p.response_topic then err invalid_format else do
      (v, next_pos) ← response_topic_try_from buf pos
      ok (record p { response_topic = some v }, next_pos))
    else if id == 0x09
    then (if is_some p.correlation_data then err invalid_format else do
      (v, next_pos) ← correlation_data_try_from buf pos
      ok (record p { correlation_data = some v }, next_pos))
    else if id == 0x26
    then (do
      (v, next_pos) ← user_property_try_from buf pos
      ok (record p { user_properties = push p.user_properties v }, next_pos))
    else err invalid_format
