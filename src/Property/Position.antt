-- ===== src/Property/Position.antt =====
-- Every reader of a value goes forward: the position it returns lies behind the one it is given.
use aqua.Base.{ℕ, ◌<◌, ◌≡◌, arith}
use aqua.Outcome.{Outcome, ok, >>=-eq-ok}
use aqua.Bytes.{Bytes}
use aqua.Wire.{decode_utf8_string}
use aqua.Wire.Text.{decode_utf8_string_bounds}
use aqua.Wire.Bounds.{decode_variable_length_position}
use aqua.Property.{
  payload_format_indicator_try_from, user_property_try_from, message_expiry_interval_try_from,
  session_expiry_interval_try_from, will_delay_interval_try_from, maximum_packet_size_try_from,
  topic_alias_try_from, receive_maximum_try_from, topic_alias_maximum_try_from, keep_alive_try_from,
  packet_id_try_from, protocol_version_try_from, request_response_information_try_from,
  request_problem_information_try_from, response_topic_try_from, content_type_try_from,
  reason_string_try_from, server_reference_try_from, authentication_method_try_from,
  topic_name_try_from, topic_filter_try_from, client_id_try_from, user_name_try_from,
  protocol_name_try_from, correlation_data_try_from, authentication_data_try_from,
  will_payload_try_from, password_try_from, subscription_identifier_try_from,
}

-- The shape of all the lemmas below.
abbrev pub Advances {ℓ} : {A : Type ℓ} → (Bytes → ℕ → Outcome (A × ℕ)) → Type ℓ
Advances try_from =
    (buf : Bytes) (pos : ℕ) (v : _) (next : ℕ) → try_from buf pos ≡ ok (v, next) → pos < next

pub payload_format_indicator-Advances : Advances payload_format_indicator_try_from
unfolding payload_format_indicator_try_from
payload_format_indicator-Advances buf pos v next h = ground arith

pub user_property-Advances : Advances user_property_try_from
unfolding user_property_try_from
user_property-Advances buf pos v next h =
    let (a, ea, h1) = >>=-eq-ok (decode_utf8_string buf pos) _ h in
    let (b, eb, h2) = >>=-eq-ok (decode_utf8_string buf a.1) _ h1 in
    ground (
      arith,
      h2,
      decode_utf8_string_bounds buf pos a.0 a.1 ea,
      decode_utf8_string_bounds buf a.1 b.0 b.1 eb,
    )

pub message_expiry_interval-Advances : Advances message_expiry_interval_try_from
unfolding message_expiry_interval_try_from
message_expiry_interval-Advances buf pos v next h = ground arith

pub session_expiry_interval-Advances : Advances session_expiry_interval_try_from
unfolding session_expiry_interval_try_from
session_expiry_interval-Advances buf pos v next h = ground arith

pub will_delay_interval-Advances : Advances will_delay_interval_try_from
unfolding will_delay_interval_try_from
will_delay_interval-Advances buf pos v next h = ground arith

pub maximum_packet_size-Advances : Advances maximum_packet_size_try_from
unfolding maximum_packet_size_try_from
maximum_packet_size-Advances buf pos v next h = ground arith

pub topic_alias-Advances : Advances topic_alias_try_from
unfolding topic_alias_try_from
topic_alias-Advances buf pos v next h = ground arith

pub receive_maximum-Advances : Advances receive_maximum_try_from
unfolding receive_maximum_try_from
receive_maximum-Advances buf pos v next h = ground arith

pub topic_alias_maximum-Advances : Advances topic_alias_maximum_try_from
unfolding topic_alias_maximum_try_from
topic_alias_maximum-Advances buf pos v next h = ground arith

pub keep_alive-Advances : Advances keep_alive_try_from
unfolding keep_alive_try_from
keep_alive-Advances buf pos v next h = ground arith

pub packet_id-Advances : Advances packet_id_try_from
unfolding packet_id_try_from
packet_id-Advances buf pos v next h = ground arith

pub protocol_version-Advances : Advances protocol_version_try_from
unfolding protocol_version_try_from
protocol_version-Advances buf pos v next h = ground arith

pub request_response_information-Advances : Advances request_response_information_try_from
unfolding request_response_information_try_from
request_response_information-Advances buf pos v next h = ground arith

pub request_problem_information-Advances : Advances request_problem_information_try_from
unfolding request_problem_information_try_from
request_problem_information-Advances buf pos v next h = ground arith

pub response_topic-Advances : Advances response_topic_try_from
unfolding response_topic_try_from
response_topic-Advances buf pos v next h = ground (arith, decode_utf8_string_bounds buf pos v next)

pub content_type-Advances : Advances content_type_try_from
unfolding content_type_try_from
content_type-Advances buf pos v next h = ground (arith, decode_utf8_string_bounds buf pos v next)

pub reason_string-Advances : Advances reason_string_try_from
unfolding reason_string_try_from
reason_string-Advances buf pos v next h = ground (arith, decode_utf8_string_bounds buf pos v next)

pub server_reference-Advances : Advances server_reference_try_from
unfolding server_reference_try_from
server_reference-Advances buf pos v next h =
    ground (arith, decode_utf8_string_bounds buf pos v next)

pub authentication_method-Advances : Advances authentication_method_try_from
unfolding authentication_method_try_from
authentication_method-Advances buf pos v next h =
    ground (arith, decode_utf8_string_bounds buf pos v next)

pub topic_name-Advances : Advances topic_name_try_from
unfolding topic_name_try_from
topic_name-Advances buf pos v next h = ground (arith, decode_utf8_string_bounds buf pos v next)

pub topic_filter-Advances : Advances topic_filter_try_from
unfolding topic_filter_try_from
topic_filter-Advances buf pos v next h = ground (arith, decode_utf8_string_bounds buf pos v next)

pub client_id-Advances : Advances client_id_try_from
unfolding client_id_try_from
client_id-Advances buf pos v next h = ground (arith, decode_utf8_string_bounds buf pos v next)

pub user_name-Advances : Advances user_name_try_from
unfolding user_name_try_from
user_name-Advances buf pos v next h = ground (arith, decode_utf8_string_bounds buf pos v next)

pub protocol_name-Advances : Advances protocol_name_try_from
unfolding protocol_name_try_from
protocol_name-Advances buf pos v next h = ground arith

pub correlation_data-Advances : Advances correlation_data_try_from
unfolding correlation_data_try_from
correlation_data-Advances buf pos v next h = ground arith

pub authentication_data-Advances : Advances authentication_data_try_from
unfolding authentication_data_try_from
authentication_data-Advances buf pos v next h = ground arith

pub will_payload-Advances : Advances will_payload_try_from
unfolding will_payload_try_from
will_payload-Advances buf pos v next h = ground arith

pub password-Advances : Advances password_try_from
unfolding password_try_from
password-Advances buf pos v next h = ground arith

pub subscription_identifier-Advances : Advances subscription_identifier_try_from
unfolding subscription_identifier_try_from
subscription_identifier-Advances buf pos v next h =
    ground (arith, decode_variable_length_position buf pos v next)
