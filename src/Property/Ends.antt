-- ===== src/Property/Ends.antt =====
-- The readers of values use no fuel.
use aqua.Base.{ℕ}
use aqua.Outcome.{Ends}
use aqua.Bytes.{Bytes}
use aqua.Wire.Ends.{wire_ends}
use aqua.Property.{
  qos_try_from, payload_format_indicator_try_from, user_property_try_from,
  message_expiry_interval_try_from, session_expiry_interval_try_from, will_delay_interval_try_from,
  maximum_packet_size_try_from, topic_alias_try_from, receive_maximum_try_from,
  topic_alias_maximum_try_from, keep_alive_try_from, packet_id_try_from, protocol_version_try_from,
  request_response_information_try_from, request_problem_information_try_from,
  response_topic_try_from, content_type_try_from, reason_string_try_from, server_reference_try_from,
  authentication_method_try_from, topic_name_try_from, topic_filter_try_from, client_id_try_from,
  user_name_try_from, protocol_name_try_from, correlation_data_try_from,
  authentication_data_try_from, will_payload_try_from, password_try_from,
  subscription_identifier_try_from,
}

pub qos_try_from-Ends : (value : ℕ) → Ends (qos_try_from value)
unfolding qos_try_from
qos_try_from-Ends value = search wire_ends

pub payload_format_indicator_try_from-Ends :
    (buf : Bytes) (pos : ℕ) → Ends (payload_format_indicator_try_from buf pos)
unfolding payload_format_indicator_try_from
payload_format_indicator_try_from-Ends buf pos = search wire_ends depth 9

pub user_property_try_from-Ends : (buf : Bytes) (pos : ℕ) → Ends (user_property_try_from buf pos)
unfolding user_property_try_from
user_property_try_from-Ends buf pos = search wire_ends depth 9

pub message_expiry_interval_try_from-Ends :
    (buf : Bytes) (pos : ℕ) → Ends (message_expiry_interval_try_from buf pos)
unfolding message_expiry_interval_try_from
message_expiry_interval_try_from-Ends buf pos = search wire_ends depth 9

pub session_expiry_interval_try_from-Ends :
    (buf : Bytes) (pos : ℕ) → Ends (session_expiry_interval_try_from buf pos)
unfolding session_expiry_interval_try_from
session_expiry_interval_try_from-Ends buf pos = search wire_ends depth 9

pub will_delay_interval_try_from-Ends :
    (buf : Bytes) (pos : ℕ) → Ends (will_delay_interval_try_from buf pos)
unfolding will_delay_interval_try_from
will_delay_interval_try_from-Ends buf pos = search wire_ends depth 9

pub maximum_packet_size_try_from-Ends :
    (buf : Bytes) (pos : ℕ) → Ends (maximum_packet_size_try_from buf pos)
unfolding maximum_packet_size_try_from
maximum_packet_size_try_from-Ends buf pos = search wire_ends depth 9

pub topic_alias_try_from-Ends : (buf : Bytes) (pos : ℕ) → Ends (topic_alias_try_from buf pos)
unfolding topic_alias_try_from
topic_alias_try_from-Ends buf pos = search wire_ends depth 9

pub receive_maximum_try_from-Ends :
    (buf : Bytes) (pos : ℕ) → Ends (receive_maximum_try_from buf pos)
unfolding receive_maximum_try_from
receive_maximum_try_from-Ends buf pos = search wire_ends depth 9

pub topic_alias_maximum_try_from-Ends :
    (buf : Bytes) (pos : ℕ) → Ends (topic_alias_maximum_try_from buf pos)
unfolding topic_alias_maximum_try_from
topic_alias_maximum_try_from-Ends buf pos = search wire_ends depth 9

pub keep_alive_try_from-Ends : (buf : Bytes) (pos : ℕ) → Ends (keep_alive_try_from buf pos)
unfolding keep_alive_try_from
keep_alive_try_from-Ends buf pos = search wire_ends depth 9

pub packet_id_try_from-Ends : (buf : Bytes) (pos : ℕ) → Ends (packet_id_try_from buf pos)
unfolding packet_id_try_from
packet_id_try_from-Ends buf pos = search wire_ends depth 9

pub protocol_version_try_from-Ends :
    (buf : Bytes) (pos : ℕ) → Ends (protocol_version_try_from buf pos)
unfolding protocol_version_try_from
protocol_version_try_from-Ends buf pos = search wire_ends depth 9

pub request_response_information_try_from-Ends :
    (buf : Bytes) (pos : ℕ) → Ends (request_response_information_try_from buf pos)
unfolding request_response_information_try_from
request_response_information_try_from-Ends buf pos = search wire_ends depth 9

pub request_problem_information_try_from-Ends :
    (buf : Bytes) (pos : ℕ) → Ends (request_problem_information_try_from buf pos)
unfolding request_problem_information_try_from
request_problem_information_try_from-Ends buf pos = search wire_ends depth 9

pub response_topic_try_from-Ends : (buf : Bytes) (pos : ℕ) → Ends (response_topic_try_from buf pos)
unfolding response_topic_try_from
response_topic_try_from-Ends buf pos = search wire_ends depth 9

pub content_type_try_from-Ends : (buf : Bytes) (pos : ℕ) → Ends (content_type_try_from buf pos)
unfolding content_type_try_from
content_type_try_from-Ends buf pos = search wire_ends depth 9

pub reason_string_try_from-Ends : (buf : Bytes) (pos : ℕ) → Ends (reason_string_try_from buf pos)
unfolding reason_string_try_from
reason_string_try_from-Ends buf pos = search wire_ends depth 9

pub server_reference_try_from-Ends :
    (buf : Bytes) (pos : ℕ) → Ends (server_reference_try_from buf pos)
unfolding server_reference_try_from
server_reference_try_from-Ends buf pos = search wire_ends depth 9

pub authentication_method_try_from-Ends :
    (buf : Bytes) (pos : ℕ) → Ends (authentication_method_try_from buf pos)
unfolding authentication_method_try_from
authentication_method_try_from-Ends buf pos = search wire_ends depth 9

pub topic_name_try_from-Ends : (buf : Bytes) (pos : ℕ) → Ends (topic_name_try_from buf pos)
unfolding topic_name_try_from
topic_name_try_from-Ends buf pos = search wire_ends depth 9

pub topic_filter_try_from-Ends : (buf : Bytes) (pos : ℕ) → Ends (topic_filter_try_from buf pos)
unfolding topic_filter_try_from
topic_filter_try_from-Ends buf pos = search wire_ends depth 9

pub client_id_try_from-Ends : (buf : Bytes) (pos : ℕ) → Ends (client_id_try_from buf pos)
unfolding client_id_try_from
client_id_try_from-Ends buf pos = search wire_ends depth 9

pub user_name_try_from-Ends : (buf : Bytes) (pos : ℕ) → Ends (user_name_try_from buf pos)
unfolding user_name_try_from
user_name_try_from-Ends buf pos = search wire_ends depth 9

pub protocol_name_try_from-Ends : (buf : Bytes) (pos : ℕ) → Ends (protocol_name_try_from buf pos)
unfolding protocol_name_try_from
protocol_name_try_from-Ends buf pos = search wire_ends depth 9

pub correlation_data_try_from-Ends :
    (buf : Bytes) (pos : ℕ) → Ends (correlation_data_try_from buf pos)
unfolding correlation_data_try_from
correlation_data_try_from-Ends buf pos = search wire_ends depth 9

pub authentication_data_try_from-Ends :
    (buf : Bytes) (pos : ℕ) → Ends (authentication_data_try_from buf pos)
unfolding authentication_data_try_from
authentication_data_try_from-Ends buf pos = search wire_ends depth 9

pub will_payload_try_from-Ends : (buf : Bytes) (pos : ℕ) → Ends (will_payload_try_from buf pos)
unfolding will_payload_try_from
will_payload_try_from-Ends buf pos = search wire_ends depth 9

pub password_try_from-Ends : (buf : Bytes) (pos : ℕ) → Ends (password_try_from buf pos)
unfolding password_try_from
password_try_from-Ends buf pos = search wire_ends depth 9

pub subscription_identifier_try_from-Ends :
    (buf : Bytes) (pos : ℕ) → Ends (subscription_identifier_try_from buf pos)
unfolding subscription_identifier_try_from
subscription_identifier_try_from-Ends buf pos = search wire_ends depth 9

pub ruleset property_ends = (
  wire_ends, qos_try_from-Ends, payload_format_indicator_try_from-Ends, user_property_try_from-Ends,
  message_expiry_interval_try_from-Ends, session_expiry_interval_try_from-Ends,
  will_delay_interval_try_from-Ends, maximum_packet_size_try_from-Ends, topic_alias_try_from-Ends,
  receive_maximum_try_from-Ends, topic_alias_maximum_try_from-Ends, keep_alive_try_from-Ends,
  packet_id_try_from-Ends, protocol_version_try_from-Ends,
  request_response_information_try_from-Ends, request_problem_information_try_from-Ends,
  response_topic_try_from-Ends, content_type_try_from-Ends, reason_string_try_from-Ends,
  server_reference_try_from-Ends, authentication_method_try_from-Ends, topic_name_try_from-Ends,
  topic_filter_try_from-Ends, client_id_try_from-Ends, user_name_try_from-Ends,
  protocol_name_try_from-Ends, correlation_data_try_from-Ends, authentication_data_try_from-Ends,
  will_payload_try_from-Ends, password_try_from-Ends, subscription_identifier_try_from-Ends,
)
