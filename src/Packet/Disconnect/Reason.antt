-- ===== src/Packet/Disconnect/Reason.antt =====
-- mqtt_coder/src/mqtt.rs: `DisconnectReasonCode`.
use aqua.Base.{ℕ, ◌+◌, Option, none, some, ◌==◌, if◌then◌else◌}
use aqua.Outcome.{Outcome, ok, invalid_format, ok_or, ◌>>=◌}
use aqua.Bytes.{Bytes, get_or_invalid}

pub data DisconnectReasonCode : Type 0 where
  normal_disconnection : DisconnectReasonCode
  disconnect_with_will_message : DisconnectReasonCode
  unspecified_error : DisconnectReasonCode
  malformed_packet : DisconnectReasonCode
  protocol_error : DisconnectReasonCode
  implementation_specific_error : DisconnectReasonCode
  not_authorized : DisconnectReasonCode
  server_busy : DisconnectReasonCode
  server_shutting_down : DisconnectReasonCode
  keep_alive_timeout : DisconnectReasonCode
  session_taken_over : DisconnectReasonCode
  topic_filter_invalid : DisconnectReasonCode
  topic_name_invalid : DisconnectReasonCode
  recieve_maximum_exceeded : DisconnectReasonCode
  topic_alias_invalid : DisconnectReasonCode
  packet_too_large : DisconnectReasonCode
  message_rate_too_high : DisconnectReasonCode
  quota_exceeded : DisconnectReasonCode
  administrative_action : DisconnectReasonCode
  payload_format_invalid : DisconnectReasonCode
  retain_not_support : DisconnectReasonCode
  qos_not_supported : DisconnectReasonCode
  use_another_server : DisconnectReasonCode
  server_moved : DisconnectReasonCode
  shared_subscriptions_not_supported : DisconnectReasonCode
  connection_rate_exceeded : DisconnectReasonCode
  maximum_connect_time : DisconnectReasonCode
  subsctiption_identifiers_not_supported : DisconnectReasonCode
  wildcard_subscriptions_not_supported : DisconnectReasonCode

-- The derived `TryFromPrimitive` goes by the discriminants.
unfoldable pub from_byte : ℕ → Option DisconnectReasonCode
from_byte value =
    if value == 0x00
    then some normal_disconnection
    else if value == 0x04
    then some disconnect_with_will_message
    else if value == 0x80
    then some unspecified_error
    else if value == 0x81
    then some malformed_packet
    else if value == 0x82
    then some protocol_error
    else if value == 0x83
    then some implementation_specific_error
    else if value == 0x87
    then some not_authorized
    else if value == 0x89
    then some server_busy
    else if value == 0x8b
    then some server_shutting_down
    else if value == 0x8d
    then some keep_alive_timeout
    else if value == 0x8e
    then some session_taken_over
    else if value == 0x8f
    then some topic_filter_invalid
    else if value == 0x90
    then some topic_name_invalid
    else if value == 0x93
    then some recieve_maximum_exceeded
    else if value == 0x94
    then some topic_alias_invalid
    else if value == 0x95
    then some packet_too_large
    else if value == 0x96
    then some message_rate_too_high
    else if value == 0x97
    then some quota_exceeded
    else if value == 0x98
    then some administrative_action
    else if value == 0x99
    then some payload_format_invalid
    else if value == 0x9a
    then some retain_not_support
    else if value == 0x9b
    then some qos_not_supported
    else if value == 0x9c
    then some use_another_server
    else if value == 0x9d
    then some server_moved
    else if value == 0x9e
    then some shared_subscriptions_not_supported
    else if value == 0x9f
    then some connection_rate_exceeded
    else if value == 0xa0
    then some maximum_connect_time
    else if value == 0xa1
    then some subsctiption_identifiers_not_supported
    else if value == 0xa2
    then some wildcard_subscriptions_not_supported
    else none

unfoldable pub convert : Bytes → ℕ → Outcome (DisconnectReasonCode × ℕ)
convert buf start_pos = do
  byte ← get_or_invalid buf start_pos
  code ← ok_or (from_byte byte) invalid_format
  ok (code, start_pos + 1)
