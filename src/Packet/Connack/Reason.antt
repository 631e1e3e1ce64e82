-- ===== src/Packet/Connack/Reason.antt =====
-- mqtt_coder/src/mqtt.rs: `ConnackReason`.
use aqua.Base.{ℕ, ◌≡◌, refl, Option, none, some, ◌==◌, if◌then◌else◌}

pub data ConnackReason : Type 0 where
  success : ConnackReason
  unspecified_error : ConnackReason
  malformed_packet : ConnackReason
  protocol_error : ConnackReason
  implementation_specific_error : ConnackReason
  unsupported_protocol_version : ConnackReason
  client_identifier_not_valid : ConnackReason
  bad_user_name_or_password : ConnackReason
  not_authorized : ConnackReason
  server_unavailable : ConnackReason
  server_busy : ConnackReason
  banned : ConnackReason
  bad_authentication_method : ConnackReason
  keep_alive_timeout : ConnackReason
  session_taken_over : ConnackReason
  topic_filter_invalid : ConnackReason
  topic_name_invalid : ConnackReason
  packet_too_large : ConnackReason
  quota_exceeded : ConnackReason
  payload_format_invalid : ConnackReason
  retain_not_supported : ConnackReason
  qos_not_supported : ConnackReason
  use_another_server : ConnackReason
  server_moved : ConnackReason
  connection_rate_exceeded : ConnackReason

-- `code as u8`
unfoldable pub reason_byte : ConnackReason → ℕ
reason_byte success = 0x00
reason_byte unspecified_error = 0x80
reason_byte malformed_packet = 0x81
reason_byte protocol_error = 0x82
reason_byte implementation_specific_error = 0x83
reason_byte unsupported_protocol_version = 0x84
reason_byte client_identifier_not_valid = 0x85
reason_byte bad_user_name_or_password = 0x86
reason_byte not_authorized = 0x87
reason_byte server_unavailable = 0x88
reason_byte server_busy = 0x89
reason_byte banned = 0x8a
reason_byte bad_authentication_method = 0x8c
reason_byte keep_alive_timeout = 0x8d
reason_byte session_taken_over = 0x8e
reason_byte topic_filter_invalid = 0x8f
reason_byte topic_name_invalid = 0x90
reason_byte packet_too_large = 0x95
reason_byte quota_exceeded = 0x97
reason_byte payload_format_invalid = 0x99
reason_byte retain_not_supported = 0x9a
reason_byte qos_not_supported = 0x9b
reason_byte use_another_server = 0x9c
reason_byte server_moved = 0x9d
reason_byte connection_rate_exceeded = 0x9f

unfoldable pub from_u8 : ℕ → Option ConnackReason
from_u8 value =
    if value == 0x00
    then some success
    else if value == 0x80
    then some unspecified_error
    else if value == 0x81
    then some malformed_packet
    else if value == 0x82
    then some protocol_error
    else if value == 0x83
    then some implementation_specific_error
    else if value == 0x84
    then some unsupported_protocol_version
    else if value == 0x85
    then some client_identifier_not_valid
    else if value == 0x86
    then some bad_user_name_or_password
    else if value == 0x87
    then some not_authorized
    else if value == 0x88
    then some server_unavailable
    else if value == 0x89
    then some server_busy
    else if value == 0x8a
    then some banned
    else if value == 0x8c
    then some bad_authentication_method
    else if value == 0x8d
    then some keep_alive_timeout
    else if value == 0x8e
    then some session_taken_over
    else if value == 0x8f
    then some topic_filter_invalid
    else if value == 0x90
    then some topic_name_invalid
    else if value == 0x95
    then some packet_too_large
    else if value == 0x97
    then some quota_exceeded
    else if value == 0x99
    then some payload_format_invalid
    else if value == 0x9a
    then some retain_not_supported
    else if value == 0x9b
    then some qos_not_supported
    else if value == 0x9c
    then some use_another_server
    else if value == 0x9d
    then some server_moved
    else if value == 0x9f
    then some connection_rate_exceeded
    else none

-- Each reason is found again by the byte that stands for it.
pub from_u8-reason_byte : (r : ConnackReason) → from_u8 (reason_byte r) ≡ some r
unfolding from_u8 reason_byte
from_u8-reason_byte success = refl
from_u8-reason_byte unspecified_error = refl
from_u8-reason_byte malformed_packet = refl
from_u8-reason_byte protocol_error = refl
from_u8-reason_byte implementation_specific_error = refl
from_u8-reason_byte unsupported_protocol_version = refl
from_u8-reason_byte client_identifier_not_valid = refl
from_u8-reason_byte bad_user_name_or_password = refl
from_u8-reason_byte not_authorized = refl
from_u8-reason_byte server_unavailable = refl
from_u8-reason_byte server_busy = refl
from_u8-reason_byte banned = refl
from_u8-reason_byte bad_authentication_method = refl
from_u8-reason_byte keep_alive_timeout = refl
from_u8-reason_byte session_taken_over = refl
from_u8-reason_byte topic_filter_invalid = refl
from_u8-reason_byte topic_name_invalid = refl
from_u8-reason_byte packet_too_large = refl
from_u8-reason_byte quota_exceeded = refl
from_u8-reason_byte payload_format_invalid = refl
from_u8-reason_byte retain_not_supported = refl
from_u8-reason_byte qos_not_supported = refl
from_u8-reason_byte use_another_server = refl
from_u8-reason_byte server_moved = refl
from_u8-reason_byte connection_rate_exceeded = refl
