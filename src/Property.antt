-- ===== src/Property.antt =====
-- mqtt_coder/src/mqtt.rs: the values that headers and properties hold. A tuple struct with one field
-- is modelled by that field: a string or byte string by its bytes, a number by a number.
pub mod Loop
pub mod Reads
pub mod Writers
pub mod Position
pub mod Ends
pub mod Forward
use aqua.Base.{
  ℕ, zero, suc, ◌+◌, ◌-◌, ◌*◌, ◌/◌, Bool, true, false, not, List, [], ◌∷◌, ◌++◌, bit_and, ltb, ◌==◌,
  Option, none, some, if◌then◌else◌, length,
}
use aqua.Outcome.{Outcome, ok, err, invalid_format, out_of_fuel, ◌>>=◌}
use aqua.Bytes.{Bytes, index, slice, u32_from_slice, byte_pair_at}
use aqua.Utf8.{from_utf8}
use aqua.Wire.{decode_utf8_string, decode_variable_length}

pub data QoS : Type 0 where
  qos0 qos1 qos2 : QoS

abbrev pub default_qos : QoS
default_qos = qos0

unfoldable pub qos_try_from : ℕ → Outcome QoS
qos_try_from value =
    if value == 0
    then ok qos0
    else if value == 1
    then ok qos1
    else if value == 2
    then ok qos2
    else err invalid_format

pub data PayloadFormatIndicator : Type 0 where
  unspecified_bytes utf8 : PayloadFormatIndicator

-- `c as u8`
abbrev pub indicator_code : PayloadFormatIndicator → ℕ
indicator_code unspecified_bytes = 0
indicator_code utf8 = 1

unfoldable pub payload_format_indicator_try_from : Bytes → ℕ → Outcome (PayloadFormatIndicator × ℕ)
payload_format_indicator_try_from buf start_pos = do
  b ← index buf start_pos
  if b == 0
      then ok (unspecified_bytes, start_pos + 1)
      else if b == 1
      then ok (utf8, start_pos + 1)
      else err invalid_format

pub record UserProperty : Type 0 where
  pub key : Bytes
  pub value : Bytes

unfoldable pub user_property_try_from : Bytes → ℕ → Outcome (UserProperty × ℕ)
user_property_try_from buf start_pos = do
  (key, next_pos) ← decode_utf8_string buf start_pos
  (value, end_pos) ← decode_utf8_string buf next_pos
  ok (record { key = key; value = value }, end_pos)

-- `MessageExpiryInterval`, `SessionExpiryInterval` and `WillDelayInterval` read the same way.
unfoldable pub message_expiry_interval_try_from : Bytes → ℕ → Outcome (ℕ × ℕ)
message_expiry_interval_try_from buf start_pos = do
  bytes ← slice buf start_pos (start_pos + 4)
  i ← u32_from_slice bytes
  ok (i, start_pos + 4)

unfoldable pub session_expiry_interval_try_from : Bytes → ℕ → Outcome (ℕ × ℕ)
session_expiry_interval_try_from buf start_pos = do
  bytes ← slice buf start_pos (start_pos + 4)
  i ← u32_from_slice bytes
  ok (i, start_pos + 4)

unfoldable pub will_delay_interval_try_from : Bytes → ℕ → Outcome (ℕ × ℕ)
will_delay_interval_try_from buf start_pos = do
  bytes ← slice buf start_pos (start_pos + 4)
  i ← u32_from_slice bytes
  ok (i, start_pos + 4)

unfoldable pub maximum_packet_size_try_from : Bytes → ℕ → Outcome (ℕ × ℕ)
maximum_packet_size_try_from buf start_pos = do
  bytes ← slice buf start_pos (start_pos + 4)
  i ← u32_from_slice bytes
  if i == 0 then err invalid_format else ok (i, start_pos + 4)

unfoldable pub topic_alias_try_from : Bytes → ℕ → Outcome (ℕ × ℕ)
topic_alias_try_from buf start_pos = do
  i ← byte_pair_at buf start_pos
  if i == 0 then err invalid_format else ok (i, start_pos + 2)

unfoldable pub receive_maximum_try_from : Bytes → ℕ → Outcome (ℕ × ℕ)
receive_maximum_try_from buf start_pos = do
  i ← byte_pair_at buf start_pos
  if i == 0 then err invalid_format else ok (i, start_pos + 2)

unfoldable pub topic_alias_maximum_try_from : Bytes → ℕ → Outcome (ℕ × ℕ)
topic_alias_maximum_try_from buf start_pos = do
  i ← byte_pair_at buf start_pos
  if i == 0 then err invalid_format else ok (i, start_pos + 2)

unfoldable pub keep_alive_try_from : Bytes → ℕ → Outcome (ℕ × ℕ)
keep_alive_try_from buf start_pos = do i ← byte_pair_at buf start_pos; ok (i, start_pos + 2)

unfoldable pub packet_id_try_from : Bytes → ℕ → Outcome (ℕ × ℕ)
packet_id_try_from buf start_pos = do i ← byte_pair_at buf start_pos; ok (i, start_pos + 2)

unfoldable pub protocol_version_try_from : Bytes → ℕ → Outcome (ℕ × ℕ)
protocol_version_try_from buf start_pos = do b ← index buf start_pos; ok (b, start_pos + 1)

unfoldable pub request_response_information_try_from : Bytes → ℕ → Outcome (Bool × ℕ)
request_response_information_try_from buf start_pos = do
  b ← index buf start_pos
  if b == 0
      then ok (false, start_pos + 1)
      else if b == 1
      then ok (true, start_pos + 1)
      else err invalid_format

unfoldable pub request_problem_information_try_from : Bytes → ℕ → Outcome (Bool × ℕ)
request_problem_information_try_from buf start_pos = do
  b ← index buf start_pos
  if b == 0
      then ok (false, start_pos + 1)
      else if b == 1
      then ok (true, start_pos + 1)
      else err invalid_format

unfoldable pub response_topic_try_from : Bytes → ℕ → Outcome (Bytes × ℕ)
response_topic_try_from buf start_pos = do
  (res, pos) ← decode_utf8_string buf start_pos
  ok (res, pos)

unfoldable pub content_type_try_from : Bytes → ℕ → Outcome (Bytes × ℕ)
content_type_try_from buf start_pos = do
  (res, pos) ← decode_utf8_string buf start_pos
  ok (res, pos)

unfoldable pub reason_string_try_from : Bytes → ℕ → Outcome (Bytes × ℕ)
reason_string_try_from buf start_pos = do
  (res, pos) ← decode_utf8_string buf start_pos
  ok (res, pos)

unfoldable pub server_reference_try_from : Bytes → ℕ → Outcome (Bytes × ℕ)
server_reference_try_from buf start_pos = do
  (res, pos) ← decode_utf8_string buf start_pos
  ok (res, pos)

unfoldable pub authentication_method_try_from : Bytes → ℕ → Outcome (Bytes × ℕ)
authentication_method_try_from buf start_pos = do
  (res, pos) ← decode_utf8_string buf start_pos
  ok (res, pos)

unfoldable pub topic_name_try_from : Bytes → ℕ → Outcome (Bytes × ℕ)
topic_name_try_from buf start_pos = do (res, pos) ← decode_utf8_string buf start_pos; ok (res, pos)

unfoldable pub topic_filter_try_from : Bytes → ℕ → Outcome (Bytes × ℕ)
topic_filter_try_from buf start_pos = do
  (res, pos) ← decode_utf8_string buf start_pos
  ok (res, pos)

unfoldable pub client_id_try_from : Bytes → ℕ → Outcome (Bytes × ℕ)
client_id_try_from buf start_pos = do (res, pos) ← decode_utf8_string buf start_pos; ok (res, pos)

unfoldable pub user_name_try_from : Bytes → ℕ → Outcome (Bytes × ℕ)
user_name_try_from buf start_pos = do (res, pos) ← decode_utf8_string buf start_pos; ok (res, pos)

-- `ProtocolName` slices with no length test of its own.
unfoldable pub protocol_name_try_from : Bytes → ℕ → Outcome (Bytes × ℕ)
protocol_name_try_from buf start_pos = do
  len ← byte_pair_at buf start_pos
  raw ← slice buf (start_pos + 2) (start_pos + 2 + len)
  ret ← from_utf8 raw
  ok (ret, start_pos + 2 + len)

unfoldable pub correlation_data_try_from : Bytes → ℕ → Outcome (Bytes × ℕ)
correlation_data_try_from buf start_pos = do
  len ← byte_pair_at buf start_pos
  raw ← slice buf (start_pos + 2) (start_pos + 2 + len)
  ok (raw, start_pos + 2 + len)

unfoldable pub authentication_data_try_from : Bytes → ℕ → Outcome (Bytes × ℕ)
authentication_data_try_from buf start_pos = do
  len ← byte_pair_at buf start_pos
  raw ← slice buf (start_pos + 2) (start_pos + 2 + len)
  ok (raw, start_pos + 2 + len)

unfoldable pub will_payload_try_from : Bytes → ℕ → Outcome (Bytes × ℕ)
will_payload_try_from buf start_pos = do
  len ← byte_pair_at buf start_pos
  raw ← slice buf (start_pos + 2) (start_pos + 2 + len)
  ok (raw, start_pos + 2 + len)

unfoldable pub password_try_from : Bytes → ℕ → Outcome (Bytes × ℕ)
password_try_from buf start_pos = do
  len ← byte_pair_at buf start_pos
  raw ← slice buf (start_pos + 2) (start_pos + 2 + len)
  ok (raw, start_pos + 2 + len)

unfoldable pub subscription_identifier_try_from : Bytes → ℕ → Outcome (ℕ × ℕ)
subscription_identifier_try_from buf start_pos = do
  (i, next_pos) ← decode_variable_length buf start_pos
  ok (i, next_pos)

-- `get_or_insert_with(Vec::new).push(x)`
abbrev pub push {ℓ} : {A : Type ℓ} → Option (List A) → A → Option (List A)
push none x = some (x ∷ [])
push (some xs) x = some (xs ++ x ∷ [])
