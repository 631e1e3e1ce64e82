-- ===== src/Packet/Suback.antt =====
-- mqtt_coder/src/mqtt.rs: `Suback`, its properties and its encoder.
pub mod Frame
use aqua.Base.{
  ℕ, zero, suc, ◌+◌, ◌-◌, ◌*◌, ◌/◌, ◌≡◌, refl, ap, Bool, true, false, not, ◌&&◌, ◌||◌, List, [],
  ◌∷◌, ◌++◌, map, Option, none, some, leb, ltb, ◌==◌, if◌then◌else◌, length, unwrap_or, is_some,
  bit_and, bit_or,
}
use aqua.Outcome.{
  Outcome, ok, err, panic, out_of_fuel, MqttError, unexpected, insufficient_bytes, invalid_format,
  ◌>>=◌, unwrap,
}
use aqua.Bytes.{Bytes, index, get_or_invalid, u16_bytes, u32_bytes, advance, checked_sub}
use aqua.Wire.{encode_variable_bytes, decode_variable_length, decode_utf8_string, bool_to_bytes}
use aqua.Property
use aqua.Property.{
  QoS, qos0, qos1, qos2, UserProperty, packet_id_try_from, user_property_try_from, push,
}
use aqua.Property.Writers.{reason_string_bytes, user_properties_bytes, checked_text, cast_text}
use aqua.Property.Loop.{property_block}

pub data SubackReasonCode : Type 0 where
  granted_qos0 : SubackReasonCode
  granted_qos1 : SubackReasonCode
  granted_qos2 : SubackReasonCode
  unspecified_error : SubackReasonCode
  implementation_specific_error : SubackReasonCode
  not_authorized : SubackReasonCode
  topic_filter_invalid : SubackReasonCode
  packet_identifier_in_use : SubackReasonCode
  quota_exceeded : SubackReasonCode
  shared_subscriptions_not_supported : SubackReasonCode
  subscription_identifiers_not_supported : SubackReasonCode
  wildcard_subscriptions_not_supported : SubackReasonCode

-- `code as u8`
unfoldable pub reason_byte : SubackReasonCode → ℕ
reason_byte granted_qos0 = 0x00
reason_byte granted_qos1 = 0x01
reason_byte granted_qos2 = 0x02
reason_byte unspecified_error = 0x80
reason_byte implementation_specific_error = 0x83
reason_byte not_authorized = 0x87
reason_byte topic_filter_invalid = 0x8f
reason_byte packet_identifier_in_use = 0x91
reason_byte quota_exceeded = 0x97
reason_byte shared_subscriptions_not_supported = 0x9e
reason_byte subscription_identifiers_not_supported = 0xa1
reason_byte wildcard_subscriptions_not_supported = 0xa2

-- `impl From<QoS> for SubackReasonCode`
unfoldable pub from_qos : QoS → SubackReasonCode
from_qos qos0 = granted_qos0
from_qos qos1 = granted_qos1
from_qos qos2 = granted_qos2

pub record SubackProperties : Type 0 where
  pub reason_string : Option Bytes
  pub user_properties : Option (List UserProperty)

abbrev pub default_properties : SubackProperties
default_properties = record { reason_string = none; user_properties = none }

unfoldable pub build_bytes : SubackProperties → Outcome Bytes
build_bytes p = do
  reason ← reason_string_bytes p.reason_string
  users ← user_properties_bytes (unwrap_or p.user_properties [])
  ok (reason ++ users)

pub record Suback : Type 0 where
  pub packet_id : ℕ
  pub suback_properties : Option SubackProperties
  pub reason_codes : List SubackReasonCode
  pub protocol_version : ℕ

-- The property length, the properties and the remaining length, before anything is written.
unfoldable pub measure : Suback → Outcome (Bytes × Bytes × ℕ)
measure p =
    if leb 5 p.protocol_version
    then (do
      pro ← build_bytes (unwrap_or p.suback_properties default_properties)
      let enc = encode_variable_bytes (length pro)
      ok (enc, pro, length enc + length pro + length p.reason_codes + 2))
    else ok ([], [], length p.reason_codes + 2)

unfoldable pub property_part : Suback → Bytes → Bytes → Bytes
property_part p enc pro = if leb 5 p.protocol_version then enc ++ pro else []

unfoldable pub encode_header : Suback → Outcome Bytes
unfolding measure property_part
encode_header p = do
  (enc, pro, remaining_length) ← measure p
  ok (
      0x90 ∷ encode_variable_bytes remaining_length
      ++ (u16_bytes p.packet_id ++ property_part p enc pro))

-- The loop that puts one byte for each reason code.
unfoldable pub encode_payload_chunk : Suback → Outcome (Option Bytes)
unfolding reason_byte
encode_payload_chunk p = ok (some (map reason_byte p.reason_codes))
