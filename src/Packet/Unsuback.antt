-- ===== src/Packet/Unsuback.antt =====
-- mqtt_coder/src/mqtt.rs: `Unsuback`, its properties and its encoder.
pub mod Frame
use aqua.Base.{
  ℕ, zero, suc, ◌+◌, ◌-◌, ◌*◌, ◌/◌, ◌≡◌, refl, ap, Bool, true, false, not, ◌&&◌, ◌||◌, List, [],
  ◌∷◌, ◌++◌, map, Option, none, some, leb, ltb, ◌==◌, if◌then◌else◌, length, unwrap_or, is_some,
  bit_and, bit_or,
}
use aqua.Outcome.{
  Outcome, ok, err, panic, out_of_fuel, MqttError, unexpected, insufficient_bytes, invalid_format,
  ◌>>=◌, unwrap,
}
use aqua.Bytes.{Bytes, index, get_or_invalid, u16_bytes, u32_bytes, advance, checked_sub}
use aqua.Wire.{encode_variable_bytes, decode_variable_length, decode_utf8_string, bool_to_bytes}
use aqua.Property
use aqua.Property.{
  QoS, qos0, qos1, qos2, UserProperty, packet_id_try_from, user_property_try_from, push,
}
use aqua.Property.Writers.{reason_string_bytes, user_properties_bytes, checked_text, cast_text}
use aqua.Property.Loop.{property_block}

pub data UnsubackReasonCode : Type 0 where
  success : UnsubackReasonCode
  no_subscription_existed : UnsubackReasonCode
  unspecified_error : UnsubackReasonCode
  implementation_specific_error : UnsubackReasonCode
  not_authorized : UnsubackReasonCode
  topic_filter_invalid : UnsubackReasonCode
  packet_identifier_in_use : UnsubackReasonCode

-- `code as u8`
unfoldable pub reason_byte : UnsubackReasonCode → ℕ
reason_byte success = 0x00
reason_byte no_subscription_existed = 0x11
reason_byte unspecified_error = 0x80
reason_byte implementation_specific_error = 0x83
reason_byte not_authorized = 0x87
reason_byte topic_filter_invalid = 0x8f
reason_byte packet_identifier_in_use = 0x91

pub record UnsubackProperties : Type 0 where
  pub reason_string : Option Bytes
  pub user_properties : Option (List UserProperty)

abbrev pub default_properties : UnsubackProperties
default_properties = record { reason_string = none; user_properties = none }

unfoldable pub build_bytes : UnsubackProperties → Outcome Bytes
build_bytes p = do
  reason ← reason_string_bytes p.reason_string
  users ← user_properties_bytes (unwrap_or p.user_properties [])
  ok (reason ++ users)

pub record Unsuback : Type 0 where
  pub packet_id : ℕ
  pub unsuback_properties : Option UnsubackProperties
  pub reason_codes : List UnsubackReasonCode
  pub protocol_version : ℕ

-- The property length, the properties and the remaining length, before anything is written.
unfoldable pub measure : Unsuback → Outcome (Bytes × Bytes × ℕ)
measure p =
    if leb 5 p.protocol_version
    then (do
      pro ← build_bytes (unwrap_or p.unsuback_properties default_properties)
      let enc = encode_variable_bytes (length pro)
      ok (enc, pro, length enc + length pro + length p.reason_codes + 2))
    else ok ([], [], length p.reason_codes + 2)

unfoldable pub property_part : Unsuback → Bytes → Bytes → Bytes
property_part p enc pro = if leb 5 p.protocol_version then enc ++ pro else []

unfoldable pub encode_header : Unsuback → Outcome Bytes
unfolding measure property_part
encode_header p = do
  (enc, pro, remaining_length) ← measure p
  ok (
      0xb0 ∷ encode_variable_bytes remaining_length
      ++ (u16_bytes p.packet_id ++ property_part p enc pro))

-- The loop that puts one byte for each reason code.
unfoldable pub encode_payload_chunk : Unsuback → Outcome (Option Bytes)
unfolding reason_byte
encode_payload_chunk p = ok (some (map reason_byte p.reason_codes))
