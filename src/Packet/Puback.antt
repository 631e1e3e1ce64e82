-- ===== src/Packet/Puback.antt =====
-- mqtt_coder/src/mqtt.rs: `Puback`, its properties and its encoder.
pub mod Frame
use aqua.Base.{
  ℕ, ◌+◌, ◌≡◌, refl, ap, Bool, true, false, not, ◌&&◌, List, [], ◌∷◌, ◌++◌, Option, none, some, leb,
  ltb, ◌==◌, if◌then◌else◌, length, unwrap_or, is_some, arith, inl, inr, Bool-cases, Option-cases,
  length-append, All,
}
use aqua.Outcome.{Outcome, ok, err, panic, invalid_format, ◌>>=◌, >>=-eq-ok, unwrap}
use aqua.Bytes.{Bytes, index, get_or_invalid, u16_bytes}
use aqua.Wire.{encode_variable_bytes, decode_variable_length, decode_utf8_string}
use aqua.Property.{UserProperty, packet_id_try_from, user_property_try_from, push}
use aqua.Property.Writers.{reason_string_bytes, user_properties_bytes}
use aqua.Property.Loop.{property_block}

pub data PubackReasonCode : Type 0 where
  success : PubackReasonCode
  no_matching_subscribers : PubackReasonCode
  unspecified_error : PubackReasonCode
  implementation_specific_error : PubackReasonCode
  not_authorized : PubackReasonCode
  topic_name_invalid : PubackReasonCode
  packet_identifier_in_use : PubackReasonCode
  quota_exceeded : PubackReasonCode
  payload_format_invalid : PubackReasonCode

-- `reason_code as u8`
unfoldable pub reason_byte : PubackReasonCode → ℕ
reason_byte success = 0x00
reason_byte no_matching_subscribers = 0x10
reason_byte unspecified_error = 0x80
reason_byte implementation_specific_error = 0x83
reason_byte not_authorized = 0x87
reason_byte topic_name_invalid = 0x90
reason_byte packet_identifier_in_use = 0x91
reason_byte quota_exceeded = 0x97
reason_byte payload_format_invalid = 0x99

pub record PubackProperties : Type 0 where
  pub reason_string : Option Bytes
  pub user_properties : List UserProperty

abbrev pub default_properties : PubackProperties
default_properties = record { reason_string = none; user_properties = [] }

unfoldable pub build_bytes : PubackProperties → Outcome Bytes
build_bytes p = do
  reason ← reason_string_bytes p.reason_string
  users ← user_properties_bytes p.user_properties
  ok (reason ++ users)

pub record Puback : Type 0 where
  pub packet_id : ℕ
  pub reason_code : Option PubackReasonCode
  pub puback_properties : Option PubackProperties
  pub protocol_version : ℕ

abbrev pub default_puback : Puback
default_puback = record {
  packet_id = 0;
  reason_code = none;
  puback_properties = none;
  protocol_version = 0;
}

-- The property length, the properties and the remaining length, before anything is written.
unfoldable pub measure : Puback → Outcome (Bytes × Bytes × ℕ)
measure p =
    if leb 5 p.protocol_version
    then elim p.reason_code [
      | none ↦ ok ([], [], 2)
      | some _ ↦ do
        pro ← build_bytes (unwrap_or p.puback_properties default_properties)
        let enc = encode_variable_bytes (length pro)
        ok (enc, pro, 2 + 1 + length enc + length pro)
    ]
    else ok ([], [], 2)

-- The reason code and the properties are left out where there is no reason code.
unfoldable pub reason_part : Puback → Bytes → Bytes → Bytes
reason_part p enc pro =
    if leb 5 p.protocol_version
    then elim p.reason_code [ none ↦ [] | some reason ↦ reason_byte reason ∷ enc ++ pro ]
    else []

unfoldable pub encode_header : Puback → Outcome Bytes
unfolding measure reason_part
encode_header p = do
  (enc, pro, remaining_length) ← measure p
  ok (
      0x40 ∷ encode_variable_bytes remaining_length
      ++ (u16_bytes p.packet_id ++ reason_part p enc pro))

unfoldable pub encode_payload_chunk : Puback → Outcome (Option Bytes)
encode_payload_chunk p = ok none
