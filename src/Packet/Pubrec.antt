-- ===== src/Packet/Pubrec.antt =====
-- mqtt_coder/src/mqtt.rs: `Pubrec`, its properties and its encoder.
pub mod Frame
use aqua.Base.{
  ℕ, ◌+◌, ◌≡◌, refl, ap, Bool, true, false, not, ◌&&◌, List, [], ◌∷◌, ◌++◌, Option, none, some, leb,
  ltb, ◌==◌, if◌then◌else◌, length, unwrap_or, is_some, arith, inl, inr, Bool-cases, Option-cases,
  length-append, All,
}
use aqua.Outcome.{Outcome, ok, err, panic, invalid_format, ◌>>=◌, >>=-eq-ok, unwrap}
use aqua.Bytes.{Bytes, index, get_or_invalid, u16_bytes}
use aqua.Wire.{encode_variable_bytes, decode_variable_length, decode_utf8_string}
use aqua.Property.{UserProperty, packet_id_try_from, user_property_try_from, push}
use aqua.Property.Writers.{reason_string_bytes, user_properties_bytes}
use aqua.Property.Loop.{property_block}

pub data PubrecReasonCode : Type 0 where
  success : PubrecReasonCode
  no_matching_subscribers : PubrecReasonCode
  unspecified_error : PubrecReasonCode
  implementation_specific_error : PubrecReasonCode
  not_authorized : PubrecReasonCode
  topic_name_invalid : PubrecReasonCode
  packet_identifier_in_use : PubrecReasonCode
  quota_exceeded : PubrecReasonCode
  payload_format_invalid : PubrecReasonCode

-- `reason_code as u8`
unfoldable pub reason_byte : PubrecReasonCode → ℕ
reason_byte success = 0x00
reason_byte no_matching_subscribers = 0x10
reason_byte unspecified_error = 0x80
reason_byte implementation_specific_error = 0x83
reason_byte not_authorized = 0x87
reason_byte topic_name_invalid = 0x90
reason_byte packet_identifier_in_use = 0x91
reason_byte quota_exceeded = 0x97
reason_byte payload_format_invalid = 0x99

pub record PubrecProperties : Type 0 where
  pub reason_string : Option Bytes
  pub user_properties : Option (List UserProperty)

abbrev pub default_properties : PubrecProperties
default_properties = record { reason_string = none; user_properties = none }

unfoldable pub build_bytes : PubrecProperties → Outcome Bytes
build_bytes p = do
  reason ← reason_string_bytes p.reason_string
  users ← user_properties_bytes (unwrap_or p.user_properties [])
  ok (reason ++ users)

pub record Pubrec : Type 0 where
  pub packet_id : ℕ
  pub reason_code : Option PubrecReasonCode
  pub pubrec_properties : Option PubrecProperties
  pub protocol_version : ℕ

abbrev pub default_pubrec : Pubrec
default_pubrec = record {
  packet_id = 0;
  reason_code = none;
  pubrec_properties = none;
  protocol_version = 0;
}

-- The property length, the properties and the remaining length, before anything is written.
unfoldable pub measure : Pubrec → Outcome (Bytes × Bytes × ℕ)
measure p =
    if leb 5 p.protocol_version
    then elim p.reason_code [
      | none ↦ ok ([], [], 2)
      | some _ ↦ do
        pro ← build_bytes (unwrap_or p.pubrec_properties default_properties)
        let enc = encode_variable_bytes (length pro)
        ok (enc, pro, 2 + 1 + length enc + length pro)
    ]
    else ok ([], [], 2)

-- The reason code and the properties are left out where there is no reason code.
unfoldable pub reason_part : Pubrec → Bytes → Bytes → Bytes
reason_part p enc pro =
    if leb 5 p.protocol_version
    then elim p.reason_code [ none ↦ [] | some reason ↦ reason_byte reason ∷ enc ++ pro ]
    else []

unfoldable pub encode_header : Pubrec → Outcome Bytes
unfolding measure reason_part
encode_header p = do
  (enc, pro, remaining_length) ← measure p
  ok (
      0x50 ∷ encode_variable_bytes remaining_length
      ++ (u16_bytes p.packet_id ++ reason_part p enc pro))

unfoldable pub encode_payload_chunk : Pubrec → Outcome (Option Bytes)
encode_payload_chunk p = ok none
