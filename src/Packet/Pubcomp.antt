-- ===== src/Packet/Pubcomp.antt =====
-- mqtt_coder/src/mqtt.rs: `Pubcomp`, its properties, its encoder.
pub mod Frame
use aqua.Base.{
  ℕ, ◌+◌, ◌≡◌, refl, ap, Bool, true, false, not, ◌&&◌, List, [], ◌∷◌, ◌++◌, Option, none, some, leb,
  ltb, ◌==◌, if◌then◌else◌, length, unwrap_or, is_some, arith, inl, inr, Bool-cases, Option-cases,
  length-append, All,
}
use aqua.Outcome.{Outcome, ok, err, panic, invalid_format, ◌>>=◌, >>=-eq-ok, unwrap}
use aqua.Bytes.{Bytes, index, get_or_invalid, u16_bytes}
use aqua.Wire.{encode_variable_bytes, decode_variable_length, decode_utf8_string}
use aqua.Property.{UserProperty, packet_id_try_from, user_property_try_from, push}
use aqua.Property.Writers.{reason_string_bytes, user_properties_bytes}
use aqua.Property.Loop.{property_block}

pub data PubcompReasonCode : Type 0 where
  success : PubcompReasonCode
  packet_identifier_not_found : PubcompReasonCode

-- `reason_code as u8`
unfoldable pub reason_byte : PubcompReasonCode → ℕ
reason_byte success = 0x00
reason_byte packet_identifier_not_found = 0x92

unfoldable pub reason_code_try_from : Bytes → ℕ → Outcome (PubcompReasonCode × ℕ)
reason_code_try_from buf start_pos = do
  byte ← get_or_invalid buf start_pos
  if byte == 0x00
      then ok (success, start_pos + 1)
      else if byte == 0x92
      then ok (packet_identifier_not_found, start_pos + 1)
      else err invalid_format

pub record PubcompProperties : Type 0 where
  pub reason_string : Option Bytes
  pub user_properties : List UserProperty

abbrev pub new_properties : PubcompProperties
new_properties = record { reason_string = none; user_properties = [] }

unfoldable pub encode : PubcompProperties → Outcome Bytes
encode p = do
  reason ← reason_string_bytes p.reason_string
  users ← user_properties_bytes p.user_properties
  ok (reason ++ users)

pub record Pubcomp : Type 0 where
  pub packet_id : ℕ
  pub pubcomp_properties : Option PubcompProperties
  pub pubcomp_reason : Option PubcompReasonCode
  pub protocol_version : ℕ

abbrev pub default_pubcomp : Pubcomp
default_pubcomp = record {
  packet_id = 0;
  pubcomp_properties = none;
  pubcomp_reason = none;
  protocol_version = 0;
}

-- `(reason == None) && (properties == None)`
abbrev pub omit : Pubcomp → Bool
omit p = not (is_some p.pubcomp_reason) && not (is_some p.pubcomp_properties)

-- The property length, the properties and the remaining length, before anything is written.
unfoldable pub measure : Pubcomp → Outcome (Bytes × Bytes × ℕ)
measure p =
    if leb 5 p.protocol_version && not (omit p)
    then (do
      pro ← encode (unwrap_or p.pubcomp_properties new_properties)
      let enc = encode_variable_bytes (length pro)
      ok (enc, pro, 2 + 1 + length enc + length pro))
    else ok ([], [], 2)

-- Nothing is written behind the packet id where there is no reason code.
unfoldable pub reason_part : Pubcomp → Bytes → Bytes → Bytes
reason_part p enc pro =
    if leb 5 p.protocol_version && not (omit p)
    then elim p.pubcomp_reason [ none ↦ [] | some reason ↦ reason_byte reason ∷ enc ++ pro ]
    else []

unfoldable pub encode_header : Pubcomp → Outcome Bytes
unfolding measure reason_part
encode_header p = do
  (enc, pro, remaining_length) ← measure p
  ok (
      0x70 ∷ encode_variable_bytes remaining_length
      ++ (u16_bytes p.packet_id ++ reason_part p enc pro))

unfoldable pub encode_payload_chunk : Pubcomp → Outcome (Option Bytes)
encode_payload_chunk p = ok none
