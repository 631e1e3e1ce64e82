-- ===== src/Packet/Pubrel.antt =====
-- mqtt_coder/src/mqtt.rs: `Pubrel`, its properties, its encoder and its decoder.
pub mod Frame
pub mod Total
use aqua.Base.{
  ℕ, ◌+◌, ◌≡◌, refl, ap, Bool, true, false, not, ◌&&◌, List, [], ◌∷◌, ◌++◌, Option, none, some, leb,
  ltb, ◌==◌, if◌then◌else◌, length, unwrap_or, is_some, arith, inl, inr, Bool-cases, Option-cases,
  length-append, All,
}
use aqua.Outcome.{Outcome, ok, err, panic, invalid_format, ◌>>=◌, >>=-eq-ok, unwrap}
use aqua.Bytes.{Bytes, index, get_or_invalid, u16_bytes}
use aqua.Wire.{encode_variable_bytes, decode_variable_length, decode_utf8_string}
use aqua.Property.{UserProperty, packet_id_try_from, user_property_try_from, push}
use aqua.Property.Writers.{reason_string_bytes, user_properties_bytes}
use aqua.Property.Loop.{property_block}

pub data PubrelReasonCode : Type 0 where
  success : PubrelReasonCode
  packet_identifier_not_found : PubrelReasonCode

-- `reason_code as u8`
unfoldable pub reason_byte : PubrelReasonCode → ℕ
reason_byte success = 0x00
reason_byte packet_identifier_not_found = 0x92

unfoldable pub reason_code_try_from : Bytes → ℕ → Outcome (PubrelReasonCode × ℕ)
reason_code_try_from buf start_pos = do
  byte ← get_or_invalid buf start_pos
  if byte == 0x00
      then ok (success, start_pos + 1)
      else if byte == 0x92
      then ok (packet_identifier_not_found, start_pos + 1)
      else err invalid_format

pub record PubrelProperties : Type 0 where
  pub reason_string : Option Bytes
  pub user_properties : List UserProperty

abbrev pub new_properties : PubrelProperties
new_properties = record { reason_string = none; user_properties = [] }

unfoldable pub encode : PubrelProperties → Outcome Bytes
encode p = do
  reason ← reason_string_bytes p.reason_string
  users ← user_properties_bytes p.user_properties
  ok (reason ++ users)

pub record Pubrel : Type 0 where
  pub packet_id : ℕ
  pub pubrel_properties : Option PubrelProperties
  pub reason_code : Option PubrelReasonCode
  pub protocol_version : ℕ

abbrev pub default_pubrel : Pubrel
default_pubrel = record {
  packet_id = 0;
  pubrel_properties = none;
  reason_code = none;
  protocol_version = 0;
}

-- `(reason == None) && (properties == None)`
abbrev pub omit : Pubrel → Bool
omit p = not (is_some p.reason_code) && not (is_some p.pubrel_properties)

-- The property length, the properties and the remaining length, before anything is written.
unfoldable pub measure : Pubrel → Outcome (Bytes × Bytes × ℕ)
measure p =
    if leb 5 p.protocol_version && not (omit p)
    then (do
      pro ← encode (unwrap_or p.pubrel_properties new_properties)
      let enc = encode_variable_bytes (length pro)
      ok (enc, pro, 2 + 1 + length enc + length pro))
    else ok ([], [], 2)

-- Nothing is written behind the packet id where there is no reason code.
unfoldable pub reason_part : Pubrel → Bytes → Bytes → Bytes
reason_part p enc pro =
    if leb 5 p.protocol_version && not (omit p)
    then elim p.reason_code [ none ↦ [] | some reason ↦ reason_byte reason ∷ enc ++ pro ]
    else []

unfoldable pub encode_header : Pubrel → Outcome Bytes
unfolding measure reason_part
encode_header p = do
  (enc, pro, remaining_length) ← measure p
  ok (
      0x62 ∷ encode_variable_bytes remaining_length
      ++ (u16_bytes p.packet_id ++ reason_part p enc pro))

unfoldable pub encode_payload_chunk : Pubrel → Outcome (Option Bytes)
encode_payload_chunk p = ok none

-- `get_or_insert_with(PubrelProperties::new)`, and a change to what it gives
abbrev pub with_properties : Pubrel → (PubrelProperties → PubrelProperties) → Pubrel
with_properties p f = record p {
  pubrel_properties = some (f (unwrap_or p.pubrel_properties new_properties));
}

unfoldable pub property_arm : Bytes → ℕ → ℕ → Pubrel → Outcome (Pubrel × ℕ)
property_arm buf id pos p =
    if id == 0x26
    then (do
      (user_property, next_pos) ← user_property_try_from buf pos
      ok (
        with_properties p
            (λ q. record q { user_properties = q.user_properties ++ user_property ∷ [] }),
        next_pos,
      ))
    else if id == 0x1f
    then (do
      (reason_string, next_pos) ← decode_utf8_string buf pos
      ok (with_properties p (λ q. record q { reason_string = some reason_string }), next_pos))
    else err invalid_format

unfoldable pub decode_variable_header : Pubrel → Bytes → ℕ → ℕ → Option ℕ → Outcome (Pubrel × ℕ)
decode_variable_header p buf start_pos remaining_length protocol_version = do
  (packet_id, next_pos) ← packet_id_try_from buf start_pos
  let p = record p { packet_id = packet_id }
  if remaining_length == 2 then ok (p, next_pos) else do
    (reason, next_pos) ← reason_code_try_from buf next_pos
    let p = record p { reason_code = some reason }
    version ← unwrap protocol_version
    if leb 5 version
        then (do
          (property_length, next_pos) ← decode_variable_length buf next_pos
          property_block (property_arm buf) buf property_length next_pos p)
        else ok (p, next_pos)

unfoldable pub decode_payload : Pubrel → Bytes → Option ℕ → Outcome (Pubrel × Bytes)
decode_payload p buf protocol_version = ok (p, buf)
