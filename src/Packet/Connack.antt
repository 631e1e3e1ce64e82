-- ===== src/Packet/Connack.antt =====
-- mqtt_coder/src/mqtt.rs: `Connack`, its properties and its encoder.
pub mod Reason
pub mod Frame
use aqua.Base.{
  ℕ, zero, suc, ◌+◌, ◌-◌, ◌*◌, ◌/◌, ◌≡◌, refl, ap, Bool, true, false, not, ◌&&◌, ◌||◌, List, [],
  ◌∷◌, ◌++◌, map, Option, none, some, leb, ltb, ◌==◌, if◌then◌else◌, length, unwrap_or, is_some,
  bit_and, bit_or,
}
use aqua.Outcome.{
  Outcome, ok, err, panic, out_of_fuel, MqttError, unexpected, insufficient_bytes, invalid_format,
  ◌>>=◌, unwrap,
}
use aqua.Bytes.{Bytes, index, get_or_invalid, u16_bytes, u32_bytes, advance, checked_sub}
use aqua.Wire.{encode_variable_bytes, decode_variable_length, decode_utf8_string, bool_to_bytes}
use aqua.Property
use aqua.Property.{
  QoS, qos0, qos1, qos2, UserProperty, packet_id_try_from, user_property_try_from, push,
}
use aqua.Property.Writers.{reason_string_bytes, user_properties_bytes, checked_text, cast_text}
use aqua.Property.Loop.{property_block}
use Reason.{ConnackReason, reason_byte, success}

pub record ConnackProperties : Type 0 where
  pub session_expiry_interval : Option ℕ
  pub receive_maximum : Option ℕ
  pub maximum_qos : Option ℕ
  pub retain_available : Option Bool
  pub maximum_packet_size : Option ℕ
  pub assigned_client_identifier : Option Bytes
  pub topic_alias_maximum : Option ℕ
  pub reason_string : Option Bytes
  pub user_properties : List UserProperty
  pub wildcard_subscription_available : Option ℕ
  pub subscription_identifiers_available : Option ℕ
  pub shared_subscription_available : Option ℕ
  pub server_keep_alive : Option ℕ
  pub response_information : Option Bytes
  pub server_reference : Option Bytes
  pub authentication_method : Option Bytes
  pub authentication_data : Option Bytes

-- `if let Some(c) = …` around what is written for `c`
abbrev pub optional {ℓ} : {A : Type ℓ} → Option A → (A → Bytes) → Bytes
optional none write = []
optional (some c) write = write c

abbrev pub optional_text : Option Bytes → ℕ → Outcome Bytes
optional_text none id = ok []
optional_text (some c) id = do text ← checked_text c; ok (id ∷ text)

unfoldable pub build_bytes : ConnackProperties → Outcome Bytes
build_bytes p = do
  let numbers =
      (optional p.session_expiry_interval (λ c. 0x11 ∷ u32_bytes c))
      ++ (optional p.receive_maximum (λ c. 0x21 ∷ u16_bytes c))
      ++ (optional p.maximum_qos (λ c. 0x24 ∷ c ∷ []))
      ++ (optional p.retain_available (λ c. 0x25 ∷ bool_to_bytes c))
      ++ (optional p.maximum_packet_size (λ c. 0x27 ∷ u32_bytes c))
      ++ (optional p.assigned_client_identifier (λ c. 0x12 ∷ c))
      ++ (optional p.topic_alias_maximum (λ c. 0x22 ∷ u16_bytes c))
      ++ (optional p.reason_string (λ c. 0x1f ∷ c))
  users ← user_properties_bytes p.user_properties
  let flags =
      (optional p.wildcard_subscription_available (λ c. 0x28 ∷ c ∷ []))
      ++ (optional p.subscription_identifiers_available (λ c. 0x29 ∷ c ∷ []))
      ++ (optional p.shared_subscription_available (λ c. 0x2a ∷ c ∷ []))
      ++ (optional p.server_keep_alive (λ c. 0x13 ∷ u16_bytes c))
  response ← optional_text p.response_information 0x1a
  server ← optional_text p.server_reference 0x1c
  method ← optional_text p.authentication_method 0x15
  ok (
      numbers
      ++ users
      ++ flags
      ++ response
      ++ server
      ++ method
      ++ optional p.authentication_data (λ c. 0x16 ∷ c))

pub record Connack : Type 0 where
  pub session_present : Bool
  pub connect_reason : ConnackReason
  pub connack_properties : Option ConnackProperties
  pub version : ℕ

abbrev pub default_connack : Connack
default_connack = record {
  session_present = false;
  connect_reason = success;
  connack_properties = none;
  version = 0;
}

unfoldable pub connack_properties_bytes : Option ConnackProperties → Outcome Bytes
connack_properties_bytes none = ok []
connack_properties_bytes (some p) = build_bytes p

-- The source counts one byte for the property length, whatever that takes.
unfoldable pub encode_header : Connack → Outcome Bytes
unfolding connack_properties_bytes
encode_header p = do
  props ← if p.version == 5 then connack_properties_bytes p.connack_properties else ok []
  let remaining_length = 2 + (if p.version == 5 then 1 + length props else 0)
  let flags = (if p.session_present then 1 else 0) ∷ reason_byte p.connect_reason ∷ []
  let properties = if p.version == 5 then encode_variable_bytes (length props) ++ props else []
  ok (0x20 ∷ encode_variable_bytes remaining_length ++ (flags ++ properties))

unfoldable pub encode_payload_chunk : Connack → Outcome (Option Bytes)
encode_payload_chunk p = ok none
