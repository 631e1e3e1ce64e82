-- ===== src/Packet/Publish/Properties.antt =====
-- mqtt_coder/src/mqtt.rs: `PublishProperties`, written and read.
use aqua.Base.{ℕ, List, [], ◌∷◌, ◌++◌, Option, none, some, ◌==◌, if◌then◌else◌, is_some}
use aqua.Outcome.{Outcome, ok, err, invalid_format, ◌>>=◌}
use aqua.Bytes.{Bytes, u16_bytes, u32_bytes}
use aqua.Wire.{encode_variable_bytes}
use aqua.Property.{
  UserProperty, PayloadFormatIndicator, indicator_code, payload_format_indicator_try_from,
  user_property_try_from, message_expiry_interval_try_from, topic_alias_try_from,
  response_topic_try_from, content_type_try_from, correlation_data_try_from,
  subscription_identifier_try_from, push,
}
use aqua.Property.Writers.{cast_text}

pub record PublishProperties : Type 0 where
  pub payload_format_indicator : Option PayloadFormatIndicator
  pub message_expiry_interval : Option ℕ
  pub topic_alias : Option ℕ
  pub response_topic : Option Bytes
  pub correlation_data : Option Bytes
  pub user_properties : Option (List UserProperty)
  pub subscription_identifier : Option (List ℕ)
  pub content_type : Option Bytes

abbrev pub default_properties : PublishProperties
default_properties = record {
  payload_format_indicator = none;
  message_expiry_interval = none;
  topic_alias = none;
  response_topic = none;
  correlation_data = none;
  user_properties = none;
  subscription_identifier = none;
  content_type = none;
}

-- `if let Some(c) = …` around what is written for `c`
abbrev pub optional {ℓ} : {A : Type ℓ} → Option A → (A → Bytes) → Bytes
optional none write = []
optional (some c) write = write c

unfoldable pub user_properties_part : List UserProperty → Bytes
user_properties_part [] = []
user_properties_part (v ∷ vs) =
    0x26 ∷ (cast_text v.key ++ (cast_text v.value ++ user_properties_part vs))

unfoldable pub identifiers_part : List ℕ → Bytes
identifiers_part [] = []
identifiers_part (i ∷ is) = 0x0b ∷ (encode_variable_bytes i ++ identifiers_part is)

-- The source returns a `Result`, and no step of it fails.
unfoldable pub build_bytes : PublishProperties → Bytes
build_bytes p =
    optional p.payload_format_indicator (λ c. 0x01 ∷ indicator_code c ∷ [])
    ++ (optional p.message_expiry_interval (λ c. 0x02 ∷ u32_bytes c)
        ++ (optional p.topic_alias (λ c. 0x23 ∷ u16_bytes c)
            ++ (optional p.response_topic (λ c. 0x08 ∷ cast_text c)
                ++ (optional p.correlation_data (λ c. 0x09 ∷ cast_text c)
                    ++ (optional p.user_properties user_properties_part
                        ++ (optional p.subscription_identifier identifiers_part
                            ++ optional p.content_type (λ c. 0x03 ∷ cast_text c)))))))

unfoldable pub property_arm : Bytes → ℕ → ℕ → PublishProperties → Outcome (PublishProperties × ℕ)
property_arm buf id pos p =
    if id == 0x01
    then (do
      (v, next_pos) ← payload_format_indicator_try_from buf pos
      ok (record p { payload_format_indicator = some v }, next_pos))
    else if id == 0x02
    then (do
      (v, next_pos) ← message_expiry_interval_try_from buf pos
      ok (record p { message_expiry_interval = some v }, next_pos))
    else if id == 0x23
    then (if is_some p.topic_alias then err invalid_format else do
      (v, next_pos) ← topic_alias_try_from buf pos
      ok (record p { topic_alias = some v }, next_pos))
    else if id == 0x08
    then (if is_some p.response_topic then err invalid_format else do
      (v, next_pos) ← response_topic_try_from buf pos
      ok (record p { response_topic = some v }, next_pos))
    else if id == 0x09
    then (if is_some p.correlation_data then err invalid_format else do
      (v, next_pos) ← correlation_data_try_from buf pos
      ok (record p { correlation_data = some v }, next_pos))
    else if id == 0x26
    then (do
      (v, next_pos) ← user_property_try_from buf pos
      ok (record p { user_properties = push p.user_properties v }, next_pos))
    else if id == 0x0b
    then (do
      (v, next_pos) ← subscription_identifier_try_from buf pos
      ok (record p { subscription_identifier = push p.subscription_identifier v }, next_pos))
    else if id == 0x03
    then (if is_some p.content_type then err invalid_format else do
      (v, next_pos) ← content_type_try_from buf pos
      ok (record p { content_type = some v }, next_pos))
    else err invalid_format
