-- ===== src/Property/Forward.antt =====
-- A reading step that goes no way back, with one rule for each way to build one.
use aqua.Base.{ℕ, ◌≤◌, ◌≡◌, refl, Bool, true, false, if◌then◌else◌, arith}
use aqua.Outcome.{Outcome, ok, err, panic, out_of_fuel, MqttError, ◌>>=◌}
use aqua.Bytes.{Bytes}
use aqua.Wire.{decode_utf8_string}
use aqua.Wire.Text.{decode_utf8_string_bounds}
use aqua.Property.{
  payload_format_indicator_try_from, user_property_try_from, message_expiry_interval_try_from,
  session_expiry_interval_try_from, will_delay_interval_try_from, maximum_packet_size_try_from,
  topic_alias_try_from, receive_maximum_try_from, topic_alias_maximum_try_from, keep_alive_try_from,
  packet_id_try_from, protocol_version_try_from, request_response_information_try_from,
  request_problem_information_try_from, response_topic_try_from, content_type_try_from,
  reason_string_try_from, server_reference_try_from, authentication_method_try_from,
  topic_name_try_from, topic_filter_try_from, client_id_try_from, user_name_try_from,
  protocol_name_try_from, correlation_data_try_from, authentication_data_try_from,
  will_payload_try_from, password_try_from, subscription_identifier_try_from,
}
use aqua.Property.Position.{
  Advances, payload_format_indicator-Advances, user_property-Advances,
  message_expiry_interval-Advances, session_expiry_interval-Advances, will_delay_interval-Advances,
  maximum_packet_size-Advances, topic_alias-Advances, receive_maximum-Advances,
  topic_alias_maximum-Advances, keep_alive-Advances, packet_id-Advances, protocol_version-Advances,
  request_response_information-Advances, request_problem_information-Advances,
  response_topic-Advances, content_type-Advances, reason_string-Advances, server_reference-Advances,
  authentication_method-Advances, topic_name-Advances, topic_filter-Advances, client_id-Advances,
  user_name-Advances, protocol_name-Advances, correlation_data-Advances,
  authentication_data-Advances, will_payload-Advances, password-Advances,
  subscription_identifier-Advances,
}

pub record Forward {ℓ} {A : Type ℓ} (pos : ℕ) (m : Outcome (A × ℕ)) : Type ℓ where
  pub at : (r : A × ℕ) → m ≡ ok r → pos ≤ r.1

pub Forward-ok {ℓ} : {A : Type ℓ} {pos : ℕ} (a : A) (n : ℕ) → pos ≤ n → Forward pos (ok (a, n))
Forward-ok {pos = pos} a n h = record { at = λ r e. ground (arith, e) }

pub Forward-err {ℓ} : {A : Type ℓ} {pos : ℕ} (x : MqttError) → Forward {A = A} pos (err x)
Forward-err x = record { at = λ r e. cc }

pub Forward-if {ℓ} :
    {A : Type ℓ} {pos : ℕ} (b : Bool) (m n : Outcome (A × ℕ))
    → Forward pos m
    → Forward pos n
    → Forward pos (if b then m else n)
Forward-if true m n hm hn = hm
Forward-if false m n hm hn = hn

pub Forward-bind {ℓ κ} :
    {A : Type ℓ} {B : Type κ} {pos : ℕ} (m : Outcome (A × ℕ)) (f : A × ℕ → Outcome (B × ℕ))
    → Forward pos m
    → ((r : A × ℕ) → pos ≤ r.1 → Forward pos (f r))
    → Forward pos (m >>= f)
Forward-bind (ok r) f h k = k r (h.at r refl)
Forward-bind (err x) f h k = record { at = λ r e. cc }
Forward-bind panic f h k = record { at = λ r e. cc }
Forward-bind out_of_fuel f h k = record { at = λ r e. cc }

of_Advances :
    {A : Type 0} (try_from : Bytes → ℕ → Outcome (A × ℕ)) (buf : Bytes) (pos : ℕ)
    → Advances try_from
    → Forward pos (try_from buf pos)
of_Advances f buf pos h = record { at = λ r e. omega (arith, h buf pos r.0 r.1 e) }

pub payload_format_indicator-Forward :
    (buf : Bytes) (pos : ℕ) → Forward pos (payload_format_indicator_try_from buf pos)
payload_format_indicator-Forward buf pos =
    of_Advances payload_format_indicator_try_from buf pos payload_format_indicator-Advances

pub user_property-Forward : (buf : Bytes) (pos : ℕ) → Forward pos (user_property_try_from buf pos)
user_property-Forward buf pos = of_Advances user_property_try_from buf pos user_property-Advances

pub message_expiry_interval-Forward :
    (buf : Bytes) (pos : ℕ) → Forward pos (message_expiry_interval_try_from buf pos)
message_expiry_interval-Forward buf pos =
    of_Advances message_expiry_interval_try_from buf pos message_expiry_interval-Advances

pub session_expiry_interval-Forward :
    (buf : Bytes) (pos : ℕ) → Forward pos (session_expiry_interval_try_from buf pos)
session_expiry_interval-Forward buf pos =
    of_Advances session_expiry_interval_try_from buf pos session_expiry_interval-Advances

pub will_delay_interval-Forward :
    (buf : Bytes) (pos : ℕ) → Forward pos (will_delay_interval_try_from buf pos)
will_delay_interval-Forward buf pos =
    of_Advances will_delay_interval_try_from buf pos will_delay_interval-Advances

pub maximum_packet_size-Forward :
    (buf : Bytes) (pos : ℕ) → Forward pos (maximum_packet_size_try_from buf pos)
maximum_packet_size-Forward buf pos =
    of_Advances maximum_packet_size_try_from buf pos maximum_packet_size-Advances

pub topic_alias-Forward : (buf : Bytes) (pos : ℕ) → Forward pos (topic_alias_try_from buf pos)
topic_alias-Forward buf pos = of_Advances topic_alias_try_from buf pos topic_alias-Advances

pub receive_maximum-Forward :
    (buf : Bytes) (pos : ℕ) → Forward pos (receive_maximum_try_from buf pos)
receive_maximum-Forward buf pos =
    of_Advances receive_maximum_try_from buf pos receive_maximum-Advances

pub topic_alias_maximum-Forward :
    (buf : Bytes) (pos : ℕ) → Forward pos (topic_alias_maximum_try_from buf pos)
topic_alias_maximum-Forward buf pos =
    of_Advances topic_alias_maximum_try_from buf pos topic_alias_maximum-Advances

pub keep_alive-Forward : (buf : Bytes) (pos : ℕ) → Forward pos (keep_alive_try_from buf pos)
keep_alive-Forward buf pos = of_Advances keep_alive_try_from buf pos keep_alive-Advances

pub packet_id-Forward : (buf : Bytes) (pos : ℕ) → Forward pos (packet_id_try_from buf pos)
packet_id-Forward buf pos = of_Advances packet_id_try_from buf pos packet_id-Advances

pub protocol_version-Forward :
    (buf : Bytes) (pos : ℕ) → Forward pos (protocol_version_try_from buf pos)
protocol_version-Forward buf pos =
    of_Advances protocol_version_try_from buf pos protocol_version-Advances

pub request_response_information-Forward :
    (buf : Bytes) (pos : ℕ) → Forward pos (request_response_information_try_from buf pos)
request_response_information-Forward buf pos =
    of_Advances request_response_information_try_from buf pos request_response_information-Advances

pub request_problem_information-Forward :
    (buf : Bytes) (pos : ℕ) → Forward pos (request_problem_information_try_from buf pos)
request_problem_information-Forward buf pos =
    of_Advances request_problem_information_try_from buf pos request_problem_information-Advances

pub response_topic-Forward : (buf : Bytes) (pos : ℕ) → Forward pos (response_topic_try_from buf pos)
response_topic-Forward buf pos = of_Advances response_topic_try_from buf pos response_topic-Advances

pub content_type-Forward : (buf : Bytes) (pos : ℕ) → Forward pos (content_type_try_from buf pos)
content_type-Forward buf pos = of_Advances content_type_try_from buf pos content_type-Advances

pub reason_string-Forward : (buf : Bytes) (pos : ℕ) → Forward pos (reason_string_try_from buf pos)
reason_string-Forward buf pos = of_Advances reason_string_try_from buf pos reason_string-Advances

pub server_reference-Forward :
    (buf : Bytes) (pos : ℕ) → Forward pos (server_reference_try_from buf pos)
server_reference-Forward buf pos =
    of_Advances server_reference_try_from buf pos server_reference-Advances

pub authentication_method-Forward :
    (buf : Bytes) (pos : ℕ) → Forward pos (authentication_method_try_from buf pos)
authentication_method-Forward buf pos =
    of_Advances authentication_method_try_from buf pos authentication_method-Advances

pub topic_name-Forward : (buf : Bytes) (pos : ℕ) → Forward pos (topic_name_try_from buf pos)
topic_name-Forward buf pos = of_Advances topic_name_try_from buf pos topic_name-Advances

pub topic_filter-Forward : (buf : Bytes) (pos : ℕ) → Forward pos (topic_filter_try_from buf pos)
topic_filter-Forward buf pos = of_Advances topic_filter_try_from buf pos topic_filter-Advances

pub client_id-Forward : (buf : Bytes) (pos : ℕ) → Forward pos (client_id_try_from buf pos)
client_id-Forward buf pos = of_Advances client_id_try_from buf pos client_id-Advances

pub user_name-Forward : (buf : Bytes) (pos : ℕ) → Forward pos (user_name_try_from buf pos)
user_name-Forward buf pos = of_Advances user_name_try_from buf pos user_name-Advances

pub protocol_name-Forward : (buf : Bytes) (pos : ℕ) → Forward pos (protocol_name_try_from buf pos)
protocol_name-Forward buf pos = of_Advances protocol_name_try_from buf pos protocol_name-Advances

pub correlation_data-Forward :
    (buf : Bytes) (pos : ℕ) → Forward pos (correlation_data_try_from buf pos)
correlation_data-Forward buf pos =
    of_Advances correlation_data_try_from buf pos correlation_data-Advances

pub authentication_data-Forward :
    (buf : Bytes) (pos : ℕ) → Forward pos (authentication_data_try_from buf pos)
authentication_data-Forward buf pos =
    of_Advances authentication_data_try_from buf pos authentication_data-Advances

pub will_payload-Forward : (buf : Bytes) (pos : ℕ) → Forward pos (will_payload_try_from buf pos)
will_payload-Forward buf pos = of_Advances will_payload_try_from buf pos will_payload-Advances

pub password-Forward : (buf : Bytes) (pos : ℕ) → Forward pos (password_try_from buf pos)
password-Forward buf pos = of_Advances password_try_from buf pos password-Advances

pub subscription_identifier-Forward :
    (buf : Bytes) (pos : ℕ) → Forward pos (subscription_identifier_try_from buf pos)
subscription_identifier-Forward buf pos =
    of_Advances subscription_identifier_try_from buf pos subscription_identifier-Advances

pub decode_utf8_string-Forward : (buf : Bytes) (pos : ℕ) → Forward pos (decode_utf8_string buf pos)
decode_utf8_string-Forward buf pos = record {
  at = λ r e. omega (arith, decode_utf8_string_bounds buf pos r.0 r.1 e);
}

pub ruleset forward_rules = (
  Forward-ok, Forward-err, Forward-if, Forward-bind, decode_utf8_string-Forward,
  payload_format_indicator-Forward, user_property-Forward, message_expiry_interval-Forward,
  session_expiry_interval-Forward, will_delay_interval-Forward, maximum_packet_size-Forward,
  topic_alias-Forward, receive_maximum-Forward, topic_alias_maximum-Forward, keep_alive-Forward,
  packet_id-Forward, protocol_version-Forward, request_response_information-Forward,
  request_problem_information-Forward, response_topic-Forward, content_type-Forward,
  reason_string-Forward, server_reference-Forward, authentication_method-Forward,
  topic_name-Forward, topic_filter-Forward, client_id-Forward, user_name-Forward,
  protocol_name-Forward, correlation_data-Forward, authentication_data-Forward,
  will_payload-Forward, password-Forward, subscription_identifier-Forward,
)
