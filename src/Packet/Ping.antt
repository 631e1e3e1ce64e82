-- ===== src/Packet/Ping.antt =====
-- mqtt_coder/src/mqtt.rs: `Pingreq` and `Pingresp`, which have no fields.
use aqua.Base.{ℕ, Option, none, [], ◌∷◌}
use aqua.Outcome.{Outcome, ok}
use aqua.Bytes.{Bytes}

unfoldable pub pingreq_decode_variable_header : Bytes → ℕ → ℕ → Option ℕ → Outcome ℕ
pingreq_decode_variable_header buf start_pos remaining_length protocol_version = ok start_pos

unfoldable pub pingreq_decode_payload : Bytes → Option ℕ → Outcome Bytes
pingreq_decode_payload buf protocol_version = ok buf

unfoldable pub pingresp_encode_header : Outcome Bytes
pingresp_encode_header = ok (0xd0 ∷ 0x00 ∷ [])

unfoldable pub pingresp_encode_payload_chunk : Outcome (Option Bytes)
pingresp_encode_payload_chunk = ok none
