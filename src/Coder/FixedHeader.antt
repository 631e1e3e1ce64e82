-- ===== src/Coder/FixedHeader.antt =====
-- mqtt_coder/src/mqtt.rs: `decode_lower_fixed_header` and `decoder::decode_fixed_header`.
pub mod Types
use aqua.Base.{ℕ, ◌+◌, ◌/◌, Bool, not, Option, bit_and, ◌==◌, if◌then◌else◌}
use aqua.Outcome.{Outcome, ok, err, invalid_format, ◌>>=◌}
use aqua.Bytes.{Bytes, index}
use aqua.Wire.{decode_variable_length}
use aqua.Property.{QoS, qos_try_from}
use aqua.Coder.ControlPacket.{
  ControlPacket, connect, disconnect, publish, puback, pubrec, pubrel, pubcomp, subscribe,
  unsubscribe,
}
use aqua.Packet.Connect.{default_connect}
use aqua.Packet.Disconnect.{default_disconnect}
use aqua.Packet.Publish.{default_publish}
use aqua.Packet.Puback.{default_puback}
use aqua.Packet.Pubrec.{default_pubrec}
use aqua.Packet.Pubrel.{default_pubrel}
use aqua.Packet.Pubcomp.{default_pubcomp}
use aqua.Packet.Subscribe.{default_subscribe}
use aqua.Packet.Unsubscribe.{default_unsubscribe}

unfoldable pub decode_lower_fixed_header : Bytes → ℕ → Outcome (Bool × QoS × Bool)
decode_lower_fixed_header buf start_pos = do
  b ← index buf start_pos
  q ← qos_try_from (bit_and b 0x06 / 2)
  ok (not (bit_and b 0x08 == 0), q, not (bit_and b 0x01 == 0))

-- The remaining length behind the first byte, with the packet to decode into.
abbrev pub with_length : ControlPacket → Bytes → ℕ → Outcome (ControlPacket × ℕ × ℕ)
with_length packet buf start_pos = do
  (remaining_length, next_pos) ← decode_variable_length buf (start_pos + 1)
  ok (packet, next_pos, remaining_length)

abbrev pub publish_header : Bytes → ℕ → Outcome (ControlPacket × ℕ × ℕ)
publish_header buf start_pos = do
  (dup, qos, retain) ← decode_lower_fixed_header buf start_pos
  with_length (publish (record default_publish { dup = dup; qos = qos; retain = retain })) buf
      start_pos

-- The type of the packet is read at 0, whatever `start_pos` is.
unfoldable pub decode_fixed_header : Bytes → ℕ → Option ℕ → Outcome (ControlPacket × ℕ × ℕ)
decode_fixed_header buf start_pos protocol_version = do
  b ← index buf 0
  if b / 16 == 1
      then with_length (connect default_connect) buf start_pos
      else if b / 16 == 14
      then with_length (disconnect default_disconnect) buf start_pos
      else if b / 16 == 3
      then publish_header buf start_pos
      else if b / 16 == 4
      then with_length (puback default_puback) buf start_pos
      else if b / 16 == 5
      then with_length (pubrec default_pubrec) buf start_pos
      else if b / 16 == 6
      then (if b == 0x62
          then with_length (pubrel default_pubrel) buf start_pos
          else err invalid_format)
      else if b / 16 == 7
      then with_length (pubcomp default_pubcomp) buf start_pos
      else if b / 16 == 8
      then (if b == 0x82
          then with_length (subscribe default_subscribe) buf start_pos
          else err invalid_format)
      else if b / 16 == 10
      then (if b == 0xa2
          then with_length (unsubscribe default_unsubscribe) buf start_pos
          else err invalid_format)
      else err invalid_format
