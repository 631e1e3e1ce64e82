-- ===== src/Coder/ControlPacket.antt =====
-- mqtt_coder/src/mqtt.rs: `ControlPacket` and the dispatch of `MqttPacket` over it.
use aqua.Base.{ℕ, Option, unwrap_or}
use aqua.Outcome.{Outcome, ok, err, not_implemented, ◌>>=◌}
use aqua.Bytes.{Bytes}
use aqua.Property.{packet_id_try_from}
use aqua.Packet.Ping
use aqua.Packet.Connect
use aqua.Packet.Connect.{Connect}
use aqua.Packet.Disconnect
use aqua.Packet.Disconnect.{Disconnect}
use aqua.Packet.Connack
use aqua.Packet.Connack.{Connack}
use aqua.Packet.Publish
use aqua.Packet.Publish.{Publish}
use aqua.Packet.Subscribe
use aqua.Packet.Subscribe.{Subscribe}
use aqua.Packet.Suback
use aqua.Packet.Suback.{Suback}
use aqua.Packet.Unsubscribe
use aqua.Packet.Unsubscribe.{Unsubscribe}
use aqua.Packet.Unsuback
use aqua.Packet.Unsuback.{Unsuback}
use aqua.Packet.Puback
use aqua.Packet.Puback.{Puback}
use aqua.Packet.Pubrec
use aqua.Packet.Pubrec.{Pubrec}
use aqua.Packet.Pubrel
use aqua.Packet.Pubrel.{Pubrel}
use aqua.Packet.Pubcomp
use aqua.Packet.Pubcomp.{Pubcomp}

pub data ControlPacket : Type 0 where
  connect : Connect → ControlPacket
  disconnect : Disconnect → ControlPacket
  connack : Connack → ControlPacket
  publish : Publish → ControlPacket
  undefined : ControlPacket
  no_operation : ControlPacket
  disconnectcp_operation : ControlPacket
  subscribe : Subscribe → ControlPacket
  suback : Suback → ControlPacket
  pingreq : ControlPacket
  pingresp : ControlPacket
  unsubscribe : Unsubscribe → ControlPacket
  unsuback : Unsuback → ControlPacket
  puback : Puback → ControlPacket
  pubrec : Pubrec → ControlPacket
  pubrel : Pubrel → ControlPacket
  pubcomp : Pubcomp → ControlPacket

-- What a decoder gives, put back into its packet.
abbrev pub wrap {ℓ} :
    {A : Type 0} {B : Type ℓ} → (A → ControlPacket) → Outcome (A × B) → Outcome (ControlPacket × B)
wrap make o = o >>= λ r. ok (make r.0, r.1)

unfoldable pub decode_payload : ControlPacket → Bytes → Option ℕ → Outcome (ControlPacket × Bytes)
decode_payload (connect p) buf v = wrap connect (Connect.decode_payload p buf v)
decode_payload (publish p) buf v = wrap publish (Publish.decode_payload p buf v)
decode_payload (subscribe p) buf v = wrap subscribe (Subscribe.decode_payload p buf v)
decode_payload (unsubscribe p) buf v = wrap unsubscribe (Unsubscribe.decode_payload p buf v)
decode_payload (disconnect p) buf v = wrap disconnect (Disconnect.decode_payload p buf v)
decode_payload (pubrel p) buf v = wrap pubrel (Pubrel.decode_payload p buf v)
decode_payload pingreq buf v = do rest ← Ping.pingreq_decode_payload buf v; ok (pingreq, rest)
decode_payload (puback p) buf v = ok (puback p, buf)
decode_payload (pubrec p) buf v = ok (pubrec p, buf)
decode_payload (pubcomp p) buf v = ok (pubcomp p, buf)
decode_payload (connack p) buf v = err not_implemented
decode_payload (suback p) buf v = err not_implemented
decode_payload (unsuback p) buf v = err not_implemented
decode_payload undefined buf v = err not_implemented
decode_payload no_operation buf v = err not_implemented
decode_payload disconnectcp_operation buf v = err not_implemented
decode_payload pingresp buf v = err not_implemented

unfoldable pub decode_variable_header :
    ControlPacket → Bytes → ℕ → ℕ → Option ℕ → Outcome (ControlPacket × ℕ)
decode_variable_header (connect p) buf start len v =
    wrap connect (Connect.decode_variable_header p buf start len v)
decode_variable_header (publish p) buf start len v =
    wrap publish (Publish.decode_variable_header p buf start len v)
decode_variable_header (subscribe p) buf start len v =
    wrap subscribe (Subscribe.decode_variable_header p buf start len v)
decode_variable_header (unsubscribe p) buf start len v =
    wrap unsubscribe (Unsubscribe.decode_variable_header p buf start len v)
decode_variable_header (disconnect p) buf start len v =
    wrap disconnect (Disconnect.decode_variable_header p buf start len v)
decode_variable_header (pubrel p) buf start len v =
    wrap pubrel (Pubrel.decode_variable_header p buf start len v)
decode_variable_header pingreq buf start len v = do
  next_pos ← Ping.pingreq_decode_variable_header buf start len v
  ok (pingreq, next_pos)
decode_variable_header (puback p) buf start len v = do
  (id, next_pos) ← packet_id_try_from buf start
  ok (puback (record p { packet_id = id; protocol_version = unwrap_or v 0 }), next_pos)
decode_variable_header (pubrec p) buf start len v = do
  (id, next_pos) ← packet_id_try_from buf start
  ok (pubrec (record p { packet_id = id; protocol_version = unwrap_or v 0 }), next_pos)
decode_variable_header (pubcomp p) buf start len v = do
  (id, next_pos) ← packet_id_try_from buf start
  ok (pubcomp (record p { packet_id = id; protocol_version = unwrap_or v 0 }), next_pos)
decode_variable_header (connack p) buf start len v = err not_implemented
decode_variable_header (suback p) buf start len v = err not_implemented
decode_variable_header (unsuback p) buf start len v = err not_implemented
decode_variable_header undefined buf start len v = err not_implemented
decode_variable_header no_operation buf start len v = err not_implemented
decode_variable_header disconnectcp_operation buf start len v = err not_implemented
decode_variable_header pingresp buf start len v = err not_implemented

unfoldable pub encode_header : ControlPacket → Outcome Bytes
encode_header (connack p) = Connack.encode_header p
encode_header (suback p) = Suback.encode_header p
encode_header (puback p) = Puback.encode_header p
encode_header (pubrec p) = Pubrec.encode_header p
encode_header (pubrel p) = Pubrel.encode_header p
encode_header (pubcomp p) = Pubcomp.encode_header p
encode_header (unsuback p) = Unsuback.encode_header p
encode_header (publish p) = Publish.encode_header p
encode_header pingresp = Ping.pingresp_encode_header
encode_header (connect p) = err not_implemented
encode_header (disconnect p) = err not_implemented
encode_header (subscribe p) = err not_implemented
encode_header (unsubscribe p) = err not_implemented
encode_header undefined = err not_implemented
encode_header no_operation = err not_implemented
encode_header disconnectcp_operation = err not_implemented
encode_header pingreq = err not_implemented

unfoldable pub encode_payload_chunk : ControlPacket → Outcome (Option Bytes)
encode_payload_chunk (connack p) = Connack.encode_payload_chunk p
encode_payload_chunk (suback p) = Suback.encode_payload_chunk p
encode_payload_chunk (puback p) = Puback.encode_payload_chunk p
encode_payload_chunk (pubrec p) = Pubrec.encode_payload_chunk p
encode_payload_chunk (pubrel p) = Pubrel.encode_payload_chunk p
encode_payload_chunk (pubcomp p) = Pubcomp.encode_payload_chunk p
encode_payload_chunk (unsuback p) = Unsuback.encode_payload_chunk p
encode_payload_chunk (publish p) = Publish.encode_payload_chunk p
encode_payload_chunk pingresp = Ping.pingresp_encode_payload_chunk
encode_payload_chunk (connect p) = err not_implemented
encode_payload_chunk (disconnect p) = err not_implemented
encode_payload_chunk (subscribe p) = err not_implemented
encode_payload_chunk (unsubscribe p) = err not_implemented
encode_payload_chunk undefined = err not_implemented
encode_payload_chunk no_operation = err not_implemented
encode_payload_chunk disconnectcp_operation = err not_implemented
encode_payload_chunk pingreq = err not_implemented
