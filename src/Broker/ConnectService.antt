-- ===== src/Broker/ConnectService.antt =====
-- examples/broker.rs: the service for a CONNECT.
use aqua.Base.{ℕ, Bool, false, ◌&&◌, ◌||◌, none, [], ◌∷◌, if◌then◌else◌, ◌==◌}
use aqua.Bytes.{Bytes}
use aqua.Topic.{bytes_eq}
use aqua.Packet.Connect.{Connect}
use aqua.Packet.Connack.{Connack}
use aqua.Packet.Connack.Reason.{success, protocol_error}
use aqua.Coder.ControlPacket.{ControlPacket, connect}
use aqua.Session.{register_mqtt_id, set_protocol_version}
use aqua.Connection.Responses.{ConnackResponse, ConnackError, from_connack}
use aqua.Broker.State.{Outside, Broker}

pub data ConnectResult : Type 0 where
  accepted : ConnackResponse → ConnectResult
  refused : ConnackError → ConnectResult

-- "MQTT" and "MQIsdp"
abbrev pub mqtt_name : Bytes
mqtt_name = 0x4d ∷ 0x51 ∷ 0x54 ∷ 0x54 ∷ []

abbrev pub mqisdp_name : Bytes
mqisdp_name = 0x4d ∷ 0x51 ∷ 0x49 ∷ 0x73 ∷ 0x64 ∷ 0x70 ∷ []

unfoldable pub is_supported : Bytes → ℕ → Bool
is_supported name version =
    (bytes_eq name mqtt_name && (version == 4 || version == 5))
    || (bytes_eq name mqisdp_name && version == 3)

abbrev pub connack_data : Connack
connack_data = record {
  session_present = false;
  connect_reason = success;
  connack_properties = none;
  version = 4;
}

module _ (x : Outside) where
  -- The broker, what the connection's lock holds, and the result
  abbrev pub Connected : Type 0
  Connected = Broker x × Bytes × ConnectResult

  unfoldable pub accept_client : Broker x → x.session.Uuid → Connect → Broker x
  accept_client b client_id p = record b {
    manager =
        set_protocol_version x.session (register_mqtt_id x.session b.manager p.client_id client_id)
          p.client_id connack_data.version;
  }

  unfoldable pub serve_connect : Broker x → x.session.Uuid → Bytes → ControlPacket → Connected
  unfolding is_supported accept_client from_connack
  serve_connect b client_id mqtt_id (connect p) =
      if is_supported p.protocol_name p.protocol_ver
      then (accept_client b client_id p, p.client_id, accepted (from_connack connack_data))
      else (b, mqtt_id, refused (record { reason_code = protocol_error }))
  serve_connect b client_id mqtt_id packet =
      (b, mqtt_id, refused (record { reason_code = protocol_error }))
