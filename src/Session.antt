-- ===== src/Session.antt =====
-- src/aqua/connection/session_manager.rs: who is connected under which name, and the staged QoS 2
-- messages.
pub mod Staging
pub mod Routes
pub mod Routing
use aqua.Base.{ℕ, ◌≡◌, ◌↔◌, Bool, Option, none, some, ◌==◌}
use aqua.Outcome.{Outcome, ok, err, unexpected}
use aqua.Bytes.{Bytes}
use aqua.Topic.{bytes_eq}
use aqua.DashMap.{DashMap, IsEquality}
use aqua.Property.{QoS}
use aqua.Packet.Publish.{Publish}
use aqua.Coder.ControlPacket.{ControlPacket}
use aqua.Channel.{SendResult, sent, full, closed, Mpsc}

-- What comes from other crates: uuids, channels, and the maps
pub record Backend : Type 1 where
  pub Uuid : Type 0
  pub uuid_eq : Uuid → Uuid → Bool
  pub uuid_equality : IsEquality uuid_eq
  pub mpsc : Mpsc
  pub clients : DashMap uuid_eq mpsc.Sender
  pub mqtt_ids : DashMap bytes_eq Uuid
  pub client_mqtts : DashMap uuid_eq Bytes
  pub staged : DashMap ◌==◌ (Publish × QoS)
  pub versions : DashMap bytes_eq ℕ

pub record SessionManager (k : Backend) : Type 0 where
  pub by_client_id : k.clients.Map
  pub by_mqtt_id : k.mqtt_ids.Map
  pub by_client_mqtt : k.client_mqtts.Map
  pub qos_tmp : k.staged.Map
  pub mqtt_version : k.versions.Map

module _ (k : Backend) where
  unfoldable pub new : SessionManager k
  new = record {
    by_client_id = k.clients.empty;
    by_mqtt_id = k.mqtt_ids.empty;
    by_client_mqtt = k.client_mqtts.empty;
    qos_tmp = k.staged.empty;
    mqtt_version = k.versions.empty;
  }

  -- `Outbound` is its sender
  unfoldable pub send :
      k.mpsc.Channels → k.mpsc.Sender → ControlPacket → k.mpsc.Channels × SendResult
  send channels tx pkt = k.mpsc.try_send channels tx pkt

  unfoldable pub add_staging_packet : SessionManager k → Publish → QoS → SessionManager k
  add_staging_packet m pkt qos = elim pkt.packet_id [
    | none ↦ m
    | some id ↦ record m { qos_tmp = k.staged.insert m.qos_tmp id (pkt, qos) }
  ]

  unfoldable pub fetch_packet : SessionManager k → ℕ → Outcome Publish
  fetch_packet m pid = elim (k.staged.get m.qos_tmp pid) [
    | none ↦ err unexpected
    | some entry ↦ ok entry.0
  ]

  unfoldable pub commit_packet : SessionManager k → ℕ → SessionManager k × Outcome (Unit {0})
  commit_packet m pid = elim (k.staged.get m.qos_tmp pid) [
    | none ↦ (m, err unexpected)
    | some entry ↦ (record m { qos_tmp = k.staged.remove m.qos_tmp pid }, ok tt)
  ]

  unfoldable pub register_client_id : SessionManager k → k.Uuid → k.mpsc.Sender → SessionManager k
  register_client_id m client_id outbound = record m {
    by_client_id = k.clients.insert m.by_client_id client_id outbound;
  }

  unfoldable pub unregister_client_id : SessionManager k → k.Uuid → SessionManager k
  unregister_client_id m client_id = record m {
    by_client_id = k.clients.remove m.by_client_id client_id;
  }

  unfoldable pub send_by_client_id :
      SessionManager k → k.mpsc.Channels → k.Uuid → ControlPacket → k.mpsc.Channels × SendResult
  unfolding send
  send_by_client_id m channels client_id pkt = elim (k.clients.get m.by_client_id client_id) [
    | none ↦ (channels, closed pkt)
    | some outbound ↦ send channels outbound pkt
  ]

  unfoldable pub send_by_mqtt_id :
      SessionManager k → k.mpsc.Channels → Bytes → ControlPacket → k.mpsc.Channels × SendResult
  unfolding send_by_client_id
  send_by_mqtt_id m channels mqtt_id pkt = elim (k.mqtt_ids.get m.by_mqtt_id mqtt_id) [
    | none ↦ (channels, sent)
    | some client_id ↦ send_by_client_id m channels client_id pkt
  ]

  unfoldable pub register_mqtt_id : SessionManager k → Bytes → k.Uuid → SessionManager k
  register_mqtt_id m mqtt_id client_id = record m {
    by_mqtt_id = k.mqtt_ids.insert m.by_mqtt_id mqtt_id client_id;
    by_client_mqtt = k.client_mqtts.insert m.by_client_mqtt client_id mqtt_id;
  }

  unfoldable pub unregister_mqtt_id : SessionManager k → Bytes → SessionManager k
  unregister_mqtt_id m mqtt_id = elim (k.mqtt_ids.get m.by_mqtt_id mqtt_id) [
    | none ↦ m
    | some client_id ↦ record m {
      by_mqtt_id = k.mqtt_ids.remove m.by_mqtt_id mqtt_id;
      by_client_mqtt = k.client_mqtts.remove m.by_client_mqtt client_id;
    }
  ]

  unfoldable pub get_mqtt_id : SessionManager k → k.Uuid → Option Bytes
  get_mqtt_id m client_id = k.client_mqtts.get m.by_client_mqtt client_id

  unfoldable pub get_protocol_version : SessionManager k → Bytes → Option ℕ
  get_protocol_version m mqtt_id = k.versions.get m.mqtt_version mqtt_id

  unfoldable pub set_protocol_version : SessionManager k → Bytes → ℕ → SessionManager k
  set_protocol_version m mqtt_id version = record m {
    mqtt_version = k.versions.insert m.mqtt_version mqtt_id version;
  }
