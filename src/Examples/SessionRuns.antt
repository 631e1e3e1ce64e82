-- ===== src/Examples/SessionRuns.antt =====
-- src/aqua/connection/session_manager.rs with two clients.
use aqua.Base.{ℕ, ◌≡◌, refl, false, [], ◌∷◌, some, ◌==◌, ==_iff}
use aqua.Bytes.{Bytes}
use aqua.Topic.{bytes_eq}
use aqua.Topic.Matching.{bytes_eq_iff}
use aqua.DashMap.{IsEquality}
use aqua.DashMap.Assoc.{assoc}
use aqua.Property.{qos2}
use aqua.Packet.Publish.{Publish, default_publish}
use aqua.Channel.{Single, single}
use aqua.Session.{Backend, SessionManager, new, register_mqtt_id, get_mqtt_id}
use aqua.Session.Routing.{Reachable, start, next, take_name, get_mqtt_id-by_mqtt_id}

abbrev numbers : IsEquality ◌==◌
numbers = record { iff = ==_iff }

abbrev names : IsEquality bytes_eq
names = record { iff = bytes_eq_iff }

-- Uuids are numbers, and the channel has the capacity of src/aqua/connection.rs.
abbrev pub small_backend : Backend
small_backend = record {
  Uuid = ℕ;
  uuid_eq = ◌==◌;
  uuid_equality = numbers;
  mpsc = single 32;
  clients = assoc ◌==◌ numbers;
  mqtt_ids = assoc bytes_eq names;
  client_mqtts = assoc ◌==◌ numbers;
  staged = assoc ◌==◌ numbers;
  versions = assoc bytes_eq names;
}

abbrev staged_message : Publish
staged_message = record default_publish { packet_id = some 7 }

abbrev pub empty_manager : SessionManager small_backend
empty_manager = record {
  by_client_id = [];
  by_mqtt_id = [];
  by_client_mqtt = [];
  qos_tmp = [];
  mqtt_version = [];
}

abbrev staging_manager : SessionManager small_backend
staging_manager = record empty_manager { qos_tmp = (7, (staged_message, qos2)) ∷ [] }

abbrev ann : Bytes
ann = 0x61 ∷ []

abbrev named_manager : SessionManager small_backend
named_manager = register_mqtt_id small_backend (new small_backend) ann 1

named-Reachable : Reachable small_backend named_manager
unfolding new get_mqtt_id
named-Reachable = next start (take_name ann 1 refl)

named_leads : small_backend.mqtt_ids.get named_manager.by_mqtt_id ann ≡ some 1
unfolding register_mqtt_id new bytes_eq
named_leads = refl

get_mqtt_id-by_mqtt_id_example : get_mqtt_id small_backend named_manager 1 ≡ some ann
get_mqtt_id-by_mqtt_id_example =
    get_mqtt_id-by_mqtt_id small_backend named_manager ann 1 named-Reachable named_leads

abbrev idle : Single
idle = ([], false)
