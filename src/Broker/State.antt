-- ===== src/Broker/State.antt =====
-- examples/broker.rs: what the services of the broker share.
use aqua.Base.{ℕ, ◌≤◌, List}
use aqua.Topic.{bytes_eq}
use aqua.DashMap.{DashMap}
use aqua.Packet.Publish.{Publish}
use aqua.Session.{Backend, SessionManager}
use aqua.Broker.TopicManager.{Subscription}

-- What comes from other crates: the maps, the channels, and `random!(..=1000)`
pub record Outside : Type 1 where
  pub session : Backend
  pub retained : DashMap bytes_eq Publish
  pub topics : DashMap bytes_eq (List Subscription)
  pub Rng : Type 0
  pub random : Rng → ℕ × Rng
  pub random-le : (g : Rng) → (random g).0 ≤ 1000

-- A task that a handler has spawned: the delivery of a message, for a PUBLISH at once, and for a PUBREL
-- with the packet id of that PUBREL.
pub data Task : Type 0 where
  of_publish : Publish → Task
  of_pubrel : Publish → ℕ → Task

-- `SESSION_MANAGER`, `RETAIN_STORE`, the `TopicManager`, the channels of all clients, the generator of
-- random numbers, and the tasks that were spawned and have not run yet
pub record Broker (x : Outside) : Type 0 where
  pub manager : SessionManager x.session
  pub store : x.retained.Map
  pub topic_map : x.topics.Map
  pub channels : x.session.mpsc.Channels
  pub rng : x.Rng
  pub tasks : List Task
