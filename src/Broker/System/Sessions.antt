-- ===== src/Broker/System/Sessions.antt =====
-- The broker uses the session manager as its contract asks.
use aqua.Base.{ℕ, ◌≡◌, refl, ◌∙◌, arith, none, List, [], ◌∷◌, ◌++◌, Bool-cases, inl, inr}
use aqua.Bytes.{Bytes}
use aqua.Property.{qos2}
use aqua.Packet.Publish.{Publish}
use aqua.Packet.Connect.{Connect}
use aqua.Coder.ControlPacket.{ControlPacket}
use aqua.Session.{get_mqtt_id}
use aqua.Session.Routing as Routing
use aqua.Session.Routing.{stage, commit, drop_name, take_name, set_version, open_client}
use aqua.Broker.TopicManager.{Subscription, subed_id}
use aqua.Broker.State.{Outside, Broker, Task, of_publish, of_pubrel}
use aqua.Broker.Delivery.{retain_message, send_one, publish_loop, pubrel_loop, run_task}
use aqua.Broker.Service.Keeps.{serve-keeps}
use aqua.Broker.ConnectService.{is_supported, accept_client, serve_connect}
use aqua.Broker.System.{
  System, start, accept, connected, requested, ran, accepts, connects, requests, runs, takes,
  Reachable, starts, next,
}

module _ (x : Outside) where
  pub publish_loop-manager :
      (p : Publish) (subs : List Subscription) (b : Broker x)
      → (publish_loop x p subs b).0.manager ≡ b.manager
  unfolding publish_loop send_one
  publish_loop-manager p [] b = refl
  publish_loop-manager p (s ∷ subs) b = publish_loop-manager p subs _

  pub pubrel_loop-manager :
      (p : Publish) (id : ℕ) (subs : List Subscription) (b : Broker x)
      → (pubrel_loop x p id subs b).0.manager ≡ b.manager
  unfolding pubrel_loop send_one
  pubrel_loop-manager p id [] b = refl
  pubrel_loop-manager p id (s ∷ subs) b = pubrel_loop-manager p id subs _

  pub run_task-manager : (task : Task) (b : Broker x) → (run_task x task b).0.manager ≡ b.manager
  unfolding run_task retain_message
  run_task-manager (of_publish p) b =
      publish_loop-manager p (subed_id x.topics b.topic_map p.topic_name) (retain_message x b p)
      ∙ retained b p
    where
      retained : (b : Broker x) (p : Publish) → (retain_message x b p).manager ≡ b.manager
      retained b p = ground arith
  run_task-manager (of_pubrel p id) b =
      pubrel_loop-manager p id (subed_id x.topics b.topic_map p.topic_name) b

  accept_client-Reachable :
      (b : Broker x) (u : x.session.Uuid) (p : Connect)
      → get_mqtt_id x.session b.manager u ≡ none
      → Routing.Reachable x.session b.manager
      → Routing.Reachable x.session (accept_client x b u p).manager
  unfolding accept_client
  accept_client-Reachable b u p fresh r =
      Routing.next (Routing.next r (take_name p.client_id u fresh)) (set_version p.client_id 4)

  serve_connect-Reachable :
      (b : Broker x) (u : x.session.Uuid) (name : Bytes) (packet : ControlPacket)
      → get_mqtt_id x.session b.manager u ≡ none
      → Routing.Reachable x.session b.manager
      → Routing.Reachable x.session (serve_connect x b u name packet).0.manager
  unfolding serve_connect
  serve_connect-Reachable b u name (ControlPacket.connect p) fresh r =
      elim (Bool-cases (is_supported p.protocol_name p.protocol_ver)) [
        | inl supported ↦ rw supported (accept_client-Reachable b u p fresh r)
        | inr other ↦ rw other r
      ]
  serve_connect-Reachable b u name packet fresh r = r

  -- Whatever the clients send, and however their requests and the spawned tasks interleave, the state of
  -- the broker's session manager is one that its calls lead to, in which a client takes a name only
  -- while it has none: what holds in each such state holds in the broker.
  pub Reachable-Routing :
      (s : System x) → Reachable x s → Routing.Reachable x.session s.broker.manager
  unfolding start accept connected requested ran
  Reachable-Routing _ (starts channels rng) = Routing.start
  Reachable-Routing _ (next {s} r (accepts u tx)) =
      Routing.next (Reachable-Routing s r) (open_client u tx)
  Reachable-Routing _ (next {s} r (connects u packet fresh)) =
      serve_connect-Reachable s.broker u (s.names u) packet fresh (Reachable-Routing s r)
  Reachable-Routing _ (next {s} r (requests u packet)) =
      serve-keeps x (Routing.Reachable x.session) (λ p. Unit) (λ p e. tt)
        (λ m p good h. Routing.next h (stage p qos2)) (λ m id h. Routing.next h (commit id))
        (λ m name h. Routing.next h (drop_name name)) s.broker (s.names u) packet (λ t p e. tt)
        (Reachable-Routing s r)
  Reachable-Routing _ (next {s} r (runs front task back e)) =
      rw (run_task-manager task (record s.broker { tasks = front ++ back })) (Reachable-Routing s r)
  Reachable-Routing _ (next {s} r (takes channels)) = Reachable-Routing s r
