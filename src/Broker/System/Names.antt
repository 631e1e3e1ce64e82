-- ===== src/Broker/System/Names.antt =====
-- examples/broker.rs: the name under which the session manager knows a connection, and the one in its lock.
use aqua.Base.{
  ℕ, ◌≡◌, ◌≢◌, refl, sym, ap, ◌∙◌, none, some, [], ◌∷◌, ◌++◌, arith, Bool-cases, Option-cases, inl,
  inr, if_cases, if◌then◌else◌, subst,
}
use aqua.Bytes.{Bytes}
use aqua.Topic.{bytes_eq}
use aqua.Topic.Matching.{bytes_eq_iff}
use aqua.Packet.Connect.{Connect}
use aqua.Packet.Disconnect.{Disconnect}
use aqua.Packet.Publish.{Publish}
use aqua.Property.{QoS, qos2}
use aqua.Coder.ControlPacket.{ControlPacket, connect, disconnect}
use aqua.Session.{
  SessionManager, new, add_staging_packet, commit_packet, register_client_id, register_mqtt_id,
  unregister_mqtt_id, set_protocol_version, get_mqtt_id,
}
use aqua.Session.Routing.{get_mqtt_id-by_mqtt_id}
use aqua.Broker.State.{Outside, Broker}
use aqua.Broker.Service.{serve, serve_disconnect}
use aqua.Broker.Service.Keeps.{serve-keeps}
use aqua.Broker.ConnectService.{is_supported, accept_client, serve_connect, Connected}
use aqua.Broker.System.{
  System, rename, start, accept, connected, requested, ran, accepts, connects, requests, runs,
  takes, Reachable, starts, next,
}
use aqua.Broker.System.Sessions.{run_task-manager, Reachable-Routing}

module _ (x : Outside) where
  -- A connection whose lock holds a name is known by no other name.
  abbrev HasOwnNames : (x.session.Uuid → Bytes) → SessionManager x.session → Type 0
  HasOwnNames names m =
      (v : x.session.Uuid) (name : Bytes)
      → names v ≢ []
      → get_mqtt_id x.session m v ≡ some name
      → name ≡ names v

  stage_keeps :
      (names : x.session.Uuid → Bytes) (m : SessionManager x.session) (p : Publish) (qos : QoS)
      → HasOwnNames names m
      → HasOwnNames names (add_staging_packet x.session m p qos)
  unfolding add_staging_packet get_mqtt_id
  stage_keeps names m p qos h v name = elim (Option-cases p.packet_id) [
    | inl gone ↦ rw gone (h v name)
    | inr (id, there) ↦ rw there (h v name)
  ]

  commit_keeps :
      (names : x.session.Uuid → Bytes) (m : SessionManager x.session) (id : ℕ)
      → HasOwnNames names m
      → HasOwnNames names (commit_packet x.session m id).0
  unfolding commit_packet get_mqtt_id
  commit_keeps names m id h v name = elim (Option-cases (x.session.staged.get m.qos_tmp id)) [
    | inl gone ↦ rw (gone, commit_packet) (h v name)
    | inr (e, there) ↦ rw (there, commit_packet) (h v name)
  ]

  drop_keeps :
      (names : x.session.Uuid → Bytes) (m : SessionManager x.session) (dropped : Bytes)
      → HasOwnNames names m
      → HasOwnNames names (unregister_mqtt_id x.session m dropped)
  unfolding unregister_mqtt_id get_mqtt_id
  drop_keeps names m dropped h v name =
      elim (Option-cases (x.session.mqtt_ids.get m.by_mqtt_id dropped)) [
        | inl gone ↦ rw (gone, unregister_mqtt_id) (h v name)
        | inr (u, there) ↦
            rw (there, unregister_mqtt_id)
              (λ has e.
                h v name has
                  (ground (arith, e, x.session.client_mqtts.get-remove m.by_client_mqtt u v)))
      ]

  -- A name is given to the connection whose lock is set to it.
  take_keeps :
      (names : x.session.Uuid → Bytes) (b : Broker x) (u : x.session.Uuid) (p : Connect)
      → HasOwnNames names b.manager
      → HasOwnNames (rename x names u p.client_id) (accept_client x b u p).manager
  unfolding accept_client register_mqtt_id set_protocol_version get_mqtt_id
  take_keeps names b u p h v name has e =
      let set = x.session.client_mqtts.get-insert b.manager.by_client_mqtt u p.client_id v in
      elim (Bool-cases (x.session.uuid_eq u v)) [
        | inl same ↦ rw same (ground (arith, set, same, e))
        | inr other ↦ rw other (h v name (rw other at has) (ground (arith, set, other, e)))
      ]

  rename_same :
      (names : x.session.Uuid → Bytes) (u v : x.session.Uuid)
      → rename x names u (names u) v ≡ names v
  rename_same names u v =
      if_cases (λ n. n ≡ names v) (x.session.uuid_eq u v) (names u) (names v)
        (λ same. ap names ((x.session.uuid_equality.iff u v).0 same)) (λ other. refl)

  refuse_keeps :
      (names : x.session.Uuid → Bytes) (m : SessionManager x.session) (u : x.session.Uuid)
      → HasOwnNames names m
      → HasOwnNames (rename x names u (names u)) m
  refuse_keeps names m u h v name =
      subst (λ n. n ≢ [] → get_mqtt_id x.session m v ≡ some name → name ≡ n)
        (sym (rename_same names u v)) (h v name)

  connect_keeps :
      (names : x.session.Uuid → Bytes) (b : Broker x) (u : x.session.Uuid) (packet : ControlPacket)
      → HasOwnNames names b.manager
      → let r = serve_connect x b u (names u) packet in
        HasOwnNames (rename x names u r.1) r.0.manager
  unfolding serve_connect
  connect_keeps names b u (connect p) h =
      if_cases (λ (r : Connected x). HasOwnNames (rename x names u r.1) r.0.manager)
        (is_supported p.protocol_name p.protocol_ver) _ _ (λ new. take_keeps names b u p h)
        (λ old. refuse_keeps names b.manager u h)
  connect_keeps names b u packet h = refuse_keeps names b.manager u h

  Reachable-HasOwnNames : (s : System x) → Reachable x s → HasOwnNames s.names s.broker.manager
  unfolding start accept connected requested ran new register_client_id get_mqtt_id
  Reachable-HasOwnNames _ (starts channels rng) = λ v name has e. absurd (has refl)
  Reachable-HasOwnNames _ (next {s} r (accepts u tx)) = λ v name has e.
      elim (Bool-cases (x.session.uuid_eq u v)) [
        | inl same ↦ absurd ((rw same at has) refl)
        | inr other ↦ rw other (Reachable-HasOwnNames s r v name (rw other at has) e)
      ]
  Reachable-HasOwnNames _ (next {s} r (connects u packet fresh)) =
      connect_keeps s.names s.broker u packet (Reachable-HasOwnNames s r)
  Reachable-HasOwnNames _ (next {s} r (requests u packet)) =
      serve-keeps x (HasOwnNames s.names) (λ p. Unit) (λ p e. tt)
        (λ m p good h. stage_keeps s.names m p qos2 h) (λ m id h. commit_keeps s.names m id h)
        (λ m name h. drop_keeps s.names m name h) s.broker (s.names u) packet (λ t p e. tt)
        (Reachable-HasOwnNames s r)
  Reachable-HasOwnNames _ (next {s} r (runs front task back e)) =
      rw (run_task-manager x task (record s.broker { tasks = front ++ back }))
        (Reachable-HasOwnNames s r)
  Reachable-HasOwnNames _ (next {s} r (takes channels)) = Reachable-HasOwnNames s r

  by_mqtt_id-unregister :
      (m : SessionManager x.session) (name other : Bytes)
      → x.session.mqtt_ids.get (unregister_mqtt_id x.session m name).by_mqtt_id other
        ≡ (if bytes_eq name other then none else x.session.mqtt_ids.get m.by_mqtt_id other)
  unfolding unregister_mqtt_id
  by_mqtt_id-unregister m name other =
      elim (Option-cases (x.session.mqtt_ids.get m.by_mqtt_id name)) [
        | inl gone ↦ rw (gone, unregister_mqtt_id) (ground (arith, gone, bytes_eq_iff name other))
        | inr (u, there) ↦
            rw (there, unregister_mqtt_id)
              (ground (arith, x.session.mqtt_ids.get-remove m.by_mqtt_id name other))
      ]

  -- A DISCONNECT of a client that has a name takes that name from the routes, whatever they are, and leaves
  -- those of every other name, the subscriptions, the retained messages and the spawned tasks.
  serve_disconnect-unroutes :
      (b : Broker x) (name other : Bytes) (d : Disconnect)
      → name ≢ []
      → let b' = (serve x b name (disconnect d)).0 in
        (x.session.mqtt_ids.get b'.manager.by_mqtt_id other ≡ (
          if bytes_eq name other then none else x.session.mqtt_ids.get b.manager.by_mqtt_id other))
        × (b'.topic_map ≡ b.topic_map)
        × (b'.store ≡ b.store)
        × (b'.tasks ≡ b.tasks)
  unfolding serve serve_disconnect
  serve_disconnect-unroutes b [] other d has = absurd (has refl)
  serve_disconnect-unroutes b (c ∷ cs) other d has =
      (by_mqtt_id-unregister b.manager (c ∷ cs) other, refl, refl, refl)

  -- However connections, requests and spawned tasks interleave, where each connection calls the connect
  -- service only while it has no name: a name under which messages are sent leads to a connection whose
  -- own name that is, if its lock holds one; and when that connection sends a DISCONNECT, the name
  -- leads nowhere any more.
  pub by_mqtt_id-names :
      (s : System x) (u : x.session.Uuid) (name : Bytes) (d : Disconnect)
      → Reachable x s
      → s.names u ≢ []
      → x.session.mqtt_ids.get s.broker.manager.by_mqtt_id name ≡ some u
      → (name ≡ s.names u)
        × (x.session.mqtt_ids.get (requested x s u (disconnect d)).broker.manager.by_mqtt_id name
            ≡ none)
  unfolding requested
  by_mqtt_id-names s u name d r has led =
      let own : name ≡ s.names u =
        Reachable-HasOwnNames s r u name has (
          get_mqtt_id-by_mqtt_id x.session s.broker.manager name u (Reachable-Routing x s r) led) in
      let gone = (serve_disconnect-unroutes s.broker (s.names u) name d has).0 in
      (own, gone ∙ ground (arith, own, bytes_eq_iff (s.names u) name))
