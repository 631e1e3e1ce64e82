-- ===== src/Broker/System/Versions.antt =====
-- Which requests the service can panic at.
use aqua.Base.{ℕ, ◌≡◌, ◌≢◌, refl, true, is_some, [], ◌++◌, arith, if_cases, Option-cases, inl, inr}
use aqua.Bytes.{Bytes}
use aqua.Topic.Matching.{bytes_eq_iff}
use aqua.Property.{qos2}
use aqua.Packet.Publish.{Publish}
use aqua.Coder.ControlPacket.{ControlPacket, connect}
use aqua.Session.{
  SessionManager, add_staging_packet, commit_packet, unregister_mqtt_id, register_client_id,
  register_mqtt_id, set_protocol_version, get_protocol_version,
}
use aqua.Broker.State.{Outside, Broker}
use aqua.Broker.Service.{serve}
use aqua.Broker.Service.Keeps.{serve-keeps}
use aqua.Broker.ConnectService.{is_supported, accept_client, serve_connect, Connected}
use aqua.Broker.System.{
  System, rename, start, accept, connected, requested, ran, accepts, connects, requests, runs,
  takes, Reachable, starts, next,
}
use aqua.Broker.System.Sessions.{run_task-manager}

module _ (x : Outside) where
  abbrev pub HasVersion : SessionManager x.session → Bytes → Type 0
  HasVersion m name = is_some (get_protocol_version x.session m name) ≡ true

  -- Each connection that has a name is noted with a version.
  abbrev pub NamedHaveVersions : System x → Type 0
  NamedHaveVersions s =
      (u : x.session.Uuid) → s.names u ≢ [] → HasVersion s.broker.manager (s.names u)

  stage-version :
      (m : SessionManager x.session) (p : Publish) (name : Bytes)
      → HasVersion m name
      → HasVersion (add_staging_packet x.session m p qos2) name
  unfolding add_staging_packet get_protocol_version
  stage-version m p name h = elim (Option-cases p.packet_id) [
    | inl missing ↦ rw missing h
    | inr (id, e) ↦ rw e h
  ]

  commit-version :
      (m : SessionManager x.session) (pid : ℕ) (name : Bytes)
      → HasVersion m name
      → HasVersion (commit_packet x.session m pid).0 name
  unfolding commit_packet get_protocol_version
  commit-version m pid name h = elim (Option-cases (x.session.staged.get m.qos_tmp pid)) [
    | inl gone ↦ rw (gone, commit_packet) h
    | inr (e, there) ↦ rw (there, commit_packet) h
  ]

  drop-version :
      (m : SessionManager x.session) (dropped name : Bytes)
      → HasVersion m name
      → HasVersion (unregister_mqtt_id x.session m dropped) name
  unfolding unregister_mqtt_id get_protocol_version
  drop-version m dropped name h =
      elim (Option-cases (x.session.mqtt_ids.get m.by_mqtt_id dropped)) [
        | inl gone ↦ rw (gone, unregister_mqtt_id) h
        | inr (u, there) ↦ rw (there, unregister_mqtt_id) h
      ]

  serve-version :
      (b : Broker x) (asking name : Bytes) (packet : ControlPacket)
      → HasVersion b.manager name
      → HasVersion (serve x b asking packet).0.manager name
  serve-version b asking name packet h =
      serve-keeps x (λ m. HasVersion m name) (λ p. Unit) (λ p e. tt)
        (λ m p good. stage-version m p name) (λ m id. commit-version m id name)
        (λ m dropped. drop-version m dropped name) b asking packet (λ t p e. tt) h

  accepted_versions :
      (s : System x) (u : x.session.Uuid) (client_id : Bytes)
      → NamedHaveVersions s
      → (w : x.session.Uuid) → rename x s.names u client_id w ≢ []
      → HasVersion
          (set_protocol_version x.session
            (register_mqtt_id x.session s.broker.manager client_id u)
            client_id
            4)
          (rename x s.names u client_id w)
  unfolding set_protocol_version register_mqtt_id get_protocol_version
  accepted_versions s u client_id h w named = ground (
    arith,
    h w,
    named,
    x.session.versions.get-insert s.broker.manager.mqtt_version client_id 4 (s.names w),
    x.session.versions.get-insert s.broker.manager.mqtt_version client_id 4 client_id,
    bytes_eq_iff client_id client_id,
  )

  refused_versions :
      (s : System x) (u : x.session.Uuid)
      → NamedHaveVersions s
      → (w : x.session.Uuid) → rename x s.names u (s.names u) w ≢ []
      → HasVersion s.broker.manager (rename x s.names u (s.names u) w)
  refused_versions s u h w =
      if_cases (λ n. n ≢ [] → HasVersion s.broker.manager n) (x.session.uuid_eq u w) (s.names u)
        (s.names w) (λ e. h u) (λ e. h w)

  connected_versions :
      (s : System x) (u : x.session.Uuid) (packet : ControlPacket)
      → NamedHaveVersions s
      → NamedHaveVersions (connected x s u packet)
  unfolding connected serve_connect accept_client
  connected_versions s u (connect p) h =
      if_cases {A = Connected x}
        (λ r. NamedHaveVersions (record { broker = r.0; names = rename x s.names u r.1 }))
        (is_supported p.protocol_name p.protocol_ver) _ _
        (λ supported. accepted_versions s u p.client_id h) (λ other. refused_versions s u h)
  connected_versions s u packet h = refused_versions s u h

  accept_versions :
      (s : System x) (u : x.session.Uuid) (tx : x.session.mpsc.Sender)
      → NamedHaveVersions s
      → NamedHaveVersions (accept x s u tx)
  unfolding accept register_client_id get_protocol_version
  accept_versions s u tx h w =
      if_cases (λ n. n ≢ [] → HasVersion s.broker.manager n) (x.session.uuid_eq u w) [] (s.names w)
        (λ e ne. absurd (ne refl)) (λ e. h w)

  pub Reachable-NamedHaveVersions : (s : System x) → Reachable x s → NamedHaveVersions s
  unfolding start requested ran
  Reachable-NamedHaveVersions _ (starts channels rng) = λ u named. absurd (named refl)
  Reachable-NamedHaveVersions _ (next {s} r (accepts u tx)) =
      accept_versions s u tx (Reachable-NamedHaveVersions s r)
  Reachable-NamedHaveVersions _ (next {s} r (connects u packet fresh)) =
      connected_versions s u packet (Reachable-NamedHaveVersions s r)
  Reachable-NamedHaveVersions _ (next {s} r (requests u packet)) = λ w named.
      serve-version s.broker (s.names u) (s.names w) packet
        (Reachable-NamedHaveVersions s r w named)
  Reachable-NamedHaveVersions _ (next {s} r (runs front task back e)) = λ w named.
      rw (run_task-manager x task (record s.broker { tasks = front ++ back }))
        (Reachable-NamedHaveVersions s r w named)
  Reachable-NamedHaveVersions _ (next {s} r (takes channels)) = Reachable-NamedHaveVersions s r
