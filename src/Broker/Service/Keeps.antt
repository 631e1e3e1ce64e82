-- ===== src/Broker/Service/Keeps.antt =====
-- What the service does to the session manager: it stages, commits, and drops a name, and no more.
use aqua.Base.{
  ℕ, zero, suc, ◌≡◌, refl, false, not, some, is_empty, List, [], ◌∷◌, get_elem?, All, ◌==◌,
  Bool-cases, inl, inr, arith,
}
use aqua.Outcome.{Outcome, ok, err, panic, out_of_fuel}
use aqua.Bytes.{Bytes}
use aqua.Topic.{bytes_eq}
use aqua.DashMap.{has}
use aqua.Property.{qos2}
use aqua.Packet.Publish.{Publish}
use aqua.Packet.Subscribe.{SubscribeOption}
use aqua.Coder.ControlPacket.{
  ControlPacket, connect, disconnect, connack, publish, undefined, no_operation,
  disconnectcp_operation, subscribe, suback, pingreq, pingresp, unsubscribe, unsuback, puback,
  pubrec, pubrel, pubcomp,
}
use aqua.Session.{
  SessionManager, add_staging_packet, fetch_packet, commit_packet, unregister_mqtt_id,
}
use aqua.Retain.{check_retain}
use aqua.Retain.Laws.{check_retain-IsRetained}
use aqua.Broker.State.{Outside, Broker}
use aqua.Broker.Service.Cases.{versioned, serve_publish_cases}
use aqua.Broker.Delivery.{retain_message}
use aqua.Broker.Service.{
  is_qos2, Gathered, gather_one, gather, gather_loop, serve_disconnect, serve_subscribe,
  forget_retained, publish_qos2, publish_now, serve_publish, release_staged, commit, released,
  serve_pubrel, serve,
}

pub All-of_get_elem? {ℓ κ} :
    {A : Type ℓ} (P : A → Type κ) (xs : List A)
    → ((i : ℕ) (a : A) → get_elem? xs i ≡ some a → P a)
    → All P xs
All-of_get_elem? P [] h = tt
All-of_get_elem? P (a ∷ xs) h = (h zero a refl, All-of_get_elem? P xs (λ i. h (suc i)))

module _ (x : Outside) (Holds : SessionManager x.session → Type 0) (Good : Publish → Type 0)
    (nonempty : (p : Publish) → (p.payload_length == 0) ≡ false → Good p)
    (staged : (m : SessionManager x.session) (p : Publish)
      → Good p
      → Holds m
      → Holds (add_staging_packet x.session m p qos2))
    (committed : (m : SessionManager x.session) (id : ℕ)
      → Holds m
      → Holds (commit_packet x.session m id).0)
    (dropped : (m : SessionManager x.session) (name : Bytes)
      → Holds m
      → Holds (unregister_mqtt_id x.session m name)) where
  gather_one-keeps :
      (p : Publish) (g : Gathered x) → Good p → Holds g.staging → Holds (gather_one x p g).staging
  unfolding gather_one
  gather_one-keeps p g good h = elim (Bool-cases (has bytes_eq p.topic_name g.seen)) [
    | inl seen ↦ rw seen h
    | inr fresh ↦ elim (Bool-cases (is_qos2 p.qos)) [
      | inl two ↦ rw (fresh, two) (staged g.staging p good h)
      | inr other ↦ rw (fresh, other) h
    ]
  ]

  gather-keeps :
      (publishes : List Publish) (g : Gathered x)
      → All Good publishes
      → Holds g.staging
      → Holds (gather x publishes g).staging
  unfolding gather
  gather-keeps [] g all h = h
  gather-keeps (p ∷ publishes) g all h =
      gather-keeps publishes (gather_one x p g) all.1 (gather_one-keeps p g all.0 h)

  gather_loop-keeps :
      (store : x.retained.Map) (filters : List (Bytes × SubscribeOption)) (g : Gathered x)
      → ((topic : Bytes) (p : Publish) → x.retained.get store topic ≡ some p → Good p)
      → Holds g.staging
      → Holds (gather_loop x store filters g).staging
  unfolding gather_loop
  gather_loop-keeps store [] g good h = h
  gather_loop-keeps store ((f, option) ∷ filters) g good h =
      gather_loop-keeps store filters (gather x (check_retain x.retained store f) g) good (
        gather-keeps (check_retain x.retained store f) g
          (All-of_get_elem? Good (check_retain x.retained store f) (λ i p e.
            let r = (check_retain-IsRetained x.retained store f p).0 (i, e) in good r.0 p r.1.0))
          h)

  publish_qos2-keeps :
      (b : Broker x) (name : Bytes) (p : Publish)
      → Holds b.manager
      → Holds (publish_qos2 x b name p).0.manager
  unfolding publish_qos2 forget_retained
  publish_qos2-keeps b name p h = elim (Bool-cases (p.payload_length == 0)) [
    | inl gone ↦ elim (Bool-cases p.retain) [
      | inl asks ↦ rw (gone, asks) h
      | inr not_asked ↦ rw (gone, not_asked) h
    ]
    | inr full ↦ rw full (staged b.manager p (nonempty p full) h)
  ]

  publish_now-keeps :
      (b : Broker x) (name : Bytes) (p : Publish)
      → Holds b.manager
      → Holds (publish_now x b name p).0.manager
  unfolding publish_now forget_retained
  publish_now-keeps b name p h = elim (Bool-cases (p.payload_length == 0)) [
    | inl gone ↦ elim (Bool-cases p.retain) [
      | inl asks ↦ rw (gone, asks) h
      | inr not_asked ↦ rw (gone, not_asked) h
    ]
    | inr full ↦ rw full h
  ]

  serve_publish-keeps :
      (b : Broker x) (name : Bytes) (p : Publish)
      → Holds b.manager
      → Holds (serve_publish x b name p).0.manager
  serve_publish-keeps b name pubpacket h =
      serve_publish_cases x (λ r. Holds r.0.manager) b name pubpacket (λ two missing. h)
        (λ one missing. h) (λ two there. publish_qos2-keeps b name (versioned x b name pubpacket) h)
        (λ other there. publish_now-keeps b name (versioned x b name pubpacket) h)

  release_staged-manager :
      (b : Broker x) (p : Publish) (id : ℕ) → (release_staged x b p id).manager ≡ b.manager
  unfolding release_staged retain_message
  release_staged-manager b p id = ground arith

  released-keeps :
      (b : Broker x) (id : ℕ) (found : Outcome Publish)
      → Holds b.manager
      → Holds (released x b id found).manager
  unfolding commit
  released-keeps b id (ok p) h =
      committed (release_staged x b p id).manager id (rw (release_staged-manager b p id) h)
  released-keeps b id (err e) h = h
  released-keeps b id panic h = h
  released-keeps b id out_of_fuel h = h

  -- A property of the session manager that staging, committing and dropping a name keep is kept by every
  -- request.
  pub serve-keeps :
      (b : Broker x) (name : Bytes) (packet : ControlPacket)
      → ((topic : Bytes) (p : Publish) → x.retained.get b.store topic ≡ some p → Good p)
      → Holds b.manager
      → Holds (serve x b name packet).0.manager
  unfolding serve serve_disconnect serve_subscribe serve_pubrel commit
  serve-keeps b name (disconnect p) good h = elim (Bool-cases (not (is_empty name))) [
    | inl named ↦ rw named (dropped b.manager name h)
    | inr unnamed ↦ rw unnamed h
  ]
  serve-keeps b name (subscribe p) good h = gather_loop-keeps b.store p.topic_filters _ good h
  serve-keeps b name (publish p) good h = serve_publish-keeps b name p h
  serve-keeps b name (pubrel p) good h =
      released-keeps b p.packet_id (fetch_packet x.session b.manager p.packet_id) h
  serve-keeps b name (pubcomp p) good h = committed b.manager p.packet_id h
  serve-keeps b name pingreq good h = h
  serve-keeps b name (connect p) good h = h
  serve-keeps b name (pubrec p) good h = h
  serve-keeps b name (connack p) good h = h
  serve-keeps b name undefined good h = h
  serve-keeps b name no_operation good h = h
  serve-keeps b name disconnectcp_operation good h = h
  serve-keeps b name (suback p) good h = h
  serve-keeps b name pingresp good h = h
  serve-keeps b name (unsubscribe p) good h = h
  serve-keeps b name (unsuback p) good h = h
  serve-keeps b name (puback p) good h = h
