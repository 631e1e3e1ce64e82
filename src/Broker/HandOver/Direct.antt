-- ===== src/Broker/HandOver/Direct.antt =====
-- examples/broker.rs: a message of QoS 0 or 1, from its PUBLISH to the task that delivers it.
use aqua.Base.{
  ℕ, ◌≡◌, ◌≢◌, ◌⊎◌, refl, ap, ◌∙◌, ◌&&◌, none, some, List, [], ◌∷◌, ◌++◌, if◌then◌else◌, arith, inl,
  inr,
}
use aqua.Outcome.{ok}
use aqua.Bytes.{Bytes}
use aqua.Topic.{bytes_eq}
use aqua.Property.{QoS, qos0, qos1, qos2}
use aqua.Packet.Publish.{Publish}
use aqua.Coder.ControlPacket.{ControlPacket, publish, puback, no_operation}
use aqua.Retain.{update_retain}
use aqua.Connection.Responses.{new}
use aqua.Broker.TopicManager.{Subscription, subed_id}
use aqua.Broker.State.{Outside, Broker, of_publish}
use aqua.Broker.Delivery.{retain_message, send_one, publish_loop, run_task}
use aqua.Broker.Service.{version_or_4, publish_now, publish_answer, serve_publish, serve}
use aqua.Broker.Service.Cases.{versioned}
use aqua.Broker.System.Messages.{IsFull}

module _ (x : Outside) where
  -- The answer to a message of QoS 0 or 1
  abbrev pub acknowledgement : QoS → ℕ → ℕ → ControlPacket
  acknowledgement qos0 id version = no_operation
  acknowledgement qos1 id version = puback (record {
    packet_id = id;
    reason_code = none;
    puback_properties = none;
    protocol_version = version;
  })
  acknowledgement qos2 id version = no_operation

  answered :
      (qos : QoS) (id version : ℕ)
      → qos ≢ qos2
      → publish_answer x qos (some id) version ≡ ok (new (acknowledgement qos id version))
  answered qos0 id version other = refl
  answered qos1 id version other = refl
  answered qos2 id version other = absurd (other refl)

  QoS-cases : (q : QoS) → (q ≡ qos0) ⊎ ((q ≡ qos1) ⊎ (q ≡ qos2))
  QoS-cases qos0 = inl refl
  QoS-cases qos1 = inr (inl refl)
  QoS-cases qos2 = inr (inr refl)

  direct_result :
      (b : Broker x) (name : Bytes) (p : Publish) (id : ℕ)
      → p.qos ≢ qos2
      → (p.qos ≡ qos1 → p.packet_id ≡ some id)
      → IsFull p
      → let m = versioned x b name p in
        serve_publish x b name p ≡ (
          record b { tasks = b.tasks ++ (of_publish m ∷ []) },
          ok (new (acknowledgement p.qos id (version_or_4 x b name))),
        )
  unfolding serve_publish publish_now version_or_4
  direct_result b name p id other has full = elim (QoS-cases p.qos) [
    | inl zero_qos ↦ ground (arith, zero_qos, full)
    | inr (inl one) ↦ ground (arith, one, has one, full)
    | inr (inr two) ↦ absurd (other two)
  ]

  publish_loop-store :
      (p : Publish) (subs : List Subscription) (b : Broker x)
      → (publish_loop x p subs b).0.store ≡ b.store
  unfolding publish_loop send_one
  publish_loop-store p [] b = refl
  publish_loop-store p (s ∷ subs) b = publish_loop-store p subs _

  retain_message-get :
      (b : Broker x) (p : Publish) (topic : Bytes)
      → x.retained.get (retain_message x b p).store topic
        ≡ (if p.retain && bytes_eq p.topic_name topic then some p else x.retained.get b.store topic)
  unfolding retain_message update_retain
  retain_message-get b p topic = ground (arith, x.retained.get-insert b.store p.topic_name p topic)

  -- A message of QoS 0 or 1 that has a payload, and for QoS 1 a packet id, is answered by a PUBACK with that
  -- id, or by nothing for QoS 0, and exactly one delivery of it is spawned. When that has run, the
  -- message is retained under its topic, where it asks for that; nothing else that was retained changes.
  pub serve_publish-spawned :
      (b : Broker x) (name : Bytes) (p : Publish) (id : ℕ) (topic : Bytes)
      → p.qos ≢ qos2
      → (p.qos ≡ qos1 → p.packet_id ≡ some id)
      → IsFull p
      → let r = serve x b name (publish p) in
        let task = of_publish (versioned x b name p) in
        (r.1 ≡ ok (new (acknowledgement p.qos id (version_or_4 x b name))))
        × (r.0.tasks ≡ b.tasks ++ (task ∷ []))
        × (r.0.manager ≡ b.manager)
        × (r.0.channels ≡ b.channels)
        × (r.0.store ≡ b.store)
        × (x.retained.get (run_task x task r.0).0.store topic ≡ (
            if p.retain && bytes_eq p.topic_name topic
            then some (versioned x b name p)
            else x.retained.get b.store topic))
  unfolding serve run_task
  serve_publish-spawned b name p id topic other has full =
      let m = versioned x b name p in
      let b' = record b { tasks = b.tasks ++ (of_publish m ∷ []) } in
      rw (direct_result b name p id other has full) (
        refl,
        refl,
        refl,
        refl,
        refl,
        ap (λ st. x.retained.get st topic)
              (publish_loop-store m (subed_id x.topics b.topic_map p.topic_name)
                (retain_message x b' m))
            ∙ retain_message-get b' m topic,
      )
