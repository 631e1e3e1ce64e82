-- ===== src/Broker/System/Messages.antt =====
-- Which messages the broker stages, retains and delivers.
use aqua.Base.{ℕ, ◌≡◌, true, false, some, List, All, ◌==◌, ==_iff, arith, Option-cases, inl, inr}
use aqua.Bytes.{Bytes}
use aqua.Topic.Matching.{bytes_eq_iff}
use aqua.Property.{QoS, qos2}
use aqua.Packet.Publish.{Publish}
use aqua.Session.{SessionManager, add_staging_packet, commit_packet, unregister_mqtt_id}
use aqua.Retain.{update_retain, remove_retain}
use aqua.Broker.State.{Outside, Task}
use aqua.Broker.Delivery.Received.{message_of}

abbrev pub IsFull : Publish → Type 0
IsFull p = (p.payload_length == 0) ≡ false

module _ (x : Outside) where
  -- What is staged has a payload, and stands under its own packet id.
  abbrev pub StagedFull : SessionManager x.session → Type 0
  StagedFull m =
      (id : ℕ) (entry : Publish × QoS)
      → x.session.staged.get m.qos_tmp id ≡ some entry
      → IsFull entry.0 × (entry.0.packet_id ≡ some id)

  -- What is retained has a payload, asked for it, and stands under its own topic.
  abbrev pub RetainedFull : x.retained.Map → Type 0
  RetainedFull store =
      (topic : Bytes) (p : Publish)
      → x.retained.get store topic ≡ some p
      → IsFull p × (p.retain ≡ true) × (p.topic_name ≡ topic)

  abbrev pub TasksFull : List Task → Type 0
  TasksFull tasks = All (λ t. IsFull (message_of x t)) tasks

  pub stage-StagedFull :
      (m : SessionManager x.session) (p : Publish)
      → IsFull p
      → StagedFull m
      → StagedFull (add_staging_packet x.session m p qos2)
  unfolding add_staging_packet
  stage-StagedFull m p full h id entry = elim (Option-cases p.packet_id) [
    | inl missing ↦ rw missing (h id entry)
    | inr (own, e) ↦ rw e (λ found. ground (
      arith,
      e,
      full,
      h id entry,
      found,
      x.session.staged.get-insert m.qos_tmp own (p, qos2) id,
      ==_iff own id,
    ))
  ]

  pub commit-StagedFull :
      (m : SessionManager x.session) (pid : ℕ)
      → StagedFull m
      → StagedFull (commit_packet x.session m pid).0
  unfolding commit_packet
  commit-StagedFull m pid h id entry = elim (Option-cases (x.session.staged.get m.qos_tmp pid)) [
    | inl gone ↦ rw (gone, commit_packet) (h id entry)
    | inr (e, there) ↦
        rw (there, commit_packet)
          (λ found. ground (arith, h id entry, found, x.session.staged.get-remove m.qos_tmp pid id))
  ]

  pub drop-StagedFull :
      (m : SessionManager x.session) (name : Bytes)
      → StagedFull m
      → StagedFull (unregister_mqtt_id x.session m name)
  unfolding unregister_mqtt_id
  drop-StagedFull m name h id entry =
      elim (Option-cases (x.session.mqtt_ids.get m.by_mqtt_id name)) [
        | inl gone ↦ rw (gone, unregister_mqtt_id) (h id entry)
        | inr (u, there) ↦ rw (there, unregister_mqtt_id) (h id entry)
      ]

  pub remove-RetainedFull :
      (store : x.retained.Map) (topic : Bytes)
      → RetainedFull store
      → RetainedFull (remove_retain x.retained store topic)
  unfolding remove_retain
  remove-RetainedFull store topic h t p found =
      ground (arith, h t p, found, x.retained.get-remove store topic t)

  pub update-RetainedFull :
      (store : x.retained.Map) (p : Publish)
      → IsFull p
      → p.retain ≡ true
      → RetainedFull store
      → RetainedFull (update_retain x.retained store p.topic_name p)
  unfolding update_retain
  update-RetainedFull store p full asks h t q found = ground (
    arith,
    h t q,
    found,
    full,
    asks,
    x.retained.get-insert store p.topic_name p t,
    bytes_eq_iff p.topic_name t,
  )
