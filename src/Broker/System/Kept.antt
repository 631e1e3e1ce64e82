-- ===== src/Broker/System/Kept.antt =====
-- The requests and the tasks keep what holds of the messages.
use aqua.Base.{
  ℕ, ◌≡◌, refl, ◌&&◌, is_empty, List, [], ◌∷◌, ◌++◌, All-append, ◌==◌, arith, Bool-cases, if_cases,
  Option-cases, inl, inr,
}
use aqua.Outcome.{Outcome, ok, err, panic, out_of_fuel}
use aqua.Bytes.{Bytes}
use aqua.Packet.Publish.{Publish}
use aqua.Coder.ControlPacket.{
  ControlPacket, connect, disconnect, connack, publish, undefined, no_operation,
  disconnectcp_operation, subscribe, suback, pingreq, pingresp, unsubscribe, unsuback, puback,
  pubrec, pubrel, pubcomp,
}
use aqua.Session.{fetch_packet}
use aqua.Broker.TopicManager.{Subscription, subed_id}
use aqua.Broker.State.{Outside, Broker, Task, of_publish, of_pubrel}
use aqua.Broker.Delivery.{retain_message, send_one, publish_loop, pubrel_loop, run_task}
use aqua.Broker.Delivery.Received.{message_of}
use aqua.Broker.Service.{
  serve_disconnect, serve_subscribe, forget_retained, publish_qos2, publish_now, serve_publish,
  release_staged, commit, released, serve_pubrel, serve,
}
use aqua.Broker.Service.Cases.{versioned, serve_publish_cases}
use aqua.Broker.System.Messages.{
  IsFull, StagedFull, RetainedFull, TasksFull, remove-RetainedFull, update-RetainedFull,
}

module _ (x : Outside) where
  -- What is retained, and what the spawned tasks deliver
  abbrev pub Kept : Broker x → Type 0
  Kept b = RetainedFull x b.store × TasksFull x b.tasks

  retain_message-Kept :
      (b : Broker x) (p : Publish) → IsFull p → Kept b → Kept (retain_message x b p)
  unfolding retain_message
  retain_message-Kept b p full k =
      if_cases Kept p.retain _ b (λ asks. (update-RetainedFull x b.store p full asks k.0, k.1))
        (λ quiet. k)

  forget_retained-Kept : (b : Broker x) (p : Publish) → Kept b → Kept (forget_retained x b p)
  unfolding forget_retained
  forget_retained-Kept b p k =
      if_cases Kept p.retain _ b (λ asks. (remove-RetainedFull x b.store p.topic_name k.0, k.1))
        (λ quiet. k)

  spawn-Kept :
      (b : Broker x) (task : Task)
      → IsFull (message_of x task)
      → Kept b
      → Kept (record b { tasks = b.tasks ++ (task ∷ []) })
  spawn-Kept b task full k =
      (k.0, All-append (λ t. IsFull (message_of x t)) b.tasks (task ∷ []) k.1 (full, tt))

  publish_qos2-Kept :
      (b : Broker x) (name : Bytes) (p : Publish) → Kept b → Kept (publish_qos2 x b name p).0
  unfolding publish_qos2
  publish_qos2-Kept b name p k =
      if_cases Kept (p.payload_length == 0) (forget_retained x b p) _
        (λ gone. forget_retained-Kept b p k) (λ full. k)

  publish_now-Kept :
      (b : Broker x) (name : Bytes) (p : Publish) → Kept b → Kept (publish_now x b name p).0
  unfolding publish_now
  publish_now-Kept b name p k =
      if_cases Kept (p.payload_length == 0) (forget_retained x b p) _
        (λ gone. forget_retained-Kept b p k) (λ full. spawn-Kept b (of_publish p) full k)

  serve_publish-Kept :
      (b : Broker x) (name : Bytes) (p : Publish) → Kept b → Kept (serve_publish x b name p).0
  serve_publish-Kept b name pubpacket k =
      serve_publish_cases x (λ r. Kept r.0) b name pubpacket (λ two missing. k) (λ one missing. k)
        (λ two there. publish_qos2-Kept b name (versioned x b name pubpacket) k)
        (λ other there. publish_now-Kept b name (versioned x b name pubpacket) k)

  release_staged-Kept :
      (b : Broker x) (p : Publish) (id : ℕ) → IsFull p → Kept b → Kept (release_staged x b p id)
  unfolding release_staged
  release_staged-Kept b p id full k =
      if_cases Kept (p.payload_length == 0 && p.retain) _ _
        (λ gone. absurd (ground (arith, gone, full)))
        (λ stays.
          spawn-Kept (retain_message x b p) (of_pubrel p id) full (retain_message-Kept b p full k))

  fetch_packet-IsFull :
      (b : Broker x) (id : ℕ) (p : Publish)
      → StagedFull x b.manager
      → fetch_packet x.session b.manager id ≡ ok p
      → IsFull p
  unfolding fetch_packet
  fetch_packet-IsFull b id p h e = elim (Option-cases (x.session.staged.get b.manager.qos_tmp id)) [
    | inl gone ↦ absurd (ground (arith, gone, e))
    | inr (entry, found) ↦ ground (arith, found, e, h id entry)
  ]

  released-Kept :
      (b : Broker x) (id : ℕ) (found : Outcome Publish)
      → ((p : Publish) → found ≡ ok p → IsFull p)
      → Kept b
      → Kept (released x b id found)
  unfolding commit
  released-Kept b id (ok p) full k = release_staged-Kept b p id (full p refl) k
  released-Kept b id (err e) full k = k
  released-Kept b id panic full k = k
  released-Kept b id out_of_fuel full k = k

  pub serve-Kept :
      (b : Broker x) (name : Bytes) (packet : ControlPacket)
      → StagedFull x b.manager
      → Kept b
      → Kept (serve x b name packet).0
  unfolding serve serve_disconnect serve_subscribe serve_pubrel commit
  serve-Kept b name (disconnect p) h k = elim (Bool-cases (is_empty name)) [
    | inl unnamed ↦ rw unnamed k
    | inr named ↦ rw named k
  ]
  serve-Kept b name (subscribe p) h k = k
  serve-Kept b name (publish p) h k = serve_publish-Kept b name p k
  serve-Kept b name (pubrel p) h k =
      released-Kept b p.packet_id (fetch_packet x.session b.manager p.packet_id)
        (λ q. fetch_packet-IsFull b p.packet_id q h) k
  serve-Kept b name (pubcomp p) h k = k
  serve-Kept b name pingreq h k = k
  serve-Kept b name (connect p) h k = k
  serve-Kept b name (pubrec p) h k = k
  serve-Kept b name (connack p) h k = k
  serve-Kept b name undefined h k = k
  serve-Kept b name no_operation h k = k
  serve-Kept b name disconnectcp_operation h k = k
  serve-Kept b name (suback p) h k = k
  serve-Kept b name pingresp h k = k
  serve-Kept b name (unsubscribe p) h k = k
  serve-Kept b name (unsuback p) h k = k
  serve-Kept b name (puback p) h k = k

  publish_loop-Kept :
      (p : Publish) (subs : List Subscription) (b : Broker x)
      → Kept b
      → Kept (publish_loop x p subs b).0
  unfolding publish_loop send_one
  publish_loop-Kept p [] b k = k
  publish_loop-Kept p (s ∷ subs) b k = publish_loop-Kept p subs _ k

  pubrel_loop-Kept :
      (p : Publish) (id : ℕ) (subs : List Subscription) (b : Broker x)
      → Kept b
      → Kept (pubrel_loop x p id subs b).0
  unfolding pubrel_loop send_one
  pubrel_loop-Kept p id [] b k = k
  pubrel_loop-Kept p id (s ∷ subs) b k = pubrel_loop-Kept p id subs _ k

  pub run_task-Kept :
      (task : Task) (b : Broker x)
      → IsFull (message_of x task)
      → Kept b
      → Kept (run_task x task b).0
  unfolding run_task
  run_task-Kept (of_publish p) b full k =
      publish_loop-Kept p (subed_id x.topics b.topic_map p.topic_name) (retain_message x b p)
        (retain_message-Kept b p full k)
  run_task-Kept (of_pubrel p id) b full k =
      pubrel_loop-Kept p id (subed_id x.topics b.topic_map p.topic_name) b k
