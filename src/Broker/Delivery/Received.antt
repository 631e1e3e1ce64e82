-- ===== src/Broker/Delivery/Received.antt =====
-- What a delivery puts into the channels of the clients.
use aqua.Base.{
  ℕ, ◌≡◌, inl, inr, refl, sym, ap, ◌∙◌, not, Option, none, some, is_some, List, [], ◌∷◌, ◌++◌,
  append-nil, append_assoc, All, All-append, arith,
}
use aqua.Bytes.{Bytes}
use aqua.Property.{QoS, qos0, qos1, qos2}
use aqua.Packet.Publish.{Publish, is_qos0}
use aqua.Coder.ControlPacket.{ControlPacket, publish}
use aqua.Session.Routes.{send_cases}
use aqua.Broker.TopicManager.{Subscription, subed_id}
use aqua.Broker.TopicManager.Listed.{Listed, here, further}
use aqua.Broker.TopicManager.Subscribers.{IsSubscribed, subed_id-IsSubscribed}
use aqua.Broker.State.{Outside, Broker, Task, of_publish, of_pubrel}
use aqua.Broker.Delivery.{
  delivery_msg, fill_id, send_one, publish_loop, pubrel_loop, retain_message, run_task,
}

-- `msg` is the message `p` as it is sent for a subscription with the quality of service `qos`.
pub record IsDeliveryOf (p : Publish) (qos : QoS) (msg : Publish) : Type 0 where
  pub same_topic : msg.topic_name ≡ p.topic_name
  pub same_payload : msg.payload_data ≡ p.payload_data
  pub granted_qos : msg.qos ≡ qos
  pub has_id : is_some msg.packet_id ≡ not (is_qos0 qos)

-- A queue that has grown, by packets for which `Holds`.
abbrev pub Extended : (ControlPacket → Type 0) → List ControlPacket → List ControlPacket → Type 0
Extended Holds before after =
    (extra : List ControlPacket) × (after ≡ before ++ extra) × All Holds extra

pub Extended-refl : (Holds : ControlPacket → Type 0) (q : List ControlPacket) → Extended Holds q q
Extended-refl Holds q = ([], sym (append-nil q), tt)

pub Extended-trans :
    (Holds : ControlPacket → Type 0) (q r s : List ControlPacket)
    → Extended Holds q r
    → Extended Holds r s
    → Extended Holds q s
Extended-trans Holds q r s (e, pe, he) (f, pf, hf) =
    (e ++ f, pf ∙ ap (λ l. l ++ f) pe ∙ append_assoc q e f, All-append Holds e f he hf)

pub delivery_msg-IsDeliveryOf :
    (p : Publish) (packet_id : ℕ) (qos : QoS)
    → IsDeliveryOf p qos (delivery_msg p (some packet_id) qos)
unfolding delivery_msg
delivery_msg-IsDeliveryOf p id qos0 = record {
  same_topic = refl;
  same_payload = refl;
  granted_qos = refl;
  has_id = refl;
}
delivery_msg-IsDeliveryOf p id qos1 = record {
  same_topic = refl;
  same_payload = refl;
  granted_qos = refl;
  has_id = refl;
}
delivery_msg-IsDeliveryOf p id qos2 = record {
  same_topic = refl;
  same_payload = refl;
  granted_qos = refl;
  has_id = refl;
}

module _ (x : Outside) where
  -- With a random id where one is missing, the message has an id exactly where it needs one.
  pub fill_id-IsDeliveryOf :
      (g : x.Rng) (p : Publish) (packet_id : Option ℕ) (qos : QoS)
      → IsDeliveryOf p qos (fill_id x g (delivery_msg p packet_id qos)).1
  unfolding fill_id delivery_msg
  fill_id-IsDeliveryOf g p id qos0 = record {
    same_topic = refl;
    same_payload = refl;
    granted_qos = refl;
    has_id = refl;
  }
  fill_id-IsDeliveryOf g p none qos1 = record {
    same_topic = refl;
    same_payload = refl;
    granted_qos = refl;
    has_id = refl;
  }
  fill_id-IsDeliveryOf g p (some id) qos1 = record {
    same_topic = refl;
    same_payload = refl;
    granted_qos = refl;
    has_id = refl;
  }
  fill_id-IsDeliveryOf g p none qos2 = record {
    same_topic = refl;
    same_payload = refl;
    granted_qos = refl;
    has_id = refl;
  }
  fill_id-IsDeliveryOf g p (some id) qos2 = record {
    same_topic = refl;
    same_payload = refl;
    granted_qos = refl;
    has_id = refl;
  }

  abbrev pub queue : Broker x → x.session.mpsc.Sender → List ControlPacket
  queue b t = x.session.mpsc.queue b.channels t

  -- One send puts its message at the end of a queue, or leaves it.
  pub send_one-queue :
      (Holds : ControlPacket → Type 0) (b : Broker x) (sub_id : Bytes) (msg : Publish)
      (t : x.session.mpsc.Sender)
      → Holds (publish msg)
      → Extended Holds (queue b t) (queue (send_one x b sub_id msg).0 t)
  unfolding send_one
  send_one-queue Holds b i msg t h =
      elim (send_cases x.session b.manager b.channels i (publish msg)) [
        | inl unnamed ↦ rw unnamed (Extended-refl Holds (queue b t))
        | inr (inl left) ↦ rw left (Extended-refl Holds (queue b t))
        | inr (inr (tx, r, e)) ↦
            rw e (elim (x.session.mpsc.try_send-queues b.channels tx (publish msg) t) [
              | inl same ↦ ([], same ∙ sym (append-nil (queue b t)), tt)
              | inr grown ↦ (publish msg ∷ [], grown, (h, tt))
            ])
      ]

  abbrev HoldsFor : (ControlPacket → Type 0) → Publish → List Subscription → Type 0
  HoldsFor Holds p subs =
      (s : Subscription) (msg : Publish)
      → Listed s subs
      → IsDeliveryOf p s.1.qos msg
      → Holds (publish msg)

  pub publish_loop-queue :
      (Holds : ControlPacket → Type 0) (p : Publish) (subs : List Subscription) (b : Broker x)
      (t : x.session.mpsc.Sender)
      → HoldsFor Holds p subs
      → Extended Holds (queue b t) (queue (publish_loop x p subs b).0 t)
  unfolding publish_loop
  publish_loop-queue Holds p [] b t h = Extended-refl Holds (queue b t)
  publish_loop-queue Holds p ((i, option) ∷ subs) b t h =
      let filled = fill_id x b.rng (delivery_msg p p.packet_id option.qos) in
      let start = record b { rng = filled.0 } in
      let done = (send_one x start i filled.1).0 in
      Extended-trans Holds (queue b t) (queue done t) (queue (publish_loop x p subs done).0 t)
        (send_one-queue Holds start i filled.1 t
          (h (i, option) filled.1 here (fill_id-IsDeliveryOf b.rng p p.packet_id option.qos)))
        (publish_loop-queue Holds p subs done t (λ s msg l. h s msg (further l)))

  pub pubrel_loop-queue :
      (Holds : ControlPacket → Type 0) (p : Publish) (id : ℕ) (subs : List Subscription)
      (b : Broker x) (t : x.session.mpsc.Sender)
      → HoldsFor Holds p subs
      → Extended Holds (queue b t) (queue (pubrel_loop x p id subs b).0 t)
  unfolding pubrel_loop
  pubrel_loop-queue Holds p id [] b t h = Extended-refl Holds (queue b t)
  pubrel_loop-queue Holds p id ((i, option) ∷ subs) b t h =
      let msg = delivery_msg p (some id) option.qos in
      let done = (send_one x b i msg).0 in
      Extended-trans Holds (queue b t) (queue done t) (queue (pubrel_loop x p id subs done).0 t)
        (send_one-queue Holds b i msg t
          (h (i, option) msg here (delivery_msg-IsDeliveryOf p id option.qos)))
        (pubrel_loop-queue Holds p id subs done t (λ s m l. h s m (further l)))

  abbrev pub message_of : Task → Publish
  message_of (of_publish p) = p
  message_of (of_pubrel p id) = p

  -- The packet is the message of the task, for a subscription to a filter that matches its topic.
  abbrev pub IsForSubscriber : Broker x → Publish → ControlPacket → Type 0
  IsForSubscriber b p pkt =
      (s : Subscription) × (msg : Publish) × IsSubscribed x.topics b.topic_map p.topic_name s
      × IsDeliveryOf p s.1.qos msg
      × (pkt ≡ publish msg)

  for_subscribers :
      (b : Broker x) (p : Publish)
      → HoldsFor (IsForSubscriber b p) p (subed_id x.topics b.topic_map p.topic_name)
  for_subscribers b p s msg l d =
      (s, msg, (subed_id-IsSubscribed x.topics b.topic_map p.topic_name s).0 l, d, refl)

  retained_queue :
      (b : Broker x) (p : Publish) (t : x.session.mpsc.Sender)
      → queue (retain_message x b p) t ≡ queue b t
  unfolding retain_message
  retained_queue b p t = ground arith

  -- A delivery takes nothing from a channel, and puts behind what it held only the message that is
  -- delivered, for subscriptions to filters that match its topic: with its payload, the quality of
  -- service of the subscription, and a packet id unless that is QoS 0.
  pub run_task-IsForSubscriber :
      (b : Broker x) (task : Task) (t : x.session.mpsc.Sender)
      → Extended (IsForSubscriber b (message_of task)) (queue b t) (queue (run_task x task b).0 t)
  unfolding run_task
  run_task-IsForSubscriber b (of_publish p) t = rw (← retained_queue b p t) (
      publish_loop-queue (IsForSubscriber b p) p (subed_id x.topics b.topic_map p.topic_name)
        (retain_message x b p) t (for_subscribers b p))
  run_task-IsForSubscriber b (of_pubrel p id) t =
      pubrel_loop-queue (IsForSubscriber b p) p id (subed_id x.topics b.topic_map p.topic_name) b t
        (for_subscribers b p)
