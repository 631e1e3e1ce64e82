-- ===== src/Broker/Delivery/Reported.antt =====
-- What a delivery prints, and what that says of the channels.
use aqua.Base.{
  ℕ, zero, suc, ◌≡◌, ◌≢◌, refl, sym, ap, ◌∙◌, some, List, [], ◌∷◌, ◌++◌, length, get_elem?, take,
  arith, subst,
}
use aqua.Bytes.{Bytes}
use aqua.Packet.Publish.{Publish}
use aqua.Coder.ControlPacket.{ControlPacket, publish}
use aqua.Channel.{SendResult, sent, full, closed}
use aqua.Session.Routes.{IsRoute, send_routed}
use aqua.Retain.Laws.{IsIn}
use aqua.Broker.TopicManager.{Subscription, subed_id}
use aqua.Broker.State.{Outside, Broker, Task, of_publish, of_pubrel}
use aqua.Broker.Delivery.{
  Line, delivering, error, line_for, delivery_msg, fill_id, send_one, publish_loop, pubrel_loop,
  retain_message, run_task,
}
use aqua.Broker.Delivery.Received.{
  IsDeliveryOf, Extended, delivery_msg-IsDeliveryOf, fill_id-IsDeliveryOf, queue, message_of,
  publish_loop-queue, pubrel_loop-queue,
}

get_elem?-append :
    (xs ys : List ControlPacket) (i : ℕ) (pkt : ControlPacket)
    → get_elem? xs i ≡ some pkt
    → get_elem? (xs ++ ys) i ≡ some pkt
get_elem?-append [] ys i pkt h = cc
get_elem?-append (x ∷ xs) ys zero pkt h = h
get_elem?-append (x ∷ xs) ys (suc i) pkt h = get_elem?-append xs ys i pkt h

get_elem?-last :
    (xs : List ControlPacket) (pkt : ControlPacket)
    → get_elem? (xs ++ (pkt ∷ [])) (length xs) ≡ some pkt
get_elem?-last [] pkt = refl
get_elem?-last (x ∷ xs) pkt = get_elem?-last xs pkt

IsIn-Extended :
    (Holds : ControlPacket → Type 0) (before after : List ControlPacket) (pkt : ControlPacket)
    → IsIn pkt before
    → Extended Holds before after
    → IsIn pkt after
IsIn-Extended Holds before after pkt (i, h) (extra, e, all) =
    (i, rw e (get_elem?-append before extra i pkt h))

abbrev Anything : ControlPacket → Type 0
Anything pkt = Unit

module _ (x : Outside) where
  -- What became of the message for one subscription, whose client has the sender `tx`, when it was sent in
  -- the state `ch` of the channels, and the client's channel holds `q` in the end: its line says that
  -- it was delivered, the channel took it, and it stands in the channel; or the line says that it was
  -- not, and the channel did not take it.
  pub data Attempt (p : Publish) (s : Subscription) (tx : x.session.mpsc.Sender)
      (ch : x.session.mpsc.Channels) (q : List ControlPacket) : Line → Type 0 where
    reached :
        (msg : Publish)
        → IsDeliveryOf p s.1.qos msg
        → (x.session.mpsc.try_send ch tx (publish msg)).1 ≡ sent
        → IsIn (publish msg) q
        → Attempt p s tx ch q (delivering s.0)
    failed :
        (msg : Publish)
        → IsDeliveryOf p s.1.qos msg
        → (x.session.mpsc.try_send ch tx (publish msg)).1 ≢ sent
        → Attempt p s tx ch q (error s.0)

  Attempt-Extended :
      {p : Publish} {s : Subscription} {tx : x.session.mpsc.Sender} {ch : x.session.mpsc.Channels}
      {q q' : List ControlPacket} {line : Line}
      → Extended Anything q q'
      → Attempt p s tx ch q line
      → Attempt p s tx ch q' line
  Attempt-Extended {q} {q'} e (reached msg d took there) =
      reached msg d took (IsIn-Extended Anything q q' (publish msg) there e)
  Attempt-Extended e (failed msg d refused) = failed msg d refused

  sent-Attempt :
      (p msg : Publish) (s : Subscription) (tx : x.session.mpsc.Sender)
      (c c' : x.session.mpsc.Channels) (r : SendResult)
      → IsDeliveryOf p s.1.qos msg
      → x.session.mpsc.try_send c tx (publish msg) ≡ (c', r)
      → Attempt p s tx c (x.session.mpsc.queue c' tx) (line_for s.0 r)
  sent-Attempt p msg s tx c c' sent d e =
      let took : (x.session.mpsc.try_send c tx (publish msg)).1 ≡ sent = ap (λ r. r.1) e in
      let at : x.session.mpsc.queue c' tx ≡ x.session.mpsc.queue c tx ++ (publish msg ∷ []) =
        ap (λ r. x.session.mpsc.queue r.0 tx) (sym e)
        ∙ x.session.mpsc.try_send-sent c tx (publish msg) took in
      reached msg d took (
        length (x.session.mpsc.queue c tx),
        rw at (get_elem?-last (x.session.mpsc.queue c tx) (publish msg)),
      )
  sent-Attempt p msg s tx c c' (full pkt) d e = failed msg d (λ h. cc (h, e))
  sent-Attempt p msg s tx c c' (closed pkt) d e = failed msg d (λ h. cc (h, e))

  send_one-Attempt :
      (b : Broker x) (p msg : Publish) (s : Subscription) (tx : x.session.mpsc.Sender)
      → IsDeliveryOf p s.1.qos msg
      → IsRoute x.session b.manager s.0 tx
      → Attempt p s tx b.channels (queue x (send_one x b s.0 msg).0 tx) (send_one x b s.0 msg).1
  unfolding send_one
  send_one-Attempt b p msg s tx d route =
      rw (send_routed x.session b.manager b.channels s.0 (publish msg) tx route) (
        sent-Attempt p msg s tx b.channels (x.session.mpsc.try_send b.channels tx (publish msg)).0
          (x.session.mpsc.try_send b.channels tx (publish msg)).1 d refl)

  -- A line stands at the place of its subscription.
  abbrev pub AttemptAt :
      Publish
      → Subscription
      → x.session.mpsc.Sender
      → x.session.mpsc.Channels
      → List ControlPacket
      → List Line
      → ℕ
      → Type 0
  AttemptAt p s tx ch q lines i =
      (line : Line) × (get_elem? lines i ≡ some line) × Attempt p s tx ch q line

  publish_loop-AttemptAt :
      (p : Publish) (subs : List Subscription) (b : Broker x) (i : ℕ) (s : Subscription)
      (tx : x.session.mpsc.Sender)
      → get_elem? subs i ≡ some s
      → IsRoute x.session b.manager s.0 tx
      → AttemptAt p s tx
          (publish_loop x p (take i subs) b).0.channels
          (queue x (publish_loop x p subs b).0 tx)
          (publish_loop x p subs b).1
          i
  unfolding publish_loop send_one
  publish_loop-AttemptAt p [] b i s tx h route = cc
  publish_loop-AttemptAt p ((c, option) ∷ subs) b zero s tx h route =
      let filled = fill_id x b.rng (delivery_msg p p.packet_id option.qos) in
      let start = record b { rng = filled.0 } in
      let done = send_one x start c filled.1 in
      let same : (c, option) ≡ s = cc in
      subst
        (λ s'.
          AttemptAt p s' tx b.channels (queue x (publish_loop x p subs done.0).0 tx)
            (done.1 ∷ (publish_loop x p subs done.0).1) zero)
        same
        (
          done.1,
          refl,
          Attempt-Extended (publish_loop-queue x Anything p subs done.0 tx (λ s'' m l d. tt)) (
              send_one-Attempt start p filled.1 (c, option) tx
                (fill_id-IsDeliveryOf x b.rng p p.packet_id option.qos)
                (subst (λ s'. IsRoute x.session b.manager s'.0 tx) (sym same) route)),
        )
  publish_loop-AttemptAt p ((c, option) ∷ subs) b (suc i) s tx h route =
      let filled = fill_id x b.rng (delivery_msg p p.packet_id option.qos) in
      let done = send_one x (record b { rng = filled.0 }) c filled.1 in
      publish_loop-AttemptAt p subs done.0 i s tx h route

  pubrel_loop-AttemptAt :
      (p : Publish) (id : ℕ) (subs : List Subscription) (b : Broker x) (i : ℕ) (s : Subscription)
      (tx : x.session.mpsc.Sender)
      → get_elem? subs i ≡ some s
      → IsRoute x.session b.manager s.0 tx
      → AttemptAt p s tx
          (pubrel_loop x p id (take i subs) b).0.channels
          (queue x (pubrel_loop x p id subs b).0 tx)
          (pubrel_loop x p id subs b).1
          i
  unfolding pubrel_loop send_one
  pubrel_loop-AttemptAt p id [] b i s tx h route = cc
  pubrel_loop-AttemptAt p id ((c, option) ∷ subs) b zero s tx h route =
      let msg = delivery_msg p (some id) option.qos in
      let done = send_one x b c msg in
      let same : (c, option) ≡ s = cc in
      subst
        (λ s'.
          AttemptAt p s' tx b.channels (queue x (pubrel_loop x p id subs done.0).0 tx)
            (done.1 ∷ (pubrel_loop x p id subs done.0).1) zero)
        same
        (
          done.1,
          refl,
          Attempt-Extended (pubrel_loop-queue x Anything p id subs done.0 tx (λ s'' m l d. tt)) (
              send_one-Attempt b p msg (c, option) tx (delivery_msg-IsDeliveryOf p id option.qos)
                (subst (λ s'. IsRoute x.session b.manager s'.0 tx) (sym same) route)),
        )
  pubrel_loop-AttemptAt p id ((c, option) ∷ subs) b (suc i) s tx h route =
      let done = send_one x b c (delivery_msg p (some id) option.qos) in
      pubrel_loop-AttemptAt p id subs done.0 i s tx h route

  retained-IsRoute :
      (b : Broker x) (p : Publish) (name : Bytes) (tx : x.session.mpsc.Sender)
      → IsRoute x.session b.manager name tx
      → IsRoute x.session (retain_message x b p).manager name tx
  unfolding retain_message
  retained-IsRoute b p name tx route = ground arith

  -- The channels when a delivery comes to the subscription at `i`: what the sends before it have left
  abbrev pub channels_before : Task → Broker x → ℕ → x.session.mpsc.Channels
  channels_before (of_publish p) b i =
      (publish_loop x p (take i (subed_id x.topics b.topic_map p.topic_name))
        (retain_message x b p)).0.channels
  channels_before (of_pubrel p id) b i =
      (pubrel_loop x p id (take i (subed_id x.topics b.topic_map p.topic_name)) b).0.channels

  -- For each subscription to a filter that matches the topic, whose name leads to a client's sender, a
  -- delivery prints a line at the place of the subscription. The line says that the message is
  -- delivered, the client's channel took it when the delivery came to the subscription, and it stands
  -- there when the task has ended; or the line says that it is not delivered, and the channel did not
  -- take it then. Nothing is said of a subscription whose name leads nowhere.
  pub run_task-AttemptAt :
      (b : Broker x) (task : Task) (i : ℕ) (s : Subscription) (tx : x.session.mpsc.Sender)
      → get_elem? (subed_id x.topics b.topic_map (message_of x task).topic_name) i ≡ some s
      → IsRoute x.session b.manager s.0 tx
      → AttemptAt
          (message_of x task)
          s
          tx
          (channels_before task b i)
          (queue x (run_task x task b).0 tx)
          (run_task x task b).1
          i
  unfolding run_task
  run_task-AttemptAt b (of_publish p) i s tx h route =
      publish_loop-AttemptAt p (subed_id x.topics b.topic_map p.topic_name) (retain_message x b p) i
        s tx h (retained-IsRoute b p s.0 tx route)
  run_task-AttemptAt b (of_pubrel p id) i s tx h route =
      pubrel_loop-AttemptAt p id (subed_id x.topics b.topic_map p.topic_name) b i s tx h route
