-- ===== src/Broker/Delivery.antt =====
-- examples/broker.rs: the tasks that deliver a message to its subscribers.
pub mod Received
pub mod Reported
use aqua.Base.{
  ℕ, ◌≡◌, Bool, true, false, ◌&&◌, not, Option, none, some, is_some, List, [], ◌∷◌, if◌then◌else◌,
}
use aqua.Bytes.{Bytes}
use aqua.Property.{QoS, qos0, qos1, qos2}
use aqua.Packet.Publish.{Publish, is_qos0}
use aqua.Coder.ControlPacket.{publish}
use aqua.Channel.{SendResult, sent, full, closed}
use aqua.Session.{send_by_mqtt_id}
use aqua.Retain.{update_retain}
use aqua.Broker.TopicManager.{Subscription, subed_id}
use aqua.Broker.State.{Outside, Broker, Task, of_publish, of_pubrel}

-- The line that is printed for each subscription
pub data Line : Type 0 where
  delivering error : Bytes → Line

abbrev pub line_for : Bytes → SendResult → Line
line_for sub_id sent = delivering sub_id
line_for sub_id (full pkt) = error sub_id
line_for sub_id (closed pkt) = error sub_id

-- `delivery_msg`, with the QoS of the subscription and a packet id unless that is QoS 0
unfoldable pub delivery_msg : Publish → Option ℕ → QoS → Publish
delivery_msg p packet_id qos = record p {
  qos = qos;
  packet_id = if is_qos0 qos then none else packet_id;
}

module _ (x : Outside) where
  -- A random packet id, where the message has none and the subscription needs one
  unfoldable pub fill_id : x.Rng → Publish → x.Rng × Publish
  fill_id g msg =
      if not (is_some msg.packet_id) && not (is_qos0 msg.qos)
      then ((x.random g).1, record msg { packet_id = some (x.random g).0 })
      else (g, msg)

  -- One `send_by_mqtt_id`, with what is printed for it
  unfoldable pub send_one : Broker x → Bytes → Publish → Broker x × Line
  send_one b sub_id msg =
      let r = send_by_mqtt_id x.session b.manager b.channels sub_id (publish msg) in
      (record b { channels = r.0 }, line_for sub_id r.1)

  unfoldable pub publish_loop : Publish → List Subscription → Broker x → Broker x × List Line
  unfolding delivery_msg fill_id send_one
  publish_loop p [] b = (b, [])
  publish_loop p ((sub_id, option) ∷ subs) b =
      let filled = fill_id b.rng (delivery_msg p p.packet_id option.qos) in
      let done = send_one (record b { rng = filled.0 }) sub_id filled.1 in
      let rest = publish_loop p subs done.0 in (rest.0, done.1 ∷ rest.1)

  unfoldable pub pubrel_loop : Publish → ℕ → List Subscription → Broker x → Broker x × List Line
  unfolding delivery_msg send_one
  pubrel_loop p packet_id [] b = (b, [])
  pubrel_loop p packet_id ((sub_id, option) ∷ subs) b =
      let done = send_one b sub_id (delivery_msg p (some packet_id) option.qos) in
      let rest = pubrel_loop p packet_id subs done.0 in (rest.0, done.1 ∷ rest.1)

  -- The message is retained first, if it asks for it.
  unfoldable pub retain_message : Broker x → Publish → Broker x
  retain_message b p =
      if p.retain then record b { store = update_retain x.retained b.store p.topic_name p } else b

  -- A task runs to its end, and gives what it prints.
  unfoldable pub run_task : Task → Broker x → Broker x × List Line
  unfolding publish_loop pubrel_loop retain_message
  run_task (of_publish p) b =
      publish_loop p (subed_id x.topics b.topic_map p.topic_name) (retain_message b p)
  run_task (of_pubrel p packet_id) b =
      pubrel_loop p packet_id (subed_id x.topics b.topic_map p.topic_name) b
