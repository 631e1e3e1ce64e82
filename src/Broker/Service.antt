-- ===== src/Broker/Service.antt =====
-- examples/broker.rs: the service for the packets behind a CONNECT. `mqtt_id` is what its lock holds.
pub mod Cases
pub mod Keeps
pub mod Selection
pub mod Subscribing
pub mod Registering
pub mod Answers
use aqua.Base.{
  ℕ, ◌≡◌, Bool, true, false, ◌&&◌, ◌||◌, not, Option, none, some, is_some, is_empty, List, [], ◌∷◌,
  ◌++◌, map, if◌then◌else◌, unwrap_or, ◌==◌,
}
use aqua.Outcome.{Outcome, ok, err, panic, protocol_violation, ◌>>=◌, unwrap}
use aqua.Bytes.{Bytes}
use aqua.Topic.{bytes_eq}
use aqua.DashMap.{has}
use aqua.Property.{QoS, qos0, qos1, qos2}
use aqua.Packet.Publish.{Publish, is_qos0}
use aqua.Packet.Puback.{Puback}
use aqua.Packet.Pubrec as Pubrec
use aqua.Packet.Pubrel as Pubrel
use aqua.Packet.Pubcomp as Pubcomp
use aqua.Packet.Suback.{Suback, SubackReasonCode, from_qos}
use aqua.Packet.Subscribe.{Subscribe, SubscribeOption}
use aqua.Coder.ControlPacket.{
  ControlPacket, connect, disconnect, publish, no_operation, subscribe, suback, pingreq, pingresp,
  puback, pubrec, pubrel, pubcomp,
}
use aqua.Session.{
  SessionManager, add_staging_packet, fetch_packet, commit_packet, unregister_mqtt_id,
  get_protocol_version,
}
use aqua.Retain.{update_retain, remove_retain, check_retain}
use aqua.Connection.Responses.{Response, new, new_packets}
use aqua.Broker.TopicManager.{register}
use aqua.Broker.State.{Outside, Broker, Task, of_publish, of_pubrel}
use aqua.Broker.Delivery.{retain_message}

abbrev pub is_qos2 : QoS → Bool
is_qos2 qos0 = false
is_qos2 qos1 = false
is_qos2 qos2 = true

module _ (x : Outside) where
  abbrev pub Served : Type 0
  Served = Broker x × Outcome Response

  -- `get_protocol_version(..).unwrap_or(ProtocolVersion::new(0x04))`
  unfoldable pub version_or_4 : Broker x → Bytes → ℕ
  version_or_4 b mqtt_id = unwrap_or (get_protocol_version x.session b.manager mqtt_id) 4

  unfoldable pub serve_disconnect : Broker x → Bytes → Served
  serve_disconnect b mqtt_id = (
    if not (is_empty mqtt_id)
        then record b { manager = unregister_mqtt_id x.session b.manager mqtt_id }
        else b,
    ok (new no_operation),
  )

  -- The loop that registers each filter of a SUBSCRIBE, with the codes it pushes
  unfoldable pub register_loop :
      x.topics.Map → Bytes → List (Bytes × SubscribeOption) → x.topics.Map
  register_loop m mqtt_id [] = m
  register_loop m mqtt_id ((topic_filter, suboption) ∷ filters) =
      register_loop (register x.topics m topic_filter mqtt_id suboption) mqtt_id filters

  abbrev pub success_codes : Bytes → List (Bytes × SubscribeOption) → List SubackReasonCode
  success_codes mqtt_id filters =
      if not (is_empty mqtt_id) then map (λ f. from_qos f.1.qos) filters else []

  -- The packets gathered so far, the topics seen, and the manager that stages those of QoS 2
  pub record Gathered : Type 0 where
    pub packets : List Publish
    pub seen : List Bytes
    pub staging : SessionManager x.session

  -- One round of `for p in publishes`
  unfoldable pub gather_one : Publish → Gathered → Gathered
  gather_one p g = if has bytes_eq p.topic_name g.seen then g else record {
    packets = g.packets ++ (p ∷ []);
    seen = g.seen ++ (p.topic_name ∷ []);
    staging = if is_qos2 p.qos then add_staging_packet x.session g.staging p qos2 else g.staging;
  }

  unfoldable pub gather : List Publish → Gathered → Gathered
  unfolding gather_one
  gather [] g = g
  gather (p ∷ publishes) g = gather publishes (gather_one p g)

  -- `for (filter, _) in &subpacket.topic_filters`
  unfoldable pub gather_loop : x.retained.Map → List (Bytes × SubscribeOption) → Gathered → Gathered
  unfolding gather
  gather_loop store [] g = g
  gather_loop store ((topic_filter, suboption) ∷ filters) g =
      gather_loop store filters (gather (check_retain x.retained store topic_filter) g)

  abbrev pub suback_for : Subscribe → Bytes → ℕ → ControlPacket
  suback_for p mqtt_id version = suback (record {
    packet_id = p.packet_id;
    suback_properties = none;
    reason_codes = success_codes mqtt_id p.topic_filters;
    protocol_version = version;
  })

  unfoldable pub serve_subscribe : Broker x → Bytes → Subscribe → Served
  unfolding register_loop gather_loop new_packets
  serve_subscribe b mqtt_id p =
      let topic_map =
        if not (is_empty mqtt_id)
        then register_loop b.topic_map mqtt_id p.topic_filters
        else b.topic_map in
      let protocol_version = get_protocol_version x.session b.manager mqtt_id in
      let g =
        gather_loop b.store p.topic_filters
          (record { packets = []; seen = []; staging = b.manager }) in
      (
        record b { topic_map = topic_map; manager = g.staging },
        unwrap protocol_version >>= λ version.
            ok (new_packets (suback_for p mqtt_id version ∷ map publish g.packets)),
      )

  -- An empty payload takes away the retained message, where the message asks to be retained.
  unfoldable pub forget_retained : Broker x → Publish → Broker x
  forget_retained b p =
      if p.retain then record b { store = remove_retain x.retained b.store p.topic_name } else b

  unfoldable pub publish_qos2 : Broker x → Bytes → Publish → Served
  unfolding forget_retained version_or_4 new
  publish_qos2 b mqtt_id p =
      let b' =
        if p.payload_length == 0
        then forget_retained b p
        else record b { manager = add_staging_packet x.session b.manager p qos2 } in
      (
        b',
        unwrap p.packet_id >>= λ id. ok (
            new (
              pubrec (record {
                packet_id = id;
                reason_code = some Pubrec.success;
                pubrec_properties = none;
                protocol_version = version_or_4 b' mqtt_id;
              }))),
      )

  -- QoS 2 has returned before: `unreachable!()`
  abbrev pub publish_answer : QoS → Option ℕ → ℕ → Outcome Response
  publish_answer qos0 packet_id version = ok (new no_operation)
  publish_answer qos1 packet_id version = unwrap packet_id >>= λ id. ok (
      new (
        puback (record {
          reason_code = none;
          packet_id = id;
          puback_properties = none;
          protocol_version = version;
        })))
  publish_answer qos2 packet_id version = panic

  unfoldable pub publish_now : Broker x → Bytes → Publish → Served
  unfolding forget_retained version_or_4 new
  publish_now b mqtt_id p =
      let b' =
        if p.payload_length == 0
        then forget_retained b p
        else record b { tasks = b.tasks ++ (of_publish p ∷ []) } in
      (b', publish_answer p.qos p.packet_id (version_or_4 b' mqtt_id))

  unfoldable pub serve_publish : Broker x → Bytes → Publish → Served
  unfolding publish_qos2 publish_now
  serve_publish b mqtt_id pubpacket =
      let p = record pubpacket { protocol_version = version_or_4 b mqtt_id } in
      if is_qos2 p.qos && not (is_some p.packet_id)
      then (b, panic)
      else if not (is_some p.packet_id) && not (is_qos0 p.qos)
      then (b, err protocol_violation)
      else if is_qos2 p.qos
      then publish_qos2 b mqtt_id p
      else publish_now b mqtt_id p

  -- What becomes of a staged message that is released
  unfoldable pub release_staged : Broker x → Publish → ℕ → Broker x
  unfolding retain_message
  release_staged b p packet_id =
      if p.payload_length == 0 && p.retain
      then record b { store = remove_retain x.retained b.store p.topic_name }
      else let b' = retain_message x b p in
        record b' { tasks = b'.tasks ++ (of_pubrel p packet_id ∷ []) }

  unfoldable pub commit : Broker x → ℕ → Broker x
  commit b packet_id = record b { manager = (commit_packet x.session b.manager packet_id).0 }

  abbrev pub released : Broker x → ℕ → Outcome Publish → Broker x
  released b packet_id (ok p) = commit (release_staged b p packet_id) packet_id
  released b packet_id (err e) = b
  released b packet_id panic = b
  released b packet_id Outcome.out_of_fuel = b

  unfoldable pub serve_pubrel : Broker x → Bytes → ℕ → Served
  unfolding version_or_4 release_staged commit new
  serve_pubrel b mqtt_id packet_id = (
    released b packet_id (fetch_packet x.session b.manager packet_id),
    ok (
        new (
          pubcomp (record {
            packet_id = packet_id;
            pubcomp_reason = some Pubcomp.success;
            pubcomp_properties = none;
            protocol_version = version_or_4 b mqtt_id;
          }))),
  )

  abbrev pub pubrel_for : ℕ → ℕ → ControlPacket
  pubrel_for packet_id version = pubrel (record {
    packet_id = packet_id;
    pubrel_properties = none;
    reason_code = none;
    protocol_version = version;
  })

  unfoldable pub serve : Broker x → Bytes → ControlPacket → Served
  unfolding serve_disconnect serve_subscribe serve_publish serve_pubrel commit version_or_4 new
  serve b mqtt_id (disconnect p) = serve_disconnect b mqtt_id
  serve b mqtt_id pingreq = (b, ok (new pingresp))
  serve b mqtt_id (subscribe p) = serve_subscribe b mqtt_id p
  serve b mqtt_id (publish p) = serve_publish b mqtt_id p
  serve b mqtt_id (connect p) = (b, err protocol_violation)
  serve b mqtt_id (pubrel p) = serve_pubrel b mqtt_id p.packet_id
  serve b mqtt_id (pubrec p) = (b, ok (new (pubrel_for p.packet_id (version_or_4 b mqtt_id))))
  serve b mqtt_id (pubcomp p) = (commit b p.packet_id, ok (new no_operation))
  serve b mqtt_id packet = (b, ok (new no_operation))
