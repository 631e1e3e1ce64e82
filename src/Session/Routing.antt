-- ===== src/Session/Routing.antt =====
-- To whom a session manager sends.
use aqua.Base.{ℕ, ◌≡◌, refl, false, none, some, arith, Option-cases, inl, inr}
use aqua.Bytes.{Bytes}
use aqua.Topic.Matching.{bytes_eq_iff, bytes_eq_refl}
use aqua.Property.{QoS}
use aqua.Packet.Publish.{Publish}
use aqua.Coder.ControlPacket.{ControlPacket}
use aqua.Channel.{sent, closed}
use aqua.Session.{
  Backend, SessionManager, new, add_staging_packet, commit_packet, register_client_id,
  unregister_client_id, send, send_by_client_id, send_by_mqtt_id, register_mqtt_id,
  unregister_mqtt_id, get_mqtt_id, set_protocol_version,
}

module _ (k : Backend) where
  -- The client that a name leads to answers to that name.
  abbrev pub IsConsistent : SessionManager k → Type 0
  IsConsistent m =
      (mqtt_id : Bytes) (client_id : k.Uuid)
      → k.mqtt_ids.get m.by_mqtt_id mqtt_id ≡ some client_id
      → get_mqtt_id k m client_id ≡ some mqtt_id

  -- One call of the session manager that changes it. A client takes a name once, with its CONNECT.
  pub data Step : SessionManager k → SessionManager k → Type 0 where
    stage :
        {m : SessionManager k} (pkt : Publish) (qos : QoS) → Step m (add_staging_packet k m pkt qos)
    commit : {m : SessionManager k} (pid : ℕ) → Step m (commit_packet k m pid).0
    open_client :
        {m : SessionManager k} (client_id : k.Uuid) (tx : k.mpsc.Sender)
        → Step m (register_client_id k m client_id tx)
    close_client :
        {m : SessionManager k} (client_id : k.Uuid) → Step m (unregister_client_id k m client_id)
    take_name :
        {m : SessionManager k} (mqtt_id : Bytes) (client_id : k.Uuid)
        → get_mqtt_id k m client_id ≡ none
        → Step m (register_mqtt_id k m mqtt_id client_id)
    drop_name : {m : SessionManager k} (mqtt_id : Bytes) → Step m (unregister_mqtt_id k m mqtt_id)
    set_version :
        {m : SessionManager k} (mqtt_id : Bytes) (version : ℕ)
        → Step m (set_protocol_version k m mqtt_id version)

  pub data Reachable : SessionManager k → Type 0 where
    start : Reachable (new k)
    next : {m m' : SessionManager k} → Reachable m → Step m m' → Reachable m'

  commit_keeps :
      (m : SessionManager k) (pid : ℕ) → IsConsistent m → IsConsistent (commit_packet k m pid).0
  unfolding commit_packet get_mqtt_id
  commit_keeps m pid c i u = elim (Option-cases (k.staged.get m.qos_tmp pid)) [
    | inl gone ↦ rw (gone, commit_packet) (c i u)
    | inr (entry, found) ↦ rw (found, commit_packet) (c i u)
  ]

  stage_keeps :
      (m : SessionManager k) (pkt : Publish) (qos : QoS)
      → IsConsistent m
      → IsConsistent (add_staging_packet k m pkt qos)
  unfolding add_staging_packet get_mqtt_id
  stage_keeps m pkt qos c i u = elim (Option-cases pkt.packet_id) [
    | inl gone ↦ rw gone (c i u)
    | inr (entry, found) ↦ rw found (c i u)
  ]

  take_keeps :
      (m : SessionManager k) (mqtt_id : Bytes) (client_id : k.Uuid)
      → get_mqtt_id k m client_id ≡ none
      → IsConsistent m
      → IsConsistent (register_mqtt_id k m mqtt_id client_id)
  unfolding register_mqtt_id get_mqtt_id
  take_keeps m i u fresh c j w h = ground (
    arith,
    c j w,
    h,
    fresh,
    k.mqtt_ids.get-insert m.by_mqtt_id i u j,
    k.client_mqtts.get-insert m.by_client_mqtt u i w,
    bytes_eq_iff i j,
    k.uuid_equality.iff u w,
  )

  drop_keeps :
      (m : SessionManager k) (mqtt_id : Bytes)
      → IsConsistent m
      → IsConsistent (unregister_mqtt_id k m mqtt_id)
  unfolding unregister_mqtt_id get_mqtt_id
  drop_keeps m i c j w = elim (Option-cases (k.mqtt_ids.get m.by_mqtt_id i)) [
    | inl gone ↦ rw (gone, unregister_mqtt_id) (c j w)
    | inr (u, found) ↦
        rw (found, unregister_mqtt_id)
          (λ h. ground (
            arith,
            c j w,
            c i u found,
            h,
            k.mqtt_ids.get-remove m.by_mqtt_id i j,
            k.client_mqtts.get-remove m.by_client_mqtt u w,
            bytes_eq_iff i j,
            k.uuid_equality.iff u w,
          ))
  ]

  Step-IsConsistent : (m m' : SessionManager k) → Step m m' → IsConsistent m → IsConsistent m'
  unfolding register_client_id unregister_client_id set_protocol_version get_mqtt_id
  Step-IsConsistent _ _ (stage {m} pkt qos) c = stage_keeps m pkt qos c
  Step-IsConsistent _ _ (commit {m} pid) c = commit_keeps m pid c
  Step-IsConsistent _ _ (open_client u tx) c = c
  Step-IsConsistent _ _ (close_client u) c = c
  Step-IsConsistent _ _ (take_name {m} i u fresh) c = take_keeps m i u fresh c
  Step-IsConsistent _ _ (drop_name {m} i) c = drop_keeps m i c
  Step-IsConsistent _ _ (set_version i v) c = c

  Reachable-IsConsistent : (m : SessionManager k) → Reachable m → IsConsistent m
  unfolding new get_mqtt_id
  Reachable-IsConsistent _ start = λ i u h. ground (arith, h, k.mqtt_ids.get-empty i)
  Reachable-IsConsistent _ (next {m} {m'} r s) =
      Step-IsConsistent m m' s (Reachable-IsConsistent m r)

  -- In every state that the calls of a session manager lead to, where a client takes a name only while it
  -- has none, the client that a name leads to answers to that name.
  pub get_mqtt_id-by_mqtt_id :
      (m : SessionManager k) (mqtt_id : Bytes) (client_id : k.Uuid)
      → Reachable m
      → k.mqtt_ids.get m.by_mqtt_id mqtt_id ≡ some client_id
      → get_mqtt_id k m client_id ≡ some mqtt_id
  get_mqtt_id-by_mqtt_id m i u r h = Reachable-IsConsistent m r i u h

  -- In every state that the calls of a session manager lead to, where a client takes a name only while it
  -- has none, two names that lead to the same client are equal.
  pub by_mqtt_id-injective :
      (m : SessionManager k) (i j : Bytes) (client_id : k.Uuid)
      → Reachable m
      → k.mqtt_ids.get m.by_mqtt_id i ≡ some client_id
      → k.mqtt_ids.get m.by_mqtt_id j ≡ some client_id
      → i ≡ j
  by_mqtt_id-injective m i j u r hi hj =
      let c = Reachable-IsConsistent m r in cc (c i u hi, c j u hj)

  -- After `register_mqtt_id`, while the client is connected with the sender `tx`, a packet for that name goes
  -- to `tx` and nowhere else, with the result of that send.
  pub send_by_mqtt_id-register_mqtt_id :
      (m : SessionManager k) (channels : k.mpsc.Channels) (mqtt_id : Bytes) (client_id : k.Uuid)
      (tx : k.mpsc.Sender) (pkt : ControlPacket)
      → send_by_mqtt_id k
          (register_mqtt_id k (register_client_id k m client_id tx) mqtt_id client_id)
          channels
          mqtt_id
          pkt
        ≡ k.mpsc.try_send channels tx pkt
  unfolding send_by_mqtt_id send_by_client_id send register_mqtt_id register_client_id
  send_by_mqtt_id-register_mqtt_id m channels i u tx pkt = ground (
    arith,
    k.mqtt_ids.get-insert m.by_mqtt_id i u i,
    bytes_eq_refl i,
    k.clients.get-insert m.by_client_id u tx u,
    (k.uuid_equality.iff u u).1 refl,
  )

  -- A packet for a name whose client has disconnected comes back as closed, but one for a name that was
  -- unregistered counts as sent; in both cases no channel changes.
  pub send_by_mqtt_id_gone :
      (m : SessionManager k) (channels : k.mpsc.Channels) (mqtt_id : Bytes) (client_id : k.Uuid)
      (pkt : ControlPacket)
      → k.mqtt_ids.get m.by_mqtt_id mqtt_id ≡ some client_id
      → (send_by_mqtt_id k (unregister_client_id k m client_id) channels mqtt_id pkt
          ≡ (channels, closed pkt))
        × (send_by_mqtt_id k (unregister_mqtt_id k m mqtt_id) channels mqtt_id pkt
            ≡ (channels, sent))
  unfolding send_by_mqtt_id send_by_client_id unregister_client_id unregister_mqtt_id
  send_by_mqtt_id_gone m channels i u pkt h = (
    ground (arith, h, k.clients.get-remove m.by_client_id u u, (k.uuid_equality.iff u u).1 refl),
    ground (arith, h, k.mqtt_ids.get-remove m.by_mqtt_id i i, bytes_eq_refl i),
  )

  -- A second client that takes a name over leaves the first with it: once the name is unregistered, the
  -- first still answers to it, and the second to none.
  pub get_mqtt_id_takeover :
      (m : SessionManager k) (mqtt_id : Bytes) (first second : k.Uuid)
      → k.uuid_eq second first ≡ false
      → let m' = register_mqtt_id k (register_mqtt_id k m mqtt_id first) mqtt_id second in
        (get_mqtt_id k (unregister_mqtt_id k m' mqtt_id) first ≡ some mqtt_id)
        × (get_mqtt_id k (unregister_mqtt_id k m' mqtt_id) second ≡ none)
  unfolding register_mqtt_id unregister_mqtt_id get_mqtt_id
  get_mqtt_id_takeover m i u w other =
      let m1 = register_mqtt_id k m i u in
      let m2 = register_mqtt_id k m1 i w in
      let led = k.mqtt_ids.get-insert m1.by_mqtt_id i w i in
      (
        ground (
          arith,
          led,
          bytes_eq_refl i,
          other,
          k.client_mqtts.get-remove m2.by_client_mqtt w u,
          k.client_mqtts.get-insert m1.by_client_mqtt w i u,
          k.client_mqtts.get-insert m.by_client_mqtt u i u,
          (k.uuid_equality.iff u u).1 refl,
        ),
        ground (
          arith,
          led,
          bytes_eq_refl i,
          k.client_mqtts.get-remove m2.by_client_mqtt w w,
          (k.uuid_equality.iff w w).1 refl,
        ),
      )
