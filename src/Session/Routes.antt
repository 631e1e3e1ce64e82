-- ===== src/Session/Routes.antt =====
-- Where a packet for a name goes, by what the maps of the session manager hold.
use aqua.Base.{◌≡◌, arith, none, some, ◌⊎◌, inl, inr, Option-cases}
use aqua.Bytes.{Bytes}
use aqua.Coder.ControlPacket.{ControlPacket}
use aqua.Channel.{sent, closed}
use aqua.Session.{Backend, SessionManager, send, send_by_client_id, send_by_mqtt_id}

module _ (k : Backend) where
  -- The name leads to a client, and that to its sender.
  pub record IsRoute (m : SessionManager k) (mqtt_id : Bytes) (tx : k.mpsc.Sender) : Type 0 where
    pub client_id : k.Uuid
    pub named : k.mqtt_ids.get m.by_mqtt_id mqtt_id ≡ some client_id
    pub registered : k.clients.get m.by_client_id client_id ≡ some tx

  module _ (m : SessionManager k) (channels : k.mpsc.Channels) (mqtt_id : Bytes)
      (pkt : ControlPacket) where
    pub send_unnamed :
        k.mqtt_ids.get m.by_mqtt_id mqtt_id ≡ none
        → send_by_mqtt_id k m channels mqtt_id pkt ≡ (channels, sent)
    unfolding send_by_mqtt_id
    send_unnamed gone = rw (gone, send_by_mqtt_id)

    pub send_left :
        (client_id : k.Uuid)
        → k.mqtt_ids.get m.by_mqtt_id mqtt_id ≡ some client_id
        → k.clients.get m.by_client_id client_id ≡ none
        → send_by_mqtt_id k m channels mqtt_id pkt ≡ (channels, closed pkt)
    unfolding send_by_mqtt_id send_by_client_id
    send_left u named left = ground (arith, named, left)

    pub send_routed :
        (tx : k.mpsc.Sender)
        → IsRoute m mqtt_id tx
        → send_by_mqtt_id k m channels mqtt_id pkt ≡ k.mpsc.try_send channels tx pkt
    unfolding send_by_mqtt_id send_by_client_id send
    send_routed tx r = ground (arith, r.named, r.registered)

    -- One of the three ways
    pub send_cases :
        (send_by_mqtt_id k m channels mqtt_id pkt ≡ (channels, sent))
        ⊎ ((send_by_mqtt_id k m channels mqtt_id pkt ≡ (channels, closed pkt))
            ⊎ ((tx : k.mpsc.Sender) × IsRoute m mqtt_id tx
                × (send_by_mqtt_id k m channels mqtt_id pkt ≡ k.mpsc.try_send channels tx pkt)))
    send_cases = elim (Option-cases (k.mqtt_ids.get m.by_mqtt_id mqtt_id)) [
      | inl gone ↦ inl (send_unnamed gone)
      | inr (u, named) ↦ elim (Option-cases (k.clients.get m.by_client_id u)) [
        | inl left ↦ inr (inl (send_left u named left))
        | inr (tx, there) ↦
            let r : IsRoute m mqtt_id tx = record {
              client_id = u;
              named = named;
              registered = there;
            } in
            inr (inr (tx, r, send_routed tx r))
      ]
    ]
