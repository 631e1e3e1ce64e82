-- ===== src/Broker/System/Panics.antt =====
-- The service does not panic at what a client that has a name sends.
use aqua.Base.{ℕ, ◌≡◌, ◌≢◌, refl, true, is_some, Option, none, some, []}
use aqua.Outcome.{Outcome, ok, IsSafe, unwrap, ◌>>=◌}
use aqua.Bytes.{Bytes}
use aqua.Property.{QoS, qos0, qos1, qos2}
use aqua.Packet.Publish.{Publish}
use aqua.Coder.ControlPacket.{
  ControlPacket, connect, disconnect, connack, publish, undefined, no_operation,
  disconnectcp_operation, subscribe, suback, pingreq, pingresp, unsubscribe, unsuback, puback,
  pubrec, pubrel, pubcomp,
}
use aqua.Session.{get_protocol_version}
use aqua.Broker.State.{Outside, Broker}
use aqua.Broker.Service.{
  serve, serve_disconnect, serve_subscribe, serve_publish, serve_pubrel, publish_qos2, publish_now,
  publish_answer,
}
use aqua.Broker.Service.Cases.{serve_publish_cases}
use aqua.Coder.Decoder.{Decoder, ready, poll_decode}
use aqua.Coder.Decoder.PublishId.{HasPublishId}
use aqua.Coder.Decoder.Delivered.{Decodes, delivered-HasPublishId}
use aqua.Broker.System.{System, Reachable}
use aqua.Broker.System.Versions.{HasVersion, Reachable-NamedHaveVersions}

-- A block whose first step is an `unwrap` of a value that is there
unwrap-IsSafe {ℓ κ} :
    {A : Type ℓ} {B : Type κ} (o : Option A) (f : A → Outcome B)
    → is_some o ≡ true
    → ((a : A) → IsSafe (f a))
    → IsSafe (unwrap o >>= f)
unwrap-IsSafe none f h k = absurd (cc (h))
unwrap-IsSafe (some a) f h k = k a

module _ (x : Outside) where
  answer-IsSafe :
      (qos : QoS) (id : Option ℕ) (version : ℕ)
      → qos ≢ qos2
      → (qos ≡ qos1 → is_some id ≡ true)
      → IsSafe (publish_answer x qos id version)
  answer-IsSafe qos0 id version other has = tt
  answer-IsSafe qos1 id version other has = unwrap-IsSafe id _ (has refl) (λ i. tt)
  answer-IsSafe qos2 id version other has = absurd (other refl)

  serve_publish-IsSafe :
      (b : Broker x) (name : Bytes) (p : Publish)
      → (p.qos ≡ qos2 → is_some p.packet_id ≡ true)
      → IsSafe (serve_publish x b name p).1
  unfolding publish_qos2 publish_now
  serve_publish-IsSafe b name p has =
      serve_publish_cases x (λ r. IsSafe r.1) b name p (λ two missing. cc (has two, missing))
        (λ one missing. tt) (λ two there. unwrap-IsSafe p.packet_id _ there (λ i. tt))
        (λ other there. answer-IsSafe p.qos p.packet_id _ other there)

  serve-IsSafe :
      (b : Broker x) (name : Bytes) (packet : ControlPacket)
      → HasVersion x b.manager name
      → HasPublishId packet
      → IsSafe (serve x b name packet).1
  unfolding serve serve_disconnect serve_subscribe serve_pubrel
  serve-IsSafe b name (disconnect p) v i = tt
  serve-IsSafe b name (subscribe p) v i =
      unwrap-IsSafe (get_protocol_version x.session b.manager name) _ v (λ version. tt)
  serve-IsSafe b name (publish p) v i = serve_publish-IsSafe b name p (λ two. i (rw two refl))
  serve-IsSafe b name (pubrel p) v i = tt
  serve-IsSafe b name (pubcomp p) v i = tt
  serve-IsSafe b name pingreq v i = tt
  serve-IsSafe b name (connect p) v i = tt
  serve-IsSafe b name (pubrec p) v i = tt
  serve-IsSafe b name (connack p) v i = tt
  serve-IsSafe b name undefined v i = tt
  serve-IsSafe b name no_operation v i = tt
  serve-IsSafe b name disconnectcp_operation v i = tt
  serve-IsSafe b name (suback p) v i = tt
  serve-IsSafe b name pingresp v i = tt
  serve-IsSafe b name (unsubscribe p) v i = tt
  serve-IsSafe b name (unsuback p) v i = tt
  serve-IsSafe b name (puback p) v i = tt

  -- In every state of the broker, a request of a connection that has a name is answered without a panic,
  -- where the request is a message that the decoder of a connection delivered.
  pub serve-IsSafe_named :
      (s : System x) (u : x.session.Uuid) (d : Decoder) (packet : ControlPacket)
      → Reachable x s
      → s.names u ≢ []
      → Decodes d
      → (poll_decode d).1 ≡ ready (ok packet)
      → IsSafe (serve x s.broker (s.names u) packet).1
  serve-IsSafe_named s u d packet r named decodes e =
      serve-IsSafe s.broker (s.names u) packet (Reachable-NamedHaveVersions x s r u named)
        (delivered-HasPublishId d packet decodes e)
