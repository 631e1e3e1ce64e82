-- ===== src/Broker/Service/Answers.antt =====
-- examples/broker.rs: every answer of the service can be written to the client.
use aqua.Base.{ℕ, ◌≡◌, refl, Option, none, some, All, [], ◌∷◌, map, length, List}
use aqua.Outcome.{Outcome, ok, err, panic, out_of_fuel, unwrap, ◌>>=◌}
use aqua.Bytes.{Bytes}
use aqua.Property.{QoS, qos0, qos1, qos2}
use aqua.Packet.Publish.{Publish}
use aqua.Packet.Ping.{pingresp_encode_header, pingresp_encode_payload_chunk}
use aqua.Coder.ControlPacket.{
  ControlPacket, connect, disconnect, connack, publish, undefined, no_operation,
  disconnectcp_operation, subscribe, suback, pingreq, pingresp, unsubscribe, unsuback, puback,
  pubrec, pubrel, pubcomp, encode_header, encode_payload_chunk,
}
use aqua.Coder.Encoder.{encode_all}
use aqua.Coder.Decoder.PublishId.{HasPublishId}
use aqua.Connection.Responses.{Response, new, new_packets}
use aqua.Connection.Delivery.{to_send}
use aqua.Session.{get_protocol_version}
use aqua.Coder.Encoder.Bare.{
  IsEncoded, encoded, puback_of-IsEncoded, pubrec_of-IsEncoded, pubrel_of-IsEncoded,
  pubcomp_of-IsEncoded, suback-IsEncoded, publish-IsEncoded,
}
use aqua.Broker.State.{Outside, Broker}
use aqua.Broker.Service.{
  serve, serve_disconnect, serve_subscribe, serve_pubrel, publish_qos2, publish_now, publish_answer,
}
use aqua.Broker.Service.Cases.{serve_publish_cases}

-- The encoder writes the packet as one frame; a retained message, where it has the packet id and the
-- length of payload it needs.
abbrev pub IsAnswer : Bytes → ControlPacket → Type 0
IsAnswer buffer (publish p) =
    HasPublishId (publish p)
    → length p.payload_data ≡ p.payload_length
    → IsEncoded buffer (publish p)
IsAnswer buffer packet = IsEncoded buffer packet

-- What a connection sends of the response
abbrev pub IsAnswered : Bytes → Outcome Response → Type 0
IsAnswered buffer (ok r) = All (IsAnswer buffer) (to_send r.packets)
IsAnswered buffer (err e) = Unit
IsAnswered buffer panic = Unit
IsAnswered buffer out_of_fuel = Unit

after_unwrap {ℓ} :
    {A : Type ℓ} (o : Option A) (f : A → Outcome Response) (buffer : Bytes)
    → ((a : A) → IsAnswered buffer (f a))
    → IsAnswered buffer (unwrap o >>= f)
after_unwrap none f buffer h = tt
after_unwrap (some a) f buffer h = h a

retained-IsAnswer :
    (buffer : Bytes) (ps : List Publish) → All (IsAnswer buffer) (to_send (map publish ps))
unfolding to_send
retained-IsAnswer buffer [] = tt
retained-IsAnswer buffer (p ∷ ps) = (publish-IsEncoded p buffer, retained-IsAnswer buffer ps)

module _ (x : Outside) where
  publish_answer-IsAnswered :
      (qos : QoS) (id : Option ℕ) (version : ℕ) (buffer : Bytes)
      → IsAnswered buffer (publish_answer x qos id version)
  unfolding new to_send
  publish_answer-IsAnswered qos0 id version buffer = tt
  publish_answer-IsAnswered qos1 id version buffer =
      after_unwrap id _ buffer (λ i. (puback_of-IsEncoded i version buffer, tt))
  publish_answer-IsAnswered qos2 id version buffer = tt

  -- Whatever a client sends, and whatever state the broker is in, each packet of the service's answer that
  -- a connection sends, which is none behind a DISCONNECT and no NOOPERATION, is encoded, as one frame
  -- behind what the buffer holds; a retained message is, where it has a packet id if its quality of
  -- service asks for one, and its payload has the length that is noted.
  pub serve-IsAnswered :
      (b : Broker x) (name : Bytes) (packet : ControlPacket) (buffer : Bytes)
      → IsAnswered buffer (serve x b name packet).1
  unfolding serve serve_disconnect serve_subscribe serve_pubrel publish_qos2 publish_now new
      new_packets encode_all encode_header encode_payload_chunk pingresp_encode_header
      pingresp_encode_payload_chunk to_send
  serve-IsAnswered b name (disconnect p) buffer = tt
  serve-IsAnswered b name (subscribe p) buffer =
      after_unwrap (get_protocol_version x.session b.manager name) _ buffer
        (λ version. (suback-IsEncoded _ buffer refl, retained-IsAnswer buffer _))
  serve-IsAnswered b name (publish p) buffer =
      serve_publish_cases x (λ r. IsAnswered buffer r.1) b name p (λ two missing. tt)
        (λ one missing. tt)
        (λ two there. after_unwrap p.packet_id _ buffer (λ i. (pubrec_of-IsEncoded i _ buffer, tt)))
        (λ other there. publish_answer-IsAnswered p.qos p.packet_id _ buffer)
  serve-IsAnswered b name (pubrel p) buffer = (pubcomp_of-IsEncoded p.packet_id _ buffer, tt)
  serve-IsAnswered b name (pubrec p) buffer = (pubrel_of-IsEncoded p.packet_id _ buffer, tt)
  serve-IsAnswered b name (pubcomp p) buffer = tt
  serve-IsAnswered b name pingreq buffer = (encoded pingresp buffer _ tt refl, tt)
  serve-IsAnswered b name (connect p) buffer = tt
  serve-IsAnswered b name (connack p) buffer = tt
  serve-IsAnswered b name undefined buffer = tt
  serve-IsAnswered b name no_operation buffer = tt
  serve-IsAnswered b name disconnectcp_operation buffer = tt
  serve-IsAnswered b name (suback p) buffer = tt
  serve-IsAnswered b name pingresp buffer = tt
  serve-IsAnswered b name (unsubscribe p) buffer = tt
  serve-IsAnswered b name (unsuback p) buffer = tt
  serve-IsAnswered b name (puback p) buffer = tt
