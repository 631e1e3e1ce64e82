-- ===== src/Coder/Decoder/PublishId.antt =====
-- A message that the decoder delivers has the packet id that its quality of service asks for.
use aqua.Base.{
  ℕ, ◌-◌, ◌≡◌, refl, true, false, Option, is_some, leb, ltb, if◌then◌else◌, length, if_cases, arith,
  subst,
}
use aqua.Outcome.{Outcome, ok, err, panic, out_of_fuel, ◌>>=◌, >>=-eq-ok, unwrap}
use aqua.Bytes.{Bytes, checked_sub}
use aqua.Property.{QoS, qos0, qos1, qos2, topic_name_try_from}
use aqua.Packet.Publish as PublishPacket
use aqua.Packet.Publish.{Publish, is_qos0, packet_id_part, publish_properties_block}
use aqua.Coder.ControlPacket.{
  ControlPacket, wrap, connect, disconnect, connack, publish, undefined, no_operation,
  disconnectcp_operation, subscribe, suback, pingreq, pingresp, unsubscribe, unsuback, puback,
  pubrec, pubrel, pubcomp, decode_variable_header, decode_payload,
}

-- A PUBLISH of QoS 1 or 2 has a packet id.
abbrev pub HasPublishId : ControlPacket → Type 0
HasPublishId (publish p) = is_qos0 p.qos ≡ false → is_some p.packet_id ≡ true
HasPublishId packet = Unit

-- What a block gives, where whatever its first step gave it comes to a packet with an id.
pub bind_has :
    {A X : Type 0} (m : Outcome A) (f : A → X) (packet_of : X → ControlPacket) (r : X)
    → ((a : A) → HasPublishId (packet_of (f a)))
    → (m >>= λ a. ok (f a)) ≡ ok r
    → HasPublishId (packet_of r)
bind_has (ok a) f packet_of r h e =
    let same : f a ≡ r = cc in subst (λ p. HasPublishId (packet_of p)) same (h a)
bind_has (err x) f packet_of r h e = absurd (cc (e))
bind_has panic f packet_of r h e = absurd (cc (e))
bind_has out_of_fuel f packet_of r h e = absurd (cc (e))

id_part-is_some :
    (qos : QoS) (buf : Bytes) (pos : ℕ) (r : Option ℕ × ℕ)
    → packet_id_part qos buf pos ≡ ok r
    → is_qos0 qos ≡ false
    → is_some r.0 ≡ true
id_part-is_some qos0 buf pos r e h = absurd (cc (h))
id_part-is_some qos1 buf pos r e h = ground (arith, e)
id_part-is_some qos2 buf pos r e h = ground (arith, e)

chosen_id :
    (qos : QoS) (old id : Option ℕ)
    → (is_qos0 qos ≡ false → is_some id ≡ true)
    → is_qos0 qos ≡ false
    → is_some (if is_qos0 qos then old else id) ≡ true
chosen_id qos0 old id h e = absurd (cc (e))
chosen_id qos1 old id h e = h e
chosen_id qos2 old id h e = h e

delivered_has :
    {B : Type 0} (q r : Publish × B)
    → ok q ≡ ok r
    → HasPublishId (publish q.0)
    → HasPublishId (publish r.0)
delivered_has q r e h = let same : q ≡ r = cc in subst (λ p. HasPublishId (publish p.0)) same h

publish_header_has :
    (p : Publish) (buf : Bytes) (start len : ℕ) (v : Option ℕ) (r : Publish × ℕ)
    → PublishPacket.decode_variable_header p buf start len v ≡ ok r
    → HasPublishId (publish r.0)
unfolding PublishPacket.decode_variable_header
publish_header_has p buf start len v r e =
    let (topic, e1, k1) = >>=-eq-ok (topic_name_try_from buf start) _ e in
    let (id, e2, k2) = >>=-eq-ok (packet_id_part p.qos buf topic.1) _ k1 in
    let (version, e3, k3) = >>=-eq-ok (unwrap v) _ k2 in
    let (props, e4, k4) =
      >>=-eq-ok
        (if leb 5 version then publish_properties_block buf id.1 else ok (p.pub_properties, id.1)) _
        k3 in
    let (n, e5, k5) = >>=-eq-ok (checked_sub len (props.1 - start)) _ k4 in
    delivered_has _ r k5
      (chosen_id p.qos p.packet_id id.0 (id_part-is_some p.qos buf topic.1 id e2))

wrap_has :
    {P B : Type 0} (make : P → ControlPacket) (m : Outcome (P × B)) (r : ControlPacket × B)
    → ((a : P × B) → m ≡ ok a → HasPublishId (make a.0))
    → wrap make m ≡ ok r
    → HasPublishId r.0
wrap_has make (ok a) r h e =
    let same : (make a.0, a.1) ≡ r = cc in subst (λ p. HasPublishId p.0) same (h a refl)
wrap_has make (err x) r h e = absurd (cc (e))
wrap_has make panic r h e = absurd (cc (e))
wrap_has make out_of_fuel r h e = absurd (cc (e))

pub variable_header_has :
    (packet : ControlPacket) (buf : Bytes) (start len : ℕ) (v : Option ℕ) (r : ControlPacket × ℕ)
    → decode_variable_header packet buf start len v ≡ ok r
    → HasPublishId r.0
unfolding decode_variable_header
variable_header_has (connect p) buf start len v r e = wrap_has connect _ r (λ a h. tt) e
variable_header_has (publish p) buf start len v r e =
    wrap_has publish _ r (publish_header_has p buf start len v) e
variable_header_has (subscribe p) buf start len v r e = wrap_has subscribe _ r (λ a h. tt) e
variable_header_has (unsubscribe p) buf start len v r e = wrap_has unsubscribe _ r (λ a h. tt) e
variable_header_has (disconnect p) buf start len v r e = wrap_has disconnect _ r (λ a h. tt) e
variable_header_has (pubrel p) buf start len v r e = wrap_has pubrel _ r (λ a h. tt) e
variable_header_has pingreq buf start len v r e =
    bind_has _ (λ n. (pingreq, n)) (λ q. q.0) r (λ a. tt) e
variable_header_has (puback p) buf start len v r e = bind_has _ _ (λ q. q.0) r (λ a. tt) e
variable_header_has (pubrec p) buf start len v r e = bind_has _ _ (λ q. q.0) r (λ a. tt) e
variable_header_has (pubcomp p) buf start len v r e = bind_has _ _ (λ q. q.0) r (λ a. tt) e
variable_header_has (connack p) buf start len v r e = absurd (cc (e))
variable_header_has (suback p) buf start len v r e = absurd (cc (e))
variable_header_has (unsuback p) buf start len v r e = absurd (cc (e))
variable_header_has undefined buf start len v r e = absurd (cc (e))
variable_header_has no_operation buf start len v r e = absurd (cc (e))
variable_header_has disconnectcp_operation buf start len v r e = absurd (cc (e))
variable_header_has pingresp buf start len v r e = absurd (cc (e))

publish_payload_has :
    (p : Publish) (buf : Bytes) (v : Option ℕ) (r : Publish × Bytes)
    → HasPublishId (publish p)
    → PublishPacket.decode_payload p buf v ≡ ok r
    → HasPublishId (publish r.0)
unfolding PublishPacket.decode_payload
publish_payload_has p buf v r has e =
    if_cases (λ m. m ≡ ok r → HasPublishId (publish r.0)) (ltb (length buf) p.payload_length) _ _
      (λ short e. absurd (cc (e))) (λ enough e. delivered_has _ r e has) e

pub payload_has :
    (packet : ControlPacket) (buf : Bytes) (v : Option ℕ) (r : ControlPacket × Bytes)
    → HasPublishId packet
    → decode_payload packet buf v ≡ ok r
    → HasPublishId r.0
unfolding decode_payload
payload_has (connect p) buf v r has e = wrap_has connect _ r (λ a h. tt) e
payload_has (publish p) buf v r has e =
    wrap_has publish _ r (λ a. publish_payload_has p buf v a has) e
payload_has (subscribe p) buf v r has e = wrap_has subscribe _ r (λ a h. tt) e
payload_has (unsubscribe p) buf v r has e = wrap_has unsubscribe _ r (λ a h. tt) e
payload_has (disconnect p) buf v r has e = wrap_has disconnect _ r (λ a h. tt) e
payload_has (pubrel p) buf v r has e = wrap_has pubrel _ r (λ a h. tt) e
payload_has pingreq buf v r has e = bind_has _ (λ rest. (pingreq, rest)) (λ q. q.0) r (λ a. tt) e
payload_has (puback p) buf v r has e =
    bind_has (ok buf) (λ rest. (puback p, rest)) (λ q. q.0) r (λ a. tt) e
payload_has (pubrec p) buf v r has e =
    bind_has (ok buf) (λ rest. (pubrec p, rest)) (λ q. q.0) r (λ a. tt) e
payload_has (pubcomp p) buf v r has e =
    bind_has (ok buf) (λ rest. (pubcomp p, rest)) (λ q. q.0) r (λ a. tt) e
payload_has (connack p) buf v r has e = absurd (cc (e))
payload_has (suback p) buf v r has e = absurd (cc (e))
payload_has (unsuback p) buf v r has e = absurd (cc (e))
payload_has undefined buf v r has e = absurd (cc (e))
payload_has no_operation buf v r has e = absurd (cc (e))
payload_has disconnectcp_operation buf v r has e = absurd (cc (e))
payload_has pingresp buf v r has e = absurd (cc (e))
