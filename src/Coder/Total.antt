-- ===== src/Coder/Total.antt =====
-- The coder ends on every buffer.
use aqua.Base.{
  ℕ, refl, true, false, inl, inr, Bool-cases, ◌≢◌, Bool, Option, if◌then◌else◌, is_empty, ltb,
  length,
}
use aqua.Outcome.{Outcome, ok, err, panic, out_of_fuel, Ends, Ends-ok, Ends-err, Ends-bind}
use aqua.Bytes.{Bytes}
use aqua.Property.Ends.{property_ends}
use aqua.Packet.Ping.{pingreq_decode_payload, pingreq_decode_variable_header}
use aqua.Packet.Connect.Total as ConnectTotal
use aqua.Packet.Publish.Total as PublishTotal
use aqua.Packet.Subscribe.Total as SubscribeTotal
use aqua.Packet.Unsubscribe.Total as UnsubscribeTotal
use aqua.Packet.Disconnect.Total as DisconnectTotal
use aqua.Packet.Pubrel.Total as PubrelTotal
use aqua.Coder.ControlPacket.{
  ControlPacket, connect, disconnect, connack, publish, undefined, no_operation,
  disconnectcp_operation, subscribe, suback, pingreq, pingresp, unsubscribe, unsuback, puback,
  pubrec, pubrel, pubcomp, decode_variable_header, decode_payload, wrap,
}
use aqua.Coder.FixedHeader.{decode_fixed_header, decode_lower_fixed_header}
use aqua.Coder.Decoder.{
  Decoder, DecoderState, done, fixed_header_decoded, variable_header_decoded, Poll, ready, pending,
  failed, read_fixed_header, read_variable_header, poll_done, poll_variable_header, poll_payload,
  poll_state, poll_decode,
}

wrap-Ends {ℓ} :
    {A : Type 0} {B : Type ℓ} (make : A → ControlPacket) (o : Outcome (A × B))
    → Ends o
    → Ends (wrap make o)
wrap-Ends make o h = Ends-bind o _ h λ r. Ends-ok _

-- `decode_fixed_header` ends on every buffer.
pub decode_fixed_header-Ends :
    (buf : Bytes) (start : ℕ) (v : Option ℕ) → Ends (decode_fixed_header buf start v)
unfolding decode_fixed_header decode_lower_fixed_header
decode_fixed_header-Ends buf start v = search property_ends depth 40

-- `decode_variable_header` ends for every packet and buffer.
pub decode_variable_header-Ends :
    (packet : ControlPacket) (buf : Bytes) (start len : ℕ) (v : Option ℕ)
    → Ends (decode_variable_header packet buf start len v)
unfolding decode_variable_header pingreq_decode_variable_header
decode_variable_header-Ends (connect p) buf start len v =
    wrap-Ends connect _ (ConnectTotal.decode_variable_header-Ends p buf start len v)
decode_variable_header-Ends (publish p) buf start len v =
    wrap-Ends publish _ (PublishTotal.decode_variable_header-Ends p buf start len v)
decode_variable_header-Ends (subscribe p) buf start len v =
    wrap-Ends subscribe _ (SubscribeTotal.decode_variable_header-Ends p buf start len v)
decode_variable_header-Ends (unsubscribe p) buf start len v =
    wrap-Ends unsubscribe _ (UnsubscribeTotal.decode_variable_header-Ends p buf start len v)
decode_variable_header-Ends (disconnect p) buf start len v =
    wrap-Ends disconnect _ (DisconnectTotal.decode_variable_header-Ends p buf start len v)
decode_variable_header-Ends (pubrel p) buf start len v =
    wrap-Ends pubrel _ (PubrelTotal.decode_variable_header-Ends p buf start len v)
decode_variable_header-Ends (puback p) buf start len v = search property_ends
decode_variable_header-Ends (pubrec p) buf start len v = search property_ends
decode_variable_header-Ends (pubcomp p) buf start len v = search property_ends
decode_variable_header-Ends pingreq buf start len v = Ends-ok _
decode_variable_header-Ends (connack p) buf start len v = Ends-err _
decode_variable_header-Ends (suback p) buf start len v = Ends-err _
decode_variable_header-Ends (unsuback p) buf start len v = Ends-err _
decode_variable_header-Ends undefined buf start len v = Ends-err _
decode_variable_header-Ends no_operation buf start len v = Ends-err _
decode_variable_header-Ends disconnectcp_operation buf start len v = Ends-err _
decode_variable_header-Ends pingresp buf start len v = Ends-err _

-- `decode_payload` ends for every packet and buffer.
pub decode_payload-Ends :
    (packet : ControlPacket) (buf : Bytes) (v : Option ℕ) → Ends (decode_payload packet buf v)
unfolding decode_payload pingreq_decode_payload
decode_payload-Ends (connect p) buf v =
    wrap-Ends connect _ (ConnectTotal.decode_payload-Ends p buf v)
decode_payload-Ends (publish p) buf v =
    wrap-Ends publish _ (PublishTotal.decode_payload-Ends p buf v)
decode_payload-Ends (subscribe p) buf v =
    wrap-Ends subscribe _ (SubscribeTotal.decode_payload-Ends p buf v)
decode_payload-Ends (unsubscribe p) buf v =
    wrap-Ends unsubscribe _ (UnsubscribeTotal.decode_payload-Ends p buf v)
decode_payload-Ends (disconnect p) buf v =
    wrap-Ends disconnect _ (DisconnectTotal.decode_payload-Ends p buf v)
decode_payload-Ends (pubrel p) buf v = wrap-Ends pubrel _ (PubrelTotal.decode_payload-Ends p buf v)
decode_payload-Ends (puback p) buf v = Ends-ok _
decode_payload-Ends (pubrec p) buf v = Ends-ok _
decode_payload-Ends (pubcomp p) buf v = Ends-ok _
decode_payload-Ends pingreq buf v = Ends-ok _
decode_payload-Ends (connack p) buf v = Ends-err _
decode_payload-Ends (suback p) buf v = Ends-err _
decode_payload-Ends (unsuback p) buf v = Ends-err _
decode_payload-Ends undefined buf v = Ends-err _
decode_payload-Ends no_operation buf v = Ends-err _
decode_payload-Ends disconnectcp_operation buf v = Ends-err _
decode_payload-Ends pingresp buf v = Ends-err _

failed-Ends :
    {A : Type 0} (o : Outcome A) (k : A → Decoder × Poll) (d : Decoder)
    → Ends o
    → ((a : A) → (k a).1 ≢ ready out_of_fuel)
    → (failed o k d).1 ≢ ready out_of_fuel
failed-Ends (ok a) k d h c = c a
failed-Ends (err e) k d h c = λ p. cc
failed-Ends panic k d h c = λ p. cc
failed-Ends out_of_fuel k d h c = absurd (h.ends refl)

header_poll :
    (b : Bool) (packet : ControlPacket) (d e : Decoder)
    → (if◌then◌else◌ {A = Decoder × Poll} b (d, ready (ok packet)) (e, pending true)).1
      ≢ ready out_of_fuel
header_poll true packet d e p = cc
header_poll false packet d e p = cc

done_poll : (d : Decoder) → (poll_done d).1 ≢ ready out_of_fuel
unfolding poll_done
done_poll d = elim (Bool-cases (ltb (length d.buf) 2)) [
  | inl short ↦ rw short (λ p. cc)
  | inr enough ↦ rw enough (
      failed-Ends (read_fixed_header d) _ d (search (property_ends, decode_fixed_header-Ends))
        λ a p. cc)
]

state_poll : (s : DecoderState) (d : Decoder) → (poll_state s d).1 ≢ ready out_of_fuel
unfolding poll_variable_header poll_payload
state_poll done d = done_poll d
state_poll fixed_header_decoded d =
    failed-Ends (read_variable_header d) _ d (search (property_ends, decode_variable_header-Ends))
      λ a. header_poll _ _ _ _
state_poll variable_header_decoded d =
    failed-Ends (decode_payload d.tmp_packet d.buf d.protocol_version) _ _
      (decode_payload-Ends _ _ _) λ a p. cc

-- No poll of the decoder runs out of fuel, whatever its state and its buffer are: each of its loops
-- ends.
pub poll_decode_total : (d : Decoder) → (poll_decode d).1 ≢ ready out_of_fuel
unfolding poll_decode
poll_decode_total d = elim (Bool-cases (is_empty d.buf)) [
  | inl empty ↦ rw empty (λ p. cc)
  | inr bytes ↦ rw bytes (state_poll d.state d)
]
