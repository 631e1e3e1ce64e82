-- ===== src/Connection/Delivery.antt =====
-- What of a response reaches the channel to the client.
use aqua.Base.{
  ◌≡◌, refl, sym, ap, ◌∙◌, List, [], ◌∷◌, ◌++◌, append-nil, append_assoc, fun_ext, subst,
}
use aqua.Packet.Disconnect.{Disconnect}
use aqua.Coder.ControlPacket.{
  ControlPacket, connect, disconnect, connack, publish, undefined, no_operation,
  disconnectcp_operation, subscribe, suback, pingreq, pingresp, unsubscribe, unsuback, puback,
  pubrec, pubrel, pubcomp,
}
use aqua.Channel.{SendResult, sent, full, closed}
use aqua.Session.{Backend}
use aqua.Connection.{
  Environment, Connection, pre_connection, response_connect, reading_packet, ready, ready_err,
  channel_closed, Polled, goes_on, after_send, Treatment, ends, skips, sends, treatment, treated,
  write_packets, poll,
}
use aqua.Connection.Responses.{ConnackResponse, to_connack}
use aqua.Packet.Connack.Reason.{success}

-- The packets of a response that are for the channel: those before its first DISCONNECT, no NOOPERATION
unfoldable pub to_send : List ControlPacket → List ControlPacket
to_send [] = []
to_send (disconnect d ∷ packets) = []
to_send (no_operation ∷ packets) = to_send packets
to_send (packet ∷ packets) = packet ∷ to_send packets

by_treatment : Treatment → ControlPacket → List ControlPacket → List ControlPacket
by_treatment ends packet rest = []
by_treatment skips packet rest = rest
by_treatment sends packet rest = packet ∷ rest

-- The loop treats each packet as that asks.
to_send-treatment :
    (packet : ControlPacket) (packets : List ControlPacket)
    → by_treatment (treatment packet) packet (to_send packets) ≡ to_send (packet ∷ packets)
unfolding to_send by_treatment
to_send-treatment (disconnect d) ps = refl
to_send-treatment no_operation ps = refl
to_send-treatment (connect p) ps = refl
to_send-treatment (connack p) ps = refl
to_send-treatment (publish p) ps = refl
to_send-treatment (subscribe p) ps = refl
to_send-treatment (suback p) ps = refl
to_send-treatment (unsubscribe p) ps = refl
to_send-treatment (unsuback p) ps = refl
to_send-treatment (puback p) ps = refl
to_send-treatment (pubrec p) ps = refl
to_send-treatment (pubrel p) ps = refl
to_send-treatment (pubcomp p) ps = refl
to_send-treatment undefined ps = refl
to_send-treatment disconnectcp_operation ps = refl
to_send-treatment pingreq ps = refl
to_send-treatment pingresp ps = refl

-- `IsPart xs ys`: `xs` is `ys` with some of it left out, in the same order.
pub data IsPart : List ControlPacket → List ControlPacket → Type 0 where
  empty : {ys : List ControlPacket} → IsPart [] ys
  keep : {x : ControlPacket} {xs ys : List ControlPacket} → IsPart xs ys → IsPart (x ∷ xs) (x ∷ ys)
  drop : {y : ControlPacket} {xs ys : List ControlPacket} → IsPart xs ys → IsPart xs (y ∷ ys)

module _ (k : Backend) (env : Environment) where
  -- The channel after a poll holds what it held, and behind it a part of `packets`.
  abbrev pub IsDelivered :
      k.mpsc.Sender → k.mpsc.Channels → List ControlPacket → Polled k env → Type 0
  IsDelivered tx channels packets r =
      (out : List ControlPacket) × IsPart out packets
      × (k.mpsc.queue r.1 tx ≡ k.mpsc.queue channels tx ++ out)

  nothing-IsDelivered :
      (tx : k.mpsc.Sender) (channels : k.mpsc.Channels) (packets : List ControlPacket)
      (r : Polled k env)
      → r.1 ≡ channels
      → IsDelivered tx channels packets r
  nothing-IsDelivered tx ch packets r h =
      ([], empty, ap (λ ch. k.mpsc.queue ch tx) h ∙ sym (append-nil (k.mpsc.queue ch tx)))

  after_send-IsDelivered :
      (c : Connection k env) (channels : k.mpsc.Channels) (packet : ControlPacket)
      (packets : List ControlPacket) (rest : k.mpsc.Channels → Polled k env)
      → ((channels : k.mpsc.Channels) → IsDelivered c.tx channels packets (rest channels))
      → (r : k.mpsc.Channels × SendResult) → r ≡ k.mpsc.try_send channels c.tx packet
      → IsDelivered c.tx channels (packet ∷ packets) (after_send k env c r rest)
  after_send-IsDelivered c ch p ps rest h (ch', sent) e =
      let (out, part, grown) = h ch' in
      let queued = k.mpsc.try_send-sent ch c.tx p (sym (ap (λ r. r.1) e)) in
      (
        p ∷ out,
        keep part,
        cc (grown, queued, ap (λ r. r.0) e, append_assoc (k.mpsc.queue ch c.tx) (p ∷ []) out),
      )
  after_send-IsDelivered c ch p ps rest h (ch', full q) e =
      let (out, part, grown) = h ch' in
      let same = (k.mpsc.try_send-full ch c.tx p q (sym (ap (λ r. r.1) e))).0 in
      (out, drop part, grown ∙ ap (λ ch. k.mpsc.queue ch c.tx ++ out) (ap (λ r. r.0) e ∙ same))
  after_send-IsDelivered c ch p ps rest h (ch', closed q) e =
      nothing-IsDelivered c.tx ch (p ∷ ps) (c, ch', ready_err channel_closed)
        (ap (λ r. r.0) e ∙ (k.mpsc.try_send-closed ch c.tx p q (sym (ap (λ r. r.1) e))).0)

  -- One round of the loop, where `t` says how its packet is treated
  treated-IsDelivered :
      (t : Treatment) (c : Connection k env) (channels : k.mpsc.Channels) (packet : ControlPacket)
      (packets : List ControlPacket) (rest : k.mpsc.Channels → Polled k env)
      → ((channels : k.mpsc.Channels) → IsDelivered c.tx channels packets (rest channels))
      → IsDelivered c.tx channels
          (by_treatment t packet packets)
          (treated k env t c channels packet rest)
  unfolding by_treatment
  treated-IsDelivered ends c ch p ps rest h = nothing-IsDelivered c.tx ch [] (c, ch, ready tt) refl
  treated-IsDelivered skips c ch p ps rest h = h ch
  treated-IsDelivered sends c ch p ps rest h = after_send-IsDelivered c ch p ps rest h _ refl

  -- Whatever its channel does, writing a response puts behind what the channel held only packets of the
  -- response that stand before its first DISCONNECT and are not NOOPERATION, each at most once and in
  -- their order.
  pub write_packets-IsDelivered :
      (c : Connection k env) (packets : List ControlPacket) (channels : k.mpsc.Channels)
      → IsDelivered c.tx channels (to_send packets) (write_packets k env c packets channels)
  unfolding write_packets
  write_packets-IsDelivered c [] ch =
      unfold to_send in nothing-IsDelivered c.tx ch [] (goes_on k env c ch reading_packet) refl
  write_packets-IsDelivered c (p ∷ ps) ch =
      subst
        (λ packets.
          IsDelivered c.tx ch packets
            (treated k env (treatment p) c ch p (write_packets k env c ps)))
        (to_send-treatment p ps)
        (treated-IsDelivered (treatment p) c ch p (to_send ps) _
          (λ ch. write_packets-IsDelivered c ps ch))

  -- Nothing behind a DISCONNECT of a response has an effect on the poll.
  pub write_packets-disconnect :
      (c : Connection k env) (before behind : List ControlPacket) (d : Disconnect)
      (channels : k.mpsc.Channels)
      → write_packets k env c (before ++ (disconnect d ∷ behind)) channels
        ≡ write_packets k env c (before ++ (disconnect d ∷ [])) channels
  unfolding write_packets
  write_packets-disconnect c [] behind d ch = refl
  write_packets-disconnect c (p ∷ ps) behind d ch =
      ap (λ rest. treated k env (treatment p) c ch p rest)
        (fun_ext λ ch. write_packets-disconnect c ps behind d ch)

  -- What a poll comes to that sends `packet`, by the result of the send
  abbrev pub IsAnswered :
      k.mpsc.Sender → k.mpsc.Channels → ControlPacket → Polled k env → SendResult → Type 0
  IsAnswered tx channels packet r sent =
      (k.mpsc.queue r.1 tx ≡ k.mpsc.queue channels tx ++ (packet ∷ []))
      × (r.0.state ≡ reading_packet)
  IsAnswered tx channels packet r (full back) = (r.1 ≡ channels) × (r.0.state ≡ reading_packet)
  IsAnswered tx channels packet r (closed back) =
      (r.1 ≡ channels) × (r.2 ≡ ready_err channel_closed)

  after_send-IsAnswered :
      (c : Connection k env) (channels : k.mpsc.Channels) (packet : ControlPacket)
      (r : k.mpsc.Channels × SendResult)
      → r ≡ k.mpsc.try_send channels c.tx packet
      → IsAnswered c.tx channels packet
          (after_send k env c r (λ ch. goes_on k env c ch reading_packet))
          r.1
  after_send-IsAnswered c ch p (ch', sent) e = (
    ap (λ r. k.mpsc.queue r.0 c.tx) e ∙ k.mpsc.try_send-sent ch c.tx p (sym (ap (λ r. r.1) e)),
    refl,
  )
  after_send-IsAnswered c ch p (ch', full q) e =
      (ap (λ r. r.0) e ∙ (k.mpsc.try_send-full ch c.tx p q (sym (ap (λ r. r.1) e))).0, refl)
  after_send-IsAnswered c ch p (ch', closed q) e =
      (ap (λ r. r.0) e ∙ (k.mpsc.try_send-closed ch c.tx p q (sym (ap (λ r. r.1) e))).0, refl)

  -- The CONNACK of an answer: a success, with what the answer says of the session
  abbrev pub success_connack : ConnackResponse → ControlPacket
  success_connack res = connack (record {
    session_present = res.session_present;
    connect_reason = success;
    connack_properties = res.connack_properties;
    version = res.version;
  })

  -- When the connect service has answered, the next poll sends the CONNACK of that answer, whose reason is
  -- success. Where it is sent it is the last packet of the queue, and where the channel is full it is
  -- dropped; both go on to read packets. Where the channel is closed the poll fails.
  pub poll_connack :
      (c : Connection k env) (world : env.World) (channels : k.mpsc.Channels)
      (res : ConnackResponse)
      → c.state ≡ response_connect res
      → IsAnswered c.tx channels
          (success_connack res)
          (poll k env c world channels)
          (k.mpsc.try_send channels c.tx (success_connack res)).1
  unfolding poll to_connack
  poll_connack c world ch res h =
      rw (poll, h)
        (after_send-IsAnswered (record c { state = pre_connection }) ch (success_connack res) _
          refl)
