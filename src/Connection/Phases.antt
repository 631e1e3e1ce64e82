-- ===== src/Connection/Phases.antt =====
-- The phases of a connection and the moves between them.
use aqua.Base.{◌≡◌, ◌⊎◌, inl, inr, refl, ap, ◌∙◌, List, [], ◌∷◌, Option-cases}
use aqua.Coder.ControlPacket.{ControlPacket, connack}
use aqua.Session.{Backend}
use aqua.Connection.{
  Environment, Connection, ConnectionState, pre_connection, processing_connect, response_connect,
  reading_packet, processing_service, writing_packet, ConnectionPoll, pending, ready, ready_err,
  panicked, endless, FuturePoll, waits, answers, fails, Polled, goes_on, serve_packet,
  connect_answer, service_answer, version_of, first_packet, read_packet, treatment, write_packets,
  poll_state, poll,
}
use aqua.Connection.Responses.{Response, ConnackResponse, ConnackError, to_connack}
use aqua.Connection.Reading.{
  read_packet-Keeps, on_read_lem, after_send_lem, treated_lem, read_packet_total,
}

-- A state without what it holds
pub data Phase : Type 0 where
  before_connect connecting answering_connect reading serving writing : Phase

-- The order in which a connection is meant to go on
pub data Move : Phase → Phase → Type 0 where
  accept : Move before_connect connecting
  connected : Move connecting answering_connect
  answered : Move answering_connect reading
  requested : Move reading serving
  served : Move serving writing
  written : Move writing reading

module _ (env : Environment) where
  abbrev pub phase : ConnectionState env → Phase
  phase pre_connection = before_connect
  phase (processing_connect fut) = connecting
  phase (response_connect res) = answering_connect
  phase reading_packet = reading
  phase (processing_service fut) = serving
  phase (writing_packet res) = writing

  -- A pending poll stays in its phase or makes a move; one that is ready, or panics, leaves the default
  -- state, and only the two phases that write end without an error.
  abbrev pub IsAllowed : Phase → Phase → ConnectionPoll env (Unit {0}) → Type 0
  IsAllowed p q (pending woken) = (p ≡ q) ⊎ Move p q
  IsAllowed p q (ready u) = (p ≡ writing) × (q ≡ before_connect)
  IsAllowed p q (ready_err e) = q ≡ before_connect
  IsAllowed p q panicked = q ≡ before_connect
  IsAllowed p q endless = ⊥

module _ (k : Backend) (env : Environment) where
  abbrev AllowedFrom : Phase → Polled k env → Type 0
  AllowedFrom p r = IsAllowed env p (phase env r.0.state) r.2

  write_allowed :
      (c : Connection k env) (packets : List ControlPacket) (channels : k.mpsc.Channels)
      → c.state ≡ pre_connection
      → AllowedFrom writing (write_packets k env c packets channels)
  unfolding write_packets
  write_allowed c [] channels h = inr written
  write_allowed c (p ∷ ps) channels h =
      treated_lem k env (AllowedFrom writing) (treatment p) c channels p _
        (λ ch. write_allowed c ps ch h) (refl, ap (phase env) h) (λ ch. ap (phase env) h)

  connect_allowed :
      (c : Connection k env) (channels : k.mpsc.Channels)
      (r : env.ConnectFuture × FuturePoll ConnackResponse ConnackError)
      → c.state ≡ pre_connection
      → AllowedFrom connecting (connect_answer k env c channels r)
  connect_allowed c ch (fut, waits) h = inl refl
  connect_allowed c ch (fut, answers res) h = inr connected
  connect_allowed c ch (fut, fails e) h = ap (phase env) h

  service_allowed :
      (c : Connection k env) (channels : k.mpsc.Channels)
      (r : env.ServiceFuture × FuturePoll Response env.ServiceError)
      → c.state ≡ pre_connection
      → AllowedFrom serving (service_answer k env c channels r)
  service_allowed c ch (fut, waits) h = inl refl
  service_allowed c ch (fut, answers res) h = inr served
  service_allowed c ch (fut, fails e) h = ap (phase env) h

  first_allowed :
      (c : Connection k env) (world : env.World) (channels : k.mpsc.Channels)
      (packet : ControlPacket)
      → c.state ≡ pre_connection
      → AllowedFrom before_connect (first_packet k env world channels c packet)
  unfolding first_packet
  first_allowed c world ch packet h = elim (Option-cases (version_of packet)) [
    | inl none_there ↦ rw (none_there, first_packet) (ap (phase env) h)
    | inr (v, there) ↦ rw (there, first_packet) (inr accept)
  ]

  state_allowed :
      (s : ConnectionState env) (c : Connection k env) (world : env.World)
      (channels : k.mpsc.Channels)
      → c.state ≡ pre_connection
      → AllowedFrom (phase env s) (poll_state k env s c world channels)
  state_allowed pre_connection c world ch h =
      let kept = (read_packet-Keeps k env c world).state ∙ h in
      on_read_lem k env (AllowedFrom before_connect) ch _ (first_packet k env world ch)
        (read_packet k env c world) (λ w. inl refl)
        (λ p. first_allowed (read_packet k env c world).0 world ch p kept)
        (λ e. ap (phase env) kept) (ap (phase env) kept) (read_packet_total k env c world)
  state_allowed (processing_connect fut) c world ch h = connect_allowed c ch _ h
  state_allowed (response_connect res) c world ch h =
      after_send_lem k env (AllowedFrom answering_connect) c
        (k.mpsc.try_send ch c.tx (connack (to_connack res)))
        (λ ch'. goes_on k env c ch' reading_packet) (inr answered) (ap (phase env) h)
  state_allowed reading_packet c world ch h =
      let kept = (read_packet-Keeps k env c world).state ∙ h in
      on_read_lem k env (AllowedFrom reading) ch _ (serve_packet k env world ch)
        (read_packet k env c world) (λ w. inl refl) (λ p. inr requested) (λ e. ap (phase env) kept)
        (ap (phase env) kept) (read_packet_total k env c world)
  state_allowed (processing_service fut) c world ch h = service_allowed c ch _ h
  state_allowed (writing_packet res) c world ch h = write_allowed c res.packets ch h

  -- Each poll of a connection ends. Where it is pending the connection stays in its phase or makes the next
  -- move of: CONNECT read, connect service, CONNACK, then packet read, service and response in turn. Where
  -- it is ready or panics the default state is left, and it is ready without an error only while it writes.
  pub poll-IsAllowed :
      (c : Connection k env) (world : env.World) (channels : k.mpsc.Channels)
      → let (c', channels', result) = poll k env c world channels in
        IsAllowed env (phase env c.state) (phase env c'.state) result
  unfolding poll
  poll-IsAllowed c world ch =
      state_allowed c.state (record c { state = pre_connection }) world ch refl
