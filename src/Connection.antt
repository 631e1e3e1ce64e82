-- ===== src/Connection.antt =====
-- src/aqua/connection.rs: one connection, as its `poll` runs it.
pub mod Responses
pub mod Reading
pub mod Versions
pub mod Phases
pub mod Delivery
pub mod Writer
use aqua.Base.{ℕ, ◌≡◌, Bool, true, false, List, [], ◌∷◌, ◌++◌, Option, none, some, is_empty}
use aqua.Outcome.{Outcome, ok, err, panic, out_of_fuel, MqttError, unexpected}
use aqua.Bytes.{Bytes}
use aqua.Packet.Connect
use aqua.Packet.Connect.{Connect}
use aqua.Coder.ControlPacket.{
  ControlPacket, connect, disconnect, connack, publish, undefined, no_operation,
  disconnectcp_operation, subscribe, suback, pingreq, pingresp, unsubscribe, unsuback, puback,
  pubrec, pubrel, pubcomp,
}
use aqua.Coder.Decoder as Decoder
use aqua.Channel.{SendResult, sent, full, closed, Mpsc}
use aqua.Session.{Backend, SessionManager, register_client_id}
use Responses.{Response, ConnackResponse, ConnackError, to_connack}

-- `Poll<Result<R, E>>` of a service's future
pub data FuturePoll (R E : Type 0) : Type 0 where
  waits : FuturePoll R E
  answers : R → FuturePoll R E
  fails : E → FuturePoll R E

-- What `poll_read_buf` finds: bytes, of which zero mean the end of the stream
pub data ReadResult (E : Type 0) : Type 0 where
  no_bytes_yet : ReadResult E
  bytes_read : Bytes → ReadResult E
  read_error : E → ReadResult E

-- What a connection asks of code outside: the two services and their futures, and the socket. `World` is
-- all that can differ between two polls.
pub record Environment : Type 1 where
  pub World : Type 0
  pub IoError : Type 0
  pub ServiceError : Type 0
  pub ConnectFuture : Type 0
  pub ServiceFuture : Type 0
  pub poll_read_buf : World → ReadResult IoError
  pub connect_call : World → ControlPacket → ConnectFuture
  pub connect_poll : World → ConnectFuture → ConnectFuture × FuturePoll ConnackResponse ConnackError
  pub service_call : World → ControlPacket → ServiceFuture
  pub service_poll : World → ServiceFuture → ServiceFuture × FuturePoll Response ServiceError

pub data ConnectionState (env : Environment) : Type 0 where
  pre_connection : ConnectionState env
  processing_connect : env.ConnectFuture → ConnectionState env
  response_connect : ConnackResponse → ConnectionState env
  reading_packet : ConnectionState env
  processing_service : env.ServiceFuture → ConnectionState env
  writing_packet : Response → ConnectionState env

-- `Box<dyn std::error::Error>`, by where it comes from
pub data ConnectionError (env : Environment) : Type 0 where
  mqtt_error : MqttError → ConnectionError env
  closed_by_peer : ConnectionError env
  io_error : env.IoError → ConnectionError env
  connack_error : ConnackError → ConnectionError env
  service_error : env.ServiceError → ConnectionError env
  channel_closed : ConnectionError env

-- `Poll<Result<A, Box<dyn Error>>>`, a panic, and a decoder that would not end
pub data ConnectionPoll (env : Environment) (A : Type 0) : Type 0 where
  pending : Bool → ConnectionPoll env A
  ready : A → ConnectionPoll env A
  ready_err : ConnectionError env → ConnectionPoll env A
  panicked : ConnectionPoll env A
  endless : ConnectionPoll env A

-- The fields that `poll` reads; it uses neither the connection's own encoder nor its write buffer.
pub record Connection (k : Backend) (env : Environment) : Type 0 where
  pub client_id : k.Uuid
  pub tx : k.mpsc.Sender
  pub state : ConnectionState env
  pub decoder : Decoder.Decoder
  pub protocol_version : Option ℕ

-- The protocol version of a CONNECT
abbrev pub version_of : ControlPacket → Option ℕ
version_of (connect p) = some p.protocol_ver
version_of p = none

-- How the loop over a response treats a packet
pub data Treatment : Type 0 where
  ends skips sends : Treatment

abbrev pub treatment : ControlPacket → Treatment
treatment (disconnect p) = ends
treatment no_operation = skips
treatment p = sends

module _ (k : Backend) (env : Environment) where
  -- `tx` is the sender of a channel whose receiver the writer task holds.
  unfoldable pub new :
      SessionManager k → k.Uuid → k.mpsc.Sender → Connection k env × SessionManager k
  unfolding Decoder.new register_client_id
  new m client_id tx = (
    record {
      client_id = client_id;
      tx = tx;
      state = pre_connection;
      decoder = Decoder.new;
      protocol_version = none;
    },
    register_client_id k m client_id tx,
  )

  abbrev pub decoded : Decoder.Poll → ConnectionPoll env ControlPacket
  decoded (Decoder.pending woken) = pending woken
  decoded (Decoder.ready (ok packet)) = ready packet
  decoded (Decoder.ready (err e)) = ready_err (mqtt_error e)
  decoded (Decoder.ready panic) = panicked
  decoded (Decoder.ready out_of_fuel) = endless

  abbrev pub decode_more :
      Connection k env → Bytes → Connection k env × ConnectionPoll env ControlPacket
  decode_more c bytes =
      let r = Decoder.poll_decode (record c.decoder { buf = c.decoder.buf ++ bytes }) in
      (record c { decoder = r.0 }, decoded r.1)

  abbrev pub read_result :
      Connection k env
      → ReadResult env.IoError
      → Connection k env × ConnectionPoll env ControlPacket
  read_result c (bytes_read []) = (c, ready_err closed_by_peer)
  read_result c (bytes_read (b ∷ bytes)) = decode_more c (b ∷ bytes)
  read_result c (read_error e) = (c, ready_err (io_error e))
  read_result c no_bytes_yet = decode_more c []

  unfoldable pub read_packet :
      Connection k env → env.World → Connection k env × ConnectionPoll env ControlPacket
  read_packet c world = read_result c (env.poll_read_buf world)

  abbrev pub Polled : Type 0
  Polled = Connection k env × k.mpsc.Channels × ConnectionPoll env (Unit {0})

  -- A new state, with a call of the waker
  abbrev pub goes_on : Connection k env → k.mpsc.Channels → ConnectionState env → Polled
  goes_on c channels state = (record c { state = state }, channels, pending true)

  -- What a poll does with the outcome of `read_packet`; `wait` is the state to stay in.
  abbrev pub on_read :
      k.mpsc.Channels
      → ConnectionState env
      → (Connection k env → ControlPacket → Polled)
      → Connection k env × ConnectionPoll env ControlPacket
      → Polled
  on_read channels wait k' (c, pending woken) = (record c { state = wait }, channels, pending woken)
  on_read channels wait k' (c, ready packet) = k' c packet
  on_read channels wait k' (c, ready_err e) = (c, channels, ready_err e)
  on_read channels wait k' (c, panicked) = (c, channels, panicked)
  on_read channels wait k' (c, endless) = (c, channels, endless)

  unfoldable pub first_packet :
      env.World → k.mpsc.Channels → Connection k env → ControlPacket → Polled
  unfolding Decoder.set_protocol_version
  first_packet world channels c packet = elim (version_of packet) [
    | none ↦ (c, channels, ready_err (mqtt_error unexpected))
    | some version ↦
        goes_on
          (record c {
            protocol_version = some version;
            decoder = Decoder.set_protocol_version c.decoder (some version);
          })
          channels (processing_connect (env.connect_call world packet))
  ]

  -- After a `try_send`: a full channel drops the packet, and a closed one ends the connection.
  abbrev pub after_send :
      Connection k env → k.mpsc.Channels × SendResult → (k.mpsc.Channels → Polled) → Polled
  after_send c (channels, sent) rest = rest channels
  after_send c (channels, full packet) rest = rest channels
  after_send c (channels, closed packet) rest = (c, channels, ready_err channel_closed)

  abbrev pub serve_packet : env.World → k.mpsc.Channels → Connection k env → ControlPacket → Polled
  serve_packet world channels c packet =
      goes_on c channels (processing_service (env.service_call world packet))

  abbrev pub send_connack : Connection k env → k.mpsc.Channels → ConnackResponse → Polled
  send_connack c channels res =
      after_send c (k.mpsc.try_send channels c.tx (connack (to_connack res)))
        (λ channels. goes_on c channels reading_packet)

  abbrev pub connect_answer :
      Connection k env
      → k.mpsc.Channels
      → env.ConnectFuture × FuturePoll ConnackResponse ConnackError
      → Polled
  connect_answer c channels (fut, waits) =
      (record c { state = processing_connect fut }, channels, pending false)
  connect_answer c channels (fut, answers res) = goes_on c channels (response_connect res)
  connect_answer c channels (fut, fails e) = (c, channels, ready_err (connack_error e))

  abbrev pub service_answer :
      Connection k env
      → k.mpsc.Channels
      → env.ServiceFuture × FuturePoll Response env.ServiceError
      → Polled
  service_answer c channels (fut, waits) =
      (record c { state = processing_service fut }, channels, pending false)
  service_answer c channels (fut, answers res) = goes_on c channels (writing_packet res)
  service_answer c channels (fut, fails e) = (c, channels, ready_err (service_error e))

  abbrev pub treated :
      Treatment
      → Connection k env
      → k.mpsc.Channels
      → ControlPacket
      → (k.mpsc.Channels → Polled)
      → Polled
  treated ends c channels packet rest = (c, channels, ready tt)
  treated skips c channels packet rest = rest channels
  treated sends c channels packet rest = after_send c (k.mpsc.try_send channels c.tx packet) rest

  unfoldable pub write_packets : Connection k env → List ControlPacket → k.mpsc.Channels → Polled
  write_packets c [] channels = goes_on c channels reading_packet
  write_packets c (packet ∷ packets) channels =
      treated (treatment packet) c channels packet (write_packets c packets)

  -- `std::mem::take` has left the default, `PreConnection`, in `c`: an early return keeps that.
  abbrev pub poll_state :
      ConnectionState env → Connection k env → env.World → k.mpsc.Channels → Polled
  poll_state pre_connection c world channels =
      on_read channels pre_connection (first_packet world channels) (read_packet c world)
  poll_state (processing_connect fut) c world channels =
      connect_answer c channels (env.connect_poll world fut)
  poll_state (response_connect res) c world channels = send_connack c channels res
  poll_state reading_packet c world channels =
      on_read channels reading_packet (serve_packet world channels) (read_packet c world)
  poll_state (processing_service fut) c world channels =
      service_answer c channels (env.service_poll world fut)
  poll_state (writing_packet res) c world channels = write_packets c res.packets channels

  unfoldable pub poll : Connection k env → env.World → k.mpsc.Channels → Polled
  unfolding read_packet first_packet write_packets to_connack
  poll c world channels = poll_state c.state (record c { state = pre_connection }) world channels
