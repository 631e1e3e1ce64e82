-- ===== src/Connection/Versions.antt =====
-- Which protocol version a connection decodes by.
use aqua.Base.{
  ℕ, ◌≡◌, refl, sym, ap, ◌∙◌, Bool, true, List, [], ◌∷◌, Option, is_some, Option-cases, inl, inr,
}
use aqua.Coder.ControlPacket.{ControlPacket, connack}
use aqua.Coder.Decoder as Decoder
use aqua.Session.{Backend, SessionManager}
use aqua.Connection.{
  Environment, Connection, ConnectionState, pre_connection, processing_connect, response_connect,
  reading_packet, processing_service, writing_packet, pending, FuturePoll, waits, answers, fails,
  new, Polled, goes_on, connect_answer, service_answer, version_of, first_packet, serve_packet,
  read_packet, treatment, write_packets, poll_state, poll,
}
use aqua.Connection.Responses.{Response, ConnackResponse, ConnackError, to_connack}
use aqua.Connection.Reading.{
  read_packet-Keeps, on_read_lem, after_send_lem, treated_lem, read_packet_total,
}

module _ (k : Backend) (env : Environment) where
  abbrev HasVersion : ConnectionState env → Option ℕ → Type 0
  HasVersion pre_connection v = Unit
  HasVersion s v = is_some v ≡ true

  -- The decoder has the connection's version, and past the CONNECT there is one.
  abbrev pub IsAgreed : Connection k env → Type 0
  IsAgreed c =
      (c.decoder.protocol_version ≡ c.protocol_version) × HasVersion c.state c.protocol_version

  -- The connections that polls lead to; a connection is not polled again after a poll that was ready.
  pub data Reachable : Connection k env → Type 0 where
    opened :
        (m : SessionManager k) (client_id : k.Uuid) (tx : k.mpsc.Sender)
        → Reachable (new k env m client_id tx).0
    polled :
        {c : Connection k env} (world : env.World) (channels : k.mpsc.Channels) (woken : Bool)
        → Reachable c
        → (poll k env c world channels).2 ≡ pending woken
        → Reachable (poll k env c world channels).0

  -- Both versions of `c` are `v`, and its state is the default one.
  record Holds (v : Option ℕ) (c : Connection k env) : Type 0 where
    state : c.state ≡ pre_connection
    version : c.protocol_version ≡ v
    decoder_version : c.decoder.protocol_version ≡ v

  default-HasVersion :
      (s : ConnectionState env) (v : Option ℕ) → s ≡ pre_connection → HasVersion s v
  default-HasVersion pre_connection v h = tt
  default-HasVersion (processing_connect fut) v h = cc
  default-HasVersion (response_connect res) v h = cc
  default-HasVersion reading_packet v h = cc
  default-HasVersion (processing_service fut) v h = cc
  default-HasVersion (writing_packet res) v h = cc

  Holds-IsAgreed : (v : Option ℕ) (c : Connection k env) → Holds v c → IsAgreed c
  Holds-IsAgreed v c h = (h.decoder_version ∙ sym h.version, default-HasVersion c.state _ h.state)

  read-Holds :
      (v : Option ℕ) (c : Connection k env) (world : env.World)
      → Holds v c
      → Holds v (read_packet k env c world).0
  read-Holds v c world h =
      let r = read_packet-Keeps k env c world in
      record {
        state = r.state ∙ h.state;
        version = r.version ∙ h.version;
        decoder_version = r.decoder_version ∙ h.decoder_version;
      }

  abbrev AgreedAfter : Polled k env → Type 0
  AgreedAfter r = IsAgreed r.0

  first_agreed :
      (v : Option ℕ) (c : Connection k env) (world : env.World) (channels : k.mpsc.Channels)
      (packet : ControlPacket)
      → Holds v c
      → AgreedAfter (first_packet k env world channels c packet)
  unfolding first_packet Decoder.set_protocol_version
  first_agreed v c world ch packet h = elim (Option-cases (version_of packet)) [
    | inl none_there ↦ rw (none_there, first_packet) (Holds-IsAgreed v c h)
    | inr (u, there) ↦ rw (there, first_packet) (refl, refl)
  ]

  -- A state past the CONNECT, put back
  goes_on_agreed :
      (v : Option ℕ) (c : Connection k env)
      → Holds v c
      → is_some v ≡ true
      → (c.decoder.protocol_version ≡ c.protocol_version) × (is_some c.protocol_version ≡ true)
  goes_on_agreed v c h has = (h.decoder_version ∙ sym h.version, ap is_some h.version ∙ has)

  connect_agreed :
      (v : Option ℕ) (c : Connection k env) (channels : k.mpsc.Channels)
      (r : env.ConnectFuture × FuturePoll ConnackResponse ConnackError)
      → Holds v c
      → is_some v ≡ true
      → AgreedAfter (connect_answer k env c channels r)
  connect_agreed v c ch (fut, waits) h has = goes_on_agreed v c h has
  connect_agreed v c ch (fut, answers res) h has = goes_on_agreed v c h has
  connect_agreed v c ch (fut, fails e) h has = Holds-IsAgreed v c h

  service_agreed :
      (v : Option ℕ) (c : Connection k env) (channels : k.mpsc.Channels)
      (r : env.ServiceFuture × FuturePoll Response env.ServiceError)
      → Holds v c
      → is_some v ≡ true
      → AgreedAfter (service_answer k env c channels r)
  service_agreed v c ch (fut, waits) h has = goes_on_agreed v c h has
  service_agreed v c ch (fut, answers res) h has = goes_on_agreed v c h has
  service_agreed v c ch (fut, fails e) h has = Holds-IsAgreed v c h

  write_agreed :
      (v : Option ℕ) (c : Connection k env) (packets : List ControlPacket)
      (channels : k.mpsc.Channels)
      → Holds v c
      → is_some v ≡ true
      → AgreedAfter (write_packets k env c packets channels)
  unfolding write_packets
  write_agreed v c [] channels h has = goes_on_agreed v c h has
  write_agreed v c (p ∷ ps) channels h has =
      treated_lem k env AgreedAfter (treatment p) c channels p _
        (λ ch. write_agreed v c ps ch h has) (Holds-IsAgreed v c h) (λ ch. Holds-IsAgreed v c h)

  state_agreed :
      (s : ConnectionState env) (v : Option ℕ) (c : Connection k env) (world : env.World)
      (channels : k.mpsc.Channels)
      → Holds v c
      → HasVersion s v
      → AgreedAfter (poll_state k env s c world channels)
  state_agreed pre_connection v c world ch h has =
      let r = read-Holds v c world h in
      on_read_lem k env AgreedAfter ch _ (first_packet k env world ch) (read_packet k env c world)
        (λ w. (r.decoder_version ∙ sym r.version, tt)) (λ p. first_agreed v _ world ch p r)
        (λ e. Holds-IsAgreed v _ r) (Holds-IsAgreed v _ r) (read_packet_total k env c world)
  state_agreed (processing_connect fut) v c world ch h has = connect_agreed v c ch _ h has
  state_agreed (response_connect res) v c world ch h has =
      after_send_lem k env AgreedAfter c (k.mpsc.try_send ch c.tx (connack (to_connack res)))
        (λ ch'. goes_on k env c ch' reading_packet) (goes_on_agreed v c h has)
        (Holds-IsAgreed v c h)
  state_agreed reading_packet v c world ch h has =
      let r = read-Holds v c world h in
      on_read_lem k env AgreedAfter ch _ (serve_packet k env world ch) (read_packet k env c world)
        (λ w. goes_on_agreed v _ r has) (λ p. goes_on_agreed v _ r has) (λ e. Holds-IsAgreed v _ r)
        (Holds-IsAgreed v _ r) (read_packet_total k env c world)
  state_agreed (processing_service fut) v c world ch h has = service_agreed v c ch _ h has
  state_agreed (writing_packet res) v c world ch h has = write_agreed v c res.packets ch h has

  poll-IsAgreed :
      (c : Connection k env) (world : env.World) (channels : k.mpsc.Channels)
      → IsAgreed c
      → IsAgreed (poll k env c world channels).0
  unfolding poll
  poll-IsAgreed c world ch (same, has) =
      state_agreed c.state c.protocol_version (record c { state = pre_connection }) world ch
        (record { state = refl; version = refl; decoder_version = same }) has

  -- In every connection that polls lead to, the decoder works with the version that the connection has noted,
  -- and in each phase after the CONNECT there is one: no later packet is decoded without a version.
  pub Reachable-IsAgreed : (c : Connection k env) → Reachable c → IsAgreed c
  unfolding new Decoder.new
  Reachable-IsAgreed _ (opened m u tx) = (refl, tt)
  Reachable-IsAgreed _ (polled {c} world ch woken r h) =
      poll-IsAgreed c world ch (Reachable-IsAgreed c r)
