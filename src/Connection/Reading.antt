-- ===== src/Connection/Reading.antt =====
-- What a poll of the decoder leaves as it was, and a poll of a connection by its cases.
use aqua.Base.{
  ◌≢◌, ℕ, ◌≡◌, refl, Bool, true, false, [], ◌∷◌, Option, is_empty, ltb, length, if◌then◌else◌,
}
use aqua.Outcome.{Outcome, ok, err, panic, out_of_fuel}
use aqua.Coder.ControlPacket.{ControlPacket}
use aqua.Coder.ControlPacket as Packets
use aqua.Coder.Decoder as Decoder
use aqua.Coder.Total.{poll_decode_total}
use aqua.Channel.{SendResult, sent, full, closed}
use aqua.Session.{Backend}
use aqua.Connection.{
  Environment, Connection, ConnectionState, ConnectionError, ConnectionPoll, pending, ready,
  ready_err, panicked, endless, channel_closed, ReadResult, no_bytes_yet, bytes_read, read_error,
  read_packet, read_result, Polled, on_read, after_send, Treatment, ends, skips, sends, treated,
  decoded,
}

failed-version :
    {A : Type 0} (o : Outcome A) (f : A → Decoder.Decoder × Decoder.Poll) (d : Decoder.Decoder)
    (v : Option ℕ)
    → d.protocol_version ≡ v
    → ((a : A) → (f a).0.protocol_version ≡ v)
    → (Decoder.failed o f d).0.protocol_version ≡ v
failed-version (ok a) f d v h c = c a
failed-version (err e) f d v h c = h
failed-version panic f d v h c = h
failed-version out_of_fuel f d v h c = h

if-version :
    (b : Bool) (x y : Decoder.Decoder × Decoder.Poll) (v : Option ℕ)
    → x.0.protocol_version ≡ v
    → y.0.protocol_version ≡ v
    → (if b then x else y).0.protocol_version ≡ v
if-version true x y v hx hy = hx
if-version false x y v hx hy = hy

state-version :
    (s : Decoder.DecoderState) (d : Decoder.Decoder)
    → (Decoder.poll_state s d).0.protocol_version ≡ d.protocol_version
unfolding Decoder.poll_done Decoder.poll_variable_header Decoder.poll_payload
state-version Decoder.done d =
    if-version (ltb (length d.buf) 2) _ _ _ refl
      (failed-version (Decoder.read_fixed_header d) _ d _ refl λ a. refl)
state-version Decoder.fixed_header_decoded d =
    failed-version (Decoder.read_variable_header d) _ d _ refl λ a. if-version _ _ _ _ refl refl
state-version Decoder.variable_header_decoded d =
    failed-version (Packets.decode_payload d.tmp_packet d.buf d.protocol_version) _ _ _ refl
      λ a. refl

-- No poll of the decoder changes the protocol version that was set.
pub poll_decode-protocol_version :
    (d : Decoder.Decoder) → (Decoder.poll_decode d).0.protocol_version ≡ d.protocol_version
unfolding Decoder.poll_decode
poll_decode-protocol_version d = if-version (is_empty d.buf) _ _ _ refl (state-version d.state d)

module _ (k : Backend) (env : Environment) where
  -- What reading leaves as it was
  pub record Keeps (c c' : Connection k env) : Type 0 where
    pub state : c'.state ≡ c.state
    pub tx : c'.tx ≡ c.tx
    pub version : c'.protocol_version ≡ c.protocol_version
    pub decoder_version : c'.decoder.protocol_version ≡ c.decoder.protocol_version

  result-Keeps :
      (c : Connection k env) (r : ReadResult env.IoError) → Keeps c (read_result k env c r).0
  result-Keeps c (bytes_read []) = record {
    state = refl;
    tx = refl;
    version = refl;
    decoder_version = refl;
  }
  result-Keeps c (bytes_read (b ∷ bytes)) = record {
    state = refl;
    tx = refl;
    version = refl;
    decoder_version = poll_decode-protocol_version _;
  }
  result-Keeps c (read_error e) = record {
    state = refl;
    tx = refl;
    version = refl;
    decoder_version = refl;
  }
  result-Keeps c no_bytes_yet = record {
    state = refl;
    tx = refl;
    version = refl;
    decoder_version = poll_decode-protocol_version _;
  }

  pub read_packet-Keeps :
      (c : Connection k env) (world : env.World) → Keeps c (read_packet k env c world).0
  unfolding read_packet
  read_packet-Keeps c world = result-Keeps c (env.poll_read_buf world)

  -- A property of a poll that reads, by how the reading came out
  pub on_read_lem :
      (P : Polled k env → Type 0) (channels : k.mpsc.Channels) (wait : ConnectionState env)
      (next : Connection k env → ControlPacket → Polled k env)
      (r : Connection k env × ConnectionPoll env ControlPacket)
      → ((woken : Bool) → P (record r.0 { state = wait }, channels, pending woken))
      → ((packet : ControlPacket) → P (next r.0 packet))
      → ((e : ConnectionError env) → P (r.0, channels, ready_err e))
      → P (r.0, channels, panicked)
      → r.1 ≢ endless
      → P (on_read k env channels wait next r)
  on_read_lem P ch wait next (c, pending woken) hp hr he hx hf = hp woken
  on_read_lem P ch wait next (c, ready packet) hp hr he hx hf = hr packet
  on_read_lem P ch wait next (c, ready_err e) hp hr he hx hf = he e
  on_read_lem P ch wait next (c, panicked) hp hr he hx hf = hx
  on_read_lem P ch wait next (c, endless) hp hr he hx hf = absurd (hf refl)

  -- A property of a poll that sends
  pub after_send_lem :
      (P : Polled k env → Type 0) (c : Connection k env) (r : k.mpsc.Channels × SendResult)
      (next : k.mpsc.Channels → Polled k env)
      → P (next r.0)
      → P (c, r.0, ready_err channel_closed)
      → P (after_send k env c r next)
  after_send_lem P c (ch, sent) next h hc = h
  after_send_lem P c (ch, full p) next h hc = h
  after_send_lem P c (ch, closed p) next h hc = hc

  -- A property of one round of the loop over a response
  pub treated_lem :
      (P : Polled k env → Type 0) (t : Treatment) (c : Connection k env)
      (channels : k.mpsc.Channels) (packet : ControlPacket) (rest : k.mpsc.Channels → Polled k env)
      → ((channels : k.mpsc.Channels) → P (rest channels))
      → P (c, channels, ready tt)
      → ((channels : k.mpsc.Channels) → P (c, channels, ready_err channel_closed))
      → P (treated k env t c channels packet rest)
  treated_lem P ends c ch p rest hr hd hc = hd
  treated_lem P skips c ch p rest hr hd hc = hr ch
  treated_lem P sends c ch p rest hr hd hc = after_send_lem P c _ rest (hr _) (hc _)

  decoded_total : (r : Decoder.Poll) → r ≢ Decoder.ready out_of_fuel → decoded k env r ≢ endless
  decoded_total (Decoder.pending w) h e = cc
  decoded_total (Decoder.ready (ok p)) h e = cc
  decoded_total (Decoder.ready (err x)) h e = cc
  decoded_total (Decoder.ready panic) h e = cc
  decoded_total (Decoder.ready out_of_fuel) h e = h refl

  result_total :
      (c : Connection k env) (r : ReadResult env.IoError) → (read_result k env c r).1 ≢ endless
  result_total c (bytes_read []) e = cc
  result_total c (bytes_read (b ∷ bytes)) e = decoded_total _ (poll_decode_total _) e
  result_total c (read_error x) e = cc
  result_total c no_bytes_yet e = decoded_total _ (poll_decode_total _) e

  pub read_packet_total :
      (c : Connection k env) (world : env.World) → (read_packet k env c world).1 ≢ endless
  unfolding read_packet
  read_packet_total c world = result_total c (env.poll_read_buf world)
