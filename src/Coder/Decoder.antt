-- ===== src/Coder/Decoder.antt =====
-- mqtt_coder/src/decoder.rs: the decoder of a connection, one call of `poll_decode` at a time.
pub mod Steps
pub mod AckRemainder
pub mod PublishHeader
pub mod PublishRoundTrip
pub mod SubscribeFrame
pub mod PublishId
pub mod Delivered
use aqua.Base.{
  ℕ, ◌+◌, Bool, true, false, List, [], ◌∷◌, Option, none, ltb, ◌==◌, if◌then◌else◌, length,
  is_empty,
}
use aqua.Outcome.{Outcome, ok, err, panic, out_of_fuel, MqttError, ◌>>=◌}
use aqua.Bytes.{Bytes, advance}
use aqua.Coder.ControlPacket.{ControlPacket, undefined, decode_variable_header, decode_payload}
use aqua.Coder.FixedHeader.{decode_fixed_header}

pub data DecoderState : Type 0 where
  fixed_header_decoded variable_header_decoded done : DecoderState

pub record Decoder : Type 0 where
  pub state : DecoderState
  pub tmp_packet : ControlPacket
  pub protocol_version : Option ℕ
  pub remaining_length : ℕ
  pub remain_length_counter : ℕ
  pub buf : Bytes

-- `Poll::Pending`, with or without a call of the waker before, or `Poll::Ready`.
pub data Poll : Type 0 where
  pending : Bool → Poll
  ready : Outcome ControlPacket → Poll

unfoldable pub new : Decoder
new = record {
  state = done;
  tmp_packet = undefined;
  protocol_version = none;
  remaining_length = 0;
  remain_length_counter = 0;
  buf = [];
}

unfoldable pub set_protocol_version : Decoder → Option ℕ → Decoder
set_protocol_version d v = record d { protocol_version = v }

-- An error or a panic ends the poll; what `tmp_packet` holds then is of no use any more.
abbrev pub failed {ℓ} : {A : Type ℓ} → Outcome A → (A → Decoder × Poll) → Decoder → Decoder × Poll
failed (ok a) k d = k a
failed (err e) k d = (d, ready (err e))
failed panic k d = (d, ready panic)
failed out_of_fuel k d = (d, ready out_of_fuel)

abbrev pub read_fixed_header : Decoder → Outcome (ControlPacket × ℕ × Bytes)
read_fixed_header d = do
  (packet, next_pos, remaining_length) ← decode_fixed_header d.buf 0 d.protocol_version
  rest ← advance d.buf next_pos
  ok (packet, remaining_length, rest)

unfoldable pub poll_done : Decoder → Decoder × Poll
poll_done d =
    if ltb (length d.buf) 2
    then (d, pending true)
    else failed (read_fixed_header d)
        (λ r. (
          record d {
            state = fixed_header_decoded;
            tmp_packet = r.0;
            remaining_length = r.1;
            remain_length_counter = 0;
            buf = r.2;
          },
          pending true,
        ))
        d

abbrev pub read_variable_header : Decoder → Outcome (ControlPacket × ℕ × Bytes)
read_variable_header d = do
  (packet, size) ← decode_variable_header d.tmp_packet d.buf 0 d.remaining_length d.protocol_version
  rest ← advance d.buf size
  ok (packet, size, rest)

unfoldable pub poll_variable_header : Decoder → Decoder × Poll
poll_variable_header d =
    failed (read_variable_header d)
      (λ r.
        let d' = record d { buf = r.2; remain_length_counter = d.remain_length_counter + r.1 } in
        if d.remain_length_counter + r.1 == d.remaining_length
        then (record d' { state = done; tmp_packet = undefined }, ready (ok r.0))
        else (record d' { state = variable_header_decoded; tmp_packet = r.0 }, pending true))
      d

-- The buffer is taken before the payload is decoded, so that it is empty where that fails.
unfoldable pub poll_payload : Decoder → Decoder × Poll
poll_payload d =
    failed (decode_payload d.tmp_packet d.buf d.protocol_version)
      (λ r. (record d { state = done; tmp_packet = undefined; buf = r.1 }, ready (ok r.0)))
      (record d { buf = [] })

abbrev pub poll_state : DecoderState → Decoder → Decoder × Poll
poll_state done d = poll_done d
poll_state fixed_header_decoded d = poll_variable_header d
poll_state variable_header_decoded d = poll_payload d

unfoldable pub poll_decode : Decoder → Decoder × Poll
unfolding poll_done poll_variable_header poll_payload
poll_decode d = if is_empty d.buf then (d, pending false) else poll_state d.state d
