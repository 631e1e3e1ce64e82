-- ===== src/Coder/Encoder.antt =====
-- mqtt_coder/src/encoder.rs: the encoder of a connection.
pub mod Bare
pub mod Frame
pub mod Total
pub mod Polls
use aqua.Base.{Bool, true, false, List, [], ◌∷◌, ◌++◌, Option, none, some}
use aqua.Outcome.{Outcome, ok, err, panic, out_of_fuel, ◌>>=◌}
use aqua.Bytes.{Bytes}
use aqua.Coder.ControlPacket.{ControlPacket, encode_header, encode_payload_chunk}

pub data EncodeState : Type 0 where
  header payload done : EncodeState

abbrev pub append_chunk : Bytes → Option Bytes → Bytes
append_chunk buffer none = buffer
append_chunk buffer (some chunk) = buffer ++ chunk

-- The buffer with the packet behind what it held. `encode_all` does not look at the encoder's state.
unfoldable pub encode_all : ControlPacket → Bytes → Outcome Bytes
encode_all packet buffer = do
  fixed_header ← encode_header packet
  chunk ← encode_payload_chunk packet
  ok (append_chunk (buffer ++ fixed_header) chunk)

-- A poll is always ready: with `Some(())` after it wrote, with `None` where nothing is left.
unfoldable pub poll_encode :
    EncodeState → ControlPacket → Bytes → Outcome (EncodeState × Bytes × Bool)
poll_encode header packet buffer = do
  fixed_header ← encode_header packet
  ok (payload, buffer ++ fixed_header, true)
poll_encode payload packet buffer = do
  chunk ← encode_payload_chunk packet
  elim chunk [ some c ↦ ok (payload, buffer ++ c, true) | none ↦ ok (done, buffer, false) ]
poll_encode done packet buffer = ok (done, buffer, false)
