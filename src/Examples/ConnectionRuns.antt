-- ===== src/Examples/ConnectionRuns.antt =====
-- src/aqua/connection.rs with the services of src/main.rs.
use aqua.Base.{
  zero, suc, sym, append-nil, ◌≢◌, ◌≤◌, length, take, arith, ℕ, ◌≡◌, refl, false, List, [], ◌∷◌,
  ◌++◌, none, some, All,
}
use aqua.Bytes.{Bytes}
use aqua.Packet.Disconnect.{default_disconnect}
use aqua.Coder.ControlPacket.{ControlPacket, disconnect, pingresp, pingreq, no_operation}
use aqua.Coder.Decoder as Decoder
use aqua.Channel.{sent, Single}
use aqua.Connection.{
  Environment, Connection, response_connect, pending, no_bytes_yet, answers, new, write_packets,
  poll, read_packet,
}
use aqua.Connection.Responses.{ConnackResponse}
use aqua.Connection.Phases.{IsAllowed, phase, poll-IsAllowed}
use aqua.Connection.Versions.{IsAgreed, opened, polled, Reachable-IsAgreed}
use aqua.Connection.Delivery.{
  success_connack, to_send, IsDelivered, write_packets-IsDelivered, IsAnswered, poll_connack,
}
use aqua.Packet.Ping.{pingresp_encode_header, pingresp_encode_payload_chunk}
use aqua.Coder.ControlPacket.{encode_header, encode_payload_chunk}
use aqua.Coder.Encoder.{encode_all}
use aqua.Connection.Writer.{WriteResult, wrote, write_error, Socket, shut_down, endless, write_loop}
use aqua.Connection.Writer.Stream.{IsStreamed, write_loop-IsStreamed, write_loop_total}
use aqua.Server.{serve_request, serve_connect}
use aqua.Server.Answers.{serve_request-IsEncoded}
use aqua.Coder.Encoder.Bare.{IsEncoded}
use aqua.Examples.SessionRuns.{small_backend, empty_manager}

-- A socket with nothing to read, and services that answer at once
abbrev quiet : Environment
quiet = record {
  World = Unit {0};
  IoError = ℕ;
  ServiceError = ℕ;
  ConnectFuture = ControlPacket;
  ServiceFuture = ControlPacket;
  poll_read_buf = λ world. no_bytes_yet;
  connect_call = λ world packet. packet;
  connect_poll = λ world packet. (packet, answers (serve_connect packet));
  service_call = λ world packet. packet;
  service_poll = λ world packet. (packet, answers (serve_request packet));
}

abbrev fresh_connection : Connection small_backend quiet
fresh_connection = (new small_backend quiet empty_manager 1 0).0

abbrev idle : Single
idle = ([], false)

waits_for_bytes : (poll small_backend quiet fresh_connection tt idle).2 ≡ pending false
unfolding poll read_packet new Decoder.poll_decode Decoder.new
waits_for_bytes = refl

Reachable-IsAgreed_example :
    IsAgreed small_backend quiet (poll small_backend quiet fresh_connection tt idle).0
Reachable-IsAgreed_example =
    Reachable-IsAgreed small_backend quiet (poll small_backend quiet fresh_connection tt idle).0
      (polled tt idle false (opened empty_manager 1 0) waits_for_bytes)

abbrev answering : Connection small_backend quiet
answering = record {
  client_id = 1;
  tx = 0;
  state =
      response_connect (record { session_present = false; version = 4; connack_properties = none });
  decoder = Decoder.new;
  protocol_version = some 4;
}

abbrev accepted : ConnackResponse
accepted = record { session_present = false; version = 4; connack_properties = none }

poll-IsAllowed_example :
    let (c', channels', result) = poll small_backend quiet answering tt idle in
    IsAllowed quiet (phase quiet answering.state) (phase quiet c'.state) result
poll-IsAllowed_example = poll-IsAllowed small_backend quiet answering tt idle

poll_connack_example :
    IsAnswered small_backend quiet 0 idle
      (success_connack small_backend quiet accepted)
      (poll small_backend quiet answering tt idle)
      sent
poll_connack_example = poll_connack small_backend quiet answering tt idle accepted refl

abbrev last_words : List ControlPacket
last_words = pingresp ∷ no_operation ∷ disconnect default_disconnect ∷ pingresp ∷ []

write_packets-IsDelivered_example :
    IsDelivered small_backend quiet 0 idle
      (to_send last_words)
      (write_packets small_backend quiet answering last_words idle)
write_packets-IsDelivered_example =
    write_packets-IsDelivered small_backend quiet answering last_words idle

serve_request-IsEncoded_example : All (IsEncoded []) (serve_request pingreq).packets
serve_request-IsEncoded_example = serve_request-IsEncoded pingreq []

-- A socket that takes one byte at a time
abbrev one_byte : Bytes → Bytes → Bytes × WriteResult
one_byte s [] = (s, wrote 0)
one_byte s (b ∷ buf) = (s ++ (b ∷ []), wrote 1)

one_byte_wrote :
    (s buf : Bytes) (n : ℕ)
    → (one_byte s buf).1 ≡ wrote n
    → (n ≤ length buf) × ((one_byte s buf).0 ≡ s ++ take n buf)
one_byte_wrote s [] zero h = (omega arith, sym (append-nil s))
one_byte_wrote s [] (suc n) h = cc
one_byte_wrote s (b ∷ buf) n h = ground arith

one_byte_error : (s buf : Bytes) → (one_byte s buf).1 ≡ write_error → (one_byte s buf).0 ≡ s
one_byte_error s [] h = cc
one_byte_error s (b ∷ buf) h = cc

abbrev slow_socket : Socket
slow_socket = record {
  State = Bytes;
  written = λ s. s;
  write_buf = one_byte;
  write_buf-wrote = one_byte_wrote;
  write_buf-error = one_byte_error;
}

slow_shut_down : (write_loop slow_socket (pingresp ∷ []) []).1 ≡ shut_down
unfolding write_loop encode_all encode_header encode_payload_chunk pingresp_encode_header
    pingresp_encode_payload_chunk
slow_shut_down = refl

write_loop-IsStreamed_example :
    IsStreamed slow_socket (pingresp ∷ []) [] [] (write_loop slow_socket (pingresp ∷ []) []).0
write_loop-IsStreamed_example = write_loop-IsStreamed slow_socket (pingresp ∷ []) [] slow_shut_down

write_loop_total_example : (write_loop slow_socket (pingresp ∷ []) []).1 ≢ endless
write_loop_total_example = write_loop_total slow_socket (pingresp ∷ []) []
