-- ===== src/Examples/PacketRuns.antt =====
-- The packets of mqtt_coder/src/mqtt.rs whose encoders announce a wrong length, and a reason.
use aqua.Base.{
  ◌+◌, ◌≤◌, ℕ, ◌≡◌, ◌<◌, refl, false, [], ◌∷◌, ◌++◌, replicate, none, some, arith, length,
}
use aqua.Outcome.{ok}
use aqua.Bytes.{Bytes, u16_bytes}
use aqua.Wire.{encode_variable_bytes}
use aqua.Property.Writers.{reason_string_bytes, user_properties_bytes}
use aqua.Packet.Pubrel as PubrelPacket
use aqua.Packet.Pubrel.Frame.{pubrel_encode_header_short}
use aqua.Packet.Pubcomp as PubcompPacket
use aqua.Packet.Connack as ConnackPacket
use aqua.Packet.Connack.Frame.{connack_encode_header_short}
use aqua.Packet.Connack.Reason.{banned}

abbrev reasonless_pubrel : PubrelPacket.Pubrel
reasonless_pubrel = record {
  packet_id = 7;
  reason_code = none;
  pubrel_properties = some PubrelPacket.new_properties;
  protocol_version = 5;
}

pubrel_encode_header_short_example :
    (announced : ℕ) × (PubrelPacket.encode_header reasonless_pubrel
      ≡ ok (0x62 ∷ encode_variable_bytes announced ++ u16_bytes 7))
    × (length (u16_bytes 7) + 2 + 0 ≤ announced)
unfolding PubrelPacket.encode reason_string_bytes user_properties_bytes
pubrel_encode_header_short_example =
    pubrel_encode_header_short reasonless_pubrel PubrelPacket.new_properties [] (omega arith) refl
      refl refl

abbrev reasonless_pubcomp : PubcompPacket.Pubcomp
reasonless_pubcomp = record {
  packet_id = 7;
  pubcomp_properties = some PubcompPacket.new_properties;
  pubcomp_reason = none;
  protocol_version = 5;
}

-- A reason of 127 letters
abbrev wordy_properties : ConnackPacket.ConnackProperties
wordy_properties = record {
  session_expiry_interval = none;
  receive_maximum = none;
  maximum_qos = none;
  retain_available = none;
  maximum_packet_size = none;
  assigned_client_identifier = none;
  topic_alias_maximum = none;
  reason_string = some (replicate 127 0x61);
  user_properties = [];
  wildcard_subscription_available = none;
  subscription_identifiers_available = none;
  shared_subscription_available = none;
  server_keep_alive = none;
  response_information = none;
  server_reference = none;
  authentication_method = none;
  authentication_data = none;
}

abbrev wordy : ConnackPacket.Connack
wordy = record {
  session_present = false;
  connect_reason = banned;
  connack_properties = some wordy_properties;
  version = 5;
}

wordy_written :
    ConnackPacket.connack_properties_bytes (some wordy_properties) ≡ ok (0x1f ∷ replicate 127 0x61)
unfolding ConnackPacket.connack_properties_bytes ConnackPacket.build_bytes user_properties_bytes
wordy_written = refl

connack_encode_header_short_example :
    (announced : ℕ) × (rest : Bytes) × (ConnackPacket.encode_header wordy
      ≡ ok (0x20 ∷ encode_variable_bytes announced ++ rest))
    × (announced < length rest)
connack_encode_header_short_example =
    connack_encode_header_short wordy (0x1f ∷ replicate 127 0x61) refl wordy_written (omega arith)
