-- ===== src/Coder/Encoder/Bare.antt =====
-- mqtt_coder/src/encoder.rs: packets without properties, such as services answer, are always encoded.
use aqua.Base.{
  ℕ, ◌≡◌, refl, Option, none, some, is_some, true, [], leb, false, if◌then◌else◌, length,
  Bool-cases, inl, inr,
}
use aqua.Outcome.{ok, unwrap, ◌>>=◌}
use aqua.Bytes.{Bytes, u16_bytes}
use aqua.Property.{QoS, qos0, qos1, qos2}
use aqua.Property.Writers.{reason_string_bytes, user_properties_bytes}
use aqua.Packet.Puback as Puback
use aqua.Packet.Puback.{Puback}
use aqua.Packet.Pubrec as Pubrec
use aqua.Packet.Pubrec.{Pubrec}
use aqua.Packet.Pubrel as Pubrel
use aqua.Packet.Pubrel.{Pubrel}
use aqua.Packet.Pubcomp as Pubcomp
use aqua.Packet.Pubcomp.{Pubcomp}
use aqua.Packet.Suback as Suback
use aqua.Packet.Suback.{Suback}
use aqua.Packet.Publish as PublishPacket
use aqua.Packet.Publish.{Publish, is_qos0}
use aqua.Coder.ControlPacket.{
  ControlPacket, publish, suback, puback, pubrec, pubrel, pubcomp, encode_header,
  encode_payload_chunk,
}
use aqua.Coder.Encoder.{encode_all}
use aqua.Coder.Encoder.Frame.{IsWellFormed, IsWritten, first_of, encode_all-IsFramed}
use aqua.Coder.Decoder.PublishId.{HasPublishId}

-- The encoder writes the packet as one frame behind what the buffer holds.
abbrev pub IsEncoded : Bytes → ControlPacket → Type 0
IsEncoded buffer packet =
    (out : Bytes) × (encode_all packet buffer ≡ ok out) × IsWritten (first_of packet) buffer out

pub encoded :
    (packet : ControlPacket) (buffer out : Bytes)
    → IsWellFormed packet
    → encode_all packet buffer ≡ ok out
    → IsEncoded buffer packet
encoded packet buffer out well e = (out, e, encode_all-IsFramed packet buffer out well e)

always_written :
    (packet : ControlPacket) (buffer : Bytes)
    → IsWellFormed packet
    → (out : Bytes) × (encode_all packet buffer ≡ ok out)
    → IsEncoded buffer packet
always_written packet buffer well (out, e) = encoded packet buffer out well e

abbrev pub puback_of : ℕ → ℕ → Puback
puback_of id version = record {
  packet_id = id;
  reason_code = none;
  puback_properties = none;
  protocol_version = version;
}

abbrev pub pubrec_of : ℕ → ℕ → Pubrec
pubrec_of id version = record {
  packet_id = id;
  reason_code = some Pubrec.success;
  pubrec_properties = none;
  protocol_version = version;
}

abbrev pub pubrel_of : ℕ → ℕ → Pubrel
pubrel_of id version = record {
  packet_id = id;
  pubrel_properties = none;
  reason_code = none;
  protocol_version = version;
}

abbrev pub pubcomp_of : ℕ → ℕ → Pubcomp
pubcomp_of id version = record {
  packet_id = id;
  pubcomp_reason = some Pubcomp.success;
  pubcomp_properties = none;
  protocol_version = version;
}

pub puback_of-IsEncoded :
    (id version : ℕ) (buffer : Bytes) → IsEncoded buffer (puback (puback_of id version))
unfolding encode_all encode_header encode_payload_chunk Puback.encode_header
    Puback.encode_payload_chunk Puback.measure Puback.reason_part
puback_of-IsEncoded id version buffer =
    always_written (puback (puback_of id version)) buffer tt (elim (Bool-cases (leb 5 version)) [
      | inl five ↦ rw five (_, refl)
      | inr four ↦ rw four (_, refl)
    ])

pub pubrec_of-IsEncoded :
    (id version : ℕ) (buffer : Bytes) → IsEncoded buffer (pubrec (pubrec_of id version))
unfolding encode_all encode_header encode_payload_chunk Pubrec.encode_header
    Pubrec.encode_payload_chunk Pubrec.build_bytes reason_string_bytes user_properties_bytes
    Pubrec.measure Pubrec.reason_part
pubrec_of-IsEncoded id version buffer =
    always_written (pubrec (pubrec_of id version)) buffer tt (elim (Bool-cases (leb 5 version)) [
      | inl five ↦ rw five (_, refl)
      | inr four ↦ rw four (_, refl)
    ])

pub pubrel_of-IsEncoded :
    (id version : ℕ) (buffer : Bytes) → IsEncoded buffer (pubrel (pubrel_of id version))
unfolding encode_all encode_header encode_payload_chunk Pubrel.encode_header
    Pubrel.encode_payload_chunk Pubrel.measure Pubrel.reason_part
pubrel_of-IsEncoded id version buffer =
    always_written (pubrel (pubrel_of id version)) buffer (λ e. refl)
      (elim (Bool-cases (leb 5 version)) [
        | inl five ↦ rw five (_, refl)
        | inr four ↦ rw four (_, refl)
      ])

pub pubcomp_of-IsEncoded :
    (id version : ℕ) (buffer : Bytes) → IsEncoded buffer (pubcomp (pubcomp_of id version))
unfolding encode_all encode_header encode_payload_chunk Pubcomp.encode_header
    Pubcomp.encode_payload_chunk Pubcomp.encode reason_string_bytes user_properties_bytes
    Pubcomp.measure Pubcomp.reason_part
pubcomp_of-IsEncoded id version buffer =
    always_written (pubcomp (pubcomp_of id version)) buffer (λ e. refl)
      (elim (Bool-cases (leb 5 version)) [
        | inl five ↦ rw five (_, refl)
        | inr four ↦ rw four (_, refl)
      ])

pub suback-IsEncoded :
    (p : Suback) (buffer : Bytes) → p.suback_properties ≡ none → IsEncoded buffer (suback p)
unfolding encode_all encode_header encode_payload_chunk Suback.encode_header
    Suback.encode_payload_chunk Suback.build_bytes reason_string_bytes user_properties_bytes
    Suback.measure Suback.property_part
suback-IsEncoded p buffer bare =
    always_written (suback p) buffer tt (elim (Bool-cases (leb 5 p.protocol_version)) [
      | inl five ↦ rw (five, bare) (_, refl)
      | inr four ↦ rw four (_, refl)
    ])

-- The packet id of a PUBLISH, where it needs one
id_bytes :
    (qos : QoS) (id : Option ℕ)
    → (is_qos0 qos ≡ false → is_some id ≡ true)
    → (out : Bytes) × ((if is_qos0 qos then ok [] else (do i ← unwrap id; ok (u16_bytes i)))
        ≡ ok out)
id_bytes qos0 id has = (_, refl)
id_bytes qos1 (some i) has = (_, refl)
id_bytes qos2 (some i) has = (_, refl)
id_bytes qos1 none has = absurd (cc (has refl))
id_bytes qos2 none has = absurd (cc (has refl))

pub publish-IsEncoded :
    (p : Publish) (buffer : Bytes)
    → HasPublishId (publish p)
    → length p.payload_data ≡ p.payload_length
    → IsEncoded buffer (publish p)
unfolding encode_all encode_header encode_payload_chunk PublishPacket.encode_header
    PublishPacket.encode_payload_chunk PublishPacket.variable_header
publish-IsEncoded p buffer has fits =
    let (bytes, e) = id_bytes p.qos p.packet_id has in
    always_written (publish p) buffer fits (rw e (_, refl))
