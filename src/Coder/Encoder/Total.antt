-- ===== src/Coder/Encoder/Total.antt =====
-- The encoder ends on every packet.
use aqua.Base.{
  ℕ, List, [], ◌∷◌, Option, none, some, leb, ◌==◌, not, ◌&&◌, ◌++◌, inl, inr, Bool-cases,
  Option-cases,
}
use aqua.Outcome.{ok, Ends, Ends-ok, Ends-err, Ends-bind, Ends-if, Ends-unwrap, ends_rules, ◌>>=◌}
use aqua.Bytes.{Bytes}
use aqua.Property.{UserProperty}
use aqua.Property.Writers.{checked_text, reason_string_bytes, user_properties_bytes}
use aqua.Packet.Connack
use aqua.Packet.Puback
use aqua.Packet.Pubrec
use aqua.Packet.Pubrel
use aqua.Packet.Pubcomp
use aqua.Packet.Suback
use aqua.Packet.Unsuback
use aqua.Packet.Publish
use aqua.Packet.Ping.{pingresp_encode_header, pingresp_encode_payload_chunk}
use aqua.Coder.ControlPacket.{
  ControlPacket, connect, disconnect, connack, publish, undefined, no_operation,
  disconnectcp_operation, subscribe, suback, pingreq, pingresp, unsubscribe, unsuback, puback,
  pubrec, pubrel, pubcomp, encode_header, encode_payload_chunk,
}
use aqua.Coder.Encoder.{encode_all}

checked_text-Ends : (s : Bytes) → Ends (checked_text s)
unfolding checked_text
checked_text-Ends s = search ends_rules

reason_string_bytes-Ends : (c : Option Bytes) → Ends (reason_string_bytes c)
unfolding reason_string_bytes
reason_string_bytes-Ends none = Ends-ok _
reason_string_bytes-Ends (some c) = search (ends_rules, checked_text-Ends)

user_properties_bytes-Ends : (us : List UserProperty) → Ends (user_properties_bytes us)
unfolding user_properties_bytes
user_properties_bytes-Ends [] = Ends-ok _
user_properties_bytes-Ends (u ∷ us) = Ends-bind _ _ (checked_text-Ends u.key) λ key.
    Ends-bind _ _ (checked_text-Ends u.value)
      λ value. Ends-bind _ _ (user_properties_bytes-Ends us) λ rest. Ends-ok _

-- The two properties that the acknowledgements share
properties-Ends :
    (reason : Option Bytes) (users : List UserProperty)
    → Ends (do r ← reason_string_bytes reason; us ← user_properties_bytes users; ok (r ++ us))
properties-Ends reason users =
    Ends-bind _ _ (reason_string_bytes-Ends reason)
      λ r. Ends-bind _ _ (user_properties_bytes-Ends users) λ us. Ends-ok _

puback-Ends : (p : Puback.Puback) → Ends (Puback.encode_header p)
unfolding Puback.encode_header Puback.measure Puback.build_bytes
puback-Ends p = Ends-bind _ _ measured λ m. Ends-ok _
  where
    measured : Ends (Puback.measure p)
    measured = elim (Bool-cases (leb 5 p.protocol_version)) [
      | inr old ↦ rw (old, Puback.measure) (Ends-ok _)
      | inl new ↦ elim (Option-cases p.reason_code) [
        | inl absent ↦ rw (new, absent, Puback.measure) (Ends-ok _)
        | inr (r, there) ↦
            rw (new, there, Puback.measure) (Ends-bind _ _ (properties-Ends _ _) λ pro. Ends-ok _)
      ]
    ]

pubrec-Ends : (p : Pubrec.Pubrec) → Ends (Pubrec.encode_header p)
unfolding Pubrec.encode_header Pubrec.measure Pubrec.build_bytes
pubrec-Ends p = Ends-bind _ _ measured λ m. Ends-ok _
  where
    measured : Ends (Pubrec.measure p)
    measured = elim (Bool-cases (leb 5 p.protocol_version)) [
      | inr old ↦ rw (old, Pubrec.measure) (Ends-ok _)
      | inl new ↦ elim (Option-cases p.reason_code) [
        | inl absent ↦ rw (new, absent, Pubrec.measure) (Ends-ok _)
        | inr (r, there) ↦
            rw (new, there, Pubrec.measure) (Ends-bind _ _ (properties-Ends _ _) λ pro. Ends-ok _)
      ]
    ]

suback-Ends : (p : Suback.Suback) → Ends (Suback.encode_header p)
unfolding Suback.encode_header Suback.measure Suback.build_bytes
suback-Ends p =
    Ends-bind _ _
      (Ends-if (leb 5 p.protocol_version) _ _ (Ends-bind _ _ (properties-Ends _ _) λ pro. Ends-ok _)
        (Ends-ok _))
      λ m. Ends-ok _

unsuback-Ends : (p : Unsuback.Unsuback) → Ends (Unsuback.encode_header p)
unfolding Unsuback.encode_header Unsuback.measure Unsuback.build_bytes
unsuback-Ends p =
    Ends-bind _ _
      (Ends-if (leb 5 p.protocol_version) _ _ (Ends-bind _ _ (properties-Ends _ _) λ pro. Ends-ok _)
        (Ends-ok _))
      λ m. Ends-ok _

pubrel-Ends : (p : Pubrel.Pubrel) → Ends (Pubrel.encode_header p)
unfolding Pubrel.encode_header Pubrel.measure Pubrel.encode
pubrel-Ends p =
    Ends-bind _ _
      (Ends-if (leb 5 p.protocol_version && not (Pubrel.omit p)) _ _
        (Ends-bind _ _ (properties-Ends _ _) λ pro. Ends-ok _) (Ends-ok _))
      λ m. Ends-ok _

pubcomp-Ends : (p : Pubcomp.Pubcomp) → Ends (Pubcomp.encode_header p)
unfolding Pubcomp.encode_header Pubcomp.measure Pubcomp.encode
pubcomp-Ends p =
    Ends-bind _ _
      (Ends-if (leb 5 p.protocol_version && not (Pubcomp.omit p)) _ _
        (Ends-bind _ _ (properties-Ends _ _) λ pro. Ends-ok _) (Ends-ok _))
      λ m. Ends-ok _

optional_text-Ends : (c : Option Bytes) (id : ℕ) → Ends (Connack.optional_text c id)
optional_text-Ends none id = Ends-ok _
optional_text-Ends (some c) id = Ends-bind _ _ (checked_text-Ends c) λ text. Ends-ok _

connack_properties-Ends :
    (p : Option Connack.ConnackProperties) → Ends (Connack.connack_properties_bytes p)
unfolding Connack.connack_properties_bytes Connack.build_bytes
connack_properties-Ends none = Ends-ok _
connack_properties-Ends (some p) =
    Ends-bind _ _ (user_properties_bytes-Ends p.user_properties) λ users.
      Ends-bind _ _ (optional_text-Ends p.response_information 0x1a) λ response.
        Ends-bind _ _ (optional_text-Ends p.server_reference 0x1c) λ server.
          Ends-bind _ _ (optional_text-Ends p.authentication_method 0x15) λ method. Ends-ok _

connack-Ends : (p : Connack.Connack) → Ends (Connack.encode_header p)
unfolding Connack.encode_header
connack-Ends p =
    Ends-bind _ _
      (Ends-if (p.version == 5) _ _ (connack_properties-Ends p.connack_properties) (Ends-ok _))
      λ props. Ends-ok _

publish-Ends : (p : Publish.Publish) → Ends (Publish.encode_header p)
unfolding Publish.encode_header Publish.variable_header
publish-Ends p =
    Ends-bind _ _
      (Ends-bind _ _
        (Ends-if (Publish.is_qos0 p.qos) _ _ (Ends-ok _)
          (Ends-bind _ _ (Ends-unwrap p.packet_id) λ id. Ends-ok _))
        λ id. Ends-ok _)
      λ front. Ends-ok _

header-Ends : (packet : ControlPacket) → Ends (encode_header packet)
unfolding encode_header pingresp_encode_header
header-Ends (connack p) = connack-Ends p
header-Ends (suback p) = suback-Ends p
header-Ends (puback p) = puback-Ends p
header-Ends (pubrec p) = pubrec-Ends p
header-Ends (pubrel p) = pubrel-Ends p
header-Ends (pubcomp p) = pubcomp-Ends p
header-Ends (unsuback p) = unsuback-Ends p
header-Ends (publish p) = publish-Ends p
header-Ends pingresp = Ends-ok _
header-Ends (connect p) = Ends-err _
header-Ends (disconnect p) = Ends-err _
header-Ends (subscribe p) = Ends-err _
header-Ends (unsubscribe p) = Ends-err _
header-Ends undefined = Ends-err _
header-Ends no_operation = Ends-err _
header-Ends disconnectcp_operation = Ends-err _
header-Ends pingreq = Ends-err _

chunk-Ends : (packet : ControlPacket) → Ends (encode_payload_chunk packet)
unfolding encode_payload_chunk Connack.encode_payload_chunk Puback.encode_payload_chunk
    Pubrec.encode_payload_chunk Pubrel.encode_payload_chunk Pubcomp.encode_payload_chunk
    Suback.encode_payload_chunk Unsuback.encode_payload_chunk Publish.encode_payload_chunk
    pingresp_encode_payload_chunk
chunk-Ends (connack p) = Ends-ok _
chunk-Ends (suback p) = Ends-ok _
chunk-Ends (puback p) = Ends-ok _
chunk-Ends (pubrec p) = Ends-ok _
chunk-Ends (pubrel p) = Ends-ok _
chunk-Ends (pubcomp p) = Ends-ok _
chunk-Ends (unsuback p) = Ends-ok _
chunk-Ends (publish p) = Ends-ok _
chunk-Ends pingresp = Ends-ok _
chunk-Ends (connect p) = Ends-err _
chunk-Ends (disconnect p) = Ends-err _
chunk-Ends (subscribe p) = Ends-err _
chunk-Ends (unsubscribe p) = Ends-err _
chunk-Ends undefined = Ends-err _
chunk-Ends no_operation = Ends-err _
chunk-Ends disconnectcp_operation = Ends-err _
chunk-Ends pingreq = Ends-err _

pub encode_all-Ends : (packet : ControlPacket) (buffer : Bytes) → Ends (encode_all packet buffer)
unfolding encode_all
encode_all-Ends packet buffer =
    Ends-bind _ _ (header-Ends packet)
      λ header. Ends-bind _ _ (chunk-Ends packet) λ chunk. Ends-ok _
