-- ===== src/Packet/Publish/RoundTrip.antt =====
-- What `Publish` writes is read back: the variable header, with its properties.
use aqua.Base.{
  ℕ, suc, ◌+◌, ◌-◌, ◌/◌, ◌^◌, ◌<◌, ◌≡◌, refl, sym, ap, ◌∙◌, Bool, true, false, not, [], ◌++◌,
  Option, none, some, length, arith, length-append, le→ltb, append_assoc, bit_and, bit_or, ◌⊎◌, inl,
  inr, ◌==◌, if◌then◌else◌, leb,
}
use aqua.Outcome.{Outcome, ok, ◌>>=◌, >>=-eq-ok, >>=-ok, unwrap}
use aqua.Bytes.{Bytes, u16_bytes, checked_sub}
use aqua.Bytes.Cursor.{At, At-start, At-append, At-byte_pair, At-length}
use aqua.Utf8.{is_utf8}
use aqua.Wire.{decode_utf8_string, encode_variable_bytes}
use aqua.Wire.Text.{text_bytes, decode_utf8_string_lem, length-text_bytes}
use aqua.Property.{QoS, qos0, qos1, qos2, qos_try_from, topic_name_try_from, packet_id_try_from}
use aqua.Property.Writers.{cast_text_lem}
use aqua.Packet.Publish.{
  Publish, default_publish, is_qos0, qos_bits, first_byte, variable_header, decode_variable_header,
  packet_id_part, publish_properties_block, build_optional,
}
use aqua.Packet.Publish.Properties.{PublishProperties, build_bytes}
use aqua.Packet.Publish.Written.{IsReadable, property_block-build_bytes}
use aqua.Wire.VarInt.{decode-encode_variable_bytes}

-- Before version 5 a message has no properties; with version 5 it has some that can be read back.
abbrev pub HasForm : ℕ → Option PublishProperties → Type 0
HasForm version properties =
    ((version < 5) × (properties ≡ none))
    ⊎ ((version ≡ 5)
        × (p : PublishProperties) × (properties ≡ some p)
        × IsReadable p
        × (length (build_bytes p) < 2 ^ 28))

-- A message that can be written and read back
pub record IsWritable (p : Publish) : Type 0 where
  pub topic : is_utf8 p.topic_name ≡ true
  pub topic_fits : length p.topic_name < 2 ^ 16
  pub payload : length p.payload_data ≡ p.payload_length
  pub form : HasForm p.protocol_version p.pub_properties
  pub id : is_qos0 p.qos ≡ true → p.packet_id ≡ none

-- The packet that the fixed header makes: only the flags are set.
abbrev pub fresh : Publish → Publish
fresh p = record default_publish { dup = p.dup; qos = p.qos; retain = p.retain }

abbrev first_of : Bool → QoS → Bool → ℕ
first_of dup qos retain =
    bit_or (bit_or (bit_or 0x30 (if dup then 8 else 0)) (qos_bits qos)) (if retain then 1 else 0)

abbrev IsFirst : Bool → QoS → Bool → ℕ → Type 0
IsFirst dup qos retain b =
    (b / 16 ≡ 3)
    × (qos_try_from (bit_and b 0x06 / 2) ≡ ok qos)
    × (not (bit_and b 0x08 == 0) ≡ dup)
    × (not (bit_and b 0x01 == 0) ≡ retain)

first_of_lem :
    (dup : Bool) (qos : QoS) (retain : Bool) → IsFirst dup qos retain (first_of dup qos retain)
unfolding qos_try_from
first_of_lem true qos0 true = (refl, refl, refl, refl)
first_of_lem true qos0 false = (refl, refl, refl, refl)
first_of_lem true qos1 true = (refl, refl, refl, refl)
first_of_lem true qos1 false = (refl, refl, refl, refl)
first_of_lem true qos2 true = (refl, refl, refl, refl)
first_of_lem true qos2 false = (refl, refl, refl, refl)
first_of_lem false qos0 true = (refl, refl, refl, refl)
first_of_lem false qos0 false = (refl, refl, refl, refl)
first_of_lem false qos1 true = (refl, refl, refl, refl)
first_of_lem false qos1 false = (refl, refl, refl, refl)
first_of_lem false qos2 true = (refl, refl, refl, refl)
first_of_lem false qos2 false = (refl, refl, refl, refl)

-- The first byte of a `Publish` has its type and its three flags.
pub first_byte_lem : (p : Publish) → IsFirst p.dup p.qos p.retain (first_byte p)
unfolding first_byte
first_byte_lem p = first_of_lem p.dup p.qos p.retain

-- The packet id as it is written
abbrev id_bytes : QoS → Option ℕ → Outcome Bytes
id_bytes qos packet_id =
    if is_qos0 qos then ok [] else (do id ← unwrap packet_id; ok (u16_bytes id))

id_read :
    {buf : Bytes} {pos : ℕ} (i : ℕ) (rest : Bytes)
    → At buf pos (u16_bytes i ++ rest)
    → packet_id_part qos1 buf pos ≡ ok (some i, pos + 2)
unfolding packet_id_try_from
id_read {buf} {pos} i rest at =
    let behind : length buf ≡ pos + suc (suc (length rest)) = unfold u16_bytes in At-length at in
    rw (le→ltb (length buf) (pos + 1) (omega (arith, behind)), At-byte_pair i rest at) refl

id_stored :
    {buf : Bytes} {pos : ℕ} (packet_id : Option ℕ) (front rest : Bytes)
    → id_bytes qos1 packet_id ≡ ok front
    → At buf pos (front ++ rest)
    → packet_id_part qos1 buf pos ≡ ok (packet_id, pos + length front)
id_stored none front rest e at = cc
id_stored {buf} {pos} (some i) front rest e at =
    let same : front ≡ u16_bytes i = cc e in
    rw same (id_read i rest (rw same at at) ∙ unfold u16_bytes in refl)

id_part_lem :
    {buf : Bytes} {pos : ℕ} (qos : QoS) (packet_id : Option ℕ) (front rest : Bytes)
    → (is_qos0 qos ≡ true → packet_id ≡ none)
    → id_bytes qos packet_id ≡ ok front
    → At buf pos (front ++ rest)
    → packet_id_part qos buf pos ≡ ok (packet_id, pos + length front)
unfolding packet_id_try_from u16_bytes
id_part_lem {buf} {pos} qos0 id front rest h e at = rw (h refl) (ground (arith, e))
id_part_lem qos1 id front rest h e at = id_stored id front rest e at
id_part_lem qos2 id front rest h e at = id_stored id front rest e at

-- The properties as they are written, behind their length
abbrev pub property_bytes : ℕ → Option PublishProperties → Bytes
property_bytes version properties =
    let props = if version == 5 then build_optional properties else [] in
    if version == 5 then encode_variable_bytes (length props) ++ props else []

block_read :
    {buf : Bytes} {pos : ℕ} (p : PublishProperties) (rest : Bytes)
    → IsReadable p
    → length (build_bytes p) < 2 ^ 28
    → At buf pos ((encode_variable_bytes (length (build_bytes p)) ++ build_bytes p) ++ rest)
    → publish_properties_block buf pos
      ≡ ok (some p, pos + length (encode_variable_bytes (length (build_bytes p)) ++ build_bytes p))
block_read {buf} {pos} p rest well small h =
    let prefix = encode_variable_bytes (length (build_bytes p)) in
    let front : At buf pos (prefix ++ (build_bytes p ++ rest)) = rw append_assoc at h in
    let behind = At-append prefix (build_bytes p ++ rest) front in
    >>=-ok _ _ (decode-encode_variable_bytes (length (build_bytes p)) _ small front) (
      >>=-ok _ _ (property_block-build_bytes p rest well behind)
        (ap (λ n. ok (some p, n)) (omega (arith, length-append prefix (build_bytes p)))))

-- The properties are read back, where the version has any.
properties_read :
    {buf : Bytes} {pos : ℕ} (version : ℕ) (properties : Option PublishProperties) (rest : Bytes)
    → HasForm version properties
    → At buf pos (property_bytes version properties ++ rest)
    → (if leb 5 version then publish_properties_block buf pos else ok (none, pos))
      ≡ ok (properties, pos + length (property_bytes version properties))
properties_read {buf} {pos} version properties rest (inl (old, no_properties)) h =
    let before : leb 5 version ≡ false = ground (arith, old) in
    let other : (version == 5) ≡ false = ground (arith, old) in
    rw (before, other, no_properties) (ap (λ n. ok (none, n)) (omega arith))
properties_read {buf} {pos} version properties rest (inr (five, p, some_p, well, small)) h =
    rw (five, some_p) (block_read p rest well small (rw (five, some_p) at h))

-- A variable header is its topic, its packet id and its properties.
variable_header-parts :
    (p : Publish) (front : Bytes)
    → IsWritable p
    → variable_header p ≡ ok front
    → (ids : Bytes) × (id_bytes p.qos p.packet_id ≡ ok ids)
      × (front
          ≡ text_bytes p.topic_name ++ (ids ++ property_bytes p.protocol_version p.pub_properties))
unfolding variable_header
variable_header-parts p front well h =
    let (ids, e, h') = >>=-eq-ok (id_bytes p.qos p.packet_id) _ h in
    (ids, e, cc (h', cast_text_lem p.topic_name well.topic_fits))

-- The packet id is left as the fresh packet has it, `None`, where there is none.
kept_id {ℓ} :
    {A : Type ℓ} (qos : QoS) (packet_id : Option ℕ)
    → (is_qos0 qos ≡ true → packet_id ≡ none)
    → (f : Option ℕ → A) → f (if is_qos0 qos then none else packet_id) ≡ f packet_id
kept_id qos0 id h f = ap f (sym (h refl))
kept_id qos1 id h f = refl
kept_id qos2 id h f = refl

-- The variable header of a message, behind which its payload stands, is read back into the fresh
-- packet, and the position behind it returned.
pub decode_variable_header-written :
    (p : Publish) (front rest : Bytes)
    → IsWritable p
    → variable_header p ≡ ok front
    → decode_variable_header
        (fresh p)
        (front ++ rest)
        0
        (length front + p.payload_length)
        (some p.protocol_version)
      ≡ ok (record p { payload_data = []; protocol_version = 0 }, length front)
unfolding decode_variable_header topic_name_try_from checked_sub
decode_variable_header-written p front rest well h =
    let props = property_bytes p.protocol_version p.pub_properties in
    let (ids, e, same) = variable_header-parts p front well h in
    let start : At (front ++ rest) 0 (text_bytes p.topic_name ++ (ids ++ (props ++ rest))) =
      rw (same, append_assoc, append_assoc) (At-start _) in
    let behind = At-append (text_bytes p.topic_name) (ids ++ (props ++ rest)) start in
    let pos : 0 + length (text_bytes p.topic_name) ≡ 2 + length p.topic_name =
      omega (arith, length-text_bytes p.topic_name) in
    let topic : decode_utf8_string (front ++ rest) 0 ≡ ok (p.topic_name, 2 + length p.topic_name) =
      decode_utf8_string_lem p.topic_name (ids ++ (props ++ rest)) well.topic start
      ∙ ap (λ n. ok (p.topic_name, n)) (omega arith) in
    let at_id = rw pos at behind in
    let id = id_part_lem p.qos p.packet_id ids (props ++ rest) well.id e at_id in
    let at_props = At-append ids (props ++ rest) at_id in
    let end : (2 + length p.topic_name) + length ids + length props ≡ length front = ground (
      arith,
      same,
      length-append (text_bytes p.topic_name) (ids ++ props),
      length-append ids props,
      length-text_bytes p.topic_name,
    ) in
    let read = properties_read p.protocol_version p.pub_properties rest well.form at_props in
    let counted : checked_sub (length front + p.payload_length) (length front - 0)
        ≡ ok p.payload_length =
      ground arith in
    >>=-ok _ _ (>>=-ok _ _ topic refl) (
      >>=-ok _ _ id (
        >>=-ok _ _ (read ∙ ap (λ n. ok (p.pub_properties, n)) end) (
          >>=-ok _ _ counted (
            kept_id p.qos p.packet_id well.id (λ id. ok (
              record p { packet_id = id; payload_data = []; protocol_version = 0 },
              length front,
            ))))))
