-- ===== src/Packet/Connect/Will.antt =====
-- mqtt_coder/src/mqtt.rs: the will of a CONNECT of version 3.1.1, which has no will properties.
use aqua.Base.{
  ℕ, suc, ◌+◌, ◌*◌, ◌/◌, ◌%◌, ◌<◌, ◌≡◌, refl, sym, true, ◌∷◌, ◌++◌, Option, length, arith, ltb,
  ◌==◌, subst,
}
use aqua.Outcome.{Outcome, ok, err, insufficient_bytes}
use aqua.Bytes.{Bytes, u16_bytes}
use aqua.Bytes.Cursor.{At, At-start, At-append, At-suc, At-length}
use aqua.Utf8.{is_utf8}
use aqua.Wire.{encode_variable_bytes, decode_variable_length, decode_utf8_string}
use aqua.Wire.VarInt.{decode-encode_variable_bytes}
use aqua.Wire.Text.{text_bytes, length-text_bytes, decode_utf8_string_lem, decode_u16_bytes_lem}
use aqua.Property.{client_id_try_from, topic_name_try_from}
use aqua.Property.Loop.{property_block, property_loop}
use aqua.Packet.Connect.Properties.{will_arm}
use aqua.Packet.Connect.{Connect, decode_payload, decode_will}

module _ {buf : Bytes} {pos : ℕ} where
  zero_length_read :
      (rest : Bytes) → At buf pos (0 ∷ rest) → decode_variable_length buf pos ≡ ok (0, pos + 1)
  unfolding encode_variable_bytes
  zero_length_read rest h = decode-encode_variable_bytes 0 rest (omega arith) h

  -- A string whose length reaches behind the buffer
  long_string_refused :
      (n : ℕ) (rest : Bytes)
      → At buf pos (u16_bytes n ++ rest)
      → length rest < n
      → topic_name_try_from buf pos ≡ err insufficient_bytes
  unfolding topic_name_try_from decode_utf8_string
  long_string_refused n rest h long =
      let short : ltb (length buf) (pos + 2 + n) ≡ true =
        unfold u16_bytes in ground (arith, At-length h) in
      rw (decode_u16_bytes_lem n rest h, short) refl

empty_block {ℓ} :
    {S : Type ℓ} (arm : ℕ → ℕ → S → Outcome (S × ℕ)) (buf : Bytes) (pos : ℕ) (s : S)
    → property_block arm buf 0 pos s ≡ ok (s, pos)
unfolding property_block property_loop
empty_block arm buf pos s = let at_end : pos == pos + 0 ≡ true = ground arith in rw at_end refl

-- The bytes of a topic of one letter and more, up to 255
topic_bytes :
    (c : ℕ) (cs : Bytes) → length cs < 255 → text_bytes (c ∷ cs) ≡ 0 ∷ suc (length cs) ∷ c ∷ cs
unfolding text_bytes u16_bytes
topic_bytes c cs short =
    let high : suc (length cs) / 256 ≡ 0 = omega arith in
    let low : suc (length cs) % 256 ≡ suc (length cs) = omega arith in rw (high, low) refl

shifted_bytes :
    (c : ℕ) (rest : Bytes) (n : ℕ)
    → c < 256
    → n < 256
    → u16_bytes (n * 256 + c) ++ rest ≡ n ∷ c ∷ rest
unfolding u16_bytes
shifted_bytes c rest n byte small =
    let high : (n * 256 + c) / 256 ≡ n = omega arith in
    let low : (n * 256 + c) % 256 ≡ c = omega arith in rw (high, low) refl

module _ {buf : Bytes} {pos : ℕ} (c : ℕ) (cs tail : Bytes) (short : length cs < 255)
    (h : At buf pos (text_bytes (c ∷ cs) ++ tail)) where
  topic_stands : At buf pos (0 ∷ suc (length cs) ∷ c ∷ (cs ++ tail))
  topic_stands = subst (λ bytes. At buf pos (bytes ++ tail)) (topic_bytes c cs short) h

  late_stands : c < 256 → At buf (pos + 1) (u16_bytes (suc (length cs) * 256 + c) ++ (cs ++ tail))
  late_stands byte =
      subst (λ bytes. At buf (pos + 1) bytes)
        (sym (shifted_bytes c (cs ++ tail) (suc (length cs)) byte small)) (At-suc _ _ topic_stands)
    where
      small : suc (length cs) < 256
      small = omega arith

-- Where a string stands behind another
next_stands : (id rest : Bytes) → At (text_bytes id ++ rest) (0 + 2 + length id) rest
next_stands id rest =
    subst (λ pos. At (text_bytes id ++ rest) pos rest) (omega (arith, length-text_bytes id))
      (At-append (text_bytes id) rest (At-start (text_bytes id ++ rest)))

-- The decoder looks for the length of will properties, also where the packet is of version 3.1.1, which
-- has none: it takes the first byte of the topic's length for it, and reads the topic one byte late. So
-- the payload of a CONNECT of that version, a client id, a will topic of 1 to 255 bytes and what follows
-- it, is refused with InsufficientBytes, where fewer bytes follow the first of the topic than the number
-- that the length byte and that byte make.
pub decode_payload_will :
    (p : Connect) (id : Bytes) (c : ℕ) (cs tail : Bytes) (v : Option ℕ)
    → p.connect_flags.will_flag ≡ true
    → is_utf8 id ≡ true
    → c < 256
    → length cs < 255
    → length (cs ++ tail) < suc (length cs) * 256 + c
    → decode_payload p (text_bytes id ++ (text_bytes (c ∷ cs) ++ tail)) v ≡ err insufficient_bytes
unfolding decode_payload decode_will client_id_try_from
decode_payload_will p id c cs tail v will valid byte short long =
    let buf = text_bytes id ++ (text_bytes (c ∷ cs) ++ tail) in
    let start = next_stands id (text_bytes (c ∷ cs) ++ tail) in
    rw
      (
        decode_utf8_string_lem id _ valid (At-start buf),
        will,
        zero_length_read _ (topic_stands c cs tail short start),
        empty_block (will_arm buf) buf (0 + 2 + length id + 1) p.will_properties,
        long_string_refused _ _ (late_stands c cs tail short start byte) long,
      )
      refl
