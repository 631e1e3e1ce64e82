-- ===== src/Coder/Decoder/SubscribeFrame.antt =====
-- A SUBSCRIBE of version 3.1.1, as MQTT writes it, through the three polls of the decoder that take it.
use aqua.Base.{
  ℕ, ◌+◌, ◌^◌, ◌<◌, ◌≡◌, refl, ap, ◌∙◌, true, false, List, [], ◌∷◌, ◌++◌, some, All, length, arith,
  is_empty, length-append, ltb, leb, ◌==◌, ◌-◌, le→ltb, le→leb,
}
use aqua.Outcome.{ok, >>=-ok}
use aqua.Bytes.{Bytes, index, advance, checked_sub, u16_bytes}
use aqua.Bytes.Cursor.{At, At-start, At-suc, At-byte_pair, advance-length}
use aqua.Wire.{encode_variable_bytes}
use aqua.Wire.VarInt.{decode-encode_variable_bytes, length-encode_variable_bytes}
use aqua.Property.{packet_id_try_from}
use aqua.Packet.Subscribe as SubscribePacket
use aqua.Packet.Subscribe.{Subscribe, default_subscribe}
use aqua.Packet.Subscribe.Filters.{
  Filter, IsFilter, filters_bytes, decode_payload-filters_bytes, length-filters_bytes,
}
use aqua.Coder.ControlPacket.{subscribe, undefined, decode_variable_header, decode_payload}
use aqua.Coder.FixedHeader.{decode_fixed_header}
use aqua.Coder.Decoder.{
  Decoder, done, fixed_header_decoded, variable_header_decoded, pending, ready, poll_decode,
  poll_done, poll_variable_header, poll_payload, read_fixed_header,
}
use aqua.Coder.Decoder.PublishHeader.{some_bytes_there}

module _ (id : ℕ) (f : Filter) (fs : List Filter) (good : All IsFilter (f ∷ fs)) where
  abbrev pub payload : Bytes
  payload = filters_bytes (f ∷ fs)

  abbrev pub size : ℕ
  size = 2 + length payload

  abbrev pub first : Bytes
  first = 0x82 ∷ encode_variable_bytes size

  abbrev pub headed : Subscribe
  headed = record default_subscribe { packet_id = id; payload_length = length payload }

  abbrev pub read : Subscribe
  read = record headed { topic_filters = f ∷ fs }

  some_payload : 0 < length payload
  some_payload = omega (arith, length-filters_bytes f fs)

  fixed_header_taken :
      (d : Decoder) (tail : Bytes)
      → size < 2 ^ 28
      → d.buf ≡ first ++ tail
      → read_fixed_header d ≡ ok (subscribe default_subscribe, size, tail)
  unfolding decode_fixed_header index
  fixed_header_taken d tail small holds =
      let buf = first ++ tail in
      let at : At buf 1 (encode_variable_bytes size ++ tail) = At-suc _ _ (At-start buf) in
      let gone : advance buf (1 + length (encode_variable_bytes size)) ≡ ok tail =
        ap (advance buf) (omega arith) ∙ advance-length first tail in
      rw (holds, decode-encode_variable_bytes size tail small at) (>>=-ok _ _ gone refl)

  first_poll :
      (d : Decoder) (tail : Bytes)
      → size < 2 ^ 28
      → d.state ≡ done
      → d.buf ≡ first ++ tail
      → poll_decode d ≡ (
        record d {
          state = fixed_header_decoded;
          tmp_packet = subscribe default_subscribe;
          remaining_length = size;
          remain_length_counter = 0;
          buf = tail;
        },
        pending true,
      )
  unfolding poll_decode poll_done
  first_poll d tail small state holds =
      let some_bytes : is_empty d.buf ≡ false = rw holds refl in
      let two : ltb (length d.buf) 2 ≡ false = rw holds (
        le→ltb _ 2 (
          omega (
            arith,
            (length-encode_variable_bytes size).0,
            length-append (encode_variable_bytes size) tail,
          ))) in
      rw (some_bytes, state, two, fixed_header_taken d tail small holds) refl

  id_read : (tail : Bytes) → packet_id_try_from (u16_bytes id ++ tail) 0 ≡ ok (id, 2)
  unfolding packet_id_try_from
  id_read tail = rw (At-byte_pair id tail (At-start (u16_bytes id ++ tail))) refl

  length_left : checked_sub size (2 - 0) ≡ ok (length payload)
  unfolding checked_sub
  length_left = rw (le→leb 2 size (omega arith)) (ap ok (omega arith))

  header_read :
      (version : ℕ) (tail : Bytes)
      → version < 5
      → SubscribePacket.decode_variable_header default_subscribe
          (u16_bytes id ++ tail)
          0
          size
          (some version)
        ≡ ok (headed, 2)
  unfolding SubscribePacket.decode_variable_header
  header_read version tail old =
      let before_5 : leb 5 version ≡ false = ground arith in
      rw (id_read tail, before_5) (>>=-ok _ _ length_left refl)

  second_poll :
      (d : Decoder) (version : ℕ) (rest : Bytes)
      → version < 5
      → d.state ≡ fixed_header_decoded
      → d.tmp_packet ≡ subscribe default_subscribe
      → d.remaining_length ≡ size
      → d.remain_length_counter ≡ 0
      → d.protocol_version ≡ some version
      → d.buf ≡ u16_bytes id ++ (payload ++ rest)
      → poll_decode d ≡ (
        record d {
          state = variable_header_decoded;
          tmp_packet = subscribe headed;
          remain_length_counter = 2;
          buf = payload ++ rest;
        },
        pending true,
      )
  unfolding poll_decode poll_variable_header decode_variable_header
  second_poll d version rest old state tmp len counter known holds =
      let some_bytes : is_empty d.buf ≡ false = unfold u16_bytes in rw holds refl in
      let taken : advance (u16_bytes id ++ (payload ++ rest)) 2 ≡ ok (payload ++ rest) =
        unfold u16_bytes in advance-length (_ ∷ _ ∷ []) (payload ++ rest) in
      let not_all : (2 == size) ≡ false = ground (arith, some_payload) in
      let counted : d.remain_length_counter + 2 ≡ 2 = omega (arith, counter) in
      rw
        (
          some_bytes,
          state,
          tmp,
          len,
          known,
          holds,
          header_read version (payload ++ rest) old,
          taken,
          counted,
          not_all,
        )
        refl

  third_poll :
      (d : Decoder) (rest : Bytes)
      → d.state ≡ variable_header_decoded
      → d.tmp_packet ≡ subscribe headed
      → d.buf ≡ payload ++ rest
      → poll_decode d ≡ (
        record d { state = done; tmp_packet = undefined; buf = rest },
        ready (ok (subscribe read)),
      )
  unfolding poll_decode poll_payload decode_payload
  third_poll d rest state tmp holds =
      let some_bytes : is_empty d.buf ≡ false = rw holds (
        some_bytes_there (payload ++ rest)
          (omega (arith, some_payload, length-append payload rest))) in
      rw
        (
          some_bytes,
          state,
          tmp,
          holds,
          decode_payload-filters_bytes f fs headed rest d.protocol_version good refl,
        )
        refl

  -- A decoder between two packets, whose version is below 5, that holds the bytes that MQTT gives a
  -- SUBSCRIBE and more, delivers at the third poll the packet with that id and those filters with their
  -- options, in their order, and leaves the bytes behind it in the buffer. There is a filter at least,
  -- each filter is valid UTF-8 whose length fits its two bytes, and the remaining length is below 2 ^ 28.
  pub subscribe_delivered :
      (d : Decoder) (version : ℕ) (rest : Bytes)
      → size < 2 ^ 28
      → version < 5
      → d.state ≡ done
      → d.protocol_version ≡ some version
      → let d1 =
          (poll_decode (record d { buf = first ++ (u16_bytes id ++ (payload ++ rest)) })).0 in
        let d2 = (poll_decode d1).0 in
        (((poll_decode d2).1 ≡ ready (ok (subscribe read)))
          × ((poll_decode d2).0.buf ≡ rest)
          × ((poll_decode d2).0.state ≡ done))
  subscribe_delivered d version rest small old state known =
      let tail = u16_bytes id ++ (payload ++ rest) in
      let d0 = record d { buf = first ++ tail } in
      let d1 = record d0 {
        state = fixed_header_decoded;
        tmp_packet = subscribe default_subscribe;
        remaining_length = size;
        remain_length_counter = 0;
        buf = tail;
      } in
      let d2 = record d1 {
        state = variable_header_decoded;
        tmp_packet = subscribe headed;
        remain_length_counter = 2;
        buf = payload ++ rest;
      } in
      rw
        (
          first_poll d0 tail small state refl,
          second_poll d1 version rest old refl refl refl refl known refl,
          third_poll d2 rest refl refl refl,
        )
        (refl, refl, refl)
