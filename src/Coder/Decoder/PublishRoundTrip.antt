-- ===== src/Coder/Decoder/PublishRoundTrip.antt =====
-- A message that the encoder writes is read back by the decoder of the other side.
use aqua.Base.{
  ◌+◌, ◌^◌, ◌<◌, ◌≡◌, refl, sym, true, false, [], ◌∷◌, ◌++◌, some, length, arith, is_empty,
  length-append, append_assoc, take-length_append, drop-length_append, ◌==◌, ltb, le→ltb,
}
use aqua.Outcome.{ok, >>=-ok}
use aqua.Bytes.{Bytes}
use aqua.Wire.{encode_variable_bytes}
use aqua.Packet.Publish
use aqua.Packet.Publish.{Publish, first_byte}
use aqua.Packet.Publish.RoundTrip.{IsWritable, fresh, decode_variable_header-written}
use aqua.Coder.ControlPacket.{
  publish, undefined, decode_variable_header, decode_payload, encode_header, encode_payload_chunk,
}
use aqua.Coder.Decoder.{
  Decoder, done, fixed_header_decoded, variable_header_decoded, ready, pending, poll_decode,
  poll_variable_header, poll_payload, read_variable_header,
}
use aqua.Coder.Encoder.{encode_all}
use aqua.Bytes.Cursor.{advance-length}
use aqua.Coder.Decoder.PublishHeader.{some_bytes_there, poll_fixed_header}

module _ (p : Publish) (well : IsWritable p) (front : Bytes)
    (written : Publish.variable_header p ≡ ok front) where
  header_taken :
      (rest : Bytes)
      → decode_variable_header
          (publish (fresh p))
          (front ++ rest)
          0
          (length front + p.payload_length)
          (some p.protocol_version)
        ≡ ok (publish (record p { payload_data = []; protocol_version = 0 }), length front)
  unfolding decode_variable_header
  header_taken rest = >>=-ok _ _ (decode_variable_header-written p front rest well written) refl

  header_read :
      (d : Decoder) (rest : Bytes)
      → d.tmp_packet ≡ publish (fresh p)
      → d.remaining_length ≡ length front + p.payload_length
      → d.protocol_version ≡ some p.protocol_version
      → d.buf ≡ front ++ (p.payload_data ++ rest)
      → read_variable_header d
        ≡ ok (
          publish (record p { payload_data = []; protocol_version = 0 }),
          length front,
          p.payload_data ++ rest,
        )
  header_read d rest tmp len version holds =
      rw (tmp, len, version, holds)
        (>>=-ok _ _ (header_taken (p.payload_data ++ rest))
          (>>=-ok _ _ (advance-length front (p.payload_data ++ rest)) refl))

  -- The second poll takes the variable header. There is a payload, so that more is to come.
  poll_publish_header :
      (d : Decoder) (rest : Bytes)
      → 0 < p.payload_length
      → d.state ≡ fixed_header_decoded
      → d.tmp_packet ≡ publish (fresh p)
      → d.remaining_length ≡ length front + p.payload_length
      → d.remain_length_counter ≡ 0
      → d.protocol_version ≡ some p.protocol_version
      → d.buf ≡ front ++ (p.payload_data ++ rest)
      → poll_decode d ≡ (
        record d {
          state = variable_header_decoded;
          tmp_packet = publish (record p { payload_data = []; protocol_version = 0 });
          remain_length_counter = length front;
          buf = p.payload_data ++ rest;
        },
        pending true,
      )
  unfolding poll_decode poll_variable_header
  poll_publish_header d rest more state tmp len counter version holds =
      let there = length-append front (p.payload_data ++ rest) in
      let some_bytes : is_empty d.buf ≡ false = rw holds (
        some_bytes_there (front ++ (p.payload_data ++ rest))
          (omega (arith, more, well.payload, there, length-append p.payload_data rest))) in
      let counted : d.remain_length_counter + length front ≡ length front =
        omega (arith, counter) in
      let not_all : (length front == d.remaining_length) ≡ false = ground (arith, len, more) in
      rw (some_bytes, state, header_read d rest tmp len version holds, counted, not_all) refl

  -- The third poll takes the payload.
  poll_publish_payload :
      (d : Decoder) (rest : Bytes)
      → 0 < p.payload_length
      → d.state ≡ variable_header_decoded
      → d.tmp_packet ≡ publish (record p { payload_data = []; protocol_version = 0 })
      → d.buf ≡ p.payload_data ++ rest
      → poll_decode d ≡ (
        record d { state = done; tmp_packet = undefined; buf = rest },
        ready (ok (publish (record p { protocol_version = 0 }))),
      )
  unfolding poll_decode poll_payload decode_payload Publish.decode_payload
  poll_publish_payload d rest more state tmp holds =
      let there = length-append p.payload_data rest in
      let some_bytes : is_empty d.buf ≡ false =
        rw holds
          (some_bytes_there (p.payload_data ++ rest) (omega (arith, more, well.payload, there))) in
      let enough : ltb (length (p.payload_data ++ rest)) p.payload_length ≡ false =
        le→ltb _ _ (omega (arith, well.payload, there)) in
      rw
        (
          some_bytes,
          state,
          tmp,
          holds,
          enough,
          sym well.payload,
          take-length_append,
          drop-length_append,
        )
        refl

  -- The bytes of the message, in the parts that the decoder takes
  encoded-parts :
      (rest out : Bytes)
      → encode_all (publish p) [] ≡ ok out
      → out ++ rest
        ≡ (first_byte p ∷ encode_variable_bytes (length front + p.payload_length))
          ++ (front ++ (p.payload_data ++ rest))
  unfolding encode_all encode_header encode_payload_chunk Publish.encode_header
      Publish.encode_payload_chunk
  encoded-parts rest out encoded =
      let first = first_byte p ∷ encode_variable_bytes (length front + p.payload_length) in
      let same : out ≡ (first ++ front) ++ p.payload_data = cc (rw written at encoded) in
      rw (same, append_assoc, append_assoc) refl

  -- A message that has a payload, its packet id if it has one, and a remaining length below 2 ^ 28, and that
  -- has no properties before version 5, or with version 5 properties that can be read back, is encoded
  -- into bytes from which three polls of a decoder between two packets, which was set to the
  -- version of the message and holds those bytes and more, deliver that message, but for the
  -- version it notes, and leave the bytes behind it in the buffer.
  pub publish_round_trip :
      (d : Decoder) (rest out : Bytes)
      → 0 < p.payload_length
      → length front + p.payload_length < 2 ^ 28
      → d.state ≡ done
      → d.protocol_version ≡ some p.protocol_version
      → encode_all (publish p) [] ≡ ok out
      → let d1 = (poll_decode (record d { buf = out ++ rest })).0 in
        let d2 = (poll_decode d1).0 in
        (((poll_decode d2).1 ≡ ready (ok (publish (record p { protocol_version = 0 }))))
          × ((poll_decode d2).0.buf ≡ rest)
          × ((poll_decode d2).0.state ≡ done))
  publish_round_trip d rest out more small state version encoded =
      let d0 = record d { buf = out ++ rest } in
      let n = length front + p.payload_length in
      let tail = front ++ (p.payload_data ++ rest) in
      let first = poll_fixed_header p n small d0 tail state (encoded-parts rest out encoded) in
      let d1 = record d0 {
        state = fixed_header_decoded;
        tmp_packet = publish (fresh p);
        remaining_length = n;
        remain_length_counter = 0;
        buf = tail;
      } in
      let second = poll_publish_header d1 rest more refl refl refl refl version refl in
      let d2 = record d1 {
        state = variable_header_decoded;
        tmp_packet = publish (record p { payload_data = []; protocol_version = 0 });
        remain_length_counter = length front;
        buf = p.payload_data ++ rest;
      } in
      let third = poll_publish_payload d2 rest more refl refl refl in
      rw (first, second, third) (refl, refl, refl)
