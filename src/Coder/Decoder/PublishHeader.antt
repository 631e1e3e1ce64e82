-- ===== src/Coder/Decoder/PublishHeader.antt =====
-- The poll of a decoder that takes the fixed header of a Publish.
use aqua.Base.{
  ℕ, ◌+◌, ◌^◌, ◌<◌, ◌≡◌, refl, ap, ◌∙◌, true, false, [], ◌∷◌, ◌++◌, Option, length, arith, is_empty,
  length-append, ltb, le→ltb,
}
use aqua.Outcome.{ok, >>=-ok}
use aqua.Bytes.{Bytes, index, advance}
use aqua.Bytes.Cursor.{At, At-start, At-suc, advance-length}
use aqua.Wire.{encode_variable_bytes}
use aqua.Wire.VarInt.{decode-encode_variable_bytes, length-encode_variable_bytes}
use aqua.Packet.Publish.{Publish, first_byte}
use aqua.Packet.Publish.RoundTrip.{fresh, first_byte_lem}
use aqua.Coder.ControlPacket.{publish}
use aqua.Coder.FixedHeader.{decode_fixed_header, decode_lower_fixed_header}
use aqua.Coder.Decoder.{
  Decoder, done, fixed_header_decoded, pending, poll_decode, poll_done, read_fixed_header,
}

pub some_bytes_there : (xs : Bytes) → 0 < length xs → is_empty xs ≡ false
some_bytes_there [] h = absurd (omega (arith, h))
some_bytes_there (x ∷ xs) h = refl

module _ (p : Publish) (n : ℕ) (small : n < 2 ^ 28) where
  -- The fixed header that stands before `tail`
  fixed_header_read :
      (tail : Bytes) (v : Option ℕ)
      → decode_fixed_header (first_byte p ∷ encode_variable_bytes n ++ tail) 0 v
        ≡ ok (publish (fresh p), 1 + length (encode_variable_bytes n), n)
  unfolding decode_fixed_header decode_lower_fixed_header index
  fixed_header_read tail v =
      let (type, qos, dup, retain) = first_byte_lem p in
      let buf = first_byte p ∷ encode_variable_bytes n ++ tail in
      let at : At buf 1 (encode_variable_bytes n ++ tail) = At-suc _ _ (At-start buf) in
      rw (type, qos, dup, retain) (rw (decode-encode_variable_bytes n tail small at) refl)

  fixed_header_taken :
      (d : Decoder) (tail : Bytes)
      → d.buf ≡ (first_byte p ∷ encode_variable_bytes n) ++ tail
      → read_fixed_header d ≡ ok (publish (fresh p), n, tail)
  fixed_header_taken d tail holds =
      let front = first_byte p ∷ encode_variable_bytes n in
      let gone : advance (front ++ tail) (1 + length (encode_variable_bytes n)) ≡ ok tail =
        ap (advance (front ++ tail)) (omega arith) ∙ advance-length front tail in
      rw holds (>>=-ok _ _ (fixed_header_read tail d.protocol_version) (>>=-ok _ _ gone refl))

  -- The first poll takes the fixed header.
  pub poll_fixed_header :
      (d : Decoder) (tail : Bytes)
      → d.state ≡ done
      → d.buf ≡ (first_byte p ∷ encode_variable_bytes n) ++ tail
      → poll_decode d ≡ (
        record d {
          state = fixed_header_decoded;
          tmp_packet = publish (fresh p);
          remaining_length = n;
          remain_length_counter = 0;
          buf = tail;
        },
        pending true,
      )
  unfolding poll_decode poll_done
  poll_fixed_header d tail state holds =
      let some_bytes : is_empty d.buf ≡ false = rw holds refl in
      let two : ltb (length d.buf) 2 ≡ false = rw holds (
        le→ltb _ 2 (
          omega (
            arith,
            (length-encode_variable_bytes n).0,
            length-append (encode_variable_bytes n) tail,
          ))) in
      rw (some_bytes, state, two, fixed_header_taken d tail holds) refl
