-- ===== src/Coder/Decoder/Steps.antt =====
-- What a decoder does with a DISCONNECT that has no body.
use aqua.Base.{ℕ, zero, suc, ◌<◌, ◌≡◌, refl, false, ap, ◌∙◌, [], ◌∷◌, length, arith, le→leb}
use aqua.Outcome.{ok}
use aqua.Bytes.{Bytes, index, advance}
use aqua.Wire.{decode_variable_length}
use aqua.Packet.Disconnect as DisconnectPacket
use aqua.Packet.Disconnect.{Disconnect, default_disconnect}
use aqua.Packet.Disconnect.Reason.{normal_disconnection}
use aqua.Coder.ControlPacket.{disconnect, decode_variable_header}
use aqua.Coder.FixedHeader.{decode_fixed_header}
use aqua.Coder.Decoder.{
  Decoder, done, fixed_header_decoded, ready, pending, poll_decode, poll_variable_header,
}

-- A decoder between two packets that holds `buf`.
abbrev pub waiting : Decoder → Bytes → Decoder
waiting d buf = record d { state = done; buf = buf }

-- What so many polls leave of a decoder
unfoldable pub polls : ℕ → Decoder → Decoder
polls zero d = d
polls (suc n) d = polls n (poll_decode d).0

abbrev headed : Decoder → Decoder
headed d = record d {
  state = fixed_header_decoded;
  tmp_packet = disconnect default_disconnect;
  remaining_length = 0;
  remain_length_counter = 0;
  buf = [];
}

header_polled : (d : Decoder) → (poll_decode (waiting d (0xe0 ∷ 0x00 ∷ []))).0 ≡ headed d
unfolding poll_decode decode_fixed_header index decode_variable_length advance
header_polled d = refl

polls-headed : (n : ℕ) (d : Decoder) → polls n (headed d) ≡ headed d
unfolding polls poll_decode
polls-headed zero d = refl
polls-headed (suc n) d = polls-headed n d

none_taken : (buf : Bytes) → advance buf 0 ≡ ok buf
unfolding advance
none_taken buf = rw (le→leb 0 (length buf) (omega arith)) refl

delivered :
    (d : Decoder) (more : Bytes)
    → 0 < length more
    → ((poll_decode (record (headed d) { buf = more })).1
        ≡ ready
            (ok (disconnect (record default_disconnect { reason_code = normal_disconnection }))))
      × ((poll_decode (record (headed d) { buf = more })).0.buf ≡ more)
unfolding poll_decode poll_variable_header decode_variable_header
    DisconnectPacket.decode_variable_header
delivered d [] there = absurd (omega arith)
delivered d (b ∷ bs) there = rw (none_taken (b ∷ bs)) (refl, refl)

-- A DISCONNECT without a body is complete with its two bytes, but after the poll that reads them no number
-- of polls delivers it: each waits without calling the waker, since the buffer is empty. The poll after
-- more bytes have come delivers it, and leaves those bytes in the buffer.
pub disconnect_waits :
    (d : Decoder) (n : ℕ) (more : Bytes)
    → 0 < length more
    → let d' = polls n (poll_decode (waiting d (0xe0 ∷ 0x00 ∷ []))).0 in
      let d'' = record d' { buf = more } in
      ((poll_decode d').1 ≡ pending false)
      × ((poll_decode d'').1
          ≡ ready
              (ok (disconnect (record default_disconnect { reason_code = normal_disconnection }))))
      × ((poll_decode d'').0.buf ≡ more)
disconnect_waits d n more there =
    let same = ap (polls n) (header_polled d) ∙ polls-headed n d in
    let (found, left) = delivered d more there in rw same (unfold poll_decode in refl, found, left)
