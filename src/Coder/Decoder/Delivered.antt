-- ===== src/Coder/Decoder/Delivered.antt =====
-- A message that the decoder of a connection delivers has the packet id it needs.
use aqua.Base.{
  ℕ, ◌+◌, ◌≡◌, refl, Bool, true, false, Option, [], ltb, ◌==◌, length, ◌++◌, is_empty, if_cases,
  subst,
}
use aqua.Outcome.{Outcome, ok, err, panic, out_of_fuel, >>=-eq-ok}
use aqua.Bytes.{Bytes, advance}
use aqua.Coder.ControlPacket.{ControlPacket, decode_variable_header, decode_payload}
use aqua.Coder.Decoder.{
  Decoder, DecoderState, done, fixed_header_decoded, variable_header_decoded, Poll, ready, pending,
  failed, new, set_protocol_version, read_fixed_header, read_variable_header, poll_done,
  poll_variable_header, poll_payload, poll_state, poll_decode,
}
use aqua.Coder.Decoder.PublishId.{HasPublishId, bind_has, variable_header_has, payload_has}

-- Where the decoder waits for a payload, the packet it holds has its id already.
abbrev HasHeld : Decoder → Type 0
HasHeld d = d.state ≡ variable_header_decoded → HasPublishId d.tmp_packet

-- What a poll leaves and delivers, by its result.
abbrev Keeps : Decoder × Poll → Type 0
Keeps r = HasHeld r.0 × ((packet : ControlPacket) → r.1 ≡ ready (ok packet) → HasPublishId packet)

nothing_delivered :
    (waked : Bool) (packet : ControlPacket)
    → pending waked ≡ ready (ok packet)
    → HasPublishId packet
nothing_delivered waked packet e = absurd (cc (e))

one_delivered :
    (given : ControlPacket)
    → HasPublishId given
    → (packet : ControlPacket) → ready (ok given) ≡ ready (ok packet)
    → HasPublishId packet
one_delivered given h packet e = let same : given ≡ packet = cc in subst HasPublishId same h

failed-Keeps :
    {A : Type 0} (m : Outcome A) (k : A → Decoder × Poll) (d : Decoder)
    → HasHeld d
    → ((a : A) → m ≡ ok a → Keeps (k a))
    → Keeps (failed m k d)
failed-Keeps (ok a) k d held h = h a refl
failed-Keeps (err x) k d held h = (held, λ packet e. absurd (cc (e)))
failed-Keeps panic k d held h = (held, λ packet e. absurd (cc (e)))
failed-Keeps out_of_fuel k d held h = (held, λ packet e. absurd (cc (e)))

read_has :
    (d : Decoder) (r : ControlPacket × ℕ × Bytes) → read_variable_header d ≡ ok r → HasPublishId r.0
read_has d r e =
    let (got, e1, k1) =
      >>=-eq-ok (decode_variable_header d.tmp_packet d.buf 0 d.remaining_length d.protocol_version)
        _ e in
    bind_has (advance d.buf got.1) (λ rest. (got.0, got.1, rest)) (λ q. q.0) r
      (λ rest. variable_header_has _ d.buf 0 d.remaining_length d.protocol_version got e1) k1

poll_done-Keeps : (d : Decoder) → d.state ≡ done → Keeps (poll_done d)
unfolding poll_done
poll_done-Keeps d e =
    if_cases Keeps (ltb (length d.buf) 2) _ _
      (λ short. (λ at. absurd (cc (at, e)), nothing_delivered true))
      (λ enough.
        failed-Keeps (read_fixed_header d) _ d (λ at. absurd (cc (at, e)))
          (λ r h. (λ at. absurd (cc (at)), nothing_delivered true)))

poll_variable_header-Keeps :
    (d : Decoder) → d.state ≡ fixed_header_decoded → Keeps (poll_variable_header d)
unfolding poll_variable_header
poll_variable_header-Keeps d e =
    failed-Keeps (read_variable_header d) _ d (λ at. absurd (cc (at, e)))
      (λ r h.
        if_cases Keeps (d.remain_length_counter + r.1 == d.remaining_length) _ _
          (λ all. (λ at. absurd (cc (at)), one_delivered r.0 (read_has d r h)))
          (λ more. (λ at. read_has d r h, nothing_delivered true)))

poll_payload-Keeps : (d : Decoder) → HasPublishId d.tmp_packet → Keeps (poll_payload d)
unfolding poll_payload
poll_payload-Keeps d h =
    failed-Keeps (decode_payload d.tmp_packet d.buf d.protocol_version) _ (record d { buf = [] })
      (λ at. h)
      (λ r e. (
        λ at. absurd (cc (at)),
        one_delivered r.0 (payload_has d.tmp_packet d.buf d.protocol_version r h e),
      ))

poll_state-Keeps :
    (state : DecoderState) (d : Decoder) → d.state ≡ state → HasHeld d → Keeps (poll_state state d)
poll_state-Keeps done d e h = poll_done-Keeps d e
poll_state-Keeps fixed_header_decoded d e h = poll_variable_header-Keeps d e
poll_state-Keeps variable_header_decoded d e h = poll_payload-Keeps d (h e)

poll_decode-Keeps : (d : Decoder) → HasHeld d → Keeps (poll_decode d)
unfolding poll_decode
poll_decode-Keeps d h =
    if_cases Keeps (is_empty d.buf) _ _ (λ nothing. (h, nothing_delivered false))
      (λ some. poll_state-Keeps d.state d refl h)

-- The decoders of a connection: a new one, and what bytes that come, a version that is set and a poll leave.
pub data Decodes : Decoder → Type 0 where
  begun : Decodes new
  fed : (d : Decoder) (bytes : Bytes) → Decodes d → Decodes (record d { buf = d.buf ++ bytes })
  versioned : (d : Decoder) (v : Option ℕ) → Decodes d → Decodes (set_protocol_version d v)
  polled : (d : Decoder) → Decodes d → Decodes (poll_decode d).0

Decodes-HasHeld : (d : Decoder) → Decodes d → HasHeld d
unfolding new set_protocol_version
Decodes-HasHeld d begun = λ at. absurd (cc (at))
Decodes-HasHeld d (fed c bytes r) = Decodes-HasHeld c r
Decodes-HasHeld d (versioned c v r) = Decodes-HasHeld c r
Decodes-HasHeld d (polled c r) = (poll_decode-Keeps c (Decodes-HasHeld c r)).0

-- Whatever bytes came and however they were cut, a PUBLISH that the decoder of a connection delivers
-- has a packet id where its quality of service is 1 or 2.
pub delivered-HasPublishId :
    (d : Decoder) (packet : ControlPacket)
    → Decodes d
    → (poll_decode d).1 ≡ ready (ok packet)
    → HasPublishId packet
delivered-HasPublishId d packet r e = (poll_decode-Keeps d (Decodes-HasHeld d r)).1 packet e
