-- ===== src/Coder/Encoder/Polls.antt =====
-- The encoder polled again and again for one packet.
use aqua.Base.{ℕ, zero, suc, ◌≡◌, refl, sym, ap, ◌∙◌, [], ◌++◌, some, append-nil, append_assoc}
use aqua.Outcome.{Outcome, ok, ◌>>=◌, >>=-ok}
use aqua.Bytes.{Bytes}
use aqua.Coder.ControlPacket.{ControlPacket, encode_payload_chunk}
use aqua.Coder.Encoder.{EncodeState, payload, poll_encode}

-- So many polls, and the state and the buffer they leave
unfoldable pub polls : ℕ → ControlPacket → EncodeState → Bytes → Outcome (EncodeState × Bytes)
polls zero packet s buffer = ok (s, buffer)
polls (suc n) packet s buffer = do
  (s', buffer', wrote) ← poll_encode s packet buffer
  polls n packet s' buffer'

unfoldable pub copies : ℕ → Bytes → Bytes
copies zero chunk = []
copies (suc n) chunk = chunk ++ copies n chunk

-- For a packet that has a payload chunk, also an empty one, each poll of an encoder that is past the header
-- appends that chunk again and leaves the state as it was, so that the encoder is never done.
pub poll_encode_repeats :
    (n : ℕ) (packet : ControlPacket) (chunk buffer : Bytes)
    → encode_payload_chunk packet ≡ ok (some chunk)
    → polls n packet payload buffer ≡ ok (payload, buffer ++ copies n chunk)
unfolding polls copies poll_encode
poll_encode_repeats zero packet chunk buffer h = ap (λ b. ok (payload, b)) (sym (append-nil buffer))
poll_encode_repeats (suc n) packet chunk buffer h = >>=-ok _ _ (>>=-ok _ _ h refl) (
    poll_encode_repeats n packet chunk (buffer ++ chunk) h
    ∙ ap (λ b. ok (payload, b)) (append_assoc buffer chunk (copies n chunk)))
