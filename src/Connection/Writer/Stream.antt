-- ===== src/Connection/Writer/Stream.antt =====
-- What the writer task puts on the socket.
use aqua.Base.{
  ℕ, zero, suc, ◌+◌, ◌<◌, ◌≡◌, ◌≢◌, refl, sym, ap, ◌∙◌, List, [], ◌∷◌, ◌++◌, length, length-drop,
  take, drop, take-append-drop, append-nil, append_assoc, arith,
}
use aqua.Outcome.{Outcome, ok, err, panic, out_of_fuel, Ends}
use aqua.Bytes.{Bytes}
use aqua.Coder.ControlPacket.{ControlPacket}
use aqua.Coder.Encoder.{encode_all}
use aqua.Coder.Encoder.Total.{encode_all-Ends}
use aqua.Connection.Writer.{
  WriteResult, wrote, write_error, Socket, WriterEnd, shut_down, endless, after_write, flush,
  on_encoded, write_loop,
}

-- The bytes of some packets, one behind the other
pub data Encodes : List ControlPacket → Bytes → Type 0 where
  none_left : Encodes [] []
  next_packet :
      {packet : ControlPacket} {packets : List ControlPacket} {out rest : Bytes}
      → encode_all packet [] ≡ ok out
      → Encodes packets rest
      → Encodes (packet ∷ packets) (out ++ rest)

module _ (socket : Socket) where
  -- From `s` the bytes `buf` were written, and then those of `packets`.
  abbrev pub IsStreamed : List ControlPacket → Bytes → socket.State → socket.State → Type 0
  IsStreamed packets buf s s' =
      (out : Bytes) × Encodes packets out × (socket.written s' ≡ socket.written s ++ (buf ++ out))

  abbrev StreamedBy : List ControlPacket → (socket.State → socket.State × WriterEnd) → Type 0
  StreamedBy packets next =
      (s : socket.State) → (next s).1 ≡ shut_down → IsStreamed packets [] s (next s).0

  written_on :
      (packets : List ControlPacket) (buf : Bytes) (n : ℕ) (s s' s'' : socket.State)
      → socket.written s' ≡ socket.written s ++ take n buf
      → IsStreamed packets (drop n buf) s' s''
      → IsStreamed packets buf s s''
  written_on packets buf n s s' s'' first (out, encodes, later) = (
    out,
    encodes,
    later
        ∙ ap (λ w. w ++ (drop n buf ++ out)) first
        ∙ append_assoc (socket.written s) (take n buf) (drop n buf ++ out)
        ∙ ap (λ w. socket.written s ++ w)
            (sym (append_assoc (take n buf) (drop n buf) out)
              ∙ ap (λ w. w ++ out) (take-append-drop n buf)),
  )

  write-IsStreamed :
      (packets : List ControlPacket) (rest : socket.State → Bytes → socket.State × WriterEnd)
      (s : socket.State) (buf : Bytes)
      → ((s : socket.State) (buf : Bytes)
          → (rest s buf).1 ≡ shut_down
          → IsStreamed packets buf s (rest s buf).0)
      → (r : socket.State × WriteResult) → socket.write_buf s buf ≡ r
      → (after_write socket rest buf r).1 ≡ shut_down
      → IsStreamed packets buf s (after_write socket rest buf r).0
  write-IsStreamed packets rest s buf h (s', wrote zero) same e = cc
  write-IsStreamed packets rest s buf h (s', write_error) same e = cc
  write-IsStreamed packets rest s buf h (s', wrote (suc n)) same e =
      let (fits, first) = socket.write_buf-wrote s buf (suc n) (ap (λ r. r.1) same) in
      written_on packets buf (suc n) s s' _ (ap (λ r. socket.written r.0) (sym same) ∙ first)
        (h s' (drop (suc n) buf) e)

  flush-IsStreamed :
      (fuel : ℕ) (packets : List ControlPacket) (next : socket.State → socket.State × WriterEnd)
      (s : socket.State) (buf : Bytes)
      → StreamedBy packets next
      → (flush socket fuel next s buf).1 ≡ shut_down
      → IsStreamed packets buf s (flush socket fuel next s buf).0
  unfolding flush
  flush-IsStreamed zero packets next s buf h e = cc
  flush-IsStreamed (suc fuel) packets next s [] h e = h s e
  flush-IsStreamed (suc fuel) packets next s (b ∷ buf) h e =
      write-IsStreamed packets (flush socket fuel next) s (b ∷ buf)
        (λ s' buf' e'. flush-IsStreamed fuel packets next s' buf' h e')
        (socket.write_buf s (b ∷ buf)) refl e

  encoded-IsStreamed :
      (packet : ControlPacket) (packets : List ControlPacket)
      (next : socket.State → socket.State × WriterEnd) (s : socket.State)
      → StreamedBy packets next
      → (o : Outcome Bytes) → encode_all packet [] ≡ o
      → (on_encoded socket next s o).1 ≡ shut_down
      → IsStreamed (packet ∷ packets) [] s (on_encoded socket next s o).0
  encoded-IsStreamed packet packets next s h (ok buf) same e =
      let (out, encodes, all) = flush-IsStreamed (length buf + 1) packets next s buf h e in
      (buf ++ out, next_packet same encodes, all)
  encoded-IsStreamed packet packets next s h (err x) same e = cc
  encoded-IsStreamed packet packets next s h panic same e = cc
  encoded-IsStreamed packet packets next s h out_of_fuel same e = cc

  -- Where the task runs until its channel is closed and shuts the socket down, it has written the bytes of
  -- all packets of the channel, in their order, behind what was written before, however the socket splits
  -- them.
  pub write_loop-IsStreamed :
      (packets : List ControlPacket) (s : socket.State)
      → (write_loop socket packets s).1 ≡ shut_down
      → IsStreamed packets [] s (write_loop socket packets s).0
  unfolding write_loop
  write_loop-IsStreamed [] s e = ([], none_left, sym (append-nil (socket.written s)))
  write_loop-IsStreamed (packet ∷ packets) s e =
      encoded-IsStreamed packet packets (write_loop socket packets) s
        (write_loop-IsStreamed packets) (encode_all packet []) refl e

  after_write_total :
      (fuel : ℕ) (rest : socket.State → Bytes → socket.State × WriterEnd) (s : socket.State)
      (buf : Bytes)
      → length buf < suc fuel
      → ((s : socket.State) (buf : Bytes) → length buf < fuel → (rest s buf).1 ≢ endless)
      → (r : socket.State × WriteResult) → socket.write_buf s buf ≡ r
      → (after_write socket rest buf r).1 ≢ endless
  after_write_total fuel rest s buf enough h (s', wrote zero) same e = cc
  after_write_total fuel rest s buf enough h (s', write_error) same e = cc
  after_write_total fuel rest s buf enough h (s', wrote (suc n)) same e =
      let fits = (socket.write_buf-wrote s buf (suc n) (ap (λ r. r.1) same)).0 in
      h s' (drop (suc n) buf) (omega (arith, length-drop (suc n) buf, enough, fits)) e

  flush_total :
      (fuel : ℕ) (next : socket.State → socket.State × WriterEnd) (s : socket.State) (buf : Bytes)
      → length buf < fuel
      → ((s : socket.State) → (next s).1 ≢ endless)
      → (flush socket fuel next s buf).1 ≢ endless
  unfolding flush
  flush_total zero next s buf enough h e = absurd (omega arith)
  flush_total (suc fuel) next s [] enough h e = h s e
  flush_total (suc fuel) next s (b ∷ buf) enough h e =
      after_write_total fuel (flush socket fuel next) s (b ∷ buf) enough
        (λ s' buf' more. flush_total fuel next s' buf' more h) (socket.write_buf s (b ∷ buf)) refl e

  on_encoded_total :
      (next : socket.State → socket.State × WriterEnd) (s : socket.State) (o : Outcome Bytes)
      → Ends o
      → ((s : socket.State) → (next s).1 ≢ endless)
      → (on_encoded socket next s o).1 ≢ endless
  on_encoded_total next s (ok buf) ends h e =
      flush_total (length buf + 1) next s buf (omega arith) h e
  on_encoded_total next s (err x) ends h e = cc
  on_encoded_total next s panic ends h e = cc
  on_encoded_total next s out_of_fuel ends h e = ends.ends refl

  -- Whatever packets the channel gives and however the socket behaves, the task ends: it shuts the socket
  -- down, stops at an error or at a write of no bytes, or panics, and its loops never run out of rounds.
  pub write_loop_total :
      (packets : List ControlPacket) (s : socket.State) → (write_loop socket packets s).1 ≢ endless
  unfolding write_loop
  write_loop_total [] s e = cc
  write_loop_total (packet ∷ packets) s e =
      on_encoded_total (write_loop socket packets) s (encode_all packet [])
        (encode_all-Ends packet []) (write_loop_total packets) e
