-- ===== src/Connection/Writer.antt =====
-- src/aqua/connection.rs, `spawn_writer`: the task that writes the packets of a channel to the client.
pub mod Stream
use aqua.Base.{
  ℕ, zero, suc, ◌+◌, ◌-◌, ◌≤◌, ◌≡◌, Bool, true, false, List, [], ◌∷◌, ◌++◌, is_empty, if◌then◌else◌,
  length, take, drop,
}
use aqua.Outcome.{Outcome, ok, err, panic, out_of_fuel}
use aqua.Bytes.{Bytes}
use aqua.Coder.ControlPacket.{ControlPacket}
use aqua.Coder.Encoder.{encode_all}

-- The outcome of `write_buf`
pub data WriteResult : Type 0 where
  wrote : ℕ → WriteResult
  write_error : WriteResult

-- The write half of the socket: `write_buf` writes some of the first bytes of the buffer, and nothing
-- where it fails.
pub record Socket : Type 1 where
  pub State : Type 0
  pub written : State → Bytes
  pub write_buf : State → Bytes → State × WriteResult
  pub write_buf-wrote :
      (s : State) (buf : Bytes) (n : ℕ)
      → (write_buf s buf).1 ≡ wrote n
      → (n ≤ length buf) × (written (write_buf s buf).0 ≡ written s ++ take n buf)
  pub write_buf-error :
      (s : State) (buf : Bytes)
      → (write_buf s buf).1 ≡ write_error
      → written (write_buf s buf).0 ≡ written s

-- How a run of the task ends: the channel is closed and the socket shut down, a packet is not encoded,
-- the socket takes no more, or a panic of the encoder. `endless` stands for a loop that would not end.
pub data WriterEnd : Type 0 where
  shut_down encode_error stopped panicked endless : WriterEnd

module _ (socket : Socket) where
  -- What follows one `write_buf` of `buf`: a write of no bytes ends the task.
  abbrev pub after_write :
      (socket.State → Bytes → socket.State × WriterEnd)
      → Bytes
      → socket.State × WriteResult
      → socket.State × WriterEnd
  after_write rest buf (s, wrote zero) = (s, stopped)
  after_write rest buf (s, wrote (suc n)) = rest s (drop (suc n) buf)
  after_write rest buf (s, write_error) = (s, stopped)

  -- `while !write_buffer.is_empty()`, and then what follows. Each round that goes on writes a byte, so that
  -- one round more than there are bytes is enough.
  unfoldable pub flush :
      ℕ
      → (socket.State → socket.State × WriterEnd)
      → socket.State
      → Bytes
      → socket.State × WriterEnd
  flush zero next s buf = (s, endless)
  flush (suc fuel) next s buf =
      if is_empty buf then next s else after_write (flush fuel next) buf (socket.write_buf s buf)

  abbrev pub on_encoded :
      (socket.State → socket.State × WriterEnd)
      → socket.State
      → Outcome Bytes
      → socket.State × WriterEnd
  on_encoded next s (ok write_buffer) = flush (length write_buffer + 1) next s write_buffer
  on_encoded next s (err e) = (s, encode_error)
  on_encoded next s panic = (s, panicked)
  on_encoded next s out_of_fuel = (s, endless)

  -- `while let Some(packet) = rx.recv().await` over the packets that come until the channel is closed; the
  -- write buffer is empty at the start of each round.
  unfoldable pub write_loop : List ControlPacket → socket.State → socket.State × WriterEnd
  unfolding flush
  write_loop [] s = (s, shut_down)
  write_loop (packet ∷ packets) s = on_encoded (write_loop packets) s (encode_all packet [])
