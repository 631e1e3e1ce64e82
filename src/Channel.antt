-- ===== src/Channel.antt =====
-- The bounded channel of tokio, `mpsc::Sender<ControlPacket>`, as src/aqua/connection uses it: an
-- interface with the documented behaviour of `try_send`, and a channel that meets it.
use aqua.Base.{
  ℕ, ◌≡◌, ◌⊎◌, inl, inr, Bool-cases, Bool, List, [], ◌∷◌, ◌++◌, ltb, length, if◌then◌else◌, arith,
}
use aqua.Coder.ControlPacket.{ControlPacket}

-- `Ok(())`, `Err(TrySendError::Full(pkt))` and `Err(TrySendError::Closed(pkt))`
pub data SendResult : Type 0 where
  sent : SendResult
  full closed : ControlPacket → SendResult

-- `Channels` is the state of all channels, `queue` what waits for the receiver of one. A send changes no
-- channel but by the packet that it puts behind the others.
pub record Mpsc : Type 1 where
  pub Sender : Type 0
  pub Channels : Type 0
  pub queue : Channels → Sender → List ControlPacket
  pub try_send : Channels → Sender → ControlPacket → Channels × SendResult
  pub try_send-sent :
      (c : Channels) (s : Sender) (pkt : ControlPacket)
      → (try_send c s pkt).1 ≡ sent
      → queue (try_send c s pkt).0 s ≡ queue c s ++ (pkt ∷ [])
  pub try_send-full :
      (c : Channels) (s : Sender) (pkt back : ControlPacket)
      → (try_send c s pkt).1 ≡ full back
      → ((try_send c s pkt).0 ≡ c) × (back ≡ pkt)
  pub try_send-closed :
      (c : Channels) (s : Sender) (pkt back : ControlPacket)
      → (try_send c s pkt).1 ≡ closed back
      → ((try_send c s pkt).0 ≡ c) × (back ≡ pkt)
  pub try_send-queues :
      (c : Channels) (s : Sender) (pkt : ControlPacket) (t : Sender)
      → (queue (try_send c s pkt).0 t ≡ queue c t)
        ⊎ (queue (try_send c s pkt).0 t ≡ queue c t ++ (pkt ∷ []))

-- One open or closed channel with room for `capacity` packets
abbrev pub Single : Type 0
Single = List ControlPacket × Bool

abbrev pub single_send : ℕ → Single → ℕ → ControlPacket → Single × SendResult
single_send capacity (q, is_closed) s pkt =
    if is_closed
    then ((q, is_closed), closed pkt)
    else if ltb (length q) capacity
    then ((q ++ (pkt ∷ []), is_closed), sent)
    else ((q, is_closed), full pkt)

pub single-sent :
    (n : ℕ) (c : Single) (s : ℕ) (pkt : ControlPacket)
    → (single_send n c s pkt).1 ≡ sent
    → (single_send n c s pkt).0.0 ≡ c.0 ++ (pkt ∷ [])
single-sent n (q, is_closed) s pkt h = ground arith

pub single-full :
    (n : ℕ) (c : Single) (s : ℕ) (pkt back : ControlPacket)
    → (single_send n c s pkt).1 ≡ full back
    → ((single_send n c s pkt).0 ≡ c) × (back ≡ pkt)
single-full n (q, is_closed) s pkt back h = ground arith

pub single-closed :
    (n : ℕ) (c : Single) (s : ℕ) (pkt back : ControlPacket)
    → (single_send n c s pkt).1 ≡ closed back
    → ((single_send n c s pkt).0 ≡ c) × (back ≡ pkt)
single-closed n (q, is_closed) s pkt back h = ground arith

pub single-queues :
    (n : ℕ) (c : Single) (s : ℕ) (pkt : ControlPacket) (t : ℕ)
    → ((single_send n c s pkt).0.0 ≡ c.0) ⊎ ((single_send n c s pkt).0.0 ≡ c.0 ++ (pkt ∷ []))
single-queues n (q, is_closed) s pkt t = elim (Bool-cases is_closed) [
  | inl shut ↦ inl (rw shut)
  | inr opened ↦ elim (Bool-cases (ltb (length q) n)) [
    | inl room ↦ inr (rw (opened, room))
    | inr none_left ↦ inl (rw (opened, none_left))
  ]
]

abbrev pub single : ℕ → Mpsc
single capacity = record {
  Sender = ℕ;
  Channels = Single;
  queue = λ c s. c.0;
  try_send = single_send capacity;
  try_send-sent = single-sent capacity;
  try_send-full = single-full capacity;
  try_send-closed = single-closed capacity;
  try_send-queues = single-queues capacity;
}
