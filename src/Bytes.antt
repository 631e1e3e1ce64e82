-- ===== src/Bytes.antt =====
-- What mqtt_coder/src/mqtt.rs uses of byte buffers: indexing and slicing, which panic out of range,
-- and big-endian words. A buffer is the list of its bytes; the source's `start_pos` and `next_pos`
-- are absolute positions in it.
pub mod Cursor
pub mod Ends
use aqua.Base.{
  ℕ, ◌+◌, ◌-◌, ◌*◌, ◌/◌, ◌%◌, ◌^◌, ◌<◌, Bool, true, false, ◌&&◌, List, [], ◌∷◌, none, some, leb,
  if◌then◌else◌, length, get_elem?, take, drop,
}
use aqua.Outcome.{Outcome, ok, err, panic, MqttError, invalid_format, ◌>>=◌, ok_or, unwrap}

abbrev pub Bytes : Type 0
Bytes = List ℕ

abbrev pub IsByte : ℕ → Type 0
IsByte b = b < 256

-- `buf[i]`
unfoldable pub index : Bytes → ℕ → Outcome ℕ
index buf i = unwrap (get_elem? buf i)

-- `buf.get(i).ok_or(MqttError::InvalidFormat)`
unfoldable pub get_or_invalid : Bytes → ℕ → Outcome ℕ
get_or_invalid buf i = ok_or (get_elem? buf i) invalid_format

-- `buf[from..to]`
unfoldable pub slice : Bytes → ℕ → ℕ → Outcome Bytes
slice buf from to =
    if leb from to && leb to (length buf) then ok (take (to - from) (drop from buf)) else panic

-- `to_be_bytes` and `put_u16` of a u16, `to_be_bytes` of a u32; each value is below its modulus.
unfoldable pub u16_bytes : ℕ → Bytes
u16_bytes n = (n / 256) ∷ (n % 256) ∷ []

unfoldable pub u32_bytes : ℕ → Bytes
u32_bytes n = (n / 2 ^ 24) ∷ (n / 2 ^ 16 % 256) ∷ (n / 256 % 256) ∷ (n % 256) ∷ []

-- `from_be_bytes` behind the `try_into` of a slice into an array, whose failure is mapped to
-- `InvalidFormat`.
unfoldable pub u16_from_slice : Bytes → Outcome ℕ
u16_from_slice (a ∷ b ∷ []) = ok (a * 256 + b)
u16_from_slice _ = err invalid_format

unfoldable pub u32_from_slice : Bytes → Outcome ℕ
u32_from_slice (a ∷ b ∷ c ∷ d ∷ []) = ok (((a * 256 + b) * 256 + c) * 256 + d)
u32_from_slice _ = err invalid_format

-- `((buf[pos] as u16) << 8) + (buf[pos + 1] as u16)`, which the source writes out at each use.
unfoldable pub byte_pair_at : Bytes → ℕ → Outcome ℕ
byte_pair_at buf pos = do msb ← index buf pos; lsb ← index buf (pos + 1); ok (msb * 256 + lsb)

-- `buf.advance(n)` panics past the end of the buffer.
unfoldable pub advance : Bytes → ℕ → Outcome Bytes
advance buf n = if leb n (length buf) then ok (drop n buf) else panic

-- `a - b` on `usize`
unfoldable pub checked_sub : ℕ → ℕ → Outcome ℕ
checked_sub a b = if leb b a then ok (a - b) else panic
