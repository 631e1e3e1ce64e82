-- ===== src/Wire.antt =====
-- mqtt_coder/src/mqtt.rs: the readers and writers that all packets share.
pub mod VarInt
pub mod Text
pub mod Bounds
pub mod Ends
use aqua.Base.{
  ℕ, zero, suc, ◌+◌, ◌*◌, ◌/◌, ◌%◌, ◌^◌, Bool, true, false, List, [], ◌∷◌, ◌++◌, bit_and, bit_or,
  ltb, leb, ◌==◌, if◌then◌else◌, length, get_elem?,
}
use aqua.Outcome.{
  Outcome, ok, err, invalid_format, insufficient_bytes, invalid_remaining_length, ◌>>=◌,
}
use aqua.Bytes.{Bytes, index, slice, u16_bytes, u16_from_slice, u32_from_slice, byte_pair_at}
use aqua.Utf8.{from_utf8}

unfoldable pub bool_to_bytes : Bool → Bytes
bool_to_bytes b = if b then 1 ∷ [] else 0 ∷ []

unfoldable pub byte_pair_to_u16 : ℕ → ℕ → ℕ
byte_pair_to_u16 b_msb b_lsb = b_msb * 256 + b_lsb

unfoldable pub decode_u32_bytes : Bytes → ℕ → Outcome ℕ
decode_u32_bytes buf start_pos = do
  bytes ← slice buf start_pos (start_pos + 4)
  u32_from_slice bytes

unfoldable pub decode_u16_bytes : Bytes → ℕ → Outcome ℕ
decode_u16_bytes buf start_pos = do
  bytes ← slice buf start_pos (start_pos + 2)
  u16_from_slice bytes

unfoldable pub decode_u32_bytes_sliced : Bytes → Outcome ℕ
decode_u32_bytes_sliced v = u32_from_slice v

unfoldable pub decode_utf8_string : Bytes → ℕ → Outcome (Bytes × ℕ)
decode_utf8_string buf start_pos = do
  len ← decode_u16_bytes buf start_pos
  if ltb (length buf) (start_pos + 2 + len) then err insufficient_bytes else do
    raw ← slice buf (start_pos + 2) (start_pos + 2 + len)
    str ← from_utf8 raw
    ok (str, start_pos + 2 + len)

-- `for pos in start_pos..=start_pos + 3` with the rounds left as the first argument. `acc` is the
-- source's `remaining_length`; the sum of four 7-bit groups fits a `usize`.
variable_length_loop : ℕ → Bytes → ℕ → ℕ → ℕ → Outcome (ℕ × ℕ)
variable_length_loop zero buf pos acc inc = ok (acc, pos)
variable_length_loop (suc rounds) buf pos acc inc =
    if leb (length buf) pos then err insufficient_bytes else do
      b ← index buf pos
      let acc' = acc + bit_and b 0x7f * 2 ^ (inc * 7)
      let more = variable_length_loop rounds buf (pos + 1) acc' (inc + 1)
      if bit_and b 0x80 == 0
          then ok (acc', pos + 1)
          else if leb 4 (inc + 1)
          then err invalid_remaining_length
          else more

unfoldable pub decode_variable_length : Bytes → ℕ → Outcome (ℕ × ℕ)
unfolding variable_length_loop
decode_variable_length buf start_pos = variable_length_loop 4 buf start_pos 0 0

-- `for _ in 1..=4`; `out` is the source's `remaining_length`.
variable_bytes_loop : ℕ → ℕ → Bytes → Bytes
variable_bytes_loop zero len out = out
variable_bytes_loop (suc rounds) len out =
    let digit = if ltb 0 (len / 128) then bit_or (len % 128) 0x80 else len % 128 in
    let more = variable_bytes_loop rounds (len / 128) (out ++ digit ∷ []) in
    if len / 128 == 0 then out ++ digit ∷ [] else more

unfoldable pub encode_variable_bytes : ℕ → Bytes
unfolding variable_bytes_loop
encode_variable_bytes len = variable_bytes_loop 4 len []
