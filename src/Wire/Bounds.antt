-- ===== src/Wire/Bounds.antt =====
-- What `decode_variable_length` returns on any buffer, well formed or not.
use aqua.Base.{
  ℕ, zero, suc, ◌+◌, ◌*◌, ◌%◌, ◌^◌, ◌≤◌, ◌<◌, ◌≡◌, refl, inl, inr, All, length, arith, bit_and,
  Bool-cases, leb, ◌==◌, ◌∷◌, [],
}
use aqua.Base.Bits.{low_bits}
use aqua.Outcome.{ok, IsSafe, IsSafe-if}
use aqua.Bytes.{Bytes, IsByte, index}
use aqua.Bytes.Cursor.{index-lt, index-IsByte}
use aqua.Wire.{variable_length_loop, decode_variable_length}
use aqua.Wire.VarInt.{shift_seven}

loop_position :
    (rounds : ℕ) (buf : Bytes) (pos acc inc v next : ℕ)
    → variable_length_loop (suc rounds) buf pos acc inc ≡ ok (v, next)
    → inc + rounds ≡ 3
    → (pos < next) × (next ≤ pos + suc rounds) × (next ≤ length buf)
unfolding variable_length_loop
loop_position zero buf pos acc inc v next h full = ground (arith, index-lt buf pos)
loop_position (suc r) buf pos acc inc v next h full =
    grind (arith, index-lt, loop_position r buf (pos + 1))

group_sum : (g p acc : ℕ) → g < 128 → acc < p → acc + g * p < 128 * p
group_sum g p acc hg ha = grind arith

pow_le : (inc rounds : ℕ) → inc + rounds ≡ 4 → 2 ^ (inc * 7) ≤ 2 ^ 28
pow_le zero r h = omega arith
pow_le (suc zero) r h = omega arith
pow_le (suc (suc zero)) r h = omega arith
pow_le (suc (suc (suc zero))) r h = omega arith
pow_le (suc (suc (suc (suc zero)))) r h = omega arith
pow_le (suc (suc (suc (suc (suc k))))) r h = absurd (omega arith)

loop_value :
    (rounds : ℕ) (buf : Bytes) (pos acc inc v next : ℕ)
    → All IsByte buf
    → acc < 2 ^ (inc * 7)
    → inc + rounds ≡ 4
    → variable_length_loop rounds buf pos acc inc ≡ ok (v, next)
    → v < 2 ^ 28
unfolding variable_length_loop
loop_value zero buf pos acc inc v next bytes low full h = ground (arith, pow_le inc 0)
loop_value (suc r) buf pos acc inc v next bytes low full h = elim (index-IsByte buf pos bytes) [
  | inl (b, e, hb) ↦ ground (
    arith,
    e,
    low_bits b hb,
    group_sum (b % 128) (2 ^ (inc * 7)) acc,
    shift_seven inc,
    pow_le (inc + 1) r,
    loop_value r buf (pos + 1) (acc + b % 128 * 2 ^ (inc * 7)) (inc + 1) v next bytes,
  )
  | inr e ↦ ground (arith, e)
]

-- A length that is read takes one to four bytes of the buffer and is below 2 ^ 28.
pub decode_variable_length_bounds :
    (buf : Bytes) (pos v next : ℕ)
    → All IsByte buf
    → decode_variable_length buf pos ≡ ok (v, next)
    → (v < 2 ^ 28) × (pos < next) × (next ≤ pos + 4) × (next ≤ length buf)
unfolding decode_variable_length
decode_variable_length_bounds buf pos v next bytes h =
    let (a, b, c) = loop_position 3 buf pos 0 0 v next h (omega arith) in
    (loop_value 4 buf pos 0 0 v next bytes (omega arith) (omega arith) h, a, b, c)

pub decode_variable_length_position :
    (buf : Bytes) (pos v next : ℕ)
    → decode_variable_length buf pos ≡ ok (v, next)
    → (pos < next) × (next ≤ pos + 4) × (next ≤ length buf)
unfolding decode_variable_length
decode_variable_length_position buf pos v next h =
    loop_position 3 buf pos 0 0 v next h (omega arith)

index_within : (buf : Bytes) (pos : ℕ) → pos < length buf → (b : ℕ) × (index buf pos ≡ ok b)
unfolding index
index_within [] pos h = absurd (omega arith)
index_within (x ∷ xs) zero h = (x, refl)
index_within (x ∷ xs) (suc p) h = index_within xs p (omega arith)

loop-IsSafe :
    (rounds : ℕ) (buf : Bytes) (pos acc inc : ℕ)
    → IsSafe (variable_length_loop rounds buf pos acc inc)
unfolding variable_length_loop
loop-IsSafe zero buf pos acc inc = tt
loop-IsSafe (suc r) buf pos acc inc = elim (Bool-cases (leb (length buf) pos)) [
  | inl out ↦ rw out tt
  | inr inside ↦
      let (b, e) = index_within buf pos (ground arith) in
      let more = loop-IsSafe r buf (pos + 1) (acc + bit_and b 0x7f * 2 ^ (inc * 7)) (inc + 1) in
      rw (inside, e)
        (IsSafe-if (bit_and b 0x80 == 0) _ _ tt (IsSafe-if (leb 4 (inc + 1)) _ _ tt more))
]

-- `decode_variable_length` does not panic on any buffer, and ends.
pub decode_variable_length-IsSafe :
    (buf : Bytes) (pos : ℕ) → IsSafe (decode_variable_length buf pos)
unfolding decode_variable_length
decode_variable_length-IsSafe buf pos = loop-IsSafe 4 buf pos 0 0
