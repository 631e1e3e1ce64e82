-- ===== src/Wire/VarInt.antt =====
-- The variable byte integers: what is written is read back, up to four bytes and no further.
use aqua.Base.{
  ℕ, zero, suc, ◌+◌, ◌*◌, ◌/◌, ◌%◌, ◌^◌, ◌≤◌, ◌<◌, ◌≡◌, refl, ap, ◌∙◌, [], ◌∷◌, ◌++◌, bit_or, ltb,
  ◌==◌, if◌then◌else◌, Bool-cases, inl, inr, length, arith, append_assoc,
}
use aqua.Base.Bits.{low_bits, top_bit, set_top_bit}
use native.Mathlib.Nat.{div-add-mod}
use native.Mathlib.Numerals.{towards_suc}
use aqua.Outcome.{ok, err, invalid_remaining_length}
use aqua.Bytes.{Bytes}
use aqua.Bytes.Cursor.{At, At-index, At-suc, At-length}
use aqua.Wire.{
  variable_length_loop, decode_variable_length, variable_bytes_loop, encode_variable_bytes,
}

-- The groups of seven bits of `n`, lowest first, each but the last with its top bit set; `k` more
-- groups may follow the first.
encoding : ℕ → ℕ → Bytes
encoding zero n = (if ltb 0 (n / 128) then n % 128 + 128 else n % 128) ∷ []
encoding (suc k) n =
    let rest = encoding k (n / 128) in if n / 128 == 0 then n % 128 ∷ [] else (n % 128 + 128) ∷ rest

digit_lem : (n : ℕ) → bit_or (n % 128) 0x80 ≡ n % 128 + 128
digit_lem n = set_top_bit (n % 128) (omega arith)

variable_bytes_loop-encoding :
    (k n : ℕ) (out : Bytes) → variable_bytes_loop (suc k) n out ≡ out ++ encoding k n
unfolding variable_bytes_loop encoding
variable_bytes_loop-encoding zero n out = ground (arith, digit_lem n)
variable_bytes_loop-encoding (suc k) n out = ground (
  arith,
  digit_lem n,
  variable_bytes_loop-encoding k (n / 128) (out ++ (n % 128 + 128) ∷ []),
  append_assoc out ((n % 128 + 128) ∷ []) (encoding k (n / 128)),
)

encode-encoding : (n : ℕ) → encode_variable_bytes n ≡ encoding 3 n
unfolding encode_variable_bytes
encode-encoding n = variable_bytes_loop-encoding 3 n []

-- One round on a last byte, and on a byte that another follows.
module _ {buf : Bytes} {pos : ℕ} (w acc inc rounds : ℕ) (rest : Bytes)
    (h : At buf pos (w ∷ rest)) where
  last_byte :
      w < 128
      → variable_length_loop (suc rounds) buf pos acc inc ≡ ok (acc + w * 2 ^ (inc * 7), pos + 1)
  unfolding variable_length_loop
  last_byte small = ground (arith, At-index w rest h, At-length h, low_bits w, top_bit w)

  inner_byte :
      128 ≤ w
      → w < 256
      → inc < 3
      → variable_length_loop (suc rounds) buf pos acc inc
        ≡ variable_length_loop rounds buf (pos + 1) (acc + w % 128 * 2 ^ (inc * 7)) (inc + 1)
  unfolding variable_length_loop
  inner_byte big byte room = ground (arith, At-index w rest h, At-length h, low_bits w, top_bit w)

  fourth_byte :
      128 ≤ w
      → w < 256
      → 3 ≤ inc
      → variable_length_loop (suc rounds) buf pos acc inc ≡ err invalid_remaining_length
  unfolding variable_length_loop
  fourth_byte big byte full = ground (arith, At-index w rest h, At-length h, low_bits w, top_bit w)

pub shift_seven : (inc : ℕ) → 2 ^ ((inc + 1) * 7) ≡ 128 * 2 ^ (inc * 7)
shift_seven inc =
    let e : (inc + 1) * 7 ≡ inc * 7 + 7 = omega arith in rw e (simp towards_suc (omega arith))

split_group :
    (n inc : ℕ) → n * 2 ^ (inc * 7) ≡ n % 128 * 2 ^ (inc * 7) + n / 128 * 2 ^ ((inc + 1) * 7)
split_group n inc = omega (
  arith,
  ap (λ (t : ℕ). t * 2 ^ (inc * 7)) (div-add-mod n 128),
  ap (λ (t : ℕ). n / 128 * t) (shift_seven inc),
)

length-encoding : (k n : ℕ) → (1 ≤ length (encoding k n)) × (length (encoding k n) ≤ k + 1)
unfolding encoding
length-encoding zero n = omega arith
length-encoding (suc k) n = ground (arith, length-encoding k (n / 128))

encoding_last : (k n : ℕ) → n < 128 → encoding k n ≡ n ∷ []
unfolding encoding
encoding_last zero n h = ground arith
encoding_last (suc k) n h = ground arith

encoding_more : (k n : ℕ) → 128 ≤ n → encoding (suc k) n ≡ (n % 128 + 128) ∷ encoding k (n / 128)
unfolding encoding
encoding_more k n h = ground arith

-- `n` is what is still to be read, and it counts from bit `inc * 7` on.
loop-encoding :
    {buf : Bytes} (k pos n acc inc : ℕ) (rest : Bytes)
    → At buf pos (encoding k n ++ rest)
    → n < 128 ^ suc k
    → inc + k ≡ 3
    → variable_length_loop (suc k) buf pos acc inc
      ≡ ok (acc + n * 2 ^ (inc * 7), pos + length (encoding k n))
loop-encoding {buf} zero pos n acc inc rest h small full =
    let e : encoding zero n ≡ n ∷ [] = encoding_last zero n small in
    rw e (last_byte n acc inc 0 rest (rw e at h) small)
loop-encoding {buf} (suc k) pos n acc inc rest h small full = elim (Bool-cases (ltb n 128)) [
  | inl done ↦
      let e : encoding (suc k) n ≡ n ∷ [] = encoding_last (suc k) n (ground arith) in
      rw e (last_byte n acc inc (suc k) rest (rw e at h) (ground arith))
  | inr more ↦
      let e = encoding_more k n (ground arith) in
      let h' : At buf pos ((n % 128 + 128) ∷ encoding k (n / 128) ++ rest) = rw e at h in
      rw e (
        inner_byte _ acc inc (suc k) _ h' (omega arith) (omega arith) (omega arith)
        ∙ ground (
          arith,
          split_group n inc,
          loop-encoding k (pos + 1) (n / 128) (acc + n % 128 * 2 ^ (inc * 7)) (inc + 1) rest
              (At-suc _ _ h') (omega arith) (omega arith),
        ))
]

pow_pos : (k : ℕ) → 1 ≤ 128 ^ k
pow_pos zero = omega arith
pow_pos (suc k) = omega (arith, pow_pos k)

-- Four full groups that ask for a fifth are refused.
loop-encoding_long :
    {buf : Bytes} (k pos n acc inc : ℕ) (rest : Bytes)
    → At buf pos (encoding k n ++ rest)
    → 128 ^ suc k ≤ n
    → inc + k ≡ 3
    → variable_length_loop (suc k) buf pos acc inc ≡ err invalid_remaining_length
loop-encoding_long {buf} zero pos n acc inc rest h big full =
    let e : encoding zero n ≡ (n % 128 + 128) ∷ [] = unfold encoding in ground arith in
    fourth_byte _ acc inc 0 rest (rw e at h) (omega arith) (omega arith) (omega arith)
loop-encoding_long {buf} (suc k) pos n acc inc rest h big full =
    let e = encoding_more k n (omega (arith, pow_pos k)) in
    let h' : At buf pos ((n % 128 + 128) ∷ encoding k (n / 128) ++ rest) = rw e at h in
    inner_byte _ acc inc (suc k) _ h' (omega arith) (omega arith) (omega arith)
    ∙ loop-encoding_long k (pos + 1) (n / 128) (acc + (n % 128 + 128) % 128 * 2 ^ (inc * 7))
        (inc + 1) rest (At-suc _ _ h') (omega arith) (omega arith)

-- Every number below 2 ^ 28 is read back from what `encode_variable_bytes` wrote, wherever that
-- stands in a buffer, and the position returned is the one behind it.
pub decode-encode_variable_bytes :
    {buf : Bytes} {pos : ℕ} (n : ℕ) (rest : Bytes)
    → n < 2 ^ 28
    → At buf pos (encode_variable_bytes n ++ rest)
    → decode_variable_length buf pos ≡ ok (n, pos + length (encode_variable_bytes n))
unfolding decode_variable_length
decode-encode_variable_bytes {buf} {pos} n rest small h = rw (encode-encoding n) (
    loop-encoding 3 pos n 0 0 rest (rw (encode-encoding n) at h) small (omega arith) ∙ ground arith)

encoding_cut : (n : ℕ) → 128 ≤ n → encoding zero n ≡ (n % 128 + 128) ∷ []
unfolding encoding
encoding_cut n h = ground arith

-- A number of 2 ^ 28 or more is cut to its four lowest groups of seven bits, the last with its
-- continuation bit set like the others, and what was written is refused by the reader.
pub decode-encode_variable_bytes_overflow :
    {buf : Bytes} {pos : ℕ} (n : ℕ) (rest : Bytes)
    → 2 ^ 28 ≤ n
    → At buf pos (encode_variable_bytes n ++ rest)
    → (encode_variable_bytes n
        ≡ (n % 128 + 128)
          ∷ (n / 128 % 128 + 128)
          ∷ (n / 128 / 128 % 128 + 128)
          ∷ (n / 128 / 128 / 128 % 128 + 128)
          ∷ [])
      × (decode_variable_length buf pos ≡ err invalid_remaining_length)
unfolding decode_variable_length
decode-encode_variable_bytes_overflow {buf} {pos} n rest big h = (
  encode-encoding n
      ∙ rw
          (
            encoding_more 2 n (omega arith),
            encoding_more 1 (n / 128) (omega arith),
            encoding_more 0 (n / 128 / 128) (omega arith),
            encoding_cut (n / 128 / 128 / 128) (omega arith),
          )
          refl,
  loop-encoding_long 3 pos n 0 0 rest (rw (encode-encoding n) at h) big (omega arith),
)

-- `encode_variable_bytes` writes one to four bytes.
pub length-encode_variable_bytes :
    (n : ℕ) → (1 ≤ length (encode_variable_bytes n)) × (length (encode_variable_bytes n) ≤ 4)
length-encode_variable_bytes n = rw (encode-encoding n) (length-encoding 3 n)

pub length-encode_small : (n : ℕ) → n < 128 → length (encode_variable_bytes n) ≡ 1
length-encode_small n h = rw (encode-encoding n) (rw (encoding_last 3 n h))

pub length-encode_large : (n : ℕ) → 128 ≤ n → 2 ≤ length (encode_variable_bytes n)
length-encode_large n h =
    rw (encode-encoding n) (rw (encoding_more 2 n h) (omega (arith, length-encoding 2 (n / 128))))
