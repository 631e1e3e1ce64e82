-- ===== src/Examples/WireRuns.antt =====
-- The readers and writers of mqtt_coder/src/mqtt.rs on particular bytes.
use aqua.Base.{take, drop, ◌+◌, ◌^◌, ◌≡◌, ◌≤◌, refl, true, [], ◌∷◌, ◌++◌, arith, length}
use aqua.Outcome.{ok, err, invalid_remaining_length}
use aqua.Bytes.{index, slice, u16_from_slice}
use aqua.Bytes.Cursor.{At-start}
use aqua.Bytes.{Bytes}
use aqua.Utf8.{is_utf8, letter, from_utf8}
use aqua.Wire.{encode_variable_bytes, decode_variable_length, decode_utf8_string, decode_u16_bytes}
use aqua.Wire.VarInt.{decode-encode_variable_bytes, decode-encode_variable_bytes_overflow}
use aqua.Wire.Text.{decode_utf8_string_bounds}

decode-encode_variable_bytes_example :
    decode_variable_length (encode_variable_bytes 321 ++ (9 ∷ [])) 0
    ≡ ok (321, 0 + length (encode_variable_bytes 321))
decode-encode_variable_bytes_example =
    decode-encode_variable_bytes 321 (9 ∷ []) (omega arith)
      (At-start (encode_variable_bytes 321 ++ (9 ∷ [])))

decode-encode_variable_bytes_overflow_example :
    (encode_variable_bytes (2 ^ 28) ≡ 0x80 ∷ 0x80 ∷ 0x80 ∷ 0x80 ∷ [])
    × (decode_variable_length (encode_variable_bytes (2 ^ 28) ++ []) 0
        ≡ err invalid_remaining_length)
decode-encode_variable_bytes_overflow_example =
    decode-encode_variable_bytes_overflow (2 ^ 28) [] (omega arith)
      (At-start (encode_variable_bytes (2 ^ 28) ++ []))

length_read : decode_variable_length (0xc1 ∷ 0x02 ∷ 9 ∷ []) 0 ≡ ok (321, 2)
unfolding decode_variable_length index
length_read = refl

text_read : decode_utf8_string (0 ∷ 1 ∷ 0x61 ∷ []) 0 ≡ ok (0x61 ∷ [], 3)
unfolding decode_utf8_string decode_u16_bytes slice u16_from_slice from_utf8
text_read = rw letter refl

decode_utf8_string_bounds_example :
    (decode_u16_bytes (0 ∷ 1 ∷ 0x61 ∷ []) 0 ≡ ok 1)
    × (◌≡◌ {A = Bytes} (0x61 ∷ []) (take 1 (drop 2 (0 ∷ 1 ∷ 0x61 ∷ []))))
    × (3 ≡ 0 + 2 + 1)
    × (3 ≤ 3)
    × (is_utf8 (0x61 ∷ []) ≡ true)
decode_utf8_string_bounds_example =
    decode_utf8_string_bounds (0 ∷ 1 ∷ 0x61 ∷ []) 0 (0x61 ∷ []) 3 text_read
