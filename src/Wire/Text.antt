-- ===== src/Wire/Text.antt =====
-- Words and strings behind a length prefix, and the bounds of every reader.
use aqua.Base.{
  ℕ, ◌+◌, ◌≤◌, ◌≡◌, true, [], ◌∷◌, ◌++◌, length, arith, take, drop, append_assoc, le→ltb,
  length-append,
}
use aqua.Outcome.{ok}
use aqua.Bytes.{Bytes, slice, u16_bytes, u32_bytes}
use aqua.Bytes.Cursor.{
  At, At-length, At-append, At-slice, u16_round_trip, u32_round_trip, slice_bounds, slice_taken,
}
use aqua.Utf8.{is_utf8, from_utf8}
use aqua.Wire.{decode_u16_bytes, decode_u32_bytes, decode_utf8_string}

-- A string as the source writes it behind a checked length.
unfoldable pub text_bytes : Bytes → Bytes
text_bytes s = u16_bytes (length s) ++ s

pub length-text_bytes : (s : Bytes) → length (text_bytes s) ≡ 2 + length s
unfolding text_bytes u16_bytes
length-text_bytes s = omega arith

module _ {buf : Bytes} {pos : ℕ} where
  pub decode_u16_bytes_lem :
      (n : ℕ) (rest : Bytes) → At buf pos (u16_bytes n ++ rest) → decode_u16_bytes buf pos ≡ ok n
  unfolding decode_u16_bytes
  decode_u16_bytes_lem n rest h =
      let e : slice buf pos (pos + 2) ≡ ok (u16_bytes n) =
        unfold u16_bytes in At-slice (_ ∷ _ ∷ []) rest h in
      rw e (u16_round_trip n)

  pub decode_u32_bytes_lem :
      (n : ℕ) (rest : Bytes) → At buf pos (u32_bytes n ++ rest) → decode_u32_bytes buf pos ≡ ok n
  unfolding decode_u32_bytes
  decode_u32_bytes_lem n rest h =
      let e : slice buf pos (pos + 4) ≡ ok (u32_bytes n) =
        unfold u32_bytes in At-slice (_ ∷ _ ∷ _ ∷ _ ∷ []) rest h in
      rw e (u32_round_trip n)

  -- A valid string that fits its length prefix is read back, and the position behind it returned.
  pub decode_utf8_string_lem :
      (s rest : Bytes)
      → is_utf8 s ≡ true
      → At buf pos (text_bytes s ++ rest)
      → decode_utf8_string buf pos ≡ ok (s, pos + 2 + length s)
  unfolding decode_utf8_string from_utf8 text_bytes
  decode_utf8_string_lem s rest valid h = rw (decode_u16_bytes_lem (length s) (s ++ rest) front) (
      rw
        (le→ltb (length buf) (pos + 2 + length s)
          (omega (arith, At-length body, length-append s rest)))
        (rw (At-slice s rest body, valid)))
    where
      front : At buf pos (u16_bytes (length s) ++ (s ++ rest))
      front = rw append_assoc at h

      body : At buf (pos + 2) (s ++ rest)
      body = unfold u16_bytes in At-append (_ ∷ _ ∷ []) (s ++ rest) front

-- A string that is read is what stands in the buffer behind its two length bytes, as many bytes as those
-- say, and is valid UTF-8; the position returned is the one behind it, at the end of the buffer at most.
pub decode_utf8_string_bounds :
    (buf : Bytes) (pos : ℕ) (s : Bytes) (next : ℕ)
    → decode_utf8_string buf pos ≡ ok (s, next)
    → (decode_u16_bytes buf pos ≡ ok (length s))
      × (s ≡ take (length s) (drop (pos + 2) buf))
      × (next ≡ pos + 2 + length s)
      × (next ≤ length buf)
      × (is_utf8 s ≡ true)
unfolding decode_utf8_string from_utf8
decode_utf8_string_bounds buf pos s next h = grind (arith, slice_bounds, slice_taken)
