-- ===== src/Property/Writers.antt =====
-- How the encoders write strings and the two properties that most packets share.
use aqua.Base.{
  ◌%◌, ◌^◌, ◌<◌, ◌≡◌, refl, List, [], ◌∷◌, ◌++◌, Option, none, some, ltb, if◌then◌else◌, length,
  arith,
}
use aqua.Outcome.{Outcome, ok, err, invalid_format, ◌>>=◌}
use aqua.Bytes.{Bytes, u16_bytes}
use aqua.Wire.Text.{text_bytes}
use aqua.Property.{UserProperty}

-- `let l: u16 = c.len().try_into().map_err(|_| MqttError::InvalidFormat)?`, then `l` and the bytes
unfoldable pub checked_text : Bytes → Outcome Bytes
checked_text c =
    if ltb (length c) (2 ^ 16) then ok (u16_bytes (length c) ++ c) else err invalid_format

-- `buf.put_u16(c.len() as u16)`, then the bytes: the cast drops the high bits.
unfoldable pub cast_text : Bytes → Bytes
cast_text c = u16_bytes (length c % 2 ^ 16) ++ c

unfoldable pub reason_string_bytes : Option Bytes → Outcome Bytes
reason_string_bytes none = ok []
reason_string_bytes (some c) = do text ← checked_text c; ok (0x1f ∷ text)

unfoldable pub user_properties_bytes : List UserProperty → Outcome Bytes
user_properties_bytes [] = ok []
user_properties_bytes (v ∷ vs) = do
  key ← checked_text v.key
  value ← checked_text v.value
  rest ← user_properties_bytes vs
  ok (0x26 ∷ key ++ value ++ rest)

pub checked_text_lem :
    (c out : Bytes) → checked_text c ≡ ok out → (out ≡ text_bytes c) × (length c < 2 ^ 16)
unfolding checked_text text_bytes
checked_text_lem c out h = ground arith

-- A string that fits is written with its length as it is.
pub cast_text_lem : (s : Bytes) → length s < 2 ^ 16 → cast_text s ≡ text_bytes s
unfolding cast_text text_bytes
cast_text_lem s fits = let e : length s % 2 ^ 16 ≡ length s = omega (arith, fits) in rw e refl
