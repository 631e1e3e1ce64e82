-- ===== src/Wire/Ends.antt =====
-- The readers that all packets share use no fuel.
use aqua.Base.{ℕ}
use aqua.Outcome.{Ends, IsSafe-Ends}
use aqua.Bytes.{Bytes}
use aqua.Bytes.Ends.{byte_ends}
use aqua.Utf8.{from_utf8}
use aqua.Wire.{decode_u16_bytes, decode_utf8_string, decode_variable_length}
use aqua.Wire.Bounds.{decode_variable_length-IsSafe}

pub from_utf8-Ends : (b : Bytes) → Ends (from_utf8 b)
unfolding from_utf8
from_utf8-Ends b = search byte_ends

decode_u16_bytes-Ends : (buf : Bytes) (pos : ℕ) → Ends (decode_u16_bytes buf pos)
unfolding decode_u16_bytes
decode_u16_bytes-Ends buf pos = search byte_ends

pub decode_utf8_string-Ends : (buf : Bytes) (pos : ℕ) → Ends (decode_utf8_string buf pos)
unfolding decode_utf8_string
decode_utf8_string-Ends buf pos = search (byte_ends, from_utf8-Ends, decode_u16_bytes-Ends) depth 9

pub decode_variable_length-Ends : (buf : Bytes) (pos : ℕ) → Ends (decode_variable_length buf pos)
decode_variable_length-Ends buf pos = IsSafe-Ends _ (decode_variable_length-IsSafe buf pos)

pub ruleset wire_ends =
    (byte_ends, from_utf8-Ends, decode_utf8_string-Ends, decode_variable_length-Ends)
