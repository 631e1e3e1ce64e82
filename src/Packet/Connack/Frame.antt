-- ===== src/Packet/Connack/Frame.antt =====
-- The frame of an encoded `Connack`, and where it is wrong.
use aqua.Base.{
  ℕ, ◌+◌, ◌≤◌, ◌<◌, ◌≡◌, [], ◌∷◌, ◌++◌, ◌==◌, if◌then◌else◌, length, arith, length-append, inl, inr,
  Bool-cases,
}
use aqua.Outcome.{ok, >>=-eq-ok}
use aqua.Bytes.{Bytes}
use aqua.Wire.{encode_variable_bytes}
use aqua.Wire.VarInt.{length-encode_small, length-encode_large}
use aqua.Packet.{frame, IsFramed}
use aqua.Packet.Connack.{Connack, connack_properties_bytes, encode_header}
use aqua.Packet.Connack.Reason.{reason_byte}

-- What stands behind the remaining length.
abbrev body : Connack → Bytes → Bytes
body p props =
    (if p.session_present then 1 else 0) ∷ reason_byte p.connect_reason ∷ []
    ++ (if p.version == 5 then encode_variable_bytes (length props) ++ props else [])

-- The properties of the packet take less than 128 bytes, or the packet is not of version 5.
abbrev pub HasShortProperties : Connack → Type 0
HasShortProperties p =
    (props : Bytes)
    → connack_properties_bytes p.connack_properties ≡ ok props
    → p.version ≡ 5
    → length props < 128

-- The remaining length that an encoded `Connack` announces is the number of the bytes that follow it,
-- if its version 5 properties take less than 128 bytes.
pub connack_encode_header-IsFramed :
    (p : Connack) (out : Bytes)
    → HasShortProperties p
    → encode_header p ≡ ok out
    → IsFramed 0x20 out
unfolding encode_header frame
connack_encode_header-IsFramed p out short h = elim (Bool-cases (p.version == 5)) [
  | inl new ↦
      let h1 = rw new at h in
      let (props, e, h') = >>=-eq-ok (connack_properties_bytes p.connack_properties) _ h1 in
      (
        body p props,
        ground (
          arith,
          h',
          new,
          length-encode_small (length props) (short props e (ground arith)),
          length-append (encode_variable_bytes (length props)) props,
        ),
      )
  | inr old ↦ (body p [], ground (arith, h, old))
]

-- A version 5 `Connack` whose properties take 128 bytes or more announces fewer bytes than it writes.
pub connack_encode_header_short :
    (p : Connack) (props : Bytes)
    → p.version ≡ 5
    → connack_properties_bytes p.connack_properties ≡ ok props
    → 128 ≤ length props
    → (announced : ℕ) × (rest : Bytes) × (encode_header p
        ≡ ok (0x20 ∷ encode_variable_bytes announced ++ rest))
      × (announced < length rest)
unfolding encode_header
connack_encode_header_short p props version e long = (
  3 + length props,
  body p props,
  ground (arith, e),
  ground (
    arith,
    length-encode_large (length props) long,
    length-append (encode_variable_bytes (length props)) props,
  ),
)
