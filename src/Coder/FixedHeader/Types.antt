-- ===== src/Coder/FixedHeader/Types.antt =====
-- mqtt_coder/src/mqtt.rs: which packet a fixed header is for.
use aqua.Base.{
  ℕ, ◌+◌, ◌/◌, ◌^◌, ◌<◌, ◌≤◌, ◌≡◌, ◌≢◌, refl, ◌∷◌, Option, All, length, arith, ◌==◌, if_cases,
  subst, sym, ◌∙◌,
}
use aqua.Outcome.{Outcome, ok, err, panic, out_of_fuel, invalid_format, ◌>>=◌}
use aqua.Bytes.{Bytes, IsByte, index}
use aqua.Wire.{decode_variable_length}
use aqua.Wire.Bounds.{decode_variable_length_bounds}
use aqua.Coder.ControlPacket.{
  ControlPacket, connect, disconnect, connack, publish, undefined, no_operation,
  disconnectcp_operation, subscribe, suback, pingreq, pingresp, unsubscribe, unsuback, puback,
  pubrec, pubrel, pubcomp,
}
use aqua.Coder.FixedHeader.{decode_fixed_header, decode_lower_fixed_header, with_length}

-- The packet types of MQTT
abbrev pub type_of : ControlPacket → ℕ
type_of (connect p) = 1
type_of (connack p) = 2
type_of (publish p) = 3
type_of (puback p) = 4
type_of (pubrec p) = 5
type_of (pubrel p) = 6
type_of (pubcomp p) = 7
type_of (subscribe p) = 8
type_of (suback p) = 9
type_of (unsubscribe p) = 10
type_of (unsuback p) = 11
type_of pingreq = 12
type_of pingresp = 13
type_of (disconnect p) = 14
type_of undefined = 0
type_of no_operation = 0
type_of disconnectcp_operation = 0

-- A header that is read: the packet has the type `t`, and the length is that of the bytes from 1 on.
abbrev IsHeader : Bytes → ℕ → Outcome (ControlPacket × ℕ × ℕ) → Type 0
IsHeader buf t (ok r) = (type_of r.0 ≡ t) × (decode_variable_length buf 1 ≡ ok (r.2, r.1))
IsHeader buf t (err e) = Unit
IsHeader buf t panic = Unit
IsHeader buf t out_of_fuel = Unit

after_length :
    (packet : ControlPacket) (buf : Bytes) (t : ℕ) (m : Outcome (ℕ × ℕ))
    → type_of packet ≡ t
    → decode_variable_length buf 1 ≡ m
    → IsHeader buf t (m >>= λ r. ok (packet, r.1, r.0))
after_length packet buf t (ok r) e h = (e, h)
after_length packet buf t (err x) e h = tt
after_length packet buf t panic e h = tt
after_length packet buf t out_of_fuel e h = tt

with_length-IsHeader :
    (packet : ControlPacket) (buf : Bytes) (t : ℕ)
    → type_of packet ≡ t
    → IsHeader buf t (with_length packet buf 0)
with_length-IsHeader packet buf t e =
    after_length packet buf t (decode_variable_length buf 1) e refl

after_lower :
    {A : Type 0} (buf : Bytes) (t : ℕ) (m : Outcome A) (f : A → Outcome (ControlPacket × ℕ × ℕ))
    → ((a : A) → IsHeader buf t (f a))
    → IsHeader buf t (m >>= f)
after_lower buf t (ok a) f h = h a
after_lower buf t (err x) f h = tt
after_lower buf t panic f h = tt
after_lower buf t out_of_fuel f h = tt

decode_fixed_header-IsHeader :
    (b : ℕ) (rest : Bytes) (v : Option ℕ)
    → IsHeader (b ∷ rest) (b / 16) (decode_fixed_header (b ∷ rest) 0 v)
unfolding decode_fixed_header index
decode_fixed_header-IsHeader b rest v =
    let buf = b ∷ rest in
    let of = λ (packet : ControlPacket) (e : type_of packet ≡ b / 16).
      with_length-IsHeader packet buf (b / 16) e in
    if_cases (IsHeader buf (b / 16)) (b / 16 == 1) _ _ (λ e. of _ (ground (arith, e)))
      λ n1.
        if_cases (IsHeader buf (b / 16)) (b / 16 == 14) _ _ (λ e. of _ (ground (arith, e)))
          λ n14.
            if_cases (IsHeader buf (b / 16)) (b / 16 == 3) _ _
              (λ e.
                after_lower buf (b / 16) (decode_lower_fixed_header buf 0) _
                  (λ a. of _ (ground (arith, e))))
              λ n3.
                if_cases (IsHeader buf (b / 16)) (b / 16 == 4) _ _ (λ e. of _ (ground (arith, e)))
                  λ n4.
                    if_cases (IsHeader buf (b / 16)) (b / 16 == 5) _ _
                      (λ e. of _ (ground (arith, e)))
                      λ n5.
                        if_cases (IsHeader buf (b / 16)) (b / 16 == 6) _ _
                          (λ e.
                            if_cases (IsHeader buf (b / 16)) (b == 0x62) _ _
                              (λ s. of _ (ground (arith, e))) (λ s. tt))
                          λ n6.
                            if_cases (IsHeader buf (b / 16)) (b / 16 == 7) _ _
                              (λ e. of _ (ground (arith, e)))
                              λ n7.
                                if_cases (IsHeader buf (b / 16)) (b / 16 == 8) _ _
                                  (λ e.
                                    if_cases (IsHeader buf (b / 16)) (b == 0x82) _ _
                                      (λ s. of _ (ground (arith, e))) (λ s. tt))
                                  λ n8.
                                    if_cases (IsHeader buf (b / 16)) (b / 16 == 10) _ _
                                      (λ e.
                                        if_cases (IsHeader buf (b / 16)) (b == 0xa2) _ _
                                          (λ s. of _ (ground (arith, e))) (λ s. tt))
                                      λ n10. tt

pingreq_refused :
    (b : ℕ) (rest : Bytes) (v : Option ℕ)
    → b / 16 ≡ 12
    → decode_fixed_header (b ∷ rest) 0 v ≡ err invalid_format
unfolding decode_fixed_header index
pingreq_refused b rest v type = ground arith

-- A fixed header that is read gives a packet of the type that MQTT gives to the upper four bits of its first
-- byte, and that type is not PINGREQ, which the services would answer; the remaining length is below
-- 2 ^ 28 and takes one to four bytes behind the first.
pub decode_fixed_header-type_of :
    (b : ℕ) (rest : Bytes) (v : Option ℕ) (packet : ControlPacket) (next n : ℕ)
    → All IsByte (b ∷ rest)
    → decode_fixed_header (b ∷ rest) 0 v ≡ ok (packet, next, n)
    → (type_of packet ≡ b / 16)
      × (type_of packet ≢ 12)
      × (n < 2 ^ 28)
      × (1 < next)
      × (next ≤ 5)
      × (next ≤ 1 + length rest)
decode_fixed_header-type_of b rest v packet next n bytes e =
    let (type, len) =
      subst (IsHeader (b ∷ rest) (b / 16)) e (decode_fixed_header-IsHeader b rest v) in
    let (small, above, most, within) =
      decode_variable_length_bounds (b ∷ rest) 1 n next bytes len in
    (
      type,
      λ twelve. cc (pingreq_refused b rest v (sym type ∙ twelve), e),
      small,
      above,
      omega (arith, most),
      omega (arith, within),
    )
