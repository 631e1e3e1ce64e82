-- ===== src/Packet/Unsubscribe/Total.antt =====
-- The decoders of `Unsubscribe` end on every buffer: the fuel of their loops is enough.
use aqua.Base.{ℕ, zero, suc, ◌+◌, ◌-◌, ◌<◌, Option, arith, inl, inr, Bool-cases, ltb, ◌==◌}
use aqua.Outcome.{Ends, Ends-ok, Ends-err, Ends-bind_ok}
use aqua.Bytes.{Bytes}
use aqua.Property.Ends.{property_ends}
use aqua.Property.Forward.{Forward, forward_rules}
use aqua.Property.Loop.{property_block, property_block-Ends}
use aqua.Property.{topic_filter_try_from}
use aqua.Property.Ends.{topic_filter_try_from-Ends}
use aqua.Property.Position.{topic_filter-Advances}
use aqua.Packet.Unsubscribe.{
  Unsubscribe, property_arm, topic_filters_loop, decode_variable_header, decode_payload,
}

property_arm-Ends : (buf : Bytes) (id pos : ℕ) (p : Unsubscribe) → Ends (property_arm buf id pos p)
unfolding property_arm
property_arm-Ends buf id pos p = search property_ends depth 30

property_arm-Forward :
    (buf : Bytes) (id pos : ℕ) (p : Unsubscribe) → Forward pos (property_arm buf id pos p)
unfolding property_arm
property_arm-Forward buf id pos p = search forward_rules depth 30

property_arm_block-Ends :
    (buf : Bytes) (len pos : ℕ) (p : Unsubscribe)
    → Ends (property_block (property_arm buf) buf len pos p)
property_arm_block-Ends buf len pos p =
    property_block-Ends (property_arm buf) (property_arm-Ends buf)
      (λ id pos s s' next e. (property_arm-Forward buf id pos s).at (s', next) e) buf len pos p

-- `decode_variable_header` of a `Unsubscribe` ends on every buffer.
pub decode_variable_header-Ends :
    (p : Unsubscribe) (buf : Bytes) (start len : ℕ) (v : Option ℕ)
    → Ends (decode_variable_header p buf start len v)
unfolding decode_variable_header
decode_variable_header-Ends p buf start len v =
    search (property_ends, property_arm_block-Ends) depth 30

topic_filters_loop-Ends :
    (fuel : ℕ) (p : Unsubscribe) (buf : Bytes) (pos : ℕ)
    → p.payload_length - pos < fuel
    → Ends (topic_filters_loop fuel p buf pos)
unfolding topic_filters_loop
topic_filters_loop-Ends zero p buf pos h = absurd (omega arith)
topic_filters_loop-Ends (suc fuel) p buf pos h = elim (Bool-cases (pos == p.payload_length)) [
  | inl done ↦ rw done (Ends-ok _)
  | inr more ↦ elim (Bool-cases (ltb p.payload_length pos)) [
    | inl past ↦ rw (more, past) (Ends-err _)
    | inr before ↦
        rw (more, before)
          (Ends-bind_ok (topic_filter_try_from buf pos) _ (topic_filter_try_from-Ends buf pos)
            λ r e.
              topic_filters_loop-Ends fuel _ buf r.1
                (ground (arith, topic_filter-Advances buf pos r.0 r.1 e)))
  ]
]

enough : (n : ℕ) → n - 0 < n + 1
enough n = omega arith

pub decode_payload-Ends :
    (p : Unsubscribe) (buf : Bytes) (v : Option ℕ) → Ends (decode_payload p buf v)
unfolding decode_payload
decode_payload-Ends p buf v =
    search (property_ends, topic_filters_loop-Ends, enough p.payload_length) depth 9
