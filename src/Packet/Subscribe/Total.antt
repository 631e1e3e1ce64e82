-- ===== src/Packet/Subscribe/Total.antt =====
-- The decoders of `Subscribe` end on every buffer: the fuel of their loops is enough.
use aqua.Base.{
  ℕ, zero, suc, ◌+◌, ◌-◌, ◌≤◌, ◌<◌, ◌≡◌, Option, none, some, arith, inl, inr, Bool-cases, ltb, ◌==◌,
}
use aqua.Outcome.{ok, Ends, Ends-ok, Ends-err, Ends-bind, Ends-bind_ok}
use aqua.Bytes.{Bytes}
use aqua.Property.Ends.{property_ends}
use aqua.Property.Forward.{Forward, forward_rules}
use aqua.Property.Loop.{property_block, property_block-Ends}
use aqua.Property.{topic_filter_try_from}
use aqua.Property.Ends.{topic_filter_try_from-Ends}
use aqua.Property.Position.{topic_filter-Advances}
use aqua.Packet.Subscribe.{
  Subscribe, SubscribeProperties, SubscribeOption, subscribe_option_try_from,
  retain_handling_try_from, property_arm, topic_filters_loop, decode_variable_header,
  decode_payload,
}

property_arm-Ends :
    (buf : Bytes) (id pos : ℕ) (p : SubscribeProperties) → Ends (property_arm buf id pos p)
unfolding property_arm
property_arm-Ends buf id pos p = search property_ends depth 30

property_arm-Forward :
    (buf : Bytes) (id pos : ℕ) (p : SubscribeProperties) → Forward pos (property_arm buf id pos p)
unfolding property_arm
property_arm-Forward buf id pos p = search forward_rules depth 30

property_arm_block-Ends :
    (buf : Bytes) (len pos : ℕ) (p : SubscribeProperties)
    → Ends (property_block (property_arm buf) buf len pos p)
property_arm_block-Ends buf len pos p =
    property_block-Ends (property_arm buf) (property_arm-Ends buf)
      (λ id pos s s' next e. (property_arm-Forward buf id pos s).at (s', next) e) buf len pos p

-- `decode_variable_header` of a `Subscribe` ends on every buffer.
pub decode_variable_header-Ends :
    (p : Subscribe) (buf : Bytes) (start len : ℕ) (v : Option ℕ)
    → Ends (decode_variable_header p buf start len v)
unfolding decode_variable_header
decode_variable_header-Ends p buf start len none = Ends-err _
decode_variable_header-Ends p buf start len (some v) =
    search (property_ends, property_arm_block-Ends) depth 30

option-Ends : (buf : Bytes) (pos : ℕ) → Ends (subscribe_option_try_from buf pos)
unfolding subscribe_option_try_from retain_handling_try_from
option-Ends buf pos = search property_ends depth 12

option_next :
    (buf : Bytes) (pos : ℕ) (r : SubscribeOption × ℕ)
    → subscribe_option_try_from buf pos ≡ ok r
    → r.1 ≡ pos + 1
unfolding subscribe_option_try_from
option_next buf pos r e = ground arith

topic_filters_loop-Ends :
    (fuel : ℕ) (p : Subscribe) (buf : Bytes) (pos : ℕ)
    → p.payload_length - pos ≤ fuel
    → 0 < fuel
    → Ends (topic_filters_loop fuel p buf pos)
unfolding topic_filters_loop
topic_filters_loop-Ends zero p buf pos h k = absurd (omega arith)
topic_filters_loop-Ends (suc fuel) p buf pos h k =
    Ends-bind_ok (topic_filter_try_from buf pos) _ (topic_filter_try_from-Ends buf pos) λ r e.
      Ends-bind_ok (subscribe_option_try_from buf r.1) _ (option-Ends buf r.1) λ q f.
        elim (Bool-cases (p.payload_length == q.1)) [
          | inl done ↦ rw done (Ends-ok _)
          | inr more ↦ elim (Bool-cases (ltb p.payload_length q.1)) [
            | inl past ↦ rw (more, past) (Ends-err _)
            | inr before ↦
                rw (more, before)
                  (topic_filters_loop-Ends fuel _ buf q.1
                    (ground
                      (arith, topic_filter-Advances buf pos r.0 r.1 e, option_next buf r.1 q f))
                    (ground
                      (arith, topic_filter-Advances buf pos r.0 r.1 e, option_next buf r.1 q f)))
          ]
        ]

pub decode_payload-Ends :
    (p : Subscribe) (buf : Bytes) (v : Option ℕ) → Ends (decode_payload p buf v)
unfolding decode_payload
decode_payload-Ends p buf v = elim (Bool-cases (p.payload_length == 0)) [
  | inl empty ↦ rw empty (Ends-err _)
  | inr some_bytes ↦ rw some_bytes (
      Ends-bind (topic_filters_loop p.payload_length p buf 0) _
        (topic_filters_loop-Ends p.payload_length p buf 0 (omega arith) (ground arith))
        λ r. search property_ends)
]
