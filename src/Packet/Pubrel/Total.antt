-- ===== src/Packet/Pubrel/Total.antt =====
-- The decoders of `Pubrel` end on every buffer: the fuel of their loops is enough.
use aqua.Base.{ℕ, Option}
use aqua.Outcome.{Ends, Ends-ok}
use aqua.Bytes.{Bytes}
use aqua.Property.Ends.{property_ends}
use aqua.Property.Forward.{Forward, forward_rules}
use aqua.Property.Loop.{property_block, property_block-Ends}
use aqua.Packet.Pubrel.{
  Pubrel, property_arm, reason_code_try_from, decode_variable_header, decode_payload,
}

property_arm-Ends : (buf : Bytes) (id pos : ℕ) (p : Pubrel) → Ends (property_arm buf id pos p)
unfolding property_arm
property_arm-Ends buf id pos p = search property_ends depth 30

property_arm-Forward :
    (buf : Bytes) (id pos : ℕ) (p : Pubrel) → Forward pos (property_arm buf id pos p)
unfolding property_arm
property_arm-Forward buf id pos p = search forward_rules depth 30

property_arm_block-Ends :
    (buf : Bytes) (len pos : ℕ) (p : Pubrel)
    → Ends (property_block (property_arm buf) buf len pos p)
property_arm_block-Ends buf len pos p =
    property_block-Ends (property_arm buf) (property_arm-Ends buf)
      (λ id pos s s' next e. (property_arm-Forward buf id pos s).at (s', next) e) buf len pos p

reason_code_try_from-Ends : (buf : Bytes) (pos : ℕ) → Ends (reason_code_try_from buf pos)
unfolding reason_code_try_from
reason_code_try_from-Ends buf pos = search property_ends

-- `decode_variable_header` of a `Pubrel` ends on every buffer.
pub decode_variable_header-Ends :
    (p : Pubrel) (buf : Bytes) (start len : ℕ) (v : Option ℕ)
    → Ends (decode_variable_header p buf start len v)
unfolding decode_variable_header
decode_variable_header-Ends p buf start len v =
    search (property_ends, property_arm_block-Ends, reason_code_try_from-Ends) depth 30

pub decode_payload-Ends : (p : Pubrel) (buf : Bytes) (v : Option ℕ) → Ends (decode_payload p buf v)
unfolding decode_payload
decode_payload-Ends p buf v = Ends-ok _
