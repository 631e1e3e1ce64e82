-- ===== src/Packet/Publish/Total.antt =====
-- The decoders of `Publish` end on every buffer: the fuel of their loops is enough.
use aqua.Base.{ℕ, Option}
use aqua.Outcome.{Ends}
use aqua.Bytes.{Bytes}
use aqua.Property.Ends.{property_ends}
use aqua.Property.Forward.{Forward, forward_rules}
use aqua.Property.Loop.{property_block, property_block-Ends}
use aqua.Packet.Publish.Properties.{PublishProperties, property_arm}
use aqua.Packet.Publish.{Publish, decode_variable_header, decode_payload}

property_arm-Ends :
    (buf : Bytes) (id pos : ℕ) (p : PublishProperties) → Ends (property_arm buf id pos p)
unfolding property_arm
property_arm-Ends buf id pos p = search property_ends depth 30

property_arm-Forward :
    (buf : Bytes) (id pos : ℕ) (p : PublishProperties) → Forward pos (property_arm buf id pos p)
unfolding property_arm
property_arm-Forward buf id pos p = search forward_rules depth 30

property_arm_block-Ends :
    (buf : Bytes) (len pos : ℕ) (p : PublishProperties)
    → Ends (property_block (property_arm buf) buf len pos p)
property_arm_block-Ends buf len pos p =
    property_block-Ends (property_arm buf) (property_arm-Ends buf)
      (λ id pos s s' next e. (property_arm-Forward buf id pos s).at (s', next) e) buf len pos p

-- `decode_variable_header` of a `Publish` ends on every buffer.
pub decode_variable_header-Ends :
    (p : Publish) (buf : Bytes) (start len : ℕ) (v : Option ℕ)
    → Ends (decode_variable_header p buf start len v)
unfolding decode_variable_header
decode_variable_header-Ends p buf start len v =
    search (property_ends, property_arm_block-Ends) depth 30

pub decode_payload-Ends : (p : Publish) (buf : Bytes) (v : Option ℕ) → Ends (decode_payload p buf v)
unfolding decode_payload
decode_payload-Ends p buf v = search property_ends
