-- ===== src/Packet/Disconnect/Total.antt =====
-- The decoders of `Disconnect` end on every buffer: the fuel of their loops is enough.
use aqua.Base.{ℕ, Option}
use aqua.Outcome.{Ends, Ends-ok}
use aqua.Bytes.{Bytes}
use aqua.Property.Ends.{property_ends}
use aqua.Property.Forward.{Forward, forward_rules}
use aqua.Property.Loop.{property_block, property_block-Ends}
use aqua.Packet.Disconnect.Reason.{convert}
use aqua.Packet.Disconnect.{
  Disconnect, DisconnectProperties, property_arm, decode_variable_header, decode_payload,
}

property_arm-Ends :
    (buf : Bytes) (id pos : ℕ) (p : DisconnectProperties) → Ends (property_arm buf id pos p)
unfolding property_arm
property_arm-Ends buf id pos p = search property_ends depth 30

property_arm-Forward :
    (buf : Bytes) (id pos : ℕ) (p : DisconnectProperties) → Forward pos (property_arm buf id pos p)
unfolding property_arm
property_arm-Forward buf id pos p = search forward_rules depth 30

property_arm_block-Ends :
    (buf : Bytes) (len pos : ℕ) (p : DisconnectProperties)
    → Ends (property_block (property_arm buf) buf len pos p)
property_arm_block-Ends buf len pos p =
    property_block-Ends (property_arm buf) (property_arm-Ends buf)
      (λ id pos s s' next e. (property_arm-Forward buf id pos s).at (s', next) e) buf len pos p

convert-Ends : (buf : Bytes) (pos : ℕ) → Ends (convert buf pos)
unfolding convert
convert-Ends buf pos = search property_ends

-- `decode_variable_header` of a `Disconnect` ends on every buffer.
pub decode_variable_header-Ends :
    (p : Disconnect) (buf : Bytes) (start len : ℕ) (v : Option ℕ)
    → Ends (decode_variable_header p buf start len v)
unfolding decode_variable_header
decode_variable_header-Ends p buf start len v =
    search (property_ends, property_arm_block-Ends, convert-Ends) depth 30

pub decode_payload-Ends :
    (p : Disconnect) (buf : Bytes) (v : Option ℕ) → Ends (decode_payload p buf v)
unfolding decode_payload
decode_payload-Ends p buf v = Ends-ok _
