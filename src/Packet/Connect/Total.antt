-- ===== src/Packet/Connect/Total.antt =====
-- The decoders of `Connect` end on every buffer: the fuel of their loops is enough.
use aqua.Base.{ℕ, Option}
use aqua.Outcome.{Ends}
use aqua.Bytes.{Bytes}
use aqua.Property.Ends.{property_ends}
use aqua.Property.Forward.{Forward, forward_rules}
use aqua.Property.Loop.{property_block, property_block-Ends}
use aqua.Packet.Connect.Properties.{
  connect_flags_try_from, ConnectProperties, WillProperties, property_arm, will_arm,
}
use aqua.Packet.Connect.{Connect, decode_variable_header, decode_payload}

property_arm-Ends :
    (buf : Bytes) (id pos : ℕ) (p : ConnectProperties) → Ends (property_arm buf id pos p)
unfolding property_arm
property_arm-Ends buf id pos p = search property_ends depth 30

property_arm-Forward :
    (buf : Bytes) (id pos : ℕ) (p : ConnectProperties) → Forward pos (property_arm buf id pos p)
unfolding property_arm
property_arm-Forward buf id pos p = search forward_rules depth 30

property_arm_block-Ends :
    (buf : Bytes) (len pos : ℕ) (p : ConnectProperties)
    → Ends (property_block (property_arm buf) buf len pos p)
property_arm_block-Ends buf len pos p =
    property_block-Ends (property_arm buf) (property_arm-Ends buf)
      (λ id pos s s' next e. (property_arm-Forward buf id pos s).at (s', next) e) buf len pos p

will_arm-Ends : (buf : Bytes) (id pos : ℕ) (p : WillProperties) → Ends (will_arm buf id pos p)
unfolding will_arm
will_arm-Ends buf id pos p = search property_ends depth 30

will_arm-Forward :
    (buf : Bytes) (id pos : ℕ) (p : WillProperties) → Forward pos (will_arm buf id pos p)
unfolding will_arm
will_arm-Forward buf id pos p = search forward_rules depth 30

will_arm_block-Ends :
    (buf : Bytes) (len pos : ℕ) (p : WillProperties)
    → Ends (property_block (will_arm buf) buf len pos p)
will_arm_block-Ends buf len pos p =
    property_block-Ends (will_arm buf) (will_arm-Ends buf)
      (λ id pos s s' next e. (will_arm-Forward buf id pos s).at (s', next) e) buf len pos p

flags-Ends : (buf : Bytes) (pos : ℕ) → Ends (connect_flags_try_from buf pos)
unfolding connect_flags_try_from
flags-Ends buf pos = search property_ends depth 9

-- `decode_variable_header` of a `Connect` ends on every buffer.
pub decode_variable_header-Ends :
    (p : Connect) (buf : Bytes) (start len : ℕ) (v : Option ℕ)
    → Ends (decode_variable_header p buf start len v)
unfolding decode_variable_header
decode_variable_header-Ends p buf start len v =
    search (property_ends, property_arm_block-Ends, flags-Ends) depth 30

pub decode_payload-Ends : (p : Connect) (buf : Bytes) (v : Option ℕ) → Ends (decode_payload p buf v)
unfolding decode_payload
decode_payload-Ends p buf v = search (property_ends, will_arm_block-Ends) depth 40
