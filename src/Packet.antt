-- ===== src/Packet.antt =====
-- mqtt_coder/src/mqtt.rs: the packets, one module each, and the frame that all of them share.
pub mod Puback
pub mod Pubrec
pub mod Pubrel
pub mod Pubcomp
pub mod Ping
pub mod Unsuback
pub mod Suback
pub mod Connack
pub mod Disconnect
pub mod Unsubscribe
pub mod Subscribe
pub mod Publish
pub mod Connect
use aqua.Base.{◌≡◌, ◌∷◌, ◌++◌, ℕ, length}
use aqua.Bytes.{Bytes}
use aqua.Wire.{encode_variable_bytes}

-- The MQTT frame: a first byte, the remaining length, and that many bytes.
unfoldable pub frame : ℕ → Bytes → Bytes
frame first body = first ∷ encode_variable_bytes (length body) ++ body

abbrev pub IsFramed : ℕ → Bytes → Type 0
IsFramed first out = (body : Bytes) × (out ≡ frame first body)
