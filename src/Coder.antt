-- ===== src/Coder.antt =====
-- mqtt_coder/src: all packets as one type, the fixed header, and the decoder and encoder that a
-- connection holds.
pub mod ControlPacket
pub mod FixedHeader
pub mod Decoder
pub mod Encoder
pub mod Total
