-- ===== src/Examples.antt =====
-- Runs of the code on concrete inputs, and the theorems at inputs where their conditions hold.
pub mod CoderRuns
pub mod PacketRuns
pub mod WireRuns
pub mod StoreRuns
pub mod SessionRuns
pub mod DecoderRuns
pub mod BrokerRuns
pub mod BrokerSystemRuns
pub mod ConnectionRuns
pub mod AcceptRuns
