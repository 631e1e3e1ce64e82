-- ===== src/Broker.antt =====
-- examples/broker.rs: a broker over the crate's session manager and retain store.
pub mod TopicManager
pub mod State
pub mod Delivery
pub mod Service
pub mod ConnectService
pub mod System
pub mod HandOver
