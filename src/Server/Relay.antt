-- ===== src/Server/Relay.antt =====
-- src/relay/engine.rs: the relay of media, from peers to clients and between clients.
pub mod Inspect
pub mod Delivery
pub mod Peers
pub mod Channel
