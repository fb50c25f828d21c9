-- ===== src/Turn.antt =====
-- src/turn/: so far the writers of the handler that put TURN messages on the wire.
pub mod Encode
pub mod Message
pub mod Nonce
pub mod Responses
pub mod Peers
pub mod Totality
pub mod Addresses
pub mod Auth
mod Tests
