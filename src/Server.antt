-- ===== src/Server.antt =====
-- The server: the shared state, the handlers of src/turn/handler.rs and src/relay/engine.rs over it,
-- and the dispatch and the cleanup of src/server.rs.
pub mod State
pub mod Frames
pub mod Credentials
pub mod Turn
pub mod Relay
pub mod Packets
pub mod Egress
pub mod Ends
pub mod Quiet
pub mod Books
pub mod Tests
