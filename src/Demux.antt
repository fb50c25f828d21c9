-- ===== src/Demux.antt =====
-- Packet demultiplexing (src/demux/): the STUN parser, the RTP header, and the classifier.
pub mod Stun
pub mod Rtp
pub mod Protocol
mod Tests
