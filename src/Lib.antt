-- ===== src/Lib.antt =====
-- Verification of uturn, a TURN server that relays between WebRTC clients (Rust, src/).
--
-- A datagram reaches src/server.rs, is classified by its first byte (src/demux/protocol.rs) and,
-- when it is STUN, parsed (src/demux/stun.rs). TURN requests go to src/turn/handler.rs, which
-- keeps its state in the table of allocations (src/lookup/table.rs) under the limits of
-- src/lookup/rate_limit.rs; media go to src/relay/engine.rs, which looks its targets up in the
-- table. This library models the parsers, the table and the limiter, the handlers over them, and
-- the server as the sequence of the packets it receives and the rounds of its cleanup.
--
-- Files
--   Common and its children: the Run monad, in which a panic of indexing or slicing is a value
--     and running out of fuel another (Common/Panic); hash maps as association lists, with their
--     laws (Common/Maps); lists, bits and bytes.
--   Addr: IpAddr and SocketAddr of the standard library. An IPv6 socket address has no flow
--     label and no scope: addresses off the wire have neither.
--   Clock: src/coarse_time.rs. What `coarse_now_ms()` reads is the argument `now`.
--   Demux/Stun: src/demux/stun.rs. Header, Attributes and Parse hold StunInfo::parse,
--     parse_attributes, decode_xor_address and parse_ice_username; Safety, Framing, Reading, Tail,
--     Integrity and Types the theorems.
--   Demux/Rtp, Demux/Protocol: src/demux/rtp.rs (RtpHeader::parse is `parse_rtp`) and
--     src/demux/protocol.rs (Demuxer::classify and its helpers, under their names).
--   Lookup/RateLimit: src/lookup/rate_limit.rs. `Instant::now()` is the argument `now`, in
--     nanoseconds. RateLimit/Counts: how each operation changes the count of an address.
--   Lookup/Allocation: the struct Allocation of src/lookup/table.rs and its methods, under their
--     names, but `permit` for Allocation::add_permission and `new_allocation` for new. Channels,
--     Permissions and Timers are about its three parts.
--   Lookup/Table: the struct AllocationTable and its methods; Table/Removal holds remove and the
--     clean-up passes. The three passes that drop allocations are one function `reap`, with the
--     test as its argument, since their bodies differ in nothing else but the log line. Table/Steps
--     makes the operations one step function, for statements about all histories. Table/Race is
--     create_or_get cut into its atomic steps, for callers that interleave. Table/Census counts the
--     allocations of an address; Arrivals and Departures say how the operations change the count.
--   Turn/Encode: the writers of src/turn/handler.rs, from append_xor_mapped_address on, under
--     their names; Turn/Addresses reads back what they write.
--   Turn/Auth: src/turn/auth.rs without the nonces, under the names there. HMAC-SHA1, MD5 and
--     base64 are parameters; Turn/Auth/Compare needs of the first that it gives twenty bytes.
--   Config: src/config.rs, its record, builders and candidate_passwords; Config/Passwords is about
--     the last.
--   Turn/Message: src/turn/message.rs. Turn/Peers: the forbidden peers of src/turn/handler.rs.
--   Turn/Nonce: the nonces of src/turn/auth.rs; Nonce/RoundTrip is about them.
--   Turn/Responses: the builders of responses in src/turn/handler.rs, under their names;
--     Turn/Totality says when they return.
--   Server/State: the state of src/server.rs that the tasks share, and the monad of the handlers: a
--     program is what it reads, the table's operations, the limiter's calls and the datagrams.
--     `evaluate` runs it; a failed send or a panic ends it.
--   Server/Credentials: verify_long_term_credentials and authenticate_for_allocation, a function
--     for each check in the order of the checks; Soundness, Completeness and Totality
--     are about them.
--   Server/Turn and its children: handle_stun and the handlers of src/turn/handler.rs, under their
--     names; a step behind an early return is a function of its own. Answers, Answered and Refused
--     are about them.
--   Server/Relay and its children: src/relay/engine.rs. Server/Frames: the packets that the engine
--     and the server build; `server_indication` is the server's build_data_indication.
--   Server/Packets: handle_packet, relay_client_data and the cleanup of src/server.rs; `serve` is a
--     life of the server. Packets/History is about all of them.
--   Server/Ends: what holds when a program has run, over all the ways it can take; Server/Quiet: the
--     programs that neither make nor drop an allocation, handler by handler; Server/Books: the
--     others, with the limiter's counts beside the table's.
--   Server/Egress: where a program may send. Egress/Send is about Send indications; Egress/Inside
--     and Egress/Channel are about ChannelData of a client, to the relay address and in general;
--     Egress/Peers is about what peers send.
--   Startup: src/main.rs, from the arguments that clap has read to the configuration; `main` is what
--     the function does before Server::new, and `words_from` the standard library's split_whitespace
--     on UTF-8 bytes. Secrets and Written read back what was written; Gate says what a server that
--     starts has.
--   Demux/Tests, Lookup/Tests, Turn/Tests, Server/Tests, Server/Turn/Tests, Server/Egress/Tests,
--     Startup/Tests: concrete packets, states and arguments.
--
-- Conventions. Integers are natural numbers with the wrap-around of `u64` written out where the
-- clock is added to; subtraction that the source saturates is the one of ℕ. Erasing a key of an
-- association list erases all its entries. Atomics and locks are plain fields: each method of the
-- table runs to its end before the next. Only calls of create_or_get are also interleaved, step by
-- step (Lookup/Table/Race); a race between two other methods is not modelled.
--
-- Fuel. Three loops have fuel. The attribute loop of the parser has the length of the attributes and
-- one more, which is enough because each round moves on by four bytes at least
-- (Demux/Stun/Safety). The padding loop of the Data indication has three rounds, which reach the
-- next multiple of four (Turn/Addresses). The search for a USERNAME in ChannelData has
-- one round more than the message has bytes (Server/Relay/Inspect/Totality).
--
-- Not modelled: what clap makes of the environment and the command line; the socket's set-up;
-- logging; the timers and the interleaving of the tasks within a packet or a round (each runs to its
-- end, with the clocks standing still); the hash maps' and locks' own code. Where a send fails, what
-- follows it is not done, as with `?`. DashMap, HashMap, String::from_utf8, the number parsers and
-- the address types are taken by their documented behaviour.
pub mod Common
pub mod Addr
pub mod Demux
pub mod Clock
pub mod Lookup
pub mod Turn
pub mod Config
pub mod Server
pub mod Startup
