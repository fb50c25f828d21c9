-- ===== src/Server/Frames.antt =====
-- The packets that src/relay/engine.rs and src/server.rs build: the same as the handler's, but
-- that the padding is computed here and a loop there. `append_xor_peer_address` stands in each of
-- the three files with the same text.
pub mod Agree
use uturn.Common.{ℕ, ◌+◌, ◌-◌, ◌%◌, ◌∷◌, ◌++◌, length, replicate, Run, done, ◌>>=◌}
use uturn.Common.Bytes.{Bytes, bytes16}
use uturn.Addr.{SocketAddr}
use uturn.Demux.Stun.Attributes.{magic_bytes}
use uturn.Turn.Encode.{append_xor_peer_address, set_length}

-- `packet.resize(packet.len() + padding, 0)`
abbrev pub resize_by : ℕ → Bytes → Bytes
resize_by padding packet = packet ++ replicate padding 0

-- The packet of the engine's `send_channel_data`
unfoldable pub channel_packet : ℕ → Bytes → Bytes
unfolding bytes16
channel_packet channel payload =
    resize_by ((4 - (4 + length payload) % 4) % 4)
      (bytes16 channel ++ (bytes16 (length payload) ++ payload))

-- The packet of the engine's `send_data_indication`
unfoldable pub indication_packet : SocketAddr → Bytes → Bytes → Run Bytes
unfolding append_xor_peer_address bytes16 set_length
indication_packet peer_addr payload txn_id = do
  packet ←
      append_xor_peer_address (0x00 ∷ 0x17 ∷ 0x00 ∷ 0x00 ∷ (magic_bytes ++ txn_id)) peer_addr txn_id
  let whole = packet ++ (0x00 ∷ 0x13 ∷ (bytes16 (length payload) ++ payload))
  let resized = resize_by ((4 - (length whole - 20) % 4) % 4) whole
  done (set_length resized (length resized - 20))

-- The server's `build_data_indication`
unfoldable pub server_indication : SocketAddr → Bytes → Bytes → Run Bytes
unfolding append_xor_peer_address bytes16 set_length
server_indication peer_addr payload txn_id = do
  packet ←
      append_xor_peer_address (0x00 ∷ 0x17 ∷ 0x00 ∷ 0x00 ∷ (magic_bytes ++ txn_id)) peer_addr txn_id
  let whole = packet ++ (0x00 ∷ 0x13 ∷ (bytes16 (length payload) ++ payload))
  let padding = (4 - (length whole - 20) % 4) % 4
  let resized = resize_by padding whole
  done (set_length resized (length resized - 20))
