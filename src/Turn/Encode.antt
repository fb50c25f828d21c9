-- ===== src/Turn/Encode.antt =====
-- src/turn/handler.rs: the attribute writers, ChannelData and the Data indication. A `&mut Vec<u8>`
-- is the argument `buf` and the result; the random transaction id is the argument `txn_id`.
use uturn.Common.{
  ℕ, zero, suc, ◌+◌, ◌-◌, ◌%◌, [], ◌∷◌, ◌++◌, ◌==◌, if◌then◌else◌, Run, done, ◌>>=◌, length,
  replicate,
}
use Prim.Native.Nat.{bit_xor}
use uturn.Common.Bytes.{Bytes, Str, bytes16, bytes32, padded}
use uturn.Addr.{v4, v6, SocketAddr}
use uturn.Demux.Stun.Attributes.{magic_bytes, xor_bytes}

-- What follows the attribute's type in the three address writers, whose bodies are the same.
unfoldable pub xor_address : SocketAddr → Bytes → Run Bytes
unfolding xor_bytes bytes16
xor_address addr transaction_id = elim addr.ip [
  | v4 a b c d ↦ do
    octets ← xor_bytes 4 0 0 (a ∷ b ∷ c ∷ d ∷ []) magic_bytes
    done (0x00 ∷ 0x08 ∷ 0x00 ∷ 0x01 ∷ (bytes16 (bit_xor addr.port 0x2112) ++ octets))
  | v6 addr_bytes ↦ do
    high ← xor_bytes 4 0 0 addr_bytes magic_bytes
    low ← xor_bytes 12 4 0 addr_bytes transaction_id
    done (0x00 ∷ 0x14 ∷ 0x00 ∷ 0x02 ∷ (bytes16 (bit_xor addr.port 0x2112) ++ (high ++ low)))
]

unfoldable pub append_xor_mapped_address : Bytes → SocketAddr → Bytes → Run Bytes
unfolding xor_address
append_xor_mapped_address buf addr transaction_id = do
  value ← xor_address addr transaction_id
  done (buf ++ (0x00 ∷ 0x20 ∷ value))

unfoldable pub append_xor_relayed_address : Bytes → SocketAddr → Bytes → Run Bytes
unfolding xor_address
append_xor_relayed_address buf addr transaction_id = do
  value ← xor_address addr transaction_id
  done (buf ++ (0x00 ∷ 0x16 ∷ value))

unfoldable pub append_xor_peer_address : Bytes → SocketAddr → Bytes → Run Bytes
unfolding xor_address
append_xor_peer_address buf addr transaction_id = do
  value ← xor_address addr transaction_id
  done (buf ++ (0x00 ∷ 0x12 ∷ value))

unfoldable pub append_lifetime : Bytes → ℕ → Bytes
unfolding bytes32
append_lifetime buf lifetime = buf ++ (0x00 ∷ 0x0d ∷ 0x00 ∷ 0x04 ∷ bytes32 lifetime)

unfoldable pub append_realm : Bytes → Str → Bytes
unfolding bytes16
append_realm buf realm =
    buf
    ++ (0x00
        ∷ 0x14
        ∷ (bytes16 (length realm) ++ (realm ++ replicate (padded (length realm) - length realm) 0)))

unfoldable pub append_nonce : Bytes → Str → Bytes
unfolding bytes16
append_nonce buf nonce =
    buf
    ++ (0x00
        ∷ 0x15
        ∷ (bytes16 (length nonce) ++ (nonce ++ replicate (padded (length nonce) - length nonce) 0)))

-- `buf[2..4].copy_from_slice(..)`: every caller's buffer has a header.
unfoldable pub set_length : Bytes → ℕ → Bytes
unfolding bytes16
set_length (a ∷ b ∷ _ ∷ _ ∷ rest) len = a ∷ b ∷ (bytes16 len ++ rest)
set_length buf len = buf

-- The keyed hash of `TurnAuth::compute_message_integrity` (message, key) is a parameter.
unfoldable pub append_message_integrity : (Bytes → Bytes → Bytes) → Bytes → Bytes → Bytes
unfolding set_length
append_message_integrity compute_message_integrity buf key =
    let signed = set_length buf (length buf - 20 + 24) in
    signed ++ (0x00 ∷ 0x08 ∷ 0x00 ∷ 0x14 ∷ compute_message_integrity signed key)

unfoldable pub build_channel_data : ℕ → Bytes → Bytes
unfolding bytes16
build_channel_data channel data_bytes =
    bytes16 channel
    ++ (bytes16 (length data_bytes)
        ++ (data_bytes ++ replicate ((4 - (4 + length data_bytes) % 4) % 4) 0))

-- `while (packet.len() - 20) % 4 != 0 { packet.push(0); }`
unfoldable pub pad_four : ℕ → Bytes → Bytes
pad_four zero packet = packet
pad_four (suc fuel) packet =
    let rest = pad_four fuel (packet ++ (0 ∷ [])) in
    if (length packet - 20) % 4 == 0 then packet else rest

unfoldable pub build_data_indication : SocketAddr → Bytes → Bytes → Run Bytes
unfolding append_xor_peer_address set_length pad_four bytes16
build_data_indication peer_addr data_bytes txn_id = do
  packet ←
      append_xor_peer_address (0x00 ∷ 0x17 ∷ 0x00 ∷ 0x00 ∷ (magic_bytes ++ txn_id)) peer_addr txn_id
  let whole = packet ++ (0x00 ∷ 0x13 ∷ (bytes16 (length data_bytes) ++ data_bytes))
  let padded_packet = pad_four 3 whole
  done (set_length padded_packet (length padded_packet - 20))
