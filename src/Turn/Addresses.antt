-- ===== src/Turn/Addresses.antt =====
-- What the handler writes, the demultiplexer reads back.
use uturn.Common.{
  ℕ, ◌+◌, ◌-◌, ◌%◌, ◌/◌, ◌≡◌, ◌≤◌, ◌<◌, refl, some, [], ◌∷◌, ◌++◌, arith, done, length,
  length-append, length-replicate, replicate,
}
use Prim.Native.Nat.{bit_xor}
use uturn.Common.Bits.{bit_xor_twice, port_twice, port-lt}
use uturn.Common.Bytes.{Bytes, bytes16, be16, read16, be16-bytes16}
use uturn.Addr.{v4, SocketAddr}
use uturn.Demux.Stun.Attributes.{decode_xor_address, decode_v4}
use uturn.Demux.Protocol.{classify, turn_channel_data}
use uturn.Demux.Protocol.Ranges.{classify-channel_data}
use uturn.Turn.Encode.{xor_address, build_channel_data, pad_four}

-- ChannelData that the server builds has the channel, the length of the data, the data, and at most
-- three zero bytes up to the next multiple of four; it is classified as the same channel's and gives
-- back exactly the application data, without those zeros. That is so on a channel of 0x4000-0x7FFF
-- and for data whose length fits the 16-bit field.
pub classify-build_channel_data :
    (channel : ℕ) (body : Bytes)
    → 0x4000 ≤ channel
    → channel ≤ 0x7FFF
    → length body < 65536
    → (classify (build_channel_data channel body) ≡ done (turn_channel_data channel body))
      × ((length (build_channel_data channel body) % 4 ≡ 0)
          × ((gap : ℕ) × ((gap ≤ 3)
                × (build_channel_data channel body
                    ≡ bytes16 channel ++ (bytes16 (length body) ++ (body ++ replicate gap 0))))))
unfolding build_channel_data bytes16
classify-build_channel_data channel body lo hi fits =
    let gap = (4 - (4 + length body) % 4) % 4 in
    (
      classify-channel_data channel body _ lo hi fits,
      (
        omega (arith, length-append body (replicate gap 0), length-replicate {A = ℕ} gap 0),
        (gap, (omega arith, refl)),
      ),
    )

-- Three rounds of the padding loop are enough.
pad_four_aligned : (packet : Bytes) → 20 ≤ length packet → (length (pad_four 3 packet) - 20) % 4 ≡ 0
unfolding pad_four
pad_four_aligned packet long = ground (
  arith,
  length-append packet (0 ∷ []),
  length-append (packet ++ (0 ∷ [])) (0 ∷ []),
  length-append ((packet ++ (0 ∷ [])) ++ (0 ∷ [])) (0 ∷ []),
)

module _ (a b c d port : ℕ) (transaction_id : Bytes) where
  abbrev value : Bytes
  value =
      0x00
      ∷ 0x01
      ∷ (bytes16 (bit_xor port 0x2112)
          ++ (bit_xor a 0x21 ∷ bit_xor b 0x12 ∷ bit_xor c 0xa4 ∷ bit_xor d 0x42 ∷ []))

  abbrev address : SocketAddr
  address = record { ip = v4 a b c d; port = port }

  xor_address_v4 : xor_address address transaction_id ≡ done (0x00 ∷ 0x08 ∷ value)
  unfolding xor_address
  xor_address_v4 = refl

  decode_value :
      decode_xor_address value transaction_id
      ≡ done (
          some (record {
            ip =
                v4
                  (bit_xor (bit_xor a 0x21) 0x21)
                  (bit_xor (bit_xor b 0x12) 0x12)
                  (bit_xor (bit_xor c 0xa4) 0xa4)
                  (bit_xor (bit_xor d 0x42) 0x42);
            port =
                bit_xor (be16 (bit_xor port 0x2112 / 256 % 256) (bit_xor port 0x2112 % 256)) 0x2112;
          }))
  unfolding decode_xor_address decode_v4 read16 bytes16
  decode_value = refl

-- An IPv4 address in the form in which the handler writes XOR-MAPPED-ADDRESS,
-- XOR-RELAYED-ADDRESS and XOR-PEER-ADDRESS has the length 8, and its value is decoded as the same
-- address, where the octets are bytes and the port a 16-bit number.
pub decode_xor_address-xor_address :
    (a b c d port : ℕ) (transaction_id : Bytes)
    → a < 256
    → b < 256
    → c < 256
    → d < 256
    → port < 65536
    → (written : Bytes) × ((xor_address (record { ip = v4 a b c d; port = port }) transaction_id
          ≡ done (0x00 ∷ 0x08 ∷ written))
        × (decode_xor_address written transaction_id
            ≡ done (some (record { ip = v4 a b c d; port = port }))))
decode_xor_address-xor_address a b c d port transaction_id ha hb hc hd hp = (
  value a b c d port transaction_id,
  (
    xor_address_v4 a b c d port transaction_id,
    rw (decode_value a b c d port transaction_id) (
        rw
          (
            be16-bytes16 (bit_xor port 0x2112) (ground (arith, port-lt port hp)),
            port_twice port hp,
            bit_xor_twice a 0x21 ha (omega arith),
            bit_xor_twice b 0x12 hb (omega arith),
            bit_xor_twice c 0xa4 hc (omega arith),
            bit_xor_twice d 0x42 hd (omega arith),
          )
          refl),
  ),
)
