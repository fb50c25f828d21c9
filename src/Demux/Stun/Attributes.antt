-- ===== src/Demux/Stun/Attributes.antt =====
-- src/demux/stun.rs: `parse_attributes` and `decode_xor_address`.
use Prim.Native.Nat.{bit_xor}
use uturn.Common.{
  ℕ, zero, suc, ◌+◌, ◌&&◌, Option, none, some, [], ◌∷◌, ◌++◌, ltb, leb, ◌==◌, if◌then◌else◌, Run,
  done, out_of_fuel, ◌>>=◌, index, slice, length,
}
use uturn.Common.Bytes.{Bytes, read16, read32, padded, from_utf8}
use uturn.Addr.{v4, v6, SocketAddr}
use uturn.Demux.Stun.{ParsedAttrs, no_attrs}

abbrev pub attr_username : ℕ
attr_username = 0x0006

abbrev pub attr_message_integrity : ℕ
attr_message_integrity = 0x0008

abbrev pub attr_channel_number : ℕ
attr_channel_number = 0x000C

abbrev pub attr_lifetime : ℕ
attr_lifetime = 0x000D

abbrev pub attr_xor_peer_address : ℕ
attr_xor_peer_address = 0x0012

abbrev pub attr_data : ℕ
attr_data = 0x0013

abbrev pub attr_realm : ℕ
attr_realm = 0x0014

abbrev pub attr_nonce : ℕ
attr_nonce = 0x0015

abbrev pub attr_requested_transport : ℕ
attr_requested_transport = 0x0019

abbrev pub max_username_len : ℕ
max_username_len = 513

abbrev pub max_realm_len : ℕ
max_realm_len = 763

abbrev pub max_nonce_len : ℕ
max_nonce_len = 763

-- `for i in 0..n { out.push(value[from + i] ^ mask[i]) }`
unfoldable pub xor_bytes : ℕ → ℕ → ℕ → Bytes → Bytes → Run Bytes
xor_bytes zero from i value mask = done []
xor_bytes (suc n) from i value mask = do
  a ← index value (from + i)
  b ← index mask i
  rest ← xor_bytes n from (i + 1) value mask
  done (bit_xor a b ∷ rest)

abbrev pub magic_bytes : Bytes
magic_bytes = 0x21 ∷ 0x12 ∷ 0xa4 ∷ 0x42 ∷ []

unfoldable pub decode_v4 : Bytes → ℕ → Run (Option SocketAddr)
decode_v4 value port = do
  a ← index value 4
  b ← index value 5
  c ← index value 6
  d ← index value 7
  done (
      some (record {
        ip = v4 (bit_xor a 0x21) (bit_xor b 0x12) (bit_xor c 0xa4) (bit_xor d 0x42);
        port = port;
      }))

unfoldable pub decode_v6 : Bytes → Bytes → ℕ → Run (Option SocketAddr)
unfolding xor_bytes
decode_v6 value transaction_id port = if ltb (length value) 20 then done none else do
  high ← xor_bytes 4 4 0 value magic_bytes
  low ← xor_bytes 12 8 0 value transaction_id
  done (some (record { ip = v6 (high ++ low); port = port }))

-- The `match family`.
unfoldable pub decode_family : ℕ → Bytes → Bytes → ℕ → Run (Option SocketAddr)
unfolding decode_v4 decode_v6
decode_family family value transaction_id port =
    if family == 1
    then decode_v4 value port
    else if family == 2
    then decode_v6 value transaction_id port
    else done none

-- XOR-PEER-ADDRESS
unfoldable pub decode_xor_address : Bytes → Bytes → Run (Option SocketAddr)
unfolding decode_family read16
decode_xor_address value transaction_id = if ltb (length value) 8 then done none else do
  family ← index value 1
  xor_port ← read16 value 2
  decode_family family value transaction_id (bit_xor xor_port 0x2112)

-- Whether the loop over the attributes goes on after this one.
pub data Flow : Type 0 where
  next stop : ParsedAttrs → Flow

abbrev pub push_address : ParsedAttrs → Option SocketAddr → ParsedAttrs
push_address r none = r
push_address r (some addr) = record r { xor_peer_addresses = r.xor_peer_addresses ++ addr ∷ [] }

unfoldable pub on_channel_number : Bytes → ParsedAttrs → Run Flow
unfolding read16
on_channel_number value r =
    if leb 2 (length value)
    then (do
      channel ← read16 value 0
      done (
          next (
            if leb 0x4000 channel && leb channel 0x7FFF
            then record r { channel_number = some channel }
            else r)))
    else done (next r)

unfoldable pub on_lifetime : Bytes → ParsedAttrs → Run Flow
unfolding read32
on_lifetime value r =
    if leb 4 (length value)
    then (do t ← read32 value 0; done (next (record r { lifetime = some t })))
    else done (next r)

unfoldable pub on_transport : Bytes → ParsedAttrs → Run Flow
on_transport value r =
    if length value == 0
    then done (next r)
    else (do p ← index value 0; done (next (record r { requested_transport = some p })))

-- The `match attr_type` of the loop: a guard that fails falls through to `_ => {}`.
unfoldable pub on_attribute : ℕ → Bytes → Bytes → ℕ → ParsedAttrs → Run Flow
on_attribute kind value transaction_id offset r =
    if kind == attr_username
    then done (
        next (
          if leb (length value) max_username_len
          then record r { username = from_utf8 value }
          else r))
    else if kind == attr_xor_peer_address
    then (do addr ← decode_xor_address value transaction_id; done (next (push_address r addr)))
    else if kind == attr_channel_number
    then on_channel_number value r
    else if kind == attr_lifetime
    then on_lifetime value r
    else if kind == attr_data
    then done (next (record r { payload = some value }))
    else if kind == attr_realm
    then done (
        next (if leb (length value) max_realm_len then record r { realm = from_utf8 value } else r))
    else if kind == attr_nonce
    then done (
        next (if leb (length value) max_nonce_len then record r { nonce = from_utf8 value } else r))
    else if kind == attr_message_integrity
    then done (
        if length value == 20
        then stop (record r {
          message_integrity = some value;
          message_integrity_offset = some (20 + offset);
        })
        else next r)
    else if kind == attr_requested_transport
    then on_transport value r
    else done (next r)

-- `while offset + 4 <= attrs.len()`; each round moves on by at least four bytes.
unfoldable pub attribute_loop : ℕ → Bytes → Bytes → ℕ → ParsedAttrs → Run ParsedAttrs
attribute_loop zero attrs transaction_id offset r = out_of_fuel
attribute_loop (suc fuel) attrs transaction_id offset r =
    if ltb (length attrs) (offset + 4) then done r else do
      kind ← read16 attrs offset
      attr_len ← read16 attrs (offset + 2)
      if ltb (length attrs) (offset + 4 + attr_len) then done r else do
        value ← slice attrs (offset + 4) (offset + 4 + attr_len)
        flow ← on_attribute kind value transaction_id offset r
        elim flow [
          | next r' ↦ attribute_loop fuel attrs transaction_id (offset + (4 + padded attr_len)) r'
          | stop r' ↦ done r'
        ]

unfoldable pub parse_attributes : Bytes → Bytes → Run ParsedAttrs
unfolding attribute_loop
parse_attributes attrs transaction_id =
    attribute_loop (length attrs + 1) attrs transaction_id 0 no_attrs
