-- ===== src/Demux/Stun/Header.antt =====
-- src/demux/stun.rs: the class and the method that the 14-bit message type carries.
use Prim.Native.Nat.{bit_and, bit_or}
use uturn.Common.{ℕ, ◌/◌, Option, none, some, ◌==◌, if◌then◌else◌}
use uturn.Demux.Stun.{
  StunClass, request, indication, success_response, error_response, StunMethod, binding, allocate,
  refresh, send, data_method, create_permission, channel_bind, unknown,
}

-- `((msg_type >> 4) & 0x01) | ((msg_type >> 7) & 0x02)`
unfoldable pub class_bits : ℕ → ℕ
class_bits t = bit_or (bit_and (t / 16) 0x01) (bit_and (t / 128) 0x02)

unfoldable pub class_of : ℕ → Option StunClass
class_of bits =
    if bits == 0
    then some request
    else if bits == 1
    then some indication
    else if bits == 2
    then some success_response
    else if bits == 3
    then some error_response
    else none

-- `(msg_type & 0x000F) | ((msg_type >> 1) & 0x0070) | ((msg_type >> 2) & 0x0F80)`
unfoldable pub method_bits : ℕ → ℕ
method_bits t = bit_or (bit_or (bit_and t 0x000F) (bit_and (t / 2) 0x0070)) (bit_and (t / 4) 0x0F80)

unfoldable pub method_of : ℕ → StunMethod
method_of bits =
    if bits == 0x001
    then binding
    else if bits == 0x003
    then allocate
    else if bits == 0x004
    then refresh
    else if bits == 0x006
    then send
    else if bits == 0x007
    then data_method
    else if bits == 0x008
    then create_permission
    else if bits == 0x009
    then channel_bind
    else unknown bits
