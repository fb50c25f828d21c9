-- ===== src/Demux/Stun.antt =====
-- src/demux/stun.rs: the data of a parsed STUN message. The parser stands in the child modules.
pub mod Header
pub mod Attributes
pub mod Parse
pub mod Types
pub mod Framing
pub mod Reading
pub mod Tail
pub mod Safety
pub mod Integrity
pub mod Shape
use uturn.Common.{ℕ, Bool, true, false, Option, none, List, []}
use uturn.Common.Bytes.{Bytes, Str}
use uturn.Addr.{SocketAddr}

abbrev pub magic_cookie : ℕ
magic_cookie = 0x2112A442

pub data StunClass : Type 0 where
  request indication success_response error_response : StunClass

pub data StunMethod : Type 0 where
  binding allocate refresh send data_method create_permission channel_bind : StunMethod
  unknown : ℕ → StunMethod

pub record ParsedAttrs : Type 0 where
  pub username : Option Str
  pub xor_peer_addresses : List SocketAddr
  pub channel_number : Option ℕ
  pub lifetime : Option ℕ
  pub payload : Option Bytes
  pub realm : Option Str
  pub nonce : Option Str
  pub message_integrity : Option Bytes
  pub message_integrity_offset : Option ℕ
  pub requested_transport : Option ℕ

-- The source copies the fields of `ParsedAttrs` one by one; here they are opened.
pub record StunInfo : Type 0 where
  pub class : StunClass
  pub method : StunMethod
  pub transaction_id : Bytes
  pub attrs : ParsedAttrs
  pub open attrs use *
  pub raw : Bytes

abbrev pub no_attrs : ParsedAttrs
no_attrs = record {
  username = none;
  xor_peer_addresses = [];
  channel_number = none;
  lifetime = none;
  payload = none;
  realm = none;
  nonce = none;
  message_integrity = none;
  message_integrity_offset = none;
  requested_transport = none;
}

is_turn_method : StunMethod → Bool
is_turn_method StunMethod.binding = false
is_turn_method (unknown _) = false
is_turn_method _ = true

-- `StunInfo::is_turn`
unfoldable pub is_turn : StunInfo → Bool
unfolding is_turn_method
is_turn info = is_turn_method info.method
