-- ===== src/Turn/Responses.antt =====
-- src/turn/handler.rs: the responses, byte for byte. `request.raw[0]` may be out of range, so the
-- builders that read it run in the monad of panics.
use Prim.Native.Nat.{bit_or}
use uturn.Common.{
  ℕ, ◌+◌, ◌-◌, ◌/◌, ◌%◌, Option, none, some, [], ◌∷◌, ◌++◌, Run, done, ◌>>=◌, length, replicate,
}
use uturn.Common.Bytes.{Bytes, Str, bytes16, padded, read16, ascii}
use uturn.Addr.{SocketAddr}
use uturn.Config.{Config}
use uturn.Demux.Stun.{StunInfo}
use uturn.Demux.Stun.Attributes.{magic_bytes}
use uturn.Turn.Encode.{
  append_xor_mapped_address, append_xor_relayed_address, append_lifetime, append_realm,
  append_nonce, set_length, append_message_integrity,
}
use uturn.Turn.Message.{TurnErrorCode, error_number, reason}

-- Type, a place for the length, the cookie and the transaction id.
abbrev pub header : Bytes → Bytes → Bytes
header kind transaction_id = kind ++ (0x00 ∷ 0x00 ∷ (magic_bytes ++ transaction_id))

-- Without MESSAGE-INTEGRITY only the length is filled in.
abbrev pub fill_length : Bytes → Bytes
fill_length response = set_length response (length response - 20)

-- `if let Some(key) = key { .. } else { .. }` at the end of each response
unfoldable pub finish : (Bytes → Bytes → Bytes) → Bytes → Option Bytes → Bytes
unfolding set_length append_message_integrity
finish integrity response none = fill_length response
finish integrity response (some key) = append_message_integrity integrity response key

-- ERROR-CODE: `while response.len() < 20 + 4 + padded_len { response.push(0); }`
unfoldable pub append_error_code : Bytes → ℕ → Str → Bytes
unfolding bytes16
append_error_code response code why =
    let attr_len = 4 + length why in
    let filled =
      response
      ++ (0x00 ∷ 0x09 ∷ (bytes16 attr_len ++ (0x00 ∷ 0x00 ∷ code / 100 ∷ code % 100 ∷ why))) in
    filled ++ replicate (20 + 4 + padded attr_len - length filled) 0

unfoldable pub build_binding_response : StunInfo → SocketAddr → Run Bytes
unfolding append_xor_mapped_address set_length
build_binding_response request client_addr = do
  response ←
      append_xor_mapped_address (header (0x01 ∷ 0x01 ∷ []) request.transaction_id) client_addr
        request.transaction_id
  done (fill_length response)

module _ (integrity : Bytes → Bytes → Bytes) where
  unfoldable pub build_allocate_response :
      Config → StunInfo → SocketAddr → ℕ → Option Bytes → Run Bytes
  unfolding append_xor_relayed_address append_xor_mapped_address append_lifetime finish
  build_allocate_response config request client_addr lifetime key = do
    relayed ←
        append_xor_relayed_address (header (0x01 ∷ 0x03 ∷ []) request.transaction_id)
          (record { ip = config.external_ip; port = config.port }) request.transaction_id
    mapped ← append_xor_mapped_address relayed client_addr request.transaction_id
    done (finish integrity (append_lifetime mapped lifetime) key)

  unfoldable pub build_refresh_response : StunInfo → ℕ → Option Bytes → Bytes
  unfolding append_lifetime finish
  build_refresh_response request lifetime key =
      finish integrity (append_lifetime (header (0x01 ∷ 0x04 ∷ []) request.transaction_id) lifetime)
        key

  unfoldable pub build_success_response : StunInfo → Option Bytes → Run Bytes
  unfolding read16 bytes16 finish
  build_success_response request key = do
    msg_type ← read16 request.raw 0
    done (finish integrity (header (bytes16 (bit_or msg_type 0x0100)) request.transaction_id) key)

  unfoldable pub build_signed_error_response : StunInfo → TurnErrorCode → Option Bytes → Run Bytes
  unfolding read16 bytes16 append_error_code finish
  build_signed_error_response request error key = do
    msg_type ← read16 request.raw 0
    done (
        finish integrity
          (append_error_code (header (bytes16 (bit_or msg_type 0x0110)) request.transaction_id)
            (error_number error) (reason error))
          key)

  unfoldable pub build_error_response : StunInfo → TurnErrorCode → Run Bytes
  unfolding build_signed_error_response
  build_error_response request error = build_signed_error_response request error none

-- The 401 and 438 challenges, with REALM and a fresh nonce.
unfoldable pub build_challenge : StunInfo → ℕ → Str → Str → Str → Run Bytes
unfolding read16 bytes16 append_error_code append_realm append_nonce set_length
build_challenge request code why realm nonce = do
  msg_type ← read16 request.raw 0
  let coded =
      append_error_code (header (bytes16 (bit_or msg_type 0x0110)) request.transaction_id) code why
  done (fill_length (append_nonce (append_realm coded realm) nonce))

unfoldable pub build_unauthorized_response : StunInfo → Str → Str → Run Bytes
unfolding build_challenge
build_unauthorized_response request realm nonce =
    build_challenge request 401 (ascii "Unauthorized") realm nonce

unfoldable pub build_stale_nonce_response : StunInfo → Str → Str → Run Bytes
unfolding build_challenge
build_stale_nonce_response request realm nonce =
    build_challenge request 438 (ascii "Stale Nonce") realm nonce
