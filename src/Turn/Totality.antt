-- ===== src/Turn/Totality.antt =====
-- On a parsed request, and for addresses of their proper size, the builders of responses return.
use uturn.Common.{ℕ, ◌≤◌, ◌≡◌, Option, none, arith, length, IsDone, IsDone-done, IsDone->>=}
use uturn.Common.Bytes.{Bytes, Str, ascii, read16-IsDone}
use uturn.Addr.{IpAddr, v4, v6, SocketAddr}
use uturn.Config.{Config}
use uturn.Demux.Stun.{StunInfo}
use uturn.Demux.Stun.Attributes.{magic_bytes}
use uturn.Demux.Stun.Safety.{xor_bytes-IsDone}
use uturn.Demux.Stun.Shape.{IsParsed}
use uturn.Turn.Encode.{xor_address, append_xor_mapped_address, append_xor_relayed_address}
use uturn.Turn.Message.{TurnErrorCode}
use uturn.Turn.Responses.{
  build_signed_error_response, build_error_response, build_challenge, build_unauthorized_response,
  build_stale_nonce_response, build_success_response, build_allocate_response,
}

-- An IPv6 address has its sixteen octets.
abbrev pub IsWhole : IpAddr → Type 0
IsWhole (v4 a b c d) = Unit
IsWhole (v6 octets) = 16 ≤ length octets

xor_address-IsDone :
    (ip : IpAddr) (port : ℕ) (txn : Bytes)
    → IsWhole ip
    → length txn ≡ 12
    → IsDone (xor_address (record { ip = ip; port = port }) txn)
unfolding xor_address
xor_address-IsDone (v4 a b c d) port txn whole t = IsDone-done _
xor_address-IsDone (v6 octets) port txn whole t =
    IsDone->>= _ _ (xor_bytes-IsDone 4 0 0 octets magic_bytes (omega (arith, whole)) (omega arith))
      λ high _.
        IsDone->>= _ _
          (xor_bytes-IsDone 12 4 0 octets txn (omega (arith, whole)) (omega (arith, t)))
          λ low _. IsDone-done _

module _ (integrity : Bytes → Bytes → Bytes) (msg : StunInfo) (parsed : IsParsed msg) where
  pub build_signed_error_response-IsDone :
      (error : TurnErrorCode) (key : Option Bytes)
      → IsDone (build_signed_error_response integrity msg error key)
  unfolding build_signed_error_response
  build_signed_error_response-IsDone error key =
      IsDone->>= _ _ (read16-IsDone msg.raw 0 (omega (arith, parsed.room))) λ t _. IsDone-done _

  pub build_error_response-IsDone :
      (error : TurnErrorCode) → IsDone (build_error_response integrity msg error)
  unfolding build_error_response
  build_error_response-IsDone error = build_signed_error_response-IsDone error none

  pub build_success_response-IsDone :
      (key : Option Bytes) → IsDone (build_success_response integrity msg key)
  unfolding build_success_response
  build_success_response-IsDone key =
      IsDone->>= _ _ (read16-IsDone msg.raw 0 (omega (arith, parsed.room))) λ t _. IsDone-done _

  pub build_allocate_response-IsDone :
      (config : Config) (client_addr : SocketAddr) (lifetime : ℕ) (key : Option Bytes)
      → IsWhole config.external_ip
      → IsWhole client_addr.ip
      → IsDone (build_allocate_response integrity config msg client_addr lifetime key)
  unfolding build_allocate_response append_xor_relayed_address append_xor_mapped_address
  build_allocate_response-IsDone config client_addr lifetime key ours theirs =
      IsDone->>= _ _
        (IsDone->>= _ _
          (xor_address-IsDone config.external_ip config.port msg.transaction_id ours parsed.txn)
          λ v _. IsDone-done _)
        λ relayed _.
          IsDone->>= _ _
            (IsDone->>= _ _
              (xor_address-IsDone client_addr.ip client_addr.port msg.transaction_id theirs
                parsed.txn)
              λ v _. IsDone-done _)
            λ mapped _. IsDone-done _

module _ (msg : StunInfo) (parsed : IsParsed msg) (realm nonce : Str) where
  build_challenge-IsDone :
      (code : ℕ) (why : Str) → IsDone (build_challenge msg code why realm nonce)
  unfolding build_challenge
  build_challenge-IsDone code why =
      IsDone->>= _ _ (read16-IsDone msg.raw 0 (omega (arith, parsed.room))) λ t _. IsDone-done _

  pub build_unauthorized_response-IsDone : IsDone (build_unauthorized_response msg realm nonce)
  unfolding build_unauthorized_response
  build_unauthorized_response-IsDone = build_challenge-IsDone 401 (ascii "Unauthorized")

  pub build_stale_nonce_response-IsDone : IsDone (build_stale_nonce_response msg realm nonce)
  unfolding build_stale_nonce_response
  build_stale_nonce_response-IsDone = build_challenge-IsDone 438 (ascii "Stale Nonce")
