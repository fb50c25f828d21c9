-- ===== src/Server/Turn/Allocate.antt =====
-- src/turn/handler.rs: Allocate and Refresh.
use uturn.Common.{ℕ, Bool, true, not, Option, none, some, ◌=?◌, ◌==◌, ltb, min, if◌then◌else◌}
use uturn.Common.Bytes.{Bytes, Str, ascii}
use uturn.Addr.{SocketAddr, octets_key}
use uturn.Demux.Stun.{StunInfo}
use uturn.Lookup.Allocation.{Allocation, is_expired, remaining_lifetime}
use uturn.Lookup.RateLimit.{RateLimitError, Verdict, ok, err, too_many_requests, quota_exceeded}
use uturn.Lookup.RateLimit.Quota.{cancels}
use uturn.Lookup.Table.{get, get_by_client}
use uturn.Lookup.Table.Steps.{refresh_op, touch_received_op}
use uturn.Server.State.{
  Env, Io, ◌>>=◌, ◌>>◌, when, reads, lift, limit, call_by_client, send_to, create_or_get_io,
  check_allocation_io, release, integrity,
}
use uturn.Server.Credentials.{authenticate, key_of}
use uturn.Server.Turn.Guard.{or_send, authenticated}
use uturn.Turn.Message.{
  TurnErrorCode, allocation_mismatch, unsupported_transport, insufficient_capacity,
  allocation_quota_reached,
}
use uturn.Turn.Responses.{
  build_signed_error_response, build_allocate_response, build_refresh_response,
}

abbrev pub transport_ok : Option ℕ → Bool
transport_ok none = true
transport_ok (some protocol) = protocol == 17

abbrev pub error_code : RateLimitError → TurnErrorCode
error_code too_many_requests = insufficient_capacity
error_code quota_exceeded = allocation_quota_reached

-- `map(|a| a.remaining_lifetime()).unwrap_or(lifetime)`
abbrev pub lifetime_or : ℕ → Option Allocation → ℕ → ℕ
lifetime_or now none lifetime = lifetime
lifetime_or now (some a) lifetime = remaining_lifetime now a

-- `unwrap_or`
abbrev pub unwrap_or {ℓ} : {A : Type ℓ} → Option A → A → A
unwrap_or none default = default
unwrap_or (some a) default = a

-- `clamp(10, 60)`
abbrev pub clamp_lifetime : ℕ → ℕ
clamp_lifetime n = if ltb n 10 then 10 else min n 60

module _ (env : Env) where
  unfoldable pub reply_error : StunInfo → SocketAddr → TurnErrorCode → Option Bytes → Io Unit
  unfolding ◌>>=◌ lift build_signed_error_response
  reply_error msg src_addr error key = do
    response ← lift (build_signed_error_response (integrity env) msg error key)
    send_to src_addr response

  unfoldable pub reply_allocated : StunInfo → SocketAddr → ℕ → Option Bytes → Io Unit
  unfolding ◌>>=◌ lift build_allocate_response
  reply_allocated msg src_addr lifetime key = do
    response ← lift (build_allocate_response (integrity env) env.config msg src_addr lifetime key)
    send_to src_addr response

  -- Step 5: create the allocation, or give the reserved slot back.
  unfoldable pub create_and_reply : StunInfo → SocketAddr → Str → Option Bytes → Io Unit
  unfolding ◌>>=◌ reply_allocated get remaining_lifetime
  create_and_reply msg src_addr username key = do
    (alloc_id, created) ← create_or_get_io env src_addr username 60 msg.transaction_id
    when (not created) (limit (cancels src_addr.ip env.instant))
    found ← reads (λ t. get t alloc_id)
    reply_allocated msg src_addr (lifetime_or env.now found 60) key

  abbrev pub on_verdict : StunInfo → SocketAddr → Str → Option Bytes → Verdict → Io Unit
  on_verdict msg src_addr username key (err e) = reply_error msg src_addr (error_code e) key
  on_verdict msg src_addr username key ok = create_and_reply msg src_addr username key

  -- Steps 3 to 5, where the client has no live allocation
  unfoldable pub admit : StunInfo → SocketAddr → Str → Option Bytes → Io Unit
  unfolding ◌>>=◌ reply_error create_and_reply
  admit msg src_addr username key =
      if not (transport_ok msg.requested_transport)
      then reply_error msg src_addr unsupported_transport key
      else do
        verdict ← check_allocation_io env src_addr.ip
        on_verdict msg src_addr username key verdict

  -- Step 2: the allocation that the client has already
  unfoldable pub on_existing :
      StunInfo → SocketAddr → Str → Option Bytes → Option Allocation → Io Unit
  unfolding ◌>>=◌ release admit reply_allocated reply_error is_expired remaining_lifetime
  on_existing msg src_addr username key none = admit msg src_addr username key
  on_existing msg src_addr username key (some a) =
      if is_expired env.now a
      then release env a.id src_addr.ip >> admit msg src_addr username key
      else if a.allocate_txn_id =? msg.transaction_id
      then reply_allocated msg src_addr (remaining_lifetime env.now a) key
      else reply_error msg src_addr allocation_mismatch key

  -- The authenticated username; where authentication is off, the one that the request names.
  abbrev pub username_of : StunInfo → Option (Str × Bytes) → Str
  username_of msg none = unwrap_or msg.username (ascii "anonymous")
  username_of msg (some (username, _)) = username

  unfoldable pub allocate : StunInfo → SocketAddr → Option (Str × Bytes) → Io Unit
  unfolding ◌>>=◌ on_existing get_by_client
  allocate msg src_addr user = do
    existing ← reads (λ t. get_by_client t src_addr)
    on_existing msg src_addr (username_of msg user) (key_of env user) existing

  unfoldable pub handle_allocate : StunInfo → SocketAddr → Io Unit
  unfolding ◌>>=◌ lift authenticate allocate
  handle_allocate msg src_addr = do
    auth ← lift (authenticate env msg)
    or_send src_addr auth (allocate msg src_addr)

  abbrev pub reply_refreshed : StunInfo → SocketAddr → ℕ → Option Bytes → Io Unit
  reply_refreshed msg src_addr lifetime key =
      send_to src_addr (build_refresh_response (integrity env) msg lifetime key)

  unfoldable pub refresh_for : StunInfo → SocketAddr → ℕ → Option Bytes → ℕ → Io Unit
  unfolding ◌>>=◌ release call_by_client build_refresh_response
  refresh_for msg src_addr alloc_id key requested =
      if requested == 0
      then release env alloc_id src_addr.ip >> reply_refreshed msg src_addr 0 key
      else do
        call_by_client src_addr (refresh_op env.now (clamp_lifetime requested))
        call_by_client src_addr (touch_received_op env.now)
        reply_refreshed msg src_addr (clamp_lifetime requested) key

  unfoldable pub handle_refresh : StunInfo → SocketAddr → Io Unit
  unfolding authenticated refresh_for
  handle_refresh msg src_addr =
      authenticated env msg src_addr
        λ alloc_id key. refresh_for msg src_addr alloc_id key (unwrap_or msg.lifetime 60)
