-- ===== src/Server/Turn/Requests.antt =====
-- src/turn/handler.rs: CreatePermission and ChannelBind.
use uturn.Common.{
  ℕ, Bool, true, false, not, ◌&&◌, ◌||◌, Option, none, some, List, [], ◌∷◌, map, ◌=?◌, leb, nat_key,
  if◌then◌else◌,
}
use uturn.Common.Bytes.{Bytes}
use uturn.Addr.{SocketAddr, socket_key}
use uturn.Config.{is_nil}
use uturn.Demux.Stun.{StunInfo}
use uturn.Lookup.Allocation.{Allocation, peer_for_channel, channel_for_peer, channels_count}
use uturn.Lookup.Table.{get}
use uturn.Lookup.Table.Steps.{bind_channel_op, touch_received_op}
use uturn.Server.State.{
  Env, Io, ◌>>=◌, ◌>>◌, reads, lift, call_on, send_to, try_add_permissions_io, integrity,
}
use uturn.Server.Turn.Guard.{authenticated}
use uturn.Server.Turn.Allocate.{reply_error}
use uturn.Turn.Message.{bad_request, forbidden, insufficient_capacity, allocation_mismatch}
use uturn.Turn.Peers.{is_forbidden_peer_ip, is_forbidden_peer_addr}
use uturn.Turn.Responses.{build_success_response}

abbrev pub any_forbidden : List SocketAddr → Bool
any_forbidden [] = false
any_forbidden (peer_addr ∷ peers) = is_forbidden_peer_ip peer_addr.ip || any_forbidden peers

-- The outcome of the bind check.
pub data Bind : Type 0 where
  bind_ok conflict cap_exceeded gone : Bind

-- `Some(x) if x != y`
abbrev pub differs_from_channel : Option ℕ → ℕ → Bool
differs_from_channel none channel = false
differs_from_channel (some c) channel = not (c =? channel)

abbrev pub differs_from_peer : Option SocketAddr → SocketAddr → Bool
differs_from_peer none peer_addr = false
differs_from_peer (some p) peer_addr = not (p =? peer_addr)

abbrev pub is_some {ℓ} : {A : Type ℓ} → Option A → Bool
is_some none = false
is_some (some _) = true

unfoldable pub judge : ℕ → ℕ → Allocation → ℕ → SocketAddr → Bind
unfolding peer_for_channel channel_for_peer channels_count
judge now max_channels a channel peer_addr =
    let bound_peer = peer_for_channel now a channel in
    let bound_channel = channel_for_peer now a peer_addr in
    if differs_from_peer bound_peer peer_addr || differs_from_channel bound_channel channel
    then conflict
    else if is_some bound_peer && is_some bound_channel
    then bind_ok
    else if leb max_channels (channels_count now a)
    then cap_exceeded
    else bind_ok

abbrev pub bind_check : ℕ → ℕ → Option Allocation → ℕ → SocketAddr → Bind
bind_check now max_channels none channel peer_addr = gone
bind_check now max_channels (some a) channel peer_addr = judge now max_channels a channel peer_addr

module _ (env : Env) where
  abbrev pub bad_reply : StunInfo → SocketAddr → Io Unit
  bad_reply msg src_addr = reply_error env msg src_addr bad_request none

  unfoldable pub reply_success : StunInfo → SocketAddr → Option Bytes → Io Unit
  unfolding ◌>>=◌ lift build_success_response
  reply_success msg src_addr key = do
    response ← lift (build_success_response (integrity env) msg key)
    send_to src_addr response

  unfoldable pub create_permissions : StunInfo → SocketAddr → ℕ → Option Bytes → Io Unit
  unfolding ◌>>=◌ reply_error reply_success is_forbidden_peer_ip
  create_permissions msg src_addr alloc_id key =
      if any_forbidden msg.xor_peer_addresses
      then reply_error env msg src_addr forbidden key
      else do
        call_on alloc_id (touch_received_op env.now)
        granted ←
            try_add_permissions_io env alloc_id (map (λ a. a.ip) msg.xor_peer_addresses)
              env.config.max_permissions_per_alloc
        if granted
            then reply_success msg src_addr key
            else reply_error env msg src_addr insufficient_capacity key

  unfoldable pub handle_create_permission : StunInfo → SocketAddr → Io Unit
  unfolding authenticated create_permissions reply_error
  handle_create_permission msg src_addr =
      if is_nil msg.xor_peer_addresses
      then bad_reply msg src_addr
      else authenticated env msg src_addr (create_permissions msg src_addr)

  -- `self.allocations.get(alloc_id)`: the allocation is still there, or 437
  unfoldable pub commit_to :
      StunInfo → SocketAddr → ℕ → SocketAddr → ℕ → Option Bytes → Option Allocation → Io Unit
  unfolding ◌>>=◌ reply_error reply_success
  commit_to msg src_addr channel peer_addr alloc_id key none =
      reply_error env msg src_addr allocation_mismatch key
  commit_to msg src_addr channel peer_addr alloc_id key (some _) = do
    call_on alloc_id (bind_channel_op env.now channel peer_addr)
    call_on alloc_id (touch_received_op env.now)
    reply_success msg src_addr key

  unfoldable pub commit : StunInfo → SocketAddr → ℕ → SocketAddr → ℕ → Option Bytes → Io Unit
  unfolding ◌>>=◌ commit_to get
  commit msg src_addr channel peer_addr alloc_id key = do
    found ← reads (λ t. get t alloc_id)
    commit_to msg src_addr channel peer_addr alloc_id key found

  -- No permission: the allocation is gone, or its cap is reached.
  abbrev pub refuse_permission : StunInfo → SocketAddr → Option Bytes → Option Allocation → Io Unit
  refuse_permission msg src_addr key none = reply_error env msg src_addr allocation_mismatch key
  refuse_permission msg src_addr key (some _) =
      reply_error env msg src_addr insufficient_capacity key

  -- The permission that a binding implies, then the binding
  unfoldable pub bind_admissible :
      StunInfo → SocketAddr → ℕ → SocketAddr → ℕ → Option Bytes → Io Unit
  unfolding ◌>>=◌ reply_error commit get
  bind_admissible msg src_addr channel peer_addr alloc_id key = do
    granted ←
        try_add_permissions_io env alloc_id (peer_addr.ip ∷ []) env.config.max_permissions_per_alloc
    if granted
        then commit msg src_addr channel peer_addr alloc_id key
        else do found ← reads (λ t. get t alloc_id); refuse_permission msg src_addr key found

  -- What the check allows
  unfoldable pub on_bind :
      StunInfo → SocketAddr → ℕ → SocketAddr → ℕ → Option Bytes → Bind → Io Unit
  unfolding reply_error bind_admissible
  on_bind msg src_addr channel peer_addr alloc_id key bind_ok =
      bind_admissible msg src_addr channel peer_addr alloc_id key
  on_bind msg src_addr channel peer_addr alloc_id key conflict =
      reply_error env msg src_addr bad_request key
  on_bind msg src_addr channel peer_addr alloc_id key cap_exceeded =
      reply_error env msg src_addr insufficient_capacity key
  on_bind msg src_addr channel peer_addr alloc_id key gone =
      reply_error env msg src_addr allocation_mismatch key

  unfoldable pub bind_for : StunInfo → SocketAddr → ℕ → SocketAddr → ℕ → Option Bytes → Io Unit
  unfolding ◌>>=◌ reply_error on_bind get is_forbidden_peer_addr
  bind_for msg src_addr channel peer_addr alloc_id key =
      if is_forbidden_peer_addr env.config peer_addr
      then reply_error env msg src_addr forbidden key
      else do
        found ← reads (λ t. get t alloc_id)
        on_bind msg src_addr channel peer_addr alloc_id key
            (bind_check env.now env.config.max_channels_per_alloc found channel peer_addr)

  -- The two attributes that a binding must have
  unfoldable pub channel_bind_with : StunInfo → SocketAddr → Option ℕ → List SocketAddr → Io Unit
  unfolding reply_error authenticated bind_for
  channel_bind_with msg src_addr none peers = bad_reply msg src_addr
  channel_bind_with msg src_addr (some channel) [] = bad_reply msg src_addr
  channel_bind_with msg src_addr (some channel) (peer_addr ∷ _) =
      authenticated env msg src_addr (bind_for msg src_addr channel peer_addr)

  unfoldable pub handle_channel_bind : StunInfo → SocketAddr → Io Unit
  unfolding channel_bind_with
  handle_channel_bind msg src_addr =
      channel_bind_with msg src_addr msg.channel_number msg.xor_peer_addresses
