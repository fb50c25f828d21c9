-- ===== src/Server/Quiet/Turn.antt =====
-- src/turn/handler.rs: what CreatePermission and ChannelBind do is quiet.
use uturn.Common.{ℕ, Option, none, some, List, [], ◌∷◌, nat_key}
use uturn.Common.Bytes.{Bytes}
use uturn.Addr.{SocketAddr, socket_key}
use uturn.Demux.Stun.{StunInfo}
use uturn.Lookup.Allocation.{Allocation}
use uturn.Server.Quiet.{IsQuiet, quiet_rules}
use uturn.Server.Credentials.{Reply, ok, err}
use uturn.Server.State.{Env, Io, indication}
use uturn.Server.Turn.Allocate.{reply_error}
use uturn.Server.Turn.Guard.{or_send, authenticated}
use uturn.Server.Turn.Requests.{
  Bind, bind_ok, conflict, cap_exceeded, gone, reply_success, create_permissions,
  handle_create_permission, commit_to, commit, refuse_permission, bind_admissible, on_bind,
  bind_for, channel_bind_with, handle_channel_bind,
}
use uturn.Turn.Message.{TurnErrorCode, bad_request, allocation_mismatch, insufficient_capacity}

module _ (env : Env) where
  pub indication-IsQuiet :
      (peer_addr : SocketAddr) (payload : Bytes) → IsQuiet (indication env peer_addr payload)
  unfolding indication
  indication-IsQuiet peer_addr payload = search quiet_rules

  pub reply_error-IsQuiet :
      (msg : StunInfo) (src_addr : SocketAddr) (error : TurnErrorCode) (key : Option Bytes)
      → IsQuiet (reply_error env msg src_addr error key)
  unfolding reply_error
  reply_error-IsQuiet msg src_addr error key = search quiet_rules

  reply_success-IsQuiet :
      (msg : StunInfo) (src_addr : SocketAddr) (key : Option Bytes)
      → IsQuiet (reply_success env msg src_addr key)
  unfolding reply_success
  reply_success-IsQuiet msg src_addr key = search quiet_rules

  pub authenticated-IsQuiet :
      (msg : StunInfo) (src_addr : SocketAddr) (go_on : ℕ → Option Bytes → Io Unit)
      → ((id : ℕ) (key : Option Bytes) → IsQuiet (go_on id key))
      → IsQuiet (authenticated env msg src_addr go_on)
  unfolding authenticated
  authenticated-IsQuiet msg src_addr go_on h = search (quiet_rules, replied)
    where
      replied :
          (auth : Reply (ℕ × Option Bytes))
          → IsQuiet (or_send src_addr auth (λ found. go_on found.0 found.1))
      replied (ok found) = h found.0 found.1
      replied (err response) = search quiet_rules

  create_permissions-IsQuiet :
      (msg : StunInfo) (src_addr : SocketAddr) (id : ℕ) (key : Option Bytes)
      → IsQuiet (create_permissions env msg src_addr id key)
  unfolding create_permissions IsQuiet
  create_permissions-IsQuiet msg src_addr id key =
      search (quiet_rules, reply_error-IsQuiet, reply_success-IsQuiet)

  pub handle_create_permission-IsQuiet :
      (msg : StunInfo) (src_addr : SocketAddr) → IsQuiet (handle_create_permission env msg src_addr)
  unfolding handle_create_permission
  handle_create_permission-IsQuiet msg src_addr =
      search (quiet_rules, reply_error-IsQuiet, authenticated-IsQuiet, create_permissions-IsQuiet)

  commit_to-IsQuiet :
      (msg : StunInfo) (src_addr : SocketAddr) (channel : ℕ) (peer_addr : SocketAddr) (id : ℕ)
      → (key : Option Bytes) (o : Option Allocation)
      → IsQuiet (commit_to env msg src_addr channel peer_addr id key o)
  unfolding commit_to IsQuiet
  commit_to-IsQuiet msg src_addr channel peer_addr id key none =
      reply_error-IsQuiet msg src_addr allocation_mismatch key
  commit_to-IsQuiet msg src_addr channel peer_addr id key (some a) =
      search (quiet_rules, reply_success-IsQuiet)

  refuse_permission-IsQuiet :
      (msg : StunInfo) (src_addr : SocketAddr) (key : Option Bytes) (o : Option Allocation)
      → IsQuiet (refuse_permission env msg src_addr key o)
  refuse_permission-IsQuiet msg src_addr key none =
      reply_error-IsQuiet msg src_addr allocation_mismatch key
  refuse_permission-IsQuiet msg src_addr key (some a) =
      reply_error-IsQuiet msg src_addr insufficient_capacity key

  bind_admissible-IsQuiet :
      (msg : StunInfo) (src_addr : SocketAddr) (channel : ℕ) (peer_addr : SocketAddr) (id : ℕ)
      → (key : Option Bytes) → IsQuiet (bind_admissible env msg src_addr channel peer_addr id key)
  unfolding bind_admissible commit IsQuiet
  bind_admissible-IsQuiet msg src_addr channel peer_addr id key =
      search (quiet_rules, commit_to-IsQuiet, refuse_permission-IsQuiet)

  on_bind-IsQuiet :
      (msg : StunInfo) (src_addr : SocketAddr) (channel : ℕ) (peer_addr : SocketAddr) (id : ℕ)
      → (key : Option Bytes) (b : Bind)
      → IsQuiet (on_bind env msg src_addr channel peer_addr id key b)
  unfolding on_bind
  on_bind-IsQuiet msg src_addr channel peer_addr id key bind_ok =
      bind_admissible-IsQuiet msg src_addr channel peer_addr id key
  on_bind-IsQuiet msg src_addr channel peer_addr id key conflict =
      reply_error-IsQuiet msg src_addr bad_request key
  on_bind-IsQuiet msg src_addr channel peer_addr id key cap_exceeded =
      reply_error-IsQuiet msg src_addr insufficient_capacity key
  on_bind-IsQuiet msg src_addr channel peer_addr id key gone =
      reply_error-IsQuiet msg src_addr allocation_mismatch key

  bind_for-IsQuiet :
      (msg : StunInfo) (src_addr : SocketAddr) (channel : ℕ) (peer_addr : SocketAddr) (id : ℕ)
      → (key : Option Bytes) → IsQuiet (bind_for env msg src_addr channel peer_addr id key)
  unfolding bind_for IsQuiet
  bind_for-IsQuiet msg src_addr channel peer_addr id key =
      search (quiet_rules, reply_error-IsQuiet, on_bind-IsQuiet)

  channel_bind_with-IsQuiet :
      (msg : StunInfo) (src_addr : SocketAddr) (o : Option ℕ) (peers : List SocketAddr)
      → IsQuiet (channel_bind_with env msg src_addr o peers)
  unfolding channel_bind_with
  channel_bind_with-IsQuiet msg src_addr none peers =
      reply_error-IsQuiet msg src_addr bad_request none
  channel_bind_with-IsQuiet msg src_addr (some channel) [] =
      reply_error-IsQuiet msg src_addr bad_request none
  channel_bind_with-IsQuiet msg src_addr (some channel) (peer_addr ∷ peers) =
      authenticated-IsQuiet msg src_addr _ (bind_for-IsQuiet msg src_addr channel peer_addr)

  pub handle_channel_bind-IsQuiet :
      (msg : StunInfo) (src_addr : SocketAddr) → IsQuiet (handle_channel_bind env msg src_addr)
  unfolding handle_channel_bind
  handle_channel_bind-IsQuiet msg src_addr =
      channel_bind_with-IsQuiet msg src_addr msg.channel_number msg.xor_peer_addresses
