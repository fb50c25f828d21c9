-- ===== src/Server/Turn/Refused.antt =====
-- A request whose credentials are refused leaves the server's state alone.
use uturn.Common.{
  ℕ, ◌≡◌, refl, Bool, true, false, Option, none, some, List, [], ◌∷◌, Run, done, panic, out_of_fuel,
  Bool-cases, inl, inr, if◌then◌else◌,
}
use uturn.Common.Bytes.{Bytes}
use uturn.Addr.{SocketAddr}
use uturn.Config.{is_nil}
use uturn.Demux.Stun.{
  StunInfo, StunMethod, binding, send, data_method, unknown, allocate, refresh, create_permission,
  channel_bind,
}
use uturn.Server.Credentials as Credentials
use uturn.Server.Credentials.{authenticate, authenticate_for_allocation}
use uturn.Server.State.{Env, World, Io, ◌>>=◌, lift, evaluate, send_to, integrity}
use uturn.Server.Turn.{handle_request}
use uturn.Server.Turn.Allocate.{reply_error, handle_allocate, handle_refresh}
use uturn.Server.Turn.Answered.{IsAllocationRequest}
use uturn.Server.Turn.Guard.{authenticated}
use uturn.Server.Turn.Requests.{handle_create_permission, handle_channel_bind, channel_bind_with}
use uturn.Turn.Message.{TurnErrorCode, bad_request}
use uturn.Turn.Responses.{build_signed_error_response}

-- Neither the table nor the limiter changed.
pub record SameState (w v : World) : Type 0 where
  pub same_table : v.table ≡ w.table
  pub same_limiter : v.limiter ≡ w.limiter

abbrev Harmless : Env → Io Unit → Type 0
Harmless env p = (w : World) → SameState w (evaluate env p w).0

module _ (env : Env) (msg : StunInfo) (src_addr : SocketAddr) where
  send_to-Harmless : (packet : Bytes) → Harmless env (send_to src_addr packet)
  unfolding evaluate
  send_to-Harmless packet w = elim (Bool-cases (env.accepts src_addr packet)) [
    | inl taken ↦ rw (taken, evaluate) (record { same_table = refl; same_limiter = refl })
    | inr refused ↦ rw (refused, evaluate) (record { same_table = refl; same_limiter = refl })
  ]

  lift_send-Harmless : (m : Run Bytes) → Harmless env (lift m >>= send_to src_addr)
  unfolding lift ◌>>=◌ evaluate
  lift_send-Harmless (done packet) w = send_to-Harmless packet w
  lift_send-Harmless panic w = record { same_table = refl; same_limiter = refl }
  lift_send-Harmless out_of_fuel w = record { same_table = refl; same_limiter = refl }

  reply_error-Harmless :
      (error : TurnErrorCode) (key : Option Bytes)
      → Harmless env (reply_error env msg src_addr error key)
  unfolding reply_error
  reply_error-Harmless error key =
      lift_send-Harmless (build_signed_error_response (integrity env) msg error key)

  if-Harmless :
      (b : Bool) (p q : Io Unit)
      → Harmless env p
      → Harmless env q
      → Harmless env (if b then p else q)
  if-Harmless true p q hp hq = hp
  if-Harmless false p q hp hq = hq

  module _ (response : Bytes)
      (refused : authenticate env msg ≡ done (Credentials.err response)) where
    authenticated-Harmless :
        (go_on : ℕ → Option Bytes → Io Unit) → Harmless env (authenticated env msg src_addr go_on)
    unfolding authenticated authenticate_for_allocation ◌>>=◌ lift evaluate
    authenticated-Harmless go_on w = rw refused (send_to-Harmless response w)

    allocate-Harmless : Harmless env (handle_allocate env msg src_addr)
    unfolding handle_allocate ◌>>=◌ lift
    allocate-Harmless w = rw refused (send_to-Harmless response w)

    channel_bind_with-Harmless :
        (channel : Option ℕ) (peers : List SocketAddr)
        → Harmless env (channel_bind_with env msg src_addr channel peers)
    unfolding channel_bind_with
    channel_bind_with-Harmless none peers = reply_error-Harmless bad_request none
    channel_bind_with-Harmless (some channel) [] = reply_error-Harmless bad_request none
    channel_bind_with-Harmless (some channel) (peer_addr ∷ _) = authenticated-Harmless _

-- An Allocate, Refresh, CreatePermission or ChannelBind request whose credentials are refused
-- changes neither the table nor the limiter, whatever else it says and whoever sends it.
pub handle_request-refused :
    (env : Env) (msg : StunInfo) (src_addr : SocketAddr) (response : Bytes) (method : StunMethod)
    → IsAllocationRequest method
    → authenticate env msg ≡ done (Credentials.err response)
    → (w : World) → SameState w (evaluate env (handle_request env method msg src_addr) w).0
unfolding handle_request handle_refresh handle_create_permission handle_channel_bind
handle_request-refused env msg src_addr response allocate r refused w =
    allocate-Harmless env msg src_addr response refused w
handle_request-refused env msg src_addr response refresh r refused w =
    authenticated-Harmless env msg src_addr response refused _ w
handle_request-refused env msg src_addr response create_permission r refused w =
    if-Harmless env msg src_addr (is_nil msg.xor_peer_addresses) _ _
      (reply_error-Harmless env msg src_addr bad_request none)
      (authenticated-Harmless env msg src_addr response refused _) w
handle_request-refused env msg src_addr response channel_bind r refused w =
    channel_bind_with-Harmless env msg src_addr response refused _ _ w
handle_request-refused env msg src_addr response binding r refused w = absurd r
handle_request-refused env msg src_addr response send r refused w = absurd r
handle_request-refused env msg src_addr response data_method r refused w = absurd r
handle_request-refused env msg src_addr response (unknown _) r refused w = absurd r
