-- ===== src/Server/Turn.antt =====
-- src/turn/handler.rs: `handle_stun`, which hands each message to its handler.
pub mod Binding
pub mod Guard
pub mod Allocate
pub mod Requests
pub mod Send
pub mod Answers
pub mod Answered
pub mod Refused
pub mod Tests
use uturn.Common.{ℕ, Option, none, some}
use uturn.Addr.{SocketAddr}
use uturn.Demux.Stun.{
  StunInfo, StunClass, StunMethod, request, indication, success_response, error_response, binding,
  allocate, refresh, create_permission, channel_bind, send,
}
use uturn.Lookup.Table.{lookup_by_source}
use uturn.Server.State.{Env, Io, ◌>>=◌, ◌>>◌, skip, reads}
use uturn.Server.Turn.Allocate.{handle_allocate, handle_refresh}
use uturn.Server.Turn.Binding.{handle_binding_request, handle_client_response}
use uturn.Server.Turn.Requests.{handle_create_permission, handle_channel_bind}
use uturn.Server.Turn.Send.{handle_send}

module _ (env : Env) where
  unfoldable pub handle_request : StunMethod → StunInfo → SocketAddr → Io Unit
  unfolding handle_binding_request handle_allocate handle_refresh handle_create_permission
      handle_channel_bind
  handle_request binding msg src_addr = handle_binding_request env msg src_addr
  handle_request allocate msg src_addr = handle_allocate env msg src_addr
  handle_request refresh msg src_addr = handle_refresh env msg src_addr
  handle_request create_permission msg src_addr = handle_create_permission env msg src_addr
  handle_request channel_bind msg src_addr = handle_channel_bind env msg src_addr
  handle_request method msg src_addr = skip

  unfoldable pub handle_indication : StunMethod → StunInfo → SocketAddr → Io Unit
  unfolding handle_send
  handle_indication send msg src_addr = handle_send env msg src_addr
  handle_indication method msg src_addr = skip

  abbrev pub response_from : StunInfo → SocketAddr → Option ℕ → Io Unit
  response_from msg src_addr none = skip
  response_from msg src_addr (some _) = handle_client_response env msg src_addr

  -- Responses of clients, and of the peers that an allocation has heard from
  unfoldable pub handle_response : StunInfo → SocketAddr → Io Unit
  unfolding ◌>>=◌ lookup_by_source handle_client_response
  handle_response msg src_addr = do
    found ← reads (λ t. lookup_by_source t src_addr)
    response_from msg src_addr found

  abbrev pub by_class : StunClass → StunInfo → SocketAddr → Io Unit
  by_class request msg src_addr = handle_request msg.method msg src_addr
  by_class indication msg src_addr = handle_indication msg.method msg src_addr
  by_class success_response msg src_addr = handle_response msg src_addr
  by_class error_response msg src_addr = handle_response msg src_addr

  unfoldable pub handle_stun : StunInfo → SocketAddr → Io Unit
  unfolding handle_request handle_indication handle_response
  handle_stun msg src_addr = by_class msg.class msg src_addr
