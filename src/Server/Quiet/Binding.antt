-- ===== src/Server/Quiet/Binding.antt =====
-- src/turn/handler.rs: what Binding requests and the responses of clients do is quiet.
use uturn.Common.{ℕ, Option, none, some, List, [], ◌∷◌, nat_key}
use uturn.Common.Bytes.{Str}
use uturn.Addr.{SocketAddr, socket_key}
use uturn.Demux.Stun.{StunInfo}
use uturn.Lookup.Allocation.{Allocation}
use uturn.Server.Quiet.{IsQuiet, quiet_rules}
use uturn.Server.State.{Env}
use uturn.Server.Turn.Binding.{
  respond_to_binding, register, relay_check, handle_check, handle_binding_request, relay_response,
  handle_client_response, forward_check, touch_and_relay, check_of, response_of,
}
use uturn.Server.Quiet.Turn.{indication-IsQuiet}

module _ (env : Env) where
  respond_to_binding-IsQuiet :
      (msg : StunInfo) (src_addr : SocketAddr) → IsQuiet (respond_to_binding env msg src_addr)
  unfolding respond_to_binding
  respond_to_binding-IsQuiet msg src_addr = search quiet_rules

  register-IsQuiet : (alloc_id : ℕ) (o : Option (Str × Str)) → IsQuiet (register env alloc_id o)
  unfolding register
  register-IsQuiet alloc_id none = search quiet_rules
  register-IsQuiet alloc_id (some p) = search quiet_rules

  forward_check-IsQuiet :
      (msg : StunInfo) (o : Option SocketAddr) → IsQuiet (forward_check env msg o)
  forward_check-IsQuiet msg none = search quiet_rules
  forward_check-IsQuiet msg (some addr) = search (quiet_rules, indication-IsQuiet)

  relay_check-IsQuiet :
      (msg : StunInfo) (src_addr : SocketAddr) (o : Option (Str × Str))
      → IsQuiet (relay_check env msg src_addr o)
  unfolding relay_check
  relay_check-IsQuiet msg src_addr o = search (quiet_rules, forward_check-IsQuiet)

  touch_and_relay-IsQuiet :
      (msg : StunInfo) (src_addr : SocketAddr) (o : Option (Str × Str)) (found : Option Allocation)
      → IsQuiet (touch_and_relay env msg src_addr o found)
  touch_and_relay-IsQuiet msg src_addr o none = respond_to_binding-IsQuiet msg src_addr
  touch_and_relay-IsQuiet msg src_addr o (some b) = search (quiet_rules, relay_check-IsQuiet)

  handle_check-IsQuiet :
      (msg : StunInfo) (src_addr : SocketAddr) (a : Allocation)
      → IsQuiet (handle_check env msg src_addr a)
  unfolding handle_check IsQuiet
  handle_check-IsQuiet msg src_addr a =
      search (quiet_rules, register-IsQuiet, touch_and_relay-IsQuiet) depth 10

  check_of-IsQuiet :
      (msg : StunInfo) (src_addr : SocketAddr) (found : Option Allocation)
      → IsQuiet (check_of env msg src_addr found)
  check_of-IsQuiet msg src_addr none = respond_to_binding-IsQuiet msg src_addr
  check_of-IsQuiet msg src_addr (some a) = handle_check-IsQuiet msg src_addr a

  pub handle_binding_request-IsQuiet :
      (msg : StunInfo) (src_addr : SocketAddr) → IsQuiet (handle_binding_request env msg src_addr)
  unfolding handle_binding_request
  handle_binding_request-IsQuiet msg src_addr =
      search (quiet_rules, respond_to_binding-IsQuiet, check_of-IsQuiet) depth 10

  relay_response-IsQuiet :
      (msg : StunInfo) (src_addr : SocketAddr) (targets : List SocketAddr)
      → IsQuiet (relay_response env msg src_addr targets)
  relay_response-IsQuiet msg src_addr [] = search quiet_rules
  relay_response-IsQuiet msg src_addr (target ∷ targets) = search (quiet_rules, indication-IsQuiet)

  response_of-IsQuiet :
      (msg : StunInfo) (src_addr : SocketAddr) (found : Option Allocation)
      → IsQuiet (response_of env msg src_addr found)
  response_of-IsQuiet msg src_addr none = search quiet_rules
  response_of-IsQuiet msg src_addr (some a) = search (quiet_rules, relay_response-IsQuiet)

  pub handle_client_response-IsQuiet :
      (msg : StunInfo) (src_addr : SocketAddr) → IsQuiet (handle_client_response env msg src_addr)
  unfolding handle_client_response
  handle_client_response-IsQuiet msg src_addr = search (quiet_rules, response_of-IsQuiet)
