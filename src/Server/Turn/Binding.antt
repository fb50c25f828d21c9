-- ===== src/Server/Turn/Binding.antt =====
-- src/turn/handler.rs: Binding requests and the responses that clients send, relayed to the ICE
-- peer that they are for.
use uturn.Common.{
  ℕ, Bool, not, ◌||◌, Option, none, some, List, [], ◌∷◌, ◌=?◌, nat_key, if◌then◌else◌,
}
use uturn.Common.Bytes.{Str}
use uturn.Addr.{SocketAddr, socket_key}
use uturn.Demux.Stun.{StunInfo}
use uturn.Demux.Stun.Parse.{parse_ice_username}
use uturn.Lookup.Allocation.{Allocation, is_permitted}
use uturn.Lookup.Table.{
  AllocationTable, get, get_by_client, is_client, lookup_by_ice_ufrag, find_ice_peers,
}
use uturn.Lookup.Table.Steps.{register_ufrags_op, add_permission_op, touch_received_op}
use uturn.Server.State.{
  Env, Io, ◌>>=◌, ◌>>◌, skip, when, reads, lift, operate, call_by_client, send_to, send_all,
  relay_addr, indication,
}
use uturn.Turn.Responses.{build_binding_response}

-- `find_ice_peers(local, remote)`, where the sender has both
abbrev pub peers_of : AllocationTable → Option Str → Option Str → List ℕ
peers_of t none remote = []
peers_of t (some local_ufrag) none = []
peers_of t (some local_ufrag) (some remote_ufrag) = find_ice_peers t local_ufrag remote_ufrag

-- `filter_map` over allocations by id: the client of each that exists and is wanted.
abbrev pub wanted_client :
    (Allocation → Bool) → Option Allocation → List SocketAddr → List SocketAddr
wanted_client wanted none rest = rest
wanted_client wanted (some a) rest = if wanted a then a.client_addr ∷ rest else rest

unfoldable pub clients_of : AllocationTable → (Allocation → Bool) → List ℕ → List SocketAddr
unfolding get
clients_of t wanted [] = []
clients_of t wanted (id ∷ ids) = wanted_client wanted (get t id) (clients_of t wanted ids)

module _ (env : Env) where
  abbrev pub may_relay : Allocation → Bool
  may_relay a = is_permitted env.now a env.config.external_ip

  -- The allocation that a check is addressed to, if it is another client's and permits the relay.
  abbrev pub admits : SocketAddr → Option Allocation → Option SocketAddr
  admits src_addr none = none
  admits src_addr (some target) =
      if (target.client_addr =? src_addr) || not (may_relay target)
      then none
      else some target.client_addr

  unfoldable pub target_at : AllocationTable → SocketAddr → Option ℕ → Option SocketAddr
  unfolding get
  target_at t src_addr none = none
  target_at t src_addr (some target_id) = admits src_addr (get t target_id)

  unfoldable pub target_of : AllocationTable → SocketAddr → Str → Option SocketAddr
  unfolding lookup_by_ice_ufrag target_at
  target_of t src_addr remote_ufrag = target_at t src_addr (lookup_by_ice_ufrag t remote_ufrag)

  abbrev pub target_of_pair : AllocationTable → SocketAddr → Option (Str × Str) → Option SocketAddr
  target_of_pair t src_addr none = none
  target_of_pair t src_addr (some (remote_ufrag, _)) = target_of t src_addr remote_ufrag

  unfoldable pub respond_to_binding : StunInfo → SocketAddr → Io Unit
  unfolding ◌>>=◌ lift build_binding_response
  respond_to_binding msg src_addr = do
    response ← lift (build_binding_response msg src_addr)
    send_to src_addr response

  unfoldable pub register : ℕ → Option (Str × Str) → Io Unit
  register alloc_id none = skip
  register alloc_id (some (remote_ufrag, local_ufrag)) =
      operate (register_ufrags_op alloc_id local_ufrag remote_ufrag)

  abbrev pub forward_check : StunInfo → Option SocketAddr → Io Unit
  forward_check msg none = skip
  forward_check msg (some addr) = do
    packet ← indication env (relay_addr env) msg.raw
    send_to addr packet

  unfoldable pub relay_check : StunInfo → SocketAddr → Option (Str × Str) → Io Unit
  unfolding ◌>>=◌ target_of indication
  relay_check msg src_addr ice_ufrags = do
    target_addr ← reads (λ t. target_of_pair t src_addr ice_ufrags)
    forward_check msg target_addr

  -- `get_by_client` once more, after the registration: the allocation may be gone.
  abbrev pub touch_and_relay :
      StunInfo → SocketAddr → Option (Str × Str) → Option Allocation → Io Unit
  touch_and_relay msg src_addr ice_ufrags none = respond_to_binding msg src_addr
  touch_and_relay msg src_addr ice_ufrags (some b) = do
    call_by_client src_addr (touch_received_op env.now)
    when (may_relay b) (relay_check msg src_addr ice_ufrags)

  -- A check of a client that has an allocation
  unfoldable pub handle_check : StunInfo → SocketAddr → Allocation → Io Unit
  unfolding ◌>>=◌ register relay_check respond_to_binding get_by_client call_by_client
      parse_ice_username
  handle_check msg src_addr a = do
    let ice_ufrags = parse_ice_username msg
    register a.id ice_ufrags
    when (not (may_relay a)) (operate (add_permission_op env.now a.id env.config.external_ip))
    found ← reads (λ t. get_by_client t src_addr)
    touch_and_relay msg src_addr ice_ufrags found

  abbrev pub check_of : StunInfo → SocketAddr → Option Allocation → Io Unit
  check_of msg src_addr none = respond_to_binding msg src_addr
  check_of msg src_addr (some a) = handle_check msg src_addr a

  unfoldable pub handle_binding_request : StunInfo → SocketAddr → Io Unit
  unfolding ◌>>=◌ respond_to_binding handle_check get_by_client is_client
  handle_binding_request msg src_addr = do
    client ← reads (λ t. is_client t src_addr)
    if not client
        then respond_to_binding msg src_addr
        else do found ← reads (λ t. get_by_client t src_addr); check_of msg src_addr found

  abbrev pub relay_response : StunInfo → SocketAddr → List SocketAddr → Io Unit
  relay_response msg src_addr [] = skip
  relay_response msg src_addr (target ∷ targets) = do
    packet ← indication env src_addr msg.raw
    send_all (target ∷ targets) packet

  abbrev pub response_of : StunInfo → SocketAddr → Option Allocation → Io Unit
  response_of msg src_addr none = skip
  response_of msg src_addr (some a) = do
    targets ← reads (λ t.
        clients_of t (λ target. not (target.client_addr =? src_addr))
          (peers_of t a.ice_ufrag a.ice_remote_ufrag))
    relay_response msg src_addr targets

  unfoldable pub handle_client_response : StunInfo → SocketAddr → Io Unit
  unfolding ◌>>=◌ get_by_client find_ice_peers clients_of indication send_all
  handle_client_response msg src_addr = do
    found ← reads (λ t. get_by_client t src_addr)
    response_of msg src_addr found
