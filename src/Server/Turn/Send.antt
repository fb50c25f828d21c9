-- ===== src/Server/Turn/Send.antt =====
-- src/turn/handler.rs: Send indications, to the relay address itself, to another client of this
-- server, or out.
use uturn.Common.{
  ℕ, Bool, true, false, not, ◌&&◌, Option, none, some, List, [], ◌∷◌, ◌=?◌, nat_key, if◌then◌else◌,
}
use uturn.Common.Bytes.{Bytes, Str}
use uturn.Addr.{SocketAddr, socket_key}
use uturn.Demux.Stun.{StunInfo, request, binding}
use uturn.Demux.Stun.Parse.{parse, parse_ice_username}
use uturn.Lookup.Allocation.{Allocation, is_permitted, channel_for_peer}
use uturn.Lookup.Table.{AllocationTable, get_by_client, is_client, find_ice_peers}
use uturn.Lookup.Table.Steps.{
  register_ufrags_op, touch_op, touch_received_op, touch_relay_success_op,
}
use uturn.Server.State.{
  Env, Io, pure, ◌>>=◌, ◌>>◌, skip, when, reads, lift, operate, call_on, call_by_client, send_to,
  send_all, relay_addr, indication,
}
use uturn.Server.Turn.Binding.{may_relay, clients_of, peers_of, target_of}
use uturn.Turn.Encode.{build_channel_data}
use uturn.Turn.Peers.{is_forbidden_peer_addr}

pub data SendTarget : Type 0 where
  local : ℕ → Option ℕ → SendTarget
  external : SendTarget
  drop : SendTarget

abbrev pub is_binding_request : StunInfo → Bool
is_binding_request msg = elim msg.method [
  | binding ↦ elim msg.class [ request ↦ true | _ ↦ false ]
  | _ ↦ false
]

module _ (env : Env) where
  -- The client under the peer's address, if there is one
  abbrev pub classify_client : SocketAddr → Option Allocation → SendTarget
  classify_client src_addr none = external
  classify_client src_addr (some target) =
      if may_relay env target
      then local target.id (channel_for_peer env.now target src_addr)
      else drop

  unfoldable pub classify_send_target : AllocationTable → SocketAddr → SocketAddr → SendTarget
  unfolding get_by_client is_permitted channel_for_peer
  classify_send_target t src_addr peer_addr =
      if peer_addr =? src_addr then drop else classify_client src_addr (get_by_client t peer_addr)

  unfoldable pub send_to_target : Bytes → Option SocketAddr → Io Bool
  unfolding ◌>>=◌ indication
  send_to_target payload none = pure false
  send_to_target payload (some addr) = do
    packet ← indication env (relay_addr env) payload
    send_to addr packet
    pure true

  -- To the holder of the addressed fragment; whether it was sent.
  unfoldable pub send_to_holder : SocketAddr → Bytes → Str → Io Bool
  unfolding ◌>>=◌ target_of send_to_target
  send_to_holder src_addr payload remote_ufrag = do
    target_addr ← reads (λ t. target_of env t src_addr remote_ufrag)
    send_to_target payload target_addr

  unfoldable pub route_named : SocketAddr → ℕ → Bytes → Option (Str × Str) → Io Bool
  unfolding ◌>>=◌ send_to_holder
  route_named src_addr alloc_id payload none = pure false
  route_named src_addr alloc_id payload (some (remote_ufrag, local_ufrag)) = do
    operate (register_ufrags_op alloc_id local_ufrag remote_ufrag)
    send_to_holder src_addr payload remote_ufrag

  -- A Binding request inside registers the sender's fragments and goes to the holder of its own.
  unfoldable pub route_check : SocketAddr → ℕ → Bytes → Option StunInfo → Io Bool
  unfolding ◌>>=◌ route_named parse_ice_username
  route_check src_addr alloc_id payload none = pure false
  route_check src_addr alloc_id payload (some inner) =
      if not (is_binding_request inner)
      then pure false
      else route_named src_addr alloc_id payload (parse_ice_username inner)

  abbrev pub sender_peers : AllocationTable → SocketAddr → List ℕ
  sender_peers t src_addr = elim (get_by_client t src_addr) [
    | none ↦ []
    | some a ↦ peers_of t a.ice_ufrag a.ice_remote_ufrag
  ]

  abbrev pub send_indication_all : List SocketAddr → Bytes → Io Bool
  send_indication_all [] payload = pure false
  send_indication_all (target ∷ targets) payload = do
    packet ← indication env (relay_addr env) payload
    send_all (target ∷ targets) packet
    pure true

  unfoldable pub route_by_pair : SocketAddr → Bytes → Io Bool
  unfolding ◌>>=◌ get_by_client clients_of find_ice_peers indication send_all
  route_by_pair src_addr payload = do
    targets ← reads (λ t.
        clients_of t (λ a. not (a.client_addr =? src_addr) && may_relay env a)
          (sender_peers t src_addr))
    send_indication_all targets payload

  -- `if !sent { .. }`
  abbrev pub unless_sent : Bool → Io Bool → Io Bool
  unless_sent sent m = if sent then pure true else m

  unfoldable pub send_internally : SocketAddr → ℕ → Bytes → Io Unit
  unfolding ◌>>=◌ lift parse route_check route_by_pair call_by_client
  send_internally src_addr alloc_id payload = do
    inner ← lift (parse payload)
    routed ← route_check src_addr alloc_id payload inner
    sent ← unless_sent routed (route_by_pair src_addr payload)
    call_by_client src_addr (touch_received_op env.now)
    when sent (call_by_client src_addr (touch_relay_success_op env.now))

  abbrev pub send_internally_if : SocketAddr → Option Bytes → Option Allocation → Io Unit
  send_internally_if src_addr payload none = skip
  send_internally_if src_addr none (some a) = skip
  send_internally_if src_addr (some payload) (some a) =
      if not (may_relay env a) then skip else send_internally src_addr a.id payload

  unfoldable pub send_to_self : StunInfo → SocketAddr → Io Unit
  unfolding ◌>>=◌ get_by_client send_internally is_permitted
  send_to_self msg src_addr = do
    found ← reads (λ t. get_by_client t src_addr)
    send_internally_if src_addr msg.payload found

  abbrev pub packet_for : SocketAddr → Bytes → Option ℕ → Io Bytes
  packet_for src_addr payload none = indication env src_addr payload
  packet_for src_addr payload (some channel) = pure (build_channel_data channel payload)

  -- What was decided; whether the payload went anywhere.
  unfoldable pub deliver_target : SendTarget → SocketAddr → SocketAddr → Bytes → Io Bool
  unfolding ◌>>=◌ indication build_channel_data
  deliver_target drop src_addr peer_addr payload = pure false
  deliver_target (local target_id reverse_channel) src_addr peer_addr payload = do
    packet ← packet_for src_addr payload reverse_channel
    send_to peer_addr packet
    call_on target_id (touch_op env.now)
    pure true
  deliver_target external src_addr peer_addr payload = do send_to peer_addr payload; pure true

  unfoldable pub send_payload : SocketAddr → SocketAddr → Bytes → Option Allocation → Io Unit
  unfolding ◌>>=◌ is_permitted classify_send_target deliver_target call_by_client
  send_payload src_addr peer_addr payload none = skip
  send_payload src_addr peer_addr payload (some a) =
      if not (is_permitted env.now a peer_addr.ip) then skip else do
        target ← reads (λ t. classify_send_target t src_addr peer_addr)
        relayed ← deliver_target target src_addr peer_addr payload
        when relayed (call_by_client src_addr (touch_received_op env.now))

  unfoldable pub send_to_peer : Option Bytes → SocketAddr → SocketAddr → Io Unit
  unfolding ◌>>=◌ get_by_client send_payload
  send_to_peer none src_addr peer_addr = skip
  send_to_peer (some payload) src_addr peer_addr = do
    found ← reads (λ t. get_by_client t src_addr)
    send_payload src_addr peer_addr payload found

  unfoldable pub send_first : StunInfo → SocketAddr → List SocketAddr → Io Unit
  unfolding is_forbidden_peer_addr send_to_self send_to_peer
  send_first msg src_addr [] = skip
  send_first msg src_addr (peer_addr ∷ _) =
      if is_forbidden_peer_addr env.config peer_addr
      then skip
      else if peer_addr =? relay_addr env
      then send_to_self msg src_addr
      else send_to_peer msg.payload src_addr peer_addr

  unfoldable pub handle_send : StunInfo → SocketAddr → Io Unit
  unfolding ◌>>=◌ is_client send_first
  handle_send msg src_addr = do
    client ← reads (λ t. is_client t src_addr)
    if not client then skip else send_first msg src_addr msg.xor_peer_addresses
