-- ===== src/Server/Egress/Send.antt =====
-- A Send indication goes only where it may.
use uturn.Common.{
  ℕ, ◌≡◌, refl, Bool, true, false, not, ◌&&◌, ◌||◌, Option, none, some, List, [], ◌∷◌, ◌=?◌, arith,
  and_right, All, nat_key, Bool-cases, inl, inr, lookup, length,
}
use uturn.Common.Bytes.{Bytes, Str}
use uturn.Addr.{SocketAddr, socket_key, ip_key}
use uturn.Demux.Stun.{StunInfo}
use uturn.Demux.Stun.Parse.{parse, parse_ice_username}
use uturn.Lookup.Allocation.{Allocation, is_permitted}
use uturn.Lookup.Table.{AllocationTable, get, get_by_client, is_client}
use uturn.Lookup.Table.Steps.{Method, touch_received_op, touch_relay_success_op}
use uturn.Server.State.{
  Env, World, Io, pure, ◌>>=◌, ◌>>◌, call_if, call_by_client, send_all, indication, relay_addr,
  when,
}
use uturn.Server.Egress.{
  Guarded, Guarded->>=, lift-Guarded, if-Guarded, IsPermittedPeer, IsWillingClient, MaySend,
  to_peer, to_client,
}
use uturn.Server.Turn.Binding.{may_relay, wanted_client, clients_of, admits, target_at, target_of}
use uturn.Server.Turn.Send.{
  SendTarget, local, external, drop, send_to_target, send_to_holder, route_named, route_check,
  send_indication_all, route_by_pair, unless_sent, send_internally, send_internally_if,
  send_to_self, deliver_target, classify_send_target, send_payload, send_to_peer, send_first,
  handle_send, is_binding_request,
}
use uturn.Turn.Peers.{is_forbidden_peer_addr}
use uturn.Turn.Encode.{build_data_indication}

-- The targets that the lookups give are willing clients.
wanted_client-All :
    (env : Env) (t : AllocationTable) (src_addr : SocketAddr) (id : ℕ) (found : Option Allocation)
    → (rest : List SocketAddr) → get t id ≡ found
    → All (IsWillingClient env t) rest
    → All
        (IsWillingClient env t)
        (wanted_client (λ a. not (a.client_addr =? src_addr) && may_relay env a) found rest)
wanted_client-All env t src_addr id none rest e h = h
wanted_client-All env t src_addr id (some a) rest e h =
    elim (Bool-cases (not (a.client_addr =? src_addr) && may_relay env a)) [
      | inr unwanted ↦ rw unwanted h
      | inl wanted ↦ rw wanted (
        record {
          id = id;
          client = a;
          found = e;
          address = refl;
          permits = and_right (not (a.client_addr =? src_addr)) _ wanted;
        },
        h,
      )
    ]

clients_of-All :
    (env : Env) (t : AllocationTable) (src_addr : SocketAddr) (ids : List ℕ)
    → All
        (IsWillingClient env t)
        (clients_of t (λ a. not (a.client_addr =? src_addr) && may_relay env a) ids)
unfolding clients_of
clients_of-All env t src_addr [] = tt
clients_of-All env t src_addr (id ∷ ids) =
    wanted_client-All env t src_addr id (get t id) _ refl (clients_of-All env t src_addr ids)

abbrev Willing : Env → AllocationTable → Option SocketAddr → Type 0
Willing env t none = Unit
Willing env t (some addr) = IsWillingClient env t addr

admits-Willing :
    (env : Env) (t : AllocationTable) (src_addr : SocketAddr) (id : ℕ) (found : Option Allocation)
    → get t id ≡ found
    → Willing env t (admits env src_addr found)
admits-Willing env t src_addr id none e = tt
admits-Willing env t src_addr id (some a) e =
    elim (Bool-cases ((a.client_addr =? src_addr) || not (may_relay env a))) [
      | inl unwanted ↦ rw unwanted tt
      | inr wanted ↦ rw wanted (record {
        id = id;
        client = a;
        found = e;
        address = refl;
        permits = or_not (a.client_addr =? src_addr) (may_relay env a) wanted;
      })
    ]
  where
    or_not : (b c : Bool) → (b || not c) ≡ false → c ≡ true
    or_not true c h = ground (arith, h)
    or_not false true h = refl
    or_not false false h = ground (arith, h)

target_at-Willing :
    (env : Env) (t : AllocationTable) (src_addr : SocketAddr) (o : Option ℕ)
    → Willing env t (target_at env t src_addr o)
unfolding target_at
target_at-Willing env t src_addr none = tt
target_at-Willing env t src_addr (some id) = admits-Willing env t src_addr id (get t id) refl

module _ (env : Env) (src_addr : SocketAddr) where
  call_by_client-Guarded :
      (addr : SocketAddr) (m : Method) (w : World)
      → Guarded (MaySend env src_addr) (call_by_client addr m) w
  unfolding Guarded call_by_client ◌>>=◌
  call_by_client-Guarded addr m w = given (lookup addr w.table.by_client)
    where
      given : (o : Option ℕ) → Guarded (MaySend env src_addr) (call_if o m) w
      given none = tt
      given (some id) = tt

  send_to_target-Guarded :
      (payload : Bytes) (o : Option SocketAddr) (w : World)
      → Willing env w.table o
      → Guarded (MaySend env src_addr) (send_to_target env payload o) w
  unfolding Guarded send_to_target indication ◌>>=◌
  send_to_target-Guarded payload none w h = tt
  send_to_target-Guarded payload (some addr) w h =
      lift-Guarded (MaySend env src_addr)
        (build_data_indication (relay_addr env) payload (env.txn_id (length w.sent))) _ w
        λ packet. (to_client h, tt)

  route_named-Guarded :
      (id : ℕ) (payload : Bytes) (o : Option (Str × Str)) (w : World)
      → Guarded (MaySend env src_addr) (route_named env src_addr id payload o) w
  unfolding Guarded route_named send_to_holder target_of ◌>>=◌
  route_named-Guarded id payload none w = tt
  route_named-Guarded id payload (some (remote_ufrag, local_ufrag)) w =
      send_to_target-Guarded payload _ _ (target_at-Willing env _ src_addr _)

  route_check-Guarded :
      (id : ℕ) (payload : Bytes) (inner : Option StunInfo) (w : World)
      → Guarded (MaySend env src_addr) (route_check env src_addr id payload inner) w
  unfolding Guarded route_check
  route_check-Guarded id payload none w = tt
  route_check-Guarded id payload (some inner) w =
      if-Guarded (MaySend env src_addr) (not (is_binding_request inner)) _ _ w (λ _. tt)
        λ _. route_named-Guarded id payload (parse_ice_username inner) w

  send_all-Guarded :
      (targets : List SocketAddr) (packet : Bytes) (w : World)
      → All (IsWillingClient env w.table) targets
      → Guarded (MaySend env src_addr) (send_all targets packet >>= λ _. pure true) w
  unfolding Guarded send_all ◌>>=◌
  send_all-Guarded [] packet w h = tt
  send_all-Guarded (target ∷ targets) packet w (here, h) =
      (to_client here, send_all-Guarded targets packet _ h)

  send_indication_all-Guarded :
      (targets : List SocketAddr) (payload : Bytes) (w : World)
      → All (IsWillingClient env w.table) targets
      → Guarded (MaySend env src_addr) (send_indication_all env targets payload) w
  unfolding Guarded indication ◌>>=◌
  send_indication_all-Guarded [] payload w h = tt
  send_indication_all-Guarded (target ∷ targets) payload w h =
      lift-Guarded (MaySend env src_addr)
        (build_data_indication (relay_addr env) payload (env.txn_id (length w.sent))) _ w
        λ packet. send_all-Guarded (target ∷ targets) packet w h

  unless_sent-Guarded :
      (b : Bool) (payload : Bytes) (w : World)
      → Guarded (MaySend env src_addr) (unless_sent env b (route_by_pair env src_addr payload)) w
  unfolding Guarded route_by_pair ◌>>=◌
  unless_sent-Guarded true payload w = tt
  unless_sent-Guarded false payload w =
      send_indication_all-Guarded _ payload w (clients_of-All env w.table src_addr _)

  abbrev touches : Bool → Io Unit
  touches sent = do
    call_by_client src_addr (touch_received_op env.now)
    when sent (call_by_client src_addr (touch_relay_success_op env.now))

  send_internally-Guarded :
      (id : ℕ) (payload : Bytes) (w : World)
      → Guarded (MaySend env src_addr) (send_internally env src_addr id payload) w
  unfolding Guarded send_internally
  send_internally-Guarded id payload w =
      lift-Guarded (MaySend env src_addr) (parse payload) _ w λ inner.
        Guarded->>= (MaySend env src_addr) (route_check env src_addr id payload inner)
          (λ routed. unless_sent env routed (route_by_pair env src_addr payload) >>= touches) w
          (route_check-Guarded id payload inner w)
          λ routed v.
            Guarded->>= (MaySend env src_addr)
              (unless_sent env routed (route_by_pair env src_addr payload)) touches v
              (unless_sent-Guarded routed payload v)
              λ sent u.
                Guarded->>= (MaySend env src_addr)
                  (call_by_client src_addr (touch_received_op env.now))
                  (λ _. when sent (call_by_client src_addr (touch_relay_success_op env.now))) u
                  (call_by_client-Guarded src_addr _ u) λ _ x. finished sent x
    where
      finished :
          (sent : Bool) (x : World)
          → Guarded
              (MaySend env src_addr)
              (when sent (call_by_client src_addr (touch_relay_success_op env.now)))
              x
      finished true x = call_by_client-Guarded src_addr _ x
      finished false x = tt

  send_internally_if-Guarded :
      (payload : Option Bytes) (found : Option Allocation) (w : World)
      → Guarded (MaySend env src_addr) (send_internally_if env src_addr payload found) w
  unfolding Guarded
  send_internally_if-Guarded payload none w = tt
  send_internally_if-Guarded none (some a) w = tt
  send_internally_if-Guarded (some payload) (some a) w =
      if-Guarded (MaySend env src_addr) (not (may_relay env a)) _ _ w (λ _. tt)
        λ _. send_internally-Guarded a.id payload w

  deliver_target-Guarded :
      (target : SendTarget) (peer_addr : SocketAddr) (payload : Bytes) (w : World)
      → IsPermittedPeer env src_addr w.table peer_addr
      → Guarded (MaySend env src_addr) (deliver_target env target src_addr peer_addr payload) w
  unfolding Guarded deliver_target indication ◌>>=◌
  deliver_target-Guarded drop peer_addr payload w h = tt
  deliver_target-Guarded external peer_addr payload w h = (to_peer h, tt)
  deliver_target-Guarded (local id none) peer_addr payload w h =
      lift-Guarded (MaySend env src_addr)
        (build_data_indication src_addr payload (env.txn_id (length w.sent))) _ w
        λ packet. (to_peer h, tt)
  deliver_target-Guarded (local id (some channel)) peer_addr payload w h = (to_peer h, tt)

  send_payload-Guarded :
      (peer_addr : SocketAddr) (payload : Bytes) (found : Option Allocation) (w : World)
      → get_by_client w.table src_addr ≡ found
      → is_forbidden_peer_addr env.config peer_addr ≡ false
      → Guarded (MaySend env src_addr) (send_payload env src_addr peer_addr payload found) w
  unfolding Guarded send_payload ◌>>=◌
  send_payload-Guarded peer_addr payload none w e fine = tt
  send_payload-Guarded peer_addr payload (some a) w e fine =
      if-Guarded (MaySend env src_addr) (not (is_permitted env.now a peer_addr.ip)) _ _ w (λ _. tt)
        λ granted.
          Guarded->>= (MaySend env src_addr)
            (deliver_target env (classify_send_target env w.table src_addr peer_addr) src_addr
              peer_addr payload)
            (λ relayed. when relayed (call_by_client src_addr (touch_received_op env.now))) w
            (deliver_target-Guarded (classify_send_target env w.table src_addr peer_addr) peer_addr
              payload w
              (record {
                sender = a;
                found = e;
                permitted = ground (arith, granted);
                not_forbidden = fine;
              }))
            λ relayed v. finished relayed v
    where
      finished :
          (relayed : Bool) (x : World)
          → Guarded
              (MaySend env src_addr)
              (when relayed (call_by_client src_addr (touch_received_op env.now)))
              x
      finished true x = call_by_client-Guarded src_addr _ x
      finished false x = tt

  send_to_peer-Guarded :
      (payload : Option Bytes) (peer_addr : SocketAddr) (w : World)
      → is_forbidden_peer_addr env.config peer_addr ≡ false
      → Guarded (MaySend env src_addr) (send_to_peer env payload src_addr peer_addr) w
  unfolding Guarded send_to_peer ◌>>=◌
  send_to_peer-Guarded none peer_addr w fine = tt
  send_to_peer-Guarded (some payload) peer_addr w fine =
      send_payload-Guarded peer_addr payload _ w refl fine

  send_first-Guarded :
      (msg : StunInfo) (peers : List SocketAddr) (w : World)
      → Guarded (MaySend env src_addr) (send_first env msg src_addr peers) w
  unfolding Guarded send_first send_to_self ◌>>=◌
  send_first-Guarded msg [] w = tt
  send_first-Guarded msg (peer_addr ∷ peers) w =
      if-Guarded (MaySend env src_addr) (is_forbidden_peer_addr env.config peer_addr) _ _ w
        (λ _. tt)
        λ fine.
          if-Guarded (MaySend env src_addr) (peer_addr =? relay_addr env) _ _ w
            (λ _. send_internally_if-Guarded msg.payload _ w)
            λ _. send_to_peer-Guarded msg.payload peer_addr w fine

-- Whatever a Send indication asks, and in whatever state: each datagram that goes out because of it
-- goes to an address which the sender's allocation permits at that moment and which is not a
-- forbidden one, or else to a client whose allocation permits the relay address.
pub handle_send-Guarded :
    (env : Env) (msg : StunInfo) (src_addr : SocketAddr) (w : World)
    → Guarded (MaySend env src_addr) (handle_send env msg src_addr) w
unfolding Guarded handle_send ◌>>=◌
handle_send-Guarded env msg src_addr w =
    if-Guarded (MaySend env src_addr) (not (is_client w.table src_addr)) _ _ w (λ _. tt)
      λ _. send_first-Guarded env src_addr msg msg.xor_peer_addresses w
