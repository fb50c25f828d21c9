-- ===== src/Server/Relay/Channel.antt =====
-- src/relay/engine.rs: ChannelData of clients, to the relay address itself, to another client of
-- this server, or out.
use uturn.Common.{ℕ, Bool, true, false, not, Option, none, some, List, [], ◌∷◌, ◌=?◌, if◌then◌else◌}
use uturn.Common.Bytes.{Bytes, Str}
use uturn.Addr.{SocketAddr, socket_key}
use uturn.Lookup.Allocation.{Allocation, is_permitted, channel_for_peer, peer_for_channel}
use uturn.Lookup.Table.{AllocationTable, get, get_by_client, lookup_by_ice_ufrag, find_ice_peers}
use uturn.Lookup.Table.Steps.{register_ufrags_op, touch_received_op}
use uturn.Server.State.{
  Env, Io, pure, ◌>>=◌, ◌>>◌, skip, reads, lift, operate, call_on, send_to, relay_addr,
}
use uturn.Server.Relay.Delivery.{
  Delivery, deliver, deliver_all, touch_id, touch_relay, sender_ufrags,
}
use uturn.Server.Relay.Inspect.{is_stun, extract_stun_ufrags}
use uturn.Server.Turn.Binding.{may_relay, peers_of}
use uturn.Turn.Peers.{is_forbidden_peer_addr}

module _ (env : Env) where
  -- Another client than the sender
  abbrev pub delivery_to : SocketAddr → ℕ → Option Allocation → Option Delivery
  delivery_to src_addr id none = none
  delivery_to src_addr id (some t) =
      if t.client_addr =? src_addr
      then none
      else some (record {
        id = id;
        client_addr = t.client_addr;
        channel = channel_for_peer env.now t (relay_addr env);
      })

  abbrev pub cons_some : Option Delivery → List Delivery → List Delivery
  cons_some none rest = rest
  cons_some (some d) rest = d ∷ rest

  unfoldable pub listener_deliveries : AllocationTable → SocketAddr → List ℕ → List Delivery
  unfolding get channel_for_peer
  listener_deliveries t src_addr [] = []
  listener_deliveries t src_addr (id ∷ ids) =
      cons_some (delivery_to src_addr id (get t id)) (listener_deliveries t src_addr ids)

  unfoldable pub relay_to_listeners : Bytes → SocketAddr → List ℕ → Io Bool
  unfolding ◌>>=◌ listener_deliveries deliver_all
  relay_to_listeners payload src_addr listeners = do
    deliveries ← reads (λ t. listener_deliveries t src_addr listeners)
    deliver_all env deliveries (relay_addr env) payload

  unfoldable pub delivery_at : AllocationTable → SocketAddr → Option ℕ → Option Delivery
  unfolding get channel_for_peer
  delivery_at t src_addr none = none
  delivery_at t src_addr (some target_id) = delivery_to src_addr target_id (get t target_id)

  unfoldable pub holder_delivery : AllocationTable → SocketAddr → Str → Option Delivery
  unfolding lookup_by_ice_ufrag delivery_at
  holder_delivery t src_addr remote_ufrag =
      delivery_at t src_addr (lookup_by_ice_ufrag t remote_ufrag)

  abbrev pub deliver_if : Bytes → Option Delivery → Io Bool
  deliver_if payload none = pure false
  deliver_if payload (some d) = do
    deliver env d (relay_addr env) payload
    touch_id env d.id
    pure true

  -- Try 1: by the USERNAME; whether it was sent.
  unfoldable pub try_holder : ℕ → SocketAddr → Bytes → Option (Str × Str) → Io Bool
  unfolding ◌>>=◌ holder_delivery deliver
  try_holder alloc_id src_addr payload none = pure false
  try_holder alloc_id src_addr payload (some (remote_ufrag, local_ufrag)) = do
    operate (register_ufrags_op alloc_id local_ufrag remote_ufrag)
    target ← reads (λ t. holder_delivery t src_addr remote_ufrag)
    deliver_if payload target

  -- `find_ice_peers` of the sender's fragments
  unfoldable pub paired : AllocationTable → ℕ → List ℕ
  unfolding sender_ufrags find_ice_peers
  paired t alloc_id = let (l, r) = sender_ufrags env t alloc_id in peers_of t l r

  -- Try 2: by the pair. Without a peer there is nothing to deliver.
  unfoldable pub relay_stun : ℕ → SocketAddr → Bytes → Io Unit
  unfolding ◌>>=◌ lift extract_stun_ufrags try_holder paired relay_to_listeners
  relay_stun alloc_id src_addr payload = do
    ufrags ← lift (extract_stun_ufrags payload)
    sent ← try_holder alloc_id src_addr payload ufrags
    if sent then skip else do
      peers ← reads (λ t. paired t alloc_id)
      relay_to_listeners payload src_addr peers
      skip

  abbrev pub media_to : ℕ → SocketAddr → Bytes → List ℕ → Io Unit
  media_to alloc_id src_addr payload [] = touch_relay env alloc_id false
  media_to alloc_id src_addr payload (peer ∷ more) = do
    relayed ← relay_to_listeners payload src_addr (peer ∷ more)
    touch_relay env alloc_id relayed

  unfoldable pub relay_media : ℕ → SocketAddr → Bytes → Io Unit
  unfolding ◌>>=◌ paired relay_to_listeners touch_relay
  relay_media alloc_id src_addr payload = do
    peers ← reads (λ t. paired t alloc_id)
    media_to alloc_id src_addr payload peers

  -- To the relay address: another client of this server
  unfoldable pub relay_inside : ℕ → SocketAddr → Bytes → Io Unit
  unfolding ◌>>=◌ lift is_stun relay_stun relay_media
  relay_inside alloc_id src_addr payload = do
    stun ← lift (is_stun payload)
    if stun then relay_stun alloc_id src_addr payload else relay_media alloc_id src_addr payload

  abbrev pub touch_sender : ℕ → Io Unit
  touch_sender alloc_id = call_on alloc_id (touch_received_op env.now)

  abbrev pub reverse_delivery : SocketAddr → Allocation → Delivery
  reverse_delivery src_addr t = record {
    id = t.id;
    client_addr = t.client_addr;
    channel = channel_for_peer env.now t src_addr;
  }

  -- To the client at the peer's address, or out to the peer
  unfoldable pub forward : ℕ → SocketAddr → SocketAddr → Bytes → Option Allocation → Io Unit
  unfolding ◌>>=◌ is_permitted channel_for_peer deliver is_forbidden_peer_addr
  forward alloc_id src_addr peer_addr payload (some t) = if not (may_relay env t) then skip else do
    deliver env (reverse_delivery src_addr t) src_addr payload
    touch_id env t.id
    touch_sender alloc_id
  forward alloc_id src_addr peer_addr payload none =
      if is_forbidden_peer_addr env.config peer_addr
      then skip
      else do send_to peer_addr payload; touch_sender alloc_id

  -- To any other address; only a payload that was sent counts as activity of the sender's.
  unfoldable pub relay_outside : ℕ → SocketAddr → SocketAddr → Bytes → Io Unit
  unfolding ◌>>=◌ get_by_client forward
  relay_outside alloc_id src_addr peer_addr payload = if peer_addr =? src_addr then skip else do
    target ← reads (λ t. get_by_client t peer_addr)
    forward alloc_id src_addr peer_addr payload target

  unfoldable pub relay_from : Allocation → SocketAddr → SocketAddr → Bytes → Io Unit
  unfolding ◌>>=◌ relay_inside relay_outside is_permitted
  relay_from a src_addr peer_addr payload =
      if not (is_permitted env.now a peer_addr.ip)
      then skip
      else if peer_addr =? relay_addr env
      then relay_inside a.id src_addr payload >> touch_sender a.id
      else relay_outside a.id src_addr peer_addr payload

  abbrev pub relay_to_bound : Allocation → SocketAddr → Bytes → Option SocketAddr → Io Unit
  relay_to_bound a src_addr payload none = skip
  relay_to_bound a src_addr payload (some peer_addr) = relay_from a src_addr peer_addr payload

  abbrev pub relay_of : ℕ → Bytes → SocketAddr → Option Allocation → Io Unit
  relay_of channel payload src_addr none = skip
  relay_of channel payload src_addr (some a) =
      relay_to_bound a src_addr payload (peer_for_channel env.now a channel)

  unfoldable pub handle_channel_data : ℕ → Bytes → SocketAddr → Io Unit
  unfolding ◌>>=◌ get_by_client peer_for_channel relay_from
  handle_channel_data channel payload src_addr = do
    found ← reads (λ t. get_by_client t src_addr)
    relay_of channel payload src_addr found
