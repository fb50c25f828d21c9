-- ===== src/Server/Packets.antt =====
-- src/server.rs: one packet, one round of the cleanup task, and the server's life as a sequence of
-- the two. The socket's set-up, the timers and the logging are not modelled.
pub mod History
use uturn.Common.{
  ℕ, Bool, true, false, not, ◌&&◌, Option, none, some, List, [], ◌∷◌, ◌=?◌, length, if◌then◌else◌,
}
use uturn.Common.Bytes.{Bytes, Str}
use uturn.Addr.{IpAddr, SocketAddr, socket_key}
use uturn.Config.{Config}
use uturn.Demux.Protocol.{PacketType, stun, dtls, turn_channel_data, rtp, rtcp, unknown, classify}
use uturn.Lookup.Allocation.{Allocation, is_permitted}
use uturn.Lookup.RateLimit.{new_limiter}
use uturn.Lookup.RateLimit.Quota.{deallocates, cleans}
use uturn.Lookup.Table.{
  AllocationTable, new_table, get, get_by_client, is_client, lookup_by_peer_addr, find_ice_peers,
}
use uturn.Lookup.Table.Removal.{cleanup_expired, cleanup_inactive, cleanup_orphaned_senders}
use uturn.Lookup.Table.Steps.{
  Op, touch_op, expired_op, inactive_op, orphaned_op, channels_op, permissions_op,
}
use uturn.Server.State.{
  Env, World, Io, pure, look, on_table, ◌>>=◌, ◌>>◌, skip, reads, lift, operate, limit, call_on,
  send_to, relay_addr, evaluate,
}
use uturn.Server.Frames.{server_indication}
use uturn.Server.Relay.Channel.{handle_channel_data}
use uturn.Server.Relay.Delivery.{touch_relay}
use uturn.Server.Relay.Peers.{handle_peer_data, handle_rtp, handle_rtcp, handle_dtls}
use uturn.Server.Turn.{handle_stun}
use uturn.Server.Turn.Binding.{may_relay, peers_of}

abbrev pub inactivity_timeout_secs : ℕ
inactivity_timeout_secs = 45

module _ (env : Env) where
  abbrev pub target_if :
      SocketAddr → ℕ → Option Allocation → List (ℕ × SocketAddr) → List (ℕ × SocketAddr)
  target_if src_addr id none rest = rest
  target_if src_addr id (some target) rest =
      if not (target.client_addr =? src_addr) && may_relay env target
      then (id, target.client_addr) ∷ rest
      else rest

  unfoldable pub targets_of : AllocationTable → SocketAddr → List ℕ → List (ℕ × SocketAddr)
  unfolding get is_permitted
  targets_of t src_addr [] = []
  targets_of t src_addr (id ∷ ids) = target_if src_addr id (get t id) (targets_of t src_addr ids)

  -- Each target is touched when its datagram is out; whether there was one.
  unfoldable pub send_each : List (ℕ × SocketAddr) → Bytes → Io Bool
  unfolding ◌>>=◌
  send_each [] packet = pure false
  send_each ((id, addr) ∷ targets) packet = do
    send_to addr packet
    call_on id (touch_op env.now)
    send_each targets packet
    pure true

  unfoldable pub relay_to_peers : ℕ → SocketAddr → List ℕ → Bytes → Io Unit
  unfolding ◌>>=◌ lift targets_of server_indication send_each touch_relay
  relay_to_peers sender_id src_addr peers payload = do
    targets ← reads (λ t. targets_of t src_addr peers)
    packet ←
        look (λ w. lift (server_indication (relay_addr env) payload (env.txn_id (length w.sent))))
    relayed ← send_each targets packet
    touch_relay env sender_id relayed

  abbrev pub relay_or_touch : ℕ → SocketAddr → Bytes → List ℕ → Io Unit
  relay_or_touch sender_id src_addr payload [] = touch_relay env sender_id false
  relay_or_touch sender_id src_addr payload (peer ∷ more) =
      relay_to_peers sender_id src_addr (peer ∷ more) payload

  abbrev pub relay_data_of : Bytes → SocketAddr → Option Allocation → Io Unit
  relay_data_of payload src_addr none = skip
  relay_data_of payload src_addr (some a) = if not (may_relay env a) then skip else do
    peers ← reads (λ t. peers_of t a.ice_ufrag a.ice_remote_ufrag)
    relay_or_touch a.id src_addr payload peers

  unfoldable pub relay_client_data : Bytes → SocketAddr → Io Unit
  unfolding ◌>>=◌ get_by_client find_ice_peers touch_relay relay_to_peers is_permitted
  relay_client_data payload src_addr = do
    found ← reads (λ t. get_by_client t src_addr)
    relay_data_of payload src_addr found

  abbrev pub if_known : List ℕ → Io Unit → Io Unit
  if_known [] from_peer = skip
  if_known (_ ∷ _) from_peer = from_peer

  -- From a client: to its ICE peer. From a peer that someone permits: to the engine.
  unfoldable pub relay_or : Bool → Bytes → SocketAddr → Io Unit → Io Unit
  unfolding ◌>>=◌ relay_client_data lookup_by_peer_addr
  relay_or true payload src_addr from_peer = relay_client_data payload src_addr
  relay_or false payload src_addr from_peer = do
    (candidates, _) ← reads (λ t. lookup_by_peer_addr t src_addr)
    if_known candidates from_peer

  unfoldable pub dispatch : Bool → PacketType → Bytes → SocketAddr → Io Unit
  unfolding handle_stun handle_channel_data relay_or handle_rtp handle_rtcp handle_dtls
      handle_peer_data
  dispatch client (stun msg) packet src_addr = handle_stun env msg src_addr
  dispatch client (turn_channel_data channel payload) packet src_addr =
      handle_channel_data env channel payload src_addr
  dispatch client (rtp ssrc payload) packet src_addr =
      relay_or client payload src_addr (handle_rtp env ssrc payload src_addr)
  dispatch client (rtcp payload) packet src_addr =
      relay_or client payload src_addr (handle_rtcp env payload src_addr)
  dispatch client (dtls payload) packet src_addr =
      relay_or client payload src_addr (handle_dtls env payload src_addr)
  dispatch client unknown packet src_addr =
      relay_or client packet src_addr (handle_peer_data env packet src_addr)

  unfoldable pub handle_packet : Bytes → SocketAddr → Io Unit
  unfolding ◌>>=◌ is_client lift classify dispatch
  handle_packet packet src_addr = do
    client ← reads (λ t. is_client t src_addr)
    packet_type ← lift (classify packet)
    dispatch client packet_type packet src_addr

  -- `for ip in ips { cleanup_rate_limiter.record_deallocation(ip); }`
  unfoldable pub record_deallocations : List IpAddr → Io Unit
  unfolding ◌>>=◌
  record_deallocations [] = skip
  record_deallocations (ip ∷ ips) = do limit (deallocates ip env.instant); record_deallocations ips

  -- A pass that reports the addresses whose allocations it dropped
  unfoldable pub reap_and_release : Op → (AllocationTable → List IpAddr) → Io Unit
  unfolding record_deallocations
  reap_and_release op dropped = look λ w. on_table op (record_deallocations (dropped w.table))

  unfoldable pub cleanup_tick : Io Unit
  unfolding ◌>>=◌ reap_and_release cleanup_expired cleanup_inactive cleanup_orphaned_senders
  cleanup_tick = do
    reap_and_release (expired_op env.now) (λ t. (cleanup_expired env.now t).1)
    reap_and_release (inactive_op env.now inactivity_timeout_secs)
        (λ t. (cleanup_inactive env.now t inactivity_timeout_secs).1)
    reap_and_release (orphaned_op env.now inactivity_timeout_secs)
        (λ t. (cleanup_orphaned_senders env.now t inactivity_timeout_secs).1)
    operate (channels_op env.now)
    operate (permissions_op env.now)
    limit (cleans env.instant)

-- `Server::new`
unfoldable pub new_world : Config → World
unfolding new_table new_limiter
new_world config = record {
  table = new_table;
  limiter = new_limiter config.rate_limit_per_minute config.max_allocations_per_ip;
  sent = [];
}

-- What the two tasks of a server do: a packet is handled, or a round of the cleanup runs.
pub data Event : Type 0 where
  received : Env → Bytes → SocketAddr → Event
  tick : Env → Event

unfoldable pub serve_one : Event → World → World
unfolding evaluate handle_packet cleanup_tick
serve_one (received env packet src_addr) w = (evaluate env (handle_packet env packet src_addr) w).0
serve_one (tick env) w = (evaluate env (cleanup_tick env) w).0

unfoldable pub serve : List Event → World → World
unfolding serve_one
serve [] w = w
serve (event ∷ events) w = serve events (serve_one event w)
