-- ===== src/Server/Books/Serve.antt =====
-- Every packet, and the server's whole life, keep the books balanced.
use uturn.Common.{
  ℕ, ◌+◌, ◌≤◌, ◌<◌, ◌^◌, ◌≡◌, refl, Bool, Option, none, some, List, [], ◌∷◌, arith, nat_key, length,
  length-append, lookup,
}
use uturn.Common.Bytes.{Bytes}
use uturn.Addr.{IpAddr, SocketAddr, ip_key, socket_key}
use uturn.Config.{Config}
use uturn.Demux.Protocol.{PacketType, stun, dtls, turn_channel_data, rtp, rtcp, unknown, classify}
use uturn.Demux.Stun.{
  StunInfo, StunClass, StunMethod, request, indication, success_response, error_response, binding,
  allocate, refresh, create_permission, channel_bind, send, data_method,
}
use uturn.Demux.Stun as Stun
use uturn.Lookup.RateLimit.{allocation_count, u32_max, new_limiter}
use uturn.Lookup.Table.{new_table}
use uturn.Lookup.Table.Census.{census, clients_at}
use uturn.Lookup.Table.Clients.{IsIndexed}
use uturn.Lookup.Table.Reachable.{new_table-IsIndexed, next_id-run}
use uturn.Server.Books.{IsBalanced, IsQuiet-Ends}
use uturn.Server.Books.Allocate.{handle_allocate-Ends}
use uturn.Server.Books.Cleanup.{cleanup_tick-Ends}
use uturn.Server.Books.Refresh.{handle_refresh-Ends}
use uturn.Server.Ends.{evaluate-Ends, Ends, lift-Ends}
use uturn.Server.Packets.{
  cleanup_tick, dispatch, handle_packet, Event, received, tick, new_world, serve_one, serve,
}
use uturn.Server.Packets.History.{event_ops, serve_ops, serve_one-table, serve-Fits}
use uturn.Server.Quiet.{IsQuiet, IsQuiet-pure, quiet_rules}
use uturn.Server.Quiet.Binding.{handle_binding_request-IsQuiet, handle_client_response-IsQuiet}
use uturn.Server.Quiet.Packets.{relay_or-IsQuiet}
use uturn.Server.Quiet.Relay.{
  handle_channel_data-IsQuiet, handle_rtp-IsQuiet, handle_rtcp-IsQuiet, handle_dtls-IsQuiet,
  handle_peer_data-IsQuiet,
}
use uturn.Server.Quiet.Send.{handle_send-IsQuiet}
use uturn.Server.Quiet.Turn.{handle_create_permission-IsQuiet, handle_channel_bind-IsQuiet}
use uturn.Server.State.{Env, World, ◌>>=◌}
use uturn.Server.Turn.{
  handle_request, handle_indication, response_from, handle_response, by_class, handle_stun,
}

module _ (max : ℕ) (on : 0 < max) (fits : max ≤ u32_max) (env : Env) where
  request-Ends :
      (method : StunMethod) (msg : StunInfo) (src_addr : SocketAddr) (w : World)
      → IsBalanced max w.table w.limiter
      → Ends (IsBalanced max) (handle_request env method msg src_addr) w
  unfolding handle_request Ends
  request-Ends binding msg src_addr w h =
      IsQuiet-Ends max _ w (handle_binding_request-IsQuiet env msg src_addr) h
  request-Ends allocate msg src_addr w h = handle_allocate-Ends max on fits env msg src_addr w h
  request-Ends refresh msg src_addr w h = handle_refresh-Ends max env msg src_addr w h
  request-Ends create_permission msg src_addr w h =
      IsQuiet-Ends max _ w (handle_create_permission-IsQuiet env msg src_addr) h
  request-Ends channel_bind msg src_addr w h =
      IsQuiet-Ends max _ w (handle_channel_bind-IsQuiet env msg src_addr) h
  request-Ends send msg src_addr w h = h
  request-Ends data_method msg src_addr w h = h
  request-Ends (Stun.unknown _) msg src_addr w h = h

  indication-IsQuiet :
      (method : StunMethod) (msg : StunInfo) (src_addr : SocketAddr)
      → IsQuiet (handle_indication env method msg src_addr)
  unfolding handle_indication
  indication-IsQuiet send msg src_addr = handle_send-IsQuiet env msg src_addr
  indication-IsQuiet binding msg src_addr = IsQuiet-pure tt
  indication-IsQuiet allocate msg src_addr = IsQuiet-pure tt
  indication-IsQuiet refresh msg src_addr = IsQuiet-pure tt
  indication-IsQuiet create_permission msg src_addr = IsQuiet-pure tt
  indication-IsQuiet channel_bind msg src_addr = IsQuiet-pure tt
  indication-IsQuiet data_method msg src_addr = IsQuiet-pure tt
  indication-IsQuiet (Stun.unknown _) msg src_addr = IsQuiet-pure tt

  response_from-IsQuiet :
      (msg : StunInfo) (src_addr : SocketAddr) (o : Option ℕ)
      → IsQuiet (response_from env msg src_addr o)
  response_from-IsQuiet msg src_addr none = IsQuiet-pure tt
  response_from-IsQuiet msg src_addr (some id) = handle_client_response-IsQuiet env msg src_addr

  response-IsQuiet :
      (msg : StunInfo) (src_addr : SocketAddr) → IsQuiet (handle_response env msg src_addr)
  unfolding handle_response
  response-IsQuiet msg src_addr = search (quiet_rules, response_from-IsQuiet)

  class-Ends :
      (class : StunClass) (msg : StunInfo) (src_addr : SocketAddr) (w : World)
      → IsBalanced max w.table w.limiter
      → Ends (IsBalanced max) (by_class env class msg src_addr) w
  class-Ends request msg src_addr w h = request-Ends msg.method msg src_addr w h
  class-Ends indication msg src_addr w h =
      IsQuiet-Ends max _ w (indication-IsQuiet msg.method msg src_addr) h
  class-Ends success_response msg src_addr w h =
      IsQuiet-Ends max _ w (response-IsQuiet msg src_addr) h
  class-Ends error_response msg src_addr w h =
      IsQuiet-Ends max _ w (response-IsQuiet msg src_addr) h

  dispatch-Ends :
      (client : Bool) (type : PacketType) (packet : Bytes) (src_addr : SocketAddr) (w : World)
      → IsBalanced max w.table w.limiter
      → Ends (IsBalanced max) (dispatch env client type packet src_addr) w
  unfolding dispatch handle_stun
  dispatch-Ends client (stun msg) packet src_addr w h = class-Ends msg.class msg src_addr w h
  dispatch-Ends client (turn_channel_data channel payload) packet src_addr w h =
      IsQuiet-Ends max _ w (handle_channel_data-IsQuiet env channel payload src_addr) h
  dispatch-Ends client (rtp ssrc payload) packet src_addr w h =
      IsQuiet-Ends max _ w
        (relay_or-IsQuiet env client payload src_addr _
          (handle_rtp-IsQuiet env ssrc payload src_addr))
        h
  dispatch-Ends client (rtcp payload) packet src_addr w h =
      IsQuiet-Ends max _ w
        (relay_or-IsQuiet env client payload src_addr _ (handle_rtcp-IsQuiet env payload src_addr))
        h
  dispatch-Ends client (dtls payload) packet src_addr w h =
      IsQuiet-Ends max _ w
        (relay_or-IsQuiet env client payload src_addr _ (handle_dtls-IsQuiet env payload src_addr))
        h
  dispatch-Ends client unknown packet src_addr w h =
      IsQuiet-Ends max _ w
        (relay_or-IsQuiet env client packet src_addr _
          (handle_peer_data-IsQuiet env packet src_addr))
        h

  handle_packet-Ends :
      (packet : Bytes) (src_addr : SocketAddr) (w : World)
      → IsBalanced max w.table w.limiter
      → Ends (IsBalanced max) (handle_packet env packet src_addr) w
  unfolding Ends handle_packet ◌>>=◌
  handle_packet-Ends packet src_addr w h =
      lift-Ends (IsBalanced max) (classify packet) _ w h
        λ packet_type. dispatch-Ends _ packet_type packet src_addr w h

fresh-IsBalanced :
    (config : Config)
    → IsBalanced config.max_allocations_per_ip (new_world config).table (new_world config).limiter
unfolding new_world new_limiter allocation_count census lookup new_table
fresh-IsBalanced config = record {
  limit = refl;
  indexed = new_table-IsIndexed;
  numbered = λ j i e. ground (arith, e);
  counts = λ ip. omega arith;
}

module _ (max : ℕ) (on : 0 < max) (fits : max ≤ u32_max) where
  serve_one-IsBalanced :
      (event : Event) (w : World)
      → IsBalanced max w.table w.limiter
      → w.table.next_id + length (event_ops event w) < 2 ^ 64
      → IsBalanced max (serve_one event w).table (serve_one event w).limiter
  unfolding serve_one event_ops
  serve_one-IsBalanced (received env packet src_addr) w h small =
      evaluate-Ends (IsBalanced max) env (handle_packet env packet src_addr) w h.indexed
        (handle_packet-Ends max on fits env packet src_addr w h) small
  serve_one-IsBalanced (tick env) w h small =
      evaluate-Ends (IsBalanced max) env (cleanup_tick env) w h.indexed
        (cleanup_tick-Ends max env w h) small

  next_id-serve_one :
      (event : Event) (w : World)
      → IsIndexed w.table
      → w.table.next_id + length (event_ops event w) < 2 ^ 64
      → (serve_one event w).table.next_id ≤ w.table.next_id + length (event_ops event w)
  next_id-serve_one event w i small =
      rw (serve_one-table event w) (next_id-run (event_ops event w) w.table i small)

  serve-IsBalanced :
      (events : List Event) (w : World)
      → IsBalanced max w.table w.limiter
      → w.table.next_id + length (serve_ops events w) < 2 ^ 64
      → IsBalanced max (serve events w).table (serve events w).limiter
  unfolding serve serve_ops
  serve-IsBalanced [] w h small = h
  serve-IsBalanced (event ∷ events) w h small =
      let split = length-append (event_ops event w) (serve_ops events (serve_one event w)) in
      let here : w.table.next_id + length (event_ops event w) < 2 ^ 64 = omega (arith, split) in
      serve-IsBalanced events (serve_one event w) (serve_one-IsBalanced event w h here)
        (omega (arith, split, next_id-serve_one event w h.indexed here))

-- Whatever packets a new server receives, and however the cleanup's rounds fall between them: as
-- long as it has made fewer than 2 ^ 64 - 1 operations on the table, and where a quota is set (a
-- number of 32 bits), the limiter's count for an address is exactly the number of the allocations
-- in the table whose client has the address, and is not above the quota. So no slot is lost and
-- none is counted twice, whatever fails on the way.
pub serve-clients_at :
    (config : Config) (events : List Event)
    → 0 < config.max_allocations_per_ip
    → config.max_allocations_per_ip ≤ u32_max
    → 1 + length (serve_ops events (new_world config)) < 2 ^ 64
    → (ip : IpAddr)
    → (allocation_count (serve events (new_world config)).limiter ip
        ≡ clients_at ip (serve events (new_world config)).table)
      × (clients_at ip (serve events (new_world config)).table ≤ config.max_allocations_per_ip)
unfolding new_world new_table allocation_count
serve-clients_at config events on fits small ip =
    let max = config.max_allocations_per_ip in
    let h =
      serve-IsBalanced max on fits events (new_world config) (fresh-IsBalanced config) small in
    let quota = (serve-Fits config events ip).allocations on in
    (omega (arith, h.counts ip), omega (arith, h.counts ip, quota))
