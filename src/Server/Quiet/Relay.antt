-- ===== src/Server/Quiet/Relay.antt =====
-- src/relay/engine.rs: what ChannelData and the packets of peers do is quiet.
use uturn.Common.{ℕ, Bool, true, false, Option, none, some, List, [], ◌∷◌}
use uturn.Common.Bytes.{Bytes, Str}
use uturn.Addr.{SocketAddr, socket_key}
use uturn.Lookup.Allocation.{Allocation}
use uturn.Server.Quiet.{IsQuiet, IsQuiet->>=, quiet_rules}
use uturn.Server.Relay.Channel.{
  relay_to_listeners, deliver_if, try_holder, relay_stun, media_to, relay_media, relay_inside,
  forward, relay_outside, relay_from, relay_to_bound, relay_of, handle_channel_data,
}
use uturn.Server.Relay.Delivery.{
  Delivery, send_channel_data, send_data_indication, deliver_by, deliver, touch_relay, deliver_all,
}
use uturn.Server.Relay.Peers.{
  snapshot_to, register_only, register_unique, peer_data_to, handle_peer_data, narrow, relay_rtp,
  rtp_to, handle_rtp, choose, chosen_to, handle_rtcp, handle_dtls,
}
use uturn.Server.State.{Env}

module _ (env : Env) where
  deliver_by-IsQuiet :
      (channel : Option ℕ) (addr peer_addr : SocketAddr) (payload : Bytes)
      → IsQuiet (deliver_by env channel addr peer_addr payload)
  unfolding deliver_by send_channel_data send_data_indication
  deliver_by-IsQuiet (some channel) addr peer_addr payload = search quiet_rules
  deliver_by-IsQuiet none addr peer_addr payload = search quiet_rules

  deliver-IsQuiet :
      (d : Delivery) (peer_addr : SocketAddr) (payload : Bytes)
      → IsQuiet (deliver env d peer_addr payload)
  unfolding deliver
  deliver-IsQuiet d peer_addr payload = deliver_by-IsQuiet d.channel d.client_addr peer_addr payload

  pub touch_relay-IsQuiet : (id : ℕ) (relayed : Bool) → IsQuiet (touch_relay env id relayed)
  unfolding touch_relay IsQuiet
  touch_relay-IsQuiet id relayed = search quiet_rules

  deliver_all-IsQuiet :
      (ds : List Delivery) (peer_addr : SocketAddr) (payload : Bytes)
      → IsQuiet (deliver_all env ds peer_addr payload)
  unfolding deliver_all IsQuiet
  deliver_all-IsQuiet [] peer_addr payload = tt
  deliver_all-IsQuiet (d ∷ ds) peer_addr payload =
      search (quiet_rules, deliver-IsQuiet, deliver_all-IsQuiet ds peer_addr payload) depth 10

  relay_to_listeners-IsQuiet :
      (payload : Bytes) (src_addr : SocketAddr) (ids : List ℕ)
      → IsQuiet (relay_to_listeners env payload src_addr ids)
  unfolding relay_to_listeners
  relay_to_listeners-IsQuiet payload src_addr ids = search (quiet_rules, deliver_all-IsQuiet)

  deliver_if-IsQuiet : (payload : Bytes) (o : Option Delivery) → IsQuiet (deliver_if env payload o)
  unfolding IsQuiet
  deliver_if-IsQuiet payload none = tt
  deliver_if-IsQuiet payload (some d) = search (quiet_rules, deliver-IsQuiet) depth 10

  try_holder-IsQuiet :
      (id : ℕ) (src_addr : SocketAddr) (payload : Bytes) (o : Option (Str × Str))
      → IsQuiet (try_holder env id src_addr payload o)
  unfolding try_holder IsQuiet
  try_holder-IsQuiet id src_addr payload none = tt
  try_holder-IsQuiet id src_addr payload (some (r, l)) = search (quiet_rules, deliver_if-IsQuiet)

  relay_stun-IsQuiet :
      (id : ℕ) (src_addr : SocketAddr) (payload : Bytes)
      → IsQuiet (relay_stun env id src_addr payload)
  unfolding relay_stun
  relay_stun-IsQuiet id src_addr payload =
      search (quiet_rules, try_holder-IsQuiet, relay_to_listeners-IsQuiet) depth 12

  media_to-IsQuiet :
      (id : ℕ) (src_addr : SocketAddr) (payload : Bytes) (ids : List ℕ)
      → IsQuiet (media_to env id src_addr payload ids)
  media_to-IsQuiet id src_addr payload [] = touch_relay-IsQuiet id false
  media_to-IsQuiet id src_addr payload (peer ∷ more) =
      search (quiet_rules, relay_to_listeners-IsQuiet, touch_relay-IsQuiet)

  relay_inside-IsQuiet :
      (id : ℕ) (src_addr : SocketAddr) (payload : Bytes)
      → IsQuiet (relay_inside env id src_addr payload)
  unfolding relay_inside relay_media
  relay_inside-IsQuiet id src_addr payload =
      search (quiet_rules, relay_stun-IsQuiet, media_to-IsQuiet) depth 10

  forward-IsQuiet :
      (id : ℕ) (src_addr peer_addr : SocketAddr) (payload : Bytes) (o : Option Allocation)
      → IsQuiet (forward env id src_addr peer_addr payload o)
  unfolding forward IsQuiet
  forward-IsQuiet id src_addr peer_addr payload none = search quiet_rules depth 10
  forward-IsQuiet id src_addr peer_addr payload (some t) =
      search (quiet_rules, deliver-IsQuiet) depth 12

  relay_from-IsQuiet :
      (a : Allocation) (src_addr peer_addr : SocketAddr) (payload : Bytes)
      → IsQuiet (relay_from env a src_addr peer_addr payload)
  unfolding relay_from relay_outside IsQuiet
  relay_from-IsQuiet a src_addr peer_addr payload =
      search (quiet_rules, relay_inside-IsQuiet, forward-IsQuiet) depth 12

  relay_to_bound-IsQuiet :
      (a : Allocation) (src_addr : SocketAddr) (payload : Bytes) (o : Option SocketAddr)
      → IsQuiet (relay_to_bound env a src_addr payload o)
  relay_to_bound-IsQuiet a src_addr payload none = search quiet_rules
  relay_to_bound-IsQuiet a src_addr payload (some peer_addr) =
      relay_from-IsQuiet a src_addr peer_addr payload

  relay_of-IsQuiet :
      (channel : ℕ) (payload : Bytes) (src_addr : SocketAddr) (o : Option Allocation)
      → IsQuiet (relay_of env channel payload src_addr o)
  relay_of-IsQuiet channel payload src_addr none = search quiet_rules
  relay_of-IsQuiet channel payload src_addr (some a) = relay_to_bound-IsQuiet a src_addr payload _

  pub handle_channel_data-IsQuiet :
      (channel : ℕ) (payload : Bytes) (src_addr : SocketAddr)
      → IsQuiet (handle_channel_data env channel payload src_addr)
  unfolding handle_channel_data
  handle_channel_data-IsQuiet channel payload src_addr = search (quiet_rules, relay_of-IsQuiet)

  register_only-IsQuiet :
      (ids : List ℕ) (peer_addr : SocketAddr) → IsQuiet (register_only env ids peer_addr)
  unfolding IsQuiet
  register_only-IsQuiet [] peer_addr = tt
  register_only-IsQuiet (id ∷ []) peer_addr = (tt, tt)
  register_only-IsQuiet (id ∷ next ∷ ids) peer_addr = tt

  register_unique-IsQuiet :
      (is_unique : Bool) (first : ℕ) (peer_addr : SocketAddr)
      → IsQuiet (register_unique env is_unique first peer_addr)
  unfolding IsQuiet
  register_unique-IsQuiet true first peer_addr = (tt, tt)
  register_unique-IsQuiet false first peer_addr = tt

  snapshot_to-IsQuiet :
      (ids : List ℕ) (peer_addr : SocketAddr) (skip_same_ip use_channels : Bool) (payload : Bytes)
      → IsQuiet (snapshot_to env ids peer_addr skip_same_ip use_channels payload)
  snapshot_to-IsQuiet ids peer_addr skip_same_ip use_channels payload =
      search (quiet_rules, deliver_all-IsQuiet)

  peer_data_to-IsQuiet :
      (ids : List ℕ) (is_unique : Bool) (payload : Bytes) (peer_addr : SocketAddr)
      → IsQuiet (peer_data_to env ids is_unique payload peer_addr)
  peer_data_to-IsQuiet [] is_unique payload peer_addr = search quiet_rules
  peer_data_to-IsQuiet (first ∷ ids) is_unique payload peer_addr =
      search (quiet_rules, register_unique-IsQuiet, snapshot_to-IsQuiet)

  narrow-IsQuiet : (ids : List ℕ) (peer_addr : SocketAddr) → IsQuiet (narrow env ids peer_addr)
  unfolding narrow
  narrow-IsQuiet ids peer_addr = search (quiet_rules, register_only-IsQuiet)

  relay_rtp-IsQuiet :
      (is_unique : Bool) (first : ℕ) (ids : List ℕ) (payload : Bytes) (peer_addr : SocketAddr)
      → IsQuiet (relay_rtp env is_unique first ids payload peer_addr)
  unfolding relay_rtp IsQuiet
  relay_rtp-IsQuiet true first ids payload peer_addr = search (quiet_rules, snapshot_to-IsQuiet)
  relay_rtp-IsQuiet false first ids payload peer_addr =
      IsQuiet->>= (narrow env (first ∷ ids) peer_addr)
        (λ narrowed. snapshot_to env narrowed peer_addr true true payload)
        (narrow-IsQuiet (first ∷ ids) peer_addr)
        λ narrowed. snapshot_to-IsQuiet narrowed peer_addr true true payload

  rtp_to-IsQuiet :
      (ids : List ℕ) (is_unique : Bool) (payload : Bytes) (peer_addr : SocketAddr)
      → IsQuiet (rtp_to env ids is_unique payload peer_addr)
  rtp_to-IsQuiet [] is_unique payload peer_addr = search quiet_rules
  rtp_to-IsQuiet (first ∷ ids) is_unique payload peer_addr =
      relay_rtp-IsQuiet is_unique first ids payload peer_addr

  choose-IsQuiet :
      (is_unique : Bool) (first : ℕ) (ids : List ℕ) (peer_addr : SocketAddr)
      → IsQuiet (choose env is_unique first ids peer_addr)
  unfolding choose IsQuiet
  choose-IsQuiet true first ids peer_addr = search quiet_rules
  choose-IsQuiet false first ids peer_addr = narrow-IsQuiet (first ∷ ids) peer_addr

  chosen_to-IsQuiet :
      (use_channels : Bool) (ids : List ℕ) (is_unique : Bool) (payload : Bytes)
      → (peer_addr : SocketAddr)
      → IsQuiet (chosen_to env use_channels ids is_unique payload peer_addr)
  chosen_to-IsQuiet use_channels [] is_unique payload peer_addr = search quiet_rules
  chosen_to-IsQuiet use_channels (first ∷ ids) is_unique payload peer_addr =
      search (quiet_rules, choose-IsQuiet, snapshot_to-IsQuiet)

  pub handle_rtp-IsQuiet :
      (ssrc : ℕ) (payload : Bytes) (peer_addr : SocketAddr)
      → IsQuiet (handle_rtp env ssrc payload peer_addr)
  unfolding handle_rtp
  handle_rtp-IsQuiet ssrc payload peer_addr = search (quiet_rules, rtp_to-IsQuiet)

  pub handle_rtcp-IsQuiet :
      (payload : Bytes) (peer_addr : SocketAddr) → IsQuiet (handle_rtcp env payload peer_addr)
  unfolding handle_rtcp
  handle_rtcp-IsQuiet payload peer_addr = search (quiet_rules, chosen_to-IsQuiet)

  pub handle_dtls-IsQuiet :
      (payload : Bytes) (peer_addr : SocketAddr) → IsQuiet (handle_dtls env payload peer_addr)
  unfolding handle_dtls
  handle_dtls-IsQuiet payload peer_addr = search (quiet_rules, chosen_to-IsQuiet)

  pub handle_peer_data-IsQuiet :
      (payload : Bytes) (peer_addr : SocketAddr) → IsQuiet (handle_peer_data env payload peer_addr)
  unfolding handle_peer_data
  handle_peer_data-IsQuiet payload peer_addr = search (quiet_rules, peer_data_to-IsQuiet)
