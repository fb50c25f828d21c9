-- ===== src/Server/Quiet/Send.antt =====
-- src/turn/handler.rs: what Send indications do is quiet.
use uturn.Common.{ℕ, Option, none, some, List, [], ◌∷◌}
use uturn.Common.Bytes.{Bytes, Str}
use uturn.Addr.{SocketAddr, socket_key}
use uturn.Demux.Stun.{StunInfo}
use uturn.Lookup.Allocation.{Allocation}
use uturn.Server.Quiet.{IsQuiet, quiet_rules}
use uturn.Server.Quiet.Turn.{indication-IsQuiet}
use uturn.Server.State.{Env}
use uturn.Server.Turn.Send.{
  SendTarget, local, external, drop, send_to_target, send_to_holder, route_named, route_check,
  send_indication_all, route_by_pair, send_internally, send_internally_if, send_to_self, packet_for,
  deliver_target, send_payload, send_to_peer, send_first, handle_send,
}

module _ (env : Env) where
  send_to_target-IsQuiet :
      (payload : Bytes) (o : Option SocketAddr) → IsQuiet (send_to_target env payload o)
  unfolding send_to_target
  send_to_target-IsQuiet payload none = search quiet_rules
  send_to_target-IsQuiet payload (some addr) = search (quiet_rules, indication-IsQuiet)

  send_to_holder-IsQuiet :
      (src_addr : SocketAddr) (payload : Bytes) (remote_ufrag : Str)
      → IsQuiet (send_to_holder env src_addr payload remote_ufrag)
  unfolding send_to_holder
  send_to_holder-IsQuiet src_addr payload remote_ufrag =
      search (quiet_rules, send_to_target-IsQuiet)

  route_named-IsQuiet :
      (src_addr : SocketAddr) (id : ℕ) (payload : Bytes) (o : Option (Str × Str))
      → IsQuiet (route_named env src_addr id payload o)
  unfolding route_named IsQuiet
  route_named-IsQuiet src_addr id payload none = tt
  route_named-IsQuiet src_addr id payload (some (r, l)) =
      search (quiet_rules, send_to_holder-IsQuiet)

  route_check-IsQuiet :
      (src_addr : SocketAddr) (id : ℕ) (payload : Bytes) (inner : Option StunInfo)
      → IsQuiet (route_check env src_addr id payload inner)
  unfolding route_check
  route_check-IsQuiet src_addr id payload none = search quiet_rules
  route_check-IsQuiet src_addr id payload (some inner) = search (quiet_rules, route_named-IsQuiet)

  send_indication_all-IsQuiet :
      (targets : List SocketAddr) (payload : Bytes)
      → IsQuiet (send_indication_all env targets payload)
  send_indication_all-IsQuiet [] payload = search quiet_rules
  send_indication_all-IsQuiet (target ∷ targets) payload = search (quiet_rules, indication-IsQuiet)

  route_by_pair-IsQuiet :
      (src_addr : SocketAddr) (payload : Bytes) → IsQuiet (route_by_pair env src_addr payload)
  unfolding route_by_pair
  route_by_pair-IsQuiet src_addr payload = search (quiet_rules, send_indication_all-IsQuiet)

  send_internally-IsQuiet :
      (src_addr : SocketAddr) (id : ℕ) (payload : Bytes)
      → IsQuiet (send_internally env src_addr id payload)
  unfolding send_internally
  send_internally-IsQuiet src_addr id payload =
      search (quiet_rules, route_check-IsQuiet, route_by_pair-IsQuiet) depth 12

  send_internally_if-IsQuiet :
      (src_addr : SocketAddr) (payload : Option Bytes) (found : Option Allocation)
      → IsQuiet (send_internally_if env src_addr payload found)
  send_internally_if-IsQuiet src_addr payload none = search quiet_rules
  send_internally_if-IsQuiet src_addr none (some a) = search quiet_rules
  send_internally_if-IsQuiet src_addr (some payload) (some a) =
      search (quiet_rules, send_internally-IsQuiet)

  packet_for-IsQuiet :
      (src_addr : SocketAddr) (payload : Bytes) (channel : Option ℕ)
      → IsQuiet (packet_for env src_addr payload channel)
  packet_for-IsQuiet src_addr payload none = indication-IsQuiet env src_addr payload
  packet_for-IsQuiet src_addr payload (some channel) = search quiet_rules

  deliver_target-IsQuiet :
      (target : SendTarget) (src_addr peer_addr : SocketAddr) (payload : Bytes)
      → IsQuiet (deliver_target env target src_addr peer_addr payload)
  unfolding deliver_target IsQuiet
  deliver_target-IsQuiet drop src_addr peer_addr payload = tt
  deliver_target-IsQuiet external src_addr peer_addr payload = search quiet_rules
  deliver_target-IsQuiet (local id channel) src_addr peer_addr payload =
      search (quiet_rules, packet_for-IsQuiet) depth 10

  send_payload-IsQuiet :
      (src_addr peer_addr : SocketAddr) (payload : Bytes) (found : Option Allocation)
      → IsQuiet (send_payload env src_addr peer_addr payload found)
  unfolding send_payload
  send_payload-IsQuiet src_addr peer_addr payload none = search quiet_rules
  send_payload-IsQuiet src_addr peer_addr payload (some a) =
      search (quiet_rules, deliver_target-IsQuiet) depth 10

  send_to_peer-IsQuiet :
      (payload : Option Bytes) (src_addr peer_addr : SocketAddr)
      → IsQuiet (send_to_peer env payload src_addr peer_addr)
  unfolding send_to_peer
  send_to_peer-IsQuiet none src_addr peer_addr = search quiet_rules
  send_to_peer-IsQuiet (some payload) src_addr peer_addr =
      search (quiet_rules, send_payload-IsQuiet)

  send_first-IsQuiet :
      (msg : StunInfo) (src_addr : SocketAddr) (peers : List SocketAddr)
      → IsQuiet (send_first env msg src_addr peers)
  unfolding send_first send_to_self
  send_first-IsQuiet msg src_addr [] = search quiet_rules
  send_first-IsQuiet msg src_addr (peer_addr ∷ peers) =
      search (quiet_rules, send_internally_if-IsQuiet, send_to_peer-IsQuiet) depth 10

  pub handle_send-IsQuiet :
      (msg : StunInfo) (src_addr : SocketAddr) → IsQuiet (handle_send env msg src_addr)
  unfolding handle_send
  handle_send-IsQuiet msg src_addr = search (quiet_rules, send_first-IsQuiet)
