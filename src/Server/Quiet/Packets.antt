-- ===== src/Server/Quiet/Packets.antt =====
-- src/server.rs: what the relay between clients does is quiet.
use uturn.Common.{ℕ, Bool, true, false, Option, none, some, List, [], ◌∷◌}
use uturn.Common.Bytes.{Bytes}
use uturn.Addr.{SocketAddr}
use uturn.Lookup.Allocation.{Allocation}
use uturn.Server.Packets.{
  send_each, relay_to_peers, relay_or_touch, relay_data_of, relay_client_data, if_known, relay_or,
}
use uturn.Server.Quiet.{IsQuiet, quiet_rules}
use uturn.Server.Quiet.Relay.{touch_relay-IsQuiet}
use uturn.Server.State.{Env, Io}

module _ (env : Env) where
  send_each-IsQuiet :
      (targets : List (ℕ × SocketAddr)) (packet : Bytes) → IsQuiet (send_each env targets packet)
  unfolding send_each IsQuiet
  send_each-IsQuiet [] packet = tt
  send_each-IsQuiet ((id, addr) ∷ targets) packet =
      search (quiet_rules, send_each-IsQuiet targets packet) depth 10

  relay_to_peers-IsQuiet :
      (id : ℕ) (src_addr : SocketAddr) (peers : List ℕ) (payload : Bytes)
      → IsQuiet (relay_to_peers env id src_addr peers payload)
  unfolding relay_to_peers
  relay_to_peers-IsQuiet id src_addr peers payload =
      search (quiet_rules, send_each-IsQuiet, touch_relay-IsQuiet) depth 10

  relay_or_touch-IsQuiet :
      (id : ℕ) (src_addr : SocketAddr) (payload : Bytes) (peers : List ℕ)
      → IsQuiet (relay_or_touch env id src_addr payload peers)
  relay_or_touch-IsQuiet id src_addr payload [] = touch_relay-IsQuiet env id false
  relay_or_touch-IsQuiet id src_addr payload (peer ∷ more) =
      relay_to_peers-IsQuiet id src_addr (peer ∷ more) payload

  relay_data_of-IsQuiet :
      (payload : Bytes) (src_addr : SocketAddr) (found : Option Allocation)
      → IsQuiet (relay_data_of env payload src_addr found)
  relay_data_of-IsQuiet payload src_addr none = search quiet_rules
  relay_data_of-IsQuiet payload src_addr (some a) =
      search (quiet_rules, relay_or_touch-IsQuiet) depth 10

  relay_client_data-IsQuiet :
      (payload : Bytes) (src_addr : SocketAddr) → IsQuiet (relay_client_data env payload src_addr)
  unfolding relay_client_data
  relay_client_data-IsQuiet payload src_addr = search (quiet_rules, relay_data_of-IsQuiet)

  if_known-IsQuiet :
      (candidates : List ℕ) (from_peer : Io Unit)
      → IsQuiet from_peer
      → IsQuiet (if_known env candidates from_peer)
  if_known-IsQuiet [] from_peer h = search quiet_rules
  if_known-IsQuiet (id ∷ ids) from_peer h = h

  pub relay_or-IsQuiet :
      (client : Bool) (payload : Bytes) (src_addr : SocketAddr) (from_peer : Io Unit)
      → IsQuiet from_peer
      → IsQuiet (relay_or env client payload src_addr from_peer)
  unfolding relay_or
  relay_or-IsQuiet true payload src_addr from_peer h = relay_client_data-IsQuiet payload src_addr
  relay_or-IsQuiet false payload src_addr from_peer h = search (quiet_rules, if_known-IsQuiet)
