-- ===== src/Lookup/Table/Steps.antt =====
-- The operations on the table as steps of one state, in any order and at any times.
use uturn.Common.{ℕ, none, some, List, [], ◌∷◌, nat_key, lookup, insert}
use uturn.Common.Bytes.{Bytes, Str}
use uturn.Addr.{IpAddr, SocketAddr, ip_key, socket_key, octets_key}
use uturn.Lookup.Allocation.{
  Allocation, bind_channel, touch, touch_received, touch_relay_success, touch_relay_attempt,
  refresh,
}
use uturn.Lookup.Table.{
  AllocationTable, create_or_get, register_ice_ufrags, add_permission, try_add_permissions_capped,
  register_peer_tuple,
}
use uturn.Lookup.Table.Removal.{
  remove, cleanup_expired, cleanup_inactive, cleanup_orphaned_senders, cleanup_channel_bindings,
  cleanup_permissions,
}

-- The methods of an allocation that the server calls on the entry in the table.
pub data Method : Type 0 where
  bind_channel_op : ℕ → ℕ → SocketAddr → Method
  touch_op : ℕ → Method
  touch_received_op : ℕ → Method
  touch_relay_success_op : ℕ → Method
  touch_relay_attempt_op : ℕ → Method
  refresh_op : ℕ → ℕ → Method

unfoldable pub call : Method → Allocation → Allocation
unfolding bind_channel touch touch_received touch_relay_success touch_relay_attempt refresh
call (bind_channel_op now channel peer) a = bind_channel now a channel peer
call (touch_op now) a = touch now a
call (touch_received_op now) a = touch_received now a
call (touch_relay_success_op now) a = touch_relay_success now a
call (touch_relay_attempt_op now) a = touch_relay_attempt now a
call (refresh_op now lifetime_secs) a = refresh now a lifetime_secs

pub data Op : Type 0 where
  create_op : ℕ → SocketAddr → Str → ℕ → Bytes → Op
  method_op : ℕ → Method → Op
  register_ufrags_op : ℕ → Str → Str → Op
  add_permission_op : ℕ → ℕ → IpAddr → Op
  add_permissions_op : ℕ → ℕ → List IpAddr → ℕ → Op
  register_tuple_op : ℕ → ℕ → SocketAddr → Op
  remove_op : ℕ → Op
  expired_op : ℕ → Op
  inactive_op : ℕ → ℕ → Op
  orphaned_op : ℕ → ℕ → Op
  channels_op : ℕ → Op
  permissions_op : ℕ → Op

unfoldable pub step : Op → AllocationTable → AllocationTable
unfolding create_or_get call register_ice_ufrags add_permission try_add_permissions_capped
    register_peer_tuple remove cleanup_expired cleanup_inactive cleanup_orphaned_senders
    cleanup_channel_bindings cleanup_permissions
step (create_op now addr username lifetime txn_id) t =
    (create_or_get now t addr username lifetime txn_id).0
step (method_op id m) t = elim (lookup id t.allocations) [
  | none ↦ t
  | some a ↦ record t { allocations = insert id (call m a) t.allocations }
]
step (register_ufrags_op id l r) t = (register_ice_ufrags t id l r).0
step (add_permission_op now id ip) t = add_permission now t id ip
step (add_permissions_op now id ips cap) t = (try_add_permissions_capped now t id ips cap).0
step (register_tuple_op now id peer) t = register_peer_tuple now t id peer
step (remove_op id) t = (remove t id).0
step (expired_op now) t = (cleanup_expired now t).0
step (inactive_op now timeout) t = (cleanup_inactive now t timeout).0
step (orphaned_op now timeout) t = (cleanup_orphaned_senders now t timeout).0
step (channels_op now) t = cleanup_channel_bindings now t
step (permissions_op now) t = cleanup_permissions now t

unfoldable pub run : List Op → AllocationTable → AllocationTable
unfolding step
run [] t = t
run (op ∷ ops) t = run ops (step op t)
