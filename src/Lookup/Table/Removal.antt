-- ===== src/Lookup/Table/Removal.antt =====
-- src/lookup/table.rs: what takes allocations out of the table, and the passes over all of them.
use uturn.Common.{
  ℕ, Bool, true, false, Option, none, some, List, [], ◌∷◌, if◌then◌else◌, ◌=?◌, nat_key, lookup,
  insert, erase,
}
use uturn.Addr.{IpAddr, SocketAddr, ip_key, socket_key, octets_key}
use uturn.Lookup.Allocation.{
  Allocation, PeerInfo, cleanup_expired_channels, cleanup_expired_permissions, is_expired,
  is_inactive, is_orphaned_sender,
}
use uturn.Lookup.Table.{AllocationTable}

-- `ids.retain(|&i| i != id)`
unfoldable pub without : ℕ → List ℕ → List ℕ
without id [] = []
without id (i ∷ ids) = if i =? id then without id ids else i ∷ without id ids

unfoldable pub remove_from_permission_index : AllocationTable → IpAddr → ℕ → AllocationTable
unfolding without
remove_from_permission_index t peer_ip id = elim (lookup peer_ip t.by_permission) [
  | none ↦ t
  | some ids ↦ elim (without id ids) [
    | [] ↦ record t { by_permission = erase peer_ip t.by_permission }
    | i ∷ is ↦ record t { by_permission = insert peer_ip (i ∷ is) t.by_permission }
  ]
]

unfoldable pub unindex_permissions : AllocationTable → List (IpAddr × ℕ) → ℕ → AllocationTable
unfolding remove_from_permission_index
unindex_permissions t [] id = t
unindex_permissions t ((ip, _) ∷ perms) id =
    unindex_permissions (remove_from_permission_index t ip id) perms id

unfoldable pub unindex_peers : AllocationTable → List (SocketAddr × PeerInfo) → AllocationTable
unindex_peers t [] = t
unindex_peers t ((peer, _) ∷ peers) =
    unindex_peers (record t { by_peer_tuple = erase peer t.by_peer_tuple }) peers

unfoldable pub unindex_ufrag : AllocationTable → Option (List ℕ) → AllocationTable
unindex_ufrag t none = t
unindex_ufrag t (some ice_ufrag) = record t { by_ice_ufrag = erase ice_ufrag t.by_ice_ufrag }

-- What every removal does to the four indices.
unfoldable pub unindex : AllocationTable → ℕ → Allocation → AllocationTable
unfolding unindex_ufrag unindex_permissions unindex_peers
unindex t id alloc =
    let t1 = record t { by_client = erase alloc.client_addr t.by_client } in
    let t2 = unindex_ufrag t1 alloc.ice_ufrag in
    let t3 = unindex_permissions t2 alloc.permissions id in unindex_peers t3 alloc.known_peers

unfoldable pub remove : AllocationTable → ℕ → AllocationTable × Bool
unfolding unindex
remove t id = elim (lookup id t.allocations) [
  | none ↦ (t, false)
  | some alloc ↦ (unindex (record t { allocations = erase id t.allocations }) id alloc, true)
]

-- `allocations.retain(..)` over the entries that stood in the map: those that `dead` names go,
-- with their index entries, and their clients' addresses are collected.
unfoldable pub reap :
    (Allocation → Bool) → List (ℕ × Allocation) → AllocationTable → AllocationTable × List IpAddr
unfolding unindex
reap dead [] t = (t, [])
reap dead ((id, alloc) ∷ entries) t =
    let t' = unindex t id alloc in
    let gone = reap dead entries (record t' { allocations = erase id t'.allocations }) in
    let stays = reap dead entries t in
    if dead alloc then (gone.0, alloc.client_addr.ip ∷ gone.1) else stays

unfoldable pub cleanup_expired : ℕ → AllocationTable → AllocationTable × List IpAddr
unfolding is_expired reap
cleanup_expired now t = reap (is_expired now) t.allocations t

unfoldable pub cleanup_inactive : ℕ → AllocationTable → ℕ → AllocationTable × List IpAddr
unfolding is_inactive reap
cleanup_inactive now t timeout_secs = reap (λ a. is_inactive now a timeout_secs) t.allocations t

unfoldable pub cleanup_orphaned_senders : ℕ → AllocationTable → ℕ → AllocationTable × List IpAddr
unfolding is_orphaned_sender reap
cleanup_orphaned_senders now t timeout_secs =
    reap (λ a. is_orphaned_sender now a timeout_secs) t.allocations t

unfoldable pub clean_channels : ℕ → List (ℕ × Allocation) → List (ℕ × Allocation)
unfolding cleanup_expired_channels
clean_channels now [] = []
clean_channels now ((id, a) ∷ entries) =
    (id, cleanup_expired_channels now a) ∷ clean_channels now entries

unfoldable pub cleanup_channel_bindings : ℕ → AllocationTable → AllocationTable
unfolding clean_channels
cleanup_channel_bindings now t = record t { allocations = clean_channels now t.allocations }

unfoldable pub unindex_ips : AllocationTable → List IpAddr → ℕ → AllocationTable
unfolding remove_from_permission_index
unindex_ips t [] id = t
unindex_ips t (ip ∷ ips) id = unindex_ips (remove_from_permission_index t ip id) ips id

unfoldable pub clean_permissions : ℕ → List (ℕ × Allocation) → AllocationTable → AllocationTable
unfolding cleanup_expired_permissions unindex_ips
clean_permissions now [] t = t
clean_permissions now ((id, a) ∷ entries) t =
    let (a', expired) = cleanup_expired_permissions now a in
    clean_permissions now entries
      (unindex_ips (record t { allocations = insert id a' t.allocations }) expired id)

unfoldable pub cleanup_permissions : ℕ → AllocationTable → AllocationTable
unfolding clean_permissions
cleanup_permissions now t = clean_permissions now t.allocations t
