-- ===== src/Lookup/Table.antt =====
-- src/lookup/table.rs: the table of allocations and its four secondary indices. Here each method runs
-- to its end before the next: the maps' locks are not modelled. Race takes the steps of create_or_get
-- apart.
pub mod Removal
pub mod Clients
pub mod Reaping
pub mod Census
pub mod Departures
pub mod Arrivals
pub mod Race
pub mod Steps
pub mod Updates
pub mod Reachable
pub mod Ufrags
pub mod Peers
pub mod Cap
use uturn.Common.{
  ℕ, ◌+◌, ◌≤◌, Bool, true, false, not, Option, none, some, List, [], ◌∷◌, ◌++◌, ltb, leb,
  if◌then◌else◌, ◌=?◌, nat_key, length, elem, lookup, insert, erase,
}
use uturn.Common.Bytes.{Bytes, Str}
use uturn.Addr.{IpAddr, SocketAddr, ip_key, socket_key, octets_key}
use uturn.Clock.{add64}
use uturn.Lookup.Allocation.{
  Allocation, PeerInfo, new_allocation, permit, count_live, holds_ufrag, set_ice_ufrag,
  set_ice_remote_ufrag, permission_lifetime_ms, before,
}

-- `next_id` is the process-wide counter of `AllocationId::new`.
pub record AllocationTable : Type 0 where
  pub allocations : List (ℕ × Allocation)
  pub by_client : List (SocketAddr × ℕ)
  pub by_permission : List (IpAddr × List ℕ)
  pub by_peer_tuple : List (SocketAddr × ℕ)
  pub by_ice_ufrag : List (Str × ℕ)
  pub next_id : ℕ

unfoldable pub new_table : AllocationTable
new_table = record {
  allocations = [];
  by_client = [];
  by_permission = [];
  by_peer_tuple = [];
  by_ice_ufrag = [];
  next_id = 1;
}

-- The slow path's first half: the new allocation enters the primary map.
unfoldable pub insert_new : ℕ → AllocationTable → SocketAddr → Str → ℕ → Bytes → AllocationTable
insert_new now t client_addr username lifetime_secs txn_id = record t {
  allocations =
      insert t.next_id (new_allocation t.next_id now client_addr username lifetime_secs txn_id)
        t.allocations;
  next_id = add64 t.next_id 1;
}

-- Its second half: the entry of `by_client` is claimed, or the insertion is rolled back.
unfoldable pub claim_client : AllocationTable → SocketAddr → ℕ → AllocationTable × (ℕ × Bool)
claim_client t client_addr id = elim (lookup client_addr t.by_client) [
  | none ↦ (record t { by_client = insert client_addr id t.by_client }, (id, true))
  | some existing ↦ (record t { allocations = erase id t.allocations }, (existing, false))
]

unfoldable pub create_or_get :
    ℕ → AllocationTable → SocketAddr → Str → ℕ → Bytes → AllocationTable × (ℕ × Bool)
create_or_get now t client_addr username lifetime_secs txn_id =
    elim (lookup client_addr t.by_client) [
      | some id ↦ (t, (id, false))
      | none ↦
          claim_client (insert_new now t client_addr username lifetime_secs txn_id) client_addr
            t.next_id
    ]

abbrev pub zero_txn_id : Bytes
zero_txn_id = 0 ∷ 0 ∷ 0 ∷ 0 ∷ 0 ∷ 0 ∷ 0 ∷ 0 ∷ 0 ∷ 0 ∷ 0 ∷ 0 ∷ []

unfoldable pub create : ℕ → AllocationTable → SocketAddr → Str → ℕ → AllocationTable × ℕ
unfolding create_or_get
create now t client_addr username lifetime_secs =
    let (t', (id, _)) = create_or_get now t client_addr username lifetime_secs zero_txn_id in
    (t', id)

unfoldable pub get : AllocationTable → ℕ → Option Allocation
get t id = lookup id t.allocations

unfoldable pub get_by_client : AllocationTable → SocketAddr → Option Allocation
get_by_client t addr = elim (lookup addr t.by_client) [
  | none ↦ none
  | some id ↦ lookup id t.allocations
]

unfoldable pub is_client : AllocationTable → SocketAddr → Bool
is_client t addr = elim (lookup addr t.by_client) [ none ↦ false | some _ ↦ true ]

unfoldable pub lookup_by_peer_tuple : AllocationTable → SocketAddr → Option ℕ
lookup_by_peer_tuple t addr = lookup addr t.by_peer_tuple

unfoldable pub lookup_by_source : AllocationTable → SocketAddr → Option ℕ
lookup_by_source t addr = elim (lookup addr t.by_client) [
  | some id ↦ some id
  | none ↦ lookup addr t.by_peer_tuple
]

-- `alloc.set_ice_ufrag(local_ufrag); alloc.set_ice_remote_ufrag(remote_ufrag);`
unfoldable pub set_ufrags : AllocationTable → ℕ → Allocation → Str → Str → AllocationTable
unfolding set_ice_ufrag set_ice_remote_ufrag
set_ufrags t id alloc local_ufrag remote_ufrag = record t {
  allocations =
      insert id (set_ice_remote_ufrag (set_ice_ufrag alloc local_ufrag).0 remote_ufrag).0
        t.allocations;
}

-- A fresh credential of the same allocation gives up the old one.
unfoldable pub drop_old_ufrag : AllocationTable → Option Str → Str → AllocationTable
drop_old_ufrag t none local_ufrag = t
drop_old_ufrag t (some old_local) local_ufrag =
    if not (old_local =? local_ufrag)
    then record t { by_ice_ufrag = erase old_local t.by_ice_ufrag }
    else t

-- The entry of `by_ice_ufrag`, occupied or vacant.
unfoldable pub claim_ufrag : AllocationTable → ℕ → Allocation → Str → Str → AllocationTable × Bool
unfolding set_ufrags
claim_ufrag t id alloc local_ufrag remote_ufrag = elim (lookup local_ufrag t.by_ice_ufrag) [
  | some owner ↦
      if not (owner =? id)
      then (t, false)
      else (set_ufrags t id alloc local_ufrag remote_ufrag, true)
  | none ↦
      let t' = set_ufrags t id alloc local_ufrag remote_ufrag in
      (record t' { by_ice_ufrag = insert local_ufrag id t'.by_ice_ufrag }, true)
]

-- `register_ice_ufrags`, for an allocation that exists
unfoldable pub register_of : AllocationTable → ℕ → Allocation → Str → Str → AllocationTable × Bool
unfolding set_ufrags drop_old_ufrag claim_ufrag
register_of t id alloc local_ufrag remote_ufrag = elim (lookup local_ufrag t.by_ice_ufrag) [
  | some owner ↦
      if not (owner =? id)
      then (t, false)
      else (set_ufrags t id alloc local_ufrag remote_ufrag, true)
  | none ↦
      claim_ufrag (drop_old_ufrag t alloc.ice_ufrag local_ufrag) id alloc local_ufrag remote_ufrag
]

unfoldable pub register_ice_ufrags : AllocationTable → ℕ → Str → Str → AllocationTable × Bool
unfolding register_of
register_ice_ufrags t id local_ufrag remote_ufrag = elim (lookup id t.allocations) [
  | none ↦ (t, false)
  | some alloc ↦ register_of t id alloc local_ufrag remote_ufrag
]

unfoldable pub lookup_by_ice_ufrag : AllocationTable → Str → Option ℕ
lookup_by_ice_ufrag t ice_ufrag = lookup ice_ufrag t.by_ice_ufrag

abbrev pub peer_if : ℕ → Str → Option Allocation → Option ℕ
peer_if id sender_local none = none
peer_if id sender_local (some alloc) =
    if holds_ufrag alloc.ice_remote_ufrag sender_local then some id else none

unfoldable pub find_ice_peer : AllocationTable → Str → Str → Option ℕ
find_ice_peer t sender_local sender_remote = elim (lookup sender_remote t.by_ice_ufrag) [
  | none ↦ none
  | some id ↦ peer_if id sender_local (lookup id t.allocations)
]

unfoldable pub find_ice_peers : AllocationTable → Str → Str → List ℕ
unfolding find_ice_peer
find_ice_peers t sender_local sender_remote = elim (find_ice_peer t sender_local sender_remote) [
  | some id ↦ id ∷ []
  | none ↦ []
]

unfoldable pub lookup_by_peer_ip : AllocationTable → IpAddr → List ℕ
lookup_by_peer_ip t ip = elim (lookup ip t.by_permission) [ none ↦ [] | some ids ↦ ids ]

unfoldable pub lookup_by_peer_addr : AllocationTable → SocketAddr → List ℕ × Bool
unfolding lookup_by_peer_ip
lookup_by_peer_addr t addr = elim (lookup addr t.by_peer_tuple) [
  | some id ↦ (id ∷ [], true)
  | none ↦ let candidates = lookup_by_peer_ip t addr.ip in (candidates, length candidates =? 1)
]

-- `entry(ip).or_default()`, then the id if it is not there
unfoldable pub index_permission : AllocationTable → IpAddr → ℕ → AllocationTable
unfolding elem lookup_by_peer_ip
index_permission t ip id =
    let ids = lookup_by_peer_ip t ip in
    record t {
      by_permission = insert ip (if elem id ids then ids else ids ++ (id ∷ [])) t.by_permission;
    }

unfoldable pub add_permission : ℕ → AllocationTable → ℕ → IpAddr → AllocationTable
unfolding permit index_permission
add_permission now t id peer_ip = elim (lookup id t.allocations) [
  | none ↦ index_permission t peer_ip id
  | some alloc ↦
      index_permission
        (record t { allocations = insert id (permit now alloc peer_ip) t.allocations }) peer_ip id
]

-- `peer_ips.iter().filter(..)`: those with no live permission
unfoldable pub new_ips : ℕ → List (IpAddr × ℕ) → List IpAddr → List IpAddr
new_ips now perms [] = []
new_ips now perms (ip ∷ ips) =
    if before now (lookup ip perms) then new_ips now perms ips else ip ∷ new_ips now perms ips

unfoldable pub insert_all : ℕ → List IpAddr → List (IpAddr × ℕ) → List (IpAddr × ℕ)
insert_all expires [] perms = perms
insert_all expires (ip ∷ ips) perms = insert_all expires ips (insert ip expires perms)

unfoldable pub index_all : AllocationTable → List IpAddr → ℕ → AllocationTable
unfolding index_permission
index_all t [] id = t
index_all t (ip ∷ ips) id = index_all (index_permission t ip id) ips id

unfoldable pub try_add_permissions_capped :
    ℕ → AllocationTable → ℕ → List IpAddr → ℕ → AllocationTable × Bool
unfolding count_live new_ips insert_all index_all
try_add_permissions_capped now t id peer_ips cap = elim (lookup id t.allocations) [
  | none ↦ (t, false)
  | some alloc ↦
      if ltb cap
        (count_live now alloc.permissions + length (new_ips now alloc.permissions peer_ips))
      then (t, false)
      else (
        index_all
            (record t {
              allocations =
                  insert id
                    (record alloc {
                      permissions =
                          insert_all (add64 now permission_lifetime_ms) peer_ips alloc.permissions;
                    })
                    t.allocations;
            })
            peer_ips id,
        true,
      )
]

-- `known_peers.entry(peer_addr).or_insert_with(..)`
unfoldable pub know_peer : ℕ → Allocation → SocketAddr → Allocation
know_peer now a peer_addr = elim (lookup peer_addr a.known_peers) [
  | some _ ↦ a
  | none ↦ record a { known_peers = insert peer_addr (record { last_seen_ms = now }) a.known_peers }
]

unfoldable pub register_peer_tuple : ℕ → AllocationTable → ℕ → SocketAddr → AllocationTable
unfolding know_peer
register_peer_tuple now t id peer_addr = elim (lookup id t.allocations) [
  | none ↦ record t { by_peer_tuple = insert peer_addr id t.by_peer_tuple }
  | some alloc ↦ record t {
    by_peer_tuple = insert peer_addr id t.by_peer_tuple;
    allocations = insert id (know_peer now alloc peer_addr) t.allocations;
  }
]
