-- ===== src/Lookup/Tests.antt =====
-- The theorems on rate limiting, allocations and the table at concrete states.
use uturn.Common.{
  ℕ, suc, ◌+◌, ◌*◌, ◌≡◌, ◌≢◌, ◌≤◌, ◌<◌, ◌↔◌, refl, none, some, [], ◌∷◌, true, false, arith, List,
  min, ltb, ite, elem, lookup, if◌then◌else◌,
}
use uturn.Common.Bytes.{Bytes}
use uturn.Addr.{v4, v6, IpAddr, SocketAddr, ip_key, socket_key, octets_key, IpAddr-discrete}
use uturn.Lookup.RateLimit.{
  RateLimiter, new_limiter, check_allocation_request, allocation_count, cleanup, ok, err,
  RateLimitError, u32_max,
}
use uturn.Lookup.RateLimit.Quota.{entry_of}
use uturn.Lookup.RateLimit.Slots.{check_allocation_request_slot}
use uturn.Lookup.Allocation.Timers.{
  attempts, refresh-lifetime, touch_relay_attempt-is_orphaned_sender,
}
use uturn.Lookup.RateLimit.Window.{in_window, requests, fresh, in_window-requests}
use uturn.Lookup.RateLimit.Cleanup.{check_allocation_request-cleanup}
use uturn.Lookup.Allocation.{
  Allocation, new_allocation, bind_channel, peer_for_channel, channel_for_peer, is_permitted,
  cleanup_expired_permissions, permissions_count, refresh, remaining_lifetime, is_expired,
  touch_relay_attempt, is_orphaned_sender,
}
use uturn.Lookup.Allocation.Channels.{
  IsConsistent, bind_channel-IsConsistent, bind_channel-lifetime,
}
use uturn.Lookup.Allocation.Permissions.{cleanup_expired_permissions-is_permitted}
use uturn.Lookup.Table.{
  AllocationTable, new_table, get, register_ice_ufrags, find_ice_peer, try_add_permissions_capped,
}
use uturn.Lookup.Table.Clients.{client_at}
use uturn.Lookup.Table.Steps.{run as run_ops, create_op, remove_op}
use uturn.Lookup.Table.Reachable.{run-new_table-index}
use uturn.Lookup.Table.Race.{Race}
use uturn.Lookup.Table.Race.Winner.{calm}
use uturn.Lookup.Table.Ufrags.{OwnsUfrags, ufrag_at, remote_at}
use uturn.Lookup.Table.Peers.{
  register_ice_ufrags-OwnsUfrags, register_ice_ufrags-owner, find_ice_peer-mirror,
}
use uturn.Lookup.Table.Cap.{try_add_permissions_capped-refused, try_add_permissions_capped-granted}

abbrev home : IpAddr
home = v4 10 0 0 1

abbrev away : IpAddr
away = v4 10 0 0 2

abbrev client : SocketAddr
client = record { ip = home; port = 5000 }

abbrev peer : SocketAddr
peer = record { ip = away; port = 6000 }

abbrev allocation : Allocation
allocation = record {
  id = 1;
  client_addr = client;
  permissions = (away, 100) ∷ [];
  channels = [];
  channels_reverse = [];
  known_peers = [];
  expires_at_ms = 600_000;
  lifetime_secs = 600;
  last_activity_ms = 0;
  last_received_ms = 0;
  last_successful_relay_ms = 0;
  has_relay_attempt = false;
  username = [];
  allocate_txn_id = [];
  ice_ufrag = none;
  ice_remote_ufrag = none;
}

allocation-IsConsistent : IsConsistent allocation
unfolding lookup
allocation-IsConsistent c p = ground arith

bind_channel-IsConsistent_example : IsConsistent (bind_channel 5 allocation 0x4000 peer)
bind_channel-IsConsistent_example =
    bind_channel-IsConsistent 5 allocation 0x4000 peer allocation-IsConsistent

bind_channel-lifetime_example :
    (peer_for_channel 600_004 (bind_channel 5 allocation 0x4000 peer) 0x4000
      ≡ (if ltb 600_004 (5 + 600_000) then some peer else none))
    × (channel_for_peer 600_004 (bind_channel 5 allocation 0x4000 peer) peer
        ≡ (if ltb 600_004 (5 + 600_000) then some 0x4000 else none))
bind_channel-lifetime_example =
    bind_channel-lifetime 5 600_004 allocation 0x4000 peer allocation-IsConsistent (omega arith)

cleanup_expired_permissions-is_permitted_example :
    (is_permitted 101 (cleanup_expired_permissions 100 allocation).0 away
      ≡ is_permitted 101 allocation away)
    × ((elem away (cleanup_expired_permissions 100 allocation).1 ≡ true) ↔ (
        (lookup away allocation.permissions ≢ none) × (is_permitted 100 allocation away ≡ false)))
unfolding lookup
cleanup_expired_permissions-is_permitted_example =
    cleanup_expired_permissions-is_permitted 100 101 allocation away (refl, tt) (omega arith)

abbrev limited : RateLimiter
limited = new_limiter 2 1

refresh-lifetime_example :
    (remaining_lifetime 7 (refresh 7 allocation 60) ≡ 60)
    × ((is_expired 60_008 (refresh 7 allocation 60) ≡ true) ↔ (7 + 60 * 1000 < 60_008))
refresh-lifetime_example = refresh-lifetime 7 60_008 allocation 60 (omega arith) (omega arith)

touch_relay_attempt-is_orphaned_sender_example :
    (is_orphaned_sender 30_001
        (attempts (20_000 ∷ 25_000 ∷ []) (touch_relay_attempt 1 allocation))
        30
      ≡ true)
    ↔ (1 + 30 * 1000 ≤ 30_001)
touch_relay_attempt-is_orphaned_sender_example =
    touch_relay_attempt-is_orphaned_sender 1 30_001 (20_000 ∷ 25_000 ∷ []) allocation 30 refl
      (omega arith) (omega arith)

check_allocation_request_slot_example :
    let (l', verdict) = check_allocation_request limited home 5 in
    (verdict ≡ ok → allocation_count l' home ≡ min (allocation_count limited home + 1) u32_max)
    × ((e : RateLimitError)
        → verdict ≡ err e
        → allocation_count l' home ≡ allocation_count limited home)
    × (away ≢ home → entry_of l' away ≡ entry_of limited away)
check_allocation_request_slot_example = check_allocation_request_slot limited home away 5

in_window-requests_example : in_window 3 (requests 2 0 (1 ∷ 2 ∷ 3 ∷ []) fresh).recorded ≤ 2
in_window-requests_example =
    in_window-requests 2 0 (1 ∷ 2 ∷ 3 ∷ []) 3 (omega arith)
      (omega arith, (omega arith, (omega arith, tt))) (omega arith)

check_allocation_request-cleanup_example :
    ((check_allocation_request (cleanup limited 4) home 5).1
      ≡ (check_allocation_request limited home 5).1)
    × (0 < limited.max_requests_per_minute
        → entry_of (check_allocation_request (cleanup limited 4) home 5).0 home
          ≡ entry_of (check_allocation_request limited home 5).0 home)
    × (allocation_count (cleanup limited 4) home ≡ allocation_count limited home)
check_allocation_request-cleanup_example =
    check_allocation_request-cleanup limited home 4 5 (omega arith)

abbrev paired : Bytes → Bytes → SocketAddr → Allocation
paired local remote addr = record allocation {
  client_addr = addr;
  ice_ufrag = some local;
  ice_remote_ufrag = some remote;
}

-- Two clients that are ICE peers: `a` talks to `b` and `b` to `a`.
abbrev table : AllocationTable
table = record {
  allocations = (1, paired (97 ∷ []) (98 ∷ []) client) ∷ (2, paired (98 ∷ []) (97 ∷ []) peer) ∷ [];
  by_client = (client, 1) ∷ (peer, 2) ∷ [];
  by_permission = (away, 1 ∷ []) ∷ [];
  by_peer_tuple = [];
  by_ice_ufrag = (97 ∷ [], 1) ∷ (98 ∷ [], 2) ∷ [];
  next_id = 3;
}

table-OwnsUfrags : OwnsUfrags table
unfolding lookup
table-OwnsUfrags u id = ground arith

register_ice_ufrags-OwnsUfrags_example :
    OwnsUfrags (register_ice_ufrags table 1 (99 ∷ []) (98 ∷ [])).0
register_ice_ufrags-OwnsUfrags_example =
    register_ice_ufrags-OwnsUfrags table 1 (99 ∷ []) (98 ∷ []) table-OwnsUfrags

register_ice_ufrags-owner_example :
    lookup (98 ∷ []) (register_ice_ufrags table 1 (98 ∷ []) (97 ∷ [])).0.by_ice_ufrag ≡ some 2
unfolding lookup uturn.Addr.Octets-discrete
register_ice_ufrags-owner_example =
    register_ice_ufrags-owner table 1 2 (98 ∷ []) (98 ∷ []) (97 ∷ []) table-OwnsUfrags
      (λ e. ground (arith, e)) refl

find_ice_peer-mirror_example :
    (find_ice_peer table (97 ∷ []) (98 ∷ []) ≡ some 2)
    ↔ ((ufrag_at table 2 ≡ some (98 ∷ [])) × (remote_at table 2 ≡ some (97 ∷ [])))
find_ice_peer-mirror_example = find_ice_peer-mirror table (97 ∷ []) (98 ∷ []) 2 table-OwnsUfrags

try_add_permissions_capped-refused_example :
    (try_add_permissions_capped 5 table 1 (home ∷ away ∷ []) 1).0 ≡ table
unfolding try_add_permissions_capped lookup uturn.Common.ℕ_discrete IpAddr-discrete
try_add_permissions_capped-refused_example =
    try_add_permissions_capped-refused 5 table 1 (home ∷ away ∷ []) 1 refl

try_add_permissions_capped-granted_example :
    (b : Allocation) × ((get (try_add_permissions_capped 5 table 1 (home ∷ away ∷ []) 2).0 1
        ≡ some b)
      × ((permissions_count 5 b ≤ 2)
          × ((u : ℕ) (ip : IpAddr)
              → is_permitted u b ip ≡ (
                  if elem ip (home ∷ away ∷ [])
                  then ltb u (5 + 300_000)
                  else is_permitted u (paired (97 ∷ []) (98 ∷ []) client) ip))))
unfolding try_add_permissions_capped lookup uturn.Common.ℕ_discrete IpAddr-discrete
try_add_permissions_capped-granted_example =
    try_add_permissions_capped-granted 5 table 1 (home ∷ away ∷ []) 2
      (paired (97 ∷ []) (98 ∷ []) client) refl (omega arith) refl

run-new_table-index_example :
    (lookup client (run_ops (create_op 5 client [] 600 [] ∷ remove_op 1 ∷ []) new_table).by_client
      ≡ some 1)
    ↔ (client_at (run_ops (create_op 5 client [] 600 [] ∷ remove_op 1 ∷ []) new_table) 1
        ≡ some client)
run-new_table-index_example =
    run-new_table-index (create_op 5 client [] 600 [] ∷ remove_op 1 ∷ []) (omega arith) client 1

-- Two requests of the same client that both saw an empty index: the first claims the entry, the
-- second finds it taken and discards its allocation.
abbrev raced : Race
raced = record {
  table = record (calm new_table).table {
    allocations = (1, new_allocation 1 5 client [] 600 []) ∷ [];
    by_client = (client, 1) ∷ [];
    next_id = 3;
  };
  callers = [];
  told = (client, (1, false)) ∷ (client, (1, true)) ∷ [];
}
