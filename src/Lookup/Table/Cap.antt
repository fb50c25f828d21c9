-- ===== src/Lookup/Table/Cap.antt =====
-- The cap on an allocation's permissions.
use uturn.Common.{
  ℕ, suc, ◌+◌, ◌≤◌, ◌<◌, ◌^◌, ◌≡◌, refl, ◌∙◌, ap, inl, inr, none, some, List, [], ◌∷◌, true, false,
  arith, nat_key, length, elem, ltb, Option-cases, lookup, insert, lookup-insert,
  lookup-insert_self, if◌then◌else◌,
}
use uturn.Addr.{IpAddr, IpAddr-discrete, ip_key}
use uturn.Clock.{add64}
use uturn.Lookup.Allocation.{
  Allocation, count_live, before, permissions_count, is_permitted, permission_lifetime_ms,
}
use uturn.Lookup.Table.{
  AllocationTable, new_ips, insert_all, index_permission, index_all, try_add_permissions_capped,
  get,
}

-- Inserting a live entry makes one more live, unless one of the address was live already.
count_live-insert :
    (now expires : ℕ) (ip : IpAddr) (perms : List (IpAddr × ℕ))
    → now < expires
    → count_live now (insert ip expires perms)
      ≡ (if before now (lookup ip perms) then count_live now perms else suc (count_live now perms))
unfolding count_live insert lookup
count_live-insert now expires ip [] live = ground arith
count_live-insert now expires ip ((j, e) ∷ perms) live = elim (IpAddr-discrete ip j) [
  | yes p ↦ ground arith
  | no p ↦ ground (arith, count_live-insert now expires ip perms live)
]

new_ips-insert :
    (now expires : ℕ) (ip : IpAddr) (perms : List (IpAddr × ℕ)) (ips : List IpAddr)
    → now < expires
    → length (new_ips now (insert ip expires perms) ips) ≤ length (new_ips now perms ips)
unfolding new_ips
new_ips-insert now expires ip perms [] live = omega arith
new_ips-insert now expires ip perms (x ∷ ips) live =
    ground (arith, lookup-insert ip x expires perms, new_ips-insert now expires ip perms ips live)

count_live-insert_all :
    (now expires : ℕ) (ips : List IpAddr) (perms : List (IpAddr × ℕ))
    → now < expires
    → count_live now (insert_all expires ips perms)
      ≤ count_live now perms + length (new_ips now perms ips)
unfolding new_ips insert_all
count_live-insert_all now expires [] perms live = omega arith
count_live-insert_all now expires (ip ∷ ips) perms live = ground (
  arith,
  count_live-insert_all now expires ips (insert ip expires perms) live,
  count_live-insert now expires ip perms live,
  new_ips-insert now expires ip perms ips live,
)

lookup-insert_all :
    (expires : ℕ) (ips : List IpAddr) (perms : List (IpAddr × ℕ)) (ip : IpAddr)
    → lookup ip (insert_all expires ips perms)
      ≡ (if elem ip ips then some expires else lookup ip perms)
unfolding insert_all elem
lookup-insert_all expires [] perms ip = refl
lookup-insert_all expires (x ∷ ips) perms ip = ground (
  arith,
  lookup-insert x ip expires perms,
  lookup-insert_all expires ips (insert x expires perms) ip,
)

allocations-index_all :
    (ips : List IpAddr) (t : AllocationTable) (id : ℕ)
    → (index_all t ips id).allocations ≡ t.allocations
unfolding index_all index_permission
allocations-index_all [] t id = refl
allocations-index_all (ip ∷ ips) t id = allocations-index_all ips (index_permission t ip id) id

module _ (now : ℕ) (t : AllocationTable) (id : ℕ) (ips : List IpAddr) (cap : ℕ) where
  abbrev asked : Allocation → ℕ
  asked a = count_live now a.permissions + length (new_ips now a.permissions ips)

  abbrev granted : Allocation → Allocation
  granted a = record a {
    permissions = insert_all (add64 now permission_lifetime_ms) ips a.permissions;
  }

  abbrev granted_table : Allocation → AllocationTable
  granted_table a =
      index_all (record t { allocations = insert id (granted a) t.allocations }) ips id

  try_missing :
      lookup id t.allocations ≡ none → try_add_permissions_capped now t id ips cap ≡ (t, false)
  unfolding try_add_permissions_capped
  try_missing e = rw (e, try_add_permissions_capped)

  try_found :
      (a : Allocation)
      → lookup id t.allocations ≡ some a
      → try_add_permissions_capped now t id ips cap
        ≡ (if ltb cap (asked a) then (t, false) else (granted_table a, true))
  unfolding try_add_permissions_capped
  try_found a e = rw (e, try_add_permissions_capped)

  get-granted : (a : Allocation) → get (granted_table a) id ≡ some (granted a)
  unfolding get
  get-granted a =
      ap (lookup id) (
        allocations-index_all ips (record t { allocations = insert id (granted a) t.allocations })
          id)
      ∙ lookup-insert_self id (granted a) t.allocations

  permissions_count-granted :
      (a : Allocation)
      → now + 300_000 < 2 ^ 64
      → asked a ≤ cap
      → permissions_count now (granted a) ≤ cap
  unfolding permissions_count
  permissions_count-granted a small few = omega (
    arith,
    count_live-insert_all now (add64 now permission_lifetime_ms) ips a.permissions (omega arith),
  )

  is_permitted-granted :
      (a : Allocation) (u : ℕ) (ip : IpAddr)
      → now + 300_000 < 2 ^ 64
      → is_permitted u (granted a) ip
        ≡ (if elem ip ips then ltb u (now + 300_000) else is_permitted u a ip)
  unfolding is_permitted
  is_permitted-granted a u ip small =
      ground
        (arith, lookup-insert_all (add64 now permission_lifetime_ms) ips a.permissions ip, in_range)
    where
      in_range : add64 now permission_lifetime_ms ≡ now + 300_000
      in_range = omega arith

-- A request for permissions that is refused leaves the whole table as it was, whether the
-- allocation is missing or the cap would be passed.
pub try_add_permissions_capped-refused :
    (now : ℕ) (t : AllocationTable) (id : ℕ) (ips : List IpAddr) (cap : ℕ)
    → (try_add_permissions_capped now t id ips cap).1 ≡ false
    → (try_add_permissions_capped now t id ips cap).0 ≡ t
try_add_permissions_capped-refused now t id ips cap refused =
    elim (Option-cases (lookup id t.allocations)) [
      | inl e ↦ ap (λ r. r.0) (try_missing now t id ips cap e)
      | inr (a, e) ↦ ground (arith, try_found now t id ips cap a e)
    ]

-- A request that is granted leaves the allocation with at most `cap` live permissions; each
-- address asked for is permitted until five minutes later and no longer, and every other address
-- exactly as before, where the clock is not within five minutes of 2 ^ 64 milliseconds.
pub try_add_permissions_capped-granted :
    (now : ℕ) (t : AllocationTable) (id : ℕ) (ips : List IpAddr) (cap : ℕ) (a : Allocation)
    → lookup id t.allocations ≡ some a
    → now + 300_000 < 2 ^ 64
    → (try_add_permissions_capped now t id ips cap).1 ≡ true
    → (b : Allocation) × ((get (try_add_permissions_capped now t id ips cap).0 id ≡ some b)
        × ((permissions_count now b ≤ cap)
            × ((u : ℕ) (ip : IpAddr)
                → is_permitted u b ip
                  ≡ (if elem ip ips then ltb u (now + 300_000) else is_permitted u a ip))))
try_add_permissions_capped-granted now t id ips cap a e small yes_it_is = (
  granted now t id ips cap a,
  (
    ground (arith, try_found now t id ips cap a e, get-granted now t id ips cap a),
    (
      permissions_count-granted now t id ips cap a small
          (ground (arith, try_found now t id ips cap a e)),
      λ u ip. is_permitted-granted now t id ips cap a u ip small,
    ),
  ),
)
