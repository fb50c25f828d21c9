-- ===== src/Lookup/Table/Reachable.antt =====
-- Every table that the operations can build from the empty one, in any order and at any times.
use uturn.Common.{
  ℕ, ◌+◌, ◌≤◌, ◌<◌, ◌^◌, ◌≡◌, ◌↔◌, refl, inl, inr, none, some, List, [], ◌∷◌, true, false, arith,
  nat_key, length, Option-cases, lookup, insert,
}
use uturn.Common.Bytes.{Bytes, Str}
use uturn.Addr.{SocketAddr, socket_key}
use uturn.Clock.{add64}
use uturn.Lookup.Allocation.{new_allocation}
use uturn.Lookup.Table.{AllocationTable, new_table, insert_new, claim_client, create_or_get}
use uturn.Lookup.Table.Clients.{client_at, IsIndexed, SameClients-IsIndexed, insert_new-IsIndexed}
use uturn.Lookup.Table.Removal.{cleanup_expired, cleanup_inactive, cleanup_orphaned_senders}
use uturn.Lookup.Table.Reaping.{
  reap-IsIndexed, Pending-all, remove-IsIndexed, next_id-reap, next_id-remove,
  cleanup_channel_bindings-SameClients, cleanup_permissions-SameClients,
}
use uturn.Lookup.Table.Steps.{
  Op, create_op, method_op, register_ufrags_op, add_permission_op, add_permissions_op,
  register_tuple_op, remove_op, expired_op, inactive_op, orphaned_op, channels_op, permissions_op,
  step, run,
}
use uturn.Lookup.Table.Updates.{
  call-SameClients, add_permission-SameClients, try_add_permissions_capped-SameClients,
  register_peer_tuple-SameClients, register_ice_ufrags-SameClients,
}

claim_client_vacant :
    (t : AllocationTable) (addr : SocketAddr) (id : ℕ)
    → lookup addr t.by_client ≡ none
    → claim_client t addr id ≡ (record t { by_client = insert addr id t.by_client }, (id, true))
unfolding claim_client
claim_client_vacant t addr id e = rw (e, claim_client)

module _ (now : ℕ) (t : AllocationTable) (addr : SocketAddr) (username : Str) (lifetime : ℕ)
    (txn_id : Bytes) where
  pub create_or_get_existing :
      (id : ℕ)
      → lookup addr t.by_client ≡ some id
      → create_or_get now t addr username lifetime txn_id ≡ (t, (id, false))
  unfolding create_or_get
  create_or_get_existing id e = rw (e, create_or_get)

  abbrev pub created : AllocationTable
  created = record t {
    allocations =
        insert t.next_id (new_allocation t.next_id now addr username lifetime txn_id) t.allocations;
    next_id = add64 t.next_id 1;
    by_client = insert addr t.next_id t.by_client;
  }

  pub create_or_get_new :
      lookup addr t.by_client ≡ none
      → create_or_get now t addr username lifetime txn_id ≡ (created, (t.next_id, true))
  unfolding create_or_get insert_new
  create_or_get_new e =
      rw (e, create_or_get)
        (claim_client_vacant (insert_new now t addr username lifetime txn_id) addr t.next_id e)

  pub created-IsIndexed :
      IsIndexed t → lookup addr t.by_client ≡ none → t.next_id + 1 < 2 ^ 64 → IsIndexed created
  unfolding new_allocation
  created-IsIndexed h e small = insert_new-IsIndexed t t.next_id _ addr h refl refl e small

  create_or_get-IsIndexed :
      IsIndexed t
      → t.next_id + 1 < 2 ^ 64
      → IsIndexed (create_or_get now t addr username lifetime txn_id).0
  create_or_get-IsIndexed h small = elim (Option-cases (lookup addr t.by_client)) [
    | inl e ↦ rw (create_or_get_new e) (created-IsIndexed h e small)
    | inr (id, e) ↦ rw (create_or_get_existing id e) h
  ]

pub step-IsIndexed :
    (op : Op) (t : AllocationTable) → IsIndexed t → t.next_id + 1 < 2 ^ 64 → IsIndexed (step op t)
unfolding step cleanup_expired cleanup_inactive cleanup_orphaned_senders
step-IsIndexed (create_op now addr username lifetime txn_id) t h small =
    create_or_get-IsIndexed now t addr username lifetime txn_id h small
step-IsIndexed (method_op id m) t h small = SameClients-IsIndexed t _ (call-SameClients t id m) h
step-IsIndexed (register_ufrags_op id l r) t h small =
    SameClients-IsIndexed t _ (register_ice_ufrags-SameClients t id l r) h
step-IsIndexed (add_permission_op now id ip) t h small =
    SameClients-IsIndexed t _ (add_permission-SameClients now t id ip) h
step-IsIndexed (add_permissions_op now id ips cap) t h small =
    SameClients-IsIndexed t _ (try_add_permissions_capped-SameClients now t id ips cap) h
step-IsIndexed (register_tuple_op now id peer) t h small =
    SameClients-IsIndexed t _ (register_peer_tuple-SameClients now t id peer) h
step-IsIndexed (remove_op id) t h small = remove-IsIndexed t id h
step-IsIndexed (expired_op now) t h small =
    reap-IsIndexed _ t.allocations t h.unique (Pending-all t) h
step-IsIndexed (inactive_op now timeout) t h small =
    reap-IsIndexed _ t.allocations t h.unique (Pending-all t) h
step-IsIndexed (orphaned_op now timeout) t h small =
    reap-IsIndexed _ t.allocations t h.unique (Pending-all t) h
step-IsIndexed (channels_op now) t h small =
    SameClients-IsIndexed t _ (cleanup_channel_bindings-SameClients now t) h
step-IsIndexed (permissions_op now) t h small =
    SameClients-IsIndexed t _ (cleanup_permissions-SameClients now t h) h

next_id-create_or_get :
    (now : ℕ) (t : AllocationTable) (addr : SocketAddr) (username : Str) (lifetime : ℕ)
    → (txn_id : Bytes) → t.next_id + 1 < 2 ^ 64
    → (create_or_get now t addr username lifetime txn_id).0.next_id ≤ t.next_id + 1
next_id-create_or_get now t addr username lifetime txn_id small =
    elim (Option-cases (lookup addr t.by_client)) [
      | inl e ↦ rw (create_or_get_new now t addr username lifetime txn_id e) (omega arith)
      | inr (id, e) ↦
          rw (create_or_get_existing now t addr username lifetime txn_id id e) (omega arith)
    ]

kept : {n m : ℕ} → n ≡ m → n ≤ m + 1
kept e = omega (arith, e)

pub next_id-step :
    (op : Op) (t : AllocationTable)
    → IsIndexed t
    → t.next_id + 1 < 2 ^ 64
    → (step op t).next_id ≤ t.next_id + 1
unfolding step cleanup_expired cleanup_inactive cleanup_orphaned_senders
next_id-step (create_op now addr username lifetime txn_id) t h small =
    next_id-create_or_get now t addr username lifetime txn_id small
next_id-step (method_op id m) t h small = kept (call-SameClients t id m).next
next_id-step (register_ufrags_op id l r) t h small =
    kept (register_ice_ufrags-SameClients t id l r).next
next_id-step (add_permission_op now id ip) t h small =
    kept (add_permission-SameClients now t id ip).next
next_id-step (add_permissions_op now id ips cap) t h small =
    kept (try_add_permissions_capped-SameClients now t id ips cap).next
next_id-step (register_tuple_op now id peer) t h small =
    kept (register_peer_tuple-SameClients now t id peer).next
next_id-step (remove_op id) t h small = kept (next_id-remove t id)
next_id-step (expired_op now) t h small = kept (next_id-reap _ t.allocations t)
next_id-step (inactive_op now timeout) t h small = kept (next_id-reap _ t.allocations t)
next_id-step (orphaned_op now timeout) t h small = kept (next_id-reap _ t.allocations t)
next_id-step (channels_op now) t h small = kept (cleanup_channel_bindings-SameClients now t).next
next_id-step (permissions_op now) t h small = kept (cleanup_permissions-SameClients now t h).next

pub run-IsIndexed :
    (ops : List Op) (t : AllocationTable)
    → IsIndexed t
    → t.next_id + length ops < 2 ^ 64
    → IsIndexed (run ops t)
unfolding run
run-IsIndexed [] t h small = h
run-IsIndexed (op ∷ ops) t h small =
    run-IsIndexed ops (step op t) (step-IsIndexed op t h (omega arith))
      (omega (arith, next_id-step op t h (omega arith)))

pub next_id-run :
    (ops : List Op) (t : AllocationTable)
    → IsIndexed t
    → t.next_id + length ops < 2 ^ 64
    → (run ops t).next_id ≤ t.next_id + length ops
unfolding run
next_id-run [] t h small = omega arith
next_id-run (op ∷ ops) t h small =
    let later = next_id-step op t h (omega arith) in
    omega (
      arith,
      later,
      next_id-run ops (step op t) (step-IsIndexed op t h (omega arith)) (omega (arith, later)),
    )

pub new_table-IsIndexed : IsIndexed new_table
unfolding new_table lookup
new_table-IsIndexed = record {
  index = λ addr id. ground arith;
  fresh = λ id later. refl;
  unique = tt;
}

-- However the table's operations follow one another, from the empty table and in fewer than
-- 2 ^ 64 - 1 steps, the index by client is exact: an address leads to an id exactly when the
-- allocation that stands under the id is that client's. So no client has two allocations, none
-- is out of reach, and no entry is left of one that was removed or reaped.
pub run-new_table-index :
    (ops : List Op)
    → 1 + length ops < 2 ^ 64
    → (addr : SocketAddr) (id : ℕ)
    → (lookup addr (run ops new_table).by_client ≡ some id)
      ↔ (client_at (run ops new_table) id ≡ some addr)
unfolding new_table
run-new_table-index ops small addr id =
    (run-IsIndexed ops new_table new_table-IsIndexed small).index addr id
