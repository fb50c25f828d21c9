-- ===== src/Lookup/Table/Arrivals.antt =====
-- What `create_or_get` adds to the table: one allocation, of the client that asks, or none.
use uturn.Common.{
  ℕ, ◌+◌, ◌<◌, ◌^◌, ◌≡◌, Bool, true, false, some, inl, inr, arith, nat_key, lookup, lookup-insert,
  Option-cases,
}
use uturn.Common.Bytes.{Bytes, Str}
use uturn.Addr.{IpAddr, SocketAddr, socket_key}
use uturn.Lookup.Allocation.{new_allocation}
use uturn.Lookup.Table.{AllocationTable, create_or_get}
use uturn.Lookup.Table.Census.{of_client, clients_at, clients_at-insert, IsNumbered}
use uturn.Lookup.Table.Clients.{IsIndexed}
use uturn.Lookup.Table.Reachable.{
  create_or_get_existing, create_or_get_new, created, created-IsIndexed,
}

pub data Made (t : AllocationTable) (addr : SocketAddr) (r : AllocationTable × (ℕ × Bool))
    : Type 0 where
  existing : (id : ℕ) → r ≡ (t, (id, false)) → Made t addr r
  made :
      (t' : AllocationTable) (id : ℕ)
      → r ≡ (t', (id, true))
      → IsIndexed t'
      → IsNumbered t'
      → ((ip : IpAddr) → clients_at ip t' ≡ of_client ip (some addr) + clients_at ip t)
      → Made t addr r

module _ (now : ℕ) (t : AllocationTable) (addr : SocketAddr) (username : Str) (lifetime : ℕ)
    (txn_id : Bytes) where
  created-IsNumbered : IsNumbered t → IsNumbered (created now t addr username lifetime txn_id)
  unfolding new_allocation
  created-IsNumbered n j i e = ground (
    arith,
    lookup-insert t.next_id j (new_allocation t.next_id now addr username lifetime txn_id)
        t.allocations,
    n j i,
    e,
  )

  pub create_or_get-Made :
      IsIndexed t
      → IsNumbered t
      → t.next_id + 1 < 2 ^ 64
      → Made t addr (create_or_get now t addr username lifetime txn_id)
  unfolding new_allocation
  create_or_get-Made h n small = elim (Option-cases (lookup addr t.by_client)) [
    | inl e ↦
        made (created now t addr username lifetime txn_id) t.next_id
          (create_or_get_new now t addr username lifetime txn_id e)
          (created-IsIndexed now t addr username lifetime txn_id h e small) (created-IsNumbered n)
          λ ip.
            clients_at-insert ip t.next_id
              (new_allocation t.next_id now addr username lifetime txn_id) t.allocations h.unique
              (h.fresh t.next_id (omega arith))
    | inr (id, e) ↦ existing id (create_or_get_existing now t addr username lifetime txn_id id e)
  ]
