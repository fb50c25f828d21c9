-- ===== src/Lookup/Table/Departures.antt =====
-- What leaves the table: a removal takes one allocation from its address, and a pass as many from
-- each address as it reports.
use uturn.Common.{
  ℕ, ◌+◌, ◌≡◌, refl, ap, some, List, [], ◌∷◌, Bool, true, false, ◌=?◌, if◌then◌else◌, arith,
  nat_key, lookup, erase, lookup-erase, UniqueKeys, erase-UniqueKeys, lookup-cons_self, inl, inr,
  Option-cases,
}
use uturn.Addr.{IpAddr, ip_key, socket_key}
use uturn.Lookup.Allocation.{Allocation}
use uturn.Lookup.Table.{AllocationTable}
use uturn.Lookup.Table.Census.{
  of_client, census-erase, census-same, clients_at, IsNumbered, SameClients-clients_at,
}
use uturn.Lookup.Table.Clients.{client_of, client_at, IsIndexed}
use uturn.Lookup.Table.Reaping.{
  unindex-SameClients, reaped, client_at-reaped, reaped-IsIndexed, Pending, Pending-tail,
  Pending-reaped,
}
use uturn.Lookup.Table.Removal.{unindex, remove, reap}

-- How often an address was reported.
unfoldable pub tally : IpAddr → List IpAddr → ℕ
tally ip [] = 0
tally ip (x ∷ xs) = (if x =? ip then 1 else 0) + tally ip xs

module _ (t : AllocationTable) (id : ℕ) (a : Allocation) (h : IsIndexed t)
    (e : client_at t id ≡ some a.client_addr) where
  clients_at-reaped :
      (ip : IpAddr)
      → clients_at ip t ≡ of_client ip (some a.client_addr) + clients_at ip (reaped t id a h e)
  clients_at-reaped ip = omega (
    arith,
    census-erase ip id t.allocations h.unique,
    ap (of_client ip) e,
    census-same ip (erase id t.allocations) (reaped t id a h e).allocations
        (erase-UniqueKeys id t.allocations h.unique) (reaped-IsIndexed t id a h e).unique
        (client_at-reaped t id a h e),
  )

  reaped-IsNumbered : IsNumbered t → IsNumbered (reaped t id a h e)
  reaped-IsNumbered n j i found = ground (
    arith,
    lookup-erase id j (unindex t id a).allocations,
    (unindex-SameClients t id a).ids j,
    n j i,
    found,
  )

  clients_at-removed :
      (ip : IpAddr)
      → clients_at ip t
        ≡ of_client ip (some a.client_addr)
          + clients_at ip (unindex (record t { allocations = erase id t.allocations }) id a)
  clients_at-removed ip =
      let t' = record t { allocations = erase id t.allocations } in
      omega (
        arith,
        census-erase ip id t.allocations h.unique,
        ap (of_client ip) e,
        SameClients-clients_at ip (record t' { by_client = erase a.client_addr t.by_client }) _
            (unindex-SameClients t' id a) (erase-UniqueKeys id t.allocations h.unique),
      )

  removed-IsNumbered :
      IsNumbered t → IsNumbered (unindex (record t { allocations = erase id t.allocations }) id a)
  removed-IsNumbered n j i found =
      let t' = record t { allocations = erase id t.allocations } in
      ground
        (arith, lookup-erase id j t.allocations, (unindex-SameClients t' id a).ids j, n j i, found)

-- What a removal and its answer do: nothing, or one allocation less for the client's address.
pub data Removed (t : AllocationTable) (id : ℕ) (r : AllocationTable × Bool) : Type 0 where
  absent : r ≡ (t, false) → Removed t id r
  present :
      (a : Allocation)
      → client_at t id ≡ some a.client_addr
      → r.1 ≡ true
      → ((ip : IpAddr) → clients_at ip t ≡ of_client ip (some a.client_addr) + clients_at ip r.0)
      → (IsNumbered t → IsNumbered r.0)
      → Removed t id r

pub remove-Removed : (t : AllocationTable) (id : ℕ) → IsIndexed t → Removed t id (remove t id)
unfolding remove
remove-Removed t id h = elim (Option-cases (lookup id t.allocations)) [
  | inl e ↦ rw (e, remove) (absent refl)
  | inr (a, e) ↦
      let at = ap client_of e in
      rw (e, remove)
        (present a at refl (clients_at-removed t id a h at) (removed-IsNumbered t id a h at))
]

-- What a pass reports is what it took.
pub record Reaped (t : AllocationTable) (r : AllocationTable × List IpAddr) : Type 0 where
  pub counts : (ip : IpAddr) → clients_at ip t ≡ tally ip r.1 + clients_at ip r.0
  pub numbered : IsNumbered t → IsNumbered r.0

if-Reaped :
    (t : AllocationTable) (b : Bool) (x y : AllocationTable × List IpAddr)
    → Reaped t x
    → Reaped t y
    → Reaped t (if b then x else y)
if-Reaped t true x y hx hy = hx
if-Reaped t false x y hx hy = hy

pub reap-Reaped :
    (dead : Allocation → Bool) (entries : List (ℕ × Allocation)) (t : AllocationTable)
    → UniqueKeys entries
    → Pending entries t
    → IsIndexed t
    → Reaped t (reap dead entries t)
unfolding reap tally
reap-Reaped dead [] t u p h = record { counts = λ ip. omega arith; numbered = λ n. n }
reap-Reaped dead ((id, a) ∷ entries) t (fresh, u) p h =
    let here = p id a (lookup-cons_self id a entries) in
    let rest = Pending-tail id a entries t fresh p in
    let gone =
      reap-Reaped dead entries (reaped t id a h here) u
        (Pending-reaped id a entries t h here fresh rest) (reaped-IsIndexed t id a h here) in
    if-Reaped t (dead a) _ _
      (record {
        counts = λ ip. omega (arith, gone.counts ip, clients_at-reaped t id a h here ip);
        numbered = λ n. gone.numbered (reaped-IsNumbered t id a h here n);
      })
      (reap-Reaped dead entries t u rest h)
