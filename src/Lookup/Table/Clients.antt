-- ===== src/Lookup/Table/Clients.antt =====
-- The index by client address: one allocation per client, and none that is not in the index.
use uturn.Common.{
  ℕ, ◌+◌, ◌≤◌, ◌<◌, ◌^◌, ◌≡◌, ◌↔◌, refl, ◌∙◌, Option, none, some, arith, nat_key, lookup, insert,
  erase, lookup-insert, lookup-erase, UniqueKeys, insert-UniqueKeys, erase-UniqueKeys,
}
use uturn.Addr.{SocketAddr, ip_key, socket_key}
use uturn.Clock.{add64}
use uturn.Lookup.Allocation.{Allocation}
use uturn.Lookup.Table.{AllocationTable}

abbrev pub client_of : Option Allocation → Option SocketAddr
client_of none = none
client_of (some a) = some a.client_addr

abbrev pub number_of : Option Allocation → Option ℕ
number_of none = none
number_of (some a) = some a.id

-- The id that the allocation under an id gives itself.
abbrev pub id_at : AllocationTable → ℕ → Option ℕ
id_at t id = number_of (lookup id t.allocations)

-- The client whose allocation stands under an id.
abbrev pub client_at : AllocationTable → ℕ → Option SocketAddr
client_at t id = client_of (lookup id t.allocations)

-- The index leads from a client to exactly the allocation that names it, no id from the counter
-- on is in use, and no id stands twice.
pub record IsIndexed (t : AllocationTable) : Type 0 where
  pub index :
      (addr : SocketAddr) (id : ℕ)
      → (lookup addr t.by_client ≡ some id) ↔ (client_at t id ≡ some addr)
  pub fresh : (id : ℕ) → t.next_id ≤ id → client_at t id ≡ none
  pub unique : UniqueKeys t.allocations

-- Nothing changed that the index by client is about.
pub record SameClients (t t' : AllocationTable) : Type 0 where
  pub clients : t'.by_client ≡ t.by_client
  pub next : t'.next_id ≡ t.next_id
  pub at : (id : ℕ) → client_at t' id ≡ client_at t id
  pub ids : (id : ℕ) → id_at t' id ≡ id_at t id
  pub keeps : UniqueKeys t.allocations → UniqueKeys t'.allocations

pub SameClients-refl : (t : AllocationTable) → SameClients t t
SameClients-refl t = record {
  clients = refl;
  next = refl;
  at = λ id. refl;
  ids = λ id. refl;
  keeps = λ u. u;
}

pub SameClients-trans :
    (t u v : AllocationTable) → SameClients t u → SameClients u v → SameClients t v
SameClients-trans t u v p q = record {
  clients = q.clients ∙ p.clients;
  next = q.next ∙ p.next;
  at = λ id. q.at id ∙ p.at id;
  ids = λ id. q.ids id ∙ p.ids id;
  keeps = λ x. q.keeps (p.keeps x);
}

pub SameClients-IsIndexed : (t t' : AllocationTable) → SameClients t t' → IsIndexed t → IsIndexed t'
SameClients-IsIndexed t t' s h = record {
  index = λ addr id. ground (arith, s.clients, s.at id, (h.index addr id).0, (h.index addr id).1);
  fresh = λ id later. ground (arith, s.next, s.at id, h.fresh id);
  unique = s.keeps h.unique;
}

-- An entry replaced by one of the same client and id.
pub replace-SameClients :
    (t : AllocationTable) (id : ℕ) (a : Allocation)
    → client_at t id ≡ some a.client_addr
    → id_at t id ≡ some a.id
    → SameClients t (record t { allocations = insert id a t.allocations })
replace-SameClients t id a h i = record {
  clients = refl;
  next = refl;
  at = λ j. ground (arith, lookup-insert id j a t.allocations, h);
  ids = λ j. ground (arith, lookup-insert id j a t.allocations, i);
  keeps = λ u. insert-UniqueKeys id a t.allocations u;
}

pub insert_new-IsIndexed :
    (t : AllocationTable) (id : ℕ) (a : Allocation) (addr : SocketAddr)
    → IsIndexed t
    → t.next_id ≡ id
    → a.client_addr ≡ addr
    → lookup addr t.by_client ≡ none
    → id + 1 < 2 ^ 64
    → IsIndexed (record t {
      allocations = insert id a t.allocations;
      next_id = add64 id 1;
      by_client = insert addr id t.by_client;
    })
insert_new-IsIndexed t id a addr h n c vacant small = record {
  index = λ x i. ground (
    arith,
    lookup-insert addr x id t.by_client,
    lookup-insert id i a t.allocations,
    (h.index x i).0,
    (h.index x i).1,
    h.fresh id,
    (h.index x id).0,
    (h.index addr i).1,
  );
  fresh = λ i later. ground (arith, lookup-insert id i a t.allocations, h.fresh i, in_range);
  unique = insert-UniqueKeys id a t.allocations h.unique;
}
  where
    in_range : add64 id 1 ≡ id + 1
    in_range = omega arith

pub erase-IsIndexed :
    (t : AllocationTable) (id : ℕ) (addr : SocketAddr)
    → IsIndexed t
    → client_at t id ≡ some addr
    → IsIndexed
        (record t { allocations = erase id t.allocations; by_client = erase addr t.by_client })
erase-IsIndexed t id addr h e = record {
  index = λ x i. ground (
    arith,
    lookup-erase addr x t.by_client,
    lookup-erase id i t.allocations,
    (h.index x i).0,
    (h.index x i).1,
    (h.index addr i).0,
    (h.index addr id).1,
    (h.index addr i).1,
    (h.index x id).0,
  );
  fresh = λ i later. ground (arith, lookup-erase id i t.allocations, h.fresh i);
  unique = erase-UniqueKeys id t.allocations h.unique;
}
