-- ===== src/Lookup/Table/Reaping.antt =====
-- Removal and the clean-up passes keep the index by client address.
use uturn.Common.{
  ℕ, ◌≡◌, ◌≢◌, refl, sym, ◌∙◌, ap, subst, inl, inr, Option, none, some, List, [], ◌∷◌, Bool, true,
  false, arith, nat_key, Option-cases, lookup, insert, erase, lookup-erase, UniqueKeys,
  erase-UniqueKeys, if◌then◌else◌, lookup-cons_self, lookup-cons_ne,
}
use uturn.Addr.{IpAddr, SocketAddr, ip_key, socket_key}
use uturn.Lookup.Allocation.{
  Allocation, PeerInfo, drop_channels, cleanup_expired_channels, lapsed_channels,
  cleanup_expired_permissions,
}
use uturn.Lookup.Table.{AllocationTable}
use uturn.Lookup.Table.Clients.{
  number_of, id_at, client_of, client_at, IsIndexed, SameClients, SameClients-refl,
  SameClients-trans, SameClients-IsIndexed, replace-SameClients, erase-IsIndexed,
}
use uturn.Lookup.Table.Removal.{
  remove_from_permission_index, unindex_permissions, unindex_peers, unindex_ufrag, unindex, without,
  remove, reap, clean_channels, unindex_ips, clean_permissions, cleanup_channel_bindings,
  cleanup_permissions,
}

-- Tables that agree in all that the index by client is about.
pub same :
    (t t' : AllocationTable)
    → t'.allocations ≡ t.allocations
    → t'.by_client ≡ t.by_client
    → t'.next_id ≡ t.next_id
    → SameClients t t'
same t t' a c n = record {
  clients = c;
  next = n;
  at = λ id. ap (λ m. client_of (lookup id m)) a;
  ids = λ id. ap (λ m. number_of (lookup id m)) a;
  keeps = λ u. subst UniqueKeys (sym a) u;
}

pub remove_from_permission_index-SameClients :
    (t : AllocationTable) (ip : IpAddr) (id : ℕ)
    → SameClients t (remove_from_permission_index t ip id)
unfolding remove_from_permission_index
remove_from_permission_index-SameClients t ip id = elim (Option-cases (lookup ip t.by_permission)) [
  | inl e ↦ rw (e, remove_from_permission_index) (SameClients-refl t)
  | inr (ids, e) ↦ rw (e, remove_from_permission_index) (pruned (without id ids))
]
  where
    pruned :
        (ids : List ℕ)
        → SameClients t (elim ids [
          | [] ↦ record t { by_permission = erase ip t.by_permission }
          | i ∷ is ↦ record t { by_permission = insert ip (i ∷ is) t.by_permission }
        ])
    pruned [] = same t _ refl refl refl
    pruned (i ∷ is) = same t _ refl refl refl

unindex_permissions-SameClients :
    (perms : List (IpAddr × ℕ)) (t : AllocationTable) (id : ℕ)
    → SameClients t (unindex_permissions t perms id)
unfolding unindex_permissions
unindex_permissions-SameClients [] t id = SameClients-refl t
unindex_permissions-SameClients ((ip, e) ∷ perms) t id =
    SameClients-trans t (remove_from_permission_index t ip id) _
      (remove_from_permission_index-SameClients t ip id)
      (unindex_permissions-SameClients perms (remove_from_permission_index t ip id) id)

unindex_ips-SameClients :
    (ips : List IpAddr) (t : AllocationTable) (id : ℕ) → SameClients t (unindex_ips t ips id)
unfolding unindex_ips
unindex_ips-SameClients [] t id = SameClients-refl t
unindex_ips-SameClients (ip ∷ ips) t id =
    SameClients-trans t (remove_from_permission_index t ip id) _
      (remove_from_permission_index-SameClients t ip id)
      (unindex_ips-SameClients ips (remove_from_permission_index t ip id) id)

unindex_peers-SameClients :
    (peers : List (SocketAddr × PeerInfo)) (t : AllocationTable)
    → SameClients t (unindex_peers t peers)
unfolding unindex_peers
unindex_peers-SameClients [] t = SameClients-refl t
unindex_peers-SameClients ((peer, i) ∷ peers) t =
    SameClients-trans t (record t { by_peer_tuple = erase peer t.by_peer_tuple }) _
      (same t _ refl refl refl)
      (unindex_peers-SameClients peers (record t { by_peer_tuple = erase peer t.by_peer_tuple }))

unindex_ufrag-SameClients :
    (ufrag : Option (List ℕ)) (t : AllocationTable) → SameClients t (unindex_ufrag t ufrag)
unfolding unindex_ufrag
unindex_ufrag-SameClients none t = SameClients-refl t
unindex_ufrag-SameClients (some u) t = same t _ refl refl refl

-- `unindex` takes exactly the client's entry out of the index by client.
pub unindex-SameClients :
    (t : AllocationTable) (id : ℕ) (a : Allocation)
    → SameClients (record t { by_client = erase a.client_addr t.by_client }) (unindex t id a)
unfolding unindex
unindex-SameClients t id a =
    let t1 = record t { by_client = erase a.client_addr t.by_client } in
    let t2 = unindex_ufrag t1 a.ice_ufrag in
    let t3 = unindex_permissions t2 a.permissions id in
    SameClients-trans t1 t2 _ (unindex_ufrag-SameClients a.ice_ufrag t1) (
      SameClients-trans t2 t3 _ (unindex_permissions-SameClients a.permissions t2 id)
        (unindex_peers-SameClients a.known_peers t3))

module _ (t : AllocationTable) (id : ℕ) (a : Allocation) (h : IsIndexed t)
    (e : client_at t id ≡ some a.client_addr) where
  remove_entry-IsIndexed :
      IsIndexed (unindex (record t { allocations = erase id t.allocations }) id a)
  remove_entry-IsIndexed =
      let t' = record t { allocations = erase id t.allocations } in
      SameClients-IsIndexed (record t' { by_client = erase a.client_addr t.by_client }) _
        (unindex-SameClients t' id a) (erase-IsIndexed t id a.client_addr h e)

  abbrev pub reaped : AllocationTable
  reaped = record (unindex t id a) { allocations = erase id (unindex t id a).allocations }

  pub client_at-reaped :
      (j : ℕ) → client_at reaped j ≡ client_of (lookup j (erase id t.allocations))
  client_at-reaped j = ground (
    arith,
    lookup-erase id j (unindex t id a).allocations,
    lookup-erase id j t.allocations,
    (unindex-SameClients t id a).at j,
  )

  pub reaped-IsIndexed : IsIndexed reaped
  reaped-IsIndexed =
      let s = unindex-SameClients t id a in
      let h' = erase-IsIndexed t id a.client_addr h e in
      record {
        index = λ x i.
            ground (arith, s.clients, client_at-reaped i, (h'.index x i).0, (h'.index x i).1);
        fresh = λ i later. ground (arith, s.next, client_at-reaped i, h'.fresh i);
        unique = erase-UniqueKeys id (unindex t id a).allocations (s.keeps h.unique);
      }

-- The entries that a pass is still to visit stand in the table, under their clients.
abbrev pub Pending : List (ℕ × Allocation) → AllocationTable → Type 0
Pending entries t =
    (j : ℕ) (b : Allocation) → lookup j entries ≡ some b → client_at t j ≡ some b.client_addr

absent :
    (id j : ℕ) (b : Allocation) (entries : List (ℕ × Allocation))
    → lookup id entries ≡ none
    → lookup j entries ≡ some b
    → j ≢ id
absent id j b entries fresh found e = ground (arith, subst (λ i. lookup i entries ≡ some b) e found)

pub Pending-tail :
    (id : ℕ) (a : Allocation) (entries : List (ℕ × Allocation)) (t : AllocationTable)
    → lookup id entries ≡ none
    → Pending ((id, a) ∷ entries) t
    → Pending entries t
Pending-tail id a entries t fresh p j b found =
    p j b (lookup-cons_ne j id a entries (absent id j b entries fresh found) ∙ found)

pub Pending-reaped :
    (id : ℕ) (a : Allocation) (entries : List (ℕ × Allocation)) (t : AllocationTable)
    → (h : IsIndexed t) → (e : client_at t id ≡ some a.client_addr) → lookup id entries ≡ none
    → Pending entries t
    → Pending entries (reaped t id a h e)
Pending-reaped id a entries t h e fresh p j b found = ground (
  arith,
  client_at-reaped t id a h e j,
  lookup-erase id j t.allocations,
  p j b found,
  absent id j b entries fresh found,
)

if-IsIndexed :
    (b : Bool) (x y : AllocationTable × List IpAddr)
    → IsIndexed x.0
    → IsIndexed y.0
    → IsIndexed (if b then x else y).0
if-IsIndexed true x y hx hy = hx
if-IsIndexed false x y hx hy = hy

pub reap-IsIndexed :
    (dead : Allocation → Bool) (entries : List (ℕ × Allocation)) (t : AllocationTable)
    → UniqueKeys entries
    → Pending entries t
    → IsIndexed t
    → IsIndexed (reap dead entries t).0
unfolding reap
reap-IsIndexed dead [] t u p h = h
reap-IsIndexed dead ((id, a) ∷ entries) t (fresh, u) p h =
    let here = p id a (lookup-cons_self id a entries) in
    let rest = Pending-tail id a entries t fresh p in
    if-IsIndexed (dead a) _ _
      (reap-IsIndexed dead entries (reaped t id a h here) u
        (Pending-reaped id a entries t h here fresh rest) (reaped-IsIndexed t id a h here))
      (reap-IsIndexed dead entries t u rest h)

if-next_id :
    {n : ℕ} (b : Bool) (x y : AllocationTable × List IpAddr)
    → x.0.next_id ≡ n
    → y.0.next_id ≡ n
    → (if b then x else y).0.next_id ≡ n
if-next_id true x y hx hy = hx
if-next_id false x y hx hy = hy

pub next_id-reap :
    (dead : Allocation → Bool) (entries : List (ℕ × Allocation)) (t : AllocationTable)
    → (reap dead entries t).0.next_id ≡ t.next_id
unfolding reap
next_id-reap dead [] t = refl
next_id-reap dead ((id, a) ∷ entries) t =
    let t' = record (unindex t id a) { allocations = erase id (unindex t id a).allocations } in
    if-next_id (dead a) _ _ (next_id-reap dead entries t' ∙ (unindex-SameClients t id a).next)
      (next_id-reap dead entries t)

pub next_id-remove : (t : AllocationTable) (id : ℕ) → (remove t id).0.next_id ≡ t.next_id
unfolding remove
next_id-remove t id = elim (Option-cases (lookup id t.allocations)) [
  | inl e ↦ rw (e, remove)
  | inr (a, e) ↦
      rw (e, remove)
        (unindex-SameClients (record t { allocations = erase id t.allocations }) id a).next
]

pub Pending-all : (t : AllocationTable) → Pending t.allocations t
Pending-all t j b found = ap client_of found

pub remove-IsIndexed : (t : AllocationTable) (id : ℕ) → IsIndexed t → IsIndexed (remove t id).0
unfolding remove
remove-IsIndexed t id h = elim (Option-cases (lookup id t.allocations)) [
  | inl e ↦ rw (e, remove) h
  | inr (a, e) ↦ rw (e, remove) (remove_entry-IsIndexed t id a h (ap client_of e))
]

client_addr-drop_channels :
    (lapsed : List (ℕ × SocketAddr)) (a : Allocation)
    → (drop_channels lapsed a).client_addr ≡ a.client_addr
unfolding drop_channels
client_addr-drop_channels [] a = refl
client_addr-drop_channels ((c, p) ∷ lapsed) a = client_addr-drop_channels lapsed _

client_addr-cleanup :
    (now : ℕ) (a : Allocation) → (cleanup_expired_channels now a).client_addr ≡ a.client_addr
unfolding cleanup_expired_channels
client_addr-cleanup now a = client_addr-drop_channels (lapsed_channels now a.channels) a

lookup-clean_channels :
    (now : ℕ) (entries : List (ℕ × Allocation)) (j : ℕ)
    → client_of (lookup j (clean_channels now entries)) ≡ client_of (lookup j entries)
unfolding clean_channels lookup
lookup-clean_channels now [] j = refl
lookup-clean_channels now ((id, a) ∷ entries) j =
    ground (arith, client_addr-cleanup now a, lookup-clean_channels now entries j)

id-drop_channels :
    (lapsed : List (ℕ × SocketAddr)) (a : Allocation) → (drop_channels lapsed a).id ≡ a.id
unfolding drop_channels
id-drop_channels [] a = refl
id-drop_channels ((c, p) ∷ lapsed) a = id-drop_channels lapsed _

id-cleanup : (now : ℕ) (a : Allocation) → (cleanup_expired_channels now a).id ≡ a.id
unfolding cleanup_expired_channels
id-cleanup now a = id-drop_channels (lapsed_channels now a.channels) a

number-clean_channels :
    (now : ℕ) (entries : List (ℕ × Allocation)) (j : ℕ)
    → number_of (lookup j (clean_channels now entries)) ≡ number_of (lookup j entries)
unfolding clean_channels lookup
number-clean_channels now [] j = refl
number-clean_channels now ((id, a) ∷ entries) j =
    ground (arith, id-cleanup now a, number-clean_channels now entries j)

none_of : (o : Option Allocation) → client_of o ≡ none → o ≡ none
none_of none e = refl
none_of (some a) e = ground arith

clean_channels-UniqueKeys :
    (now : ℕ) (entries : List (ℕ × Allocation))
    → UniqueKeys entries
    → UniqueKeys (clean_channels now entries)
unfolding clean_channels
clean_channels-UniqueKeys now [] u = u
clean_channels-UniqueKeys now ((id, a) ∷ entries) (fresh, u) = (
  none_of _ (lookup-clean_channels now entries id ∙ ap client_of fresh),
  clean_channels-UniqueKeys now entries u,
)

pub cleanup_channel_bindings-SameClients :
    (now : ℕ) (t : AllocationTable) → SameClients t (cleanup_channel_bindings now t)
unfolding cleanup_channel_bindings
cleanup_channel_bindings-SameClients now t = record {
  clients = refl;
  next = refl;
  at = λ j. lookup-clean_channels now t.allocations j;
  ids = λ j. number-clean_channels now t.allocations j;
  keeps = λ u. clean_channels-UniqueKeys now t.allocations u;
}

-- They keep the ids that they give themselves, too.
abbrev Numbered : List (ℕ × Allocation) → AllocationTable → Type 0
Numbered entries t = (j : ℕ) (b : Allocation) → lookup j entries ≡ some b → id_at t j ≡ some b.id

clean_permissions-SameClients :
    (now : ℕ) (entries : List (ℕ × Allocation)) (t : AllocationTable)
    → UniqueKeys entries
    → Pending entries t
    → Numbered entries t
    → SameClients t (clean_permissions now entries t)
unfolding clean_permissions cleanup_expired_permissions
clean_permissions-SameClients now [] t u p n = SameClients-refl t
clean_permissions-SameClients now ((id, a) ∷ entries) t (fresh, u) p n =
    let cleaned = cleanup_expired_permissions now a in
    let t1 = record t { allocations = insert id cleaned.0 t.allocations } in
    let t2 = unindex_ips t1 cleaned.1 id in
    let here = p id a (lookup-cons_self id a entries) in
    let rest = Pending-tail id a entries t fresh p in
    let s =
      SameClients-trans t t1 t2
        (replace-SameClients t id cleaned.0 here (n id a (lookup-cons_self id a entries)))
        (unindex_ips-SameClients cleaned.1 t1 id) in
    SameClients-trans t t2 _ s (
      clean_permissions-SameClients now entries t2 u (λ j b found. s.at j ∙ rest j b found)
        λ j b found.
          s.ids j
          ∙ n j b (lookup-cons_ne j id a entries (absent id j b entries fresh found) ∙ found))

pub cleanup_permissions-SameClients :
    (now : ℕ) (t : AllocationTable) → IsIndexed t → SameClients t (cleanup_permissions now t)
unfolding cleanup_permissions
cleanup_permissions-SameClients now t h =
    clean_permissions-SameClients now t.allocations t h.unique (Pending-all t)
      λ j b found. ap number_of found
