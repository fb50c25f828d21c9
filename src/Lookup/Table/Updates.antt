-- ===== src/Lookup/Table/Updates.antt =====
-- The operations that change an allocation in place, or an index, keep the index by client address.
use uturn.Common.{
  ℕ, ◌≡◌, refl, ◌∙◌, ap, inl, inr, Option, none, some, List, [], ◌∷◌, Bool, true, false, not, ◌=?◌,
  arith, nat_key, Option-cases, lookup, insert, erase, if◌then◌else◌,
}
use uturn.Common.Bytes.{Str}
use uturn.Addr.{IpAddr, SocketAddr, ip_key, socket_key, octets_key}
use uturn.Clock.{add64}
use uturn.Lookup.Allocation.{
  Allocation, bind_forward, bind_reverse, bind_channel, touch_relay_attempt, permit, set_ice_ufrag,
  set_ice_remote_ufrag, permission_lifetime_ms, holds_ufrag,
}
use uturn.Lookup.Table.{
  AllocationTable, register_ice_ufrags, register_of, claim_ufrag, drop_old_ufrag, set_ufrags,
  index_permission, add_permission, index_all, insert_all, try_add_permissions_capped, know_peer,
  register_peer_tuple,
}
use uturn.Lookup.Table.Steps.{
  Method, bind_channel_op, touch_op, touch_received_op, touch_relay_success_op,
  touch_relay_attempt_op, refresh_op, call, method_op, step,
}
use uturn.Lookup.Table.Clients.{
  SameClients, SameClients-refl, SameClients-trans, replace-SameClients,
}
use uturn.Lookup.Table.Reaping.{same}

-- The client and the id of an allocation stay.
abbrev SameHolder : Allocation → Allocation → Type 0
SameHolder a b = (b.client_addr ≡ a.client_addr) × (b.id ≡ a.id)

bind_channel-SameHolder :
    (now : ℕ) (a : Allocation) (channel : ℕ) (peer : SocketAddr)
    → SameHolder a (bind_channel now a channel peer)
unfolding bind_channel
bind_channel-SameHolder now a channel peer =
    let f = forward (lookup channel a.channels) in
    let r = reverse _ (lookup peer _) in (r.0 ∙ f.0, r.1 ∙ f.1)
  where
    reverse : (b : Allocation) (o : Option ℕ) → SameHolder b (bind_reverse channel peer o b)
    reverse b none = (refl, refl)
    reverse b (some old) = (refl, refl)

    forward : (o : Option _) → SameHolder a (bind_forward channel peer (add64 now 600_000) o a)
    forward none = (refl, refl)
    forward (some old) = ground arith

call-SameHolder : (m : Method) (a : Allocation) → SameHolder a (call m a)
unfolding call
call-SameHolder (bind_channel_op now channel peer) a = bind_channel-SameHolder now a channel peer
call-SameHolder (touch_op now) a = (refl, refl)
call-SameHolder (touch_received_op now) a = (refl, refl)
call-SameHolder (touch_relay_success_op now) a = (refl, refl)
call-SameHolder (touch_relay_attempt_op now) a = ground (arith, touch_relay_attempt)
call-SameHolder (refresh_op now lifetime_secs) a = (refl, refl)

update-SameClients :
    (t : AllocationTable) (id : ℕ) (a a' : Allocation)
    → lookup id t.allocations ≡ some a
    → SameHolder a a'
    → SameClients t (record t { allocations = insert id a' t.allocations })
update-SameClients t id a a' e c =
    replace-SameClients t id a' (ground (arith, e, c.0)) (ground (arith, e, c.1))

pub call-SameClients :
    (t : AllocationTable) (id : ℕ) (m : Method) → SameClients t (step (method_op id m) t)
unfolding step
call-SameClients t id m = elim (Option-cases (lookup id t.allocations)) [
  | inl e ↦ rw (e, step) (SameClients-refl t)
  | inr (a, e) ↦ rw (e, step) (update-SameClients t id a (call m a) e (call-SameHolder m a))
]

index_permission-SameClients :
    (t : AllocationTable) (ip : IpAddr) (id : ℕ) → SameClients t (index_permission t ip id)
unfolding index_permission
index_permission-SameClients t ip id = same t _ refl refl refl

index_all-SameClients :
    (ips : List IpAddr) (t : AllocationTable) (id : ℕ) → SameClients t (index_all t ips id)
unfolding index_all
index_all-SameClients [] t id = SameClients-refl t
index_all-SameClients (ip ∷ ips) t id =
    SameClients-trans t (index_permission t ip id) _ (index_permission-SameClients t ip id)
      (index_all-SameClients ips (index_permission t ip id) id)

pub add_permission-SameClients :
    (now : ℕ) (t : AllocationTable) (id : ℕ) (ip : IpAddr)
    → SameClients t (add_permission now t id ip)
unfolding add_permission permit
add_permission-SameClients now t id ip = elim (Option-cases (lookup id t.allocations)) [
  | inl e ↦ rw (e, add_permission) (index_permission-SameClients t ip id)
  | inr (a, e) ↦
      let t' = record t { allocations = insert id (permit now a ip) t.allocations } in
      rw (e, add_permission)
        (SameClients-trans t t' _ (update-SameClients t id a (permit now a ip) e (refl, refl))
          (index_permission-SameClients t' ip id))
]

if-SameClients :
    (t : AllocationTable) (b : Bool) (x y : AllocationTable × Bool)
    → SameClients t x.0
    → SameClients t y.0
    → SameClients t (if b then x else y).0
if-SameClients t true x y hx hy = hx
if-SameClients t false x y hx hy = hy

pub try_add_permissions_capped-SameClients :
    (now : ℕ) (t : AllocationTable) (id : ℕ) (ips : List IpAddr) (cap : ℕ)
    → SameClients t (try_add_permissions_capped now t id ips cap).0
unfolding try_add_permissions_capped
try_add_permissions_capped-SameClients now t id ips cap =
    elim (Option-cases (lookup id t.allocations)) [
      | inl e ↦ rw (e, try_add_permissions_capped) (SameClients-refl t)
      | inr (a, e) ↦
          let a' = record a {
            permissions = insert_all (add64 now permission_lifetime_ms) ips a.permissions;
          } in
          let t' = record t { allocations = insert id a' t.allocations } in
          rw (e, try_add_permissions_capped)
            (if-SameClients t _ _ _ (SameClients-refl t) (
              SameClients-trans t t' _ (update-SameClients t id a a' e (refl, refl))
                (index_all-SameClients ips t' id)))
    ]

know_peer-SameHolder :
    (now : ℕ) (a : Allocation) (peer : SocketAddr) → SameHolder a (know_peer now a peer)
unfolding know_peer
know_peer-SameHolder now a peer = elim (Option-cases (lookup peer a.known_peers)) [
  | inl e ↦ rw (e, know_peer) (refl, refl)
  | inr (i, e) ↦ rw (e, know_peer) (refl, refl)
]

pub register_peer_tuple-SameClients :
    (now : ℕ) (t : AllocationTable) (id : ℕ) (peer : SocketAddr)
    → SameClients t (register_peer_tuple now t id peer)
unfolding register_peer_tuple
register_peer_tuple-SameClients now t id peer = elim (Option-cases (lookup id t.allocations)) [
  | inl e ↦ rw (e, register_peer_tuple) (same t _ refl refl refl)
  | inr (a, e) ↦
      let t' = record t { by_peer_tuple = insert peer id t.by_peer_tuple } in
      rw (e, register_peer_tuple)
        (SameClients-trans t t' _ (same t _ refl refl refl)
          (update-SameClients t' id a (know_peer now a peer) e (know_peer-SameHolder now a peer)))
]

set-SameHolder :
    (a : Allocation) (l r : Str) → SameHolder a (set_ice_remote_ufrag (set_ice_ufrag a l).0 r).0
unfolding set_ice_remote_ufrag set_ice_ufrag
set-SameHolder a l r = ground (arith, holds_ufrag)

set_ufrags-SameClients :
    (t : AllocationTable) (id : ℕ) (a : Allocation) (l r : Str)
    → lookup id t.allocations ≡ some a
    → SameClients t (set_ufrags t id a l r)
unfolding set_ufrags
set_ufrags-SameClients t id a l r e = update-SameClients t id a _ e (set-SameHolder a l r)

drop_old_ufrag-SameClients :
    (t : AllocationTable) (o : Option Str) (l : Str)
    → (SameClients t (drop_old_ufrag t o l)) × ((drop_old_ufrag t o l).allocations ≡ t.allocations)
unfolding drop_old_ufrag
drop_old_ufrag-SameClients t none l = (SameClients-refl t, refl)
drop_old_ufrag-SameClients t (some old) l = go (not (old =? l))
  where
    go :
        (b : Bool)
        → (SameClients t (if b then record t { by_ice_ufrag = erase old t.by_ice_ufrag } else t))
          × ((if b then record t { by_ice_ufrag = erase old t.by_ice_ufrag } else t).allocations
              ≡ t.allocations)
    go true = (same t _ refl refl refl, refl)
    go false = (SameClients-refl t, refl)

claim_ufrag-SameClients :
    (t : AllocationTable) (id : ℕ) (a : Allocation) (l r : Str)
    → lookup id t.allocations ≡ some a
    → SameClients t (claim_ufrag t id a l r).0
unfolding claim_ufrag
claim_ufrag-SameClients t id a l r e = elim (Option-cases (lookup l t.by_ice_ufrag)) [
  | inl n ↦
      rw (n, claim_ufrag)
        (SameClients-trans t (set_ufrags t id a l r) _ (set_ufrags-SameClients t id a l r e)
          (same (set_ufrags t id a l r) _ refl refl refl))
  | inr (owner, n) ↦
      rw (n, claim_ufrag)
        (if-SameClients t _ _ _ (SameClients-refl t) (set_ufrags-SameClients t id a l r e))
]

register_of-SameClients :
    (t : AllocationTable) (id : ℕ) (a : Allocation) (l r : Str)
    → lookup id t.allocations ≡ some a
    → SameClients t (register_of t id a l r).0
unfolding register_of
register_of-SameClients t id a l r e = elim (Option-cases (lookup l t.by_ice_ufrag)) [
  | inl n ↦
      let t' = drop_old_ufrag t a.ice_ufrag l in
      let (s, kept) = drop_old_ufrag-SameClients t a.ice_ufrag l in
      rw (n, register_of)
        (SameClients-trans t t' _ s (claim_ufrag-SameClients t' id a l r (ap (lookup id) kept ∙ e)))
  | inr (owner, n) ↦
      rw (n, register_of)
        (if-SameClients t _ _ _ (SameClients-refl t) (set_ufrags-SameClients t id a l r e))
]

pub register_ice_ufrags-SameClients :
    (t : AllocationTable) (id : ℕ) (l r : Str) → SameClients t (register_ice_ufrags t id l r).0
unfolding register_ice_ufrags
register_ice_ufrags-SameClients t id l r = elim (Option-cases (lookup id t.allocations)) [
  | inl e ↦ rw (e, register_ice_ufrags) (SameClients-refl t)
  | inr (a, e) ↦ rw (e, register_ice_ufrags) (register_of-SameClients t id a l r e)
]
