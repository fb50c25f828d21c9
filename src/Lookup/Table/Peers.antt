-- ===== src/Lookup/Table/Peers.antt =====
-- First-come ownership of ICE fragments, and the pairing of ICE peers by them.
use uturn.Common.{
  ℕ, ◌≡◌, ◌≢◌, ◌↔◌, refl, inl, inr, Option, none, some, Bool, true, false, arith, nat_key,
  Option-cases, lookup, if◌then◌else◌,
}
use uturn.Common.Bytes.{Str}
use uturn.Addr.{octets_key}
use uturn.Lookup.Allocation.{Allocation}
use uturn.Lookup.Table.{AllocationTable, set_ufrags, register_ice_ufrags, find_ice_peer, peer_if}
use uturn.Lookup.Table.Ufrags.{
  ufrag_at, remote_of, remote_at, OwnsUfrags, holds_ufrag_sound, dropped_own, register_held,
  register_new, lookup-claimed, claimed-OwnsUfrags, set-OwnsUfrags,
}

register_missing :
    (t : AllocationTable) (id : ℕ) (l r : Str)
    → lookup id t.allocations ≡ none
    → register_ice_ufrags t id l r ≡ (t, false)
unfolding register_ice_ufrags
register_missing t id l r e = rw (e, register_ice_ufrags)

if-OwnsUfrags :
    (b : Bool) (x y : AllocationTable × Bool)
    → OwnsUfrags x.0
    → (b ≡ false → OwnsUfrags y.0)
    → OwnsUfrags (if b then x else y).0
if-OwnsUfrags true x y hx hy = hx
if-OwnsUfrags false x y hx hy = hy refl

-- `register_ice_ufrags` keeps the index by fragment exact, whatever it answers: a fragment leads
-- to an allocation exactly when that allocation holds it, also after an ICE restart has replaced
-- the fragment that the allocation held before.
pub register_ice_ufrags-OwnsUfrags :
    (t : AllocationTable) (id : ℕ) (l r : Str)
    → OwnsUfrags t
    → OwnsUfrags (register_ice_ufrags t id l r).0
register_ice_ufrags-OwnsUfrags t id l r h = elim (Option-cases (lookup id t.allocations)) [
  | inl e ↦ rw (register_missing t id l r e) h
  | inr (a, e) ↦ elim (Option-cases (lookup l t.by_ice_ufrag)) [
    | inl n ↦ rw (register_new t id a l r e n) (claimed-OwnsUfrags t id a l r e h n)
    | inr (owner, n) ↦
        rw (register_held t id a l r e owner n)
          (if-OwnsUfrags _ _ _ h (λ own. set-OwnsUfrags t id a l r e h (ground (arith, n, own))))
  ]
]

-- No hijack: a fragment that an allocation holds stays its own, whatever any other allocation
-- registers, in a table whose index by fragment is exact.
pub register_ice_ufrags-owner :
    (t : AllocationTable) (id owner : ℕ) (u l r : Str)
    → OwnsUfrags t
    → owner ≢ id
    → lookup u t.by_ice_ufrag ≡ some owner
    → lookup u (register_ice_ufrags t id l r).0.by_ice_ufrag ≡ some owner
unfolding set_ufrags
register_ice_ufrags-owner t id owner u l r h other held =
    elim (Option-cases (lookup id t.allocations)) [
      | inl e ↦ rw (register_missing t id l r e) held
      | inr (a, e) ↦ elim (Option-cases (lookup l t.by_ice_ufrag)) [
        | inl n ↦ rw (register_new t id a l r e n) (
            ground
              (arith, lookup-claimed t id a l r e u, (dropped_own t id a l r e u).0, (h u id).1))
        | inr (o, n) ↦ rw (register_held t id a l r e o n) (ground arith)
      ]
    ]

find_found :
    (t : AllocationTable) (x y : Str) (id : ℕ)
    → lookup y t.by_ice_ufrag ≡ some id
    → find_ice_peer t x y ≡ peer_if id x (lookup id t.allocations)
unfolding find_ice_peer
find_found t x y id e = rw (e, find_ice_peer)

find_missing :
    (t : AllocationTable) (x y : Str) → lookup y t.by_ice_ufrag ≡ none → find_ice_peer t x y ≡ none
unfolding find_ice_peer
find_missing t x y e = rw (e, find_ice_peer)

peer_if-holds :
    (o : Option Allocation) (id b : ℕ) (x : Str)
    → (peer_if id x o ≡ some b) ↔ ((id ≡ b) × (remote_of o ≡ some x))
peer_if-holds none id b x = ground arith
peer_if-holds (some a) id b x =
    ground (
      arith,
      (holds_ufrag_sound a.ice_remote_ufrag x).0,
      (holds_ufrag_sound a.ice_remote_ufrag x).1,
    )

peer_if-remote :
    (t : AllocationTable) (id b : ℕ) (x : Str)
    → (peer_if id x (lookup id t.allocations) ≡ some b) ↔ ((id ≡ b) × (remote_at t b ≡ some x))
peer_if-remote t id b x = ground (
  arith,
  (peer_if-holds (lookup id t.allocations) id b x).0,
  (peer_if-holds (lookup id t.allocations) id b x).1,
)

-- `find_ice_peer` finds exactly the mirror image: the allocation that holds the fragment the
-- sender talks to and talks to the fragment the sender holds, where the index is exact.
pub find_ice_peer-mirror :
    (t : AllocationTable) (sender_local sender_remote : Str) (id : ℕ)
    → OwnsUfrags t
    → (find_ice_peer t sender_local sender_remote ≡ some id)
      ↔ ((ufrag_at t id ≡ some sender_remote) × (remote_at t id ≡ some sender_local))
find_ice_peer-mirror t x y id h = elim (Option-cases (lookup y t.by_ice_ufrag)) [
  | inl e ↦ ground (arith, find_missing t x y e, (h y id).1)
  | inr (o, e) ↦ ground (
    arith,
    find_found t x y o e,
    (peer_if-remote t o id x).0,
    (peer_if-remote t o id x).1,
    (h y id).0,
    (h y id).1,
  )
]
