-- ===== src/Lookup/Table/Ufrags.antt =====
-- The index by ICE username fragment: who owns a fragment, and which allocations are ICE peers.
use uturn.Common.{
  ℕ, ◌&&◌, ◌≡◌, ◌≢◌, ◌↔◌, refl, inl, inr, Option, none, some, Bool, true, false, not, arith, ite,
  nat_key, ℕ_discrete, Option-cases, lookup, insert, lookup-insert, lookup-erase, ◌=?◌,
  if◌then◌else◌,
}
use uturn.Common.Bytes.{Str}
use uturn.Addr.{octets_key, Octets-discrete}
use uturn.Lookup.Allocation.{Allocation, set_ice_ufrag, set_ice_remote_ufrag, holds_ufrag}
use uturn.Lookup.Table.{
  AllocationTable, set_ufrags, drop_old_ufrag, claim_ufrag, register_of, register_ice_ufrags,
}

abbrev pub ufrag_of : Option Allocation → Option Str
ufrag_of none = none
ufrag_of (some a) = a.ice_ufrag

abbrev pub remote_of : Option Allocation → Option Str
remote_of none = none
remote_of (some a) = a.ice_remote_ufrag

-- The fragment that an allocation holds, and the one of the peer that it talks to.
abbrev pub ufrag_at : AllocationTable → ℕ → Option Str
ufrag_at t id = ufrag_of (lookup id t.allocations)

abbrev pub remote_at : AllocationTable → ℕ → Option Str
remote_at t id = remote_of (lookup id t.allocations)

-- The index leads from a fragment to exactly the allocation that holds it.
abbrev pub OwnsUfrags : AllocationTable → Type 0
OwnsUfrags t = (u : Str) (id : ℕ) → (lookup u t.by_ice_ufrag ≡ some id) ↔ (ufrag_at t id ≡ some u)

pub holds_ufrag_sound : (o : Option Str) (u : Str) → (holds_ufrag o u ≡ true) ↔ (o ≡ some u)
holds_ufrag_sound none u = ground arith
holds_ufrag_sound (some v) u = ground arith

set-ufrag :
    (a : Allocation) (l r : Str)
    → (set_ice_remote_ufrag (set_ice_ufrag a l).0 r).0.ice_ufrag ≡ some l
unfolding set_ice_remote_ufrag set_ice_ufrag
set-ufrag a l r = ground (arith, holds_ufrag_sound a.ice_ufrag l)

set-remote :
    (a : Allocation) (l r : Str)
    → (set_ice_remote_ufrag (set_ice_ufrag a l).0 r).0.ice_remote_ufrag ≡ some r
unfolding set_ice_remote_ufrag set_ice_ufrag
set-remote a l r = ground (arith, holds_ufrag_sound a.ice_remote_ufrag r)

ufrag_at-set_ufrags :
    (t : AllocationTable) (id : ℕ) (a : Allocation) (l r : Str) (j : ℕ)
    → ufrag_at (set_ufrags t id a l r) j ≡ ite (ℕ_discrete j id) (some l) (ufrag_at t j)
unfolding set_ufrags
ufrag_at-set_ufrags t id a l r j = ground (
  arith,
  lookup-insert id j (set_ice_remote_ufrag (set_ice_ufrag a l).0 r).0 t.allocations,
  set-ufrag a l r,
)

abbrev pub dropped : Option Str → Str → Str → Bool
dropped none l u = false
dropped (some old) l u = not (old =? l) && (u =? old)

lookup-drop_old_ufrag :
    (t : AllocationTable) (o : Option Str) (l u : Str)
    → lookup u (drop_old_ufrag t o l).by_ice_ufrag
      ≡ (if dropped o l u then none else lookup u t.by_ice_ufrag)
unfolding drop_old_ufrag
lookup-drop_old_ufrag t none l u = refl
lookup-drop_old_ufrag t (some old) l u = ground (arith, lookup-erase old u t.by_ice_ufrag)

allocations-drop_old_ufrag :
    (t : AllocationTable) (o : Option Str) (l : Str)
    → (drop_old_ufrag t o l).allocations ≡ t.allocations
unfolding drop_old_ufrag
allocations-drop_old_ufrag t none l = refl
allocations-drop_old_ufrag t (some old) l = ground arith

module _ (t : AllocationTable) (id : ℕ) (a : Allocation) (l r : Str)
    (here : lookup id t.allocations ≡ some a) where
  abbrev pub claimed : AllocationTable
  claimed =
      let t' = drop_old_ufrag t a.ice_ufrag l in
      record (set_ufrags t' id a l r) { by_ice_ufrag = insert l id t'.by_ice_ufrag }

  pub register_held :
      (owner : ℕ)
      → lookup l t.by_ice_ufrag ≡ some owner
      → register_ice_ufrags t id l r
        ≡ (if not (owner =? id) then (t, false) else (set_ufrags t id a l r, true))
  unfolding register_ice_ufrags register_of
  register_held owner e = rw (here, register_ice_ufrags) (rw (e, register_of))

  vacant :
      lookup l t.by_ice_ufrag ≡ none → lookup l (drop_old_ufrag t a.ice_ufrag l).by_ice_ufrag ≡ none
  vacant e = ground (arith, lookup-drop_old_ufrag t a.ice_ufrag l l)

  claim_vacant :
      (t' : AllocationTable)
      → lookup l t'.by_ice_ufrag ≡ none
      → claim_ufrag t' id a l r
        ≡ (record (set_ufrags t' id a l r) { by_ice_ufrag = insert l id t'.by_ice_ufrag }, true)
  unfolding claim_ufrag set_ufrags
  claim_vacant t' e = rw (e, claim_ufrag)

  pub register_new : lookup l t.by_ice_ufrag ≡ none → register_ice_ufrags t id l r ≡ (claimed, true)
  unfolding register_ice_ufrags register_of
  register_new e =
      rw (here, register_ice_ufrags)
        (rw (e, register_of) (claim_vacant (drop_old_ufrag t a.ice_ufrag l) (vacant e)))

  pub lookup-claimed :
      (u : Str)
      → lookup u claimed.by_ice_ufrag
        ≡ ite
            (Octets-discrete u l)
            (some id)
            (if dropped a.ice_ufrag l u then none else lookup u t.by_ice_ufrag)
  lookup-claimed u = ground (
    arith,
    lookup-insert l u id (drop_old_ufrag t a.ice_ufrag l).by_ice_ufrag,
    lookup-drop_old_ufrag t a.ice_ufrag l u,
  )

  ufrag_at-claimed : (j : ℕ) → ufrag_at claimed j ≡ ite (ℕ_discrete j id) (some l) (ufrag_at t j)
  ufrag_at-claimed j = ground (
    arith,
    ufrag_at-set_ufrags (drop_old_ufrag t a.ice_ufrag l) id a l r j,
    allocations-drop_old_ufrag t a.ice_ufrag l,
  )

  pub dropped_own :
      (u : Str) → (dropped a.ice_ufrag l u ≡ true) ↔ ((ufrag_at t id ≡ some u) × (u ≢ l))
  dropped_own u = elim (Option-cases a.ice_ufrag) [
    | inl e ↦ ground (arith, here, e)
    | inr (old, e) ↦ ground (arith, here, e)
  ]

  pub claimed-OwnsUfrags : OwnsUfrags t → lookup l t.by_ice_ufrag ≡ none → OwnsUfrags claimed
  claimed-OwnsUfrags h e u j = ground (
    arith,
    lookup-claimed u,
    ufrag_at-claimed j,
    (dropped_own u).0,
    (dropped_own u).1,
    (h u j).0,
    (h u j).1,
    (h u id).0,
    (h u id).1,
    (h l j).1,
  )

  pub set-OwnsUfrags :
      OwnsUfrags t → lookup l t.by_ice_ufrag ≡ some id → OwnsUfrags (set_ufrags t id a l r)
  unfolding set_ufrags
  set-OwnsUfrags h e u j = ground (
    arith,
    ufrag_at-set_ufrags t id a l r j,
    (h u j).0,
    (h u j).1,
    (h l id).0,
    (h l j).1,
    (h u id).0,
  )
