-- ===== src/Lookup/Allocation/Permissions.antt =====
-- The permissions of an allocation: five minutes from the request, and the reaping of lapsed ones.
use uturn.Common.{
  ℕ, ◌+◌, ◌^◌, ◌<◌, ◌≡◌, ◌≢◌, ◌↔◌, ◌≤◌, refl, sym, subst, Bool, true, false, Option, none, some,
  List, [], ◌∷◌, arith, ite, ltb, leb, lookup, erase, lookup-insert, lookup-erase, elem, UniqueKeys,
  if◌then◌else◌, Option-cases, inl, inr,
}
use uturn.Addr.{IpAddr, IpAddr-discrete, ip_key}
use uturn.Clock.{add64}
use uturn.Lookup.Allocation.{
  Allocation, is_permitted, permit, permission_lifetime_ms, expired_ips, erase_all,
  cleanup_expired_permissions,
}

-- `add_permission` permits the address until five minutes after the call and no longer, and
-- changes no other address's permission, when the clock is not within five minutes of
-- 2 ^ 64 milliseconds.
is_permitted-permit :
    (now t : ℕ) (a : Allocation) (ip other : IpAddr)
    → now + 300_000 < 2 ^ 64
    → is_permitted t (permit now a ip) other
      ≡ ite (IpAddr-discrete other ip) (ltb t (now + 300_000)) (is_permitted t a other)
unfolding is_permitted permit
is_permitted-permit now t a ip other small =
    ground
      (arith, lookup-insert ip other (add64 now permission_lifetime_ms) a.permissions, in_range)
  where
    in_range : add64 now permission_lifetime_ms ≡ now + 300_000
    in_range = omega arith

lookup-erase_all :
    (ips : List IpAddr) (perms : List (IpAddr × ℕ)) (ip : IpAddr)
    → lookup ip (erase_all ips perms) ≡ (if elem ip ips then none else lookup ip perms)
unfolding erase_all elem
lookup-erase_all [] perms ip = refl
lookup-erase_all (x ∷ ips) perms ip =
    ground (arith, lookup-erase x ip perms, lookup-erase_all ips (erase x perms) ip)

abbrev lapsed : ℕ → Option ℕ → Bool
lapsed now none = false
lapsed now (some expires) = leb expires now

elem-expired_ips :
    (now : ℕ) (perms : List (IpAddr × ℕ)) (ip : IpAddr)
    → UniqueKeys perms
    → elem ip (expired_ips now perms) ≡ lapsed now (lookup ip perms)
unfolding expired_ips elem lookup
elem-expired_ips now [] ip u = refl
elem-expired_ips now ((j, e) ∷ perms) ip (fresh, u) = elim (IpAddr-discrete ip j) [
  | yes p ↦
      ground
        (arith, elem-expired_ips now perms ip u, subst (λ i. lookup i perms ≡ none) (sym p) fresh)
  | no p ↦ ground (arith, elem-expired_ips now perms ip u)
]

-- The clean-up of permissions reports an address exactly when its permission has lapsed, and no
-- later query can tell that it ran: an address is permitted afterwards exactly when it was
-- before, where the permission table holds no address twice.
pub cleanup_expired_permissions-is_permitted :
    (now t : ℕ) (a : Allocation) (ip : IpAddr)
    → UniqueKeys a.permissions
    → now ≤ t
    → (is_permitted t (cleanup_expired_permissions now a).0 ip ≡ is_permitted t a ip)
      × ((elem ip (cleanup_expired_permissions now a).1 ≡ true)
          ↔ ((lookup ip a.permissions ≢ none) × (is_permitted now a ip ≡ false)))
unfolding is_permitted cleanup_expired_permissions
cleanup_expired_permissions-is_permitted now t a ip u later =
    elim (Option-cases (lookup ip a.permissions)) [
      | inl e ↦ ground (
        arith,
        elem-expired_ips now a.permissions ip u,
        lookup-erase_all (expired_ips now a.permissions) a.permissions ip,
      )
      | inr (x, e) ↦ ground (
        arith,
        elem-expired_ips now a.permissions ip u,
        lookup-erase_all (expired_ips now a.permissions) a.permissions ip,
      )
    ]
