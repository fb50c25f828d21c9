-- ===== src/Lookup/Table/Census.antt =====
-- How many allocations each address has, and what the removals and the passes do to it.
use uturn.Common.{
  ℕ, ◌+◌, ◌≡◌, refl, sym, ap, ◌∙◌, Option, none, some, List, [], ◌∷◌, ◌=?◌, if◌then◌else◌, arith,
  nat_key, lookup, insert, erase, lookup-insert, lookup-erase_self, lookup-erase_ne,
  lookup-insert_self, lookup-erase, UniqueKeys, erase-UniqueKeys, insert-UniqueKeys,
  lookup-cons_self, lookup-cons_ne,
}
use mathlib.Core.Logic.{if_pos, if_neg}
use uturn.Addr.{IpAddr, SocketAddr, ip_key, socket_key}
use uturn.Lookup.Allocation.{Allocation}
use uturn.Lookup.Table.{AllocationTable}
use uturn.Lookup.Table.Clients.{client_of, id_at, SameClients}

abbrev pub of_client : IpAddr → Option SocketAddr → ℕ
of_client ip none = 0
of_client ip (some addr) = if addr.ip =? ip then 1 else 0

-- The number of allocations whose client has the address.
unfoldable pub census : IpAddr → List (ℕ × Allocation) → ℕ
census ip [] = 0
census ip ((id, a) ∷ entries) = of_client ip (some a.client_addr) + census ip entries

pub census-erase :
    (ip : IpAddr) (k : ℕ) (entries : List (ℕ × Allocation))
    → UniqueKeys entries
    → census ip entries ≡ of_client ip (client_of (lookup k entries)) + census ip (erase k entries)
unfolding census lookup erase
census-erase ip k [] u = refl
census-erase ip k ((j, a) ∷ entries) (fresh, u) = elim (nat_key.dec k j) [
  | yes p ↦
      rw (if_pos (nat_key.dec k j) p)
        (ground (arith, census-erase ip k entries u, ap (λ i. lookup i entries) p ∙ fresh))
  | no p ↦
      rw (if_neg (nat_key.dec k j) p)
        (rw (if_neg (nat_key.dec k j) p) (omega (arith, census-erase ip k entries u)))
]

vacant :
    (entries : List (ℕ × Allocation))
    → ((j : ℕ) → client_of (lookup j entries) ≡ none)
    → entries ≡ []
vacant [] h = refl
vacant ((j, a) ∷ entries) h = ground (arith, h j, ap client_of (lookup-cons_self j a entries))

others :
    (k : ℕ) (a : Allocation) (m m' : List (ℕ × Allocation))
    → lookup k m ≡ none
    → ((j : ℕ) → client_of (lookup j m') ≡ client_of (lookup j ((k, a) ∷ m)))
    → (j : ℕ) → client_of (lookup j (erase k m')) ≡ client_of (lookup j m)
others k a m m' fresh h j = elim (nat_key.dec j k) [
  | yes p ↦
      ap (λ i. client_of (lookup i (erase k m'))) p
      ∙ (ap client_of (lookup-erase_self k m')
          ∙ (sym (ap client_of fresh) ∙ sym (ap (λ i. client_of (lookup i m)) p)))
  | no p ↦ ap client_of (lookup-erase_ne k j m' p) ∙ (h j ∙ ap client_of (lookup-cons_ne j k a m p))
]

pub census-same :
    (ip : IpAddr) (m m' : List (ℕ × Allocation))
    → UniqueKeys m
    → UniqueKeys m'
    → ((j : ℕ) → client_of (lookup j m') ≡ client_of (lookup j m))
    → census ip m' ≡ census ip m
unfolding census lookup
census-same ip [] m' u u' h = ap (census ip) (vacant m' h)
census-same ip ((k, a) ∷ m) m' (fresh, u) u' h =
    let here : client_of (lookup k m') ≡ some a.client_addr =
      h k ∙ ap client_of (lookup-cons_self k a m) in
    let rest =
      census-same ip m (erase k m') u (erase-UniqueKeys k m' u') (others k a m m' fresh h) in
    omega (arith, census-erase ip k m' u', ap (of_client ip) here, rest)

-- The allocations of an address in a table.
abbrev pub clients_at : IpAddr → AllocationTable → ℕ
clients_at ip t = census ip t.allocations

pub SameClients-clients_at :
    (ip : IpAddr) (t t' : AllocationTable)
    → SameClients t t'
    → UniqueKeys t.allocations
    → clients_at ip t' ≡ clients_at ip t
SameClients-clients_at ip t t' s u =
    census-same ip t.allocations t'.allocations u (s.keeps u) (λ j. s.at j)

pub clients_at-insert :
    (ip : IpAddr) (id : ℕ) (a : Allocation) (entries : List (ℕ × Allocation))
    → UniqueKeys entries
    → client_of (lookup id entries) ≡ none
    → census ip (insert id a entries) ≡ of_client ip (some a.client_addr) + census ip entries
clients_at-insert ip id a entries u vacant =
    let unique = insert-UniqueKeys id a entries u in
    let without_it =
      census-same ip entries (erase id (insert id a entries)) u
        (erase-UniqueKeys id (insert id a entries) unique)
        λ j.
          ground (
            arith,
            lookup-erase id j (insert id a entries),
            lookup-insert id j a entries,
            vacant,
          ) in
    omega (
      arith,
      census-erase ip id (insert id a entries) unique,
      ap (λ o. of_client ip (client_of o)) (lookup-insert_self id a entries),
      without_it,
    )

-- Each allocation gives itself the id under which it stands.
abbrev pub IsNumbered : AllocationTable → Type 0
IsNumbered t = (j i : ℕ) → id_at t j ≡ some i → i ≡ j

pub SameClients-IsNumbered :
    (t t' : AllocationTable) → SameClients t t' → IsNumbered t → IsNumbered t'
SameClients-IsNumbered t t' s h j i e = h j i (sym (s.ids j) ∙ e)
