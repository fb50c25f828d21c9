-- ===== src/Server/Books/Release.antt =====
-- The removal of a client's allocation gives back its slot.
use uturn.Common.{ℕ, ◌≡◌, refl, sym, ap, subst, Bool, Option, none, some, arith, nat_key, lookup}
use uturn.Addr.{IpAddr, SocketAddr, ip_key, socket_key}
use uturn.Lookup.Allocation.{Allocation}
use uturn.Lookup.RateLimit.Counts.{one}
use uturn.Lookup.RateLimit.Quota.{deallocates}
use uturn.Lookup.Table.{AllocationTable, get_by_client}
use uturn.Lookup.Table.Census.{IsNumbered}
use uturn.Lookup.Table.Clients.{client_at, number_of, IsIndexed}
use uturn.Lookup.Table.Departures.{Removed, absent, present, remove-Removed}
use uturn.Lookup.Table.Reaping.{remove-IsIndexed}
use uturn.Lookup.Table.Removal.{remove}
use uturn.Lookup.Table.Steps.{step}
use uturn.Server.Books.{IsBalanced, nothing, deallocates-Books}
use uturn.Server.Ends.{Ends}
use uturn.Server.State.{Env, World, when, limit, release}

-- The allocation that the index names for a client stands under its own id, and is that client's.
pub own_client :
    (t : AllocationTable) (addr : SocketAddr) (a : Allocation)
    → IsIndexed t
    → IsNumbered t
    → get_by_client t addr ≡ some a
    → client_at t a.id ≡ some addr
unfolding get_by_client
own_client t addr a h n e = named (lookup addr t.by_client) refl e
  where
    named :
        (o : Option ℕ)
        → lookup addr t.by_client ≡ o
        → elim o as (λ _. Option Allocation) [ none ↦ none | some id ↦ lookup id t.allocations ]
          ≡ some a
        → client_at t a.id ≡ some addr
    named none i found = ground (arith, found)
    named (some id) i found =
        subst (λ j. client_at t j ≡ some addr) (sym (n id a.id (ap number_of found)))
          ((h.index addr id).0 i)

module _ (max : ℕ) (env : Env) where
  Removed-Ends :
      (ip : IpAddr) (id : ℕ) (w : World) (r : AllocationTable × Bool)
      → Removed w.table id r
      → IsIndexed r.0
      → IsBalanced max w.table w.limiter
      → ((addr : SocketAddr) → client_at w.table id ≡ some addr → addr.ip ≡ ip)
      → Ends
          (IsBalanced max)
          (when r.1 (limit (deallocates ip env.instant)))
          (record w { table = r.0 })
  unfolding Ends
  Removed-Ends ip id w r (absent e) i h own =
      subst
        (λ r.
          Ends (IsBalanced max) (when r.1 (limit (deallocates ip env.instant)))
            (record w { table = r.0 }))
        (sym e) h
  Removed-Ends ip id w (t', b) (present a at e counts numbered) i h own =
      subst
        (λ b.
          Ends (IsBalanced max) (when b (limit (deallocates ip env.instant)))
            (record w { table = t' }))
        (sym e)
        (deallocates-Books max nothing ip env.instant t' w.limiter (record {
          limit = h.limit;
          indexed = i;
          numbered = numbered h.numbered;
          counts =
              λ x. omega (arith, h.counts x, counts x, ap (λ i. one i x) (own a.client_addr at));
        }))

  pub release-Ends :
      (id : ℕ) (ip : IpAddr) (w : World)
      → IsBalanced max w.table w.limiter
      → ((addr : SocketAddr) → client_at w.table id ≡ some addr → addr.ip ≡ ip)
      → Ends (IsBalanced max) (release env id ip) w
  unfolding Ends release step
  release-Ends id ip w h own = λ small.
      Removed-Ends ip id w (remove w.table id) (remove-Removed w.table id h.indexed)
        (remove-IsIndexed w.table id h.indexed) h own
