-- ===== src/Server/Books.antt =====
-- The limiter's counts against the table: each address has taken as many slots as it has allocations,
-- and those that are owed in the middle of a handler.
pub mod Release
pub mod Allocate
pub mod Refresh
pub mod Cleanup
pub mod Serve
use uturn.Common.{
  ℕ, ◌+◌, ◌-◌, ◌≤◌, ◌<◌, ◌^◌, ◌≡◌, refl, sym, ap, ◌∙◌, subst, Bool, true, false, Option, none, some,
  List, [], ◌∷◌, ◌=?◌, if◌then◌else◌, inl, inr, arith, nat_key, lookup, Option-cases,
}
use uturn.Addr.{IpAddr, SocketAddr, ip_key, socket_key}
use uturn.Lookup.RateLimit.{
  RateLimiter, Verdict, ok, err, allocation_count, cancel_reservation, record_deallocation, cleanup,
  check_allocation_request, u32_max,
}
use uturn.Lookup.RateLimit.Counts.{
  one, count-release_slot, count-cleanup, count-check_allocation_request,
  count-check_allocation_request_err,
}
use uturn.Lookup.RateLimit.Quota.{
  Call, checks, cancels, deallocates, cleans, apply_call, apply_call-SameLimits,
}
use uturn.Lookup.Table.{AllocationTable}
use uturn.Lookup.Table.Census.{
  clients_at, IsNumbered, SameClients-clients_at, SameClients-IsNumbered,
}
use uturn.Lookup.Table.Clients.{IsIndexed, SameClients-IsIndexed}
use uturn.Lookup.Table.Steps.{Op, step}
use uturn.Server.Ends.{Ends}
use uturn.Server.Quiet.{IsQuiet, IsQuietOp, step-SameClients}
use uturn.Server.State.{Env, World, Io, pure, panicking, look, on_table, on_limiter, send}

-- The books of a server with the quota `max`: `owed` is what the limiter has counted for each address
-- beyond its allocations.
pub record Books (max : ℕ) (owed : IpAddr → ℕ) (t : AllocationTable) (l : RateLimiter)
    : Type 0 where
  pub limit : l.max_allocations_per_ip ≡ max
  pub indexed : IsIndexed t
  pub numbered : IsNumbered t
  pub counts : (ip : IpAddr) → allocation_count l ip ≡ clients_at ip t + owed ip

-- Nothing owed.
abbrev pub nothing : IpAddr → ℕ
nothing ip = 0

abbrev pub IsBalanced : ℕ → AllocationTable → RateLimiter → Type 0
IsBalanced max = Books max nothing

abbrev pub one_more : IpAddr → (IpAddr → ℕ) → IpAddr → ℕ
one_more ip owed other = one ip other + owed other

module _ (max : ℕ) where
  -- Giving a slot back settles one that is owed.
  pub deallocates-Books :
      (owed : IpAddr → ℕ) (ip : IpAddr) (now : ℕ) (t : AllocationTable) (l : RateLimiter)
      → Books max (one_more ip owed) t l
      → Books max owed t (apply_call l (deallocates ip now))
  unfolding apply_call record_deallocation
  deallocates-Books owed ip now t l h = record {
    limit = (apply_call-SameLimits l (deallocates ip now)).1 ∙ h.limit;
    indexed = h.indexed;
    numbered = h.numbered;
    counts = λ x. omega (arith, count-release_slot l ip x, h.counts x);
  }

  pub cancels-Books :
      (owed : IpAddr → ℕ) (ip : IpAddr) (now : ℕ) (t : AllocationTable) (l : RateLimiter)
      → Books max (one_more ip owed) t l
      → Books max owed t (apply_call l (cancels ip now))
  unfolding apply_call cancel_reservation
  cancels-Books owed ip now t l h = record {
    limit = (apply_call-SameLimits l (cancels ip now)).1 ∙ h.limit;
    indexed = h.indexed;
    numbered = h.numbered;
    counts = λ x. omega (arith, count-release_slot l ip x, h.counts x);
  }

  pub cleans-Books :
      (owed : IpAddr → ℕ) (now : ℕ) (t : AllocationTable) (l : RateLimiter)
      → Books max owed t l
      → Books max owed t (apply_call l (cleans now))
  unfolding apply_call
  cleans-Books owed now t l h = record {
    limit = (apply_call-SameLimits l (cleans now)).1 ∙ h.limit;
    indexed = h.indexed;
    numbered = h.numbered;
    counts = λ x. count-cleanup l now x ∙ h.counts x;
  }

  -- A slot that is granted is owed until the allocation is made.
  pub granted-Books :
      (ip : IpAddr) (now : ℕ) (t : AllocationTable) (l : RateLimiter)
      → 0 < max
      → max ≤ u32_max
      → IsBalanced max t l
      → (check_allocation_request l ip now).1 ≡ ok
      → Books max (one_more ip nothing) t (apply_call l (checks ip now))
  unfolding apply_call
  granted-Books ip now t l on fits h granted = record {
    limit = (apply_call-SameLimits l (checks ip now)).1 ∙ h.limit;
    indexed = h.indexed;
    numbered = h.numbered;
    counts = λ x. omega (
      arith,
      count-check_allocation_request l ip x now (omega (arith, h.limit)) (omega (arith, h.limit))
          granted,
      h.counts x,
    );
  }

  pub refused-Books :
      (ip : IpAddr) (now : ℕ) (t : AllocationTable) (l : RateLimiter) (e : _)
      → IsBalanced max t l
      → (check_allocation_request l ip now).1 ≡ err e
      → IsBalanced max t (apply_call l (checks ip now))
  unfolding apply_call
  refused-Books ip now t l e h refused = record {
    limit = (apply_call-SameLimits l (checks ip now)).1 ∙ h.limit;
    indexed = h.indexed;
    numbered = h.numbered;
    counts = λ x. count-check_allocation_request_err l ip x now e refused ∙ h.counts x;
  }

  quiet_op-Books :
      (op : Op) (t : AllocationTable) (l : RateLimiter)
      → IsQuietOp op
      → IsBalanced max t l
      → IsBalanced max (step op t) l
  quiet_op-Books op t l q h =
      let s = step-SameClients op t q h.indexed in
      record {
        limit = h.limit;
        indexed = SameClients-IsIndexed t _ s h.indexed;
        numbered = SameClients-IsNumbered t _ s h.numbered;
        counts = λ ip. omega (arith, h.counts ip, SameClients-clients_at ip t _ s h.indexed.unique);
      }

  -- A quiet program keeps the books balanced, wherever it ends.
  pub IsQuiet-Ends :
      {A : Type 0} (m : Io A) (w : World)
      → IsQuiet m
      → IsBalanced max w.table w.limiter
      → Ends (IsBalanced max) m w
  unfolding IsQuiet Ends
  IsQuiet-Ends (pure a) w q h = h
  IsQuiet-Ends panicking w q h = h
  IsQuiet-Ends (look f) w q h = IsQuiet-Ends (f w) w (q w) h
  IsQuiet-Ends (on_table op m) w (qo, q) h = λ small.
      IsQuiet-Ends m (record w { table = step op w.table }) q
        (quiet_op-Books op w.table w.limiter qo h)
  IsQuiet-Ends (on_limiter c m) w q h = absurd q
  IsQuiet-Ends (send addr packet m) w q h = (h, IsQuiet-Ends m _ q h)
