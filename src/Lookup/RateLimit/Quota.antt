-- ===== src/Lookup/RateLimit/Quota.antt =====
-- The limits hold after every history of calls, and a slot is reserved and given back exactly.
use uturn.Common.{
  ℕ, ◌-◌, ◌≤◌, ◌<◌, ◌≡◌, ◌≢◌, refl, sym, ◌∙◌, Option, none, some, List, [], ◌∷◌, arith, length,
  length-append, lookup, insert, lookup-insert_self, lookup-insert_ne, Option-cases, inl, inr,
  lookup-retain, kept, subst,
}
use mathlib.Core.Path.{subst₂}
use uturn.Addr.{IpAddr, ip_key, IpAddr-discrete}
use uturn.Lookup.RateLimit.{
  RateLimiter, RateLimitEntry, default_entry, or_default, new_limiter, drop_expired, check_entry,
  check_allocation_request, release_slot, cancel_reservation, record_deallocation, keep_entry,
  cleanup,
}

-- The entry that `entry(ip).or_default()` finds.
abbrev pub entry_of : RateLimiter → IpAddr → RateLimitEntry
entry_of l ip = or_default (lookup ip l.entries)

pub length-drop_expired :
    (now : ℕ) (times : List ℕ) → length (drop_expired now times) ≤ length times
unfolding drop_expired
length-drop_expired now [] = omega arith
length-drop_expired now (t ∷ times) = ground (arith, length-drop_expired now times)

-- An entry within the limits; 0 is no limit.
pub record Fits (max_requests max_allocations : ℕ) (e : RateLimitEntry) : Type 0 where
  pub requests : 0 < max_requests → length e.request_times ≤ max_requests
  pub allocations : 0 < max_allocations → e.allocation_count ≤ max_allocations

check_entry-Fits :
    (mr ma now : ℕ) (e : RateLimitEntry) → Fits mr ma e → Fits mr ma (check_entry mr ma now e).0
unfolding check_entry
check_entry-Fits mr ma now e fits = record {
  requests = λ p. ground (
    arith,
    fits.requests p,
    length-drop_expired now e.request_times,
    length-append (drop_expired now e.request_times) (now ∷ []),
  );
  allocations = λ p. ground (arith, fits.allocations p);
}

abbrev pub InLimits : RateLimiter → RateLimitEntry → Type 0
InLimits l = Fits l.max_requests_per_minute l.max_allocations_per_ip

default-InLimits : (l : RateLimiter) → InLimits l default_entry
default-InLimits l = record { requests = λ p. omega arith; allocations = λ p. omega arith }

-- Every address is within the limits.
abbrev pub IsLimited : RateLimiter → Type 0
IsLimited l = (ip : IpAddr) → InLimits l (entry_of l ip)

-- One entry written.
abbrev pub with_entry : RateLimiter → IpAddr → RateLimitEntry → RateLimiter
with_entry l ip e = record l { entries = insert ip e l.entries }

pub entry_of-with_entry_self :
    (l : RateLimiter) (ip : IpAddr) (e : RateLimitEntry) → entry_of (with_entry l ip e) ip ≡ e
entry_of-with_entry_self l ip e = rw (lookup-insert_self ip e l.entries)

pub entry_of-with_entry_ne :
    (l : RateLimiter) (ip other : IpAddr) (e : RateLimitEntry)
    → other ≢ ip
    → entry_of (with_entry l ip e) other ≡ entry_of l other
entry_of-with_entry_ne l ip other e h = rw (lookup-insert_ne ip other e l.entries h)

with_entry-IsLimited :
    (l : RateLimiter) (ip : IpAddr) (e : RateLimitEntry)
    → IsLimited l
    → InLimits l e
    → IsLimited (with_entry l ip e)
with_entry-IsLimited l ip e h fits other = elim (IpAddr-discrete other ip) [
  | yes p ↦
      subst (λ i. InLimits l (entry_of (with_entry l ip e) i)) (sym p)
        (subst (InLimits l) (sym (entry_of-with_entry_self l ip e)) fits)
  | no p ↦ subst (InLimits l) (sym (entry_of-with_entry_ne l ip other e p)) (h other)
]

release_slot-IsLimited :
    (l : RateLimiter) (ip : IpAddr) → IsLimited l → IsLimited (release_slot l ip)
unfolding release_slot
release_slot-IsLimited l ip h = elim (Option-cases (lookup ip l.entries)) [
  | inl e ↦ rw (e, release_slot) h
  | inr (entry, e) ↦
      rw (e, release_slot)
        (with_entry-IsLimited l ip _ h
          (less entry (subst (λ o. InLimits l (or_default o)) e (h ip))))
]
  where
    less :
        (entry : RateLimitEntry)
        → InLimits l entry
        → InLimits l (record entry { allocation_count = entry.allocation_count - 1 })
    less entry fits = record {
      requests = fits.requests;
      allocations = λ p. omega (arith, fits.allocations p);
    }

kept-InLimits :
    (l : RateLimiter) (now : ℕ) (ip : IpAddr) (o : Option RateLimitEntry)
    → InLimits l (or_default o)
    → InLimits l (or_default (kept (keep_entry now) ip o))
unfolding keep_entry
kept-InLimits l now ip none fits = fits
kept-InLimits l now ip (some e) fits = record {
  requests = λ p. ground (arith, fits.requests p, length-drop_expired now e.request_times);
  allocations = λ p. ground (arith, fits.allocations p);
}

cleanup-IsLimited : (l : RateLimiter) (now : ℕ) → IsLimited l → IsLimited (cleanup l now)
unfolding cleanup
cleanup-IsLimited l now h ip =
    rw (lookup-retain (keep_entry now) ip l.entries)
      (kept-InLimits l now ip (lookup ip l.entries) (h ip))

-- A call on the limiter, at its time.
pub data Call : Type 0 where
  checks cancels deallocates : IpAddr → ℕ → Call
  cleans : ℕ → Call

unfoldable pub apply_call : RateLimiter → Call → RateLimiter
apply_call l (checks ip now) = (check_allocation_request l ip now).0
apply_call l (cancels ip now) = cancel_reservation l ip
apply_call l (deallocates ip now) = record_deallocation l ip
apply_call l (cleans now) = cleanup l now

unfoldable pub run : RateLimiter → List Call → RateLimiter
run l [] = l
run l (c ∷ calls) = run (apply_call l c) calls

pub apply_call-IsLimited : (l : RateLimiter) (c : Call) → IsLimited l → IsLimited (apply_call l c)
unfolding apply_call check_allocation_request cancel_reservation record_deallocation
apply_call-IsLimited l (checks ip now) h =
    with_entry-IsLimited l ip _ h (check_entry-Fits _ _ now (entry_of l ip) (h ip))
apply_call-IsLimited l (cancels ip now) h = release_slot-IsLimited l ip h
apply_call-IsLimited l (deallocates ip now) h = release_slot-IsLimited l ip h
apply_call-IsLimited l (cleans now) h = cleanup-IsLimited l now h

-- A run of calls keeps the limits.
run-IsLimited : (l : RateLimiter) (calls : List Call) → IsLimited l → IsLimited (run l calls)
unfolding run
run-IsLimited l [] h = h
run-IsLimited l (c ∷ calls) h = run-IsLimited (apply_call l c) calls (apply_call-IsLimited l c h)

-- No call changes the two limits.
abbrev pub SameLimits : RateLimiter → RateLimiter → Type 0
SameLimits l l' =
    (l'.max_requests_per_minute ≡ l.max_requests_per_minute)
    × (l'.max_allocations_per_ip ≡ l.max_allocations_per_ip)

release_slot-SameLimits : (l : RateLimiter) (ip : IpAddr) → SameLimits l (release_slot l ip)
unfolding release_slot
release_slot-SameLimits l ip = elim (Option-cases (lookup ip l.entries)) [
  | inl e ↦ rw (e, release_slot) (refl, refl)
  | inr (entry, e) ↦ rw (e, release_slot) (refl, refl)
]

pub apply_call-SameLimits : (l : RateLimiter) (c : Call) → SameLimits l (apply_call l c)
unfolding apply_call check_allocation_request cancel_reservation record_deallocation cleanup
apply_call-SameLimits l (checks ip now) = (refl, refl)
apply_call-SameLimits l (cancels ip now) = release_slot-SameLimits l ip
apply_call-SameLimits l (deallocates ip now) = release_slot-SameLimits l ip
apply_call-SameLimits l (cleans now) = (refl, refl)

run-SameLimits : (l : RateLimiter) (calls : List Call) → SameLimits l (run l calls)
unfolding run
run-SameLimits l [] = (refl, refl)
run-SameLimits l (c ∷ calls) =
    let h = run-SameLimits (apply_call l c) calls in
    let h' = apply_call-SameLimits l c in (h.0 ∙ h'.0, h.1 ∙ h'.1)

-- From a new limiter no history of calls, timed in any order, brings an address above the request
-- limit or above the allocation quota, where the limit is not 0.
pub run-new_limiter-Fits :
    (max_requests max_allocations : ℕ) (calls : List Call) (ip : IpAddr)
    → Fits max_requests max_allocations
        (entry_of (run (new_limiter max_requests max_allocations) calls) ip)
unfolding new_limiter lookup
run-new_limiter-Fits mr ma calls ip =
    subst₂ (λ r a. Fits r a (entry_of (run fresh calls) ip)) same.0 same.1
      (run-IsLimited fresh calls (λ _. default-InLimits fresh) ip)
  where
    fresh : RateLimiter
    fresh = new_limiter mr ma

    same : SameLimits fresh (run fresh calls)
    same = run-SameLimits fresh calls
