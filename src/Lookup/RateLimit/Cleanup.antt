-- ===== src/Lookup/RateLimit/Cleanup.antt =====
-- `cleanup` drops and shortens entries; no later call can tell.
use uturn.Common.{
  ℕ, ◌≤◌, ◌<◌, ◌≡◌, refl, sym, ◌∙◌, Option, none, some, List, [], ◌∷◌, arith, lookup, lookup-retain,
  kept,
}
use uturn.Addr.{IpAddr, ip_key}
use uturn.Lookup.RateLimit.{
  RateLimiter, RateLimitEntry, Verdict, or_default, drop_expired, check_entry,
  check_allocation_request, keep_entry, cleanup, allocation_count,
}
use uturn.Lookup.RateLimit.Quota.{entry_of, with_entry, entry_of-with_entry_self}

-- What has expired by `now` has expired by any later time.
drop_expired_later :
    (now later : ℕ) (times : List ℕ)
    → now ≤ later
    → drop_expired later (drop_expired now times) ≡ drop_expired later times
unfolding drop_expired
drop_expired_later now later [] h = refl
drop_expired_later now later (t ∷ times) h = ground (arith, drop_expired_later now later times h)

drop_expired-nil : (now : ℕ) → drop_expired now [] ≡ []
unfolding drop_expired
drop_expired-nil now = refl

-- The entry that a later check finds, where the request limit is in force.
kept-drop_expired :
    (now later : ℕ) (ip : IpAddr) (o : Option RateLimitEntry)
    → now ≤ later
    → (drop_expired later (or_default (kept (keep_entry now) ip o)).request_times
        ≡ drop_expired later (or_default o).request_times)
      × ((or_default (kept (keep_entry now) ip o)).allocation_count
          ≡ (or_default o).allocation_count)
unfolding keep_entry
kept-drop_expired now later ip none h = (refl, refl)
kept-drop_expired now later ip (some e) h =
    ground (arith, drop_expired_later now later e.request_times h, drop_expired-nil later)

check_entry_same :
    (mr ma now : ℕ) (e e' : RateLimitEntry)
    → drop_expired now e.request_times ≡ drop_expired now e'.request_times
    → e.allocation_count ≡ e'.allocation_count
    → ((check_entry mr ma now e).1 ≡ (check_entry mr ma now e').1)
      × (0 < mr → (check_entry mr ma now e).0 ≡ (check_entry mr ma now e').0)
unfolding check_entry
check_entry_same mr ma now e e' t c = (ground arith, λ p. ground arith)

-- A check at any later time has the verdict that it would have had without the cleanup, and where
-- requests are limited it leaves the same entry; the reserved slots of every address stay.
pub check_allocation_request-cleanup :
    (l : RateLimiter) (ip : IpAddr) (now later : ℕ)
    → now ≤ later
    → ((check_allocation_request (cleanup l now) ip later).1
        ≡ (check_allocation_request l ip later).1)
      × (0 < l.max_requests_per_minute
          → entry_of (check_allocation_request (cleanup l now) ip later).0 ip
            ≡ entry_of (check_allocation_request l ip later).0 ip)
      × (allocation_count (cleanup l now) ip ≡ allocation_count l ip)
unfolding check_allocation_request cleanup allocation_count
check_allocation_request-cleanup l ip now later h =
    (same.0, λ p. written (cleanup l now) ∙ same.1 p ∙ sym (written l), found.1)
  where
    found :
        (drop_expired later (entry_of (cleanup l now) ip).request_times
          ≡ drop_expired later (entry_of l ip).request_times)
        × ((entry_of (cleanup l now) ip).allocation_count ≡ (entry_of l ip).allocation_count)
    found =
        rw (lookup-retain (keep_entry now) ip l.entries)
          (kept-drop_expired now later ip (lookup ip l.entries) h)

    checked : RateLimiter → RateLimitEntry × Verdict
    checked k = check_entry l.max_requests_per_minute l.max_allocations_per_ip later (entry_of k ip)

    same :
        ((checked (cleanup l now)).1 ≡ (checked l).1)
        × (0 < l.max_requests_per_minute → (checked (cleanup l now)).0 ≡ (checked l).0)
    same =
        check_entry_same l.max_requests_per_minute l.max_allocations_per_ip later
          (entry_of (cleanup l now) ip) (entry_of l ip) found.0 found.1

    written : (k : RateLimiter) → entry_of (with_entry k ip (checked k).0) ip ≡ (checked k).0
    written k = entry_of-with_entry_self k ip (checked k).0
