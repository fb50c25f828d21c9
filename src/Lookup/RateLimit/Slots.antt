-- ===== src/Lookup/RateLimit/Slots.antt =====
-- A slot is reserved by a check that passes, by no other, and given back exactly.
use uturn.Common.{ℕ, min, ◌+◌, ◌-◌, ◌<◌, ◌≡◌, ◌≢◌, ap, ◌∙◌, some, arith, lookup, lookup-insert_self}
use uturn.Addr.{IpAddr, ip_key}
use uturn.Lookup.RateLimit.{
  RateLimiter, RateLimitEntry, Verdict, ok, err, RateLimitError, check_entry,
  check_allocation_request, release_slot, cancel_reservation, allocation_count, u32_max,
}
use uturn.Lookup.RateLimit.Quota.{
  entry_of, with_entry, entry_of-with_entry_self, entry_of-with_entry_ne,
}

check_entry_ok :
    (mr ma now : ℕ) (e : RateLimitEntry)
    → (check_entry mr ma now e).1 ≡ ok
    → (check_entry mr ma now e).0.allocation_count ≡ min (e.allocation_count + 1) u32_max
unfolding check_entry
check_entry_ok mr ma now e h = ground arith

pub check_entry_err :
    (mr ma now : ℕ) (e : RateLimitEntry) (why : RateLimitError)
    → (check_entry mr ma now e).1 ≡ err why
    → (check_entry mr ma now e).0.allocation_count ≡ e.allocation_count
unfolding check_entry
check_entry_err mr ma now e why h = ground arith

-- The entry that a check leaves, with its verdict.
abbrev pub checked : RateLimiter → IpAddr → ℕ → RateLimitEntry × Verdict
checked l ip now =
    check_entry l.max_requests_per_minute l.max_allocations_per_ip now (entry_of l ip)

-- The verdict tells what became of the slot: `ok` takes one (up to the top of `u32`), an error takes
-- none; and the entry of no other address is touched.
pub check_allocation_request_slot :
    (l : RateLimiter) (ip other : IpAddr) (now : ℕ)
    → let (l', verdict) = check_allocation_request l ip now in
      (verdict ≡ ok → allocation_count l' ip ≡ min (allocation_count l ip + 1) u32_max)
      × ((e : RateLimitError) → verdict ≡ err e → allocation_count l' ip ≡ allocation_count l ip)
      × (other ≢ ip → entry_of l' other ≡ entry_of l other)
unfolding check_allocation_request allocation_count
check_allocation_request_slot l ip other now = (
  λ h.
      found
      ∙ check_entry_ok l.max_requests_per_minute l.max_allocations_per_ip now (entry_of l ip) h,
  λ e h.
      found
      ∙ check_entry_err l.max_requests_per_minute l.max_allocations_per_ip now (entry_of l ip) e h,
  entry_of-with_entry_ne l ip other (checked l ip now).0,
)
  where
    found :
        (entry_of (with_entry l ip (checked l ip now).0) ip).allocation_count
        ≡ (checked l ip now).0.allocation_count
    found = ap (λ e. e.allocation_count) (entry_of-with_entry_self l ip (checked l ip now).0)

release_slot_lem :
    (l : RateLimiter) (ip : IpAddr) (e : RateLimitEntry)
    → lookup ip l.entries ≡ some e
    → (entry_of (release_slot l ip) ip).allocation_count ≡ e.allocation_count - 1
unfolding release_slot
release_slot_lem l ip e h =
    rw (h, release_slot)
      (ap (λ r. r.allocation_count)
        (entry_of-with_entry_self l ip (record e { allocation_count = e.allocation_count - 1 })))

-- Cancelling a reservation that was granted below the top of `u32` restores the count.
cancel_reservation-check_allocation_request :
    (l : RateLimiter) (ip : IpAddr) (now : ℕ)
    → (check_allocation_request l ip now).1 ≡ ok
    → allocation_count l ip < u32_max
    → allocation_count (cancel_reservation (check_allocation_request l ip now).0 ip) ip
      ≡ allocation_count l ip
unfolding check_allocation_request cancel_reservation allocation_count
cancel_reservation-check_allocation_request l ip now h room = omega (
  arith,
  release_slot_lem (with_entry l ip (checked l ip now).0) ip (checked l ip now).0
      (lookup-insert_self ip (checked l ip now).0 l.entries),
  check_entry_ok l.max_requests_per_minute l.max_allocations_per_ip now (entry_of l ip) h,
)
