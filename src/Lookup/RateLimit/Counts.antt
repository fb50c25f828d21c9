-- ===== src/Lookup/RateLimit/Counts.antt =====
-- What each call does to the number of slots that an address has taken.
use uturn.Common.{
  ℕ, ◌+◌, ◌-◌, ◌≤◌, ◌<◌, ◌≡◌, refl, ap, ◌∙◌, none, some, Option, arith, ◌=?◌, if◌then◌else◌, lookup,
  lookup-retain, Option-cases, Bool-cases, =?-eq, true, subst, inl, inr, kept,
}
use uturn.Addr.{IpAddr, ip_key}
use uturn.Lookup.RateLimit.{
  RateLimiter, RateLimitEntry, RateLimitError, ok, err, or_default, allocation_count, release_slot,
  keep_entry, cleanup, check_entry, check_allocation_request, u32_max,
}
use uturn.Lookup.RateLimit.Quota.{
  entry_of, with_entry, entry_of-with_entry_self, entry_of-with_entry_ne,
}
use uturn.Lookup.RateLimit.Slots.{checked, check_entry_err}

-- One slot, at one address
abbrev pub one : IpAddr → IpAddr → ℕ
one ip other = if ip =? other then 1 else 0

count-with_entry :
    (l : RateLimiter) (ip other : IpAddr) (e : RateLimitEntry)
    → allocation_count (with_entry l ip e) other
      ≡ (if ip =? other then e.allocation_count else allocation_count l other)
unfolding allocation_count
count-with_entry l ip other e = elim (Bool-cases (ip =? other)) [
  | inl same ↦ rw same (
      subst (λ i. allocation_count (with_entry l ip e) i ≡ e.allocation_count) (=?-eq ip other same)
        (ap (λ r. r.allocation_count) (entry_of-with_entry_self l ip e)))
  | inr differs ↦ rw differs (
      ap (λ r. r.allocation_count)
        (entry_of-with_entry_ne l ip other e (λ p. ground (arith, differs, p))))
]

-- The count that stands at the address of a call.
same_count :
    (l : RateLimiter) (ip other : IpAddr)
    → (ip =? other) ≡ true
    → allocation_count l ip ≡ allocation_count l other
same_count l ip other e = ap (allocation_count l) (=?-eq ip other e)

pub count-release_slot :
    (l : RateLimiter) (ip other : IpAddr)
    → allocation_count (release_slot l ip) other ≡ allocation_count l other - one ip other
unfolding allocation_count release_slot
count-release_slot l ip other = elim (Option-cases (lookup ip l.entries)) [
  | inl e ↦
      rw (e, release_slot)
        (elim (Bool-cases (ip =? other)) [
          | inl same ↦ rw same (ground (arith, same_count l ip other same, e))
          | inr differs ↦ rw differs (omega arith)
        ])
  | inr (entry, e) ↦
      rw (e, release_slot)
        (count-with_entry l ip other
            (record entry { allocation_count = entry.allocation_count - 1 })
          ∙ elim (Bool-cases (ip =? other)) [
            | inl same ↦ rw same (ground (arith, same_count l ip other same, e))
            | inr differs ↦ rw differs (omega arith)
          ])
]

pub count-cleanup :
    (l : RateLimiter) (now : ℕ) (ip : IpAddr)
    → allocation_count (cleanup l now) ip ≡ allocation_count l ip
unfolding allocation_count cleanup
count-cleanup l now ip =
    ap (λ o. (or_default o).allocation_count) (lookup-retain (keep_entry now) ip l.entries)
    ∙ kept_count (lookup ip l.entries)
  where
    kept_count :
        (o : Option RateLimitEntry)
        → (or_default (kept (keep_entry now) ip o)).allocation_count
          ≡ (or_default o).allocation_count
    kept_count none = refl
    kept_count (some e) = ground (arith, keep_entry)

check_entry_slot :
    (mr ma now : ℕ) (e : RateLimitEntry)
    → 0 < ma
    → ma ≤ u32_max
    → (check_entry mr ma now e).1 ≡ ok
    → (check_entry mr ma now e).0.allocation_count ≡ e.allocation_count + 1
unfolding check_entry
check_entry_slot mr ma now e on fits h = ground arith

-- Where the quota is on and within `u32`, a verdict of `ok` takes exactly one slot.
pub count-check_allocation_request :
    (l : RateLimiter) (ip other : IpAddr) (now : ℕ)
    → 0 < l.max_allocations_per_ip
    → l.max_allocations_per_ip ≤ u32_max
    → (check_allocation_request l ip now).1 ≡ ok
    → allocation_count (check_allocation_request l ip now).0 other
      ≡ allocation_count l other + one ip other
unfolding allocation_count check_allocation_request check_entry
count-check_allocation_request l ip other now on fits h =
    count-with_entry l ip other (checked l ip now).0 ∙ elim (Bool-cases (ip =? other)) [
      | inl same ↦ rw same (
          omega (
            arith,
            check_entry_slot l.max_requests_per_minute l.max_allocations_per_ip now (entry_of l ip)
                on fits h,
            same_count l ip other same,
          ))
      | inr differs ↦ rw differs (omega arith)
    ]

pub count-check_allocation_request_err :
    (l : RateLimiter) (ip other : IpAddr) (now : ℕ) (e : RateLimitError)
    → (check_allocation_request l ip now).1 ≡ err e
    → allocation_count (check_allocation_request l ip now).0 other ≡ allocation_count l other
unfolding allocation_count check_allocation_request check_entry
count-check_allocation_request_err l ip other now e h =
    count-with_entry l ip other (checked l ip now).0 ∙ elim (Bool-cases (ip =? other)) [
      | inl same ↦ rw same (
          check_entry_err l.max_requests_per_minute l.max_allocations_per_ip now (entry_of l ip) e h
          ∙ same_count l ip other same)
      | inr differs ↦ rw differs refl
    ]
