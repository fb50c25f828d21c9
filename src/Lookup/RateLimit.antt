-- ===== src/Lookup/RateLimit.antt =====
-- src/lookup/rate_limit.rs: the rate limiter and the allocation quota, for each address. An
-- `Instant` is a number of nanoseconds; `Instant::now()` is the argument `now`.
pub mod Quota
pub mod Slots
pub mod Counts
pub mod Window
pub mod Cleanup
use uturn.Common.{
  ℕ, ◌+◌, ◌-◌, ◌*◌, ◌^◌, min, Bool, true, false, ◌&&◌, ◌||◌, not, Option, none, some, List, [], ◌∷◌,
  ◌++◌, ltb, leb, ◌==◌, if◌then◌else◌, length, lookup, insert, retain,
}
use uturn.Addr.{IpAddr, ip_key}

pub record RateLimitEntry : Type 0 where
  -- Oldest first.
  pub request_times : List ℕ
  pub allocation_count : ℕ

pub record RateLimiter : Type 0 where
  pub entries : List (IpAddr × RateLimitEntry)
  pub max_requests_per_minute : ℕ
  pub max_allocations_per_ip : ℕ

pub data RateLimitError : Type 0 where
  too_many_requests quota_exceeded : RateLimitError

pub data Verdict : Type 0 where
  ok : Verdict
  err : RateLimitError → Verdict

abbrev pub window : ℕ
window = 60 * 10 ^ 9

abbrev pub u32_max : ℕ
u32_max = 2 ^ 32 - 1

-- `RateLimiter::new`
unfoldable pub new_limiter : ℕ → ℕ → RateLimiter
new_limiter max_requests max_allocations = record {
  entries = [];
  max_requests_per_minute = max_requests;
  max_allocations_per_ip = max_allocations;
}

abbrev pub default_entry : RateLimitEntry
default_entry = record { request_times = []; allocation_count = 0 }

abbrev pub or_default : Option RateLimitEntry → RateLimitEntry
or_default none = default_entry
or_default (some e) = e

-- `while let Some(&oldest) = request_times.front()`
unfoldable pub drop_expired : ℕ → List ℕ → List ℕ
drop_expired now [] = []
drop_expired now (oldest ∷ times) =
    if leb window (now - oldest) then drop_expired now times else oldest ∷ times

-- The quota test and the reservation.
unfoldable pub reserve : ℕ → RateLimitEntry → RateLimitEntry × Verdict
reserve max_allocations e =
    if ltb 0 max_allocations && leb max_allocations e.allocation_count
    then (e, err quota_exceeded)
    else (record e { allocation_count = min (e.allocation_count + 1) u32_max }, ok)

-- `check_allocation_request` on the entry of the address.
unfoldable pub check_entry : ℕ → ℕ → ℕ → RateLimitEntry → RateLimitEntry × Verdict
unfolding reserve
check_entry max_requests max_allocations now e =
    if ltb 0 max_requests
    then (let times = drop_expired now e.request_times in
        if leb max_requests (length times)
        then (record e { request_times = times }, err too_many_requests)
        else reserve max_allocations (record e { request_times = times ++ now ∷ [] }))
    else reserve max_allocations e

unfoldable pub check_allocation_request : RateLimiter → IpAddr → ℕ → RateLimiter × Verdict
unfolding check_entry
check_allocation_request l ip now =
    let (e, verdict) =
      check_entry l.max_requests_per_minute l.max_allocations_per_ip now
        (or_default (lookup ip l.entries)) in
    (record l { entries = insert ip e l.entries }, verdict)

-- The slot was reserved by `check_allocation_request` already.
unfoldable pub record_allocation : RateLimiter → IpAddr → RateLimiter
record_allocation l _ = l

-- `get_mut(&ip)`, and one slot less.
unfoldable pub release_slot : RateLimiter → IpAddr → RateLimiter
release_slot l ip = elim (lookup ip l.entries) [
  | none ↦ l
  | some e ↦ record l {
    entries = insert ip (record e { allocation_count = e.allocation_count - 1 }) l.entries;
  }
]

unfoldable pub cancel_reservation : RateLimiter → IpAddr → RateLimiter
unfolding release_slot
cancel_reservation l ip = release_slot l ip

unfoldable pub record_deallocation : RateLimiter → IpAddr → RateLimiter
unfolding release_slot
record_deallocation l ip = release_slot l ip

unfoldable pub allocation_count : RateLimiter → IpAddr → ℕ
allocation_count l ip = (or_default (lookup ip l.entries)).allocation_count

abbrev pub is_empty : List ℕ → Bool
is_empty [] = true
is_empty (_ ∷ _) = false

-- The closure that `cleanup` hands to `retain`.
unfoldable pub keep_entry : ℕ → IpAddr → RateLimitEntry → Option RateLimitEntry
keep_entry now ip e =
    let times = drop_expired now e.request_times in
    if ltb 0 e.allocation_count || not (is_empty times)
    then some (record e { request_times = times })
    else none

unfoldable pub cleanup : RateLimiter → ℕ → RateLimiter
unfolding keep_entry
cleanup l now = record l { entries = retain (keep_entry now) l.entries }
