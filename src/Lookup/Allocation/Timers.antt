-- ===== src/Lookup/Allocation/Timers.antt =====
-- The lifetime of an allocation, and the two timers that reap it before its lifetime has ended.
use uturn.Common.{
  ap, ◌∙◌, if_true, List, [], ◌∷◌, refl, ℕ, ◌+◌, ◌*◌, ◌^◌, ◌≤◌, ◌<◌, ◌≡◌, ◌↔◌, true, false, arith,
}
use uturn.Clock.{add64, is_expired_secs}
use uturn.Lookup.Allocation.{
  Allocation, is_expired, refresh, remaining_lifetime, touch_relay_attempt, is_orphaned_sender,
}

-- A refreshed allocation has exactly the granted seconds left at that moment, and at any later
-- time it has expired exactly when more than those seconds have passed, where the lifetime is a
-- 32-bit number and its end lies below 2 ^ 64 milliseconds.
pub refresh-lifetime :
    (now t : ℕ) (a : Allocation) (lifetime_secs : ℕ)
    → lifetime_secs < 2 ^ 32
    → now + lifetime_secs * 1000 < 2 ^ 64
    → (remaining_lifetime now (refresh now a lifetime_secs) ≡ lifetime_secs)
      × ((is_expired t (refresh now a lifetime_secs) ≡ true) ↔ (now + lifetime_secs * 1000 < t))
unfolding remaining_lifetime refresh is_expired
refresh-lifetime now t a lifetime_secs small fits =
    (ground (arith, in_range), ground (arith, in_range))
  where
    in_range : add64 now (lifetime_secs * 1000) ≡ now + lifetime_secs * 1000
    in_range = omega arith

-- Attempts at these times, none of which reaches anybody
unfoldable pub attempts : List ℕ → Allocation → Allocation
unfolding touch_relay_attempt
attempts [] a = a
attempts (now ∷ times) a = attempts times (touch_relay_attempt now a)

attempts_later :
    (times : List ℕ) (a : Allocation) → a.has_relay_attempt ≡ true → attempts times a ≡ a
unfolding attempts touch_relay_attempt
attempts_later [] a tried = refl
attempts_later (now ∷ times) a tried =
    ap (attempts times) (if_true _ _ _ tried) ∙ attempts_later times a tried

-- Attempts to relay start the orphan timer once: where the allocation had not yet tried, after a
-- first attempt and however many more that reach nobody, at any time from the first on it is an
-- orphaned sender exactly if `timeout` seconds have passed since that first attempt, where the
-- timeout is below 2 ^ 64 milliseconds.
pub touch_relay_attempt-is_orphaned_sender :
    (first t : ℕ) (times : List ℕ) (a : Allocation) (timeout : ℕ)
    → a.has_relay_attempt ≡ false
    → timeout * 1000 < 2 ^ 64
    → first ≤ t
    → (is_orphaned_sender t (attempts times (touch_relay_attempt first a)) timeout ≡ true)
      ↔ (first + timeout * 1000 ≤ t)
unfolding is_orphaned_sender touch_relay_attempt is_expired_secs
touch_relay_attempt-is_orphaned_sender first t times a timeout fresh fits later =
    rw (attempts_later times (touch_relay_attempt first a) (rw fresh refl))
      (rw (fresh, touch_relay_attempt) (ground arith))
