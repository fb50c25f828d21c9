-- ===== src/Clock.antt =====
-- src/coarse_time.rs: the cached millisecond clock. The reading of the global counter is the
-- argument `now` of every operation that reads it.
use uturn.Common.{ℕ, ◌+◌, ◌-◌, ◌*◌, ◌/◌, ◌%◌, ◌^◌, Bool, leb}

abbrev pub u64_mod : ℕ
u64_mod = 2 ^ 64

-- `a + b` on `u64`
abbrev pub add64 : ℕ → ℕ → ℕ
add64 a b = (a + b) % u64_mod

-- `update_coarse_time`: what is stored, from the milliseconds since the base instant
unfoldable pub update_coarse_time : ℕ → ℕ
update_coarse_time elapsed_ms = elapsed_ms % u64_mod

unfoldable pub is_expired_secs : ℕ → ℕ → ℕ → Bool
is_expired_secs now timestamp_ms timeout_secs =
    leb (timeout_secs * 1000 % u64_mod) (now - timestamp_ms)

-- `CoarseInstant`, by its one field
unfoldable pub elapsed_secs : ℕ → ℕ → ℕ
elapsed_secs now ms_since_init = (now - ms_since_init) / 1000

unfoldable pub is_older_than_secs : ℕ → ℕ → ℕ → Bool
unfolding elapsed_secs
is_older_than_secs now ms_since_init secs = leb secs (elapsed_secs now ms_since_init)
