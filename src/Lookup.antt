-- ===== src/Lookup.antt =====
-- src/lookup/: rate limiting, allocations and the table of allocations with its indices.
pub mod RateLimit
pub mod Allocation
pub mod Table
mod Tests
