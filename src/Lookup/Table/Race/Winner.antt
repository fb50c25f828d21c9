-- ===== src/Lookup/Table/Race/Winner.antt =====
-- However the callers of `create_or_get` interleave, one allocation for each client comes of it.
use uturn.Common.{
  ℕ, ◌+◌, ◌≡◌, Bool, Option, none, some, List, [], ◌∷◌, ◌&&◌, ◌=?◌, if◌then◌else◌, nat_key,
}
use uturn.Addr.{SocketAddr, socket_key}
use uturn.Lookup.Table.{AllocationTable}
use uturn.Lookup.Table.Race.{Race}
use uturn.Lookup.Table.Reachable.{created}

-- Before anyone calls
abbrev pub calm : AllocationTable → Race
calm t = record { table = t; callers = []; told = [] }

-- Any two callers for the same client were told the same id.
abbrev pub Agree : SocketAddr × (ℕ × Bool) → SocketAddr × (ℕ × Bool) → Type 0
Agree a b = a.0 ≡ b.0 → a.1.0 ≡ b.1.0

-- How many callers were told that they created the client's allocation.
unfoldable pub creations : SocketAddr → List (SocketAddr × (ℕ × Bool)) → ℕ
creations addr [] = 0
creations addr ((x, (id, created)) ∷ told) =
    (if created && x =? addr then 1 else 0) + creations addr told

abbrev pub occupied : Option ℕ → ℕ
occupied none = 0
occupied (some id) = 1
