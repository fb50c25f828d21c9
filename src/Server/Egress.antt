-- ===== src/Server/Egress.antt =====
-- Where a program may send: a condition on every datagram, at the moment when it goes out.
pub mod Send
pub mod Deliver
pub mod Inside
pub mod Channel
pub mod Peers
pub mod Tests
use uturn.Common.{
  ℕ, ◌≡◌, refl, if◌then◌else◌, Bool, true, false, Option, none, some, List, [], ◌∷◌, ◌++◌, Run,
  done, panic, out_of_fuel, ◌⊎◌, lookup, nat_key,
}
use uturn.Common.Bytes.{Bytes}
use uturn.Addr.{SocketAddr, ip_key}
use uturn.Lookup.Allocation.{Allocation, is_permitted}
use uturn.Lookup.RateLimit.Quota.{apply_call}
use uturn.Lookup.Table.{AllocationTable, get, get_by_client}
use uturn.Lookup.Table.Steps.{step}
use uturn.Server.State.{
  Env, World, Io, pure, panicking, look, on_table, on_limiter, send, ◌>>=◌, lift, send_all,
}
use uturn.Server.Turn.Binding.{may_relay}
use uturn.Turn.Peers.{is_forbidden_peer_addr}

-- From the state `w` on, every datagram that the program sends goes where `Allowed` says, of the
-- table as it stands then.
unfoldable pub Guarded :
    {A : Type 0} → (AllocationTable → SocketAddr → Type 0) → Io A → World → Type 0
unfolding step apply_call
Guarded Allowed (pure a) w = Unit
Guarded Allowed panicking w = Unit
Guarded Allowed (look f) w = Guarded Allowed (f w) w
Guarded Allowed (on_table op m) w = Guarded Allowed m (record w { table = step op w.table })
Guarded Allowed (on_limiter c m) w =
    Guarded Allowed m (record w { limiter = apply_call w.limiter c })
Guarded Allowed (send addr packet m) w =
    Allowed w.table addr × Guarded Allowed m (record w { sent = w.sent ++ ((addr, packet) ∷ []) })

-- The sender's allocation permits the address, which is not a forbidden one.
pub record IsPermittedPeer (env : Env) (src_addr : SocketAddr) (t : AllocationTable)
    (addr : SocketAddr) : Type 0 where
  pub sender : Allocation
  pub found : get_by_client t src_addr ≡ some sender
  pub permitted : is_permitted env.now sender addr.ip ≡ true
  pub not_forbidden : is_forbidden_peer_addr env.config addr ≡ false

-- The address is that of a client which permits the relay.
pub record IsWillingClient (env : Env) (t : AllocationTable) (addr : SocketAddr) : Type 0 where
  pub id : ℕ
  pub client : Allocation
  pub found : get t id ≡ some client
  pub address : client.client_addr ≡ addr
  pub permits : may_relay env client ≡ true

-- One or the other.
pub data MaySend (env : Env) (src_addr : SocketAddr) (t : AllocationTable) (addr : SocketAddr)
    : Type 0 where
  to_peer : IsPermittedPeer env src_addr t addr → MaySend env src_addr t addr
  to_client : IsWillingClient env t addr → MaySend env src_addr t addr

module _ (Allowed : AllocationTable → SocketAddr → Type 0) where
  pub Guarded->>= :
      {A B : Type 0} (m : Io A) (k : A → Io B) (w : World)
      → Guarded Allowed m w
      → ((a : A) (v : World) → Guarded Allowed (k a) v)
      → Guarded Allowed (m >>= k) w
  unfolding Guarded ◌>>=◌
  Guarded->>= (pure a) k w h next = next a w
  Guarded->>= panicking k w h next = tt
  Guarded->>= (look f) k w h next = Guarded->>= (f w) k w h next
  Guarded->>= (on_table op m) k w h next = Guarded->>= m k _ h next
  Guarded->>= (on_limiter c m) k w h next = Guarded->>= m k _ h next
  Guarded->>= (send addr packet m) k w (ha, h) next = (ha, Guarded->>= m k _ h next)

  pub lift-Guarded :
      {A B : Type 0} (m : Run A) (k : A → Io B) (w : World)
      → ((a : A) → Guarded Allowed (k a) w)
      → Guarded Allowed (lift m >>= k) w
  unfolding Guarded ◌>>=◌ lift
  lift-Guarded (done a) k w h = h a
  lift-Guarded panic k w h = tt
  lift-Guarded out_of_fuel k w h = tt

  pub if-Guarded :
      {A : Type 0} (b : Bool) (m n : Io A) (w : World)
      → (b ≡ true → Guarded Allowed m w)
      → (b ≡ false → Guarded Allowed n w)
      → Guarded Allowed (if b then m else n) w
  if-Guarded true m n w hm hn = hm refl
  if-Guarded false m n w hm hn = hn refl
