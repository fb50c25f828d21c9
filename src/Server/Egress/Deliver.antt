-- ===== src/Server/Egress/Deliver.antt =====
-- src/relay/engine.rs: one delivery goes where it is told.
use uturn.Common.{ℕ, Run, done, panic, out_of_fuel, ◌≡◌, refl, Option, none, some, length}
use uturn.Common.Bytes.{Bytes}
use uturn.Addr.{SocketAddr}
use uturn.Lookup.Table.{AllocationTable}
use uturn.Server.State.{Env, World, Io, ◌>>=◌, ◌>>◌, lift, send_to}
use uturn.Server.Egress.{Guarded}
use uturn.Server.Frames.{indication_packet}
use uturn.Server.Relay.Delivery.{deliver_by}

module _ (env : Env) (Allowed : AllocationTable → SocketAddr → Type 0) where
  sent-Guarded :
      {A : Type 0} (m : Run Bytes) (addr : SocketAddr) (k : Io A) (w : World)
      → Allowed w.table addr
      → ((v : World) → v.table ≡ w.table → Guarded Allowed k v)
      → Guarded Allowed ((lift m >>= λ packet. send_to addr packet) >> k) w
  unfolding Guarded ◌>>=◌ lift
  sent-Guarded (done packet) addr k w h next = (h, next _ refl)
  sent-Guarded panic addr k w h next = tt
  sent-Guarded out_of_fuel addr k w h next = tt

  pub deliver_by-Guarded :
      {A : Type 0} (channel : Option ℕ) (addr peer_addr : SocketAddr) (payload : Bytes)
      → (k : Io A) (w : World) → Allowed w.table addr
      → ((v : World) → v.table ≡ w.table → Guarded Allowed k v)
      → Guarded Allowed (deliver_by env channel addr peer_addr payload >> k) w
  unfolding Guarded deliver_by ◌>>=◌
  deliver_by-Guarded (some channel) addr peer_addr payload k w h next = (h, next _ refl)
  deliver_by-Guarded none addr peer_addr payload k w h next =
      sent-Guarded (indication_packet peer_addr payload (env.txn_id (length w.sent))) addr k w h
        next
