-- ===== src/Server/Quiet.antt =====
-- Programs that leave the clients and the limiter alone: all but Allocate, Refresh and the cleanup.
pub mod Turn
pub mod Binding
pub mod Send
pub mod Relay
pub mod Packets
use uturn.Common.{
  ℕ, ◌≡◌, refl, Bool, true, false, Option, none, some, List, [], ◌∷◌, Run, done, panic, out_of_fuel,
  if◌then◌else◌,
}
use uturn.Common.Bytes.{Bytes}
use uturn.Addr.{SocketAddr}
use uturn.Lookup.Table.{AllocationTable}
use uturn.Lookup.Table.Clients.{SameClients, IsIndexed}
use uturn.Lookup.Table.Reaping.{
  cleanup_channel_bindings-SameClients, cleanup_permissions-SameClients,
}
use uturn.Lookup.Table.Steps.{
  Op, create_op, method_op, register_ufrags_op, add_permission_op, add_permissions_op,
  register_tuple_op, remove_op, expired_op, inactive_op, orphaned_op, channels_op, permissions_op,
  Method, step,
}
use uturn.Lookup.Table.Updates.{
  call-SameClients, add_permission-SameClients, try_add_permissions_capped-SameClients,
  register_peer_tuple-SameClients, register_ice_ufrags-SameClients,
}
use uturn.Server.State.{
  World, Io, pure, panicking, look, on_table, on_limiter, send, ◌>>=◌, ◌>>◌, lift, reads, skip,
  send_to, send_all, operate, call_if, call_by_client,
}

-- The operations that change no client's allocation for another, and neither add nor remove one.
abbrev pub IsQuietOp : Op → Type 0
IsQuietOp (method_op id m) = Unit
IsQuietOp (register_ufrags_op id l r) = Unit
IsQuietOp (add_permission_op now id ip) = Unit
IsQuietOp (add_permissions_op now id ips cap) = Unit
IsQuietOp (register_tuple_op now id peer) = Unit
IsQuietOp (channels_op now) = Unit
IsQuietOp (permissions_op now) = Unit
IsQuietOp op = ⊥

pub step-SameClients :
    (op : Op) (t : AllocationTable) → IsQuietOp op → IsIndexed t → SameClients t (step op t)
unfolding step
step-SameClients (method_op id m) t q h = call-SameClients t id m
step-SameClients (register_ufrags_op id l r) t q h = register_ice_ufrags-SameClients t id l r
step-SameClients (add_permission_op now id ip) t q h = add_permission-SameClients now t id ip
step-SameClients (add_permissions_op now id ips cap) t q h =
    try_add_permissions_capped-SameClients now t id ips cap
step-SameClients (register_tuple_op now id peer) t q h =
    register_peer_tuple-SameClients now t id peer
step-SameClients (channels_op now) t q h = cleanup_channel_bindings-SameClients now t
step-SameClients (permissions_op now) t q h = cleanup_permissions-SameClients now t h
step-SameClients (create_op now addr username lifetime txn_id) t q h = absurd q
step-SameClients (remove_op id) t q h = absurd q
step-SameClients (expired_op now) t q h = absurd q
step-SameClients (inactive_op now timeout) t q h = absurd q
step-SameClients (orphaned_op now timeout) t q h = absurd q

-- All operations of the program are quiet ones, and it never calls the limiter.
unfoldable pub IsQuiet : {A : Type 0} → Io A → Type 0
IsQuiet (pure a) = Unit
IsQuiet panicking = Unit
IsQuiet (look f) = (w : World) → IsQuiet (f w)
IsQuiet (on_table op m) = IsQuietOp op × IsQuiet m
IsQuiet (on_limiter c m) = ⊥
IsQuiet (send addr packet m) = IsQuiet m

pub IsQuiet->>= :
    {A B : Type 0} (m : Io A) (k : A → Io B)
    → IsQuiet m
    → ((a : A) → IsQuiet (k a))
    → IsQuiet (m >>= k)
unfolding IsQuiet ◌>>=◌
IsQuiet->>= (pure a) k h next = next a
IsQuiet->>= panicking k h next = tt
IsQuiet->>= (look f) k h next = λ w. IsQuiet->>= (f w) k (h w) next
IsQuiet->>= (on_table op m) k (q, h) next = (q, IsQuiet->>= m k h next)
IsQuiet->>= (on_limiter c m) k h next = absurd h
IsQuiet->>= (send addr packet m) k h next = IsQuiet->>= m k h next

pub IsQuiet-pure : {A : Type 0} (a : A) → IsQuiet (pure a)
unfolding IsQuiet
IsQuiet-pure a = tt

pub IsQuiet-lift : {A : Type 0} (m : Run A) → IsQuiet (lift m)
unfolding IsQuiet lift
IsQuiet-lift (done a) = tt
IsQuiet-lift panic = tt
IsQuiet-lift out_of_fuel = tt

pub IsQuiet-look :
    {A : Type 0} (f : World → Io A) → ((w : World) → IsQuiet (f w)) → IsQuiet (look f)
unfolding IsQuiet
IsQuiet-look f h = h

pub IsQuiet-on_table :
    {A : Type 0} (op : Op) (m : Io A) → IsQuietOp op → IsQuiet m → IsQuiet (on_table op m)
unfolding IsQuiet
IsQuiet-on_table op m q h = (q, h)

pub IsQuiet-send :
    {A : Type 0} (addr : SocketAddr) (packet : Bytes) (m : Io A)
    → IsQuiet m
    → IsQuiet (send addr packet m)
unfolding IsQuiet
IsQuiet-send addr packet m h = h

pub IsQuiet-if :
    {A : Type 0} (b : Bool) (m n : Io A) → IsQuiet m → IsQuiet n → IsQuiet (if b then m else n)
IsQuiet-if true m n hm hn = hm
IsQuiet-if false m n hm hn = hn

pub IsQuiet-send_all : (addrs : List SocketAddr) (packet : Bytes) → IsQuiet (send_all addrs packet)
unfolding IsQuiet send_all
IsQuiet-send_all [] packet = tt
IsQuiet-send_all (addr ∷ addrs) packet = IsQuiet-send_all addrs packet

pub IsQuiet-call_by_client : (addr : SocketAddr) (m : Method) → IsQuiet (call_by_client addr m)
unfolding IsQuiet call_by_client ◌>>=◌
IsQuiet-call_by_client addr m w = called _
  where
    called : (o : Option ℕ) → IsQuiet (call_if o m)
    called none = tt
    called (some id) = (tt, tt)

pub ruleset quiet_rules = (
  IsQuiet->>=, IsQuiet-pure, IsQuiet-lift, IsQuiet-look, IsQuiet-on_table, IsQuiet-send, IsQuiet-if,
  IsQuiet-send_all, IsQuiet-call_by_client,
)
