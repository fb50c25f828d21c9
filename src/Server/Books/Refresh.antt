-- ===== src/Server/Books/Refresh.antt =====
-- Refresh: the slot of an allocation that is given up is given back.
use uturn.Common.{
  ℕ, ◌≡◌, refl, sym, ap, ◌∙◌, subst, Bool, true, false, not, Option, none, some, ◌==◌,
  if◌then◌else◌, arith, Run, done, panic, out_of_fuel,
}
use uturn.Common as Common
use uturn.Common.Bytes.{Bytes, Str}
use uturn.Addr.{SocketAddr, ip_key, socket_key}
use uturn.Demux.Stun.{StunInfo}
use uturn.Lookup.Allocation.{Allocation}
use uturn.Lookup.Table.{AllocationTable, get_by_client}
use uturn.Lookup.Table.Steps.{refresh_op, touch_received_op}
use uturn.Server.Books.{IsBalanced, IsQuiet-Ends}
use uturn.Server.Books.Release.{release-Ends, own_client}
use uturn.Server.Credentials as Credentials
use uturn.Server.Credentials.{
  Reply, authenticate, authenticate_for_allocation, resolve, resolve_found, belongs_to_another,
  refuse, unauthorized, key_of,
}
use uturn.Server.Ends.{Ends, Ends->>=, if-Ends}
use uturn.Server.Quiet.{IsQuiet, quiet_rules}
use uturn.Server.State.{Env, World, Io, ◌>>=◌, ◌>>◌, lift, release, call_by_client}
use uturn.Server.Turn.Allocate.{
  reply_refreshed, refresh_for, handle_refresh, unwrap_or, clamp_lifetime,
}
use uturn.Server.Turn.Guard.{or_send, authenticated}

-- Where the computation accepts, what it gives is a `Q`.
abbrev pub Yields : {A : Type 0} → (A → Type 0) → Run (Reply A) → Type 0
Yields Q (done (Credentials.ok a)) = Q a
Yields Q (done (Credentials.err response)) = Unit
Yields Q panic = Unit
Yields Q out_of_fuel = Unit

-- The id is that of the client's allocation.
abbrev pub IsOwn : AllocationTable → SocketAddr → ℕ × Option Bytes → Type 0
IsOwn t src_addr found = (a : Allocation) × (get_by_client t src_addr ≡ some a) × (a.id ≡ found.0)

module _ (env : Env) (msg : StunInfo) (t : AllocationTable) (src_addr : SocketAddr) where
  refuse-Yields : {A : Type 0} (Q : A → Type 0) (m : Run Bytes) → Yields Q (refuse m)
  refuse-Yields Q (done response) = tt
  refuse-Yields Q panic = tt
  refuse-Yields Q out_of_fuel = tt

  resolve_found-Yields :
      (found : Option Allocation) (auth : Option (Str × Bytes))
      → get_by_client t src_addr ≡ found
      → Yields (IsOwn t src_addr) (resolve_found env msg found auth)
  unfolding resolve_found
  resolve_found-Yields none auth e = refuse-Yields (IsOwn t src_addr) _
  resolve_found-Yields (some a) auth e = checked (belongs_to_another env a auth)
    where
      checked :
          (b : Bool)
          → Yields (IsOwn t src_addr) (
              if b
              then refuse (unauthorized env msg)
              else done (Credentials.ok (a.id, key_of env auth)))
      checked true = refuse-Yields (IsOwn t src_addr) _
      checked false = (a, e, refl)

  authenticate_for_allocation-Yields :
      Yields (IsOwn t src_addr) (authenticate_for_allocation env t msg src_addr)
  unfolding authenticate_for_allocation resolve
  authenticate_for_allocation-Yields = verdict (authenticate env msg)
    where
      verdict :
          (m : Run (Reply (Option (Str × Bytes))))
          → Yields (IsOwn t src_addr) (
              Common.◌>>=◌ m λ v. elim v as (λ _. Run (Reply (ℕ × Option Bytes))) [
                | Credentials.ok auth ↦ resolve env t msg src_addr auth
                | Credentials.err response ↦ done (Credentials.err response)
              ])
      verdict (done (Credentials.ok auth)) = resolve_found-Yields _ auth refl
      verdict (done (Credentials.err response)) = tt
      verdict panic = tt
      verdict out_of_fuel = tt

module _ (max : ℕ) (env : Env) (msg : StunInfo) (src_addr : SocketAddr) where
  lift-Yields-Ends :
      {A : Type 0} (Q : A → Type 0) (m : Run (Reply A)) (k : A → Io Unit) (w : World)
      → Yields Q m
      → IsBalanced max w.table w.limiter
      → ((a : A) → Q a → Ends (IsBalanced max) (k a) w)
      → Ends (IsBalanced max) (lift m >>= λ auth. or_send src_addr auth k) w
  unfolding Ends lift ◌>>=◌
  lift-Yields-Ends Q (done (Credentials.ok a)) k w y h next = next a y
  lift-Yields-Ends Q (done (Credentials.err response)) k w y h next = (h, h)
  lift-Yields-Ends Q panic k w y h next = h
  lift-Yields-Ends Q out_of_fuel k w y h next = h

  reply_refreshed-IsQuiet :
      (lifetime : ℕ) (key : Option Bytes) → IsQuiet (reply_refreshed env msg src_addr lifetime key)
  reply_refreshed-IsQuiet lifetime key = search quiet_rules

  refreshed-IsQuiet :
      (requested : ℕ) (key : Option Bytes)
      → IsQuiet (do
        call_by_client src_addr (refresh_op env.now (clamp_lifetime requested))
        call_by_client src_addr (touch_received_op env.now)
        reply_refreshed env msg src_addr (clamp_lifetime requested) key)
  refreshed-IsQuiet requested key = search quiet_rules

  refresh_for-Ends :
      (id : ℕ) (key : Option Bytes) (requested : ℕ) (w : World)
      → IsBalanced max w.table w.limiter
      → IsOwn w.table src_addr (id, key)
      → Ends (IsBalanced max) (refresh_for env msg src_addr id key requested) w
  unfolding refresh_for
  refresh_for-Ends id key requested w h (a, e, same) =
      if-Ends (IsBalanced max) (requested == 0) _ _ w
        (λ _.
          Ends->>= (IsBalanced max) (release env id src_addr.ip)
            (λ _. reply_refreshed env msg src_addr 0 key) w
            (release-Ends max env id src_addr.ip w h λ addr at.
              let own = own_client w.table src_addr a h.indexed h.numbered e in
              ground (arith, own, at, same))
            λ _ v hv.
              IsQuiet-Ends max (reply_refreshed env msg src_addr 0 key) v
                (reply_refreshed-IsQuiet 0 key) hv)
        λ _. IsQuiet-Ends max _ w (refreshed-IsQuiet requested key) h

  pub handle_refresh-Ends :
      (w : World)
      → IsBalanced max w.table w.limiter
      → Ends (IsBalanced max) (handle_refresh env msg src_addr) w
  unfolding Ends handle_refresh authenticated ◌>>=◌
  handle_refresh-Ends w h =
      lift-Yields-Ends (IsOwn w.table src_addr)
        (authenticate_for_allocation env w.table msg src_addr)
        (λ found. refresh_for env msg src_addr found.0 found.1 (unwrap_or msg.lifetime 60)) w
        (authenticate_for_allocation-Yields env msg w.table src_addr) h
        λ found own. refresh_for-Ends found.0 found.1 (unwrap_or msg.lifetime 60) w h own
