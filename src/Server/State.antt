-- ===== src/Server/State.antt =====
-- The state that a server's tasks share (src/server.rs, `Server`), and the programs over it: the
-- handlers are sequences of calls of the table and the limiter, of looks at them and of datagrams
-- sent. A failed send (`?`) ends the packet, and so does a panic of an index or a slice.
use uturn.Common.{
  ℕ, Bool, true, false, Option, none, some, List, [], ◌∷◌, ◌++◌, length, lookup, if◌then◌else◌, Run,
  done, panic, out_of_fuel,
}
use uturn.Common.Bytes.{Bytes, Str}
use uturn.Addr.{IpAddr, SocketAddr, socket_key}
use uturn.Config.{Config}
use uturn.Lookup.RateLimit.{RateLimiter, Verdict, check_allocation_request}
use uturn.Lookup.RateLimit.Quota.{Call, checks, deallocates, apply_call}
use uturn.Lookup.Table.{AllocationTable, try_add_permissions_capped, create_or_get}
use uturn.Lookup.Table.Removal.{remove}
use uturn.Lookup.Table.Steps.{Method, Op, step, method_op, remove_op, add_permissions_op, create_op}
use uturn.Turn.Auth.{compute_message_integrity}
use uturn.Turn.Encode.{build_data_indication}

-- What the code reads while it handles one packet: configuration, clocks, random numbers, the
-- crates' hashes, and whether the socket takes a datagram. The clocks stand still meanwhile. The
-- transaction id of an indication is the one drawn when so many datagrams had been sent.
pub record Env : Type 0 where
  pub config : Config
  -- `coarse_now_ms()`, `Instant::now()` in nanoseconds, and the system's clock in seconds
  pub now : ℕ
  pub instant : ℕ
  pub unix_secs : ℕ
  pub txn_id : ℕ → Bytes
  pub hmac_sha1 : Bytes → Bytes → Bytes
  pub md5 : Bytes → Bytes
  pub base64 : Bytes → Str
  pub accepts : SocketAddr → Bytes → Bool

pub record World : Type 0 where
  pub table : AllocationTable
  pub limiter : RateLimiter
  -- The datagrams sent so far, in order.
  pub sent : List (SocketAddr × Bytes)

-- A program: what it does next, and how it goes on.
pub data Io (A : Type 0) : Type 0 where
  pure : A → Io A
  panicking : Io A
  look : (World → Io A) → Io A
  on_table : Op → Io A → Io A
  on_limiter : Call → Io A → Io A
  send : SocketAddr → Bytes → Io A → Io A

infixl 5 ◌>>=◌ ◌>>◌
unfoldable pub ◌>>=◌ : {A B : Type 0} → Io A → (A → Io B) → Io B
pure a >>= rest = rest a
panicking >>= rest = panicking
look f >>= rest = look (λ w. f w >>= rest)
on_table op m >>= rest = on_table op (m >>= rest)
on_limiter c m >>= rest = on_limiter c (m >>= rest)
send addr packet m >>= rest = send addr packet (m >>= rest)

abbrev pub ◌>>◌ : {A B : Type 0} → Io A → Io B → Io B
m >> rest = m >>= λ _. rest

pub data Outcome (A : Type 0) : Type 0 where
  ok : A → Outcome A
  failed panicked : Outcome A

-- What a program does to the state, and what it ends in.
unfoldable pub evaluate : {A : Type 0} → Env → Io A → World → World × Outcome A
unfolding step apply_call
evaluate env (pure a) w = (w, ok a)
evaluate env panicking w = (w, panicked)
evaluate env (look f) w = evaluate env (f w) w
evaluate env (on_table op m) w = evaluate env m (record w { table = step op w.table })
evaluate env (on_limiter c m) w = evaluate env m (record w { limiter = apply_call w.limiter c })
evaluate env (send addr packet m) w = elim (env.accepts addr packet) [
  | true ↦ evaluate env m (record w { sent = w.sent ++ ((addr, packet) ∷ []) })
  | false ↦ (w, failed)
]

abbrev pub skip : Io Unit
skip = pure tt

abbrev pub when : Bool → Io Unit → Io Unit
when b m = if b then m else skip

-- A look at the table, under a guard that is released at once.
abbrev pub reads : {A : Type 0} → (AllocationTable → A) → Io A
reads f = look (λ w. pure (f w.table))

unfoldable pub lift : {A : Type 0} → Run A → Io A
lift (done a) = pure a
lift panic = panicking
lift out_of_fuel = panicking

abbrev pub operate : Op → Io Unit
operate op = on_table op skip

abbrev pub limit : Call → Io Unit
limit c = on_limiter c skip

-- `if let Some(a) = self.allocations.get(id) { a.m() }`
abbrev pub call_on : ℕ → Method → Io Unit
call_on id m = operate (method_op id m)

abbrev pub call_if : Option ℕ → Method → Io Unit
call_if none m = skip
call_if (some id) m = call_on id m

-- `if let Some(a) = self.allocations.get_by_client(addr) { a.m() }`
unfoldable pub call_by_client : SocketAddr → Method → Io Unit
call_by_client addr m = do found ← reads (λ t. lookup addr t.by_client); call_if found m

-- `socket.send_to(..).await?`
abbrev pub send_to : SocketAddr → Bytes → Io Unit
send_to addr packet = send addr packet skip

-- The same datagram to each of the addresses; the first failure ends it.
unfoldable pub send_all : List SocketAddr → Bytes → Io Unit
send_all [] packet = skip
send_all (addr ∷ addrs) packet = send addr packet (send_all addrs packet)

module _ (env : Env) where
  abbrev pub relay_addr : SocketAddr
  relay_addr = record { ip = env.config.external_ip; port = env.config.port }

  -- The operations of the table that answer: the answer, and the step.
  abbrev pub create_or_get_io : SocketAddr → Str → ℕ → Bytes → Io (ℕ × Bool)
  create_or_get_io addr username lifetime txn_id = look λ w.
      on_table (create_op env.now addr username lifetime txn_id)
        (pure (create_or_get env.now w.table addr username lifetime txn_id).1)

  abbrev pub try_add_permissions_io : ℕ → List IpAddr → ℕ → Io Bool
  try_add_permissions_io id ips cap = look λ w.
      on_table (add_permissions_op env.now id ips cap)
        (pure (try_add_permissions_capped env.now w.table id ips cap).1)

  abbrev pub check_allocation_io : IpAddr → Io Verdict
  check_allocation_io ip = look λ w.
      on_limiter (checks ip env.instant)
        (pure (check_allocation_request w.limiter ip env.instant).1)

  -- `if self.allocations.remove(id) { self.rate_limiter.record_deallocation(ip); }`
  unfoldable pub release : ℕ → IpAddr → Io Unit
  unfolding remove
  release id ip =
      look λ w.
        on_table (remove_op id) (when (remove w.table id).1 (limit (deallocates ip env.instant)))

  abbrev pub integrity : Bytes → Bytes → Bytes
  integrity message key = compute_message_integrity env.hmac_sha1 message key

  -- `self.build_data_indication(..)`, with the random transaction id
  unfoldable pub indication : SocketAddr → Bytes → Io Bytes
  unfolding lift
  indication peer_addr payload =
      look λ w. lift (build_data_indication peer_addr payload (env.txn_id (length w.sent)))
