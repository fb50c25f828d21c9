-- ===== src/Server/Books/Allocate.antt =====
-- Allocate: a slot is taken for each allocation that is made, and for no other.
use uturn.Common.{
  ℕ, ◌≤◌, ◌<◌, ◌≡◌, refl, sym, subst, Bool, not, Option, none, some, ◌=?◌, arith, nat_key,
}
use uturn.Common.Bytes.{Bytes, Str}
use uturn.Addr.{SocketAddr, ip_key, socket_key, octets_key}
use uturn.Demux.Stun.{StunInfo}
use uturn.Lookup.Allocation.{Allocation, is_expired, remaining_lifetime}
use uturn.Lookup.RateLimit.{Verdict, ok, err, u32_max, check_allocation_request}
use uturn.Lookup.RateLimit.Quota.{cancels, checks, apply_call}
use uturn.Lookup.Table.{AllocationTable, create_or_get, get, get_by_client}
use uturn.Lookup.Table.Arrivals.{Made, existing, made, create_or_get-Made}
use uturn.Lookup.Table.Steps.{step}
use uturn.Server.Books.{
  Books, IsBalanced, nothing, one_more, cancels-Books, granted-Books, refused-Books, IsQuiet-Ends,
}
use uturn.Server.Books.Release.{release-Ends, own_client}
use uturn.Server.Credentials as Credentials
use uturn.Server.Credentials.{Reply, authenticate, key_of}
use uturn.Server.Ends.{Ends, Ends->>=, if-Ends, lift-Ends}
use uturn.Server.Quiet.{IsQuiet, quiet_rules}
use uturn.Server.Quiet.Turn.{reply_error-IsQuiet}
use uturn.Server.State.{Env, World, Io, ◌>>=◌, ◌>>◌, when, limit, reads, release}
use uturn.Server.Turn.Allocate.{
  reply_error, reply_allocated, create_and_reply, lifetime_or, on_verdict, admit, on_existing,
  error_code, transport_ok, allocate, username_of, handle_allocate,
}
use uturn.Server.Turn.Guard.{or_send}
use uturn.Turn.Message.{unsupported_transport, allocation_mismatch}

module _ (max : ℕ) (on : 0 < max) (fits : max ≤ u32_max) (env : Env) (msg : StunInfo)
    (src_addr : SocketAddr) where
  reply_allocated-IsQuiet :
      (lifetime : ℕ) (key : Option Bytes) → IsQuiet (reply_allocated env msg src_addr lifetime key)
  unfolding reply_allocated
  reply_allocated-IsQuiet lifetime key = search quiet_rules

  abbrev reply_found : ℕ → Option Bytes → Io Unit
  reply_found id key = do
    found ← reads (λ t. get t id)
    reply_allocated env msg src_addr (lifetime_or env.now found 60) key

  reply_found-IsQuiet : (id : ℕ) (key : Option Bytes) → IsQuiet (reply_found id key)
  reply_found-IsQuiet id key = search (quiet_rules, reply_allocated-IsQuiet)

  abbrev settle_up : AllocationTable × (ℕ × Bool) → Option Bytes → Io Unit
  settle_up r key =
      when (not r.1.1) (limit (cancels src_addr.ip env.instant)) >> reply_found r.1.0 key

  Made-Ends :
      (key : Option Bytes) (w : World) (r : AllocationTable × (ℕ × Bool))
      → Made w.table src_addr r
      → Books max (one_more src_addr.ip nothing) w.table w.limiter
      → Ends (IsBalanced max) (settle_up r key) (record w { table = r.0 })
  unfolding Ends ◌>>=◌
  Made-Ends key w r (existing id e) h =
      subst (λ r. Ends (IsBalanced max) (settle_up r key) (record w { table = r.0 })) (sym e)
        (IsQuiet-Ends max (reply_found id key)
          (record w { limiter = apply_call w.limiter (cancels src_addr.ip env.instant) })
          (reply_found-IsQuiet id key)
          (cancels-Books max nothing src_addr.ip env.instant w.table w.limiter h))
  Made-Ends key w r (made t' id e i n counts) h =
      subst (λ r. Ends (IsBalanced max) (settle_up r key) (record w { table = r.0 })) (sym e)
        (IsQuiet-Ends max (reply_found id key) (record w { table = t' })
          (reply_found-IsQuiet id key)
          (record {
            limit = h.limit;
            indexed = i;
            numbered = n;
            counts = λ ip. omega (arith, h.counts ip, counts ip);
          }))

  create_and_reply-Ends :
      (username : Str) (key : Option Bytes) (w : World)
      → Books max (one_more src_addr.ip nothing) w.table w.limiter
      → Ends (IsBalanced max) (create_and_reply env msg src_addr username key) w
  unfolding Ends create_and_reply ◌>>=◌ step
  create_and_reply-Ends username key w h = λ small.
      Made-Ends key w (create_or_get env.now w.table src_addr username 60 msg.transaction_id)
        (create_or_get-Made env.now w.table src_addr username 60 msg.transaction_id h.indexed
          h.numbered small)
        h

  reply_error-Ends :
      (error : _) (key : Option Bytes) (w : World)
      → IsBalanced max w.table w.limiter
      → Ends (IsBalanced max) (reply_error env msg src_addr error key) w
  reply_error-Ends error key w h =
      IsQuiet-Ends max (reply_error env msg src_addr error key) w
        (reply_error-IsQuiet env msg src_addr error key) h

  verdict-Ends :
      (username : Str) (key : Option Bytes) (w : World) (v : Verdict)
      → (check_allocation_request w.limiter src_addr.ip env.instant).1 ≡ v
      → IsBalanced max w.table w.limiter
      → Ends
          (IsBalanced max)
          (on_verdict env msg src_addr username key v)
          (record w { limiter = apply_call w.limiter (checks src_addr.ip env.instant) })
  verdict-Ends username key w ok e h =
      create_and_reply-Ends username key _
        (granted-Books max src_addr.ip env.instant w.table w.limiter on fits h e)
  verdict-Ends username key w (err why) e h =
      reply_error-Ends (error_code why) key _
        (refused-Books max src_addr.ip env.instant w.table w.limiter why h e)

  admit-Ends :
      (username : Str) (key : Option Bytes) (w : World)
      → IsBalanced max w.table w.limiter
      → Ends (IsBalanced max) (admit env msg src_addr username key) w
  unfolding Ends admit ◌>>=◌
  admit-Ends username key w h =
      if-Ends (IsBalanced max) (not (transport_ok msg.requested_transport)) _ _ w
        (λ _. reply_error-Ends unsupported_transport key w h)
        λ _. verdict-Ends username key w _ refl h

  on_existing-Ends :
      (username : Str) (key : Option Bytes) (w : World) (found : Option Allocation)
      → get_by_client w.table src_addr ≡ found
      → IsBalanced max w.table w.limiter
      → Ends (IsBalanced max) (on_existing env msg src_addr username key found) w
  unfolding on_existing
  on_existing-Ends username key w none e h = admit-Ends username key w h
  on_existing-Ends username key w (some a) e h =
      if-Ends (IsBalanced max) (is_expired env.now a) _ _ w
        (λ _.
          Ends->>= (IsBalanced max) (release env a.id src_addr.ip)
            (λ _. admit env msg src_addr username key) w
            (release-Ends max env a.id src_addr.ip w h λ addr at.
              let own = own_client w.table src_addr a h.indexed h.numbered e in
              ground (arith, own, at))
            λ _ v hv. admit-Ends username key v hv)
        λ _.
          if-Ends (IsBalanced max) (a.allocate_txn_id =? msg.transaction_id) _ _ w
            (λ _.
              IsQuiet-Ends max _ w (reply_allocated-IsQuiet (remaining_lifetime env.now a) key) h)
            λ _. reply_error-Ends allocation_mismatch key w h

  pub handle_allocate-Ends :
      (w : World)
      → IsBalanced max w.table w.limiter
      → Ends (IsBalanced max) (handle_allocate env msg src_addr) w
  unfolding Ends handle_allocate allocate
  handle_allocate-Ends w h =
      lift-Ends (IsBalanced max) (authenticate env msg) _ w h λ auth. answered auth
    where
      answered :
          (auth : Reply (Option (Str × Bytes)))
          → Ends (IsBalanced max) (or_send src_addr auth (allocate env msg src_addr)) w
      answered (Credentials.ok user) =
          on_existing-Ends (username_of env msg user) (key_of env user) w _ refl h
      answered (Credentials.err response) = (h, h)
