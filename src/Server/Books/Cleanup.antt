-- ===== src/Server/Books/Cleanup.antt =====
-- The rounds of the cleanup give back one slot for each allocation that they drop.
use uturn.Common.{ℕ, Bool, List, [], ◌∷◌, arith, nat_key}
use uturn.Addr.{IpAddr, ip_key, socket_key}
use uturn.Lookup.Allocation.{Allocation, is_expired, is_inactive, is_orphaned_sender}
use uturn.Lookup.RateLimit.Quota.{cleans}
use uturn.Lookup.Table.Departures.{reap-Reaped, tally}
use uturn.Lookup.Table.Reaping.{reap-IsIndexed, Pending-all}
use uturn.Lookup.Table.Removal.{cleanup_expired, cleanup_inactive, cleanup_orphaned_senders, reap}
use uturn.Lookup.Table.Steps.{
  step, expired_op, inactive_op, orphaned_op, channels_op, permissions_op,
}
use uturn.Server.Books.{Books, IsBalanced, nothing, deallocates-Books, cleans-Books, IsQuiet-Ends}
use uturn.Server.Ends.{Ends, Ends->>=}
use uturn.Server.Packets.{
  record_deallocations, reap_and_release, cleanup_tick, inactivity_timeout_secs,
}
use uturn.Server.Quiet.{IsQuiet}
use uturn.Server.State.{Env, World, ◌>>=◌, ◌>>◌, operate, limit}

module _ (max : ℕ) (env : Env) where
  record_deallocations-Ends :
      (ips : List IpAddr) (w : World)
      → Books max (λ ip. tally ip ips) w.table w.limiter
      → Ends (IsBalanced max) (record_deallocations env ips) w
  unfolding Ends record_deallocations ◌>>=◌ tally
  record_deallocations-Ends [] w h = h
  record_deallocations-Ends (ip ∷ ips) w h =
      record_deallocations-Ends ips _
        (deallocates-Books max (λ x. tally x ips) ip env.instant w.table w.limiter h)

  reaped-Ends :
      (dead : Allocation → Bool) (w : World)
      → IsBalanced max w.table w.limiter
      → Ends
          (IsBalanced max)
          (record_deallocations env (reap dead w.table.allocations w.table).1)
          (record w { table = (reap dead w.table.allocations w.table).0 })
  reaped-Ends dead w h =
      let pending = Pending-all w.table in
      let unique = h.indexed.unique in
      let r = reap-Reaped dead w.table.allocations w.table unique pending h.indexed in
      record_deallocations-Ends (reap dead w.table.allocations w.table).1 _ (record {
        limit = h.limit;
        indexed = reap-IsIndexed dead w.table.allocations w.table unique pending h.indexed;
        numbered = r.numbered h.numbered;
        counts = λ ip. omega (arith, h.counts ip, r.counts ip);
      })

  expired-Ends :
      (w : World)
      → IsBalanced max w.table w.limiter
      → Ends
          (IsBalanced max)
          (reap_and_release env (expired_op env.now) (λ t. (cleanup_expired env.now t).1))
          w
  unfolding Ends reap_and_release cleanup_expired step
  expired-Ends w h = λ small. reaped-Ends (is_expired env.now) w h

  inactive-Ends :
      (timeout : ℕ) (w : World)
      → IsBalanced max w.table w.limiter
      → Ends
          (IsBalanced max)
          (reap_and_release env
            (inactive_op env.now timeout)
            (λ t. (cleanup_inactive env.now t timeout).1))
          w
  unfolding Ends reap_and_release cleanup_inactive step
  inactive-Ends timeout w h = λ small. reaped-Ends (λ a. is_inactive env.now a timeout) w h

  orphaned-Ends :
      (timeout : ℕ) (w : World)
      → IsBalanced max w.table w.limiter
      → Ends
          (IsBalanced max)
          (reap_and_release env
            (orphaned_op env.now timeout)
            (λ t. (cleanup_orphaned_senders env.now t timeout).1))
          w
  unfolding Ends reap_and_release cleanup_orphaned_senders step
  orphaned-Ends timeout w h = λ small. reaped-Ends (λ a. is_orphaned_sender env.now a timeout) w h

  tidied-IsQuiet : IsQuiet (operate (channels_op env.now) >> operate (permissions_op env.now))
  unfolding IsQuiet ◌>>=◌
  tidied-IsQuiet = (tt, (tt, tt))

  tidied-Ends :
      (w : World)
      → IsBalanced max w.table w.limiter
      → Ends
          (IsBalanced max)
          (operate (channels_op env.now)
            >> (operate (permissions_op env.now) >> limit (cleans env.instant)))
          w
  unfolding Ends ◌>>=◌
  tidied-Ends w h = λ small room. cleans-Books max nothing env.instant _ w.limiter (
      IsQuiet-Ends max (operate (channels_op env.now) >> operate (permissions_op env.now)) w
        tidied-IsQuiet h small room)

  pub cleanup_tick-Ends :
      (w : World) → IsBalanced max w.table w.limiter → Ends (IsBalanced max) (cleanup_tick env) w
  unfolding cleanup_tick
  cleanup_tick-Ends w h =
      Ends->>= (IsBalanced max) (reap_and_release env (expired_op env.now) _) _ w (expired-Ends w h)
        λ _ v hv.
          Ends->>= (IsBalanced max)
            (reap_and_release env (inactive_op env.now inactivity_timeout_secs) _) _ v
            (inactive-Ends inactivity_timeout_secs v hv)
            λ _ u hu.
              Ends->>= (IsBalanced max)
                (reap_and_release env (orphaned_op env.now inactivity_timeout_secs) _) _ u
                (orphaned-Ends inactivity_timeout_secs u hu) λ _ x hx. tidied-Ends x hx
