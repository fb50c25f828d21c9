-- ===== src/Server/Packets/History.antt =====
-- A server's whole life: what the events do to the table is a history of the table's operations,
-- and what they do to the limiter a history of its calls.
use uturn.Common.{
  ◌≡◌, refl, sym, ap, ◌∙◌, true, false, List, [], ◌∷◌, ◌++◌, nat_key, Bool-cases, inl, inr,
}
use uturn.Addr.{IpAddr, ip_key, socket_key, octets_key}
use uturn.Config.{Config}
use uturn.Lookup.RateLimit.{RateLimiter}
use uturn.Lookup.RateLimit.Quota as Quota
use uturn.Lookup.RateLimit.Quota.{Call, Fits, entry_of, apply_call, run-new_limiter-Fits}
use uturn.Lookup.Table.Steps.{Op, step, run}
use uturn.Server.State.{Env, World, Io, pure, panicking, look, on_table, on_limiter, send, evaluate}
use uturn.Server.Packets.{
  Event, received, tick, handle_packet, cleanup_tick, new_world, serve_one, serve,
}

-- The operations that a program makes on the table, and its calls of the limiter.
unfoldable pub table_ops : {A : Type 0} → Env → Io A → World → List Op
unfolding step apply_call
table_ops env (pure a) w = []
table_ops env panicking w = []
table_ops env (look f) w = table_ops env (f w) w
table_ops env (on_table op m) w = op ∷ table_ops env m (record w { table = step op w.table })
table_ops env (on_limiter c m) w = table_ops env m (record w { limiter = apply_call w.limiter c })
table_ops env (send addr packet m) w = elim (env.accepts addr packet) [
  | true ↦ table_ops env m (record w { sent = w.sent ++ ((addr, packet) ∷ []) })
  | false ↦ []
]

unfoldable pub limiter_calls : {A : Type 0} → Env → Io A → World → List Call
unfolding step apply_call
limiter_calls env (pure a) w = []
limiter_calls env panicking w = []
limiter_calls env (look f) w = limiter_calls env (f w) w
limiter_calls env (on_table op m) w = limiter_calls env m (record w { table = step op w.table })
limiter_calls env (on_limiter c m) w =
    c ∷ limiter_calls env m (record w { limiter = apply_call w.limiter c })
limiter_calls env (send addr packet m) w = elim (env.accepts addr packet) [
  | true ↦ limiter_calls env m (record w { sent = w.sent ++ ((addr, packet) ∷ []) })
  | false ↦ []
]

evaluate-table :
    {A : Type 0} (env : Env) (p : Io A) (w : World)
    → (evaluate env p w).0.table ≡ run (table_ops env p w) w.table
unfolding evaluate table_ops run
evaluate-table env (pure a) w = refl
evaluate-table env panicking w = refl
evaluate-table env (look f) w = evaluate-table env (f w) w
evaluate-table env (on_table op m) w = evaluate-table env m (record w { table = step op w.table })
evaluate-table env (on_limiter c m) w =
    evaluate-table env m (record w { limiter = apply_call w.limiter c })
evaluate-table env (send addr packet m) w = elim (Bool-cases (env.accepts addr packet)) [
  | inl taken ↦
      rw (taken, evaluate, table_ops)
        (evaluate-table env m (record w { sent = w.sent ++ ((addr, packet) ∷ []) }))
  | inr refused ↦ rw (refused, evaluate, table_ops) refl
]

evaluate-limiter :
    {A : Type 0} (env : Env) (p : Io A) (w : World)
    → (evaluate env p w).0.limiter ≡ Quota.run w.limiter (limiter_calls env p w)
unfolding evaluate limiter_calls Quota.run
evaluate-limiter env (pure a) w = refl
evaluate-limiter env panicking w = refl
evaluate-limiter env (look f) w = evaluate-limiter env (f w) w
evaluate-limiter env (on_table op m) w =
    evaluate-limiter env m (record w { table = step op w.table })
evaluate-limiter env (on_limiter c m) w =
    evaluate-limiter env m (record w { limiter = apply_call w.limiter c })
evaluate-limiter env (send addr packet m) w = elim (Bool-cases (env.accepts addr packet)) [
  | inl taken ↦
      rw (taken, evaluate, limiter_calls)
        (evaluate-limiter env m (record w { sent = w.sent ++ ((addr, packet) ∷ []) }))
  | inr refused ↦ rw (refused, evaluate, limiter_calls) refl
]

-- The same for an event, and for all of them.
unfoldable pub event_ops : Event → World → List Op
unfolding table_ops handle_packet cleanup_tick
event_ops (received env packet src_addr) w = table_ops env (handle_packet env packet src_addr) w
event_ops (tick env) w = table_ops env (cleanup_tick env) w

unfoldable pub serve_ops : List Event → World → List Op
unfolding event_ops serve_one
serve_ops [] w = []
serve_ops (event ∷ events) w = event_ops event w ++ serve_ops events (serve_one event w)

event_calls : Event → World → List Call
event_calls (received env packet src_addr) w =
    limiter_calls env (handle_packet env packet src_addr) w
event_calls (tick env) w = limiter_calls env (cleanup_tick env) w

unfoldable pub serve_calls : List Event → World → List Call
unfolding event_calls serve_one
serve_calls [] w = []
serve_calls (event ∷ events) w = event_calls event w ++ serve_calls events (serve_one event w)

calls-append :
    (calls more : List Call) (l : RateLimiter)
    → Quota.run l (calls ++ more) ≡ Quota.run (Quota.run l calls) more
unfolding Quota.run
calls-append [] more l = refl
calls-append (c ∷ calls) more l = calls-append calls more (apply_call l c)

pub serve_one-table :
    (event : Event) (w : World) → (serve_one event w).table ≡ run (event_ops event w) w.table
unfolding serve_one event_ops
serve_one-table (received env packet src_addr) w =
    evaluate-table env (handle_packet env packet src_addr) w
serve_one-table (tick env) w = evaluate-table env (cleanup_tick env) w

serve_one-limiter :
    (event : Event) (w : World)
    → (serve_one event w).limiter ≡ Quota.run w.limiter (event_calls event w)
unfolding serve_one event_calls
serve_one-limiter (received env packet src_addr) w =
    evaluate-limiter env (handle_packet env packet src_addr) w
serve_one-limiter (tick env) w = evaluate-limiter env (cleanup_tick env) w

serve-calls :
    (events : List Event) (w : World)
    → (serve events w).limiter ≡ Quota.run w.limiter (serve_calls events w)
unfolding serve serve_calls Quota.run
serve-calls [] w = refl
serve-calls (event ∷ events) w =
    serve-calls events (serve_one event w)
    ∙ (ap (λ l. Quota.run l (serve_calls events (serve_one event w))) (serve_one-limiter event w)
        ∙ sym
            (calls-append (event_calls event w) (serve_calls events (serve_one event w)) w.limiter))

-- What the limiter holds of an address stays within the configured limits.
pub serve-Fits :
    (config : Config) (events : List Event) (ip : IpAddr)
    → Fits config.rate_limit_per_minute config.max_allocations_per_ip
        (entry_of (serve events (new_world config)).limiter ip)
unfolding new_world
serve-Fits config events ip = rw (serve-calls events (new_world config)) (
    run-new_limiter-Fits config.rate_limit_per_minute config.max_allocations_per_ip
      (serve_calls events (new_world config)) ip)
