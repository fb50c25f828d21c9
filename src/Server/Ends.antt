-- ===== src/Server/Ends.antt =====
-- What holds of the table and the limiter whenever a program ends, be it by a failed send or a panic.
use uturn.Common.{
  ◌+◌, ◌<◌, ◌^◌, ◌≡◌, refl, Bool, true, false, [], ◌∷◌, ◌++◌, Run, done, panic, out_of_fuel, length,
  if◌then◌else◌, arith, Bool-cases, inl, inr,
}
use uturn.Lookup.RateLimit.{RateLimiter}
use uturn.Lookup.RateLimit.Quota.{apply_call}
use uturn.Lookup.Table.{AllocationTable}
use uturn.Lookup.Table.Clients.{IsIndexed}
use uturn.Lookup.Table.Reachable.{step-IsIndexed, next_id-step}
use uturn.Lookup.Table.Steps.{step}
use uturn.Server.Packets.History.{table_ops}
use uturn.Server.State.{
  Env, World, Io, pure, panicking, look, on_table, on_limiter, send, ◌>>=◌, lift, evaluate,
}

-- From the state `w` on, `P` holds wherever the program may end, as long as the counter of the ids
-- is not near its top.
unfoldable pub Ends :
    {A : Type 0} → (AllocationTable → RateLimiter → Type 0) → Io A → World → Type 0
unfolding step apply_call
Ends P (pure a) w = P w.table w.limiter
Ends P panicking w = P w.table w.limiter
Ends P (look f) w = Ends P (f w) w
Ends P (on_table op m) w =
    w.table.next_id + 1 < 2 ^ 64 → Ends P m (record w { table = step op w.table })
Ends P (on_limiter c m) w = Ends P m (record w { limiter = apply_call w.limiter c })
Ends P (send addr packet m) w =
    P w.table w.limiter × Ends P m (record w { sent = w.sent ++ ((addr, packet) ∷ []) })

module _ (P : AllocationTable → RateLimiter → Type 0) where
  pub Ends->>= :
      {A B : Type 0} (m : Io A) (k : A → Io B) (w : World)
      → Ends P m w
      → ((a : A) (v : World) → P v.table v.limiter → Ends P (k a) v)
      → Ends P (m >>= k) w
  unfolding Ends ◌>>=◌
  Ends->>= (pure a) k w h next = next a w h
  Ends->>= panicking k w h next = h
  Ends->>= (look f) k w h next = Ends->>= (f w) k w h next
  Ends->>= (on_table op m) k w h next = λ small. Ends->>= m k _ (h small) next
  Ends->>= (on_limiter c m) k w h next = Ends->>= m k _ h next
  Ends->>= (send addr packet m) k w (hp, h) next = (hp, Ends->>= m k _ h next)

  pub lift-Ends :
      {A B : Type 0} (m : Run A) (k : A → Io B) (w : World)
      → P w.table w.limiter
      → ((a : A) → Ends P (k a) w)
      → Ends P (lift m >>= k) w
  unfolding Ends ◌>>=◌ lift
  lift-Ends (done a) k w p h = h a
  lift-Ends panic k w p h = p
  lift-Ends out_of_fuel k w p h = p

  pub if-Ends :
      {A : Type 0} (b : Bool) (m n : Io A) (w : World)
      → (b ≡ true → Ends P m w)
      → (b ≡ false → Ends P n w)
      → Ends P (if b then m else n) w
  if-Ends true m n w hm hn = hm refl
  if-Ends false m n w hm hn = hn refl

  -- Where the operations do not exhaust the ids, it does hold at the end.
  pub evaluate-Ends :
      {A : Type 0} (env : Env) (m : Io A) (w : World)
      → IsIndexed w.table
      → Ends P m w
      → w.table.next_id + length (table_ops env m w) < 2 ^ 64
      → P (evaluate env m w).0.table (evaluate env m w).0.limiter
  unfolding Ends evaluate table_ops
  evaluate-Ends env (pure a) w i h = λ small. h
  evaluate-Ends env panicking w i h = λ small. h
  evaluate-Ends env (look f) w i h = evaluate-Ends env (f w) w i h
  evaluate-Ends env (on_table op m) w i h = λ small.
      let room : w.table.next_id + 1 < 2 ^ 64 = omega arith in
      evaluate-Ends env m (record w { table = step op w.table }) (step-IsIndexed op w.table i room)
        (h room) (omega (arith, next_id-step op w.table i room))
  evaluate-Ends env (on_limiter c m) w i h =
      evaluate-Ends env m (record w { limiter = apply_call w.limiter c }) i h
  evaluate-Ends env (send addr packet m) w i (hp, h) = elim (Bool-cases (env.accepts addr packet)) [
    | inl taken ↦
        rw (taken, evaluate, table_ops)
          (evaluate-Ends env m (record w { sent = w.sent ++ ((addr, packet) ∷ []) }) i h)
    | inr refused ↦ rw (refused, evaluate, table_ops) (λ small. hp)
  ]
