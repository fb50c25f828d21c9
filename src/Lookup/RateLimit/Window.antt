-- ===== src/Lookup/RateLimit/Window.antt =====
-- The sliding window: among the recorded requests of an address, never more than the limit lie
-- within the last sixty seconds.
use uturn.Common.{
  ℕ, suc, ◌<◌, inl, inr, Bool-cases, leb→le, leb→lt, ◌-◌, ◌≤◌, ◌≡◌, refl, ap, sym, ◌∙◌, List, [],
  ◌∷◌, ◌++◌, arith, ltb, leb, if◌then◌else◌, length, length-append, append_assoc, All, Bool, true,
  false,
}
use uturn.Lookup.RateLimit.Quota.{length-drop_expired}
use uturn.Lookup.RateLimit.{
  RateLimitEntry, Verdict, err, too_many_requests, window, drop_expired, check_entry, default_entry,
}

-- The requests of one address, one after another: the entry and, newest last, the times of those
-- that the request limit let through (whatever the quota then said).
pub record Trace : Type 0 where
  pub entry : RateLimitEntry
  pub recorded : List ℕ

abbrev passes : Verdict → Bool
passes (err too_many_requests) = false
passes _ = true

unfoldable pub request : ℕ → ℕ → ℕ → Trace → Trace
request mr ma now t =
    let (e, verdict) = check_entry mr ma now t.entry in
    record { entry = e; recorded = if passes verdict then t.recorded ++ now ∷ [] else t.recorded }

unfoldable pub requests : ℕ → ℕ → List ℕ → Trace → Trace
requests mr ma [] t = t
requests mr ma (now ∷ times) t = requests mr ma times (request mr ma now t)

-- How many of the times lie in the window that ends at `now`.
unfoldable pub in_window : ℕ → List ℕ → ℕ
in_window now [] = 0
in_window now (t ∷ times) =
    if ltb (now - t) window then suc (in_window now times) else in_window now times

-- The times come in order.
abbrev pub Ascending : ℕ → List ℕ → Type 0
Ascending from [] = Unit
Ascending from (t ∷ times) = (from ≤ t) × Ascending t times

abbrev pub last : ℕ → List ℕ → ℕ
last from [] = from
last from (t ∷ times) = last t times

-- What `drop_expired` drops.
expired : ℕ → List ℕ → List ℕ
expired now [] = []
expired now (t ∷ times) = if leb window (now - t) then t ∷ expired now times else []

expired-append : (now : ℕ) (times : List ℕ) → expired now times ++ drop_expired now times ≡ times
unfolding expired drop_expired
expired-append now [] = refl
expired-append now (t ∷ times) = ground (arith, expired-append now times)

abbrev AllExpired : ℕ → List ℕ → Type 0
AllExpired now = All λ t. window ≤ now - t

expired-AllExpired : (now : ℕ) (times : List ℕ) → AllExpired now (expired now times)
unfolding expired
expired-AllExpired now [] = tt
expired-AllExpired now (t ∷ times) = elim (Bool-cases (leb window (now - t))) [
  | inl e ↦ rw (e, expired) (leb→le window (now - t) e, expired-AllExpired now times)
  | inr e ↦ rw (e, expired) tt
]

AllExpired-append :
    (now : ℕ) (xs ys : List ℕ) → AllExpired now xs → AllExpired now ys → AllExpired now (xs ++ ys)
AllExpired-append now [] ys hx hy = hy
AllExpired-append now (x ∷ xs) ys hx hy = (hx.0, AllExpired-append now xs ys hx.1 hy)

AllExpired-later :
    (now later : ℕ) (xs : List ℕ) → now ≤ later → AllExpired now xs → AllExpired later xs
AllExpired-later now later [] h hx = tt
AllExpired-later now later (x ∷ xs) h hx = (omega arith, AllExpired-later now later xs h hx.1)

in_window-le : (now : ℕ) (times : List ℕ) → in_window now times ≤ length times
unfolding in_window
in_window-le now [] = omega arith
in_window-le now (t ∷ times) = ground (arith, in_window-le now times)

in_window-append :
    (now : ℕ) (old times : List ℕ)
    → AllExpired now old
    → in_window now (old ++ times) ≡ in_window now times
unfolding in_window
in_window-append now [] times h = refl
in_window-append now (x ∷ old) times h = ground (arith, in_window-append now old times h.1)

-- The entry keeps every recorded request that is not out of the window, and no more than the limit.
record Inv (mr now : ℕ) (t : Trace) : Type 0 where
  old : List ℕ
  split : t.recorded ≡ old ++ t.entry.request_times
  gone : AllExpired now old
  limited : length t.entry.request_times ≤ mr

-- What a request leaves: the unexpired times alone, or with its own behind them.
request_full :
    (mr ma now : ℕ) (t : Trace)
    → 0 < mr
    → leb mr (length (drop_expired now t.entry.request_times)) ≡ true
    → ((request mr ma now t).entry.request_times ≡ drop_expired now t.entry.request_times)
      × ((request mr ma now t).recorded ≡ t.recorded)
unfolding request check_entry
request_full mr ma now t p h = ground arith

request_free :
    (mr ma now : ℕ) (t : Trace)
    → 0 < mr
    → leb mr (length (drop_expired now t.entry.request_times)) ≡ false
    → ((request mr ma now t).entry.request_times
        ≡ drop_expired now t.entry.request_times ++ now ∷ [])
      × ((request mr ma now t).recorded ≡ t.recorded ++ now ∷ [])
unfolding request check_entry
request_free mr ma now t p h = ground arith

request-Inv :
    (mr ma now later : ℕ) (t : Trace)
    → 0 < mr
    → now ≤ later
    → Inv mr now t
    → Inv mr later (request mr ma later t)
request-Inv mr ma now later t p h inv = elim (Bool-cases (leb mr (length kept))) [
  | inl full ↦
      let r = request_full mr ma later t p full in
      record {
        old = inv.old ++ dropped;
        split = r.1 ∙ resplit ∙ ap (◌++◌ (inv.old ++ dropped)) (sym r.0);
        gone = gone;
        limited = omega (arith, ap length r.0, shorter, inv.limited);
      }
  | inr free ↦
      let r = request_free mr ma later t p free in
      record {
        old = inv.old ++ dropped;
        split =
            r.1
            ∙ ap (λ xs. xs ++ later ∷ []) resplit
            ∙ append_assoc (inv.old ++ dropped) kept (later ∷ [])
            ∙ ap (◌++◌ (inv.old ++ dropped)) (sym r.0);
        gone = gone;
        limited =
            omega
              (arith, ap length r.0, length-append kept (later ∷ []), leb→lt mr (length kept) free);
      }
]
  where
    kept : List ℕ
    kept = drop_expired later t.entry.request_times

    dropped : List ℕ
    dropped = expired later t.entry.request_times

    resplit : t.recorded ≡ (inv.old ++ dropped) ++ kept
    resplit =
        inv.split
        ∙ ap (◌++◌ inv.old) (sym (expired-append later t.entry.request_times))
        ∙ sym (append_assoc inv.old dropped kept)

    gone : AllExpired later (inv.old ++ dropped)
    gone =
        AllExpired-append later inv.old dropped (AllExpired-later now later inv.old h inv.gone)
          (expired-AllExpired later t.entry.request_times)

    shorter : length kept ≤ length t.entry.request_times
    shorter = length-drop_expired later t.entry.request_times

requests-Inv :
    (mr ma from : ℕ) (times : List ℕ) (t : Trace)
    → 0 < mr
    → Ascending from times
    → Inv mr from t
    → Inv mr (last from times) (requests mr ma times t)
unfolding requests
requests-Inv mr ma from [] t p h inv = inv
requests-Inv mr ma from (now ∷ times) t p h inv =
    requests-Inv mr ma now times (request mr ma now t) p h.1
      (request-Inv mr ma from now t p h.0 inv)

abbrev pub fresh : Trace
fresh = record { entry = default_entry; recorded = [] }

-- Where a request limit is set (`max_requests` is not 0, which stands for no limit): however many
-- requests an address makes, in the order of their times, at any moment from the last of them on,
-- at most `max_requests` of those that passed the request limit lie in the last sixty seconds.
pub in_window-requests :
    (max_requests max_allocations : ℕ) (times : List ℕ) (now : ℕ)
    → 0 < max_requests
    → Ascending 0 times
    → last 0 times ≤ now
    → in_window now (requests max_requests max_allocations times fresh).recorded ≤ max_requests
in_window-requests mr ma times now p h l = rw inv.split (
    omega (
      arith,
      in_window-append now inv.old after.entry.request_times
          (AllExpired-later (last 0 times) now inv.old l inv.gone),
      in_window-le now after.entry.request_times,
      inv.limited,
    ))
  where
    after : Trace
    after = requests mr ma times fresh

    inv : Inv mr (last 0 times) after
    inv =
        requests-Inv mr ma 0 times fresh p h
          (record { old = []; split = refl; gone = tt; limited = omega arith })
