-- ===== src/Future/Reach.antt =====
-- What a future gives, in any order of the steps.
use osi.Prelude.{
  ℕ, ◌≡◌, ◌≢◌, ◌⊎◌, inl, inr, refl, ap, subst, Bool, true, false, some, if◌then◌else◌,
}
use osi.Future.{
  Future, new, Readying, calls_ready, storing, posting, is_ready, Awaiting, calls_await, loading,
  freeing, awaited, System, Outcome, blocks, faults, goes, ready_from, await_from, at_end,
  has_returned, ready_step, await_step, Reaches, stays, readies, awaits,
}

-- The future while `value` is on its way.
abbrev FutureOk : ℕ → Readying → Awaiting → Future → Type 0
FutureOk value (calls_ready v) calls_await f = (v ≡ value) × (f ≡ new)
FutureOk value (storing v) calls_await f =
    (v ≡ value) × (f ≡ record new { ready_can_be_called = false })
FutureOk value (posting v) calls_await f =
    (v ≡ value) × (f ≡ record new { ready_can_be_called = false; result = value })
FutureOk value (is_ready v) calls_await f =
    f ≡ record new { ready_can_be_called = false; result = value; semaphore = some 1 }
FutureOk value (is_ready v) loading f =
    f ≡ record new { ready_can_be_called = false; result = value }
FutureOk value (is_ready v) (freeing x) f =
    (x ≡ value) × (f ≡ record new { ready_can_be_called = false; result = value })
FutureOk value (is_ready v) (awaited x) f = x ≡ value
FutureOk value _ _ f = false ≡ true

abbrev pub IsValid : ℕ → System → Type 0
IsValid value s = FutureOk value s.readying s.awaiting s.future

abbrev Safe : ℕ → Outcome → Type 0
Safe value blocks = Unit
Safe value faults = false ≡ true
Safe value (goes s) = IsValid value s

-- A step of either thread at known points, on a known future.
ready_from-Safe :
    (value : ℕ) (r : Readying) (a : Awaiting) (f : Future)
    → FutureOk value r a f
    → Safe value (
        let s : System = record { future = f; readying = r; awaiting = a } in
        if at_end r then blocks else if f.is_freed then faults else ready_from s r)
ready_from-Safe value (is_ready v) a f h = tt
ready_from-Safe value (calls_ready v) calls_await f (e, is) = rw is (e, refl)
ready_from-Safe value (storing v) calls_await f (e, is) =
    rw is (e, ap (λ x. record new { ready_can_be_called = false; result = x }) e)
ready_from-Safe value (posting v) calls_await f (e, is) = rw is refl
ready_from-Safe value (calls_ready v) loading f h = cc
ready_from-Safe value (calls_ready v) (freeing x) f h = cc
ready_from-Safe value (calls_ready v) (awaited x) f h = cc
ready_from-Safe value (storing v) loading f h = cc
ready_from-Safe value (storing v) (freeing x) f h = cc
ready_from-Safe value (storing v) (awaited x) f h = cc
ready_from-Safe value (posting v) loading f h = cc
ready_from-Safe value (posting v) (freeing x) f h = cc
ready_from-Safe value (posting v) (awaited x) f h = cc

await_from-Safe :
    (value : ℕ) (r : Readying) (a : Awaiting) (f : Future)
    → FutureOk value r a f
    → Safe value (
        let s : System = record { future = f; readying = r; awaiting = a } in
        if has_returned a then blocks else if f.is_freed then faults else await_from s a)
await_from-Safe value r (awaited x) f h = tt
await_from-Safe value (calls_ready v) calls_await f (e, is) = rw is tt
await_from-Safe value (storing v) calls_await f (e, is) = rw is tt
await_from-Safe value (posting v) calls_await f (e, is) = rw is tt
await_from-Safe value (is_ready v) calls_await f is = rw is refl
await_from-Safe value (is_ready v) loading f is = rw is (refl, refl)
await_from-Safe value (is_ready v) (freeing x) f (e, is) = rw is e
await_from-Safe value (calls_ready v) loading f h = cc
await_from-Safe value (calls_ready v) (freeing x) f h = cc
await_from-Safe value (storing v) loading f h = cc
await_from-Safe value (storing v) (freeing x) f h = cc
await_from-Safe value (posting v) loading f h = cc
await_from-Safe value (posting v) (freeing x) f h = cc

ready_step-Safe : (value : ℕ) (s : System) → IsValid value s → Safe value (ready_step s)
unfolding ready_step
ready_step-Safe value s h = ready_from-Safe value s.readying s.awaiting s.future h

await_step-Safe : (value : ℕ) (s : System) → IsValid value s → Safe value (await_step s)
unfolding await_step
await_step-Safe value s h = await_from-Safe value s.readying s.awaiting s.future h

-- One thread is to call `future_ready` with the value, and another one `future_await`.
abbrev pub begin : ℕ → System
begin value = record { future = new; readying = calls_ready value; awaiting = calls_await }

Reaches-IsValid : (value : ℕ) (s s' : System) → Reaches s s' → IsValid value s → IsValid value s'
Reaches-IsValid value s s' (stays _) h = h
Reaches-IsValid value s s' (readies _ s1 _ reach e) h =
    subst (Safe value) e (ready_step-Safe value s1 (Reaches-IsValid value s s1 reach h))
Reaches-IsValid value s s' (awaits _ s1 _ reach e) h =
    subst (Safe value) e (await_step-Safe value s1 (Reaches-IsValid value s s1 reach h))

-- A call that has returned gave the value.
abbrev pub Gives : ℕ → Awaiting → Type 0
Gives value (awaited x) = x ≡ value
Gives value _ = Unit

FutureOk-Gives :
    (value : ℕ) (r : Readying) (a : Awaiting) (f : Future) → FutureOk value r a f → Gives value a
FutureOk-Gives value r calls_await f h = tt
FutureOk-Gives value r loading f h = tt
FutureOk-Gives value r (freeing x) f h = tt
FutureOk-Gives value (is_ready v) (awaited x) f h = h
FutureOk-Gives value (calls_ready v) (awaited x) f h = cc
FutureOk-Gives value (storing v) (awaited x) f h = cc
FutureOk-Gives value (posting v) (awaited x) f h = cc

-- A step goes on.
abbrev pub goes_on : Outcome → Bool
goes_on (goes _) = true
goes_on _ = false

progress :
    (value : ℕ) (r : Readying) (a : Awaiting) (f : Future)
    → FutureOk value r a f
    → let s : System = record { future = f; readying = r; awaiting = a } in
      (goes_on (if at_end r then blocks else if f.is_freed then faults else ready_from s r) ≡ true)
      ⊎ ((goes_on (if has_returned a then blocks else if f.is_freed then faults else await_from s a)
            ≡ true)
          ⊎ (has_returned a ≡ true))
progress value (calls_ready v) calls_await f (e, is) = inl (rw is refl)
progress value (storing v) calls_await f (e, is) = inl (rw is refl)
progress value (posting v) calls_await f (e, is) = inl (rw is refl)
progress value (is_ready v) calls_await f is = inr (inl (rw is refl))
progress value (is_ready v) loading f is = inr (inl (rw is refl))
progress value (is_ready v) (freeing x) f (e, is) = inr (inl (rw is refl))
progress value r (awaited x) f h = inr (inr refl)
progress value (calls_ready v) loading f h = cc
progress value (calls_ready v) (freeing x) f h = cc
progress value (storing v) loading f h = cc
progress value (storing v) (freeing x) f h = cc
progress value (posting v) loading f h = cc
progress value (posting v) (freeing x) f h = cc

Reaches-progress :
    (value : ℕ) (s : System)
    → Reaches (begin value) s
    → (goes_on (ready_step s) ≡ true)
      ⊎ ((goes_on (await_step s) ≡ true) ⊎ (has_returned s.awaiting ≡ true))
unfolding ready_step await_step
Reaches-progress value s reach =
    progress value s.readying s.awaiting s.future
      (Reaches-IsValid value (begin value) s reach (refl, refl))

-- When one thread calls `future_ready` and another one `future_await` on a new future, then in any order
-- of their steps no assertion fails, no step uses the future after it was freed, and `future_await`
-- returns nothing but the value that `future_ready` was called with. In every state that they reach one
-- of them can go on, or `future_await` has returned.
pub Reaches-Gives :
    (value : ℕ) (s : System)
    → Reaches (begin value) s
    → (ready_step s ≢ faults)
      × (await_step s ≢ faults)
      × Gives value s.awaiting
      × ((goes_on (ready_step s) ≡ true)
          ⊎ ((goes_on (await_step s) ≡ true) ⊎ (has_returned s.awaiting ≡ true)))
Reaches-Gives value s reach =
    let h = Reaches-IsValid value (begin value) s reach (refl, refl) in
    (
      (λ e. let bad : false ≡ true = subst (Safe value) e (ready_step-Safe value s h) in cc),
      (λ e. let bad : false ≡ true = subst (Safe value) e (await_step-Safe value s h) in cc),
      FutureOk-Gives value s.readying s.awaiting s.future h,
      Reaches-progress value s reach,
    )
