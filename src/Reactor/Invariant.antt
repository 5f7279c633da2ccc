-- ===== src/Reactor/Invariant.antt =====
-- The invariant of the reactor and the threads that use it, and what the callers must keep to.
use osi.Prelude.{
  ℕ, ◌<◌, ◌≡◌, ◌≢◌, ◌⊎◌, inl, inr, refl, subst, Bool, true, false, not, ◌&&◌, ◌||◌, Option, none,
  some, List, [], ◌∷◌, ◌++◌, ◌==◌, is_some, All, Bool-cases, arith,
}
use osi.Alarm.Schedule.{list_contains}
use osi.Reactor.{
  Object, Event, Loop, handling, locked, reading, tested, writing, called, Stage, idle, deleted,
  removed, Reactor, Outcome, blocks, faults, goes, held, Wait, wait_fails, wait_gives, Action,
  registers, changes, unregisters, moves,
}

abbrev pub is_idle : Stage → Bool
is_idle idle = true
is_idle _ = false

abbrev pub is_removed : Stage → Bool
is_removed removed = true
is_removed _ = false

-- The object may still be handled when it is not in the invalidation list.
abbrev pub is_open : Stage → Bool
is_open idle = true
is_open deleted = true
is_open _ = false

abbrev pub fd_of : Option Object → Option ℕ
fd_of none = none
fd_of (some o) = some o.fd

-- The events that wait to be handled.
abbrev pub later : Loop → List Event
later (handling _ es) = es
later (locked _ _ es) = es
later (reading _ _ es) = es
later (tested _ _ es) = es
later (writing _ _ es) = es
later (called _ _ es) = es
later _ = []

-- An event that waits is of `event_fd`, or it is passed over, or its object is there.
abbrev pub pending : List ℕ → ℕ → Option Object → Stage → Bool
pending invalid q o s = q == 0 || (list_contains invalid q || (is_some o && is_open s))

-- An object whose unregistration goes on is there, and one that was unregistered in a callback is the
-- one whose lock is held.
abbrev pub PtrOk : Loop → ℕ → Option Object → Stage → Type 0
PtrOk l q o s = ((is_idle s || is_some o) ≡ true) × ((not (is_removed s) || held l == q) ≡ true)

abbrev pub same : Bool → Bool → Bool
same true b = b
same false b = not b

-- The object whose lock is held is there, and `object_removed` is about it.
abbrev pub held_ok : Bool → ℕ → Option Object → Stage → Bool
held_ok flag q o s = q == 0 || (is_some o && same flag (is_removed s))

-- Whether the thread of the reactor holds a lock.
abbrev pub locks : Loop → Bool
locks (locked _ _ _) = true
locks (reading _ _ _) = true
locks (tested _ _ _) = true
locks (writing _ _ _) = true
locks (called _ _ _) = true
locks _ = false

abbrev pub Other : ℕ → List Event → Type 0
Other p es = All (λ e. (e.ptr == p) ≡ false) es

abbrev pub Distinct : List Event → Type 0
Distinct [] = Unit
Distinct (e ∷ es) = Other e.ptr es × Distinct es

-- The invariant, where the thread of the reactor stands at `l`.
pub record Valid (r : Reactor) (l : Loop) : Type 0 where
  pub interested :
      (fd q : ℕ)
      → r.interest fd ≡ some q
      → (is_idle (r.stage q) ≡ true) × (fd_of (r.object q) ≡ some fd)
  pub null : is_some (r.object 0) ≡ false
  pub each : (q : ℕ) → PtrOk l q (r.object q) (r.stage q)
  pub holding : held_ok r.object_removed (held l) (r.object (held l)) (r.stage (held l)) ≡ true
  pub nonzero : locks l ≡ true → held l ≢ 0
  pub pendings :
      All (λ e. pending r.invalidation_list e.ptr (r.object e.ptr) (r.stage e.ptr) ≡ true) (later l)
  pub fresh : (held l ≡ 0) ⊎ Other (held l) (later l)
  pub distinct : Distinct (later l)

abbrev pub IsValid : Reactor → Type 0
IsValid r = Valid r r.loop

-- An outcome that is no fault, and keeps the invariant.
abbrev pub Safe : Outcome → Type 0
Safe blocks = Unit
Safe faults = false ≡ true
Safe (goes r) = IsValid r

-- The pointer of an event that `epoll_wait` gives.
abbrev pub Reported : Reactor → ℕ → Type 0
Reported r p = ((p ≡ 0) × (0 < r.event_count)) ⊎ ((fd : ℕ) × (r.interest fd ≡ some p))

-- `epoll_wait` gives at most one event for each descriptor in the set.
abbrev pub WaitOk : Reactor → Wait → Type 0
WaitOk r wait_fails = Unit
WaitOk r (wait_gives es) = All (λ e. Reported r e.ptr) es × Distinct es

abbrev pub in_callback : Loop → ℕ → Bool
in_callback (reading _ e _) p = e.ptr == p
in_callback (writing _ e _) p = e.ptr == p
in_callback _ p = false

-- The object is allocated, and its unregistration is not begun.
abbrev pub in_use : Reactor → ℕ → Bool
in_use r p = is_some (r.object p) && is_idle (r.stage p)

-- What callers keep to: `osi_calloc` gives a block that is not in use, an object is not used after
-- `reactor_unregister` was called on it, and a callback unregisters no object but its own.
abbrev pub Allowed : Reactor → Action → Type 0
Allowed r (registers p o _) = (p ≢ 0) × (r.object p ≡ none)
Allowed r (changes p _ _ _) = in_use r p ≡ true
Allowed r (unregisters is_run_thread p) =
    (in_use r p ≡ true) × ((r.is_running && is_run_thread) ≡ true → in_callback r.loop p ≡ true)
Allowed r (moves w) = WaitOk r w
Allowed r _ = Unit

pub contains-append :
    (xs : List ℕ) (p q : ℕ) → list_contains xs q ≡ true → list_contains (xs ++ (p ∷ [])) q ≡ true
contains-append [] p q h = cc
contains-append (x ∷ xs) p q h = elim (Bool-cases (x == q)) [
  | inl e ↦ rw e refl
  | inr e ↦ rw e (contains-append xs p q (subst (λ b. (b || list_contains xs q) ≡ true) e h))
]

pub contains-append_last : (xs : List ℕ) (p : ℕ) → list_contains (xs ++ (p ∷ [])) p ≡ true
contains-append_last [] p = ground arith
contains-append_last (x ∷ xs) p = elim (Bool-cases (x == p)) [
  | inl e ↦ rw e refl
  | inr e ↦ rw e (contains-append_last xs p)
]
