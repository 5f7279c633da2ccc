-- ===== src/Reactor/Kept.antt =====
-- The objects of src/reactor.c that are allocated, and the set of `epoll_ctl`.
use osi.Prelude.{
  update, ℕ, ◌≡◌, inl, inr, refl, Bool, true, false, not, ◌&&◌, ◌||◌, Option, none, some, List, [],
  ◌∷◌, ◌==◌, is_some, Bool-cases, arith, if◌then◌else◌, zero, suc,
}
use osi.Alarm.Schedule.{list_contains}
use osi.Reactor.{
  Object, Event, Loop, outside, top, waiting, handling, locked, reading, tested, writing, called,
  Stage, idle, deleted, listed, removed, Reactor, Outcome, blocks, faults, goes, held, Wait,
  wait_fails, wait_gives, Action, registers, changes, unregisters, appends, frees, stops, starts,
  moves, act, register, change_registration, unregister, unregister_append, unregister_free,
  append_from, free_from, stop, start, start_from, run_reactor, run_from, wait, handle, unlock,
  next_round, forever, times, with_object, Iterations,
}
use osi.Reactor.Invariant.{is_idle, in_use, Allowed}

-- An object that is allocated, and whose unregistration is not begun, is in the set.
abbrev pub Kept : Reactor → Type 0
Kept r =
    (q : ℕ) (o : Object)
    → r.object q ≡ some o
    → is_idle (r.stage q) ≡ true
    → r.interest o.fd ≡ some q

abbrev pub Keeps : Outcome → Type 0
Keeps blocks = Unit
Keeps faults = Unit
Keeps (goes r) = Kept r

Keeps-with_object :
    (x : Option Object) (k : Object → Outcome)
    → ((o : Object) → x ≡ some o → Keeps (k o))
    → Keeps (with_object x k)
Keeps-with_object none k h = tt
Keeps-with_object (some o) k h = h o refl

register-Keeps :
    (p : ℕ) (o : Object) (is_added : Bool) (r : Reactor) → Kept r → Keeps (register p o is_added r)
unfolding register
register-Keeps p o is_added r k = elim (Bool-cases (not is_added || is_some (r.interest o.fd))) [
  | inl e ↦ rw e k
  | inr e ↦ rw e (λ q o' at i. ground (arith, k q o'))
]

unregister-Keeps :
    (is_run_thread : Bool) (p : ℕ) (r : Reactor)
    → Kept r
    → is_idle (r.stage p) ≡ true
    → Keeps (unregister is_run_thread p r)
unfolding unregister
unregister-Keeps is_run_thread p r k own = Keeps-with_object (r.object p) _ (λ o here.
    elim (Bool-cases (r.is_running && is_run_thread)) [
      | inl e ↦ rw e (λ q o' at i. ground (arith, k q o' at, k p o here own))
      | inr e ↦ rw e (λ q o' at i. ground (arith, k q o' at, k p o here own))
    ])

change_registration-Keeps :
    (p : ℕ) (f g : Option ℕ) (is_modified : Bool) (r : Reactor)
    → Kept r
    → Keeps (change_registration p f g is_modified r)
unfolding change_registration
change_registration-Keeps p f g is_modified r k = Keeps-with_object (r.object p) _ (λ o here.
    elim (Bool-cases (not is_modified)) [
      | inl e ↦ rw e k
      | inr e ↦ rw e (elim (Bool-cases (held r.loop == p)) [
        | inl e' ↦ rw e' tt
        | inr e' ↦ rw e' (λ q o' at i. ground (arith, k q o', k p o here))
      ])
    ])

-- The object at `p` is freed, and its unregistration is over.
freed-Kept :
    (r : Reactor) (p : ℕ) (l : Loop)
    → Kept r
    → Kept (record r { object = update r.object p none; stage = update r.stage p idle; loop = l })
freed-Kept r p l k = λ q o at i. ground (arith, k q o)

append-Keeps : (p : ℕ) (r : Reactor) (s : Stage) → Kept r → Keeps (append_from p r s)
append-Keeps p r idle k = tt
append-Keeps p r deleted k = λ q o at i. ground (arith, k q o at)
append-Keeps p r listed k = tt
append-Keeps p r removed k = tt

free-Keeps : (p : ℕ) (r : Reactor) (s : Stage) → Kept r → Keeps (free_from p r s)
free-Keeps p r idle k = tt
free-Keeps p r deleted k = tt
free-Keeps p r listed k = Keeps-with_object (r.object p) _ (λ o here.
    elim (Bool-cases (held r.loop == p)) [
      | inl e ↦ rw e tt
      | inr e ↦ rw e (freed-Kept r p r.loop k)
    ])
free-Keeps p r removed k = tt

start-Keeps : (i : Iterations) (r : Reactor) (l : Loop) → Kept r → Keeps (start_from i r l)
start-Keeps i r (outside s) k = k
start-Keeps i r (top j) k = tt
start-Keeps i r (waiting j) k = tt
start-Keeps i r (handling j es) k = tt
start-Keeps i r (locked j e es) k = tt
start-Keeps i r (reading j e es) k = tt
start-Keeps i r (tested j e es) k = tt
start-Keeps i r (writing j e es) k = tt
start-Keeps i r (called j e es) k = tt

Keeps-if : (b : Bool) (x y : Outcome) → Keeps x → Keeps y → Keeps (if b then x else y)
Keeps-if true x y h h' = h
Keeps-if false x y h h' = h'

round-Keeps : (i : Iterations) (r : Reactor) → Kept r → Keeps (next_round i r)
round-Keeps forever r k = k
round-Keeps (times zero) r k = k
round-Keeps (times (suc n)) r k = k

wait-Keeps : (i : Iterations) (w : Wait) (r : Reactor) → Kept r → Keeps (wait i w r)
wait-Keeps i wait_fails r k = k
wait-Keeps i (wait_gives es) r k = k

handle-Keeps :
    (i : Iterations) (e : Event) (rest : List Event) (r : Reactor)
    → Kept r
    → Keeps (handle i e rest r)
handle-Keeps i e rest r k = Keeps-if (e.ptr == 0) _ _ k (
    Keeps-if (list_contains r.invalidation_list e.ptr) _ _ k
      (Keeps-with_object (r.object e.ptr) _ (λ o here. k)))

unlock-Keeps :
    (i : Iterations) (e : Event) (rest : List Event) (r : Reactor)
    → Kept r
    → Keeps (unlock i e rest r)
unlock-Keeps i e rest r k =
    Keeps-with_object (r.object e.ptr) _
      (λ o here. Keeps-if r.object_removed _ _ (freed-Kept r e.ptr (handling i rest) k) k)

run_from-Keeps : (w : Wait) (r : Reactor) (l : Loop) → Kept r → Keeps (run_from w r l)
run_from-Keeps w r (outside s) k = tt
run_from-Keeps w r (top i) k = round-Keeps i r k
run_from-Keeps w r (waiting i) k = wait-Keeps i w r k
run_from-Keeps w r (handling i []) k = k
run_from-Keeps w r (handling i (e ∷ rest)) k = handle-Keeps i e rest r k
run_from-Keeps w r (locked i e rest) k =
    Keeps-with_object (r.object e.ptr) _
      (λ o here. Keeps-if (e.readable && is_some o.read_ready) _ _ k k)
run_from-Keeps w r (reading i e rest) k = k
run_from-Keeps w r (tested i e rest) k =
    Keeps-with_object (r.object e.ptr) _
      (λ o here. Keeps-if (not r.object_removed && (e.writable && is_some o.write_ready)) _ _ k k)
run_from-Keeps w r (writing i e rest) k = k
run_from-Keeps w r (called i e rest) k = unlock-Keeps i e rest r k

own_idle : (r : Reactor) (p : ℕ) → in_use r p ≡ true → is_idle (r.stage p) ≡ true
own_idle r p h = elim (Bool-cases (is_idle (r.stage p))) [ inl e ↦ e | inr e ↦ ground arith ]

-- Every step of a thread keeps an object that is allocated and in use in the set.
pub act-Keeps : (a : Action) (r : Reactor) → Kept r → Allowed r a → Keeps (act a r)
unfolding act unregister_append unregister_free stop start run_reactor
act-Keeps (registers p o is_added) r k h = register-Keeps p o is_added r k
act-Keeps (changes p f g is_modified) r k h = change_registration-Keeps p f g is_modified r k
act-Keeps (unregisters is_run_thread p) r k (own, h) =
    unregister-Keeps is_run_thread p r k (own_idle r p own)
act-Keeps (appends p) r k h = append-Keeps p r (r.stage p) k
act-Keeps (frees p) r k h = free-Keeps p r (r.stage p) k
act-Keeps stops r k h = k
act-Keeps (starts i) r k h = start-Keeps i r r.loop k
act-Keeps (moves w) r k h = run_from-Keeps w r r.loop k
