-- ===== src/Reactor/Once.antt =====
-- `reactor_run_once` returns.
use osi.Prelude.{
  ℕ, zero, suc, ◌+◌, ◌*◌, ◌<◌, ◌≤◌, ◌≡◌, inl, inr, refl, ap, sym, subst, Bool, true, false, not,
  ◌&&◌, Option, some, List, [], ◌∷◌, ◌==◌, if◌then◌else◌, is_some, length, Bool-cases, arith,
}
use osi.Alarm.Schedule.{list_contains}
use osi.Reactor.{
  Event, Loop, outside, top, waiting, handling, locked, reading, tested, writing, called,
  Iterations, forever, times, Status, status_stop, status_error, status_done, Reactor, Outcome,
  goes, Wait, wait_fails, wait_gives, run_from, then_run, loop_from, run_loop, enough, start,
  start_from, run_once,
}
use osi.Reactor.Invariant.{later, Valid, IsValid, Safe, WaitOk}
use osi.Reactor.Rounds.{held-object, run_from-Safe}
use osi.Reactor.Waits.{lockable}
use osi.Reactor.Register.{start_from-Safe}

-- What the loop returns on the events that are left.
abbrev pub status_of : List Event → Status
status_of [] = status_done
status_of (e ∷ es) = if e.ptr == 0 then status_stop else status_of es

abbrev is_last : Iterations → Bool
is_last (times zero) = true
is_last _ = false

-- The last round, behind `epoll_wait`.
abbrev in_last : Loop → Bool
in_last (top i) = is_last i
in_last (handling i _) = is_last i
in_last (locked i _ _) = is_last i
in_last (reading i _ _) = is_last i
in_last (tested i _ _) = is_last i
in_last (writing i _ _) = is_last i
in_last (called i _ _) = is_last i
in_last _ = false

-- The statements left, at most.
abbrev left : Loop → ℕ
left (handling _ es) = 2 + 6 * length es
left (locked _ _ es) = 7 + 6 * length es
left (reading _ _ es) = 6 + 6 * length es
left (tested _ _ es) = 5 + 6 * length es
left (writing _ _ es) = 4 + 6 * length es
left (called _ _ es) = 3 + 6 * length es
left _ = 1

-- A statement is the last one, or fewer are left.
data Nearer (l : Loop) : Outcome → Type 0 where
  ends : {r : Reactor} → r.loop ≡ outside (some (status_of (later l))) → Nearer l (goes r)
  goes_on :
      {r : Reactor}
      → in_last r.loop ≡ true
      → left r.loop < left l
      → status_of (later r.loop) ≡ status_of (later l)
      → Nearer l (goes r)

run_from-Nearer :
    (w : Wait) (r : Reactor) (l : Loop) → Valid r l → in_last l ≡ true → Nearer l (run_from w r l)
run_from-Nearer w r (outside _) v h = cc
run_from-Nearer w r (waiting _) v h = cc
run_from-Nearer w r (top forever) v h = cc
run_from-Nearer w r (top (times (suc n))) v h = cc
run_from-Nearer w r (top (times zero)) v h = ends refl
run_from-Nearer w r (handling i []) v h = goes_on h (omega arith) refl
run_from-Nearer w r (handling i (e ∷ rest)) v h = elim (Bool-cases (e.ptr == 0)) [
  | inl z ↦ rw z (ends (rw z refl))
  | inr z ↦ elim (Bool-cases (list_contains r.invalidation_list e.ptr)) [
    | inl c ↦ rw (z, c) (goes_on h (omega arith) (rw z refl))
    | inr c ↦
        let (o, there) =
          lockable (e.ptr == 0) (list_contains r.invalidation_list e.ptr) (r.object e.ptr)
            (r.stage e.ptr) v.pendings.0 z c in
        rw (z, c, there) (goes_on h (omega arith) (rw z refl))
  ]
]
run_from-Nearer w r (locked i e rest) v h =
    let ((o, there), _) = held-object r (locked i e rest) v refl in
    rw there (elim (Bool-cases (e.readable && is_some o.read_ready)) [
      | inl b ↦ rw b (goes_on h (omega arith) refl)
      | inr b ↦ rw b (goes_on h (omega arith) refl)
    ])
run_from-Nearer w r (reading i e rest) v h = goes_on h (omega arith) refl
run_from-Nearer w r (tested i e rest) v h =
    let ((o, there), _) = held-object r (tested i e rest) v refl in
    rw there (elim (Bool-cases (not r.object_removed && (e.writable && is_some o.write_ready))) [
      | inl b ↦ rw b (goes_on h (omega arith) refl)
      | inr b ↦ rw b (goes_on h (omega arith) refl)
    ])
run_from-Nearer w r (writing i e rest) v h = goes_on h (omega arith) refl
run_from-Nearer w r (called i e rest) v h =
    let ((o, there), _) = held-object r (called i e rest) v refl in
    rw there (elim (Bool-cases r.object_removed) [
      | inl b ↦ rw b (goes_on h (omega arith) refl)
      | inr b ↦ rw b (goes_on h (omega arith) refl)
    ])

run_from-any :
    (w : Wait) (r : Reactor) (l : Loop)
    → in_last l ≡ true
    → run_from w r l ≡ run_from wait_fails r l
run_from-any w r (outside s) h = refl
run_from-any w r (top i) h = refl
run_from-any w r (waiting i) h = cc
run_from-any w r (handling i []) h = refl
run_from-any w r (handling i (e ∷ es)) h = refl
run_from-any w r (locked i e es) h = refl
run_from-any w r (reading i e es) h = refl
run_from-any w r (tested i e es) h = refl
run_from-any w r (writing i e es) h = refl
run_from-any w r (called i e es) h = refl

loop_from-then :
    (k : Reactor → Outcome) (w : Wait) (r : Reactor) (l : Loop)
    → in_last l ≡ true
    → loop_from k w r l ≡ then_run k (run_from w r l)
loop_from-then k w r (outside s) h = cc
loop_from-then k w r (top i) h = refl
loop_from-then k w r (waiting i) h = refl
loop_from-then k w r (handling i es) h = refl
loop_from-then k w r (locked i e es) h = refl
loop_from-then k w r (reading i e es) h = refl
loop_from-then k w r (tested i e es) h = refl
loop_from-then k w r (writing i e es) h = refl
loop_from-then k w r (called i e es) h = refl

-- The outcome is a return with the status.
abbrev pub ReturnsWith : Outcome → Status → Type 0
ReturnsWith o status = (r : Reactor) × (o ≡ goes r) × (r.loop ≡ outside (some status))

run_loop-outside :
    (fuel : ℕ) (w : Wait) (r : Reactor) (status : Status)
    → r.loop ≡ outside (some status)
    → 0 < fuel
    → ReturnsWith (run_loop fuel w r) status
unfolding run_loop
run_loop-outside zero w r status h pos = absurd (omega arith)
run_loop-outside (suc fuel) w r status h pos = (r, ap (loop_from (run_loop fuel w) w r) h, h)

left-positive : (l : Loop) → 0 < left l
left-positive l = ground arith

nearer-ends :
    (fuel : ℕ) (w : Wait) (l : Loop) (o : Outcome)
    → ((r : Reactor)
        → IsValid r
        → in_last r.loop ≡ true
        → left r.loop < fuel
        → ReturnsWith (run_loop fuel w r) (status_of (later r.loop)))
    → Nearer l o
    → Safe o
    → left l ≤ fuel
    → ReturnsWith (then_run (run_loop fuel w) o) (status_of (later l))
nearer-ends fuel w l o on (ends {r} e) v le =
    run_loop-outside fuel w r _ e (omega (arith, left-positive l))
nearer-ends fuel w l o on (goes_on {r} last less status) v le =
    subst (ReturnsWith (run_loop fuel w r)) status (on r v last (omega arith))

-- In the last round, the loop returns, and with a status that the events left tell.
run_loop-ends :
    (fuel : ℕ) (w : Wait) (r : Reactor)
    → IsValid r
    → in_last r.loop ≡ true
    → left r.loop < fuel
    → ReturnsWith (run_loop fuel w r) (status_of (later r.loop))
unfolding run_loop
run_loop-ends zero w r v last le = absurd (omega arith)
run_loop-ends (suc fuel) w r v last le =
    subst (λ o. ReturnsWith o (status_of (later r.loop)))
      (sym (loop_from-then (run_loop fuel w) w r r.loop last))
      (nearer-ends fuel w r.loop (run_from w r r.loop)
        (λ r' v' last' le'. run_loop-ends fuel w r' v' last' le')
        (run_from-Nearer w r r.loop v last)
        (subst Safe (sym (run_from-any w r r.loop last)) (run_from-Safe wait_fails r r.loop v tt))
        (omega arith))

-- What `reactor_run_once` returns.
abbrev pub once_status : Wait → Status
once_status wait_fails = status_error
once_status (wait_gives es) = status_of es

once_from :
    (w : Wait) (r : Reactor) (s : Option Status)
    → Valid r (outside s)
    → WaitOk r w
    → ReturnsWith
        (then_run (run_loop (enough w) w) (start_from (times 1) r (outside s)))
        (once_status w)
unfolding run_loop
once_from wait_fails r s v h = (_, refl, refl)
once_from (wait_gives es) r s v h =
    let started : Reactor = record r { is_running = true; loop = top (times 1) } in
    let asked : Reactor = record started { invalidation_list = []; loop = waiting (times 0) } in
    let v1 : IsValid started = start_from-Safe (times 1) r (outside s) v in
    let v2 : IsValid asked = run_from-Safe wait_fails started (top (times 1)) v1 tt in
    run_loop-ends (6 * length es + 3) (wait_gives es)
      (record asked { loop = handling (times 0) es })
      (run_from-Safe (wait_gives es) asked (waiting (times 0)) v2 h) refl (omega arith)

-- `reactor_run_once` returns, when nothing else is done in between: with REACTOR_STATUS_ERROR when
-- `epoll_wait` fails, with REACTOR_STATUS_STOP when it reports `event_fd`, and with REACTOR_STATUS_DONE
-- otherwise. It begins outside `run_reactor`, in a state where the invariant holds, and what `epoll_wait`
-- reports is in the set, each once.
pub run_once-returns :
    (w : Wait) (r : Reactor) (s : Option Status)
    → r.loop ≡ outside s
    → IsValid r
    → WaitOk r w
    → ReturnsWith (run_once w r) (once_status w)
unfolding run_once start
run_once-returns w r s at v h =
    subst
      (λ l.
        ReturnsWith (then_run (run_loop (enough w) w) (start_from (times 1) r l)) (once_status w))
      (sym at) (once_from w r s (subst (Valid r) at v) h)
