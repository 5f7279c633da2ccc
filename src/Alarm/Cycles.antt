-- ===== src/Alarm/Cycles.antt =====
-- What is acquired after any number of initializations and cleanups.
use osi.Prelude.{
  ℕ, suc, ◌+◌, ◌-◌, ◌≡◌, refl, sym, subst, ap, ap₂, ◌∙◌, Bool, true, false, List, [], ◌∷◌,
  if◌then◌else◌, arith,
}
use osi.Alarm.Setup.{
  Globals, Answers, release, with_dispatcher, with_queue, with_callback_thread, with_semaphore,
  with_wakeup_timer, with_timer, lazy_initialize, cleanup, idle, ready,
}

abbrev pub Settled : ℕ → ℕ → Bool × Globals → Type 0
Settled m n r = r.1 ≡ (if r.0 then ready m n else idle m n)

add_sub : (n : ℕ) → n + 1 - 1 ≡ n
add_sub n = omega arith

add_zero : (n : ℕ) → n ≡ n + 0
add_zero n = omega arith

suc_add : (n k : ℕ) → n + 1 + k ≡ n + suc k
suc_add n k = omega arith

-- What is acquired on the way.
abbrev acquired : (timers wakeup_timers : ℕ) → (semaphore thread queue : Bool) → Globals
acquired m n semaphore thread queue = record {
  monitor = true;
  alarms = true;
  timers = m;
  wakeup_timers = n;
  alarm_expired = semaphore;
  default_callback_thread = thread;
  default_callback_queue = queue;
  processing = queue;
  dispatcher_thread = false;
  dispatcher_thread_active = false;
}

module _ (answers : Answers) (m n : ℕ) where
  with_dispatcher-Settled :
      (a : Bool) → Settled m n (with_dispatcher a (acquired (m + 1) (n + 1) true true true))
  unfolding release
  with_dispatcher-Settled true = refl
  with_dispatcher-Settled false = ap₂ idle (add_sub m) (add_sub n)

  with_queue-Settled :
      (a : Bool) → Settled m n (with_queue answers a (acquired (m + 1) (n + 1) true true false))
  unfolding release
  with_queue-Settled true = with_dispatcher-Settled answers.dispatcher_thread_new
  with_queue-Settled false = ap₂ idle (add_sub m) (add_sub n)

  with_callback_thread-Settled :
      (a : Bool)
      → Settled m n (with_callback_thread answers a (acquired (m + 1) (n + 1) true false false))
  unfolding release
  with_callback_thread-Settled true = with_queue-Settled answers.queue_new
  with_callback_thread-Settled false = ap₂ idle (add_sub m) (add_sub n)

  with_semaphore-Settled :
      (a : Bool)
      → Settled m n (with_semaphore answers a (acquired (m + 1) (n + 1) false false false))
  unfolding release
  with_semaphore-Settled true = with_callback_thread-Settled answers.callback_thread_new
  with_semaphore-Settled false = ap₂ idle (add_sub m) (add_sub n)

  with_wakeup_timer-Settled :
      (a : Bool) → Settled m n (with_wakeup_timer answers a (acquired (m + 1) n false false false))
  unfolding release
  with_wakeup_timer-Settled true = with_semaphore-Settled answers.semaphore_new
  with_wakeup_timer-Settled false = ap (λ i. idle i n) (add_sub m)

  with_timer-Settled :
      (a : Bool) → Settled m n (with_timer answers a (acquired m n false false false))
  unfolding release
  with_timer-Settled true = with_wakeup_timer-Settled answers.wakeup_timer_create
  with_timer-Settled false = refl

  list-Settled :
      (a : Bool)
      → let g : Globals = record (idle m n) { monitor = true; alarms = a } in
        Settled m n (if a then with_timer answers answers.timer_create g else release false false g)
  unfolding release
  list-Settled true = with_timer-Settled answers.timer_create
  list-Settled false = refl

  -- From a state in which nothing is acquired, `lazy_initialize` acquires everything and answers true,
  -- or it answers false and has released what it acquired before the call that failed.
  pub lazy_initialize-Settled : Settled m n (lazy_initialize answers (idle m n))
  unfolding lazy_initialize
  lazy_initialize-Settled = list-Settled answers.list_new

-- What a state of rest leaves after `lazy_initialize` and `alarm_cleanup`.
settled-cleanup :
    (m n : ℕ) (b : Bool) (g : Globals)
    → g ≡ (if b then ready m n else idle m n)
    → cleanup g ≡ (if b then idle (m + 1) (n + 1) else idle m n)
unfolding cleanup
settled-cleanup m n true g e = ap cleanup e
settled-cleanup m n false g e = ap cleanup e

-- An initialization and a cleanup for each of some answers, with the number of those that succeeded.
unfoldable pub cycles : List Answers → Globals → ℕ × Globals
unfolding lazy_initialize cleanup
cycles [] g = (0, g)
cycles (a ∷ answers) g =
    let r = lazy_initialize a g in
    let rest = cycles answers (cleanup r.1) in ((if r.0 then suc rest.0 else rest.0), rest.1)

-- What is left has so many timers more.
abbrev Leaves : (m n : ℕ) → ℕ → Globals → Type 0
Leaves m n k g = g ≡ idle (m + k) (n + k)

-- From the state that a cleanup leaves.
cycles-step :
    (answers : List Answers) (m n : ℕ) (b : Bool) (g : Globals)
    → ((i j : ℕ) → Leaves i j (cycles answers (idle i j)).0 (cycles answers (idle i j)).1)
    → g ≡ (if b then idle (m + 1) (n + 1) else idle m n)
    → Leaves m n (if b then suc (cycles answers g).0 else (cycles answers g).0) (cycles answers g).1
cycles-step answers m n true g rest e =
    subst (λ h. Leaves m n (suc (cycles answers h).0) (cycles answers h).1) (sym e)
      (rest (m + 1) (n + 1)
        ∙ ap₂ idle (suc_add m (cycles answers (idle (m + 1) (n + 1))).0)
            (suc_add n (cycles answers (idle (m + 1) (n + 1))).0))
cycles-step answers m n false g rest e =
    subst (λ h. Leaves m n (cycles answers h).0 (cycles answers h).1) (sym e) (rest m n)

-- After any number of initializations and cleanups nothing is acquired but two timers for each
-- initialization that succeeded: `alarm_cleanup` deletes neither of them.
pub cycles-timers :
    (answers : List Answers) (m n : ℕ)
    → let r = cycles answers (idle m n) in r.1 ≡ idle (m + r.0) (n + r.0)
unfolding cycles
cycles-timers [] m n = ap₂ idle (add_zero m) (add_zero n)
cycles-timers (a ∷ answers) m n =
    let r = lazy_initialize a (idle m n) in
    cycles-step answers m n r.0 (cleanup r.1) (cycles-timers answers)
      (settled-cleanup m n r.0 r.1 (lazy_initialize-Settled a m n))
