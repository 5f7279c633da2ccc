-- ===== src/Alarm/Reach.antt =====
-- The calls of src/alarm.c and the rounds of its threads, in any order.
use osi.Prelude.{ℕ, ◌<◌, ◌≡◌, ◌⊎◌, refl, Bool, false, List, []}
use osi.Alarm.Types.{State, System, new_internal}
use osi.Alarm.Schedule.{next_deadline}
use osi.Alarm.Calls.{prepared, set_internal, cancel, queue_ready, dispatch}
use osi.Alarm.Valid.{IsValid}
use osi.Alarm.Preserve.{
  FrontTimed, FrontApart, set-IsValid, cancel-IsValid, dispatch-IsValid, queue_ready-IsValid,
}

-- What is there behind `lazy_initialize`, and the alarms as `alarm_new` leaves them.
abbrev pub begin : (names : ℕ → List ℕ) (periodic : ℕ → Bool) → State
begin names periodic = record {
  alarm = λ id. new_internal (names id) (periodic id);
  alarms = [];
  timer_set = false;
  timer = record { tv_sec = 0; tv_nsec = 0 };
  wakeup_timer = record { tv_sec = 0; tv_nsec = 0 };
  alarm_expired = 0;
  queue = λ q. [];
  wake_locks = 0;
}

-- The calls of any thread, and the rounds of the dispatching thread and of the threads that serve a
-- queue. A callback does what the same calls do, from the state in which it is called.
pub data Reaches : State → State → Type 0 where
  stays : {s : State} → Reaches s s
  sets :
      {s t : State} (sys : System) (creation_now id period cb user_data queue : ℕ)
      → Reaches s t
      → ((t.alarm id).is_periodic ≡ false) ⊎ (0 < period)
      → 0 < next_deadline sys.now (prepared creation_now (t.alarm id) period cb user_data queue)
      → Reaches s (set_internal sys creation_now t id period cb user_data queue)
  cancels : {s t : State} (sys : System) (id : ℕ) → Reaches s t → Reaches s (cancel sys t id)
  dispatches :
      {s t : State} (expired_now : ℕ) (sys sys' : System)
      → Reaches s t
      → FrontTimed sys t t.alarms
      → Reaches s (dispatch expired_now sys sys' t)
  serves :
      {s t : State} (effect : State → State) (t0 t1 q : ℕ)
      → Reaches s t
      → ((u : State) → Reaches u (effect u))
      → FrontApart t (t.queue q)
      → Reaches s (queue_ready effect t0 t1 t q).1

begin-IsValid : (names : ℕ → List ℕ) (periodic : ℕ → Bool) → IsValid (begin names periodic)
begin-IsValid names periodic = record {
  ordered = record { sorted = tt; distinct = tt; active = tt };
  locked = refl;
}

kept : {s t : State} → IsValid s → Reaches s t → IsValid t
kept v stays = v
kept v (sets {s} {t} sys creation_now id period cb user_data queue r timed pos) =
    set-IsValid sys creation_now t id period cb user_data queue (kept v r) pos
kept v (cancels {s} {t} sys id r) = (cancel-IsValid sys t id (kept v r)).0
kept v (dispatches {s} {t} expired_now sys sys' r pos) =
    dispatch-IsValid expired_now sys sys' t (kept v r) pos
kept v (serves {s} {t} effect t0 t1 q r h apart) =
    queue_ready-IsValid effect t0 t1 t q (kept v r) (λ u w. kept w (h u)) apart

-- In every state that calls and rounds reach, in any order and from callbacks too: the pending alarms
-- stand by deadline, each once, with a callback and a deadline, and the wake lock is held once while a
-- timer is set, and not at all otherwise. The conditions: no periodic alarm is set with the interval 0,
-- the deadline of an alarm that is set does not wrap to 0, nor does that of a periodic alarm that a
-- round finds first in the list, and an alarm that a round serves is periodic or is not pending.
pub Reaches-IsValid :
    (names : ℕ → List ℕ) (periodic : ℕ → Bool) (s : State)
    → Reaches (begin names periodic) s
    → IsValid s
Reaches-IsValid names periodic s r = kept (begin-IsValid names periodic) r
