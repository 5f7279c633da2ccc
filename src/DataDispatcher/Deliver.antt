-- ===== src/DataDispatcher/Deliver.antt =====
-- What `data_dispatcher_dispatch` does to the queues.
use osi.Prelude.{
  ℕ, ◌+◌, ==→eq, ◌-◌, ◌<◌, ◌≡◌, refl, ap, sym, Bool, false, Option, none, some, List, [], ◌∷◌, ◌++◌,
  ◌==◌, if◌then◌else◌, is_some, Bool-cases, inl, inr, arith,
}
use osi.FixedQueue.{FixedQueue, enqueue_call, step}
use osi.DataDispatcher.{new, dispatch, deliver}
use osi.DataDispatcher.Register.{Registration, run, routes, choose-routes}

-- Whether a queue is the chosen one.
abbrev pub is_queue : Option ℕ → ℕ → Bool
is_queue none i = false
is_queue (some queue) i = i == queue

-- `fixed_queue_enqueue` of a queue with room does not wait, and puts the value at the end.
enqueue-room :
    (q : FixedQueue) (v : ℕ)
    → 0 < q.enqueue_sem
    → enqueue_call q v
      ≡ some (record q {
        list = q.list ++ (v ∷ []);
        enqueue_sem = q.enqueue_sem - 1;
        dequeue_sem = q.dequeue_sem + 1;
      })
unfolding enqueue_call step
enqueue-room q v h = ground arith

pub data Delivered (chosen : Option ℕ) (value : ℕ) (queues : ℕ → FixedQueue)
    : Option (Bool × (ℕ → FixedQueue)) → Type 0 where
  delivered :
      {done : Bool} {queues' : ℕ → FixedQueue}
      → done ≡ is_some chosen
      → ((i : ℕ)
          → (queues' i).list
            ≡ (if is_queue chosen i then (queues i).list ++ (value ∷ []) else (queues i).list))
      → Delivered chosen value queues (some (done, queues'))

deliver-Delivered :
    (chosen : Option ℕ) (value : ℕ) (queues : ℕ → FixedQueue)
    → ((i : ℕ) → 0 < (queues i).enqueue_sem)
    → Delivered chosen value queues (deliver queues value chosen)
deliver-Delivered none value queues room = delivered refl (λ i. refl)
deliver-Delivered (some queue) value queues room =
    rw (enqueue-room (queues queue) value (room queue)) (
      delivered refl λ i. elim (Bool-cases (i == queue)) [
        | inl e ↦ rw e (ap (λ k. (queues k).list ++ (value ∷ [])) (sym (==→eq i queue e)))
        | inr e ↦ rw e refl
      ])

-- After any registrations on a new dispatcher, where every queue has room, `data_dispatcher_dispatch`
-- does not wait. It puts the data at the end of the queue that was registered last for the type, or of
-- the default queue if there is none, and of no other, and says whether there is such a queue.
pub dispatch-Delivered :
    (rs : List Registration) (queues : ℕ → FixedQueue) (type value : ℕ)
    → ((i : ℕ) → 0 < (queues i).enqueue_sem)
    → Delivered
        (routes rs (λ _. none) none type)
        value
        queues
        (dispatch (run rs new) queues type value)
unfolding dispatch
dispatch-Delivered rs queues type value room =
    rw (choose-routes rs type)
      (deliver-Delivered (routes rs (λ _. none) none type) value queues room)
