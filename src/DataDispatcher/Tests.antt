-- ===== src/DataDispatcher/Tests.antt =====
-- A type with a queue, one whose registration is taken back, and a default queue.
use osi.Prelude.{ℕ, none, some, List, [], ◌∷◌, arith, refl, ◌≡◌}
use osi.FixedQueue.{FixedQueue}
use osi.DataDispatcher.{new, dispatch}
use osi.DataDispatcher.Register.{Registration, of_type, of_default, run, routes}
use osi.DataDispatcher.Deliver.{Delivered, dispatch-Delivered}

abbrev registrations : List Registration
registrations =
    of_type 1 (some 100)
    ∷ of_type 11 (some 200)
    ∷ of_default (some 300)
    ∷ of_type 1 none
    ∷ of_type 11 (some 400)
    ∷ []

abbrev queues : ℕ → FixedQueue
queues i = record { list = i ∷ []; enqueue_sem = 2; dequeue_sem = 1; capacity = 3 }

routed : routes registrations (λ _. none) none 1 ≡ some 300
routed = refl

dispatch-Delivered_example :
    Delivered (some 400) 7 queues (dispatch (run registrations new) queues 11 7)
dispatch-Delivered_example = dispatch-Delivered registrations queues 11 7 (λ i. omega arith)
