-- ===== src/Thread/Drain.antt =====
-- The items that are left when the reactor of a thread stops.
use osi.Prelude.{
  ℕ, zero, suc, ◌+◌, ◌≤◌, ◌≡◌, refl, ap, ap₂, sym, ◌∙◌, Option, none, some, List, [], ◌∷◌, ◌++◌,
  length, ==-self, append_assoc, append-nil, arith, length-append,
}
use osi.Alarm.Schedule.{list_remove}
use osi.FixedQueue.{
  FixedQueue, new, step, dequeue_locked, enqueue_call, dequeue_call, try_dequeue_call,
}
use osi.Thread.{post, work_queue_read_cb, drain_from, drain}

-- A queue with these entries, and no thread in an operation on it.
abbrev pub queue : (room capacity : ℕ) → List ℕ → FixedQueue
queue room capacity xs = record {
  list = xs;
  enqueue_sem = room;
  dequeue_sem = length xs;
  capacity = capacity;
}

try_dequeue_first :
    (room capacity x : ℕ) (xs : List ℕ)
    → try_dequeue_call (queue room capacity (x ∷ xs)) ≡ some (some x, queue (suc room) capacity xs)
unfolding try_dequeue_call step dequeue_locked list_remove
try_dequeue_first room capacity x xs = rw (==-self x) refl

try_dequeue_empty :
    (room capacity : ℕ)
    → try_dequeue_call (queue room capacity []) ≡ some (none, queue room capacity [])
unfolding try_dequeue_call step
try_dequeue_empty room capacity = refl

dequeue_first :
    (room capacity x : ℕ) (xs : List ℕ)
    → dequeue_call (queue room capacity (x ∷ xs)) ≡ some (some x, queue (suc room) capacity xs)
unfolding dequeue_call step dequeue_locked list_remove
dequeue_first room capacity x xs = rw (==-self x) refl

length-snoc : (xs : List ℕ) (x : ℕ) → length (xs ++ (x ∷ [])) ≡ suc (length xs)
length-snoc xs x = omega (arith, length-append xs (x ∷ []))

post-room :
    (room capacity x : ℕ) (xs : List ℕ)
    → post (queue (suc room) capacity xs) x ≡ some (queue room capacity (xs ++ (x ∷ [])))
unfolding post enqueue_call step
post-room room capacity x xs = rw (length-snoc xs x) refl

abbrev pub then_post : (FixedQueue → Option FixedQueue) → Option FixedQueue → Option FixedQueue
then_post k none = none
then_post k (some q) = k q

-- Items posted one behind the other.
abbrev pub post_all : List ℕ → FixedQueue → Option FixedQueue
post_all [] q = some q
post_all (x ∷ xs) q = then_post (post_all xs) (post q x)

post_all-queue :
    (room capacity : ℕ) (xs ys : List ℕ)
    → post_all ys (queue (length ys + room) capacity xs) ≡ some (queue room capacity (xs ++ ys))
post_all-queue room capacity xs [] =
    let same : 0 + room ≡ room = omega arith in
    ap₂ (λ m l. some (queue m capacity l)) same (sym (append-nil xs))
post_all-queue room capacity xs (y ∷ ys) =
    let same : length (y ∷ ys) + room ≡ suc (length ys + room) = omega arith in
    ap (λ m. post_all (y ∷ ys) (queue m capacity xs)) same
    ∙ (ap (then_post (post_all ys)) (post-room (length ys + room) capacity y xs)
        ∙ (post_all-queue room capacity (xs ++ (y ∷ [])) ys
            ∙ ap (λ l. some (queue room capacity l)) (append_assoc xs (y ∷ []) ys)))

module _ {ℓ} {S : Type ℓ} (func : ℕ → S → S) where
  -- The items run in their order.
  abbrev pub run_all : List ℕ → S → S
  run_all [] s = s
  run_all (x ∷ xs) s = run_all xs (func x s)

  abbrev pub then_callback :
      (FixedQueue → S → Option (FixedQueue × S)) → Option (FixedQueue × S) → Option (FixedQueue × S)
  then_callback k none = none
  then_callback k (some (q, s)) = k q s

  -- The reactor calls back for a number of items.
  abbrev pub callbacks : ℕ → FixedQueue → S → Option (FixedQueue × S)
  callbacks zero q s = some (q, s)
  callbacks (suc k) q s = then_callback (callbacks k) (work_queue_read_cb func q s)

  drain_from-all :
      (n room capacity : ℕ) (xs : List ℕ) (s : S)
      → length xs ≤ n
      → drain_from func n (try_dequeue_call (queue room capacity xs)) s
        ≡ some (queue (length xs + room) capacity [], run_all xs s)
  unfolding drain_from
  drain_from-all n room capacity [] s h =
      let same : room ≡ 0 + room = omega arith in
      rw (try_dequeue_empty room capacity) (ap (λ m. some (queue m capacity [], s)) same)
  drain_from-all zero room capacity (x ∷ xs) s h = absurd (omega arith)
  drain_from-all (suc n) room capacity (x ∷ xs) s h = rw (try_dequeue_first room capacity x xs) (
      drain_from-all n (suc room) capacity xs (func x s) (omega arith)
      ∙ ap (λ m. some (queue m capacity [], run_all xs (func x s))) (omega arith))

  drain-all :
      (room capacity : ℕ) (xs : List ℕ) (s : S)
      → length xs ≤ capacity
      → drain func (queue room capacity xs) s
        ≡ some (queue (length xs + room) capacity [], run_all xs s)
  unfolding drain
  drain-all room capacity xs s h = drain_from-all (capacity + 1) room capacity xs s (omega arith)

  callbacks-drain :
      (k room capacity : ℕ) (xs : List ℕ) (s : S)
      → k ≤ length xs
      → length xs ≤ capacity
      → then_callback (drain func) (callbacks k (queue room capacity xs) s)
        ≡ some (queue (length xs + room) capacity [], run_all xs s)
  unfolding work_queue_read_cb
  callbacks-drain zero room capacity xs s h fits = drain-all room capacity xs s fits
  callbacks-drain (suc k) room capacity [] s h fits = absurd (omega arith)
  callbacks-drain (suc k) room capacity (x ∷ xs) s h fits = rw (dequeue_first room capacity x xs) (
      callbacks-drain k (suc room) capacity xs (func x s) (omega arith) (omega arith)
      ∙ ap (λ m. some (queue m capacity [], run_all xs (func x s))) (omega arith))

  abbrev pub run_posted : Option FixedQueue → ℕ → S → Option (FixedQueue × S)
  run_posted none k s = none
  run_posted (some q) k s = then_callback (drain func) (callbacks k q s)

  -- Items that are posted to a new thread, no more than its queue holds, are all run, in the order in
  -- which they were posted, however many the reactor calls back for before it stops; the queue is then
  -- as it was. No other thread uses the queue in between, and the items post nothing.
  pub post-drain :
      (room k : ℕ) (xs : List ℕ) (s : S)
      → k ≤ length xs
      → run_posted (post_all xs (new (length xs + room))) k s
        ≡ some (new (length xs + room), run_all xs s)
  post-drain room k xs s h =
      rw (post_all-queue room (length xs + room) [] xs)
        (callbacks-drain k room (length xs + room) xs s h (omega arith))
