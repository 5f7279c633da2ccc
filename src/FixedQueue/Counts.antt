-- ===== src/FixedQueue/Counts.antt =====
-- What the threads inside an operation hold of the semaphores' counts, and sums over threads.
use osi.Prelude.{
  ℕ, zero, suc, ◌+◌, ◌≡◌, refl, inl, inr, List, [], ◌∷◌, some, length, set, get_elem?, ap, ◌==◌,
  or_right, ==-self, true, Bool-cases, arith,
}
use osi.FixedQueue.{
  FixedQueue, Thread, enqueue_append, enqueue_post, dequeue_remove, dequeue_post, aborted,
}
use osi.Alarm.Schedule.{list_remove, list_contains}

-- A place in the queue that a thread has taken or not yet given back.
abbrev pub room : Thread → ℕ
room (enqueue_append _ _) = 1
room (dequeue_post _) = 1
room _ = 0

-- An entry of the list that a thread has claimed or not yet announced.
abbrev pub claim : Thread → ℕ
claim (enqueue_post _) = 1
claim dequeue_remove = 1
claim _ = 0

abbrev pub abort : Thread → ℕ
abort aborted = 1
abort _ = 0

abbrev pub sum {ℓ} : {A : Type ℓ} → (A → ℕ) → List A → ℕ
sum f [] = 0
sum f (t ∷ ts) = f t + sum f ts

abbrev pub IsBalanced : FixedQueue → (room claim : ℕ) → Type 0
IsBalanced q room claim =
    (q.enqueue_sem + room + length q.list ≡ q.capacity) × (q.dequeue_sem + claim ≡ length q.list)

-- The sum over the threads but one.
abbrev pub others {ℓ} : {A : Type ℓ} → (A → ℕ) → List A → ℕ → ℕ
others f [] i = 0
others f (t ∷ ts) zero = sum f ts
others f (t ∷ ts) (suc i) = f t + others f ts i

pub sum-others {ℓ} :
    {A : Type ℓ} (f : A → ℕ) (ts : List A) (i : ℕ) (t t' : A)
    → get_elem? ts i ≡ some t
    → (sum f ts ≡ f t + others f ts i) × (sum f (set ts i t') ≡ f t' + others f ts i)
sum-others f [] i t t' h = absurd cc
sum-others f (u ∷ ts) zero t t' h = let e : u ≡ t = cc in (ap (λ v. f v + sum f ts) e, refl)
sum-others f (u ∷ ts) (suc i) t t' h =
    let (was, is) = sum-others f ts i t t' h in (omega (arith, was), omega (arith, is))

-- Removing an entry that the list has shortens it by one.
pub length-list_remove :
    (l : List ℕ) (d : ℕ) → list_contains l d ≡ true → suc (length (list_remove l d)) ≡ length l
unfolding list_remove
length-list_remove [] d h = absurd cc
length-list_remove (x ∷ l) d h = elim (Bool-cases (x == d)) [
  | inl e ↦ rw e refl
  | inr e ↦ rw e (ap suc (length-list_remove l d (or_right (x == d) (list_contains l d) h e)))
]

pub list_remove-head : (x : ℕ) (l : List ℕ) → list_remove (x ∷ l) x ≡ l
unfolding list_remove
list_remove-head x l = rw (==-self x) refl
