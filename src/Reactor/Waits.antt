-- ===== src/Reactor/Waits.antt =====
-- The statements of `run_reactor` that hold no object's lock keep the invariant.
use osi.Prelude.{
  ℕ, ◌≡◌, ◌≢◌, ◌⊎◌, inl, inr, refl, sym, ◌∙◌, subst, Bool, true, false, not, ◌&&◌, ◌||◌, Option,
  none, some, List, [], ◌∷◌, ◌==◌, is_some, All, Bool-cases, ==→eq, ==→ne, zero, suc,
}
use osi.Alarm.Schedule.{list_contains}
use osi.Reactor.{
  Object, Event, Loop, outside, top, waiting, handling, Iterations, forever, times, Stage, idle,
  deleted, listed, removed, Reactor, held, Status, Wait, wait_fails, wait_gives, finish, next_round,
  wait, handle,
}
use osi.Reactor.Invariant.{
  is_idle, is_removed, is_open, fd_of, later, pending, held_ok, locks, Other, Distinct, Valid,
  IsValid, Safe, Reported, WaitOk,
}

abbrev pub Pendings : Reactor → List ℕ → List Event → Type 0
Pendings r invalid es = All (λ e. pending invalid e.ptr (r.object e.ptr) (r.stage e.ptr) ≡ true) es

-- The thread goes to a point where it holds what it held.
module _ (r : Reactor) (l l' : Loop) (v : Valid r l) (is : held l ≡ held l') (invalid : List ℕ)
    (is_running : Bool) (event_count : ℕ) where
  pub moved-IsValid :
      (locks l' ≡ true → held l' ≢ 0)
      → Pendings r invalid (later l')
      → ((held l' ≡ 0) ⊎ Other (held l') (later l'))
      → Distinct (later l')
      → IsValid (record r {
        invalidation_list = invalid;
        is_running = is_running;
        event_count = event_count;
        loop = l';
      })
  moved-IsValid nonzero pendings fresh distinct = record {
    interested = v.interested;
    null = v.null;
    each = λ q. (
      (v.each q).0,
      subst (λ h. (not (is_removed (r.stage q)) || h == q) ≡ true) is (v.each q).1,
    );
    holding = subst (λ h. held_ok r.object_removed h (r.object h) (r.stage h) ≡ true) is v.holding;
    nonzero = nonzero;
    pendings = pendings;
    fresh = fresh;
    distinct = distinct;
  }

pub finish-Safe :
    (status : Status) (r : Reactor) (n : ℕ) (l : Loop)
    → Valid r l
    → held l ≡ 0
    → Safe (finish status (record r { event_count = n }))
finish-Safe status r n l v is =
    moved-IsValid r l (outside (some status)) v is r.invalidation_list false n (λ e. cc) tt
      (inl refl) tt

pub next_round-Safe : (i : Iterations) (r : Reactor) → Valid r (top i) → Safe (next_round i r)
next_round-Safe (times zero) r v = finish-Safe _ r r.event_count (top (times 0)) v refl
next_round-Safe (times (suc n)) r v =
    moved-IsValid r (top (times (suc n))) (waiting (times n)) v refl [] r.is_running r.event_count
      (λ e. cc) tt (inl refl) tt
next_round-Safe forever r v =
    moved-IsValid r (top forever) (waiting forever) v refl [] r.is_running r.event_count (λ e. cc)
      tt (inl refl) tt

open-pending :
    (a b : Bool) (o : Option Object) (s : Stage) (fd : ℕ)
    → is_idle s ≡ true
    → fd_of o ≡ some fd
    → (a || (b || (is_some o && is_open s))) ≡ true
open-pending true b o s fd h k = refl
open-pending false true o s fd h k = refl
open-pending false false none s fd h k = cc
open-pending false false (some o) idle fd h k = refl
open-pending false false (some o) deleted fd h k = cc
open-pending false false (some o) listed fd h k = cc
open-pending false false (some o) removed fd h k = cc

Reported-Pendings :
    (r : Reactor) (l : Loop) (es : List Event)
    → Valid r l
    → All (λ e. Reported r e.ptr) es
    → Pendings r r.invalidation_list es
Reported-Pendings r l [] v h = tt
Reported-Pendings r l (e ∷ es) v (inl (z, _), h) = (
  subst (λ p. pending r.invalidation_list p (r.object p) (r.stage p) ≡ true) (sym z) refl,
  Reported-Pendings r l es v h,
)
Reported-Pendings r l (e ∷ es) v (inr (fd, k), h) =
    let (is, at) = v.interested fd e.ptr k in
    (
      open-pending (e.ptr == 0) (list_contains r.invalidation_list e.ptr) (r.object e.ptr)
          (r.stage e.ptr) fd is at,
      Reported-Pendings r l es v h,
    )

pub wait-Safe :
    (i : Iterations) (w : Wait) (r : Reactor) → Valid r (waiting i) → WaitOk r w → Safe (wait i w r)
wait-Safe i wait_fails r v h = finish-Safe _ r r.event_count (waiting i) v refl
wait-Safe i (wait_gives es) r v (h, distinct) =
    moved-IsValid r (waiting i) (handling i es) v refl r.invalidation_list r.is_running
      r.event_count (λ e. cc) (Reported-Pendings r (waiting i) es v h) (inl refl) distinct

removed-none :
    (q : ℕ) (o : Option Object) (s : Stage)
    → (is_idle s || is_some o) ≡ true
    → (not (is_removed s) || 0 == q) ≡ true
    → (q ≡ 0 → is_some o ≡ false)
    → is_removed s ≡ false
removed-none q o idle h k null = refl
removed-none q o deleted h k null = refl
removed-none q o listed h k null = refl
removed-none q o removed h k null = sym h ∙ null (sym (==→eq 0 q k))

-- When no lock is held, every object that a callback unregistered is freed.
pub Valid-none_removed :
    (r : Reactor) (l : Loop) (q : ℕ) → Valid r l → held l ≡ 0 → is_removed (r.stage q) ≡ false
Valid-none_removed r l q v is =
    removed-none q (r.object q) (r.stage q) (v.each q).0
      (subst (λ h. (not (is_removed (r.stage q)) || h == q) ≡ true) is (v.each q).1)
      (λ z. subst (λ i. is_some (r.object i) ≡ false) (sym z) v.null)

pub lockable :
    (a b : Bool) (o : Option Object) (s : Stage)
    → (a || (b || (is_some o && is_open s))) ≡ true
    → a ≡ false
    → b ≡ false
    → (o' : Object) × (o ≡ some o')
lockable false false (some o) s h e c = (o, refl)
lockable false false none s h e c = cc
lockable true b o s h e c = cc
lockable false true o s h e c = cc

pub handle-Safe :
    (i : Iterations) (e : Event) (rest : List Event) (r : Reactor)
    → Valid r (handling i (e ∷ rest))
    → Safe (handle i e rest r)
handle-Safe i e rest r v = elim (Bool-cases (e.ptr == 0)) [
  | inl z ↦ rw z (finish-Safe _ r 0 (handling i (e ∷ rest)) v refl)
  | inr z ↦ elim (Bool-cases (list_contains r.invalidation_list e.ptr)) [
    | inl c ↦
        rw (z, c)
          (moved-IsValid r (handling i (e ∷ rest)) (handling i rest) v refl r.invalidation_list
            r.is_running r.event_count (λ e. cc) v.pendings.1 (inl refl) v.distinct.1)
    | inr c ↦
        let (o, there) =
          lockable (e.ptr == 0) (list_contains r.invalidation_list e.ptr) (r.object e.ptr)
            (r.stage e.ptr) v.pendings.0 z c in
        let free : (q : ℕ) → is_removed (r.stage q) ≡ false =
          λ q. Valid-none_removed r (handling i (e ∷ rest)) q v refl in
        rw (z, c, there)
          (record {
            interested = v.interested;
            null = v.null;
            each = λ q. ((v.each q).0, rw (free q) refl);
            holding = rw (z, there, free e.ptr) refl;
            nonzero = λ _. ==→ne e.ptr 0 z;
            pendings = v.pendings.1;
            fresh = inr v.distinct.0;
            distinct = v.distinct.1;
          })
  ]
]
