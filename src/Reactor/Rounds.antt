-- ===== src/Reactor/Rounds.antt =====
-- The statements of `run_reactor` keep the invariant, and use no object that was freed.
use osi.Prelude.{
  update, update₂-all, ℕ, ◌≡◌, ◌≢◌, ◌⊎◌, inl, inr, refl, ap, sym, ◌∙◌, subst, Bool, true, false,
  not, ◌&&◌, ◌||◌, Option, none, some, List, [], ◌∷◌, ◌==◌, is_some, All, Bool-cases, ==→eq, ==→ne,
  arith,
}
use osi.Reactor.{
  Object, Event, Loop, outside, top, waiting, handling, locked, reading, tested, writing, called,
  Iterations, Stage, idle, deleted, listed, removed, Reactor, held, Wait, unlock, run_from,
  run_reactor,
}
use osi.Reactor.Invariant.{
  is_idle, is_removed, fd_of, later, pending, PtrOk, held_ok, locks, Other, Distinct, Valid,
  IsValid, Safe, WaitOk,
}
use osi.Reactor.Waits.{Pendings, moved-IsValid, next_round-Safe, wait-Safe, handle-Safe}

holder :
    (flag : Bool) (q : ℕ) (o : Option Object) (s : Stage)
    → held_ok flag q o s ≡ true
    → q ≢ 0
    → ((o' : Object) × (o ≡ some o')) × (flag ≡ is_removed s)
holder true q (some o) removed h ne = ((o, refl), refl)
holder false q (some o) idle h ne = ((o, refl), refl)
holder false q (some o) deleted h ne = ((o, refl), refl)
holder false q (some o) listed h ne = ((o, refl), refl)
holder true q (some o) idle h ne = absurd (ne (ground arith))
holder true q (some o) deleted h ne = absurd (ne (ground arith))
holder true q (some o) listed h ne = absurd (ne (ground arith))
holder false q (some o) removed h ne = absurd (ne (ground arith))
holder flag q none s h ne = absurd (ne (ground arith))

-- The object whose lock is held is there, and `object_removed` says whether it was unregistered.
pub held-object :
    (r : Reactor) (l : Loop)
    → Valid r l
    → locks l ≡ true
    → ((o : Object) × (r.object (held l) ≡ some o))
      × (r.object_removed ≡ is_removed (r.stage (held l)))
held-object r l v h =
    holder r.object_removed (held l) (r.object (held l)) (r.stage (held l)) v.holding (v.nonzero h)

-- The thread goes to another point under the same lock.
under-IsValid :
    (r : Reactor) (l l' : Loop)
    → Valid r l
    → locks l ≡ true
    → held l ≡ held l'
    → later l ≡ later l'
    → IsValid (record r { loop = l' })
under-IsValid r l l' v h is same_later =
    moved-IsValid r l l' v is r.invalidation_list r.is_running r.event_count
      (λ _. subst (λ q. q ≢ 0) is (v.nonzero h))
      (subst (Pendings r r.invalidation_list) same_later v.pendings)
      (subst (λ q. (q ≡ 0) ⊎ Other q (later l')) is
        (subst (λ es. (held l ≡ 0) ⊎ Other (held l) es) same_later v.fresh))
      (subst Distinct same_later v.distinct)

others-pending :
    (r : Reactor) (p : ℕ) (es : List Event)
    → Other p es
    → Pendings r r.invalidation_list es
    → All
        (λ e.
          pending r.invalidation_list e.ptr
            (update r.object p none e.ptr)
            (update r.stage p idle e.ptr)
          ≡ true)
        es
others-pending r p [] other h = tt
others-pending r p (e ∷ es) (ne, other) (h, hs) = (rw ne h, others-pending r p es other hs)

other-kept :
    (p q : ℕ) (s : Stage)
    → (not (is_removed s) || p == q) ≡ true
    → (q == p) ≡ false
    → is_removed s ≡ false
other-kept p q idle h ne = refl
other-kept p q deleted h ne = refl
other-kept p q listed h ne = refl
other-kept p q removed h ne = absurd (==→ne q p ne (sym (==→eq p q h)))

here-kept :
    (p q : ℕ) (s : ℕ → Stage)
    → (not (is_removed (s q)) || p == q) ≡ true
    → is_removed (s p) ≡ false
    → is_removed (s q) ≡ false
here-kept p q s h k = elim (Bool-cases (q == p)) [
  | inl e ↦ ap (λ i. is_removed (s i)) (==→eq q p e) ∙ k
  | inr e ↦ other-kept p q (s q) h e
]

idle-kept : (s : Stage) → is_idle s ≡ true → is_removed s ≢ true
idle-kept idle h = λ k. cc
idle-kept deleted h = cc
idle-kept listed h = cc
idle-kept removed h = cc

unlock-Safe :
    (i : Iterations) (e : Event) (rest : List Event) (r : Reactor)
    → Valid r (called i e rest)
    → Safe (unlock i e rest r)
unlock-Safe i e rest r v =
    let ((o, there), flag) = held-object r (called i e rest) v refl in
    rw there (elim (Bool-cases r.object_removed) [
      | inl b ↦ rw b (record {
        interested = λ fd.
            update₂-all (λ q o s. r.interest fd ≡ some q → (is_idle s ≡ true) × (fd_of o ≡ some fd))
              r.object r.stage e.ptr none idle
              (λ k. absurd (idle-kept (r.stage e.ptr) (v.interested fd e.ptr k).0 (sym flag ∙ b)))
              (λ q _. v.interested fd q);
        null = elim (Bool-cases (0 == e.ptr)) [ inl z ↦ rw z refl | inr z ↦ rw z v.null ];
        each =
            update₂-all (PtrOk (handling i rest)) r.object r.stage e.ptr none idle (refl, refl)
              (λ q ne. ((v.each q).0, rw (other-kept e.ptr q (r.stage q) (v.each q).1 ne) refl));
        holding = refl;
        nonzero = λ h. cc;
        pendings =
            others-pending r e.ptr rest
              (elim v.fresh [ inl z ↦ absurd (v.nonzero refl z) | inr other ↦ other ]) v.pendings;
        fresh = inl refl;
        distinct = v.distinct;
      })
      | inr b ↦ rw b (record {
        interested = v.interested;
        null = v.null;
        each = λ q. ((v.each q).0, rw (here-kept e.ptr q r.stage (v.each q).1 (sym flag ∙ b)) refl);
        holding = refl;
        nonzero = λ h. cc;
        pendings = v.pendings;
        fresh = inl refl;
        distinct = v.distinct;
      })
    ])

pub run_from-Safe :
    (w : Wait) (r : Reactor) (l : Loop) → Valid r l → WaitOk r w → Safe (run_from w r l)
run_from-Safe w r (outside _) v h = tt
run_from-Safe w r (top i) v h = next_round-Safe i r v
run_from-Safe w r (waiting i) v h = wait-Safe i w r v h
run_from-Safe w r (handling i []) v h =
    moved-IsValid r (handling i []) (top i) v refl r.invalidation_list r.is_running r.event_count
      (λ e. cc) tt (inl refl) tt
run_from-Safe w r (handling i (e ∷ rest)) v h = handle-Safe i e rest r v
run_from-Safe w r (locked i e rest) v h =
    let ((o, there), flag) = held-object r (locked i e rest) v refl in
    rw there (elim (Bool-cases (e.readable && is_some o.read_ready)) [
      | inl b ↦ rw b (under-IsValid r (locked i e rest) (reading i e rest) v refl refl refl)
      | inr b ↦ rw b (under-IsValid r (locked i e rest) (tested i e rest) v refl refl refl)
    ])
run_from-Safe w r (reading i e rest) v h =
    under-IsValid r (reading i e rest) (tested i e rest) v refl refl refl
run_from-Safe w r (tested i e rest) v h =
    let ((o, there), flag) = held-object r (tested i e rest) v refl in
    rw there (elim (Bool-cases (not r.object_removed && (e.writable && is_some o.write_ready))) [
      | inl b ↦ rw b (under-IsValid r (tested i e rest) (writing i e rest) v refl refl refl)
      | inr b ↦ rw b (under-IsValid r (tested i e rest) (called i e rest) v refl refl refl)
    ])
run_from-Safe w r (writing i e rest) v h =
    under-IsValid r (writing i e rest) (called i e rest) v refl refl refl
run_from-Safe w r (called i e rest) v h = unlock-Safe i e rest r v

pub run_reactor-Safe : (w : Wait) (r : Reactor) → IsValid r → WaitOk r w → Safe (run_reactor w r)
unfolding run_reactor
run_reactor-Safe w r v h = run_from-Safe w r r.loop v h
