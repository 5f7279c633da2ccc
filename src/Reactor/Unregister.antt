-- ===== src/Reactor/Unregister.antt =====
-- Unregistration, by another thread or in a callback, keeps the invariant.
use osi.Prelude.{
  updated, update, update₂-all, update-same, ℕ, ◌≡◌, ◌≢◌, ◌⊎◌, inl, inr, refl, ap, sym, ◌∙◌, subst,
  Bool, true, not, ◌&&◌, ◌||◌, none, some, [], ◌∷◌, ◌++◌, ◌==◌, is_some, Bool-cases, ==→eq, ==→ne,
  ==-self, Option-cases,
}
use osi.Alarm.Schedule.{list_contains}
use osi.Reactor.{
  Object, Loop, outside, top, waiting, handling, locked, reading, tested, writing, called, Stage,
  idle, deleted, listed, removed, Reactor, held, unregister, append_from, free_from,
  unregister_append, unregister_free,
}
use osi.Reactor.Invariant.{
  is_idle, is_removed, fd_of, later, pending, held_ok, Other, IsValid, Safe, in_callback, in_use,
  contains-append, contains-append_last,
}
use osi.Reactor.Changed.{
  Interested, changed-IsValid, or-or_true, holding_at, used-cases, not_null, or_true, some-none,
}

callback-held : (l : Loop) (p : ℕ) → in_callback l p ≡ true → held l ≡ p
callback-held (reading i e es) p h = ==→eq e.ptr p h
callback-held (writing i e es) p h = ==→eq e.ptr p h
callback-held (outside s) p h = cc
callback-held (top i) p h = cc
callback-held (waiting i) p h = cc
callback-held (handling i es) p h = cc
callback-held (locked i e es) p h = cc
callback-held (tested i e es) p h = cc
callback-held (called i e es) p h = cc

-- An object whose descriptor is taken out of the set.
module _ (r : Reactor) (v : IsValid r) (p : ℕ) (o : Object) (there : r.object p ≡ some o)
    (s : Stage) (flag : Bool) (ok : (not (is_removed s) || held r.loop == p) ≡ true)
    (holding : (held r.loop ≡ p → held_ok flag p (some o) s ≡ true)
      × (held r.loop ≢ p → flag ≡ r.object_removed))
    (at : Other p (later r.loop)
      ⊎ (pending r.invalidation_list p (r.object p) (r.stage p) ≡ true
          → pending r.invalidation_list p (some o) s ≡ true)) where
  unregistered-IsValid : IsValid (record r {
    interest = update r.interest o.fd none;
    object_removed = flag;
    stage = update r.stage p s;
  })
  unregistered-IsValid =
      subst
        (λ f. IsValid (record r {
          object = f;
          interest = update r.interest o.fd none;
          object_removed = flag;
          stage = update r.stage p s;
        }))
        (update-same r.object p (some o) there)
        (changed-IsValid r v p (some o) s (update r.interest o.fd none) r.invalidation_list flag
          (λ fd.
            update₂-all (λ q o' s'. Interested fd q o' s' (update r.interest o.fd none fd)) r.object
              r.stage p (some o) s
              (λ h. elim (updated r.interest o.fd none fd (some p) h) [
                | inl (_, k) ↦ absurd cc
                | inr (other, k) ↦
                    let same_fd : some o.fd ≡ some fd =
                      sym (ap fd_of there) ∙ (v.interested fd p k).1 in
                    let is : fd ≡ o.fd = cc in absurd (==→ne fd o.fd other is)
              ])
              (λ q _ h. elim (updated r.interest o.fd none fd (some q) h) [
                | inl (_, k) ↦ absurd cc
                | inr (_, k) ↦ v.interested fd q k
              ]))
          (λ z. absurd (not_null r p o v there z)) (or_true (is_idle s), ok) holding (λ q h. h) at)

pub unregister-Safe :
    (is_run_thread : Bool) (p : ℕ) (r : Reactor)
    → IsValid r
    → in_use r p ≡ true
    → ((r.is_running && is_run_thread) ≡ true → in_callback r.loop p ≡ true)
    → Safe (unregister is_run_thread p r)
unfolding unregister
unregister-Safe is_run_thread p r v u own =
    let (o, there, idle_p) = used-cases (r.object p) (r.stage p) u in
    rw there (elim (Bool-cases (r.is_running && is_run_thread)) [
      | inl e ↦
          let is = callback-held r.loop p (own e) in
          rw e (
            unregistered-IsValid r v p o there removed true
              (subst (λ q. (q == p) ≡ true) (sym is) (==-self p))
              ((λ _. or_true (p == 0)), (λ ne. absurd (ne is)))
              (elim v.fresh [
                | inl z ↦ absurd (not_null r p o v there (sym is ∙ z))
                | inr other ↦ inl (subst (λ q. Other q (later r.loop)) is other)
              ]))
      | inr e ↦ rw e (
          unregistered-IsValid r v p o there deleted r.object_removed refl
            (
              (λ is.
                  subst (λ o'. held_ok r.object_removed p o' idle ≡ true) there
                    (subst (λ s. held_ok r.object_removed p (r.object p) s ≡ true) idle_p
                      (holding_at r p v is))),
              (λ _. refl),
            )
            (inr (λ _. or-or_true (p == 0) (list_contains r.invalidation_list p))))
    ])

append_from-Safe :
    (p : ℕ) (r : Reactor) (s : Stage) → IsValid r → r.stage p ≡ s → Safe (append_from p r s)
append_from-Safe p r idle v at = tt
append_from-Safe p r listed v at = tt
append_from-Safe p r removed v at = tt
append_from-Safe p r deleted v at =
    let there = subst (λ s. (is_idle s || is_some (r.object p)) ≡ true) at (v.each p).0 in
    subst
      (λ f. IsValid (record r {
        object = f;
        invalidation_list = r.invalidation_list ++ (p ∷ []);
        stage = update r.stage p listed;
      }))
      (update-same r.object p (r.object p) refl)
      (changed-IsValid r v p (r.object p) listed r.interest (r.invalidation_list ++ (p ∷ []))
        r.object_removed
        (λ fd.
          update₂-all (λ q o s. Interested fd q o s (r.interest fd)) r.object r.stage p (r.object p)
            listed
            (λ k.
              let bad : is_idle deleted ≡ true =
                subst (λ s. is_idle s ≡ true) at (v.interested fd p k).0 in
              absurd cc)
            (λ q _. v.interested fd q))
        (λ z. ap (λ q. is_some (r.object q)) z ∙ v.null) (there, refl)
        (
          (λ is.
              subst (λ s. held_ok r.object_removed p (r.object p) s ≡ true) at
                (holding_at r p v is)),
          (λ _. refl),
        )
        (λ q h. contains-append r.invalidation_list p q h)
        (inr (λ _. rw (contains-append_last r.invalidation_list p) (or_true (p == 0)))))

free_from-Safe :
    (p : ℕ) (r : Reactor) (s : Stage) → IsValid r → r.stage p ≡ s → Safe (free_from p r s)
free_from-Safe p r idle v at = tt
free_from-Safe p r deleted v at = tt
free_from-Safe p r removed v at = tt
free_from-Safe p r listed v at =
    let there = subst (λ s. (is_idle s || is_some (r.object p)) ≡ true) at (v.each p).0 in
    elim (Option-cases (r.object p)) [
      | inl e ↦ absurd (some-none (r.object p) there e)
      | inr (o, e) ↦ rw e (elim (Bool-cases (held r.loop == p)) [
        | inl h ↦ rw h tt
        | inr h ↦ rw h (
            changed-IsValid r v p none idle r.interest r.invalidation_list r.object_removed
              (λ fd.
                update₂-all (λ q o s. Interested fd q o s (r.interest fd)) r.object r.stage p none
                  idle
                  (λ k.
                    let bad : is_idle listed ≡ true =
                      subst (λ s. is_idle s ≡ true) at (v.interested fd p k).0 in
                    absurd cc)
                  (λ q _. v.interested fd q))
              (λ _. refl) (refl, refl) ((λ is. absurd (==→ne (held r.loop) p h is)), (λ _. refl))
              (λ q k. k)
              (inr (λ k.
                subst (λ o. pending r.invalidation_list p o listed ≡ true) e
                  (subst (λ s. pending r.invalidation_list p (r.object p) s ≡ true) at k))))
      ])
    ]

pub unregister_append-Safe : (p : ℕ) (r : Reactor) → IsValid r → Safe (unregister_append p r)
unfolding unregister_append
unregister_append-Safe p r v = append_from-Safe p r (r.stage p) v refl

pub unregister_free-Safe : (p : ℕ) (r : Reactor) → IsValid r → Safe (unregister_free p r)
unfolding unregister_free
unregister_free-Safe p r v = free_from-Safe p r (r.stage p) v refl
