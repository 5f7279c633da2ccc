-- ===== src/Reactor/Register.antt =====
-- Registration, and the calls that start and stop the loop, keep the invariant.
use osi.Prelude.{
  updated, update, update₂-all, update-same, ℕ, ◌≡◌, ◌≢◌, inl, inr, refl, ap, sym, ◌∙◌, subst, Bool,
  true, not, ◌||◌, Option, none, some, ◌==◌, is_some, Bool-cases, ==→ne,
}
use osi.Alarm.Schedule.{list_contains}
use osi.Reactor.{
  Object, Loop, outside, top, waiting, handling, locked, reading, tested, writing, called,
  Iterations, idle, Reactor, held, register, change_registration, stop, start, start_from,
}
use osi.Reactor.Invariant.{fd_of, Valid, IsValid, Safe, in_use}
use osi.Reactor.Changed.{
  Interested, changed-IsValid, idle_where, or-or_true, held-there, holding_at, used-cases, not_null,
}

-- The object of a pointer that is not locked may be written.
pub register-Safe :
    (p : ℕ) (o : Object) (is_added : Bool) (r : Reactor)
    → IsValid r
    → p ≢ 0
    → r.object p ≡ none
    → Safe (register p o is_added r)
unfolding register
register-Safe p o is_added r v ne free =
    let is_idle_p = idle_where (r.stage p) (r.object p) (v.each p).0 free in
    elim (Bool-cases (not is_added || is_some (r.interest o.fd))) [
      | inl e ↦ rw e v
      | inr e ↦ rw e (
          subst
            (λ g. IsValid (record r {
              object = update r.object p (some o);
              interest = update r.interest o.fd (some p);
              stage = g;
            }))
            (update-same r.stage p idle is_idle_p)
            (changed-IsValid r v p (some o) idle (update r.interest o.fd (some p))
              r.invalidation_list r.object_removed
              (λ fd.
                update₂-all (λ q o' s. Interested fd q o' s (update r.interest o.fd (some p) fd))
                  r.object r.stage p (some o) idle
                  (λ h. (
                    refl,
                    elim (updated r.interest o.fd (some p) fd (some p) h) [
                      | inl (is, _) ↦ ap some (sym is)
                      | inr (_, k) ↦
                          let bad : none ≡ some fd =
                            sym (ap fd_of free) ∙ (v.interested fd p k).1 in
                          cc
                    ],
                  ))
                  (λ q other h. elim (updated r.interest o.fd (some p) fd (some q) h) [
                    | inl (_, k) ↦ let is : q ≡ p = cc in absurd (==→ne q p other is)
                    | inr (_, k) ↦ v.interested fd q k
                  ]))
              (λ z. absurd (ne z)) (refl, refl)
              (
                (λ is. absurd (
                    ne (
                      held-there r.object_removed p (r.object p) (r.stage p) (holding_at r p v is)
                        free))),
                (λ _. refl),
              )
              (λ q h. h) (inr (λ h. or-or_true (p == 0) (list_contains r.invalidation_list p)))))
    ]

pub change_registration-Safe :
    (p : ℕ) (read_ready write_ready : Option ℕ) (is_modified : Bool) (r : Reactor)
    → IsValid r
    → in_use r p ≡ true
    → Safe (change_registration p read_ready write_ready is_modified r)
unfolding change_registration
change_registration-Safe p read_ready write_ready is_modified r v u =
    let (o, there, idle_p) = used-cases (r.object p) (r.stage p) u in
    let o' : Object = record o { read_ready = read_ready; write_ready = write_ready } in
    rw there (elim (Bool-cases (not is_modified)) [
      | inl e ↦ rw e v
      | inr e ↦ elim (Bool-cases (held r.loop == p)) [
        | inl h ↦ rw (e, h) tt
        | inr h ↦
            rw (e, h)
              (subst (λ g. IsValid (record r { object = update r.object p (some o'); stage = g }))
                (update-same r.stage p idle idle_p)
                (changed-IsValid r v p (some o') idle r.interest r.invalidation_list
                  r.object_removed
                  (λ fd.
                    update₂-all (λ q o s. Interested fd q o s (r.interest fd)) r.object r.stage p
                      (some o') idle (λ k. (refl, sym (ap fd_of there) ∙ (v.interested fd p k).1))
                      (λ q _. v.interested fd q))
                  (λ z. absurd (not_null r p o v there z)) (refl, refl)
                  ((λ is. absurd (==→ne (held r.loop) p h is)), (λ _. refl)) (λ q k. k)
                  (inr (λ _. or-or_true (p == 0) (list_contains r.invalidation_list p)))))
      ]
    ])

pub stop-Safe : (r : Reactor) → IsValid r → Safe (stop r)
unfolding stop
stop-Safe r v = record {
  interested = v.interested;
  null = v.null;
  each = v.each;
  holding = v.holding;
  pendings = v.pendings;
  nonzero = v.nonzero;
  fresh = v.fresh;
  distinct = v.distinct;
}

pub start_from-Safe :
    (i : Iterations) (r : Reactor) (l : Loop) → Valid r l → Safe (start_from i r l)
start_from-Safe i r (outside s) v = record {
  interested = v.interested;
  null = v.null;
  each = v.each;
  holding = v.holding;
  nonzero = λ e. cc;
  pendings = tt;
  fresh = inl refl;
  distinct = tt;
}
start_from-Safe i r (top _) v = tt
start_from-Safe i r (waiting _) v = tt
start_from-Safe i r (handling _ _) v = tt
start_from-Safe i r (locked _ _ _) v = tt
start_from-Safe i r (reading _ _ _) v = tt
start_from-Safe i r (tested _ _ _) v = tt
start_from-Safe i r (writing _ _ _) v = tt
start_from-Safe i r (called _ _ _) v = tt

pub start-Safe : (i : Iterations) (r : Reactor) → IsValid r → Safe (start i r)
unfolding start
start-Safe i r v = start_from-Safe i r r.loop v
