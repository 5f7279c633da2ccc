-- ===== src/Reactor/Reach.antt =====
-- The states of the reactor that its threads reach, in any order of their steps.
use osi.Prelude.{ℕ, ◌≡◌, ◌≢◌, inl, inr, ◌⊎◌, refl, subst, Bool, true, false, none, some}
use osi.Reactor.{
  Object, Stage, idle, deleted, listed, removed, Reactor, new, faults, goes, held, Action,
  registers, changes, unregisters, appends, frees, stops, starts, moves, act,
}
use osi.Reactor.Invariant.{is_removed, is_idle, IsValid, Safe, Allowed}
use osi.Reactor.Kept.{Kept, Keeps, act-Keeps}
use osi.Reactor.Register.{register-Safe, change_registration-Safe, stop-Safe, start-Safe}
use osi.Reactor.Unregister.{unregister-Safe, unregister_append-Safe, unregister_free-Safe}
use osi.Reactor.Rounds.{run_reactor-Safe}
use osi.Reactor.Waits.{Valid-none_removed}

pub data Reaches : Reactor → Reactor → Type 0 where
  stays : (r : Reactor) → Reaches r r
  acts :
      (r r1 r2 : Reactor) (a : Action)
      → Reaches r r1
      → Allowed r1 a
      → act a r1 ≡ goes r2
      → Reaches r r2

act-Safe : (a : Action) (r : Reactor) → IsValid r → Allowed r a → Safe (act a r)
unfolding act
act-Safe (registers p o is_added) r v (ne, free) = register-Safe p o is_added r v ne free
act-Safe (changes p f g is_modified) r v h = change_registration-Safe p f g is_modified r v h
act-Safe (unregisters is_run_thread p) r v (h, own) = unregister-Safe is_run_thread p r v h own
act-Safe (appends p) r v h = unregister_append-Safe p r v
act-Safe (frees p) r v h = unregister_free-Safe p r v
act-Safe stops r v h = stop-Safe r v
act-Safe (starts i) r v h = start-Safe i r v
act-Safe (moves w) r v h = run_reactor-Safe w r v h

pub new-IsValid : IsValid new
new-IsValid = record {
  interested = λ fd q h. cc;
  null = refl;
  each = λ q. (refl, refl);
  holding = refl;
  nonzero = λ h. cc;
  pendings = tt;
  fresh = inl refl;
  distinct = tt;
}

pub Reaches-IsValid : (r r' : Reactor) → Reaches r r' → IsValid r → IsValid r'
Reaches-IsValid r r' (stays _) v = v
Reaches-IsValid r r' (acts _ r1 _ a reach allowed e) v =
    subst Safe e (act-Safe a r1 (Reaches-IsValid r r1 reach v) allowed)

-- Whatever the threads do on a new reactor, in any order, no step uses an object after it was freed or
-- frees one twice, as long as `reactor_unregister` is called once for an object, nothing else is done
-- with it afterwards, a callback unregisters no object but its own, `osi_calloc` gives a block that is
-- not in use, and `epoll_wait` gives what is in the set, each once.
pub Reaches-unfaulted : (r : Reactor) (a : Action) → Reaches new r → Allowed r a → act a r ≢ faults
Reaches-unfaulted r a reach allowed = λ e.
    let bad : false ≡ true =
      subst Safe e (act-Safe a r (Reaches-IsValid new r reach new-IsValid) allowed) in
    cc

Reaches-Kept : (r r' : Reactor) → Reaches r r' → Kept r → Kept r'
Reaches-Kept r r' (stays _) k = k
Reaches-Kept r r' (acts _ r1 _ a reach allowed e) k =
    subst Keeps e (act-Keeps a r1 (Reaches-Kept r r1 reach k) allowed)

-- Another thread is in `reactor_unregister` with the object.
abbrev pub unregistering : Stage → Bool
unregistering deleted = true
unregistering listed = true
unregistering _ = false

stage_split : (s : Stage) → is_removed s ≡ false → (is_idle s ≡ true) ⊎ (unregistering s ≡ true)
stage_split idle h = inl refl
stage_split deleted h = inr refl
stage_split listed h = inr refl
stage_split removed h = let bad : true ≡ false = h in cc

-- In a state that threads reach which keep to the conditions of `Reaches-unfaulted`, when the
-- reactor's thread holds no object's lock: each object that is allocated is in the set that
-- `epoll_wait` watches, with its own descriptor, or another thread is still in `reactor_unregister`
-- with it. So what was unregistered is freed, in a callback too. `EPOLL_CTL_DEL` is taken to succeed.
pub Reaches-freed :
    (r : Reactor) (p : ℕ) (o : Object)
    → Reaches new r
    → held r.loop ≡ 0
    → r.object p ≡ some o
    → (r.interest o.fd ≡ some p) ⊎ (unregistering (r.stage p) ≡ true)
Reaches-freed r p o reach h here =
    let not_removed = Valid-none_removed r r.loop p (Reaches-IsValid new r reach new-IsValid) h in
    let k = Reaches-Kept new r reach (λ q o' at i. let bad : none ≡ some o' = at in cc) in
    elim (stage_split (r.stage p) not_removed) [ inl i ↦ inl (k p o here i) | inr u ↦ inr u ]
