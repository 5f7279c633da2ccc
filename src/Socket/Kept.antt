-- ===== src/Socket/Kept.antt =====
-- What each function of sockets keeps, when its callers keep to what they have to.
use osi.Prelude.{
  ℕ, ◌≡◌, refl, sym, ap, ◌∙◌, subst, Bool, true, false, Option, none, some, is_some, update,
  update_at, update-same,
}
use osi.Socket.{
  Os, World, Socket, Watch, socket_inet, accept_fd, close_fd, set_reuse_addr, fresh, store, run,
  answer, new_from, new, reuse_from, accept_from, accept_on,
}
use osi.Socket.Local.{after}
use osi.Socket.Descriptors.{Posix, with_new, Opened, close_fd-restores}
use osi.Socket.Owner.{Owner, nobody, caller, socket_at, Owned, IsFree, Valid, hand-Valid, add-Valid}
use osi.Socket.Callers.{Kept, Holds, claims, then_claims, handed, given}

-- A descriptor that is not open is no socket's.
closed-IsFree :
    (sockets : ℕ → Option Socket) (fd : ℕ) (b : Bool) (o : Owner)
    → Owned sockets fd b o
    → b ≡ false
    → IsFree o
closed-IsFree sockets fd b nobody h e = tt
closed-IsFree sockets fd b caller h e = tt
closed-IsFree sockets fd b (socket_at p) (h, is) e = let bad : true ≡ false = sym h ∙ e in cc

caller-IsFree : (o : Owner) → o ≡ caller → IsFree o
caller-IsFree o e = subst IsFree (sym e) tt

-- A descriptor that a function returns to its caller, or none.
pub Opened-Valid :
    (r : Option ℕ) (before after : ℕ → Bool) (sockets : ℕ → Option Socket)
    (watches : ℕ → Option Watch) (owner : ℕ → Owner)
    → Opened r before after
    → Valid before sockets watches owner
    → Valid after sockets watches (handed r caller owner)
Opened-Valid none before after sockets watches owner e v =
    subst (λ f. Valid f sockets watches owner) (sym e) v
Opened-Valid (some fd) before after sockets watches owner (is_new, e) v =
    subst (λ f. Valid f sockets watches (update owner fd caller)) (sym e)
      (hand-Valid fd true caller v
        (closed-IsFree sockets fd (before fd) (owner fd) (v.owned fd) is_new) refl)

-- The caller's own descriptor becomes a socket's.
pub from_fd-Valid :
    (p fd : ℕ) (open_fds : ℕ → Bool) (sockets : ℕ → Option Socket) (watches : ℕ → Option Watch)
    (owner : ℕ → Owner)
    → Valid open_fds sockets watches owner
    → sockets p ≡ none
    → owner fd ≡ caller
    → Valid open_fds (update sockets p (some (fresh fd))) watches (update owner fd (socket_at p))
from_fd-Valid p fd open_fds sockets watches owner v unused has =
    let is_open : open_fds fd ≡ true = subst (Owned sockets fd (open_fds fd)) has (v.owned fd) in
    subst
      (λ f. Valid f (update sockets p (some (fresh fd))) watches (update owner fd (socket_at p)))
      (update-same open_fds fd true is_open)
      (add-Valid p fd v unused (caller-IsFree (owner fd) has))

module _ {S : Type 0} (os : Os S) (opens : S → ℕ → Bool) (posix : Posix os opens) where
  -- A state of the system in which the descriptors are known.
  pub at_table :
      (open_fds : ℕ → Bool) (s : S) (w : World S) (owner : ℕ → Owner)
      → opens s ≡ open_fds
      → Valid open_fds w.sockets w.watches owner
      → Holds opens (record w { system = s }) owner
  at_table open_fds s w owner e v = subst (λ f. Valid f w.sockets w.watches owner) (sym e) v

  stored-Holds :
      (p fd : ℕ) (w : World S) (owner : ℕ → Owner) (open_fds : ℕ → Bool)
      → Valid open_fds w.sockets w.watches owner
      → w.sockets p ≡ none
      → opens w.system ≡ update open_fds fd true
      → open_fds fd ≡ false
      → Kept opens (some (claims p (some p, store p (some (fresh fd)) w) owner))
  stored-Holds p fd w owner open_fds v unused e is_new =
      subst (Valid (opens w.system) (update w.sockets p (some (fresh fd))) w.watches)
        (ap (λ x. given p x owner) (sym (update_at w.sockets p (some (fresh fd)))))
        (subst
          (λ f.
            Valid f (update w.sockets p (some (fresh fd))) w.watches
              (update owner fd (socket_at p)))
          (sym e)
          (add-Valid p fd v unused
            (closed-IsFree w.sockets fd (open_fds fd) (owner fd) (v.owned fd) is_new)))

  reuse_from-Kept :
      (p fd : ℕ) (r : Option ℕ) (w : World S) (owner : ℕ → Owner) (open_fds : ℕ → Bool)
      → Valid open_fds w.sockets w.watches owner
      → w.sockets p ≡ none
      → opens w.system ≡ update open_fds fd true
      → open_fds fd ≡ false
      → Kept opens (some (claims p (reuse_from os p fd r w) owner))
  reuse_from-Kept p fd none w owner open_fds v unused e is_new =
      at_table open_fds (after os (close_fd (some fd)) w.system) w owner
        (close_fd-restores os opens posix fd w.system open_fds e is_new) v
  reuse_from-Kept p fd (some _) w owner open_fds v unused e is_new =
      stored-Holds p fd w owner open_fds v unused e is_new

  new_from-Kept :
      (p : ℕ) (r : Option ℕ) (w : World S) (owner : ℕ → Owner) (open_fds : ℕ → Bool)
      → Valid open_fds w.sockets w.watches owner
      → w.sockets p ≡ none
      → opens w.system ≡ with_new r open_fds
      → ((fd : ℕ) → r ≡ some fd → open_fds fd ≡ false)
      → Kept opens (some (claims p (new_from os p r w) owner))
  new_from-Kept p none w owner open_fds v unused e is_new =
      at_table open_fds (after os (close_fd none) w.system) w owner
        (posix.effect (close_fd none) w.system ∙ e) v
  new_from-Kept p (some fd) w owner open_fds v unused e is_new =
      reuse_from-Kept p fd (answer os (set_reuse_addr fd) w) (run os (set_reuse_addr fd) w) owner
        open_fds v unused (posix.effect (set_reuse_addr fd) w.system ∙ e) (is_new fd refl)

  pub new-Kept :
      (p : ℕ) (w : World S) (owner : ℕ → Owner)
      → Holds opens w owner
      → w.sockets p ≡ none
      → Kept opens (some (claims p (new os p w) owner))
  unfolding new
  new-Kept p w owner v unused =
      new_from-Kept p (answer os socket_inet w) (run os socket_inet w) owner (opens w.system) v
        unused (posix.effect socket_inet w.system)
        (λ fd. posix.fresh_fd socket_inet w.system fd refl)

  accept_from-Kept :
      (p : ℕ) (r : Option ℕ) (w : World S) (owner : ℕ → Owner) (open_fds : ℕ → Bool)
      → Valid open_fds w.sockets w.watches owner
      → w.sockets p ≡ none
      → opens w.system ≡ with_new r open_fds
      → ((fd : ℕ) → r ≡ some fd → open_fds fd ≡ false)
      → Kept opens (some (claims p (accept_from os p r w) owner))
  accept_from-Kept p none w owner open_fds v unused e is_new =
      at_table open_fds w.system w owner e v
  accept_from-Kept p (some fd) w owner open_fds v unused e is_new =
      stored-Holds p fd w owner open_fds v unused e (is_new fd refl)

  pub accept_on-Kept :
      (p : ℕ) (x : Option Socket) (w : World S) (owner : ℕ → Owner)
      → Holds opens w owner
      → w.sockets p ≡ none
      → is_some x ≡ true
      → Kept opens (then_claims p owner (accept_on os p w x))
  accept_on-Kept p none w owner v unused live = live
  accept_on-Kept p (some sk) w owner v unused live =
      accept_from-Kept p (answer os (accept_fd sk.fd) w) (run os (accept_fd sk.fd) w) owner
        (opens w.system) v unused (posix.effect (accept_fd sk.fd) w.system)
        (λ fd. posix.fresh_fd (accept_fd sk.fd) w.system fd refl)

  pub close_fd-Holds :
      (fd : ℕ) (w : World S) (owner : ℕ → Owner)
      → Holds opens w owner
      → owner fd ≡ caller
      → Holds opens (run os (close_fd (some fd)) w) (update owner fd nobody)
  close_fd-Holds fd w owner v has =
      at_table (update (opens w.system) fd false) (after os (close_fd (some fd)) w.system) w
        (update owner fd nobody) (posix.effect (close_fd (some fd)) w.system)
        (hand-Valid fd false nobody v (caller-IsFree (owner fd) has) refl)
