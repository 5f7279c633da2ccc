-- ===== src/Socket/Uses.antt =====
-- What the functions of an allocated socket keep.
use osi.Prelude.{
  ℕ, ◌≡◌, refl, ◌∙◌, Bool, true, false, Option, none, some, List, is_some, update, update_at,
}
use osi.Socket.{
  Call, Os, World, Socket, close_fd, send_msg, run, answer, free_from, call_on, transfer_from,
  register_from, unregister_from, listen_from, listen_on, localhost, bind_inet, listen_fd, dropped,
  unregistered,
}
use osi.Socket.Local.{after}
use osi.Socket.Descriptors.{Posix, open_after}
use osi.Socket.Owner.{Owner, nobody, caller}
use osi.Socket.Preserve.{Unused, unregister-Valid, register-Valid, remove-Valid}
use osi.Socket.Callers.{Kept, Holds, then_owner, then_world, forgotten, object_of}
use osi.Socket.Kept.{at_table, close_fd-Holds}

module _ {S : Type 0} (os : Os S) (opens : S → ℕ → Bool) (posix : Posix os opens) where
  -- A call that neither opens nor closes a descriptor.
  run-Holds :
      (c : Call) (w : World S) (owner : ℕ → Owner)
      → ((f : ℕ → Bool) → open_after c (answer os c w) f ≡ f)
      → Holds opens w owner
      → Holds opens (run os c w) owner
  run-Holds c w owner same v =
      at_table os opens posix (opens w.system) (after os c w.system) w owner
        (posix.effect c w.system ∙ same (opens w.system)) v

  pub call_on-Kept :
      (c : ℕ → Call) (x : Option Socket) (w : World S) (owner : ℕ → Owner)
      → ((fd : ℕ) (r : Option ℕ) (f : ℕ → Bool) → open_after (c fd) r f ≡ f)
      → Holds opens w owner
      → is_some x ≡ true
      → Kept opens (then_world owner (call_on os c w x))
  call_on-Kept c none w owner same v live = live
  call_on-Kept c (some sk) w owner same v live =
      run-Holds (c sk.fd) w owner (same sk.fd (answer os (c sk.fd) w)) v

  listen_from-Holds :
      (fd : ℕ) (r : Option ℕ) (w : World S) (owner : ℕ → Owner)
      → Holds opens w owner
      → Holds opens (listen_from os fd r w).1 owner
  listen_from-Holds fd none w owner v = v
  listen_from-Holds fd (some _) w owner v = run-Holds (listen_fd fd 10) w owner (λ f. refl) v

  pub listen_on-Kept :
      (port : ℕ) (x : Option Socket) (w : World S) (owner : ℕ → Owner)
      → Holds opens w owner
      → is_some x ≡ true
      → Kept opens (then_world owner (listen_on os port w x))
  listen_on-Kept port none w owner v live = live
  listen_on-Kept port (some sk) w owner v live =
      let c = bind_inet sk.fd localhost port in
      listen_from-Holds sk.fd (answer os c w) (run os c w) owner (run-Holds c w owner (λ f. refl) v)

  pub transfer_from-Kept :
      (buf : List ℕ) (fd : ℕ) (x : Option Socket) (w : World S) (owner : ℕ → Owner)
      → Holds opens w owner
      → is_some x ≡ true
      → owner fd ≡ caller
      → Kept opens (then_world (update owner fd nobody) (transfer_from os buf fd w x))
  transfer_from-Kept buf fd none w owner v live has = live
  transfer_from-Kept buf fd (some sk) w owner v live has =
      close_fd-Holds os opens posix fd (run os (send_msg sk.fd buf fd) w) owner
        (run-Holds (send_msg sk.fd buf fd) w owner (λ f. refl) v) has

  pub free_from-Kept :
      (p : ℕ) (x : Option Socket) (w : World S) (owner : ℕ → Owner)
      → Holds opens w owner
      → w.sockets p ≡ x
      → is_some x ≡ true
      → Kept opens (then_owner (forgotten x owner) (free_from os p w x))
  free_from-Kept p none w owner v at_p live = live
  free_from-Kept p (some sk) w owner v at_p live =
      let idle : Socket = record sk { reactor_object = none } in
      let w' = unregistered p sk w in
      at_table os opens posix (update (opens w.system) sk.fd false)
        (after os (close_fd (some sk.fd)) w.system)
        (record w' { sockets = update w'.sockets p none }) (update owner sk.fd nobody)
        (posix.effect (close_fd (some sk.fd)) w.system)
        (remove-Valid p idle (unregister-Valid p sk v at_p sk.reactor_object refl)
          (update_at w.sockets p (some idle)) refl)

module _ {S : Type 0} (opens : S → ℕ → Bool) where
  pub unregister_from-Kept :
      (p : ℕ) (x : Option Socket) (w : World S) (owner : ℕ → Owner)
      → Holds opens w owner
      → w.sockets p ≡ x
      → is_some x ≡ true
      → Kept opens (then_owner owner (unregister_from p w x))
  unregister_from-Kept p none w owner v at_p live = live
  unregister_from-Kept p (some sk) w owner v at_p live =
      unregister-Valid p sk v at_p sk.reactor_object refl

  pub register_from-Kept :
      (p : ℕ) (object : Option ℕ) (context : ℕ) (read_cb write_cb : Option ℕ) (x : Option Socket)
      (w : World S) (owner : ℕ → Owner)
      → Holds opens w owner
      → w.sockets p ≡ x
      → is_some x ≡ true
      → Unused object (dropped (object_of x) w.watches)
      → Kept opens (then_owner owner (register_from p object context read_cb write_cb w x))
  register_from-Kept p object context read_cb write_cb none w owner v at_p live unused = live
  register_from-Kept p object context read_cb write_cb (some sk) w owner v at_p live unused =
      let idle : Socket = record sk { reactor_object = none } in
      let sk' : Socket = record {
        fd = sk.fd;
        reactor_object = object;
        read_ready = read_cb;
        write_ready = write_cb;
        context = context;
      } in
      register-Valid p idle (unregister-Valid p sk v at_p sk.reactor_object refl)
        (update_at w.sockets p (some idle)) refl sk' object refl refl unused
