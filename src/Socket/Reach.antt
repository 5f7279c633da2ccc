-- ===== src/Socket/Reach.antt =====
-- Callers that make, use and free sockets and descriptors, in any order.
use osi.Prelude.{
  ℕ, ◌≡◌, refl, sym, ap, ◌∙◌, subst, Bool, true, false, Option, none, some, is_some, ◌⊎◌, inl, inr,
  ◌↔◌, Bool-cases,
}
use osi.Socket.{
  Os, World, Socket, Watch, new_from_fd, free, listen, accept, read, write, bytes_available,
  write_and_transfer_fd, register, unregister, recv, send, bytes_ready, internal_read_ready,
  internal_write_ready, read_from, write_from, called,
}
use osi.Socket.Local.{local_client, local_server}
use osi.Socket.Descriptors.{Posix, local-Opens}
use osi.Socket.Owner.{
  Owner, nobody, caller, socket_at, IsFd, Owned, Owns, HasObject, Seen, Watched, watch_of, Shown,
}
use osi.Socket.Callers.{
  Callers, Act, news, news_from, accepts, frees, listens, reads, writes, asks, transfers, registers,
  unregisters, clients, servers, closes, act, Allowed, begin, Holds, Kept,
}
use osi.Socket.Kept.{Opened-Valid, from_fd-Valid, new-Kept, accept_on-Kept, close_fd-Holds}
use osi.Socket.Uses.{
  call_on-Kept, listen_on-Kept, transfer_from-Kept, free_from-Kept, unregister_from-Kept,
  register_from-Kept,
}

module _ {S : Type 0} (os : Os S) where
  pub data Reaches : Callers S → Callers S → Type 0 where
    stays : (c : Callers S) → Reaches c c
    acts :
        (c c1 c2 : Callers S) (a : Act)
        → Reaches c c1
        → Allowed a c1
        → act os a c1 ≡ some c2
        → Reaches c c2

module _ {S : Type 0} (os : Os S) (opens : S → ℕ → Bool) (posix : Posix os opens) where
  act-Kept :
      (a : Act) (c : Callers S)
      → Holds opens c.world c.owner
      → Allowed a c
      → Kept opens (act os a c)
  unfolding act accept free listen read write bytes_available write_and_transfer_fd register
      unregister new_from_fd
  act-Kept (news p) c v unused = new-Kept os opens posix p c.world c.owner v unused
  act-Kept (news_from p fd) c v (unused, has) =
      from_fd-Valid p fd (opens c.world.system) c.world.sockets c.world.watches c.owner v unused has
  act-Kept (accepts p socket) c v (unused, live) =
      accept_on-Kept os opens posix p (c.world.sockets socket) c.world c.owner v unused live
  act-Kept (frees p) c v live =
      free_from-Kept os opens posix p (c.world.sockets p) c.world c.owner v refl live
  act-Kept (listens p port) c v live =
      listen_on-Kept os opens posix port (c.world.sockets p) c.world c.owner v live
  act-Kept (reads p count) c v live =
      call_on-Kept os opens posix (λ fd. recv fd count) (c.world.sockets p) c.world c.owner
        (λ fd r f. refl) v live
  act-Kept (writes p buf) c v live =
      call_on-Kept os opens posix (λ fd. send fd buf) (c.world.sockets p) c.world c.owner
        (λ fd r f. refl) v live
  act-Kept (asks p) c v live =
      call_on-Kept os opens posix bytes_ready (c.world.sockets p) c.world c.owner (λ fd r f. refl) v
        live
  act-Kept (transfers p buf none) c v (live, has) =
      call_on-Kept os opens posix (λ fd. send fd buf) (c.world.sockets p) c.world c.owner
        (λ fd r f. refl) v live
  act-Kept (transfers p buf (some fd)) c v (live, has) =
      transfer_from-Kept os opens posix buf fd (c.world.sockets p) c.world c.owner v live has
  act-Kept (registers p object context read_cb write_cb) c v (live, unused) =
      register_from-Kept opens p object context read_cb write_cb (c.world.sockets p) c.world c.owner
        v refl live unused
  act-Kept (unregisters p) c v live =
      unregister_from-Kept opens p (c.world.sockets p) c.world c.owner v refl live
  act-Kept (clients name namespace type) c v allowed =
      let r = local_client os name namespace type c.world.system in
      Opened-Valid r.0 (opens c.world.system) (opens r.1) c.world.sockets c.world.watches c.owner
        (local-Opens os opens posix name namespace type c.world.system).0 v
  act-Kept (servers name namespace type) c v allowed =
      let r = local_server os name namespace type c.world.system in
      Opened-Valid r.0 (opens c.world.system) (opens r.1) c.world.sockets c.world.watches c.owner
        (local-Opens os opens posix name namespace type c.world.system).1 v
  act-Kept (closes fd) c v has = close_fd-Holds os opens posix fd c.world c.owner v has

  Reaches-Holds :
      (c c' : Callers S)
      → Reaches os c c'
      → Holds opens c.world c.owner
      → Holds opens c'.world c'.owner
  Reaches-Holds c c' (stays _) v = v
  Reaches-Holds c c' (acts _ c1 _ a reach allowed e) v =
      subst (Kept opens) e (act-Kept a c1 (Reaches-Holds c c1 reach v) allowed)

  begin-Holds : (s : S) → Holds opens (begin opens s).world (begin opens s).owner
  begin-Holds s = record {
    owned = λ fd. elim (Bool-cases (opens s fd)) [ inl e ↦ rw e refl | inr e ↦ rw e refl ];
    owns = λ p. tt;
    watched = λ p. tt;
    seen = λ o. tt;
  }

  owner-opens :
      (sockets : ℕ → Option Socket) (fd : ℕ) (b : Bool) (o : Owner)
      → Owned sockets fd b o
      → b ≡ true
      → (o ≡ caller) ⊎ ((p : ℕ) × IsFd (sockets p) fd)
  owner-opens sockets fd b nobody h e = let bad : true ≡ false = sym e ∙ h in cc
  owner-opens sockets fd b caller h e = inl refl
  owner-opens sockets fd b (socket_at p) (h, is) e = inr (p, is)

  Owns-of :
      (owner : ℕ → Owner) (p fd : ℕ) (x : Option Socket)
      → Owns owner p x
      → IsFd x fd
      → owner fd ≡ socket_at p
  Owns-of owner p fd none h is = cc
  Owns-of owner p fd (some sk) h is = sym (ap owner is) ∙ h

  -- A descriptor is open when it is the callers' own or that of an allocated socket, and then only; the
  -- socket is then one, and the descriptor is not the callers'. So nothing stays open that nobody has,
  -- and none is closed while it is in use.
  pub Reaches-opens :
      (s : S) (c : Callers S) (fd : ℕ)
      → Reaches os (begin opens s) c
      → ((opens c.world.system fd ≡ true)
          ↔ ((c.owner fd ≡ caller) ⊎ ((p : ℕ) × IsFd (c.world.sockets p) fd)))
        × ((p : ℕ) → IsFd (c.world.sockets p) fd → c.owner fd ≡ socket_at p)
  Reaches-opens s c fd reach =
      let v = Reaches-Holds (begin opens s) c reach (begin-Holds s) in
      let b = opens c.world.system fd in
      let owns : (p : ℕ) → IsFd (c.world.sockets p) fd → c.owner fd ≡ socket_at p =
        λ p is. Owns-of c.owner p fd (c.world.sockets p) (v.owns p) is in
      (
        (
          owner-opens c.world.sockets fd b (c.owner fd) (v.owned fd),
          λ has. elim has [
            | inl h ↦ subst (Owned c.world.sockets fd b) h (v.owned fd)
            | inr h ↦ (subst (Owned c.world.sockets fd b) (owns h.0 h.1) (v.owned fd)).0
          ],
        ),
        owns,
      )

  abbrev Answers : World S → Watch → Type 0
  Answers w watch =
      (is_some (internal_read_ready watch.socket w) ≡ watch.reads)
      × (is_some (internal_write_ready watch.socket w) ≡ watch.writes)
      × IsFd (w.sockets watch.socket) watch.watched

  is_some-called : (p context : ℕ) (cb : Option ℕ) → is_some (called p context cb) ≡ is_some cb
  is_some-called p context none = refl
  is_some-called p context (some cb) = refl

  socket-Answers :
      (w : World S) (p : ℕ) (sk : Socket) → w.sockets p ≡ some sk → Answers w (watch_of p sk)
  unfolding internal_read_ready internal_write_ready
  socket-Answers w p sk at_p = (
    ap (λ x. is_some (read_from p x)) at_p ∙ is_some-called p sk.context sk.read_ready,
    ap (λ x. is_some (write_from p x)) at_p ∙ is_some-called p sk.context sk.write_ready,
    subst (λ x. IsFd x sk.fd) (sym at_p) refl,
  )

  watch_inj : (a b : Watch) → ◌≡◌ {A = Option Watch} (some a) (some b) → a ≡ b
  watch_inj a b e = cc

  seen-Answers :
      (w : World S) (o : ℕ) (watch : Watch) (x : Option Socket)
      → w.watches o ≡ some watch
      → w.sockets watch.socket ≡ x
      → HasObject x o
      → Watched w.watches watch.socket x
      → Answers w watch
  seen-Answers w o watch none at_o at_p has shows = cc
  seen-Answers w o watch (some sk) at_o at_p has shows =
      subst (Answers w)
        (watch_inj (watch_of watch.socket sk) watch
          (sym (subst (Shown w.watches watch.socket sk) has shows) ∙ at_o))
        (socket-Answers w watch.socket sk at_p)

  -- A registration in the set of a reactor is that of an allocated socket with the descriptor it
  -- watches, and a function that it was given finds a callback there: what `epoll_wait` reports from
  -- then on is for no socket that was freed. This is about the set, which `reactor_unregister` leaves
  -- at once; it says nothing of an event that was reported before, which the reactor's thread still
  -- handles when one of its callbacks frees another socket. `EPOLL_CTL_DEL` is taken to succeed.
  pub Reaches-callbacks :
      (s : S) (c : Callers S) (o : ℕ) (watch : Watch)
      → Reaches os (begin opens s) c
      → c.world.watches o ≡ some watch
      → (is_some (internal_read_ready watch.socket c.world) ≡ watch.reads)
        × (is_some (internal_write_ready watch.socket c.world) ≡ watch.writes)
        × IsFd (c.world.sockets watch.socket) watch.watched
  Reaches-callbacks s c o watch reach at_o =
      let v = Reaches-Holds (begin opens s) c reach (begin-Holds s) in
      seen-Answers c.world o watch (c.world.sockets watch.socket) at_o refl
        (subst (Seen c.world.sockets o) at_o (v.seen o)) (v.watched watch.socket)
