-- ===== src/Socket/Callers.antt =====
-- What callers do with sockets and descriptors, and what they have to keep to.
use osi.Prelude.{
  ℕ, ◌≡◌, Bool, true, false, Option, none, some, List, is_some, if◌then◌else◌, update,
}
use osi.Config.{Text}
use osi.Socket.{
  dropped, Os, World, Socket, close_fd, run, new, new_from_fd, free, listen, accept, read, write,
  bytes_available, write_and_transfer_fd, register, unregister,
}
use osi.Socket.Sockaddr.{Namespace}
use osi.Socket.Local.{local_client, local_server}
use osi.Socket.Owner.{Owner, nobody, caller, socket_at, Valid}
use osi.Socket.Preserve.{Unused}

pub record Callers (S : Type 0) : Type 0 where
  pub world : World S
  pub owner : ℕ → Owner

-- A pointer `p` of a new socket is what `osi_calloc` returns, and `object` what `reactor_register` does.
pub data Act : Type 0 where
  news : (p : ℕ) → Act
  news_from : (p fd : ℕ) → Act
  accepts : (p socket : ℕ) → Act
  frees : (socket : ℕ) → Act
  listens : (socket port : ℕ) → Act
  reads : (socket count : ℕ) → Act
  writes : (socket : ℕ) → List ℕ → Act
  asks : (socket : ℕ) → Act
  transfers : (socket : ℕ) → List ℕ → (fd : Option ℕ) → Act
  registers :
      (socket : ℕ) → (object : Option ℕ) → (context : ℕ) → (read_cb write_cb : Option ℕ) → Act
  unregisters : (socket : ℕ) → Act
  clients : Text → Namespace → (type : ℕ) → Act
  servers : Text → Namespace → (type : ℕ) → Act
  closes : (fd : ℕ) → Act

abbrev pub given : ℕ → Option Socket → (ℕ → Owner) → ℕ → Owner
given p none owner = owner
given p (some sk) owner = update owner sk.fd (socket_at p)

abbrev pub forgotten : Option Socket → (ℕ → Owner) → ℕ → Owner
forgotten none owner = owner
forgotten (some sk) owner = update owner sk.fd nobody

abbrev pub handed : Option ℕ → Owner → (ℕ → Owner) → ℕ → Owner
handed none o owner = owner
handed (some fd) o owner = update owner fd o

abbrev pub object_of : Option Socket → Option ℕ
object_of none = none
object_of (some sk) = sk.reactor_object

module _ {S : Type 0} where
  abbrev pub claimed : ℕ → Option ℕ → World S → (ℕ → Owner) → ℕ → Owner
  claimed p none w owner = owner
  claimed p (some _) w owner = given p (w.sockets p) owner

  -- What is left of the callers after a function that returns a new socket or NULL.
  abbrev pub claims : ℕ → Option ℕ × World S → (ℕ → Owner) → Callers S
  claims p r owner = record { world = r.1; owner = claimed p r.0 r.1 owner }

  abbrev pub then_claims : ℕ → (ℕ → Owner) → Option (Option ℕ × World S) → Option (Callers S)
  then_claims p owner none = none
  then_claims p owner (some r) = some (claims p r owner)

  abbrev pub then_owner : (ℕ → Owner) → Option (World S) → Option (Callers S)
  then_owner owner none = none
  then_owner owner (some w) = some (record { world = w; owner = owner })

  abbrev pub then_world {ℓ} : {A : Type ℓ} → (ℕ → Owner) → Option (A × World S) → Option (Callers S)
  then_world owner none = none
  then_world owner (some r) = some (record { world = r.1; owner = owner })

  abbrev pub then_local : Callers S → Option ℕ × S → Callers S
  then_local c r = record {
    world = record (c.world) { system = r.1 };
    owner = handed r.0 caller c.owner;
  }

module _ {S : Type 0} (os : Os S) where
  -- What a function does when callers call it; `none` is the use of a block that is not allocated.
  unfoldable pub act : Act → Callers S → Option (Callers S)
  act (news p) c = some (claims p (new os p c.world) c.owner)
  act (news_from p fd) c =
      some (record { world = new_from_fd p fd c.world; owner = update c.owner fd (socket_at p) })
  act (accepts p socket) c = then_claims p c.owner (accept os p socket c.world)
  act (frees socket) c =
      then_owner (forgotten (c.world.sockets socket) c.owner) (free os (some socket) c.world)
  act (listens socket port) c = then_world c.owner (listen os socket port c.world)
  act (reads socket count) c = then_world c.owner (read os socket count c.world)
  act (writes socket buf) c = then_world c.owner (write os socket buf c.world)
  act (asks socket) c = then_world c.owner (bytes_available os socket c.world)
  act (transfers socket buf fd) c =
      then_world (handed fd nobody c.owner) (write_and_transfer_fd os socket buf fd c.world)
  act (registers socket object context read_cb write_cb) c =
      then_owner c.owner (register socket object context read_cb write_cb c.world)
  act (unregisters socket) c = then_owner c.owner (unregister socket c.world)
  act (clients name namespace type) c =
      some (then_local c (local_client os name namespace type c.world.system))
  act (servers name namespace type) c =
      some (then_local c (local_server os name namespace type c.world.system))
  act (closes fd) c =
      some
        (record { world = run os (close_fd (some fd)) c.world; owner = update c.owner fd nobody })

module _ {S : Type 0} where
  abbrev pub Live : Callers S → ℕ → Type 0
  Live c p = is_some (c.world.sockets p) ≡ true

  abbrev pub New : Callers S → ℕ → Type 0
  New c p = c.world.sockets p ≡ none

  abbrev pub Has : Callers S → Option ℕ → Type 0
  Has c none = Unit
  Has c (some fd) = c.owner fd ≡ caller

  -- What callers keep to: a socket is used until it is freed, a descriptor that is handed over or closed
  -- is their own, and what is allocated was not.
  abbrev pub Allowed : Act → Callers S → Type 0
  Allowed (news p) c = New c p
  Allowed (news_from p fd) c = New c p × Has c (some fd)
  Allowed (accepts p socket) c = New c p × Live c socket
  Allowed (frees socket) c = Live c socket
  Allowed (listens socket port) c = Live c socket
  Allowed (reads socket count) c = Live c socket
  Allowed (writes socket buf) c = Live c socket
  Allowed (asks socket) c = Live c socket
  Allowed (transfers socket buf fd) c = Live c socket × Has c fd
  Allowed (registers socket object context read_cb write_cb) c =
      Live c socket × Unused object (dropped (object_of (c.world.sockets socket)) c.world.watches)
  Allowed (unregisters socket) c = Live c socket
  Allowed (clients name namespace type) c = Unit
  Allowed (servers name namespace type) c = Unit
  Allowed (closes fd) c = Has c (some fd)

module _ {S : Type 0} (opens : S → ℕ → Bool) where
  -- The descriptors that are open at the beginning are the callers' own.
  abbrev pub begin : S → Callers S
  begin s = record {
    world = record { system = s; sockets = λ p. none; watches = λ o. none };
    owner = λ fd. if opens s fd then caller else nobody;
  }

  abbrev pub Holds : World S → (ℕ → Owner) → Type 0
  Holds w owner = Valid (opens w.system) w.sockets w.watches owner

  -- Not failed, and with the invariant.
  abbrev pub Kept : Option (Callers S) → Type 0
  Kept none = false ≡ true
  Kept (some c) = Holds c.world c.owner
