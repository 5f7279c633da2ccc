-- ===== src/Socket.antt =====
-- src/socket.c: sockets that own a descriptor and may be watched by a reactor. A pointer is a number and
-- `none` is NULL, a result or a descriptor of -1, or the use of a block that is not allocated. The
-- system is the record `Os`; the bytes that `recv` writes are the system's. The block that `osi_calloc`
-- returns is written when it is handed out, so an error path that frees it leaves none.
pub mod Sockaddr
pub mod Local
pub mod Descriptors
pub mod Owner
pub mod Preserve
pub mod Callers
pub mod Kept
pub mod Uses
pub mod Reach
mod Tests
use osi.Prelude.{ℕ, Bool, true, false, Option, none, some, List, is_some, update, if◌then◌else◌}

-- `sockaddr_un` with its length: the bytes of `sun_path`, and `alen`.
pub record Address : Type 0 where
  pub sun_path : List ℕ
  pub alen : ℕ

-- The system calls: those that return a new descriptor, `close`, and those on a descriptor.
pub data Call : Type 0 where
  socket_inet : Call
  socket_local : (type : ℕ) → Call
  accept_fd : (fd : ℕ) → Call
  close_fd : (fd : Option ℕ) → Call
  set_reuse_addr : (fd : ℕ) → Call
  bind_inet : (fd address port : ℕ) → Call
  bind_local : (fd : ℕ) → Address → Call
  connect_local : (fd : ℕ) → Address → Call
  listen_fd : (fd backlog : ℕ) → Call
  recv : (fd count : ℕ) → Call
  send : (fd : ℕ) → List ℕ → Call
  send_msg : (fd : ℕ) → List ℕ → (transferred : ℕ) → Call
  bytes_ready : (fd : ℕ) → Call
  unlink_path : List ℕ → Call

-- The answer of a call, and the state it leaves.
pub record Os (S : Type 0) : Type 0 where
  pub call : Call → S → Option ℕ × S

-- `socket_t`; a callback is a number.
pub record Socket : Type 0 where
  pub fd : ℕ
  pub reactor_object : Option ℕ
  pub read_ready : Option ℕ
  pub write_ready : Option ℕ
  pub context : ℕ

-- What a reactor was given for one of its objects, as long as the object is in the set that `epoll_wait`
-- watches: from `reactor_register` to the `EPOLL_CTL_DEL` that `reactor_unregister` begins with, which
-- is taken to succeed. Events that were reported before are not part of it. `reads` and `writes` are the functions that are not
-- NULL.
pub record Watch : Type 0 where
  pub watched : ℕ
  pub socket : ℕ
  pub reads : Bool
  pub writes : Bool

pub record World (S : Type 0) : Type 0 where
  pub system : S
  pub sockets : ℕ → Option Socket
  pub watches : ℕ → Option Watch

-- `LOCALHOST_`
abbrev pub localhost : ℕ
localhost = 2130706433

abbrev pub fresh : ℕ → Socket
fresh fd = record {
  fd = fd;
  reactor_object = none;
  read_ready = none;
  write_ready = none;
  context = 0;
}

-- A callback that is called, with its socket and its context.
abbrev pub called : ℕ → ℕ → Option ℕ → Option (ℕ × ℕ × ℕ)
called p context none = none
called p context (some cb) = some (cb, p, context)

-- `reactor_unregister` of an object, unless it is NULL: what it does to the set.
abbrev pub dropped : Option ℕ → (ℕ → Option Watch) → ℕ → Option Watch
dropped none watches = watches
dropped (some o) watches = update watches o none

-- `reactor_register`, when it returns an object.
abbrev pub shown : Option ℕ → Watch → (ℕ → Option Watch) → ℕ → Option Watch
shown none watch watches = watches
shown (some o) watch watches = update watches o (some watch)

abbrev pub read_from : ℕ → Option Socket → Option (ℕ × ℕ × ℕ)
read_from p none = none
read_from p (some sk) = called p sk.context sk.read_ready

abbrev pub write_from : ℕ → Option Socket → Option (ℕ × ℕ × ℕ)
write_from p none = none
write_from p (some sk) = called p sk.context sk.write_ready

module _ {S : Type 0} where
  abbrev pub store : ℕ → Option Socket → World S → World S
  store p sk w = record w { sockets = update w.sockets p sk }

  -- `socket_unregister` of an allocated socket, and of a pointer.
  abbrev pub unregistered : ℕ → Socket → World S → World S
  unregistered p sk w =
      store p (some (record sk { reactor_object = none }))
        (record w { watches = dropped sk.reactor_object w.watches })

  abbrev pub unregister_from : ℕ → World S → Option Socket → Option (World S)
  unregister_from p w none = none
  unregister_from p w (some sk) = some (unregistered p sk w)

  unfoldable pub unregister : (socket : ℕ) → World S → Option (World S)
  unregister p w = unregister_from p w (w.sockets p)

  abbrev pub register_from :
      (p : ℕ)
      → (object : Option ℕ) → (context : ℕ) → (read_cb write_cb : Option ℕ) → World S
      → Option Socket
      → Option (World S)
  register_from p object context read_cb write_cb w none = none
  register_from p object context read_cb write_cb w (some sk) = some (
      store p
        (some (record {
          fd = sk.fd;
          reactor_object = object;
          read_ready = read_cb;
          write_ready = write_cb;
          context = context;
        }))
        (let w' = unregistered p sk w in
          record w' {
            watches =
                shown object
                  (record {
                    watched = sk.fd;
                    socket = p;
                    reads = is_some read_cb;
                    writes = is_some write_cb;
                  })
                  w'.watches;
          }))

  -- `socket_register`; `object` is what `reactor_register` returns.
  unfoldable pub register :
      (socket : ℕ)
      → (object : Option ℕ) → (context : ℕ) → (read_cb write_cb : Option ℕ) → World S
      → Option (World S)
  register p object context read_cb write_cb w =
      register_from p object context read_cb write_cb w (w.sockets p)

  -- `internal_read_ready` and `internal_write_ready`
  unfoldable pub internal_read_ready : (context : ℕ) → World S → Option (ℕ × ℕ × ℕ)
  internal_read_ready p w = read_from p (w.sockets p)

  unfoldable pub internal_write_ready : (context : ℕ) → World S → Option (ℕ × ℕ × ℕ)
  internal_write_ready p w = write_from p (w.sockets p)

  -- `socket_new_from_fd`
  unfoldable pub new_from_fd : (p fd : ℕ) → World S → World S
  new_from_fd p fd w = store p (some (fresh fd)) w

module _ {S : Type 0} (os : Os S) where
  abbrev pub run : Call → World S → World S
  run c w = record w { system = (os.call c w.system).1 }

  abbrev pub answer : Call → World S → Option ℕ
  answer c w = (os.call c w.system).0

  abbrev pub reuse_from : (p fd : ℕ) → Option ℕ → World S → Option ℕ × World S
  reuse_from p fd none w = (none, run (close_fd (some fd)) w)
  reuse_from p fd (some _) w = (some p, store p (some (fresh fd)) w)

  abbrev pub new_from : (p : ℕ) → Option ℕ → World S → Option ℕ × World S
  new_from p none w = (none, run (close_fd none) w)
  new_from p (some fd) w =
      reuse_from p fd (answer (set_reuse_addr fd) w) (run (set_reuse_addr fd) w)

  -- `socket_new`
  unfoldable pub new : (p : ℕ) → World S → Option ℕ × World S
  new p w = new_from p (answer socket_inet w) (run socket_inet w)

  abbrev pub free_from : ℕ → World S → Option Socket → Option (World S)
  free_from p w none = none
  free_from p w (some sk) = some (store p none (run (close_fd (some sk.fd)) (unregistered p sk w)))

  -- `socket_free`
  unfoldable pub free : (socket : Option ℕ) → World S → Option (World S)
  free none w = some w
  free (some p) w = free_from p w (w.sockets p)

  abbrev pub listen_from : ℕ → Option ℕ → World S → Bool × World S
  listen_from fd none w = (false, w)
  listen_from fd (some _) w = (is_some (answer (listen_fd fd 10) w), run (listen_fd fd 10) w)

  abbrev pub listen_on : (port : ℕ) → World S → Option Socket → Option (Bool × World S)
  listen_on port w none = none
  listen_on port w (some sk) = some (
      listen_from sk.fd (answer (bind_inet sk.fd localhost port) w)
        (run (bind_inet sk.fd localhost port) w))

  -- `socket_listen`
  unfoldable pub listen : (socket port : ℕ) → World S → Option (Bool × World S)
  listen p port w = listen_on port w (w.sockets p)

  abbrev pub accept_from : (p : ℕ) → Option ℕ → World S → Option ℕ × World S
  accept_from p none w = (none, w)
  accept_from p (some fd) w = (some p, store p (some (fresh fd)) w)

  abbrev pub accept_on : (p : ℕ) → World S → Option Socket → Option (Option ℕ × World S)
  accept_on p w none = none
  accept_on p w (some sk) =
      some (accept_from p (answer (accept_fd sk.fd) w) (run (accept_fd sk.fd) w))

  -- `socket_accept`; `p` is what `osi_calloc` returns.
  unfoldable pub accept : (p socket : ℕ) → World S → Option (Option ℕ × World S)
  accept p socket w = accept_on p w (w.sockets socket)

  -- A call on the descriptor of a socket.
  abbrev pub call_on : (ℕ → Call) → World S → Option Socket → Option (Option ℕ × World S)
  call_on c w none = none
  call_on c w (some sk) = some (answer (c sk.fd) w, run (c sk.fd) w)

  -- `socket_read`, `socket_write` and `socket_bytes_available`
  unfoldable pub read : (socket count : ℕ) → World S → Option (Option ℕ × World S)
  read p count w = call_on (λ fd. recv fd count) w (w.sockets p)

  unfoldable pub write : (socket : ℕ) → List ℕ → World S → Option (Option ℕ × World S)
  write p buf w = call_on (λ fd. send fd buf) w (w.sockets p)

  unfoldable pub bytes_available : (socket : ℕ) → World S → Option (Option ℕ × World S)
  bytes_available p w = call_on bytes_ready w (w.sockets p)

  abbrev pub transfer_from :
      List ℕ → (fd : ℕ) → World S → Option Socket → Option (Option ℕ × World S)
  transfer_from buf fd w none = none
  transfer_from buf fd w (some sk) =
      some
        (answer (send_msg sk.fd buf fd) w, run (close_fd (some fd)) (run (send_msg sk.fd buf fd) w))

  -- `socket_write_and_transfer_fd`
  unfoldable pub write_and_transfer_fd :
      (socket : ℕ) → List ℕ → (fd : Option ℕ) → World S → Option (Option ℕ × World S)
  unfolding write
  write_and_transfer_fd p buf none w = write p buf w
  write_and_transfer_fd p buf (some fd) w = transfer_from buf fd w (w.sockets p)
