-- ===== src/Socket/Tests.antt =====
-- A system that counts its descriptors and refuses to listen, and a socket that is registered in it.
use osi.Prelude.{
  ℕ, suc, ◌≤◌, max, ◌≡◌, refl, ◌↔◌, ◌⊎◌, Bool, true, false, Option, none, some, is_some, List, [],
  ◌∷◌, ◌==◌, bytes, arith, update, ◌++◌,
}
use osi.Socket.{
  Call, socket_inet, socket_local, accept_fd, close_fd, set_reuse_addr, bind_inet, bind_local,
  connect_local, listen_fd, recv, send, send_msg, bytes_ready, unlink_path, Os, new, register,
  internal_read_ready, internal_write_ready,
}
use osi.Socket.Sockaddr.{
  abstract_names, reserved_names, make_sockaddr_un, address_of, make_sockaddr_un-named, copy_to,
}
use osi.Socket.Local.{local_client, server_bind, local_server}
use osi.Socket.Descriptors.{Posix, creates, open_after, Opens, local-Opens}
use osi.Socket.Owner.{caller, socket_at, IsFd}
use osi.Socket.Callers.{Callers, news, registers, act, begin}
use osi.Socket.Reach.{Reaches, stays, acts, Reaches-opens, Reaches-callbacks}

-- The descriptors that were opened and closed, the last one first.
abbrev Log : Type 0
Log = List (ℕ × Bool)

abbrev opens : Log → ℕ → Bool
opens [] = λ fd. false
opens ((fd, b) ∷ log) = update (opens log) fd b

abbrev bound : Log → ℕ
bound [] = 0
bound ((fd, b) ∷ log) = max (suc fd) (bound log)

abbrev creates_one : Log → Option ℕ × Log
creates_one log = (some (bound log), (bound log, true) ∷ log)

abbrev call : Call → Log → Option ℕ × Log
call socket_inet log = creates_one log
call (socket_local type) log = creates_one log
call (accept_fd fd) log = creates_one log
call (close_fd none) log = (none, log)
call (close_fd (some fd)) log = (some 0, (fd, false) ∷ log)
call (listen_fd fd backlog) log = (none, log)
call _ log = (some 0, log)

abbrev log_os : Os Log
log_os = record { call = call }

opens-bound : (log : Log) (fd : ℕ) → bound log ≤ fd → opens log fd ≡ false
opens-bound [] fd h = refl
opens-bound ((f, b) ∷ log) fd h =
    let ne : (fd == f) ≡ false = ground arith in rw ne (opens-bound log fd (omega arith))

bound-closed :
    (log : Log) (fd : ℕ) → ◌≡◌ {A = Option ℕ} (some (bound log)) (some fd) → opens log fd ≡ false
bound-closed log fd e = let eq : bound log ≡ fd = cc in opens-bound log fd (omega (arith, eq))

call-effect :
    (c : Call) (log : Log) → opens (call c log).1 ≡ open_after c (call c log).0 (opens log)
call-effect socket_inet log = refl
call-effect (socket_local type) log = refl
call-effect (accept_fd fd) log = refl
call-effect (close_fd none) log = refl
call-effect (close_fd (some fd)) log = refl
call-effect (set_reuse_addr fd) log = refl
call-effect (bind_inet fd address port) log = refl
call-effect (bind_local fd address) log = refl
call-effect (connect_local fd address) log = refl
call-effect (listen_fd fd backlog) log = refl
call-effect (recv fd count) log = refl
call-effect (send fd buf) log = refl
call-effect (send_msg fd buf transferred) log = refl
call-effect (bytes_ready fd) log = refl
call-effect (unlink_path path) log = refl

call-fresh :
    (c : Call) (log : Log) (fd : ℕ)
    → creates c ≡ true
    → (call c log).0 ≡ some fd
    → opens log fd ≡ false
call-fresh socket_inet log fd new e = bound-closed log fd e
call-fresh (socket_local type) log fd new e = bound-closed log fd e
call-fresh (accept_fd f) log fd new e = bound-closed log fd e
call-fresh (close_fd none) log fd new e = cc
call-fresh (close_fd (some f)) log fd new e = cc
call-fresh (set_reuse_addr f) log fd new e = cc
call-fresh (bind_inet f address port) log fd new e = cc
call-fresh (bind_local f address) log fd new e = cc
call-fresh (connect_local f address) log fd new e = cc
call-fresh (listen_fd f backlog) log fd new e = cc
call-fresh (recv f count) log fd new e = cc
call-fresh (send f buf) log fd new e = cc
call-fresh (send_msg f buf transferred) log fd new e = cc
call-fresh (bytes_ready f) log fd new e = cc
call-fresh (unlink_path path) log fd new e = cc

log-Posix : Posix log_os opens
log-Posix = record { effect = call-effect; fresh_fd = call-fresh }

abbrev start : Callers Log
start = begin opens []

abbrev state : Option (Callers Log) → Callers Log
state none = start
state (some c) = c

abbrev c1 : Callers Log
unfolding act new
c1 = state (act log_os (news 10) start)

c1-Reaches : Reaches log_os start c1
unfolding act new
c1-Reaches = acts start start c1 (news 10) (stays start) refl refl

abbrev c2 : Callers Log
unfolding act register
c2 = state (act log_os (registers 10 (some 5) 7 (some 1) none) c1)

c2-Reaches : Reaches log_os start c2
unfolding act register c1
c2-Reaches = acts start c1 c2 (registers 10 (some 5) 7 (some 1) none) c1-Reaches (refl, refl) refl

c2_watch :
    c2.world.watches 5 ≡ some (record { watched = 0; socket = 10; reads = true; writes = false })
unfolding c2 c1
c2_watch = refl

Reaches-callbacks_example :
    (is_some (internal_read_ready 10 c2.world) ≡ true)
    × (is_some (internal_write_ready 10 c2.world) ≡ false)
    × IsFd (c2.world.sockets 10) 0
Reaches-callbacks_example =
    Reaches-callbacks log_os opens log-Posix [] c2 5
      (record { watched = 0; socket = 10; reads = true; writes = false }) c2-Reaches c2_watch

Reaches-opens_example :
    ((opens c2.world.system 0 ≡ true)
      ↔ ((c2.owner 0 ≡ caller) ⊎ ((p : ℕ) × IsFd (c2.world.sockets p) 0)))
    × ((p : ℕ) → IsFd (c2.world.sockets p) 0 → c2.owner 0 ≡ socket_at p)
Reaches-opens_example = Reaches-opens log_os opens log-Posix [] c2 0 c2-Reaches

-- The server's `listen` fails, and what it opened is closed again.
server_fails :
    local_server log_os (bytes "a") abstract_names 1 [] ≡ (none, (0, false) ∷ (0, true) ∷ [])
unfolding local_server server_bind make_sockaddr_un copy_to
server_fails = refl

local-Opens_example :
    Opens opens [] (local_client log_os (bytes "a") abstract_names 1 [])
    × Opens opens [] (local_server log_os (bytes "a") abstract_names 1 [])
local-Opens_example = local-Opens log_os opens log-Posix (bytes "a") abstract_names 1 []

make_sockaddr_un-named_example :
    make_sockaddr_un (bytes "a") reserved_names
    ≡ address_of (some (bytes "/dev/socket/a" ++ 0 ∷ []))
make_sockaddr_un-named_example = make_sockaddr_un-named (bytes "a") reserved_names
