-- ===== src/Socket/Local.antt =====
-- src/socket_utils/socket_local_client.c and socket_local_server.c: sockets of the local domain.
-- A write past `sun_path` is treated by the callers as a failure.
use osi.Prelude.{ℕ, Bool, true, false, Option, none, some, List, ◌==◌, ◌%◌, if◌then◌else◌}
use osi.Config.{Text}
use osi.Socket.{
  Call, socket_local, close_fd, connect_local, unlink_path, set_reuse_addr, bind_local, listen_fd,
  Os,
}
use osi.Socket.Sockaddr.{
  Namespace, reserved_names, filesystem_names, Made, filled, make_sockaddr_un,
}

-- `SOCK_STREAM`, and `type & SOCK_TYPE_MASK`.
abbrev pub sock_stream : ℕ
sock_stream = 1

abbrev pub type_of : ℕ → ℕ
type_of type = type % 16

abbrev pub is_path : Namespace → Bool
is_path reserved_names = true
is_path filesystem_names = true
is_path _ = false

module _ {S : Type 0} (os : Os S) where
  abbrev pub answered : Call → S → Option ℕ
  answered c s = (os.call c s).0

  abbrev pub after : Call → S → S
  after c s = (os.call c s).1

  -- A call that returns `fd` when it succeeds.
  abbrev pub returns : (fd : ℕ) → Option ℕ → S → Option ℕ × S
  returns fd none s = (none, s)
  returns fd (some _) s = (some fd, s)

  -- A step on a new descriptor, which is closed when the step fails.
  abbrev pub or_close : (fd : ℕ) → Option ℕ → S → Option ℕ × S
  or_close fd none s = (none, after (close_fd (some fd)) s)
  or_close fd (some _) s = (some fd, s)

  abbrev pub connect_from : (fd : ℕ) → Made → S → Option ℕ × S
  connect_from fd (filled a) s =
      returns fd (answered (connect_local fd a) s) (after (connect_local fd a) s)
  connect_from fd _ s = (none, s)

  -- `osi_socket_local_client_connect`
  unfoldable pub client_connect : (fd : ℕ) → Text → Namespace → S → Option ℕ × S
  client_connect fd name namespace s = connect_from fd (make_sockaddr_un name namespace) s

  abbrev pub client_from : Option ℕ → Text → Namespace → S → Option ℕ × S
  client_from none name namespace s = (none, s)
  client_from (some fd) name namespace s =
      let r = client_connect fd name namespace s in or_close fd r.0 r.1

  -- `osi_socket_local_client`
  unfoldable pub local_client : Text → Namespace → (type : ℕ) → S → Option ℕ × S
  local_client name namespace type s =
      client_from (answered (socket_local type) s) name namespace (after (socket_local type) s)

  abbrev pub unlinked : Namespace → List ℕ → S → S
  unlinked namespace path s = if is_path namespace then after (unlink_path path) s else s

  abbrev pub bind_from : (fd : ℕ) → Namespace → Made → S → Option ℕ × S
  bind_from fd namespace (filled a) s =
      let s' = after (set_reuse_addr fd) (unlinked namespace a.sun_path s) in
      returns fd (answered (bind_local fd a) s') (after (bind_local fd a) s')
  bind_from fd namespace _ s = (none, s)

  -- `osi_socket_local_server_bind`
  unfoldable pub server_bind : (fd : ℕ) → Text → Namespace → S → Option ℕ × S
  server_bind fd name namespace s = bind_from fd namespace (make_sockaddr_un name namespace) s

  abbrev pub listen_from : (fd type : ℕ) → Option ℕ → S → Option ℕ × S
  listen_from fd type none s = (none, after (close_fd (some fd)) s)
  listen_from fd type (some _) s =
      if type_of type == sock_stream
      then or_close fd (answered (listen_fd fd 4) s) (after (listen_fd fd 4) s)
      else (some fd, s)

  abbrev pub server_from : Option ℕ → Text → Namespace → (type : ℕ) → S → Option ℕ × S
  server_from none name namespace type s = (none, s)
  server_from (some fd) name namespace type s =
      let r = server_bind fd name namespace s in listen_from fd type r.0 r.1

  -- `osi_socket_local_server`
  unfoldable pub local_server : Text → Namespace → (type : ℕ) → S → Option ℕ × S
  local_server name namespace type s =
      server_from (answered (socket_local type) s) name namespace type (after (socket_local type) s)
