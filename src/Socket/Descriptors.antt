-- ===== src/Socket/Descriptors.antt =====
-- src/socket_utils: which descriptors are open after the calls of a client and of a server.
use osi.Prelude.{
  ℕ, ◌≡◌, refl, ap, ◌∙◌, Bool, true, false, Option, none, some, List, ◌==◌, Bool-cases, inl, inr,
  update, update-same, update-update,
}
use osi.Config.{Text}
use osi.Socket.{
  Call, socket_inet, socket_local, accept_fd, close_fd, set_reuse_addr, bind_local, connect_local,
  listen_fd, unlink_path, Os,
}
use osi.Socket.Sockaddr.{Namespace, Made, filled, refused, overrun, make_sockaddr_un}
use osi.Socket.Local.{
  type_of, sock_stream, is_path, answered, after, returns, or_close, connect_from, client_connect,
  client_from, local_client, unlinked, bind_from, server_bind, listen_from, server_from,
  local_server,
}

-- The calls that return a new descriptor.
abbrev pub creates : Call → Bool
creates socket_inet = true
creates (socket_local _) = true
creates (accept_fd _) = true
creates _ = false

abbrev pub with_new : Option ℕ → (ℕ → Bool) → ℕ → Bool
with_new none open_fds = open_fds
with_new (some fd) open_fds = update open_fds fd true

abbrev pub without : Option ℕ → (ℕ → Bool) → ℕ → Bool
without none open_fds = open_fds
without (some fd) open_fds = update open_fds fd false

-- The open descriptors after a call, by its answer.
abbrev pub open_after : Call → Option ℕ → (ℕ → Bool) → ℕ → Bool
open_after (close_fd fd) _ = without fd
open_after socket_inet answer = with_new answer
open_after (socket_local _) answer = with_new answer
open_after (accept_fd _) answer = with_new answer
open_after _ answer = λ open_fds. open_fds

-- What POSIX says of descriptors: a new one was not open, `close` closes its own whatever it answers,
-- and no other call opens or closes one.
pub record Posix {S : Type 0} (os : Os S) (opens : S → ℕ → Bool) : Type 0 where
  pub effect : (c : Call) (s : S) → opens (os.call c s).1 ≡ open_after c (os.call c s).0 (opens s)
  pub fresh_fd :
      (c : Call) (s : S) (fd : ℕ)
      → creates c ≡ true
      → (os.call c s).0 ≡ some fd
      → opens s fd ≡ false

-- What a function that returns a descriptor, or -1, does to the open ones.
abbrev pub Opened : Option ℕ → (before after : ℕ → Bool) → Type 0
Opened none before after = after ≡ before
Opened (some fd) before after = (before fd ≡ false) × (after ≡ update before fd true)

abbrev pub Opens : {S : Type 0} → (S → ℕ → Bool) → S → Option ℕ × S → Type 0
Opens opens s r = Opened r.0 (opens s) (opens r.1)

module _ {S : Type 0} (os : Os S) (opens : S → ℕ → Bool) (posix : Posix os opens) where
  -- A descriptor that was opened and is closed again.
  pub close_fd-restores :
      (fd : ℕ) (s : S) (open_fds : ℕ → Bool)
      → opens s ≡ update open_fds fd true
      → open_fds fd ≡ false
      → opens (after os (close_fd (some fd)) s) ≡ open_fds
  close_fd-restores fd s open_fds h fresh =
      posix.effect (close_fd (some fd)) s
      ∙ ap (λ f. update f fd false) h
      ∙ update-update open_fds fd true false
      ∙ update-same open_fds fd false fresh

  or_close-Opens :
      (fd : ℕ) (r : Option ℕ) (s s0 : S)
      → opens s ≡ update (opens s0) fd true
      → opens s0 fd ≡ false
      → Opens opens s0 (or_close os fd r s)
  or_close-Opens fd none s s0 h fresh = close_fd-restores fd s (opens s0) h fresh
  or_close-Opens fd (some _) s s0 h fresh = (fresh, h)

  returns-state : (fd : ℕ) (r : Option ℕ) (s : S) → (returns os fd r s).1 ≡ s
  returns-state fd none s = refl
  returns-state fd (some _) s = refl

  connect_from-opens :
      (fd : ℕ) (made : Made) (s : S) → opens (connect_from os fd made s).1 ≡ opens s
  connect_from-opens fd (filled a) s =
      ap opens
        (returns-state fd (answered os (connect_local fd a) s) (after os (connect_local fd a) s))
      ∙ posix.effect (connect_local fd a) s
  connect_from-opens fd refused s = refl
  connect_from-opens fd overrun s = refl

  unlinked-opens :
      (namespace : Namespace) (path : List ℕ) (s : S)
      → opens (unlinked os namespace path s) ≡ opens s
  unlinked-opens namespace path s = elim (Bool-cases (is_path namespace)) [
    | inl e ↦ rw e (posix.effect (unlink_path path) s)
    | inr e ↦ rw e refl
  ]

  bind_from-opens :
      (fd : ℕ) (namespace : Namespace) (made : Made) (s : S)
      → opens (bind_from os fd namespace made s).1 ≡ opens s
  bind_from-opens fd namespace (filled a) s =
      let s1 = unlinked os namespace a.sun_path s in
      let s2 = after os (set_reuse_addr fd) s1 in
      ap opens (returns-state fd (answered os (bind_local fd a) s2) (after os (bind_local fd a) s2))
      ∙ posix.effect (bind_local fd a) s2
      ∙ posix.effect (set_reuse_addr fd) s1
      ∙ unlinked-opens namespace a.sun_path s
  bind_from-opens fd namespace refused s = refl
  bind_from-opens fd namespace overrun s = refl

  client_from-Opens :
      (r : Option ℕ) (name : Text) (namespace : Namespace) (s s0 : S)
      → opens s ≡ with_new r (opens s0)
      → ((fd : ℕ) → r ≡ some fd → opens s0 fd ≡ false)
      → Opens opens s0 (client_from os r name namespace s)
  unfolding client_connect
  client_from-Opens none name namespace s s0 h fresh = h
  client_from-Opens (some fd) name namespace s s0 h fresh =
      let made = make_sockaddr_un name namespace in
      let r = connect_from os fd made s in
      or_close-Opens fd r.0 r.1 s0 (connect_from-opens fd made s ∙ h) (fresh fd refl)

  listen_from-Opens :
      (fd type : ℕ) (r : Option ℕ) (s s0 : S)
      → opens s ≡ update (opens s0) fd true
      → opens s0 fd ≡ false
      → Opens opens s0 (listen_from os fd type r s)
  listen_from-Opens fd type none s s0 h fresh = close_fd-restores fd s (opens s0) h fresh
  listen_from-Opens fd type (some _) s s0 h fresh =
      elim (Bool-cases (type_of type == sock_stream)) [
        | inl e ↦ rw e (
            or_close-Opens fd (answered os (listen_fd fd 4) s) (after os (listen_fd fd 4) s) s0
              (posix.effect (listen_fd fd 4) s ∙ h) fresh)
        | inr e ↦ rw e (fresh, h)
      ]

  server_from-Opens :
      (r : Option ℕ) (name : Text) (namespace : Namespace) (type : ℕ) (s s0 : S)
      → opens s ≡ with_new r (opens s0)
      → ((fd : ℕ) → r ≡ some fd → opens s0 fd ≡ false)
      → Opens opens s0 (server_from os r name namespace type s)
  unfolding server_bind
  server_from-Opens none name namespace type s s0 h fresh = h
  server_from-Opens (some fd) name namespace type s s0 h fresh =
      let made = make_sockaddr_un name namespace in
      let r = bind_from os fd namespace made s in
      listen_from-Opens fd type r.0 r.1 s0 (bind_from-opens fd namespace made s ∙ h) (fresh fd refl)

  -- A client and a server that return a descriptor opened that one and no other, and those that fail
  -- leave open what was open, at whichever step they fail.
  pub local-Opens :
      (name : Text) (namespace : Namespace) (type : ℕ) (s : S)
      → Opens opens s (local_client os name namespace type s)
        × Opens opens s (local_server os name namespace type s)
  unfolding local_client local_server
  local-Opens name namespace type s =
      let c = socket_local type in
      let r = answered os c s in
      let fresh : (fd : ℕ) → r ≡ some fd → opens s fd ≡ false = λ fd. posix.fresh_fd c s fd refl in
      (
        client_from-Opens r name namespace (after os c s) s (posix.effect c s) fresh,
        server_from-Opens r name namespace type (after os c s) s (posix.effect c s) fresh,
      )
