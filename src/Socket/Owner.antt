-- ===== src/Socket/Owner.antt =====
-- Who has each open descriptor, and the object of a reactor that each socket has.
use osi.Prelude.{
  ℕ, ◌≡◌, refl, sym, ap, ◌∙◌, subst, Bool, true, false, Option, none, some, is_some, ◌==◌,
  Bool-cases, inl, inr, ==→eq, update, update_at, update-all, update₂-all, update-carry,
}
use osi.Socket.{Socket, Watch, fresh}

pub data Owner : Type 0 where
  nobody : Owner
  caller : Owner
  socket_at : ℕ → Owner

abbrev pub IsFd : Option Socket → ℕ → Type 0
IsFd none fd = false ≡ true
IsFd (some sk) fd = sk.fd ≡ fd

abbrev pub HasObject : Option Socket → ℕ → Type 0
HasObject none o = false ≡ true
HasObject (some sk) o = sk.reactor_object ≡ some o

abbrev pub Owned : (ℕ → Option Socket) → ℕ → Bool → Owner → Type 0
Owned sockets fd is_open nobody = is_open ≡ false
Owned sockets fd is_open caller = is_open ≡ true
Owned sockets fd is_open (socket_at p) = (is_open ≡ true) × IsFd (sockets p) fd

abbrev pub Owns : (ℕ → Owner) → ℕ → Option Socket → Type 0
Owns owner p none = Unit
Owns owner p (some sk) = owner sk.fd ≡ socket_at p

-- What `socket_register` gives the reactor.
abbrev pub watch_of : ℕ → Socket → Watch
watch_of p sk = record {
  watched = sk.fd;
  socket = p;
  reads = is_some sk.read_ready;
  writes = is_some sk.write_ready;
}

abbrev pub Shown : (ℕ → Option Watch) → ℕ → Socket → Option ℕ → Type 0
Shown watches p sk none = Unit
Shown watches p sk (some o) = watches o ≡ some (watch_of p sk)

abbrev pub Watched : (ℕ → Option Watch) → ℕ → Option Socket → Type 0
Watched watches p none = Unit
Watched watches p (some sk) = Shown watches p sk sk.reactor_object

abbrev pub Seen : (ℕ → Option Socket) → ℕ → Option Watch → Type 0
Seen sockets o none = Unit
Seen sockets o (some watch) = HasObject (sockets watch.socket) o

pub record Valid (open_fds : ℕ → Bool) (sockets : ℕ → Option Socket) (watches : ℕ → Option Watch)
    (owner : ℕ → Owner) : Type 0 where
  pub owned : (fd : ℕ) → Owned sockets fd (open_fds fd) (owner fd)
  pub owns : (p : ℕ) → Owns owner p (sockets p)
  pub watched : (p : ℕ) → Watched watches p (sockets p)
  pub seen : (o : ℕ) → Seen sockets o (watches o)

abbrev pub IsFree : Owner → Type 0
IsFree (socket_at p) = false ≡ true
IsFree _ = Unit

-- A socket that is written.
pub Owned-store :
    (sockets : ℕ → Option Socket) (p : ℕ) (x : Option Socket) (fd : ℕ) (b : Bool) (o : Owner)
    → (IsFd (sockets p) fd → IsFd x fd)
    → Owned sockets fd b o
    → Owned (update sockets p x) fd b o
Owned-store sockets p x fd b nobody new h = h
Owned-store sockets p x fd b caller new h = h
Owned-store sockets p x fd b (socket_at p') new (h, is) =
    (h, update-carry (λ i. IsFd i fd) sockets p x p' new is)

pub Seen-store :
    (sockets : ℕ → Option Socket) (p : ℕ) (x : Option Socket) (o : ℕ) (watch : Option Watch)
    → (HasObject (sockets p) o → HasObject x o)
    → Seen sockets o watch
    → Seen (update sockets p x) o watch
Seen-store sockets p x o none new h = tt
Seen-store sockets p x o (some watch) new h =
    update-carry (λ i. HasObject i o) sockets p x watch.socket new h

-- A descriptor that no socket has passes to somebody else.
pub Owns-other :
    (owner : ℕ → Owner) (fd : ℕ) (o : Owner) (q : ℕ) (sk : Option Socket)
    → IsFree (owner fd)
    → Owns owner q sk
    → Owns (update owner fd o) q sk
Owns-other owner fd o q none free h = tt
Owns-other owner fd o q (some sk) free h = elim (Bool-cases (sk.fd == fd)) [
  | inl e ↦ let bad : false ≡ true = subst IsFree (ap owner (sym (==→eq sk.fd fd e)) ∙ h) free in cc
  | inr e ↦ rw e h
]

-- The descriptors of the callers, and of none, may be closed or handed over.
pub hand-Valid :
    {open_fds : ℕ → Bool} {sockets : ℕ → Option Socket} {watches : ℕ → Option Watch}
    {owner : ℕ → Owner} (fd : ℕ) (is_open : Bool) (o : Owner)
    → Valid open_fds sockets watches owner
    → IsFree (owner fd)
    → Owned sockets fd is_open o
    → Valid (update open_fds fd is_open) sockets watches (update owner fd o)
hand-Valid {open_fds} {sockets} {watches} {owner} fd is_open o valid free new = record {
  owned = update₂-all (Owned sockets) open_fds owner fd is_open o new (λ q ne. valid.owned q);
  owns = λ p. Owns-other owner fd o p (sockets p) free (valid.owns p);
  watched = valid.watched;
  seen = valid.seen;
}

-- A new socket, for a descriptor that no socket has.
pub add-Valid :
    {open_fds : ℕ → Bool} {sockets : ℕ → Option Socket} {watches : ℕ → Option Watch}
    {owner : ℕ → Owner} (p fd : ℕ)
    → Valid open_fds sockets watches owner
    → sockets p ≡ none
    → IsFree (owner fd)
    → Valid
        (update open_fds fd true)
        (update sockets p (some (fresh fd)))
        watches
        (update owner fd (socket_at p))
add-Valid {open_fds} {sockets} {watches} {owner} p fd valid unused free = record {
  owned =
      update₂-all (Owned (update sockets p (some (fresh fd)))) open_fds owner fd true (socket_at p)
        (refl, subst (λ x. IsFd x fd) (sym (update_at sockets p (some (fresh fd)))) refl)
        (λ q ne.
          Owned-store sockets p (some (fresh fd)) q (open_fds q) (owner q)
            (λ is. let bad = subst (λ x. IsFd x q) unused is in cc) (valid.owned q));
  owns =
      update-all (Owns (update owner fd (socket_at p))) sockets p (some (fresh fd))
        (update_at owner fd (socket_at p))
        (λ q ne. Owns-other owner fd (socket_at p) q (sockets q) free (valid.owns q));
  watched = update-all (Watched watches) sockets p (some (fresh fd)) tt (λ q ne. valid.watched q);
  seen = λ o.
      Seen-store sockets p (some (fresh fd)) o (watches o)
        (λ has. let bad = subst (λ x. HasObject x o) unused has in cc) (valid.seen o);
}
