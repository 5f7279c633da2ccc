-- ===== src/Socket/Preserve.antt =====
-- The changes of the sockets' blocks and of the reactors' objects, one at a time.
use osi.Prelude.{
  ℕ, ◌≡◌, refl, sym, ap, ◌∙◌, subst, Bool, true, false, Option, none, some, ◌==◌, ==-self, update,
  update_at, update-all, update₂-all, update-carry,
}
use osi.Socket.{Socket, Watch, dropped, shown}
use osi.Socket.Owner.{
  Owner, nobody, socket_at, IsFd, HasObject, Owned, Owns, watch_of, Shown, Watched, Seen, Valid,
  Owned-store, Seen-store,
}

-- An object that `osi_calloc` may return.
abbrev pub Unused : Option ℕ → (ℕ → Option Watch) → Type 0
Unused none watches = Unit
Unused (some o) watches = watches o ≡ none

abbrev socket_of : Option Watch → ℕ
socket_of none = 0
socket_of (some watch) = watch.socket

abbrev pointer : Owner → ℕ
pointer (socket_at p) = p
pointer _ = 0

abbrev number : Option ℕ → ℕ
number none = 0
number (some o) = o

Shown-drop :
    (watches : ℕ → Option Watch) (p q o : ℕ) (sk sk' : Socket) (r : Option ℕ)
    → watches o ≡ some (watch_of p sk)
    → (q == p) ≡ false
    → Shown watches q sk' r
    → Shown (update watches o none) q sk' r
Shown-drop watches p q o sk sk' none at_o ne h = tt
Shown-drop watches p q o sk sk' (some o') at_o ne h =
    update-carry (λ i. i ≡ some (watch_of q sk')) watches o none o'
      (λ same.
        let eq : q ≡ p = ap socket_of (sym same ∙ at_o) in
        let bad : true ≡ false = sym (==-self q) ∙ ap (λ i. q == i) eq ∙ ne in cc)
      h

Watched-drop :
    (watches : ℕ → Option Watch) (p q o : ℕ) (sk : Socket) (x : Option Socket)
    → watches o ≡ some (watch_of p sk)
    → (q == p) ≡ false
    → Watched watches q x
    → Watched (update watches o none) q x
Watched-drop watches p q o sk none at_o ne h = tt
Watched-drop watches p q o sk (some sk') at_o ne h =
    Shown-drop watches p q o sk sk' sk'.reactor_object at_o ne h

Shown-add :
    (watches : ℕ → Option Watch) (q o : ℕ) (watch : Watch) (sk' : Socket) (r : Option ℕ)
    → watches o ≡ none
    → Shown watches q sk' r
    → Shown (update watches o (some watch)) q sk' r
Shown-add watches q o watch sk' none at_o h = tt
Shown-add watches q o watch sk' (some o') at_o h =
    update-carry (λ i. i ≡ some (watch_of q sk')) watches o (some watch) o'
      (λ same. let bad : none ≡ some (watch_of q sk') = sym at_o ∙ same in cc) h

Watched-add :
    (watches : ℕ → Option Watch) (q o : ℕ) (watch : Watch) (x : Option Socket)
    → watches o ≡ none
    → Watched watches q x
    → Watched (update watches o (some watch)) q x
Watched-add watches q o watch none at_o h = tt
Watched-add watches q o watch (some sk') at_o h =
    Shown-add watches q o watch sk' sk'.reactor_object at_o h

module _ {open_fds : ℕ → Bool} {sockets : ℕ → Option Socket} {watches : ℕ → Option Watch}
    {owner : ℕ → Owner} (p : ℕ) (sk : Socket) (valid : Valid open_fds sockets watches owner)
    (at_p : sockets p ≡ some sk) where
  owner_at : owner sk.fd ≡ socket_at p
  owner_at = subst (Owns owner p) at_p (valid.owns p)

  -- A socket of the same descriptor in its place.
  Owned-keep :
      (sk' : Socket)
      → sk'.fd ≡ sk.fd
      → (fd : ℕ) → Owned (update sockets p (some sk')) fd (open_fds fd) (owner fd)
  Owned-keep sk' same fd =
      Owned-store sockets p (some sk') fd (open_fds fd) (owner fd)
        (λ is. same ∙ subst (λ x. IsFd x fd) at_p is) (valid.owned fd)

  Owns-keep :
      (sk' : Socket) → sk'.fd ≡ sk.fd → (q : ℕ) → Owns owner q (update sockets p (some sk') q)
  Owns-keep sk' same =
      update-all (Owns owner) sockets p (some sk') (ap owner same ∙ owner_at) (λ q ne. valid.owns q)

  pub unregister-Valid :
      (r : Option ℕ)
      → sk.reactor_object ≡ r
      → Valid open_fds
          (update sockets p (some (record sk { reactor_object = none })))
          (dropped r watches)
          owner
  unregister-Valid none e = record {
    owned = Owned-keep (record sk { reactor_object = none }) refl;
    owns = Owns-keep (record sk { reactor_object = none }) refl;
    watched =
        update-all (Watched watches) sockets p (some (record sk { reactor_object = none })) tt
          (λ q ne. valid.watched q);
    seen = λ o.
        Seen-store sockets p (some (record sk { reactor_object = none })) o (watches o)
          (λ has. sym e ∙ subst (λ x. HasObject x o) at_p has) (valid.seen o);
  }
  unregister-Valid (some o) e =
      let at_o : watches o ≡ some (watch_of p sk) =
        subst (Shown watches p sk) e (subst (Watched watches p) at_p (valid.watched p)) in
      record {
        owned = Owned-keep (record sk { reactor_object = none }) refl;
        owns = Owns-keep (record sk { reactor_object = none }) refl;
        watched =
            update-all (Watched (update watches o none)) sockets p
              (some (record sk { reactor_object = none })) tt
              (λ q ne. Watched-drop watches p q o sk (sockets q) at_o ne (valid.watched q));
        seen =
            update-all (Seen (update sockets p (some (record sk { reactor_object = none }))))
              watches o none tt
              (λ o' ne.
                Seen-store sockets p (some (record sk { reactor_object = none })) o' (watches o')
                  (λ has.
                    let eq : o' ≡ o = ap number (sym (subst (λ x. HasObject x o') at_p has) ∙ e) in
                    let bad : true ≡ false = sym (==-self o') ∙ ap (λ i. o' == i) eq ∙ ne in cc)
                  (valid.seen o'));
      }

  module _ (idle : sk.reactor_object ≡ none) where
    no_object : {A : Type 0} (o : ℕ) → HasObject (sockets p) o → A
    no_object o has = let bad : none ≡ some o = sym idle ∙ subst (λ x. HasObject x o) at_p has in cc

    pub register-Valid :
        (sk' : Socket) (r : Option ℕ)
        → sk'.fd ≡ sk.fd
        → sk'.reactor_object ≡ r
        → Unused r watches
        → Valid open_fds (update sockets p (some sk')) (shown r (watch_of p sk') watches) owner
    register-Valid sk' none same e unused = record {
      owned = Owned-keep sk' same;
      owns = Owns-keep sk' same;
      watched =
          update-all (Watched watches) sockets p (some sk') (subst (Shown watches p sk') (sym e) tt)
            (λ q ne. valid.watched q);
      seen = λ o. Seen-store sockets p (some sk') o (watches o) (no_object o) (valid.seen o);
    }
    register-Valid sk' (some o) same e unused =
        let watches' = update watches o (some (watch_of p sk')) in
        record {
          owned = Owned-keep sk' same;
          owns = Owns-keep sk' same;
          watched =
              update-all (Watched watches') sockets p (some sk')
                (subst (Shown watches' p sk') (sym e) (update_at watches o (some (watch_of p sk'))))
                (λ q ne.
                  Watched-add watches q o (watch_of p sk') (sockets q) unused (valid.watched q));
          seen =
              update-all (Seen (update sockets p (some sk'))) watches o (some (watch_of p sk'))
                (subst (λ x. HasObject x o) (sym (update_at sockets p (some sk'))) e)
                (λ o' ne.
                  Seen-store sockets p (some sk') o' (watches o') (no_object o') (valid.seen o'));
        }

    Owns-remove :
        (q : ℕ) (x : Option Socket)
        → (q == p) ≡ false
        → Owns owner q x
        → Owns (update owner sk.fd nobody) q x
    Owns-remove q none ne h = tt
    Owns-remove q (some sk') ne h =
        update-carry (λ i. i ≡ socket_at q) owner sk.fd nobody sk'.fd
          (λ same.
            let eq : q ≡ p = ap pointer (sym same ∙ owner_at) in
            let bad : true ≡ false = sym (==-self q) ∙ ap (λ i. q == i) eq ∙ ne in cc)
          h

    pub remove-Valid :
        Valid
          (update open_fds sk.fd false)
          (update sockets p none)
          watches
          (update owner sk.fd nobody)
    remove-Valid = record {
      owned =
          update₂-all (Owned (update sockets p none)) open_fds owner sk.fd false nobody refl
            (λ q ne.
              Owned-store sockets p none q (open_fds q) (owner q)
                (λ is.
                  let eq : q ≡ sk.fd = sym (subst (λ x. IsFd x q) at_p is) in
                  let bad : true ≡ false = sym (==-self q) ∙ ap (λ i. q == i) eq ∙ ne in cc)
                (valid.owned q));
      owns =
          update-all (Owns (update owner sk.fd nobody)) sockets p none tt
            (λ q ne. Owns-remove q (sockets q) ne (valid.owns q));
      watched = update-all (Watched watches) sockets p none tt (λ q ne. valid.watched q);
      seen = λ o. Seen-store sockets p none o (watches o) (no_object o) (valid.seen o);
    }
