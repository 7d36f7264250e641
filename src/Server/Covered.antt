-- ===== src/Server/Covered.antt =====
-- `fdmax` against the descriptors that are open or watched: connections and commands.
use client_server_protocoale.Common.{
  ℕ, zero, suc, ◌+◌, ◌≡◌, ◌⊎◌, inl, inr, refl, sym, subst, Option, none, some, Bool, true, false,
  List, ◌∷◌, ℤ, pos, negsuc, inc, dec, eqz, eqz_iff, ltz, arith, ◌==◌, take, drop, get_elem?,
  Bool-cases,
}
use client_server_protocoale.LinkedList.View.{add_last}
use client_server_protocoale.Server.World.{Os, World, Address, failed, accept, close, send}
use client_server_protocoale.Server.State.{ClientStructure, Server, fd_set}
use client_server_protocoale.Server.Connect.{
  admit_new, refuse, admit_again, admit, manage_connection_request,
}
use client_server_protocoale.Server.Descriptors.{
  Descriptors, Ending, bind-Ending, deref-Ending, if-Ending, Stable, die_if-Steady,
  request_id-Steady,
}
use client_server_protocoale.Server.Steady.{empty_queue-Steady}

pub ltz-inc : (z x : ℤ) → ltz z x ≡ false → ltz (inc z) x ≡ false
ltz-inc (pos n) (pos k) h = ground arith
ltz-inc (pos n) (negsuc k) h = refl
ltz-inc (negsuc zero) (pos k) h = cc
ltz-inc (negsuc (suc n)) (pos k) h = cc
ltz-inc (negsuc zero) (negsuc k) h = refl
ltz-inc (negsuc (suc n)) (negsuc k) h = ground arith

-- A descriptor other than the highest is below it.
pub ltz-dec : (z x : ℤ) → ltz z x ≡ false → eqz x z ≡ false → ltz (dec z) x ≡ false
ltz-dec (pos zero) (pos k) h ne = ground arith
ltz-dec (pos (suc n)) (pos k) h ne = ground arith
ltz-dec (pos zero) (negsuc k) h ne = ground arith
ltz-dec (pos (suc n)) (negsuc k) h ne = refl
ltz-dec (negsuc n) (pos k) h ne = cc
ltz-dec (negsuc n) (negsuc k) h ne = ground arith

module _ {S : Type 0} (opened : S → ℤ → Bool) where
  -- No descriptor above `z` is open.
  abbrev pub Under : ℤ → S → Type 0
  Under z st = (x : ℤ) → opened st x ≡ true → ltz z x ≡ false

  -- None but `sock`.
  abbrev pub UnderOr : ℤ → ℤ → S → Type 0
  UnderOr sock z st = (x : ℤ) → opened st x ≡ true → (eqz x sock ≡ true) ⊎ (ltz z x ≡ false)

  -- `fdmax` is a descriptor, and none above it is open or watched.
  pub record Cover (fdmax : ℤ) (read_fds : ℤ → Bool) (st : S) : Type 0 where
    pub real : ltz fdmax (pos 0) ≡ false
    pub open_below : Under fdmax st
    pub watched_below : (x : ℤ) → read_fds x ≡ true → ltz fdmax x ≡ false

  module _ (os : Os S) (law : Descriptors os opened) where
    pub Under-Stable : (z : ℤ) → Stable os (Under z)
    Under-Stable z = record {
      sends = λ s sock bytes j x o. j x (law.send_opens s sock bytes x o);
      receives = λ s sock n j x o. j x (law.recv_opens s sock n x o);
      closes = λ s sock j x o. j x (law.close_opens s sock x o).0;
    }

    UnderOr-Stable : (sock z : ℤ) → Stable os (UnderOr sock z)
    UnderOr-Stable sock z = record {
      sends = λ s sock bytes j x o. j x (law.send_opens s sock bytes x o);
      receives = λ s sock n j x o. j x (law.recv_opens s sock n x o);
      closes = λ s sock j x o. j x (law.close_opens s sock x o).0;
    }

    -- The server's `fdmax` and read set cover the world.
    abbrev pub Covers : Server → World S → Type 0
    Covers s w = Cover s.fdmax s.read_fds w.system

    -- A new connection's descriptor is at most one above `fdmax`.
    accept-below :
        (z tcp : ℤ) (st : S)
        → ltz z (pos 0) ≡ false
        → Under z st
        → ltz (inc z) (os.accept st tcp).ret ≡ false
    accept-below (pos n) tcp st real under = elim (Bool-cases (opened st (pos (n + 1)))) [
      | inl o ↦
          let bad : ltz (pos n) (pos (n + 1)) ≡ false = under (pos (n + 1)) o in
          absurd (ground arith)
      | inr free ↦ law.accept_lowest st tcp (n + 1) free
    ]
    accept-below (negsuc n) tcp st real under = absurd (cc)

    -- `fdmax` raised by one, with the new socket watched.
    Cover-grown :
        (z sock : ℤ) (fds : ℤ → Bool) (st : S)
        → ltz z (pos 0) ≡ false
        → UnderOr sock z st
        → ltz (inc z) sock ≡ false
        → ((x : ℤ) → fds x ≡ true → ltz z x ≡ false)
        → Cover (inc z) (fd_set sock fds) st
    Cover-grown z sock fds st real under below watched = record {
      real = ltz-inc z (pos 0) real;
      open_below = λ x o. elim (under x o) [
        | inl e ↦ subst (λ y. ltz (inc z) y ≡ false) (sym ((eqz_iff x sock).0 e)) below
        | inr h ↦ ltz-inc z x h
      ];
      watched_below = λ x h. elim (Bool-cases (eqz x sock)) [
        | inl e ↦ subst (λ y. ltz (inc z) y ≡ false) (sym ((eqz_iff x sock).0 e)) below
        | inr other ↦ ltz-inc z x (watched x (ground arith))
      ];
    }

    refuse-Covers :
        (sock : ℤ) (junk : List ℕ) (c : ClientStructure) (s : Server) (w : World S)
        → ltz s.fdmax (pos 0) ≡ false
        → ((x : ℤ) → s.read_fds x ≡ true → ltz s.fdmax x ≡ false)
        → UnderOr sock s.fdmax w.system
        → Ending Covers (refuse os sock junk c s w)
    unfolding refuse send close
    refuse-Covers sock junk c s w real watched under = record {
      real = real;
      open_below = λ x o.
          let (before, other) = law.close_opens (os.send w.system sock (4 ∷ junk)).1 sock x o in
          elim (under x (law.send_opens w.system sock (4 ∷ junk) x before)) [
            | inl e ↦ absurd (cc)
            | inr h ↦ h
          ];
      watched_below = watched;
    }

    admit-Covers :
        (sock : ℤ) (a : Address) (junk id buf : List ℕ) (o : Option ℕ) (s : Server) (w : World S)
        → ltz s.fdmax (pos 0) ≡ false
        → ((x : ℤ) → s.read_fds x ≡ true → ltz s.fdmax x ≡ false)
        → UnderOr sock s.fdmax w.system
        → ltz (inc s.fdmax) sock ≡ false
        → Ending Covers (admit os sock a junk id buf o s w)
    unfolding admit admit_new admit_again
    admit-Covers sock a junk id buf none s w real watched under below =
        deref-Ending Covers (add_last s.clients_container _) _ _
          (λ v e. Cover-grown s.fdmax sock s.read_fds w.system real under below watched)
    admit-Covers sock a junk id buf (some k) s w real watched under below =
        deref-Ending Covers (get_elem? s.clients_container.items k) _ w (λ c e.
          if-Ending Covers (c.online == 0) _ _ w
            (λ offline.
              bind-Ending (λ d v. UnderOr sock s.fdmax v.system) Covers _ _
                (empty_queue-Steady os (UnderOr sock s.fdmax) (UnderOr-Stable sock s.fdmax)
                  (record c { sock = sock; online = 1 }) _ under)
                (λ d v under'.
                  Cover-grown s.fdmax sock s.read_fds v.system real under' below watched))
            (λ online. refuse-Covers sock junk c s w real watched under))

    pub manage_connection_request-Covers :
        (tcp : ℤ) (junk : List ℕ) (s : Server) (w : World S)
        → Covers s w
        → Ending Covers (manage_connection_request os tcp junk s w)
    unfolding manage_connection_request accept
    manage_connection_request-Covers tcp junk s w h =
        let sock = (os.accept w.system tcp).ret in
        let below = accept-below s.fdmax tcp w.system h.real h.open_below in
        let under : UnderOr sock s.fdmax (os.accept w.system tcp).next = λ x o.
          elim (law.accept_opens w.system tcp x o) [
            | inl e ↦ inl e
            | inr o' ↦ inr (h.open_below x o')
          ] in
        let stable = UnderOr-Stable sock s.fdmax in
        bind-Ending (λ u v. UnderOr sock s.fdmax v.system) Covers _ _
          (die_if-Steady os (UnderOr sock s.fdmax) stable (failed sock) _ under)
          (λ u w2 under2.
            bind-Ending (λ b v. UnderOr sock s.fdmax v.system) Covers _ _
              (request_id-Steady os (UnderOr sock s.fdmax) stable sock junk s.buf w2 under2)
              (λ buf w3 under3.
                admit-Covers sock _ junk (take 10 (drop 52 buf)) buf _ s w3 h.real h.watched_below
                  under3 below))
