-- ===== src/Server/CoveredCommands.antt =====
-- `fdmax` against the descriptors that are open or watched: the commands of a client.
use client_server_protocoale.Common.{
  ℕ, zero, suc, ◌≡◌, ◌⊎◌, inl, inr, refl, ap, sym, ◌∙◌, subst, some, Bool, true, false, List, [],
  ◌∷◌, ℤ, pos, negsuc, minus_one, dec, eqz, eqz_iff, ltz, arith, ◌==◌, get_elem?, if◌then◌else◌,
  Bool-cases, Option-cases,
}
use client_server_protocoale.Server.World.{Os, World, Act, and_then, deref}
use client_server_protocoale.Server.State.{ClientStructure, Server, fd_clr, get_client_by_sock}
use client_server_protocoale.Server.Command.{
  ClientToServerHdr, subscribe, the_client, exit_client, dispatch,
}
use client_server_protocoale.Server.Main.{Indeterminate}
use client_server_protocoale.Server.Descriptors.{
  Descriptors, Ending, deref-Ending, assoc-Ending, if-Ending,
}
use client_server_protocoale.Server.Covered.{ltz-dec, Under, Cover}

-- The client that is found has the socket that was looked for.
get_client_by_sock-sock :
    (cs : List ClientStructure) (i : ℤ) (k : ℕ) (c : ClientStructure)
    → get_client_by_sock cs i ≡ some k
    → get_elem? cs k ≡ some c
    → c.sock ≡ i
unfolding get_client_by_sock
get_client_by_sock-sock [] i k c e e' = absurd (cc)
get_client_by_sock-sock (b ∷ cs) i zero c e e' = elim (Bool-cases (eqz b.sock i)) [
  | inl hit ↦
      let same : b ≡ c = cc in
      ap (λ (d : ClientStructure). d.sock) (sym same) ∙ (eqz_iff b.sock i).0 hit
  | inr miss ↦ elim (Option-cases (get_client_by_sock cs i)) [
    | inl none_there ↦ absurd (ground arith)
    | inr (n, found) ↦ absurd (ground arith)
  ]
]
get_client_by_sock-sock (b ∷ cs) i (suc k) c e e' = elim (Bool-cases (eqz b.sock i)) [
  | inl hit ↦ absurd (ground arith)
  | inr miss ↦ elim (Option-cases (get_client_by_sock cs i)) [
    | inl none_there ↦ absurd (ground arith)
    | inr (n, found) ↦
        let same : n ≡ k = ground arith in
        get_client_by_sock-sock cs i k c (found ∙ ap some same) e'
  ]
]

dec-real : (z : ℤ) → ltz z (pos 0) ≡ false → eqz z (pos 0) ≡ false → ltz (dec z) (pos 0) ≡ false
dec-real (pos zero) h ne = absurd (cc)
dec-real (pos (suc n)) h ne = ground arith
dec-real (negsuc n) h ne = absurd (cc)

module _ {S : Type 0} (opened : S → ℤ → Bool) (os : Os S) (law : Descriptors os opened)
    (any : Indeterminate) (tcp udp : ℤ) where
  -- What a command returns: nothing is to be closed and `fdmax` and the read set are as before, or
  -- the socket is to be closed, and they do without it.
  abbrev pub Returned : ℤ → Server → ℤ × Server → Type 0
  Returned i s (to_close, t) =
      ((to_close ≡ minus_one) × (t.fdmax ≡ s.fdmax) × (t.read_fds ≡ s.read_fds))
      ⊎ ((to_close ≡ i)
          × (t.fdmax ≡ (if eqz s.fdmax i then dec s.fdmax else s.fdmax))
          × (t.read_fds ≡ fd_clr i s.read_fds))

  abbrev pub After : ℤ → Server → ℤ × Server → World S → Type 0
  After i s r w = Returned i s r × Under opened s.fdmax w.system

  with_client :
      (s : Server) (i : ℤ) (k : ℕ × ClientStructure → Act S (ℤ × Server)) (w : World S)
      → ((n : ℕ) (c : ClientStructure) → c.sock ≡ i → Ending (After i s) (k (n, c) w))
      → Ending (After i s) (and_then (the_client i s w) k)
  unfolding the_client
  with_client s i k w h =
      assoc-Ending (After i s) (deref (get_client_by_sock s.clients_container.items i) w) _ k (
        deref-Ending (After i s) (get_client_by_sock s.clients_container.items i) _ w (λ n known.
          assoc-Ending (After i s) (deref (get_elem? s.clients_container.items n) w) _ k (
            deref-Ending (After i s) (get_elem? s.clients_container.items n) _ w (λ c found.
              h n c (get_client_by_sock-sock s.clients_container.items i n c known found)))))

  pub dispatch-After :
      (i : ℤ) (hdr : ClientToServerHdr) (s : Server) (w : World S)
      → Under opened s.fdmax w.system
      → Ending (After i s) (dispatch i hdr s w)
  unfolding dispatch exit_client
  dispatch-After i hdr s w under =
      if-Ending (After i s) (hdr.type == 0) _ _ w
        (λ e. with_client s i _ w (λ k c at.
          deref-Ending (After i s) (subscribe hdr.topic hdr.sf c.subscribed_topics) _ w
            (λ v e'. (inl (refl, refl, refl), under))))
        (λ e.
          if-Ending (After i s) (hdr.type == 1) _ _ w
            (λ e. with_client s i _ w (λ k c at. (inl (refl, refl, refl), under)))
            (λ e.
              if-Ending (After i s) (hdr.type == 3) _ _ w
                (λ e. with_client s i _ w (λ k c at. (
                  inr (
                    refl,
                    ap (λ (y : ℤ). if eqz s.fdmax y then dec s.fdmax else s.fdmax) at,
                    ap (λ (y : ℤ). fd_clr y s.read_fds) at,
                  ),
                  under,
                )))
                (λ e. (inl (refl, refl, refl), under))))

  -- A socket is done without: what is open behind it is none above `fdmax`, nor the socket, unless
  -- that is no descriptor at all.
  pub Cover-without :
      (i z : ℤ) (fds : ℤ → Bool) (st : S)
      → eqz i (pos 0) ≡ false
      → ltz z (pos 0) ≡ false
      → Under opened z st
      → ((x : ℤ) → opened st x ≡ true → (eqz x i ≡ false) ⊎ (ltz i (pos 0) ≡ true))
      → ((x : ℤ) → fds x ≡ true → ltz z x ≡ false)
      → Cover opened (if eqz z i then dec z else z) (fd_clr i fds) st
  Cover-without i z fds st nonzero real under other watched = elim (Bool-cases (eqz z i)) [
    | inl top ↦
        let same : i ≡ z = sym ((eqz_iff z i).0 top) in
        let nonzero' : eqz z (pos 0) ≡ false = subst (λ y. eqz y (pos 0) ≡ false) same nonzero in
        rw top (record {
          real = dec-real z real nonzero';
          open_below = λ x o. elim (other x o) [
            | inl ne ↦ ltz-dec z x (under x o) (subst (λ y. eqz x y ≡ false) same ne)
            | inr bad ↦
                let bad' : ltz z (pos 0) ≡ true = subst (λ y. ltz y (pos 0) ≡ true) same bad in
                absurd (cc)
          ];
          watched_below = λ x h. elim (Bool-cases (eqz x i)) [
            | inl here ↦ absurd (ground arith)
            | inr ne ↦ ltz-dec z x (watched x (ground arith)) (subst (λ y. eqz x y ≡ false) same ne)
          ];
        })
    | inr below ↦ rw below (record {
      real = real;
      open_below = under;
      watched_below = λ x h. elim (Bool-cases (eqz x i)) [
        | inl here ↦ absurd (ground arith)
        | inr ne ↦ watched x (ground arith)
      ];
    })
  ]
