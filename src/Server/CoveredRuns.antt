-- ===== src/Server/CoveredRuns.antt =====
-- `fdmax` against the descriptors that are open or watched, along a run.
use client_server_protocoale.Common.{
  ◌≡◌, inl, inr, ap, sym, ◌∙◌, subst, Bool, true, false, ℤ, pos, negsuc, minus_one, eqz, eqz_iff,
  ltz, pos_part, arith, Bool-cases,
}
use client_server_protocoale.CString.{strncmp_eq, zeros, overlay}
use client_server_protocoale.Wire.Message.{build_msg, build_sent_buffer}
use client_server_protocoale.Server.World.{Os, World, failed, close, recv, read, recvfrom}
use client_server_protocoale.Server.State.{Server}
use client_server_protocoale.Server.Command.{read_client_hdr, manage_command_from_client}
use client_server_protocoale.Server.Main.{
  Indeterminate, exit_command, handle_datagram, handle_stdin, handle_client, handle, start,
  packet_size,
}
use client_server_protocoale.Server.Descriptors.{
  Descriptors, Ending, bind-Ending, deref-Ending, if-Ending, die_if-Steady, send-Steady,
  close_all_sockets-Steady,
}
use client_server_protocoale.Server.Steady.{send_data-Steady}
use client_server_protocoale.Server.Covered.{
  Under, Cover, Under-Stable, Covers, manage_connection_request-Covers,
}
use client_server_protocoale.Server.CoveredCommands.{Returned, After, dispatch-After, Cover-without}
use client_server_protocoale.Server.Reach.{Reach, begin, next}

ltz_self : (z : ℤ) → ltz z z ≡ false
ltz_self (pos n) = ground arith
ltz_self (negsuc n) = ground arith

module _ {S : Type 0} (opened : S → ℤ → Bool) (os : Os S) (law : Descriptors os opened)
    (any : Indeterminate) (tcp udp : ℤ) where
  abbrev Kept : Server → World S → Type 0
  Kept s w = Covers opened os law s w

  abbrev Both : Bool × Server → World S → Type 0
  Both r w = Kept r.1 w

  manage_command_from_client-After :
      (i : ℤ) (s : Server) (w : World S)
      → Under opened s.fdmax w.system
      → Ending (After opened os law any tcp udp i s) (manage_command_from_client os i s w)
  unfolding manage_command_from_client recv
  manage_command_from_client-After i s w under =
      let buf = overlay (os.recv w.system i 1551).bytes (zeros 1551) in
      dispatch-After opened os law any tcp udp i (read_client_hdr buf) (record s { buf = buf }) _
        (λ x o. under x (law.recv_opens w.system i 1551 x o))

  Cover-same :
      (t : Server) (z : ℤ) (fds : ℤ → Bool) (st : S)
      → t.fdmax ≡ z
      → t.read_fds ≡ fds
      → Cover opened z fds st
      → Cover opened t.fdmax t.read_fds st
  Cover-same t z fds st e f c =
      subst (λ y. Cover opened y t.read_fds st) (sym e) (subst (λ g. Cover opened z g st) (sym f) c)

  -- The end of a command: the socket is closed where it is to be.
  close-Kept :
      (i : ℤ) (s t : Server) (to_close : ℤ) (w : World S)
      → eqz i (pos 0) ≡ false
      → ltz s.fdmax (pos 0) ≡ false
      → ((x : ℤ) → s.read_fds x ≡ true → ltz s.fdmax x ≡ false)
      → Returned opened os law any tcp udp i s (to_close, t)
      → Under opened s.fdmax w.system
      → eqz to_close minus_one ≡ false
      → Kept t (record { system = os.close w.system to_close; log = w.log })
  close-Kept i s t to_close w nonzero real watched (inl (e, f, r)) under open_socket =
      let bad : eqz to_close minus_one ≡ true = (eqz_iff to_close minus_one).1 e in absurd (cc)
  close-Kept i s t to_close w nonzero real watched (inr (e, f, r)) under open_socket =
      Cover-same t _ _ _ f r (
        Cover-without opened os law any tcp udp i s.fdmax s.read_fds _ nonzero real
          (λ x o. under x (law.close_opens w.system to_close x o).0)
          (λ x o. inl (subst (λ y. eqz x y ≡ false) e (law.close_opens w.system to_close x o).1))
          watched)

  stay-Kept :
      (i : ℤ) (s t : Server) (to_close : ℤ) (w : World S)
      → eqz i (pos 0) ≡ false
      → ltz s.fdmax (pos 0) ≡ false
      → ((x : ℤ) → s.read_fds x ≡ true → ltz s.fdmax x ≡ false)
      → Returned opened os law any tcp udp i s (to_close, t)
      → Under opened s.fdmax w.system
      → eqz to_close minus_one ≡ true
      → Kept t w
  stay-Kept i s t to_close w nonzero real watched (inl (e, f, r)) under none_to_close =
      Cover-same t _ _ _ f r (record { real = real; open_below = under; watched_below = watched })
  stay-Kept i s t to_close w nonzero real watched (inr (e, f, r)) under none_to_close =
      let no_socket : i ≡ minus_one = sym e ∙ (eqz_iff to_close minus_one).0 none_to_close in
      Cover-same t _ _ _ f r (
        Cover-without opened os law any tcp udp i s.fdmax s.read_fds _ nonzero real under
          (λ x o. inr (ap (λ y. ltz y (pos 0)) no_socket)) watched)

  handle_client-Kept :
      (i : ℤ) (s : Server) (w : World S)
      → eqz i (pos 0) ≡ false
      → Kept s w
      → Ending Kept (handle_client os any tcp udp i s w)
  unfolding handle_client close
  handle_client-Kept i s w nonzero h =
      let J = Under opened s.fdmax in
      let stable = Under-Stable opened os law s.fdmax in
      bind-Ending (After opened os law any tcp udp i s) Kept _ _
        (manage_command_from_client-After i s w h.open_below)
        (λ (to_close, t) w1 (returned, under).
          bind-Ending (λ u v. J v.system) Kept _ _ (send-Steady os J stable i _ w1 under)
            (λ ret w2 under2.
              bind-Ending (λ u v. J v.system) Kept _ _
                (die_if-Steady os J stable (failed ret) w2 under2)
                (λ u w3 under3.
                  if-Ending Kept (eqz to_close minus_one) _ _ w3
                    (λ e.
                      stay-Kept i s t to_close w3 nonzero h.real h.watched_below returned under3 e)
                    (λ e.
                      close-Kept i s t to_close w3 nonzero h.real h.watched_below returned under3
                        e))))

  -- Less is open, and `fdmax` and the read set are as before.
  with_open :
      (s : Server) (w w' : World S)
      → Kept s w
      → Under opened s.fdmax w'.system
      → Cover opened s.fdmax s.read_fds w'.system
  with_open s w w' h under = record {
    real = h.real;
    open_below = under;
    watched_below = h.watched_below;
  }

  handle_datagram-Kept :
      (s : Server) (w : World S) → Kept s w → Ending Kept (handle_datagram os any tcp udp s w)
  unfolding handle_datagram recvfrom
  handle_datagram-Kept s w h =
      let J = Under opened s.fdmax in
      let stable = Under-Stable opened os law s.fdmax in
      let r = os.recvfrom w.system udp 1551 in
      bind-Ending (λ u v. J v.system) Kept _ _
        (die_if-Steady os J stable (ltz r.ret (pos 1)) _
          (λ x o. h.open_below x (law.recvfrom_opens w.system udp 1551 x o)))
        (λ u w1 under.
          deref-Ending Kept (build_msg (overlay r.bytes (zeros 1551)) (pos_part r.ret)) _ w1
            (λ msg e.
              deref-Ending Kept (build_sent_buffer msg any.behind r.from any.padding) _ w1
                (λ buf e'.
                  bind-Ending (λ v w2. J w2.system) Kept _ _
                    (send_data-Steady os J stable buf msg.topic s.clients_container
                      (packet_size msg.content) w1 under)
                    (λ v w2 under2. with_open s w w2 h under2))))

  handle_stdin-Kept :
      (s : Server) (w : World S) → Kept s w → Ending Both (handle_stdin os any tcp udp s w)
  unfolding handle_stdin read
  handle_stdin-Kept s w h =
      let J = Under opened s.fdmax in
      let stable = Under-Stable opened os law s.fdmax in
      let r = os.read w.system (pos 0) 1551 in
      bind-Ending (λ u v. J v.system) Both _ _
        (die_if-Steady os J stable (failed r.ret) _
          (λ x o. h.open_below x (law.read_opens w.system (pos 0) 1551 x o)))
        (λ u w1 under.
          if-Ending Both (strncmp_eq 4 (overlay r.bytes (zeros 1551)) exit_command) _ _ w1
            (λ e.
              bind-Ending (λ v w2. J w2.system) Both _ _
                (close_all_sockets-Steady os J stable any.junk s.clients_container w1 under)
                (λ v w2 under2. with_open s w w2 h under2))
            (λ e. with_open s w w1 h under))

  handle-Kept :
      (i : ℤ) (s : Server) (w : World S) → Kept s w → Ending Both (handle os any tcp udp i s w)
  unfolding handle
  handle-Kept i s w h =
      if-Ending Both (eqz i tcp) _ _ w
        (λ e.
          bind-Ending Kept Both _ _
            (manage_connection_request-Covers opened os law tcp any.junk s w h) (λ t v c. c))
        (λ e.
          if-Ending Both (eqz i udp) _ _ w
            (λ e. bind-Ending Kept Both _ _ (handle_datagram-Kept s w h) (λ t v c. c))
            (λ e.
              if-Ending Both (eqz i (pos 0)) _ _ w (λ e. handle_stdin-Kept s w h)
                (λ e. bind-Ending Kept Both _ _ (handle_client-Kept i s w e h) (λ t v c. c))))

  -- The world that a run begins with.
  abbrev pub origin : {s : Server} {w : World S} → Reach os any tcp udp s w → World S
  origin (begin w) = w
  origin (next i r e) = origin r

  started :
      (st : S)
      → ltz udp (pos 0) ≡ false
      → ltz udp tcp ≡ false
      → Under opened udp st
      → Cover opened (start tcp udp).fdmax (start tcp udp).read_fds st
  unfolding start
  started st real after under = record { real = real; open_below = under; watched_below = below }
    where
      at : (x y : ℤ) → eqz x y ≡ true → ltz udp y ≡ false → ltz udp x ≡ false
      at x y e h = subst (λ t. ltz udp t ≡ false) (sym ((eqz_iff x y).0 e)) h

      below : (x : ℤ) → (start tcp udp).read_fds x ≡ true → ltz udp x ≡ false
      below x h = elim (Bool-cases (eqz x udp)) [
        | inl e ↦ at x udp e (ltz_self udp)
        | inr e ↦ elim (Bool-cases (eqz x tcp)) [
          | inl e' ↦ at x tcp e' after
          | inr e' ↦ elim (Bool-cases (eqz x (pos 0))) [
            | inl e'' ↦ at x (pos 0) e'' real
            | inr e'' ↦ absurd (ground arith)
          ]
        ]
      ]

  -- Where only `accept` opens descriptors, and each time the lowest that is free, and a run begins
  -- with none open above the UDP socket, which is not negative and not below the listening one: in
  -- every state that the run can reach by calls of `handle`, whatever else the system answers, no
  -- descriptor above `fdmax` is open, and none above it is in the read set, so that `select`, which
  -- is called with `fdmax + 1`, looks at every descriptor that is watched.
  pub Reach-Cover :
      {s : Server} {w : World S} (r : Reach os any tcp udp s w)
      → ltz udp (pos 0) ≡ false
      → ltz udp tcp ≡ false
      → Under opened udp (origin r).system
      → Cover opened s.fdmax s.read_fds w.system
  Reach-Cover (begin w) real after under = started w.system real after under
  Reach-Cover (next {s} {w} i r e) real after under =
      subst (Ending Both) e (handle-Kept i s w (Reach-Cover r real after under))
