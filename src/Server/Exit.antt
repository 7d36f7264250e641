-- ===== src/Server/Exit.antt =====
-- The exit command on the server's standard input.
use client_server_protocoale.Common.{
  ℕ, suc, ◌+◌, ◌≡◌, ap, ◌∙◌, true, false, List, [], ◌∷◌, ◌++◌, ℤ, pos, inc, eqz, ltz, pos_part,
  arith, append_assoc, append-nil,
}
use client_server_protocoale.CString.{strncmp_eq, zeros, overlay}
use client_server_protocoale.Server.World.{
  Os, World, Event, done, typed, closed, and_then, pure, read, select, close, failed,
}
use client_server_protocoale.Server.State.{Server}
use client_server_protocoale.Server.Main.{
  Indeterminate, exit_command, handle_stdin, handle, pass, round, main_loop,
}
use client_server_protocoale.Server.Exchange.{Reliable, packets, packets-append}
use client_server_protocoale.Server.Deliver.{Ends}
use client_server_protocoale.Server.Shutdown.{farewells, close_all_sockets-Ends}

module _ {S : Type 0} (os : Os S) (ok : Reliable os) (any : Indeterminate) (tcp udp : ℤ)
    (s : Server) (w : World S) (line : List ℕ) where
  abbrev pub polled : S
  polled = (os.select w.system (inc s.fdmax) s.read_fds).next

  -- `select` reports the standard input, and the line there begins with "exit".
  pub record Typed : Type 0 where
    pub selects : ltz (os.select w.system (inc s.fdmax) s.read_fds).ret (pos 0) ≡ false
    pub ready : (os.select w.system (inc s.fdmax) s.read_fds).ready (pos 0) ≡ true
    pub reads : failed (os.read polled (pos 0) 1551).ret ≡ false
    pub stores : (os.read polled (pos 0) 1551).bytes ≡ line
    pub counts : ltz s.fdmax (pos 0) ≡ false
    pub is_exit : strncmp_eq 4 (overlay line (zeros 1551)) exit_command ≡ true

  -- What the server keeps.
  abbrev pub kept : Server
  kept = record s { buf = overlay line (zeros 1551) }

  -- Behind `select`.
  abbrev ready_world : World S
  ready_world = record { system = polled; log = w.log }

  handle_stdin-exit :
      Typed
      → Ends
          (handle_stdin os any tcp udp s ready_world)
          (true, kept)
          w
          (farewells any.junk s.clients_container.items)
  unfolding handle_stdin read
  handle_stdin-exit t =
      let r = os.read polled (pos 0) 1551 in
      let v : World S = record { system = r.next; log = w.log ++ typed line r.ret ∷ [] } in
      let (v', run, log) = close_all_sockets-Ends os any.junk ok s.clients_container v in
      (
        v',
        rw (t.reads, t.stores, t.is_exit) (ap (λ o. and_then o (λ u. pure (true, kept))) run),
        log
            ∙ ap (λ p. p ++ farewells any.junk s.clients_container.items)
                (packets-append w.log _ ∙ append-nil _),
      )

  module _ (other : eqz (pos 0) tcp ≡ false) (other' : eqz (pos 0) udp ≡ false) where
    handle-exit :
        Typed
        → Ends
            (handle os any tcp udp (pos 0) s ready_world)
            (true, kept)
            w
            (farewells any.junk s.clients_container.items)
    unfolding handle
    handle-exit t = rw (other, other') (handle_stdin-exit t)

    pass-exit :
        (k : ℕ)
        → Typed
        → Ends
            (pass os any tcp udp
              (suc k)
              (pos 0)
              (os.select w.system (inc s.fdmax) s.read_fds).ready
              s
              ready_world)
            (true, kept)
            w
            (farewells any.junk s.clients_container.items)
    unfolding pass
    pass-exit k t = let (v, run, log) = handle-exit t in (v, rw (pass, t.counts, t.ready, run), log)

    round-exit :
        Typed
        → Ends
            (round os any tcp udp s w)
            (true, kept)
            w
            (farewells any.junk s.clients_container.items)
    unfolding round select
    round-exit t =
        let enough : pos_part s.fdmax + 3 ≡ suc (pos_part s.fdmax + 2) = omega arith in
        let (v, run, log) = pass-exit (pos_part s.fdmax + 2) t in
        (v, rw (t.selects, enough, run), log)

    -- Where `select` reports the standard input, the line there begins with "exit", no call fails
    -- and every client answers with an ACK, the server's loop ends in this round, whatever else is
    -- ready: it has sent each client a packet of type 4, in order, and nothing else, and the last
    -- things done are to close the UDP and the listening socket, which are not descriptor 0.
    pub main_loop-exit :
        (k : ℕ)
        → Typed
        → (events : List Event) × (v : World S) × (main_loop os any tcp udp (suc k) s w
            ≡ done kept v)
          × (packets v.log ≡ packets w.log ++ farewells any.junk s.clients_container.items)
          × (v.log ≡ events ++ closed udp ∷ closed tcp ∷ [])
    unfolding main_loop close
    main_loop-exit k t =
        let (v, run, log) = round-exit t in
        (
          v.log,
          record {
            system = os.close (os.close v.system udp) tcp;
            log = (v.log ++ closed udp ∷ []) ++ closed tcp ∷ [];
          },
          rw run,
          packets-append (v.log ++ closed udp ∷ []) _
              ∙ append-nil _
              ∙ packets-append v.log _
              ∙ append-nil _
              ∙ log,
          append_assoc v.log (closed udp ∷ []) (closed tcp ∷ []),
        )
