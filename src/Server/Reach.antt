-- ===== src/Server/Reach.antt =====
-- Runs of the server: the states between two calls of `handle`, whatever arrives and whatever the
-- system answers, and how an invariant of the functions is one of the runs.
use client_server_protocoale.Common.{
  ℕ, zero, suc, ◌+◌, ◌≡◌, subst, Bool, List, ℤ, pos, minus_one, eqz, ltz, inc, pos_part,
}
use client_server_protocoale.CString.{strncmp_eq, zeros, overlay}
use client_server_protocoale.Server.World.{
  Os, World, done, die_if, send, read, select, close, failed,
}
use client_server_protocoale.Server.State.{Server}
use client_server_protocoale.Server.Connect.{manage_connection_request, close_all_sockets}
use client_server_protocoale.Server.Command.{manage_command_from_client}
use client_server_protocoale.Server.Main.{
  Indeterminate, exit_command, handle_datagram, handle_stdin, handle_client, handle, pass, round,
  main_loop, start,
}
use client_server_protocoale.Server.After.{After, bind, bind_any, if_both, elim_both}

module _ {S : Type 0} (os : Os S) (any : Indeterminate) (tcp udp : ℤ) where
  pub data Reach : Server → World S → Type 0 where
    begin : (w : World S) → Reach (start tcp udp) w
    next :
        {s t : Server} {w w' : World S} {end : Bool} (i : ℤ)
        → Reach s w
        → handle os any tcp udp i s w ≡ done (end, t) w'
        → Reach t w'

  -- What each function that changes the server keeps.
  pub record Preserved (I : Server → Type 0) : Type 0 where
    pub request :
        (s : Server) (w : World S) → I s → After I (manage_connection_request os tcp any.junk s w)
    pub datagram : (s : Server) (w : World S) → I s → After I (handle_datagram os any tcp udp s w)
    pub command :
        (i : ℤ) (s : Server) (w : World S)
        → I s
        → After (λ r. I r.1) (manage_command_from_client os i s w)
    pub buffer : (s : Server) (b : List ℕ) → I s → I (record s { buf = b })

  module _ (I : Server → Type 0) (keeps : Preserved I) where
    abbrev And : Bool × Server → Type 0
    And r = I r.1

    handle_client-keeps :
        (i : ℤ) (s : Server) (w : World S) → I s → After I (handle_client os any tcp udp i s w)
    unfolding handle_client
    handle_client-keeps i s w h =
        bind (λ r. I r.1) I _ _ (keeps.command i s w h)
          (λ (to_close, t) w1 kept. bind_any I (send os i _ w1) _ (λ ret w2.
            bind_any I (die_if (failed ret) w2) _ (λ u w3.
              if_both I (eqz to_close minus_one) _ _ w3 kept
                (bind_any I (close os to_close w3) _ (λ u w4. kept)))))

    handle_stdin-keeps :
        (s : Server) (w : World S) → I s → After And (handle_stdin os any tcp udp s w)
    unfolding handle_stdin
    handle_stdin-keeps s w h = bind_any And (read os (pos 0) 1551 w) _ (λ (ret, bytes) w1.
        bind_any And (die_if (failed ret) w1) _ (λ u w2.
          let typed = overlay bytes (zeros 1551) in
          if_both And (strncmp_eq 4 typed exit_command) _ _ w2
            (bind_any And (close_all_sockets os any.junk s.clients_container w2) _
              (λ u w3. keeps.buffer s typed h))
            (keeps.buffer s typed h)))

    pub handle-keeps :
        (i : ℤ) (s : Server) (w : World S) → I s → After And (handle os any tcp udp i s w)
    unfolding handle
    handle-keeps i s w h =
        if_both And (eqz i tcp) _ _ w (bind I And _ _ (keeps.request s w h) (λ t w' c. c)) (
          if_both And (eqz i udp) _ _ w (bind I And _ _ (keeps.datagram s w h) (λ t w' c. c)) (
            if_both And (eqz i (pos 0)) _ _ w (handle_stdin-keeps s w h)
              (bind I And _ _ (handle_client-keeps i s w h) (λ t w' c. c))))

    pass-keeps :
        (k : ℕ) (i : ℤ) (ready : ℤ → Bool) (s : Server) (w : World S)
        → I s
        → After And (pass os any tcp udp k i ready s w)
    unfolding pass
    pass-keeps zero i ready s w h = tt
    pass-keeps (suc k) i ready s w h = elim_both And (ltz s.fdmax i) _ _ w h (
        elim_both And (ready i) _ _ w
          (bind And And _ _ (handle-keeps i s w h)
            (λ (end, t) w' v. elim_both And end _ _ w' v (pass-keeps k (inc i) ready t w' v)))
          (pass-keeps k (inc i) ready s w h))

    round-keeps : (s : Server) (w : World S) → I s → After And (round os any tcp udp s w)
    unfolding round
    round-keeps s w h = bind_any And (select os (inc s.fdmax) s.read_fds w) _ (λ (ret, ready) w1.
        bind_any And (die_if (ltz ret (pos 0)) w1) _
          (λ v w2. pass-keeps (pos_part s.fdmax + 3) (pos 0) ready s w2 h))

    pub main_loop-keeps :
        (k : ℕ) (s : Server) (w : World S) → I s → After I (main_loop os any tcp udp k s w)
    unfolding main_loop
    main_loop-keeps zero s w h = tt
    main_loop-keeps (suc k) s w h = bind And I _ _ (round-keeps s w h) (λ (end, t) w1 v.
        elim_both I end _ _ w1
          (bind_any I (close os udp w1) _ (λ x w2. bind_any I (close os tcp w2) _ (λ y w3. v)))
          (main_loop-keeps k t w1 v))

    pub Reach-keeps : I (start tcp udp) → {s : Server} {w : World S} → Reach s w → I s
    Reach-keeps first (begin w) = first
    Reach-keeps first (next {s} {w} i r e) =
        subst (After And) e (handle-keeps i s w (Reach-keeps first r))
