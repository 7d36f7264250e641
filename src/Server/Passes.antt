-- ===== src/Server/Passes.antt =====
-- server.c: the loop over the descriptors and the fuel that it is given. `fdmax` is raised where
-- the listening socket is handled, which comes once in a pass.
use client_server_protocoale.Common.{
  ℕ, zero, suc, ◌+◌, ◌≤◌, ◌<◌, ◌≡◌, Bool, false, ℤ, pos, negsuc, minus_one, inc, eqz, ltz, pos_part,
  arith, leb, if◌then◌else◌, inl, inr, Bool-cases,
}
use client_server_protocoale.CString.{strncmp_eq, zeros, overlay}
use client_server_protocoale.Wire.Message.{build_msg, build_sent_buffer}
use client_server_protocoale.Server.World.{Os, World, failed}
use client_server_protocoale.Server.State.{Server}
use client_server_protocoale.Server.Main.{
  Indeterminate, exit_command, handle_datagram, handle_stdin, handle_client, handle, pass, round,
}
use client_server_protocoale.Server.Within.{
  Within, Settles, bind-Within, bind-Settles, die_if-Settles, send-Settles, close-Settles,
  recvfrom-Settles, read-Settles, select-Settles, deref-Within, if-Within, elim-Within,
}
use client_server_protocoale.Server.Settled.{send_data-Settles}
use client_server_protocoale.Server.Bounded.{
  Above, manage_connection_request-Above, manage_command_from_client-Kept,
  close_all_sockets-Settles,
}

-- Whether the listening socket is still to come, behind `n` descriptors.
late : ℤ → ℕ → ℕ
late (pos t) n = if leb n t then 1 else 0
late (negsuc t) n = 0

late-le-one : (tcp : ℤ) (n : ℕ) → late tcp n ≤ 1
unfolding late
late-le-one (pos t) n = ground arith
late-le-one (negsuc t) n = omega arith

-- How much `fdmax` may grow at a descriptor.
abbrev growth : ℤ → ℤ → ℕ
growth i tcp = if eqz i tcp then 1 else 0

late-growth : (tcp : ℤ) (n : ℕ) → late tcp (n + 1) + growth (pos n) tcp ≤ late tcp n
unfolding late
late-growth (pos t) n = ground arith
late-growth (negsuc t) n = omega arith

below_fdmax : (z : ℤ) (n : ℕ) → ltz z (pos n) ≡ false → n ≤ pos_part z
below_fdmax (pos f) n h = ground arith
below_fdmax (negsuc f) n h = absurd (cc)

module _ {S : Type 0} (os : Os S) (any : Indeterminate) (tcp udp : ℤ) where
  abbrev Grown : ℕ → Server → Bool × Server → Type 0
  Grown n s r = Above n s r.1

  handle_datagram-Above :
      (s : Server) (w : World S) → Within (Above 0 s) (handle_datagram os any tcp udp s w)
  unfolding handle_datagram
  handle_datagram-Above s w =
      bind-Settles (Above 0 s) _ _ (recvfrom-Settles os udp 1551 w) (λ (ret, bytes, from) w1.
        bind-Settles (Above 0 s) _ _ (die_if-Settles (ltz ret (pos 1)) w1) (λ u w2.
          deref-Within (Above 0 s) (build_msg (overlay bytes (zeros 1551)) (pos_part ret)) _ w2
            (λ msg.
              deref-Within (Above 0 s) (build_sent_buffer msg any.behind from any.padding) _ w2
                (λ buf.
                  bind-Settles (Above 0 s) _ _
                    (send_data-Settles os buf msg.topic s.clients_container _ w2)
                    (λ v w3. omega arith)))))

  handle_stdin-Above :
      (s : Server) (w : World S) → Within (Grown 0 s) (handle_stdin os any tcp udp s w)
  unfolding handle_stdin
  handle_stdin-Above s w =
      bind-Settles (Grown 0 s) _ _ (read-Settles os (pos 0) 1551 w) (λ (ret, bytes) w1.
        bind-Settles (Grown 0 s) _ _ (die_if-Settles (failed ret) w1) (λ u w2.
          if-Within (Grown 0 s) (strncmp_eq 4 (overlay bytes (zeros 1551)) exit_command) _ _ w2
            (bind-Settles (Grown 0 s) _ _
              (close_all_sockets-Settles os any.junk s.clients_container w2) (λ v w3. omega arith))
            (omega arith)))

  handle_client-Above :
      (i : ℤ) (s : Server) (w : World S) → Within (Above 0 s) (handle_client os any tcp udp i s w)
  unfolding handle_client
  handle_client-Above i s w =
      bind-Within (Grown' s) (Above 0 s) _ _ (manage_command_from_client-Kept os i s w)
        (λ (to_close, t) w1 kept. bind-Settles (Above 0 s) _ _ (send-Settles os i _ w1) (λ ret w2.
          bind-Settles (Above 0 s) _ _ (die_if-Settles (failed ret) w2) (λ u w3.
            if-Within (Above 0 s) (eqz to_close minus_one) _ _ w3 kept
              (bind-Settles (Above 0 s) _ _ (close-Settles os to_close w3) (λ v w4. kept)))))
    where
      Grown' : Server → ℤ × Server → Type 0
      Grown' s r = Above 0 s r.1

  handle-Above :
      (i : ℤ) (s : Server) (w : World S)
      → Within (Grown (growth i tcp) s) (handle os any tcp udp i s w)
  unfolding handle
  handle-Above i s w = elim (Bool-cases (eqz i tcp)) [
    | inl listening ↦ rw listening (
        bind-Within (Above 1 s) (Grown 1 s) _ _
          (manage_connection_request-Above os tcp any.junk s w) (λ t w' h. h))
    | inr other ↦ rw other (
        if-Within (Grown 0 s) (eqz i udp) _ _ w
          (bind-Within (Above 0 s) (Grown 0 s) _ _ (handle_datagram-Above s w) (λ t w' h. h))
          (if-Within (Grown 0 s) (eqz i (pos 0)) _ _ w (handle_stdin-Above s w)
            (bind-Within (Above 0 s) (Grown 0 s) _ _ (handle_client-Above i s w) (λ t w' h. h))))
  ]

  abbrev Anyhow : Bool × Server → Type 0
  Anyhow r = Unit {0}

  -- From descriptor `n` on, with `k` rounds.
  pass-Settles :
      (k n : ℕ) (ready : ℤ → Bool) (s : Server) (w : World S)
      → 0 < k
      → pos_part s.fdmax + 2 + late tcp n ≤ k + n
      → Settles (pass os any tcp udp k (pos n) ready s w)
  unfolding pass
  pass-Settles zero n ready s w some_left room = absurd (omega arith)
  pass-Settles (suc k) n ready s w some_left room = elim (Bool-cases (ltz s.fdmax (pos n))) [
    | inl over ↦ rw (pass, over) tt
    | inr more ↦
        let here : n ≤ pos_part s.fdmax = below_fdmax s.fdmax n more in
        let step = late-growth tcp n in
        elim (Bool-cases (ready (pos n))) [
          | inl set ↦
              rw (pass, more, set)
                (bind-Within (Grown (growth (pos n) tcp) s) Anyhow _ _ (handle-Above (pos n) s w)
                  (λ (end, t) w' grown.
                    elim-Within Anyhow end _ _ w' tt
                      (pass-Settles k (n + 1) ready t w' (omega arith) (omega arith))))
          | inr clear ↦
              rw (pass, more, clear) (pass-Settles k (n + 1) ready s w (omega arith) (omega arith))
        ]
  ]

  -- One round of the server's loop ends, whatever arrives and whatever the system answers: the
  -- rounds that a pass is given are enough, and no call that it makes runs out of fuel.
  pub round-Settles : (s : Server) (w : World S) → Settles (round os any tcp udp s w)
  unfolding round
  round-Settles s w =
      bind-Settles Anyhow _ _ (select-Settles os (inc s.fdmax) s.read_fds w) (λ (ret, ready) w1.
        bind-Settles Anyhow _ _ (die_if-Settles (ltz ret (pos 0)) w1) (λ u w2.
          pass-Settles (pos_part s.fdmax + 3) 0 ready s w2 (omega arith)
            (omega (arith, late-le-one tcp 0))))
