-- ===== src/Server/Shutdown.antt =====
-- `close_all_sockets`: the exit command with every client online, and with one offline.
use client_server_protocoale.Common.{
  ℕ, ◌≡◌, refl, sym, ap, ◌∙◌, ◌⊎◌, inl, inr, not, List, [], ◌∷◌, ◌++◌, ℤ, minus_one, ◌==◌,
  Bool-cases, append-nil, append_assoc,
}
use client_server_protocoale.CString.{zeros, overlay}
use client_server_protocoale.LinkedList.View.{View}
use client_server_protocoale.Server.World.{
  Os, World, done, died, closed, send, recv, close, type_of,
}
use client_server_protocoale.Server.State.{ClientStructure}
use client_server_protocoale.Server.Connect.{close_socket, close_loop, close_all_sockets}
use client_server_protocoale.Server.Exchange.{
  Reliable, exchanged, type_of-overlay, packets, packets-append, packets-exchanged,
}
use client_server_protocoale.Server.Deliver.{Ends}

-- The packets that end the connections.
abbrev pub farewells : List ℕ → List ClientStructure → List (ℤ × List ℕ)
farewells junk [] = []
farewells junk (c ∷ cs) = (c.sock, 4 ∷ junk) ∷ farewells junk cs

module _ {S : Type 0} (os : Os S) (junk : List ℕ) where
  -- The world behind a round that ends.
  abbrev parted : ClientStructure → World S → World S
  parted c w =
      let x = exchanged os c.sock (4 ∷ junk) 1551 w in
      record { system = os.close x.system c.sock; log = x.log ++ closed c.sock ∷ [] }

  -- Nothing is received on a socket -1, which is what an offline client has.
  close_socket-offline :
      (c : ClientStructure) (w : World S)
      → c.sock ≡ minus_one
      → ((s : S) → (os.recv s minus_one 1551).bytes ≡ [])
      → (w' : World S) × (close_socket os junk c w ≡ died w')
  unfolding close_socket send recv
  close_socket-offline c w e nothing = (
    exchanged os c.sock (4 ∷ junk) 1551 w,
    rw (e, nothing (os.send w.system minus_one (4 ∷ junk)).1),
  )

  -- In any case a round ends, or the server dies.
  close_socket-cases :
      (c : ClientStructure) (w : World S)
      → ((w' : World S) × (close_socket os junk c w ≡ done tt w'))
        ⊎ ((w' : World S) × (close_socket os junk c w ≡ died w'))
  unfolding close_socket send recv close
  close_socket-cases c w =
      let s = os.send w.system c.sock (4 ∷ junk) in
      let r = os.recv s.1 c.sock 1551 in
      elim (Bool-cases (not (type_of (overlay r.bytes (zeros 1551)) == 4))) [
        | inl bad ↦ inr (exchanged os c.sock (4 ∷ junk) 1551 w, rw bad)
        | inr good ↦ inl (parted c w, rw good)
      ]

  -- Where a client has the socket -1 of an offline client, and nothing is received on -1, the loop
  -- of `close_all_sockets` kills the server, whichever clients stand before and behind it.
  pub close_loop-offline :
      (cs ds : List ClientStructure) (c : ClientStructure) (w : World S)
      → c.sock ≡ minus_one
      → ((s : S) → (os.recv s minus_one 1551).bytes ≡ [])
      → (w' : World S) × (close_loop os junk (cs ++ c ∷ ds) w ≡ died w')
  unfolding close_loop
  close_loop-offline [] ds c w e nothing =
      let r = close_socket-offline c w e nothing in (r.0, rw r.1)
  close_loop-offline (b ∷ cs) ds c w e nothing = elim (close_socket-cases b w) [
    | inl (w1, run) ↦ let r = close_loop-offline cs ds c w1 e nothing in (r.0, rw run r.1)
    | inr (w1, run) ↦ (w1, rw run)
  ]

  module _ (ok : Reliable os) where
    close_socket-Ends :
        (c : ClientStructure) (w : World S)
        → Ends (close_socket os junk c w) tt w ((c.sock, 4 ∷ junk) ∷ [])
    unfolding close_socket send recv close
    close_socket-Ends c w =
        let s = os.send w.system c.sock (4 ∷ junk) in
        let r = os.recv s.1 c.sock 1551 in
        (
          parted c w,
          rw (type_of-overlay r.bytes (zeros 1551) (ok.answers_ack s.1 c.sock 1551)),
          packets-append (exchanged os c.sock (4 ∷ junk) 1551 w).log (closed c.sock ∷ [])
              ∙ append-nil _
              ∙ packets-exchanged os c.sock (4 ∷ junk) 1551 w,
        )

    close_loop-Ends :
        (cs : List ClientStructure) (w : World S)
        → Ends (close_loop os junk cs w) tt w (farewells junk cs)
    unfolding close_loop
    close_loop-Ends [] w = (w, refl, sym (append-nil _))
    close_loop-Ends (c ∷ cs) w =
        let (w1, run, log) = close_socket-Ends c w in
        let (w2, run', log') = close_loop-Ends cs w1 in
        (
          w2,
          rw run run',
          log' ∙ ap (λ p. p ++ farewells junk cs) log ∙ append_assoc (packets w.log) _ _,
        )

    -- Where no call fails and every answer is an ACK, `close_all_sockets` ends and has sent each
    -- client one packet of type 4, in the container's order.
    pub close_all_sockets-Ends :
        (v : View ClientStructure) (w : World S)
        → Ends (close_all_sockets os junk v w) tt w (farewells junk v.items)
    unfolding close_all_sockets
    close_all_sockets-Ends v w = close_loop-Ends v.items w
