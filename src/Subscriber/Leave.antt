-- ===== src/Subscriber/Leave.antt =====
-- The exit command of a subscriber, from its `send` to the server's ACK.
use client_server_protocoale.Common.{
  ℕ, ◌≡◌, ap, ◌∙◌, some, false, List, [], ◌∷◌, ◌++◌, ℤ, minus_one, dec, if◌then◌else◌, eqz,
  append-nil, set, get_elem?,
}
use client_server_protocoale.CString.{zeros, overlay}
use client_server_protocoale.Server.World.{
  Os, World, done, sent, received, closed, disconnected, send, recv, close, failed,
}
use client_server_protocoale.Server.State.{ClientStructure, Server, get_client_by_sock, fd_clr}
use client_server_protocoale.Server.Command.{
  read_client_hdr, the_client, exit_client, dispatch, manage_command_from_client,
}
use client_server_protocoale.Server.Main.{Indeterminate, handle_client}
use client_server_protocoale.Server.Exchange.{packets, packets-append, exchanged, packets-exchanged}
use client_server_protocoale.Server.Deliver.{Ends}
use client_server_protocoale.Subscriber.Command.{Subscriber, leave}
use client_server_protocoale.Subscriber.Acknowledge.{Answered}

module _ {S : Type 0} (os : Os S) (any : Indeterminate) (tcp udp i : ℤ) (s : Server) (w : World S)
    (k : ℕ) (c : ClientStructure) (junk : List ℕ) where
  abbrev pub buf : List ℕ
  buf = overlay (3 ∷ junk) (zeros 1551)

  abbrev pub asked : World S
  asked =
      let r = os.recv w.system i 1551 in
      record {
        system = r.next;
        log = (w.log ++ received i r.bytes r.ret ∷ []) ++ disconnected c.id ∷ [];
      }

  -- The server without the client.
  abbrev pub without : Server
  without = record s {
    clients_container = record s.clients_container {
      items = set s.clients_container.items k (record c { sock = minus_one; online = 0 });
    };
    read_fds = fd_clr c.sock s.read_fds;
    fdmax = if eqz s.fdmax c.sock then dec s.fdmax else s.fdmax;
    buf = buf;
  }

  manage_command_from_client-exit :
      get_client_by_sock s.clients_container.items i ≡ some k
      → get_elem? s.clients_container.items k ≡ some c
      → (os.recv w.system i 1551).bytes ≡ 3 ∷ junk
      → manage_command_from_client os i s w ≡ done (i, without) asked
  unfolding manage_command_from_client recv dispatch the_client exit_client read_client_hdr
  manage_command_from_client-exit known found stored = rw (stored, known, found)

  abbrev pub answer : List ℕ
  answer = 6 ∷ any.junk ++ 0 ∷ []

  abbrev answered : World S
  answered =
      let t = os.send asked.system i answer in
      record {
        system = os.close t.1 i;
        log = (asked.log ++ sent i answer t.0 ∷ []) ++ closed i ∷ [];
      }

  packets-answered : packets answered.log ≡ packets w.log ++ (i, answer) ∷ []
  packets-answered =
      let r = os.recv w.system i 1551 in
      packets-append (asked.log ++ sent i answer (os.send asked.system i answer).0 ∷ []) _
      ∙ append-nil _
      ∙ packets-append asked.log _
      ∙ ap (λ p. p ++ (i, answer) ∷ [])
          (packets-append (w.log ++ received i r.bytes r.ret ∷ []) _
            ∙ append-nil _
            ∙ packets-append w.log _
            ∙ append-nil _)

  handle_client-exit :
      get_client_by_sock s.clients_container.items i ≡ some k
      → get_elem? s.clients_container.items k ≡ some c
      → (os.recv w.system i 1551).bytes ≡ 3 ∷ junk
      → failed (os.send asked.system i answer).0 ≡ false
      → eqz i minus_one ≡ false
      → Ends (handle_client os any tcp udp i s w) without w ((i, answer) ∷ [])
  unfolding handle_client send close
  handle_client-exit known found stored sent_ok real = (
    answered,
    rw (manage_command_from_client-exit known found stored, sent_ok, real),
    packets-answered,
  )

  -- A subscriber's exit command: where the client on the server's socket `i`, which is not -1, is
  -- known, each side receives what the other sends and no call fails, the subscriber ends, having
  -- sent one packet. The server keeps the client, offline and on the socket -1, with its topics and
  -- its queue, takes the client's socket out of the read set, lowers `fdmax` by one where it was that
  -- socket, changes no other client, and has sent the answer on `i`.
  pub leave-handle_client :
      {T : Type 0} (peer : Os T) (sockfd : ℤ) (sub : Subscriber) (v : World T)
      → get_client_by_sock s.clients_container.items i ≡ some k
      → get_elem? s.clients_container.items k ≡ some c
      → (os.recv w.system i 1551).bytes ≡ 3 ∷ junk
      → failed (os.send asked.system i answer).0 ≡ false
      → eqz i minus_one ≡ false
      → Answered peer sockfd (3 ∷ junk) 1600 answer v.system
      → Ends
          (leave peer sockfd junk sub v)
          (record sub { buffer = overlay answer (zeros 1600) })
          v
          ((sockfd, 3 ∷ junk) ∷ [])
        × Ends (handle_client os any tcp udp i s w) without w ((i, answer) ∷ [])
  unfolding leave send recv close
  leave-handle_client peer sockfd sub v known found stored sent_ok real a =
      let x = exchanged peer sockfd (3 ∷ junk) 1600 v in
      (
        (
          record { system = peer.close x.system sockfd; log = x.log ++ closed sockfd ∷ [] },
          rw (a.sends, a.receives, a.stores),
          packets-append x.log _ ∙ append-nil _ ∙ packets-exchanged peer sockfd (3 ∷ junk) 1600 v,
        ),
        handle_client-exit known found stored sent_ok real,
      )
