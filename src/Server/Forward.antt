-- ===== src/Server/Forward.antt =====
-- Store and forward: messages for a subscriber that is offline, and its return.
use client_server_protocoale.Common.{
  ℕ, ◌≡◌, ◌∙◌, ap, some, true, List, [], ◌++◌, ℤ, inc, set, get_elem?, append-nil, ◌==◌,
}
use client_server_protocoale.LinkedList.View.{View}
use client_server_protocoale.Server.World.{Os, World, Address, done, note, new_connection}
use client_server_protocoale.Server.State.{QueueElement, ClientStructure, Server, fd_set}
use client_server_protocoale.Server.Connect.{admit, admit_again}
use client_server_protocoale.Server.Exchange.{Reliable, packets, packets-append}
use client_server_protocoale.Server.Deliver.{AllSound, Ends}
use client_server_protocoale.Server.Store.{
  Sending, send_all, AllWhole, Wants, elements, owed, AllFit-elements, kept_for-elements,
  send_all-Stored,
}
use client_server_protocoale.Server.Replay.{AllFit, kept_for, empty_queue-Emptied}

module _ {S : Type 0} (os : Os S) (ok : Reliable os) (sock : ℤ) (from : Address)
    (junk id buf : List ℕ) (k : ℕ) where
  -- Where no call fails and every answer is an ACK, a client that is offline is admitted again: it
  -- is online on the new socket with an empty queue, its subscriptions and its id are as they were,
  -- no other client changes, the socket joins the read set, and the packets sent are the elements
  -- of its queue, which fit their data and the buffer, in order.
  pub admit-again :
      (s : Server) (w : World S) (c : ClientStructure)
      → get_elem? s.clients_container.items k ≡ some c
      → (c.online == 0) ≡ true
      → AllFit c.queue.items
      → (q : View QueueElement) × (q.items ≡ [])
        × Ends
            (admit os sock from junk id buf (some k) s w)
            (record {
              clients_container = record s.clients_container {
                items =
                    set s.clients_container.items k
                      (record c { sock = sock; online = 1; queue = q });
              };
              read_fds = fd_set sock s.read_fds;
              fdmax = inc s.fdmax;
              buf = buf;
            })
            w
            (kept_for sock c.queue.items)
  unfolding admit admit_again
  admit-again s w c found offline fit =
      let w1 : World S = note w (new_connection c.id from) in
      let (q, w', run, none_left, log) =
        empty_queue-Emptied os ok (record c { sock = sock; online = 1 }) w1 fit in
      (
        q,
        none_left,
        (
          w',
          rw (found, offline, run),
          log ∙ ap (λ p. p ++ kept_for sock c.queue.items) (packets-append w.log _ ∙ append-nil _),
        ),
      )

  -- Store and forward. `send_data` is called for one message after another, each of 1600 bytes at
  -- most and under a topic that is not empty, where no call fails, every answer is an ACK and the
  -- clients' lists are in order. For an offline client with an empty queue, whose first
  -- subscription that agrees with each topic has `sf` set: the calls end, the admission of the
  -- client on a new socket behind them ends, and what that sends are the bytes of the messages, to
  -- the new socket, in order and once each.
  pub store_and_forward :
      (s : Server) (w : World S) (ms : List Sending) (c : ClientStructure)
      → AllSound s.clients_container.items
      → get_elem? s.clients_container.items k ≡ some c
      → (c.online == 0) ≡ true
      → c.queue.items ≡ []
      → AllWhole ms
      → Wants c ms
      → (v : View ClientStructure) × (w1 : World S) × (send_all os ms s.clients_container w
          ≡ done v w1)
        × (s' : Server) × (w2 : World S) × (admit os sock from junk id buf
              (some k)
              (record s { clients_container = v })
              w1
            ≡ done s' w2)
        × (packets w2.log ≡ packets w1.log ++ owed sock ms)
  store_and_forward s w ms c sound found offline empty whole wants =
      let (v, w1, stored, (q, found', items)) =
        send_all-Stored os ok k ms c s.clients_container w sound found offline whole wants in
      let items' : q.items ≡ elements ms = items ∙ ap (λ l. l ++ elements ms) empty in
      let (q', none_left, (w2, run, log)) =
        admit-again (record s { clients_container = v }) w1 (record c { queue = q }) found' offline
          (rw items' (AllFit-elements ms whole)) in
      (
        v,
        w1,
        stored,
        _,
        w2,
        run,
        log ∙ ap (λ p. packets w1.log ++ p) (ap (kept_for sock) items' ∙ kept_for-elements sock ms),
      )
