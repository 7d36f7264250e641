-- ===== src/Server/Admission.antt =====
-- `manage_connection_request` as a whole: the exchange that asks for the ID, and what follows it.
use client_server_protocoale.Common.{
  ℕ, ◌≡◌, ◌∙◌, refl, ap, some, none, true, false, List, [], ◌∷◌, ◌++◌, ℤ, inc, take, drop,
  get_elem?, append-nil, append_assoc, ◌==◌,
}
use client_server_protocoale.CString.{zeros, overlay}
use client_server_protocoale.LinkedList.View.{empty}
use client_server_protocoale.LinkedList.ViewLaws.{add_last-in_order}
use client_server_protocoale.Server.World.{
  Os, World, Event, done, note, sent, received, accepted, closed, already_connected, new_connection,
  failed, type_of, send, recv, accept, close,
}
use client_server_protocoale.Server.State.{ClientStructure, Server, get_client_by_id, fd_set}
use client_server_protocoale.Server.Connect.{
  request_id, admit, admit_new, refuse, manage_connection_request,
}
use client_server_protocoale.Server.Exchange.{packets, packets-append}
use client_server_protocoale.Server.Deliver.{Ends}

module _ {S : Type 0} (os : Os S) (tcp : ℤ) (junk : List ℕ) (s : Server) (w : World S) where
  -- The socket of the connection, what is received on it, and the buffer behind that.
  abbrev pub opened : ℤ
  opened = (os.accept w.system tcp).ret

  abbrev asked : ℤ × S
  asked = os.send (os.accept w.system tcp).next opened (5 ∷ junk)

  abbrev pub reply : List ℕ
  reply = (os.recv asked.1 opened 1551).bytes

  abbrev pub reply_buf : List ℕ
  reply_buf = overlay reply (overlay (5 ∷ junk) s.buf)

  abbrev pub given_id : List ℕ
  given_id = take 10 (drop 52 reply_buf)

  -- No call fails.
  pub record Completes : Type 0 where
    pub accepts : failed opened ≡ false
    pub sends : failed asked.0 ≡ false
    pub receives : failed (os.recv asked.1 opened 1551).ret ≡ false

  -- No call fails, and the answer is of type 2.
  pub record Introduced : Type 0 where
    pub accepts : failed opened ≡ false
    pub sends : failed asked.0 ≡ false
    pub receives : failed (os.recv asked.1 opened 1551).ret ≡ false
    pub answers : (type_of reply_buf == 2) ≡ true

  abbrev heard : World S
  heard =
      let a = os.accept w.system tcp in
      let r = os.recv asked.1 opened 1551 in
      record {
        system = r.next;
        log =
            ((w.log ++ accepted a.ret a.cli_addr ∷ []) ++ sent opened (5 ∷ junk) asked.0 ∷ [])
            ++ received opened r.bytes r.ret ∷ [];
      }

  packets-heard : packets heard.log ≡ packets w.log ++ (opened, 5 ∷ junk) ∷ []
  packets-heard =
      packets-append
        ((w.log ++ accepted opened (os.accept w.system tcp).cli_addr ∷ [])
          ++ sent opened (5 ∷ junk) asked.0 ∷ [])
        _
      ∙ append-nil _
      ∙ packets-append (w.log ++ accepted opened (os.accept w.system tcp).cli_addr ∷ []) _
      ∙ ap (λ p. p ++ (opened, 5 ∷ junk) ∷ []) (packets-append w.log _ ∙ append-nil _)

  manage_connection_request-admit :
      Introduced
      → manage_connection_request os tcp junk s w
        ≡ admit os opened
            (os.accept w.system tcp).cli_addr
            junk
            given_id
            reply_buf
            (get_client_by_id s.clients_container.items given_id)
            s
            heard
  unfolding manage_connection_request request_id accept send recv
  manage_connection_request-admit i = rw (i.accepts, i.sends, i.receives, i.answers)

  abbrev refusal : ℤ × S
  refusal = os.send heard.system opened (4 ∷ junk)

  -- The log of a refusal, up to the last event.
  abbrev refused_log : ClientStructure → List Event
  refused_log c =
      (heard.log ++ already_connected c.id ∷ []) ++ sent opened (4 ∷ junk) refusal.0 ∷ []

  refuse-log :
      (c : ClientStructure)
      → refuse os opened junk c s heard
        ≡ done
            (record s { buf = overlay (4 ∷ junk) (zeros 1551) })
            (record {
              system = os.close refusal.1 opened;
              log = refused_log c ++ closed opened ∷ [];
            })
  unfolding refuse send close
  refuse-log c = refl

  packets-refused :
      (c : ClientStructure)
      → packets (refused_log c ++ closed opened ∷ [])
        ≡ packets w.log ++ (opened, 5 ∷ junk) ∷ (opened, 4 ∷ junk) ∷ []
  packets-refused c =
      packets-append (refused_log c) _
      ∙ append-nil _
      ∙ packets-append (heard.log ++ already_connected c.id ∷ []) _
      ∙ ap (λ p. p ++ (opened, 4 ∷ junk) ∷ [])
          (packets-append heard.log _ ∙ append-nil _ ∙ packets-heard)
      ∙ append_assoc (packets w.log) _ _

  -- Where the connection is opened, its answer is of type 2 and no call fails, and a client with
  -- the ID that is given is registered and online, the connection is refused: the registry, the
  -- read set and `fdmax` stay, what is sent on the new socket is the request for the ID and then a
  -- packet of type 4, and the last thing done is to close it.
  pub manage_connection_request-refused :
      (k : ℕ) (c : ClientStructure)
      → Introduced
      → get_client_by_id s.clients_container.items given_id ≡ some k
      → get_elem? s.clients_container.items k ≡ some c
      → (c.online == 0) ≡ false
      → (buf : List ℕ) × (events : List Event) × (w' : World S) × (manage_connection_request os tcp
            junk s w
          ≡ done (record s { buf = buf }) w')
        × (packets w'.log ≡ packets w.log ++ (opened, 5 ∷ junk) ∷ (opened, 4 ∷ junk) ∷ [])
        × (w'.log ≡ events ++ closed opened ∷ [])
  manage_connection_request-refused k c i known found online =
      let run : admit os opened (os.accept w.system tcp).cli_addr junk given_id reply_buf (some k) s
            heard
          ≡ refuse os opened junk c s heard =
        unfold admit in rw (found, online) in
      (
        _,
        refused_log c,
        _,
        manage_connection_request-admit i
            ∙ ap
                (λ o.
                  admit os opened (os.accept w.system tcp).cli_addr junk given_id reply_buf o s
                    heard)
                known
            ∙ run
            ∙ refuse-log c,
        packets-refused c,
        refl,
      )

  -- The server with a client more.
  abbrev pub with_client : List ℕ → Server
  with_client id = record {
    clients_container = record {
      items =
          s.clients_container.items
          ++ record { id = id; subscribed_topics = empty; sock = opened; online = 1; queue = empty }
            ∷ [];
      size = inc s.clients_container.size;
      dangling = false;
    };
    read_fds = fd_set opened s.read_fds;
    fdmax = inc s.fdmax;
    buf = reply_buf;
  }

  abbrev pub with_new : Server
  with_new = with_client given_id

  -- Where the connection is opened, its answer is of type 2 and no call fails, the ID that is given
  -- is not registered and the container's tail is in order, a client is added behind the others:
  -- online, on the new socket, with no subscription and an empty queue. The socket joins the read
  -- set, `fdmax` grows by one, and nothing is sent but the request for the ID.
  pub manage_connection_request-new :
      Introduced
      → get_client_by_id s.clients_container.items given_id ≡ none
      → s.clients_container.dangling ≡ false
      → Ends (manage_connection_request os tcp junk s w) with_new w ((opened, 5 ∷ junk) ∷ [])
  manage_connection_request-new i unknown order =
      let a = (os.accept w.system tcp).cli_addr in
      let w' : World S = note heard (new_connection given_id a) in
      let run : admit os opened a junk given_id reply_buf none s heard ≡ done with_new w' =
        unfold admit admit_new in rw (add_last-in_order s.clients_container _ order) in
      (
        w',
        manage_connection_request-admit i
            ∙ ap (λ o. admit os opened a junk given_id reply_buf o s heard) unknown
            ∙ run,
        packets-append heard.log _ ∙ append-nil _ ∙ packets-heard,
      )
