-- ===== src/Server/Lost.antt =====
-- A client that closes its connection without the exit command: `recv` returns 0 and stores
-- nothing, which `manage_command_from_client` and its caller do not test for.
use client_server_protocoale.Common.{
  ℕ, ◌≡◌, refl, ap, ◌∙◌, some, false, List, [], ◌∷◌, ◌++◌, ℤ, minus_one, inc, inl, inr, get_elem?,
  set, Option-cases, append_assoc,
}
use client_server_protocoale.CString.{zeros}
use client_server_protocoale.LinkedList.View.{View}
use client_server_protocoale.LinkedList.ViewLaws.{add_last-in_order}
use client_server_protocoale.Server.World.{Os, World, done, send, recv, sent, received, failed}
use client_server_protocoale.Server.State.{
  TopicStructure, ClientStructure, Server, get_client_by_sock,
}
use client_server_protocoale.Server.Command.{
  read_client_hdr, set_sf, subscribe, put_client, the_client, dispatch, manage_command_from_client,
}
use client_server_protocoale.Server.Main.{Indeterminate, handle_client}

-- With the tail in order the subscribe command ends.
pub subscribe-total :
    (topic : List ℕ) (sf : ℕ) (v : View TopicStructure)
    → v.dangling ≡ false
    → (v' : View TopicStructure) × (subscribe topic sf v ≡ some v')
unfolding subscribe
subscribe-total topic sf v order = elim (Option-cases (set_sf topic sf v.items)) [
  | inl e ↦ (
    record {
      items = v.items ++ record { topic = topic; sf = sf } ∷ [];
      size = inc v.size;
      dangling = false;
    },
    rw (e, subscribe) (add_last-in_order v (record { topic = topic; sf = sf }) order),
  )
  | inr (ts, e) ↦ (record v { items = ts }, rw (e, subscribe))
]

module _ {S : Type 0} (os : Os S) (i : ℤ) (s : Server) (w : World S) (k : ℕ) (c : ClientStructure)
    (known : get_client_by_sock s.clients_container.items i ≡ some k)
    (found : get_elem? s.clients_container.items k ≡ some c)
    (order : c.subscribed_topics.dangling ≡ false)
    (closed : (os.recv w.system i 1551).bytes ≡ []) where
  -- The buffer and the state that the `switch` works on.
  abbrev emptied : Server
  emptied = record s { buf = zeros 1551 }

  abbrev empty_topic : List ℕ
  empty_topic = zeros 50

  abbrev subscribed : View TopicStructure
  subscribed = (subscribe-total empty_topic 0 c.subscribed_topics order).0

  abbrev after_close : Server
  after_close = put_client emptied k (record c { subscribed_topics = subscribed })

  abbrev unheard : World S
  unheard =
      let r = os.recv w.system i 1551 in
      record { system = r.next; log = w.log ++ received i [] r.ret ∷ [] }

  the_client-found : (w' : World S) → the_client i emptied w' ≡ done (k, c) w'
  unfolding the_client
  the_client-found w' = rw (known, found)

  dispatch-empty :
      (w' : World S)
      → dispatch i (record { type = 0; sf = 0; topic = empty_topic }) emptied w'
        ≡ done (minus_one, after_close) w'
  unfolding dispatch
  dispatch-empty w' =
      rw (the_client-found w', (subscribe-total empty_topic 0 c.subscribed_topics order).1)

  read_client_hdr-zeros :
      read_client_hdr (zeros 1551) ≡ record { type = 0; sf = 0; topic = empty_topic }
  unfolding read_client_hdr
  read_client_hdr-zeros = refl

  manage_command_from_client-closed :
      manage_command_from_client os i s w ≡ done (minus_one, after_close) unheard
  unfolding manage_command_from_client recv
  manage_command_from_client-closed =
      rw closed
        (ap (λ h. dispatch i h emptied unheard) read_client_hdr-zeros ∙ dispatch-empty unheard)

  -- Where `recv` stores nothing for the socket of a known client whose list of topics is in order,
  -- and the `send` behind it succeeds, the server's branch for that socket treats this as a
  -- subscribe command to the empty topic with the flag 0: that is done to the client's topics, the
  -- packet of type 6 is sent on the socket, and nothing else happens. The client keeps its id, its
  -- socket, its queue and its flag `online`, no other client changes, the read set and `fdmax` stay,
  -- and no socket is closed.
  pub lost_connection :
      (any : Indeterminate) (tcp udp : ℤ)
      → failed (os.send unheard.system i (6 ∷ any.junk ++ 0 ∷ [])).0 ≡ false
      → (v : View TopicStructure) × (subscribe (zeros 50) 0 c.subscribed_topics ≡ some v)
        × (w' : World S) × (handle_client os any tcp udp i s w
            ≡ done
                (record s {
                  clients_container = record s.clients_container {
                    items = set s.clients_container.items k (record c { subscribed_topics = v });
                  };
                  buf = zeros 1551;
                })
                w')
        × (ret : ℤ) × (w'.log
            ≡ w.log
              ++ received i [] (os.recv w.system i 1551).ret
                ∷ sent i (6 ∷ any.junk ++ 0 ∷ []) ret
                ∷ [])
  unfolding handle_client send
  lost_connection any tcp udp ok =
      let ack : List ℕ = 6 ∷ any.junk ++ 0 ∷ [] in
      let r = os.send unheard.system i ack in
      (
        subscribed,
        (subscribe-total empty_topic 0 c.subscribed_topics order).1,
        record { system = r.1; log = unheard.log ++ sent i ack r.0 ∷ [] },
        rw (manage_command_from_client-closed, ok),
        r.0,
        append_assoc w.log _ _,
      )
