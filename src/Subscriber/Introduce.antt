-- ===== src/Subscriber/Introduce.antt =====
-- The exchange of the ID: `manage_id` of the subscriber, and the server's request.
use client_server_protocoale.Common.{
  ℕ, ◌≤◌, ◌≡◌, refl, ap, ◌∙◌, none, false, subst, List, [], ◌∷◌, ◌++◌, ℤ, arith, append_assoc,
  append-nil, length, length-take, take, drop, take-append, drop-append,
}
use client_server_protocoale.CString.{zeros, overlay}
use client_server_protocoale.Server.World.{Os, World, sent, received, send, recv, failed}
use client_server_protocoale.Server.State.{Server, get_client_by_id}
use client_server_protocoale.Server.Exchange.{packets-append}
use client_server_protocoale.Server.Deliver.{Ends}
use client_server_protocoale.Server.Connect.{manage_connection_request}
use client_server_protocoale.Server.Admission.{
  opened, reply, given_id, Completes, with_client, manage_connection_request-new,
}
use client_server_protocoale.Subscriber.Command.{Subscriber, manage_id}

module _ (junk argument : List ℕ) (full : length junk ≡ 51) (long : 10 ≤ length argument) where
  -- A header of 52 bytes with type 2, and ten bytes from `argv[1]` on.
  abbrev pub introduction : List ℕ
  introduction = 2 ∷ junk ++ take 10 argument

  introduction-id : (rest : List ℕ) → take 10 (drop 52 (introduction ++ rest)) ≡ take 10 argument
  introduction-id rest =
      ap (λ b. take 10 (drop 52 b)) (append_assoc (2 ∷ junk) (take 10 argument) rest)
      ∙ ap (take 10) (drop-append 52 (2 ∷ junk) (take 10 argument ++ rest) (omega arith))
      ∙ take-append 10 (take 10 argument) rest (omega (arith, length-take 10 argument))

  module _ {T : Type 0} (peer : Os T) (sockfd : ℤ) (behind : List ℕ) (sub : Subscriber)
      (v : World T) where
    abbrev spoken : World T
    spoken =
        let r = peer.recv v.system sockfd 1600 in
        let t = peer.send r.next sockfd introduction in
        record {
          system = t.1;
          log = (v.log ++ received sockfd r.bytes r.ret ∷ []) ++ sent sockfd introduction t.0 ∷ [];
        }

    manage_id-Ends :
        (peer.recv v.system sockfd 1600).bytes ≡ 5 ∷ behind
        → failed (peer.recv v.system sockfd 1600).ret ≡ false
        → failed (peer.send (peer.recv v.system sockfd 1600).next sockfd introduction).0 ≡ false
        → Ends
            (manage_id peer sockfd junk argument sub v)
            (record sub { buffer = overlay introduction (zeros 1600) })
            v
            ((sockfd, introduction) ∷ [])
    unfolding manage_id recv send
    manage_id-Ends stored received_ok sent_ok = (
      spoken,
      rw (received_ok, stored, sent_ok),
      packets-append (v.log ++ received sockfd _ _ ∷ []) _
          ∙ ap (λ p. p ++ (sockfd, introduction) ∷ []) (packets-append v.log _ ∙ append-nil _),
    )

    -- A subscriber's ID: where each side receives what the other sends, no call fails, the server
    -- has no client under the ID and its container's tail is in order, `manage_id` ends with one
    -- packet sent, and the server's `manage_connection_request` ends. It has sent the request that
    -- the subscriber received, and has added one client behind the others, whose ID is the first
    -- ten bytes of the subscriber's argument: online, on the new socket, with no subscription and
    -- an empty queue. The socket joins the read set, and `fdmax` grows by one.
    pub manage_id-manage_connection_request :
        {S : Type 0} (os : Os S) (tcp : ℤ) (s : Server) (w : World S)
        → (peer.recv v.system sockfd 1600).bytes ≡ 5 ∷ behind
        → failed (peer.recv v.system sockfd 1600).ret ≡ false
        → failed (peer.send (peer.recv v.system sockfd 1600).next sockfd introduction).0 ≡ false
        → reply os tcp behind s w ≡ introduction
        → Completes os tcp behind s w
        → get_client_by_id s.clients_container.items (take 10 argument) ≡ none
        → s.clients_container.dangling ≡ false
        → Ends
            (manage_id peer sockfd junk argument sub v)
            (record sub { buffer = overlay introduction (zeros 1600) })
            v
            ((sockfd, introduction) ∷ [])
          × Ends
              (manage_connection_request os tcp behind s w)
              (with_client os tcp behind s w (take 10 argument))
              w
              ((opened os tcp behind s w, 5 ∷ behind) ∷ [])
    manage_id-manage_connection_request os tcp s w stored received_ok sent_ok heard completes
          unknown order =
        let same : given_id os tcp behind s w ≡ take 10 argument =
          rw heard (introduction-id (drop (length introduction) (overlay (5 ∷ behind) s.buf))) in
        (
          manage_id-Ends stored received_ok sent_ok,
          subst
              (λ id.
                Ends (manage_connection_request os tcp behind s w)
                  (with_client os tcp behind s w id) w
                  ((opened os tcp behind s w, 5 ∷ behind) ∷ []))
              same
              (manage_connection_request-new os tcp behind s w
                (record {
                  accepts = completes.accepts;
                  sends = completes.sends;
                  receives = completes.receives;
                  answers = rw heard refl;
                })
                (rw same unknown) order),
        )
