-- ===== src/Server/Healthy.antt =====
-- server_util.c: the clients and the container's tail, behind a connection and behind a command.
use client_server_protocoale.Common.{
  ℕ, ◌≡◌, inl, inr, refl, sym, subst, Option, none, some, Bool, false, List, [], ◌∷◌, ℤ, minus_one,
  arith, length, length-take, length-drop, length-append, length-replicate, ◌==◌, take, drop,
  get_elem?, All, All-append, All-set, All-get_elem?, Bool-cases, Option-cases,
}
use client_server_protocoale.CString.{zeros, overlay}
use client_server_protocoale.LinkedList.View.{View, add_last, erase_first, unlink_first}
use client_server_protocoale.LinkedList.ViewLaws.{add_last-some}
use client_server_protocoale.Server.World.{
  Os, World, Address, Act, and_then, failed, die_if, deref, send, recv, accept, close,
}
use client_server_protocoale.Server.State.{
  TopicStructure, ClientStructure, Server, get_client_by_sock,
}
use client_server_protocoale.Server.Connect.{
  request_id, admit_new, refuse, admit_again, admit, manage_connection_request,
}
use client_server_protocoale.Server.Command.{
  ClientToServerHdr, read_client_hdr, set_sf, subscribe, same_topic, unsubscribe, put_client,
  the_client, exit_client, dispatch, manage_command_from_client,
}
use client_server_protocoale.Server.Matching.{AllTopics}
use client_server_protocoale.Server.Subscriptions.{AllTopics-append}
use client_server_protocoale.Server.After.{After, bind, bind_any, bind_deref, bind_assoc, if_both}
use client_server_protocoale.Server.Sane.{Sane, empty_queue-Sane}

pub record Healthy (s : Server) : Type 0 where
  pub tail : s.clients_container.dangling ≡ false
  pub clients : All Sane s.clients_container.items

set_sf-AllTopics :
    (topic : List ℕ) (sf : ℕ) (ts us : List TopicStructure)
    → set_sf topic sf ts ≡ some us
    → AllTopics ts
    → AllTopics us
unfolding set_sf
set_sf-AllTopics topic sf [] us e all = absurd (cc)
set_sf-AllTopics topic sf (t ∷ ts) us e all = elim (Bool-cases (same_topic topic t)) [
  | inl hit ↦
      let new : record t { sf = sf } ∷ ts ≡ us = ground arith in subst AllTopics new (all.0, all.1)
  | inr miss ↦ elim (Option-cases (set_sf topic sf ts)) [
    | inl e' ↦ absurd (ground arith)
    | inr (vs, e') ↦
        let new : t ∷ vs ≡ us = ground arith in
        subst AllTopics new (all.0, set_sf-AllTopics topic sf ts vs e' all.1)
  ]
]

subscribe-AllTopics :
    (topic : List ℕ) (sf : ℕ) (v u : View TopicStructure)
    → subscribe topic sf v ≡ some u
    → length topic ≡ 50
    → AllTopics v.items
    → AllTopics u.items
unfolding subscribe
subscribe-AllTopics topic sf v u e full all = elim (Option-cases (set_sf topic sf v.items)) [
  | inl none_yet ↦
      subst AllTopics (sym (add_last-some v u (record { topic = topic; sf = sf }) (ground arith)).0)
        (AllTopics-append v.items (record { topic = topic; sf = sf }) all full)
  | inr (ts, found) ↦
      let new : record v { items = ts } ≡ u = ground arith in
      subst (λ r. AllTopics r.items) new (set_sf-AllTopics topic sf v.items ts found all)
]

erase_first-AllTopics :
    (p : TopicStructure → Bool) (ts : List TopicStructure)
    → AllTopics ts
    → AllTopics (erase_first p ts)
unfolding erase_first
erase_first-AllTopics p [] all = tt
erase_first-AllTopics p (t ∷ ts) all = elim (Bool-cases (p t)) [
  | inl hit ↦ rw hit all.1
  | inr miss ↦ rw miss (all.0, erase_first-AllTopics p ts all.1)
]

-- The topic of a command fills its array.
read_client_hdr-topic :
    (bytes : List ℕ) → length (read_client_hdr (overlay bytes (zeros 1551))).topic ≡ 50
unfolding read_client_hdr
read_client_hdr-topic bytes = omega (
  arith,
  length-take 50 (drop 2 (overlay bytes (zeros 1551))),
  length-drop 2 (overlay bytes (zeros 1551)),
  length-append bytes (drop (length bytes) (zeros 1551)),
  length-drop (length bytes) (zeros 1551),
  length-replicate {A = ℕ} 1551 0,
)

module _ {S : Type 0} (os : Os S) where
  admit_new-Healthy :
      (sock : ℤ) (a : Address) (id buf : List ℕ) (s : Server) (w : World S)
      → Healthy s
      → After Healthy (admit_new os sock a id buf s w)
  unfolding admit_new
  admit_new-Healthy sock a id buf s w h =
      bind_deref Healthy (add_last s.clients_container _) _ _ (λ u e.
        let added = add_last-some s.clients_container u _ e in
        record {
          tail = added.1;
          clients = subst (All Sane) (sym added.0) (
              All-append Sane s.clients_container.items _ h.clients
                (record { topics = tt; queue = refl; fit = tt; online = inr refl }, tt));
        })

  admit-Healthy :
      (sock : ℤ) (a : Address) (junk id buf : List ℕ) (o : Option ℕ) (s : Server) (w : World S)
      → Healthy s
      → After Healthy (admit os sock a junk id buf o s w)
  unfolding admit refuse send close admit_again
  admit-Healthy sock a junk id buf none s w h = admit_new-Healthy sock a id buf s w h
  admit-Healthy sock a junk id buf (some k) s w h =
      bind_deref Healthy (get_elem? s.clients_container.items k) _ w (λ c found.
        let sane = All-get_elem? Sane s.clients_container.items k c h.clients found in
        if_both Healthy (c.online == 0) _ _ w
          (bind Sane Healthy _ _
            (empty_queue-Sane os (record c { sock = sock; online = 1 }) _
              (record {
                topics = sane.topics;
                queue = sane.queue;
                fit = sane.fit;
                online = inr refl;
              }))
            (λ d w' back. record {
              tail = h.tail;
              clients = All-set Sane s.clients_container.items k d h.clients back;
            }))
          (record { tail = h.tail; clients = h.clients }))

  pub manage_connection_request-Healthy :
      (tcp : ℤ) (junk : List ℕ) (s : Server) (w : World S)
      → Healthy s
      → After Healthy (manage_connection_request os tcp junk s w)
  unfolding manage_connection_request
  manage_connection_request-Healthy tcp junk s w h =
      bind_any Healthy (accept os tcp w) _ (λ (sock, a) w1.
        bind_any Healthy (die_if (failed sock) w1) _ (λ u w2.
          bind_any Healthy (request_id os sock junk s.buf w2) _
            (λ buf w3. admit-Healthy sock a junk (take 10 (drop 52 buf)) buf _ s w3 h)))

  abbrev Left : ℤ × Server → Type 0
  Left r = Healthy r.1

  put_client-Healthy :
      (s : Server) (k : ℕ) (c : ClientStructure) → Healthy s → Sane c → Healthy (put_client s k c)
  put_client-Healthy s k c h sane = record {
    tail = h.tail;
    clients = All-set Sane s.clients_container.items k c h.clients sane;
  }

  with_client :
      (s : Server) (i : ℤ) (k : ℕ × ClientStructure → Act S (ℤ × Server)) (w : World S)
      → Healthy s
      → ((n : ℕ) (c : ClientStructure) (w' : World S) → Sane c → After Left (k (n, c) w'))
      → After Left (and_then (the_client i s w) k)
  unfolding the_client
  with_client s i k w healthy h =
      bind_assoc Left (deref (get_client_by_sock s.clients_container.items i) w) _ k (
        bind_deref Left (get_client_by_sock s.clients_container.items i) _ w (λ n known.
          bind_assoc Left (deref (get_elem? s.clients_container.items n) w) _ k (
            bind_deref Left (get_elem? s.clients_container.items n) _ w (λ c found.
              h n c w (All-get_elem? Sane s.clients_container.items n c healthy.clients found)))))

  dispatch-Healthy :
      (i : ℤ) (hdr : ClientToServerHdr) (s : Server) (w : World S)
      → length hdr.topic ≡ 50
      → Healthy s
      → After Left (dispatch i hdr s w)
  unfolding dispatch exit_client unsubscribe unlink_first
  dispatch-Healthy i hdr s w full h =
      if_both Left (hdr.type == 0) _ _ w
        (with_client s i _ w h (λ k c w' sane.
          bind_deref Left (subscribe hdr.topic hdr.sf c.subscribed_topics) _ w' (λ v e.
            put_client-Healthy s k _ h (record {
              topics =
                  subscribe-AllTopics hdr.topic hdr.sf c.subscribed_topics v e full sane.topics;
              queue = sane.queue;
              fit = sane.fit;
              online = sane.online;
            }))))
        (if_both Left (hdr.type == 1) _ _ w
          (with_client s i _ w h (λ k c w' sane. put_client-Healthy s k _ h (record {
            topics = erase_first-AllTopics _ c.subscribed_topics.items sane.topics;
            queue = sane.queue;
            fit = sane.fit;
            online = sane.online;
          })))
          (if_both Left (hdr.type == 3) _ _ w
            (with_client s i _ w h (λ k c w' sane.
              let left =
                put_client-Healthy s k (record c { sock = minus_one; online = 0 }) h
                  (record {
                    topics = sane.topics;
                    queue = sane.queue;
                    fit = sane.fit;
                    online = inl (refl, refl);
                  }) in
              record { tail = left.tail; clients = left.clients }))
            h))

  pub manage_command_from_client-Healthy :
      (i : ℤ) (s : Server) (w : World S)
      → Healthy s
      → After Left (manage_command_from_client os i s w)
  unfolding manage_command_from_client
  manage_command_from_client-Healthy i s w h =
      bind_any Left (recv os i 1551 w) _ (λ (ret, bytes) w'.
        let buf = overlay bytes (zeros 1551) in
        dispatch-Healthy i (read_client_hdr buf) (record s { buf = buf }) w'
          (read_client_hdr-topic bytes) (record { tail = h.tail; clients = h.clients }))
