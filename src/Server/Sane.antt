-- ===== src/Server/Sane.antt =====
-- A client whose lists and fields are in order, and the functions of server_util.c on clients: the
-- deliveries and the emptying of a queue.
use client_server_protocoale.Common.{
  ℕ, zero, suc, ◌+◌, ◌≤◌, ◌≡◌, ◌⊎◌, refl, Option, none, some, false, List, [], ◌∷◌, ◌++◌, minus_one,
  dec, arith, length, length-take, leb, ◌==◌, take, All, subst,
}
use client_server_protocoale.LinkedList.View.{View, remove_first, rest_of}
use client_server_protocoale.LinkedList.ViewLaws.{add_last-in_order}
use client_server_protocoale.Server.World.{Os, World}
use client_server_protocoale.Server.State.{TopicStructure, QueueElement, ClientStructure}
use client_server_protocoale.Server.Send.{
  find_topic, send_and_wait, read_bytes, enqueue, hand_over, send_to, send_loop, send_data,
  empty_loop, empty_queue,
}
use client_server_protocoale.Server.Matching.{AllTopics}
use client_server_protocoale.Server.Replay.{AllFit}
use client_server_protocoale.Server.After.{After, bind, bind_any, if_both}

-- Topics of 50 bytes, a queue whose tail is in order and whose elements fit their data and the
-- buffer of `empty_queue`, and a socket of -1 exactly where the client is offline.
pub record Sane (c : ClientStructure) : Type 0 where
  pub topics : AllTopics c.subscribed_topics.items
  pub queue : c.queue.dangling ≡ false
  pub fit : AllFit c.queue.items
  pub online : ((c.online ≡ 0) × (c.sock ≡ minus_one)) ⊎ (c.online ≡ 1)

AllFit-append :
    (els : List QueueElement) (el : QueueElement)
    → AllFit els
    → el.len ≤ length el.content
    → el.len ≤ 1600
    → AllFit (els ++ el ∷ [])
AllFit-append [] el h a b = (a, b, tt)
AllFit-append (e ∷ els) el h a b = (h.0, h.1, AllFit-append els el h.2 a b)

-- What `remove_first` leaves of a queue.
rest_of-AllFit :
    (els : List QueueElement) (v q : View QueueElement) (el : QueueElement)
    → rest_of els v ≡ some (el, q)
    → v.dangling ≡ false
    → AllFit els
    → AllFit q.items × (q.dangling ≡ false)
unfolding rest_of
rest_of-AllFit [] v q el e order fit = absurd (cc)
rest_of-AllFit (x ∷ []) v q el e order fit =
    let left : record { items = []; size = dec v.size; dangling = false } ≡ q = cc in
    subst (λ r. AllFit r.items × (r.dangling ≡ false)) left (tt, refl)
rest_of-AllFit (x ∷ y ∷ xs) v q el e order fit =
    let left : record { items = y ∷ xs; size = dec v.size; dangling = v.dangling } ≡ q = cc in
    subst (λ r. AllFit r.items × (r.dangling ≡ false)) left (fit.2, order)

module _ {S : Type 0} (os : Os S) where
  read_bytes-short :
      (message : List ℕ) (bytes : ℕ) (w : World S)
      → bytes ≤ 1600
      → After (λ b. length b ≤ 1600) (read_bytes os message bytes w)
  unfolding read_bytes
  read_bytes-short message bytes w small =
      if_both (λ b. length b ≤ 1600) (leb bytes (length message)) _ _ w
        (omega (arith, length-take bytes message)) tt

  enqueue-Sane :
      (content : List ℕ) (c : ClientStructure) (w : World S)
      → length content ≤ 1600
      → Sane c
      → After Sane (enqueue os content c w)
  unfolding enqueue
  enqueue-Sane content c w small sane =
      rw (add_last-in_order c.queue (record { content = content; len = length content }) sane.queue)
        (record {
          topics = sane.topics;
          queue = refl;
          fit = AllFit-append c.queue.items _ sane.fit (omega arith) small;
          online = sane.online;
        })

  hand_over-Sane :
      (message : List ℕ) (bytes : ℕ) (c : ClientStructure) (t : TopicStructure) (w : World S)
      → bytes ≤ 1600
      → Sane c
      → After Sane (hand_over os message bytes c t w)
  unfolding hand_over
  hand_over-Sane message bytes c t w small sane =
      if_both Sane (c.online == 0) _ _ w
        (if_both Sane (t.sf == 0) _ _ w sane (
          bind (λ b. length b ≤ 1600) Sane _ _ (read_bytes-short message bytes w small)
            (λ b w' short. enqueue-Sane b c w' short sane)))
        (bind_any Sane (read_bytes os message bytes w) _
          (λ b w'. bind_any Sane (send_and_wait os c.sock b 1551 w') _ (λ u w''. sane)))

  send_to-Sane :
      (message topic : List ℕ) (bytes : ℕ) (c : ClientStructure) (w : World S)
      → bytes ≤ 1600
      → Sane c
      → After Sane (send_to os message topic bytes c w)
  unfolding send_to
  send_to-Sane message topic bytes c w small sane =
      go (find_topic topic c.subscribed_topics.items) refl
    where
      go :
          (o : Option (Option TopicStructure))
          → find_topic topic c.subscribed_topics.items ≡ o
          → After Sane (send_to os message topic bytes c w)
      go none e = rw (e, send_to) tt
      go (some none) e = rw (e, send_to) sane
      go (some (some t)) e = rw (e, send_to) (hand_over-Sane message bytes c t w small sane)

  send_loop-Sane :
      (message topic : List ℕ) (bytes : ℕ) (cs : List ClientStructure) (w : World S)
      → bytes ≤ 1600
      → All Sane cs
      → After (All Sane) (send_loop os message topic bytes cs w)
  unfolding send_loop
  send_loop-Sane message topic bytes [] w small sane = tt
  send_loop-Sane message topic bytes (c ∷ cs) w small sane =
      bind Sane (All Sane) _ _ (send_to-Sane message topic bytes c w small sane.0) (λ d w1 first.
        bind (All Sane) (All Sane) _ _ (send_loop-Sane message topic bytes cs w1 small sane.1)
          (λ ds w2 rest. (first, rest)))

  empty_loop-Sane :
      (k : ℕ) (c : ClientStructure) (w : World S) → Sane c → After Sane (empty_loop os k c w)
  unfolding empty_loop
  empty_loop-Sane zero c w sane = tt
  empty_loop-Sane (suc k) c w sane = go (remove_first c.queue) refl (empty_loop-Sane k)
    where
      go :
          (o : Option (QueueElement × View QueueElement))
          → remove_first c.queue ≡ o
          → ((d : ClientStructure) (w' : World S) → Sane d → After Sane (empty_loop os k d w'))
          → After Sane (empty_loop os (suc k) c w)
      go none e ih = rw (e, empty_loop) sane
      go (some (el, q)) e ih =
          let rest =
            rest_of-AllFit c.queue.items c.queue q el (unfold remove_first in e) sane.queue
              sane.fit in
          rw (e, empty_loop)
            (if_both Sane (leb el.len (length el.content)) _ _ w
              (if_both Sane (leb el.len 1600) _ _ w
                (bind_any Sane (send_and_wait os c.sock (take el.len el.content) 1600 w) _ (λ u w'.
                  ih (record c { queue = q }) w'
                    (record {
                      topics = sane.topics;
                      queue = rest.1;
                      fit = rest.0;
                      online = sane.online;
                    })))
                tt)
              tt)

  pub empty_queue-Sane :
      (c : ClientStructure) (w : World S) → Sane c → After Sane (empty_queue os c w)
  unfolding empty_queue
  empty_queue-Sane c w sane = empty_loop-Sane (length c.queue.items + 1) c w sane

  pub send_data-Sane :
      (message topic : List ℕ) (v : View ClientStructure) (bytes : ℕ) (w : World S)
      → bytes ≤ 1600
      → All Sane v.items
      → After
          (λ u. (u.dangling ≡ v.dangling) × All Sane u.items)
          (send_data os message topic v bytes w)
  unfolding send_data
  send_data-Sane message topic v bytes w small sane =
      bind (All Sane) (λ u. (u.dangling ≡ v.dangling) × All Sane u.items) _ _
        (send_loop-Sane message topic bytes v.items w small sane) (λ ds w' rest. (refl, rest))
