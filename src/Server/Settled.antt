-- ===== src/Server/Settled.antt =====
-- server_util.c: the fuel of `send_data` and of `empty_queue`.
use client_server_protocoale.Common.{
  ℕ, zero, suc, ◌+◌, ◌<◌, ◌≡◌, Option, none, some, not, List, [], ◌∷◌, ℤ, arith, leb, ◌==◌, length,
  take, refl,
}
use client_server_protocoale.CString.{zeros, overlay}
use client_server_protocoale.LinkedList.View.{View, add_last}
use client_server_protocoale.LinkedList.ViewLaws.{remove_first-cons, remove_first-nil}
use client_server_protocoale.Server.World.{Os, World, failed, type_of, die_if, send, recv}
use client_server_protocoale.Server.State.{TopicStructure, QueueElement, ClientStructure}
use client_server_protocoale.Server.Send.{
  find_topic, send_and_wait, read_bytes, enqueue, hand_over, send_to, send_loop, send_data,
  empty_loop, empty_queue,
}
use client_server_protocoale.Server.Within.{
  Settles, bind-Settles, die_if-Settles, send-Settles, recv-Settles, deref-Within, if-Within,
}

module _ {S : Type 0} (os : Os S) where
  abbrev Any : Unit {0} → Type 0
  Any u = Unit {0}

  send_and_wait-Settles :
      (sock : ℤ) (bytes : List ℕ) (len : ℕ) (w : World S)
      → Settles (send_and_wait os sock bytes len w)
  unfolding send_and_wait
  send_and_wait-Settles sock bytes len w =
      bind-Settles Any (send os sock bytes w) _ (send-Settles os sock bytes w) (λ ret w1.
        bind-Settles Any (die_if (failed ret) w1) _ (die_if-Settles (failed ret) w1) (λ u w2.
          bind-Settles Any (recv os sock len w2) _ (recv-Settles os sock len w2)
            (λ (ret', answer) w3.
              bind-Settles Any (die_if (failed ret') w3) _ (die_if-Settles (failed ret') w3)
                (λ v w4. die_if-Settles (not (type_of (overlay answer (zeros len)) == 4)) w4))))

  read_bytes-Settles :
      (message : List ℕ) (bytes : ℕ) (w : World S) → Settles (read_bytes os message bytes w)
  unfolding read_bytes
  read_bytes-Settles message bytes w = if-Within Any' (leb bytes (length message)) _ _ w tt tt
    where
      Any' : List ℕ → Type 0
      Any' b = Unit {0}

  hand_over-Settles :
      (message : List ℕ) (bytes : ℕ) (c : ClientStructure) (t : TopicStructure) (w : World S)
      → Settles (hand_over os message bytes c t w)
  unfolding hand_over enqueue
  hand_over-Settles message bytes c t w =
      if-Within (λ d. Unit {0}) (c.online == 0) _ _ w
        (if-Within (λ d. Unit {0}) (t.sf == 0) _ _ w tt
          (bind-Settles (λ d. Unit {0}) _ _ (read_bytes-Settles message bytes w)
            (λ b w'. deref-Within (λ d. Unit {0}) (add_last c.queue _) _ w' (λ q. tt))))
        (bind-Settles (λ d. Unit {0}) _ _ (read_bytes-Settles message bytes w)
          (λ b w'.
            bind-Settles (λ d. Unit {0}) _ _ (send_and_wait-Settles c.sock b 1551 w')
              (λ u w''. tt)))

  send_to-Settles :
      (message topic : List ℕ) (bytes : ℕ) (c : ClientStructure) (w : World S)
      → Settles (send_to os message topic bytes c w)
  unfolding send_to
  send_to-Settles message topic bytes c w = go (find_topic topic c.subscribed_topics.items) refl
    where
      go :
          (o : Option (Option TopicStructure))
          → find_topic topic c.subscribed_topics.items ≡ o
          → Settles (send_to os message topic bytes c w)
      go none e = rw (e, send_to) tt
      go (some none) e = rw (e, send_to) tt
      go (some (some t)) e = rw (e, send_to) (hand_over-Settles message bytes c t w)

  send_loop-Settles :
      (message topic : List ℕ) (bytes : ℕ) (cs : List ClientStructure) (w : World S)
      → Settles (send_loop os message topic bytes cs w)
  unfolding send_loop
  send_loop-Settles message topic bytes [] w = tt
  send_loop-Settles message topic bytes (c ∷ cs) w =
      bind-Settles (λ d. Unit {0}) _ _ (send_to-Settles message topic bytes c w)
        (λ d w1.
          bind-Settles (λ d. Unit {0}) _ _ (send_loop-Settles message topic bytes cs w1)
            (λ ds w2. tt))

  pub send_data-Settles :
      (message topic : List ℕ) (v : View ClientStructure) (bytes : ℕ) (w : World S)
      → Settles (send_data os message topic v bytes w)
  unfolding send_data
  send_data-Settles message topic v bytes w =
      bind-Settles (λ d. Unit {0}) _ _ (send_loop-Settles message topic bytes v.items w)
        (λ ds w1. tt)

  -- The fuel is for the elements of the queue.
  empty_loop-Settles :
      (k : ℕ) (els : List QueueElement) (c : ClientStructure) (w : World S)
      → c.queue.items ≡ els
      → length els < k
      → Settles (empty_loop os k c w)
  unfolding empty_loop
  empty_loop-Settles zero els c w e fuel = absurd (omega arith)
  empty_loop-Settles (suc k) [] c w e fuel = rw (remove_first-nil c.queue e, empty_loop) tt
  empty_loop-Settles (suc k) (el ∷ els) c w e fuel =
      let (rest, taken, left) = remove_first-cons el els c.queue e in
      rw (taken, empty_loop)
        (if-Within (λ d. Unit {0}) (leb el.len (length el.content)) _ _ w
          (if-Within (λ d. Unit {0}) (leb el.len 1600) _ _ w
            (bind-Settles (λ d. Unit {0}) _ _
              (send_and_wait-Settles c.sock (take el.len el.content) 1600 w)
              (λ u w'. empty_loop-Settles k els (record c { queue = rest }) w' left (omega arith)))
            tt)
          tt)

  pub empty_queue-Settles : (c : ClientStructure) (w : World S) → Settles (empty_queue os c w)
  unfolding empty_queue
  empty_queue-Settles c w =
      empty_loop-Settles (length c.queue.items + 1) c.queue.items c w refl (omega arith)
