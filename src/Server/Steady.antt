-- ===== src/Server/Steady.antt =====
-- The deliveries, along a property of the system that the calls on open descriptors keep.
use client_server_protocoale.Common.{
  ℕ, zero, suc, ◌≡◌, refl, Option, none, some, List, [], ◌∷◌, Option-cases, inl, inr, leb, ◌==◌,
  length, take, ◌+◌,
}
use client_server_protocoale.LinkedList.View.{View, add_last, remove_first}
use client_server_protocoale.Server.World.{Os, World}
use client_server_protocoale.Server.State.{TopicStructure, ClientStructure}
use client_server_protocoale.Server.Send.{
  find_topic, read_bytes, enqueue, hand_over, send_to, send_loop, send_data, empty_loop,
  empty_queue,
}
use client_server_protocoale.Server.Descriptors.{
  if-Ending, deref-Ending, Stable, Steady, then-Steady, send_and_wait-Steady,
}

module _ {S : Type 0} (os : Os S) (J : S → Type 0) (stable : Stable os J) where
  read_bytes-Steady :
      (message : List ℕ) (bytes : ℕ) (w : World S)
      → J w.system
      → Steady os J stable (read_bytes os message bytes w)
  unfolding read_bytes
  read_bytes-Steady message bytes w j =
      if-Ending _ (leb bytes (length message)) _ _ w (λ e. j) (λ e. tt)

  hand_over-Steady :
      (message : List ℕ) (bytes : ℕ) (c : ClientStructure) (t : TopicStructure) (w : World S)
      → J w.system
      → Steady os J stable (hand_over os message bytes c t w)
  unfolding hand_over enqueue
  hand_over-Steady message bytes c t w j =
      if-Ending _ (c.online == 0) _ _ w
        (λ e.
          if-Ending _ (t.sf == 0) _ _ w (λ e'. j)
            (λ e'.
              then-Steady os J stable _ _ (read_bytes-Steady message bytes w j)
                (λ b w' j'. deref-Ending _ (add_last c.queue _) _ w' (λ q e. j'))))
        (λ e. then-Steady os J stable _ _ (read_bytes-Steady message bytes w j) (λ b w' j'.
          then-Steady os J stable _ _ (send_and_wait-Steady os J stable c.sock b 1551 w' j')
            (λ u w'' j''. j'')))

  send_to-Steady :
      (message topic : List ℕ) (bytes : ℕ) (c : ClientStructure) (w : World S)
      → J w.system
      → Steady os J stable (send_to os message topic bytes c w)
  unfolding send_to
  send_to-Steady message topic bytes c w j = go (find_topic topic c.subscribed_topics.items) refl
    where
      go :
          (o : Option (Option TopicStructure))
          → find_topic topic c.subscribed_topics.items ≡ o
          → Steady os J stable (send_to os message topic bytes c w)
      go none e = rw (e, send_to) tt
      go (some none) e = rw (e, send_to) j
      go (some (some t)) e = rw (e, send_to) (hand_over-Steady message bytes c t w j)

  send_loop-Steady :
      (message topic : List ℕ) (bytes : ℕ) (cs : List ClientStructure) (w : World S)
      → J w.system
      → Steady os J stable (send_loop os message topic bytes cs w)
  unfolding send_loop
  send_loop-Steady message topic bytes [] w j = j
  send_loop-Steady message topic bytes (c ∷ cs) w j =
      then-Steady os J stable _ _ (send_to-Steady message topic bytes c w j) (λ d w1 j1.
        then-Steady os J stable _ _ (send_loop-Steady message topic bytes cs w1 j1)
          (λ ds w2 j2. j2))

  pub send_data-Steady :
      (message topic : List ℕ) (v : View ClientStructure) (bytes : ℕ) (w : World S)
      → J w.system
      → Steady os J stable (send_data os message topic v bytes w)
  unfolding send_data
  send_data-Steady message topic v bytes w j =
      then-Steady os J stable _ _ (send_loop-Steady message topic bytes v.items w j)
        (λ ds w1 j1. j1)

  empty_loop-Steady :
      (k : ℕ) (c : ClientStructure) (w : World S)
      → J w.system
      → Steady os J stable (empty_loop os k c w)
  unfolding empty_loop
  empty_loop-Steady zero c w j = tt
  empty_loop-Steady (suc k) c w j = elim (Option-cases (remove_first c.queue)) [
    | inl e ↦ rw (e, empty_loop) j
    | inr ((el, rest), e) ↦
        rw (e, empty_loop)
          (if-Ending _ (leb el.len (length el.content)) _ _ w
            (λ e.
              if-Ending _ (leb el.len 1600) _ _ w
                (λ e'.
                  then-Steady os J stable _ _
                    (send_and_wait-Steady os J stable c.sock (take el.len el.content) 1600 w j)
                    (λ u w' j'. empty_loop-Steady k (record c { queue = rest }) w' j'))
                (λ e'. tt))
            (λ e. tt))
  ]

  pub empty_queue-Steady :
      (c : ClientStructure) (w : World S) → J w.system → Steady os J stable (empty_queue os c w)
  unfolding empty_queue
  empty_queue-Steady c w j = empty_loop-Steady (length c.queue.items + 1) c w j
