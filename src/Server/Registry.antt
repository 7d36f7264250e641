-- ===== src/Server/Registry.antt =====
-- The ids of the registered clients, and what `send_data` and `empty_queue` do to them.
use client_server_protocoale.Common.{
  ℕ, zero, suc, ◌≡◌, refl, ap, ◌∙◌, Option, none, some, List, [], ◌∷◌, arith, set, get_elem?, ◌==◌,
  leb, length, take, ◌+◌,
}
use client_server_protocoale.LinkedList.View.{View, add_last, remove_first}
use client_server_protocoale.Server.World.{Os, World}
use client_server_protocoale.Server.State.{TopicStructure, QueueElement, ClientStructure}
use client_server_protocoale.Server.Send.{
  find_topic, send_and_wait, read_bytes, enqueue, hand_over, send_to, send_loop, send_data,
  empty_loop, empty_queue,
}
use client_server_protocoale.Server.After.{After, bind, bind_any, bind_deref, if_both}

abbrev pub ids : List ClientStructure → List (List ℕ)
ids [] = []
ids (c ∷ cs) = c.id ∷ ids cs

pub ids-set :
    (cs : List ClientStructure) (k : ℕ) (c d : ClientStructure)
    → get_elem? cs k ≡ some c
    → d.id ≡ c.id
    → ids (set cs k d) ≡ ids cs
ids-set [] k c d e same = refl
ids-set (b ∷ cs) zero c d e same = ap (λ i. i ∷ ids cs) (same ∙ ground arith)
ids-set (b ∷ cs) (suc k) c d e same = ap (◌∷◌ b.id) (ids-set cs k c d e same)

module _ {S : Type 0} (os : Os S) where
  hand_over-id :
      (message : List ℕ) (bytes : ℕ) (c : ClientStructure) (t : TopicStructure) (w : World S)
      → After (λ d. d.id ≡ c.id) (hand_over os message bytes c t w)
  unfolding hand_over enqueue
  hand_over-id message bytes c t w =
      if_both (λ d. d.id ≡ c.id) (c.online == 0) _ _ w
        (if_both (λ d. d.id ≡ c.id) (t.sf == 0) _ _ w refl
          (bind_any (λ d. d.id ≡ c.id) (read_bytes os message bytes w) _
            (λ b w'. bind_deref (λ d. d.id ≡ c.id) (add_last c.queue _) _ w' (λ q e. refl))))
        (bind_any (λ d. d.id ≡ c.id) (read_bytes os message bytes w) _
          (λ b w'.
            bind_any (λ d. d.id ≡ c.id) (send_and_wait os c.sock b 1551 w') _ (λ u w''. refl)))

  send_to-id :
      (message topic : List ℕ) (bytes : ℕ) (c : ClientStructure) (w : World S)
      → After (λ d. d.id ≡ c.id) (send_to os message topic bytes c w)
  unfolding send_to
  send_to-id message topic bytes c w = go (find_topic topic c.subscribed_topics.items) refl
    where
      go :
          (o : Option (Option TopicStructure))
          → find_topic topic c.subscribed_topics.items ≡ o
          → After (λ d. d.id ≡ c.id) (send_to os message topic bytes c w)
      go none e = rw (e, send_to) tt
      go (some none) e = rw (e, send_to) refl
      go (some (some t)) e = rw (e, send_to) (hand_over-id message bytes c t w)

  send_loop-ids :
      (message topic : List ℕ) (bytes : ℕ) (cs : List ClientStructure) (w : World S)
      → After (λ ds. ids ds ≡ ids cs) (send_loop os message topic bytes cs w)
  unfolding send_loop
  send_loop-ids message topic bytes [] w = refl
  send_loop-ids message topic bytes (c ∷ cs) w =
      bind (λ d. d.id ≡ c.id) (λ ds. ids ds ≡ c.id ∷ ids cs) _ _
        (send_to-id message topic bytes c w)
        (λ d w1 same.
          bind (λ ds. ids ds ≡ ids cs) (λ ds. ids ds ≡ c.id ∷ ids cs) _ _
            (send_loop-ids message topic bytes cs w1) (λ ds w2 rest. ground arith))

  pub send_data-ids :
      (message topic : List ℕ) (v : View ClientStructure) (bytes : ℕ) (w : World S)
      → After (λ u. ids u.items ≡ ids v.items) (send_data os message topic v bytes w)
  unfolding send_data
  send_data-ids message topic v bytes w =
      bind (λ ds. ids ds ≡ ids v.items) (λ u. ids u.items ≡ ids v.items) _ _
        (send_loop-ids message topic bytes v.items w) (λ ds w' e. e)

  empty_loop-id :
      (k : ℕ) (c : ClientStructure) (w : World S) → After (λ d. d.id ≡ c.id) (empty_loop os k c w)
  unfolding empty_loop
  empty_loop-id zero c w = tt
  empty_loop-id (suc k) c w = go (remove_first c.queue) refl (empty_loop-id k)
    where
      P : ClientStructure → Type 0
      P d = d.id ≡ c.id

      go :
          (o : Option (QueueElement × View QueueElement))
          → remove_first c.queue ≡ o
          → ((d : ClientStructure) (w' : World S) → After (λ b. b.id ≡ d.id) (empty_loop os k d w'))
          → After P (empty_loop os (suc k) c w)
      go none e ih = rw (e, empty_loop) refl
      go (some (el, q)) e ih =
          rw (e, empty_loop)
            (if_both P (leb el.len (length el.content)) _ _ w
              (if_both P (leb el.len 1600) _ _ w
                (bind_any P (send_and_wait os c.sock (take el.len el.content) 1600 w) _
                  (λ u w'. ih (record c { queue = q }) w'))
                tt)
              tt)

  pub empty_queue-id :
      (c : ClientStructure) (w : World S) → After (λ d. d.id ≡ c.id) (empty_queue os c w)
  unfolding empty_queue
  empty_queue-id c w = empty_loop-id (length c.queue.items + 1) c w
