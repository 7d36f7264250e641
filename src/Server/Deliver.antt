-- ===== src/Server/Deliver.antt =====
-- `send_data`: who gets a message, who has it kept, and what is sent.
use client_server_protocoale.Common.{
  ℕ, ◌≤◌, ◌<◌, ◌≡◌, ◌∙◌, refl, sym, ap, Option, some, none, false, List, [], ◌∷◌, ◌++◌, ℤ, inc,
  length, take, le→leb, append-nil, append_assoc, ◌==◌, if◌then◌else◌, Bool-cases, inl, inr,
}
use client_server_protocoale.CString.{strlen}
use client_server_protocoale.LinkedList.View.{View}
use client_server_protocoale.LinkedList.ViewLaws.{add_last-in_order}
use client_server_protocoale.Server.World.{Os, World, Outcome, done}
use client_server_protocoale.Server.State.{TopicStructure, ClientStructure}
use client_server_protocoale.Server.Send.{
  find_topic, hand_over, read_bytes, enqueue, send_to, send_loop, send_data,
}
use client_server_protocoale.Server.Exchange.{
  Reliable, exchanged, send_and_wait-exchanged, packets, packets-exchanged,
}
use client_server_protocoale.Server.Matching.{
  AllTopics, agrees, first_match, find_topic-first_match,
}

-- A client whose lists are in order.
pub record Sound (c : ClientStructure) : Type 0 where
  pub topics : AllTopics c.subscribed_topics.items
  pub queue : c.queue.dangling ≡ false

abbrev pub AllSound : List ClientStructure → Type 0
AllSound [] = Unit {0}
AllSound (c ∷ cs) = Sound c × AllSound cs

-- The client's subscription for a topic.
abbrev pub subscription : List ℕ → ClientStructure → Option TopicStructure
subscription topic c = first_match (agrees topic) c.subscribed_topics.items

-- With an element more in its queue.
abbrev pub keeping : List ℕ → ClientStructure → ClientStructure
keeping content c = record c {
  queue = record {
    items = c.queue.items ++ record { content = content; len = length content } ∷ [];
    size = inc c.queue.size;
    dangling = false;
  };
}

-- The client behind a message: an offline subscriber that asked for it has the message kept.
abbrev pub after_message : List ℕ → ClientStructure → Option TopicStructure → ClientStructure
after_message content c none = c
after_message content c (some t) =
    if c.online == 0 then (if t.sf == 0 then c else keeping content c) else c

-- The packets that go out for it: one to each online subscriber.
abbrev pub packet_for : List ℕ → ClientStructure → Option TopicStructure → List (ℤ × List ℕ)
packet_for content c none = []
packet_for content c (some t) = if c.online == 0 then [] else (c.sock, content) ∷ []

abbrev pub after_all : List ℕ → List ℕ → List ClientStructure → List ClientStructure
after_all topic content [] = []
after_all topic content (c ∷ cs) =
    after_message content c (subscription topic c) ∷ after_all topic content cs

abbrev pub packets_for : List ℕ → List ℕ → List ClientStructure → List (ℤ × List ℕ)
packets_for topic content [] = []
packets_for topic content (c ∷ cs) =
    packet_for content c (subscription topic c) ++ packets_for topic content cs

-- A result, with the packets that were sent on the way.
abbrev pub Ends : {S A : Type 0} → Outcome S A → A → World S → List (ℤ × List ℕ) → Type 0
Ends r a w sent = (w' : World _) × (r ≡ done a w') × (packets w'.log ≡ packets w.log ++ sent)

module _ {S : Type 0} (os : Os S) (ok : Reliable os) (message topic : List ℕ) (bytes : ℕ)
    (named : 0 < strlen topic) (room : bytes ≤ length message) where
  abbrev content : List ℕ
  content = take bytes message

  read_bytes-content : (w : World S) → read_bytes os message bytes w ≡ done content w
  unfolding read_bytes
  read_bytes-content w = rw (le→leb bytes (length message) room)

  enqueue-keeping :
      (c : ClientStructure) (w : World S)
      → Sound c
      → enqueue os content c w ≡ done (keeping content c) w
  unfolding enqueue
  enqueue-keeping c w s = rw (add_last-in_order c.queue _ s.queue)

  hand_over-Ends :
      (c : ClientStructure) (t : TopicStructure) (w : World S)
      → Sound c
      → Ends
          (hand_over os message bytes c t w)
          (after_message content c (some t))
          w
          (packet_for content c (some t))
  unfolding hand_over
  hand_over-Ends c t w s = elim (Bool-cases (c.online == 0)) [
    | inl offline ↦ elim (Bool-cases (t.sf == 0)) [
      | inl drop ↦ rw (offline, drop) (w, refl, sym (append-nil _))
      | inr keep ↦
          rw (offline, keep, read_bytes-content w, enqueue-keeping c w s)
            (w, refl, sym (append-nil _))
    ]
    | inr online ↦
        rw (online, read_bytes-content w, send_and_wait-exchanged os c.sock content 1551 w ok)
          (exchanged os c.sock content 1551 w, refl, packets-exchanged os c.sock content 1551 w)
  ]

  send_to-found :
      (c : ClientStructure) (o : Option TopicStructure) (w : World S)
      → Sound c
      → find_topic topic c.subscribed_topics.items ≡ some o
      → Ends
          (send_to os message topic bytes c w)
          (after_message content c o)
          w
          (packet_for content c o)
  unfolding send_to
  send_to-found c none w s e = rw (e, send_to) (w, refl, sym (append-nil _))
  send_to-found c (some t) w s e = rw (e, send_to) (hand_over-Ends c t w s)

  send_to-Ends :
      (c : ClientStructure) (w : World S)
      → Sound c
      → Ends
          (send_to os message topic bytes c w)
          (after_message content c (subscription topic c))
          w
          (packet_for content c (subscription topic c))
  send_to-Ends c w s =
      send_to-found c (subscription topic c) w s
        (find_topic-first_match topic c.subscribed_topics.items named s.topics)

  send_loop-Ends :
      (cs : List ClientStructure) (w : World S)
      → AllSound cs
      → Ends
          (send_loop os message topic bytes cs w)
          (after_all topic content cs)
          w
          (packets_for topic content cs)
  unfolding send_loop
  send_loop-Ends [] w all = (w, refl, sym (append-nil _))
  send_loop-Ends (c ∷ cs) w all =
      let (w1, run, log) = send_to-Ends c w all.0 in
      let (w2, run', log') = send_loop-Ends cs w1 all.1 in
      (
        w2,
        rw (run, run'),
        log' ∙ ap (λ p. p ++ packets_for topic content cs) log ∙ append_assoc (packets w.log) _ _,
      )

  -- Where no call fails, every answer is an ACK, the topic is not empty, the message holds `bytes`
  -- bytes and the clients' lists are in order, `send_data` ends. Each online client with a
  -- subscription that agrees with the topic is sent one packet with those bytes, in the container's
  -- order and no matter how many subscriptions agree; each offline one whose first such
  -- subscription has `sf` set has them added to its queue; no other client changes or is sent
  -- anything.
  pub send_data-Ends :
      (v : View ClientStructure) (w : World S)
      → AllSound v.items
      → Ends
          (send_data os message topic v bytes w)
          (record v { items = after_all topic (take bytes message) v.items })
          w
          (packets_for topic (take bytes message) v.items)
  unfolding send_data
  send_data-Ends v w all = let (w', run, log) = send_loop-Ends v.items w all in (w', rw run, log)
