-- ===== src/Server/Store.antt =====
-- Messages that `send_data` is called with one after another, and an offline subscriber of them.
use client_server_protocoale.Common.{
  ℕ, zero, suc, ◌≡◌, ◌≤◌, ◌<◌, ◌∙◌, refl, sym, ap, Option, some, none, true, false, List, [], ◌∷◌,
  ◌++◌, ℤ, arith, length, length-take, take, get_elem?, take_all, append-nil, append_assoc, ◌==◌,
  Bool-cases, inl, inr,
}
use client_server_protocoale.CString.{strlen}
use client_server_protocoale.LinkedList.View.{View}
use client_server_protocoale.Server.World.{Os, World, Act, pure, ◌>>=◌, done}
use client_server_protocoale.Server.State.{TopicStructure, QueueElement, ClientStructure}
use client_server_protocoale.Server.Send.{send_data}
use client_server_protocoale.Server.Exchange.{Reliable}
use client_server_protocoale.Server.Deliver.{
  Sound, AllSound, subscription, after_message, after_all, keeping, send_data-Ends,
}
use client_server_protocoale.Server.Replay.{AllFit, kept_for}

-- What `send_data` is called with.
pub record Sending : Type 0 where
  pub message : List ℕ
  pub topic : List ℕ
  pub bytes : ℕ

abbrev pub sent_bytes : Sending → List ℕ
sent_bytes m = take m.bytes m.message

-- The calls of `send_data` for one message after another.
abbrev pub send_all :
    {S : Type 0} → Os S → List Sending → View ClientStructure → Act S (View ClientStructure)
send_all os [] v = pure v
send_all os (m ∷ ms) v = send_data os m.message m.topic v m.bytes >>= send_all os ms

-- Messages that hold their bytes, 1600 at most, under a topic that is not empty.
abbrev pub AllWhole : List Sending → Type 0
AllWhole [] = Unit {0}
AllWhole (m ∷ ms) =
    (0 < strlen m.topic) × (m.bytes ≤ length m.message) × (m.bytes ≤ 1600) × AllWhole ms

-- The client's first subscription that agrees with the topic has `sf` set, for every message.
abbrev pub Wants : ClientStructure → List Sending → Type 0
Wants c [] = Unit {0}
Wants c (m ∷ ms) =
    ((t : TopicStructure) × (subscription m.topic c ≡ some t) × ((t.sf == 0) ≡ false)) × Wants c ms

abbrev pub elements : List Sending → List QueueElement
elements [] = []
elements (m ∷ ms) = record { content = sent_bytes m; len = length (sent_bytes m) } ∷ elements ms

-- The packets that a subscriber on `sock` is owed.
abbrev pub owed : ℤ → List Sending → List (ℤ × List ℕ)
owed sock [] = []
owed sock (m ∷ ms) = (sock, sent_bytes m) ∷ owed sock ms

pub AllFit-elements : (ms : List Sending) → AllWhole ms → AllFit (elements ms)
AllFit-elements [] whole = tt
AllFit-elements (m ∷ ms) whole =
    (omega arith, omega (arith, whole.2, length-take m.bytes m.message), AllFit-elements ms whole.3)

pub kept_for-elements : (sock : ℤ) (ms : List Sending) → kept_for sock (elements ms) ≡ owed sock ms
kept_for-elements sock [] = refl
kept_for-elements sock (m ∷ ms) =
    rw (take_all (length (sent_bytes m)) (sent_bytes m) (omega arith))
      (ap (◌∷◌ (sock, sent_bytes m)) (kept_for-elements sock ms))

-- A message leaves the clients' lists in order.
after_message-Sound :
    (content : List ℕ) (c : ClientStructure) (o : Option TopicStructure)
    → Sound c
    → Sound (after_message content c o)
after_message-Sound content c none s = s
after_message-Sound content c (some t) s = elim (Bool-cases (c.online == 0)) [
  | inl offline ↦ elim (Bool-cases (t.sf == 0)) [
    | inl drop ↦ rw (offline, drop) s
    | inr keep ↦ rw (offline, keep) (record { topics = s.topics; queue = refl })
  ]
  | inr online ↦ rw online s
]

after_all-AllSound :
    (topic content : List ℕ) (cs : List ClientStructure)
    → AllSound cs
    → AllSound (after_all topic content cs)
after_all-AllSound topic content [] all = tt
after_all-AllSound topic content (c ∷ cs) all = (
  after_message-Sound content c (subscription topic c) all.0,
  after_all-AllSound topic content cs all.1,
)

get_elem?-after_all :
    (topic content : List ℕ) (cs : List ClientStructure) (k : ℕ) (c : ClientStructure)
    → get_elem? cs k ≡ some c
    → get_elem? (after_all topic content cs) k
      ≡ some (after_message content c (subscription topic c))
get_elem?-after_all topic content [] k c e = absurd (cc)
get_elem?-after_all topic content (d ∷ cs) zero c e =
    let same : d ≡ c = cc in ap (λ b. some (after_message content b (subscription topic b))) same
get_elem?-after_all topic content (d ∷ cs) (suc k) c e = get_elem?-after_all topic content cs k c e

-- The client behind the messages that it wants: they are at the end of its queue, in order, and
-- nothing else of it is changed.
abbrev pub Stored : ClientStructure → List Sending → ℕ → View ClientStructure → Type 0
Stored c ms k v =
    (q : View QueueElement) × (get_elem? v.items k ≡ some (record c { queue = q }))
    × (q.items ≡ c.queue.items ++ elements ms)

module _ {S : Type 0} (os : Os S) (ok : Reliable os) (k : ℕ) where
  pub send_all-Stored :
      (ms : List Sending) (c : ClientStructure) (v : View ClientStructure) (w : World S)
      → AllSound v.items
      → get_elem? v.items k ≡ some c
      → (c.online == 0) ≡ true
      → AllWhole ms
      → Wants c ms
      → (v' : View ClientStructure) × (w' : World S) × (send_all os ms v w ≡ done v' w')
        × Stored c ms k v'
  send_all-Stored [] c v w sound found offline whole wants =
      (v, w, refl, (c.queue, found, sym (append-nil _)))
  send_all-Stored (m ∷ ms) c v w sound found offline whole wants =
      let (w1, run, log) =
        send_data-Ends os ok m.message m.topic m.bytes whole.0 whole.1 v w sound in
      let (t, first, flag) = wants.0 in
      let v1 : View ClientStructure = record v {
        items = after_all m.topic (sent_bytes m) v.items;
      } in
      let found' : get_elem? v1.items k ≡ some (keeping (sent_bytes m) c) =
        get_elem?-after_all m.topic (sent_bytes m) v.items k c found
        ∙ rw (first, offline, flag) refl in
      let (v2, w2, run', (q, found2, items)) =
        send_all-Stored ms (keeping (sent_bytes m) c) v1 w1
          (after_all-AllSound m.topic (sent_bytes m) v.items sound) found' offline whole.3
          wants.1 in
      (v2, w2, rw run run', (q, found2, items ∙ append_assoc c.queue.items _ (elements ms)))
