-- ===== src/Server/Matching.antt =====
-- Which subscription a message's topic matches in `send_data`: the first whose bytes agree with
-- the topic's up to its last byte but one.
use client_server_protocoale.Common.{
  ℕ, zero, suc, ◌-◌, ◌≤◌, ◌<◌, ◌≡◌, refl, Option, some, none, Bool, true, List, [], ◌∷◌, pos, dec,
  arith, length, take, ltb, leb, le→leb, if◌then◌else◌, Bool-cases, inl, inr,
}
use client_server_protocoale.CString.{strlen, memcmp_eq, bytes_eq, size_of_int}
use client_server_protocoale.Server.State.{TopicStructure}
use client_server_protocoale.Server.Send.{compared_length, find_topic}

-- The number of bytes that are compared: the topic's length, 50 at most, less one.
abbrev pub prefix_length : List ℕ → ℕ
prefix_length topic = (if ltb 50 (strlen topic) then 50 else strlen topic) - 1

abbrev pub agrees : List ℕ → TopicStructure → Bool
agrees topic t = bytes_eq (take (prefix_length topic) t.topic) (take (prefix_length topic) topic)

abbrev pub first_match : (TopicStructure → Bool) → List TopicStructure → Option TopicStructure
first_match p [] = none
first_match p (t ∷ ts) = if p t then some t else first_match p ts

-- Subscriptions hold arrays of 50 bytes.
abbrev pub AllTopics : List TopicStructure → Type 0
AllTopics [] = Unit {0}
AllTopics (t ∷ ts) = (length t.topic ≡ 50) × AllTopics ts

pub strlen-le-length : (s : List ℕ) → strlen s ≤ length s
unfolding strlen
strlen-le-length [] = omega arith
strlen-le-length (c ∷ s) = ground (arith, strlen-le-length s)

size_of_int-dec : (n : ℕ) → 0 < n → size_of_int (dec (pos n)) ≡ n - 1
unfolding size_of_int
size_of_int-dec zero h = absurd (omega arith)
size_of_int-dec (suc n) h = omega arith

pub compared_length_lem :
    (topic : List ℕ) → 0 < strlen topic → compared_length topic ≡ prefix_length topic
unfolding compared_length
compared_length_lem topic h = size_of_int-dec _ (ground arith)

memcmp_eq-agrees :
    (topic : List ℕ) (t : TopicStructure)
    → 0 < strlen topic
    → length t.topic ≡ 50
    → memcmp_eq (compared_length topic) t.topic topic ≡ some (agrees topic t)
unfolding memcmp_eq
memcmp_eq-agrees topic t h e =
    let left : leb (prefix_length topic) (length t.topic) ≡ true = le→leb _ _ (ground arith) in
    let right : leb (prefix_length topic) (length topic) ≡ true =
      le→leb _ _ (ground (arith, strlen-le-length topic)) in
    rw (compared_length_lem topic h, left, right)

-- For a topic that is not empty and subscriptions of 50 bytes the inner loop of `send_data` reads no
-- array past its end, and finds the first subscription that agrees with the topic up to the topic's
-- last byte but one.
pub find_topic-first_match :
    (topic : List ℕ) (ts : List TopicStructure)
    → 0 < strlen topic
    → AllTopics ts
    → find_topic topic ts ≡ some (first_match (agrees topic) ts)
unfolding find_topic
find_topic-first_match topic [] h all = refl
find_topic-first_match topic (t ∷ ts) h all = elim (Bool-cases (agrees topic t)) [
  | inl same ↦ rw (memcmp_eq-agrees topic t h all.0, find_topic, same)
  | inr other ↦
      rw (memcmp_eq-agrees topic t h all.0, find_topic, other)
        (find_topic-first_match topic ts h all.1)
]
