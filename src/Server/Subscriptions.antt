-- ===== src/Server/Subscriptions.antt =====
-- The subscribe command against the delivery of messages, and a removal that leaves a dangling
-- tail behind.
use client_server_protocoale.Common.{
  ℕ, ◌≡◌, ◌≢◌, ◌↔◌, ◌<◌, ◌⊎◌, inl, inr, refl, sym, Option, some, none, Bool, true, false, List, [],
  ◌∷◌, ◌++◌, arith, length, inc, take-append, Bool-cases,
}
use client_server_protocoale.CString.{NoNul}
use client_server_protocoale.LinkedList.View.{View}
use client_server_protocoale.LinkedList.ViewLaws.{add_last-in_order}
use client_server_protocoale.Server.State.{TopicStructure}
use client_server_protocoale.Server.Command.{same_topic, set_sf, subscribe}
use client_server_protocoale.Server.Matching.{agrees, first_match, AllTopics}
use client_server_protocoale.Server.Prefix.{text, agrees-text_iff, same_topic-text_iff}

Bool-ext : (a b : Bool) → (a ≡ true) ↔ (b ≡ true) → a ≡ b
Bool-ext true true e = refl
Bool-ext true false e = sym (e.0 refl)
Bool-ext false true e = e.1 refl
Bool-ext false false e = refl

first_match-append :
    (p : TopicStructure → Bool) (ts : List TopicStructure) (t : TopicStructure)
    → first_match p ts ≡ none
    → p t ≡ true
    → first_match p (ts ++ t ∷ []) ≡ some t
first_match-append p [] t e h = rw h
first_match-append p (u ∷ ts) t e h = ground (arith, first_match-append p ts t)

pub AllTopics-append :
    (ts : List TopicStructure) (t : TopicStructure)
    → AllTopics ts
    → length t.topic ≡ 50
    → AllTopics (ts ++ t ∷ [])
AllTopics-append [] t all e = (e, tt)
AllTopics-append (u ∷ ts) t all e = (all.0, AllTopics-append ts t all.1 e)

-- `rest` fills the command's array up, `more` is what follows the topic in the message.
module _ (s : List ℕ) (c : ℕ) (rest more : List ℕ) (sf : ℕ) (plain : NoNul s) (ne : c ≢ 0)
    (short : length s < 50) where
  abbrev subscribed : List ℕ
  subscribed = text s c rest

  abbrev published : TopicStructure → Bool
  published = agrees (text s c more)

  same-agrees : (t : TopicStructure) → length t.topic ≡ 50 → same_topic subscribed t ≡ published t
  same-agrees t e =
      let a = same_topic-text_iff s c rest plain ne t short e in
      let b = agrees-text_iff s c more plain ne t short in
      Bool-ext _ _ (λ h. b.1 (a.0 h), λ h. a.1 (b.0 h))

  abbrev Outcome : List TopicStructure → Option (List TopicStructure) → Type 0
  Outcome ts o =
      ((o ≡ none) × (first_match published ts ≡ none))
      ⊎ ((us : List TopicStructure) × (t : TopicStructure) × (o ≡ some us)
          × AllTopics us
          × (first_match published us ≡ some t)
          × (t.sf ≡ sf))

  set_sf-Outcome : (ts : List TopicStructure) → AllTopics ts → Outcome ts (set_sf subscribed sf ts)
  unfolding set_sf
  set_sf-Outcome [] all = inl (refl, refl)
  set_sf-Outcome (t ∷ ts) all = elim (Bool-cases (published t)) [
    | inl hit ↦ inr (
      record t { sf = sf } ∷ ts,
      record t { sf = sf },
      rw (same-agrees t all.0, hit),
      (all.0, all.1),
      rw hit,
      refl,
    )
    | inr miss ↦ elim (set_sf-Outcome ts all.1) [
      | inl (e, none_yet) ↦ inl (rw (same-agrees t all.0, miss, e), rw miss none_yet)
      | inr (us, u, e, ok, found, kept) ↦
          inr (t ∷ us, u, rw (same-agrees t all.0, miss, e), (all.0, ok), rw miss found, kept)
    ]
  ]

  -- With the list's tail in order and arrays of 50 bytes, subscribing to a topic of 1 to 49 bytes
  -- succeeds and leaves the tail in order and the arrays of 50 bytes. Behind it a message on the
  -- topic finds a subscription, and the first it finds has the `sf` that was asked for.
  pub subscribe-first_match :
      (v : View TopicStructure)
      → v.dangling ≡ false
      → AllTopics v.items
      → length subscribed ≡ 50
      → (v' : View TopicStructure) × (t : TopicStructure) × (subscribe subscribed sf v ≡ some v')
        × (v'.dangling ≡ false)
        × AllTopics v'.items
        × (first_match published v'.items ≡ some t)
        × (t.sf ≡ sf)
  unfolding subscribe
  subscribe-first_match v order all full = elim (set_sf-Outcome v.items all) [
    | inl (e, none_yet) ↦
        let t : TopicStructure = record { topic = subscribed; sf = sf } in
        (
          record { items = v.items ++ t ∷ []; size = inc v.size; dangling = false },
          t,
          rw (e, subscribe) (add_last-in_order v t order),
          refl,
          AllTopics-append v.items t all full,
          first_match-append published v.items t none_yet (
              (agrees-text_iff s c more plain ne t short).1
                (take-append (length s) s (c ∷ 0 ∷ rest) refl)),
          refl,
        )
    | inr (us, t, e, ok, found, kept) ↦
        (record v { items = us }, t, rw (e, subscribe), order, ok, found, kept)
  ]
