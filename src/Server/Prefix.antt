-- ===== src/Server/Prefix.antt =====
-- What `len - 1` in the two comparisons means: a topic `s ++ c ∷ []` agrees with every subscription
-- that begins with `s`.
use client_server_protocoale.Common.{
  Bool, Option, some, none, false, ℕ, suc, ◌<◌, ◌≡◌, ◌≢◌, ◌↔◌, ◌∙◌, refl, sym, ap, true, List, [],
  ◌∷◌, ◌++◌, arith, length, length-append, take, take-append, append_assoc, leb, le→leb,
}
use client_server_protocoale.CString.{
  strlen, NoNul, memcmp_eq, strlen-append, bytes_eq_iff, strncmp_eq_iff,
}
use client_server_protocoale.LinkedList.View.{View}
use client_server_protocoale.Server.World.{Os, World, pure, undefined, ◌>>=◌}
use client_server_protocoale.Server.State.{TopicStructure, ClientStructure}
use client_server_protocoale.Server.Send.{
  compared_length, find_topic, hand_over, send_to, send_loop, send_data,
}
use client_server_protocoale.Server.Command.{same_topic}
use client_server_protocoale.Server.Matching.{prefix_length, agrees, compared_length_lem}

-- The bytes of a topic with its NUL and whatever follows it.
abbrev pub text : List ℕ → ℕ → List ℕ → List ℕ
text s c rest = s ++ c ∷ 0 ∷ rest

NoNul-snoc : (s : List ℕ) (c : ℕ) → NoNul s → c ≢ 0 → NoNul (s ++ c ∷ [])
NoNul-snoc [] c plain ne = (ne, tt)
NoNul-snoc (x ∷ s) c plain ne = (plain.0, NoNul-snoc s c plain.1 ne)

module _ (s : List ℕ) (c : ℕ) (rest : List ℕ) (plain : NoNul s) (ne : c ≢ 0) where
  strlen-text : strlen (text s c rest) ≡ suc (length s)
  strlen-text =
      ap strlen (sym (append_assoc s (c ∷ []) (0 ∷ rest)))
      ∙ strlen-append (s ++ c ∷ []) rest (NoNul-snoc s c plain ne)
      ∙ omega (arith, length-append s (c ∷ []))

  prefix_length-text : length s < 50 → prefix_length (text s c rest) ≡ length s
  prefix_length-text short = ground (arith, strlen-text)

  module _ (t : TopicStructure) (short : length s < 50) where
    -- The bytes that are compared are those of `s`.
    pub agrees-text_iff : (agrees (text s c rest) t ≡ true) ↔ (take (length s) t.topic ≡ s)
    agrees-text_iff =
        rw (prefix_length-text short, take-append (length s) s (c ∷ 0 ∷ rest) refl)
          (bytes_eq_iff (take (length s) t.topic) s)

    -- The subscribe command takes a topic `s ++ c ∷ []` of 50 bytes at most for the same as exactly
    -- the subscriptions, of 50 bytes, that begin with `s`.
    pub same_topic-text_iff :
        length t.topic ≡ 50 → (same_topic (text s c rest) t ≡ true) ↔ (take (length s) t.topic ≡ s)
    unfolding same_topic
    same_topic-text_iff e =
        rw
          (
            compared_length_lem (text s c rest) (omega (arith, strlen-text)),
            prefix_length-text short,
          )
          (strncmp_eq_iff s t.topic (c ∷ 0 ∷ rest) plain (omega arith))

-- A topic, `c` being its last byte: the bytes that are compared do not depend on it.
compared_length-text :
    (s : List ℕ) (c : ℕ) (rest : List ℕ)
    → NoNul s
    → c ≢ 0
    → length s < 50
    → compared_length (text s c rest) ≡ length s
compared_length-text s c rest plain ne short =
    compared_length_lem (text s c rest) (omega (arith, strlen-text s c rest plain ne))
    ∙ prefix_length-text s c rest plain ne short

module _ (s : List ℕ) (c d : ℕ) (rest rest' : List ℕ) (plain : NoNul s) (ne : c ≢ 0) (ne' : d ≢ 0)
    (short : length s < 50) where
  memcmp_eq-last_byte :
      (a : List ℕ)
      → memcmp_eq (length s) a (text s c rest) ≡ memcmp_eq (length s) a (text s d rest')
  unfolding memcmp_eq
  memcmp_eq-last_byte a =
      let e : leb (length s) (length (text s c rest)) ≡ true =
        le→leb _ _ (omega (arith, length-append s (c ∷ 0 ∷ rest))) in
      let e' : leb (length s) (length (text s d rest')) ≡ true =
        le→leb _ _ (omega (arith, length-append s (d ∷ 0 ∷ rest'))) in
      rw (
        e,
        e',
        take-append (length s) s (c ∷ 0 ∷ rest) refl,
        take-append (length s) s (d ∷ 0 ∷ rest') refl,
      )

  first : compared_length (text s c rest) ≡ length s
  first = compared_length-text s c rest plain ne short

  second : compared_length (text s d rest') ≡ length s
  second = compared_length-text s d rest' plain ne' short

  find_topic-last_byte :
      (ts : List TopicStructure) → find_topic (text s c rest) ts ≡ find_topic (text s d rest') ts
  unfolding find_topic
  find_topic-last_byte [] = refl
  find_topic-last_byte (t ∷ ts) =
      go (memcmp_eq (length s) t.topic (text s d rest')) refl (find_topic-last_byte ts)
    where
      go :
          (o : Option Bool)
          → memcmp_eq (length s) t.topic (text s d rest') ≡ o
          → find_topic (text s c rest) ts ≡ find_topic (text s d rest') ts
          → find_topic (text s c rest) (t ∷ ts) ≡ find_topic (text s d rest') (t ∷ ts)
      go none e ih = rw (first, second, memcmp_eq-last_byte t.topic, e, find_topic) refl
      go (some true) e ih = rw (first, second, memcmp_eq-last_byte t.topic, e, find_topic) refl
      go (some false) e ih = rw (first, second, memcmp_eq-last_byte t.topic, e, find_topic) ih

  send_to-last_byte :
      {S : Type 0} (os : Os S) (message : List ℕ) (bytes : ℕ) (x : ClientStructure)
      → send_to os message (text s c rest) bytes x ≡ send_to os message (text s d rest') bytes x
  unfolding send_to
  send_to-last_byte os message bytes x =
      ap
        (λ o. elim o [
          | none ↦ undefined
          | some none ↦ pure x
          | some (some t) ↦ hand_over os message bytes x t
        ])
        (find_topic-last_byte x.subscribed_topics.items)

  send_loop-last_byte :
      {S : Type 0} (os : Os S) (message : List ℕ) (bytes : ℕ) (cs : List ClientStructure)
      → send_loop os message (text s c rest) bytes cs
        ≡ send_loop os message (text s d rest') bytes cs
  unfolding send_loop
  send_loop-last_byte os message bytes [] = refl
  send_loop-last_byte os message bytes (x ∷ cs) =
      ap
        (λ first_client. do
          c' ← first_client
          cs' ← send_loop os message (text s c rest) bytes cs
          pure (c' ∷ cs'))
        (send_to-last_byte os message bytes x)
      ∙ ap
          (λ others. do
            c' ← send_to os message (text s d rest') bytes x
            cs' ← others
            pure (c' ∷ cs'))
          (send_loop-last_byte os message bytes cs)

  -- A topic's last byte does not count: `send_data` with a topic `s ++ c ∷ []` of 50 bytes at most
  -- and no NUL does what it does with any topic `s ++ d ∷ []`, whatever the system answers: the same
  -- packets to the same clients, the same elements in the queues, the same end.
  pub send_data-last_byte :
      {S : Type 0} (os : Os S) (message : List ℕ) (v : View ClientStructure) (bytes : ℕ)
      (w : World S)
      → send_data os message (text s c rest) v bytes w
        ≡ send_data os message (text s d rest') v bytes w
  unfolding send_data
  send_data-last_byte os message v bytes w =
      ap (λ loop. (do cs ← loop; pure (record v { items = cs })) w)
        (send_loop-last_byte os message bytes v.items)
