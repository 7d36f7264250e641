-- ===== src/Subscriber/Relay.antt =====
-- The whole way of a message: the UDP client's datagram, the server's packet, the subscriber's
-- line. A datagram is laid out as the UDP client of pcom_hw2_udp_client does it: 50 bytes of topic
-- filled up with NULs, a type byte, and the payload.
use client_server_protocoale.Common.{
  ℕ, zero, suc, ◌+◌, ◌-◌, ◌^◌, ◌≤◌, ◌<◌, ◌≡◌, ◌∙◌, refl, ap, Option, none, some, true, List, [],
  ◌∷◌, ◌++◌, arith, lt→ltb, take_past, ltb, take, drop, get_or, length, length-append, append_assoc,
  drop-append_add, get_or-append_add, length-replicate,
}
use client_server_protocoale.CString.{strlen, zeros, overlay, NoNul, strlen-append, take-strlen}
use client_server_protocoale.Wire.Bytes.{swap16}
use client_server_protocoale.Wire.Message.{Message, build_msg, msg_content, msg_header}
use client_server_protocoale.Wire.Header.{ServerToClientHdr}
use client_server_protocoale.Server.World.{Address}
use client_server_protocoale.Subscriber.Display.{Line, Value, string_of, value_of, line_of}
use client_server_protocoale.Subscriber.Delivery.{deliver, deliver-overflow, deliver-line}

-- The 50 bytes of a topic of fewer than 50.
abbrev pub padded : List ℕ → List ℕ
padded topic = topic ++ zeros (50 - length topic)

unfoldable pub datagram : List ℕ → ℕ → List ℕ → List ℕ
datagram topic type payload = padded topic ++ type ∷ payload

-- The datagram in `buf` after `memset` and `recvfrom`, the server's packet, and the subscriber's
-- line for it.
unfoldable pub arrive : Option Message → List ℕ → Address → List ℕ → List ℕ → Option (Option Line)
arrive none memory from padding behind = none
arrive (some msg) memory from padding behind = deliver msg memory from padding behind

unfoldable pub relay : List ℕ → List ℕ → Address → List ℕ → List ℕ → Option (Option Line)
unfolding arrive
relay bytes memory from padding behind =
    arrive (build_msg (overlay bytes (zeros 1551)) (length bytes)) memory from padding behind

-- The line for a value under a topic, from an address.
abbrev pub shown : List ℕ → Address → Option Value → Option (Option Line)
shown topic from none = none
shown topic from (some v) =
    some (
      some
        (record { adr = from.s_addr; udp_port = swap16 from.sin_port; topic = topic; value = v }))

line_of-shown :
    (h : ServerToClientHdr) (val topic : List ℕ) (from : Address) (v : Option Value)
    → string_of (h.topic ++ 0 ∷ []) ≡ topic
    → line_of h (record { val = val; adr = from.s_addr; udp_port = swap16 from.sin_port }) v
      ≡ shown topic from v
line_of-shown h val topic from none e = refl
line_of-shown h val topic from (some v) e = rw e

zeros-suc : (k : ℕ) → 0 < k → zeros k ≡ 0 ∷ zeros (k - 1)
zeros-suc zero h = absurd (omega arith)
zeros-suc (suc k) h = ap (λ (n : ℕ). 0 ∷ zeros n) (omega arith)

module _ (topic : List ℕ) (type : ℕ) (payload rest : List ℕ) (plain : NoNul topic)
    (short : length topic < 50) where
  -- The server's buffer, with `rest` behind the datagram.
  abbrev pub buffer : List ℕ
  buffer = datagram topic type payload ++ rest

  length-padded : length (padded topic) ≡ 50
  length-padded = omega (
    arith,
    length-append topic (zeros (50 - length topic)),
    length-replicate {A = ℕ} (50 - length topic) 0,
  )

  buffer-type : get_or buffer 50 0 ≡ type
  unfolding datagram
  buffer-type = rw append_assoc (
      get_or-append_add 50 0 (padded topic) (type ∷ payload ++ rest) 0
        (omega (arith, length-padded)))

  pub buffer-payload : (n k : ℕ) → n ≡ 51 + k → drop n buffer ≡ drop k (payload ++ rest)
  unfolding datagram
  buffer-payload n k e = rw append_assoc (
      drop-append_add n (suc k) (padded topic) (type ∷ payload ++ rest)
        (omega (arith, length-padded)))

  pub buffer-byte : (n k : ℕ) → n ≡ 51 + k → get_or buffer n 0 ≡ get_or (payload ++ rest) k 0
  unfolding datagram
  buffer-byte n k e = rw append_assoc (
      get_or-append_add n (suc k) (padded topic) (type ∷ payload ++ rest) 0
        (omega (arith, length-padded)))

  buffer-topic : (end : List ℕ) × (buffer ≡ topic ++ 0 ∷ end)
  unfolding datagram
  buffer-topic = (
    zeros (50 - length topic - 1) ++ (type ∷ payload ++ rest),
    rw (zeros-suc (50 - length topic) (omega arith)) (simp append_assoc),
  )

  build_msg-buffer :
      (ret : ℕ) (content : List ℕ)
      → msg_content type buffer ret ≡ some (some content)
      → build_msg buffer ret
        ≡ some (record { topic = topic ++ 0 ∷ []; type = type; content = some content })
  unfolding build_msg
  build_msg-buffer ret content e =
      let text = buffer-topic.1 in
      let len : strlen buffer ≡ length topic =
        ap strlen text ∙ strlen-append topic buffer-topic.0 plain in
      let name : take (strlen buffer) buffer ≡ topic =
        ap (λ b. take (strlen b) b) text ∙ take-strlen topic buffer-topic.0 plain in
      let ends : ltb (strlen buffer) (length buffer) ≡ true =
        lt→ltb (strlen buffer) (length buffer)
          (omega (arith, len, ap length text, length-append topic (0 ∷ buffer-topic.0))) in
      rw (ends, buffer-type, e, buffer-type, name)

  -- The topic survives its stay in the header.
  header-topic :
      (memory : List ℕ) → string_of (take 50 ((topic ++ 0 ∷ []) ++ memory) ++ 0 ∷ []) ≡ topic
  header-topic memory =
      let cut = take_past 50 topic memory 0 short in
      rw append_assoc (
        ap (λ t. string_of (t ++ 0 ∷ [])) cut.1
        ∙ ap string_of (append_assoc topic (0 ∷ cut.0) (0 ∷ []))
        ∙ take-strlen topic (cut.0 ++ 0 ∷ []) plain)

  pub relay-buffer :
      (ret : ℕ) (content memory padding behind : List ℕ) (from : Address)
      → msg_content type buffer ret ≡ some (some content)
      → type < 4
      → 64 + length content ≤ 1551
      → 49 ≤ length memory
      → from.s_addr < 2 ^ 32
      → from.sin_port < 2 ^ 16
      → arrive (build_msg buffer ret) memory from padding behind
        ≡ shown topic from (value_of type content behind)
  unfolding arrive msg_header
  relay-buffer ret content memory padding behind from e known room there address port =
      let msg : Message = record { topic = topic ++ 0 ∷ []; type = type; content = some content } in
      ap (λ m. arrive m memory from padding behind) (build_msg-buffer ret content e)
      ∙ deliver-line msg content memory padding behind from refl known room
          (omega (arith, length-append topic (0 ∷ []))) address port
      ∙ line_of-shown (msg_header content msg memory from) content topic from
          (value_of type content behind) (header-topic memory)

  pub relay-overflow :
      (ret : ℕ) (content memory padding behind : List ℕ) (from : Address)
      → msg_content type buffer ret ≡ some (some content)
      → 1551 < 64 + length content
      → arrive (build_msg buffer ret) memory from padding behind ≡ none
  unfolding arrive
  relay-overflow ret content memory padding behind from e long =
      ap (λ m. arrive m memory from padding behind) (build_msg-buffer ret content e)
      ∙ deliver-overflow (record { topic = topic ++ 0 ∷ []; type = type; content = some content })
          content memory padding behind from refl long

pub length-datagram :
    (topic : List ℕ) (type : ℕ) (payload : List ℕ)
    → length topic < 50
    → length (datagram topic type payload) ≡ 51 + length payload
unfolding datagram
length-datagram topic type payload short = omega (
  arith,
  length-append (padded topic) (type ∷ payload),
  length-append topic (zeros (50 - length topic)),
  length-replicate {A = ℕ} (50 - length topic) 0,
)
