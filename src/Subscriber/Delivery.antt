-- ===== src/Subscriber/Delivery.antt =====
-- From the server's buffer to the subscriber's line: what `build_sentBuffer` packs, `show_packet`
-- unpacks.
use client_server_protocoale.Common.{
  ℕ, ◌+◌, ◌^◌, ◌≤◌, ◌<◌, ◌≡◌, ◌∙◌, refl, ap, Option, none, some, true, false, List, ◌++◌, arith,
  ltb, leb, take, length, length-append, length-take, append_assoc, take-append, drop-append,
}
use client_server_protocoale.CString.{zeros, overlay}
use client_server_protocoale.Wire.Bytes.{swap32, swap16, swap32-swap32}
use client_server_protocoale.Wire.Header.{
  ServerToClientHdr, Fits, encode_header, decode_header, length-encode_header,
  decode_header-encode_header,
}
use client_server_protocoale.Wire.Message.{Message, msg_header, build_sent_buffer}
use client_server_protocoale.Server.World.{Address}
use client_server_protocoale.Subscriber.Display.{
  Line, line_of, extract, value_of, show_header, show_packet,
}

module _ (padding content rest behind : List ℕ) (h : ServerToClientHdr) (fits : Fits h) where
  abbrev packet : List ℕ
  packet = (encode_header padding h ++ content) ++ rest

  decode-packet : decode_header packet ≡ h
  decode-packet = rw append_assoc (decode_header-encode_header padding h (content ++ rest) fits)

  extract-packet :
      length content ≡ h.bytes
      → extract packet h
        ≡ some (record { val = content; adr = swap32 h.udp_ip; udp_port = swap16 h.udp_port })
  unfolding extract
  extract-packet e =
      let room : leb (64 + h.bytes) (length packet) ≡ true = ground (
        arith,
        length-append (encode_header padding h ++ content) rest,
        length-append (encode_header padding h) content,
        length-encode_header padding h fits.topic,
      ) in
      rw (
        room,
        append_assoc,
        drop-append 64 (encode_header padding h) (content ++ rest)
            (length-encode_header padding h fits.topic),
        take-append h.bytes content rest e,
      )

  show_header-packet :
      length content ≡ h.bytes
      → h.type < 4
      → show_header h packet behind
        ≡ line_of h
            (record { val = content; adr = swap32 h.udp_ip; udp_port = swap16 h.udp_port })
            (value_of h.type content behind)
  unfolding show_header
  show_header-packet e small =
      let known : ltb h.type 4 ≡ true = ground arith in rw (known, extract-packet e)

  pub show_packet-packet :
      length content ≡ h.bytes
      → h.type < 4
      → show_packet packet behind
        ≡ line_of h
            (record { val = content; adr = swap32 h.udp_ip; udp_port = swap16 h.udp_port })
            (value_of h.type content behind)
  unfolding show_packet
  show_packet-packet e small =
      ap (λ k. show_header k packet behind) decode-packet ∙ show_header-packet e small

-- What reaches the subscriber: the packet that `send_data` sends, at the front of its buffer.
unfoldable pub arrived : List ℕ → List ℕ → List ℕ
arrived content buf = overlay (take (64 + length content) buf) (zeros 1600)

-- A message on its way: packed by the server, sent, and shown.
abbrev show_sent : List ℕ → Option (List ℕ) → List ℕ → Option (Option Line)
show_sent content none behind = none
show_sent content (some out) behind = show_packet (arrived content out) behind

deliver_content :
    Option (List ℕ) → Message → List ℕ → Address → List ℕ → List ℕ → Option (Option Line)
deliver_content none msg memory from padding behind = none
deliver_content (some content) msg memory from padding behind =
    show_sent content (build_sent_buffer msg memory from padding) behind

unfoldable pub deliver : Message → List ℕ → Address → List ℕ → List ℕ → Option (Option Line)
unfolding deliver_content
deliver msg memory from padding behind = deliver_content msg.content msg memory from padding behind

-- A packet that is longer than the server's buffer.
pub deliver-overflow :
    (msg : Message) (content memory padding behind : List ℕ) (from : Address)
    → msg.content ≡ some content
    → 1551 < 64 + length content
    → deliver msg memory from padding behind ≡ none
unfolding deliver
deliver-overflow msg content memory padding behind from set long =
    ap (λ c. deliver_content c msg memory from padding behind) set
    ∙ ap (λ b. show_sent content b behind) overflow
  where
    overflow : build_sent_buffer msg memory from padding ≡ none
    overflow =
        let over : leb (64 + length content) 1551 ≡ false = ground arith in
        unfold build_sent_buffer in rw (set, over)

module _ (msg : Message) (content memory padding behind : List ℕ) (from : Address)
    (set : msg.content ≡ some content) (known : msg.type < 4) (room : 64 + length content ≤ 1551)
    (there : 50 ≤ length msg.topic + length memory) (address : from.s_addr < 2 ^ 32)
    (port : from.sin_port < 2 ^ 16) where
  abbrev pub header : ServerToClientHdr
  header = msg_header content msg memory from

  Fits-header : Fits header
  unfolding msg_header swap32
  Fits-header = record {
    ip = omega arith;
    port = port;
    topic = omega (arith, length-take 50 (msg.topic ++ memory), length-append msg.topic memory);
    bytes = omega arith;
  }

  -- The packet that is built.
  abbrev built : List ℕ
  built = overlay (encode_header padding header ++ content) (zeros 1551)

  build-built : build_sent_buffer msg memory from padding ≡ some built
  unfolding build_sent_buffer
  build-built = let fits : leb (64 + length content) 1551 ≡ true = ground arith in rw (set, fits)

  length-header : length (encode_header padding header) ≡ 64
  length-header = length-encode_header padding header Fits-header.topic

  take-built : take (64 + length content) built ≡ encode_header padding header ++ content
  take-built = take-append (64 + length content) (encode_header padding header ++ content) _ (
      length-append (encode_header padding header) content
      ∙ ap (λ n. n + length content) length-header)

  show-arrived :
      show_packet (arrived content built) behind
      ≡ line_of header
          (record { val = content; adr = from.s_addr; udp_port = swap16 from.sin_port })
          (value_of msg.type content behind)
  unfolding arrived msg_header
  show-arrived =
      ap (λ p. show_packet (overlay p (zeros 1600)) behind) take-built
      ∙ show_packet-packet padding content _ behind header Fits-header refl known
      ∙ ap
          (λ a.
            line_of header (record { val = content; adr = a; udp_port = swap16 from.sin_port })
              (value_of msg.type content behind))
          (swap32-swap32 from.s_addr address)

  pub deliver-line :
      deliver msg memory from padding behind
      ≡ line_of header
          (record { val = content; adr = from.s_addr; udp_port = swap16 from.sin_port })
          (value_of msg.type content behind)
  unfolding deliver
  deliver-line =
      ap (λ c. deliver_content c msg memory from padding behind) set
      ∙ ap (λ b. show_sent content b behind) build-built
      ∙ show-arrived
