-- ===== src/Subscriber/Strings.antt =====
-- The payload of a STRING in the server's buffer, and one that is too long for its packet.
use client_server_protocoale.Common.{
  ℕ, ◌+◌, ◌-◌, ◌≤◌, ◌<◌, ◌≡◌, some, none, List, ◌++◌, arith, le→leb, length, take-append,
}
use client_server_protocoale.CString.{NoNul}
use client_server_protocoale.Wire.Message.{msg_content}
use client_server_protocoale.Server.World.{Address}
use client_server_protocoale.Subscriber.Relay.{
  datagram, relay, relay-overflow, buffer-payload, length-datagram,
}

module _ (topic : List ℕ) (plain : NoNul topic) (short : length topic < 50) (payload : List ℕ) where
  pub string-content :
      (rest : List ℕ)
      → msg_content 3 (datagram topic 3 payload ++ rest) (length (datagram topic 3 payload))
        ≡ some (some payload)
  unfolding msg_content
  string-content rest = rw (
    length-datagram topic 3 payload short,
    le→leb 51 (51 + length payload) (omega arith),
    buffer-payload topic 3 payload rest plain short 51 0 (omega arith),
    take-append (51 + length payload - 51) payload rest (omega arith),
  )

  -- A datagram of type STRING, under a topic of fewer than 50 bytes and no NUL, with a payload of
  -- more than 1487 bytes, and at most the 1500 that `recvfrom` stores, makes the server write past
  -- the end of its buffer, whatever lies in memory.
  pub relay-string_overflow :
      (memory padding behind : List ℕ) (from : Address)
      → 1487 < length payload
      → length payload ≤ 1500
      → relay (datagram topic 3 payload) memory from padding behind ≡ none
  unfolding relay
  relay-string_overflow memory padding behind from long stored =
      relay-overflow topic 3 payload _ plain short _ payload memory padding behind from
        (string-content _) (omega arith)
