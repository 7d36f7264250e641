-- ===== src/Wire/Message.antt =====
-- server_util.c: `build_msg`, which takes a datagram apart, and `build_sentBuffer`, which puts the
-- packet for the subscribers together. `none` is a use of memory, or an overflow of an `int`, that
-- C leaves undefined.
use client_server_protocoale.Common.{
  ℕ, ◌+◌, ◌-◌, ◌%◌, ◌^◌, Option, none, some, List, [], ◌∷◌, ◌++◌, ltb, leb, ◌==◌, if◌then◌else◌,
  get_or, take, drop, length,
}
use client_server_protocoale.CString.{strlen, zeros, overlay}
use client_server_protocoale.Wire.Bytes.{be32, read_be32, swap32}
use client_server_protocoale.Wire.Header.{ServerToClientHdr, topic_size, encode_header}
use client_server_protocoale.Server.World.{Address}
use client_server_protocoale.Server.State.{max_len_buf, server_to_client_size}

-- `topic` holds the string with its NUL. `content` is `none` where `data` stays NULL and `bytes`
-- stays unset; otherwise it is what `data` points to, `bytes` long.
pub record Message : Type 0 where
  pub topic : List ℕ
  pub type : ℕ
  pub content : Option (List ℕ)

-- The cases of the `switch`, at the datagram's type. The number of case 0 is read in network
-- order, negated where the sign byte is 1, and stored in network order again.
abbrev pub negated : ℕ → ℕ
negated v = (2 ^ 32 - v) % 2 ^ 32

unfoldable pub int_bytes : (sign v : ℕ) → Option (List ℕ)
int_bytes sign v =
    if sign == 1 then (if v == 2 ^ 31 then none else some (be32 (negated v))) else some (be32 v)

unfoldable pub int_content : List ℕ → Option (List ℕ)
unfolding int_bytes
int_content buf = int_bytes (get_or buf 51 0) (read_be32 (drop 52 buf))

unfoldable pub msg_content : ℕ → List ℕ → ℕ → Option (Option (List ℕ))
unfolding int_content
msg_content type buf bytes =
    if type == 0
    then elim (int_content buf) [ none ↦ none | some d ↦ some (some d) ]
    else if type == 1
    then some (some (take 2 (drop 51 buf)))
    else if type == 2
    then some (some (take 6 (drop 51 buf)))
    else if type == 3
    then (if leb 51 bytes then some (some (take (bytes - 51) (drop 51 buf))) else none)
    else some none

unfoldable pub build_msg : List ℕ → ℕ → Option Message
unfolding msg_content
build_msg buf bytes =
    if ltb (strlen buf) (length buf)
    then (elim (msg_content (get_or buf 50 0) buf bytes) [
      | none ↦ none
      | some content ↦ some (record {
        topic = take (strlen buf) buf ++ 0 ∷ [];
        type = get_or buf 50 0;
        content = content;
      })
    ])
    else none

-- `behind` is what lies in memory behind the topic's own bytes: the code copies 50 bytes whatever
-- the topic's length is.
unfoldable pub msg_header : List ℕ → Message → List ℕ → Address → ServerToClientHdr
msg_header content msg behind from = record {
  type = msg.type;
  udp_ip = swap32 from.s_addr;
  udp_port = from.sin_port;
  topic = take topic_size (msg.topic ++ behind);
  bytes = length content;
}

-- `padding` are the bytes of the header that no field covers. A packet that is longer than the
-- buffer is written past its end.
unfoldable pub build_sent_buffer : Message → List ℕ → Address → List ℕ → Option (List ℕ)
unfolding msg_header
build_sent_buffer msg behind from padding = elim msg.content [
  | none ↦ none
  | some content ↦
      if leb (server_to_client_size + length content) max_len_buf
      then some (
          overlay (encode_header padding (msg_header content msg behind from) ++ content)
            (zeros max_len_buf))
      else none
]
