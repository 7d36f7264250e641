-- ===== src/Wire/Header.antt =====
-- `server_to_client_hdr` of include/util.h as the 64 bytes that `memcpy` moves: `type` at 0,
-- `udp_ip` at 4, `udp_port` at 8, `topic` at 10, `bytes` at 60, and three bytes of padding at 1.
use client_server_protocoale.Common.{
  ℕ, ◌^◌, ◌<◌, ◌≡◌, List, ◌∷◌, ◌++◌, arith, take, drop, get_or, length, length-append, append_assoc,
  take-append, drop-append,
}
use client_server_protocoale.Wire.Bytes.{le32, le16, read_le32, read_le16}

pub record ServerToClientHdr : Type 0 where
  pub type : ℕ
  pub udp_ip : ℕ
  pub udp_port : ℕ
  pub topic : List ℕ
  pub bytes : ℕ

abbrev pub topic_size : ℕ
topic_size = 50

unfoldable pub encode_header : List ℕ → ServerToClientHdr → List ℕ
encode_header padding h =
    h.type ∷ get_or padding 0 0 ∷ get_or padding 1 0 ∷ get_or padding 2 0 ∷ le32 h.udp_ip
    ++ (le16 h.udp_port ++ (h.topic ++ le32 h.bytes))

-- A header as the subscriber reads it at the front of its buffer.
unfoldable pub decode_header : List ℕ → ServerToClientHdr
decode_header buf = record {
  type = get_or buf 0 0;
  udp_ip = read_le32 (drop 4 buf);
  udp_port = read_le16 (drop 8 buf);
  topic = take topic_size (drop 10 buf);
  bytes = read_le32 (drop 60 buf);
}

-- A header whose fields fit their C types.
pub record Fits (h : ServerToClientHdr) : Type 0 where
  pub ip : h.udp_ip < 2 ^ 32
  pub port : h.udp_port < 2 ^ 16
  pub topic : length h.topic ≡ topic_size
  pub bytes : h.bytes < 2 ^ 32

module _ (padding : List ℕ) (h : ServerToClientHdr) where
  pub length-encode_header : length h.topic ≡ topic_size → length (encode_header padding h) ≡ 64
  unfolding encode_header
  length-encode_header e = omega (arith, length-append h.topic (le32 h.bytes))

  -- A header whose fields fit their C types, copied to the front of a buffer, is read back whole,
  -- whatever the padding and whatever follows.
  pub decode_header-encode_header :
      (rest : List ℕ) → Fits h → decode_header (encode_header padding h ++ rest) ≡ h
  unfolding encode_header decode_header
  decode_header-encode_header rest f =
      rw
        (
          append_assoc,
          take-append topic_size h.topic (le32 h.bytes ++ rest) f.topic,
          drop-append topic_size h.topic (le32 h.bytes ++ rest) f.topic,
        )
        (ground arith)
