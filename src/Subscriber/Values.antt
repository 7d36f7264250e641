-- ===== src/Subscriber/Values.antt =====
-- The four types of message, from the datagram's payload to the subscriber's line.
use client_server_protocoale.Common.{
  ℕ, zero, suc, ◌+◌, ◌*◌, ◌^◌, ◌≤◌, ◌<◌, ◌≡◌, ◌∙◌, refl, ap, sym, append-nil, some, false, List, [],
  ◌∷◌, ◌++◌, ℤ, pos, negsuc, arith, ◌==◌, if◌then◌else◌, not, get_or, length, length-append,
}
use client_server_protocoale.CString.{NoNul, take-strlen}
use client_server_protocoale.Wire.Bytes.{be32, read_be32, read_be32-be32, length-be32}
use client_server_protocoale.Wire.Message.{msg_content, int_bytes, int_content, negated}
use client_server_protocoale.Server.World.{Address}
use client_server_protocoale.Subscriber.Display.{
  int, short_real, float, string, value_of, signed32, float_value, scaled, my_pow,
}
use client_server_protocoale.Subscriber.Power.{my_pow-fits}
use client_server_protocoale.Subscriber.Strings.{string-content}
use client_server_protocoale.Subscriber.Relay.{
  datagram, relay, relay-buffer, shown, buffer-payload, buffer-byte,
}

-- -v, as an integer.
abbrev pub minus : ℕ → ℤ
minus zero = pos 0
minus (suc n) = negsuc n

signed32-negated : (v : ℕ) → v < 2 ^ 31 → signed32 (negated v) ≡ minus v
unfolding signed32
signed32-negated zero h = refl
signed32-negated (suc n) h = ground arith

signed32-pos : (v : ℕ) → v < 2 ^ 31 → signed32 v ≡ pos v
unfolding signed32
signed32-pos v h = ground arith

-- What lies behind the datagram in the server's buffer, and the surroundings of the transfer.
module _ (topic : List ℕ) (plain : NoNul topic) (short : length topic < 50)
    (memory padding behind : List ℕ) (from : Address) (there : 49 ≤ length memory)
    (address : from.s_addr < 2 ^ 32) (port : from.sin_port < 2 ^ 16) where
  module _ (sign v : ℕ) (small : v < 2 ^ 31) where
    int_word : ℕ
    int_word = if sign == 1 then negated v else v

    int_bytes_lem : int_bytes sign v ≡ some (be32 int_word)
    unfolding int_bytes int_word
    int_bytes_lem = let ok : (v == 2 ^ 31) ≡ false = ground arith in rw ok (ground arith)

    int_word-lt : int_word < 2 ^ 32
    unfolding int_word
    int_word-lt = ground arith

    int_word-signed : signed32 int_word ≡ (if sign == 1 then minus v else pos v)
    unfolding int_word
    int_word-signed = ground (arith, signed32-negated v, signed32-pos v)

    int-content :
        (rest : List ℕ) (ret : ℕ)
        → msg_content 0 (datagram topic 0 (sign ∷ be32 v) ++ rest) ret ≡ some (some (be32 int_word))
    unfolding msg_content int_content
    int-content rest ret = rw (
      buffer-payload topic 0 (sign ∷ be32 v) rest plain short 52 1 (omega arith),
      buffer-byte topic 0 (sign ∷ be32 v) rest plain short 51 0 (omega arith),
      read_be32-be32 v rest (omega arith),
      int_bytes_lem,
    )

    int-value :
        value_of 0 (be32 int_word) behind ≡ some (int (if sign == 1 then minus v else pos v))
    unfolding value_of
    int-value =
        let e : read_be32 (be32 int_word) ≡ int_word =
          sym (ap read_be32 (append-nil (be32 int_word)))
          ∙ read_be32-be32 int_word [] int_word-lt in
        rw (length-be32 int_word, e, int_word-signed)

    -- A datagram of type INT, with a sign byte and a number below 2^31 in network order, under a
    -- topic of fewer than 50 bytes and no NUL, reaches the subscriber's line with its topic and the
    -- sender's address and port: the number is shown negated if the sign byte is 1, and as it is
    -- otherwise. Memory behind the topic holds the 49 bytes that the server copies too much.
    pub relay-int :
        relay (datagram topic 0 (sign ∷ be32 v)) memory from padding behind
        ≡ shown topic from (some (int (if sign == 1 then minus v else pos v)))
    unfolding relay
    relay-int =
        relay-buffer topic 0 (sign ∷ be32 v) _ plain short _ (be32 int_word) memory padding behind
          from (int-content _ _) (omega arith) (omega (arith, length-be32 int_word)) there address
          port
        ∙ ap (shown topic from) int-value

  -- A datagram of type SHORT_REAL, under a topic of fewer than 50 bytes and no NUL and with 49
  -- bytes of memory behind the topic, is shown as the quotient of the number of its two bytes
  -- in network order and 100, with its topic and the sender's address and port.
  pub relay-short_real :
      (hi lo : ℕ)
      → relay (datagram topic 1 (hi ∷ lo ∷ [])) memory from padding behind
        ≡ shown topic from (some (short_real (hi * 256 + lo) 100))
  unfolding relay
  relay-short_real hi lo =
      relay-buffer topic 1 (hi ∷ lo ∷ []) _ plain short _ (hi ∷ lo ∷ []) memory padding behind from
        (content _ _) (omega arith) (omega arith) there address port
      ∙ ap (shown topic from) value
    where
      content :
          (rest : List ℕ) (ret : ℕ)
          → msg_content 1 (datagram topic 1 (hi ∷ lo ∷ []) ++ rest) ret ≡ some (some (hi ∷ lo ∷ []))
      content rest ret =
          unfold msg_content in
          rw (buffer-payload topic 1 (hi ∷ lo ∷ []) rest plain short 51 0 (omega arith))

      value : value_of 1 (hi ∷ lo ∷ []) behind ≡ some (short_real (hi * 256 + lo) 100)
      value = unfold value_of in refl

  module _ (sign m power : ℕ) (word : m < 2 ^ 32) (fits : 10 ^ power < 2 ^ 31) where
    abbrev float_payload : List ℕ
    float_payload = sign ∷ be32 m ++ power ∷ []

    float-content :
        (rest : List ℕ) (ret : ℕ)
        → msg_content 2 (datagram topic 2 float_payload ++ rest) ret ≡ some (some float_payload)
    unfolding msg_content be32
    float-content rest ret =
        rw (buffer-payload topic 2 float_payload rest plain short 51 0 (omega arith))

    power-byte : get_or (be32 m ++ power ∷ []) 4 0 ≡ power
    unfolding be32
    power-byte = refl

    float_value-payload : float_value float_payload ≡ some (float (not (sign == 0)) m (10 ^ power))
    unfolding float_value
    float_value-payload =
        ap (λ p. scaled (not (sign == 0)) (read_be32 (be32 m ++ power ∷ [])) (my_pow p)) power-byte
        ∙ ap (scaled (not (sign == 0)) (read_be32 (be32 m ++ power ∷ []))) (my_pow-fits power fits)
        ∙ ap (λ w. some (float (not (sign == 0)) w (10 ^ power)))
            (read_be32-be32 m (power ∷ []) word)

    value_of-float : value_of 2 float_payload behind ≡ some (float (not (sign == 0)) m (10 ^ power))
    unfolding value_of
    value_of-float = rw (length-append (be32 m) (power ∷ []), length-be32 m) float_value-payload

    -- A datagram of type FLOAT, under a topic of fewer than 50 bytes and no NUL and with 49 bytes
    -- of memory behind the topic, with a number below 2^32 and a power of ten below 2^31 is shown
    -- as the quotient of the two, negated if the sign byte is not 0, with its topic and the
    -- sender's address and port.
    pub relay-float :
        relay (datagram topic 2 float_payload) memory from padding behind
        ≡ shown topic from (some (float (not (sign == 0)) m (10 ^ power)))
    unfolding relay
    relay-float =
        relay-buffer topic 2 float_payload _ plain short _ float_payload memory padding behind from
          (float-content _ _) (omega arith)
          (omega (arith, length-append (be32 m) (power ∷ []), length-be32 m)) there address port
        ∙ ap (shown topic from) value_of-float

  -- A datagram of type STRING, under a topic of fewer than 50 bytes and no NUL and with 49 bytes
  -- of memory behind the topic, whose payload has 1487 bytes at most is shown as the text up to
  -- the first NUL of the payload and the memory behind it, with its topic and the sender's address
  -- and port.
  pub relay-string :
      (payload text end : List ℕ)
      → NoNul text
      → payload ++ behind ≡ text ++ 0 ∷ end
      → length payload ≤ 1487
      → relay (datagram topic 3 payload) memory from padding behind
        ≡ shown topic from (some (string text))
  unfolding relay
  relay-string payload text end clean e room =
      relay-buffer topic 3 payload _ plain short _ payload memory padding behind from
        (string-content topic plain short payload _) (omega arith) (omega arith) there address port
      ∙ ap (shown topic from) value
    where
      value : value_of 3 payload behind ≡ some (string text)
      value = unfold value_of in rw (e, take-strlen text end clean)
