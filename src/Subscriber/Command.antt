-- ===== src/Subscriber/Command.antt =====
-- subscriber_util.c and subscriber.c: what the subscriber does with a line that is typed. `none`
-- and `fault` are uses of memory, or numbers past an `int`, that C leaves undefined.
use client_server_protocoale.Common.{
  ℕ, ◌+◌, Option, none, some, Bool, true, false, not, List, [], ◌∷◌, ◌++◌, ℤ, pos, leb, ◌==◌,
  if◌then◌else◌, drop, take, length,
}
use client_server_protocoale.CString.{strlen, strncmp_eq, zeros, overlay}
use client_server_protocoale.Server.World.{
  Os, Act, pure, ◌>>=◌, ◌>>◌, die_if, deref, send, recv, read, close, type_of, failed,
}
use client_server_protocoale.Server.State.{buflen}
use client_server_protocoale.Server.Command.{ClientToServerHdr}
use client_server_protocoale.Server.Main.{exit_command}
use client_server_protocoale.Subscriber.Display.{Line, show_packet}
use client_server_protocoale.Subscriber.Scan.{scan_word, scan_int, byte_of}

-- What `main` keeps between two lines.
pub record Subscriber : Type 0 where
  pub buffer : List ℕ
  pub command : List ℕ
  pub cls_hdr : ClientToServerHdr
  pub sf : ℤ

-- SUB_SUCC, UNSUB_SUCC and WRONG_COM, which are printed for a line.
pub data Said : Type 0 where
  subscribed : Said
  unsubscribed : Said
  wrong_command : Said

-- "subscribe" and "unsubscribe"
abbrev pub subscribe_word : List ℕ
subscribe_word = b's' ∷ b'u' ∷ b'b' ∷ b's' ∷ b'c' ∷ b'r' ∷ b'i' ∷ b'b' ∷ b'e' ∷ []

abbrev pub unsubscribe_word : List ℕ
unsubscribe_word = b'u' ∷ b'n' ∷ subscribe_word

-- The 52 bytes of a `client_to_server_hdr`.
abbrev pub encode_client_hdr : ClientToServerHdr → List ℕ
encode_client_hdr h = h.type ∷ h.sf ∷ h.topic

-- `sscanf(s, "%s", dst)` into an array of `size` bytes.
unfoldable pub store_word : ℕ → List ℕ → List ℕ → Option (List ℕ)
store_word size dst [] = some dst
store_word size dst (c ∷ w) =
    if leb (length (c ∷ w) + 1) size then some (overlay (c ∷ w ++ 0 ∷ []) dst) else none

-- `sscanf(s, "%d", sf)`
unfoldable pub store_int : ℤ → Option (Option ℤ) → Option ℤ
store_int sf none = none
store_int sf (some none) = some sf
store_int sf (some (some z)) = some z

module _ {S : Type 0} (os : Os S) (sockfd : ℤ) where
  unfoldable pub read_first_parameter : Subscriber → Act S Subscriber
  read_first_parameter s = do
    (ret, bytes) ← read os (pos 0) buflen
    die_if (failed ret)
    let buffer = overlay bytes (zeros buflen)
    command ← deref (store_word 14 (zeros 14) (scan_word buffer))
    pure (record s { buffer = buffer; command = command })

  -- The header is sent, and the answer is to be of type 6.
  unfoldable pub send_command : ClientToServerHdr → Act S (Unit {0})
  send_command hdr = do
    _ ← send os sockfd (encode_client_hdr hdr)
    (_, response) ← recv os sockfd 65
    die_if (not (type_of (overlay response (zeros 65)) == 6))

  unfoldable pub process_subscribe : Subscriber → Act S Subscriber
  process_subscribe s = do
    topic ← deref (store_word 50 (zeros 50) (scan_word (drop (strlen s.command) s.buffer)))
    sf ← deref (store_int s.sf (scan_int (drop (strlen s.command + strlen topic + 2) s.buffer)))
    let hdr : ClientToServerHdr = record { type = 0; sf = byte_of sf; topic = topic }
    send_command hdr
    pure (record s {
      buffer = overlay (encode_client_hdr hdr) (zeros buflen);
      cls_hdr = hdr;
      sf = sf;
    })

  unfoldable pub process_unsubscribe : Subscriber → Act S Subscriber
  process_unsubscribe s = do
    topic ← deref (store_word 50 s.cls_hdr.topic (scan_word (drop (strlen s.command) s.buffer)))
    let hdr : ClientToServerHdr = record s.cls_hdr { type = 1; topic = topic }
    send_command hdr
    pure (record s { buffer = overlay (encode_client_hdr hdr) s.buffer; cls_hdr = hdr })

  -- `junk` are the 51 bytes of the local header behind its type, `argument` is the memory from
  -- `argv[1]` on.
  unfoldable pub manage_id : List ℕ → List ℕ → Subscriber → Act S Subscriber
  manage_id junk argument s = do
    (ret, request) ← recv os sockfd buflen
    die_if (failed ret)
    die_if (not (type_of (overlay request (zeros buflen)) == 5))
    let reply = 2 ∷ junk ++ take 10 argument
    ret' ← send os sockfd reply
    die_if (failed ret')
    pure (record s { buffer = overlay reply (zeros buflen) })

  -- The exit command.
  unfoldable pub leave : List ℕ → Subscriber → Act S Subscriber
  leave junk s = do
    ret ← send os sockfd (3 ∷ junk)
    die_if (failed ret)
    (ret', answer) ← recv os sockfd buflen
    die_if (failed ret')
    let buffer = overlay answer (zeros buflen)
    die_if (not (type_of buffer == 6))
    close os sockfd
    pure (record s { buffer = buffer })

  -- A line that is typed: whether the subscriber ends, the message that is printed, if any, and
  -- what it keeps.
  unfoldable pub handle_line : List ℕ → Subscriber → Act S (Bool × Option Said × Subscriber)
  handle_line junk s = do
    s' ← read_first_parameter s
    if strncmp_eq 9 s'.command subscribe_word
        then (do t ← process_subscribe s'; pure (false, some subscribed, t))
        else if strncmp_eq 11 s'.command unsubscribe_word
        then (do t ← process_unsubscribe s'; pure (false, some unsubscribed, t))
        else if strncmp_eq 4 s'.command exit_command
        then (do t ← leave junk s'; pure (true, none, t))
        else pure (false, some wrong_command, s')

  -- A packet from the server: whether the subscriber ends, the line that is printed, if any, and
  -- what is kept. `behind` is what lies in memory behind the payload that is printed.
  unfoldable pub handle_packet : List ℕ → Subscriber → Act S (Bool × Option Line × Subscriber)
  handle_packet behind s = do
    (ret, bytes) ← recv os sockfd buflen
    die_if (failed ret)
    let buffer = overlay bytes (zeros buflen)
    line ← deref (show_packet buffer behind)
    let hdr : ClientToServerHdr = record s.cls_hdr { type = 4 }
    ret' ← send os sockfd (encode_client_hdr hdr ++ 0 ∷ [])
    die_if (failed ret')
    pure (type_of buffer == 4, line, record s { buffer = buffer; cls_hdr = hdr })
