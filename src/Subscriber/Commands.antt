-- ===== src/Subscriber/Commands.antt =====
-- A subscribe command from the line that is typed to the server's header.
use client_server_protocoale.Common.{
  ℕ, ◌+◌, ◌<◌, ◌≡◌, ◌∙◌, sym, ap, some, true, List, [], ◌∷◌, ◌++◌, ℤ, pos, arith, leb, ◌==◌, length,
  drop, drop-append, drop-append_add, take-append, length-append, append_assoc, le→leb, length-drop,
}
use client_server_protocoale.CString.{strlen, strlen-append, NoNul, zeros, overlay}
use client_server_protocoale.Server.World.{Os, World, done, send, recv, type_of}
use client_server_protocoale.Server.Command.{ClientToServerHdr, read_client_hdr}
use client_server_protocoale.Server.Exchange.{exchanged, packets-exchanged}
use client_server_protocoale.Server.Deliver.{Ends}
use client_server_protocoale.Subscriber.Scan.{
  Plain, scan_word, scan_int, byte_of, scan_word-between, scan_int-digit,
}
use client_server_protocoale.Subscriber.Command.{
  Subscriber, encode_client_hdr, store_word, store_int, send_command, process_subscribe,
}

Plain-NoNul : (s : List ℕ) → Plain s → NoNul s
Plain-NoNul [] h = tt
Plain-NoNul (c ∷ s) h = (h.0, Plain-NoNul s h.2)

module _ (s : Subscriber) (name : List ℕ) (c : ℕ) (cs : List ℕ) (flag : ℕ) (rest : List ℕ)
    (command : strlen s.command ≡ length name)
    (line : s.buffer ≡ name ++ (32 ∷ c ∷ cs ++ 32 ∷ (48 + flag) ∷ 10 ∷ rest))
    (plain : Plain (c ∷ cs)) (short : length cs < 49) (digit : leb flag 9 ≡ true) where
  -- The topic, in its array.
  abbrev pub stored : List ℕ
  stored = overlay (c ∷ cs ++ 0 ∷ []) (zeros 50)

  abbrev pub typed_hdr : ClientToServerHdr
  typed_hdr = record { type = 0; sf = flag; topic = stored }

  -- The line behind its first word, and behind its topic.
  abbrev arguments : List ℕ
  arguments = 32 ∷ c ∷ cs ++ 32 ∷ (48 + flag) ∷ 10 ∷ rest

  abbrev number : List ℕ
  number = 32 ∷ (48 + flag) ∷ 10 ∷ rest

  scanned : scan_word (drop (strlen s.command) s.buffer) ≡ c ∷ cs
  scanned =
      ap (λ b. scan_word (drop (strlen s.command) b)) line
      ∙ ap scan_word (drop-append (strlen s.command) name arguments (sym command))
      ∙ scan_word-between c cs ((48 + flag) ∷ 10 ∷ rest) plain

  store-fits : store_word 50 (zeros 50) (c ∷ cs) ≡ some stored
  unfolding store_word
  store-fits = let fits : leb (length (c ∷ cs) + 1) 50 ≡ true = le→leb _ _ (omega arith) in rw fits

  stored-topic :
      store_word 50 (zeros 50) (scan_word (drop (strlen s.command) s.buffer)) ≡ some stored
  stored-topic = ap (store_word 50 (zeros 50)) scanned ∙ store-fits

  strlen-stored : strlen stored ≡ length cs + 1
  strlen-stored =
      ap strlen (append_assoc (c ∷ cs) (0 ∷ []) _)
      ∙ strlen-append (c ∷ cs) _ (Plain-NoNul (c ∷ cs) plain)
      ∙ omega arith

  length-stored : length stored ≡ 50
  length-stored = omega (
    arith,
    length-append (c ∷ cs ++ 0 ∷ []) (drop (length (c ∷ cs ++ 0 ∷ [])) (zeros 50)),
    length-append (c ∷ cs) (0 ∷ []),
    length-drop (length (c ∷ cs ++ 0 ∷ [])) (zeros 50),
  )

  stored-sf :
      store_int s.sf (scan_int (drop (strlen s.command + strlen stored + 2) s.buffer))
      ≡ some (pos flag)
  unfolding store_int
  stored-sf =
      let n = strlen s.command + strlen stored + 2 in
      let at : scan_int (drop n s.buffer) ≡ some (some (pos flag)) =
        ap (λ b. scan_int (drop n b)) line
        ∙ ap scan_int (
            drop-append_add n (length cs + 3) name arguments (omega (arith, command, strlen-stored))
            ∙ drop-append_add (length cs + 3) 1 (32 ∷ c ∷ cs) number (omega arith))
        ∙ scan_int-digit flag rest digit in
      rw at

  byte_of-flag : byte_of (pos flag) ≡ flag
  unfolding byte_of
  byte_of-flag = ground arith

  read-typed : read_client_hdr (overlay (encode_client_hdr typed_hdr) (zeros 1551)) ≡ typed_hdr
  unfolding read_client_hdr
  read-typed =
      ap (λ (t : List ℕ). record typed_hdr { topic = t }) (take-append 50 stored _ length-stored)

  -- A line with a word, one space, a topic of 1 to 49 bytes with no space and no NUL, one space, a
  -- digit and a newline, whose word is the command that was read: where the answer is of type 6
  -- `process_subscribe` ends, keeps the header and the digit, and sends one packet, which the
  -- server's buffer gives back as a subscribe command with that topic and that digit.
  pub process_subscribe-read :
      {S : Type 0} (os : Os S) (sockfd : ℤ) (w : World S)
      → ((st : S) → (type_of (overlay (os.recv st sockfd 65).bytes (zeros 65)) == 6) ≡ true)
      → Ends
          (process_subscribe os sockfd s w)
          (record s {
            buffer = overlay (encode_client_hdr typed_hdr) (zeros 1600);
            cls_hdr = typed_hdr;
            sf = pos flag;
          })
          w
          ((sockfd, encode_client_hdr typed_hdr) ∷ [])
        × (read_client_hdr (overlay (encode_client_hdr typed_hdr) (zeros 1551)) ≡ typed_hdr)
  unfolding process_subscribe
  process_subscribe-read os sockfd w answers =
      let packet = encode_client_hdr typed_hdr in
      let w' = exchanged os sockfd packet 65 w in
      let run : send_command os sockfd typed_hdr w ≡ done tt w' =
        unfold send_command send recv in rw (answers (os.send w.system sockfd packet).1) in
      (
        (
          w',
          rw (stored-topic, stored-sf, byte_of-flag, run),
          packets-exchanged os sockfd packet 65 w,
        ),
        read-typed,
      )
