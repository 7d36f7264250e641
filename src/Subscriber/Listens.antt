-- ===== src/Subscriber/Listens.antt =====
-- The subscriber's loop over a sequence of packets that ends with the server's closing packet.
use client_server_protocoale.Common.{
  ℕ, zero, suc, ◌+◌, ◌<◌, ◌≡◌, refl, ap, sym, ◌∙◌, Option, none, some, Bool, true, false, List, [],
  ◌∷◌, ◌++◌, ◌==◌, arith, length, append_assoc, append-nil, replicate,
}
use client_server_protocoale.CString.{zeros, overlay}
use client_server_protocoale.Wire.Header.{decode_header}
use client_server_protocoale.Server.World.{
  Os, World, Event, Act, done, closed, ◌>>◌, pure, close, type_of,
}
use client_server_protocoale.Server.Exchange.{packets, packets-append}
use client_server_protocoale.Subscriber.Display.{Line, show_packet, show_header}
use client_server_protocoale.Subscriber.Acknowledge.{ack, packets-heard}
use client_server_protocoale.Subscriber.Main.{Indeterminate, line, shows, Progress, main_loop}
use client_server_protocoale.Subscriber.Stream.{
  Stream, output_of, Readable, sockfd, Arrives, Arrive, after_packet, selected, next_world,
  round-packet,
}

-- The closing packet shows nothing.
show_packet-closing :
    (buffer behind : List ℕ) → type_of buffer ≡ 4 → show_packet buffer behind ≡ some none
unfolding show_packet show_header decode_header
show_packet-closing buffer behind e = rw e refl

-- The bytes that arrive, in order.
abbrev pub bytes_of : Stream → List ℕ → List (List ℕ)
bytes_of [] closing = closing ∷ []
bytes_of ((b, o) ∷ ps) closing = b ∷ bytes_of ps closing

module _ {S : Type 0} (os : Os S) (any : Indeterminate) (n : ℕ) where
  -- What a run of the loop leaves.
  pub record Ended (ps : Stream) (k : ℕ) (p : Progress) (w : World S) : Type 0 where
    pub progress : Progress
    pub world : World S
    pub events : List Event
    pub returns : main_loop os any (sockfd os any n) k p w ≡ done progress world
    pub output : progress.output ≡ p.output ++ output_of ps
    pub answers :
        packets world.log
        ≡ packets w.log ++ replicate (length ps + 1) (sockfd os any n, ack p.subscriber)
    pub closes : world.log ≡ events ++ closed (sockfd os any n) ∷ []

  -- The end of a round: on the variable `end`, and on whether `main` has returned.
  abbrev on_end : ℕ → Progress → Bool → Act S Progress
  on_end k q true = close os (sockfd os any n) >> pure q
  on_end k q false = main_loop os any (sockfd os any n) k q

  abbrev on_return : ℕ → Progress → Bool → Act S Progress
  on_return k q true = pure q
  on_return k q false = on_end k q q.end

  module _ (junk : List ℕ) where
    main_loop-closing :
        (k : ℕ) (p : Progress) (w : World S)
        → p.exited ≡ false
        → Arrives os any n (ack p.subscriber) w.system (4 ∷ junk)
        → Ended [] (suc k) p w
    unfolding main_loop close
    main_loop-closing k p w going a =
        let fd = sockfd os any n in
        let shown = show_packet-closing (overlay (4 ∷ junk) (zeros 1600)) any.behind refl in
        let q = after_packet os any n p (4 ∷ junk) none in
        let v = next_world os any n p w (4 ∷ junk) none going shown a in
        record {
          progress = q;
          world = record { system = os.close v.system fd; log = v.log ++ closed fd ∷ [] };
          events = v.log;
          returns =
              rw (round-packet os any n p w (4 ∷ junk) none going shown a)
                (ap (λ x. on_return k q x v) going);
          output = refl;
          answers =
              packets-append v.log _
              ∙ append-nil _
              ∙ packets-heard os fd (4 ∷ junk) any.behind none p.subscriber
                  (selected os any n p w (4 ∷ junk) none going shown a);
          closes = refl;
        }

    -- A packet in front.
    Ended-cons :
        (k : ℕ) (ps : Stream) (b : List ℕ) (o : Option Line) (p : Progress) (w : World S)
        → (going : p.exited ≡ false)
        → (shown : show_packet (overlay b (zeros 1600)) any.behind ≡ some o)
        → (type_of (overlay b (zeros 1600)) == 4) ≡ false
        → (a : Arrives os any n (ack p.subscriber) w.system b)
        → Ended ps k (after_packet os any n p b o) (next_world os any n p w b o going shown a)
        → Ended ((b, o) ∷ ps) (suc k) p w
    unfolding main_loop
    Ended-cons k ps b o p w going shown more a e =
        let fd = sockfd os any n in
        let q = after_packet os any n p b o in
        let v = next_world os any n p w b o going shown a in
        let one_more : suc (length ps) + 1 ≡ suc (length ps + 1) = omega arith in
        record {
          progress = e.progress;
          world = e.world;
          events = e.events;
          returns =
              rw (round-packet os any n p w b o going shown a)
                (ap (λ x. on_return k q x v) going ∙ ap (λ x. on_end k q x v) more ∙ e.returns);
          output = e.output ∙ append_assoc p.output (shows line o) (output_of ps);
          answers =
              e.answers
              ∙ ap (λ l. l ++ replicate (length ps + 1) (fd, ack p.subscriber))
                  (packets-heard os fd b any.behind o p.subscriber
                    (selected os any n p w b o going shown a))
              ∙ append_assoc (packets w.log) ((fd, ack p.subscriber) ∷ []) _
              ∙ ap (λ i. packets w.log ++ replicate i (fd, ack p.subscriber)) (sym one_more);
          closes = e.closes;
        }

    -- The socket is not descriptor 0. Where `select` reports it, and not the standard input, for
    -- each of a sequence of packets that can be shown, then for the server's closing packet, and no
    -- call fails, the subscriber's loop ends with that packet, whatever number of rounds above
    -- theirs it is given: it has written each packet's line in order, has sent one answer for each
    -- packet and nothing else, and closed the socket last.
    pub main_loop-Ended :
        (ps : Stream) (k : ℕ) (p : Progress) (w : World S)
        → p.exited ≡ false
        → Readable any.behind ps
        → Arrive os any n (ack p.subscriber) w.system (bytes_of ps (4 ∷ junk))
        → length ps < k
        → Ended ps k p w
    main_loop-Ended ps zero p w going readable arrive fuel = absurd (omega arith)
    main_loop-Ended [] (suc k) p w going readable arrive fuel =
        main_loop-closing k p w going arrive.0
    main_loop-Ended ((b, o) ∷ ps) (suc k) p w going readable arrive fuel =
        Ended-cons k ps b o p w going readable.0 readable.1 arrive.0 (
          main_loop-Ended ps k (after_packet os any n p b o) _ going readable.2 arrive.1
            (omega arith))
