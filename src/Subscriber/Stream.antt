-- ===== src/Subscriber/Stream.antt =====
-- The subscriber's loop while packets arrive and nothing is typed.
use client_server_protocoale.Common.{
  ℕ, zero, suc, ◌+◌, ◌≤◌, ◌<◌, ◌≡◌, refl, ap, ◌∙◌, Option, some, Bool, true, false, List, [], ◌∷◌,
  ◌++◌, ℤ, pos, inc, eqz, eqz_iff, ltz, ltb, Bool-cases, inl, inr, ◌==◌, arith,
}
use client_server_protocoale.CString.{zeros, overlay}
use client_server_protocoale.Server.World.{Os, World, Act, done, pure, select, failed, type_of}
use client_server_protocoale.Subscriber.Display.{Line, show_packet}
use client_server_protocoale.Subscriber.Acknowledge.{ack, heard, handle_packet-heard}
use client_server_protocoale.Subscriber.Main.{
  Indeterminate, Shown, line, shows, Progress, handle, pass, watched, round,
}

-- Packets, each with the line that is shown for it, if there is one.
abbrev pub Stream : Type 0
Stream = List (List ℕ × Option Line)

-- What is written for them.
abbrev pub output_of : Stream → List Shown
output_of [] = []
output_of ((b, o) ∷ ps) = shows line o ++ output_of ps

-- The packets can be shown, and none of them is of type 4.
abbrev pub Readable : List ℕ → Stream → Type 0
Readable behind [] = Unit {0}
Readable behind ((b, o) ∷ ps) =
    (show_packet (overlay b (zeros 1600)) behind ≡ some o)
    × ((type_of (overlay b (zeros 1600)) == 4) ≡ false)
    × Readable behind ps

module _ {S : Type 0} (os : Os S) (any : Indeterminate) (n : ℕ) where
  -- The socket, which is not descriptor 0.
  abbrev pub sockfd : ℤ
  sockfd = pos (suc n)

  -- `select` reports the socket and not the standard input, `recv` gives the packet and the answer
  -- is sent.
  pub record Arrives (answer : List ℕ) (st : S) (b : List ℕ) : Type 0 where
    pub selects : ltz (os.select st (inc sockfd) (watched os any sockfd)).ret (pos 0) ≡ false
    pub quiet : (os.select st (inc sockfd) (watched os any sockfd)).ready (pos 0) ≡ false
    pub ready : (os.select st (inc sockfd) (watched os any sockfd)).ready sockfd ≡ true
    pub receives :
        failed (os.recv (os.select st (inc sockfd) (watched os any sockfd)).next sockfd 1600).ret
        ≡ false
    pub stores :
        (os.recv (os.select st (inc sockfd) (watched os any sockfd)).next sockfd 1600).bytes ≡ b
    pub sends :
        failed
          (os.send
            (os.recv (os.select st (inc sockfd) (watched os any sockfd)).next sockfd 1600).next
            sockfd
            answer).0
        ≡ false

  -- The system behind a packet's answer.
  abbrev pub behind_answer : List ℕ → S → S
  behind_answer answer st =
      (os.send (os.recv (os.select st (inc sockfd) (watched os any sockfd)).next sockfd 1600).next
        sockfd answer).1

  -- The packets arrive in order.
  abbrev pub Arrive : List ℕ → S → List (List ℕ) → Type 0
  Arrive answer st [] = Unit {0}
  Arrive answer st (b ∷ bs) = Arrives answer st b × Arrive answer (behind_answer answer st) bs

  -- What a packet leaves.
  abbrev pub after_packet : Progress → List ℕ → Option Line → Progress
  after_packet p b o = record p {
    subscriber = record p.subscriber {
      buffer = overlay b (zeros 1600);
      cls_hdr = record p.subscriber.cls_hdr { type = 4 };
    };
    output = p.output ++ shows line o;
    end = type_of (overlay b (zeros 1600)) == 4;
  }

  module _ (p : Progress) (w : World S) (b : List ℕ) (o : Option Line) (going : p.exited ≡ false)
      (shown : show_packet (overlay b (zeros 1600)) any.behind ≡ some o)
      (a : Arrives (ack p.subscriber) w.system b) where
    abbrev pub selected : World S
    selected = record {
      system = (os.select w.system (inc sockfd) (watched os any sockfd)).next;
      log = w.log;
    }

    abbrev pub next_world : World S
    next_world = heard os sockfd b any.behind o p.subscriber selected

    handle-packet :
        handle os any sockfd sockfd (record p { end = false }) selected
        ≡ done (after_packet p b o) next_world
    unfolding handle
    handle-packet =
        let same : eqz sockfd sockfd ≡ true = (eqz_iff sockfd sockfd).1 refl in
        let out : (suc n == 0) ≡ false = ground arith in
        rw
          (
            handle,
            out,
            same,
            handle_packet-heard os sockfd b any.behind o p.subscriber selected a.stores a.receives
                a.sends shown,
          )
          refl

    -- Behind the socket the pass ends.
    pass-over :
        (k : ℕ) (ready : ℤ → Bool) (q : Progress) (v : World S)
        → pass os any sockfd (suc k) (inc sockfd) ready q v ≡ done q v
    unfolding pass
    pass-over k ready q v =
        let over : ltb (suc n) (suc n + 1) ≡ true = ground arith in rw (pass, over) refl

    pass-at :
        (k : ℕ) (ready : ℤ → Bool)
        → ready sockfd ≡ true
        → pass os any sockfd (suc (suc k)) sockfd ready (record p { end = false }) selected
          ≡ done (after_packet p b o) next_world
    unfolding pass
    pass-at k ready set =
        let here : ltb (suc n) (suc n) ≡ false = ground arith in
        let q = after_packet p b o in
        let on : Bool → Act S Progress =
          λ x. elim x [ true ↦ pure q | false ↦ pass os any sockfd (suc k) (inc sockfd) ready q ] in
        rw (pass, here, set, handle-packet)
          (ap (λ x. on x next_world) going ∙ pass-over k ready q next_world)

    -- Between the two descriptors nothing is done.
    handle-other :
        (j : ℕ) (q : Progress) (v : World S)
        → 0 < j
        → j < suc n
        → handle os any sockfd (pos j) q v ≡ done q v
    unfolding handle
    handle-other j q v positive below =
        let out : (j == 0) ≡ false = ground arith in
        let out' : (j == suc n) ≡ false = ground arith in rw (handle, out, out') refl

    -- From descriptor `j` on, `d` before the socket.
    pass-packet :
        (d k j : ℕ) (ready : ℤ → Bool)
        → ready sockfd ≡ true
        → 0 < j
        → j + d ≡ suc n
        → d + 2 ≤ k
        → pass os any sockfd k (pos j) ready (record p { end = false }) selected
          ≡ done (after_packet p b o) next_world
    unfolding pass
    pass-packet d zero j ready set positive at enough = absurd (omega arith)
    pass-packet d (suc zero) j ready set positive at enough = absurd (omega arith)
    pass-packet zero (suc (suc k)) j ready set positive at enough =
        let e : j ≡ suc n = omega arith in rw e (pass-at k ready set)
    pass-packet (suc d) (suc (suc k)) j ready set positive at enough =
        let below : ltb (suc n) j ≡ false = ground arith in
        let q = record p { end = false } in
        let on : Bool → Act S Progress = λ x. elim x [
          | true ↦ pure q
          | false ↦ pass os any sockfd (suc k) (pos (j + 1)) ready q
        ] in
        let rest =
          pass-packet d (suc k) (j + 1) ready set (omega arith) (omega arith) (omega arith) in
        elim (Bool-cases (ready (pos j))) [
          | inl here ↦
              rw (pass, below, here, handle-other j q selected positive (omega arith))
                (ap (λ x. on x selected) going ∙ rest)
          | inr here ↦ rw (pass, below, here) rest
        ]

    pub round-packet : round os any sockfd p w ≡ done (after_packet p b o) next_world
    unfolding round select pass
    round-packet =
        let enough : suc n + 2 ≡ suc (n + 2) = omega arith in
        let below : ltb (suc n) 0 ≡ false = ground arith in
        rw (a.selects, enough, pass, below, a.quiet)
          (pass-packet n (n + 2) 1 _ a.ready (omega arith) (omega arith) (omega arith))
