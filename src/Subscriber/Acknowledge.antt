-- ===== src/Subscriber/Acknowledge.antt =====
-- A packet from the server, its answer by the subscriber, and the server's wait for that answer.
use client_server_protocoale.Common.{
  Bool, ℕ, ◌≡◌, ap, ◌∙◌, Option, some, false, List, [], ◌∷◌, ◌++◌, ℤ, ◌==◌, append-nil,
}
use client_server_protocoale.CString.{zeros, overlay}
use client_server_protocoale.Server.World.{
  done, Os, World, sent, received, send, recv, failed, type_of,
}
use client_server_protocoale.Server.Send.{send_and_wait}
use client_server_protocoale.Server.Exchange.{packets, packets-append, exchanged, packets-exchanged}
use client_server_protocoale.Server.Deliver.{Ends}
use client_server_protocoale.Subscriber.Display.{Line, show_packet}
use client_server_protocoale.Subscriber.Command.{Subscriber, encode_client_hdr, handle_packet}

-- The answer of a subscriber: its last header with type 4, and a NUL.
abbrev pub ack : Subscriber → List ℕ
ack s = encode_client_hdr (record s.cls_hdr { type = 4 }) ++ 0 ∷ []

-- `send` and `recv` succeed, and `recv` stores `answer`.
pub record Answered {S : Type 0} (os : Os S) (sock : ℤ) (bytes : List ℕ) (len : ℕ) (answer : List ℕ)
    (s : S) : Type 0 where
  pub sends : failed (os.send s sock bytes).0 ≡ false
  pub receives : failed (os.recv (os.send s sock bytes).1 sock len).ret ≡ false
  pub stores : (os.recv (os.send s sock bytes).1 sock len).bytes ≡ answer

module _ {S : Type 0} (os : Os S) (sockfd : ℤ) (bytes behind : List ℕ) (line : Option Line)
    (s : Subscriber) (w : World S) where
  abbrev pub got : S
  got = (os.recv w.system sockfd 1600).next

  abbrev pub heard : World S
  heard =
      let r = os.recv w.system sockfd 1600 in
      let t = os.send r.next sockfd (ack s) in
      record {
        system = t.1;
        log = (w.log ++ received sockfd r.bytes r.ret ∷ []) ++ sent sockfd (ack s) t.0 ∷ [];
      }

  pub packets-heard : packets heard.log ≡ packets w.log ++ (sockfd, ack s) ∷ []
  packets-heard =
      let r = os.recv w.system sockfd 1600 in
      packets-append (w.log ++ received sockfd r.bytes r.ret ∷ []) _
      ∙ ap (λ p. p ++ (sockfd, ack s) ∷ []) (packets-append w.log _ ∙ append-nil _)

  -- What is returned.
  abbrev pub told : Bool × Option Line × Subscriber
  told = (
    type_of (overlay bytes (zeros 1600)) == 4,
    line,
    record s { buffer = overlay bytes (zeros 1600); cls_hdr = record s.cls_hdr { type = 4 } },
  )

  pub handle_packet-heard :
      (os.recv w.system sockfd 1600).bytes ≡ bytes
      → failed (os.recv w.system sockfd 1600).ret ≡ false
      → failed (os.send got sockfd (ack s)).0 ≡ false
      → show_packet (overlay bytes (zeros 1600)) behind ≡ some line
      → handle_packet os sockfd behind s w ≡ done told heard
  unfolding handle_packet recv send
  handle_packet-heard stored received_ok sent_ok shown = rw (received_ok, stored, shown, sent_ok)

  -- A packet of the server, which the subscriber receives as it was sent and can show: where the
  -- calls of both succeed and the server receives the subscriber's answer, the subscriber's branch
  -- ends with the packet in its buffer and the packet's line, if it has one, it ends the subscriber
  -- exactly on type 4, and has sent one packet, its answer; and the server's wait for the ACK ends.
  pub send_and_wait-handle_packet :
      {T : Type 0} (server_os : Os T) (sock : ℤ) (len : ℕ) (v : World T)
      → (os.recv w.system sockfd 1600).bytes ≡ bytes
      → failed (os.recv w.system sockfd 1600).ret ≡ false
      → failed (os.send got sockfd (ack s)).0 ≡ false
      → show_packet (overlay bytes (zeros 1600)) behind ≡ some line
      → Answered server_os sock bytes len (ack s) v.system
      → Ends
          (handle_packet os sockfd behind s w)
          (
            type_of (overlay bytes (zeros 1600)) == 4,
            line,
            record s {
              buffer = overlay bytes (zeros 1600);
              cls_hdr = record s.cls_hdr { type = 4 };
            },
          )
          w
          ((sockfd, ack s) ∷ [])
        × Ends (send_and_wait server_os sock bytes len v) tt v ((sock, bytes) ∷ [])
  unfolding send_and_wait send recv
  send_and_wait-handle_packet server_os sock len v stored received_ok sent_ok shown a = (
    (heard, handle_packet-heard stored received_ok sent_ok shown, packets-heard),
    (
      exchanged server_os sock bytes len v,
      rw (a.sends, a.receives, a.stores),
      packets-exchanged server_os sock bytes len v,
    ),
  )
