-- ===== src/Server/Exchange.antt =====
-- One packet to a subscriber and its answer, where the peer keeps to the protocol.
use client_server_protocoale.Common.{
  ℕ, ◌≡◌, ◌∙◌, refl, ap, false, List, [], ◌∷◌, ◌++◌, ℤ, arith, get_or, append-nil,
}
use client_server_protocoale.CString.{zeros, overlay}
use client_server_protocoale.Server.World.{
  Os, World, Event, sent, received, accepted, closed, datagram, typed, new_connection,
  already_connected, disconnected, done, send, recv, type_of, failed,
}
use client_server_protocoale.Server.Send.{send_and_wait}

-- A system on which no call fails and every packet that is awaited is an ACK, type 4.
pub record Reliable {S : Type 0} (os : Os S) : Type 0 where
  pub send_succeeds : (s : S) (sock : ℤ) (bytes : List ℕ) → failed (os.send s sock bytes).0 ≡ false
  pub recv_succeeds : (s : S) (sock : ℤ) (n : ℕ) → failed (os.recv s sock n).ret ≡ false
  pub answers_ack : (s : S) (sock : ℤ) (n : ℕ) → get_or (os.recv s sock n).bytes 0 0 ≡ 4

-- What was sent: the packets in order, with the sockets that they went to.
abbrev pub packets : List Event → List (ℤ × List ℕ)
packets [] = []
packets (sent sock bytes ret ∷ es) = (sock, bytes) ∷ packets es
packets (received sock bytes ret ∷ es) = packets es
packets (accepted sock address ∷ es) = packets es
packets (closed sock ∷ es) = packets es
packets (datagram bytes address ret ∷ es) = packets es
packets (typed bytes ret ∷ es) = packets es
packets (new_connection id address ∷ es) = packets es
packets (already_connected id ∷ es) = packets es
packets (disconnected id ∷ es) = packets es

pub packets-append : (es fs : List Event) → packets (es ++ fs) ≡ packets es ++ packets fs
packets-append [] fs = refl
packets-append (sent sock bytes ret ∷ es) fs = ap (◌∷◌ (sock, bytes)) (packets-append es fs)
packets-append (received sock bytes ret ∷ es) fs = packets-append es fs
packets-append (accepted sock address ∷ es) fs = packets-append es fs
packets-append (closed sock ∷ es) fs = packets-append es fs
packets-append (datagram bytes address ret ∷ es) fs = packets-append es fs
packets-append (typed bytes ret ∷ es) fs = packets-append es fs
packets-append (new_connection id address ∷ es) fs = packets-append es fs
packets-append (already_connected id ∷ es) fs = packets-append es fs
packets-append (disconnected id ∷ es) fs = packets-append es fs

pub type_of-overlay : (bytes buf : List ℕ) → get_or bytes 0 0 ≡ 4 → type_of (overlay bytes buf) ≡ 4
type_of-overlay [] buf e = absurd (omega arith)
type_of-overlay (b ∷ bytes) buf e = e

module _ {S : Type 0} (os : Os S) (sock : ℤ) (bytes : List ℕ) (len : ℕ) (w : World S) where
  -- The world behind a `send` and a `recv`.
  abbrev pub exchanged : World S
  exchanged =
      let s = os.send w.system sock bytes in
      let r = os.recv s.1 sock len in
      record {
        system = r.next;
        log = (w.log ++ sent sock bytes s.0 ∷ []) ++ received sock r.bytes r.ret ∷ [];
      }

  pub packets-exchanged : packets exchanged.log ≡ packets w.log ++ (sock, bytes) ∷ []
  packets-exchanged =
      let s = os.send w.system sock bytes in
      packets-append (w.log ++ sent sock bytes s.0 ∷ []) _
      ∙ append-nil _
      ∙ packets-append w.log (sent sock bytes s.0 ∷ [])

  pub send_and_wait-exchanged : Reliable os → send_and_wait os sock bytes len w ≡ done tt exchanged
  unfolding send_and_wait send recv
  send_and_wait-exchanged ok =
      let s = os.send w.system sock bytes in
      let r = os.recv s.1 sock len in
      rw (
        ok.send_succeeds w.system sock bytes,
        ok.recv_succeeds s.1 sock len,
        type_of-overlay r.bytes (zeros len) (ok.answers_ack s.1 sock len),
      )
