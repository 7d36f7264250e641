-- ===== src/Server/HealthyRuns.antt =====
-- The clients along a run.
use client_server_protocoale.Common.{
  ℕ, ◌+◌, ◌≤◌, ◌≡◌, ◌∙◌, Option, none, some, List, ℤ, pos, ltz, pos_part, arith, leb, length,
  Bool-cases, inl, inr, All, refl,
}
use client_server_protocoale.CString.{zeros, overlay}
use client_server_protocoale.Wire.Message.{Message, build_msg, build_sent_buffer}
use client_server_protocoale.Server.World.{Os, World, Address, die_if, recvfrom}
use client_server_protocoale.Server.State.{Server}
use client_server_protocoale.Server.Main.{Indeterminate, packet_size, handle_datagram, start}
use client_server_protocoale.Server.After.{After, bind, bind_any, bind_deref}
use client_server_protocoale.Server.Reach.{Reach, Preserved, Reach-keeps}
use client_server_protocoale.Server.Sane.{Sane, send_data-Sane}
use client_server_protocoale.Server.Healthy.{
  Healthy, manage_connection_request-Healthy, manage_command_from_client-Healthy,
}

-- A packet that was built fits the server's buffer.
packet_size-le :
    (msg : Message) (behind padding : List ℕ) (from : Address) (buf : List ℕ)
    → build_sent_buffer msg behind from padding ≡ some buf
    → packet_size msg.content ≤ 1600
unfolding build_sent_buffer
packet_size-le msg behind padding from buf e = go msg.content refl
  where
    go : (o : Option (List ℕ)) → msg.content ≡ o → packet_size o ≤ 1600
    go none h = omega arith
    go (some content) h = elim (Bool-cases (leb (64 + length content) 1551)) [
      | inl fits ↦ ground arith
      | inr long ↦ absurd (ground arith)
    ]

module _ {S : Type 0} (os : Os S) (any : Indeterminate) (tcp udp : ℤ) where
  handle_datagram-Healthy :
      (s : Server) (w : World S) → Healthy s → After Healthy (handle_datagram os any tcp udp s w)
  unfolding handle_datagram
  handle_datagram-Healthy s w h =
      bind_any Healthy (recvfrom os udp 1551 w) _ (λ (ret, bytes, from) w1.
        bind_any Healthy (die_if (ltz ret (pos 1)) w1) _ (λ u w2.
          bind_deref Healthy (build_msg (overlay bytes (zeros 1551)) (pos_part ret)) _ w2 (λ msg e.
            bind_deref Healthy (build_sent_buffer msg any.behind from any.padding) _ w2 (λ buf e'.
              bind (λ v. (v.dangling ≡ s.clients_container.dangling) × All Sane v.items) Healthy _ _
                (send_data-Sane os buf msg.topic s.clients_container (packet_size msg.content) w2
                  (packet_size-le msg any.behind any.padding from buf e') h.clients)
                (λ v w3 kept. record { tail = kept.0 ∙ h.tail; clients = kept.1 })))))

  Healthy-Preserved : Preserved os any tcp udp Healthy
  Healthy-Preserved = record {
    request = manage_connection_request-Healthy os tcp any.junk;
    datagram = handle_datagram-Healthy;
    command = manage_command_from_client-Healthy os;
    buffer = λ s b h. record { tail = h.tail; clients = h.clients };
  }

  -- In every state that a run can reach by calls of `handle`, whatever the system answers, the
  -- container's tail is in order, and each client has topics of 50 bytes, a queue whose tail is in
  -- order and whose elements fit their data and the buffer of `empty_queue`, and either is offline
  -- with the socket -1 or has `online` at 1. Nothing is said of the tail of a client's topics.
  pub Reach-Healthy : {s : Server} {w : World S} → Reach os any tcp udp s w → Healthy s
  Reach-Healthy r = Reach-keeps os any tcp udp Healthy Healthy-Preserved started r
    where
      started : Healthy (start tcp udp)
      started = unfold start in record { tail = refl; clients = tt }
