-- ===== src/Server/Runs.antt =====
-- The ids that are registered along a run.
use client_server_protocoale.Common.{◌≡◌, inl, ℤ, pos, ltz, pos_part}
use client_server_protocoale.CString.{zeros, overlay}
use client_server_protocoale.Wire.Message.{build_msg, build_sent_buffer}
use client_server_protocoale.Server.World.{Os, World, die_if, recvfrom}
use client_server_protocoale.Server.State.{Server}
use client_server_protocoale.Server.Connect.{manage_connection_request}
use client_server_protocoale.Server.Command.{manage_command_from_client}
use client_server_protocoale.Server.Main.{Indeterminate, handle_datagram, start}
use client_server_protocoale.Server.After.{After, bind, bind_any, bind_deref, After-mono}
use client_server_protocoale.Server.Reach.{Reach, Preserved, Reach-keeps}
use client_server_protocoale.Server.Registry.{ids, send_data-ids}
use client_server_protocoale.Server.Identities.{
  Grows, AllDistinct, AllDistinct-Grows, manage_connection_request-Grows,
  manage_command_from_client-ids,
}

abbrev pub Unique : Server → Type 0
Unique s = AllDistinct (ids s.clients_container.items)

module _ {S : Type 0} (os : Os S) (any : Indeterminate) (tcp udp : ℤ) where
  abbrev Change : Server → Server → Type 0
  Change s t = Grows s.clients_container.items t.clients_container.items

  grown : (s t : Server) → Change s t → Unique s → Unique t
  grown s t c u = AllDistinct-Grows s.clients_container.items t.clients_container.items c u

  handle_datagram-Grows :
      (s : Server) (w : World S) → After (Change s) (handle_datagram os any tcp udp s w)
  unfolding handle_datagram
  handle_datagram-Grows s w =
      bind_any (Change s) (recvfrom os udp 1551 w) _ (λ (ret, bytes, from) w1.
        bind_any (Change s) (die_if (ltz ret (pos 1)) w1) _ (λ u w2.
          bind_deref (Change s) (build_msg (overlay bytes (zeros 1551)) (pos_part ret)) _ w2
            (λ msg e.
              bind_deref (Change s) (build_sent_buffer msg any.behind from any.padding) _ w2
                (λ buf e'.
                  bind (λ v. ids v.items ≡ ids s.clients_container.items) (Change s) _ _
                    (send_data-ids os buf msg.topic s.clients_container _ w2)
                    (λ v w3 same. inl same)))))

  Unique-Preserved : Preserved os any tcp udp Unique
  Unique-Preserved = record {
    request = λ s w u.
        After-mono (Change s) Unique (manage_connection_request os tcp any.junk s w)
          (manage_connection_request-Grows os tcp any.junk s w) (λ t c. grown s t c u);
    datagram = λ s w u.
        After-mono (Change s) Unique (handle_datagram os any tcp udp s w)
          (handle_datagram-Grows s w) (λ t c. grown s t c u);
    command = λ i s w u.
        After-mono (λ r. ids r.1.clients_container.items ≡ ids s.clients_container.items)
          (λ r. Unique r.1) (manage_command_from_client os i s w)
          (manage_command_from_client-ids os i s w) (λ r e. grown s r.1 (inl e) u);
    buffer = λ s b u. u;
  }

  -- In every state that a run can reach by calls of `handle`, whatever the system answers, no two
  -- clients are registered under one id: ids that `strncmp` holds equal over ten bytes.
  pub Reach-Unique : {s : Server} {w : World S} → Reach os any tcp udp s w → Unique s
  unfolding start
  Reach-Unique r = Reach-keeps os any tcp udp Unique Unique-Preserved tt r
