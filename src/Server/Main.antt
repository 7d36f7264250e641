-- ===== src/Server/Main.antt =====
-- server.c: what `main` does with a descriptor that is ready, one pass over the descriptors, and
-- the loop.
use client_server_protocoale.Common.{
  ℕ, zero, suc, ◌+◌, Option, none, some, Bool, true, false, List, [], ◌∷◌, ◌++◌, ℤ, pos, minus_one,
  inc, eqz, ltz, pos_part, if◌then◌else◌, length,
}
use client_server_protocoale.CString.{strncmp_eq, zeros, overlay}
use client_server_protocoale.LinkedList.View.{empty}
use client_server_protocoale.Server.World.{
  Os, Act, pure, out_of_fuel, ◌>>=◌, ◌>>◌, die_if, deref, send, close, recvfrom, read, select,
  failed,
}
use client_server_protocoale.Server.State.{Server, max_len_buf, server_to_client_size, fd_set}
use client_server_protocoale.Server.Send.{send_data}
use client_server_protocoale.Server.Connect.{manage_connection_request, close_all_sockets}
use client_server_protocoale.Server.Command.{manage_command_from_client}
use client_server_protocoale.Wire.Message.{build_msg, build_sent_buffer}

-- What C leaves indeterminate: the bytes of a local header behind its `type`, what lies behind a
-- topic in memory, and the padding of a header.
pub record Indeterminate : Type 0 where
  pub junk : List ℕ
  pub behind : List ℕ
  pub padding : List ℕ

-- "exit"
abbrev pub exit_command : List ℕ
exit_command = b'e' ∷ b'x' ∷ b'i' ∷ b't' ∷ []

abbrev pub stdin_fileno : ℤ
stdin_fileno = pos 0

-- `sizeof(server_to_client_hdr) + msg.bytes`
abbrev pub packet_size : Option (List ℕ) → ℕ
packet_size none = server_to_client_size
packet_size (some content) = server_to_client_size + length content

module _ {S : Type 0} (os : Os S) (any : Indeterminate) (sockfd_tcp sockfd_udp : ℤ) where
  unfoldable pub handle_datagram : Server → Act S Server
  handle_datagram s = do
    (ret, bytes, from) ← recvfrom os sockfd_udp max_len_buf
    die_if (ltz ret (pos 1))
    msg ← deref (build_msg (overlay bytes (zeros max_len_buf)) (pos_part ret))
    buf ← deref (build_sent_buffer msg any.behind from any.padding)
    clients ← send_data os buf msg.topic s.clients_container (packet_size msg.content)
    pure (record s { clients_container = clients; buf = buf })

  -- Whether the server is to end, and what it keeps.
  unfoldable pub handle_stdin : Server → Act S (Bool × Server)
  handle_stdin s = do
    (ret, bytes) ← read os stdin_fileno max_len_buf
    die_if (failed ret)
    let buf = overlay bytes (zeros max_len_buf)
    if strncmp_eq 4 buf exit_command
        then (close_all_sockets os any.junk s.clients_container
            >> pure (true, record s { buf = buf }))
        else pure (false, record s { buf = buf })

  unfoldable pub handle_client : ℤ → Server → Act S Server
  handle_client i s = do
    (to_close, s') ← manage_command_from_client os i s
    ret ← send os i (6 ∷ any.junk ++ 0 ∷ [])
    die_if (failed ret)
    if eqz to_close minus_one then pure s' else (close os to_close >> pure s')

  unfoldable pub handle : ℤ → Server → Act S (Bool × Server)
  handle i s =
      if eqz i sockfd_tcp
      then (do s' ← manage_connection_request os sockfd_tcp any.junk s; pure (false, s'))
      else if eqz i sockfd_udp
      then (do s' ← handle_datagram s; pure (false, s'))
      else if eqz i stdin_fileno
      then handle_stdin s
      else (do s' ← handle_client i s; pure (false, s'))

  -- `for (i = 0; i <= fdmax; i++)`, with its `break`; the bound is read anew in each round.
  unfoldable pub pass : ℕ → ℤ → (ℤ → Bool) → Server → Act S (Bool × Server)
  pass zero i ready s = λ w. out_of_fuel
  pass (suc k) i ready s = elim (ltz s.fdmax i) [
    | true ↦ pure (false, s)
    | false ↦ elim (ready i) [
      | true ↦ do
        (end, s') ← handle i s
        elim end [ true ↦ pure (true, s') | false ↦ pass k (inc i) ready s' ]
      | false ↦ pass k (inc i) ready s
    ]
  ]

  -- One round of `while (FOREVER)`. A pass is given `fdmax + 3` rounds: `fdmax` grows only
  -- where the listening socket is handled, and a pass meets that one once.
  unfoldable pub round : Server → Act S (Bool × Server)
  round s = do
    (ret, ready) ← select os (inc s.fdmax) s.read_fds
    die_if (ltz ret (pos 0))
    pass (pos_part s.fdmax + 3) (pos 0) ready s

  -- The loop, for as many rounds as are given; it ends on the exit command.
  unfoldable pub main_loop : ℕ → Server → Act S Server
  main_loop zero s = λ w. out_of_fuel
  main_loop (suc k) s = do
    (end, s') ← round s
    elim end [
      | true ↦ close os sockfd_udp >> (close os sockfd_tcp >> pure s')
      | false ↦ main_loop k s'
    ]

-- The server's state before the first round. The 1551 bytes of `buf` have no value yet, and are set
-- before they are read.
unfoldable pub start : ℤ → ℤ → Server
start sockfd_tcp sockfd_udp = record {
  clients_container = empty;
  read_fds = fd_set sockfd_udp (fd_set sockfd_tcp (fd_set stdin_fileno (λ x. false)));
  fdmax = sockfd_udp;
  buf = [];
}
