-- ===== src/Server/Connect.antt =====
-- server_util.c: `manage_connection_request` and `close_all_sockets`. `junk` are the 63 bytes of the
-- local header behind its field `type`, which the code sends without setting them.
use client_server_protocoale.Common.{
  ℕ, Option, none, some, not, List, [], ◌∷◌, ℤ, inc, ◌==◌, if◌then◌else◌, take, drop, get_elem?,
  set,
}
use client_server_protocoale.CString.{zeros, overlay}
use client_server_protocoale.LinkedList.View.{View, empty, add_last}
use client_server_protocoale.Server.World.{
  Os, Address, new_connection, already_connected, Act, pure, ◌>>=◌, ◌>>◌, die_if, deref, emit, send,
  recv, accept, close, type_of, failed,
}
use client_server_protocoale.Server.State.{
  ClientStructure, Server, id_len, max_len_buf, client_to_server_size, get_client_by_id, fd_set,
}
use client_server_protocoale.Server.Send.{empty_queue}

module _ {S : Type 0} (os : Os S) where
  -- A connection is opened: the ID request is sent and the reply is read into `buf`.
  unfoldable pub request_id : ℤ → List ℕ → List ℕ → Act S (List ℕ)
  request_id new_sockfd junk buf = do
    let request = overlay (5 ∷ junk) buf
    ret ← send os new_sockfd (5 ∷ junk)
    die_if (failed ret)
    (ret', reply) ← recv os new_sockfd max_len_buf
    die_if (failed ret')
    let buf' = overlay reply request
    die_if (not (type_of buf' == 2))
    pure buf'

  unfoldable pub admit_new : ℤ → Address → List ℕ → List ℕ → Server → Act S Server
  admit_new new_sockfd cli_addr id buf s = do
    emit (new_connection id cli_addr)
    clients ← deref (
        add_last s.clients_container (record {
          id = id;
          subscribed_topics = empty;
          sock = new_sockfd;
          online = 1;
          queue = empty;
        }))
    pure (record {
      clients_container = clients;
      read_fds = fd_set new_sockfd s.read_fds;
      fdmax = inc s.fdmax;
      buf = buf;
    })

  -- The client with that id is at position `k`, and it is online: the connection is refused.
  unfoldable pub refuse : ℤ → List ℕ → ClientStructure → Server → Act S Server
  refuse new_sockfd junk old_client s = do
    emit (already_connected old_client.id)
    _ ← send os new_sockfd (4 ∷ junk)
    close os new_sockfd
    pure (record s { buf = overlay (4 ∷ junk) (zeros max_len_buf) })

  -- It is offline: it takes the new socket and gets what was kept for it.
  unfoldable pub admit_again : ℤ → Address → List ℕ → ℕ → ClientStructure → Server → Act S Server
  admit_again new_sockfd cli_addr buf k old_client s = do
    emit (new_connection old_client.id cli_addr)
    client ← empty_queue os (record old_client { sock = new_sockfd; online = 1 })
    pure (record {
      clients_container = record s.clients_container {
        items = set s.clients_container.items k client;
      };
      read_fds = fd_set new_sockfd s.read_fds;
      fdmax = inc s.fdmax;
      buf = buf;
    })

  -- The decision behind the look-up `get_client_by_id(clients_container, new_client.id)`.
  unfoldable pub admit : ℤ → Address → List ℕ → List ℕ → List ℕ → Option ℕ → Server → Act S Server
  admit new_sockfd cli_addr junk id buf none s = admit_new new_sockfd cli_addr id buf s
  admit new_sockfd cli_addr junk id buf (some k) s = do
    old_client ← deref (get_elem? s.clients_container.items k)
    if old_client.online == 0
        then admit_again new_sockfd cli_addr buf k old_client s
        else refuse new_sockfd junk old_client s

  unfoldable pub manage_connection_request : ℤ → List ℕ → Server → Act S Server
  manage_connection_request sockfd_tcp junk s = do
    (new_sockfd, cli_addr) ← accept os sockfd_tcp
    die_if (failed new_sockfd)
    buf ← request_id new_sockfd junk s.buf
    let id = take id_len (drop client_to_server_size buf)
    admit new_sockfd cli_addr junk id buf (get_client_by_id s.clients_container.items id) s

  -- One round of `close_all_sockets`. The results of `send` and `recv` are not looked at.
  unfoldable pub close_socket : List ℕ → ClientStructure → Act S (Unit {0})
  close_socket junk client = do
    _ ← send os client.sock (4 ∷ junk)
    (_, answer) ← recv os client.sock max_len_buf
    die_if (not (type_of (overlay answer (zeros max_len_buf)) == 4))
    close os client.sock

  unfoldable pub close_loop : List ℕ → List ClientStructure → Act S (Unit {0})
  close_loop junk [] = pure tt
  close_loop junk (c ∷ cs) = close_socket junk c >> close_loop junk cs

  unfoldable pub close_all_sockets : List ℕ → View ClientStructure → Act S (Unit {0})
  close_all_sockets junk clients_container = close_loop junk clients_container.items
