-- ===== src/Server/Command.antt =====
-- server_util.c: `manage_command_from_client`, with its three commands.
use client_server_protocoale.Common.{
  ℕ, Option, none, some, Bool, List, [], ◌∷◌, ℤ, minus_one, dec, eqz, ◌==◌, if◌then◌else◌, take,
  drop, get_elem?, get_or, set,
}
use client_server_protocoale.CString.{strncmp_eq, zeros, overlay}
use client_server_protocoale.LinkedList.View.{View, add_last, unlink_first}
use client_server_protocoale.Server.World.{
  Os, disconnected, Act, pure, ◌>>=◌, ◌>>◌, deref, emit, recv,
}
use client_server_protocoale.Server.State.{
  TopicStructure, ClientStructure, Server, string_len, max_len_buf, get_client_by_sock, fd_clr,
}
use client_server_protocoale.Server.Send.{compared_length}

pub record ClientToServerHdr : Type 0 where
  pub type : ℕ
  pub sf : ℕ
  pub topic : List ℕ

-- `memcpy(&cls_hdr, buf, sizeof(cls_hdr))`: bytes 0, 1 and 2 to 51
unfoldable pub read_client_hdr : List ℕ → ClientToServerHdr
read_client_hdr buf = record {
  type = get_or buf 0 0;
  sf = get_or buf 1 0;
  topic = take string_len (drop 2 buf);
}

-- The test of the loop in the subscribe command.
unfoldable pub same_topic : List ℕ → TopicStructure → Bool
same_topic topic t = strncmp_eq (compared_length topic) t.topic topic

-- The loop: `none` where it ends with `contained == 0`.
unfoldable pub set_sf : List ℕ → ℕ → List TopicStructure → Option (List TopicStructure)
set_sf topic sf [] = none
set_sf topic sf (t ∷ ts) =
    let rest = set_sf topic sf ts in
    if same_topic topic t
    then some (record t { sf = sf } ∷ ts)
    else elim rest [ none ↦ none | some ts' ↦ some (t ∷ ts') ]

unfoldable pub subscribe : List ℕ → ℕ → View TopicStructure → Option (View TopicStructure)
subscribe topic sf topics = elim (set_sf topic sf topics.items) [
  | some ts ↦ some (record topics { items = ts })
  | none ↦ add_last topics (record { topic = topic; sf = sf })
]

-- The test of the loop in the unsubscribe command. The write to the `sf` of the topic that is
-- found is lost with its node.
unfoldable pub equal_topic : List ℕ → TopicStructure → Bool
equal_topic topic t = strncmp_eq string_len t.topic topic

unfoldable pub unsubscribe : List ℕ → View TopicStructure → View TopicStructure
unsubscribe topic topics = unlink_first (equal_topic topic) topics

-- The container after a change to the client at position `k`.
abbrev pub put_client : Server → ℕ → ClientStructure → Server
put_client s k client = record s {
  clients_container = record s.clients_container { items = set s.clients_container.items k client };
}

unfoldable pub exit_client : ℕ → ClientStructure → Server → Server
exit_client k client s = record (put_client s k (record client { sock = minus_one; online = 0 })) {
  read_fds = fd_clr client.sock s.read_fds;
  fdmax = if eqz s.fdmax client.sock then dec s.fdmax else s.fdmax;
}

module _ {S : Type 0} where
  -- `client = get_client_by_sock(clients_container, i)`, with the accesses through it: there is no
  -- test for NULL.
  unfoldable pub the_client : ℤ → Server → Act S (ℕ × ClientStructure)
  the_client i s = do
    k ← deref (get_client_by_sock s.clients_container.items i)
    client ← deref (get_elem? s.clients_container.items k)
    pure (k, client)

  -- The `switch`: the value returned, and what the server keeps.
  unfoldable pub dispatch : ℤ → ClientToServerHdr → Server → Act S (ℤ × Server)
  dispatch i hdr s =
      if hdr.type == 0
      then (do
        (k, client) ← the_client i s
        topics ← deref (subscribe hdr.topic hdr.sf client.subscribed_topics)
        pure (minus_one, put_client s k (record client { subscribed_topics = topics })))
      else if hdr.type == 1
      then (do
        (k, client) ← the_client i s
        let topics = unsubscribe hdr.topic client.subscribed_topics
        pure (minus_one, put_client s k (record client { subscribed_topics = topics })))
      else if hdr.type == 3
      then (do
        (k, client) ← the_client i s
        emit (disconnected client.id)
        pure (i, exit_client k client s))
      else pure (minus_one, s)

  unfoldable pub manage_command_from_client : Os S → ℤ → Server → Act S (ℤ × Server)
  manage_command_from_client os i s = do
    (_, bytes) ← recv os i max_len_buf
    let buf = overlay bytes (zeros max_len_buf)
    dispatch i (read_client_hdr buf) (record s { buf = buf })
