-- ===== src/Server/State.antt =====
-- The data of include/util.h and include/server_util.h, and the two look-ups of server_util.c.
-- A pointer to a client is the client's position in the container, from which nothing is removed.
use client_server_protocoale.Common.{
  ℕ, suc, Option, none, some, Bool, true, false, List, [], ◌∷◌, ℤ, eqz, if◌then◌else◌,
}
use client_server_protocoale.CString.{strncmp_eq}
use client_server_protocoale.LinkedList.View.{View}
use mathlib.Core.Option

abbrev pub id_len : ℕ
id_len = 10

abbrev pub string_len : ℕ
string_len = 50

abbrev pub max_len_buf : ℕ
max_len_buf = 1551

abbrev pub buflen : ℕ
buflen = 1600

-- sizeof(server_to_client_hdr) and sizeof(client_to_server_hdr)
abbrev pub server_to_client_size : ℕ
server_to_client_size = 64

abbrev pub client_to_server_size : ℕ
client_to_server_size = 52

pub record TopicStructure : Type 0 where
  pub topic : List ℕ
  pub sf : ℕ

pub record QueueElement : Type 0 where
  pub content : List ℕ
  pub len : ℕ

pub record ClientStructure : Type 0 where
  pub id : List ℕ
  pub subscribed_topics : View TopicStructure
  pub sock : ℤ
  pub online : ℕ
  pub queue : View QueueElement

-- What `main` keeps and hands to the functions that change it.
pub record Server : Type 0 where
  pub clients_container : View ClientStructure
  pub read_fds : ℤ → Bool
  pub fdmax : ℤ
  -- the buffer that the handlers share
  pub buf : List ℕ

unfoldable pub get_client_by_id : List ClientStructure → List ℕ → Option ℕ
get_client_by_id [] id = none
get_client_by_id (c ∷ cs) id =
    if strncmp_eq id_len c.id id then some 0 else Option.map suc (get_client_by_id cs id)

unfoldable pub get_client_by_sock : List ClientStructure → ℤ → Option ℕ
get_client_by_sock [] sock = none
get_client_by_sock (c ∷ cs) sock =
    if eqz c.sock sock then some 0 else Option.map suc (get_client_by_sock cs sock)

-- `FD_SET` and `FD_CLR`
abbrev pub fd_set : ℤ → (ℤ → Bool) → ℤ → Bool
fd_set fd fds x = if eqz x fd then true else fds x

abbrev pub fd_clr : ℤ → (ℤ → Bool) → ℤ → Bool
fd_clr fd fds x = if eqz x fd then false else fds x
