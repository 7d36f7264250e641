-- ===== src/Examples/Systems.antt =====
-- Three concrete systems, and the clients and messages that the examples share.
use client_server_protocoale.Common.{ℕ, refl, List, [], ◌∷◌, ◌++◌, pos, minus_one, false, length}
use client_server_protocoale.CString.{zeros}
use client_server_protocoale.LinkedList.View.{empty}
use client_server_protocoale.Server.World.{Os, World, Address}
use client_server_protocoale.Server.State.{TopicStructure, ClientStructure, Server}
use client_server_protocoale.Server.Main.{Indeterminate}
use client_server_protocoale.Server.Exchange.{Reliable}

abbrev pub address : Address
address = record { s_addr = 16777343; sin_port = 4660 }

-- Every `recv` stores `bytes`.
abbrev pub answering : List ℕ → Os (Unit {0})
answering bytes = record {
  send = λ s sock sent. (pos (length sent), tt);
  recv = λ s sock n. record { ret = pos (length bytes); bytes = bytes; next = tt };
  accept = λ s sock. record { ret = pos 5; cli_addr = address; next = tt };
  close = λ s sock. tt;
  recvfrom = λ s sock n. record { ret = pos 0; bytes = []; from = address; next = tt };
  read = λ s fd n. record { ret = pos 0; bytes = []; next = tt };
  select = λ s n fds. record { ret = pos 0; ready = λ fd. false; next = tt };
}

-- Every packet is acknowledged.
abbrev pub acknowledging : Os (Unit {0})
acknowledging = answering (4 ∷ [])

pub acknowledging-Reliable : Reliable acknowledging
acknowledging-Reliable = record {
  send_succeeds = λ s sock bytes. refl;
  recv_succeeds = λ s sock n. refl;
  answers_ack = λ s sock n. refl;
}

-- Nothing is received any more.
abbrev pub silent : Os (Unit {0})
silent = answering []

-- A client introduces itself as "A".
abbrev pub introducing : Os (Unit {0})
introducing = answering (2 ∷ zeros 51 ++ 65 ∷ 0 ∷ [])

abbrev pub world : World (Unit {0})
world = record { system = tt; log = [] }

-- "ab", as an array of 50 bytes
abbrev pub ab : List ℕ
ab = 97 ∷ 98 ∷ zeros 48

abbrev pub topic_ab : TopicStructure
topic_ab = record { topic = ab; sf = 1 }

-- "cd"
abbrev pub topic_cd : TopicStructure
topic_cd = record { topic = 99 ∷ 100 ∷ zeros 48; sf = 0 }

abbrev pub online_client : ClientStructure
online_client = record {
  id = 65 ∷ zeros 9;
  subscribed_topics = record { items = topic_cd ∷ topic_ab ∷ []; size = pos 2; dangling = false };
  sock = pos 5;
  online = 1;
  queue = empty;
}

abbrev pub offline_client : ClientStructure
offline_client = record online_client { id = 66 ∷ zeros 9; sock = minus_one; online = 0 }

abbrev pub server : Server
server = record {
  clients_container = record {
    items = online_client ∷ offline_client ∷ [];
    size = pos 2;
    dangling = false;
  };
  read_fds = λ fd. false;
  fdmax = pos 5;
  buf = zeros 1551;
}

-- The same server with no client.
abbrev pub bare : Server
bare = record server { clients_container = empty }

abbrev pub unknown : Indeterminate
unknown = record { junk = []; behind = []; padding = [] }
