-- ===== src/Examples/Servers.antt =====
-- The server's functions on two clients, one online and one offline.
use client_server_protocoale.Common.{
  ◌≡◌, ◌↔◌, refl, some, List, [], ◌∷◌, ◌++◌, ℤ, pos, minus_one, arith, true, false, take,
}
use client_server_protocoale.CString.{zeros, strlen}
use client_server_protocoale.LinkedList.View.{View}
use client_server_protocoale.Server.World.{World, done, died, sent, received}
use client_server_protocoale.Server.State.{
  TopicStructure, QueueElement, ClientStructure, Server, fd_set, get_client_by_sock,
}
use client_server_protocoale.Server.Send.{send_data, empty_queue, find_topic}
use client_server_protocoale.Server.Connect.{admit, close_loop, close_all_sockets}
use client_server_protocoale.Server.Command.{subscribe, same_topic}
use client_server_protocoale.Server.Main.{handle_client}
use client_server_protocoale.Server.Exchange.{packets}
use client_server_protocoale.Server.Replay.{Emptied, empty_queue-Emptied}
use client_server_protocoale.Server.Matching.{
  agrees, first_match, AllTopics, find_topic-first_match,
}
use client_server_protocoale.Server.Deliver.{Ends, keeping, send_data-Ends}
use client_server_protocoale.Server.Store.{Sending, send_all}
use client_server_protocoale.Server.Forward.{admit-again, store_and_forward}
use client_server_protocoale.Server.Prefix.{send_data-last_byte, same_topic-text_iff}
use client_server_protocoale.Server.Subscriptions.{subscribe-first_match}
use client_server_protocoale.Server.Lost.{lost_connection}
use client_server_protocoale.Server.Shutdown.{close_loop-offline, close_all_sockets-Ends}
use client_server_protocoale.Examples.Systems.{
  address, acknowledging, acknowledging-Reliable, silent, world, ab, topic_ab, topic_cd,
  online_client, offline_client, server, unknown,
}

-- One packet to the client that is online, one element for the other.
send_data-Ends_example :
    Ends
      (send_data acknowledging (1 ∷ 2 ∷ 3 ∷ []) (97 ∷ 98 ∷ 0 ∷ []) server.clients_container 2 world)
      (record server.clients_container {
        items = online_client ∷ keeping (1 ∷ 2 ∷ []) offline_client ∷ [];
      })
      world
      ((pos 5, 1 ∷ 2 ∷ []) ∷ [])
unfolding strlen
send_data-Ends_example =
    send_data-Ends acknowledging acknowledging-Reliable (1 ∷ 2 ∷ 3 ∷ []) (97 ∷ 98 ∷ 0 ∷ []) 2
      (omega arith) (omega arith) server.clients_container world
      (
        record { topics = (refl, (refl, tt)); queue = refl },
        (record { topics = (refl, (refl, tt)); queue = refl }, tt),
      )

abbrev kept : ClientStructure
kept = record offline_client {
  queue = record {
    items = record { content = 1 ∷ []; len = 1 } ∷ record { content = 2 ∷ 3 ∷ []; len = 2 } ∷ [];
    size = pos 2;
    dangling = false;
  };
}

abbrev keeper : Server
keeper = record server {
  clients_container = record server.clients_container { items = online_client ∷ kept ∷ [] };
}

-- Two messages on "ab", of one byte and of two.
abbrev messages : List Sending
messages =
    record { message = 1 ∷ 9 ∷ []; topic = 97 ∷ 98 ∷ 0 ∷ []; bytes = 1 }
    ∷ record { message = 2 ∷ 3 ∷ []; topic = 97 ∷ 98 ∷ 0 ∷ []; bytes = 2 }
    ∷ []

store_and_forward_example :
    (v : View ClientStructure) × (w1 : World (Unit {0})) × (send_all acknowledging messages
        server.clients_container world
      ≡ done v w1)
    × (s' : Server) × (w2 : World (Unit {0})) × (admit acknowledging
          (pos 7)
          address
          []
          (66 ∷ [])
          []
          (some 1)
          (record server { clients_container = v })
          w1
        ≡ done s' w2)
    × (packets w2.log ≡ packets w1.log ++ (pos 7, 1 ∷ []) ∷ (pos 7, 2 ∷ 3 ∷ []) ∷ [])
unfolding strlen
store_and_forward_example =
    store_and_forward acknowledging acknowledging-Reliable (pos 7) address [] (66 ∷ []) [] 1 server
      world messages offline_client
      (
        record { topics = (refl, (refl, tt)); queue = refl },
        (record { topics = (refl, (refl, tt)); queue = refl }, tt),
      )
      refl refl refl
      (omega arith, omega arith, omega arith, (omega arith, omega arith, omega arith, tt))
      ((topic_ab, refl, refl), ((topic_ab, refl, refl), tt))

admit-again_example :
    (q : View QueueElement) × (q.items ≡ [])
    × Ends
        (admit acknowledging (pos 7) address [] (66 ∷ []) [] (some 1) keeper world)
        (record {
          clients_container = record keeper.clients_container {
            items = online_client ∷ record kept { sock = pos 7; online = 1; queue = q } ∷ [];
          };
          read_fds = fd_set (pos 7) keeper.read_fds;
          fdmax = pos 6;
          buf = [];
        })
        world
        ((pos 7, 1 ∷ []) ∷ (pos 7, 2 ∷ 3 ∷ []) ∷ [])
admit-again_example =
    admit-again acknowledging acknowledging-Reliable (pos 7) address [] (66 ∷ []) [] 1 keeper world
      kept refl refl (omega arith, omega arith, (omega arith, omega arith, tt))

empty_queue-Emptied_example :
    Emptied kept kept.queue.items world (empty_queue acknowledging kept world)
empty_queue-Emptied_example =
    empty_queue-Emptied acknowledging acknowledging-Reliable kept world
      (omega arith, omega arith, (omega arith, omega arith, tt))

subscribe-first_match_example :
    (v' : View TopicStructure) × (t : TopicStructure) × (subscribe ab 0
        offline_client.subscribed_topics
      ≡ some v')
    × (v'.dangling ≡ false)
    × AllTopics v'.items
    × (first_match (agrees (97 ∷ 98 ∷ 0 ∷ [])) v'.items ≡ some t)
    × (t.sf ≡ 0)
subscribe-first_match_example =
    subscribe-first_match (97 ∷ []) 98 (zeros 47) [] 0 (omega arith, tt) (omega arith) (omega arith)
      offline_client.subscribed_topics refl (refl, (refl, tt)) refl

find_topic-first_match_example :
    find_topic (97 ∷ 98 ∷ 0 ∷ []) (topic_cd ∷ topic_ab ∷ []) ≡ some (some topic_ab)
unfolding strlen
find_topic-first_match_example =
    find_topic-first_match (97 ∷ 98 ∷ 0 ∷ []) (topic_cd ∷ topic_ab ∷ []) (omega arith)
      (refl, (refl, tt))

-- A message on "ac" is handled as one on "ab".
send_data-last_byte_example :
    send_data silent (1 ∷ []) (97 ∷ 99 ∷ 0 ∷ []) server.clients_container 1 world
    ≡ send_data silent (1 ∷ []) (97 ∷ 98 ∷ 0 ∷ []) server.clients_container 1 world
send_data-last_byte_example =
    send_data-last_byte (97 ∷ []) 99 98 [] [] (omega arith, tt) (omega arith) (omega arith)
      (omega arith) silent (1 ∷ []) server.clients_container 1 world

same_topic-text_iff_example :
    (same_topic (97 ∷ 99 ∷ 0 ∷ []) topic_ab ≡ true) ↔ (take 1 ab ≡ 97 ∷ [])
same_topic-text_iff_example =
    same_topic-text_iff (97 ∷ []) 99 [] (omega arith, tt) (omega arith) topic_ab (omega arith) refl

lost_connection_example :
    (v : View TopicStructure) × (subscribe (zeros 50) 0 online_client.subscribed_topics ≡ some v)
    × (w' : World (Unit {0})) × (handle_client silent unknown (pos 3) (pos 4) (pos 5) server world
        ≡ done
            (record server {
              clients_container = record server.clients_container {
                items = record online_client { subscribed_topics = v } ∷ offline_client ∷ [];
              };
              buf = zeros 1551;
            })
            w')
    × (ret : ℤ) × (w'.log ≡ received (pos 5) [] (pos 0) ∷ sent (pos 5) (6 ∷ 0 ∷ []) ret ∷ [])
lost_connection_example =
    lost_connection silent (pos 5) server world 0 online_client (unfold get_client_by_sock in refl)
      refl refl refl unknown (pos 3) (pos 4) refl

close_loop-offline_example :
    (w' : World (Unit {0})) × (close_loop silent []
        (online_client ∷ offline_client ∷ online_client ∷ [])
        world
      ≡ died w')
close_loop-offline_example =
    close_loop-offline silent [] (online_client ∷ []) (online_client ∷ []) offline_client world refl
      (λ s. refl)

close_all_sockets-Ends_example :
    Ends
      (close_all_sockets acknowledging [] server.clients_container world)
      tt
      world
      ((pos 5, 4 ∷ []) ∷ (minus_one, 4 ∷ []) ∷ [])
close_all_sockets-Ends_example =
    close_all_sockets-Ends acknowledging [] acknowledging-Reliable server.clients_container world
