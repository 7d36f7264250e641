-- ===== src/Examples/Exchanges.antt =====
-- The exit command typed at the server, one round of its loop, and the subscriber's three exchanges
-- with the server.
use client_server_protocoale.Common.{
  ◌≡◌, refl, ℕ, none, true, List, [], ◌∷◌, ◌++◌, pos, minus_one, arith,
}
use client_server_protocoale.CString.{strncmp_eq, zeros, overlay}
use client_server_protocoale.Server.World.{Os, World, Event, done, closed}
use client_server_protocoale.Server.State.{Server, get_client_by_id, get_client_by_sock}
use client_server_protocoale.Server.Send.{send_and_wait}
use client_server_protocoale.Server.Connect.{manage_connection_request}
use client_server_protocoale.Server.Main.{exit_command, handle_client, round, main_loop}
use client_server_protocoale.Server.Exchange.{Reliable, packets}
use client_server_protocoale.Server.Deliver.{Ends}
use client_server_protocoale.Server.Within.{Settles}
use client_server_protocoale.Server.Passes.{round-Settles}
use client_server_protocoale.Server.Exit.{main_loop-exit}
use client_server_protocoale.Server.Admission.{with_client}
use client_server_protocoale.Subscriber.Command.{Subscriber, manage_id, leave, handle_packet}
use client_server_protocoale.Subscriber.Display.{show_packet}
use client_server_protocoale.Subscriber.Acknowledge.{ack, send_and_wait-handle_packet}
use client_server_protocoale.Subscriber.Leave.{without, leave-handle_client}
use client_server_protocoale.Subscriber.Introduce.{
  introduction, manage_id-manage_connection_request,
}
use client_server_protocoale.Examples.Systems.{
  answering, acknowledging, world, server, online_client, bare, unknown,
}

-- "exit" is typed, and nothing else is ready.
abbrev typing : Os (Unit {0})
typing = record acknowledging {
  read = λ s fd n. record { ret = pos 5; bytes = exit_command ++ 10 ∷ []; next = tt };
  select = λ s n fds. record { ret = pos 1; ready = λ fd. true; next = tt };
}

typing-Reliable : Reliable typing
typing-Reliable = record {
  send_succeeds = λ s sock bytes. refl;
  recv_succeeds = λ s sock n. refl;
  answers_ack = λ s sock n. refl;
}

round-Settles_example : Settles (round typing unknown (pos 3) (pos 4) server world)
round-Settles_example = round-Settles typing unknown (pos 3) (pos 4) server world

abbrev ended : Server
ended = record server { buf = overlay (exit_command ++ 10 ∷ []) (zeros 1551) }

main_loop-exit_example :
    (events : List Event) × (v : World (Unit {0})) × (main_loop typing unknown
        (pos 3)
        (pos 4)
        1
        server
        world
      ≡ done ended v)
    × (packets v.log ≡ (pos 5, 4 ∷ []) ∷ (minus_one, 4 ∷ []) ∷ [])
    × (v.log ≡ events ++ closed (pos 4) ∷ closed (pos 3) ∷ [])
unfolding strncmp_eq
main_loop-exit_example =
    main_loop-exit typing typing-Reliable unknown (pos 3) (pos 4) server world
      (exit_command ++ 10 ∷ []) refl refl 0
      (record {
        selects = refl;
        ready = refl;
        reads = refl;
        stores = refl;
        counts = refl;
        is_exit = refl;
      })

abbrev subscriber : Subscriber
subscriber = record {
  buffer = [];
  command = [];
  cls_hdr = record { type = 0; sf = 1; topic = zeros 50 };
  sf = pos 1;
}

-- The packet that ends a subscriber.
abbrev farewell : List ℕ
farewell = 4 ∷ []

send_and_wait-handle_packet_example :
    Ends
      (handle_packet acknowledging (pos 3) [] subscriber world)
      (
        true,
        none,
        record subscriber {
          buffer = overlay farewell (zeros 1600);
          cls_hdr = record subscriber.cls_hdr { type = 4 };
        },
      )
      world
      ((pos 3, ack subscriber) ∷ [])
    × Ends
        (send_and_wait (answering (ack subscriber)) (pos 5) farewell 65 world)
        tt
        world
        ((pos 5, farewell) ∷ [])
unfolding client_server_protocoale.Wire.Header.decode_header
send_and_wait-handle_packet_example =
    send_and_wait-handle_packet acknowledging (pos 3) farewell [] none subscriber world
      (answering (ack subscriber)) (pos 5) 65 world refl refl refl (unfold show_packet in refl)
      (record { sends = refl; receives = refl; stores = refl })

leave-handle_client_example :
    Ends
      (leave (answering (6 ∷ 0 ∷ [])) (pos 3) (zeros 51) subscriber world)
      (record subscriber { buffer = overlay (6 ∷ 0 ∷ []) (zeros 1600) })
      world
      ((pos 3, 3 ∷ zeros 51) ∷ [])
    × Ends
        (handle_client (answering (3 ∷ zeros 51)) unknown (pos 3) (pos 4) (pos 5) server world)
        (without
          (answering (3 ∷ zeros 51))
          unknown
          (pos 3)
          (pos 4)
          (pos 5)
          server
          world
          0
          online_client
          (zeros 51))
        world
        ((pos 5, 6 ∷ 0 ∷ []) ∷ [])
leave-handle_client_example =
    leave-handle_client (answering (3 ∷ zeros 51)) unknown (pos 3) (pos 4) (pos 5) server world 0
      online_client (zeros 51) (answering (6 ∷ 0 ∷ [])) (pos 3) subscriber world
      (unfold get_client_by_sock in refl) refl refl refl refl
      (record { sends = refl; receives = refl; stores = refl })

-- The memory from `argv[1]` on, for the ID "A".
abbrev argument : List ℕ
argument = 65 ∷ zeros 9

abbrev introduced : Os (Unit {0})
introduced = answering (introduction (zeros 51) argument refl (omega arith))

manage_id-manage_connection_request_example :
    Ends
      (manage_id (answering (5 ∷ [])) (pos 3) (zeros 51) argument subscriber world)
      (record subscriber { buffer = overlay (2 ∷ zeros 51 ++ argument) (zeros 1600) })
      world
      ((pos 3, 2 ∷ zeros 51 ++ argument) ∷ [])
    × Ends
        (manage_connection_request introduced (pos 3) [] bare world)
        (with_client introduced (pos 3) [] bare world argument)
        world
        ((pos 5, 5 ∷ []) ∷ [])
unfolding get_client_by_id
manage_id-manage_connection_request_example =
    manage_id-manage_connection_request (zeros 51) argument refl (omega arith) (answering (5 ∷ []))
      (pos 3) [] subscriber world introduced (pos 3) bare world refl refl refl refl
      (record { accepts = refl; sends = refl; receives = refl }) refl refl
