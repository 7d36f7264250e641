-- ===== src/Examples/Streams.antt =====
-- A subscriber that gets a message and the closing packet.
use client_server_protocoale.Common.{
  ◌≡◌, refl, ℕ, some, List, [], ◌∷◌, ◌++◌, pos, false, arith, eqz,
}
use client_server_protocoale.CString.{zeros, overlay, strlen}
use client_server_protocoale.Server.World.{Os, World, Received}
use client_server_protocoale.Subscriber.Display.{
  Line, string, show_packet, show_header, extract, value_of,
}
use client_server_protocoale.Subscriber.Main.{Indeterminate, Progress}
use client_server_protocoale.Subscriber.Stream.{Stream}
use client_server_protocoale.Subscriber.Listens.{Ended, main_loop-Ended}
use client_server_protocoale.Examples.Systems.{address}

abbrev receive : List (List ℕ) → Received (List (List ℕ))
receive [] = record { ret = pos 0; bytes = []; next = [] }
receive (b ∷ bs) = record { ret = pos 1; bytes = b; next = bs }

-- The packets that are still to come, one for each `recv`; `select` reports the socket 3.
abbrev streaming : Os (List (List ℕ))
streaming = record {
  send = λ s sock bytes. (pos 53, s);
  recv = λ s sock n. receive s;
  accept = λ s sock. record { ret = pos 5; cli_addr = address; next = s };
  close = λ s sock. s;
  recvfrom = λ s sock n. record { ret = pos 0; bytes = []; from = address; next = s };
  read = λ s fd n. record { ret = pos 0; bytes = []; next = s };
  select = λ s n fds. record { ret = pos 1; ready = λ fd. eqz fd (pos 3); next = s };
}

-- A STRING, "hi", on the topic "ab".
abbrev message : List ℕ
message = 3 ∷ zeros 9 ++ (97 ∷ 98 ∷ zeros 48 ++ (2 ∷ 0 ∷ 0 ∷ 0 ∷ 104 ∷ 105 ∷ []))

abbrev shown_line : Line
shown_line = record { adr = 0; udp_port = 0; topic = 97 ∷ 98 ∷ []; value = string (104 ∷ 105 ∷ []) }

abbrev stream : Stream
stream = (message, some shown_line) ∷ []

abbrev any : Indeterminate
any = record {
  junk = zeros 51;
  behind = 0 ∷ [];
  behind_argument = zeros 10;
  read_fds = λ fd. false;
  unset = record {
    buffer = [];
    command = [];
    cls_hdr = record { type = 0; sf = 1; topic = zeros 50 };
    sf = pos 1;
  };
}

abbrev begun : Progress
begun = record { subscriber = any.unset; output = []; end = false; exited = false }

abbrev arriving : World (List (List ℕ))
arriving = record { system = message ∷ (4 ∷ []) ∷ []; log = [] }

message-shown : show_packet (overlay message (zeros 1600)) (0 ∷ []) ≡ some (some shown_line)
unfolding show_packet show_header extract value_of strlen
    client_server_protocoale.Wire.Header.decode_header client_server_protocoale.Wire.Bytes.swap32
    client_server_protocoale.Wire.Bytes.swap16
message-shown = refl

main_loop-Ended_example : Ended streaming any 2 stream 2 begun arriving
main_loop-Ended_example =
    main_loop-Ended streaming any 2 [] stream 2 begun arriving refl (message-shown, refl, tt)
      (
        record {
          selects = refl;
          quiet = refl;
          ready = refl;
          receives = refl;
          stores = refl;
          sends = refl;
        },
        (
          record {
            selects = refl;
            quiet = refl;
            ready = refl;
            receives = refl;
            stores = refl;
            sends = refl;
          },
          tt,
        ),
      )
      (omega arith)
