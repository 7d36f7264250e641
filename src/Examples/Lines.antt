-- ===== src/Examples/Lines.antt =====
-- "subscribe ab 1", typed by a subscriber whose server answers with type 6.
use client_server_protocoale.Common.{◌≡◌, refl, [], ◌∷◌, ◌++◌, pos, arith}
use client_server_protocoale.CString.{strlen, zeros, overlay}
use client_server_protocoale.Server.World.{Os}
use client_server_protocoale.Server.Command.{ClientToServerHdr, read_client_hdr}
use client_server_protocoale.Server.Deliver.{Ends}
use client_server_protocoale.Subscriber.Command.{
  Subscriber, subscribe_word, encode_client_hdr, process_subscribe,
}
use client_server_protocoale.Subscriber.Commands.{process_subscribe-read}
use client_server_protocoale.Examples.Systems.{answering, world, ab}

abbrev granting : Os (Unit {0})
granting = answering (6 ∷ [])

abbrev typed : Subscriber
typed = record {
  buffer = subscribe_word ++ (32 ∷ 97 ∷ 98 ∷ 32 ∷ 49 ∷ 10 ∷ zeros 10);
  command = subscribe_word ++ zeros 5;
  cls_hdr = record { type = 0; sf = 0; topic = zeros 50 };
  sf = pos 0;
}

abbrev header : ClientToServerHdr
header = record { type = 0; sf = 1; topic = ab }

process_subscribe-read_example :
    Ends
      (process_subscribe granting (pos 3) typed world)
      (record typed {
        buffer = overlay (encode_client_hdr header) (zeros 1600);
        cls_hdr = header;
        sf = pos 1;
      })
      world
      ((pos 3, encode_client_hdr header) ∷ [])
    × (read_client_hdr (overlay (encode_client_hdr header) (zeros 1551)) ≡ header)
unfolding strlen
process_subscribe-read_example =
    process_subscribe-read typed subscribe_word 97 (98 ∷ []) 1 (zeros 10) refl refl
      (omega arith, refl, (omega arith, refl, tt)) (omega arith) refl granting (pos 3) world
      (λ st. refl)
