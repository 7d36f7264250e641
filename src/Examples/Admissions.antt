-- ===== src/Examples/Admissions.antt =====
-- Connections of clients that introduce themselves as "A", to a server that knows no client or one
-- of that name.
use client_server_protocoale.Common.{◌≡◌, refl, List, [], ◌∷◌, ◌++◌, ℕ, pos}
use client_server_protocoale.CString.{strncmp_eq}
use client_server_protocoale.Server.World.{World, Event, closed, done}
use client_server_protocoale.Server.State.{get_client_by_id}
use client_server_protocoale.Server.Connect.{manage_connection_request}
use client_server_protocoale.Server.Exchange.{packets}
use client_server_protocoale.Server.Deliver.{Ends}
use client_server_protocoale.Server.Admission.{
  Introduced, with_new, manage_connection_request-refused, manage_connection_request-new,
}
use client_server_protocoale.Examples.Systems.{introducing, world, server, online_client, bare}

server-Introduced : Introduced introducing (pos 3) [] server world
server-Introduced = record { accepts = refl; sends = refl; receives = refl; answers = refl }

bare-Introduced : Introduced introducing (pos 3) [] bare world
bare-Introduced = record { accepts = refl; sends = refl; receives = refl; answers = refl }

manage_connection_request-refused_example :
    (buf : List ℕ) × (events : List Event) × (w' : World (Unit {0})) × (manage_connection_request
        introducing
        (pos 3)
        []
        server
        world
      ≡ done (record server { buf = buf }) w')
    × (packets w'.log ≡ (pos 5, 5 ∷ []) ∷ (pos 5, 4 ∷ []) ∷ [])
    × (w'.log ≡ events ++ closed (pos 5) ∷ [])
unfolding get_client_by_id strncmp_eq
manage_connection_request-refused_example =
    manage_connection_request-refused introducing (pos 3) [] server world 0 online_client
      server-Introduced refl refl refl

manage_connection_request-new_example :
    Ends
      (manage_connection_request introducing (pos 3) [] bare world)
      (with_new introducing (pos 3) [] bare world)
      world
      ((pos 5, 5 ∷ []) ∷ [])
unfolding get_client_by_id
manage_connection_request-new_example =
    manage_connection_request-new introducing (pos 3) [] bare world bare-Introduced refl refl
