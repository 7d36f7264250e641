-- ===== src/Examples/Registers.antt =====
-- A run of the server: a client introduces itself twice.
use client_server_protocoale.Common.{◌≡◌, refl, [], pos, false, Bool, length}
use client_server_protocoale.CString.{strncmp_eq}
use client_server_protocoale.LinkedList.View.{add_last, append_to}
use client_server_protocoale.Server.World.{
  World, Outcome, done, died, fault, out_of_fuel, send, recv, accept, close,
}
use client_server_protocoale.Server.State.{Server, get_client_by_id}
use client_server_protocoale.Server.Connect.{
  request_id, admit_new, refuse, admit, manage_connection_request,
}
use client_server_protocoale.Server.Main.{Indeterminate, handle, start}
use client_server_protocoale.Server.Reach.{begin, next}
use client_server_protocoale.Server.Runs.{Unique, Reach-Unique}
use client_server_protocoale.Server.HealthyRuns.{Reach-Healthy}
use client_server_protocoale.Server.Healthy.{Healthy}
use client_server_protocoale.Examples.Systems.{introducing, world}

abbrev any : Indeterminate
any = record { junk = []; behind = []; padding = [] }

abbrev server_of : Outcome (Unit {0}) (Bool × Server) → Server
server_of (done (end, s) w) = s
server_of (died w) = start (pos 3) (pos 4)
server_of fault = start (pos 3) (pos 4)
server_of out_of_fuel = start (pos 3) (pos 4)

abbrev world_of : Outcome (Unit {0}) (Bool × Server) → World (Unit {0})
world_of (done r w) = w
world_of (died w) = w
world_of fault = world
world_of out_of_fuel = world

abbrev first_call : Outcome (Unit {0}) (Bool × Server)
first_call = handle introducing any (pos 3) (pos 4) (pos 3) (start (pos 3) (pos 4)) world

abbrev second_call : Outcome (Unit {0}) (Bool × Server)
second_call =
    handle introducing any (pos 3) (pos 4) (pos 3) (server_of first_call) (world_of first_call)

first_call_done : first_call ≡ done (false, server_of first_call) (world_of first_call)
unfolding handle manage_connection_request request_id send recv accept admit admit_new
    get_client_by_id start add_last append_to
first_call_done = refl

second_call_done : second_call ≡ done (false, server_of second_call) (world_of second_call)
unfolding handle manage_connection_request request_id send recv accept close admit admit_new refuse
    get_client_by_id start strncmp_eq add_last append_to
second_call_done = refl

-- The second time the client is refused.
registered : length (server_of second_call).clients_container.items ≡ 1
unfolding handle manage_connection_request request_id send recv accept close admit admit_new refuse
    get_client_by_id start strncmp_eq add_last append_to
registered = refl

Reach-Unique_example : Unique (server_of second_call)
Reach-Unique_example =
    Reach-Unique introducing any (pos 3) (pos 4)
      (next (pos 3) (next (pos 3) (begin world) first_call_done) second_call_done)

Reach-Healthy_example : Healthy (server_of second_call)
Reach-Healthy_example =
    Reach-Healthy introducing any (pos 3) (pos 4)
      (next (pos 3) (next (pos 3) (begin world) first_call_done) second_call_done)
