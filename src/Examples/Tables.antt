-- ===== src/Examples/Tables.antt =====
-- A system with a table of sixteen descriptors, and a client that introduces itself twice.
use client_server_protocoale.Common.{
  ℕ, zero, suc, ◌+◌, ◌≤◌, ◌≡◌, ◌⊎◌, inl, inr, refl, Bool, true, false, ◌||◌, [], ◌∷◌, ◌++◌, ℤ, pos,
  negsuc, minus_one, eqz, ltz, ltb, ◌==◌, subst, arith, length, Bool-cases, if◌then◌else◌,
}
use client_server_protocoale.CString.{zeros, strncmp_eq}
use client_server_protocoale.LinkedList.View.{add_last, append_to}
use client_server_protocoale.Server.World.{
  Os, World, Outcome, done, died, fault, out_of_fuel, send, recv, accept, close,
}
use client_server_protocoale.Server.State.{Server, fd_clr, get_client_by_id}
use client_server_protocoale.Server.Connect.{
  request_id, admit_new, refuse, admit, manage_connection_request,
}
use client_server_protocoale.Server.Main.{Indeterminate, handle, start}
use client_server_protocoale.Server.Reach.{begin, next}
use client_server_protocoale.Server.Descriptors.{Descriptors}
use client_server_protocoale.Server.Covered.{Cover}
use client_server_protocoale.Server.CoveredRuns.{Reach-Cover}
use client_server_protocoale.Examples.Systems.{address}

-- Which descriptors are open.
abbrev Table : Type 0
Table = ℤ → Bool

-- The lowest free descriptor of the `k` from `i` on, or -1.
abbrev lowest : ℕ → ℕ → Table → ℤ
lowest zero i t = minus_one
lowest (suc k) i t = if t (pos i) then lowest k (i + 1) t else pos i

-- Every client introduces itself as "A".
abbrev table_system : Os Table
table_system = record {
  send = λ t sock bytes. (pos (length bytes), t);
  recv = λ t sock n. record { ret = pos 54; bytes = 2 ∷ zeros 51 ++ 65 ∷ 0 ∷ []; next = t };
  accept = λ t sock. record {
    ret = lowest 16 0 t;
    cli_addr = address;
    next = λ x. eqz x (lowest 16 0 t) || t x;
  };
  close = λ t sock. fd_clr sock t;
  recvfrom = λ t sock n. record { ret = pos 0; bytes = []; from = address; next = t };
  read = λ t fd n. record { ret = pos 0; bytes = []; next = t };
  select = λ t n fds. record { ret = pos 0; ready = λ fd. false; next = t };
}

lowest-le : (k i n : ℕ) (t : Table) → i ≤ n → t (pos n) ≡ false → ltz (pos n) (lowest k i t) ≡ false
lowest-le zero i n t h free = refl
lowest-le (suc k) i n t h free = elim (Bool-cases (t (pos i))) [
  | inl taken ↦ elim (Bool-cases (i == n)) [
    | inl e ↦
        let same : i ≡ n = ground arith in
        let bad : t (pos n) ≡ true = subst (λ (j : ℕ). t (pos j) ≡ true) same taken in absurd (cc)
    | inr e ↦ rw taken (lowest-le k (i + 1) n t (ground arith) free)
  ]
  | inr found ↦ rw found (ground arith)
]

either : (b c : Bool) → (b || c) ≡ true → (b ≡ true) ⊎ (c ≡ true)
either true c h = inl refl
either false c h = inr h

table_system-Descriptors : Descriptors table_system (λ t. t)
table_system-Descriptors = record {
  send_opens = λ t sock bytes x o. o;
  recv_opens = λ t sock n x o. o;
  recvfrom_opens = λ t sock n x o. o;
  read_opens = λ t fd n x o. o;
  close_opens = λ t sock x o. elim (Bool-cases (eqz x sock)) [
    | inl e ↦ absurd (ground arith)
    | inr e ↦ (ground arith, e)
  ];
  accept_opens = λ t sock x o. either (eqz x (lowest 16 0 t)) (t x) o;
  accept_lowest = λ t sock n free. lowest-le 16 0 n t (omega arith) free;
}

-- The standard streams and the server's two sockets.
abbrev first_five : Table
first_five (pos n) = ltb n 5
first_five (negsuc n) = false

first_five-under : (x : ℤ) → first_five x ≡ true → ltz (pos 4) x ≡ false
first_five-under (pos n) h = ground arith
first_five-under (negsuc n) h = cc

abbrev any : Indeterminate
any = record { junk = []; behind = []; padding = [] }

abbrev table_world : World Table
table_world = record { system = first_five; log = [] }

abbrev server_of : Outcome Table (Bool × Server) → Server
server_of (done (end, s) w) = s
server_of (died w) = start (pos 3) (pos 4)
server_of fault = start (pos 3) (pos 4)
server_of out_of_fuel = start (pos 3) (pos 4)

abbrev world_of : Outcome Table (Bool × Server) → World Table
world_of (done r w) = w
world_of (died w) = w
world_of fault = table_world
world_of out_of_fuel = table_world

abbrev first_call : Outcome Table (Bool × Server)
first_call = handle table_system any (pos 3) (pos 4) (pos 3) (start (pos 3) (pos 4)) table_world

abbrev second_call : Outcome Table (Bool × Server)
second_call =
    handle table_system any (pos 3) (pos 4) (pos 3) (server_of first_call) (world_of first_call)

first_call_done : first_call ≡ done (false, server_of first_call) (world_of first_call)
unfolding handle manage_connection_request request_id send recv accept admit admit_new
    get_client_by_id start add_last append_to
first_call_done = refl

second_call_done : second_call ≡ done (false, server_of second_call) (world_of second_call)
unfolding handle manage_connection_request request_id send recv accept close admit admit_new refuse
    get_client_by_id start strncmp_eq add_last append_to
second_call_done = refl

Reach-Cover_example :
    Cover
      (λ t. t)
      (server_of second_call).fdmax
      (server_of second_call).read_fds
      (world_of second_call).system
Reach-Cover_example =
    Reach-Cover (λ t. t) table_system table_system-Descriptors any (pos 3) (pos 4)
      (next (pos 3) (next (pos 3) (begin table_world) first_call_done) second_call_done) refl refl
      first_five-under
