-- ===== src/Subscriber/Main.antt =====
-- subscriber.c: `main` from the arguments on, with the loop over the two descriptors.
use client_server_protocoale.Common.{
  ℕ, zero, suc, ◌+◌, Option, none, some, Bool, true, false, ◌||◌, List, [], ◌∷◌, ◌++◌, ℤ, pos, inc,
  eqz, ltz, pos_part, if◌then◌else◌,
}
use client_server_protocoale.Wire.Bytes.{swap16}
use client_server_protocoale.Server.World.{
  Os, Act, pure, out_of_fuel, ◌>>=◌, ◌>>◌, die_if, undefined, died, close, select,
}
use client_server_protocoale.Server.Startup.{SocketType, sock_stream, call, to_uint16}
use client_server_protocoale.Subscriber.Display.{Line}
use client_server_protocoale.Subscriber.Command.{
  Subscriber, Said, manage_id, handle_line, handle_packet,
}

-- What C leaves indeterminate: the bytes of the two local headers behind their `type`, what lies
-- behind a payload and behind `argv[1]` in memory, the descriptors in the read set that nothing
-- clears, and the variables before they are set.
pub record Indeterminate : Type 0 where
  pub junk : List ℕ
  pub behind : List ℕ
  pub behind_argument : List ℕ
  pub read_fds : ℤ → Bool
  pub unset : Subscriber

-- What is written to the standard output.
pub data Shown : Type 0 where
  said : Said → Shown
  line : Line → Shown

abbrev pub shows : {A : Type 0} → (A → Shown) → Option A → List Shown
shows f none = []
shows f (some a) = f a ∷ []

-- Within a round: what is kept, what was written, the variable `end`, and whether `main` returns.
pub record Progress : Type 0 where
  pub subscriber : Subscriber
  pub output : List Shown
  pub end : Bool
  pub exited : Bool

module _ {S : Type 0} (os : Os S) (any : Indeterminate) (sockfd : ℤ) where
  unfoldable pub handle : ℤ → Progress → Act S Progress
  handle i p =
      if eqz i (pos 0)
      then (do
        (exited, message, s) ← handle_line os sockfd any.junk p.subscriber
        pure
            (record p { subscriber = s; output = p.output ++ shows said message; exited = exited }))
      else if eqz i sockfd
      then (do
        (end, shown, s) ← handle_packet os sockfd any.behind p.subscriber
        pure (record p {
          subscriber = s;
          output = p.output ++ shows line shown;
          end = p.end || end;
        }))
      else pure p

  -- `for (int i = 0; i <= sockfd; i++)`
  unfoldable pub pass : ℕ → ℤ → (ℤ → Bool) → Progress → Act S Progress
  pass zero i ready p = λ w. out_of_fuel
  pass (suc k) i ready p = elim (ltz sockfd i) [
    | true ↦ pure p
    | false ↦ elim (ready i) [
      | true ↦ do
        p' ← handle i p
        elim p'.exited [ true ↦ pure p' | false ↦ pass k (inc i) ready p' ]
      | false ↦ pass k (inc i) ready p
    ]
  ]

  -- `FD_SET` of the socket and of the standard input
  abbrev pub watched : ℤ → Bool
  watched x = eqz x (pos 0) || (eqz x sockfd || any.read_fds x)

  -- One round of `while (1)`. A pass is given `sockfd + 2` rounds.
  unfoldable pub round : Progress → Act S Progress
  round p = do
    (ret, ready) ← select os (inc sockfd) watched
    die_if (ltz ret (pos 0))
    pass (pos_part sockfd + 2) (pos 0) ready (record p { end = false })

  -- The loop, for as many rounds as are given.
  unfoldable pub main_loop : ℕ → Progress → Act S Progress
  main_loop zero p = λ w. out_of_fuel
  main_loop (suc k) p = do
    p' ← round p
    elim p'.exited [
      | true ↦ pure p'
      | false ↦ elim p'.end [ true ↦ close os sockfd >> pure p' | false ↦ main_loop k p' ]
    ]

-- The calls of the set-up: `socket`, `connect` with the address and the port in network order, and
-- the conversions `inet_aton` and `atoi` of a string.
record Calls (S : Type 0) : Type 0 where
  socket : S → SocketType → ℤ × S
  connect : S → ℤ → ℕ → ℕ → ℤ × S
  inet_aton : List ℕ → Option ℕ
  atoi : List ℕ → ℤ

-- `sockfd` and what is kept, at the top of the loop; `none` where there are too few arguments, and
-- `usage` ends the program.
unfoldable start_up :
    {S : Type 0} → Os S → Calls S → Indeterminate → List (List ℕ) → Act S (Option (ℤ × Progress))
start_up os calls any (file ∷ id ∷ server ∷ rest) = do
  sockfd ← call (λ s. calls.socket s sock_stream)
  die_if (ltz sockfd (pos 0))
  port ← (elim rest [ [] ↦ undefined | p ∷ ps ↦ pure (swap16 (to_uint16 (calls.atoi p))) ])
  address ← (elim (calls.inet_aton server) [ none ↦ (λ w. died w) | some a ↦ pure a ])
  ret ← call (λ s. calls.connect s sockfd address port)
  die_if (ltz ret (pos 0))
  s ← manage_id os sockfd any.junk (id ++ 0 ∷ any.behind_argument) any.unset
  pure (some (sockfd, record { subscriber = s; output = []; end = false; exited = false }))
start_up os calls any argv = pure none
