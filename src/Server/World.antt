-- ===== src/Server/World.antt =====
-- What the server asks of the operating system, and the outcome of a function that does. The calls
-- are parameters, over a state of the system's own; each call but `select` is recorded in a log,
-- with its answer.
use client_server_protocoale.Common.{
  ℕ, Option, none, some, Bool, List, [], ◌∷◌, ◌++◌, ℤ, minus_one, eqz, if◌then◌else◌, get_or,
}

-- The answer of `recv`, `read` and `recvfrom`: the value returned, and the bytes that were stored.
pub record Received (S : Type 0) : Type 0 where
  pub ret : ℤ
  pub bytes : List ℕ
  pub next : S

-- `struct sockaddr_in`, with the fields in network order.
pub record Address : Type 0 where
  pub s_addr : ℕ
  pub sin_port : ℕ

pub record Accepted (S : Type 0) : Type 0 where
  pub ret : ℤ
  pub cli_addr : Address
  pub next : S

-- The answer of `recvfrom`, with the sender's address.
pub record Datagram (S : Type 0) : Type 0 where
  pub ret : ℤ
  pub bytes : List ℕ
  pub from : Address
  pub next : S

-- The answer of `select`: the value returned, and the descriptors left in the set.
pub record Selected (S : Type 0) : Type 0 where
  pub ret : ℤ
  pub ready : ℤ → Bool
  pub next : S

pub record Os (S : Type 0) : Type 0 where
  pub send : S → ℤ → List ℕ → ℤ × S
  pub recv : S → ℤ → ℕ → Received S
  pub accept : S → ℤ → Accepted S
  pub close : S → ℤ → S
  pub recvfrom : S → ℤ → ℕ → Datagram S
  pub read : S → ℤ → ℕ → Received S
  pub select : S → ℤ → (ℤ → Bool) → Selected S

pub data Event : Type 0 where
  sent : ℤ → List ℕ → ℤ → Event
  received : ℤ → List ℕ → ℤ → Event
  accepted : ℤ → Address → Event
  closed : ℤ → Event
  datagram : List ℕ → Address → ℤ → Event
  typed : List ℕ → ℤ → Event
  -- the three messages on the standard output; an id is here the ten bytes of its array, of which
  -- `printf` shows those up to a NUL, and reads on behind the array where it holds none
  new_connection : List ℕ → Address → Event
  already_connected : List ℕ → Event
  disconnected : List ℕ → Event

pub record World (S : Type 0) : Type 0 where
  pub system : S
  pub log : List Event

-- `died` is `exit(EXIT_FAILURE)` in the macro DIE; `fault` is a use of memory that C leaves
-- undefined; `out_of_fuel` is a loop that was given too few rounds.
pub data Outcome (S : Type 0) (A : Type 0) : Type 0 where
  done : A → World S → Outcome S A
  died : World S → Outcome S A
  fault : Outcome S A
  out_of_fuel : Outcome S A

abbrev pub Act : Type 0 → Type 0 → Type 0
Act S A = World S → Outcome S A

module _ {S : Type 0} where
  abbrev pub pure : {A : Type 0} → A → Act S A
  pure a w = done a w

  abbrev pub undefined : {A : Type 0} → Act S A
  undefined w = fault

  abbrev pub and_then : {A B : Type 0} → Outcome S A → (A → Act S B) → Outcome S B
  and_then (done a w) k = k a w
  and_then (died w) k = died w
  and_then fault k = fault
  and_then out_of_fuel k = out_of_fuel

  infixl 5 ◌>>=◌ ◌>>◌
  abbrev pub ◌>>=◌ : {A B : Type 0} → Act S A → (A → Act S B) → Act S B
  ◌>>=◌ c k w = and_then (c w) k

  abbrev pub ◌>>◌ : {B : Type 0} → Act S (Unit {0}) → Act S B → Act S B
  c >> k = c >>= λ _. k

  -- `DIE(assertion, …)`
  abbrev pub die_if : Bool → Act S (Unit {0})
  die_if assertion w = if assertion then died w else done tt w

  -- A value that the code dereferences, or stores through, without a test.
  abbrev pub deref : {A : Type 0} → Option A → Act S A
  deref none w = fault
  deref (some a) w = done a w

  abbrev pub note : World S → Event → World S
  note w e = record w { log = w.log ++ e ∷ [] }

  abbrev pub emit : Event → Act S (Unit {0})
  emit e w = done tt (note w e)

  module _ (os : Os S) where
    unfoldable pub send : ℤ → List ℕ → Act S ℤ
    send sock bytes w =
        let r = os.send w.system sock bytes in
        done r.0 (record { system = r.1; log = w.log ++ sent sock bytes r.0 ∷ [] })

    unfoldable pub recv : ℤ → ℕ → Act S (ℤ × List ℕ)
    recv sock len w =
        let r = os.recv w.system sock len in
        done (r.ret, r.bytes)
          (record { system = r.next; log = w.log ++ received sock r.bytes r.ret ∷ [] })

    unfoldable pub accept : ℤ → Act S (ℤ × Address)
    accept sock w =
        let r = os.accept w.system sock in
        done (r.ret, r.cli_addr)
          (record { system = r.next; log = w.log ++ accepted r.ret r.cli_addr ∷ [] })

    unfoldable pub close : ℤ → Act S (Unit {0})
    close sock w =
        done tt (record { system = os.close w.system sock; log = w.log ++ closed sock ∷ [] })

    unfoldable pub recvfrom : ℤ → ℕ → Act S (ℤ × List ℕ × Address)
    recvfrom sock len w =
        let r = os.recvfrom w.system sock len in
        done (r.ret, r.bytes, r.from)
          (record { system = r.next; log = w.log ++ datagram r.bytes r.from r.ret ∷ [] })

    unfoldable pub read : ℤ → ℕ → Act S (ℤ × List ℕ)
    read fd len w =
        let r = os.read w.system fd len in
        done (r.ret, r.bytes) (record { system = r.next; log = w.log ++ typed r.bytes r.ret ∷ [] })

    unfoldable pub select : ℤ → (ℤ → Bool) → Act S (ℤ × (ℤ → Bool))
    select nfds fds w =
        let r = os.select w.system nfds fds in
        done (r.ret, r.ready) (record { system = r.next; log = w.log })

-- `*(unsigned char *)buf`: the field `type` of either header in a buffer
abbrev pub type_of : List ℕ → ℕ
type_of buf = get_or buf 0 0

-- A call's error return, -1.
abbrev pub failed : ℤ → Bool
failed ret = eqz ret minus_one
