-- ===== src/LinkedList/Memory.antt =====
-- The memory that LinkedList.c works on: nodes and data blocks at addresses, with what `malloc`
-- hands out and `free` takes back. `struct LinkedList` itself is passed and returned by the
-- functions that update it: the program reaches each one through a single pointer.
use client_server_protocoale.Common.{ℕ, Option, none, some, List, ℤ, ◌==◌, if◌then◌else◌}

abbrev pub Ptr : Type 0
Ptr = ℕ

abbrev pub null : Ptr
null = 0

pub record Node : Type 0 where
  pub payload : Ptr
  pub next : Ptr

abbrev pub node : Ptr → Ptr → Node
node d q = record { payload = d; next = q }

pub record LinkedList : Type 0 where
  pub head : Ptr
  pub tail : Ptr
  pub size : ℤ

-- An address that holds `none` is not allocated.
pub record Memory : Type 0 where
  pub nodes : Ptr → Option Node
  pub blocks : Ptr → Option (List ℕ)

abbrev pub write {ℓ} : {A : Type ℓ} → (Ptr → Option A) → Ptr → Option A → Ptr → Option A
write f p v q = if q == p then v else f q

-- `fault` is a use of memory that C leaves undefined, such as a read through a dangling pointer.
pub data Run (A : Type 0) : Type 0 where
  ok : A → Memory → Run A
  fault : Run A
  out_of_fuel : Run A

abbrev pub Cmd : Type 0 → Type 0
Cmd A = Memory → Run A

abbrev pub pure : {A : Type 0} → A → Cmd A
pure a m = ok a m

abbrev pub and_then : {A B : Type 0} → Run A → (A → Cmd B) → Run B
and_then (ok a m) k = k a m
and_then fault k = fault
and_then out_of_fuel k = out_of_fuel

infixl 5 ◌>>=◌ ◌>>◌
abbrev pub ◌>>=◌ : {A B : Type 0} → Cmd A → (A → Cmd B) → Cmd B
◌>>=◌ c k m = and_then (c m) k

abbrev pub ◌>>◌ : {B : Type 0} → Cmd (Unit {0}) → Cmd B → Cmd B
c >> k = c >>= λ _. k

-- `*p` for a node, and the writes to one
unfoldable pub load : Ptr → Cmd Node
load p m = if p == null then fault else elim (m.nodes p) [ none ↦ fault | some n ↦ ok n m ]

-- `p = malloc(sizeof(struct Node))`, where `p` is what `malloc` returns: NULL, or an address whose
-- fields are set before they are read.
unfoldable pub malloc_node : Ptr → Cmd (Unit {0})
malloc_node p m =
    if p == null
    then ok tt m
    else ok tt (record m { nodes = write m.nodes p (some (node null null)) })

unfoldable pub set_payload : Ptr → Ptr → Cmd (Unit {0})
unfolding load
set_payload p d = do
  n ← load p
  λ m. ok tt (record m { nodes = write m.nodes p (some (node d n.next)) })

unfoldable pub set_next : Ptr → Ptr → Cmd (Unit {0})
unfolding load
set_next p q = do
  n ← load p
  λ m. ok tt (record m { nodes = write m.nodes p (some (node n.payload q)) })

-- `free(p)` of a node: nothing at NULL, and a fault at what is not allocated
unfoldable pub free_node : Ptr → Cmd (Unit {0})
free_node p m = if p == null then ok tt m else elim (m.nodes p) [
  | none ↦ fault
  | some n ↦ ok tt (record m { nodes = write m.nodes p none })
]

-- The same for a data block.
unfoldable pub load_block : Ptr → Cmd (List ℕ)
load_block p m = if p == null then fault else elim (m.blocks p) [ none ↦ fault | some b ↦ ok b m ]

unfoldable pub store_block : Ptr → List ℕ → Cmd (Unit {0})
store_block p b m =
    if p == null then fault else ok tt (record m { blocks = write m.blocks p (some b) })

unfoldable pub free_block : Ptr → Cmd (Unit {0})
free_block p m = if p == null then ok tt m else elim (m.blocks p) [
  | none ↦ fault
  | some b ↦ ok tt (record m { blocks = write m.blocks p none })
]

-- Total correctness: the run ends, with no fault, in a result and a memory that satisfy `P`.
abbrev pub Returns : {A : Type 0} → (A → Memory → Type 0) → Run A → Type 0
Returns P (ok a m) = P a m
Returns P fault = ⊥
Returns P out_of_fuel = ⊥
