-- ===== src/LinkedList/Steps.antt =====
-- What the accesses to a node do where it is allocated.
use client_server_protocoale.Common.{◌≡◌, ◌≢◌, refl, false, some, arith, ◌==◌}
use client_server_protocoale.LinkedList.Memory.{
  Ptr, null, Node, node, Memory, write, ok, load, malloc_node, set_payload, set_next, free_node,
}
use mathlib.Core.Option.{Option, none}

-- The memory with `n` at `p`.
abbrev pub put : Memory → Ptr → Node → Memory
put m p n = record m { nodes = write m.nodes p (some n) }

pub not_null : (p : Ptr) → p ≢ null → (p == null) ≡ false
not_null p h = ground arith

module _ (m : Memory) (p : Ptr) (n : Node) (ne : (p == null) ≡ false)
    (holds : m.nodes p ≡ some n) where
  pub load-ok : load p m ≡ ok n m
  unfolding load
  load-ok = rw (ne, holds)

  pub set_next-ok : (q : Ptr) → set_next p q m ≡ ok tt (put m p (node n.payload q))
  unfolding set_next
  set_next-ok q = rw (ne, holds)

  pub set_payload-ok : (d : Ptr) → set_payload p d m ≡ ok tt (put m p (node d n.next))
  unfolding set_payload
  set_payload-ok d = rw (ne, holds)

  pub free_node-ok : free_node p m ≡ ok tt (record m { nodes = write m.nodes p none })
  unfolding free_node
  free_node-ok = rw (ne, holds)

pub malloc_node-ok :
    (m : Memory) (p : Ptr)
    → (p == null) ≡ false
    → malloc_node p m ≡ ok tt (put m p (node null null))
unfolding malloc_node
malloc_node-ok m p ne = rw ne

pub malloc_node-null : (m : Memory) → malloc_node null m ≡ ok tt m
unfolding malloc_node
malloc_node-null m = refl

pub write_self : (f : Ptr → Option Node) (p : Ptr) (n : Node) → write f p (some n) p ≡ some n
write_self f p n = ground arith
