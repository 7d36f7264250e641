-- ===== src/LinkedList/RemoveLaws.antt =====
-- `remove_first` on a list that is in order.
use client_server_protocoale.Common.{◌≡◌, refl, some, [], ◌∷◌, dec}
use client_server_protocoale.LinkedList.Memory.{Ptr, null, node, LinkedList, Memory, ok, Returns}
use client_server_protocoale.LinkedList.Cells.{Cells, Linked, Distinct, IsList, ListAt}
use client_server_protocoale.LinkedList.Steps.{load-ok, not_null}
use client_server_protocoale.LinkedList.Remove.{remove_first}

module _ (m : Memory) (l : LinkedList) where
  pub remove_first-nil : IsList m l [] → remove_first (some l) m ≡ ok (null, some l) m
  unfolding remove_first
  remove_first-nil is = rw is.head

  -- The list without its first node: an empty one has NULL as its tail.
  abbrev pub rest_of : Cells → LinkedList
  rest_of [] = record { head = null; tail = null; size = dec l.size }
  rest_of (y ∷ xs) = record { head = y.0; tail = l.tail; size = dec l.size }

  -- Whatever the tail and the size.
  pub remove_first-Linked :
      (x : Ptr × Ptr) (xs : Cells)
      → l.head ≡ x.0
      → Linked m.nodes (x ∷ xs) null
      → Distinct (x ∷ xs)
      → remove_first (some l) m ≡ ok (x.0, some (rest_of xs)) m
  unfolding remove_first
  remove_first-Linked x [] head chain apart =
      rw (head, not_null x.0 apart.0, load-ok m x.0 (node x.1 null) (not_null x.0 apart.0) chain.0)
        refl
  remove_first-Linked x (y ∷ xs) head chain apart =
      rw
        (
          head,
          not_null x.0 apart.0,
          load-ok m x.0 (node x.1 y.0) (not_null x.0 apart.0) chain.0,
          not_null y.0 apart.2.0,
        )
        refl

  IsList-rest : (x : Ptr × Ptr) (xs : Cells) → IsList m l (x ∷ xs) → IsList m (rest_of xs) xs
  IsList-rest x [] is = record {
    linked = tt;
    distinct = tt;
    head = refl;
    tail = tt;
    size = rw is.size refl;
  }
  IsList-rest x (y ∷ xs) is = record {
    linked = is.linked.1;
    distinct = is.distinct.2;
    head = refl;
    tail = is.tail;
    size = rw is.size refl;
  }

  -- On a list in order that is not empty `remove_first` ends without a fault: it returns the first
  -- node, the list is in order with the rest, its size one less, and the memory is unchanged.
  pub remove_first_lem :
      (x : Ptr × Ptr) (xs : Cells)
      → IsList m l (x ∷ xs)
      → Returns (λ (p, l') g. (p ≡ x.0) × ListAt g l' xs × (g ≡ m)) (remove_first (some l) m)
  remove_first_lem x xs is =
      rw (remove_first-Linked x xs is.head is.linked is.distinct) (refl, IsList-rest x xs is, refl)
