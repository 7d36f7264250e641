-- ===== src/LinkedList/Walk.antt =====
-- The walk to a position, and chains that are cut there.
use client_server_protocoale.Common.{◌≡◌, ◌≢◌, refl, true, false, [], ◌∷◌, ◌++◌, arith, length}
use client_server_protocoale.LinkedList.Memory.{Ptr, null, node, Memory, ok}
use client_server_protocoale.LinkedList.Cells.{
  Cells, Nodes, has, first, last, last_addr, Linked, Distinct, has-append,
}
use client_server_protocoale.LinkedList.Steps.{not_null, load-ok}
use client_server_protocoale.LinkedList.Add.{walk}

pub Linked-split :
    (f : Nodes) (xs ys : Cells) (q : Ptr)
    → Linked f (xs ++ ys) q
    → Linked f xs (first ys q) × Linked f ys q
Linked-split f [] ys q c = (tt, c)
Linked-split f ((p, d) ∷ []) ys q c = ((c.0, tt), c.1)
Linked-split f ((p, d) ∷ (r, s) ∷ xs) ys q c =
    let rest = Linked-split f ((r, s) ∷ xs) ys q c.1 in ((c.0, rest.0), rest.1)

pub Distinct-split : (xs ys : Cells) → Distinct (xs ++ ys) → Distinct xs × Distinct ys
Distinct-split [] ys h = (tt, h)
Distinct-split ((p, d) ∷ xs) ys h =
    let rest = Distinct-split xs ys h.2 in
    ((h.0, ground (arith, has-append p xs ys), rest.0), rest.1)

-- No address is on both sides of the cut.
pub has-split : (a : Ptr) (xs ys : Cells) → Distinct (xs ++ ys) → has a xs ≡ true → has a ys ≡ false
has-split a [] ys h i = cc
has-split a ((p, d) ∷ xs) ys h i = ground (arith, has-append p xs ys, has-split a xs ys h.2)

pub first-append : (xs ys : Cells) (q : Ptr) → first (xs ++ ys) q ≡ first xs (first ys q)
first-append [] ys q = refl
first-append ((p, d) ∷ xs) ys q = refl

pub last_addr-last : (p : Ptr) (x : Ptr × Ptr) (xs : Cells) → last_addr p (x ∷ xs) ≡ (last x xs).0
last_addr-last p (a, d) [] = refl
last_addr-last p (a, d) (y ∷ xs) = last_addr-last a y xs

pub last-append_cons :
    (x : Ptr × Ptr) (xs : Cells) (y : Ptr × Ptr) (ys : Cells) → last x (xs ++ y ∷ ys) ≡ last y ys
last-append_cons x [] y ys = refl
last-append_cons x (z ∷ xs) y ys = last-append_cons z xs y ys

-- From the head on, to the cut.
pub walk-ok :
    (m : Memory) (xs ys : Cells) (p : Ptr)
    → Linked m.nodes (xs ++ ys) null
    → Distinct (xs ++ ys)
    → walk (length xs) p (first (xs ++ ys) null) m ≡ ok (last_addr p xs, first ys null) m
unfolding walk
walk-ok m [] ys p chain apart = refl
walk-ok m ((a, d) ∷ xs) ys p chain apart =
    rw (load-ok m a (node d (first (xs ++ ys) null)) (not_null a apart.0) chain.0)
      (walk-ok m xs ys a chain.1 apart.2)

pub Distinct-insert :
    (xs ys : Cells) (p d : Ptr)
    → Distinct (xs ++ ys)
    → p ≢ null
    → has p (xs ++ ys) ≡ false
    → Distinct (xs ++ (p, d) ∷ ys)
Distinct-insert [] ys p d h ne out = (ne, out, h)
Distinct-insert ((a, e) ∷ xs) ys p d h ne out = (
  h.0,
  ground (arith, has-append a xs ys, has-append a xs ((p, d) ∷ ys)),
  Distinct-insert xs ys p d h.2 ne (ground arith),
)
