-- ===== src/LinkedList/Cells.antt =====
-- What a chain of nodes stands for: the address and the data pointer of each node, in order.
use client_server_protocoale.Common.{
  ◌≡◌, ◌≢◌, refl, Option, none, some, Bool, true, false, ◌||◌, List, [], ◌∷◌, ◌++◌, arith, pos, ℤ,
  ◌==◌, length,
}
use client_server_protocoale.LinkedList.Memory.{Ptr, null, Node, node, LinkedList, Memory, write}

abbrev pub Cells : Type 0
Cells = List (Ptr × Ptr)

abbrev pub Nodes : Type 0
Nodes = Ptr → Option Node

abbrev pub has : Ptr → Cells → Bool
has a [] = false
has a ((p, _) ∷ xs) = (a == p) || has a xs

-- The address of the first cell, or `q` where there is none.
abbrev pub first : Cells → Ptr → Ptr
first [] q = q
first ((p, _) ∷ xs) q = p

-- The last of the cells `x ∷ xs`.
abbrev pub last : Ptr × Ptr → Cells → Ptr × Ptr
last x [] = x
last x (y ∷ xs) = last y xs

-- The same for an address in front of the cells.
abbrev pub last_addr : Ptr → Cells → Ptr
last_addr p [] = p
last_addr p ((a, _) ∷ xs) = last_addr a xs

-- From cell to cell the nodes lead through `xs` to `q`.
abbrev pub Linked : Nodes → Cells → Ptr → Type 0
Linked f [] q = Unit {0}
Linked f ((p, d) ∷ xs) q = (f p ≡ some (node d (first xs q))) × Linked f xs q

abbrev pub Distinct : Cells → Type 0
Distinct [] = Unit {0}
Distinct ((p, _) ∷ xs) = (p ≢ null) × (has p xs ≡ false) × Distinct xs

abbrev pub TailOf : Ptr → Cells → Type 0
TailOf t [] = Unit {0}
TailOf t (x ∷ xs) = t ≡ (last x xs).0

-- A list that leads through the cells, with `z` as its size. The tail of an empty list is never
-- read, and may be anything.
pub record Listed (m : Memory) (l : LinkedList) (xs : Cells) (z : ℤ) : Type 0 where
  pub linked : Linked m.nodes xs null
  pub distinct : Distinct xs
  pub head : l.head ≡ first xs null
  pub tail : TailOf l.tail xs
  pub size : l.size ≡ z

-- A list that is in order: its size is the number of its cells.
abbrev pub IsList : Memory → LinkedList → Cells → Type 0
IsList m l xs = Listed m l xs (pos (length xs))

pub has-append : (a : Ptr) (xs ys : Cells) → has a (xs ++ ys) ≡ (has a xs || has a ys)
has-append a [] ys = refl
has-append a ((p, d) ∷ xs) ys = ground (arith, has-append a xs ys)

-- An address among the cells is not one that is outside.
pub ne_of_has : (a b : Ptr) (xs : Cells) → has a xs ≡ true → has b xs ≡ false → (b == a) ≡ false
ne_of_has a b [] i o = cc
ne_of_has a b ((p, d) ∷ xs) i o = ground (arith, ne_of_has a b xs)

pub not-has-snoc :
    (a : Ptr) (xs : Cells) (p d : Ptr)
    → has a (xs ++ (p, d) ∷ []) ≡ false
    → (has a xs ≡ false) × ((a == p) ≡ false)
not-has-snoc a xs p d o = ground (arith, has-append a xs ((p, d) ∷ []))

pub Linked-agree :
    (f g : Nodes) (xs : Cells) (q : Ptr)
    → Linked f xs q
    → ((a : Ptr) → has a xs ≡ true → g a ≡ f a)
    → Linked g xs q
Linked-agree f g [] q c same = tt
Linked-agree f g ((p, d) ∷ xs) q c same =
    (ground (arith, same p), Linked-agree f g xs q c.1 (λ a i. same a (ground arith)))

pub Linked-write :
    (f : Nodes) (xs : Cells) (q a : Ptr) (c : Option Node)
    → Linked f xs q
    → has a xs ≡ false
    → Linked (write f a c) xs q
Linked-write f xs q a c chain out = Linked-agree f (write f a c) xs q chain (λ b i. rw (apart b i))
  where
    apart : (b : Ptr) → has b xs ≡ true → (b == a) ≡ false
    apart b i = ground (arith, ne_of_has b a xs i out)

pub Linked-append :
    (f : Nodes) (xs ys : Cells) (q : Ptr)
    → Linked f xs (first ys q)
    → Linked f ys q
    → Linked f (xs ++ ys) q
Linked-append f [] ys q c e = e
Linked-append f ((p, d) ∷ []) ys q c e = (c.0, e)
Linked-append f ((p, d) ∷ (r, s) ∷ xs) ys q c e = (c.0, Linked-append f ((r, s) ∷ xs) ys q c.1 e)

pub has-last : (x : Ptr × Ptr) (xs : Cells) → has (last x xs).0 (x ∷ xs) ≡ true
has-last (p, d) [] = ground arith
has-last (p, d) (y ∷ xs) = ground (arith, has-last y xs)

pub last-ne-null : (x : Ptr × Ptr) (xs : Cells) → Distinct (x ∷ xs) → (last x xs).0 ≢ null
last-ne-null x [] d = d.0
last-ne-null x (y ∷ xs) d = last-ne-null y xs d.2

pub nodes-last :
    (f : Nodes) (x : Ptr × Ptr) (xs : Cells) (q : Ptr)
    → Linked f (x ∷ xs) q
    → f (last x xs).0 ≡ some (node (last x xs).1 q)
nodes-last f x [] q c = c.0
nodes-last f x (y ∷ xs) q c = nodes-last f y xs q c.1

-- Writing the last node's `next` leads the chain to another end.
pub Linked-relink :
    (f : Nodes) (x : Ptr × Ptr) (xs : Cells) (q r : Ptr)
    → Linked f (x ∷ xs) q
    → Distinct (x ∷ xs)
    → Linked (write f (last x xs).0 (some (node (last x xs).1 r))) (x ∷ xs) r
Linked-relink f x [] q r c d = (ground arith, tt)
Linked-relink f (p, e) (y ∷ xs) q r c d = (rw apart c.0, Linked-relink f y xs q r c.1 d.2)
  where
    apart : (p == (last y xs).0) ≡ false
    apart = ne_of_has (last y xs).0 p (y ∷ xs) (has-last y xs) d.1

-- An address that holds no node is not among the cells.
pub not-has_of_none :
    (f : Nodes) (a : Ptr) (xs : Cells) (q : Ptr) → Linked f xs q → f a ≡ none → has a xs ≡ false
not-has_of_none f a [] q c e = refl
not-has_of_none f a ((p, d) ∷ xs) q c e = ground (arith, not-has_of_none f a xs q c.1 e)

pub last-append : (x : Ptr × Ptr) (xs : Cells) (y : Ptr × Ptr) → last x (xs ++ y ∷ []) ≡ y
last-append x [] y = refl
last-append x (z ∷ xs) y = last-append z xs y

pub Distinct-append :
    (xs : Cells) (p d : Ptr)
    → Distinct xs
    → p ≢ null
    → has p xs ≡ false
    → Distinct (xs ++ (p, d) ∷ [])
Distinct-append [] p d u ne out = (ne, refl, tt)
Distinct-append ((r, s) ∷ xs) p d u ne out = (
  u.0,
  ground (arith, has-append r xs ((p, d) ∷ [])),
  Distinct-append xs p d u.2 ne (ground arith),
)

-- What a function returned stands for the cells `xs`.
abbrev pub ListedAt : Memory → Option LinkedList → Cells → ℤ → Type 0
ListedAt m none xs z = ⊥
ListedAt m (some l) xs z = Listed m l xs z

abbrev pub ListAt : Memory → Option LinkedList → Cells → Type 0
ListAt m l xs = ListedAt m l xs (pos (length xs))

-- `g` differs from `m` at most in the nodes of `xs`.
pub record SameOutside (xs : Cells) (m g : Memory) : Type 0 where
  pub nodes : (a : Ptr) → has a xs ≡ false → g.nodes a ≡ m.nodes a
  pub blocks : g.blocks ≡ m.blocks
