-- ===== src/LinkedList/AddLaws.antt =====
-- `add_last` on a list that is in order.
use client_server_protocoale.Common.{
  ◌≡◌, ◌≢◌, refl, Option, none, some, false, [], ◌∷◌, ◌++◌, arith, pos, inc, ◌==◌, length,
  length-append, ℤ, ap, sym, ◌∙◌,
}
use client_server_protocoale.LinkedList.Memory.{
  Ptr, null, Node, node, LinkedList, Memory, write, Run, ok, fault, out_of_fuel, Returns,
}
use client_server_protocoale.LinkedList.Cells.{
  Cells, has, last, IsList, ListAt, Listed, ListedAt, SameOutside, Linked-write, Linked-append,
  has-last, nodes-last, Linked-relink, not-has_of_none, last-append, Distinct-append, ne_of_has,
  not-has-snoc, last-ne-null,
}
use client_server_protocoale.LinkedList.Steps.{
  put, not_null, set_next-ok, set_payload-ok, malloc_node-ok, write_self,
}
use client_server_protocoale.LinkedList.Add.{add_last, link_last}

size-snoc :
    {z : ℤ} (xs : Cells) (c : Ptr × Ptr) → z ≡ pos (length xs) → inc z ≡ pos (length (xs ++ c ∷ []))
size-snoc xs c e = ground (arith, length-append xs (c ∷ []))

module _ (m : Memory) (l : LinkedList) (z : ℤ) (fresh : Ptr) (n : Node) (ne : fresh ≢ null)
    (holds : m.nodes fresh ≡ some n) where
  link_last-nil :
      Listed m l [] z
      → Returns
          (λ l' g.
            ListedAt g l' ((fresh, n.payload) ∷ []) (inc z)
            × SameOutside ((fresh, n.payload) ∷ []) m g)
          (link_last l fresh m)
  unfolding link_last
  link_last-nil is =
      rw (is.head, set_next-ok m fresh n (not_null fresh ne) holds null)
        (
          record {
            linked = (ground arith, tt);
            distinct = (ne, refl, tt);
            head = refl;
            tail = refl;
            size = ap inc is.size;
          },
          record { nodes = λ a o. ground arith; blocks = refl },
        )

  link_last-cons :
      (x : Ptr × Ptr) (xs : Cells)
      → Listed m l (x ∷ xs) z
      → has fresh (x ∷ xs) ≡ false
      → Returns
          (λ l' g.
            ListedAt g l' (x ∷ xs ++ (fresh, n.payload) ∷ []) (inc z)
            × SameOutside (x ∷ xs ++ (fresh, n.payload) ∷ []) m g)
          (link_last l fresh m)
  unfolding link_last
  link_last-cons x xs is out =
      let t = last x xs in
      let apart : (fresh == t.0) ≡ false = ne_of_has t.0 fresh (x ∷ xs) (has-last x xs) out in
      let m1 = put m t.0 (node t.1 fresh) in
      let g = write m1.nodes fresh (some (node n.payload null)) in
      rw
        (
          is.tail,
          is.head,
          not_null x.0 is.distinct.0,
          set_next-ok m t.0 (node t.1 null) (not_null t.0 (last-ne-null x xs is.distinct))
              (nodes-last m.nodes x xs null is.linked) fresh,
          set_next-ok m1 fresh n (not_null fresh ne) (rw apart holds) null,
        )
        (
          record {
            linked =
                Linked-append g (x ∷ xs) ((fresh, n.payload) ∷ []) null
                  (Linked-write m1.nodes (x ∷ xs) fresh fresh _
                    (Linked-relink m.nodes x xs null fresh is.linked is.distinct) out)
                  (ground arith, tt);
            distinct = Distinct-append (x ∷ xs) fresh n.payload is.distinct ne out;
            head = refl;
            tail = sym (ap (λ (c : Ptr × Ptr). c.0) (last-append x xs (fresh, n.payload)));
            size = ap inc is.size;
          },
          record {
            nodes = λ a o. elsewhere a (not-has-snoc a (x ∷ xs) fresh n.payload o);
            blocks = refl;
          },
        )
    where
      elsewhere :
          (a : Ptr)
          → (has a (x ∷ xs) ≡ false) × ((a == fresh) ≡ false)
          → write
              (write m.nodes (last x xs).0 (some (node (last x xs).1 fresh)))
              fresh
              (some (node n.payload null))
              a
            ≡ m.nodes a
      elsewhere a o = rw (o.1, ne_of_has (last x xs).0 a (x ∷ xs) (has-last x xs) o.0)

  pub link_last_lem :
      (xs : Cells)
      → Listed m l xs z
      → has fresh xs ≡ false
      → Returns
          (λ l' g.
            ListedAt g l' (xs ++ (fresh, n.payload) ∷ []) (inc z)
            × SameOutside (xs ++ (fresh, n.payload) ∷ []) m g)
          (link_last l fresh m)
  link_last_lem [] is out = link_last-nil is
  link_last_lem (x ∷ xs) is out = link_last-cons x xs is out

pub Returns-mono :
    {A : Type 0} {P Q : A → Memory → Type 0} (r : Run A)
    → Returns P r
    → ((a : A) (g : Memory) → P a g → Q a g)
    → Returns Q r
Returns-mono (ok a g) p k = k a g p
Returns-mono fault p k = p
Returns-mono out_of_fuel p k = p

-- A list is not disturbed by a new node.
pub Listed-put :
    (m : Memory) (l : LinkedList) (xs : Cells) (z : ℤ) (p : Ptr) (n : Node)
    → Listed m l xs z
    → has p xs ≡ false
    → Listed (put m p n) l xs z
Listed-put m l xs z p n is out = record {
  linked = Linked-write m.nodes xs null p (some n) is.linked out;
  distinct = is.distinct;
  head = is.head;
  tail = is.tail;
  size = is.size;
}

-- One cell more, and a size that is one more.
pub ListAt-snoc :
    (g : Memory) (l : Option LinkedList) (xs : Cells) (c : Ptr × Ptr)
    → ListedAt g l (xs ++ c ∷ []) (inc (pos (length xs)))
    → ListAt g l (xs ++ c ∷ [])
ListAt-snoc g none xs c e = e
ListAt-snoc g (some l) xs c e = record {
  linked = e.linked;
  distinct = e.distinct;
  head = e.head;
  tail = e.tail;
  size = e.size ∙ size-snoc xs c refl;
}

module _ (m : Memory) (l : LinkedList) (xs : Cells) (fresh d : Ptr) where
  -- Whatever the size that is kept.
  pub add_last-Listed :
      (z : ℤ)
      → Listed m l xs z
      → fresh ≢ null
      → m.nodes fresh ≡ none
      → Returns
          (λ l' g.
            ListedAt g l' (xs ++ (fresh, d) ∷ []) (inc z) × SameOutside (xs ++ (fresh, d) ∷ []) m g)
          (add_last fresh (some l) d m)
  unfolding add_last
  add_last-Listed z is ne unused =
      let out = not-has_of_none m.nodes fresh xs null is.linked unused in
      let m1 = put m fresh (node null null) in
      let m2 = put m1 fresh (node d null) in
      rw
        (
          malloc_node-ok m fresh (not_null fresh ne),
          set_payload-ok m1 fresh (node null null) (not_null fresh ne)
              (write_self m.nodes fresh (node null null)) d,
        )
        (Returns-mono (link_last l fresh m2)
          (link_last_lem m2 l z fresh (node d null) ne (write_self m1.nodes fresh (node d null)) xs
            (Listed-put m1 l xs z fresh (node d null)
              (Listed-put m l xs z fresh (node null null) is out) out)
            out)
          (λ l' g (at, same). (
            at,
            record {
              nodes = λ a o. same.nodes a o ∙ elsewhere a (not-has-snoc a xs fresh d o).1;
              blocks = same.blocks;
            },
          )))
    where
      elsewhere :
          (a : Ptr)
          → (a == fresh) ≡ false
          → write (write m.nodes fresh (some (node null null))) fresh (some (node d null)) a
            ≡ m.nodes a
      elsewhere a o = rw o

  -- On a list in order, with an address from `malloc` that is not NULL and not allocated,
  -- `add_last` ends without a fault: the list is in order with the data as its last, its size one
  -- more, and no other node and no data block is changed.
  pub add_last_lem :
      IsList m l xs
      → fresh ≢ null
      → m.nodes fresh ≡ none
      → Returns
          (λ l' g. ListAt g l' (xs ++ (fresh, d) ∷ []) × SameOutside (xs ++ (fresh, d) ∷ []) m g)
          (add_last fresh (some l) d m)
  add_last_lem is ne unused =
      Returns-mono (add_last fresh (some l) d m) (add_last-Listed (pos (length xs)) is ne unused)
        (λ l' g (at, same). (ListAt-snoc g l' xs (fresh, d) at, same))
