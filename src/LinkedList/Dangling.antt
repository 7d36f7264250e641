-- ===== src/LinkedList/Dangling.antt =====
-- `add_last` behind a removal by hand of the last of several nodes: where `malloc` returns another
-- address than the freed one, and where it returns that very address.
use client_server_protocoale.Common.{
  ℕ, Option, ℤ, inc, arith, subst, ◌<◌, ◌≡◌, ◌≢◌, refl, sym, ap, ◌∙◌, some, none, Bool, true, false,
  [], ◌∷◌, ◌==◌, length, Bool-cases, inl, inr,
}
use client_server_protocoale.LinkedList.Memory.{
  Ptr, null, node, LinkedList, Memory, write, fault, set_next, Cmd, Returns, free_node,
}
use client_server_protocoale.LinkedList.Add.{add_last, link_last}
use client_server_protocoale.LinkedList.AddLaws.{Returns-mono}
use client_server_protocoale.LinkedList.Cells.{
  Cells, has, first, last, Linked, Distinct, IsList, last-ne-null, ne_of_has, has-last,
  Linked-write,
}
use client_server_protocoale.LinkedList.Steps.{
  put, not_null, malloc_node-ok, set_payload-ok, set_next-ok, write_self,
}
use client_server_protocoale.LinkedList.Unlink.{unlink_loop, erase_cell, found_addr}
use client_server_protocoale.LinkedList.UnlinkLaws.{Tests, Removed, unlink_loop-Removed}

-- The first cell that passes is the last of several.
abbrev pub LastOnly : (Ptr → Bool) → Cells → Type 0
LastOnly p [] = ⊥
LastOnly p ((a, d) ∷ []) = p d ≡ true
LastOnly p ((a, d) ∷ y ∷ xs) = (p d ≡ false) × LastOnly p (y ∷ xs)

found_addr-last :
    (p : Ptr → Bool) (x : Ptr × Ptr) (xs : Cells)
    → LastOnly p (x ∷ xs)
    → found_addr p (x ∷ xs) ≡ (last x xs).0
unfolding found_addr
found_addr-last p (a, d) [] h = rw h
found_addr-last p (a, d) (y ∷ xs) h = rw h.0 (found_addr-last p y xs h.1)

set_next-gone : (m : Memory) (p q : Ptr) → m.nodes p ≡ none → set_next p q m ≡ fault
unfolding set_next
set_next-gone m p q gone = elim (Bool-cases (p == null)) [
  | inl e ↦ rw e refl
  | inr e ↦ rw (e, gone) refl
]

-- An add behind the removal writes through the freed tail.
module _ (test : Ptr → Cmd Bool) (p : Ptr → Bool) (m : Memory) (l : LinkedList) (x y : Ptr × Ptr)
    (xs : Cells) (is : IsList m l (x ∷ y ∷ xs)) (miss : p x.1 ≡ false)
    (hit : LastOnly p (y ∷ xs)) where
  tail-freed :
      (l' : LinkedList) (g : Memory) → Removed test p m l (x ∷ y ∷ xs) l' g → g.nodes l'.tail ≡ none
  tail-freed l' g r =
      let e : found_addr p (x ∷ y ∷ xs) ≡ (last y xs).0 =
        unfold found_addr in rw miss (found_addr-last p y xs hit) in
      ap g.nodes (r.tail ∙ is.tail ∙ sym e)
      ∙ r.freed (rw e (not_null _ (last-ne-null y xs is.distinct.2)))

  -- The adds write to `tail` once the list is not empty.
  add_last-Removed :
      (l' : LinkedList) (g : Memory) (fresh data' : Ptr)
      → Removed test p m l (x ∷ y ∷ xs) l' g
      → fresh ≢ null
      → (l'.tail == fresh) ≡ false
      → add_last fresh (some l') data' g ≡ fault
  add_last-Removed l' g fresh data' r ne other =
      let gone : write (write g.nodes fresh (some (node null null))) fresh (some (node data' null))
            l'.tail
          ≡ none =
        rw other (tail-freed l' g r) in
      let start : l'.head ≡ x.0 = unfold erase_cell in r.head ∙ rw miss refl in
      unfold add_last link_last in
      rw
        (
          malloc_node-ok g fresh (not_null fresh ne),
          set_payload-ok (put g fresh (node null null)) fresh (node null null) (not_null fresh ne)
              (write_self g.nodes fresh (node null null)) data',
          start,
          not_null x.0 is.distinct.0,
          set_next-gone (put (put g fresh (node null null)) fresh (node data' null)) l'.tail fresh
              gone,
        )
        refl

-- On a list in order whose first node that passes is its last, and not its only one, the removal
-- by hand ends, and any `add_last` behind it writes through the freed tail, unless `malloc` hands
-- that very address out again.
pub unlink_loop-add_last :
    (test : Ptr → Cmd Bool) (p : Ptr → Bool) (m : Memory) (l : LinkedList) (x y : Ptr × Ptr)
    (xs : Cells) (k : ℕ) (fresh new_data : Ptr)
    → IsList m l (x ∷ y ∷ xs)
    → Tests test p m (x ∷ y ∷ xs)
    → p x.1 ≡ false
    → LastOnly p (y ∷ xs)
    → length (x ∷ y ∷ xs) < k
    → fresh ≢ null
    → (l.tail == fresh) ≡ false
    → Returns
        (λ l' g. add_last fresh (some l') new_data g ≡ fault)
        (unlink_loop test free_node k l null x.0 m)
unlink_loop-add_last test p m l x y xs k fresh new_data is tests miss hit fuel ne other =
    Returns-mono {P = Removed test p m l (x ∷ y ∷ xs)} (unlink_loop test free_node k l null x.0 m)
      (unlink_loop-Removed test p m k l (x ∷ y ∷ xs) is tests fuel)
      (λ l' g r.
        add_last-Removed test p m l x y xs is miss hit l' g fresh new_data r ne
          (ap (λ t. t == fresh) r.tail ∙ other))

has-erase_cell :
    (p : Ptr → Bool) (x : Ptr × Ptr) (xs : Cells)
    → LastOnly p (x ∷ xs)
    → Distinct (x ∷ xs)
    → has (last x xs).0 (erase_cell p (x ∷ xs)) ≡ false
unfolding erase_cell
has-erase_cell p (a, d) [] h apart = rw h refl
has-erase_cell p (a, d) (y ∷ xs) h apart =
    let other : (a == (last y xs).0) ≡ false =
      ne_of_has (last y xs).0 a (y ∷ xs) (has-last y xs) apart.1 in
    let other' : ((last y xs).0 == a) ≡ false = ground arith in
    rw (h.0, other') (has-erase_cell p y xs h.1 apart.2)

-- The list that a call returns leads through `xs` alone, though its size has grown: its tail, which
-- is the node that was added, is not among them.
abbrev pub Forgets : Cells → ℤ → Option LinkedList → Memory → Type 0
Forgets xs z none g = ⊥
Forgets xs z (some l) g =
    Linked g.nodes xs null × (l.head ≡ first xs null) × (has l.tail xs ≡ false) × (l.size ≡ inc z)

-- The four writes of an `add_last` to a list whose tail is the address that `malloc` returns.
add_last-tail :
    (l : LinkedList) (xs : Cells) (new_data : Ptr) (g : Memory)
    → l.tail ≢ null
    → (l.head == null) ≡ false
    → Linked g.nodes xs null
    → l.head ≡ first xs null
    → has l.tail xs ≡ false
    → Returns (Forgets xs l.size) (add_last l.tail (some l) new_data g)
unfolding add_last link_last
add_last-tail l xs new_data g ne start chain head out =
    let t = l.tail in
    let nn = not_null t ne in
    let m1 = put g t (node null null) in
    let m2 = put m1 t (node new_data null) in
    let m3 = put m2 t (node new_data t) in
    rw
      (
        malloc_node-ok g t nn,
        set_payload-ok m1 t (node null null) nn (write_self g.nodes t (node null null)) new_data,
        start,
        set_next-ok m2 t (node new_data null) nn (write_self m1.nodes t (node new_data null)) t,
        set_next-ok m3 t (node new_data t) nn (write_self m2.nodes t (node new_data t)) null,
      )
      (
        Linked-write m3.nodes xs null t _
            (Linked-write m2.nodes xs null t _
              (Linked-write m1.nodes xs null t _ (Linked-write g.nodes xs null t _ chain out) out)
              out)
            out,
        head,
        out,
        refl,
      )

-- On a list in order whose first node that passes is its last, and not its only one, the removal
-- by hand ends. Where `malloc` hands the freed address out again, an `add_last` behind it ends, and
-- its data is lost: from its head the list leads through the nodes that were left, and the new node,
-- which is the tail, is not among them, though the size is one more than before the removal.
pub unlink_loop-add_last_again :
    (test : Ptr → Cmd Bool) (p : Ptr → Bool) (m : Memory) (l : LinkedList) (x y : Ptr × Ptr)
    (xs : Cells) (k : ℕ) (new_data : Ptr)
    → IsList m l (x ∷ y ∷ xs)
    → Tests test p m (x ∷ y ∷ xs)
    → p x.1 ≡ false
    → LastOnly p (y ∷ xs)
    → length (x ∷ y ∷ xs) < k
    → Returns
        (λ l' g.
          Returns
            (Forgets (erase_cell p (x ∷ y ∷ xs)) l.size)
            (add_last l.tail (some l') new_data g))
        (unlink_loop test free_node k l null x.0 m)
unlink_loop-add_last_again test p m l x y xs k new_data is tests miss hit fuel =
    let out : has l.tail (erase_cell p (x ∷ y ∷ xs)) ≡ false =
      rw is.tail (has-erase_cell p x (y ∷ xs) (miss, hit) is.distinct) in
    let ne : l.tail ≢ null = rw is.tail (last-ne-null x (y ∷ xs) is.distinct) in
    Returns-mono {P = Removed test p m l (x ∷ y ∷ xs)} (unlink_loop test free_node k l null x.0 m)
      (unlink_loop-Removed test p m k l (x ∷ y ∷ xs) is tests fuel)
      (λ l' g r.
        let start : l'.head ≡ x.0 = unfold erase_cell in r.head ∙ rw miss refl in
        subst
          (λ t.
            Returns (Forgets (erase_cell p (x ∷ y ∷ xs)) l.size) (add_last t (some l') new_data g))
          r.tail
          (subst
            (λ z.
              Returns (Forgets (erase_cell p (x ∷ y ∷ xs)) z)
                (add_last l'.tail (some l') new_data g))
            r.size
            (add_last-tail l' (erase_cell p (x ∷ y ∷ xs)) new_data g (rw r.tail ne)
              (rw start (not_null x.0 is.distinct.0)) r.linked r.head (rw r.tail out))))
