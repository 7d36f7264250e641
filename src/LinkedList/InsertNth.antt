-- ===== src/LinkedList/InsertNth.antt =====
-- `add_nth_node` at a position.
use client_server_protocoale.Common.{
  ℕ, ◌+◌, ◌≤◌, ◌<◌, ◌≡◌, ◌≢◌, ap, sym, ◌∙◌, subst, Option, some, none, Bool, true, false, ◌∷◌, ◌++◌,
  ℤ, pos, inc, pos_part, ltz, arith, ◌==◌, length, length-append, length-take, length-drop, take,
  drop, take-append-drop, Bool-cases, inl, inr,
}
use client_server_protocoale.LinkedList.Memory.{
  Ptr, null, node, LinkedList, Memory, write, ok, Returns,
}
use client_server_protocoale.LinkedList.Cells.{
  Cells, has, first, last_addr, Listed, ListedAt, ListAt, IsList, SameOutside, has-append,
  not-has_of_none,
}
use client_server_protocoale.LinkedList.Steps.{
  put, not_null, set_payload-ok, malloc_node-ok, write_self,
}
use client_server_protocoale.LinkedList.Walk.{walk-ok}
use client_server_protocoale.LinkedList.AddLaws.{Returns-mono, Listed-put}
use client_server_protocoale.LinkedList.InsertLaws.{link_between_lem}
use client_server_protocoale.LinkedList.Add.{walk, link_between, insert_node, add_nth_node}

module _ (m : Memory) (l : LinkedList) (fresh d : Ptr) where
  insert_node-Listed :
      (z : ℤ) (xs ys : Cells)
      → Listed m l (xs ++ ys) z
      → fresh ≢ null
      → m.nodes fresh ≡ none
      → Returns
          (λ l' g.
            ListedAt g l' (xs ++ (fresh, d) ∷ ys) (inc z) × SameOutside (xs ++ (fresh, d) ∷ ys) m g)
          (insert_node fresh l (length xs) d m)
  unfolding insert_node
  insert_node-Listed z xs ys is ne unused =
      let out = not-has_of_none m.nodes fresh (xs ++ ys) null is.linked unused in
      let m1 = put m fresh (node null null) in
      let m2 = put m1 fresh (node d null) in
      let there : walk (length xs) null l.head m ≡ ok (last_addr null xs, first ys null) m =
        ap (λ h. walk (length xs) null h m) is.head ∙ walk-ok m xs ys null is.linked is.distinct in
      rw
        (
          there,
          malloc_node-ok m fresh (not_null fresh ne),
          not_null fresh ne,
          set_payload-ok m1 fresh (node null null) (not_null fresh ne)
              (write_self m.nodes fresh (node null null)) d,
        )
        (Returns-mono (link_between l (last_addr null xs) (first ys null) fresh m2)
          (link_between_lem m2 l z fresh d null ne (write_self m1.nodes fresh (node d null)) xs ys
            (Listed-put m1 l (xs ++ ys) z fresh (node d null)
              (Listed-put m l (xs ++ ys) z fresh (node null null) is out) out)
            out)
          (λ l' g (at, same).
            (at, record { nodes = λ a o. same.nodes a o ∙ elsewhere a o; blocks = same.blocks })))
    where
      elsewhere :
          (a : Ptr)
          → has a (xs ++ (fresh, d) ∷ ys) ≡ false
          → write (write m.nodes fresh (some (node null null))) fresh (some (node d null)) a
            ≡ m.nodes a
      elsewhere a o =
          let other : (a == fresh) ≡ false = ground (arith, has-append a xs ((fresh, d) ∷ ys)) in
          rw other

  -- The cells with the new one at position `k`, or at the end.
  abbrev pub inserted : ℕ → Cells → Cells
  inserted k xs = take k xs ++ (fresh, d) ∷ drop k xs

  length-inserted : (k : ℕ) (xs : Cells) → inc (pos (length xs)) ≡ pos (length (inserted k xs))
  length-inserted k xs =
      let same : length xs + 1 ≡ length (inserted k xs) = omega (
        arith,
        length-append (take k xs) ((fresh, d) ∷ drop k xs),
        length-take k xs,
        length-drop k xs,
      ) in
      ap pos same

  -- On a list in order, with an address from `malloc` that is not NULL and not allocated,
  -- `add_nth_node` at a position that is not negative ends without a fault: the list is in order
  -- with the data at that position, or as its last where the list is shorter, its size one more,
  -- and no other node and no data block is changed.
  pub add_nth_node_lem :
      (k : ℕ) (xs : Cells)
      → IsList m l xs
      → fresh ≢ null
      → m.nodes fresh ≡ none
      → Returns
          (λ l' g. ListAt g l' (inserted k xs) × SameOutside (inserted k xs) m g)
          (add_nth_node fresh (some l) (pos k) d m)
  unfolding add_nth_node
  add_nth_node_lem k xs is ne unused =
      let cut : Listed m l (take k xs ++ drop k xs) (pos (length xs)) =
        subst (λ c. Listed m l c (pos (length xs))) (sym (take-append-drop k xs)) is in
      let at_cut = insert_node-Listed (pos (length xs)) (take k xs) (drop k xs) cut ne unused in
      let size_is : (b : Bool) → ltz l.size (pos k) ≡ b → ltz (pos (length xs)) (pos k) ≡ b =
        λ b e. ap (λ s. ltz s (pos k)) (sym is.size) ∙ e in
      let at : (n : ℕ) → length (take k xs) ≡ n → Returns Inserted (insert_node fresh l n d m) =
        λ n e.
          subst (λ (j : ℕ). Returns Inserted (insert_node fresh l j d m)) e
            (subst (λ z. Returns (With z) (insert_node fresh l (length (take k xs)) d m))
              (length-inserted k xs) at_cut) in
      elim (Bool-cases (ltz l.size (pos k))) [
        | inl behind ↦
            let longer : length xs < k = ground (arith, size_is true behind) in
            let short : length xs ≡ pos_part l.size = ap pos_part (sym is.size) in
            rw behind (at (pos_part l.size) (omega (arith, length-take k xs)))
        | inr within ↦
            let fits : k ≤ length xs = ground (arith, size_is false within) in
            rw within (at k (omega (arith, length-take k xs)))
      ]
    where
      With : ℤ → Option LinkedList → Memory → Type 0
      With z l' g = ListedAt g l' (inserted k xs) z × SameOutside (inserted k xs) m g

      Inserted : Option LinkedList → Memory → Type 0
      Inserted = With (pos (length (inserted k xs)))
