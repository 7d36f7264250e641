-- ===== src/LinkedList/InsertLaws.antt =====
-- `add_nth_node` on a list that is in order.
use client_server_protocoale.Common.{
  ◌≡◌, ◌≢◌, refl, ap, sym, ◌∙◌, some, false, [], ◌∷◌, ◌++◌, ℤ, inc, arith, ◌==◌, if◌then◌else◌,
}
use client_server_protocoale.LinkedList.Memory.{Ptr, null, node, LinkedList, Memory, Returns}
use client_server_protocoale.LinkedList.Cells.{
  Cells, has, first, last, last_addr, Linked, Listed, ListedAt, SameOutside, has-append, has-last,
  ne_of_has, last-ne-null, nodes-last, Linked-write, Linked-relink, Linked-append, last-append,
}
use client_server_protocoale.LinkedList.Steps.{put, not_null, load-ok, set_next-ok, write_self}
use client_server_protocoale.LinkedList.Walk.{
  Linked-split, Distinct-split, has-split, last_addr-last, last-append_cons, Distinct-insert,
}
use client_server_protocoale.LinkedList.Add.{link_between}

module _ (m : Memory) (l : LinkedList) (z : ℤ) (fresh d q : Ptr) (ne : fresh ≢ null)
    (holds : m.nodes fresh ≡ some (node d q)) where
  -- The memory with the new node in place, behind nothing and behind a node `c`.
  abbrev in_front : Cells → Memory
  in_front ys = put m fresh (node d (first ys null))

  abbrev in_between : Ptr × Ptr → Cells → Memory
  in_between c ys = put (in_front ys) c.0 (node c.1 fresh)

  Linked-in_front :
      (ys : Cells)
      → Linked m.nodes ys null
      → has fresh ys ≡ false
      → Linked (in_front ys).nodes ((fresh, d) ∷ ys) null
  Linked-in_front ys chain out =
      (write_self m.nodes fresh _, Linked-write m.nodes ys null fresh _ chain out)

  link_between-front :
      (ys : Cells)
      → Listed m l ys z
      → has fresh ys ≡ false
      → Returns
          (λ l' g. ListedAt g l' ((fresh, d) ∷ ys) (inc z) × SameOutside ((fresh, d) ∷ ys) m g)
          (link_between l null (first ys null) fresh m)
  unfolding link_between
  link_between-front [] is out =
      rw
        (
          set_next-ok m fresh (node d q) (not_null fresh ne) holds null,
          load-ok (in_front []) fresh (node d null) (not_null fresh ne)
              (write_self m.nodes fresh (node d null)),
        )
        (
          record {
            linked = Linked-in_front [] tt refl;
            distinct = (ne, refl, tt);
            head = refl;
            tail = refl;
            size = ap inc is.size;
          },
          record { nodes = λ a o. ground arith; blocks = refl },
        )
  link_between-front ((c, e) ∷ ys) is out =
      rw
        (
          set_next-ok m fresh (node d q) (not_null fresh ne) holds c,
          load-ok (in_front ((c, e) ∷ ys)) fresh (node d c) (not_null fresh ne)
              (write_self m.nodes fresh (node d c)),
          not_null c is.distinct.0,
        )
        (
          record {
            linked = Linked-in_front ((c, e) ∷ ys) is.linked out;
            distinct = (ne, out, is.distinct);
            head = refl;
            tail = is.tail;
            size = ap inc is.size;
          },
          record { nodes = λ a o. ground arith; blocks = refl },
        )

  module _ (x : Ptr × Ptr) (xs ys : Cells) (is : Listed m l (x ∷ xs ++ ys) z)
      (out : has fresh (x ∷ xs ++ ys) ≡ false) where
    abbrev prev : Ptr × Ptr
    prev = last x xs

    outside : (has fresh (x ∷ xs) ≡ false) × (has fresh ys ≡ false)
    outside = ground (arith, has-append fresh (x ∷ xs) ys)

    prev-ne-fresh : (prev.0 == fresh) ≡ false
    prev-ne-fresh =
        let apart = ne_of_has prev.0 fresh (x ∷ xs) (has-last x xs) outside.0 in ground arith

    apart_prev : has prev.0 ((fresh, d) ∷ ys) ≡ false
    apart_prev =
        let apart = has-split prev.0 (x ∷ xs) ys is.distinct (has-last x xs) in
        ground (arith, prev-ne-fresh)

    prev-holds : m.nodes prev.0 ≡ some (node prev.1 (first ys null))
    prev-holds =
        nodes-last m.nodes x xs (first ys null) (Linked-split m.nodes (x ∷ xs) ys null is.linked).0

    Linked-in_between : Linked (in_between prev ys).nodes (x ∷ xs ++ (fresh, d) ∷ ys) null
    Linked-in_between =
        let split = Linked-split m.nodes (x ∷ xs) ys null is.linked in
        Linked-append (in_between prev ys).nodes (x ∷ xs) ((fresh, d) ∷ ys) null
          (Linked-relink (in_front ys).nodes x xs (first ys null) fresh
            (Linked-write m.nodes (x ∷ xs) (first ys null) fresh _ split.0 outside.0)
            (Distinct-split (x ∷ xs) ys is.distinct).0)
          (Linked-write (in_front ys).nodes ((fresh, d) ∷ ys) null prev.0 _
            (Linked-in_front ys split.1 outside.1) apart_prev)

    same-in_between : SameOutside (x ∷ xs ++ (fresh, d) ∷ ys) m (in_between prev ys)
    same-in_between = record {
      nodes = λ a o.
          let out_here : (has a (x ∷ xs) ≡ false) × ((a == fresh) ≡ false) =
            ground (arith, has-append a (x ∷ xs) ((fresh, d) ∷ ys)) in
          rw (ne_of_has prev.0 a (x ∷ xs) (has-last x xs) out_here.0, out_here.1) refl;
      blocks = refl;
    }

  -- The list with its tail and its size brought up to date.
  abbrev updated : Cells → LinkedList
  updated ys =
      let l' = if first ys null == null then record l { tail = fresh } else l in
      record l' { size = inc l'.size }

  Listed-updated :
      (x : Ptr × Ptr) (xs ys : Cells)
      → Listed m l (x ∷ xs ++ ys) z
      → has fresh (x ∷ xs ++ ys) ≡ false
      → Listed (in_between (last x xs) ys) (updated ys) (x ∷ xs ++ (fresh, d) ∷ ys) (inc z)
  Listed-updated x xs [] is out = record {
    linked = Linked-in_between x xs [] is out;
    distinct = Distinct-insert (x ∷ xs) [] fresh d is.distinct ne out;
    head = is.head;
    tail = sym (ap (λ (c : Ptr × Ptr). c.0) (last-append x xs (fresh, d)));
    size = ap inc is.size;
  }
  Listed-updated x xs ((c, e) ∷ ys) is out =
      let real = not_null c (Distinct-split (x ∷ xs) ((c, e) ∷ ys) is.distinct).1.0 in
      rw real (record {
        linked = Linked-in_between x xs ((c, e) ∷ ys) is out;
        distinct = Distinct-insert (x ∷ xs) ((c, e) ∷ ys) fresh d is.distinct ne out;
        head = is.head;
        tail =
            is.tail
            ∙ ap (λ (a : Ptr × Ptr). a.0)
                (last-append_cons x xs (c, e) ys
                  ∙ sym (last-append_cons x xs (fresh, d) ((c, e) ∷ ys)));
        size = ap inc is.size;
      })

  -- Between two nodes, or at the end.
  link_between-behind :
      (x : Ptr × Ptr) (xs ys : Cells)
      → Listed m l (x ∷ xs ++ ys) z
      → has fresh (x ∷ xs ++ ys) ≡ false
      → Returns
          (λ l' g.
            ListedAt g l' (x ∷ xs ++ (fresh, d) ∷ ys) (inc z)
            × SameOutside (x ∷ xs ++ (fresh, d) ∷ ys) m g)
          (link_between l (last x xs).0 (first ys null) fresh m)
  unfolding link_between
  link_between-behind x xs ys is out =
      let c = last x xs in
      let real = not_null c.0 (last-ne-null x xs (Distinct-split (x ∷ xs) ys is.distinct).0) in
      let other = prev-ne-fresh x xs ys is out in
      let other' : (fresh == c.0) ≡ false = ground arith in
      rw
        (
          set_next-ok m fresh (node d q) (not_null fresh ne) holds (first ys null),
          real,
          set_next-ok (in_front ys) c.0 (node c.1 (first ys null)) real
              (rw other (prev-holds x xs ys is out)) fresh,
          load-ok (in_between c ys) fresh (node d (first ys null)) (not_null fresh ne)
              (rw other' (write_self m.nodes fresh (node d (first ys null)))),
        )
        (Listed-updated x xs ys is out, same-in_between x xs ys is out)

  -- At any cut of the list.
  pub link_between_lem :
      (xs ys : Cells)
      → Listed m l (xs ++ ys) z
      → has fresh (xs ++ ys) ≡ false
      → Returns
          (λ l' g.
            ListedAt g l' (xs ++ (fresh, d) ∷ ys) (inc z) × SameOutside (xs ++ (fresh, d) ∷ ys) m g)
          (link_between l (last_addr null xs) (first ys null) fresh m)
  link_between_lem [] ys is out = link_between-front ys is out
  link_between_lem (x ∷ xs) ys is out =
      rw (last_addr-last null x xs) (link_between-behind x xs ys is out)
