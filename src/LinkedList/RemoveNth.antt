-- ===== src/LinkedList/RemoveNth.antt =====
-- `remove_nth_node` on a list that is in order.
use client_server_protocoale.Common.{
  ℕ, suc, ◌+◌, ◌≤◌, ◌<◌, min, ◌≡◌, refl, ap, sym, ◌∙◌, subst, Option, some, Bool, true, false, [],
  ◌∷◌, ◌++◌, append-nil, ℤ, pos, dec, ltz, pos_part, arith, ◌==◌, if◌then◌else◌, length, Bool-cases,
  inl, inr,
}
use client_server_protocoale.LinkedList.Memory.{Ptr, null, node, LinkedList, Memory, ok, Returns}
use client_server_protocoale.LinkedList.Cells.{
  Cells, has, first, last, Linked, Distinct, TailOf, Listed, ListedAt, SameOutside, has-append,
  has-last, last-ne-null, nodes-last, ne_of_has, Linked-write, Linked-relink, Linked-append,
}
use client_server_protocoale.LinkedList.Steps.{put, not_null, load-ok, set_next-ok, write_self}
use client_server_protocoale.LinkedList.Walk.{
  Linked-split, Distinct-split, has-split, last_addr-last, last-append_cons, walk-ok,
}
use client_server_protocoale.LinkedList.Add.{walk}
use client_server_protocoale.LinkedList.Remove.{unlink_nth, remove_nth_node}

Distinct-without : (xs ys : Cells) (c d : Ptr) → Distinct (xs ++ (c, d) ∷ ys) → Distinct (xs ++ ys)
Distinct-without [] ys c d h = h.2
Distinct-without ((a, e) ∷ xs) ys c d h = (
  h.0,
  ground (arith, has-append a xs ys, has-append a xs ((c, d) ∷ ys)),
  Distinct-without xs ys c d h.2,
)

has-rest : (p c d : Ptr) (ys : Cells) → has p ((c, d) ∷ ys) ≡ false → has p ys ≡ false
has-rest p c d ys h = ground arith

module _ (m : Memory) (l : LinkedList) (z : ℤ) (c d : Ptr) where
  -- What is left of the list without the cell.
  record Without (xs ys : Cells) (p : Ptr) (l' : Option LinkedList) (g : Memory) : Type 0 where
    addr : p ≡ c
    left : ListedAt g l' (xs ++ ys) (dec z)
    same : SameOutside xs m g

  abbrev OutOf : Cells → Cells → Ptr × Option LinkedList → Memory → Type 0
  OutOf xs ys (p, l') g = Without xs ys p l' g

  tail_behind : (ys : Cells) → TailOf l.tail ((c, d) ∷ ys) → TailOf l.tail ys
  tail_behind [] t = tt
  tail_behind (y ∷ ys) t = t

  unlink_nth-front :
      (ys : Cells) → Listed m l ((c, d) ∷ ys) z → Returns (OutOf [] ys) (unlink_nth l 0 m)
  unfolding unlink_nth
  unlink_nth-front ys is =
      let real = not_null c is.distinct.0 in
      let chain : walk 0 null l.head m ≡ ok (null, c) m =
        ap (λ h. walk 0 null h m) is.head ∙ walk-ok m [] ((c, d) ∷ ys) null is.linked is.distinct in
      rw (chain, load-ok m c (node d (first ys null)) real is.linked.0)
        (record {
          addr = refl;
          left = record {
            linked = is.linked.1;
            distinct = is.distinct.2;
            head = refl;
            tail = tail_behind ys is.tail;
            size = ap dec is.size;
          };
          same = record { nodes = λ a o. refl; blocks = refl };
        })

  module _ (x : Ptr × Ptr) (xs ys : Cells) (is : Listed m l (x ∷ xs ++ (c, d) ∷ ys) z) where
    abbrev prev : Ptr × Ptr
    prev = last x xs

    abbrev relinked : Memory
    relinked = put m prev.0 (node prev.1 (first ys null))

    prev-real : (prev.0 == null) ≡ false
    prev-real =
        not_null prev.0 (last-ne-null x xs (Distinct-split (x ∷ xs) ((c, d) ∷ ys) is.distinct).0)

    Linked-relinked : Linked relinked.nodes (x ∷ xs ++ ys) null
    Linked-relinked =
        let split = Linked-split m.nodes (x ∷ xs) ((c, d) ∷ ys) null is.linked in
        let apart = has-split prev.0 (x ∷ xs) ((c, d) ∷ ys) is.distinct (has-last x xs) in
        Linked-append relinked.nodes (x ∷ xs) ys null
          (Linked-relink m.nodes x xs c (first ys null) split.0
            (Distinct-split (x ∷ xs) ((c, d) ∷ ys) is.distinct).0)
          (Linked-write m.nodes ys null prev.0 _ split.1.1 (has-rest prev.0 c d ys apart))

    same-relinked : SameOutside (x ∷ xs) m relinked
    same-relinked = record {
      nodes = λ a o. rw (ne_of_has prev.0 a (x ∷ xs) (has-last x xs) o) refl;
      blocks = refl;
    }

  -- The list with its tail and its size brought up to date.
  abbrev updated : Ptr → Cells → LinkedList
  updated p ys =
      let l' = if first ys null == null then record l { tail = p } else l in
      record l' { size = dec l'.size }

  Listed-updated :
      (x : Ptr × Ptr) (xs ys : Cells)
      → (is : Listed m l (x ∷ xs ++ (c, d) ∷ ys) z)
      → Listed (relinked x xs ys is) (updated (last x xs).0 ys) (x ∷ xs ++ ys) (dec z)
  Listed-updated x xs [] is = record {
    linked = Linked-relinked x xs [] is;
    distinct = Distinct-without (x ∷ xs) [] c d is.distinct;
    head = is.head;
    tail = ap (λ t. (last x t).0) (sym (append-nil xs));
    size = ap dec is.size;
  }
  Listed-updated x xs ((y, e) ∷ ys) is =
      let real = not_null y (Distinct-split (x ∷ xs) ((c, d) ∷ (y, e) ∷ ys) is.distinct).1.2.0 in
      rw real (record {
        linked = Linked-relinked x xs ((y, e) ∷ ys) is;
        distinct = Distinct-without (x ∷ xs) ((y, e) ∷ ys) c d is.distinct;
        head = is.head;
        tail =
            is.tail
            ∙ ap (λ (a : Ptr × Ptr). a.0)
                (last-append_cons x xs (c, d) ((y, e) ∷ ys)
                  ∙ sym (last-append_cons x xs (y, e) ys));
        size = ap dec is.size;
      })

  unlink_nth-behind :
      (x : Ptr × Ptr) (xs ys : Cells)
      → Listed m l (x ∷ xs ++ (c, d) ∷ ys) z
      → Returns (OutOf (x ∷ xs) ys) (unlink_nth l (length (x ∷ xs)) m)
  unfolding unlink_nth
  unlink_nth-behind x xs ys is =
      let split = Linked-split m.nodes (x ∷ xs) ((c, d) ∷ ys) null is.linked in
      let p = last x xs in
      let real = not_null c (Distinct-split (x ∷ xs) ((c, d) ∷ ys) is.distinct).1.0 in
      let there : walk (length (x ∷ xs)) null l.head m ≡ ok (p.0, c) m =
        ap (λ h. walk (length (x ∷ xs)) null h m) is.head
        ∙ walk-ok m (x ∷ xs) ((c, d) ∷ ys) null is.linked is.distinct
        ∙ ap (λ a. ok (a, c) m) (last_addr-last null x xs) in
      rw
        (
          there,
          load-ok m c (node d (first ys null)) real split.1.0,
          prev-real x xs ys is,
          set_next-ok m p.0 (node p.1 c) (prev-real x xs ys is) (nodes-last m.nodes x xs c split.0)
              (first ys null),
          load-ok (relinked x xs ys is) p.0 (node p.1 (first ys null)) (prev-real x xs ys is)
              (write_self m.nodes p.0 (node p.1 (first ys null))),
        )
        (record { addr = refl; left = Listed-updated x xs ys is; same = same-relinked x xs ys is })

  unlink_nth-Without :
      (xs ys : Cells)
      → Listed m l (xs ++ (c, d) ∷ ys) z
      → Returns (OutOf xs ys) (unlink_nth l (length xs) m)
  unlink_nth-Without [] ys is = unlink_nth-front ys is
  unlink_nth-Without (x ∷ xs) ys is = unlink_nth-behind x xs ys is

  not-empty : (xs ys : Cells) → Listed m l (xs ++ (c, d) ∷ ys) z → (l.head == null) ≡ false
  not-empty [] ys is = ap (λ h. h == null) is.head ∙ not_null c is.distinct.0
  not-empty ((a, e) ∷ xs) ys is = ap (λ h. h == null) is.head ∙ not_null a is.distinct.0

  -- On a list in order that is not empty `remove_nth_node` at a position that is not negative ends
  -- without a fault and returns the node at that position, or the last one where the list is
  -- shorter: the list keeps the other cells in order, and only nodes in front of it change.
  remove_nth_node_lem :
      (k : ℕ) (xs ys : Cells)
      → Listed m l (xs ++ (c, d) ∷ ys) z
      → z ≡ pos (length xs + length ys + 1)
      → length xs ≡ min k (length xs + length ys)
      → Returns (OutOf xs ys) (remove_nth_node (some l) (pos k) m)
  unfolding remove_nth_node
  remove_nth_node_lem k xs ys is full at =
      let last_position : dec l.size ≡ pos (length xs + length ys) =
        let one_more : length xs + length ys + 1 ≡ suc (length xs + length ys) = omega arith in
        ap dec (is.size ∙ full ∙ ap pos one_more) in
      let by_size : (b : Bool)
          → ltz (dec l.size) (pos k) ≡ b
          → ltz (pos (length xs + length ys)) (pos k) ≡ b =
        λ b e. ap (λ s. ltz s (pos k)) (sym last_position) ∙ e in
      let at_cut : (n : ℕ) → length xs ≡ n → Returns (OutOf xs ys) (unlink_nth l n m) = λ n e.
        subst (λ (j : ℕ). Returns (OutOf xs ys) (unlink_nth l j m)) e
          (unlink_nth-Without xs ys is) in
      elim (Bool-cases (ltz (dec l.size) (pos k))) [
        | inl behind ↦
            let longer : length xs + length ys < k = ground (arith, by_size true behind) in
            rw (not-empty xs ys is, behind)
              (at_cut (pos_part (dec l.size)) (omega (arith, ap pos_part last_position)))
        | inr within ↦
            let fits : k ≤ length xs + length ys = ground (arith, by_size false within) in
            rw (not-empty xs ys is, within) (at_cut k (omega arith))
      ]
