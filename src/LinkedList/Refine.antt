-- ===== src/LinkedList/Refine.antt =====
-- Lists in memory as views: what each operation that the server uses does to both.
use client_server_protocoale.Common.{
  ℕ, ◌<◌, ◌≡◌, ◌≢◌, refl, ap, sym, ◌∙◌, subst, Option, none, some, Bool, true, false, ◌||◌, [], ◌∷◌,
  ◌++◌, inc, ◌==◌, length, Bool-cases, inl, inr,
}
use client_server_protocoale.LinkedList.Memory.{
  Ptr, null, LinkedList, Memory, Cmd, ok, Returns, free_node,
}
use client_server_protocoale.LinkedList.Cells.{
  Cells, first, Linked, Distinct, TailOf, ListedAt, not-has_of_none, last-ne-null,
}
use client_server_protocoale.LinkedList.Steps.{not_null}
use client_server_protocoale.LinkedList.AddLaws.{Returns-mono, add_last-Listed}
use client_server_protocoale.LinkedList.Unlink.{unlink_loop, erase_cell, found_addr}
use client_server_protocoale.LinkedList.UnlinkLaws.{Tests, Removed, unlink_loop-Linked}
use client_server_protocoale.LinkedList.Erase.{
  payloads, payloads-erase_cell, Distinct-erase_cell, TailOf-erase_cell, found_addr-hits_last,
}
use client_server_protocoale.LinkedList.View.{View, erase_first, hits_last, unlink_first}
use client_server_protocoale.LinkedList.ViewLaws.{add_last-some, add_last-cons}
use client_server_protocoale.LinkedList.View
use client_server_protocoale.LinkedList.Add

-- The tail is the last cell, or a node that was freed.
abbrev pub TailAt : Memory → Bool → Ptr → Cells → Type 0
TailAt m false t xs = TailOf t xs
TailAt m true t xs = m.nodes t ≡ none

-- The list stands for the view, through the cells `xs`.
pub record Through (m : Memory) (l : LinkedList) (v : View Ptr) (xs : Cells) : Type 0 where
  pub linked : Linked m.nodes xs null
  pub distinct : Distinct xs
  pub head : l.head ≡ first xs null
  pub items : v.items ≡ payloads xs
  pub size : l.size ≡ v.size
  pub tail : TailAt m v.dangling l.tail xs

abbrev pub Represents : Memory → LinkedList → View Ptr → Type 0
Represents m l v = (xs : Cells) × Through m l v xs

payloads-snoc : (xs : Cells) (a d : Ptr) → payloads (xs ++ (a, d) ∷ []) ≡ payloads xs ++ d ∷ []
payloads-snoc [] a d = refl
payloads-snoc ((b, e) ∷ xs) a d = ap (◌∷◌ e) (payloads-snoc xs a d)

-- What was returned stands for the view.
abbrev pub ViewAt : Memory → Option LinkedList → View Ptr → Type 0
ViewAt m none v = ⊥
ViewAt m (some l) v = Represents m l v

module _ (m : Memory) (l : LinkedList) (v : View Ptr) (xs : Cells) (r : Through m l v xs) where
  -- A view's add goes through a tail that is in order.
  tail-TailOf : (u : View Ptr) (d : Ptr) → View.add_last v d ≡ some u → TailOf l.tail xs
  tail-TailOf u d e = go xs r.items r.tail
    where
      go : (ys : Cells) → v.items ≡ payloads ys → TailAt m v.dangling l.tail ys → TailOf l.tail ys
      go [] items at = tt
      go ((a, b) ∷ ys) items at =
          subst (λ t. TailAt m t l.tail ((a, b) ∷ ys)) (add_last-cons b (payloads ys) v u d items e)
            at

  ViewAt-snoc :
      (u : View Ptr) (d fresh : Ptr)
      → View.add_last v d ≡ some u
      → (g : Memory) (l' : Option LinkedList) → ListedAt g l' (xs ++ (fresh, d) ∷ []) (inc v.size)
      → ViewAt g l' u
  ViewAt-snoc u d fresh e g none at = at
  ViewAt-snoc u d fresh e g (some l') at =
      let added = add_last-some v u d e in
      (
        xs ++ (fresh, d) ∷ [],
        record {
          linked = at.linked;
          distinct = at.distinct;
          head = at.head;
          items = added.0 ∙ ap (λ i. i ++ d ∷ []) r.items ∙ sym (payloads-snoc xs fresh d);
          size = at.size ∙ sym added.2;
          tail = subst (λ t. TailAt g t l'.tail (xs ++ (fresh, d) ∷ [])) (sym added.1) at.tail;
        },
      )

  pub add_last-ViewAt :
      (u : View Ptr) (d fresh : Ptr)
      → View.add_last v d ≡ some u
      → fresh ≢ null
      → m.nodes fresh ≡ none
      → Returns (λ l' g. ViewAt g l' u) (Add.add_last fresh (some l) d m)
  add_last-ViewAt u d fresh e ne unused =
      Returns-mono (Add.add_last fresh (some l) d m)
        (add_last-Listed m l xs fresh d v.size
          (record {
            linked = r.linked;
            distinct = r.distinct;
            head = r.head;
            tail = tail-TailOf u d e;
            size = r.size;
          })
          ne unused)
        (λ l' g (at, same). ViewAt-snoc u d fresh e g l' at)

  -- The removal by hand, with a test on the data pointer.
  module _ (p : Ptr → Bool) where
    abbrev test : Ptr → Cmd Bool
    test d m' = ok (p d) m'

    tests : (ys : Cells) → Tests test p m ys
    tests [] = tt
    tests ((a, d) ∷ ys) = (refl, tests ys)

    -- Where the removal takes the last of several cells, it frees the node at the tail.
    found_addr-tail :
        (t : Ptr) (ys : Cells)
        → hits_last p (payloads ys) ≡ true
        → TailOf t ys
        → Distinct ys
        → (found_addr p ys ≡ t) × ((found_addr p ys == null) ≡ false)
    found_addr-tail t [] h at apart = unfold hits_last in absurd (cc)
    found_addr-tail t (y ∷ ys) h at apart =
        let e = found_addr-hits_last p y ys h in
        (e ∙ sym at, ap (λ a. a == null) e ∙ not_null _ (last-ne-null y ys apart))

    Removed-TailAt :
        (l' : LinkedList) (g : Memory)
        → Removed test p m l xs l' g
        → TailAt g (v.dangling || hits_last p v.items) l'.tail (erase_cell p xs)
    Removed-TailAt l' g removed = elim (Bool-cases v.dangling) [
      | inl d ↦
          let gone : m.nodes l.tail ≡ none = subst (λ b. TailAt m b l.tail xs) d r.tail in
          subst (λ b. TailAt g (b || hits_last p v.items) l'.tail (erase_cell p xs)) (sym d)
            (ap g.nodes removed.tail
              ∙ removed.same l.tail (not-has_of_none m.nodes l.tail xs null r.linked gone)
              ∙ gone)
      | inr d ↦
          let at : TailOf l.tail xs = subst (λ b. TailAt m b l.tail xs) d r.tail in
          subst (λ b. TailAt g (b || hits_last p v.items) l'.tail (erase_cell p xs)) (sym d)
            (subst (λ i. TailAt g (hits_last p i) l'.tail (erase_cell p xs)) (sym r.items)
              (elim (Bool-cases (hits_last p (payloads xs))) [
                | inl hit ↦
                    let (e, ne) = found_addr-tail l.tail xs hit at r.distinct in
                    subst (λ b. TailAt g b l'.tail (erase_cell p xs)) (sym hit)
                      (ap g.nodes (removed.tail ∙ sym e) ∙ removed.freed ne)
                | inr miss ↦
                    subst (λ b. TailAt g b l'.tail (erase_cell p xs)) (sym miss)
                      (subst (λ t. TailOf t (erase_cell p xs)) (sym removed.tail)
                        (TailOf-erase_cell p l.tail xs miss at))
              ]))
    ]

    pub unlink_loop-Represents :
        (k : ℕ)
        → length xs < k
        → Returns
            (λ l' g. Represents g l' (unlink_first p v))
            (unlink_loop test free_node k l null l.head m)
    unfolding unlink_first
    unlink_loop-Represents k fuel =
        subst
          (λ h.
            Returns (λ l' g. Represents g l' (unlink_first p v))
              (unlink_loop test free_node k l null h m))
          (sym r.head)
          (Returns-mono (unlink_loop test free_node k l null (first xs null) m)
            (unlink_loop-Linked test p m k l xs r.head r.linked r.distinct (tests xs) fuel)
            (λ l' g removed. (
              erase_cell p xs,
              record {
                linked = removed.linked;
                distinct = Distinct-erase_cell p xs r.distinct;
                head = removed.head;
                items = ap (erase_first p) r.items ∙ sym (payloads-erase_cell p xs);
                size = removed.size ∙ r.size;
                tail = Removed-TailAt l' g removed;
              },
            )))
