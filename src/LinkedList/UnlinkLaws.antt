-- ===== src/LinkedList/UnlinkLaws.antt =====
-- The removal by hand on a list that is in order: the right node goes, and the tail may dangle.
use client_server_protocoale.Common.{
  ℕ, zero, suc, ◌<◌, ◌≡◌, refl, ap, ◌∙◌, none, Bool, true, false, [], ◌∷◌, arith, ◌==◌, length,
  Bool-cases, inl, inr,
}
use client_server_protocoale.LinkedList.Memory.{
  Ptr, null, node, LinkedList, Memory, ok, Cmd, Returns, free_node,
}
use client_server_protocoale.LinkedList.AddLaws.{Returns-mono}
use client_server_protocoale.LinkedList.Cells.{
  Cells, has, first, Linked, Distinct, IsList, Linked-write,
}
use client_server_protocoale.LinkedList.Steps.{put, not_null, load-ok, set_next-ok, free_node-ok}
use client_server_protocoale.LinkedList.Unlink.{unlink_loop, erase_cell, found_addr}

-- Behind the removal of the first of `xs` that passes, with the cell `c` in front.
record Unlinked (m : Memory) (p : Ptr → Bool) (c : Ptr × Ptr) (xs : Cells) (g : Memory)
    : Type 0 where
  linked : Linked g.nodes (c ∷ erase_cell p xs) null
  freed : (found_addr p xs == null) ≡ false → g.nodes (found_addr p xs) ≡ none
  same : (a : Ptr) → has a (c ∷ xs) ≡ false → g.nodes a ≡ m.nodes a

module _ (test : Ptr → Cmd Bool) (p : Ptr → Bool) (m : Memory) where
  -- The test reads the data of each cell, and changes nothing.
  abbrev pub Tests : Cells → Type 0
  Tests [] = Unit {0}
  Tests ((a, d) ∷ xs) = (test d m ≡ ok (p d) m) × Tests xs

  -- What the removal leaves: the chain without the first cell that passes, `size` and `tail` as
  -- they were, and the node freed.
  pub record Removed (l : LinkedList) (xs : Cells) (l' : LinkedList) (g : Memory) : Type 0 where
    pub linked : Linked g.nodes (erase_cell p xs) null
    pub head : l'.head ≡ first (erase_cell p xs) null
    pub tail : l'.tail ≡ l.tail
    pub size : l'.size ≡ l.size
    pub freed : (found_addr p xs == null) ≡ false → g.nodes (found_addr p xs) ≡ none
    pub same : (a : Ptr) → has a xs ≡ false → g.nodes a ≡ m.nodes a

  unlink_loop-hit :
      (k : ℕ) (l : LinkedList) (pa pd a d : Ptr) (xs : Cells)
      → Linked m.nodes ((pa, pd) ∷ (a, d) ∷ xs) null
      → Distinct ((pa, pd) ∷ (a, d) ∷ xs)
      → test d m ≡ ok true m
      → p d ≡ true
      → Returns
          (λ l' g. (l' ≡ l) × Unlinked m p (pa, pd) ((a, d) ∷ xs) g)
          (unlink_loop test free_node (suc k) l pa a m)
  unfolding unlink_loop erase_cell found_addr
  unlink_loop-hit k l pa pd a d xs chain apart e hit =
      let ne : (pa == a) ≡ false = ground arith in
      let ne' : (a == pa) ≡ false = ground arith in
      let m1 = put m pa (node pd (first xs null)) in
      rw
        (
          not_null a apart.2.0,
          unlink_loop,
          load-ok m a (node d (first xs null)) (not_null a apart.2.0) chain.1.0,
          e,
          not_null pa apart.0,
          set_next-ok m pa (node pd a) (not_null pa apart.0) chain.0 (first xs null),
          free_node-ok m1 a (node d (first xs null)) (not_null a apart.2.0) (rw ne' chain.1.0),
        )
        (
          refl,
          record {
            linked = rw hit (
              rw ne (ground arith),
              Linked-write m1.nodes xs null a none
                  (Linked-write m.nodes xs null pa _ chain.1.1 (ground arith)) apart.2.1,
            );
            freed = λ h. rw hit (ground arith);
            same = λ b o. ground arith;
          },
        )

  -- A cell that does not pass, in front.
  Unlinked-cons :
      (pa pd a d : Ptr) (xs : Cells)
      → Linked m.nodes ((pa, pd) ∷ (a, d) ∷ xs) null
      → Distinct ((pa, pd) ∷ (a, d) ∷ xs)
      → p d ≡ false
      → (g : Memory) → Unlinked m p (a, d) xs g
      → Unlinked m p (pa, pd) ((a, d) ∷ xs) g
  unfolding erase_cell found_addr
  Unlinked-cons pa pd a d xs chain apart miss g u = record {
    linked = rw miss (u.same pa apart.1 ∙ chain.0, u.linked);
    freed = rw miss u.freed;
    same = λ b o. u.same b (ground arith);
  }

  unlink_loop-Unlinked :
      (k : ℕ) (l : LinkedList) (pa pd : Ptr) (xs : Cells)
      → Linked m.nodes ((pa, pd) ∷ xs) null
      → Distinct ((pa, pd) ∷ xs)
      → Tests xs
      → length xs < k
      → Returns
          (λ l' g. (l' ≡ l) × Unlinked m p (pa, pd) xs g)
          (unlink_loop test free_node k l pa (first xs null) m)
  unfolding unlink_loop erase_cell found_addr
  unlink_loop-Unlinked zero l pa pd xs chain apart tests fuel = absurd (omega arith)
  unlink_loop-Unlinked (suc k) l pa pd [] chain apart tests fuel =
      (refl, record { linked = chain; freed = λ h. cc; same = λ a o. refl })
  unlink_loop-Unlinked (suc k) l pa pd ((a, d) ∷ xs) chain apart tests fuel =
      elim (Bool-cases (p d)) [
        | inl hit ↦
            unlink_loop-hit k l pa pd a d xs chain apart (tests.0 ∙ ap (λ b. ok b m) hit) hit
        | inr miss ↦
            rw
              (
                not_null a apart.2.0,
                unlink_loop,
                load-ok m a (node d (first xs null)) (not_null a apart.2.0) chain.1.0,
                tests.0,
                miss,
              )
              (Returns-mono {P = λ l' g. (l' ≡ l) × Unlinked m p (a, d) xs g}
                (unlink_loop test free_node k l a (first xs null) m)
                (unlink_loop-Unlinked k l a d xs chain.1 apart.2 tests.1 (omega arith))
                (λ l' g (same_list, u).
                  (same_list, Unlinked-cons pa pd a d xs chain apart miss g u)))
      ]

  -- From the head of a list in order.
  unlink_loop-first :
      (k : ℕ) (l : LinkedList) (a d : Ptr) (xs : Cells)
      → l.head ≡ a
      → Linked m.nodes ((a, d) ∷ xs) null
      → Distinct ((a, d) ∷ xs)
      → test d m ≡ ok true m
      → p d ≡ true
      → Returns (Removed l ((a, d) ∷ xs)) (unlink_loop test free_node (suc k) l null a m)
  unfolding unlink_loop erase_cell found_addr
  unlink_loop-first k l a d xs head chain apart e hit =
      rw
        (
          not_null a apart.0,
          unlink_loop,
          load-ok m a (node d (first xs null)) (not_null a apart.0) chain.0,
          e,
          head,
          load-ok m a (node d (first xs null)) (not_null a apart.0) chain.0,
          free_node-ok m a (node d (first xs null)) (not_null a apart.0) chain.0,
        )
        (record {
          linked = rw hit (Linked-write m.nodes xs null a none chain.1 apart.1);
          head = rw hit refl;
          tail = refl;
          size = refl;
          freed = λ h. rw hit (ground arith);
          same = λ b o. ground arith;
        })

  unlink_loop-rest :
      (k : ℕ) (l : LinkedList) (a d : Ptr) (xs : Cells)
      → l.head ≡ a
      → Linked m.nodes ((a, d) ∷ xs) null
      → Distinct ((a, d) ∷ xs)
      → Tests ((a, d) ∷ xs)
      → length xs < k
      → p d ≡ false
      → Returns (Removed l ((a, d) ∷ xs)) (unlink_loop test free_node (suc k) l null a m)
  unfolding unlink_loop erase_cell found_addr
  unlink_loop-rest k l a d xs head chain apart tests fuel miss =
      rw
        (
          not_null a apart.0,
          unlink_loop,
          load-ok m a (node d (first xs null)) (not_null a apart.0) chain.0,
          tests.0,
          miss,
        )
        (Returns-mono {P = λ l' g. (l' ≡ l) × Unlinked m p (a, d) xs g}
          (unlink_loop test free_node k l a (first xs null) m)
          (unlink_loop-Unlinked k l a d xs chain apart tests.1 fuel)
          (λ l' g (e, u). record {
            linked = rw miss u.linked;
            head = rw miss (ap (λ (r : LinkedList). r.head) e ∙ head);
            tail = ap (λ (r : LinkedList). r.tail) e;
            size = ap (λ (r : LinkedList). r.size) e;
            freed = rw miss u.freed;
            same = u.same;
          }))

  -- Whatever the tail and the size.
  pub unlink_loop-Linked :
      (k : ℕ) (l : LinkedList) (xs : Cells)
      → l.head ≡ first xs null
      → Linked m.nodes xs null
      → Distinct xs
      → Tests xs
      → length xs < k
      → Returns (Removed l xs) (unlink_loop test free_node k l null (first xs null) m)
  unlink_loop-Linked zero l xs head chain apart tests fuel = absurd (omega arith)
  unlink_loop-Linked (suc k) l [] head chain apart tests fuel =
      unfold unlink_loop erase_cell found_addr in
      record {
        linked = tt;
        head = head;
        tail = refl;
        size = refl;
        freed = λ h. cc;
        same = λ a o. refl;
      }
  unlink_loop-Linked (suc k) l ((a, d) ∷ xs) head chain apart tests fuel = elim (Bool-cases (p d)) [
    | inl hit ↦ unlink_loop-first k l a d xs head chain apart (tests.0 ∙ ap (λ b. ok b m) hit) hit
    | inr miss ↦ unlink_loop-rest k l a d xs head chain apart tests (omega arith) miss
  ]

  -- On a list in order, with a test that only reads and fuel for its nodes, the removal by hand ends
  -- without a fault: the chain is that without the first node that passes, that node is freed, no
  -- node outside changes, and `size` and `tail` are as they were.
  pub unlink_loop-Removed :
      (k : ℕ) (l : LinkedList) (xs : Cells)
      → IsList m l xs
      → Tests xs
      → length xs < k
      → Returns (Removed l xs) (unlink_loop test free_node k l null (first xs null) m)
  unlink_loop-Removed k l xs is tests fuel =
      unlink_loop-Linked k l xs is.head is.linked is.distinct tests fuel
