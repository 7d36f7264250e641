-- ===== src/LinkedList/FreeLaws.antt =====
-- `free_list`, on a list that is in order and behind a removal by hand.
use client_server_protocoale.Common.{
  ℕ, zero, suc, ◌<◌, ◌≡◌, ◌≢◌, refl, ◌∙◌, Option, some, none, Bool, true, false, [], ◌∷◌, arith,
  pos, ltz, length, inl, inr, subst, Bool-cases,
}
use client_server_protocoale.LinkedList.Memory.{
  Ptr, null, node, Cmd, LinkedList, Memory, Run, write, ok, fault, out_of_fuel, Returns, free_node,
  and_then,
}
use client_server_protocoale.LinkedList.Cells.{Cells, has, first, IsList, ListAt, Linked-write}
use client_server_protocoale.LinkedList.AddLaws.{Returns-mono}
use client_server_protocoale.LinkedList.Steps.{not_null, free_node-ok}
use client_server_protocoale.LinkedList.Remove.{remove_first, get_size, free_list, free_loop}
use client_server_protocoale.LinkedList.RemoveLaws.{remove_first_lem}
use client_server_protocoale.LinkedList.Unlink.{unlink_loop, erase_cell}
use client_server_protocoale.LinkedList.UnlinkLaws.{Tests, Removed, unlink_loop-Removed}

-- Every node of the list is freed, and nothing else is.
pub record Freed (m : Memory) (xs : Cells) (g : Memory) : Type 0 where
  pub gone : (a : Ptr) → has a xs ≡ true → g.nodes a ≡ none
  pub same : (a : Ptr) → has a xs ≡ false → g.nodes a ≡ m.nodes a
  pub blocks : g.blocks ≡ m.blocks

abbrev without : Memory → Ptr → Memory
without m p = record m { nodes = write m.nodes p none }

IsList-without :
    (m : Memory) (l : LinkedList) (xs : Cells) (p : Ptr)
    → IsList m l xs
    → has p xs ≡ false
    → IsList (without m p) l xs
IsList-without m l xs p is out = record {
  linked = Linked-write m.nodes xs null p none is.linked out;
  distinct = is.distinct;
  head = is.head;
  tail = is.tail;
  size = is.size;
}

Freed-cons :
    (m : Memory) (a d : Ptr) (xs : Cells) (g : Memory)
    → has a xs ≡ false
    → Freed (without m a) xs g
    → Freed m ((a, d) ∷ xs) g
Freed-cons m a d xs g out f = record {
  gone = λ b h. elim (Bool-cases (has b xs)) [
    | inl i ↦ f.gone b i
    | inr o ↦ f.same b o ∙ ground arith
  ];
  same = λ b o. f.same b (ground arith) ∙ ground arith;
  blocks = f.blocks;
}

abbrev Result : Memory → Cells → Option LinkedList → Memory → Type 0
Result m xs l g = (l ≡ none) × Freed m xs g

-- What `remove_first` returned, freed, and the rest of the loop.
free_rest :
    (k : ℕ) (m : Memory) (a d : Ptr) (xs : Cells) (r : Run (Ptr × Option LinkedList))
    → a ≢ null
    → m.nodes a ≡ some (node d (first xs null))
    → has a xs ≡ false
    → Returns (λ (p, l') g. (p ≡ a) × ListAt g l' xs × (g ≡ m)) r
    → ((l : LinkedList)
        → IsList (without m a) l xs
        → Returns (Result (without m a) xs) (free_loop k (some l) (without m a)))
    → Returns
        (Result m ((a, d) ∷ xs))
        (and_then r (λ (curr, l') g. and_then (free_node curr g) (λ u. free_loop k l')))
free_rest k m a d xs (ok (p, none) g) ne holds out e ih = absurd e.1
free_rest k m a d xs (ok (p, some l) g) ne holds out e ih =
    rw (e.0, e.2, free_node-ok m a (node d (first xs null)) (not_null a ne) holds)
      (Returns-mono {P = Result (without m a) xs} (free_loop k (some l) (without m a))
        (ih l (IsList-without m l xs a (subst (λ h. IsList h l xs) e.2 e.1) out))
        (λ l' g' (end, f). (end, Freed-cons m a d xs g' out f)))
free_rest k m a d xs fault ne holds out e ih = e
free_rest k m a d xs out_of_fuel ne holds out e ih = e

free_loop-Result :
    (k : ℕ) (m : Memory) (l : LinkedList) (xs : Cells)
    → IsList m l xs
    → length xs < k
    → Returns (Result m xs) (free_loop k (some l) m)
unfolding free_loop get_size
free_loop-Result zero m l xs is fuel = absurd (omega arith)
free_loop-Result (suc k) m l [] is fuel =
    rw is.size (refl, record { gone = λ a h. cc; same = λ a o. refl; blocks = refl })
free_loop-Result (suc k) m l ((a, d) ∷ xs) is fuel =
    let more : ltz (pos 0) l.size ≡ true = rw is.size (ground arith) in
    rw (free_loop, more)
      (free_rest k m a d xs (remove_first (some l) m) is.distinct.0 is.linked.0 is.distinct.1
        (remove_first_lem m l (a, d) xs is)
        (λ l' is'. free_loop-Result k (without m a) l' xs is' (omega arith)))

-- On a list in order, with fuel for its nodes, `free_list` ends without a fault: every node of the
-- list is freed, once, and no other node and no data block is touched.
pub free_list_lem :
    (k : ℕ) (m : Memory) (l : LinkedList) (xs : Cells)
    → IsList m l xs
    → length xs < k
    → Returns (λ l' g. (l' ≡ none) × Freed m xs g) (free_list k (some l) m)
unfolding free_list
free_list_lem k m l xs is fuel = free_loop-Result k m l xs is fuel

remove_first-null :
    (m : Memory) (l : LinkedList) → l.head ≡ null → remove_first (some l) m ≡ ok (null, some l) m
unfolding remove_first
remove_first-null m l e = rw e

-- Where `size` says that there is a node and the head is NULL, the loop goes on for ever.
free_loop-null :
    (k n : ℕ) (m : Memory) (l : LinkedList)
    → l.head ≡ null
    → l.size ≡ pos (suc n)
    → free_loop k (some l) m ≡ out_of_fuel
unfolding free_loop get_size free_node
free_loop-null zero n m l e size = refl
free_loop-null (suc k) n m l e size =
    let more : ltz (pos 0) l.size ≡ true = rw size (ground arith) in
    rw (free_loop, more, remove_first-null m l e) (free_loop-null k n m l e size)

-- On a list in order whose only node passes the test, the removal by hand ends, and `free_list`
-- behind it never does: no number of rounds is enough for its loop.
pub unlink_loop-free_list :
    (test : Ptr → Cmd Bool) (p : Ptr → Bool) (m : Memory) (l : LinkedList) (x : Ptr × Ptr) (k : ℕ)
    → IsList m l (x ∷ [])
    → Tests test p m (x ∷ [])
    → p x.1 ≡ true
    → 1 < k
    → Returns
        (λ l' g. (n : ℕ) → free_list n (some l') g ≡ out_of_fuel)
        (unlink_loop test free_node k l null x.0 m)
unfolding free_list erase_cell
unlink_loop-free_list test p m l x k is tests hit fuel =
    Returns-mono {P = Removed test p m l (x ∷ [])} (unlink_loop test free_node k l null x.0 m)
      (unlink_loop-Removed test p m k l (x ∷ []) is tests fuel)
      (λ l' g r n. free_loop-null n 0 g l' (r.head ∙ rw hit refl) (r.size ∙ is.size))
