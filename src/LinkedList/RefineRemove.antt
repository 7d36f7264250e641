-- ===== src/LinkedList/RefineRemove.antt =====
-- `remove_first` on a list that stands for a view.
use client_server_protocoale.Common.{
  ◌≡◌, ◌≢◌, refl, ap, ◌∙◌, subst, none, some, Bool, true, false, [], ◌∷◌, dec,
}
use client_server_protocoale.LinkedList.Memory.{Ptr, null, node, LinkedList, Memory, ok}
use client_server_protocoale.LinkedList.Cells.{Cells}
use client_server_protocoale.LinkedList.RemoveLaws.{rest_of, remove_first-Linked}
use client_server_protocoale.LinkedList.Erase.{payloads}
use client_server_protocoale.LinkedList.Refine.{Through, Represents, TailAt}
use client_server_protocoale.LinkedList.ViewLaws.{
  remove_first-one, remove_first-more, remove_first-nil,
}
use client_server_protocoale.LinkedList.View.{View}
use client_server_protocoale.LinkedList.View
use client_server_protocoale.LinkedList.Remove

module _ (m : Memory) (l : LinkedList) (v : View Ptr) where
  -- The node that is returned holds the item, and the rest stands for the rest of the view.
  pub record Taken (d : Ptr) (u : View Ptr) : Type 0 where
    pub addr : Ptr
    pub left : LinkedList
    pub returns : Remove.remove_first (some l) m ≡ ok (addr, some left) m
    pub real : addr ≢ null
    pub next : Ptr
    pub holds : m.nodes addr ≡ some (node d next)
    pub represents : Represents m left u

  remove_first-null : Through m l v [] → Remove.remove_first (some l) m ≡ ok (null, some l) m
  unfolding Remove.remove_first
  remove_first-null r = rw r.head

  taken :
      (xs : Cells)
      → Through m l v xs
      → (d : Ptr) (u : View Ptr) → View.remove_first v ≡ some (d, u)
      → Taken d u
  taken [] r d u e =
      let bad : View.remove_first v ≡ none = remove_first-nil v r.items in absurd (cc)
  taken ((a, b) ∷ []) r d u e =
      let one = remove_first-one b v r.items in
      let same : b ≡ d = cc in
      let new : record { items = []; size = dec v.size; dangling = false } ≡ u = cc in
      record {
        addr = a;
        left = rest_of m l [];
        returns = remove_first-Linked m l (a, b) [] r.head r.linked r.distinct;
        real = r.distinct.0;
        next = null;
        holds = r.linked.0 ∙ ap (λ c. some (node c null)) same;
        represents = subst (Represents m (rest_of m l [])) new (
          [],
          record {
            linked = tt;
            distinct = tt;
            head = refl;
            items = refl;
            size = ap dec r.size;
            tail = tt;
          },
        );
      }
  taken ((a, b) ∷ (c, f) ∷ xs) r d u e =
      let more = remove_first-more b f (payloads xs) v r.items in
      let same : b ≡ d = cc in
      let new : record { items = f ∷ payloads xs; size = dec v.size; dangling = v.dangling } ≡ u =
        cc in
      record {
        addr = a;
        left = rest_of m l ((c, f) ∷ xs);
        returns = remove_first-Linked m l (a, b) ((c, f) ∷ xs) r.head r.linked r.distinct;
        real = r.distinct.0;
        next = c;
        holds = r.linked.0 ∙ ap (λ x. some (node x c)) same;
        represents = subst (Represents m (rest_of m l ((c, f) ∷ xs))) new (
          (c, f) ∷ xs,
          record {
            linked = r.linked.1;
            distinct = r.distinct.2;
            head = refl;
            items = refl;
            size = ap dec r.size;
            tail = tail_of v.dangling r.tail;
          },
        );
      }
    where
      tail_of :
          (t : Bool) → TailAt m t l.tail ((a, b) ∷ (c, f) ∷ xs) → TailAt m t l.tail ((c, f) ∷ xs)
      tail_of false at = at
      tail_of true at = at

  pub remove_first-Taken :
      Represents m l v → (d : Ptr) (u : View Ptr) → View.remove_first v ≡ some (d, u) → Taken d u
  remove_first-Taken (xs, r) d u e = taken xs r d u e

  -- Where the view has no item the list has no node.
  pub remove_first-nothing :
      Represents m l v
      → View.remove_first v ≡ none
      → Remove.remove_first (some l) m ≡ ok (null, some l) m
  remove_first-nothing ([], r) e = remove_first-null r
  remove_first-nothing ((a, b) ∷ [], r) e = let one = remove_first-one b v r.items in absurd (cc)
  remove_first-nothing ((a, b) ∷ (c, f) ∷ xs, r) e =
      let more = remove_first-more b f (payloads xs) v r.items in absurd (cc)
