-- ===== src/LinkedList/SequenceLaws.antt =====
-- A sequence of operations in memory against its run on the view.
use client_server_protocoale.Common.{
  ℕ, suc, ◌+◌, ◌<◌, ◌≤◌, ◌≡◌, ◌≢◌, refl, ap, sym, ◌∙◌, subst, Option, none, some, Bool, List, [],
  ◌∷◌, ◌++◌, arith, length, length-append, Option-cases, inl, inr,
}
use client_server_protocoale.LinkedList.Memory.{
  Ptr, null, node, LinkedList, Memory, Cmd, Run, ok, fault, out_of_fuel, and_then, Returns,
}
use client_server_protocoale.LinkedList.Cells.{Cells}
use client_server_protocoale.LinkedList.Steps.{not_null, load-ok}
use client_server_protocoale.LinkedList.Erase.{payloads}
use client_server_protocoale.LinkedList.Refine.{
  Represents, ViewAt, add_last-ViewAt, unlink_loop-Represents,
}
use client_server_protocoale.LinkedList.RefineRemove.{remove_first-Taken, remove_first-nothing}
use client_server_protocoale.LinkedList.View.{View}
use client_server_protocoale.LinkedList.View
use mathlib.Core.Option.{some-injective}
use client_server_protocoale.LinkedList.Add
use client_server_protocoale.LinkedList.Sequences.{
  Operation, add_last, remove_first, unlink_first, Answers, apply_to_view, run_on_view, or_list,
  perform, run_in_memory, Allocates, Afterwards, AllAllocate,
}
use client_server_protocoale.LinkedList.ViewLaws.{
  add_last-some, remove_first-cons, remove_first-nil,
}

-- What an operation leaves where the view gives `r` and `u`.
Returns-with :
    {A : Type 0} (P Q : A → Memory → Type 0) (c : Run A)
    → Returns P c
    → Afterwards Q c
    → Returns (λ a g. P a g × Q a g) c
Returns-with P Q (ok a g) h h' = (h, h')
Returns-with P Q fault h h' = h
Returns-with P Q out_of_fuel h h' = h

abbrev Simulates : Answers → View Ptr → Answers × LinkedList → Memory → Type 0
Simulates r u (r', l') g = (r' ≡ r) × Represents g l' u

Returns-bind :
    {A B : Type 0} (P : A → Memory → Type 0) (Q : B → Memory → Type 0) (c : Run A) (f : A → Cmd B)
    → Returns P c
    → ((a : A) (g : Memory) → P a g → Returns Q (f a g))
    → Returns Q (and_then c f)
Returns-bind P Q (ok a g) f h next = next a g h
Returns-bind P Q fault f h next = h
Returns-bind P Q out_of_fuel f h next = h

length-payloads : (xs : Cells) → length (payloads xs) ≡ length xs
length-payloads [] = refl
length-payloads ((a, d) ∷ xs) = ap suc (length-payloads xs)

module _ (k : ℕ) (m : Memory) (l : LinkedList) (v : View Ptr) (rep : Represents m l v) where
  add-Simulates :
      (fresh d : Ptr) (u : View Ptr)
      → fresh ≢ null
      → m.nodes fresh ≡ none
      → View.add_last v d ≡ some u
      → Returns (Simulates [] u) (perform k (add_last fresh d) l m)
  unfolding perform
  add-Simulates fresh d u ne unused e =
      let (xs, r) = rep in
      Returns-bind (λ l' g. ViewAt g l' u) (Simulates [] u) (Add.add_last fresh (some l) d m) _
        (add_last-ViewAt m l v xs r u d fresh e ne unused) (λ l' g at. (refl, listed l' g at))
    where
      listed : (l' : Option LinkedList) (g : Memory) → ViewAt g l' u → Represents g (or_list l l') u
      listed none g at = absurd at
      listed (some l') g at = at

  remove-Simulates :
      (d : Ptr) (u : View Ptr)
      → View.remove_first v ≡ some (d, u)
      → Returns (Simulates (some d ∷ []) u) (perform k remove_first l m)
  unfolding perform
  remove-Simulates d u e =
      let t = remove_first-Taken m l v rep d u e in
      let real = not_null t.addr t.real in
      rw (t.returns, real, load-ok m t.addr (node d t.next) real t.holds) (refl, t.represents)

  remove-nothing :
      View.remove_first v ≡ none → Returns (Simulates (none ∷ []) v) (perform k remove_first l m)
  unfolding perform
  remove-nothing e = rw (remove_first-nothing m l v rep e) (refl, rep)

  unlink-Simulates :
      (p : Ptr → Bool)
      → length v.items < k
      → Returns (Simulates [] (View.unlink_first p v)) (perform k (unlink_first p) l m)
  unfolding perform
  unlink-Simulates p fuel =
      let (xs, r) = rep in
      let enough : length xs < k = omega (arith, length-payloads xs, ap length r.items) in
      Returns-bind (λ l' g. Represents g l' (View.unlink_first p v)) _ _ _
        (unlink_loop-Represents m l v xs r p k enough) (λ l' g at. (refl, at))

  by_answer :
      (o : Operation) (r r' : Answers) (u u' : View Ptr)
      → apply_to_view o v ≡ some (r, u)
      → apply_to_view o v ≡ some (r', u')
      → Returns (Simulates r u) (perform k o l m)
      → Returns (Simulates r' u') (perform k o l m)
  by_answer o r r' u u' e e' h =
      subst (λ (x : Answers × View Ptr). Returns (Simulates x.0 x.1) (perform k o l m))
        (some-injective (r, u) (r', u') (sym e ∙ e')) h

  perform-Simulates :
      (o : Operation) (r : Answers) (u : View Ptr)
      → Allocates o m
      → length v.items < k
      → apply_to_view o v ≡ some (r, u)
      → Returns (Simulates r u) (perform k o l m)
  perform-Simulates (add_last fresh d) r u a fuel e = elim (Option-cases (View.add_last v d)) [
    | inl refused ↦ absurd (ground arith)
    | inr (u', added) ↦
        by_answer (add_last fresh d) [] r u' u (rw (apply_to_view, added) refl) e
          (add-Simulates fresh d u' a.0 a.1 added)
  ]
  perform-Simulates remove_first r u a fuel e = elim (Option-cases (View.remove_first v)) [
    | inl nothing ↦
        by_answer remove_first (none ∷ []) r v u (rw (apply_to_view, nothing) refl) e
          (remove-nothing nothing)
    | inr ((d, u'), taken) ↦
        by_answer remove_first (some d ∷ []) r u' u (rw (apply_to_view, taken) refl) e
          (remove-Simulates d u' taken)
  ]
  perform-Simulates (unlink_first p) r u a fuel e =
      by_answer (unlink_first p) [] r (View.unlink_first p v) u refl e (unlink-Simulates p fuel)

-- An operation adds one item at most.
length-erase_first : (p : Ptr → Bool) (xs : List Ptr) → length (View.erase_first p xs) ≤ length xs
unfolding View.erase_first
length-erase_first p [] = omega arith
length-erase_first p (x ∷ xs) = ground (arith, length-erase_first p xs)

length-apply_to_view :
    (o : Operation) (v u : View Ptr) (r : Answers)
    → apply_to_view o v ≡ some (r, u)
    → length u.items ≤ length v.items + 1
length-apply_to_view o v u r e = go o e
  where
    by_view :
        (u' : View Ptr) (r' : Answers)
        → ◌≡◌ {A = Option (Answers × View Ptr)} (some (r', u')) (some (r, u))
        → length u'.items ≤ length v.items + 1
        → length u.items ≤ length v.items + 1
    by_view u' r' same h =
        subst (λ (x : Answers × View Ptr). length x.1.items ≤ length v.items + 1)
          (some-injective (r', u') (r, u) same) h

    left_over :
        (xs : List Ptr) (d : Ptr) (u' : View Ptr)
        → v.items ≡ xs
        → View.remove_first v ≡ some (d, u')
        → length u'.items ≤ length xs
    left_over [] d u' items taken =
        let bad : View.remove_first v ≡ none = remove_first-nil v items in absurd (cc)
    left_over (x ∷ xs) d u' items taken =
        let (q, e', rest) = remove_first-cons x xs v items in
        let same : q ≡ u' = cc in
        subst (λ z. length z.items ≤ length (x ∷ xs)) same (omega (arith, ap length rest))

    go : (o : Operation) → apply_to_view o v ≡ some (r, u) → length u.items ≤ length v.items + 1
    go (add_last fresh d) e = elim (Option-cases (View.add_last v d)) [
      | inl refused ↦ absurd (ground arith)
      | inr (u', added) ↦
          let computed : apply_to_view (add_last fresh d) v ≡ some ([], u') =
            rw (apply_to_view, added) refl in
          by_view u' [] (sym computed ∙ e) (
            omega (arith, ap length (add_last-some v u' d added).0, length-append v.items (d ∷ [])))
    ]
    go remove_first e = elim (Option-cases (View.remove_first v)) [
      | inl nothing ↦
          let computed : apply_to_view remove_first v ≡ some (none ∷ [], v) =
            rw (apply_to_view, nothing) refl in
          by_view v (none ∷ []) (sym computed ∙ e) (omega arith)
      | inr ((d, u'), taken) ↦
          let computed : apply_to_view remove_first v ≡ some (some d ∷ [], u') =
            rw (apply_to_view, taken) refl in
          by_view u' (some d ∷ []) (sym computed ∙ e)
            (omega (arith, left_over v.items d u' refl taken))
    ]
    go (unlink_first p) e =
        by_view (View.unlink_first p v) [] e
          (unfold View.unlink_first in omega (arith, length-erase_first p v.items))

-- A sequence of adds at the end, removals of the first and removals by hand, on a list in memory
-- that stands for a view, with fuel for its nodes and those that are added, and addresses from
-- `malloc` that are not NULL and not allocated at the time: where the view's run takes no add
-- through a dangling tail, the run in memory ends without a fault, gives the same items in the
-- same order, and leaves a list that stands for the view's result.
pub run_in_memory-Represents :
    (k : ℕ) (os : List Operation) (m : Memory) (l : LinkedList) (v u : View Ptr) (rs : Answers)
    → Represents m l v
    → AllAllocate k os l m
    → length v.items + length os < k
    → run_on_view os v ≡ some (rs, u)
    → Returns (λ (rs', l') g. (rs' ≡ rs) × Represents g l' u) (run_in_memory k os l m)
unfolding run_in_memory run_on_view
run_in_memory-Represents k [] m l v u rs rep a fuel e =
    let answers : [] ≡ rs = cc in
    let same : v ≡ u = cc in (answers, subst (Represents m l) same rep)
run_in_memory-Represents k (o ∷ os) m l v u rs rep a fuel e =
    elim (Option-cases (apply_to_view o v)) [
      | inl refused ↦ absurd (ground arith)
      | inr ((r, v'), applied) ↦ elim (Option-cases (run_on_view os v')) [
        | inl refused ↦ absurd (ground arith)
        | inr ((rs', u'), rest) ↦
            let computed : run_on_view (o ∷ os) v ≡ some (r ++ rs', u') =
              rw (run_on_view, applied, rest) refl in
            let room = length-apply_to_view o v v' r applied in
            subst
              (λ (x : Answers × View Ptr).
                Returns (λ (rs'', l') g. (rs'' ≡ x.0) × Represents g l' x.1)
                  (run_in_memory k (o ∷ os) l m))
              (some-injective (r ++ rs', u') (rs, u) (sym computed ∙ e))
              (Returns-bind _ _ (perform k o l m) _
                (Returns-with (Simulates r v') (λ (r', l') g. AllAllocate k os l' g) _
                  (perform-Simulates k m l v rep o r v' a.0 (omega arith) applied) a.1)
                (λ (r', l') g (done, more).
                  Returns-bind _ _ (run_in_memory k os l' g) _
                    (run_in_memory-Represents k os g l' v' u' rs' done.1 more (omega arith) rest)
                    (λ (rs'', l'') g' (same, at).
                      (ap (λ t. t ++ rs'') done.0 ∙ ap (λ t. r ++ t) same, at))))
      ]
    ]
