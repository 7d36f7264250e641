-- ===== src/LinkedList/Sequences.antt =====
-- Sequences of the operations that the server's files use on a list, in memory and on its view.
use client_server_protocoale.Common.{
  ℕ, ◌≡◌, ◌≢◌, Option, none, some, Bool, List, [], ◌∷◌, ◌++◌, ◌==◌, if◌then◌else◌,
}
use client_server_protocoale.LinkedList.Memory.{
  Ptr, null, LinkedList, Memory, Cmd, Run, ok, fault, out_of_fuel, pure, load, free_node, ◌>>=◌,
}
use client_server_protocoale.LinkedList.Unlink.{unlink_loop}
use client_server_protocoale.LinkedList.View.{View}
use client_server_protocoale.LinkedList.View
use client_server_protocoale.LinkedList.Add
use client_server_protocoale.LinkedList.Remove

-- `fresh` is what `malloc` returns; the removal by hand has a test on the data pointer.
pub data Operation : Type 0 where
  add_last : (fresh new_data : Ptr) → Operation
  remove_first : Operation
  unlink_first : (Ptr → Bool) → Operation

-- The items that were taken out, with `none` where there was no item.
abbrev pub Answers : Type 0
Answers = List (Option Ptr)

abbrev pub apply_to_view : Operation → View Ptr → Option (Answers × View Ptr)
apply_to_view (add_last fresh d) v = elim (View.add_last v d) [
  | none ↦ none
  | some u ↦ some ([], u)
]
apply_to_view remove_first v = elim (View.remove_first v) [
  | none ↦ some (none ∷ [], v)
  | some (d, u) ↦ some (some d ∷ [], u)
]
apply_to_view (unlink_first p) v = some ([], View.unlink_first p v)

abbrev pub then_answers : Answers → Option (Answers × View Ptr) → Option (Answers × View Ptr)
then_answers r none = none
then_answers r (some (rs, v)) = some (r ++ rs, v)

-- `none` is an add through a dangling tail.
unfoldable pub run_on_view : List Operation → View Ptr → Option (Answers × View Ptr)
run_on_view [] v = some ([], v)
run_on_view (o ∷ os) v = elim (apply_to_view o v) [
  | none ↦ none
  | some (r, u) ↦ then_answers r (run_on_view os u)
]

-- The same in memory, where the item of a node that was taken out is its data.
abbrev pub or_list : LinkedList → Option LinkedList → LinkedList
or_list l none = l
or_list l (some l') = l'

unfoldable pub perform : ℕ → Operation → LinkedList → Cmd (Answers × LinkedList)
perform k (add_last fresh d) l = do l' ← Add.add_last fresh (some l) d; pure ([], or_list l l')
perform k remove_first l = do
  (p, l') ← Remove.remove_first (some l)
  if p == null
      then pure (none ∷ [], or_list l l')
      else (do n ← load p; pure (some n.payload ∷ [], or_list l l'))
perform k (unlink_first p) l = do
  l' ← unlink_loop (λ d m. ok (p d) m) free_node k l null l.head
  pure ([], l')

unfoldable pub run_in_memory : ℕ → List Operation → LinkedList → Cmd (Answers × LinkedList)
unfolding perform
run_in_memory k [] l = pure ([], l)
run_in_memory k (o ∷ os) l = do
  (r, l') ← perform k o l
  (rs, l'') ← run_in_memory k os l'
  pure (r ++ rs, l'')

-- `malloc` does not return NULL, nor a node that is allocated.
abbrev pub Allocates : Operation → Memory → Type 0
Allocates (add_last fresh d) m = (fresh ≢ null) × (m.nodes fresh ≡ none)
Allocates remove_first m = Unit {0}
Allocates (unlink_first p) m = Unit {0}

abbrev pub Afterwards : {A : Type 0} → (A → Memory → Type 0) → Run A → Type 0
Afterwards P (ok a m) = P a m
Afterwards P fault = Unit {0}
Afterwards P out_of_fuel = Unit {0}

-- At each operation of a run.
abbrev pub AllAllocate : ℕ → List Operation → LinkedList → Memory → Type 0
AllAllocate k [] l m = Unit {0}
AllAllocate k (o ∷ os) l m =
    Allocates o m × Afterwards (λ (r, l') g. AllAllocate k os l' g) (perform k o l m)
