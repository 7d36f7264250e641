-- ===== src/Examples/Operations.antt =====
-- An add, a removal by hand and a `remove_first` on a list of two nodes.
use client_server_protocoale.Common.{◌≡◌, refl, some, List, [], ◌∷◌, pos, false, arith}
use client_server_protocoale.LinkedList.Memory.{Ptr, Returns}
use client_server_protocoale.LinkedList.View.{View}
use client_server_protocoale.LinkedList.Refine.{Represents}
use client_server_protocoale.LinkedList.Sequences.{
  Operation, add_last, remove_first, unlink_first, Answers, run_on_view, run_in_memory, AllAllocate,
}
use client_server_protocoale.LinkedList.SequenceLaws.{run_in_memory-Represents}
use client_server_protocoale.LinkedList.Cells.{ListAt, SameOutside}
use client_server_protocoale.LinkedList.Add.{add_nth_node}
use client_server_protocoale.LinkedList.InsertNth.{add_nth_node_lem}
use client_server_protocoale.LinkedList.View
use client_server_protocoale.LinkedList.Add
use client_server_protocoale.LinkedList.Remove
use client_server_protocoale.Examples.Lists.{memory, cells, list, list-IsList, is_20}

abbrev view : View Ptr
view = record { items = 10 ∷ 20 ∷ []; size = pos 2; dangling = false }

list-Represents : Represents memory list view
list-Represents = (
  cells,
  record {
    linked = list-IsList.linked;
    distinct = list-IsList.distinct;
    head = refl;
    items = refl;
    size = refl;
    tail = refl;
  },
)

abbrev operations : List Operation
operations = add_last 3 30 ∷ unlink_first is_20 ∷ remove_first ∷ []

-- One item is left, and a size of 2.
abbrev last_view : View Ptr
last_view = record { items = 30 ∷ []; size = pos 2; dangling = false }

operations-allocate : AllAllocate 6 operations list memory
unfolding client_server_protocoale.LinkedList.Sequences.perform Add.add_last
    client_server_protocoale.LinkedList.Memory.malloc_node
    client_server_protocoale.LinkedList.Memory.set_payload
    client_server_protocoale.LinkedList.Memory.set_next
    client_server_protocoale.LinkedList.Unlink.unlink_loop
    client_server_protocoale.LinkedList.Memory.free_node Remove.remove_first
operations-allocate = ((omega arith, refl), (tt, (tt, tt)))

operations-run : run_on_view operations view ≡ some (some 10 ∷ [], last_view)
unfolding run_on_view View.add_last View.remove_first View.unlink_first View.erase_first
    View.hits_last
operations-run = refl

run_in_memory-Represents_example :
    Returns
      (λ (rs, l') g. (rs ≡ some 10 ∷ []) × Represents g l' last_view)
      (run_in_memory 6 operations list memory)
run_in_memory-Represents_example =
    run_in_memory-Represents 6 operations memory list view last_view (some 10 ∷ []) list-Represents
      operations-allocate (omega arith) operations-run

-- Between the two nodes.
add_nth_node_lem_example :
    Returns
      (λ l' g.
        ListAt g l' ((1, 10) ∷ (3, 30) ∷ (2, 20) ∷ [])
        × SameOutside ((1, 10) ∷ (3, 30) ∷ (2, 20) ∷ []) memory g)
      (add_nth_node 3 (some list) (pos 1) 30 memory)
add_nth_node_lem_example = add_nth_node_lem memory list 3 30 1 cells list-IsList (omega arith) refl
