-- ===== src/Examples/Lists.antt =====
-- A list of two nodes in memory, at the addresses 1 and 2.
use client_server_protocoale.Common.{
  ◌≡◌, refl, some, none, [], ◌∷◌, ◌++◌, pos, ℕ, Bool, ◌==◌, arith,
}
use client_server_protocoale.LinkedList.Memory.{
  out_of_fuel, Ptr, null, node, LinkedList, Memory, Cmd, ok, fault, write, Returns,
}
use client_server_protocoale.LinkedList.Cells.{Cells, IsList, ListAt, SameOutside}
use client_server_protocoale.LinkedList.Add.{add_last, add_last_improved}
use client_server_protocoale.LinkedList.AddLaws.{add_last_lem}
use client_server_protocoale.LinkedList.CopyLaws.{Copied, add_last_improved_lem}
use client_server_protocoale.LinkedList.Remove.{remove_first, free_list}
use client_server_protocoale.LinkedList.RemoveLaws.{remove_first_lem}
use client_server_protocoale.LinkedList.Memory.{free_node}
use client_server_protocoale.LinkedList.FreeLaws.{Freed, free_list_lem, unlink_loop-free_list}
use client_server_protocoale.LinkedList.Unlink.{unlink_loop, erase_cell}
use client_server_protocoale.LinkedList.UnlinkLaws.{Removed, unlink_loop-Removed}
use client_server_protocoale.LinkedList.Dangling.{
  Forgets, unlink_loop-add_last, unlink_loop-add_last_again,
}

abbrev pub memory : Memory
memory = record {
  nodes = write (write (λ a. none) 2 (some (node 20 null))) 1 (some (node 10 2));
  blocks = write (λ a. none) 10 (some (5 ∷ 6 ∷ 7 ∷ []));
}

abbrev pub cells : Cells
cells = (1, 10) ∷ (2, 20) ∷ []

abbrev pub list : LinkedList
list = record { head = 1; tail = 2; size = pos 2 }

pub list-IsList : IsList memory list cells
list-IsList = record {
  linked = (refl, (refl, tt));
  distinct = (omega arith, refl, (omega arith, refl, tt));
  head = refl;
  tail = refl;
  size = refl;
}

add_last_lem_example :
    Returns
      (λ l' g. ListAt g l' (cells ++ (3, 30) ∷ []) × SameOutside (cells ++ (3, 30) ∷ []) memory g)
      (add_last 3 (some list) 30 memory)
add_last_lem_example = add_last_lem memory list cells 3 30 list-IsList (omega arith) refl

add_last_improved_lem_example :
    Returns
      (λ l' g.
        ListAt g l' (cells ++ (3, 30) ∷ [])
        × Copied memory g (cells ++ (3, 30) ∷ []) 30 (5 ∷ 6 ∷ []))
      (add_last_improved 3 30 (some list) 10 2 memory)
add_last_improved_lem_example =
    add_last_improved_lem memory list cells 3 30 10 2 (5 ∷ 6 ∷ 7 ∷ []) list-IsList (omega arith)
      refl (omega arith) (omega arith) refl (omega arith)

remove_first_lem_example :
    Returns
      (λ (p, l') g. (p ≡ 1) × ListAt g l' ((2, 20) ∷ []) × (g ≡ memory))
      (remove_first (some list) memory)
remove_first_lem_example = remove_first_lem memory list (1, 10) ((2, 20) ∷ []) list-IsList

-- A test that looks at the data pointer alone.
abbrev pub is_20 : Ptr → Bool
is_20 d = d == 20

abbrev test_20 : Ptr → Cmd Bool
test_20 d m = ok (is_20 d) m

unlink_loop-Removed_example :
    Returns
      (Removed test_20 is_20 memory list cells)
      (unlink_loop test_20 free_node 3 list null 1 memory)
unlink_loop-Removed_example =
    unlink_loop-Removed test_20 is_20 memory 3 list cells list-IsList (refl, (refl, tt))
      (omega arith)

unlink_loop-add_last_example :
    Returns
      (λ l' g. add_last 3 (some l') 30 g ≡ fault)
      (unlink_loop test_20 free_node 3 list null 1 memory)
unlink_loop-add_last_example =
    unlink_loop-add_last test_20 is_20 memory list (1, 10) (2, 20) [] 3 3 30 list-IsList
      (refl, (refl, tt)) refl refl (omega arith) (omega arith) refl

free_list_lem_example :
    Returns (λ l' g. (l' ≡ none) × Freed memory cells g) (free_list 3 (some list) memory)
free_list_lem_example = free_list_lem 3 memory list cells list-IsList (omega arith)

-- A list of one node, at the address 2.
abbrev short_list : LinkedList
short_list = record { head = 2; tail = 2; size = pos 1 }

short_list-IsList : IsList memory short_list ((2, 20) ∷ [])
short_list-IsList = record {
  linked = (refl, tt);
  distinct = (omega arith, refl, tt);
  head = refl;
  tail = refl;
  size = refl;
}

unlink_loop-free_list_example :
    Returns
      (λ l' g. (n : ℕ) → free_list n (some l') g ≡ out_of_fuel)
      (unlink_loop test_20 free_node 2 short_list null 2 memory)
unlink_loop-free_list_example =
    unlink_loop-free_list test_20 is_20 memory short_list (2, 20) 2 short_list-IsList (refl, tt)
      refl (omega arith)

unlink_loop-add_last_again_example :
    Returns
      (λ l' g. Returns (Forgets ((1, 10) ∷ []) (pos 2)) (add_last 2 (some l') 30 g))
      (unlink_loop test_20 free_node 3 list null 1 memory)
unfolding erase_cell
unlink_loop-add_last_again_example =
    unlink_loop-add_last_again test_20 is_20 memory list (1, 10) (2, 20) [] 3 30 list-IsList
      (refl, (refl, tt)) refl refl (omega arith)
