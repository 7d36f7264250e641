-- ===== src/LinkedList/Unlink.antt =====
-- The removal by hand of server_util.c, on memory: the loop of `remove_by_id` and that of the
-- unsubscribe command, which differ in the test on a node's data and in what they free. The node
-- is unlinked, and neither `size` nor `tail` is updated.
use client_server_protocoale.Common.{
  ℕ, zero, suc, Bool, true, false, List, [], ◌∷◌, ◌==◌, if◌then◌else◌,
}
use client_server_protocoale.CString.{strncmp_eq}
use client_server_protocoale.LinkedList.Memory.{
  Ptr, null, LinkedList, Cmd, out_of_fuel, pure, ◌>>=◌, ◌>>◌, load, set_next, free_node, load_block,
  free_block,
}
use client_server_protocoale.LinkedList.Cells.{Cells}

module _ (test : Ptr → Cmd Bool) (dispose : Ptr → Cmd (Unit {0})) where
  -- The loop, from the node `curr` behind `prev`.
  unfoldable pub unlink_loop : ℕ → LinkedList → (prev curr : Ptr) → Cmd LinkedList
  unlink_loop zero l prev curr = λ m. out_of_fuel
  unlink_loop (suc k) l prev curr = elim (curr == null) [
    | true ↦ pure l
    | false ↦ do
      c ← load curr
      found ← test c.payload
      elim found [
        | true ↦
            if prev == null
            then (do h ← load l.head; dispose l.head; pure (record l { head = h.next }))
            else (do set_next prev c.next; dispose curr; pure l)
        | false ↦ unlink_loop k l curr c.next
      ]
  ]

-- `!strncmp(((client_structure *)curr->data)->id, id, ID_LEN)`: `id` is the structure's first field.
unfoldable pub has_id : List ℕ → Ptr → Cmd Bool
has_id id d = do b ← load_block d; pure (strncmp_eq 10 b id)

unfoldable pub remove_by_id : ℕ → List ℕ → LinkedList → Cmd LinkedList
remove_by_id fuel id l = unlink_loop (has_id id) free_node fuel l null l.head

-- The test and the clean-up of the unsubscribe command.
unfoldable pub has_topic : List ℕ → Ptr → Cmd Bool
has_topic topic d = do b ← load_block d; pure (strncmp_eq 50 b topic)

unfoldable pub free_both : Ptr → Cmd (Unit {0})
free_both p = do n ← load p; free_block n.payload; free_node p

unfoldable pub unsubscribe_topic : ℕ → List ℕ → LinkedList → Cmd LinkedList
unsubscribe_topic fuel topic l = unlink_loop (has_topic topic) free_both fuel l null l.head

-- The cells without the first that passes.
unfoldable pub erase_cell : (Ptr → Bool) → Cells → Cells
erase_cell p [] = []
erase_cell p ((a, d) ∷ xs) = if p d then xs else (a, d) ∷ erase_cell p xs

-- Its address, or NULL.
unfoldable pub found_addr : (Ptr → Bool) → Cells → Ptr
found_addr p [] = null
found_addr p ((a, d) ∷ xs) = if p d then a else found_addr p xs
