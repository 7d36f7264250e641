-- ===== src/LinkedList/Remove.antt =====
-- LinkedList.c: the functions that take nodes out, `get_size` and the two that free a list.
use client_server_protocoale.Common.{
  ℕ, zero, suc, Option, none, some, ℤ, pos, minus_one, dec, ltz, is_neg, pos_part, ◌==◌,
  if◌then◌else◌, true, false,
}
use client_server_protocoale.LinkedList.Memory.{
  Ptr, null, LinkedList, Cmd, out_of_fuel, pure, ◌>>=◌, ◌>>◌, load, set_next, free_node, free_block,
}
use client_server_protocoale.LinkedList.Add.{walk}

-- Returns the node's address (NULL: there is none) and the updated list.
unfoldable pub remove_first : Option LinkedList → Cmd (Ptr × Option LinkedList)
remove_first none = pure (null, none)
remove_first (some l) = if l.head == null then pure (null, some l) else do
  first ← load l.head
  let l' = if first.next == null then record l { tail = null } else l
  pure (l.head, some (record l' { head = first.next; size = dec l.size }))

-- The part of `remove_nth_node` behind the guards.
unfoldable pub unlink_nth : LinkedList → ℕ → Cmd (Ptr × Option LinkedList)
unlink_nth l n = do
  (prev, curr) ← walk n null l.head
  c ← load curr
  if prev == null then pure (curr, some (record l { head = c.next; size = dec l.size })) else (do
    set_next prev c.next
    p ← load prev
    let l' = if p.next == null then record l { tail = prev } else l
    pure (curr, some (record l' { size = dec l'.size })))

unfoldable pub remove_nth_node : Option LinkedList → ℤ → Cmd (Ptr × Option LinkedList)
unfolding unlink_nth
remove_nth_node none n = pure (null, none)
remove_nth_node (some l) n =
    if l.head == null
    then pure (null, some l)
    else if ltz (dec l.size) n
    then unlink_nth l (pos_part (dec l.size))
    else if is_neg n
    then pure (null, some l)
    else unlink_nth l (pos_part n)

unfoldable pub get_size : Option LinkedList → ℤ
get_size none = minus_one
get_size (some l) = l.size

-- `while (get_size(pp_list) > 0)`. The list structure is freed behind it: `none`.
unfoldable pub free_loop : ℕ → Option LinkedList → Cmd (Option LinkedList)
unfolding get_size
free_loop zero l = λ m. out_of_fuel
free_loop (suc k) l = elim (ltz (pos 0) (get_size l)) [
  | true ↦ do (curr, l') ← remove_first l; free_node curr; free_loop k l'
  | false ↦ pure none
]

unfoldable pub free_list : ℕ → Option LinkedList → Cmd (Option LinkedList)
unfolding free_loop
free_list fuel none = pure none
free_list fuel (some l) = free_loop fuel (some l)

free_loop_improved : ℕ → Option LinkedList → Cmd (Option LinkedList)
unfolding get_size
free_loop_improved zero l = λ m. out_of_fuel
free_loop_improved (suc k) l = elim (ltz (pos 0) (get_size l)) [
  | true ↦ do
    (curr, l') ← remove_first l
    c ← load curr
    free_block c.payload
    free_node curr
    free_loop_improved k l'
  | false ↦ pure none
]

unfoldable pub free_list_improved : ℕ → Option LinkedList → Cmd (Option LinkedList)
unfolding free_loop_improved
free_list_improved fuel none = pure none
free_list_improved fuel (some l) = free_loop_improved fuel (some l)
