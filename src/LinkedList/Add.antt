-- ===== src/LinkedList/Add.antt =====
-- LinkedList.c: `init_list` and the functions that add a node. `fresh` and `fresh_data` are what
-- the calls of `malloc` return. A list argument that is `none` is the NULL pointer.
use client_server_protocoale.Common.{
  ℕ, zero, suc, Option, none, some, ℤ, pos, inc, ltz, is_neg, pos_part, ◌==◌, leb, if◌then◌else◌,
  take, length,
}
use client_server_protocoale.LinkedList.Memory.{
  Ptr, null, LinkedList, Cmd, fault, pure, ◌>>=◌, ◌>>◌, load, malloc_node, set_payload, set_next,
  load_block, store_block,
}

-- `init_list`
unfoldable pub init_list : LinkedList
init_list = record { head = null; tail = null; size = pos 0 }

-- `while (n > 0) { prev = curr; curr = curr->next; --n; }`
unfoldable pub walk : ℕ → (prev curr : Ptr) → Cmd (Ptr × Ptr)
walk zero prev curr = pure (prev, curr)
walk (suc n) prev curr = do c ← load curr; walk n curr c.next

-- The last part of both functions: the node `fresh` is linked in between `prev` and `curr`.
unfoldable pub link_between : LinkedList → (prev curr fresh : Ptr) → Cmd (Option LinkedList)
link_between l prev curr fresh = do
  set_next fresh curr
  l' ← (if prev == null then pure (record l { head = fresh }) else (set_next prev fresh >> pure l))
  c ← load fresh
  let l'' = if c.next == null then record l' { tail = fresh } else l'
  pure (some (record l'' { size = inc l''.size }))

unfoldable pub insert_node : Ptr → LinkedList → ℕ → Ptr → Cmd (Option LinkedList)
insert_node fresh l n new_data = do
  (prev, curr) ← walk n null l.head
  malloc_node fresh
  if fresh == null
      then pure (some l)
      else (set_payload fresh new_data >> link_between l prev curr fresh)

unfoldable pub add_nth_node : Ptr → Option LinkedList → ℤ → Ptr → Cmd (Option LinkedList)
unfolding insert_node
add_nth_node fresh none n new_data = pure none
add_nth_node fresh (some l) n new_data =
    if ltz l.size n
    then insert_node fresh l (pos_part l.size) new_data
    else if is_neg n
    then pure (some l)
    else insert_node fresh l (pos_part n) new_data

-- `memcpy(dst, src, bytes)` from block to block; reading past the end of `src` is a fault.
unfoldable pub copy_block : (dst src : Ptr) → ℕ → Cmd (Unit {0})
copy_block dst src bytes = do
  b ← load_block src
  if leb bytes (length b) then store_block dst (take bytes b) else λ m. fault

insert_copy : (fresh fresh_data : Ptr) → LinkedList → ℕ → Ptr → ℕ → Cmd (Option LinkedList)
insert_copy fresh fresh_data l n new_data new_data_bytes = do
  (prev, curr) ← walk n null l.head
  malloc_node fresh
  if fresh == null then pure (some l) else (do
    set_payload fresh fresh_data
    copy_block fresh_data new_data new_data_bytes
    link_between l prev curr fresh)

unfoldable pub add_nth_node_improved :
    (fresh fresh_data : Ptr) → Option LinkedList → ℤ → Ptr → ℕ → Cmd (Option LinkedList)
unfolding insert_copy
add_nth_node_improved fresh fresh_data none n new_data new_data_bytes = pure none
add_nth_node_improved fresh fresh_data (some l) n new_data new_data_bytes =
    if ltz l.size n
    then insert_copy fresh fresh_data l (pos_part l.size) new_data new_data_bytes
    else if is_neg n
    then pure (some l)
    else insert_copy fresh fresh_data l (pos_part n) new_data new_data_bytes

-- The last part of `add_last` and `add_last_improved`, from `list->size++` on.
unfoldable pub link_last : LinkedList → Ptr → Cmd (Option LinkedList)
link_last l fresh = do
  l' ←
      (if l.head == null
        then pure (record l { head = fresh; tail = fresh; size = inc l.size })
        else (set_next l.tail fresh >> pure (record l { tail = fresh; size = inc l.size })))
  set_next fresh null
  pure (some l')

unfoldable pub add_last : Ptr → Option LinkedList → Ptr → Cmd (Option LinkedList)
unfolding link_last
add_last fresh none new_data = pure none
add_last fresh (some l) new_data = do
  malloc_node fresh
  set_payload fresh new_data
  link_last l fresh

unfoldable pub add_last_improved :
    (fresh fresh_data : Ptr) → Option LinkedList → Ptr → ℕ → Cmd (Option LinkedList)
unfolding link_last
add_last_improved fresh fresh_data none new_data new_data_bytes = pure none
add_last_improved fresh fresh_data (some l) new_data new_data_bytes = do
  malloc_node fresh
  set_payload fresh fresh_data
  copy_block fresh_data new_data new_data_bytes
  link_last l fresh
