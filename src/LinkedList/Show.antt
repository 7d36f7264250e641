-- ===== src/LinkedList/Show.antt =====
-- LinkedList.c: `exist` and the two functions that print a list. A list argument that is `none` is
-- the NULL pointer; the fuel is for the loops over the nodes.
use client_server_protocoale.Common.{
  ℕ, zero, suc, ◌+◌, ◌-◌, ◌*◌, ◌^◌, Option, none, some, Bool, true, false, List, [], ◌∷◌, ℤ, pos,
  negsuc, ltb, leb, ◌==◌, eqz, if◌then◌else◌, length, take,
}
use client_server_protocoale.CString.{strlen}
use client_server_protocoale.LinkedList.Memory.{
  Ptr, null, LinkedList, Cmd, fault, out_of_fuel, pure, ◌>>=◌, load, load_block,
}

-- The number that bytes stand for, the lowest first.
unfoldable pub read_le : List ℕ → ℕ
read_le [] = 0
read_le (b ∷ bs) = b + 256 * read_le bs

-- `*(int64_t *)p`; a block of fewer than eight bytes is read past its end.
unfoldable pub load_int64 : Ptr → Cmd ℤ
load_int64 p = do
  b ← load_block p
  let n = read_le (take 8 b)
  if leb 8 (length b)
      then pure (if ltb n (2 ^ 63) then pos n else negsuc (2 ^ 64 - (n + 1)))
      else λ m. fault

-- The bytes of the string at `p`; one without a NUL is read past its end.
unfoldable pub load_string : Ptr → Cmd (List ℕ)
load_string p = do
  b ← load_block p
  if ltb (strlen b) (length b) then pure (take (strlen b) b) else λ m. fault

-- The loop of `exist`, from the node `curr`.
unfoldable pub exist_loop : ℕ → Ptr → Ptr → Cmd Bool
exist_loop zero new_data curr = λ m. out_of_fuel
exist_loop (suc k) new_data curr = elim (curr == null) [
  | true ↦ pure false
  | false ↦ do
    c ← load curr
    x ← load_int64 c.payload
    y ← load_int64 new_data
    elim (eqz x y) [ true ↦ pure true | false ↦ exist_loop k new_data c.next ]
]

unfoldable pub exist : ℕ → Option LinkedList → Ptr → Cmd Bool
exist fuel none new_data = pure false
exist fuel (some l) new_data = exist_loop fuel new_data l.head

-- What a call of `printf` writes: "%ld ", "%s " or "\n".
pub data Printed : Type 0 where
  long : ℤ → Printed
  text : List ℕ → Printed
  newline : Printed

module _ (read : Ptr → Cmd Printed) where
  -- The loop of both functions, from the node `curr`, and the newline behind it.
  unfoldable pub print_loop : ℕ → Ptr → Cmd (List Printed)
  print_loop zero curr = λ m. out_of_fuel
  print_loop (suc k) curr = elim (curr == null) [
    | true ↦ pure (newline ∷ [])
    | false ↦ do c ← load curr; x ← read c.payload; rest ← print_loop k c.next; pure (x ∷ rest)
  ]

unfoldable pub read_long : Ptr → Cmd Printed
read_long p = do z ← load_int64 p; pure (long z)

unfoldable pub read_text : Ptr → Cmd Printed
read_text p = do s ← load_string p; pure (text s)

unfoldable pub print_int64_t_linkedlist : ℕ → Option LinkedList → Cmd (List Printed)
print_int64_t_linkedlist fuel none = pure []
print_int64_t_linkedlist fuel (some l) = print_loop read_long fuel l.head

unfoldable pub print_string_linkedlist : ℕ → Option LinkedList → Cmd (List Printed)
print_string_linkedlist fuel none = pure []
print_string_linkedlist fuel (some l) = print_loop read_text fuel l.head
