-- ===== src/LinkedList/View.antt =====
-- A list as the server's components see it: the values in order, the field `size`, and whether
-- `tail` is left pointing at a freed node, as after a removal by hand in server_util.c.
use client_server_protocoale.Common.{
  Option, none, some, Bool, false, List, [], ◌∷◌, ◌++◌, ◌||◌, ℤ, pos, inc, dec, if◌then◌else◌,
}

pub record View {ℓ} (A : Type ℓ) : Type ℓ where
  pub items : List A
  pub size : ℤ
  pub dangling : Bool

module _ {ℓ} {A : Type ℓ} where
  -- `init_list`
  abbrev pub empty : View A
  empty = record { items = []; size = pos 0; dangling = false }

  unfoldable pub append_to : List A → View A → A → Option (View A)
  append_to [] v a = some (record { items = a ∷ []; size = inc v.size; dangling = false })
  append_to (x ∷ xs) v a =
      if v.dangling
      then none
      else some (record { items = x ∷ xs ++ a ∷ []; size = inc v.size; dangling = false })

  -- `add_last` and `add_last_improved`. `none` is a use of a `tail` whose node was freed, which C
  -- leaves undefined whatever `malloc` returns: the value of such a pointer is indeterminate.
  -- LinkedList/Dangling says what happens where pointers are plain addresses, and `malloc` may
  -- return the freed one again.
  unfoldable pub add_last : View A → A → Option (View A)
  unfolding append_to
  add_last v a = append_to v.items v a

  unfoldable pub rest_of : List A → View A → Option (A × View A)
  rest_of [] v = none
  rest_of (x ∷ []) v = some (x, record { items = []; size = dec v.size; dangling = false })
  rest_of (x ∷ y ∷ xs) v =
      some (x, record { items = y ∷ xs; size = dec v.size; dangling = v.dangling })

  -- `remove_first`; `none` is the NULL that it returns.
  unfoldable pub remove_first : View A → Option (A × View A)
  unfolding rest_of
  remove_first v = rest_of v.items v

  -- Takes out the first item that passes the test.
  unfoldable pub erase_first : (A → Bool) → List A → List A
  erase_first p [] = []
  erase_first p (x ∷ xs) = if p x then xs else x ∷ erase_first p xs

  -- The first item that passes is the last one.
  unfoldable pub last_hit : (A → Bool) → List A → Bool
  last_hit p [] = false
  last_hit p (x ∷ []) = p x
  last_hit p (x ∷ y ∷ xs) = if p x then false else last_hit p (y ∷ xs)

  -- The first item that passes is the last one, and not the only one.
  unfoldable pub hits_last : (A → Bool) → List A → Bool
  unfolding last_hit
  hits_last p [] = false
  hits_last p (x ∷ []) = false
  hits_last p (x ∷ y ∷ xs) = if p x then false else last_hit p (y ∷ xs)

  -- The removal by hand of server_util.c: neither `size` nor `tail` is updated.
  unfoldable pub unlink_first : (A → Bool) → View A → View A
  unlink_first p v = record {
    items = erase_first p v.items;
    size = v.size;
    dangling = v.dangling || hits_last p v.items;
  }
