-- ===== src/LinkedList/ShowLaws.antt =====
-- `exist` and the functions that print, on a list that is in order.
use client_server_protocoale.Common.{
  ℕ, zero, suc, ◌<◌, ◌≡◌, refl, ap, ◌∙◌, some, Bool, true, false, ◌||◌, List, [], ◌∷◌, ℤ, eqz,
  arith, length, Bool-cases, inl, inr,
}
use client_server_protocoale.LinkedList.Memory.{Ptr, null, node, LinkedList, Memory, Cmd, ok, pure}
use client_server_protocoale.LinkedList.Cells.{Cells, first, Linked, Distinct, IsList}
use client_server_protocoale.LinkedList.Steps.{load-ok, not_null}
use client_server_protocoale.LinkedList.Show.{
  Printed, newline, load_int64, exist_loop, exist, print_loop, read_long, read_text,
  print_int64_t_linkedlist, print_string_linkedlist,
}

-- The data of each cell can be read, and is what `f` says.
abbrev pub Reads : {A : Type 0} → (Ptr → Cmd A) → (Ptr → A) → Memory → Cells → Type 0
Reads read f m [] = Unit {0}
Reads read f m ((a, d) ∷ xs) = (read d m ≡ ok (f d) m) × Reads read f m xs

-- Some cell's data is the number.
abbrev pub holds_int : (Ptr → ℤ) → ℤ → Cells → Bool
holds_int f z [] = false
holds_int f z ((a, d) ∷ xs) = eqz (f d) z || holds_int f z xs

-- What is printed for the cells.
abbrev pub printed : (Ptr → Printed) → Cells → List Printed
printed f [] = newline ∷ []
printed f ((a, d) ∷ xs) = f d ∷ printed f xs

module _ (m : Memory) where
  print_loop-printed :
      (read : Ptr → Cmd Printed) (f : Ptr → Printed) (k : ℕ) (xs : Cells)
      → Linked m.nodes xs null
      → Distinct xs
      → Reads read f m xs
      → length xs < k
      → print_loop read k (first xs null) m ≡ ok (printed f xs) m
  unfolding print_loop
  print_loop-printed read f zero xs chain apart reads fuel = absurd (omega arith)
  print_loop-printed read f (suc k) [] chain apart reads fuel = refl
  print_loop-printed read f (suc k) ((a, d) ∷ xs) chain apart reads fuel =
      rw
        (
          not_null a apart.0,
          print_loop,
          load-ok m a (node d (first xs null)) (not_null a apart.0) chain.0,
          reads.0,
          print_loop-printed read f k xs chain.1 apart.2 reads.1 (omega arith),
        )
        refl

  exist_loop-holds :
      (f : Ptr → ℤ) (z : ℤ) (new_data : Ptr) (k : ℕ) (xs : Cells)
      → load_int64 new_data m ≡ ok z m
      → Linked m.nodes xs null
      → Distinct xs
      → Reads load_int64 f m xs
      → length xs < k
      → exist_loop k new_data (first xs null) m ≡ ok (holds_int f z xs) m
  unfolding exist_loop
  exist_loop-holds f z new_data zero xs given chain apart reads fuel = absurd (omega arith)
  exist_loop-holds f z new_data (suc k) [] given chain apart reads fuel = refl
  exist_loop-holds f z new_data (suc k) ((a, d) ∷ xs) given chain apart reads fuel =
      let found : Bool → Cmd Bool =
        λ b. elim b [ true ↦ pure true | false ↦ exist_loop k new_data (first xs null) ] in
      rw
        (
          not_null a apart.0,
          exist_loop,
          load-ok m a (node d (first xs null)) (not_null a apart.0) chain.0,
          reads.0,
          given,
        )
        (elim (Bool-cases (eqz (f d) z)) [
          | inl hit ↦ rw hit (ap (λ b. found b m) hit)
          | inr miss ↦ rw miss (
              ap (λ b. found b m) miss
              ∙ exist_loop-holds f z new_data k xs given chain.1 apart.2 reads.1 (omega arith))
        ])

  -- On a list in order whose data are numbers, with fuel for its nodes, `exist` ends and says
  -- whether one of them is the number that it is given; the memory is unchanged.
  exist_lem :
      (l : LinkedList) (xs : Cells) (f : Ptr → ℤ) (z : ℤ) (new_data : Ptr) (k : ℕ)
      → IsList m l xs
      → load_int64 new_data m ≡ ok z m
      → Reads load_int64 f m xs
      → length xs < k
      → exist k (some l) new_data m ≡ ok (holds_int f z xs) m
  unfolding exist
  exist_lem l xs f z new_data k is given reads fuel =
      ap (λ h. exist_loop k new_data h m) is.head
      ∙ exist_loop-holds f z new_data k xs given is.linked is.distinct reads fuel

  -- The numbers are printed in order, and a newline.
  print_int64_t_linkedlist_lem :
      (l : LinkedList) (xs : Cells) (f : Ptr → Printed) (k : ℕ)
      → IsList m l xs
      → Reads read_long f m xs
      → length xs < k
      → print_int64_t_linkedlist k (some l) m ≡ ok (printed f xs) m
  unfolding print_int64_t_linkedlist
  print_int64_t_linkedlist_lem l xs f k is reads fuel =
      ap (λ h. print_loop read_long k h m) is.head
      ∙ print_loop-printed read_long f k xs is.linked is.distinct reads fuel

  -- The same for strings.
  print_string_linkedlist_lem :
      (l : LinkedList) (xs : Cells) (f : Ptr → Printed) (k : ℕ)
      → IsList m l xs
      → Reads read_text f m xs
      → length xs < k
      → print_string_linkedlist k (some l) m ≡ ok (printed f xs) m
  unfolding print_string_linkedlist
  print_string_linkedlist_lem l xs f k is reads fuel =
      ap (λ h. print_loop read_text k h m) is.head
      ∙ print_loop-printed read_text f k xs is.linked is.distinct reads fuel
