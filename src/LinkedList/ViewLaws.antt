-- ===== src/LinkedList/ViewLaws.antt =====
-- A view's operations, at the items that it holds.
use client_server_protocoale.Common.{
  ◌≡◌, refl, ap, subst, none, some, true, false, Bool-cases, inl, inr, List, [], ◌∷◌, ◌++◌, ◌∙◌,
  inc, dec, arith,
}
use client_server_protocoale.LinkedList.View.{View, add_last, append_to, remove_first, rest_of}

module _ {ℓ} {A : Type ℓ} where
  rest_of-cons :
      (x : A) (xs : List A) (v : View A)
      → (q : View A) × (rest_of (x ∷ xs) v ≡ some (x, q)) × (q.items ≡ xs)
  unfolding rest_of
  rest_of-cons x [] v = (_, refl, refl)
  rest_of-cons x (y ∷ xs) v = (_, refl, refl)

  pub remove_first-cons :
      (x : A) (xs : List A) (v : View A)
      → v.items ≡ x ∷ xs
      → (q : View A) × (remove_first v ≡ some (x, q)) × (q.items ≡ xs)
  unfolding remove_first
  remove_first-cons x xs v e =
      let r = rest_of-cons x xs v in (r.0, ap (λ i. rest_of i v) e ∙ r.1, r.2)

  pub remove_first-nil : (v : View A) → v.items ≡ [] → remove_first v ≡ none
  unfolding remove_first
  remove_first-nil v e = ap (λ i. rest_of i v) e

  append_to_lem :
      (xs : List A) (v : View A) (a : A)
      → v.dangling ≡ false
      → append_to xs v a
        ≡ some (record { items = xs ++ a ∷ []; size = inc v.size; dangling = false })
  unfolding append_to
  append_to_lem [] v a e = refl
  append_to_lem (x ∷ xs) v a e = rw e

  -- With the tail in order the new item is the last.
  pub add_last-in_order :
      (v : View A) (a : A)
      → v.dangling ≡ false
      → add_last v a
        ≡ some (record { items = v.items ++ a ∷ []; size = inc v.size; dangling = false })
  unfolding add_last
  add_last-in_order v a e = append_to_lem v.items v a e

  append_to-some :
      (xs : List A) (v u : View A) (a : A)
      → append_to xs v a ≡ some u
      → (u.items ≡ xs ++ a ∷ []) × (u.dangling ≡ false) × (u.size ≡ inc v.size)
  unfolding append_to
  append_to-some [] v u a e =
      let new : record { items = a ∷ []; size = inc v.size; dangling = false } ≡ u = cc in
      subst (λ r. (r.items ≡ a ∷ []) × (r.dangling ≡ false) × (r.size ≡ inc v.size)) new
        (refl, refl, refl)
  append_to-some (x ∷ xs) v u a e = elim (Bool-cases v.dangling) [
    | inl d ↦ cc
    | inr d ↦
        let new : record { items = x ∷ xs ++ a ∷ []; size = inc v.size; dangling = false } ≡ u =
          ground arith in
        subst (λ r. (r.items ≡ x ∷ xs ++ a ∷ []) × (r.dangling ≡ false) × (r.size ≡ inc v.size)) new
          (refl, refl, refl)
  ]

  -- Whenever an add returns.
  pub add_last-some :
      (v u : View A) (a : A)
      → add_last v a ≡ some u
      → (u.items ≡ v.items ++ a ∷ []) × (u.dangling ≡ false) × (u.size ≡ inc v.size)
  unfolding add_last
  add_last-some v u a e = append_to-some v.items v u a e

  append_to-dangling :
      (x : A) (xs : List A) (v : View A) (a : A) → v.dangling ≡ true → append_to (x ∷ xs) v a ≡ none
  unfolding append_to
  append_to-dangling x xs v a d = rw d

  -- An add to a list that is not empty goes through its tail.
  pub add_last-cons :
      (x : A) (xs : List A) (v u : View A) (a : A)
      → v.items ≡ x ∷ xs
      → add_last v a ≡ some u
      → v.dangling ≡ false
  unfolding add_last
  add_last-cons x xs v u a items e = elim (Bool-cases v.dangling) [
    | inl d ↦
        let bad : append_to v.items v a ≡ none =
          ap (λ i. append_to i v a) items ∙ append_to-dangling x xs v a d in
        absurd (cc)
    | inr d ↦ d
  ]

  -- What is left behind one item, and behind several.
  pub remove_first-one :
      (x : A) (v : View A)
      → v.items ≡ x ∷ []
      → remove_first v ≡ some (x, record { items = []; size = dec v.size; dangling = false })
  unfolding remove_first rest_of
  remove_first-one x v e = ap (λ i. rest_of i v) e

  pub remove_first-more :
      (x y : A) (xs : List A) (v : View A)
      → v.items ≡ x ∷ y ∷ xs
      → remove_first v
        ≡ some (x, record { items = y ∷ xs; size = dec v.size; dangling = v.dangling })
  unfolding remove_first rest_of
  remove_first-more x y xs v e = ap (λ i. rest_of i v) e
