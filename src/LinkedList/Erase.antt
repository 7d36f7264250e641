-- ===== src/LinkedList/Erase.antt =====
-- The cells behind a removal by hand, as the items of a view.
use client_server_protocoale.Common.{
  ◌≡◌, refl, ap, ◌∙◌, Bool, true, false, List, [], ◌∷◌, sym, arith, Bool-cases, inl, inr,
}
use client_server_protocoale.LinkedList.Memory.{Ptr}
use client_server_protocoale.LinkedList.Cells.{Cells, has, last, Distinct, TailOf}
use client_server_protocoale.LinkedList.View.{erase_first, last_hit, hits_last}
use client_server_protocoale.LinkedList.Unlink.{erase_cell, found_addr}

-- The data pointers of the cells.
abbrev pub payloads : Cells → List Ptr
payloads [] = []
payloads ((a, d) ∷ xs) = d ∷ payloads xs

module _ (p : Ptr → Bool) where
  pub payloads-erase_cell : (xs : Cells) → payloads (erase_cell p xs) ≡ erase_first p (payloads xs)
  unfolding erase_cell erase_first
  payloads-erase_cell [] = refl
  payloads-erase_cell ((a, d) ∷ xs) = elim (Bool-cases (p d)) [
    | inl hit ↦ rw hit refl
    | inr miss ↦ rw miss (ap (◌∷◌ d) (payloads-erase_cell xs))
  ]

  has-erase_cell : (a : Ptr) (xs : Cells) → has a xs ≡ false → has a (erase_cell p xs) ≡ false
  unfolding erase_cell
  has-erase_cell a [] out = refl
  has-erase_cell a ((b, d) ∷ xs) out = elim (Bool-cases (p d)) [
    | inl hit ↦ rw hit (ground arith)
    | inr miss ↦ rw miss (ground (arith, has-erase_cell a xs))
  ]

  pub Distinct-erase_cell : (xs : Cells) → Distinct xs → Distinct (erase_cell p xs)
  unfolding erase_cell
  Distinct-erase_cell [] h = tt
  Distinct-erase_cell ((a, d) ∷ xs) h = elim (Bool-cases (p d)) [
    | inl hit ↦ rw hit h.2
    | inr miss ↦ rw miss (h.0, has-erase_cell a xs h.1, Distinct-erase_cell xs h.2)
  ]

  last-erase_cell :
      (x y : Ptr × Ptr) (xs : Cells)
      → last_hit p (payloads (y ∷ xs)) ≡ false
      → last x (erase_cell p (y ∷ xs)) ≡ last y xs
  unfolding erase_cell last_hit
  last-erase_cell x (a, d) [] h = rw h refl
  last-erase_cell x (a, d) (z ∷ xs) h = elim (Bool-cases (p d)) [
    | inl hit ↦ rw hit refl
    | inr miss ↦
        let later : last_hit p (payloads (z ∷ xs)) ≡ false = ground arith in
        rw miss (last-erase_cell (a, d) z xs later)
  ]

  -- Where the last cell stays it is the last one still.
  pub TailOf-erase_cell :
      (t : Ptr) (xs : Cells)
      → hits_last p (payloads xs) ≡ false
      → TailOf t xs
      → TailOf t (erase_cell p xs)
  unfolding erase_cell hits_last
  TailOf-erase_cell t [] h at = tt
  TailOf-erase_cell t ((a, d) ∷ []) h at = elim (Bool-cases (p d)) [
    | inl hit ↦ rw hit tt
    | inr miss ↦ rw miss at
  ]
  TailOf-erase_cell t ((a, d) ∷ y ∷ xs) h at = elim (Bool-cases (p d)) [
    | inl hit ↦ rw hit at
    | inr miss ↦
        let later : last_hit p (payloads (y ∷ xs)) ≡ false = ground arith in
        rw miss (at ∙ ap (λ (c : Ptr × Ptr). c.0) (sym (last-erase_cell (a, d) y xs later)))
  ]

  found_addr-last_hit :
      (y : Ptr × Ptr) (xs : Cells)
      → last_hit p (payloads (y ∷ xs)) ≡ true
      → found_addr p (y ∷ xs) ≡ (last y xs).0
  unfolding found_addr last_hit
  found_addr-last_hit (a, d) [] h = rw h refl
  found_addr-last_hit (a, d) (z ∷ xs) h = elim (Bool-cases (p d)) [
    | inl hit ↦ absurd (ground arith)
    | inr miss ↦
        let later : last_hit p (payloads (z ∷ xs)) ≡ true = ground arith in
        rw miss (found_addr-last_hit z xs later)
  ]

  -- Where it goes, its address is the one that was found.
  pub found_addr-hits_last :
      (x : Ptr × Ptr) (xs : Cells)
      → hits_last p (payloads (x ∷ xs)) ≡ true
      → found_addr p (x ∷ xs) ≡ (last x xs).0
  unfolding found_addr hits_last
  found_addr-hits_last (a, d) [] h = absurd (cc)
  found_addr-hits_last (a, d) (y ∷ xs) h = elim (Bool-cases (p d)) [
    | inl hit ↦ absurd (ground arith)
    | inr miss ↦
        let later : last_hit p (payloads (y ∷ xs)) ≡ true = ground arith in
        rw miss (found_addr-last_hit y xs later)
  ]
