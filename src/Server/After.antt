-- ===== src/Server/After.antt =====
-- What holds of a result whenever there is one, whatever the system answers.
use client_server_protocoale.Common.{◌≡◌, Option, none, some, Bool, true, false, if◌then◌else◌}
use client_server_protocoale.Server.World.{
  World, Outcome, done, died, fault, out_of_fuel, Act, and_then, deref,
}

abbrev pub After : {S A : Type 0} → (A → Type 0) → Outcome S A → Type 0
After P (done a w) = P a
After P (died w) = Unit {0}
After P fault = Unit {0}
After P out_of_fuel = Unit {0}

module _ {S A B : Type 0} where
  -- A step of which nothing need be known.
  pub bind_any :
      (Q : B → Type 0) (r : Outcome S A) (k : A → Act S B)
      → ((a : A) (w : World S) → After Q (k a w))
      → After Q (and_then r k)
  bind_any Q (done a w) k h = h a w
  bind_any Q (died w) k h = tt
  bind_any Q fault k h = tt
  bind_any Q out_of_fuel k h = tt

  pub bind :
      (P : A → Type 0) (Q : B → Type 0) (r : Outcome S A) (k : A → Act S B)
      → After P r
      → ((a : A) (w : World S) → P a → After Q (k a w))
      → After Q (and_then r k)
  bind P Q (done a w) k p h = h a w p
  bind P Q (died w) k p h = tt
  bind P Q fault k p h = tt
  bind P Q out_of_fuel k p h = tt

module _ {S B : Type 0} where
  -- A pointer that is followed: the rest runs only where there is something behind it.
  pub bind_deref :
      {A : Type 0} (Q : B → Type 0) (o : Option A) (k : A → Act S B) (w : World S)
      → ((a : A) → o ≡ some a → After Q (k a w))
      → After Q (and_then (deref o w) k)
  bind_deref Q none k w h = tt
  bind_deref Q (some a) k w h = h a (λ i. some a)

  pub if_both :
      (Q : B → Type 0) (b : Bool) (x y : Act S B) (w : World S)
      → After Q (x w)
      → After Q (y w)
      → After Q ((if b then x else y) w)
  if_both Q true x y w hx hy = hx
  if_both Q false x y w hx hy = hy

-- Two binds are read from the left.
pub bind_assoc :
    {S A B C : Type 0} (Q : C → Type 0) (r : Outcome S A) (f : A → Act S B) (k : B → Act S C)
    → After Q (and_then r (λ a w. and_then (f a w) k))
    → After Q (and_then (and_then r f) k)
bind_assoc Q (done a w) f k h = h
bind_assoc Q (died w) f k h = tt
bind_assoc Q fault f k h = tt
bind_assoc Q out_of_fuel f k h = tt

pub After-mono :
    {S A : Type 0} (P Q : A → Type 0) (r : Outcome S A)
    → After P r
    → ((a : A) → P a → Q a)
    → After Q r
After-mono P Q (done a w) p h = h a p
After-mono P Q (died w) p h = tt
After-mono P Q fault p h = tt
After-mono P Q out_of_fuel p h = tt

-- The same for a test that is read by `elim`.
pub elim_both :
    {S B : Type 0} (Q : B → Type 0) (b : Bool) (x y : Act S B) (w : World S)
    → After Q (x w)
    → After Q (y w)
    → After Q ((elim b as (λ _. Act S B) [ true ↦ x | false ↦ y ]) w)
elim_both Q true x y w hx hy = hx
elim_both Q false x y w hx hy = hy
