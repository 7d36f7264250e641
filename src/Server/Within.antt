-- ===== src/Server/Within.antt =====
-- What holds of an outcome that did not run out of fuel.
use client_server_protocoale.Common.{
  ℕ, ℤ, List, Option, none, some, Bool, true, false, if◌then◌else◌,
}
use client_server_protocoale.Server.World.{
  World, Outcome, done, died, fault, out_of_fuel, Act, and_then, deref, die_if, Os, send, recv,
  accept, close, recvfrom, read, select,
}

abbrev pub Within : {S A : Type 0} → (A → Type 0) → Outcome S A → Type 0
Within P (done a w) = P a
Within P (died w) = Unit {0}
Within P fault = Unit {0}
Within P out_of_fuel = ⊥

-- It ends, in whatever way.
abbrev pub Settles : {S A : Type 0} → Outcome S A → Type 0
Settles r = Within (λ _. Unit {0}) r

module _ {S A B : Type 0} where
  pub bind-Within :
      (P : A → Type 0) (Q : B → Type 0) (r : Outcome S A) (k : A → Act S B)
      → Within P r
      → ((a : A) (w : World S) → P a → Within Q (k a w))
      → Within Q (and_then r k)
  bind-Within P Q (done a w) k p h = h a w p
  bind-Within P Q (died w) k p h = tt
  bind-Within P Q fault k p h = tt
  bind-Within P Q out_of_fuel k p h = p

  pub bind-Settles :
      (Q : B → Type 0) (r : Outcome S A) (k : A → Act S B)
      → Settles r
      → ((a : A) (w : World S) → Within Q (k a w))
      → Within Q (and_then r k)
  bind-Settles Q r k p h = bind-Within (λ _. Unit {0}) Q r k p (λ a w u. h a w)

module _ {S B : Type 0} where
  pub deref-Within :
      {A : Type 0} (Q : B → Type 0) (o : Option A) (k : A → Act S B) (w : World S)
      → ((a : A) → Within Q (k a w))
      → Within Q (and_then (deref o w) k)
  deref-Within Q none k w h = tt
  deref-Within Q (some a) k w h = h a

  pub if-Within :
      (Q : B → Type 0) (b : Bool) (x y : Act S B) (w : World S)
      → Within Q (x w)
      → Within Q (y w)
      → Within Q ((if b then x else y) w)
  if-Within Q true x y w hx hy = hx
  if-Within Q false x y w hx hy = hy

-- The same for a test that is read by `elim`.
pub elim-Within :
    {S B : Type 0} (Q : B → Type 0) (b : Bool) (x y : Act S B) (w : World S)
    → Within Q (x w)
    → Within Q (y w)
    → Within Q ((elim b as (λ _. Act S B) [ true ↦ x | false ↦ y ]) w)
elim-Within Q true x y w hx hy = hx
elim-Within Q false x y w hx hy = hy

pub assoc-Within :
    {S A B C : Type 0} (Q : C → Type 0) (r : Outcome S A) (f : A → Act S B) (k : B → Act S C)
    → Within Q (and_then r (λ a w. and_then (f a w) k))
    → Within Q (and_then (and_then r f) k)
assoc-Within Q (done a w) f k h = h
assoc-Within Q (died w) f k h = tt
assoc-Within Q fault f k h = tt
assoc-Within Q out_of_fuel f k h = h

pub die_if-Settles : {S : Type 0} (b : Bool) (w : World S) → Settles (die_if b w)
die_if-Settles true w = tt
die_if-Settles false w = tt

-- The calls of the operating system return.
module _ {S : Type 0} (os : Os S) where
  pub send-Settles : (sock : ℤ) (bytes : List ℕ) (w : World S) → Settles (send os sock bytes w)
  unfolding send
  send-Settles sock bytes w = tt

  pub recv-Settles : (sock : ℤ) (n : ℕ) (w : World S) → Settles (recv os sock n w)
  unfolding recv
  recv-Settles sock n w = tt

  pub accept-Settles : (sock : ℤ) (w : World S) → Settles (accept os sock w)
  unfolding accept
  accept-Settles sock w = tt

  pub close-Settles : (sock : ℤ) (w : World S) → Settles (close os sock w)
  unfolding close
  close-Settles sock w = tt

  pub recvfrom-Settles : (sock : ℤ) (n : ℕ) (w : World S) → Settles (recvfrom os sock n w)
  unfolding recvfrom
  recvfrom-Settles sock n w = tt

  pub read-Settles : (fd : ℤ) (n : ℕ) (w : World S) → Settles (read os fd n w)
  unfolding read
  read-Settles fd n w = tt

  pub select-Settles : (n : ℤ) (fds : ℤ → Bool) (w : World S) → Settles (select os n fds w)
  unfolding select
  select-Settles n fds w = tt
