-- ===== src/Server/Descriptors.antt =====
-- The descriptors that are open, as the system keeps them, and what the server's calls do to them.
use client_server_protocoale.Common.{
  ℕ, ◌≡◌, ◌⊎◌, refl, Option, none, some, Bool, true, false, not, List, [], ◌∷◌, ℤ, pos, eqz, ltz,
  ◌==◌, if◌then◌else◌,
}
use client_server_protocoale.CString.{zeros, overlay}
use client_server_protocoale.LinkedList.View.{View}
use client_server_protocoale.Server.World.{
  Os, World, Outcome, done, died, fault, out_of_fuel, Act, and_then, deref, die_if, failed, type_of,
  send, recv, close,
}
use client_server_protocoale.Server.State.{ClientStructure}
use client_server_protocoale.Server.Send.{send_and_wait}
use client_server_protocoale.Server.Connect.{
  request_id, close_socket, close_loop, close_all_sockets,
}

-- What the system promises: only `accept` opens a descriptor, the lowest that is free, and a
-- descriptor is not open any more behind its `close`.
pub record Descriptors {S : Type 0} (os : Os S) (opened : S → ℤ → Bool) : Type 0 where
  pub send_opens :
      (s : S) (sock : ℤ) (bytes : List ℕ) (x : ℤ)
      → opened (os.send s sock bytes).1 x ≡ true
      → opened s x ≡ true
  pub recv_opens :
      (s : S) (sock : ℤ) (n : ℕ) (x : ℤ)
      → opened (os.recv s sock n).next x ≡ true
      → opened s x ≡ true
  pub recvfrom_opens :
      (s : S) (sock : ℤ) (n : ℕ) (x : ℤ)
      → opened (os.recvfrom s sock n).next x ≡ true
      → opened s x ≡ true
  pub read_opens :
      (s : S) (fd : ℤ) (n : ℕ) (x : ℤ) → opened (os.read s fd n).next x ≡ true → opened s x ≡ true
  pub close_opens :
      (s : S) (sock x : ℤ)
      → opened (os.close s sock) x ≡ true
      → (opened s x ≡ true) × (eqz x sock ≡ false)
  pub accept_opens :
      (s : S) (sock x : ℤ)
      → opened (os.accept s sock).next x ≡ true
      → (eqz x (os.accept s sock).ret ≡ true) ⊎ (opened s x ≡ true)
  pub accept_lowest :
      (s : S) (sock : ℤ) (n : ℕ)
      → opened s (pos n) ≡ false
      → ltz (pos n) (os.accept s sock).ret ≡ false

-- What holds of a result and of the world that it comes with.
abbrev pub Ending : {S A : Type 0} → (A → World S → Type 0) → Outcome S A → Type 0
Ending P (done a w) = P a w
Ending P (died w) = Unit {0}
Ending P fault = Unit {0}
Ending P out_of_fuel = Unit {0}

module _ {S A B : Type 0} where
  pub bind-Ending :
      (P : A → World S → Type 0) (Q : B → World S → Type 0) (r : Outcome S A) (k : A → Act S B)
      → Ending P r
      → ((a : A) (w : World S) → P a w → Ending Q (k a w))
      → Ending Q (and_then r k)
  bind-Ending P Q (done a w) k p h = h a w p
  bind-Ending P Q (died w) k p h = tt
  bind-Ending P Q fault k p h = tt
  bind-Ending P Q out_of_fuel k p h = tt

  pub deref-Ending :
      (Q : B → World S → Type 0) (o : Option A) (k : A → Act S B) (w : World S)
      → ((a : A) → o ≡ some a → Ending Q (k a w))
      → Ending Q (and_then (deref o w) k)
  deref-Ending Q none k w h = tt
  deref-Ending Q (some a) k w h = h a refl

  pub assoc-Ending :
      {C : Type 0} (Q : C → World S → Type 0) (r : Outcome S A) (f : A → Act S B) (k : B → Act S C)
      → Ending Q (and_then r (λ a w. and_then (f a w) k))
      → Ending Q (and_then (and_then r f) k)
  assoc-Ending Q (done a w) f k h = h
  assoc-Ending Q (died w) f k h = tt
  assoc-Ending Q fault f k h = tt
  assoc-Ending Q out_of_fuel f k h = tt

pub if-Ending :
    {S B : Type 0} (Q : B → World S → Type 0) (b : Bool) (x y : Act S B) (w : World S)
    → (b ≡ true → Ending Q (x w))
    → (b ≡ false → Ending Q (y w))
    → Ending Q ((if b then x else y) w)
if-Ending Q true x y w hx hy = hx refl
if-Ending Q false x y w hx hy = hy refl

-- A property of the system that the calls on open descriptors keep.
pub record Stable {S : Type 0} (os : Os S) (J : S → Type 0) : Type 0 where
  pub sends : (s : S) (sock : ℤ) (bytes : List ℕ) → J s → J (os.send s sock bytes).1
  pub receives : (s : S) (sock : ℤ) (n : ℕ) → J s → J (os.recv s sock n).next
  pub closes : (s : S) (sock : ℤ) → J s → J (os.close s sock)

module _ {S : Type 0} (os : Os S) (J : S → Type 0) (stable : Stable os J) where
  -- The system has the property behind the call.
  abbrev pub Steady : {A : Type 0} → Outcome S A → Type 0
  Steady r = Ending (λ a w. J w.system) r

  pub then-Steady :
      {A B : Type 0} (r : Outcome S A) (k : A → Act S B)
      → Steady r
      → ((a : A) (w : World S) → J w.system → Steady (k a w))
      → Steady (and_then r k)
  then-Steady r k p h = bind-Ending (λ a w. J w.system) (λ b w. J w.system) r k p h

  pub die_if-Steady : (b : Bool) (w : World S) → J w.system → Steady (die_if b w)
  die_if-Steady true w j = tt
  die_if-Steady false w j = j

  pub send-Steady :
      (sock : ℤ) (bytes : List ℕ) (w : World S) → J w.system → Steady (send os sock bytes w)
  unfolding send
  send-Steady sock bytes w j = stable.sends w.system sock bytes j

  pub recv-Steady : (sock : ℤ) (n : ℕ) (w : World S) → J w.system → Steady (recv os sock n w)
  unfolding recv
  recv-Steady sock n w j = stable.receives w.system sock n j

  pub send_and_wait-Steady :
      (sock : ℤ) (bytes : List ℕ) (len : ℕ) (w : World S)
      → J w.system
      → Steady (send_and_wait os sock bytes len w)
  unfolding send_and_wait
  send_and_wait-Steady sock bytes len w j =
      then-Steady _ _ (send-Steady sock bytes w j) (λ ret w1 j1.
        then-Steady _ _ (die_if-Steady (failed ret) w1 j1) (λ u w2 j2.
          then-Steady _ _ (recv-Steady sock len w2 j2) (λ (ret', answer) w3 j3.
            then-Steady _ _ (die_if-Steady (failed ret') w3 j3)
              (λ v w4 j4. die_if-Steady (not (type_of (overlay answer (zeros len)) == 4)) w4 j4))))

  pub request_id-Steady :
      (sock : ℤ) (junk buf : List ℕ) (w : World S)
      → J w.system
      → Steady (request_id os sock junk buf w)
  unfolding request_id
  request_id-Steady sock junk buf w j =
      then-Steady _ _ (send-Steady sock (5 ∷ junk) w j) (λ ret w1 j1.
        then-Steady _ _ (die_if-Steady (failed ret) w1 j1) (λ u w2 j2.
          then-Steady _ _ (recv-Steady sock 1551 w2 j2) (λ (ret', reply) w3 j3.
            then-Steady _ _ (die_if-Steady (failed ret') w3 j3) (λ v w4 j4.
              then-Steady _ _
                (die_if-Steady (not (type_of (overlay reply (overlay (5 ∷ junk) buf)) == 2)) w4 j4)
                (λ t w5 j5. j5)))))

  close_loop-Steady :
      (junk : List ℕ) (cs : List ClientStructure) (w : World S)
      → J w.system
      → Steady (close_loop os junk cs w)
  unfolding close_loop close_socket close
  close_loop-Steady junk [] w j = j
  close_loop-Steady junk (c ∷ cs) w j = assoc-Ending _ (send os c.sock (4 ∷ junk) w) _ _ (
      then-Steady _ _ (send-Steady c.sock (4 ∷ junk) w j) (λ ret w1 j1.
        assoc-Ending _ (recv os c.sock 1551 w1) _ _ (
          then-Steady _ _ (recv-Steady c.sock 1551 w1 j1) (λ (ret', answer) w2 j2.
            assoc-Ending _ (die_if (not (type_of (overlay answer (zeros 1551)) == 4)) w2) _ _ (
              then-Steady _ _
                (die_if-Steady (not (type_of (overlay answer (zeros 1551)) == 4)) w2 j2)
                (λ u w3 j3. close_loop-Steady junk cs _ (stable.closes w3.system c.sock j3)))))))

  pub close_all_sockets-Steady :
      (junk : List ℕ) (v : View ClientStructure) (w : World S)
      → J w.system
      → Steady (close_all_sockets os junk v w)
  unfolding close_all_sockets
  close_all_sockets-Steady junk v w j = close_loop-Steady junk v.items w j
