-- ===== src/CString.antt =====
-- The C library's functions on arrays of bytes, as their manual pages state them, as far as the
-- program uses their results. An array is the list of its bytes.
use client_server_protocoale.Common.{
  ℕ, zero, suc, ◌+◌, ◌-◌, ◌^◌, Option, none, some, Bool, true, false, ◌&&◌, ◌||◌, List, [], ◌∷◌,
  ◌++◌, ℤ, pos, negsuc, ◌==◌, leb, if◌then◌else◌, length, take, drop, replicate, ◌≡◌, ◌≢◌, ◌↔◌, ◌≤◌,
  subst, refl, sym, arith, take-append,
}

-- `strlen`. Where the array has no NUL this is the array's length: the call reads on behind the
-- array then, and its callers cut such a length down to the array's.
unfoldable pub strlen : List ℕ → ℕ
strlen [] = 0
strlen (c ∷ s) = if c == 0 then 0 else suc (strlen s)

-- `!strncmp(a, b, n)`
unfoldable pub strncmp_eq : ℕ → List ℕ → List ℕ → Bool
strncmp_eq zero a b = true
strncmp_eq (suc n) (x ∷ a) (y ∷ b) = (x == y) && ((x == 0) || strncmp_eq n a b)
strncmp_eq (suc n) (x ∷ a) [] = false
strncmp_eq (suc n) [] b = false

abbrev pub bytes_eq : List ℕ → List ℕ → Bool
bytes_eq [] [] = true
bytes_eq [] (y ∷ b) = false
bytes_eq (x ∷ a) [] = false
bytes_eq (x ∷ a) (y ∷ b) = (x == y) && bytes_eq a b

-- `!memcmp(a, b, n)`; `none` where `n` leads past the end of an array.
unfoldable pub memcmp_eq : ℕ → List ℕ → List ℕ → Option Bool
memcmp_eq n a b =
    if leb n (length a) && leb n (length b) then some (bytes_eq (take n a) (take n b)) else none

-- An `int` as the `size_t` that such a call is handed.
unfoldable pub size_of_int : ℤ → ℕ
size_of_int (pos n) = n
size_of_int (negsuc n) = 2 ^ 64 - (n + 1)

-- `memset(buf, 0, n)`, and a write of `bytes` at the front of a buffer
abbrev pub zeros : ℕ → List ℕ
zeros n = replicate n 0

abbrev pub overlay : List ℕ → List ℕ → List ℕ
overlay bytes buf = bytes ++ drop (length bytes) buf

-- A string with no NUL in it.
abbrev pub NoNul : List ℕ → Type 0
NoNul [] = Unit {0}
NoNul (c ∷ s) = (c ≢ 0) × NoNul s

-- `strlen` and the string itself end at the first NUL.
pub strlen-append : (s rest : List ℕ) → NoNul s → strlen (s ++ 0 ∷ rest) ≡ length s
unfolding strlen
strlen-append [] rest h = refl
strlen-append (c ∷ s) rest h = ground (arith, strlen-append s rest h.1)

pub take-strlen : (s rest : List ℕ) → NoNul s → take (strlen (s ++ 0 ∷ rest)) (s ++ 0 ∷ rest) ≡ s
take-strlen s rest h =
    take-append (strlen (s ++ 0 ∷ rest)) s (0 ∷ rest) (sym (strlen-append s rest h))

pub bytes_eq_iff : (a b : List ℕ) → (bytes_eq a b ≡ true) ↔ (a ≡ b)
bytes_eq_iff a b = (sound a b, λ e. subst (λ c. bytes_eq a c ≡ true) e (bytes_eq_refl a))
  where
    bytes_eq_refl : (a : List ℕ) → bytes_eq a a ≡ true
    bytes_eq_refl [] = refl
    bytes_eq_refl (x ∷ a) = ground (arith, bytes_eq_refl a)

    sound : (a b : List ℕ) → bytes_eq a b ≡ true → a ≡ b
    sound [] [] e = refl
    sound [] (y ∷ b) e = cc
    sound (x ∷ a) [] e = cc
    sound (x ∷ a) (y ∷ b) e = ground (arith, sound a b)

-- With no NUL among the first `length s` bytes, `strncmp` compares them all.
pub strncmp_eq_iff :
    (s a rest : List ℕ)
    → NoNul s
    → length s ≤ length a
    → (strncmp_eq (length s) a (s ++ rest) ≡ true) ↔ (take (length s) a ≡ s)
unfolding strncmp_eq
strncmp_eq_iff [] a rest plain h = (λ e. refl, λ e. refl)
strncmp_eq_iff (c ∷ s) [] rest plain h = absurd (omega arith)
strncmp_eq_iff (c ∷ s) (x ∷ a) rest plain h =
    let ih = strncmp_eq_iff s a rest plain.1 (omega arith) in
    (λ e. ground (arith, ih.0), λ e. ground (arith, ih.1))
