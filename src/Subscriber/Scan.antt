-- ===== src/Subscriber/Scan.antt =====
-- What `sscanf` does with "%s" and "%d", as its manual page states it.
use client_server_protocoale.Common.{
  ℕ, zero, suc, ◌+◌, ◌-◌, ◌*◌, ◌%◌, ◌^◌, ◌≡◌, ◌≢◌, Option, none, some, Bool, true, false, ◌&&◌,
  ◌||◌, List, [], ◌∷◌, ◌++◌, ℤ, pos, negsuc, arith, leb, ◌==◌, if◌then◌else◌, refl, ap,
}

abbrev pub is_space : ℕ → Bool
is_space c = c == 32 || (leb 9 c && leb c 13)

unfoldable pub skip_space : List ℕ → List ℕ
skip_space [] = []
skip_space (c ∷ s) = if is_space c then skip_space s else c ∷ s

-- The bytes up to a space or the NUL.
unfoldable pub word : List ℕ → List ℕ
word [] = []
word (c ∷ s) = if (c == 0) || is_space c then [] else c ∷ word s

-- The word that "%s" stores; where it is empty nothing matches and nothing is stored.
unfoldable pub scan_word : List ℕ → List ℕ
scan_word s = word (skip_space s)

abbrev pub is_digit : ℕ → Bool
is_digit c = leb 48 c && leb c 57

unfoldable pub digits : ℕ → List ℕ → ℕ
digits n [] = n
digits n (c ∷ s) = let rest = digits (n * 10 + (c - 48)) s in if is_digit c then rest else n

-- A number as an `int`: `none` where it does not fit.
abbrev pub signed : Bool → ℕ → Option ℤ
signed true zero = some (pos 0)
signed true (suc n) = if leb (suc n) (2 ^ 31) then some (negsuc n) else none
signed false n = if leb n (2 ^ 31 - 1) then some (pos n) else none

-- `some none` where there is no digit.
unfoldable pub scan_number : Bool → List ℕ → Option (Option ℤ)
scan_number minus [] = some none
scan_number minus (c ∷ s) =
    if is_digit c
    then (elim (signed minus (digits 0 (c ∷ s))) [ none ↦ none | some z ↦ some (some z) ])
    else some none

scan_signed : List ℕ → Option (Option ℤ)
scan_signed [] = some none
scan_signed (c ∷ s) =
    if c == 45
    then scan_number true s
    else if c == 43
    then scan_number false s
    else scan_number false (c ∷ s)

-- The number that "%d" stores.
unfoldable pub scan_int : List ℕ → Option (Option ℤ)
unfolding scan_signed
scan_int s = scan_signed (skip_space s)

-- `(unsigned char)` of an `int`
unfoldable pub byte_of : ℤ → ℕ
byte_of (pos n) = n % 256
byte_of (negsuc n) = 255 - n % 256

-- A word as it is typed.
abbrev pub Plain : List ℕ → Type 0
Plain [] = Unit {0}
Plain (c ∷ s) = (c ≢ 0) × (is_space c ≡ false) × Plain s

pub word-append : (s rest : List ℕ) → Plain s → word (s ++ 32 ∷ rest) ≡ s
unfolding word
word-append [] rest h = refl
word-append (c ∷ s) rest h =
    let ne : (c == 0) ≡ false = ground arith in rw (ne, h.1) (ap (◌∷◌ c) (word-append s rest h.2))

-- A word between spaces.
pub scan_word-between :
    (c : ℕ) (s rest : List ℕ) → Plain (c ∷ s) → scan_word (32 ∷ c ∷ s ++ 32 ∷ rest) ≡ c ∷ s
unfolding scan_word skip_space
scan_word-between c s rest h = rw h.1 (word-append (c ∷ s) rest h)

-- A digit before a newline.
pub scan_int-digit :
    (d : ℕ) (rest : List ℕ) → leb d 9 ≡ true → scan_int ((48 + d) ∷ 10 ∷ rest) ≡ some (some (pos d))
unfolding scan_int scan_signed scan_number skip_space
scan_int-digit d rest small =
    let space : is_space (48 + d) ≡ false = ground arith in
    let minus : (48 + d == 45) ≡ false = ground arith in
    let plus : (48 + d == 43) ≡ false = ground arith in
    let digit : is_digit (48 + d) ≡ true = ground arith in
    let value : digits 0 ((48 + d) ∷ 10 ∷ rest) ≡ d = unfold digits in rw digit (omega arith) in
    let fits : leb d (2 ^ 31 - 1) ≡ true = ground arith in
    rw (space, scan_signed, minus, plus, digit, value, fits)
