-- ===== src/Subscriber/Power.antt =====
-- `my_pow`: powers of ten, as far as they fit an `int`.
use native.Mathlib.Nat.{pow-suc, one-le-pow, pow-le-pow_right}
use client_server_protocoale.Common.{
  ℕ, zero, suc, ◌*◌, ◌^◌, ◌≤◌, ◌<◌, ◌≡◌, ◌∙◌, ap, some, none, true, arith, leb, if◌then◌else◌,
  lt→ltb, ltb, Bool-cases, inl, inr,
}
use client_server_protocoale.Subscriber.Display.{my_pow, pow_loop}

step : (n res : ℕ) → res * 10 * 10 ^ n ≡ res * 10 ^ suc n
step n res = omega (arith, ap (λ (t : ℕ). res * t) (pow-suc 10 n))

pow_loop-fits : (n res : ℕ) → res * 10 ^ n < 2 ^ 31 → pow_loop n res ≡ some (res * 10 ^ n)
unfolding pow_loop
pow_loop-fits zero res h = ap some (omega arith)
pow_loop-fits (suc n) res h =
    let fits : ltb (res * 10) (2 ^ 31) ≡ true =
      lt→ltb (res * 10) (2 ^ 31) (grind (arith, step n res, one-le-pow n 10)) in
    rw fits (pow_loop-fits n (res * 10) (omega (arith, step n res)) ∙ ap some (step n res))

pow_loop-overflows : (n res : ℕ) → res < 2 ^ 31 → 2 ^ 31 ≤ res * 10 ^ n → pow_loop n res ≡ none
unfolding pow_loop
pow_loop-overflows zero res small h = absurd (omega arith)
pow_loop-overflows (suc n) res small h = elim (Bool-cases (ltb (res * 10) (2 ^ 31))) [
  | inl fits ↦ rw fits (pow_loop-overflows n (res * 10) (ground arith) (omega (arith, step n res)))
  | inr over ↦ rw over
]

pub my_pow-fits : (power : ℕ) → 10 ^ power < 2 ^ 31 → my_pow power ≡ some (10 ^ power)
unfolding my_pow
my_pow-fits power h = pow_loop-fits power 1 (omega arith) ∙ ap some (omega arith)

my_pow-overflows : (power : ℕ) → 2 ^ 31 ≤ 10 ^ power → my_pow power ≡ none
unfolding my_pow
my_pow-overflows power h = pow_loop-overflows power 1 (omega arith) (omega arith)

-- `my_pow` computes the power of ten for the powers up to 9, and for every other one a product of it
-- overflows an `int`.
pub my_pow_lem : (power : ℕ) → my_pow power ≡ (if leb power 9 then some (10 ^ power) else none)
my_pow_lem power = elim (Bool-cases (leb power 9)) [
  | inl small ↦
      let within : power ≤ 9 = ground arith in
      rw small (
        my_pow-fits power
          (omega (arith, pow-le-pow_right {n = 10} (omega arith) {i = power} {j = 9} within)))
  | inr large ↦
      let above : 10 ≤ power = ground arith in
      rw large (
        my_pow-overflows power
          (omega (arith, pow-le-pow_right {n = 10} (omega arith) {i = 10} {j = power} above)))
]
