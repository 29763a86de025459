-- ===== src/Decimal/Digits.antt =====
-- The digits of a printed number: how many there are, and that they are digits.
use native.Mathlib.Nat.{pow-suc}
use kedis_python.Prelude.{
  ℕ, zero, suc, ◌+◌, ◌*◌, ◌/◌, ◌%◌, ◌^◌, ◌≤◌, ◌<◌, ◌≡◌, refl, true, [], ◌∷◌, ltb, length,
  length-append, Bytes, All, All-append, arith, Bool-cases, inl, inr,
}
use kedis_python.Decimal.{is_digit, print_fuel, print, canonical}
use kedis_python.Decimal.RoundTrip.{canonical-print}

div-lt : (n m : ℕ) → n < m * 10 → n / 10 < m
div-lt n m h = omega arith

length-print_fuel : (f n k : ℕ) → n < 10 ^ suc k → length (print_fuel f n) ≤ suc k
unfolding print_fuel
length-print_fuel zero n k h = omega arith
length-print_fuel (suc f) n zero h =
    let small : ltb n 10 ≡ true = ground arith in rw small (omega arith)
length-print_fuel (suc f) n (suc k) h = elim (Bool-cases (ltb n 10)) [
  | inl e ↦ rw e (omega arith)
  | inr e ↦
      rw (e, length-append (print_fuel f (n / 10)) ((b'0' + n % 10) ∷ []))
        (omega (arith, length-print_fuel f (n / 10) k (div-lt n (10 ^ suc k) (rw pow-suc at h))))
]

All-is_digit-print_fuel : (f n : ℕ) → All (λ c. is_digit c ≡ true) (print_fuel f n)
unfolding print_fuel
All-is_digit-print_fuel zero n = tt
All-is_digit-print_fuel (suc f) n = elim (Bool-cases (ltb n 10)) [
  | inl e ↦ rw e (ground arith)
  | inr e ↦ rw e (
      All-append (λ c. is_digit c ≡ true) (print_fuel f (n / 10)) ((b'0' + n % 10) ∷ [])
        (All-is_digit-print_fuel f (n / 10)) (ground arith))
]

pub All-is_digit-print : (n : ℕ) → All (λ c. is_digit c ≡ true) (print n)
unfolding print
All-is_digit-print n = All-is_digit-print_fuel (suc n) n

-- A number below 10 ^ (k + 1) has at most k + 1 digits.
pub length-print-le : (n k : ℕ) → n < 10 ^ suc k → length (print n) ≤ suc k
unfolding print
length-print-le n k h = length-print_fuel (suc n) n k h

first_digit :
    (ds : Bytes)
    → canonical ds ≡ true
    → All (λ c. is_digit c ≡ true) ds
    → (d : ℕ) × (r : Bytes) × (ds ≡ d ∷ r) × (is_digit d ≡ true)
unfolding canonical
first_digit [] h k = ground arith
first_digit (d ∷ r) h k = (d, r, refl, k.0)

-- A printed number has a first digit.
pub print-cons : (n : ℕ) → (d : ℕ) × (r : Bytes) × (print n ≡ d ∷ r) × (is_digit d ≡ true)
print-cons n = first_digit (print n) (canonical-print n) (All-is_digit-print n)
