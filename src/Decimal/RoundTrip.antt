-- ===== src/Decimal/RoundTrip.antt =====
-- The canonical decimals are exactly the printed ones.
use kedis_python.Prelude.{
  ℕ, zero, suc, ◌+◌, ◌-◌, ◌*◌, ◌/◌, ◌%◌, ◌<◌, ◌≡◌, refl, ◌∙◌, true, some, [], ◌∷◌, ◌++◌, ltb, Bytes,
  arith, Bool-cases, inl, inr,
}
use kedis_python.Decimal.{is_digit, all_digits, value_from, print_fuel, print, canonical, count}

pub value_from-snoc :
    (n : ℕ) (cs : Bytes) (c : ℕ) → value_from n (cs ++ c ∷ []) ≡ value_from n cs * 10 + (c - b'0')
unfolding value_from
value_from-snoc n [] c = refl
value_from-snoc n (d ∷ cs) c = value_from-snoc (n * 10 + (d - b'0')) cs c

all_digits-snoc :
    (cs : Bytes) (c : ℕ)
    → all_digits cs ≡ true
    → is_digit c ≡ true
    → all_digits (cs ++ c ∷ []) ≡ true
unfolding all_digits
all_digits-snoc [] c h k = ground arith
all_digits-snoc (d ∷ cs) c h k = ground (arith, all_digits-snoc cs c)

value-print_fuel : (f n : ℕ) → n < f → value_from 0 (print_fuel f n) ≡ n
unfolding print_fuel value_from
value-print_fuel zero n h = absurd (omega arith)
value-print_fuel (suc f) n h = elim (Bool-cases (ltb n 10)) [
  | inl e ↦ rw e (ground arith)
  | inr e ↦ rw e (
      value_from-snoc 0 (print_fuel f (n / 10)) (b'0' + n % 10)
      ∙ ground (arith, value-print_fuel f (n / 10)))
]

-- A printed positive number is canonical and does not begin with a zero.
canonical-snoc :
    (cs : Bytes) (c : ℕ)
    → canonical cs ≡ true
    → 0 < value_from 0 cs
    → is_digit c ≡ true
    → canonical (cs ++ c ∷ []) ≡ true
unfolding canonical value_from
canonical-snoc [] c h p k = ground arith
canonical-snoc (d ∷ []) c h p k = ground arith
canonical-snoc (d ∷ e ∷ cs) c h p k = ground (arith, all_digits-snoc cs c)

canonical-print_fuel : (f n : ℕ) → n < f → canonical (print_fuel f n) ≡ true
unfolding print_fuel
canonical-print_fuel zero n h = absurd (omega arith)
canonical-print_fuel (suc f) n h = elim (Bool-cases (ltb n 10)) [
  | inl e ↦ rw e (unfold canonical in ground arith)
  | inr e ↦ rw e (
      canonical-snoc (print_fuel f (n / 10)) (b'0' + n % 10)
        (canonical-print_fuel f (n / 10) (ground arith))
        (ground (arith, value-print_fuel f (n / 10))) (ground arith))
]

pub canonical-print : (n : ℕ) → canonical (print n) ≡ true
unfolding print
canonical-print n = canonical-print_fuel (suc n) n (omega arith)

pub value-print : (n : ℕ) → value_from 0 (print n) ≡ n
unfolding print
value-print n = value-print_fuel (suc n) n (omega arith)

pub count-print : (n : ℕ) → count (print n) ≡ some n
unfolding count
count-print n = rw (canonical-print n, value-print n)
