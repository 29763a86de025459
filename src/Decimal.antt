-- ===== src/Decimal.antt =====
-- Decimal numerals in byte strings and texts: Python's `%d` and `int()` on ASCII digits, and the
-- canonical form `0|[1-9][0-9]*` that the framing code accepts (aof.py and parser.py, `_COUNT`).
pub mod RoundTrip
pub mod Digits
use kedis_python.Prelude.{
  ℕ, zero, suc, ◌+◌, ◌-◌, ◌*◌, ◌/◌, ◌%◌, Bool, true, false, ◌&&◌, Option, none, some, List, [], ◌∷◌,
  ◌++◌, ltb, leb, ◌==◌, if◌then◌else◌, Bytes,
}

abbrev pub is_digit : ℕ → Bool
is_digit c = leb b'0' c && leb c b'9'

unfoldable pub all_digits : Bytes → Bool
all_digits [] = true
all_digits (c ∷ cs) = is_digit c && all_digits cs

-- `int(digits)`, read from the left.
unfoldable pub value_from : ℕ → Bytes → ℕ
value_from n [] = n
value_from n (c ∷ cs) = value_from (n * 10 + (c - b'0')) cs

-- `"%d" % n` for a natural number. The fuel exceeds the number, hence the count of its digits.
pub print_fuel : ℕ → ℕ → Bytes
print_fuel zero n = []
print_fuel (suc f) n =
    let rest = print_fuel f (n / 10) in
    if ltb n 10 then (b'0' + n) ∷ [] else rest ++ (b'0' + n % 10) ∷ []

unfoldable pub print : ℕ → Bytes
unfolding print_fuel
print n = print_fuel (suc n) n

-- `_COUNT.fullmatch(field)`.
unfoldable pub canonical : Bytes → Bool
unfolding all_digits
canonical [] = false
canonical (c ∷ []) = is_digit c
canonical (c ∷ d ∷ cs) = leb b'1' c && leb c b'9' && all_digits (d ∷ cs)

-- `int(field) if _COUNT.fullmatch(field) else None`.
unfoldable pub count : Bytes → Option ℕ
unfolding canonical value_from
count field = if canonical field then some (value_from 0 field) else none
