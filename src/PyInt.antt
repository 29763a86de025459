-- ===== src/PyInt.antt =====
-- Python's `int(text)` for a `str`: surrounding white space, a sign, decimal digits of any script
-- (Unicode 14), single underscores between digits, and the limit of 4300 digits.
use kedis_python.Prelude.{
  ℕ, ◌+◌, ◌-◌, ◌*◌, Bool, true, false, ◌&&◌, ◌||◌, Option, none, some, List, [], ◌∷◌, ltb, leb,
  ◌==◌, if◌then◌else◌, Text, ℤ, pos, negsuc,
}
use mathlib.Core.List.{reverse}
use kedis_python.Words.{is_space}

abbrev pub max_digits : ℕ
max_digits = 4300

-- The zeros of the decimal digits beyond ASCII.
zeros : List ℕ
zeros =
    0x660 ∷ 0x6F0 ∷ 0x7C0 ∷ 0x966 ∷ 0x9E6 ∷ 0xA66 ∷ 0xAE6 ∷ 0xB66 ∷ 0xBE6 ∷ 0xC66 ∷ 0xCE6 ∷ 0xD66
    ∷ 0xDE6 ∷ 0xE50 ∷ 0xED0 ∷ 0xF20 ∷ 0x1040 ∷ 0x1090 ∷ 0x17E0 ∷ 0x1810 ∷ 0x1946 ∷ 0x19D0 ∷ 0x1A80
    ∷ 0x1A90 ∷ 0x1B50 ∷ 0x1BB0 ∷ 0x1C40 ∷ 0x1C50 ∷ 0xA620 ∷ 0xA8D0 ∷ 0xA900 ∷ 0xA9D0 ∷ 0xA9F0
    ∷ 0xAA50 ∷ 0xABF0 ∷ 0xFF10 ∷ 0x104A0 ∷ 0x10D30 ∷ 0x11066 ∷ 0x110F0 ∷ 0x11136 ∷ 0x111D0 ∷ 0x112F0
    ∷ 0x11450 ∷ 0x114D0 ∷ 0x11650 ∷ 0x116C0 ∷ 0x11730 ∷ 0x118E0 ∷ 0x11950 ∷ 0x11C50 ∷ 0x11D50
    ∷ 0x11DA0 ∷ 0x16A60 ∷ 0x16AC0 ∷ 0x16B50 ∷ 0x1D7CE ∷ 0x1D7D8 ∷ 0x1D7E2 ∷ 0x1D7EC ∷ 0x1D7F6
    ∷ 0x1E140 ∷ 0x1E2F0 ∷ 0x1E950 ∷ 0x1FBF0 ∷ []

digit_of : List ℕ → ℕ → Option ℕ
digit_of [] c = none
digit_of (z ∷ zs) c = if leb z c && leb c (z + 9) then some (b'0' + (c - z)) else digit_of zs c

-- Beyond ASCII, white space becomes a blank, a digit its ASCII digit, and all else a "?".
to_ascii : ℕ → ℕ
to_ascii c =
    if ltb c 127
    then c
    else if is_space c
    then b' '
    else (elim (digit_of zeros c) [ none ↦ b'?' | some d ↦ d ])

all_ascii : Text → Text
all_ascii [] = []
all_ascii (c ∷ s) = to_ascii c ∷ all_ascii s

is_blank : ℕ → Bool
is_blank c = leb 9 c && leb c 13 || c == 32

lstrip : Text → Text
lstrip [] = []
lstrip (c ∷ s) = if is_blank c then lstrip s else c ∷ s

-- Digits with single underscores between them: whether a digit stands in front, how many digits
-- there were, and their value.
read_digits : Bool → ℕ → ℕ → Text → Option ℕ
read_digits true n value [] = if ltb max_digits n then none else some value
read_digits false n value [] = none
read_digits after_digit n value (c ∷ s) = elim (leb b'0' c && leb c b'9') [
  | true ↦ read_digits true (n + 1) (value * 10 + (c - b'0')) s
  | false ↦ elim (c == b'_' && after_digit) [ true ↦ read_digits false n value s | false ↦ none ]
]

negate : ℕ → ℤ
negate n = if n == 0 then pos 0 else negsuc (n - 1)

signed : Text → Option ℤ
signed [] = none
signed (c ∷ s) =
    if c == b'-'
    then (elim (read_digits false 0 0 s) [ none ↦ none | some n ↦ some (negate n) ])
    else if c == b'+'
    then (elim (read_digits false 0 0 s) [ none ↦ none | some n ↦ some (pos n) ])
    else (elim (read_digits false 0 0 (c ∷ s)) [ none ↦ none | some n ↦ some (pos n) ])

-- `int(text)`, with `none` for ValueError.
unfoldable pub int_of : Text → Option ℤ
unfolding zeros digit_of to_ascii all_ascii is_blank lstrip read_digits negate signed is_space
int_of text = signed (reverse (lstrip (reverse (lstrip (all_ascii text)))))
