-- ===== src/Utf8.antt =====
-- Python's UTF-8 codec, as far as the engine uses it: one decoding step, which knows the extent of
-- an invalid sequence as the codec reports it, and the error handlers "surrogateescape" and
-- "surrogatepass".
pub mod Step
pub mod RoundTrip
use mathlib.Core.Option
use kedis_python.Prelude.{
  ℕ, zero, suc, ◌+◌, ◌-◌, ◌*◌, ◌/◌, ◌%◌, Bool, true, false, ◌&&◌, ◌||◌, Option, none, some, List,
  [], ◌∷◌, ◌++◌, map, ltb, leb, ◌==◌, if◌then◌else◌, take, Bytes, Text,
}

-- What stands at the front of a byte string: a character of `n` bytes, or `n` bytes that the codec
-- reports as one error.
pub data Unit8 : Type 0 where
  char : ℕ → ℕ → Unit8
  bad : ℕ → Unit8

abbrev pub is_continuation : ℕ → Bool
is_continuation b = leb 0x80 b && ltb b 0xC0

-- The second byte that may follow a lead byte of three, or of four bytes.
abbrev pub second_of_three : ℕ → ℕ → Bool
second_of_three a b =
    is_continuation b && (if a == 0xE0 then leb 0xA0 b else if a == 0xED then ltb b 0xA0 else true)

abbrev pub second_of_four : ℕ → ℕ → Bool
second_of_four a b =
    is_continuation b && (if a == 0xF0 then leb 0x90 b else if a == 0xF4 then ltb b 0x90 else true)

abbrev pub two : ℕ → ℕ → ℕ
two a b = (a - 0xC0) * 64 + (b - 0x80)

abbrev pub three : ℕ → ℕ → ℕ → ℕ
three a b c = (a - 0xE0) * 4096 + (b - 0x80) * 64 + (c - 0x80)

abbrev pub four : ℕ → ℕ → ℕ → ℕ → ℕ
four a b c d = (a - 0xF0) * 262144 + (b - 0x80) * 4096 + (c - 0x80) * 64 + (d - 0x80)

unfoldable pub step_two : ℕ → Bytes → Unit8
step_two a [] = bad 1
step_two a (b ∷ _) = if is_continuation b then char (two a b) 2 else bad 1

unfoldable pub step_three : ℕ → Bytes → Unit8
step_three a [] = bad 1
step_three a (b ∷ []) = if second_of_three a b then bad 2 else bad 1
step_three a (b ∷ c ∷ _) =
    if second_of_three a b
    then (if is_continuation c then char (three a b c) 3 else bad 2)
    else bad 1

unfoldable pub step_four : ℕ → Bytes → Unit8
step_four a [] = bad 1
step_four a (b ∷ []) = if second_of_four a b then bad 2 else bad 1
step_four a (b ∷ c ∷ []) =
    if second_of_four a b then (if is_continuation c then bad 3 else bad 2) else bad 1
step_four a (b ∷ c ∷ d ∷ _) =
    if second_of_four a b
    then (if is_continuation c
        then (if is_continuation d then char (four a b c d) 4 else bad 3)
        else bad 2)
    else bad 1

-- The step at lead byte `a`, with what follows it.
unfoldable pub step : ℕ → Bytes → Unit8
step a r =
    if ltb a 0x80
    then char a 1
    else if ltb a 0xC2
    then bad 1
    else if ltb a 0xE0
    then step_two a r
    else if ltb a 0xF0
    then step_three a r
    else if ltb a 0xF5
    then step_four a r
    else bad 1

-- The bytes of one code point, a surrogate as if it were a character.
unfoldable pub encode_char : ℕ → Bytes
encode_char c =
    if ltb c 0x80
    then c ∷ []
    else if ltb c 0x800
    then (0xC0 + c / 64) ∷ (0x80 + c % 64) ∷ []
    else if ltb c 0x10000
    then (0xE0 + c / 4096) ∷ (0x80 + c / 64 % 64) ∷ (0x80 + c % 64) ∷ []
    else (0xF0 + c / 262144) ∷ (0x80 + c / 4096 % 64) ∷ (0x80 + c / 64 % 64) ∷ (0x80 + c % 64) ∷ []

abbrev pub is_surrogate : ℕ → Bool
is_surrogate c = leb 0xD800 c && ltb c 0xE000

-- `text.encode("utf-8", "surrogatepass")`.
unfoldable pub encode_pass : Text → Bytes
unfolding encode_char
encode_pass [] = []
encode_pass (c ∷ s) = encode_char c ++ encode_pass s

-- "surrogatepass" at an error: the three bytes of a surrogate are that surrogate.
unfoldable pub pass_error : ℕ → Bytes → Unit8
pass_error a (b ∷ c ∷ _) =
    if a == 0xED && (is_continuation b && is_continuation c) then char (three a b c) 3 else bad 1
pass_error a _ = bad 1

unfoldable pub pass_step : ℕ → Bytes → Unit8
pass_step a r = elim (step a r) [ char c n ↦ char c n | bad n ↦ pass_error a r ]

-- `raw.decode("utf-8", "surrogatepass")`, with `none` for UnicodeDecodeError. The first argument
-- counts the bytes that belong to a character that is already decoded.
unfoldable pub decode_pass_from : ℕ → Bytes → Option Text
decode_pass_from k [] = some []
decode_pass_from (suc k) (b ∷ r) = decode_pass_from k r
decode_pass_from zero (b ∷ r) = elim (pass_step b r) [
  | char c n ↦ Option.map (◌∷◌ c) (decode_pass_from (n - 1) r)
  | bad n ↦ none
]

abbrev pub decode_pass : Bytes → Option Text
decode_pass = decode_pass_from 0

-- `raw.decode("utf-8", "surrogateescape")`: byte `b` of an invalid sequence is U+DC00 + b.
unfoldable pub decode_escape_from : ℕ → Bytes → Text
decode_escape_from k [] = []
decode_escape_from (suc k) (b ∷ r) = decode_escape_from k r
decode_escape_from zero (b ∷ r) = elim (step b r) [
  | char c n ↦ c ∷ decode_escape_from (n - 1) r
  | bad n ↦ map (λ x. 0xDC00 + x) (take n (b ∷ r)) ++ decode_escape_from (n - 1) r
]

-- `raw.decode("utf-8", "replace")`: one U+FFFD for each invalid sequence.
unfoldable pub decode_replace_from : ℕ → Bytes → Text
unfolding step step_two step_three step_four
decode_replace_from k [] = []
decode_replace_from (suc k) (b ∷ r) = decode_replace_from k r
decode_replace_from zero (b ∷ r) = elim (step b r) [
  | char c n ↦ c ∷ decode_replace_from (n - 1) r
  | bad n ↦ 0xFFFD ∷ decode_replace_from (n - 1) r
]

-- `text.encode("utf-8", "surrogateescape")`, with `none` for UnicodeEncodeError.
unfoldable pub encode_escape : Text → Option Bytes
unfolding encode_char
encode_escape [] = some []
encode_escape (c ∷ s) =
    let rest = encode_escape s in
    if leb 0xDC80 c && leb c 0xDCFF
    then Option.map (◌∷◌ (c - 0xDC00)) rest
    else if is_surrogate c
    then none
    else Option.map (λ bs. encode_char c ++ bs) rest
