-- ===== src/Kesp/Extent.antt =====
-- How far `KESPDecoder.decode` of parser.py reads into its buffer, and how much more it asks for.
use kedis_python.Prelude.{
  ℕ, zero, suc, ◌&&◌, Bool, true, false, not, Option, none, some, [], ◌∷◌, ltb, if◌then◌else◌,
  arith, Bytes, Bool-cases, inl, inr, ℤ,
}
use kedis_python.Parser.{max_array_length}
use kedis_python.Kesp.{Decoded, Budget, max_depth, full_budget}
use kedis_python.Kesp.Decode.{
  got, refused, Result, Sigil, is_nil, is_int, is_bulk, is_array, is_status, is_error, is_legacy,
  unknown, read_line, line_of, charge, read_integer, read_items, read_array, read_value, read_reply,
  decode_level, decode, limit_of, is_known, sigil_of, invalid_nil,
}
use kedis_python.Kesp.Within.{
  IsWithin, ▹-IsWithin, got-IsWithin, read_line-IsWithin, charge-IsWithin, read_bulk-IsWithin,
}

-- A decoder of one value that stays within its buffer.
abbrev StaysWithin : (Budget → Bytes → Result) → Type 0
StaysWithin step = (b : Budget) (buf : Bytes) → IsWithin buf (step b buf)

read_items-IsWithin :
    (step : Budget → Bytes → Result) (n : ℕ) (b : Budget) (buf : Bytes)
    → StaysWithin step
    → IsWithin buf (read_items step n b buf)
unfolding read_items
read_items-IsWithin step zero b buf h = got-IsWithin buf _
read_items-IsWithin step (suc n) b buf h = ▹-IsWithin buf (step b buf) _ (h b buf) (λ v rest.
    ▹-IsWithin rest (read_items step n v.1 rest) _ (read_items-IsWithin step n v.1 rest h)
      (λ vs after. got-IsWithin after _))

read_array-IsWithin :
    (step : Budget → Bytes → Result) (n : Option ℕ) (b : Budget) (buf : Bytes)
    → StaysWithin step
    → IsWithin buf (read_array step n b buf)
unfolding read_array
read_array-IsWithin step none b buf h = unfold IsWithin in tt
read_array-IsWithin step (some n) b buf h = elim (Bool-cases (ltb max_array_length n)) [
  | inl long ↦ rw long (unfold IsWithin in tt)
  | inr fits ↦ elim (Bool-cases (ltb b.elements n)) [
    | inl over ↦ rw (fits, over) (unfold IsWithin in tt)
    | inr under ↦
        rw (fits, under)
          (▹-IsWithin buf (read_items step n b buf) _ (read_items-IsWithin step n b buf h)
            (λ vs rest. got-IsWithin rest _))
  ]
]

read_integer-IsWithin :
    (n : Option ℤ) (b : Budget) (buf : Bytes) → IsWithin buf (read_integer n b buf)
unfolding read_integer
read_integer-IsWithin none b buf = unfold IsWithin in tt
read_integer-IsWithin (some n) b buf = got-IsWithin buf _

read_nil-IsWithin :
    (x : Bool) (v : Decoded × Budget) (buf : Bytes)
    → IsWithin buf (if x then refused invalid_nil else got v 0 buf)
read_nil-IsWithin true v buf = unfold IsWithin in tt
read_nil-IsWithin false v buf = got-IsWithin buf v

read_value-IsWithin :
    (lenient : Bool) (step : Budget → Bytes → Result) (s : Sigil) (line : Bytes) (b : Budget)
    (buf : Bytes)
    → StaysWithin step
    → IsWithin buf (read_value lenient step s line b buf)
unfolding read_value
read_value-IsWithin lenient step is_nil line b buf h = read_nil-IsWithin _ _ buf
read_value-IsWithin lenient step is_int line b buf h = read_integer-IsWithin _ b buf
read_value-IsWithin lenient step is_bulk line b buf h = read_bulk-IsWithin _ b buf
read_value-IsWithin lenient step is_array line b buf h = read_array-IsWithin step _ b buf h
read_value-IsWithin lenient step is_status line b buf h = got-IsWithin buf _
read_value-IsWithin lenient step is_error line b buf h = got-IsWithin buf _
read_value-IsWithin lenient step is_legacy line b buf h = got-IsWithin buf _
read_value-IsWithin lenient step unknown line b buf h = got-IsWithin buf _

read_reply-IsWithin :
    (lenient : Bool) (step : Budget → Bytes → Result) (s : Sigil) (b : Budget) (buf : Bytes)
    → StaysWithin step
    → IsWithin buf (read_reply lenient step s b buf)
unfolding read_reply
read_reply-IsWithin lenient step s b buf h =
    ▹-IsWithin buf (read_line (limit_of s) buf) _ (read_line-IsWithin (limit_of s) buf)
      (λ line rest.
        ▹-IsWithin rest (charge s (line_of lenient s line) b rest) _
          (charge-IsWithin s (line_of lenient s line) b rest)
          (λ left after. read_value-IsWithin lenient step s (line_of lenient s line) left after h))

decode_level-IsWithin : (lenient : Bool) (levels : ℕ) → StaysWithin (decode_level lenient levels)
unfolding decode_level
decode_level-IsWithin lenient zero b buf = unfold IsWithin in tt
decode_level-IsWithin lenient (suc levels) b [] = unfold IsWithin in omega arith
decode_level-IsWithin lenient (suc levels) b (c ∷ r) =
    elim (Bool-cases (not (is_known (sigil_of c)) && not lenient)) [
      | inl strange ↦ rw strange (unfold IsWithin in tt)
      | inr known ↦ rw known (
          read_reply-IsWithin lenient (decode_level lenient levels) (sigil_of c) b (c ∷ r)
            (decode_level-IsWithin lenient levels))
    ]

-- A reply lies within the buffer and its rest is what follows it there; a reply that is not all there
-- asks for more bytes than the buffer has, so that every retry has something new to read.
pub decode-IsWithin : (lenient : Bool) (buf : Bytes) → IsWithin buf (decode lenient buf)
unfolding decode
decode-IsWithin lenient buf = decode_level-IsWithin lenient (suc max_depth) full_budget buf
