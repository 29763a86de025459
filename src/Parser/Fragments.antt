-- ===== src/Parser/Fragments.antt =====
-- `_parse_frame` of parser.py on fragments: a frame or an error stands, whatever arrives behind it.
use kedis_python.Prelude.{
  ℕ, zero, suc, ◌+◌, ◌≤◌, ◌≡◌, refl, inl, inr, false, Option, none, some, [], ◌∷◌, ◌++◌, ltb, ◌==◌,
  length, length-append, length-drop, take, drop, arith, Bytes, Bool-cases,
}
use kedis_python.Parser.{
  max_header_line, max_array_length, max_bulk_length, max_command_bytes, invalid_array_header,
  invalid_bulk_length, read_line, read_payload, read_sized, read_element, read_elements, read_array,
  count_of, parse_frame,
}
use kedis_python.Parser.Stable.{
  IsStable, then-IsStable, read_line-IsStable, read_inline-IsStable, read_end-IsStable,
  take-append_le, drop-append_le,
}

read_payload-IsStable :
    (size : ℕ) (buf more : Bytes)
    → IsStable more (read_payload size buf) (read_payload size (buf ++ more))
unfolding read_payload
read_payload-IsStable size buf more = elim (Bool-cases (ltb (length buf) (size + 1))) [
  | inl e ↦ rw e tt
  | inr e ↦
      let e' : ltb (length (buf ++ more)) (size + 1) ≡ false =
        ground (arith, e, length-append buf more) in
      let fits : size ≤ length buf = ground (arith, e) in
      rw (e, e', take-append_le size buf more fits, drop-append_le size buf more fits)
        (read_end-IsStable (take size buf) (drop size buf) more
          (ground (arith, e, length-drop size buf)))
]

read_sized-IsStable :
    (declared : ℕ) (size : Option ℕ) (buf more : Bytes)
    → IsStable more (read_sized declared size buf) (read_sized declared size (buf ++ more))
unfolding read_sized
read_sized-IsStable declared none buf more = refl
read_sized-IsStable declared (some size) buf more = elim (Bool-cases (ltb max_bulk_length size)) [
  | inl e ↦ rw e refl
  | inr e ↦ elim (Bool-cases (ltb max_command_bytes (declared + size))) [
    | inl l ↦ rw (e, l) refl
    | inr l ↦
        rw (e, l)
          (then-IsStable more (read_payload size buf) _ _ (read_payload-IsStable size buf more)
            (λ token rest. refl))
  ]
]

read_element-IsStable :
    (declared : ℕ) (buf more : Bytes)
    → IsStable more (read_element declared buf) (read_element declared (buf ++ more))
unfolding read_element
read_element-IsStable declared [] more = tt
read_element-IsStable declared (b ∷ r) more = elim (Bool-cases (b == b'S')) [
  | inl e ↦ rw e (
      then-IsStable more (read_line max_header_line invalid_bulk_length (b ∷ r)) _ _
        (read_line-IsStable max_header_line invalid_bulk_length (b ∷ r) more)
        (λ line rest. read_sized-IsStable declared (count_of line) rest more))
  | inr e ↦ rw e refl
]

read_elements-IsStable :
    (n declared : ℕ) (buf more : Bytes)
    → IsStable more (read_elements n declared buf) (read_elements n declared (buf ++ more))
unfolding read_elements
read_elements-IsStable zero declared buf more = refl
read_elements-IsStable (suc n) declared buf more =
    then-IsStable more (read_element declared buf) _ _ (read_element-IsStable declared buf more)
      (λ e rest.
        then-IsStable more (read_elements n e.1 rest) _ _ (read_elements-IsStable n e.1 rest more)
          (λ tokens rest'. refl))

read_array-IsStable :
    (n : Option ℕ) (buf more : Bytes)
    → IsStable more (read_array n buf) (read_array n (buf ++ more))
unfolding read_array
read_array-IsStable none buf more = refl
read_array-IsStable (some n) buf more = elim (Bool-cases (ltb max_array_length n)) [
  | inl e ↦ rw e refl
  | inr e ↦ rw e (read_elements-IsStable n 0 buf more)
]

-- However the network cuts a stream of commands: the frame or the protocol error that a non-empty
-- buffer starts with stands, whatever arrives behind the buffer; a frame takes the same bytes and
-- leaves the rest with what arrived.
pub parse_frame-IsStable :
    (b : ℕ) (buf more : Bytes)
    → IsStable more (parse_frame (b ∷ buf)) (parse_frame (b ∷ buf ++ more))
unfolding parse_frame
parse_frame-IsStable b r more = elim (Bool-cases (b == b'A')) [
  | inl e ↦ rw e (
      then-IsStable more (read_line max_header_line invalid_array_header (b ∷ r)) _ _
        (read_line-IsStable max_header_line invalid_array_header (b ∷ r) more)
        (λ line rest. read_array-IsStable (count_of line) rest more))
  | inr e ↦ rw e (read_inline-IsStable (b ∷ r) more)
]
