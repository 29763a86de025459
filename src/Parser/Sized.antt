-- ===== src/Parser/Sized.antt =====
-- The counts that `CommandParser` of parser.py keeps: what it has consumed, and what it waits for.
use kedis_python.Prelude.{
  ℕ, zero, suc, ◌+◌, ◌<◌, ◌≡◌, Option, none, some, [], ◌∷◌, ltb, ◌==◌, length, length-take,
  length-drop, take, drop, arith, Bytes, Bool-cases, Option-cases, inl, inr,
}
use kedis_python.Aof.{split_line, newline}
use mathlib.Core.Path.{subst}
use kedis_python.Parser.{
  max_inline_length, max_header_line, max_array_length, max_bulk_length, max_command_bytes, Part,
  got, wait, fail, behind, ◌▹◌, ProtocolError, too_big_inline, invalid_array_header,
  invalid_bulk_length, read_line, read_inline, read_end, read_payload, read_sized, read_element,
  read_elements, read_array, count_of, parse_frame,
}

-- A part of a buffer of some length: what it took and what is left are the buffer, or it waits for
-- more than the buffer holds.
abbrev pub IsSized {ℓ} : {A : Type ℓ} → ℕ → Part A → Type 0
IsSized len (got a n rest) = n + length rest ≡ len
IsSized len (wait hint) = len < hint
IsSized len (fail e) = Unit

behind-IsSized {ℓ} :
    {A : Type ℓ} (len left n : ℕ) (p : Part A)
    → n + left ≡ len
    → IsSized left p
    → IsSized len (behind n p)
unfolding behind
behind-IsSized len left n (got a m rest) h k = omega (arith, h, k)
behind-IsSized len left n (wait hint) h k = omega (arith, h, k)
behind-IsSized len left n (fail e) h k = tt

then-IsSized {ℓ κ} :
    {A : Type ℓ} {B : Type κ} (len : ℕ) (p : Part A) (f : A → Bytes → Part B)
    → IsSized len p
    → ((a : A) (rest : Bytes) → IsSized (length rest) (f a rest))
    → IsSized len (p ▹ f)
unfolding ◌▹◌
then-IsSized len (wait hint) f h k = h
then-IsSized len (fail e) f h k = tt
then-IsSized len (got a n rest) f h k = behind-IsSized len (length rest) n (f a rest) h (k a rest)

-- A line, its newline and what follows are the buffer.
length-split_line :
    (buf line rest : Bytes)
    → split_line buf ≡ some (line, rest)
    → length line + 1 + length rest ≡ length buf
unfolding split_line
length-split_line [] line rest h = absurd (ground (arith, h))
length-split_line (b ∷ r) line rest h = elim (Bool-cases (b == newline)) [
  | inl e ↦ ground (arith, e, h)
  | inr e ↦ elim (Option-cases (split_line r)) [
    | inl n ↦ absurd (ground (arith, e, n, h))
    | inr (p, q) ↦ ground (arith, e, q, h, length-split_line r p.0 p.1)
  ]
]

read_line-IsSized :
    (limit : ℕ) (too_long : ProtocolError) (buf : Bytes)
    → IsSized (length buf) (read_line limit too_long buf)
unfolding read_line
read_line-IsSized limit too_long buf = elim (Option-cases (split_line buf)) [
  | inl n ↦ elim (Bool-cases (ltb limit (length buf))) [
    | inl e ↦ rw (n, read_line, e) tt
    | inr e ↦ rw (n, read_line, e) (omega arith)
  ]
  | inr ((line, rest), q) ↦ elim (Bool-cases (ltb limit (length line))) [
    | inl e ↦ rw (q, read_line, e) tt
    | inr e ↦ rw (q, read_line, e) (length-split_line buf line rest q)
  ]
]

read_inline-IsSized : (buf : Bytes) → IsSized (length buf) (read_inline buf)
unfolding read_inline
read_inline-IsSized buf =
    then-IsSized _ (read_line max_inline_length too_big_inline buf) _
      (read_line-IsSized max_inline_length too_big_inline buf) (λ line rest. omega arith)

read_end-IsSized : (raw buf : Bytes) → IsSized (length raw + length buf) (read_end raw buf)
unfolding read_end
read_end-IsSized raw [] = tt
read_end-IsSized raw (b ∷ rest) = elim (Bool-cases (b == b'\n')) [
  | inl e ↦ rw e (omega arith)
  | inr e ↦ rw e tt
]

read_payload-IsSized : (size : ℕ) (buf : Bytes) → IsSized (length buf) (read_payload size buf)
unfolding read_payload
read_payload-IsSized size buf = elim (Bool-cases (ltb (length buf) (size + 1))) [
  | inl e ↦ rw e (ground (arith, e))
  | inr e ↦
      let whole : length (take size buf) + length (drop size buf) ≡ length buf =
        ground (arith, e, length-take size buf, length-drop size buf) in
      rw e (
        subst (λ n. IsSized n (read_end (take size buf) (drop size buf))) whole
          (read_end-IsSized (take size buf) (drop size buf)))
]

read_sized-IsSized :
    (declared : ℕ) (size : Option ℕ) (buf : Bytes)
    → IsSized (length buf) (read_sized declared size buf)
unfolding read_sized
read_sized-IsSized declared none buf = tt
read_sized-IsSized declared (some size) buf = elim (Bool-cases (ltb max_bulk_length size)) [
  | inl e ↦ rw e tt
  | inr e ↦ elim (Bool-cases (ltb max_command_bytes (declared + size))) [
    | inl l ↦ rw (e, l) tt
    | inr l ↦
        rw (e, l)
          (then-IsSized _ (read_payload size buf) _ (read_payload-IsSized size buf)
            (λ token rest. omega arith))
  ]
]

read_element-IsSized :
    (declared : ℕ) (buf : Bytes) → IsSized (length buf) (read_element declared buf)
unfolding read_element
read_element-IsSized declared [] = omega arith
read_element-IsSized declared (b ∷ r) = elim (Bool-cases (b == b'S')) [
  | inl e ↦ rw e (
      then-IsSized _ (read_line max_header_line invalid_bulk_length (b ∷ r)) _
        (read_line-IsSized max_header_line invalid_bulk_length (b ∷ r))
        (λ line rest. read_sized-IsSized declared (count_of line) rest))
  | inr e ↦ rw e tt
]

read_elements-IsSized :
    (n declared : ℕ) (buf : Bytes) → IsSized (length buf) (read_elements n declared buf)
unfolding read_elements
read_elements-IsSized zero declared buf = omega arith
read_elements-IsSized (suc n) declared buf =
    then-IsSized _ (read_element declared buf) _ (read_element-IsSized declared buf) (λ e rest.
      then-IsSized _ (read_elements n e.1 rest) _ (read_elements-IsSized n e.1 rest)
        (λ tokens rest'. omega arith))

read_array-IsSized : (n : Option ℕ) (buf : Bytes) → IsSized (length buf) (read_array n buf)
unfolding read_array
read_array-IsSized none buf = tt
read_array-IsSized (some n) buf = elim (Bool-cases (ltb max_array_length n)) [
  | inl e ↦ rw e tt
  | inr e ↦ rw e (read_elements-IsSized n 0 buf)
]

pub parse_frame-IsSized : (buf : Bytes) → IsSized (length buf) (parse_frame buf)
unfolding parse_frame
parse_frame-IsSized [] = read_inline-IsSized []
parse_frame-IsSized (b ∷ r) = elim (Bool-cases (b == b'A')) [
  | inl e ↦ rw e (
      then-IsSized _ (read_line max_header_line invalid_array_header (b ∷ r)) _
        (read_line-IsSized max_header_line invalid_array_header (b ∷ r))
        (λ line rest. read_array-IsSized (count_of line) rest))
  | inr e ↦ rw e (read_inline-IsSized (b ∷ r))
]
