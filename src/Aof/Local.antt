-- ===== src/Aof/Local.antt =====
-- What a part of a record took of the buffer it takes again, whatever follows it.

use kedis_python.Prelude.{
  ℕ, zero, suc, ◌<◌, ◌≡◌, sym, ap, ◌∙◌, Option, none, some, ◌==◌, List, [], ◌∷◌, ◌++◌, drop, Bytes,
  Text, arith, Bool-cases, inl, inr,
}
use kedis_python.Decimal
use kedis_python.Aof.{
  Read, got, stop, read_header, read_payload, read_token, read_tokens, read_elements, read_record,
  ◌▹◌, string_header_too_long, in_string_header, array_header_too_long, in_record_header,
}
use kedis_python.Aof.LocalParts.{
  then-IsLocal, IsLocal, read_header-IsLocal, read_payload-IsLocal, header-then-pos, agree-IsLocal,
}

abbrev token_line : Bytes → Read Text
token_line bs = read_header string_header_too_long in_string_header bs ▹ λ line rest.
    read_payload (Decimal.count (drop 1 line)) rest

read_token-IsLocal :
    (bs : Bytes) (token : Text) (n : ℕ) (rest : Bytes)
    → read_token bs ≡ got token n rest
    → IsLocal read_token bs token n rest
unfolding read_token
read_token-IsLocal [] token n rest h = absurd (ground arith)
read_token-IsLocal (b ∷ r) token n rest h = elim (Bool-cases (b == b'S')) [
  | inr other ↦ absurd (ground arith)
  | inl sigil ↦
      let line : token_line (b ∷ r) ≡ got token n rest = ground arith in
      agree-IsLocal read_token token_line b r token n rest
        (header-then-pos string_header_too_long in_string_header _ (b ∷ r) token n rest line)
        (λ s. ground arith)
        (then-IsLocal _ token n rest (read_header string_header_too_long in_string_header) (b ∷ r)
          (λ a m s. read_header-IsLocal string_header_too_long in_string_header (b ∷ r) a s m)
          (λ a m s. read_payload-IsLocal (Decimal.count (drop 1 a)) s token m rest) line)
]

-- The loop from its second token on.
abbrev more : ℕ → Text → Bytes → Read (List Text)
more count token rest = elim (read_tokens count rest) [
  | got tokens m rest' ↦ got (token ∷ tokens) m rest'
  | stop st why ↦ stop st why
]

more-got :
    (count : ℕ) (t : Text) (bs : Bytes) (ts : List Text) (n : ℕ) (rest : Bytes)
    → read_tokens count bs ≡ got ts n rest
    → more count t bs ≡ got (t ∷ ts) n rest
more-got count t bs ts n rest e = ground (arith, e)

got-more :
    (t : Text) (o : Read (List Text)) (tokens : List Text) (n : ℕ) (rest : Bytes)
    → (elim o [ got ts m r ↦ got (t ∷ ts) m r | stop st why ↦ stop st why ]) ≡ got tokens n rest
    → (ts : List Text) × (tokens ≡ t ∷ ts) × (o ≡ got ts n rest)
got-more t (stop st why) tokens n rest h = absurd (ground arith)
got-more t (got ts m r) tokens n rest h = (ts, ground arith, ground arith)

more-IsLocal :
    (count : ℕ) (t : Text) (bs : Bytes) (tokens : List Text) (n : ℕ) (rest : Bytes)
    → ((ts : List Text)
        → read_tokens count bs ≡ got ts n rest
        → IsLocal (read_tokens count) bs ts n rest)
    → more count t bs ≡ got tokens n rest
    → IsLocal (more count t) bs tokens n rest
more-IsLocal count t bs tokens n rest ih h =
    let (ts, whole, e) = got-more t (read_tokens count bs) tokens n rest h in
    let (pre, split, len, again) = ih ts e in
    (
      pre,
      split,
      len,
      λ other.
          more-got count t (pre ++ other) ts n other (again other)
          ∙ ap (λ l. got l n other) (sym whole),
    )

read_tokens-IsLocal :
    (count : ℕ) (bs : Bytes) (tokens : List Text) (n : ℕ) (rest : Bytes)
    → read_tokens count bs ≡ got tokens n rest
    → IsLocal (read_tokens count) bs tokens n rest
unfolding read_tokens
read_tokens-IsLocal zero bs tokens n rest h =
    ([], ground arith, ground arith, λ other. ground arith)
read_tokens-IsLocal (suc count) bs tokens n rest h =
    then-IsLocal (more count) tokens n rest read_token bs (λ a m s. read_token-IsLocal bs a m s)
      (λ a m s. more-IsLocal count a s tokens m rest (λ ts. read_tokens-IsLocal count s ts m rest))
      h

read_elements-IsLocal :
    (count : Option ℕ) (bs : Bytes) (tokens : List Text) (n : ℕ) (rest : Bytes)
    → read_elements count bs ≡ got tokens n rest
    → IsLocal (read_elements count) bs tokens n rest
unfolding read_elements
read_elements-IsLocal none bs tokens n rest h = absurd (ground arith)
read_elements-IsLocal (some count) bs tokens n rest h = read_tokens-IsLocal count bs tokens n rest h

pub read_record-IsLocal :
    (bs : Bytes) (tokens : List Text) (n : ℕ) (rest : Bytes)
    → read_record bs ≡ got tokens n rest
    → IsLocal read_record bs tokens n rest × (0 < n)
unfolding read_record
read_record-IsLocal bs tokens n rest h = (
  then-IsLocal _ tokens n rest (read_header array_header_too_long in_record_header) bs
      (λ a m s. read_header-IsLocal array_header_too_long in_record_header bs a s m)
      (λ a m s. read_elements-IsLocal (Decimal.count (drop 1 a)) s tokens m rest) h,
  header-then-pos array_header_too_long in_record_header _ bs tokens n rest h,
)
