-- ===== src/Parser/Progress.antt =====
-- `parse_buffer` of parser.py makes progress: it consumes no more than there is, and asks for more
-- than there is.
use mathlib.Core.Path.{subst}
use kedis_python.Prelude.{
  ℕ, zero, suc, ◌+◌, ◌-◌, ◌≤◌, ◌<◌, ◌≡◌, refl, ◌⊎◌, inl, inr, Bool, [], ◌∷◌, ltb, ◌==◌, length,
  arith, Bytes, Text, Bool-cases, Option-cases,
}
use kedis_python.Aof.{split_line}
use kedis_python.Parser.{
  max_inline_length, max_header_line, Part, got, wait, fail, behind, ◌▹◌, ProtocolError,
  too_big_inline, invalid_array_header, read_line, read_inline, parse_frame, Parsed, tokens, error,
  normalised, parse_from, parse_buffer,
}
use kedis_python.Parser.Sized.{IsSized, parse_frame-IsSized}

-- A part that took something.
abbrev IsStarted {ℓ} : {A : Type ℓ} → Part A → Type 0
IsStarted (got a n rest) = 0 < n
IsStarted (wait hint) = Unit
IsStarted (fail e) = Unit

behind-IsStarted {ℓ} : {A : Type ℓ} (n : ℕ) (p : Part A) → 0 < n → IsStarted (behind n p)
unfolding behind
behind-IsStarted n (got a m rest) h = omega (arith, h)
behind-IsStarted n (wait hint) h = tt
behind-IsStarted n (fail e) h = tt

then-IsStarted {ℓ κ} :
    {A : Type ℓ} {B : Type κ} (p : Part A) (f : A → Bytes → Part B)
    → IsStarted p
    → IsStarted (p ▹ f)
unfolding ◌▹◌
then-IsStarted (got a n rest) f h = behind-IsStarted n (f a rest) h
then-IsStarted (wait hint) f h = tt
then-IsStarted (fail e) f h = tt

read_line-IsStarted :
    (limit : ℕ) (too_long : ProtocolError) (buf : Bytes) → IsStarted (read_line limit too_long buf)
unfolding read_line
read_line-IsStarted limit too_long buf = elim (Option-cases (split_line buf)) [
  | inl n ↦ elim (Bool-cases (ltb limit (length buf))) [
    | inl e ↦ rw (n, read_line, e) tt
    | inr e ↦ rw (n, read_line, e) tt
  ]
  | inr ((line, rest), q) ↦ elim (Bool-cases (ltb limit (length line))) [
    | inl e ↦ rw (q, read_line, e) tt
    | inr e ↦ rw (q, read_line, e) (omega arith)
  ]
]

parse_frame-IsStarted : (b : ℕ) (r : Bytes) → IsStarted (parse_frame (b ∷ r))
unfolding parse_frame read_inline
parse_frame-IsStarted b r = elim (Bool-cases (b == b'A')) [
  | inl e ↦ rw e (
      then-IsStarted (read_line max_header_line invalid_array_header (b ∷ r)) _
        (read_line-IsStarted max_header_line invalid_array_header (b ∷ r)))
  | inr e ↦ rw e (
      then-IsStarted (read_line max_inline_length too_big_inline (b ∷ r)) _
        (read_line-IsStarted max_inline_length too_big_inline (b ∷ r)))
]

Part-cases {ℓ} :
    {A : Type ℓ} (p : Part A)
    → ((a : A) × (n : ℕ) × (rest : Bytes) × (p ≡ got a n rest))
      ⊎ (((hint : ℕ) × (p ≡ wait hint)) ⊎ ((e : ProtocolError) × (p ≡ fail e)))
Part-cases (got a n rest) = inl (a, n, rest, refl)
Part-cases (wait hint) = inr (inl (hint, refl))
Part-cases (fail e) = inr (inr (e, refl))

-- What `parse_buffer` returns on a buffer of some length: it consumes no more than that; without a
-- command it has consumed all, or asks for a length beyond the end of the buffer; with an error it
-- has consumed all.
abbrev pub IsAnswered : ℕ → Parsed × ℕ × ℕ → Type 0
IsAnswered total (tokens [], consumed, need) =
    (consumed ≤ total) × (((need ≡ 0) × (consumed ≡ total)) ⊎ (total < consumed + need))
IsAnswered total (tokens (t ∷ ts), consumed, need) = (consumed ≤ total) × (need ≡ 0)
IsAnswered total (error e, consumed, need) = (consumed ≡ total) × (need ≡ 0)

module _ (upper : Text → Text) (normalise : Bool) where
  parse_from-IsAnswered :
      (buf : Bytes) (skip pos total : ℕ)
      → skip ≤ length buf
      → pos + (length buf - skip) ≡ total
      → IsAnswered total (parse_from upper normalise skip pos buf)
  unfolding parse_from normalised
  parse_from-IsAnswered [] skip pos total h e = (omega (arith, e), inl (refl, omega (arith, e)))
  parse_from-IsAnswered (b ∷ r) (suc skip) pos total h e =
      parse_from-IsAnswered r skip pos total (omega (arith, h)) (omega (arith, h, e))
  parse_from-IsAnswered (b ∷ r) zero pos total h e =
      let sized = parse_frame-IsSized (b ∷ r) in
      let started = parse_frame-IsStarted b r in
      elim (Part-cases (parse_frame (b ∷ r))) [
        | inl ([], n, rest, q) ↦
            let k : n + length rest ≡ length (b ∷ r) = subst (IsSized (length (b ∷ r))) q sized in
            let p : 0 < n = subst IsStarted q started in
            rw (q, parse_from)
              (parse_from-IsAnswered r (n - 1) (pos + n) total (omega (arith, k, p))
                (omega (arith, k, p, e)))
        | inl (name ∷ words, n, rest, q) ↦
            let k : n + length rest ≡ length (b ∷ r) = subst (IsSized (length (b ∷ r))) q sized in
            rw (q, parse_from) (omega (arith, k, e), refl)
        | inr (inl (hint, q)) ↦
            let k : length (b ∷ r) < hint = subst (IsSized (length (b ∷ r))) q sized in
            rw (q, parse_from) (omega (arith, e), inr (omega (arith, k, e)))
        | inr (inr (x, q)) ↦ rw (q, parse_from) (omega (arith, e), refl)
      ]

  -- Whatever `upper` does: `parse_buffer` consumes no more than the buffer; where it returns no
  -- command it has consumed the whole buffer or asks for a length that exceeds what is left of it, so
  -- a reader that waits for that length has read something new; where it returns a command it asks for
  -- nothing; an error consumes the whole buffer.
  pub parse_buffer-IsAnswered :
      (buf : Bytes) → IsAnswered (length buf) (parse_buffer upper normalise buf)
  unfolding parse_buffer
  parse_buffer-IsAnswered buf =
      parse_from-IsAnswered buf 0 0 (length buf) (omega arith) (omega arith)
