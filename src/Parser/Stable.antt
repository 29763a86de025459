-- ===== src/Parser/Stable.antt =====
-- Fragments: what `CommandParser` of parser.py makes of a buffer stands, whatever arrives behind it.
use kedis_python.Prelude.{
  ℕ, zero, suc, ◌≤◌, ◌<◌, ◌≡◌, refl, ap, inl, inr, true, none, some, [], ◌∷◌, ◌++◌, ltb, ◌==◌,
  length, length-append, take, drop, arith, Bytes, Bool-cases, Option-cases,
}
use kedis_python.Aof.{split_line, newline}
use kedis_python.Parser.{
  max_inline_length, Part, got, wait, fail, behind, ◌▹◌, ProtocolError, too_big_inline, read_line,
  read_inline, read_end,
}

-- What a part of a buffer came to, and what it comes to with more behind the buffer.
abbrev pub IsStable {ℓ} : {A : Type ℓ} → Bytes → Part A → Part A → Type ℓ
IsStable more (got a n rest) q = q ≡ got a n (rest ++ more)
IsStable more (wait hint) q = Unit
IsStable more (fail e) q = q ≡ fail e

behind-IsStable {ℓ} :
    {A : Type ℓ} (more : Bytes) (n : ℕ) (p q : Part A)
    → IsStable more p q
    → IsStable more (behind n p) (behind n q)
unfolding behind
behind-IsStable more n (got a m rest) q h = rw h refl
behind-IsStable more n (wait hint) q h = tt
behind-IsStable more n (fail e) q h = rw h refl

pub then-IsStable {ℓ κ} :
    {A : Type ℓ} {B : Type κ} (more : Bytes) (p q : Part A) (f : A → Bytes → Part B)
    → IsStable more p q
    → ((a : A) (rest : Bytes) → IsStable more (f a rest) (f a (rest ++ more)))
    → IsStable more (p ▹ f) (q ▹ f)
unfolding ◌▹◌
then-IsStable more (got a n rest) q f h k =
    rw h (behind-IsStable more n (f a rest) (f a (rest ++ more)) (k a rest))
then-IsStable more (wait hint) q f h k = tt
then-IsStable more (fail e) q f h k = rw h refl

split_line-more :
    (buf more line rest : Bytes)
    → split_line buf ≡ some (line, rest)
    → split_line (buf ++ more) ≡ some (line, rest ++ more)
unfolding split_line
split_line-more [] more line rest h = absurd (ground (arith, h))
split_line-more (b ∷ r) more line rest h = elim (Bool-cases (b == newline)) [
  | inl e ↦ ground (arith, e, h)
  | inr e ↦ elim (Option-cases (split_line r)) [
    | inl n ↦ absurd (ground (arith, e, n, h))
    | inr (p, q) ↦ ground (arith, e, q, h, split_line-more r more p.0 p.1)
  ]
]

-- A line that ends behind the buffer is at least as long as the buffer.
split_line-beyond :
    (buf more line rest : Bytes)
    → split_line buf ≡ none
    → split_line (buf ++ more) ≡ some (line, rest)
    → length buf ≤ length line
unfolding split_line
split_line-beyond [] more line rest n h = omega arith
split_line-beyond (b ∷ r) more line rest n h = elim (Bool-cases (b == newline)) [
  | inl e ↦ absurd (ground (arith, e, n))
  | inr e ↦ elim (Option-cases (split_line (r ++ more))) [
    | inl m ↦ absurd (ground (arith, e, m, h))
    | inr (p, q) ↦ elim (Option-cases (split_line r)) [
      | inl m ↦ ground (arith, e, q, m, h, split_line-beyond r more p.0 p.1)
      | inr (o, m) ↦ absurd (ground (arith, e, m, n))
    ]
  ]
]

too_long-IsStable :
    (limit : ℕ) (too_long : ProtocolError) (buf more : Bytes)
    → split_line buf ≡ none
    → ltb limit (length buf) ≡ true
    → read_line limit too_long (buf ++ more) ≡ fail too_long
unfolding read_line
too_long-IsStable limit too_long buf more n l = elim (Option-cases (split_line (buf ++ more))) [
  | inl m ↦
      let e : ltb limit (length (buf ++ more)) ≡ true = ground (arith, l, length-append buf more) in
      rw (m, read_line, e) refl
  | inr ((line, rest), q) ↦
      let e : ltb limit (length line) ≡ true =
        ground (arith, l, split_line-beyond buf more line rest n q) in
      rw (q, read_line, e) refl
]

pub read_line-IsStable :
    (limit : ℕ) (too_long : ProtocolError) (buf more : Bytes)
    → IsStable more (read_line limit too_long buf) (read_line limit too_long (buf ++ more))
unfolding read_line
read_line-IsStable limit too_long buf more = elim (Option-cases (split_line buf)) [
  | inl n ↦ elim (Bool-cases (ltb limit (length buf))) [
    | inl l ↦ rw (n, read_line, l) (too_long-IsStable limit too_long buf more n l)
    | inr l ↦ rw (n, read_line, l) tt
  ]
  | inr ((line, rest), q) ↦
      let m = split_line-more buf more line rest q in
      elim (Bool-cases (ltb limit (length line))) [
        | inl l ↦ rw (q, m, read_line, l) refl
        | inr l ↦ rw (q, m, read_line, l) refl
      ]
]

pub read_inline-IsStable :
    (buf more : Bytes) → IsStable more (read_inline buf) (read_inline (buf ++ more))
unfolding read_inline
read_inline-IsStable buf more =
    then-IsStable more (read_line max_inline_length too_big_inline buf) _ _
      (read_line-IsStable max_inline_length too_big_inline buf more) (λ line rest. refl)

pub take-append_le : (n : ℕ) (buf more : Bytes) → n ≤ length buf → take n (buf ++ more) ≡ take n buf
take-append_le zero buf more h = refl
take-append_le (suc n) [] more h = absurd (omega (arith, h))
take-append_le (suc n) (b ∷ buf) more h = ap (◌∷◌ b) (take-append_le n buf more (omega (arith, h)))

pub drop-append_le :
    (n : ℕ) (buf more : Bytes) → n ≤ length buf → drop n (buf ++ more) ≡ drop n buf ++ more
drop-append_le zero buf more h = refl
drop-append_le (suc n) [] more h = absurd (omega (arith, h))
drop-append_le (suc n) (b ∷ buf) more h = drop-append_le n buf more (omega (arith, h))

pub read_end-IsStable :
    (raw buf more : Bytes)
    → 0 < length buf
    → IsStable more (read_end raw buf) (read_end raw (buf ++ more))
unfolding read_end
read_end-IsStable raw [] more h = absurd (omega (arith, h))
read_end-IsStable raw (b ∷ rest) more h = elim (Bool-cases (b == b'\n')) [
  | inl e ↦ rw e refl
  | inr e ↦ rw e refl
]
