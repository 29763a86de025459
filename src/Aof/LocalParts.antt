-- ===== src/Aof/LocalParts.antt =====
-- A header line and a payload of an AOF record take the same bytes, whatever follows them.
use mathlib.Core.List.{append_assoc}
use mathlib.Core.Option
use mathlib.Core.Path.{subst}
use kedis_python.Prelude.{
  ℕ, ◌+◌, ◌≤◌, ◌<◌, ◌≡◌, refl, sym, ap, ◌∙◌, Bool, true, false, Option, none, some, ltb, ◌==◌,
  if◌then◌else◌, [], ◌∷◌, ◌++◌, length, take, drop, Bytes, Text, arith, length-append, length-take,
  take-append-drop, Bool-cases, inl, inr, ==_iff, Option-cases,
}
use kedis_python.Utf8.{decode_pass}
use kedis_python.Aof.Framing.{IsLine, read_header-line, read_payload-append, got-then}
use kedis_python.Aof.{
  Read, got, stop, newline, split_line, read_header, read_terminated, read_payload, ◌▹◌,
  max_header_line, Reason,
}

abbrev pub IsSplit : Bytes → Bytes × Bytes → Type 0
IsSplit bs p = (bs ≡ p.0 ++ newline ∷ p.1) × IsLine p.0

IsSplit-line-cons :
    (b : ℕ) (r : Bytes) (t : Bool) (o : Option (Bytes × Bytes)) {p : Bytes × Bytes}
    → (b == newline) ≡ t
    → (if t then some ([], r) else Option.map (λ q. (b ∷ q.0, q.1)) o) ≡ some p
    → ((q : Bytes × Bytes) → o ≡ some q → IsSplit r q)
    → IsSplit (b ∷ r) p
IsSplit-line-cons b r true o {p} e h ih =
    let first : Bytes × Bytes = ([], r) in
    let same : first ≡ p = ground arith in
    let here : IsSplit (b ∷ r) first = (ap (λ c. c ∷ r) ((==_iff b newline).0 e), tt) in
    subst (IsSplit (b ∷ r)) same here
IsSplit-line-cons b r false none e h ih = absurd (ground arith)
IsSplit-line-cons b r false (some q) {p} e h ih =
    let (split, line) = ih q refl in
    let first : Bytes × Bytes = (b ∷ q.0, q.1) in
    let same : first ≡ p = ground arith in
    let here : IsSplit (b ∷ r) first = (ap (◌∷◌ b) split, (e, line)) in
    subst (IsSplit (b ∷ r)) same here

pub split_line-some : (bs : Bytes) (p : Bytes × Bytes) → split_line bs ≡ some p → IsSplit bs p
unfolding split_line
split_line-some [] p h = absurd (ground arith)
split_line-some (b ∷ r) p h =
    IsSplit-line-cons b r (b == newline) (split_line r) refl h (λ q. split_line-some r q)

-- What `read` took of `bs` it takes again, whatever follows.
abbrev pub IsLocal {ℓ} : {A : Type ℓ} → (Bytes → Read A) → Bytes → A → ℕ → Bytes → Type ℓ
IsLocal read bs a n rest =
    (pre : Bytes) × (bs ≡ pre ++ rest)
    × (length pre ≡ n)
    × ((other : Bytes) → read (pre ++ other) ≡ got a n other)

got-injective {ℓ} :
    {A : Type ℓ} {a b : A} {n m : ℕ} {r s : Bytes}
    → got a n r ≡ got b m s
    → (a ≡ b) × (n ≡ m) × (r ≡ s)
got-injective h = (cc, cc, cc)

pub read_header-got :
    (long cut : Reason) (bs line rest : Bytes) (n : ℕ)
    → read_header long cut bs ≡ got line n rest
    → (split_line bs ≡ some (line, rest)) × (length line ≤ max_header_line) × (n ≡ length line + 1)
unfolding read_header
read_header-got long cut bs line rest n h = ground arith

pub length-line : (line : Bytes) → length (line ++ newline ∷ []) ≡ length line + 1
length-line line = omega (arith, length-append line (newline ∷ []))

pub read_header-IsLocal :
    (long cut : Reason) (bs line rest : Bytes) (n : ℕ)
    → read_header long cut bs ≡ got line n rest
    → IsLocal (read_header long cut) bs line n rest
read_header-IsLocal long cut bs line rest n h =
    let (e, short, size) = read_header-got long cut bs line rest n h in
    let (split, clean) = split_line-some bs (line, rest) e in
    (
      line ++ newline ∷ [],
      rw append_assoc split,
      length-line line ∙ sym size,
      λ other. rw (append_assoc, size) (read_header-line long cut line other clean short),
    )

-- Two parts in a row.
module _ {ℓ κ} {A : Type ℓ} {B : Type κ} (f : A → Bytes → Read B) (b : B) (n : ℕ)
    (rest : Bytes) where
  pub continue-got :
      (a : A) (m : ℕ) (s : Bytes) (p : Read B)
      → f a s ≡ p
      → (got a m s ▹ f) ≡ got b n rest
      → (k : ℕ) × (f a s ≡ got b k rest) × (n ≡ m + k)
  unfolding ◌▹◌
  continue-got a m s (stop st why) e h = absurd (ground (arith, e))
  continue-got a m s (got c k r) e h = (k, ground (arith, e), ground (arith, e))

  pub then-got :
      (o : Read A)
      → (o ▹ f) ≡ got b n rest
      → (a : A) × (m : ℕ) × (s : Bytes) × (o ≡ got a m s) × ((got a m s ▹ f) ≡ got b n rest)
  then-got (stop st why) h = absurd (unfold ◌▹◌ in ground arith)
  then-got (got a m s) h = (a, m, s, refl, h)

  pub then-IsLocal :
      (read : Bytes → Read A) (bs : Bytes)
      → ((a : A) (m : ℕ) (r : Bytes) → read bs ≡ got a m r → IsLocal read bs a m r)
      → ((a : A) (m : ℕ) (s : Bytes) → f a s ≡ got b m rest → IsLocal (f a) s b m rest)
      → (read bs ▹ f) ≡ got b n rest
      → IsLocal (λ s. read s ▹ f) bs b n rest
  then-IsLocal read bs l₁ l₂ h =
      let (a, m, s, e, h') = then-got (read bs) h in
      let (k, e', size) = continue-got a m s (f a s) refl h' in
      let (pre, split, len, again) = l₁ a m s e in
      let (pre', split', len', again') = l₂ a k s e' in
      (
        pre ++ pre',
        split ∙ rw (split', append_assoc) refl,
        omega (arith, length-append pre pre'),
        λ other.
            rw (append_assoc, again (pre' ++ other), size)
              (got-then a m (pre' ++ other) f b k other (again' other)),
      )

read_terminated-local :
    (raw bs : Bytes) (token : Text) (n : ℕ) (rest : Bytes)
    → read_terminated raw bs ≡ got token n rest
    → (bs ≡ newline ∷ rest)
      × (n ≡ length raw + 1)
      × ((other : Bytes) → read_terminated raw (newline ∷ other) ≡ got token n other)
unfolding read_terminated
read_terminated-local raw [] token n rest h = absurd (ground arith)
read_terminated-local raw (b ∷ r) token n rest h = elim (Option-cases (decode_pass raw)) [
  | inl e ↦ absurd (ground (arith, e))
  | inr (t, e) ↦ (ground (arith, e), ground (arith, e), λ other. ground (arith, e))
]

pub read_payload-IsLocal :
    (size : Option ℕ) (bs : Bytes) (token : Text) (n : ℕ) (rest : Bytes)
    → read_payload size bs ≡ got token n rest
    → IsLocal (read_payload size) bs token n rest
read_payload-IsLocal none bs token n rest h = absurd (unfold read_payload in ground arith)
read_payload-IsLocal (some size) bs token n rest h =
    elim (Bool-cases (ltb (length bs) (size + 1))) [
      | inl short ↦ absurd (unfold read_payload in ground arith)
      | inr long ↦
          let raw = take size bs in
          let len : length raw ≡ size = ground (arith, length-take size bs) in
          let (behind, count, again) =
            read_terminated-local raw (drop size bs) token n rest
              (unfold read_payload in ground arith) in
          (
            raw ++ newline ∷ [],
            sym (take-append-drop size bs) ∙ rw (behind, append_assoc) refl,
            length-line raw ∙ sym count,
            λ other. rw append_assoc (
                ap (λ k. read_payload (some k) (raw ++ newline ∷ other)) (sym len)
                ∙ read_payload-append raw other
                ∙ again other),
          )
    ]

-- What begins with a header takes at least a byte.
pub header-then-pos {ℓ} :
    {B : Type ℓ} (long cut : Reason) (f : Bytes → Bytes → Read B) (bs : Bytes) (b : B) (n : ℕ)
    (rest : Bytes)
    → (read_header long cut bs ▹ f) ≡ got b n rest
    → 0 < n
header-then-pos long cut f bs b n rest h =
    let (line, m, s, e, h') = then-got f b n rest (read_header long cut bs) h in
    let (k, _, size) = continue-got f b n rest line m s (f line s) refl h' in
    let (_, _, len) = read_header-got long cut bs line s m e in omega arith

-- A reader that agrees with a local one wherever the first byte is `b` is local there.
pub agree-IsLocal {ℓ} :
    {A : Type ℓ} (read read' : Bytes → Read A) (b : ℕ) (r : Bytes) (a : A) (n : ℕ) (rest : Bytes)
    → 0 < n
    → ((s : Bytes) → read (b ∷ s) ≡ read' (b ∷ s))
    → IsLocal read' (b ∷ r) a n rest
    → IsLocal read (b ∷ r) a n rest
agree-IsLocal read read' b r a n rest pos same ([], split, len, again) = absurd (omega arith)
agree-IsLocal read read' b r a n rest pos same (c ∷ pre, split, len, again) =
    let e : b ≡ c = cc in
    (c ∷ pre, split, len, λ other. rw e at (same (pre ++ other)) ∙ again other)
