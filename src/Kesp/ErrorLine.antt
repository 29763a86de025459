-- ===== src/Kesp/ErrorLine.antt =====
-- The error line of `KESPEncoder` in parser.py: one physical line, that its own decoder accepts.
use mathlib.Core.Option
use kedis_python.Prelude.{
  ℕ, zero, suc, ◌+◌, ◌-◌, ◌≤◌, ◌≡◌, refl, ap, ◌∙◌, false, ◌&&◌, Option, none, some, [], ◌∷◌, ◌++◌,
  ltb, leb, ◌==◌, if◌then◌else◌, length, length-append, length-take, take, arith, Bytes, Text, All,
  All-append, codes, Bool-cases, Option-cases, inl, inr,
}
use mathlib.Core.List.{append_assoc}
use kedis_python.Utf8.{encode_char, encode_escape, is_surrogate}
use kedis_python.TextCodec.{to_text, to_bytes}
use kedis_python.Aof.{newline}
use kedis_python.Aof.Framing.{IsLine, IsLine-take}
use kedis_python.Kesp.{Budget, error, max_line, max_depth, full_budget}
use kedis_python.Kesp.Encode.{
  one_line, encode_replace, step_back, error_limit, cut_line, error_bytes, error_line,
}
use kedis_python.Kesp.Decode.{
  got, sigil_of, is_known, limit_of, line_of, charge, read_value, read_reply, decode_level,
}
use kedis_python.Kesp.Lines.{got-then, read_line-line}

-- No character of the text ends a line.
abbrev IsOneLine : Text → Type 0
IsOneLine = All (λ c. (c == newline) ≡ false)

IsOneLine-one_line : (t : Text) → IsOneLine (one_line t)
unfolding one_line
IsOneLine-one_line [] = tt
IsOneLine-one_line (c ∷ s) = (ground arith, IsOneLine-one_line s)

IsLine-encode_char : (c : ℕ) → (c == newline) ≡ false → IsLine (encode_char c)
unfolding encode_char
IsLine-encode_char c h = ground (arith, h)

IsLine-encode_replace : (t : Text) → IsOneLine t → IsLine (encode_replace t)
unfolding encode_replace
IsLine-encode_replace [] h = tt
IsLine-encode_replace (c ∷ s) h = elim (Bool-cases (is_surrogate c)) [
  | inl e ↦ rw e (refl, IsLine-encode_replace s h.1)
  | inr e ↦ rw e (
      All-append _ (encode_char c) (encode_replace s) (IsLine-encode_char c h.0)
        (IsLine-encode_replace s h.1))
]

-- The bytes of one character before the bytes of the others.
IsLine-cons :
    (c : ℕ) (o : Option Bytes) (raw : Bytes)
    → (c == newline) ≡ false
    → ((bs : Bytes) → o ≡ some bs → IsLine bs)
    → (if leb 0xDC80 c && leb c 0xDCFF
        then Option.map (◌∷◌ (c - 0xDC00)) o
        else if is_surrogate c
        then none
        else Option.map (λ bs. encode_char c ++ bs) o)
      ≡ some raw
    → IsLine raw
IsLine-cons c none raw h k e = absurd (ground (arith, e))
IsLine-cons c (some bs) raw h k e = elim (Bool-cases (leb 0xDC80 c && leb c 0xDCFF)) [
  | inl escaped ↦
      let q : (c - 0xDC00) ∷ bs ≡ raw = ground (arith, e, escaped) in
      rw (← q) (ground (arith, escaped), k bs refl)
  | inr plain ↦
      let q : encode_char c ++ bs ≡ raw = ground (arith, e, plain) in
      rw (← q) (All-append _ (encode_char c) bs (IsLine-encode_char c h) (k bs refl))
]

IsLine-encode_escape :
    (t : Text) (raw : Bytes) → IsOneLine t → encode_escape t ≡ some raw → IsLine raw
unfolding encode_escape
IsLine-encode_escape [] raw h e = let q : [] ≡ raw = ground (arith, e) in rw (← q) tt
IsLine-encode_escape (c ∷ s) raw h e =
    IsLine-cons c (encode_escape s) raw h.0 (λ bs k. IsLine-encode_escape s bs h.1 k) e

step_back-le : (raw : Bytes) (cut : ℕ) → step_back raw cut ≤ cut
unfolding step_back
step_back-le raw zero = omega arith
step_back-le raw (suc cut) = ground (arith, step_back-le raw cut)

-- The cut keeps the error within a line, with its "E".
cut_line-le : (raw : Bytes) → length (cut_line raw) ≤ error_limit
unfolding cut_line
cut_line-le raw =
    let kept = step_back raw (error_limit - 3) in
    ground (
      arith,
      step_back-le raw (error_limit - 3),
      length-take kept raw,
      length-append (take kept raw) (codes "..."),
    )

IsLine-cut_line : (raw : Bytes) → IsLine raw → IsLine (cut_line raw)
unfolding cut_line
IsLine-cut_line raw h = elim (Bool-cases (ltb error_limit (length raw))) [
  | inl long ↦ rw long (
      All-append _ (take (step_back raw (error_limit - 3)) raw) (codes "...")
        (IsLine-take (step_back raw (error_limit - 3)) raw h) (refl, (refl, (refl, tt))))
  | inr short ↦ rw short h
]

IsLine-error_bytes : (t : Text) → IsLine (error_bytes t)
unfolding error_bytes to_bytes
IsLine-error_bytes t = elim (Option-cases (to_bytes (one_line t))) [
  | inl e ↦
      rw (e, error_bytes)
        (IsLine-cut_line (encode_replace (one_line t))
          (IsLine-encode_replace (one_line t) (IsOneLine-one_line t)))
  | inr (raw, e) ↦
      rw (e, error_bytes)
        (IsLine-cut_line raw (IsLine-encode_escape (one_line t) raw (IsOneLine-one_line t) e))
]

error_bytes-le : (t : Text) → length (error_bytes t) ≤ error_limit
unfolding error_bytes
error_bytes-le t = elim (Option-cases (to_bytes (one_line t))) [
  | inl e ↦ rw (e, error_bytes) (cut_line-le (encode_replace (one_line t)))
  | inr (raw, e) ↦ rw (e, error_bytes) (cut_line-le raw)
]

-- The budget behind an error line.
abbrev pub told : Text → Budget
told t = record {
  elements = full_budget.elements - 1;
  payload = full_budget.payload - suc (length (error_bytes t));
}

pub decode_level-error_line :
    (t : Text) (rest : Bytes)
    → decode_level false (suc max_depth) full_budget (error_line t ++ rest)
      ≡ got (error (to_text (error_bytes t)), told t) (length (error_line t)) rest
unfolding decode_level read_reply charge line_of error_line sigil_of is_known limit_of read_value
decode_level-error_line t rest =
    let raw = error_bytes t in
    let line = b'E' ∷ raw in
    let short : length line ≤ max_line = omega (arith, error_bytes-le t) in
    let fits : ltb full_budget.payload (length line) ≡ false = ground (arith, error_bytes-le t) in
    let size : length line + 1 + 0 ≡ length (error_line t) =
      omega (arith, length-append raw (newline ∷ [])) in
    rw
      (
        append_assoc raw (newline ∷ []) rest,
        read_line-line max_line line rest (refl, IsLine-error_bytes t) short,
      )
      (got-then line (length line + 1) rest _ (error (to_text raw), told t) 0 rest
          (rw fits (got-then (told t) 0 rest _ (error (to_text raw), told t) 0 rest refl))
        ∙ ap (λ k. got (error (to_text raw), told t) k rest) size)
