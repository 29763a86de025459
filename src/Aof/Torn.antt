-- ===== src/Aof/Torn.antt =====
-- What is read of a token list and of a record, whole and cut off.
use mathlib.Core.List.{append_assoc}
use kedis_python.Prelude.{
  ℕ, zero, suc, ◌+◌, ◌-◌, ◌≤◌, ◌<◌, ◌≡◌, refl, ltb, Bool-cases, inl, inr, List, [], ◌∷◌, ◌++◌,
  length, take, Bytes, Text, All, arith, length-append, length-take, ltb→lt,
}
use kedis_python.Decimal
use kedis_python.Decimal.RoundTrip.{count-print}
use kedis_python.Utf8.{encode_pass}
use kedis_python.Aof.{
  Read, got, stop, newline, encode_token, encode_tokens, encode_record, read_token, read_tokens,
  read_elements, read_record, torn, Reason, between_tokens, in_string, in_string_header,
  in_record_header, array_header_too_long, ◌▹◌,
}
use kedis_python.Aof.Framing.{
  IsFramable, header_bound, read_token-encode_token, read_token-torn_header, read_token-torn_body,
  take-append-le, take-append-add, got-then, got-then_stop, IsLine-take, header-IsLine, header-le,
  read_header-line, read_header-torn,
}

-- The read stops for want of bytes.
abbrev pub IsTorn {ℓ} : {A : Type ℓ} → Read A → Type ℓ
IsTorn {A = A} r = (why : Reason) × (r ≡ stop torn why)

-- A cut of a header line and what stands behind it.
cut_line {ℓ} :
    (P : Bytes → Type ℓ) (header body : Bytes) (k : ℕ)
    → k < length (header ++ newline ∷ body)
    → ((j : ℕ) → j ≤ length header → P (take j header))
    → ((j : ℕ) → j < length body → P (header ++ newline ∷ take j body))
    → P (take k (header ++ newline ∷ body))
cut_line P header body k h in_header in_body = elim (Bool-cases (ltb (length header) k)) [
  | inl behind ↦
      let j = k - suc (length header) in
      let e : k ≡ length header + suc j = ground arith in
      let small : j < length body = ground (arith, length-append header (newline ∷ body)) in
      rw (e, take-append-add (suc j) header (newline ∷ body)) (in_body j small)
  | inr inside ↦
      let le : k ≤ length header = ground arith in
      rw (take-append-le k header (newline ∷ body) le) (in_header k le)
]

read_token-IsTorn :
    (token : Text) (k : ℕ)
    → IsFramable token
    → k < length (encode_token token)
    → IsTorn (read_token (take k (encode_token token)))
unfolding encode_token
read_token-IsTorn token k h lt =
    let n = length (encode_pass token) in
    cut_line (λ bs. IsTorn (read_token bs)) (b'S' ∷ Decimal.print n)
      (encode_pass token ++ newline ∷ []) k lt
      (elim [
        | zero ↦ λ le. (between_tokens, unfold read_token in refl)
        | suc j ↦ λ le. (in_string_header, read_token-torn_header token j h (omega arith))
      ])
      (λ j small. (
        in_string,
        read_token-torn_body token (take j (encode_pass token ++ newline ∷ [])) h (
            omega (
              arith,
              length-take j (encode_pass token ++ newline ∷ []),
              length-append (encode_pass token) (newline ∷ []),
            )),
      ))

-- A token list is read back whole, and what follows it is left.
pub read_tokens-encode_tokens :
    (tokens : List Text) (rest : Bytes)
    → All IsFramable tokens
    → read_tokens (length tokens) (encode_tokens tokens ++ rest)
      ≡ got tokens (length (encode_tokens tokens)) rest
unfolding read_tokens encode_tokens
read_tokens-encode_tokens [] rest h = refl
read_tokens-encode_tokens (t ∷ tokens) rest h =
    rw
      (
        append_assoc,
        read_token-encode_token t (encode_tokens tokens ++ rest) h.0,
        length-append (encode_token t) (encode_tokens tokens),
      )
      (got-then t (length (encode_token t)) (encode_tokens tokens ++ rest) _ (t ∷ tokens)
        (length (encode_tokens tokens)) rest (rw (read_tokens-encode_tokens tokens rest h.1)))

read_tokens-IsTorn :
    (tokens : List Text) (k : ℕ)
    → All IsFramable tokens
    → k < length (encode_tokens tokens)
    → IsTorn (read_tokens (length tokens) (take k (encode_tokens tokens)))
unfolding read_tokens encode_tokens
read_tokens-IsTorn [] k h lt = absurd (omega arith)
read_tokens-IsTorn (t ∷ tokens) k h lt = elim (Bool-cases (ltb k (length (encode_token t)))) [
  | inl inside ↦
      let (why, e) = read_token-IsTorn t k h.0 (ltb→lt _ _ inside) in
      (
        why,
        rw (take-append-le k (encode_token t) (encode_tokens tokens) (ground arith), e)
            (unfold ◌▹◌ in refl),
      )
  | inr behind ↦
      let j = k - length (encode_token t) in
      let e : k ≡ length (encode_token t) + j = ground arith in
      let (why, ih) =
        read_tokens-IsTorn tokens j h.1
          (ground (arith, length-append (encode_token t) (encode_tokens tokens))) in
      (
        why,
        rw
            (
              e,
              take-append-add j (encode_token t) (encode_tokens tokens),
              read_token-encode_token t (take j (encode_tokens tokens)) h.0,
            )
            (got-then_stop t (length (encode_token t)) (take j (encode_tokens tokens)) _ torn why
              (rw ih)),
      )
]

-- A record that the framing can carry: a command with its arguments.
pub record IsRecord (tokens : List Text) : Type 0 where
  pub framable : All IsFramable tokens
  pub fits : length tokens < header_bound

encode_record-append :
    (tokens : List Text) (rest : Bytes)
    → encode_record tokens ++ rest
      ≡ (b'A' ∷ Decimal.print (length tokens)) ++ newline ∷ (encode_tokens tokens ++ rest)
unfolding encode_record
encode_record-append tokens rest = simp append_assoc

length-encode_record :
    (tokens : List Text)
    → length (encode_record tokens)
      ≡ (length (b'A' ∷ Decimal.print (length tokens)) + 1) + length (encode_tokens tokens)
unfolding encode_record
length-encode_record tokens =
    omega (arith, length-append (Decimal.print (length tokens)) (newline ∷ encode_tokens tokens))

-- A record is read back whole, and what follows it is left.
pub read_record-encode_record :
    (tokens : List Text) (rest : Bytes)
    → IsRecord tokens
    → read_record (encode_record tokens ++ rest) ≡ got tokens (length (encode_record tokens)) rest
unfolding read_record
read_record-encode_record tokens rest h =
    let n = length tokens in
    let header = b'A' ∷ Decimal.print n in
    let body = encode_tokens tokens ++ rest in
    rw
      (
        encode_record-append tokens rest,
        length-encode_record tokens,
        read_header-line array_header_too_long in_record_header header body
            (header-IsLine b'A' n refl) (header-le b'A' n h.fits),
      )
      (got-then header (length header + 1) body _ tokens (length (encode_tokens tokens)) rest (
        rw (count-print n)
          (unfold read_elements in read_tokens-encode_tokens tokens rest h.framable)))

-- A record that is cut off anywhere behind its first byte is torn.
pub read_record-IsTorn :
    (tokens : List Text) (k : ℕ)
    → IsRecord tokens
    → k < length (encode_record tokens)
    → IsTorn (read_record (take k (encode_record tokens)))
unfolding encode_record read_record
read_record-IsTorn tokens k h lt =
    let n = length tokens in
    let header = b'A' ∷ Decimal.print n in
    cut_line (λ bs. IsTorn (read_record bs)) header (encode_tokens tokens) k lt
      (λ j le. (
        in_record_header,
        rw
            (read_header-torn array_header_too_long in_record_header (take j header)
              (IsLine-take j header (header-IsLine b'A' n refl))
              (omega (arith, length-take j header, header-le b'A' n h.fits)))
            (unfold ◌▹◌ in refl),
      ))
      (λ j small.
        let (why, e) = read_tokens-IsTorn tokens j h.framable small in
        (
          why,
          rw
              (read_header-line array_header_too_long in_record_header header
                (take j (encode_tokens tokens)) (header-IsLine b'A' n refl)
                (header-le b'A' n h.fits))
              (got-then_stop header (length header + 1) (take j (encode_tokens tokens)) _ torn why
                (rw (count-print n) (unfold read_elements in e))),
        ))
