-- ===== src/Aof/Framing.antt =====
-- Reading a record back: what follows it is left alone, and a record that is cut off is torn.
use kedis_python.Prelude.{
  ℕ, zero, suc, ◌+◌, ◌^◌, ◌≤◌, ◌<◌, ◌≡◌, refl, ap, ◌∙◌, true, false, none, some, List, [], ◌∷◌,
  ◌++◌, length, take, drop, Bytes, Text, All, arith, ltb, ◌==◌, take-length-append,
  drop-length-append, length-append, length-take,
}
use mathlib.Core.List.{append_assoc}
use kedis_python.Decimal
use kedis_python.Decimal.{is_digit, all_digits}
use kedis_python.Decimal.RoundTrip.{count-print}
use kedis_python.Decimal.Digits.{All-is_digit-print, length-print-le}
use kedis_python.Utf8.{encode_pass}
use kedis_python.Utf8.RoundTrip.{IsText, decode_pass-encode_pass}
use kedis_python.Aof.{
  Read, got, stop, newline, split_line, encode_token, read_header, read_token, torn, in_string,
  Reason, Status, string_header_too_long, in_string_header, read_payload, read_terminated, ◌▹◌,
  max_header_line,
}

-- No byte of the line is a newline.
abbrev pub IsLine : Bytes → Type 0
IsLine = All (λ b. (b == newline) ≡ false)

pub split_line-line :
    (line rest : Bytes) → IsLine line → split_line (line ++ newline ∷ rest) ≡ some (line, rest)
unfolding split_line
split_line-line [] rest h = refl
split_line-line (b ∷ line) rest h = ground (arith, split_line-line line rest h.1, h.0)

split_line-none : (line : Bytes) → IsLine line → split_line line ≡ none
unfolding split_line
split_line-none [] h = refl
split_line-none (b ∷ line) h = ground (arith, split_line-none line h.1, h.0)

pub IsLine-take : (k : ℕ) (line : Bytes) → IsLine line → IsLine (take k line)
IsLine-take zero line h = tt
IsLine-take (suc k) [] h = tt
IsLine-take (suc k) (b ∷ line) h = (h.0, IsLine-take k line h.1)

IsLine-digits : (ds : Bytes) → All (λ c. is_digit c ≡ true) ds → IsLine ds
IsLine-digits [] h = tt
IsLine-digits (d ∷ ds) h = (ground (arith, h.0), IsLine-digits ds h.1)

-- A header that is short enough is read up to its newline.
pub read_header-line :
    (long cut : Reason) (line rest : Bytes)
    → IsLine line
    → length line ≤ max_header_line
    → read_header long cut (line ++ newline ∷ rest) ≡ got line (length line + 1) rest
unfolding read_header
read_header-line long cut line rest h k =
    rw (split_line-line line rest h, read_header) (ground arith)

-- A header that is cut off before its newline is torn.
pub read_header-torn :
    (long cut : Reason) (line : Bytes)
    → IsLine line
    → length line ≤ max_header_line
    → read_header long cut line ≡ stop torn cut
unfolding read_header
read_header-torn long cut line h k = rw (split_line-none line h, read_header) (ground arith)

-- A number that fits a header line behind its sigil.
abbrev pub header_bound : ℕ
header_bound = 10 ^ 31

pub header-IsLine : (sigil n : ℕ) → (sigil == newline) ≡ false → IsLine (sigil ∷ Decimal.print n)
header-IsLine sigil n h = (h, IsLine-digits (Decimal.print n) (All-is_digit-print n))

pub header-le :
    (sigil n : ℕ) → n < header_bound → length (sigil ∷ Decimal.print n) ≤ max_header_line
header-le sigil n h = omega (arith, length-print-le n 30 h)

-- A token that the framing can carry.
pub record IsFramable (token : Text) : Type 0 where
  pub text : IsText token
  pub fits : length (encode_pass token) < header_bound

read_terminated-encode_pass :
    (token : Text) (rest : Bytes)
    → IsText token
    → read_terminated (encode_pass token) (newline ∷ rest)
      ≡ got token (length (encode_pass token) + 1) rest
unfolding read_terminated
read_terminated-encode_pass token rest h = rw (decode_pass-encode_pass token h)

-- A payload that has arrived, with its newline, is cut out whole.
pub read_payload-append :
    (raw rest : Bytes)
    → read_payload (some (length raw)) (raw ++ newline ∷ rest)
      ≡ read_terminated raw (newline ∷ rest)
unfolding read_payload
read_payload-append raw rest =
    let enough : ltb (length (raw ++ newline ∷ rest)) (length raw + 1) ≡ false =
      ground (arith, length-append raw (newline ∷ rest)) in
    rw (enough, take-length-append raw (newline ∷ rest), drop-length-append raw (newline ∷ rest))
      refl

read_payload-encode_pass :
    (token : Text) (rest : Bytes)
    → IsText token
    → read_payload (some (length (encode_pass token))) (encode_pass token ++ newline ∷ rest)
      ≡ got token (length (encode_pass token) + 1) rest
read_payload-encode_pass token rest h =
    read_payload-append (encode_pass token) rest ∙ read_terminated-encode_pass token rest h

pub length-encode_token :
    (token : Text)
    → length (encode_token token)
      ≡ (length (b'S' ∷ Decimal.print (length (encode_pass token))) + 1)
        + (length (encode_pass token) + 1)
unfolding encode_token
length-encode_token token =
    let raw = encode_pass token in
    omega (
      arith,
      length-append (Decimal.print (length raw)) (newline ∷ (raw ++ newline ∷ [])),
      length-append raw (newline ∷ []),
    )

-- The bytes of a token with what follows, bracketed as they are read.
encode_token-append :
    (token : Text) (rest : Bytes)
    → encode_token token ++ rest
      ≡ (b'S' ∷ Decimal.print (length (encode_pass token)))
        ++ newline ∷ (encode_pass token ++ newline ∷ rest)
unfolding encode_token
encode_token-append token rest = simp append_assoc

-- A part that was read hands its bytes on.
pub got-then {ℓ κ} :
    {A : Type ℓ} {B : Type κ} (a : A) (n : ℕ) (rest : Bytes) (f : A → Bytes → Read B) (b : B)
    (m : ℕ) (rest' : Bytes)
    → f a rest ≡ got b m rest'
    → (got a n rest ▹ f) ≡ got b (n + m) rest'
unfolding ◌▹◌
got-then a n rest f b m rest' e = ground (arith, e)

pub got-then_stop {ℓ κ} :
    {A : Type ℓ} {B : Type κ} (a : A) (n : ℕ) (rest : Bytes) (f : A → Bytes → Read B) (st : Status)
    (why : Reason)
    → f a rest ≡ stop st why
    → (got a n rest ▹ f) ≡ stop st why
unfolding ◌▹◌
got-then_stop a n rest f st why e = ground (arith, e)

-- A token is read back, and what follows it is left.
pub read_token-encode_token :
    (token : Text) (rest : Bytes)
    → IsFramable token
    → read_token (encode_token token ++ rest) ≡ got token (length (encode_token token)) rest
unfolding read_token
read_token-encode_token token rest h =
    let n = length (encode_pass token) in
    let header = b'S' ∷ Decimal.print n in
    let body = encode_pass token ++ newline ∷ rest in
    rw
      (
        encode_token-append token rest,
        length-encode_token token,
        read_header-line string_header_too_long in_string_header header body
            (header-IsLine b'S' n refl) (header-le b'S' n h.fits),
      )
      (got-then header (length header + 1) body
        (λ line r. read_payload (Decimal.count (drop 1 line)) r) token (n + 1) rest
        (rw (count-print n) (read_payload-encode_pass token rest h.text)))

-- Where a line and more is cut.
pub take-append-le {ℓ} :
    {A : Type ℓ} (k : ℕ) (xs ys : List A) → k ≤ length xs → take k (xs ++ ys) ≡ take k xs
take-append-le zero xs ys h = refl
take-append-le (suc k) [] ys h = absurd (omega arith)
take-append-le (suc k) (x ∷ xs) ys h = ap (◌∷◌ x) (take-append-le k xs ys (omega arith))

pub take-append-add {ℓ} :
    {A : Type ℓ} (k : ℕ) (xs ys : List A) → take (length xs + k) (xs ++ ys) ≡ xs ++ take k ys
take-append-add k [] ys = let e : 0 + k ≡ k = omega arith in rw e
take-append-add k (x ∷ xs) ys =
    let e : suc (length xs) + k ≡ suc (length xs + k) = omega arith in
    rw e (ap (◌∷◌ x) (take-append-add k xs ys))

-- A payload whose newline has not arrived is torn.
read_payload-torn :
    (size : ℕ) (buf : Bytes)
    → length buf < size + 1
    → read_payload (some size) buf ≡ stop torn in_string
unfolding read_payload
read_payload-torn size buf h = ground arith

-- The parts of a token that is cut off: nothing, a part of the header, a part of the body.
pub read_token-torn_header :
    (token : Text) (k : ℕ)
    → IsFramable token
    → k ≤ length (Decimal.print (length (encode_pass token)))
    → read_token (b'S' ∷ take k (Decimal.print (length (encode_pass token))))
      ≡ stop torn in_string_header
unfolding read_token ◌▹◌
read_token-torn_header token k h le =
    let n = length (encode_pass token) in
    let part = take k (Decimal.print n) in
    rw (
      read_header-torn string_header_too_long in_string_header (b'S' ∷ part)
        (IsLine-take (suc k) (b'S' ∷ Decimal.print n) (header-IsLine b'S' n refl))
        (omega (arith, length-take k (Decimal.print n), header-le b'S' n h.fits)))

pub read_token-torn_body :
    (token : Text) (part : Bytes)
    → IsFramable token
    → length part < length (encode_pass token) + 1
    → read_token ((b'S' ∷ Decimal.print (length (encode_pass token))) ++ newline ∷ part)
      ≡ stop torn in_string
unfolding read_token
read_token-torn_body token part h lt =
    let n = length (encode_pass token) in
    let header = b'S' ∷ Decimal.print n in
    rw
      (read_header-line string_header_too_long in_string_header header part
        (header-IsLine b'S' n refl) (header-le b'S' n h.fits))
      (got-then_stop header (length header + 1) part
        (λ line r. read_payload (Decimal.count (drop 1 line)) r) torn in_string
        (rw (count-print n) (read_payload-torn n part lt)))
