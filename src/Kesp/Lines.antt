-- ===== src/Kesp/Lines.antt =====
-- Reading back one line of a reply, with the budgets it is charged to.
use kedis_python.Prelude.{
  ℕ, suc, ◌+◌, ◌-◌, ◌≤◌, ◌≡◌, refl, ap, ◌∙◌, true, false, some, ◌∷◌, ◌++◌, ltb, ◌==◌, length,
  length-append, take-length-append, drop-length-append, arith, Bytes, ℤ, pos, negsuc,
}
use kedis_python.Decimal
use kedis_python.Decimal.{is_digit}
use kedis_python.Decimal.RoundTrip.{count-print}
use kedis_python.Decimal.Digits.{print-cons}
use kedis_python.Aof.{newline}
use kedis_python.Aof.Framing.{IsLine, split_line-line, header-IsLine, header-le}
use kedis_python.TextCodec.{to_text}
use kedis_python.Parser.{max_header_line, max_bulk_length}
use kedis_python.Parser.Encode.{frame}
use kedis_python.Parser.RoundTrip.{length-frame, frame-append}
use kedis_python.Kesp.{Decoded, bulk, number, Budget}
use kedis_python.Kesp.Encode.{print_ℤ}
use kedis_python.Kesp.Decode.{
  Reading, got, behind, ◌▹◌, Sigil, is_int, is_bulk, sigil_of, limit_of, read_line, line_of,
  carries_text, may_end_in_cr, charge, integer_of, read_integer, read_end, read_payload, read_bulk,
  read_value, read_reply, decode_level, is_known,
}

-- The budget behind one value.
abbrev pub spent : Budget → Budget
spent b = record b { elements = b.elements - 1 }

pub got-then {ℓ κ} :
    {A : Type ℓ} {B : Type κ} (a : A) (n : ℕ) (rest : Bytes) (f : A → Bytes → Reading B) (b : B)
    (m : ℕ) (rest' : Bytes)
    → f a rest ≡ got b m rest'
    → (got a n rest ▹ f) ≡ got b (n + m) rest'
unfolding ◌▹◌ behind
got-then a n rest f b m rest' e = rw e refl

pub read_line-line :
    (limit : ℕ) (line rest : Bytes)
    → IsLine line
    → length line ≤ limit
    → read_line limit (line ++ newline ∷ rest) ≡ got line (length line + 1) rest
unfolding read_line
read_line-line limit line rest h k =
    let short : ltb limit (length line) ≡ false = ground (arith, k) in
    rw (split_line-line line rest h, read_line, short) refl

-- A short line whose type byte says that it is no text.
abbrev pub IsHeader : Sigil → Type 0
IsHeader s =
    (limit_of s ≡ max_header_line) × (carries_text s ≡ false) × (may_end_in_cr false s ≡ false)

-- What a header line comes to is what its type makes of it and of what follows.
pub decode_level-header :
    (levels : ℕ) (b : Budget) (c : ℕ) (body rest : Bytes) (s : Sigil) (v : Decoded × Budget) (n : ℕ)
    (rest' : Bytes)
    → sigil_of c ≡ s
    → is_known s ≡ true
    → IsHeader s
    → IsLine (c ∷ body)
    → length (c ∷ body) ≤ max_header_line
    → (b.elements == 0) ≡ false
    → read_value false (decode_level false levels) s (c ∷ body) (spent b) rest ≡ got v n rest'
    → decode_level false (suc levels) b ((c ∷ body) ++ newline ∷ rest)
      ≡ got v (length (c ∷ body) + 1 + n) rest'
unfolding decode_level read_reply charge line_of
decode_level-header levels b c body rest s v n rest' at known (lim, text, cr) line short left e =
    let zero_add : 0 + n ≡ n = omega arith in
    rw (at, known, lim, read_line-line max_header_line (c ∷ body) rest line short)
      (got-then (c ∷ body) (length (c ∷ body) + 1) rest _ v n rest' (
        rw (cr, left, text)
          (got-then (spent b) 0 rest _ v n rest' e ∙ ap (λ k. got v k rest') zero_add)))

integer_of-print : (n : ℕ) → integer_of (Decimal.print n) ≡ some (pos n)
unfolding integer_of
integer_of-print n =
    let (d, r, e, digit) = print-cons n in
    let plain : (d == b'-') ≡ false = ground (arith, digit) in
    rw e (rw plain (rw (← e) (rw (count-print n) refl)))

pub integer_of-print_ℤ : (n : ℤ) → integer_of (print_ℤ n) ≡ some n
unfolding integer_of print_ℤ
integer_of-print_ℤ (pos n) = integer_of-print n
integer_of-print_ℤ (negsuc n) = rw (count-print (suc n)) refl

IsLine-print_ℤ : (n : ℤ) → IsLine (b'I' ∷ print_ℤ n)
unfolding print_ℤ
IsLine-print_ℤ (pos n) = header-IsLine b'I' n refl
IsLine-print_ℤ (negsuc n) = (refl, header-IsLine b'-' (suc n) refl)

pub decode_level-int :
    (levels : ℕ) (b : Budget) (n : ℤ) (rest : Bytes)
    → (b.elements == 0) ≡ false
    → length (b'I' ∷ print_ℤ n) ≤ max_header_line
    → decode_level false (suc levels) b ((b'I' ∷ print_ℤ n) ++ newline ∷ rest)
      ≡ got (number n, spent b) (length (b'I' ∷ print_ℤ n) + 1 + 0) rest
decode_level-int levels b n rest left short =
    decode_level-header levels b b'I' (print_ℤ n) rest is_int (number n, spent b) 0 rest
      (unfold sigil_of in refl) (unfold is_known in refl) (unfold limit_of in refl, refl, refl)
      (IsLine-print_ℤ n) short left
      (unfold read_value read_integer in rw (integer_of-print_ℤ n) refl)

read_payload-append :
    (raw rest : Bytes)
    → read_payload (length raw) (raw ++ newline ∷ rest) ≡ got (to_text raw) (length raw + 1) rest
unfolding read_payload read_end
read_payload-append raw rest =
    let enough : ltb (length (raw ++ newline ∷ rest)) (length raw + 1) ≡ false =
      ground (arith, length-append raw (newline ∷ rest)) in
    rw (enough, take-length-append raw (newline ∷ rest), drop-length-append raw (newline ∷ rest))
      refl

-- The budget behind the payload of a string.
abbrev pub paid : Budget → Bytes → Budget
paid b raw = record b { payload = b.payload - length raw }

pub decode_level-frame :
    (levels : ℕ) (b : Budget) (raw rest : Bytes)
    → (b.elements == 0) ≡ false
    → ltb max_bulk_length (length raw) ≡ false
    → ltb b.payload (length raw) ≡ false
    → decode_level false (suc levels) b (frame raw ++ rest)
      ≡ got (bulk (to_text raw), paid (spent b) raw) (length (frame raw)) rest
decode_level-frame levels b raw rest left small fits =
    let n = length raw in
    let header = b'S' ∷ Decimal.print n in
    let result : Decoded × Budget = (bulk (to_text raw), paid (spent b) raw) in
    let payload : read_value false (decode_level false levels) is_bulk header (spent b)
          (raw ++ newline ∷ rest)
        ≡ got result (n + 1 + 0) rest =
      unfold read_value read_bulk in
      rw (count-print n, small, fits, read_payload-append raw rest)
        (got-then (to_text raw) (n + 1) rest _ result 0 rest refl) in
    let size : length header + 1 + (n + 1 + 0) ≡ length (frame raw) =
      omega (arith, length-frame raw) in
    rw (frame-append raw rest) (
      decode_level-header levels b b'S' (Decimal.print n) (raw ++ newline ∷ rest) is_bulk result
        (n + 1 + 0) rest (unfold sigil_of in refl) (unfold is_known in refl)
        (unfold limit_of in refl, refl, refl) (header-IsLine b'S' n refl)
        (header-le b'S' n (ground (arith, small))) left payload
      ∙ ap (λ k. got result k rest) size)
