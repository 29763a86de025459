-- ===== src/Kesp/Decode.antt =====
-- `KESPDecoder` of parser.py: one reply off the front of a buffer. Where the source keeps a position, a
-- part here takes the bytes from there on, and what it needs counts from there as well.
use kedis_python.Prelude.{
  ℕ, zero, suc, ◌+◌, ◌-◌, Bool, true, false, not, ◌&&◌, Option, none, some, [], ◌∷◌, ltb, ◌==◌,
  if◌then◌else◌, length, take, drop, Bytes, Text, ℤ, pos, negsuc,
}
use kedis_python.Decimal
use kedis_python.TextCodec.{to_text}
use kedis_python.Aof.{split_line}
use kedis_python.Parser.{max_header_line, max_array_length, max_bulk_length}
use kedis_python.Kesp.{
  Decoded, nothing, number, status, error, legacy, bulk, list, Decodeds, end, more, Budget,
  max_depth, max_line, full_budget,
}

-- `ReplyProtocolError`, by its message.
pub data DecodeError : Type 0 where
  too_deep unexpected_type line_too_long too_many_elements payload_too_large : DecodeError
  invalid_nil invalid_number invalid_length not_terminated invalid_array : DecodeError

-- A value with the bytes it took and those that follow, an IncompleteReply with its `need`, or a
-- ReplyProtocolError.
pub data Reading {ℓ} (A : Type ℓ) : Type ℓ where
  got : A → ℕ → Bytes → Reading A
  incomplete : ℕ → Reading A
  refused : DecodeError → Reading A

-- A part behind `n` bytes that have been read.
unfoldable pub behind {ℓ} : {A : Type ℓ} → ℕ → Reading A → Reading A
behind n (got a m rest) = got a (n + m) rest
behind n (incomplete need) = incomplete (n + need)
behind n (refused e) = refused e

infixl 6 ◌▹◌
unfoldable pub ◌▹◌ {ℓ κ} :
    {A : Type ℓ} {B : Type κ} → Reading A → (A → Bytes → Reading B) → Reading B
incomplete need ▹ f = incomplete need
refused e ▹ f = refused e
got a n rest ▹ f = behind n (f a rest)

-- The type byte.
pub data Sigil : Type 0 where
  is_nil is_int is_bulk is_array is_status is_error is_legacy unknown : Sigil

unfoldable pub sigil_of : ℕ → Sigil
sigil_of b =
    if b == b'N'
    then is_nil
    else if b == b'I'
    then is_int
    else if b == b'S'
    then is_bulk
    else if b == b'A'
    then is_array
    else if b == b'+'
    then is_status
    else if b == b'E'
    then is_error
    else if b == b'-'
    then is_legacy
    else unknown

-- Lines that carry text may be long; everything else is a short header.
unfoldable pub limit_of : Sigil → ℕ
limit_of is_nil = max_header_line
limit_of is_int = max_header_line
limit_of is_bulk = max_header_line
limit_of is_array = max_header_line
limit_of s = max_line

-- A line up to its newline, no longer than a limit.
unfoldable pub read_line : ℕ → Bytes → Reading Bytes
read_line limit buf = elim (split_line buf) [
  | none ↦ if ltb limit (length buf) then refused line_too_long else incomplete (length buf + 1)
  | some (line, rest) ↦
      if ltb limit (length line) then refused line_too_long else got line (length line + 1) rest
]

-- `line[:-1]` where the line ends in "\r".
unfoldable pub strip_cr : Bytes → Bytes
strip_cr [] = []
strip_cr (b ∷ []) = if b == 13 then [] else b ∷ []
strip_cr (b ∷ c ∷ r) = b ∷ strip_cr (c ∷ r)

abbrev pub may_end_in_cr : Bool → Sigil → Bool
may_end_in_cr lenient is_status = true
may_end_in_cr lenient is_legacy = true
may_end_in_cr lenient s = lenient

unfoldable pub line_of : Bool → Sigil → Bytes → Bytes
line_of lenient s line = if may_end_in_cr lenient s then strip_cr line else line

-- Whether the value is the text of its line, which counts as payload.
abbrev pub carries_text : Sigil → Bool
carries_text is_nil = false
carries_text is_int = false
carries_text is_bulk = false
carries_text is_array = false
carries_text s = true

-- The value charged to the budgets.
unfoldable pub charge : Sigil → Bytes → Budget → Bytes → Reading Budget
charge s line b rest =
    if b.elements == 0
    then refused too_many_elements
    else (let b = record b { elements = b.elements - 1 } in
        if carries_text s
        then if ltb b.payload (length line)
          then refused payload_too_large
          else got (record b { payload = b.payload - length line }) 0 rest
        else got b 0 rest)

-- `_integer(raw)`: `0|-?[1-9][0-9]*`.
unfoldable pub integer_of : Bytes → Option ℤ
integer_of [] = none
integer_of (c ∷ ds) =
    if c == b'-'
    then (elim (Decimal.count ds) [
      | none ↦ none
      | some zero ↦ none
      | some (suc n) ↦ some (negsuc n)
    ])
    else (elim (Decimal.count (c ∷ ds)) [ none ↦ none | some n ↦ some (pos n) ])

abbrev pub Result : Type 0
Result = Reading (Decoded × Budget)

unfoldable pub read_integer : Option ℤ → Budget → Bytes → Result
read_integer none b rest = refused invalid_number
read_integer (some n) b rest = got (number n, b) 0 rest

-- The bytes of a bulk string and the newline behind them.
unfoldable pub read_end : Bytes → Bytes → Reading Text
read_end raw [] = refused not_terminated
read_end raw (c ∷ rest) =
    if c == b'\n' then got (to_text raw) (length raw + 1) rest else refused not_terminated

unfoldable pub read_payload : ℕ → Bytes → Reading Text
read_payload size buf =
    if ltb (length buf) (size + 1)
    then incomplete (size + 1)
    else read_end (take size buf) (drop size buf)

unfoldable pub read_bulk : Option ℕ → Budget → Bytes → Result
read_bulk none b buf = refused invalid_number
read_bulk (some size) b buf =
    if ltb max_bulk_length size
    then refused invalid_length
    else if ltb b.payload size
    then refused payload_too_large
    else (read_payload size buf ▹ λ t rest.
        got (bulk t, record b { payload = b.payload - size }) 0 rest)

-- `for _ in range(count)`, with the decoder of one element.
unfoldable pub read_items :
    (Budget → Bytes → Result) → ℕ → Budget → Bytes → Reading (Decodeds × Budget)
read_items decode zero b buf = got (end, b) 0 buf
read_items decode (suc n) b buf = decode b buf ▹ λ v rest.
    read_items decode n v.1 rest ▹ λ vs rest'. got (more v.0 vs.0, vs.1) 0 rest'

unfoldable pub read_array : (Budget → Bytes → Result) → Option ℕ → Budget → Bytes → Result
read_array decode none b buf = refused invalid_number
read_array decode (some n) b buf =
    if ltb max_array_length n
    then refused invalid_array
    else if ltb b.elements n
    then refused too_many_elements
    else (read_items decode n b buf ▹ λ vs rest. got (list vs.0, vs.1) 0 rest)

-- The value of a line, by its type byte.
unfoldable pub read_value :
    Bool → (Budget → Bytes → Result) → Sigil → Bytes → Budget → Bytes → Result
read_value lenient decode is_nil line b buf =
    if ltb 1 (length line) && not lenient then refused invalid_nil else got (nothing, b) 0 buf
read_value lenient decode is_int line b buf = read_integer (integer_of (drop 1 line)) b buf
read_value lenient decode is_status line b buf = got (status (to_text (drop 1 line)), b) 0 buf
read_value lenient decode is_error line b buf = got (error (to_text (drop 1 line)), b) 0 buf
read_value lenient decode is_legacy line b buf = got (legacy (to_text line), b) 0 buf
read_value lenient decode is_bulk line b buf = read_bulk (Decimal.count (drop 1 line)) b buf
read_value lenient decode is_array line b buf =
    read_array decode (Decimal.count (drop 1 line)) b buf
read_value lenient decode unknown line b buf = got (status (to_text line), b) 0 buf

-- One reply of a known type, or any in the lenient mode.
unfoldable pub read_reply : Bool → (Budget → Bytes → Result) → Sigil → Budget → Bytes → Result
read_reply lenient decode s b buf = read_line (limit_of s) buf ▹ λ line rest.
    charge s (line_of lenient s line) b rest ▹ λ b rest.
    read_value lenient decode s (line_of lenient s line) b rest

unfoldable pub is_known : Sigil → Bool
is_known unknown = false
is_known s = true

-- `decode(buf, pos, depth, lenient, budget)`, on the levels of nesting that are left: 33 for a reply.
unfoldable pub decode_level : Bool → ℕ → Budget → Bytes → Result
decode_level lenient zero b buf = refused too_deep
decode_level lenient (suc levels) b [] = incomplete 1
decode_level lenient (suc levels) b (c ∷ r) =
    if not (is_known (sigil_of c)) && not lenient
    then refused unexpected_type
    else read_reply lenient (decode_level lenient levels) (sigil_of c) b (c ∷ r)

-- `decode(buf)`.
unfoldable pub decode : Bool → Bytes → Result
decode lenient buf = decode_level lenient (suc max_depth) full_budget buf
