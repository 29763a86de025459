-- ===== src/Kesp/Encode.antt =====
-- `KESPEncoder` of parser.py: a handler's value as the bytes of one reply.
use kedis_python.Prelude.{
  ℕ, zero, suc, ◌-◌, ◌*◌, ◌^◌, Bool, true, false, not, ◌||◌, Option, none, some, [], ◌∷◌, ◌++◌, ltb,
  leb, ◌==◌, if◌then◌else◌, length, take, Bytes, Text, text_eq, codes, ℤ, pos, negsuc,
}
use kedis_python.Decimal
use kedis_python.Utf8.{encode_char, is_surrogate, is_continuation}
use kedis_python.TextCodec.{to_bytes}
use kedis_python.Parser.{max_header_line, max_array_length, max_bulk_length}
use kedis_python.Parser.Encode.{frame}
use kedis_python.Kesp.{
  Data, nil, other, bool, int, text, array, dict, Items, no_items, item, Fields, no_fields, field,
  Budget, max_depth, max_line, full_budget,
}

-- `ReplyEncodeError`, by its message.
pub data EncodeError : Type 0 where
  too_deep too_many_elements integer_range not_utf8 string_too_large : EncodeError
  payload_too_large array_too_large unknown_type : EncodeError

unfoldable pub message : EncodeError → Text
message too_deep = codes "reply nested too deeply"
message too_many_elements = codes "reply has too many elements"
message integer_range = codes "integer out of range"
message not_utf8 = codes "string is not valid UTF-8"
message string_too_large = codes "string too large"
message payload_too_large = codes "reply payload too large"
message array_too_large = codes "array too large"
message unknown_type = codes "Unknown return type"

-- The bytes of a part of a reply with what is left of the budgets, or the exception.
pub data Encoding {ℓ} (A : Type ℓ) : Type ℓ where
  done : A → Encoding A
  raised : EncodeError → Encoding A

infixl 5 ◌>>=◌
abbrev pub ◌>>=◌ {ℓ κ} : {A : Type ℓ} {B : Type κ} → Encoding A → (A → Encoding B) → Encoding B
done a >>= f = f a
raised e >>= f = raised e

abbrev pub Part : Type 0
Part = Encoding (Bytes × Budget)

-- Charging one element to the budget.
unfoldable pub charge : Budget → Encoding Budget
charge b =
    if b.elements == 0
    then raised too_many_elements
    else done (record b { elements = b.elements - 1 })

-- `text.replace("\r", " ").replace("\n", " ")`.
unfoldable pub one_line : Text → Text
one_line [] = []
one_line (c ∷ s) = (if c == 13 then 32 else if c == 10 then 32 else c) ∷ one_line s

-- `text.encode("utf-8", "replace")`: a "?" for each surrogate.
unfoldable pub encode_replace : Text → Bytes
encode_replace [] = []
encode_replace (c ∷ s) = (if is_surrogate c then b'?' ∷ [] else encode_char c) ++ encode_replace s

-- `raw[i]`.
unfoldable pub byte_at : Bytes → ℕ → ℕ
byte_at [] i = 0
byte_at (b ∷ r) zero = b
byte_at (b ∷ r) (suc i) = byte_at r i

-- `while cut > 0 and raw[cut] & 0xC0 == 0x80: cut -= 1`.
unfoldable pub step_back : Bytes → ℕ → ℕ
step_back raw zero = 0
step_back raw (suc cut) =
    let rest = step_back raw cut in
    if is_continuation (byte_at raw (suc cut)) then rest else suc cut

abbrev pub error_limit : ℕ
error_limit = max_line - 1

-- An error text that is no longer than a line can hold.
unfoldable pub cut_line : Bytes → Bytes
cut_line raw =
    if ltb error_limit (length raw)
    then take (step_back raw (error_limit - 3)) raw ++ codes "..."
    else raw

unfoldable pub error_bytes : Text → Bytes
error_bytes t = elim (to_bytes (one_line t)) [
  | none ↦ cut_line (encode_replace (one_line t))
  | some raw ↦ cut_line raw
]

-- `_error_line(text)`.
unfoldable pub error_line : Text → Bytes
error_line t = b'E' ∷ (error_bytes t ++ b'\n' ∷ [])

-- `failure_reply(exc)`.
unfoldable pub failure_reply : EncodeError → Bytes
failure_reply e = error_line (codes "Internal server error: " ++ message e)

-- `_bulk(text, budget)`, on the bytes of the text.
unfoldable pub bulk_bytes : Option Bytes → Budget → Part
bulk_bytes none b = raised not_utf8
bulk_bytes (some raw) b =
    if ltb max_bulk_length (length raw)
    then raised string_too_large
    else if ltb b.payload (length raw)
    then raised payload_too_large
    else done (frame raw, record b { payload = b.payload - length raw })

unfoldable pub encode_bulk : Text → Budget → Part
encode_bulk t b = bulk_bytes (to_bytes t) b

unfoldable pub print_ℤ : ℤ → Bytes
print_ℤ (pos n) = Decimal.print n
print_ℤ (negsuc n) = b'-' ∷ Decimal.print (suc n)

abbrev pub magnitude : ℤ → ℕ
magnitude (pos n) = n
magnitude (negsuc n) = suc n

-- An integer: refused beyond 128 bits, and where the header line would be too long.
unfoldable pub encode_int : ℤ → Budget → Part
encode_int n b =
    if leb (2 ^ 128) (magnitude n)
    then raised integer_range
    else (let line = b'I' ∷ print_ℤ n in
        if ltb max_header_line (length line)
        then raised integer_range
        else done (line ++ b'\n' ∷ [], b))

-- `data == prefix or data.startswith(prefix + " ")`, with what the marker leaves.
unfoldable pub after_marker : Text → Text → Option Text
after_marker [] [] = some []
after_marker [] (c ∷ s) = if c == 32 then some s else none
after_marker (p ∷ ps) [] = none
after_marker (p ∷ ps) (c ∷ s) = if p == c then after_marker ps s else none

-- `data in _STATUSES`, with the line that is written.
unfoldable pub status_of : Text → Option Text
status_of t =
    if text_eq t (codes "OK")
    then some (codes "+OK")
    else if text_eq t (codes "+OK")
    then some (codes "+OK")
    else if text_eq t (codes "+QUEUED")
    then some (codes "+QUEUED")
    else none

unfoldable pub error_of : Text → Option Text
error_of t = elim (after_marker (codes "-ERR") t) [
  | some rest ↦ some rest
  | none ↦ after_marker (codes "ERROR") t
]

-- A plain string as the reply itself: a status, an error or data.
unfoldable pub encode_top : Text → Budget → Part
encode_top t b = elim (status_of t) [
  | some line ↦ done (line ++ b'\n' ∷ [], b)
  | none ↦ elim (error_of t) [ some rest ↦ done (error_line rest, b) | none ↦ encode_bulk t b ]
]

unfoldable pub length_items : Items → ℕ
length_items no_items = 0
length_items (item d ds) = suc (length_items ds)

unfoldable pub length_fields : Fields → ℕ
length_fields no_fields = 0
length_fields (field k d fs) = suc (length_fields fs)

-- The header of an array of `n` elements, with the checks on their number.
unfoldable pub array_header : ℕ → Budget → Encoding Bytes
array_header n b =
    if ltb max_array_length n
    then raised array_too_large
    else if ltb b.elements n
    then raised too_many_elements
    else done (b'A' ∷ (Decimal.print n ++ b'\n' ∷ []))

-- The depth and the element budget, which come first for every value.
unfoldable pub check : ℕ → Budget → Encoding Budget
check depth b = if ltb max_depth depth then raised too_deep else charge b

-- `_encode(data, depth, top, budget)`.
unfoldable mutual
  pub encode_part : Data → ℕ → Bool → Budget → Part
  encode_part nil depth top b = check depth b >>= λ b. done (codes "N\n", b)
  encode_part (bool x) depth top b =
      check depth b >>= λ b. done (if x then codes "I1\n" else codes "I0\n", b)
  encode_part (int n) depth top b = check depth b >>= λ b. encode_int n b
  encode_part (text is_bulk t) depth top b =
      check depth b >>= λ b. if is_bulk || not top then encode_bulk t b else encode_top t b
  encode_part (array ds) depth top b = check depth b >>= λ b.
      array_header (length_items ds) b >>= λ header.
      encode_items ds (suc depth) b >>= λ p. done (header ++ p.0, p.1)
  encode_part (dict fs) depth top b = check depth b >>= λ b.
      array_header (length_fields fs * 2) b >>= λ header.
      encode_fields fs (suc depth) b >>= λ p. done (header ++ p.0, p.1)
  encode_part other depth top b = check depth b >>= λ b. raised unknown_type

  pub encode_items : Items → ℕ → Budget → Part
  encode_items no_items depth b = done ([], b)
  encode_items (item d ds) depth b =
      encode_part d depth false b >>= λ p. encode_items ds depth p.1 >>= λ q. done (p.0 ++ q.0, q.1)

  pub encode_fields : Fields → ℕ → Budget → Part
  encode_fields no_fields depth b = done ([], b)
  encode_fields (field k d fs) depth b = charge b >>= λ b. encode_bulk k b >>= λ key.
      encode_part d depth false key.1 >>= λ p.
      encode_fields fs depth p.1 >>= λ q. done (key.0 ++ (p.0 ++ q.0), q.1)

-- `encode(data)`.
unfoldable pub encode : Data → Bytes
encode d = elim (encode_part d 0 true full_budget) [
  | done (wire, b) ↦ wire
  | raised e ↦ failure_reply e
]
