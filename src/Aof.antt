-- ===== src/Aof.antt =====
-- kedis_python/aof.py: the framed records of the append-only file, and the scan that reads them,
-- legacy lines included. Where the source keeps a position in the buffer, the scan here carries
-- that position and the bytes from it on.
pub mod Framing
pub mod Torn
pub mod Repair
pub mod LocalParts
pub mod Local
pub mod Cut
pub mod Crash
use mathlib.Core.Option
use kedis_python.Prelude.{
  ℕ, zero, suc, ◌+◌, ◌-◌, Bool, true, false, not, ◌&&◌, ◌||◌, Option, none, some, List, [], ◌∷◌,
  ◌++◌, ltb, leb, ◌==◌, if◌then◌else◌, length, take, drop, Bytes, Text,
}
use kedis_python.Decimal
use kedis_python.Words.{split}
use kedis_python.Utf8.{encode_pass, decode_pass, decode_replace_from}

abbrev pub newline : ℕ
newline = b'\n'

abbrev pub max_header_line : ℕ
max_header_line = 32

-- One token of a record: `S<length>\n<payload>\n`.
unfoldable pub encode_token : Text → Bytes
encode_token token =
    let raw = encode_pass token in
    b'S' ∷ (Decimal.print (length raw) ++ newline ∷ (raw ++ newline ∷ []))

unfoldable pub encode_tokens : List Text → Bytes
encode_tokens [] = []
encode_tokens (token ∷ tokens) = encode_token token ++ encode_tokens tokens

-- `encode_record(tokens)`.
unfoldable pub encode_record : List Text → Bytes
encode_record tokens = b'A' ∷ (Decimal.print (length tokens) ++ newline ∷ encode_tokens tokens)

pub data Status : Type 0 where
  intact torn corrupt : Status

pub data Reason : Type 0 where
  no_reason in_record_header array_header_too_long invalid_array_header : Reason
  between_tokens expected_string_header string_header_too_long in_string_header : Reason
  invalid_string_length in_string not_newline_terminated not_utf8 : Reason

-- The scan's result object. `intact` is the status "ok".
pub record ScanResult : Type 0 where
  pub status : Status
  pub good_end : ℕ
  pub reason : Reason

-- The outcome of reading a part of a record: a value, the bytes that it took and those that follow.
pub data Read {ℓ} (A : Type ℓ) : Type ℓ where
  got : A → ℕ → Bytes → Read A
  stop : Status → Reason → Read A

-- `buf.find(b"\n", pos)`: the bytes before the newline and those behind it.
unfoldable pub split_line : Bytes → Option (Bytes × Bytes)
split_line [] = none
split_line (b ∷ r) =
    if b == newline then some ([], r) else Option.map (λ p. (b ∷ p.0, p.1)) (split_line r)

-- A header line from its sigil up to the newline: `too_long` where it is, or will be, longer than
-- the limit, `cut_off` where the buffer ends inside it.
unfoldable pub read_header : Reason → Reason → Bytes → Read Bytes
read_header too_long cut_off buf = elim (split_line buf) [
  | none ↦ if ltb max_header_line (length buf) then stop corrupt too_long else stop torn cut_off
  | some (line, rest) ↦
      if ltb max_header_line (length line)
      then stop corrupt too_long
      else got line (length line + 1) rest
]

-- The body of a token: its bytes, checked for the newline behind them and for valid UTF-8.
unfoldable pub read_terminated : Bytes → Bytes → Read Text
read_terminated raw [] = stop corrupt not_newline_terminated
read_terminated raw (b ∷ rest) =
    if b == newline
    then (elim (decode_pass raw) [
      | none ↦ stop corrupt not_utf8
      | some token ↦ got token (length raw + 1) rest
    ])
    else stop corrupt not_newline_terminated

unfoldable pub read_payload : Option ℕ → Bytes → Read Text
read_payload none buf = stop corrupt invalid_string_length
read_payload (some size) buf =
    if ltb (length buf) (size + 1)
    then stop torn in_string
    else read_terminated (take size buf) (drop size buf)

-- The value that a read part hands on, its bytes counted in.
infixl 6 ◌▹◌
unfoldable pub ◌▹◌ {ℓ κ} : {A : Type ℓ} {B : Type κ} → Read A → (A → Bytes → Read B) → Read B
stop st why ▹ f = stop st why
got a n rest ▹ f = elim (f a rest) [
  | got b m rest' ↦ got b (n + m) rest'
  | stop st why ↦ stop st why
]

-- The loop's body: one token of a framed record.
unfoldable pub read_token : Bytes → Read Text
read_token [] = stop torn between_tokens
read_token (b ∷ r) =
    if b == b'S'
    then (read_header string_header_too_long in_string_header (b ∷ r) ▹ λ line rest.
        read_payload (Decimal.count (drop 1 line)) rest)
    else stop corrupt expected_string_header

-- `for _ in range(count)`.
unfoldable pub read_tokens : ℕ → Bytes → Read (List Text)
read_tokens zero buf = got [] 0 buf
read_tokens (suc n) buf = read_token buf ▹ λ token rest. elim (read_tokens n rest) [
  | got tokens m rest' ↦ got (token ∷ tokens) m rest'
  | stop st why ↦ stop st why
]

unfoldable pub read_elements : Option ℕ → Bytes → Read (List Text)
read_elements none buf = stop corrupt invalid_array_header
read_elements (some n) buf = read_tokens n buf

-- A framed record, from its `A` on.
unfoldable pub read_record : Bytes → Read (List Text)
read_record buf = read_header array_header_too_long in_record_header buf ▹ λ line rest.
    read_elements (Decimal.count (drop 1 line)) rest

-- A line of the format before framing.
unfoldable pub read_legacy : Bytes → Read (List Text)
read_legacy buf = elim (split_line buf) [
  | none ↦ got (split (decode_replace_from 0 buf)) (length buf) []
  | some (line, rest) ↦ got (split (decode_replace_from 0 line)) (length line + 1) rest
]

-- `bytes.isalpha()` on one byte.
abbrev pub is_alpha : ℕ → Bool
is_alpha c = leb b'A' c && leb c b'Z' || leb b'a' c && leb c b'z'

-- One round of the scan's loop.
unfoldable pub read_command : Bytes → Read (List Text)
read_command [] = stop torn in_record_header
read_command (b ∷ []) = if b == b'A' then stop torn in_record_header else read_legacy (b ∷ [])
read_command (b ∷ c ∷ r) =
    if b == b'A' && not (is_alpha c) then read_record (b ∷ c ∷ r) else read_legacy (b ∷ c ∷ r)

abbrev pub Scan : Type 0
Scan = List (List Text × ℕ) × ScanResult

-- `if tokens: yield tokens, cursor`.
abbrev pub yielding : List Text → ℕ → Scan → Scan
yielding [] end s = s
yielding (t ∷ ts) end (cmds, res) = ((t ∷ ts, end) ∷ cmds, res)

-- `while pos < total`. The first number counts the bytes of a command that has been read.
unfoldable pub scan_from : ℕ → ℕ → Bytes → Scan
scan_from skip pos [] = ([], record { status = intact; good_end = pos; reason = no_reason })
scan_from (suc skip) pos (b ∷ r) = scan_from skip pos r
scan_from zero pos (b ∷ r) = elim (read_command (b ∷ r)) [
  | got tokens n rest ↦ yielding tokens (pos + n) (scan_from (n - 1) (pos + n) r)
  | stop st why ↦ ([], record { status = st; good_end = pos; reason = why })
]

-- `scan(buf, result)`: the commands with their ends, and the result.
unfoldable pub scan : Bytes → Scan
scan buf = scan_from 0 0 buf
