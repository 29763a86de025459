-- ===== src/Parser.antt =====
-- kedis_python/parser.py, `CommandParser`: the commands in a buffer of network input, which may hold
-- several of them and end inside one. Where the source keeps a position in the buffer, a part here
-- takes the bytes from that position on; a hint counts from there as well. `str.upper` is a parameter.
pub mod Encode
pub mod RoundTrip
pub mod Sized
pub mod Stable
pub mod Fragments
pub mod Progress
use kedis_python.Prelude.{
  ℕ, zero, suc, ◌+◌, ◌-◌, ◌*◌, Bool, true, false, not, Option, none, some, List, [], ◌∷◌, ltb, ◌==◌,
  max, if◌then◌else◌, length, take, drop, Bytes, Text,
}
use kedis_python.Decimal
use kedis_python.Words.{split}
use kedis_python.TextCodec.{to_text}
use kedis_python.Aof.{split_line}

-- The limits of `CommandParser`.
abbrev pub max_inline_length : ℕ
max_inline_length = 64 * 1024

abbrev pub max_header_line : ℕ
max_header_line = 32

abbrev pub max_array_length : ℕ
max_array_length = 1024 * 1024

abbrev pub max_bulk_length : ℕ
max_bulk_length = 512 * 1024 * 1024

abbrev pub max_command_bytes : ℕ
max_command_bytes = 512 * 1024 * 1024

-- `ProtocolError`, by its message.
pub data ProtocolError : Type 0 where
  too_big_inline invalid_array_header invalid_multibulk_length expected_s : ProtocolError
  invalid_bulk_length too_large not_newline_terminated : ProtocolError

-- What reading a part of a frame comes to: a value, the bytes it took and those that follow; more
-- input, as the length that the part must reach; or an error.
pub data Part {ℓ} (A : Type ℓ) : Type ℓ where
  got : A → ℕ → Bytes → Part A
  wait : ℕ → Part A
  fail : ProtocolError → Part A

-- A part behind `n` bytes that have been read.
unfoldable pub behind {ℓ} : {A : Type ℓ} → ℕ → Part A → Part A
behind n (got a m rest) = got a (n + m) rest
behind n (wait hint) = wait (n + hint)
behind n (fail e) = fail e

infixl 6 ◌▹◌
unfoldable pub ◌▹◌ {ℓ κ} : {A : Type ℓ} {B : Type κ} → Part A → (A → Bytes → Part B) → Part B
wait hint ▹ f = wait hint
fail e ▹ f = fail e
got a n rest ▹ f = behind n (f a rest)

-- A line up to the newline that ends it, no longer than a limit.
unfoldable pub read_line : ℕ → ProtocolError → Bytes → Part Bytes
read_line limit too_long buf = elim (split_line buf) [
  | none ↦ if ltb limit (length buf) then fail too_long else wait (length buf + 1)
  | some (line, rest) ↦
      if ltb limit (length line) then fail too_long else got line (length line + 1) rest
]

-- `_count` on a header line, from its sigil on.
unfoldable pub count_of : Bytes → Option ℕ
count_of line = Decimal.count (drop 1 line)

-- A command line.
unfoldable pub read_inline : Bytes → Part (List Text)
read_inline buf =
    read_line max_inline_length too_big_inline buf ▹ λ line rest. got (split (to_text line)) 0 rest

-- The payload of a string and the newline behind it.
unfoldable pub read_end : Bytes → Bytes → Part Text
read_end raw [] = fail not_newline_terminated
read_end raw (b ∷ rest) =
    if b == b'\n' then got (to_text raw) (length raw + 1) rest else fail not_newline_terminated

unfoldable pub read_payload : ℕ → Bytes → Part Text
read_payload size buf =
    if ltb (length buf) (size + 1)
    then wait (size + 1)
    else read_end (take size buf) (drop size buf)

-- The declared length of a string against the limits; `declared` counts the payload bytes so far.
unfoldable pub read_sized : ℕ → Option ℕ → Bytes → Part (Text × ℕ)
read_sized declared none buf = fail invalid_bulk_length
read_sized declared (some size) buf =
    if ltb max_bulk_length size
    then fail invalid_bulk_length
    else if ltb max_command_bytes (declared + size)
    then fail too_large
    else (read_payload size buf ▹ λ token rest. got (token, declared + size) 0 rest)

-- One round of the loop over the declared elements.
unfoldable pub read_element : ℕ → Bytes → Part (Text × ℕ)
read_element declared [] = wait 1
read_element declared (b ∷ r) =
    if b == b'S'
    then (read_line max_header_line invalid_bulk_length (b ∷ r) ▹ λ line rest.
        read_sized declared (count_of line) rest)
    else fail expected_s

unfoldable pub read_elements : ℕ → ℕ → Bytes → Part (List Text)
read_elements zero declared buf = got [] 0 buf
read_elements (suc n) declared buf = read_element declared buf ▹ λ e rest.
    read_elements n e.1 rest ▹ λ tokens rest'. got (e.0 ∷ tokens) 0 rest'

unfoldable pub read_array : Option ℕ → Bytes → Part (List Text)
read_array none buf = fail invalid_multibulk_length
read_array (some n) buf =
    if ltb max_array_length n then fail invalid_multibulk_length else read_elements n 0 buf

-- `_parse_frame(raw_data, pos, hint)`.
unfoldable pub parse_frame : Bytes → Part (List Text)
parse_frame [] = read_inline []
parse_frame (b ∷ r) =
    if b == b'A'
    then (read_line max_header_line invalid_array_header (b ∷ r) ▹ λ line rest.
        read_array (count_of line) rest)
    else read_inline (b ∷ r)

-- What `parse_buffer` returns first: a token list or a ProtocolError.
pub data Parsed : Type 0 where
  tokens : List Text → Parsed
  error : ProtocolError → Parsed

module _ (upper : Text → Text) (normalise : Bool) where
  -- The command name is made upper case.
  unfoldable pub normalised : Text → List Text → List Text
  normalised name rest = (if normalise then upper name else name) ∷ rest

  -- `while pos < total`. The first number counts the bytes of a blank frame that has been read, the
  -- second is `pos - start`.
  unfoldable pub parse_from : ℕ → ℕ → Bytes → Parsed × ℕ × ℕ
  parse_from skip pos [] = (tokens [], pos, 0)
  parse_from (suc skip) pos (b ∷ r) = parse_from skip pos r
  parse_from zero pos (b ∷ r) = elim (parse_frame (b ∷ r)) [
    | wait hint ↦ (tokens [], pos, max hint 1)
    | fail e ↦ (error e, pos + length (b ∷ r), 0)
    | got [] n rest ↦ parse_from (n - 1) (pos + n) r
    | got (name ∷ rest) n after ↦ (tokens (normalised name rest), pos + n, 0)
  ]

  -- `parse_buffer(raw_data, start, normalise)`, on the bytes from `start` on.
  unfoldable pub parse_buffer : Bytes → Parsed × ℕ × ℕ
  parse_buffer buf = parse_from 0 0 buf
