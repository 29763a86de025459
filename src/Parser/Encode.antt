-- ===== src/Parser/Encode.antt =====
-- `KESPEncoder.encode_command` of parser.py: a command as the array that a server reads.
use kedis_python.Prelude.{Option, none, some, List, [], ◌∷◌, ◌++◌, length, Bytes, Text}
use kedis_python.Decimal
use kedis_python.TextCodec.{to_bytes}

-- One string: `S<length>\n<bytes>\n`.
unfoldable pub frame : Bytes → Bytes
frame raw = b'S' ∷ (Decimal.print (length raw) ++ b'\n' ∷ (raw ++ b'\n' ∷ []))

-- `for token in tokens`. `none` stands for the UnicodeEncodeError of a token.
unfoldable pub encode_parts : List Text → Option Bytes
encode_parts [] = some []
encode_parts (token ∷ tokens) = elim (to_bytes token) [
  | none ↦ none
  | some raw ↦ (elim (encode_parts tokens) [ none ↦ none | some parts ↦ some (frame raw ++ parts) ])
]

-- `encode_command(tokens)`.
unfoldable pub encode_command : List Text → Option Bytes
encode_command tokens = elim (encode_parts tokens) [
  | none ↦ none
  | some parts ↦ some (b'A' ∷ (Decimal.print (length tokens) ++ b'\n' ∷ parts))
]
