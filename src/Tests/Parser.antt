-- ===== src/Tests/Parser.antt =====
-- parser.py at concrete inputs.
use kedis_python.Prelude.{
  arith, List, length, some, map, ◌≡◌, refl, true, [], ◌∷◌, ◌++◌, codes, Bytes, Text,
}
use kedis_python.Parser
use kedis_python.Parser.{
  Part, got, wait, fail, expected_s, parse_frame, Parsed, tokens, error, parse_buffer,
}
use kedis_python.Parser.Progress.{IsAnswered, parse_buffer-IsAnswered}
use kedis_python.Parser.Fragments.{parse_frame-IsStable}
use kedis_python.Parser.Stable.{IsStable}
use kedis_python.Aof
use kedis_python.Decimal
use kedis_python.Utf8
use kedis_python.Words
use kedis_python.TextCodec
use kedis_python.TextCodec.{to_text}
use kedis_python.Parser.Encode.{encode_command}
use kedis_python.Parser.RoundTrip.{parse_frame-encode_command}

-- What the runs below compute with.
parse_run : Unit {0}
unfolding Aof.split_line Decimal.count Utf8.step Utf8.decode_escape_from Words.split
    TextCodec.to_text parse_buffer Parser.parse_from Parser.normalised parse_frame Parser.read_array
    Parser.read_elements Parser.read_element Parser.read_sized Parser.read_payload Parser.read_end
    Parser.read_inline Parser.count_of Parser.read_line Parser.◌▹◌ Parser.behind
parse_run = tt

abbrev same : Text → Text
same t = t

abbrev ping : Bytes
ping = codes "A1\nS4\nPING\n"

-- Blank frames in front of a command count as its bytes, and what follows is left.
pipelined :
    parse_buffer same true (codes "\nA0\n" ++ ping ++ ping) ≡ (tokens (codes "PING" ∷ []), 15, 0)
unfolding parse_run
pipelined = refl

-- A payload of which three bytes are there: the frame is whole at eleven.
cut_off : parse_buffer same true (codes "A1\nS4\nPIN") ≡ (tokens [], 0, 11)
unfolding parse_run
cut_off = refl

inline_run :
    parse_buffer same true (codes " get  k\n") ≡ (tokens (codes "get" ∷ codes "k" ∷ []), 8, 0)
unfolding parse_run
inline_run = refl

desync : parse_buffer same true (codes "A1\nX") ≡ (error expected_s, 4, 0)
unfolding parse_run
desync = refl

parse_buffer-IsAnswered_example : IsAnswered 9 (parse_buffer same true (codes "A1\nS4\nPIN"))
parse_buffer-IsAnswered_example = parse_buffer-IsAnswered same true (codes "A1\nS4\nPIN")

parse_frame-IsStable_example :
    IsStable (codes "more") (parse_frame ping) (parse_frame (ping ++ codes "more"))
parse_frame-IsStable_example = parse_frame-IsStable b'A' (codes "1\nS4\nPING\n") (codes "more")

-- Two tokens, the second of which is no UTF-8.
abbrev two_raws : List Bytes
two_raws = codes "GET" ∷ (0xFF ∷ 0x41 ∷ []) ∷ []

parse_frame-encode_command_example :
    (wire : Bytes) × (encode_command (map to_text two_raws) ≡ some wire)
    × (parse_frame (wire ++ ping) ≡ got (map to_text two_raws) (length wire) ping)
parse_frame-encode_command_example =
    parse_frame-encode_command two_raws ping
      ((omega arith, (omega arith, (omega arith, tt))), ((omega arith, (omega arith, tt)), tt))
      (omega arith) (omega arith)
