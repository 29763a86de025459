-- ===== src/Tests/Kesp.antt =====
-- The reply encoder and decoder of parser.py at concrete inputs.
use kedis_python.Prelude.{◌≡◌, refl, false, ◌++◌, length, arith, text_eq, codes, negsuc}
use kedis_python.Utf8
use kedis_python.TextCodec
use kedis_python.Decimal
use kedis_python.Parser
use kedis_python.Kesp.{Data, nil, int, text, array, dict, no_items, item, no_fields, field, Budget}
use kedis_python.Kesp.Encode as Encoder
use kedis_python.Kesp.Encode.{encode}
use kedis_python.Kesp.Decode.{got, decode}
use kedis_python.Kesp.Whole.{reply, decode-encode}
use kedis_python.Kesp.Within.{IsWithin}
use kedis_python.Kesp.Extent.{decode-IsWithin}
use kedis_python.Kesp.Chunks.{encode_reply}
use kedis_python.Kesp.Pieces.{join, join-encode_reply}

encode_run : Unit {0}
unfolding Utf8.encode_escape Utf8.encode_char TextCodec.to_bytes Decimal.print Parser.Encode.frame
    Encoder.charge Encoder.check Encoder.one_line Encoder.cut_line Encoder.error_bytes
    Encoder.error_line Encoder.bulk_bytes Encoder.encode_bulk Encoder.print_ℤ Encoder.encode_int
    Encoder.after_marker Encoder.status_of Encoder.error_of Encoder.encode_top Encoder.length_items
    Encoder.length_fields Encoder.array_header Encoder.encode_part Encoder.encode_items
    Encoder.encode_fields encode
encode_run = tt

-- [-5, {"f": nil}], with an element that only looks like an error.
abbrev mixed : Data
mixed = array (
    item (int (negsuc 4))
      (item (dict (field (codes "f") nil no_fields)) (item (text false (codes "-ERR")) no_items)))

mixed_run : encode mixed ≡ codes "A3\nI-5\nA2\nS1\nf\nN\nS4\n-ERR\n"
unfolding encode_run
mixed_run = refl

error_run : encode (text false (codes "-ERR no\nsuch")) ≡ codes "Eno such\n"
unfolding encode_run text_eq
error_run = refl

decode-encode_example :
    (b : Budget) × (decode false (encode mixed ++ codes "N\n")
      ≡ got (reply mixed, b) (length (encode mixed)) (codes "N\n"))
decode-encode_example = decode-encode mixed (codes "N\n")

decode-IsWithin_example : IsWithin (codes "A2\nN\n") (decode false (codes "A2\nN\n"))
decode-IsWithin_example = decode-IsWithin false (codes "A2\nN\n")

join-encode_reply_example : join (encode_reply 2 mixed) ≡ encode mixed
join-encode_reply_example = join-encode_reply 2 mixed (omega arith)
