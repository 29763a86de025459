-- ===== src/Tests/Aof.antt =====
-- aof.py and textcodec.py at concrete inputs.
use kedis_python.Prelude.{
  ◌≡◌, refl, ◌≤◌, some, List, [], ◌∷◌, ◌++◌, length, take, codes, Text, arith,
}
use kedis_python.Decimal
use kedis_python.Utf8
use kedis_python.Words
use kedis_python.TextCodec
use kedis_python.Aof
use kedis_python.Aof.{
  scan, encode_record, ScanResult, Reason, intact, torn, corrupt, no_reason, expected_string_header,
}
use kedis_python.Aof.Crash.{IsCommand, encode_log, with_ends, scan-torn_log}
use kedis_python.Aof.Repair.{clean, scan-repaired}

-- What the runs below compute with.
run : Unit {0}
unfolding Aof.scan Aof.scan_from Aof.read_command Aof.read_legacy Aof.read_record Aof.read_elements
    Aof.read_tokens Aof.read_token Aof.read_payload Aof.read_terminated Aof.read_header
    Aof.split_line Aof.◌▹◌ Aof.encode_record Aof.encode_tokens Aof.encode_token Decimal.print
    Decimal.count Utf8.encode_pass Utf8.decode_pass_from Utf8.pass_step Utf8.pass_error Utf8.step
    Utf8.decode_replace_from Words.split TextCodec.to_text TextCodec.to_bytes
    Utf8.decode_escape_from Utf8.encode_escape encode_log
run = tt

abbrev set_cmd : List Text
set_cmd = codes "SET" ∷ codes "k" ∷ codes "é" ∷ []

abbrev del_cmd : List Text
del_cmd = codes "DEL" ∷ codes "k" ∷ []

set_record : encode_record set_cmd ≡ codes "A3\nS3\nSET\nS1\nk\nS2\n" ++ 0xC3 ∷ 0xA9 ∷ 10 ∷ []
unfolding run
set_record = refl

-- A framed record behind a legacy line, and garbage behind both.
mixed : scan (codes "DEL a\n" ++ encode_record del_cmd ++ codes "A1\nX") ≡ (
  (codes "DEL" ∷ codes "a" ∷ [], 6) ∷ (del_cmd, 21) ∷ [],
  record { status = corrupt; good_end = 21; reason = expected_string_header },
)
unfolding run
mixed = refl

set_cmd-IsCommand : IsCommand set_cmd
unfolding run
set_cmd-IsCommand = record {
  nonempty = λ e. ground arith;
  encodable = record {
    framable = (
      record { text = omega arith; fits = omega arith },
      (
        record { text = omega arith; fits = omega arith },
        (record { text = omega arith; fits = omega arith }, tt),
      ),
    );
    fits = omega arith;
  };
}

del_cmd-IsCommand : IsCommand del_cmd
unfolding run
del_cmd-IsCommand = record {
  nonempty = λ e. ground arith;
  encodable = record {
    framable = (
      record { text = omega arith; fits = omega arith },
      (record { text = omega arith; fits = omega arith }, tt),
    );
    fits = omega arith;
  };
}

five_lt : 5 ≤ length (encode_record del_cmd)
unfolding run
five_lt = omega arith

scan-torn_log_example :
    (why : Reason) × (scan (encode_log (set_cmd ∷ []) ++ take 4 (encode_record del_cmd)) ≡ (
      with_ends 0 (set_cmd ∷ []),
      record { status = torn; good_end = length (encode_log (set_cmd ∷ [])); reason = why },
    ))
scan-torn_log_example =
    scan-torn_log (set_cmd ∷ []) del_cmd 4 (set_cmd-IsCommand, tt) del_cmd-IsCommand five_lt

scan-repaired_example :
    ((scan (codes "A1\nX")).1.good_end ≤ 4)
    × (scan (take (scan (codes "A1\nX")).1.good_end (codes "A1\nX"))
        ≡ ((scan (codes "A1\nX")).0, clean (scan (codes "A1\nX")).1.good_end))
scan-repaired_example = scan-repaired (codes "A1\nX")

to_bytes-to_text_example :
    TextCodec.to_bytes (TextCodec.to_text (0xC3 ∷ 0xA9 ∷ 0xE2 ∷ 0x82 ∷ 0xFF ∷ []))
    ≡ some (0xC3 ∷ 0xA9 ∷ 0xE2 ∷ 0x82 ∷ 0xFF ∷ [])
to_bytes-to_text_example =
    TextCodec.to_bytes-to_text (0xC3 ∷ 0xA9 ∷ 0xE2 ∷ 0x82 ∷ 0xFF ∷ []) (omega arith)

escaped :
    TextCodec.to_text (0xC3 ∷ 0xA9 ∷ 0xE2 ∷ 0x82 ∷ 0xFF ∷ []) ≡ 0xE9 ∷ 0xDCE2 ∷ 0xDC82 ∷ 0xDCFF ∷ []
unfolding run
escaped = refl
