-- ===== src/TextCodec.antt =====
-- kedis_python/textcodec.py: text <-> bytes at the edges of the engine, with "surrogateescape".
use kedis_python.Prelude.{◌≡◌, ◌<◌, Option, some, Bytes, Text, All}
use kedis_python.Utf8.{decode_escape_from, encode_escape}
use kedis_python.Utf8.RoundTrip.{encode_escape-decode_escape}

-- `to_text(raw)`: never fails.
unfoldable pub to_text : Bytes → Text
to_text raw = decode_escape_from 0 raw

-- `to_bytes(text)`: `none` stands for UnicodeEncodeError.
unfoldable pub to_bytes : Text → Option Bytes
to_bytes text = encode_escape text

-- Every byte string, valid UTF-8 or not, comes back exactly: `to_bytes(to_text(raw)) == raw`, and
-- no UnicodeEncodeError is raised, for every list of numbers below 256.
pub to_bytes-to_text : (raw : Bytes) → All (λ b. b < 256) raw → to_bytes (to_text raw) ≡ some raw
unfolding to_text to_bytes
to_bytes-to_text raw h = encode_escape-decode_escape raw h
