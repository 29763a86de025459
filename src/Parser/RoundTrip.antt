-- ===== src/Parser/RoundTrip.antt =====
-- A command that `encode_command` of parser.py writes is the command that `CommandParser` reads.
use mathlib.Core.List.{append_assoc}
use kedis_python.Prelude.{
  ℕ, suc, ◌+◌, ◌≤◌, ◌<◌, ◌≡◌, refl, ap, ◌∙◌, false, some, List, [], ◌∷◌, ◌++◌, ltb, length,
  length-append, drop, take-length-append, drop-length-append, map, arith, Bytes, All,
}
use kedis_python.Decimal
use kedis_python.Decimal.RoundTrip.{count-print}
use kedis_python.Aof.{newline}
use kedis_python.Aof.Framing.{IsLine, split_line-line, header-IsLine, header-le}
use kedis_python.TextCodec.{to_text, to_bytes-to_text}
use kedis_python.Parser.{
  max_header_line, max_array_length, max_bulk_length, max_command_bytes, Part, got, behind, ◌▹◌,
  ProtocolError, invalid_array_header, invalid_bulk_length, read_line, read_end, read_payload,
  read_sized, read_element, read_elements, read_array, count_of, parse_frame,
}
use kedis_python.Parser.Encode.{frame, encode_parts, encode_command}

got-then {ℓ κ} :
    {A : Type ℓ} {B : Type κ} (a : A) (n : ℕ) (rest : Bytes) (f : A → Bytes → Part B) (b : B)
    (m : ℕ) (rest' : Bytes)
    → f a rest ≡ got b m rest'
    → (got a n rest ▹ f) ≡ got b (n + m) rest'
unfolding ◌▹◌ behind
got-then a n rest f b m rest' e = rw e refl

read_line-line :
    (limit : ℕ) (too_long : ProtocolError) (line rest : Bytes)
    → IsLine line
    → length line ≤ limit
    → read_line limit too_long (line ++ newline ∷ rest) ≡ got line (length line + 1) rest
unfolding read_line
read_line-line limit too_long line rest h k =
    let short : ltb limit (length line) ≡ false = ground (arith, k) in
    rw (split_line-line line rest h, read_line, short) refl

read_payload-append :
    (raw rest : Bytes)
    → read_payload (length raw) (raw ++ newline ∷ rest) ≡ got (to_text raw) (length raw + 1) rest
unfolding read_payload read_end
read_payload-append raw rest =
    let enough : ltb (length (raw ++ newline ∷ rest)) (length raw + 1) ≡ false =
      ground (arith, length-append raw (newline ∷ rest)) in
    rw (enough, take-length-append raw (newline ∷ rest), drop-length-append raw (newline ∷ rest))
      refl

read_sized-append :
    (declared : ℕ) (raw rest : Bytes)
    → declared + length raw ≤ max_command_bytes
    → read_sized declared (some (length raw)) (raw ++ newline ∷ rest)
      ≡ got (to_text raw, declared + length raw) (length raw + 1) rest
unfolding read_sized
read_sized-append declared raw rest h =
    let small : ltb max_bulk_length (length raw) ≡ false = ground (arith, h) in
    let fits : ltb max_command_bytes (declared + length raw) ≡ false = ground (arith, h) in
    let e : length raw + 1 + 0 ≡ length raw + 1 = omega arith in
    rw (small, fits, read_payload-append raw rest)
      (got-then (to_text raw) (length raw + 1) rest (λ t r. got (t, declared + length raw) 0 r)
          (to_text raw, declared + length raw) 0 rest refl
        ∙ ap (λ n. got (to_text raw, declared + length raw) n rest) e)

pub length-frame :
    (raw : Bytes)
    → length (frame raw) ≡ length (b'S' ∷ Decimal.print (length raw)) + 1 + (length raw + 1)
unfolding frame
length-frame raw = omega (
  arith,
  length-append (Decimal.print (length raw)) (newline ∷ (raw ++ newline ∷ [])),
  length-append raw (newline ∷ []),
)

pub frame-append :
    (raw rest : Bytes)
    → frame raw ++ rest ≡ (b'S' ∷ Decimal.print (length raw)) ++ newline ∷ (raw ++ newline ∷ rest)
unfolding frame
frame-append raw rest = simp append_assoc

read_element-frame :
    (declared : ℕ) (raw rest : Bytes)
    → declared + length raw ≤ max_command_bytes
    → read_element declared (frame raw ++ rest)
      ≡ got (to_text raw, declared + length raw) (length (frame raw)) rest
unfolding read_element count_of
read_element-frame declared raw rest h =
    let header = b'S' ∷ Decimal.print (length raw) in
    let body = raw ++ newline ∷ rest in
    rw
      (
        frame-append raw rest,
        length-frame raw,
        read_line-line max_header_line invalid_bulk_length header body
            (header-IsLine b'S' (length raw) refl) (header-le b'S' (length raw) (omega (arith, h))),
      )
      (got-then header (length header + 1) body
        (λ line r. read_sized declared (Decimal.count (drop 1 line)) r)
        (to_text raw, declared + length raw) (length raw + 1) rest
        (rw (count-print (length raw)) (read_sized-append declared raw rest h)))

frames : List Bytes → Bytes
frames [] = []
frames (raw ∷ raws) = frame raw ++ frames raws

-- The payload bytes of a command.
abbrev pub payload : List Bytes → ℕ
payload [] = 0
payload (raw ∷ raws) = length raw + payload raws

read_elements-frames :
    (raws : List Bytes) (declared : ℕ) (rest : Bytes)
    → declared + payload raws ≤ max_command_bytes
    → read_elements (length raws) declared (frames raws ++ rest)
      ≡ got (map to_text raws) (length (frames raws)) rest
unfolding read_elements frames
read_elements-frames [] declared rest h = refl
read_elements-frames (raw ∷ raws) declared rest h =
    let ih = read_elements-frames raws (declared + length raw) rest (omega (arith, h)) in
    let e : length (frame raw) + (length (frames raws) + 0) ≡ length (frame raw ++ frames raws) =
      omega (arith, length-append (frame raw) (frames raws)) in
    rw
      (
        append_assoc (frame raw) (frames raws) rest,
        read_element-frame declared raw (frames raws ++ rest) (omega (arith, h)),
      )
      (got-then (to_text raw, declared + length raw) (length (frame raw)) (frames raws ++ rest)
          (λ x r. read_elements (length raws) x.1 r ▹ λ ts r'. got (x.0 ∷ ts) 0 r')
          (map to_text (raw ∷ raws)) (length (frames raws) + 0) rest
          (rw ih (
            got-then (map to_text raws) (length (frames raws)) rest
              (λ ts r'. got (to_text raw ∷ ts) 0 r') (map to_text (raw ∷ raws)) 0 rest refl))
        ∙ ap (λ n. got (map to_text (raw ∷ raws)) n rest) e)

encode_parts-frames :
    (raws : List Bytes)
    → All (All (λ b. b < 256)) raws
    → encode_parts (map to_text raws) ≡ some (frames raws)
unfolding encode_parts frames
encode_parts-frames [] h = refl
encode_parts-frames (raw ∷ raws) h =
    rw (encode_parts, to_bytes-to_text raw h.0, encode_parts-frames raws h.1) refl

length-map : (raws : List Bytes) → length (map to_text raws) ≡ length raws
length-map [] = refl
length-map (raw ∷ raws) = ap suc (length-map raws)

-- Any tokens that came in as bytes, within the parser's limits on their number and on the sum of
-- their lengths, are written as a frame that the parser reads back as exactly those tokens, taking
-- exactly the frame's bytes and leaving what follows; no token is beyond encoding.
pub parse_frame-encode_command :
    (raws : List Bytes) (rest : Bytes)
    → All (All (λ b. b < 256)) raws
    → length raws ≤ max_array_length
    → payload raws ≤ max_command_bytes
    → (wire : Bytes) × (encode_command (map to_text raws) ≡ some wire)
      × (parse_frame (wire ++ rest) ≡ got (map to_text raws) (length wire) rest)
unfolding encode_command parse_frame read_array count_of
parse_frame-encode_command raws rest bytes few small =
    let n = length raws in
    let header = b'A' ∷ Decimal.print n in
    let fits : ltb max_array_length n ≡ false = ground (arith, few) in
    let e : length header + 1 + length (frames raws) ≡ length (header ++ newline ∷ frames raws) =
      omega (arith, length-append header (newline ∷ frames raws)) in
    (
      header ++ newline ∷ frames raws,
      rw (encode_command, encode_parts-frames raws bytes, length-map raws) refl,
      rw
          (
            append_assoc header (newline ∷ frames raws) rest,
            read_line-line max_header_line invalid_array_header header (frames raws ++ rest)
                (header-IsLine b'A' n refl) (header-le b'A' n (omega (arith, few))),
          )
          (got-then header (length header + 1) (frames raws ++ rest)
              (λ line r. read_array (Decimal.count (drop 1 line)) r) (map to_text raws)
              (length (frames raws)) rest
              (rw (count-print n, fits) (read_elements-frames raws 0 rest (omega (arith, small))))
            ∙ ap (λ n. got (map to_text raws) n rest) e),
    )
