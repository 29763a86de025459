-- ===== src/Kesp/RoundTrip.antt =====
-- What `KESPEncoder` of parser.py writes inside a reply, `KESPDecoder` reads back, and both charge the
-- same to the whole-reply budgets.
use kedis_python.Prelude.{
  ℕ, suc, ◌+◌, ◌≤◌, ◌≡◌, refl, ap, ◌∙◌, false, Option, none, some, [], ◌∷◌, ◌++◌, ltb, ◌==◌,
  if◌then◌else◌, length, length-append, arith, Bytes, Text, ℤ, pos,
}
use mathlib.Core.List.{append_assoc}
use kedis_python.Decimal
use kedis_python.Decimal.RoundTrip.{count-print}
use kedis_python.Aof.{newline}
use kedis_python.Aof.Framing.{header-IsLine, header-le}
use kedis_python.TextCodec.{to_text, to_bytes}
use kedis_python.Parser.{max_header_line, max_array_length, max_bulk_length}
use kedis_python.Parser.Encode.{frame}
use kedis_python.Kesp.{
  Data, nil, other, bool, int, text, array, dict, Items, no_items, item, Fields, no_fields, field,
  Budget, Decoded, nothing, number, bulk, list, Decodeds, end, more, max_depth,
}
use kedis_python.Kesp.Encode.{
  Encoding, done, raised, ◌>>=◌, charge, check, bulk_bytes, encode_bulk, print_ℤ, encode_int,
  array_header,
}
use kedis_python.Kesp.Decode.{
  got, is_array, sigil_of, limit_of, is_known, read_value, read_items, read_array, decode_level,
}
use kedis_python.Kesp.Lines.{
  spent, paid, got-then, decode_level-header, decode_level-int, decode_level-frame,
}

pub >>=-eq-done {ℓ κ} :
    {A : Type ℓ} {B : Type κ} (m : Encoding A) (f : A → Encoding B) {b : B}
    → (m >>= f) ≡ done b
    → (a : A) × (m ≡ done a) × (f a ≡ done b)
>>=-eq-done (done a) f h = (a, refl, h)
>>=-eq-done (raised e) f h = absurd (ground (arith, h))

pub charge-eq-done :
    (b b' : Budget) → charge b ≡ done b' → ((b.elements == 0) ≡ false) × (b' ≡ spent b)
unfolding charge
charge-eq-done b b' h = ground (arith, h)

pub check-eq-done :
    (depth : ℕ) (b b' : Budget)
    → check depth b ≡ done b'
    → (ltb max_depth depth ≡ false) × ((b.elements == 0) ≡ false) × (b' ≡ spent b)
unfolding check charge
check-eq-done depth b b' h = ground (arith, h)

-- The text that a client sees: the bytes of the text, decoded.
unfoldable pub sent : Text → Text
sent t = elim (to_bytes t) [ none ↦ [] | some raw ↦ to_text raw ]

-- What a client sees of a value inside a reply.
unfoldable mutual
  pub view : Data → Decoded
  view nil = nothing
  view other = nothing
  view (bool b) = number (pos (if b then 1 else 0))
  view (int n) = number n
  view (text is_bulk t) = bulk (sent t)
  view (array ds) = list (view_items ds)
  view (dict fs) = list (view_fields fs)

  pub view_items : Items → Decodeds
  view_items no_items = end
  view_items (item d ds) = more (view d) (view_items ds)

  pub view_fields : Fields → Decodeds
  view_fields no_fields = end
  view_fields (field k d fs) = more (bulk (sent k)) (more (view d) (view_fields fs))

bulk_bytes-eq-done :
    (o : Option Bytes) (b : Budget) (p : Bytes × Budget)
    → bulk_bytes o b ≡ done p
    → (raw : Bytes) × (o ≡ some raw)
      × (ltb max_bulk_length (length raw) ≡ false)
      × (ltb b.payload (length raw) ≡ false)
      × (p ≡ (frame raw, paid b raw))
unfolding bulk_bytes
bulk_bytes-eq-done none b p h = absurd (ground (arith, h))
bulk_bytes-eq-done (some raw) b p h =
    (raw, refl, ground (arith, h), ground (arith, h), ground (arith, h))

sent-to_text : (t : Text) (raw : Bytes) → to_bytes t ≡ some raw → sent t ≡ to_text raw
unfolding sent
sent-to_text t raw e = rw (sent, e) refl

decode_level-raw :
    (levels : ℕ) (b : Budget) (t : Text) (p : Bytes × Budget) (rest raw : Bytes)
    → (b.elements == 0) ≡ false
    → to_bytes t ≡ some raw
    → ltb max_bulk_length (length raw) ≡ false
    → ltb b.payload (length raw) ≡ false
    → p ≡ (frame raw, paid (spent b) raw)
    → decode_level false (suc levels) b (p.0 ++ rest) ≡ got (bulk (sent t), p.1) (length p.0) rest
decode_level-raw levels b t p rest raw left e small fits q =
    rw (q, sent-to_text t raw e) (decode_level-frame levels b raw rest left small fits)

-- A string that could be encoded is read back.
pub decode_level-bulk :
    (levels : ℕ) (b : Budget) (t : Text) (p : Bytes × Budget) (rest : Bytes)
    → (b.elements == 0) ≡ false
    → encode_bulk t (spent b) ≡ done p
    → decode_level false (suc levels) b (p.0 ++ rest) ≡ got (bulk (sent t), p.1) (length p.0) rest
unfolding encode_bulk
decode_level-bulk levels b t p rest left h =
    let (raw, e, small, fits, q) = bulk_bytes-eq-done (to_bytes t) (spent b) p h in
    decode_level-raw levels b t p rest raw left e small fits q

encode_int-eq-done :
    (n : ℤ) (b : Budget) (p : Bytes × Budget)
    → encode_int n b ≡ done p
    → (length (b'I' ∷ print_ℤ n) ≤ max_header_line) × (p ≡ ((b'I' ∷ print_ℤ n) ++ newline ∷ [], b))
unfolding encode_int
encode_int-eq-done n b p h = ground (arith, h)

pub decode_level-encode_int :
    (levels : ℕ) (b : Budget) (n : ℤ) (p : Bytes × Budget) (rest : Bytes)
    → (b.elements == 0) ≡ false
    → encode_int n (spent b) ≡ done p
    → decode_level false (suc levels) b (p.0 ++ rest) ≡ got (number n, p.1) (length p.0) rest
decode_level-encode_int levels b n p rest left h =
    let (short, q) = encode_int-eq-done n (spent b) p h in
    let line = b'I' ∷ print_ℤ n in
    let size : length line + 1 + 0 ≡ length (line ++ newline ∷ []) =
      omega (arith, length-append line (newline ∷ [])) in
    rw (q, append_assoc line (newline ∷ []) rest)
      (decode_level-int levels b n rest left short ∙ ap (λ k. got (number n, spent b) k rest) size)

array_header-eq-done :
    (n : ℕ) (b : Budget) (header : Bytes)
    → array_header n b ≡ done header
    → (ltb max_array_length n ≡ false)
      × (ltb b.elements n ≡ false)
      × (header ≡ b'A' ∷ (Decimal.print n ++ newline ∷ []))
unfolding array_header
array_header-eq-done n b header h = ground (arith, h)

-- An array whose elements are read back is read back.
pub decode_level-array :
    (levels n : ℕ) (b b' : Budget) (header body rest : Bytes) (vs : Decodeds)
    → (b.elements == 0) ≡ false
    → array_header n (spent b) ≡ done header
    → read_items (decode_level false levels) n (spent b) (body ++ rest)
      ≡ got (vs, b') (length body) rest
    → decode_level false (suc levels) b ((header ++ body) ++ rest)
      ≡ got (list vs, b') (length (header ++ body)) rest
decode_level-array levels n b b' header body rest vs left h items =
    let (small, fits, q) = array_header-eq-done n (spent b) header h in
    let line = b'A' ∷ Decimal.print n in
    let result : Decoded × Budget = (list vs, b') in
    let value : read_value false (decode_level false levels) is_array line (spent b) (body ++ rest)
        ≡ got result (length body + 0) rest =
      unfold read_value read_array in
      rw (count-print n, small, fits, items)
        (got-then (vs, b') (length body) rest _ result 0 rest refl) in
    let size : length line + 1 + (length body + 0) ≡ length ((line ++ newline ∷ []) ++ body) =
      omega (arith, length-append (line ++ newline ∷ []) body, length-append line (newline ∷ [])) in
    rw
      (
        q,
        append_assoc (line ++ newline ∷ []) body rest,
        append_assoc line (newline ∷ []) (body ++ rest),
      )
      (decode_level-header levels b b'A' (Decimal.print n) (body ++ rest) is_array result
          (length body + 0) rest (unfold sigil_of in refl) (unfold is_known in refl)
          (unfold limit_of in refl, refl, refl) (header-IsLine b'A' n refl)
          (header-le b'A' n (ground (arith, small))) left value
        ∙ ap (λ k. got result k rest) size)
