-- ===== src/Kesp/Whole.antt =====
-- Whatever `KESPEncoder.encode` of parser.py returns is one complete reply that the strict
-- `KESPDecoder` accepts, whatever follows it.
use kedis_python.Prelude.{
  suc, ◌≡◌, refl, true, false, none, some, [], ◌∷◌, ◌++◌, length, drop, arith, Bytes, Text, text_eq,
  codes, Bool-cases, Option-cases, ◌⊎◌, ◌-◌, inl, inr,
}
use kedis_python.TextCodec.{to_text}
use kedis_python.Kesp.{
  Data, nil, other, bool, int, text, array, dict, Decoded, status, error, bulk, Budget, max_depth,
  full_budget,
}
use kedis_python.Kesp.Encode
use kedis_python.Kesp.Encode.{
  EncodeError, message, Encoding, done, raised, ◌>>=◌, check, status_of, error_of, error_bytes,
  error_line, failure_reply, encode_bulk, encode_top, encode_part, encode,
}
use kedis_python.Utf8.{step, decode_escape_from}
use kedis_python.Aof.{split_line}
use kedis_python.Kesp.Decode.{
  Reading, got, behind, ◌▹◌, decode_level, decode, read_reply, line_of, sigil_of, is_known,
  limit_of, read_value, read_line, strip_cr,
}
use kedis_python.Kesp.Decode
use kedis_python.Kesp.Lines.{spent}
use kedis_python.Kesp.RoundTrip.{view, sent, decode_level-bulk}
use kedis_python.Kesp.Accepts.{decode_level-encode_part}
use kedis_python.Kesp.ErrorLine.{told, decode_level-error_line}

-- What a client sees of a plain string: a status, an error or data.
unfoldable pub view_top : Text → Decoded
view_top t = elim (status_of t) [
  | some line ↦ status (drop 1 line)
  | none ↦ elim (error_of t) [
    | some rest ↦ error (to_text (error_bytes rest))
    | none ↦ bulk (sent t)
  ]
]

unfoldable pub view_whole : Data → Decoded
view_whole (text false t) = view_top t
view_whole d = view d

-- What a client sees of a reply: the value, or the error that stands in for it.
unfoldable pub reply : Data → Decoded
reply d = elim (encode_part d 0 true full_budget) [
  | done p ↦ view_whole d
  | raised e ↦ error (to_text (error_bytes (codes "Internal server error: " ++ message e)))
]

-- The decoder reads these bytes as that value, and stops where they end.
abbrev Accepted : Bytes → Decoded → Bytes → Type 0
Accepted wire v rest = (b : Budget) × (decode false (wire ++ rest) ≡ got (v, b) (length wire) rest)

-- The budget behind a status line.
abbrev pub announced : Bytes → Budget
announced line = record {
  elements = full_budget.elements - 1;
  payload = full_budget.payload - length line;
}

Accepted-ok : (rest : Bytes) → Accepted (codes "+OK\n") (status (codes "OK")) rest
unfolding decode decode_level read_reply Decode.charge line_of sigil_of is_known limit_of read_value
    read_line split_line strip_cr to_text decode_escape_from step behind ◌▹◌
Accepted-ok rest = (announced (codes "+OK"), refl)

Accepted-queued : (rest : Bytes) → Accepted (codes "+QUEUED\n") (status (codes "QUEUED")) rest
unfolding decode decode_level read_reply Decode.charge line_of sigil_of is_known limit_of read_value
    read_line split_line strip_cr to_text decode_escape_from step behind ◌▹◌
Accepted-queued rest = (announced (codes "+QUEUED"), refl)

status_of-eq-some :
    (t line : Text) → status_of t ≡ some line → (line ≡ codes "+OK") ⊎ (line ≡ codes "+QUEUED")
unfolding status_of
status_of-eq-some t line h = elim (Bool-cases (text_eq t (codes "OK"))) [
  | inl e ↦ inl (ground (arith, h, e))
  | inr e ↦ elim (Bool-cases (text_eq t (codes "+OK"))) [
    | inl e' ↦ inl (ground (arith, h, e, e'))
    | inr e' ↦ inr (ground (arith, h, e, e'))
  ]
]

Accepted-status :
    (t line rest : Bytes)
    → status_of t ≡ some line
    → Accepted (line ++ b'\n' ∷ []) (status (drop 1 line)) rest
Accepted-status t line rest h = elim (status_of-eq-some t line h) [
  | inl e ↦ rw e (Accepted-ok rest)
  | inr e ↦ rw e (Accepted-queued rest)
]

Accepted-error_line :
    (t : Text) (rest : Bytes) → Accepted (error_line t) (error (to_text (error_bytes t))) rest
unfolding decode
Accepted-error_line t rest = (told t, decode_level-error_line t rest)

Accepted-part :
    (d : Data) (p : Bytes × Budget) (rest : Bytes)
    → encode_part d 0 false full_budget ≡ done p
    → Accepted p.0 (view d) rest
unfolding decode
Accepted-part d p rest h =
    (p.1, decode_level-encode_part d 0 (suc max_depth) full_budget p rest refl h)

-- A plain string as the whole reply.
Accepted-encode_top :
    (t : Text) (p : Bytes × Budget) (rest : Bytes)
    → encode_top t (spent full_budget) ≡ done p
    → Accepted p.0 (view_top t) rest
unfolding encode_top view_top decode
Accepted-encode_top t p rest h = elim (Option-cases (status_of t)) [
  | inr (line, e) ↦
      let q : (line ++ b'\n' ∷ []) ≡ p.0 = ground (arith, h, e) in
      rw (e, view_top) (rw (← q) (Accepted-status t line rest e))
  | inl e ↦ elim (Option-cases (error_of t)) [
    | inr (after, e') ↦
        let q : error_line after ≡ p.0 = ground (arith, h, e, e') in
        rw (e, e', view_top) (rw (← q) (Accepted-error_line after rest))
    | inl e' ↦
        let q : encode_bulk t (spent full_budget) ≡ done p = ground (arith, h, e, e') in
        rw (e, e', view_top) (p.1, decode_level-bulk max_depth full_budget t p rest refl q)
  ]
]

Accepted-done :
    (d : Data) (p : Bytes × Budget) (rest : Bytes)
    → encode_part d 0 true full_budget ≡ done p
    → Accepted p.0 (view_whole d) rest
unfolding view_whole
Accepted-done nil p rest h = Accepted-part nil p rest (unfold encode_part in h)
Accepted-done other p rest h = Accepted-part other p rest (unfold encode_part in h)
Accepted-done (bool x) p rest h = Accepted-part (bool x) p rest (unfold encode_part in h)
Accepted-done (int n) p rest h = Accepted-part (int n) p rest (unfold encode_part in h)
Accepted-done (text true t) p rest h = Accepted-part (text true t) p rest (unfold encode_part in h)
Accepted-done (text false t) p rest h =
    Accepted-encode_top t p rest (unfold encode_part check Encode.charge in h)
Accepted-done (array ds) p rest h = Accepted-part (array ds) p rest (unfold encode_part in h)
Accepted-done (dict fs) p rest h = Accepted-part (dict fs) p rest (unfold encode_part in h)

Encoding-cases {ℓ} :
    {A : Type ℓ} (m : Encoding A) → ((a : A) × (m ≡ done a)) ⊎ ((e : EncodeError) × (m ≡ raised e))
Encoding-cases (done a) = inl (a, refl)
Encoding-cases (raised e) = inr (e, refl)

-- Whatever the encoder returns for a value, a client that is strict decodes it to what `reply` says,
-- takes exactly its bytes, and leaves whatever follows.
pub decode-encode :
    (d : Data) (rest : Bytes)
    → (b : Budget) × (decode false (encode d ++ rest) ≡ got (reply d, b) (length (encode d)) rest)
unfolding encode reply failure_reply
decode-encode d rest = elim (Encoding-cases (encode_part d 0 true full_budget)) [
  | inl (p, e) ↦ rw (e, encode, reply) (Accepted-done d p rest e)
  | inr (x, e) ↦
      rw (e, encode, reply)
        (Accepted-error_line (codes "Internal server error: " ++ message x) rest)
]
