-- ===== src/Kesp/Pieces.antt =====
-- A reply in pieces, as `encode_reply` of server.py gathers them, is the reply in one.
use kedis_python.Prelude.{
  ℕ, zero, suc, ◌-◌, ◌*◌, ◌≤◌, ◌<◌, ◌≡◌, refl, ap, ◌∙◌, true, List, [], ◌∷◌, ◌++◌, ltb, inl, inr,
  Bool-cases, arith, Bytes,
}
use mathlib.Core.List.{append-nil}
use kedis_python.Kesp.{
  Data, nil, other, bool, int, text, array, dict, Items, no_items, item, Fields, no_fields, field,
  Budget, full_budget,
}
use kedis_python.Kesp.Encode.{
  Encoding, done, raised, ◌>>=◌, Part, charge, check, array_header, length_items, length_fields,
  encode_part, encode_items, encode_fields, encode, failure_reply,
}
use kedis_python.Kesp.Chunks.{
  Pieces, finish, piece, piece_of, take_items, drop_items, take_fields, drop_fields, item_pieces,
  field_pieces, headed, encode_chunks, gathered, encode_reply,
}
use kedis_python.Kesp.Chain.{chain, prefixed, chain-take_items, chain-take_fields}

-- The pieces of a reply, joined.
unfoldable pub join : List Bytes → Bytes
join [] = []
join (p ∷ ps) = p ++ join ps

-- The joined pieces, or the exception.
abbrev joined : Pieces → Encoding Bytes
joined ps = gathered ps >>= λ parts. done (join parts)

-- The bytes of a part.
abbrev wire_of : Part → Encoding Bytes
wire_of m = m >>= λ p. done p.0

joined_part :
    (p : Bytes) (g : Encoding (List Bytes)) (m : Part)
    → (g >>= λ parts. done (join parts)) ≡ wire_of m
    → ((g >>= λ parts. done (p ∷ parts)) >>= λ parts. done (join parts)) ≡ wire_of (prefixed p m)
unfolding join
joined_part p (done parts) (done q) h = let e : join parts ≡ q.0 = ground (arith, h) in rw e refl
joined_part p (raised x) (raised y) h = h
joined_part p (done parts) (raised y) h = absurd (ground (arith, h))
joined_part p (raised x) (done q) h = absurd (ground (arith, h))

joined-piece :
    (p : Bytes) (ps : Pieces) (m : Part)
    → joined ps ≡ wire_of m
    → joined (piece p ps) ≡ wire_of (prefixed p m)
unfolding gathered join
joined-piece p ps m h = joined_part p (gathered ps) m h

joined-piece_of :
    (m : Part) (others : Budget → Pieces) (f : Budget → Part)
    → ((b : Budget) → joined (others b) ≡ wire_of (f b))
    → joined (piece_of m others) ≡ wire_of (chain m f)
unfolding piece_of
joined-piece_of (raised e) others f h = unfold gathered in refl
joined-piece_of (done p) others f h = joined-piece p.0 (others p.1) (f p.1) (h p.1)

length-drop_items : (n : ℕ) (ds : Items) → length_items (drop_items n ds) ≡ length_items ds - n
unfolding drop_items length_items
length-drop_items zero ds = omega arith
length-drop_items (suc n) no_items = omega arith
length-drop_items (suc n) (item d ds) = omega (arith, length-drop_items n ds)

length-drop_fields : (n : ℕ) (fs : Fields) → length_fields (drop_fields n fs) ≡ length_fields fs - n
unfolding drop_fields length_fields
length-drop_fields zero fs = omega arith
length-drop_fields (suc n) no_fields = omega arith
length-drop_fields (suc n) (field k d fs) = omega (arith, length-drop_fields n fs)

joined-item_pieces :
    (fuel chunk : ℕ) (ds : Items) (b : Budget)
    → 0 < chunk
    → length_items ds ≤ fuel
    → joined (item_pieces fuel chunk ds b) ≡ wire_of (encode_items ds 1 b)
unfolding item_pieces
joined-item_pieces fuel chunk no_items b h k = unfold gathered join encode_items in refl
joined-item_pieces zero chunk (item d ds) b h k = absurd (unfold length_items in omega (arith, k))
joined-item_pieces (suc fuel) chunk (item d ds) b h k =
    let whole = item d ds in
    let fewer : length_items (drop_items chunk whole) ≤ fuel =
      omega (arith, length-drop_items chunk whole, h, k) in
    joined-piece_of (encode_items (take_items chunk whole) 1 b) _
      (encode_items (drop_items chunk whole) 1)
      (λ b. joined-item_pieces fuel chunk (drop_items chunk whole) b h fewer)
    ∙ ap wire_of (chain-take_items chunk whole 1 b)

joined-field_pieces :
    (fuel chunk : ℕ) (fs : Fields) (b : Budget)
    → 0 < chunk
    → length_fields fs ≤ fuel
    → joined (field_pieces fuel chunk fs b) ≡ wire_of (encode_fields fs 1 b)
unfolding field_pieces
joined-field_pieces fuel chunk no_fields b h k = unfold gathered join encode_fields in refl
joined-field_pieces zero chunk (field key d fs) b h k =
    absurd (unfold length_fields in omega (arith, k))
joined-field_pieces (suc fuel) chunk (field key d fs) b h k =
    let whole = field key d fs in
    let fewer : length_fields (drop_fields chunk whole) ≤ fuel =
      omega (arith, length-drop_fields chunk whole, h, k) in
    joined-piece_of (encode_fields (take_fields chunk whole) 1 b) _
      (encode_fields (drop_fields chunk whole) 1)
      (λ b. joined-field_pieces fuel chunk (drop_fields chunk whole) b h fewer)
    ∙ ap wire_of (chain-take_fields chunk whole 1 b)

joined-whole : (m : Part) → joined (piece_of m (λ b. finish)) ≡ wire_of m
unfolding piece_of gathered join
joined-whole (done p) = ap done (append-nil p.0)
joined-whole (raised e) = refl

chain-header :
    (g : Encoding Bytes) (b : Budget) (f : Budget → Part)
    → chain (g >>= λ header. done (header, b)) f
      ≡ (g >>= λ header. f b >>= λ p. done (header ++ p.0, p.1))
chain-header (done header) b f = refl
chain-header (raised e) b f = refl

joined-headed :
    (n : ℕ) (others : Budget → Pieces) (f : Budget → Part)
    → ((b : Budget) → joined (others b) ≡ wire_of (f b))
    → joined (headed n others)
      ≡ wire_of (
          check 0 full_budget >>= λ b.
          array_header n b >>= λ header. f b >>= λ p. done (header ++ p.0, p.1))
unfolding headed check charge
joined-headed n others f h =
    let left = record full_budget { elements = full_budget.elements - 1 } in
    joined-piece_of (array_header n left >>= λ header. done (header, left)) others f h
    ∙ ap wire_of (chain-header (array_header n left) left f)

joined-encode_chunks :
    (d : Data) (chunk : ℕ)
    → 0 < chunk
    → joined (encode_chunks d chunk) ≡ wire_of (encode_part d 0 true full_budget)
unfolding encode_chunks
joined-encode_chunks nil chunk h = joined-whole (encode_part nil 0 true full_budget)
joined-encode_chunks other chunk h = joined-whole (encode_part other 0 true full_budget)
joined-encode_chunks (bool x) chunk h = joined-whole (encode_part (bool x) 0 true full_budget)
joined-encode_chunks (int n) chunk h = joined-whole (encode_part (int n) 0 true full_budget)
joined-encode_chunks (text is_bulk t) chunk h =
    joined-whole (encode_part (text is_bulk t) 0 true full_budget)
joined-encode_chunks (array ds) chunk h = elim (Bool-cases (ltb chunk (length_items ds))) [
  | inr short ↦ rw short (joined-whole (encode_part (array ds) 0 true full_budget))
  | inl long ↦ rw long (
      unfold encode_part in
      joined-headed (length_items ds) _ (encode_items ds 1)
        (λ b. joined-item_pieces (length_items ds) chunk ds b h (omega arith)))
]
joined-encode_chunks (dict fs) chunk h = elim (Bool-cases (ltb chunk (length_fields fs))) [
  | inr short ↦ rw short (joined-whole (encode_part (dict fs) 0 true full_budget))
  | inl long ↦ rw long (
      unfold encode_part in
      joined-headed (length_fields fs * 2) _ (encode_fields fs 1)
        (λ b. joined-field_pieces (length_fields fs) chunk fs b h (omega arith)))
]

sent_or_failed :
    (g : Encoding (List Bytes)) (m : Part)
    → (g >>= λ parts. done (join parts)) ≡ wire_of m
    → join (elim g [ done parts ↦ parts | raised e ↦ failure_reply e ∷ [] ])
      ≡ elim m [ done p ↦ p.0 | raised e ↦ failure_reply e ]
sent_or_failed (done parts) (done p) h = ground (arith, h)
sent_or_failed (raised e) (raised x) h =
    let q : e ≡ x = ground (arith, h) in
    unfold join in append-nil (failure_reply e) ∙ ap failure_reply q
sent_or_failed (done parts) (raised x) h = absurd (ground (arith, h))
sent_or_failed (raised e) (done p) h = absurd (ground (arith, h))

-- However a reply is cut into pieces, what the server sends for it is byte for byte what `encode`
-- returns: the whole reply, or the one error line, and never half a frame.
pub join-encode_reply : (chunk : ℕ) (d : Data) → 0 < chunk → join (encode_reply chunk d) ≡ encode d
unfolding encode_reply encode
join-encode_reply chunk d h =
    sent_or_failed (gathered (encode_chunks d chunk)) (encode_part d 0 true full_budget)
      (joined-encode_chunks d chunk h)
