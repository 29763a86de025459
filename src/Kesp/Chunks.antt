-- ===== src/Kesp/Chunks.antt =====
-- `KESPEncoder.encode_chunks` of parser.py and `encode_reply` of server.py: a reply in pieces, between
-- which the event loop runs.
use kedis_python.Prelude.{ℕ, zero, suc, ◌*◌, true, List, [], ◌∷◌, ltb, if◌then◌else◌, Bytes}
use kedis_python.Kesp.{
  Data, array, dict, Items, no_items, item, Fields, no_fields, field, Budget, full_budget,
}
use kedis_python.Kesp.Encode.{
  EncodeError, Encoding, done, raised, ◌>>=◌, Part, charge, array_header, length_items,
  length_fields, encode_part, encode_items, encode_fields, failure_reply,
}

-- What the generator yields, up to its end or its exception.
pub data Pieces : Type 0 where
  finish : Pieces
  fail : EncodeError → Pieces
  piece : Bytes → Pieces → Pieces

-- A part of a reply as one piece, with the pieces that its budget leaves to come.
unfoldable pub piece_of : Part → (Budget → Pieces) → Pieces
piece_of (done p) others = piece p.0 (others p.1)
piece_of (raised e) others = fail e

-- `items[:n]` and `items[n:]`.
unfoldable pub take_items : ℕ → Items → Items
take_items zero ds = no_items
take_items (suc n) no_items = no_items
take_items (suc n) (item d ds) = item d (take_items n ds)

unfoldable pub drop_items : ℕ → Items → Items
drop_items zero ds = ds
drop_items (suc n) no_items = no_items
drop_items (suc n) (item d ds) = drop_items n ds

unfoldable pub take_fields : ℕ → Fields → Fields
take_fields zero fs = no_fields
take_fields (suc n) no_fields = no_fields
take_fields (suc n) (field k d fs) = field k d (take_fields n fs)

unfoldable pub drop_fields : ℕ → Fields → Fields
drop_fields zero fs = fs
drop_fields (suc n) no_fields = no_fields
drop_fields (suc n) (field k d fs) = drop_fields n fs

-- `for i in range(0, len(items), chunk)`, on fuel: as many steps as there are items are enough.
unfoldable pub item_pieces : ℕ → ℕ → Items → Budget → Pieces
item_pieces fuel chunk no_items b = finish
item_pieces zero chunk (item d ds) b = finish
item_pieces (suc fuel) chunk (item d ds) b =
    piece_of (encode_items (take_items chunk (item d ds)) 1 b)
      (λ b. item_pieces fuel chunk (drop_items chunk (item d ds)) b)

unfoldable pub field_pieces : ℕ → ℕ → Fields → Budget → Pieces
field_pieces fuel chunk no_fields b = finish
field_pieces zero chunk (field k d fs) b = finish
field_pieces (suc fuel) chunk (field k d fs) b =
    piece_of (encode_fields (take_fields chunk (field k d fs)) 1 b)
      (λ b. field_pieces fuel chunk (drop_fields chunk (field k d fs)) b)

-- The header of a flat array or dict, checked as `_encode` does, and its pieces.
unfoldable pub headed : ℕ → (Budget → Pieces) → Pieces
headed n others =
    piece_of (charge full_budget >>= λ b. array_header n b >>= λ header. done (header, b)) others

-- `encode_chunks(data, chunk)`.
unfoldable pub encode_chunks : Data → ℕ → Pieces
encode_chunks (array ds) chunk =
    if ltb chunk (length_items ds)
    then headed (length_items ds) (item_pieces (length_items ds) chunk ds)
    else piece_of (encode_part (array ds) 0 true full_budget) (λ b. finish)
encode_chunks (dict fs) chunk =
    if ltb chunk (length_fields fs)
    then headed (length_fields fs * 2) (field_pieces (length_fields fs) chunk fs)
    else piece_of (encode_part (dict fs) 0 true full_budget) (λ b. finish)
encode_chunks d chunk = piece_of (encode_part d 0 true full_budget) (λ b. finish)

-- The pieces gathered in front of the last one, or the exception.
unfoldable pub gathered : Pieces → Encoding (List Bytes)
gathered finish = done []
gathered (fail e) = raised e
gathered (piece p ps) = gathered ps >>= λ parts. done (p ∷ parts)

-- `encode_reply(data)`.
unfoldable pub encode_reply : ℕ → Data → List Bytes
encode_reply chunk d = elim (gathered (encode_chunks d chunk)) [
  | done parts ↦ parts
  | raised e ↦ failure_reply e ∷ []
]
