-- ===== src/Kesp/Accepts.antt =====
-- Every reply that `KESPEncoder` of parser.py encodes, `KESPDecoder` reads back whole.
use kedis_python.Prelude.{
  ℕ, suc, ◌+◌, ◌-◌, ◌*◌, ◌≡◌, false, ◌++◌, ◌==◌, if◌then◌else◌, arith, Bytes, Text, pos,
}
use mathlib.Core.Path.{subst}
use kedis_python.Kesp.{
  Data, nil, other, bool, int, text, array, dict, Items, no_items, item, Fields, no_fields, field,
  Budget, nothing, number, bulk, list, max_depth,
}
use kedis_python.Kesp.Encode.{
  done, ◌>>=◌, charge, encode_bulk, length_items, length_fields, encode_part, encode_items,
  encode_fields,
}
use kedis_python.Kesp.Decode.{read_value}
use kedis_python.Kesp.Lines.{spent}
use kedis_python.Kesp.RoundTrip.{
  view, view_items, view_fields, sent, >>=-eq-done, charge-eq-done, decode_level-bulk,
  decode_level-encode_int,
}
use kedis_python.Kesp.Elements.{
  open_level, decode_level-nil, decode_level-bool, read_items-end, read_items-more, done-injective,
  inner_text, array_case, shallow_part, field_case, Reads, ReadsItems,
}

field_step :
    (k : Text) (d : Data) (fs : Fields) (depth levels : ℕ) (b : Budget) (p : Bytes × Budget)
    (rest : Bytes)
    → depth + levels ≡ suc max_depth
    → (b.elements == 0) ≡ false
    → ((c : Budget) (q : Bytes × Budget) (after : Bytes)
        → encode_part d depth false c ≡ done q
        → Reads (view d) c q after levels)
    → ((c : Budget) (q : Bytes × Budget)
        → encode_fields fs depth c ≡ done q
        → ReadsItems (view_fields fs) (length_fields fs * 2) c q rest levels)
    → (encode_bulk k (spent b) >>= λ key. encode_part d depth false key.1 >>= λ p.
        encode_fields fs depth p.1 >>= λ q. done (key.0 ++ (p.0 ++ q.0), q.1))
      ≡ done p
    → ReadsItems (view_fields (field k d fs)) (length_fields (field k d fs) * 2) b p rest levels
unfolding view_fields length_fields
field_step k d fs depth levels b p rest e left read_value read_others h =
    let (key, written, g) = >>=-eq-done (encode_bulk k (spent b)) _ h in
    let (q, value, g') = >>=-eq-done (encode_part d depth false key.1) _ g in
    let (r, others, z) = >>=-eq-done (encode_fields fs depth q.1) _ g' in
    let shallow = shallow_part d depth key.1 q value in
    let level : levels ≡ suc (levels - 1) = ground (arith, e, shallow) in
    let size : suc (length_fields fs) * 2 ≡ suc (suc (length_fields fs * 2)) = omega arith in
    rw (done-injective _ p z, size)
      (field_case k d levels (length_fields fs * 2) b key q r (view_fields fs) rest level left
        written (read_value key.1 q (r.0 ++ rest) value) (read_others q.1 r others))

mutual
  unfolding encode_part encode_items encode_fields view length_items length_fields

  pub decode_level-encode_part :
      (d : Data) (depth levels : ℕ) (b : Budget) (p : Bytes × Budget) (rest : Bytes)
      → depth + levels ≡ suc max_depth
      → encode_part d depth false b ≡ done p
      → Reads (view d) b p rest levels
  decode_level-encode_part nil depth levels b p rest e h =
      open_level (Reads nothing b p rest) depth levels b p _ e h
        (λ l k left g. rw (done-injective _ p g) (decode_level-nil l b rest left))
  decode_level-encode_part other depth levels b p rest e h =
      open_level (Reads nothing b p rest) depth levels b p _ e h
        (λ l k left g. absurd (ground (arith, g)))
  decode_level-encode_part (bool x) depth levels b p rest e h =
      open_level (Reads (number (pos (if x then 1 else 0))) b p rest) depth levels b p _ e h
        (λ l k left g. rw (done-injective _ p g) (decode_level-bool l b x rest left))
  decode_level-encode_part (int n) depth levels b p rest e h =
      open_level (Reads (number n) b p rest) depth levels b p _ e h
        (λ l k left g. decode_level-encode_int l b n p rest left g)
  decode_level-encode_part (text is_bulk t) depth levels b p rest e h =
      open_level (Reads (bulk (sent t)) b p rest) depth levels b p _ e h
        (λ l k left g. decode_level-bulk l b t p rest left (inner_text is_bulk t (spent b) p g))
  decode_level-encode_part (array ds) depth levels b p rest e h =
      open_level (Reads (list (view_items ds)) b p rest) depth levels b p _ e h (λ l k left g.
        array_case l (length_items ds) b p (view_items ds) rest left
          (encode_items ds (suc depth) (spent b)) g
          (λ q i. read_items-encode_items ds (suc depth) l (spent b) q rest k i))
  decode_level-encode_part (dict fs) depth levels b p rest e h =
      open_level (Reads (list (view_fields fs)) b p rest) depth levels b p _ e h (λ l k left g.
        array_case l (length_fields fs * 2) b p (view_fields fs) rest left
          (encode_fields fs (suc depth) (spent b)) g
          (λ q i. read_items-encode_fields fs (suc depth) l (spent b) q rest k i))

  read_items-encode_items :
      (ds : Items) (depth levels : ℕ) (b : Budget) (p : Bytes × Budget) (rest : Bytes)
      → depth + levels ≡ suc max_depth
      → encode_items ds depth b ≡ done p
      → ReadsItems (view_items ds) (length_items ds) b p rest levels
  read_items-encode_items no_items depth levels b p rest e h =
      rw (done-injective _ p h) (read_items-end levels b rest)
  read_items-encode_items (item d ds) depth levels b p rest e h =
      let (q, first, g) = >>=-eq-done (encode_part d depth false b) _ h in
      let (r, others, k) = >>=-eq-done (encode_items ds depth q.1) _ g in
      rw (done-injective _ p k) (
        read_items-more levels (length_items ds) b q r (view d) (view_items ds) rest
          (decode_level-encode_part d depth levels b q (r.0 ++ rest) e first)
          (read_items-encode_items ds depth levels q.1 r rest e others))

  read_items-encode_fields :
      (fs : Fields) (depth levels : ℕ) (b : Budget) (p : Bytes × Budget) (rest : Bytes)
      → depth + levels ≡ suc max_depth
      → encode_fields fs depth b ≡ done p
      → ReadsItems (view_fields fs) (length_fields fs * 2) b p rest levels
  read_items-encode_fields no_fields depth levels b p rest e h =
      rw (done-injective _ p h) (read_items-end levels b rest)
  read_items-encode_fields (field k d fs) depth levels b p rest e h =
      let (b', charged, g) = >>=-eq-done (charge b) _ h in
      let (left, q) = charge-eq-done b b' charged in
      field_step k d fs depth levels b p rest e left
        (λ c q after. decode_level-encode_part d depth levels c q after e)
        (λ c q. read_items-encode_fields fs depth levels c q rest e)
        (subst
          (λ x.
            (encode_bulk k x >>= λ key. encode_part d depth false key.1 >>= λ p.
            encode_fields fs depth p.1 >>= λ q. done (key.0 ++ (p.0 ++ q.0), q.1))
            ≡ done p)
          q g)
