-- ===== src/Kesp/Elements.antt =====
-- Reading the values of a reply back, one element, key or header at a time.
use kedis_python.Prelude.{
  ℕ, suc, ◌+◌, ◌-◌, ◌≡◌, refl, ap, ◌∙◌, ◌||◌, Bool, true, false, [], ◌++◌, ltb, ◌==◌, if◌then◌else◌,
  length, length-append, arith, Bytes, Text, codes, pos,
}
use mathlib.Core.List.{append_assoc}
use mathlib.Core.Path.{subst}
use kedis_python.Kesp.{
  Data, nil, other, bool, int, text, array, dict, Budget, Decoded, nothing, number, bulk, list,
  Decodeds, end, more, max_depth,
}
use kedis_python.Decimal
use kedis_python.Kesp.Encode.{
  print_ℤ, Part, done, ◌>>=◌, check, encode_bulk, encode_top, array_header, encode_part,
}
use kedis_python.Kesp.Decode.{
  got, is_nil, sigil_of, limit_of, is_known, read_value, read_items, decode_level,
}
use kedis_python.Kesp.Lines.{spent, got-then, decode_level-header, decode_level-int}
use kedis_python.Kesp.RoundTrip.{
  view, sent, >>=-eq-done, check-eq-done, decode_level-bulk, decode_level-array,
}

-- The decoder, with some levels left, reads a value back off what was written for it.
abbrev pub Reads : Decoded → Budget → Bytes × Budget → Bytes → ℕ → Type 0
Reads v b p rest levels = decode_level false levels b (p.0 ++ rest) ≡ got (v, p.1) (length p.0) rest

abbrev pub ReadsItems : Decodeds → ℕ → Budget → Bytes × Budget → Bytes → ℕ → Type 0
ReadsItems vs n b p rest levels =
    read_items (decode_level false levels) n b (p.0 ++ rest) ≡ got (vs, p.1) (length p.0) rest

-- A value that passed the checks on depth and number leaves the decoder a level to read it on.
pub open_level :
    (P : ℕ → Type 0) (depth levels : ℕ) (b : Budget) (p : Bytes × Budget) (f : Budget → Part)
    → depth + levels ≡ suc max_depth
    → (check depth b >>= f) ≡ done p
    → ((l : ℕ)
        → suc depth + l ≡ suc max_depth
        → (b.elements == 0) ≡ false
        → f (spent b) ≡ done p
        → P (suc l))
    → P levels
open_level P depth levels b p f e h k =
    let (b', c, g) = >>=-eq-done (check depth b) f h in
    let (shallow, left, q) = check-eq-done depth b b' c in
    let level : levels ≡ suc (levels - 1) = ground (arith, e, shallow) in
    rw level (k (levels - 1) (ground (arith, e, shallow)) left (subst (λ x. f x ≡ done p) q g))

pub decode_level-nil :
    (l : ℕ) (b : Budget) (rest : Bytes)
    → (b.elements == 0) ≡ false
    → Reads nothing b (codes "N\n", spent b) rest (suc l)
decode_level-nil l b rest left =
    decode_level-header l b b'N' [] rest is_nil (nothing, spent b) 0 rest (unfold sigil_of in refl)
      (unfold is_known in refl) (unfold limit_of in refl, refl, refl) (refl, tt) (omega arith) left
      (unfold read_value in refl)

pub decode_level-bool :
    (l : ℕ) (b : Budget) (x : Bool) (rest : Bytes)
    → (b.elements == 0) ≡ false
    → Reads
        (number (pos (if x then 1 else 0)))
        b
        (if x then codes "I1\n" else codes "I0\n", spent b)
        rest
        (suc l)
unfolding print_ℤ Decimal.print
decode_level-bool l b true rest left = decode_level-int l b (pos 1) rest left (omega arith)
decode_level-bool l b false rest left = decode_level-int l b (pos 0) rest left (omega arith)

pub read_items-end :
    (levels : ℕ) (b : Budget) (rest : Bytes) → ReadsItems end 0 b ([], b) rest levels
unfolding read_items
read_items-end levels b rest = refl

-- One more element in front.
pub read_items-more :
    (levels n : ℕ) (b : Budget) (p q : Bytes × Budget) (v : Decoded) (vs : Decodeds) (rest : Bytes)
    → Reads v b p (q.0 ++ rest) levels
    → ReadsItems vs n p.1 q rest levels
    → ReadsItems (more v vs) (suc n) b (p.0 ++ q.0, q.1) rest levels
unfolding read_items
read_items-more levels n b p q v vs rest h k =
    let size : length p.0 + (length q.0 + 0) ≡ length (p.0 ++ q.0) =
      omega (arith, length-append p.0 q.0) in
    rw (append_assoc p.0 q.0 rest, h)
      (got-then (v, p.1) (length p.0) (q.0 ++ rest) _ (more v vs, q.1) (length q.0 + 0) rest
          (rw k (got-then (vs, q.1) (length q.0) rest _ (more v vs, q.1) 0 rest refl))
        ∙ ap (λ m. got (more v vs, q.1) m rest) size)

shallow_check :
    (depth : ℕ) (b : Budget) (p : Bytes × Budget) (f : Budget → Part)
    → (check depth b >>= f) ≡ done p
    → ltb max_depth depth ≡ false
shallow_check depth b p f h =
    let (b', c, g) = >>=-eq-done (check depth b) f h in (check-eq-done depth b b' c).0

pub done-injective {ℓ} : {A : Type ℓ} (a a' : A) → done a ≡ done a' → a' ≡ a
done-injective a a' h = ground (arith, h)

pub inner_text :
    (is_bulk : Bool) (t : Text) (b : Budget) (p : Bytes × Budget)
    → (if is_bulk || true then encode_bulk t b else encode_top t b) ≡ done p
    → encode_bulk t b ≡ done p
inner_text true t b p h = h
inner_text false t b p h = h

-- The header and the elements of an array or a dict.
pub array_case :
    (levels n : ℕ) (b : Budget) (p : Bytes × Budget) (vs : Decodeds) (rest : Bytes)
    → (b.elements == 0) ≡ false
    → (elements : Part)
    → (array_header n (spent b) >>= λ header. elements >>= λ q. done (header ++ q.0, q.1)) ≡ done p
    → ((q : Bytes × Budget) → elements ≡ done q → ReadsItems vs n (spent b) q rest levels)
    → Reads (list vs) b p rest (suc levels)
array_case levels n b p vs rest left elements h k =
    let (header, c, g) = >>=-eq-done (array_header n (spent b)) _ h in
    let (q, i, r) = >>=-eq-done elements _ g in
    rw (done-injective _ p r) (decode_level-array levels n b q.1 header q.0 rest vs left c (k q i))

-- A value is not written deeper than the decoder reads.
pub shallow_part :
    (d : Data) (depth : ℕ) (b : Budget) (p : Bytes × Budget)
    → encode_part d depth false b ≡ done p
    → ltb max_depth depth ≡ false
unfolding encode_part
shallow_part nil depth b p h = shallow_check depth b p _ h
shallow_part other depth b p h = shallow_check depth b p _ h
shallow_part (bool x) depth b p h = shallow_check depth b p _ h
shallow_part (int n) depth b p h = shallow_check depth b p _ h
shallow_part (text is_bulk t) depth b p h = shallow_check depth b p _ h
shallow_part (array ds) depth b p h = shallow_check depth b p _ h
shallow_part (dict fs) depth b p h = shallow_check depth b p _ h

-- A key and its value in front of the others.
pub field_case :
    (k : Text) (d : Data) (levels n : ℕ) (b : Budget) (key q r : Bytes × Budget) (vs : Decodeds)
    (rest : Bytes)
    → levels ≡ suc (levels - 1)
    → (b.elements == 0) ≡ false
    → encode_bulk k (spent b) ≡ done key
    → Reads (view d) key.1 q (r.0 ++ rest) levels
    → ReadsItems vs n q.1 r rest levels
    → ReadsItems
        (more (bulk (sent k)) (more (view d) vs))
        (suc (suc n))
        b
        (key.0 ++ (q.0 ++ r.0), r.1)
        rest
        levels
field_case k d levels n b key q r vs rest level left written value others =
    read_items-more levels (suc n) b key (q.0 ++ r.0, r.1) (bulk (sent k)) (more (view d) vs) rest
      (rw level (decode_level-bulk (levels - 1) b k key ((q.0 ++ r.0) ++ rest) left written))
      (read_items-more levels n key.1 q r (view d) vs rest value others)
