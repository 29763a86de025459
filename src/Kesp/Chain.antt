-- ===== src/Kesp/Chain.antt =====
-- Parts of a reply one behind the other: `_encode` of parser.py on some elements and then on the rest.
use kedis_python.Prelude.{ℕ, zero, suc, ◌≡◌, refl, ap, sym, ◌∙◌, false, [], ◌++◌, Bytes, Text}
use mathlib.Core.List.{append_assoc}
use kedis_python.Kesp.{Data, Items, no_items, item, Fields, no_fields, field, Budget}
use kedis_python.Kesp.Encode.{
  Encoding, done, raised, ◌>>=◌, Part, charge, encode_bulk, encode_part, encode_items,
  encode_fields,
}
use kedis_python.Kesp.Chunks.{take_items, drop_items, take_fields, drop_fields}

-- A part of a reply and another behind it.
abbrev pub chain : Part → (Budget → Part) → Part
chain m f = m >>= λ p. f p.1 >>= λ q. done (p.0 ++ q.0, q.1)

-- What a part of a reply is behind a prefix.
abbrev pub prefixed : Bytes → Part → Part
prefixed p m = m >>= λ q. done (p ++ q.0, q.1)

prefixed-prefixed : (p q : Bytes) (m : Part) → prefixed (p ++ q) m ≡ prefixed p (prefixed q m)
prefixed-prefixed p q (done r) = ap (λ x. done (x, r.1)) (append_assoc p q r.0)
prefixed-prefixed p q (raised e) = refl

prefixed-nil : (m : Part) → prefixed [] m ≡ m
prefixed-nil (done r) = refl
prefixed-nil (raised e) = refl

chain-prefixed :
    (p : Bytes) (m : Part) (f : Budget → Part) → chain (prefixed p m) f ≡ prefixed p (chain m f)
chain-prefixed p (done q) f = prefixed-prefixed p q.0 (f q.1)
chain-prefixed p (raised e) f = refl

chain-chain : (m : Part) (f g : Budget → Part) → chain (chain m f) g ≡ chain m (λ b. chain (f b) g)
chain-chain (done p) f g = chain-prefixed p.0 (f p.1) g
chain-chain (raised e) f g = refl

chain-ap : (m : Part) (f g : Budget → Part) → ((b : Budget) → f b ≡ g b) → chain m f ≡ chain m g
chain-ap (done p) f g h = ap (prefixed p.0) (h p.1)
chain-ap (raised e) f g h = refl

pub chain-take_items :
    (n : ℕ) (ds : Items) (depth : ℕ) (b : Budget)
    → chain (encode_items (take_items n ds) depth b) (encode_items (drop_items n ds) depth)
      ≡ encode_items ds depth b
unfolding encode_items take_items drop_items
chain-take_items zero ds depth b = prefixed-nil (encode_items ds depth b)
chain-take_items (suc n) no_items depth b = refl
chain-take_items (suc n) (item d ds) depth b =
    chain-chain (encode_part d depth false b) (encode_items (take_items n ds) depth)
      (encode_items (drop_items n ds) depth)
    ∙ chain-ap (encode_part d depth false b) _ (encode_items ds depth)
        (λ b. chain-take_items n ds depth b)

entry_tail :
    (key p : Bytes) (m : Part)
    → (m >>= λ q. done (key ++ (p ++ q.0), q.1)) ≡ prefixed key (prefixed p m)
entry_tail key p (raised e) = refl
entry_tail key p (done q) = refl

-- A key and its value before the other entries.
entry_flat :
    (key : Bytes) (m : Part) (h : Budget → Part)
    → (m >>= λ p. h p.1 >>= λ q. done (key ++ (p.0 ++ q.0), q.1)) ≡ prefixed key (chain m h)
entry_flat key (raised e) h = refl
entry_flat key (done p) h = entry_tail key p.0 (h p.1)

field_flat :
    (m : Part) (g h : Budget → Part)
    → (m >>= λ key. g key.1 >>= λ p. h p.1 >>= λ q. done (key.0 ++ (p.0 ++ q.0), q.1))
      ≡ chain m (λ b. chain (g b) h)
field_flat (raised e) g h = refl
field_flat (done key) g h = entry_flat key.0 (g key.1) h

field_chain :
    (c : Encoding Budget) (f g h : Budget → Part)
    → (c >>= λ b. f b >>= λ key. g key.1 >>= λ p. h p.1 >>= λ q. done (key.0 ++ (p.0 ++ q.0), q.1))
      ≡ chain (c >>= λ b. chain (f b) g) h
field_chain (raised e) f g h = refl
field_chain (done b) f g h = field_flat (f b) g h ∙ sym (chain-chain (f b) g h)

-- A key and its value.
abbrev pub entry : Text → Data → ℕ → Budget → Part
entry k d depth b = charge b >>= λ b. chain (encode_bulk k b) (encode_part d depth false)

encode_fields-field :
    (k : Text) (d : Data) (fs : Fields) (depth : ℕ) (b : Budget)
    → encode_fields (field k d fs) depth b ≡ chain (entry k d depth b) (encode_fields fs depth)
unfolding encode_fields
encode_fields-field k d fs depth b =
    field_chain (charge b) (encode_bulk k) (encode_part d depth false) (encode_fields fs depth)

pub chain-take_fields :
    (n : ℕ) (fs : Fields) (depth : ℕ) (b : Budget)
    → chain (encode_fields (take_fields n fs) depth b) (encode_fields (drop_fields n fs) depth)
      ≡ encode_fields fs depth b
unfolding take_fields drop_fields
chain-take_fields zero fs depth b = unfold encode_fields in prefixed-nil (encode_fields fs depth b)
chain-take_fields (suc n) no_fields depth b = unfold encode_fields in refl
chain-take_fields (suc n) (field k d fs) depth b =
    rw (encode_fields-field k d (take_fields n fs) depth b, encode_fields-field k d fs depth b)
      (chain-chain (entry k d depth b) (encode_fields (take_fields n fs) depth)
          (encode_fields (drop_fields n fs) depth)
        ∙ chain-ap (entry k d depth b) _ (encode_fields fs depth)
            (λ b. chain-take_fields n fs depth b))
