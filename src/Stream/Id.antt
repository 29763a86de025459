-- ===== src/Stream/Id.antt =====
-- Entry IDs of stream.py: their order, how they are written and read, and range bounds.
use kedis_python.Prelude.{
  ℕ, ◌+◌, ◌-◌, ◌^◌, ◌≡◌, refl, ◌↔◌, Bool, true, false, not, ◌&&◌, ◌||◌, Option, none, some, [], ◌∷◌,
  ◌++◌, ltb, leb, ◌==◌, if◌then◌else◌, Text, codes, text_eq, length, arith,
}
use kedis_python.Decimal
use kedis_python.Dict.{Eq}

-- `StreamError`, by its message. `too_many_digits` is the ValueError of `int()` on more than 4300
-- digits, and `key_error` the KeyError of a group whose two pending lists have drifted apart.
pub data Error : Type 0 where
  bad_id zero_id small_id bad_interval bad_name bad_record : Error
  bad_arity bad_maxlen too_many_digits key_error : Error

-- What a method does: it raises, or it returns a value.
pub data Result {ℓ} (T : Type ℓ) : Type ℓ where
  err : (raised : Error) → Result T
  ok : (value : T) → Result T

infixl 5 ◌>>=◌
abbrev pub ◌>>=◌ {ℓ κ} : {T : Type ℓ} {U : Type κ} → Result T → (T → Result U) → Result U
err raised >>= next = err raised
ok value >>= next = next value

-- A call that returned was made on a value that was there.
pub >>=-eq-ok {ℓ κ} :
    {T : Type ℓ} {U : Type κ} (first : Result T) (next : T → Result U) {u : U}
    → (first >>= next) ≡ ok u
    → (t : T) × (first ≡ ok t) × (next t ≡ ok u)
>>=-eq-ok (err raised) next returned = absurd (ground arith)
>>=-eq-ok (ok value) next returned = (value, refl, returned)

infixl 5 ◌>>◌
abbrev pub ◌>>◌ {κ} : {U : Type κ} → Result (Unit {0}) → Result U → Result U
check >> rest = check >>= λ _. rest

-- `if bad: raise StreamError(e)`.
abbrev pub raise_if : Bool → Error → Result (Unit {0})
raise_if true e = err e
raise_if false e = ok tt

-- An ID: the tuple `(ms, seq)`.
pub record StreamId : Type 0 where
  pub ms : ℕ
  pub seq : ℕ

-- Tuples compare lexicographically.
abbrev pub id_ltb : StreamId → StreamId → Bool
id_ltb a b = ltb a.ms b.ms || a.ms == b.ms && ltb a.seq b.seq

abbrev pub id_leb : StreamId → StreamId → Bool
id_leb a b = ltb a.ms b.ms || a.ms == b.ms && leb a.seq b.seq

abbrev pub id_eq : StreamId → StreamId → Bool
id_eq a b = a.ms == b.ms && a.seq == b.seq

pub id_eq_iff : (a b : StreamId) → (id_eq a b ≡ true) ↔ (a ≡ b)
id_eq_iff a b = ground arith

instance abbrev pub id_key : Eq StreamId
id_key = record { beq = id_eq; beq_iff = id_eq_iff }

abbrev pub u64_max : ℕ
u64_max = 2 ^ 64 - 1

abbrev pub min_id : StreamId
min_id = record { ms = 0; seq = 0 }

abbrev pub max_id : StreamId
max_id = record { ms = u64_max; seq = u64_max }

-- `format_id(sid)`: `f"{sid[0]}-{sid[1]}"`.
unfoldable pub format_id : StreamId → Text
format_id sid = Decimal.print sid.ms ++ b'-' ∷ Decimal.print sid.seq

-- `int(text)` on ASCII digits, whose number is limited.
abbrev pub max_digits : ℕ
max_digits = 4300

-- `_to_u64(text)`: the test covers `text.isascii()` and `text.isdigit()`.
unfoldable pub to_u64 : Text → Result ℕ
to_u64 [] = err bad_id
to_u64 (c ∷ cs) = do
  raise_if (not (Decimal.all_digits (c ∷ cs))) bad_id
  raise_if (ltb max_digits (length (c ∷ cs))) too_many_digits
  let value = Decimal.value_from 0 (c ∷ cs)
  raise_if (ltb u64_max value) bad_id
  ok value

-- `text.partition("-")`: what stands before the first dash, and what stands behind it, if there
-- is one.
unfoldable pub partition : Text → Text × Option Text
partition [] = ([], none)
partition (c ∷ s) = if c == b'-' then ([], some s) else (c ∷ (partition s).0, (partition s).1)

-- `_to_u64(seq_text) if sep else default_seq`.
abbrev pub seq_or : ℕ → Option Text → Result ℕ
seq_or default_seq none = ok default_seq
seq_or default_seq (some text) = to_u64 text

-- `parse_id(text, default_seq)`.
unfoldable pub parse_id_or : ℕ → Text → Result StreamId
parse_id_or default_seq text = do
  ms ← to_u64 (partition text).0
  seq ← seq_or default_seq (partition text).1
  ok (record { ms = ms; seq = seq })

-- `parse_id(text)`.
unfoldable pub parse_id : Text → Result StreamId
unfolding parse_id_or
parse_id text = parse_id_or 0 text

-- One ID further, and one ID back. The source writes both out where it steps a bound inward.
unfoldable pub next_of : StreamId → StreamId
next_of sid =
    if ltb sid.seq u64_max
    then record { ms = sid.ms; seq = sid.seq + 1 }
    else record { ms = sid.ms + 1; seq = 0 }

unfoldable pub previous_of : StreamId → StreamId
previous_of sid =
    if ltb 0 sid.seq
    then record { ms = sid.ms; seq = sid.seq - 1 }
    else record { ms = sid.ms - 1; seq = u64_max }

-- A bound that begins with `(` is exclusive: the ID is stepped one position inward.
unfoldable pub exclusive_bound : Bool → StreamId → Result StreamId
exclusive_bound true sid = do raise_if (id_eq sid max_id) bad_interval; ok (next_of sid)
exclusive_bound false sid = do raise_if (id_eq sid min_id) bad_interval; ok (previous_of sid)

abbrev pub bound_seq : Bool → ℕ
bound_seq is_start = if is_start then 0 else u64_max

abbrev pub plain_or_exclusive : Bool → Text → Result StreamId
plain_or_exclusive is_start [] = parse_id_or (bound_seq is_start) []
plain_or_exclusive is_start (c ∷ s) =
    if c == b'('
    then (do sid ← parse_id_or (bound_seq is_start) s; exclusive_bound is_start sid)
    else parse_id_or (bound_seq is_start) (c ∷ s)

-- `parse_bound(text, is_start)`.
unfoldable pub parse_bound : Bool → Text → Result StreamId
unfolding exclusive_bound parse_id_or
parse_bound is_start text =
    if text_eq text (codes "-")
    then ok min_id
    else if text_eq text (codes "+")
    then ok max_id
    else plain_or_exclusive is_start text

-- `text.isascii() and text.isprintable() and " " not in text`.
unfoldable pub all_graphic : Text → Bool
all_graphic [] = true
all_graphic (c ∷ s) = leb 0x21 c && leb c 0x7E && all_graphic s

abbrev pub is_name : Text → Bool
is_name [] = false
is_name (c ∷ s) = all_graphic (c ∷ s)

-- `check_name(text)`: non-empty printable ASCII without blanks.
unfoldable pub check_name : Text → Result Text
unfolding all_graphic
check_name text = do raise_if (not (is_name text)) bad_name; ok text
