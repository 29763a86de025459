-- ===== src/Stream/IdLaws.antt =====
-- Laws of entry IDs: the order is total, writing and reading round-trip, and an exclusive bound is
-- the ID next to it.
use kedis_python.Prelude.{
  ℕ, ◌≤◌, ◌≡◌, ◌≢◌, refl, ◌∙◌, Bool, true, false, ◌&&◌, Option, none, some, [], ◌∷◌, ◌++◌, ltb,
  ◌==◌, if◌then◌else◌, Text, text_eq, length, arith, All, not,
}
use kedis_python.Decimal
use kedis_python.Decimal.{is_digit, all_digits}
use kedis_python.Decimal.RoundTrip.{value-print}
use kedis_python.Decimal.Digits.{All-is_digit-print, length-print-le, print-cons}
use kedis_python.Stream.Id.{
  >>=-eq-ok, StreamId, ok, err, id_ltb, id_leb, id_eq_iff, u64_max, min_id, max_id, format_id,
  to_u64, partition, parse_id_or, parse_id, next_of, previous_of, exclusive_bound, parse_bound,
  bad_interval, bound_seq, seq_or,
}

-- Both halves of the ID fit 64 bits.
pub record IsU64 (sid : StreamId) : Type 0 where
  pub ms : sid.ms ≤ u64_max
  pub seq : sid.seq ≤ u64_max

all_digits-digits : (ds : Text) → All (λ c. is_digit c ≡ true) ds → all_digits ds ≡ true
unfolding all_digits
all_digits-digits [] h = refl
all_digits-digits (d ∷ ds) h = ground (arith, h.0, all_digits-digits ds h.1)

partition-digits :
    (ds rest : Text)
    → All (λ c. is_digit c ≡ true) ds
    → partition (ds ++ b'-' ∷ rest) ≡ (ds, some rest)
unfolding partition
partition-digits [] rest h = refl
partition-digits (d ∷ ds) rest h =
    let dash : (d == b'-') ≡ false = ground (arith, h.0) in
    rw (dash, partition-digits ds rest h.1) refl

to_u64-digits :
    (d : ℕ) (ds : Text) (n : ℕ)
    → all_digits (d ∷ ds) ≡ true
    → length (d ∷ ds) ≤ 4300
    → Decimal.value_from 0 (d ∷ ds) ≡ n
    → n ≤ u64_max
    → to_u64 (d ∷ ds) ≡ ok n
unfolding to_u64
to_u64-digits d ds n digits short value small =
    let a : ltb 4300 (length (d ∷ ds)) ≡ false = ground arith in
    let b : ltb u64_max n ≡ false = ground arith in rw (digits, a, value, b) refl

to_u64-print : (n : ℕ) → n ≤ u64_max → to_u64 (Decimal.print n) ≡ ok n
to_u64-print n small =
    let (d, ds, e, _) = print-cons n in
    rw e (
      to_u64-digits d ds n (rw e at (all_digits-digits (Decimal.print n) (All-is_digit-print n)))
        (rw e at (longer (length-print-le n 19 (omega arith)))) (rw e at (value-print n)) small)
  where
    longer : length (Decimal.print n) ≤ 20 → length (Decimal.print n) ≤ 4300
    longer h = omega arith

-- The text of an ID reads back as that ID, if both halves fit 64 bits.
pub parse_id-format_id : (sid : StreamId) → IsU64 sid → parse_id (format_id sid) ≡ ok sid
unfolding parse_id format_id
parse_id-format_id sid h =
    rw
      (
        partition-digits (Decimal.print sid.ms) (Decimal.print sid.seq) (All-is_digit-print sid.ms),
        to_u64-print sid.ms h.ms,
        to_u64-print sid.seq h.seq,
      )
      refl

pub to_u64-le : (text : Text) (n : ℕ) → to_u64 text ≡ ok n → n ≤ u64_max
unfolding to_u64
to_u64-le [] n h = ground arith
to_u64-le (c ∷ cs) n h = ground arith

seq_or-le : (d : ℕ) (o : Option Text) (n : ℕ) → d ≤ u64_max → seq_or d o ≡ ok n → n ≤ u64_max
seq_or-le d none n hd h = ground arith
seq_or-le d (some text) n hd h = to_u64-le text n h

-- Whatever is read as an ID fits 64 bits.
pub parse_id_or-IsU64 :
    (d : ℕ) (text : Text) (sid : StreamId) → d ≤ u64_max → parse_id_or d text ≡ ok sid → IsU64 sid
unfolding parse_id_or
parse_id_or-IsU64 d text sid hd h =
    let (ms, p, h₁) = >>=-eq-ok (to_u64 (partition text).0) _ h in
    let (seq, q, h₂) = >>=-eq-ok (seq_or d (partition text).1) _ h₁ in
    let m = to_u64-le (partition text).0 ms p in
    let s = seq_or-le d (partition text).1 seq hd q in
    record { ms = ground arith; seq = ground arith }

-- The order of IDs is that of a strict total order, and `<=` is its complement the other way.
pub id_ltb_trans : (a b c : StreamId) → id_ltb a b ≡ true → id_ltb b c ≡ true → id_ltb a c ≡ true
id_ltb_trans a b c h k = ground arith

pub id_leb-not : (a b : StreamId) → id_leb a b ≡ not (id_ltb b a)
id_leb-not a b = ground arith

-- One ID further is the least ID above.
pub id_leb-next_of : (a b : StreamId) → IsU64 a → IsU64 b → id_leb (next_of a) b ≡ id_ltb a b
unfolding next_of
id_leb-next_of a b h k = ground arith

-- One ID back is the greatest ID below, of any but 0-0.
pub id_leb-previous_of :
    (a b : StreamId) → IsU64 a → IsU64 b → a ≢ min_id → id_leb b (previous_of a) ≡ id_ltb b a
unfolding previous_of
id_leb-previous_of a b h k ne =
    let pos : (a.ms == 0 && a.seq == 0) ≡ false = ground arith in ground arith

-- The test of a range bound, for a start bound and for an end bound.
abbrev pub within_bound : Bool → StreamId → StreamId → Bool
within_bound true bound x = id_leb bound x
within_bound false bound x = id_leb x bound

abbrev pub strictly_within : Bool → StreamId → StreamId → Bool
strictly_within true sid x = id_ltb sid x
strictly_within false sid x = id_ltb x sid

abbrev pub end_of_range : Bool → StreamId
end_of_range is_start = if is_start then max_id else min_id

parse_bound-paren :
    (is_start : Bool) (text : Text) (sid : StreamId)
    → parse_id_or (bound_seq is_start) text ≡ ok sid
    → parse_bound is_start (b'(' ∷ text) ≡ exclusive_bound is_start sid
unfolding parse_bound text_eq
parse_bound-paren is_start text sid h = rw h refl

exclusive_bound-end :
    (is_start : Bool) → exclusive_bound is_start (end_of_range is_start) ≡ err bad_interval
unfolding exclusive_bound
exclusive_bound-end true = refl
exclusive_bound-end false = refl

exclusive_bound-inside :
    (is_start : Bool) (sid : StreamId)
    → IsU64 sid
    → sid ≢ end_of_range is_start
    → (bound : StreamId) × (exclusive_bound is_start sid ≡ ok bound)
      × ((x : StreamId) → IsU64 x → within_bound is_start bound x ≡ strictly_within is_start sid x)
unfolding exclusive_bound
exclusive_bound-inside true sid h ne =
    (next_of sid, ground (arith, id_eq_iff sid max_id), λ x hx. id_leb-next_of sid x h hx)
exclusive_bound-inside false sid h ne = (
  previous_of sid,
  ground (arith, id_eq_iff sid min_id),
  λ x hx. id_leb-previous_of sid x h hx ne,
)

bound_seq-le : (is_start : Bool) → bound_seq is_start ≤ u64_max
bound_seq-le true = omega arith
bound_seq-le false = omega arith

-- The bound `(id` admits exactly the IDs strictly beyond `id`: above it for a start bound, below
-- it for an end bound, where a bare `ms` stands for `ms-0` or `ms-<max>`. The end of the whole range
-- has nothing beyond it, and is refused with the interval error. IDs are those that fit 64 bits.
pub parse_bound-exclusive :
    (is_start : Bool) (text : Text) (sid : StreamId)
    → parse_id_or (bound_seq is_start) text ≡ ok sid
    → ((sid ≡ end_of_range is_start) → parse_bound is_start (b'(' ∷ text) ≡ err bad_interval)
      × ((sid ≢ end_of_range is_start)
          → (bound : StreamId) × (parse_bound is_start (b'(' ∷ text) ≡ ok bound)
            × ((x : StreamId)
                → IsU64 x
                → within_bound is_start bound x ≡ strictly_within is_start sid x))
parse_bound-exclusive is_start text sid h =
    let fits = parse_id_or-IsU64 (bound_seq is_start) text sid (bound_seq-le is_start) h in
    (
      λ e. parse_bound-paren is_start text sid h ∙ rw e (exclusive_bound-end is_start),
      λ ne.
          rw (parse_bound-paren is_start text sid h) (exclusive_bound-inside is_start sid fits ne),
    )
