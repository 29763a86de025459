-- ===== src/Store/StreamErrors.antt =====
-- What a call of stream.py raises inside the engine: no parser of IDs and no change of a stream raises a
-- KeyError.
use kedis_python.Prelude.{
  inl, inr, ℕ, ◌≢◌, ◌≡◌, ap, Bool, true, false, not, Option, none, some, List, [], ◌∷◌, arith, Text,
  text_eq, codes, ℤ, pos, negsuc, Bool-cases, Option-cases, ◌==◌,
}
use kedis_python.Dict.{text_key}
use kedis_python.Stream.Id.{
  StreamId, Result, ok, err, ◌>>=◌, Error, bad_id, zero_id, small_id, bad_interval, bad_name,
  bad_record, bad_arity, bad_maxlen, too_many_digits, raise_if, to_u64, parse_bound, parse_id_or,
  exclusive_bound, partition, parse_id, seq_or,
}
use kedis_python.Stream.Id as Ids
use kedis_python.Stream.Entries
use kedis_python.Store.State.{returns}
use kedis_python.Stream.Entries.{Stream, new_stream}
use kedis_python.Stream.Applied.{to_u64_sound, parse_id_sound, seq_or_sound}
use kedis_python.Store.Streams.{raising, optional_id, trim_added}

-- A call that returned inside a method returned.
pub raising-returns {ℓ} : {A : Type ℓ} (r : Result A) (a : A) → raising r ≡ returns a → r ≡ ok a
unfolding raising
raising-returns (ok b) a e = ap ok (ground (arith, e))
raising-returns (err Ids.bad_id) a h = absurd (ground (arith, h))
raising-returns (err Ids.zero_id) a h = absurd (ground (arith, h))
raising-returns (err Ids.small_id) a h = absurd (ground (arith, h))
raising-returns (err Ids.bad_interval) a h = absurd (ground (arith, h))
raising-returns (err Ids.bad_name) a h = absurd (ground (arith, h))
raising-returns (err Ids.bad_record) a h = absurd (ground (arith, h))
raising-returns (err Ids.bad_arity) a h = absurd (ground (arith, h))
raising-returns (err Ids.bad_maxlen) a h = absurd (ground (arith, h))
raising-returns (err Ids.too_many_digits) a h = absurd (ground (arith, h))
raising-returns (err Ids.key_error) a h = absurd (ground (arith, h))

bind_sound {ℓ κ} :
    {A : Type ℓ} {B : Type κ} (m : Result A) (f : A → Result B)
    → m ≢ err Ids.key_error
    → ((a : A) → f a ≢ err Ids.key_error)
    → (m >>= f) ≢ err Ids.key_error
bind_sound (ok a) f h k = k a
bind_sound (err e) f h k = λ q. h (ap err (ground (arith, q)))

pub raise_if_sound : (b : Bool) (e : Error) → e ≢ Ids.key_error → raise_if b e ≢ err Ids.key_error
raise_if_sound true e h = λ q. h (ground (arith, q))
raise_if_sound false e h = ground arith

auto_id_sound : (last : StreamId) (now : ℕ) → Entries.auto_id last now ≢ err Ids.key_error
unfolding Entries.auto_id
auto_id_sound last now = ground arith

auto_seq_sound : (last : StreamId) (ms : ℕ) → Entries.auto_seq last ms ≢ err Ids.key_error
unfolding Entries.auto_seq
auto_seq_sound last ms = ground arith

explicit_id_sound : (last sid : StreamId) → Entries.explicit_id last sid ≢ err Ids.key_error
unfolding Entries.explicit_id
explicit_id_sound last sid = ground arith

next_id_sound :
    (last : StreamId) (spec : Text) (now : ℕ) → Entries.next_id last spec now ≢ err Ids.key_error
unfolding Entries.next_id
next_id_sound last spec now = elim (Bool-cases (text_eq spec (codes "*"))) [
  | inl e ↦ rw (e, Entries.next_id) (auto_id_sound last now)
  | inr e ↦ elim (Option-cases (Entries.before_auto_seq spec)) [
    | inl q ↦
        rw (e, q, Entries.next_id)
          (bind_sound (parse_id spec) _ (parse_id_sound spec) (explicit_id_sound last))
    | inr (ms, q) ↦
        rw (e, q, Entries.next_id)
          (bind_sound (to_u64 ms) _ (to_u64_sound ms) (auto_seq_sound last))
  ]
]

pub add_sound :
    (v : Stream) (fields : List Text) (spec : Text) (now : ℕ)
    → Entries.add v fields spec now ≢ err Ids.key_error
unfolding Entries.add
add_sound v fields spec now =
    bind_sound (raise_if (not (Entries.is_pairs fields)) bad_arity) _
      (raise_if_sound (not (Entries.is_pairs fields)) bad_arity (ground arith))
      (λ _.
        bind_sound (Entries.next_id v.last_id spec now) _ (next_id_sound v.last_id spec now)
          (λ sid. ground arith))

pub trim_sound :
    (v : Stream) (maxlen : Option ℤ) (minid : Option StreamId)
    → Entries.trim v maxlen minid ≢ err Ids.key_error
unfolding Entries.trim
trim_sound v none minid = ground arith
trim_sound v (some (pos n)) minid = ground arith
trim_sound v (some (negsuc n)) minid = ground arith

pub trim_added_sound :
    (v : Stream) (maxlen : Option ℤ) (minid : Option StreamId)
    → trim_added v maxlen minid ≢ err Ids.key_error
unfolding trim_added
trim_added_sound v none none = ground arith
trim_added_sound v none (some t) = trim_sound v none (some t)
trim_added_sound v (some n) none = trim_sound v (some n) none
trim_added_sound v (some n) (some t) = trim_sound v (some n) (some t)

pub optional_id_sound : (o : Option Text) → optional_id o ≢ err Ids.key_error
unfolding optional_id
optional_id_sound none = ground arith
optional_id_sound (some t) = λ h. ground (arith, h, parse_id_sound t)

parse_id_or_sound : (d : ℕ) (t : Text) → parse_id_or d t ≢ err Ids.key_error
unfolding parse_id_or
parse_id_or_sound d t = bind_sound (to_u64 (partition t).0) _ (to_u64_sound (partition t).0) (λ ms.
    bind_sound (seq_or d (partition t).1) _ (seq_or_sound d (partition t).1) (λ seq. ground arith))

exclusive_bound_sound : (b : Bool) (sid : StreamId) → exclusive_bound b sid ≢ err Ids.key_error
unfolding exclusive_bound
exclusive_bound_sound true sid = ground arith
exclusive_bound_sound false sid = ground arith

plain_or_exclusive_sound : (b : Bool) (t : Text) → Ids.plain_or_exclusive b t ≢ err Ids.key_error
plain_or_exclusive_sound b [] = parse_id_or_sound (Ids.bound_seq b) []
plain_or_exclusive_sound b (c ∷ s) = elim (Bool-cases (c == b'(')) [
  | inl e ↦ rw e (
      bind_sound (parse_id_or (Ids.bound_seq b) s) _ (parse_id_or_sound (Ids.bound_seq b) s)
        (exclusive_bound_sound b))
  | inr e ↦ rw e (parse_id_or_sound (Ids.bound_seq b) (c ∷ s))
]

pub parse_bound_sound : (b : Bool) (t : Text) → parse_bound b t ≢ err Ids.key_error
unfolding parse_bound
parse_bound_sound b t = elim (Bool-cases (text_eq t (codes "-"))) [
  | inl e ↦ rw (e, parse_bound) (ground arith)
  | inr e ↦ elim (Bool-cases (text_eq t (codes "+"))) [
    | inl q ↦ rw (e, q, parse_bound) (ground arith)
    | inr q ↦ rw (e, q, parse_bound) (plain_or_exclusive_sound b t)
  ]
]
