-- ===== src/Store/StreamsKept.antt =====
-- The commands of store.py on streams keep the engine's bookkeeping and never raise a KeyError.
use kedis_python.Prelude.{
  inl, inr, ℕ, ◌≡◌, ◌≢◌, refl, ◌∙◌, Bool, true, false, Option, none, some, List, ◌∷◌, ltb, arith,
  Text, eq_iff, codes, ℤ, Bool-cases,
}
use kedis_python.Dict
use kedis_python.Dict.{Dict, text_key, has-put, has-get}
use kedis_python.Stream.Id.{
  StreamId, Result, ok, err, ◌>>=◌, Error, bad_id, zero_id, small_id, bad_interval, bad_name,
  bad_record, bad_arity, bad_maxlen, too_many_digits, raise_if, to_u64, parse_bound, parse_id_or,
  exclusive_bound, partition, parse_id, seq_or,
}
use kedis_python.Stream.Id as Ids
use kedis_python.Stream.Entries
use kedis_python.Stream.Entries.{Stream, new_stream}
use kedis_python.Stream.Applied.{parse_ids_sound}
use kedis_python.Store.State.{
  Store, Value, string, deque, members, hash, stream, hyperloglog, Record, Reply, returns,
  wrong_type, key_error, value_error, stream_error, ◌then_do◌, log_record, evict_if_expired,
}
use kedis_python.Store.Containers.{hold}
use kedis_python.Store.Coherent.{IsCoherent, IsKept, evict_if_expired-IsKept, touch_read-IsCoherent}
use kedis_python.Stream.Records.{parse_ids}
use kedis_python.Store.Written.{
  logged-IsCoherent, hold-IsCoherent, log_operation-IsCoherent, log_operation-hold,
}
use kedis_python.Store.Streams.{
  raising, stream_at, stream_or_none, optional_id, all_bare, log_entry, log_length, trim_added,
  added, xadd_to, is_negative, AddOptions, xadd_at, xadd, xlen, xrange, xrevrange, deleted, xdel,
  trimmed, is_ambiguous, xtrim,
}
use kedis_python.Store.StreamErrors.{
  raise_if_sound, add_sound, trim_sound, trim_added_sound, optional_id_sound, parse_bound_sound,
}

-- A call of stream.py that raises no KeyError, and what the method does behind it.
pub raising-IsKept {ℓ κ} :
    {A : Type ℓ} {B : Type κ} (s : Store) (r : Result A) (f : Store → A → Store × Reply B)
    → IsCoherent s
    → r ≢ err Ids.key_error
    → ((a : A) → r ≡ ok a → IsKept (f s a))
    → IsKept ((s, raising r) then_do f)
unfolding raising
raising-IsKept s (ok a) f c h k = k a refl
raising-IsKept s (err too_many_digits) f c h k = (c, refl)
raising-IsKept s (err Ids.key_error) f c h k = absurd (h refl)
raising-IsKept s (err bad_id) f c h k = (c, refl)
raising-IsKept s (err zero_id) f c h k = (c, refl)
raising-IsKept s (err small_id) f c h k = (c, refl)
raising-IsKept s (err bad_interval) f c h k = (c, refl)
raising-IsKept s (err bad_name) f c h k = (c, refl)
raising-IsKept s (err bad_record) f c h k = (c, refl)
raising-IsKept s (err bad_arity) f c h k = (c, refl)
raising-IsKept s (err bad_maxlen) f c h k = (c, refl)

at_stream-IsKept {ℓ} :
    {B : Type ℓ} (s : Store) (key : Text) (o : Option Value)
    (f : Store → Option Stream → Store × Reply B)
    → Dict.get s.data_map key ≡ o
    → IsCoherent s
    → ((v : Stream) → o ≡ some (stream v) → IsKept (f s (some v)))
    → (o ≡ none → IsKept (f s none))
    → IsKept ((s, stream_at o) then_do f)
unfolding stream_at
at_stream-IsKept s key none f e c k n = n refl
at_stream-IsKept s key (some (stream v)) f e c k n = k v refl
at_stream-IsKept s key (some (string t)) f e c k n = (c, refl)
at_stream-IsKept s key (some (deque t)) f e c k n = (c, refl)
at_stream-IsKept s key (some (members t)) f e c k n = (c, refl)
at_stream-IsKept s key (some (hash t)) f e c k n = (c, refl)
at_stream-IsKept s key (some (hyperloglog t)) f e c k n = (c, refl)

evicted_stream-IsKept {ℓ} :
    {B : Type ℓ} (p : Store × Reply Bool) (key : Text) (f : Store → Option Stream → Store × Reply B)
    → IsKept p
    → ((t : Store) (v : Stream)
        → IsCoherent t
        → Dict.get t.data_map key ≡ some (stream v)
        → IsKept (f t (some v)))
    → ((t : Store) → IsCoherent t → IsKept (f t none))
    → IsKept ((p then_do λ s _. (s, stream_at (Dict.get s.data_map key))) then_do f)
evicted_stream-IsKept (t, returns b) key f h k n =
    at_stream-IsKept t key (Dict.get t.data_map key) f refl h.0 (λ v e. k t v h.0 e) (λ e. n t h.0)
evicted_stream-IsKept (t, wrong_type) key f h k n = (h.0, refl)
evicted_stream-IsKept (t, value_error) key f h k n = (h.0, refl)
evicted_stream-IsKept (t, stream_error m) key f h k n = (h.0, refl)
evicted_stream-IsKept (t, key_error) key f h k n = absurd (ground (arith, h.1))

-- A method that reads the stream at its key, if there is one.
pub stream-IsKept {ℓ} :
    {B : Type ℓ} (s : Store) (key : Text) (now : ℕ) (f : Store → Option Stream → Store × Reply B)
    → IsCoherent s
    → ((t : Store) (v : Stream)
        → IsCoherent t
        → Dict.get t.data_map key ≡ some (stream v)
        → IsKept (f t (some v)))
    → ((t : Store) → IsCoherent t → IsKept (f t none))
    → IsKept (stream_or_none s key now then_do f)
unfolding stream_or_none
stream-IsKept s key now f c k n =
    evicted_stream-IsKept (evict_if_expired s key now) key f (evict_if_expired-IsKept s key now c) k
      n

log_record-IsCoherent : (s : Store) (x : Record) → IsCoherent s → IsCoherent (log_record s x)
unfolding log_record
log_record-IsCoherent s x c =
    let r = c.ready in
    record {
      ready = record {
        expiring = r.expiring;
        held = r.held;
        unique = r.unique;
        capacity = r.capacity;
      };
      bounded = c.bounded;
    }

log_entry-IsCoherent :
    (s : Store) (key sid : Text) (fields : List Text)
    → IsCoherent s
    → IsCoherent (log_entry s key sid fields)
unfolding log_entry
log_entry-IsCoherent s key sid fields c = elim (Bool-cases (all_bare fields)) [
  | inl e ↦ rw e (log_operation-IsCoherent s _ c)
  | inr e ↦ rw e (log_record-IsCoherent s _ c)
]

log_entry-hold :
    (s : Store) (key sid : Text) (fields : List Text) (v : Value)
    → log_entry (hold s key v) key sid fields ≡ hold (log_entry s key sid fields) key v
unfolding log_entry log_record
log_entry-hold s key sid fields v = elim (Bool-cases (all_bare fields)) [
  | inl e ↦ rw e (log_operation-hold s key v (codes "XADD" ∷ key ∷ sid ∷ fields))
  | inr e ↦ rw e refl
]

added-IsKept :
    (s : Store) (key sid : Text) (fields : List Text) (p : Stream × ℕ)
    → IsCoherent s
    → IsKept (added s key sid fields p)
unfolding added
added-IsKept s key sid fields (v, removed) c =
    let l = log_entry s key sid fields in
    let d = log_entry-IsCoherent s key sid fields c in
    rw (log_entry-hold s key sid fields (stream v)) (elim (Bool-cases (ltb 0 removed)) [
      | inl e ↦ rw e (
        (unfold log_length in
            rw (log_operation-hold l key (stream v) _)
              (hold-IsCoherent _ key (stream v) (log_operation-IsCoherent l _ d))),
        refl,
      )
      | inr e ↦ rw e (hold-IsCoherent l key (stream v) d, refl)
    ])

-- A stream put back at its key.
hold_there-IsCoherent :
    (s : Store) (key : Text) (v w : Value)
    → IsCoherent s
    → Dict.get s.data_map key ≡ some w
    → IsCoherent (hold s key v)
hold_there-IsCoherent s key v w c e =
    let r = c.ready in
    let there : Dict.has s.data_map key ≡ true = has-get s.data_map key ∙ rw e refl in
    record {
      ready = record {
        expiring = λ k h. ground (arith, r.expiring k h, has-put s.data_map key k v);
        held = λ k. ground (arith, r.held k, has-put s.data_map key k v, eq_iff key k, there);
        unique = r.unique;
        capacity = r.capacity;
      };
      bounded = c.bounded;
    }

xadd_to-IsKept :
    (s : Store) (key : Text) (v : Stream) (fields : List Text) (spec : Text) (maxlen : Option ℤ)
    (minid : Option StreamId) (ms : ℕ)
    → IsCoherent s
    → IsKept (xadd_to s key v fields spec maxlen minid ms)
unfolding xadd_to
xadd_to-IsKept s key v fields spec maxlen minid ms c =
    raising-IsKept s (Entries.add v fields spec ms) _ c (add_sound v fields spec ms) (λ p e.
      raising-IsKept s (trim_added p.0 maxlen minid) _ c (trim_added_sound p.0 maxlen minid)
        (λ q e. added-IsKept s key p.1 fields q c))

pub xadd-IsKept :
    (s : Store) (key : Text) (fields : List Text) (o : AddOptions) (now ms : ℕ)
    → IsCoherent s
    → IsKept (xadd s key fields o now ms)
unfolding xadd xadd_at
xadd-IsKept s key fields o now ms c =
    raising-IsKept s (raise_if (is_negative o.maxlen) bad_maxlen) _ c
      (raise_if_sound (is_negative o.maxlen) bad_maxlen (ground arith))
      (λ _ _. raising-IsKept s (optional_id o.minid) _ c (optional_id_sound o.minid) (λ minid e.
        stream-IsKept s key now _ c
          (λ t v d e. xadd_to-IsKept t key v fields o.id_spec o.maxlen minid ms d)
          (λ t d. elim (Bool-cases o.nomkstream) [
            | inl n ↦ rw n (d, refl)
            | inr n ↦ rw n (xadd_to-IsKept t key new_stream fields o.id_spec o.maxlen minid ms d)
          ])))

pub xlen-IsKept : (s : Store) (key : Text) (now : ℕ) → IsCoherent s → IsKept (xlen s key now)
unfolding xlen
xlen-IsKept s key now c =
    stream-IsKept s key now _ c (λ t v d e. (touch_read-IsCoherent t key d, refl))
      (λ t d. (touch_read-IsCoherent t key d, refl))

pub xrange-IsKept :
    (s : Store) (key a b : Text) (n : Option ℤ) (now : ℕ)
    → IsCoherent s
    → IsKept (xrange s key a b n now)
unfolding xrange
xrange-IsKept s key a b n now c =
    raising-IsKept s (parse_bound true a) _ c (parse_bound_sound true a) (λ lo _.
      raising-IsKept s (parse_bound false b) _ c (parse_bound_sound false b) (λ hi _.
        stream-IsKept s key now _ c (λ t v d e. (touch_read-IsCoherent t key d, refl))
          (λ t d. (touch_read-IsCoherent t key d, refl))))

pub xrevrange-IsKept :
    (s : Store) (key a b : Text) (n : Option ℤ) (now : ℕ)
    → IsCoherent s
    → IsKept (xrevrange s key a b n now)
unfolding xrevrange
xrevrange-IsKept s key a b n now c =
    raising-IsKept s (parse_bound false a) _ c (parse_bound_sound false a) (λ hi _.
      raising-IsKept s (parse_bound true b) _ c (parse_bound_sound true b) (λ lo _.
        stream-IsKept s key now _ c (λ t v d e. (touch_read-IsCoherent t key d, refl))
          (λ t d. (touch_read-IsCoherent t key d, refl))))

deleted-IsKept :
    (s : Store) (key : Text) (ids : List StreamId) (p : Stream × ℕ) (w : Stream)
    → IsCoherent s
    → Dict.get s.data_map key ≡ some (stream w)
    → IsKept (deleted s key ids p)
unfolding deleted
deleted-IsKept s key ids (v, removed) w c e = elim (Bool-cases (ltb 0 removed)) [
  | inl q ↦ rw q (logged-IsCoherent s key (stream v) _ c, refl)
  | inr q ↦ rw q (hold_there-IsCoherent s key (stream v) (stream w) c e, refl)
]

pub xdel-IsKept :
    (s : Store) (key : Text) (ts : List Text) (now : ℕ) → IsCoherent s → IsKept (xdel s key ts now)
unfolding xdel
xdel-IsKept s key ts now c = raising-IsKept s (parse_ids ts) _ c (parse_ids_sound ts) (λ ids _.
    stream-IsKept s key now _ c (λ t v d e. deleted-IsKept t key ids (Entries.delete v ids) v d e)
      (λ t d. (d, refl)))

trimmed-IsKept :
    (s : Store) (key : Text) (p : Stream × ℕ) (w : Stream)
    → IsCoherent s
    → Dict.get s.data_map key ≡ some (stream w)
    → IsKept (trimmed s key p)
unfolding trimmed log_length
trimmed-IsKept s key (v, removed) w c e = elim (Bool-cases (ltb 0 removed)) [
  | inl q ↦ rw q (logged-IsCoherent s key (stream v) _ c, refl)
  | inr q ↦ rw q (hold_there-IsCoherent s key (stream v) (stream w) c e, refl)
]

pub xtrim-IsKept :
    (s : Store) (key : Text) (maxlen : Option ℤ) (minid : Option Text) (now : ℕ)
    → IsCoherent s
    → IsKept (xtrim s key maxlen minid now)
unfolding xtrim
xtrim-IsKept s key maxlen minid now c = elim (Bool-cases (is_ambiguous maxlen minid)) [
  | inl q ↦ rw q (c, refl)
  | inr q ↦ rw q (
      raising-IsKept s (optional_id minid) _ c (optional_id_sound minid) (λ sid _.
        stream-IsKept s key now _ c
          (λ t v d e.
            raising-IsKept t (Entries.trim v maxlen sid) _ d (trim_sound v maxlen sid)
              (λ p _. trimmed-IsKept t key p v d e))
          (λ t d. (d, refl))))
]
