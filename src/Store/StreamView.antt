-- ===== src/Store/StreamView.antt =====
-- XADD of store.py on the engine as a map of unexpired values: what it puts there, and that nothing
-- changes where it raises.
use kedis_python.Prelude.{
  inl, inr, ℕ, ◌≡◌, refl, ap, ◌∙◌, Bool, true, false, Option, none, some, List, ltb, arith,
  if◌then◌else◌, Text, text_eq, ℤ, Bool-cases,
}
use kedis_python.Dict
use kedis_python.Dict.{Dict, text_key}
use kedis_python.Stream.Id.{StreamId, raise_if, bad_maxlen}
use kedis_python.Stream.Entries
use kedis_python.Stream.Entries.{Stream, new_stream}
use kedis_python.Store.State.{
  Store, Value, stream, Reply, returns, wrong_type, key_error, value_error, stream_error, ◌then_do◌,
  log_record, log_operation, evict_if_expired, lru_invalidate,
}
use kedis_python.Store.Containers.{hold}
use kedis_python.Store.Coherent.{IsCoherent}
use kedis_python.Store.View.{
  view, live, HasRoom, evict_if_expired-view, evict_if_expired-data, evict_if_expired-live,
  evict_if_expired-returns, evict_if_expired-HasRoom, touch_write-view, log_operation-view,
}
use kedis_python.Store.PushView.{set_at, hold-view}
use kedis_python.Store.Streams.{
  raising, stream_at, stream_or_none, optional_id, all_bare, log_entry, log_length, trim_added,
  added, xadd_to, is_negative, AddOptions, xadd_at, xadd,
}

infixl 5 ◌then_reply◌
abbrev pub ◌then_reply◌ {ℓ κ} : {A : Type ℓ} {B : Type κ} → Reply A → (A → Reply B) → Reply B
returns a then_reply f = f a
wrong_type then_reply f = wrong_type
key_error then_reply f = key_error
value_error then_reply f = value_error
stream_error m then_reply f = stream_error m

-- What XADD makes of a stream: the stream with the entry, trimmed, and the ID.
unfoldable pub extended :
    Stream → List Text → Text → Option ℤ → Option StreamId → ℕ → Reply (Option (Stream × Text))
extended v fields spec maxlen minid ms = raising (Entries.add v fields spec ms) then_reply λ p.
    raising (trim_added p.0 maxlen minid) then_reply λ q. returns (some (q.0, p.1))

unfoldable pub extended_at :
    Option Stream → List Text → AddOptions → Option StreamId → ℕ → Reply (Option (Stream × Text))
extended_at none fields o minid ms =
    if o.nomkstream then returns none else extended new_stream fields o.id_spec o.maxlen minid ms
extended_at (some v) fields o minid ms = extended v fields o.id_spec o.maxlen minid ms

-- What XADD comes to on the value that is to be seen at its key: a stream and an ID, nothing, or an
-- exception.
unfoldable pub add_outcome :
    Option Value → List Text → AddOptions → ℕ → Reply (Option (Stream × Text))
add_outcome v fields o ms = raising (raise_if (is_negative o.maxlen) bad_maxlen) then_reply λ _.
    raising (optional_id o.minid) then_reply λ minid.
    stream_at v then_reply λ held. extended_at held fields o minid ms

abbrev pub id_of : Option (Stream × Text) → Option Text
id_of none = none
id_of (some p) = some p.1

-- The map with what XADD comes to.
abbrev pub seen :
    (Text → Option Value) → Text → Reply (Option (Stream × Text)) → Text → Option Value
seen m key (returns (some p)) = set_at m key (some (stream p.0))
seen m key r = m

-- Whether XADD has an entry to log.
abbrev pub is_added : Reply (Option (Stream × Text)) → Bool
is_added (returns (some p)) = true
is_added r = false

-- A method answers an outcome, leaves it to be seen, and logs nothing without an entry.
pub record Agrees (s : Store) (now : ℕ) (key : Text) (r : Store × Reply (Option Text))
    (d : Reply (Option (Stream × Text))) : Type 0 where
  pub answers : r.1 ≡ (d then_reply λ p. returns (id_of p))
  pub shows : (k : Text) → view r.0 now k ≡ seen (view s now) key d k
  pub logs : is_added d ≡ false → r.0.log ≡ s.log

then_do-Agrees {ℓ} :
    {A : Type ℓ} (s t : Store) (now : ℕ) (key : Text) (p : Reply A)
    (f : Store → A → Store × Reply (Option Text)) (g : A → Reply (Option (Stream × Text)))
    → ((k : Text) → view t now k ≡ view s now k)
    → t.log ≡ s.log
    → ((a : A) → Agrees s now key (f t a) (g a))
    → Agrees s now key ((t, p) then_do f) (p then_reply g)
then_do-Agrees s t now key (returns a) f g v l h = h a
then_do-Agrees s t now key wrong_type f g v l h = record {
  answers = refl;
  shows = v;
  logs = λ _. l;
}
then_do-Agrees s t now key key_error f g v l h = record { answers = refl; shows = v; logs = λ _. l }
then_do-Agrees s t now key value_error f g v l h = record {
  answers = refl;
  shows = v;
  logs = λ _. l;
}
then_do-Agrees s t now key (stream_error m) f g v l h = record {
  answers = refl;
  shows = v;
  logs = λ _. l;
}

evict_if_expired-log :
    (s : Store) (key : Text) (now : ℕ) → (evict_if_expired s key now).0.log ≡ s.log
unfolding evict_if_expired lru_invalidate
evict_if_expired-log s key now = ground arith

log_entry-view :
    (s : Store) (key sid : Text) (fields : List Text) (now : ℕ) (k : Text)
    → view (log_entry s key sid fields) now k ≡ view s now k
unfolding log_entry
log_entry-view s key sid fields now k = elim (Bool-cases (all_bare fields)) [
  | inl e ↦ rw e (log_operation-view s _ now k)
  | inr e ↦ rw e (unfold log_record view in refl)
]

HasRoom-log_entry :
    (s : Store) (key sid : Text) (fields : List Text)
    → HasRoom s
    → HasRoom (log_entry s key sid fields)
unfolding log_entry log_operation log_record
HasRoom-log_entry s key sid fields h = elim (Bool-cases (all_bare fields)) [
  | inl e ↦ rw e h
  | inr e ↦ rw e h
]

log_length-view :
    (s : Store) (key : Text) (v : Stream) (now : ℕ) (k : Text)
    → view (log_length s key v) now k ≡ view s now k
unfolding log_length
log_length-view s key v now k = log_operation-view s _ now k

HasRoom-log_length :
    (s : Store) (key : Text) (v : Stream) → HasRoom s → HasRoom (log_length s key v)
unfolding log_length log_operation log_record
HasRoom-log_length s key v h = h

added-Agrees :
    (s t : Store) (now : ℕ) (key sid : Text) (fields : List Text) (v : Stream) (removed : ℕ)
    → ((k : Text) → view t now k ≡ view s now k)
    → HasRoom t
    → ((v : Option Value) → live (Dict.get t.expires key) v now ≡ v)
    → Agrees s now key (added t key sid fields (v, removed)) (returns (some (v, sid)))
unfolding added
added-Agrees s t now key sid fields v removed same room awake =
    let w = hold t key (stream v) in
    let l = log_entry w key sid fields in
    let roomy : HasRoom w = room in
    let put : (k : Text) → view l now k ≡ set_at (view s now) key (some (stream v)) k = λ k.
      log_entry-view w key sid fields now k
      ∙ hold-view t key (stream v) now k (awake (some (stream v)))
      ∙ ap (λ o. if text_eq key k then some (stream v) else o) (same k) in
    record {
      answers = refl;
      shows = λ k. elim (Bool-cases (ltb 0 removed)) [
        | inl e ↦ rw e (
            touch_write-view (log_length l key v) key now k
              (HasRoom-log_length l key v (HasRoom-log_entry w key sid fields roomy))
            ∙ log_length-view l key v now k
            ∙ put k)
        | inr e ↦
            rw e (touch_write-view l key now k (HasRoom-log_entry w key sid fields roomy) ∙ put k)
      ];
      logs = λ e. absurd (ground (arith, e));
    }

xadd_to-Agrees :
    (s t : Store) (now : ℕ) (key : Text) (v : Stream) (fields : List Text) (spec : Text)
    (maxlen : Option ℤ) (minid : Option StreamId) (ms : ℕ)
    → ((k : Text) → view t now k ≡ view s now k)
    → t.log ≡ s.log
    → HasRoom t
    → ((v : Option Value) → live (Dict.get t.expires key) v now ≡ v)
    → Agrees s now key
        (xadd_to t key v fields spec maxlen minid ms)
        (extended v fields spec maxlen minid ms)
unfolding xadd_to extended
xadd_to-Agrees s t now key v fields spec maxlen minid ms same l room awake =
    then_do-Agrees s t now key (raising (Entries.add v fields spec ms)) _ _ same l (λ p.
      then_do-Agrees s t now key (raising (trim_added p.0 maxlen minid)) _ _ same l
        (λ q. added-Agrees s t now key p.1 fields q.0 q.1 same room awake))

xadd_at-Agrees :
    (s t : Store) (now : ℕ) (key : Text) (held : Option Stream) (fields : List Text)
    (o : AddOptions) (minid : Option StreamId) (ms : ℕ)
    → ((k : Text) → view t now k ≡ view s now k)
    → t.log ≡ s.log
    → HasRoom t
    → ((v : Option Value) → live (Dict.get t.expires key) v now ≡ v)
    → Agrees s now key (xadd_at t key fields o minid held ms) (extended_at held fields o minid ms)
unfolding xadd_at extended_at
xadd_at-Agrees s t now key (some v) fields o minid ms same l room awake =
    xadd_to-Agrees s t now key v fields o.id_spec o.maxlen minid ms same l room awake
xadd_at-Agrees s t now key none fields o minid ms same l room awake =
    elim (Bool-cases o.nomkstream) [
      | inl e ↦ rw e (record { answers = refl; shows = same; logs = λ _. l })
      | inr e ↦ rw e (
          xadd_to-Agrees s t now key new_stream fields o.id_spec o.maxlen minid ms same l room
            awake)
    ]

-- On a coherent engine with room, XADD makes its checks and changes in their order on what a client can
-- see at its key, and changes no other key; where there is no entry, no key changes for any reader and
-- nothing is logged.
pub xadd-Agrees :
    (s : Store) (key : Text) (fields : List Text) (o : AddOptions) (now ms : ℕ)
    → IsCoherent s
    → HasRoom s
    → Agrees s now key (xadd s key fields o now ms) (add_outcome (view s now key) fields o ms)
unfolding xadd add_outcome stream_or_none
xadd-Agrees s key fields o now ms c room =
    let t = (evict_if_expired s key now).0 in
    then_do-Agrees s s now key (raising (raise_if (is_negative o.maxlen) bad_maxlen)) _ _
      (λ k. refl) refl
      (λ _.
        then_do-Agrees s s now key (raising (optional_id o.minid)) _ _ (λ k. refl) refl
          (λ minid.
            rw (evict_if_expired-returns s key now c, evict_if_expired-data s key now c)
              (then_do-Agrees s t now key (stream_at (view s now key)) _ _
                (evict_if_expired-view s key now) (evict_if_expired-log s key now)
                (λ held.
                  xadd_at-Agrees s t now key held fields o minid ms
                    (evict_if_expired-view s key now) (evict_if_expired-log s key now)
                    (evict_if_expired-HasRoom s key now room)
                    (λ v. evict_if_expired-live s key now v c)))))
