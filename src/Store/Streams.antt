-- ===== src/Store/Streams.antt =====
-- The commands of store.py on streams.
use kedis_python.Prelude.{
  ℕ, Bool, true, false, ◌&&◌, Option, none, some, List, [], ◌∷◌, ltb, if◌then◌else◌, length, Text,
  codes, ℤ, negsuc,
}
use kedis_python.Decimal
use kedis_python.Dict
use kedis_python.Dict.{Dict, text_key}
use kedis_python.Stream.Id.{
  StreamId, Result, ok, err, ◌>>=◌, Error, bad_id, zero_id, small_id, bad_interval, bad_name,
  bad_record, bad_arity, bad_maxlen, too_many_digits, raise_if, parse_id, parse_bound, format_id,
  is_name,
}
use kedis_python.Stream.Id as Ids
use kedis_python.Stream.Entries
use kedis_python.Stream.Entries.{Stream, new_stream, Entry}
use kedis_python.Stream.Records.{parse_ids}
use kedis_python.Store.State.{
  Store, Value, stream, add_blob, Reply, returns, wrong_type, key_error, value_error, stream_error,
  ◌then_do◌, log_record, log_operation, touch_read, touch_write, evict_if_expired,
}
use kedis_python.Store.Containers.{hold}

-- The text of a StreamError.
unfoldable pub message : Error → Text
message bad_id = codes "ERR Invalid stream ID specified as stream command argument"
message zero_id = codes "ERR The ID specified in XADD must be greater than 0-0"
message small_id =
    codes "ERR The ID specified in XADD is equal or smaller than the target stream top item"
message bad_interval = codes "ERR invalid start ID for the interval"
message bad_name = codes "ERR Invalid group or consumer name: use printable ASCII without spaces"
message bad_record = codes "ERR Invalid consumer group record"
message bad_arity = codes "ERR wrong number of arguments for 'xadd' command"
message bad_maxlen = codes "ERR The MAXLEN argument must be >= 0."
message e = []

-- What a call of stream.py returns or raises inside a method of the engine.
unfoldable pub raising {ℓ} : {A : Type ℓ} → Result A → Reply A
raising (ok a) = returns a
raising (err too_many_digits) = value_error
raising (err Ids.key_error) = key_error
raising (err e) = stream_error (message e)

unfoldable pub stream_at : Option Value → Reply (Option Stream)
stream_at none = returns none
stream_at (some (stream v)) = returns (some v)
stream_at (some v) = wrong_type

-- `_stream_or_none(key)`.
unfoldable pub stream_or_none : Store → Text → ℕ → Store × Reply (Option Stream)
stream_or_none s key now =
    evict_if_expired s key now then_do λ s _. (s, stream_at (Dict.get s.data_map key))

-- `parse_id(minid) if minid is not None else None`.
unfoldable pub optional_id : Option Text → Result (Option StreamId)
optional_id none = ok none
optional_id (some t) = do sid ← parse_id t; ok (some sid)

unfoldable pub all_bare : List Text → Bool
all_bare [] = true
all_bare (f ∷ fields) = is_name f && all_bare fields

-- `_log_operation(*self._stream_entry_tokens(key, sid, fields))`.
unfoldable pub log_entry : Store → Text → Text → List Text → Store
log_entry s key sid fields =
    if all_bare fields
    then log_operation s (codes "XADD" ∷ key ∷ sid ∷ fields)
    else log_record s (add_blob key sid fields)

-- `_log_operation("XTRIM", key, "MAXLEN", len(stream))`.
unfoldable pub log_length : Store → Text → Stream → Store
log_length s key v =
    log_operation s (codes "XTRIM" ∷ key ∷ codes "MAXLEN" ∷ Decimal.print (length v.ids) ∷ [])

-- Whether XADD trims, and how.
unfoldable pub trim_added : Stream → Option ℤ → Option StreamId → Result (Stream × ℕ)
trim_added v none none = ok (v, 0)
trim_added v maxlen minid = Entries.trim v maxlen minid

-- The end of `xadd`: the stream, the records, the tracker.
unfoldable pub added : Store → Text → Text → List Text → Stream × ℕ → Store × Reply (Option Text)
added s key sid fields (v, removed) =
    let s = log_entry (hold s key (stream v)) key sid fields in
    let s = if ltb 0 removed then log_length s key v else s in
    (touch_write s key, returns (some sid))

-- `stream.add` and `stream.trim`. The source's `add` has changed the stream in place when `trim` runs;
-- `trim` raises for a negative MAXLEN only, which `xadd` has refused before.
unfoldable pub xadd_to :
    Store
    → Text
    → Stream
    → List Text
    → Text
    → Option ℤ
    → Option StreamId
    → ℕ
    → Store × Reply (Option Text)
xadd_to s key v fields id_spec maxlen minid now_ms =
    (s, raising (Entries.add v fields id_spec now_ms)) then_do λ s p.
    (s, raising (trim_added p.0 maxlen minid)) then_do λ s q. added s key p.1 fields q

abbrev pub is_negative : Option ℤ → Bool
is_negative (some (negsuc n)) = true
is_negative n = false

-- What `xadd` is given besides the key and the fields.
pub record AddOptions : Type 0 where
  pub id_spec : Text
  pub maxlen : Option ℤ
  pub minid : Option Text
  pub nomkstream : Bool

unfoldable pub xadd_at :
    Store
    → Text
    → List Text
    → AddOptions
    → Option StreamId
    → Option Stream
    → ℕ
    → Store × Reply (Option Text)
xadd_at s key fields o minid none now_ms =
    if o.nomkstream
    then (s, returns none)
    else xadd_to s key new_stream fields o.id_spec o.maxlen minid now_ms
xadd_at s key fields o minid (some v) now_ms =
    xadd_to s key v fields o.id_spec o.maxlen minid now_ms

-- `xadd(key, fields, id_spec, maxlen, minid, nomkstream)`, with the clock of the expiry in ticks and
-- that of the ID in milliseconds.
unfoldable pub xadd : Store → Text → List Text → AddOptions → ℕ → ℕ → Store × Reply (Option Text)
xadd s key fields o now now_ms =
    (s, raising (raise_if (is_negative o.maxlen) bad_maxlen)) then_do λ s _.
    (s, raising (optional_id o.minid)) then_do λ s minid.
    stream_or_none s key now then_do λ s held. xadd_at s key fields o minid held now_ms

-- `xlen(key)`.
unfoldable pub xlen : Store → Text → ℕ → Store × Reply ℕ
xlen s key now = stream_or_none s key now then_do λ s held.
    (touch_read s key, returns (elim held [ none ↦ 0 | some v ↦ length v.ids ]))

-- `xrange(key, start, end, count)` and `xrevrange(key, end, start, count)`.
unfoldable pub xrange : Store → Text → Text → Text → Option ℤ → ℕ → Store × Reply (List Entry)
xrange s key start end count now = (s, raising (parse_bound true start)) then_do λ s lo.
    (s, raising (parse_bound false end)) then_do λ s hi. stream_or_none s key now then_do λ s held.
    (touch_read s key, returns (elim held [ none ↦ [] | some v ↦ Entries.range v lo hi count ]))

unfoldable pub xrevrange : Store → Text → Text → Text → Option ℤ → ℕ → Store × Reply (List Entry)
xrevrange s key end start count now = (s, raising (parse_bound false end)) then_do λ s hi.
    (s, raising (parse_bound true start)) then_do λ s lo. stream_or_none s key now then_do λ s held.
    (touch_read s key, returns (elim held [ none ↦ [] | some v ↦ Entries.revrange v hi lo count ]))

unfoldable pub format_all : List StreamId → List Text
format_all [] = []
format_all (sid ∷ ids) = format_id sid ∷ format_all ids

unfoldable pub deleted : Store → Text → List StreamId → Stream × ℕ → Store × Reply ℕ
deleted s key ids (v, removed) =
    let s = hold s key (stream v) in
    (
      (if ltb 0 removed
          then touch_write (log_operation s (codes "XDEL" ∷ key ∷ format_all ids)) key
          else s),
      returns removed,
    )

-- `xdel(key, *id_texts)`.
unfoldable pub xdel : Store → Text → List Text → ℕ → Store × Reply ℕ
xdel s key id_texts now = (s, raising (parse_ids id_texts)) then_do λ s ids.
    stream_or_none s key now then_do λ s held. elim held [
      | none ↦ (s, returns 0)
      | some v ↦ deleted s key ids (Entries.delete v ids)
    ]

unfoldable pub trimmed : Store → Text → Stream × ℕ → Store × Reply ℕ
trimmed s key (v, removed) =
    let s = hold s key (stream v) in
    ((if ltb 0 removed then touch_write (log_length s key v) key else s), returns removed)

-- `(maxlen is None) == (minid is None)`.
abbrev pub is_ambiguous : Option ℤ → Option Text → Bool
is_ambiguous none none = true
is_ambiguous (some n) (some t) = true
is_ambiguous maxlen minid = false

-- `xtrim(key, maxlen, minid)`.
unfoldable pub xtrim : Store → Text → Option ℤ → Option Text → ℕ → Store × Reply ℕ
xtrim s key maxlen minid now =
    if is_ambiguous maxlen minid
    then (s, stream_error (codes "ERR syntax error, XTRIM needs MAXLEN or MINID"))
    else ((s, raising (optional_id minid)) then_do λ s minid.
        stream_or_none s key now then_do λ s held. elim held [
          | none ↦ (s, returns 0)
          | some v ↦ (s, raising (Entries.trim v maxlen minid)) then_do λ s p. trimmed s key p
        ])
