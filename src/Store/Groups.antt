-- ===== src/Store/Groups.antt =====
-- The consumer group commands of store.py that change a group: each works out one resolved record and
-- applies it. Reading through a group is left out.
use kedis_python.Prelude.{
  ℕ, Bool, true, false, not, ◌||◌, Option, none, some, List, [], ◌∷◌, ◌++◌, if◌then◌else◌, length,
  Text, text_eq, codes,
}
use kedis_python.Decimal
use kedis_python.Dict
use kedis_python.Dict.{Dict, text_key}
use kedis_python.Stream.Id.{
  StreamId, Result, ok, min_id, parse_id, format_id, check_name, bad_record, id_key,
}
use kedis_python.Stream.Group.{Group, Pending, pending_counts}
use kedis_python.Stream.Entries.{Stream, new_stream}
use kedis_python.Stream.Records
use kedis_python.Stream.Records.{parse_ids}
use kedis_python.Store.State.{
  Store, Value, stream, Reply, returns, wrong_type, stream_error, ◌then_do◌, value_or,
  log_operation, touch_write,
}
use kedis_python.Store.Containers.{hold}
use kedis_python.Store.Streams.{message, raising, stream_or_none, format_all}

-- A resolved record, `[kind, key, *args]`, its kind in upper case.
pub record GroupRecord : Type 0 where
  pub kind : Text
  pub key : Text
  pub args : List Text

abbrev pub tokens_of : GroupRecord → List Text
tokens_of r = r.kind ∷ r.key ∷ r.args

-- The end of `apply_group_record`: the stream, the tracker, the record.
unfoldable pub applied : Store → GroupRecord → Bool → Stream × ℕ → Store × Reply ℕ
applied s r logs (v, n) =
    let s = touch_write (hold s r.key (stream v)) r.key in
    ((if logs then log_operation s (tokens_of r) else s), returns n)

-- The stream of a record: only XGROUP may make it.
unfoldable pub stream_of_record : Option Value → Text → Reply Stream
stream_of_record none kind =
    if text_eq kind (codes "XGROUP") then returns new_stream else stream_error (message bad_record)
stream_of_record (some (stream v)) kind = returns v
stream_of_record (some v) kind = wrong_type

abbrev pub is_group_kind : Text → Bool
is_group_kind kind = elim (Records.kind_of kind) [ none ↦ false | some k ↦ true ]

-- `apply_group_record(tokens, log)`.
unfoldable pub apply_group_record : Store → GroupRecord → Bool → Store × Reply ℕ
apply_group_record s r logs =
    if is_group_kind r.kind
    then ((s, stream_of_record (Dict.get s.data_map r.key) r.kind) then_do λ s v.
        (s, raising (Records.apply_group_record v r.kind r.args)) then_do λ s p. applied s r logs p)
    else (s, stream_error (message bad_record))

-- `_commit_group_records([record])`.
unfoldable pub commit_record : Store → GroupRecord → Store × Reply ℕ
commit_record s r = apply_group_record s r true then_do λ s n.
    (record s { group_outbox = s.group_outbox ++ tokens_of r ∷ [] }, returns n)

-- `drain_group_records()`.
unfoldable pub drain_group_records : Store → Store × List (List Text)
drain_group_records s = (record s { group_outbox = [] }, s.group_outbox)

abbrev pub needs_key : Text
needs_key =
    codes
      "ERR The XGROUP subcommand requires the key to exist. Note that for CREATE you may want to use the MKSTREAM option to create an empty stream automatically."

-- The error of `_group_of` for XGROUP.
unfoldable pub no_group : Text → Text → Text
no_group key group =
    codes "NOGROUP No such consumer group '"
    ++ (group ++ (codes "' for key name '" ++ (key ++ codes "'")))

-- `_stream_for_xgroup(key)`.
unfoldable pub existing : Option Stream → Reply Stream
existing none = stream_error needs_key
existing (some v) = returns v

unfoldable pub stream_for_xgroup : Store → Text → ℕ → Store × Reply Stream
stream_for_xgroup s key now = stream_or_none s key now then_do λ s held. (s, existing held)

-- `_group_of(key, group, "xgroup")`, which looks the stream up again.
unfoldable pub group_in : Option Stream → Text → Text → Reply (Stream × Group)
group_in none key group = stream_error (no_group key group)
group_in (some v) key group = elim (Dict.get v.groups group) [
  | none ↦ stream_error (no_group key group)
  | some g ↦ returns (v, g)
]

unfoldable pub group_of : Store → Text → Text → ℕ → Store × Reply (Stream × Group)
group_of s key group now = stream_or_none s key now then_do λ s held. (s, group_in held key group)

-- `$` or an explicit ID.
unfoldable pub cursor : Text → StreamId → Result StreamId
cursor id_text top = if text_eq id_text (codes "$") then ok top else parse_id id_text

abbrev pub group_record : Text → Text → Text → StreamId → GroupRecord
group_record kind key group sid = record {
  kind = kind;
  key = key;
  args = group ∷ format_id sid ∷ [];
}

abbrev pub top_of : Option Stream → StreamId
top_of none = min_id
top_of (some v) = v.last_id

-- The checks of `xgroup_create`.
unfoldable pub creatable : Option Stream → Text → Bool → Reply (Unit {0})
creatable none group mkstream = if mkstream then returns tt else stream_error needs_key
creatable (some v) group mkstream =
    if Dict.has v.groups group
    then stream_error (codes "BUSYGROUP Consumer Group name already exists")
    else returns tt

-- `xgroup_create(key, group, id_text, mkstream)`.
unfoldable pub xgroup_create : Store → Text → Text → Text → Bool → ℕ → Store × Reply ℕ
xgroup_create s key group id_text mkstream now = (s, raising (check_name group)) then_do λ s _.
    stream_or_none s key now then_do λ s held. (s, creatable held group mkstream) then_do λ s _.
    (s, raising (cursor id_text (top_of held))) then_do λ s last_id.
    commit_record s (group_record (codes "XGROUP") key group last_id)

-- `xgroup_setid(key, group, id_text)`, with the clock readings of its two lookups.
unfoldable pub xgroup_setid : Store → Text → Text → Text → ℕ → ℕ → Store × Reply ℕ
xgroup_setid s key group id_text now later = stream_for_xgroup s key now then_do λ s v.
    group_of s key group later then_do λ s _.
    (s, raising (cursor id_text v.last_id)) then_do λ s last_id.
    commit_record s (group_record (codes "XGROUP") key group last_id)

-- `xgroup_destroy(key, group)`.
unfoldable pub xgroup_destroy : Store → Text → Text → ℕ → Store × Reply ℕ
xgroup_destroy s key group now = stream_for_xgroup s key now then_do λ s v.
    if Dict.has v.groups group
    then (commit_record s (record { kind = codes "XGDEL"; key = key; args = group ∷ [] })
        then_do λ s _. (s, returns 1))
    else (s, returns 0)

-- `xgroup_createconsumer(key, group, consumer)`, at the time `now_ms`.
unfoldable pub xgroup_createconsumer : Store → Text → Text → Text → ℕ → ℕ → ℕ → Store × Reply ℕ
xgroup_createconsumer s key group consumer now later now_ms =
    (s, raising (check_name consumer)) then_do λ s _. stream_for_xgroup s key now then_do λ s _.
    group_of s key group later then_do λ s found.
    if Dict.has found.1.consumers consumer
    then (s, returns 0)
    else (commit_record s (record {
      kind = codes "XGCONS";
      key = key;
      args = group ∷ consumer ∷ Decimal.print now_ms ∷ codes "-1" ∷ [];
    })
        then_do λ s _. (s, returns 1))

-- `xgroup_delconsumer(key, group, consumer)`.
unfoldable pub xgroup_delconsumer : Store → Text → Text → Text → ℕ → ℕ → Store × Reply ℕ
xgroup_delconsumer s key group consumer now later = stream_for_xgroup s key now then_do λ s _.
    group_of s key group later then_do λ s found.
    if Dict.has found.1.consumers consumer
    then (let pending = value_or 0 (Dict.get (pending_counts found.1.pel []) consumer) in
        commit_record s (record { kind = codes "XGCDEL"; key = key; args = group ∷ consumer ∷ [] })
        then_do λ s _. (s, returns pending))
    else (s, returns 0)

-- `[sid for sid in dict.fromkeys(ids) if sid in g.pel]`, with the IDs that have been met.
unfoldable pub owned : Dict StreamId Pending → Dict StreamId Bool → List StreamId → List StreamId
owned pel met [] = []
owned pel met (sid ∷ ids) =
    let rest = owned pel (Dict.put met sid true) ids in
    if Dict.has met sid || not (Dict.has pel sid) then rest else sid ∷ rest

-- The acknowledgement of what a group has pending.
unfoldable pub acked : Store → Text → Text → List StreamId → Store × Reply ℕ
acked s key group [] = (s, returns 0)
acked s key group (sid ∷ ids) =
    commit_record s
      (record { kind = codes "XACK"; key = key; args = group ∷ format_all (sid ∷ ids) })
    then_do λ s _. (s, returns (length (sid ∷ ids)))

unfoldable pub group_or_none : Option Stream → Text → Option Group
group_or_none none group = none
group_or_none (some v) group = Dict.get v.groups group

-- `xack(key, group, *id_texts)`.
unfoldable pub xack : Store → Text → Text → List Text → ℕ → Store × Reply ℕ
xack s key group id_texts now = (s, raising (parse_ids id_texts)) then_do λ s ids.
    stream_or_none s key now then_do λ s held. elim (group_or_none held group) [
      | none ↦ (s, returns 0)
      | some g ↦ acked s key group (owned g.pel [] ids)
    ]

-- `store.apply_group_record` as XGAPPLY calls it, which needs a kind, in upper case here, a key and a
-- first argument: a follower applies what its leader resolved.
unfoldable pub xgapply : Store → Text → Text → Text → List Text → Store × Reply ℕ
xgapply s kind key arg args =
    apply_group_record s (record { kind = kind; key = key; args = arg ∷ args }) true
