-- ===== src/Stream/Records.antt =====
-- `apply_group_record` of stream.py: the single place where group state changes.
use kedis_python.Prelude.{
  ℕ, ◌+◌, Option, none, some, List, [], ◌∷◌, if◌then◌else◌, Text, text_eq, codes, ℤ, max_ℤ, length,
  filter_by,
}
use kedis_python.Dict
use kedis_python.Dict.{Dict, text_key}
use kedis_python.PyInt.{int_of}
use kedis_python.Stream.Id.{
  StreamId, Result, ok, err, ◌>>=◌, parse_id, check_name, bad_record, id_key,
}
use kedis_python.Stream.Group.{Group, Consumer, Pending, new_group, pel_set, pel_remove, owned_by}
use kedis_python.Stream.Entries.{Stream}

-- The kinds of resolved records.
pub data Kind : Type 0 where
  xgroup xgdel xgcons xgcdel xgpel xglast xack : Kind

-- `kind`, where it is a key of `_RECORD_ARITY` or XACK.
unfoldable pub kind_of : Text → Option Kind
kind_of kind =
    if text_eq kind (codes "XACK")
    then some xack
    else if text_eq kind (codes "XGROUP")
    then some xgroup
    else if text_eq kind (codes "XGDEL")
    then some xgdel
    else if text_eq kind (codes "XGCONS")
    then some xgcons
    else if text_eq kind (codes "XGCDEL")
    then some xgcdel
    else if text_eq kind (codes "XGPEL")
    then some xgpel
    else if text_eq kind (codes "XGLAST")
    then some xglast
    else none

-- `_to_int(text)`.
unfoldable pub to_int : Text → Result ℤ
to_int text = elim (int_of text) [ none ↦ err bad_record | some n ↦ ok n ]

-- `group = self.groups.get(name)`, which must be there.
unfoldable pub group_of : Stream → Text → Result Group
group_of s name = elim (Dict.get s.groups name) [ none ↦ err bad_record | some g ↦ ok g ]

-- The group object of that name, changed in place.
unfoldable pub put_group : Stream → Text → Group → Stream
put_group s name g = record s { groups = Dict.put s.groups name g }

unfoldable pub parse_ids : List Text → Result (List StreamId)
parse_ids [] = ok []
parse_ids (t ∷ ts) = do sid ← parse_id t; sids ← parse_ids ts; ok (sid ∷ sids)

-- `sum(1 for sid in ids if group.pel_remove(sid))`.
unfoldable pub ack_all : Group → List StreamId → Group × ℕ
ack_all g [] = (g, 0)
ack_all g (sid ∷ ids) =
    let (g', gone) = pel_remove g sid in
    let (g'', n) = ack_all g' ids in (g'', (if gone then 1 else 0) + n)

-- A consumer that has been seen, and one that has been handed an entry.
abbrev pub touched : Consumer → ℤ → ℤ → Consumer
touched c seen active = record c {
  seen_ms = max_ℤ c.seen_ms seen;
  active_ms = max_ℤ c.active_ms active;
}

abbrev pub new_consumer : Text → ℤ → ℤ → Consumer
new_consumer name seen active = record { name = name; seen_ms = seen; active_ms = active }

-- XGCONS, on the group.
unfoldable pub create_consumer : Group → Text → ℤ → ℤ → Group × ℕ
create_consumer g cname seen active = elim (Dict.get g.consumers cname) [
  | none ↦ (record g { consumers = Dict.put g.consumers cname (new_consumer cname seen active) }, 1)
  | some c ↦ (record g { consumers = Dict.put g.consumers cname (touched c seen active) }, 0)
]

unfoldable pub remove_all : Dict StreamId Pending → List StreamId → Dict StreamId Pending
remove_all pel [] = pel
remove_all pel (sid ∷ gone) = remove_all (Dict.remove pel sid) gone

-- `if gone: group._pel_ids = [...]`.
abbrev pub kept_ids : List StreamId → Dict StreamId Pending → List StreamId → List StreamId
kept_ids [] pel ids = ids
kept_ids (sid ∷ gone) pel ids = filter_by (λ x. Dict.has pel x) ids

-- XGCDEL, on the group: how many pending entries went with the consumer.
unfoldable pub delete_consumer : Group → Text → Result (Group × ℕ)
delete_consumer g cname = do
  gone ← owned_by g.pel cname none g.pel_ids
  let pel = remove_all g.pel gone
  ok (
    record g {
      consumers = Dict.remove g.consumers cname;
      pel = pel;
      pel_ids = kept_ids gone pel g.pel_ids;
    },
    length gone,
  )

-- The consumer of an XGPEL record, created where its XGCONS was lost.
abbrev pub seen_consumer : Dict Text Consumer → Text → ℤ → Consumer
seen_consumer consumers cname delivered = elim (Dict.get consumers cname) [
  | none ↦ touched (new_consumer cname delivered delivered) delivered delivered
  | some c ↦ touched c delivered delivered
]

-- XGPEL, on the group.
unfoldable pub deliver : Group → StreamId → Text → ℤ → ℤ → Group
deliver g sid cname delivered count =
    let consumers = Dict.put g.consumers cname (seen_consumer g.consumers cname delivered) in
    pel_set (record g { consumers = consumers }) sid cname delivered count

-- XGROUP: the group is created, or its cursor moved.
unfoldable pub create_or_move : Stream → Text → StreamId → Result (Stream × ℕ)
create_or_move s name last_id = elim (Dict.get s.groups name) [
  | none ↦ do checked ← check_name name; ok (put_group s name (new_group checked last_id), 1)
  | some g ↦ ok (put_group s name (record g { last_id = last_id }), 1)
]

-- The branches by kind. Arguments of another number than the kind's are a bad record.
unfoldable pub apply_kind : Stream → Kind → List Text → Result (Stream × ℕ)
apply_kind s xgroup (name ∷ id ∷ []) = do last_id ← parse_id id; create_or_move s name last_id
apply_kind s xgdel (name ∷ []) =
    ok (record s { groups = Dict.remove s.groups name }, if Dict.has s.groups name then 1 else 0)
apply_kind s xglast (name ∷ id ∷ []) = do
  g ← group_of s name
  last_id ← parse_id id
  ok (put_group s name (record g { last_id = last_id }), 1)
apply_kind s xack (name ∷ t ∷ ts) = do
  g ← group_of s name
  ids ← parse_ids (t ∷ ts)
  let (g', n) = ack_all g ids
  ok (put_group s name g', n)
apply_kind s xgcons (name ∷ consumer ∷ seen ∷ active ∷ []) = do
  g ← group_of s name
  cname ← check_name consumer
  seen_ms ← to_int seen
  active_ms ← to_int active
  let (g', n) = create_consumer g cname seen_ms active_ms
  ok (put_group s name g', n)
apply_kind s xgcdel (name ∷ consumer ∷ []) = do
  g ← group_of s name
  cname ← check_name consumer
  (g', n) ← delete_consumer g cname
  ok (put_group s name g', n)
apply_kind s xgpel (name ∷ consumer ∷ id ∷ delivered ∷ count ∷ []) = do
  g ← group_of s name
  cname ← check_name consumer
  sid ← parse_id id
  delivered_ms ← to_int delivered
  tries ← to_int count
  ok (put_group s name (deliver g sid cname delivered_ms tries), 1)
apply_kind s kind args = err bad_record

-- `apply_group_record(kind, args)`.
unfoldable pub apply_group_record : Stream → Text → List Text → Result (Stream × ℕ)
apply_group_record s kind args = elim (kind_of kind) [
  | none ↦ err bad_record
  | some k ↦ apply_kind s k args
]
