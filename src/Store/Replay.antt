-- ===== src/Store/Replay.antt =====
-- `recover_from_aof` of store.py: the records of the log, replayed on an engine that does not log. The
-- records of sorted sets, bitmaps and HyperLogLogs (ZADD, SETBIT, BITOP, SETB64, PFADD, PFMERGE, PFLOAD)
-- and XSTATE are passed over here, where the source applies them: what writes them is not modelled.
use kedis_python.Prelude.{
  ℕ, Bool, true, false, Option, none, some, List, [], ◌∷◌, ◌++◌, if◌then◌else◌, Text, text_eq,
  codes,
}
use kedis_python.Dict
use kedis_python.Dict.{Dict, text_key}
use kedis_python.PyInt.{int_of}
use kedis_python.Stream.Id.{
  Result, ok, err, key_error, too_many_digits, bad_maxlen, ◌>>=◌, parse_id,
}
use kedis_python.Stream.Entries
use kedis_python.Stream.Entries.{Stream, new_stream}
use kedis_python.Stream.Records
use kedis_python.Store.State.{
  Store, string, deque, members, hash, stream, Record, command, expire_at, add_blob, touch_write,
  lru_invalidate,
}
use kedis_python.Store.Keys.{flushall}
use kedis_python.Store.Containers.{hold, push_left, split_last, update, difference_update}

-- `str.upper`, and the clock, which an ID of "*" would read.
pub record Host : Type 0 where
  pub upper : Text → Text
  pub now_ms : ℕ

-- The engine behind a record, or any other exception, which ends the recovery.
pub data Replayed : Type 0 where
  replayed : Store → Replayed
  crashed : Replayed

infixl 5 ◌and_then◌
abbrev pub ◌and_then◌ : Replayed → (Store → Replayed) → Replayed
replayed s and_then f = f s
crashed and_then f = crashed

-- The commands that `recover_from_aof` tells apart.
pub data Kind : Type 0 where
  is_set is_del is_flushall is_lpush is_rpush is_lpop is_rpop is_sadd is_srem is_hset : Kind
  is_xadd is_xdel is_xtrim unknown : Kind
  is_group_record : Text → Kind

unfoldable pub kind_of : Text → Kind
kind_of cmd =
    if text_eq cmd (codes "SET")
    then is_set
    else if text_eq cmd (codes "DEL")
    then is_del
    else if text_eq cmd (codes "FLUSHALL")
    then is_flushall
    else if text_eq cmd (codes "LPUSH")
    then is_lpush
    else if text_eq cmd (codes "RPUSH")
    then is_rpush
    else if text_eq cmd (codes "LPOP")
    then is_lpop
    else if text_eq cmd (codes "RPOP")
    then is_rpop
    else if text_eq cmd (codes "SADD")
    then is_sadd
    else if text_eq cmd (codes "SREM")
    then is_srem
    else if text_eq cmd (codes "HSET")
    then is_hset
    else if text_eq cmd (codes "XADD")
    then is_xadd
    else if text_eq cmd (codes "XDEL")
    then is_xdel
    else if text_eq cmd (codes "XTRIM")
    then is_xtrim
    else elim (Records.kind_of cmd) [ some k ↦ is_group_record cmd | none ↦ unknown ]

-- `" ".join(tokens)`.
unfoldable pub join_words : List Text → Text
join_words [] = []
join_words (w ∷ []) = w
join_words (w ∷ v ∷ ws) = w ++ 32 ∷ join_words (v ∷ ws)

-- A list or a set that a record left empty goes, its time in the expiry map stays.
unfoldable pub drop_empty : Store → Text → Replayed
drop_empty s key = elim (Dict.get s.data_map key) [
  | none ↦ crashed
  | some (deque []) ↦
      replayed (lru_invalidate (record s { data_map = Dict.remove s.data_map key }) key)
  | some (members []) ↦
      replayed (lru_invalidate (record s { data_map = Dict.remove s.data_map key }) key)
  | some v ↦ replayed s
]

-- LPUSH and RPUSH, by what they make of the list.
unfoldable pub replay_push : Store → Text → (List Text → List Text) → Replayed
replay_push s key grow = elim (Dict.get s.data_map key) [
  | none ↦ replayed (touch_write (hold s key (deque (grow []))) key)
  | some (deque items) ↦ replayed (touch_write (hold s key (deque (grow items))) key)
  | some v ↦ crashed
]

-- LPOP and RPOP, by what they leave of a list that is not empty.
unfoldable pub replay_pop : Store → Text → (Text → List Text → List Text) → Replayed
replay_pop s key left = elim (Dict.get s.data_map key) [
  | some (deque (x ∷ items)) ↦ drop_empty (touch_write (hold s key (deque (left x items))) key) key
  | some v ↦ replayed s
  | none ↦ replayed s
]

-- `dict.update(items)` of strings: each must be a pair of characters.
unfoldable pub update_pairs : Dict Text Text → List Text → Option (Dict Text Text)
update_pairs d [] = some d
update_pairs d ((k ∷ v ∷ []) ∷ items) = update_pairs (Dict.put d (k ∷ []) (v ∷ [])) items
update_pairs d (x ∷ items) = none

unfoldable pub replay_sadd : Store → Text → List Text → Replayed
replay_sadd s key items = elim (Dict.get s.data_map key) [
  | none ↦ replayed (touch_write (hold s key (members (update [] items))) key)
  | some (members held) ↦ replayed (touch_write (hold s key (members (update held items))) key)
  | some (hash fields) ↦ elim (update_pairs fields items) [
    | none ↦ crashed
    | some grown ↦ replayed (touch_write (hold s key (hash grown)) key)
  ]
  | some v ↦ crashed
]

unfoldable pub replay_srem : Store → Text → List Text → Replayed
replay_srem s key items = elim (Dict.get s.data_map key) [
  | some (members held) ↦
      drop_empty (touch_write (hold s key (members (difference_update held items))) key) key
  | some v ↦ replayed s
  | none ↦ replayed s
]

unfoldable pub replay_hset : Store → Text → Text → Text → Replayed
replay_hset s key field value = elim (Dict.get s.data_map key) [
  | none ↦ replayed (touch_write (hold s key (hash (Dict.put [] field value))) key)
  | some (hash fields) ↦
      replayed (touch_write (hold s key (hash (Dict.put fields field value))) key)
  | some v ↦ crashed
]

-- A change of the stream at a key. A StreamError passes the record over, and so does a ValueError where
-- it is caught; another exception ends the recovery.
unfoldable pub hold_ok {ℓ} : {A : Type ℓ} → Bool → Store → Text → Result (Stream × A) → Replayed
hold_ok catches s key (ok (v, a)) = replayed (touch_write (hold s key (stream v)) key)
hold_ok catches s key (err key_error) = crashed
hold_ok catches s key (err too_many_digits) = if catches then replayed s else crashed
hold_ok catches s key (err e) = replayed s

-- The stream at a key, or a new one, as a record changes it; what the change refuses, and a key that
-- holds another type, are passed over.
unfoldable pub replay_xadd : Host → Store → Text → Text → List Text → Replayed
replay_xadd host s key id_text fields = elim (Dict.get s.data_map key) [
  | none ↦ hold_ok true s key (Entries.add new_stream fields id_text host.now_ms)
  | some (stream v) ↦ hold_ok true s key (Entries.add v fields id_text host.now_ms)
  | some v ↦ replayed s
]

unfoldable pub replay_xdel : Store → Text → List Text → Replayed
replay_xdel s key ids = elim (Dict.get s.data_map key) [
  | some (stream v) ↦
      hold_ok false s key (do sids ← Records.parse_ids ids; ok (Entries.delete v sids))
  | some v ↦ replayed s
  | none ↦ replayed s
]

-- `trim` by MAXLEN or MINID.
unfoldable pub trim_by : Host → Text → Text → Stream → Result (Stream × ℕ)
trim_by host name bound v =
    if text_eq (host.upper name) (codes "MAXLEN")
    then (elim (int_of bound) [ none ↦ err bad_maxlen | some n ↦ Entries.trim v (some n) none ])
    else if text_eq (host.upper name) (codes "MINID")
    then (do sid ← parse_id bound; Entries.trim v none (some sid))
    else err bad_maxlen

unfoldable pub replay_xtrim : Host → Store → Text → Text → Text → Replayed
replay_xtrim host s key name bound = elim (Dict.get s.data_map key) [
  | some (stream v) ↦ hold_ok true s key (trim_by host name bound v)
  | some v ↦ replayed s
  | none ↦ replayed s
]

-- `apply_group_record`, without its logging, which is off: only XGROUP may make the stream.
unfoldable pub replay_group : Store → Text → Text → List Text → Replayed
replay_group s name key args = elim (Dict.get s.data_map key) [
  | none ↦
      if text_eq name (codes "XGROUP")
      then hold_ok true s key (Records.apply_group_record new_stream name args)
      else replayed s
  | some (stream v) ↦ hold_ok true s key (Records.apply_group_record v name args)
  | some v ↦ replayed s
]

-- A command and the tokens behind its name; too few of them are passed over.
unfoldable pub replay_command : Host → Store → Kind → List Text → Replayed
replay_command host s is_set (key ∷ w ∷ ws) = replayed (
    touch_write
      (record s {
        data_map = Dict.put s.data_map key (string (join_words (w ∷ ws)));
        expires = Dict.remove s.expires key;
      })
      key)
replay_command host s is_del (key ∷ ws) = replayed (
    lru_invalidate
      (record s { data_map = Dict.remove s.data_map key; expires = Dict.remove s.expires key }) key)
replay_command host s is_flushall ws = replayed (flushall s)
replay_command host s is_lpush (key ∷ v ∷ vs) =
    replay_push s key (λ items. push_left items (v ∷ vs))
replay_command host s is_rpush (key ∷ v ∷ vs) = replay_push s key (λ items. items ++ v ∷ vs)
replay_command host s is_lpop (key ∷ ws) = replay_pop s key (λ x items. items)
replay_command host s is_rpop (key ∷ ws) = replay_pop s key (λ x items. (split_last x items).0)
replay_command host s is_sadd (key ∷ v ∷ vs) = replay_sadd s key (v ∷ vs)
replay_command host s is_srem (key ∷ v ∷ vs) = replay_srem s key (v ∷ vs)
replay_command host s is_hset (key ∷ field ∷ w ∷ ws) = replay_hset s key field (join_words (w ∷ ws))
replay_command host s is_xadd (key ∷ sid ∷ f ∷ fields) = replay_xadd host s key sid (f ∷ fields)
replay_command host s is_xdel (key ∷ t ∷ ids) = replay_xdel s key (t ∷ ids)
replay_command host s is_xtrim (key ∷ name ∷ bound ∷ []) = replay_xtrim host s key name bound
replay_command host s (is_group_record name) (key ∷ arg ∷ args) =
    replay_group s name key (arg ∷ args)
replay_command host s kind ws = replayed s

-- One record.
unfoldable pub replay_record : Host → Store → Record → Replayed
replay_record host s (expire_at key at) =
    replayed (record s { expires = Dict.put s.expires key at })
replay_record host s (command []) = replayed s
replay_record host s (add_blob key sid fields) = replay_xadd host s key sid fields
replay_record host s (command (name ∷ ws)) = replay_command host s (kind_of (host.upper name)) ws

-- The loop of `recover_from_aof` over the records of the log.
unfoldable pub replay : Host → Store → List Record → Replayed
replay host s [] = replayed s
replay host s (r ∷ rs) = replay_record host s r and_then λ s. replay host s rs
