-- ===== src/Store/Containers.antt =====
-- The commands of store.py on lists, sets and hashes.
use kedis_python.Prelude.{
  ℕ, ◌+◌, ◌-◌, Bool, true, false, Option, none, some, List, [], ◌∷◌, ◌++◌, ltb, leb, if◌then◌else◌,
  Text, codes, ℤ, pos, negsuc, length, take, drop,
}
use kedis_python.Dict
use kedis_python.Dict.{Dict, text_key}
use kedis_python.Store.State.{
  Store, Value, deque, members, hash, Reply, returns, wrong_type, key_error, ◌then_do◌,
  log_operation, tracks, forget, touch_read, touch_write, evict_if_expired,
}
use kedis_python.Store.Keys.{drop_key}

-- The object of a type at a key: a new one where the key is missing, a TypeError where it holds
-- another type.
unfoldable pub list_or_new : Option Value → Reply (List Text)
list_or_new none = returns []
list_or_new (some (deque items)) = returns items
list_or_new (some v) = wrong_type

unfoldable pub set_or_new : Option Value → Reply (List Text)
set_or_new none = returns []
set_or_new (some (members items)) = returns items
set_or_new (some v) = wrong_type

unfoldable pub hash_or_new : Option Value → Reply (Dict Text Text)
hash_or_new none = returns []
hash_or_new (some (hash fields)) = returns fields
hash_or_new (some v) = wrong_type

-- The engine with a changed object at a key.
abbrev pub hold : Store → Text → Value → Store
hold s key v = record s { data_map = Dict.put s.data_map key v }

-- `for val in values: self._data[key].appendleft(val)`.
unfoldable pub push_left : List Text → List Text → List Text
push_left items [] = items
push_left items (v ∷ values) = push_left (v ∷ items) values

-- `len(self._data[key])` after a write: a KeyError if the write itself evicted the key.
unfoldable pub length_at : Store → Text → Reply ℕ
length_at s key = elim (Dict.get s.data_map key) [
  | none ↦ key_error
  | some (deque items) ↦ returns (length items)
  | some v ↦ wrong_type
]

-- The end of `lpush` and `rpush`: the object, the record, the tracker, the length.
unfoldable pub pushed : Store → Text → List Text → List Text → Text → Store × Reply ℕ
pushed s key items values name =
    let s = touch_write (log_operation (hold s key (deque items)) (name ∷ key ∷ values)) key in
    (s, length_at s key)

-- `lpush(key, *values)`.
unfoldable pub lpush : Store → Text → List Text → ℕ → Store × Reply ℕ
lpush s key values now = evict_if_expired s key now then_do λ s _.
    (s, list_or_new (Dict.get s.data_map key)) then_do λ s items.
    pushed s key (push_left items values) values (codes "LPUSH")

-- `rpush(key, *values)`.
unfoldable pub rpush : Store → Text → List Text → ℕ → Store × Reply ℕ
rpush s key values now = evict_if_expired s key now then_do λ s _.
    (s, list_or_new (Dict.get s.data_map key)) then_do λ s items.
    pushed s key (items ++ values) values (codes "RPUSH")

-- The end of `lpop` and `rpop`: what is left after the value went out, an empty list going whole.
unfoldable pub popped : Store → Text → List Text → Text → Text → Store × Reply (Option Text)
popped s key left value name =
    let s = touch_write (log_operation (hold s key (deque left)) (name ∷ key ∷ [])) key in
    elim (Dict.get s.data_map key) [
      | none ↦ (s, key_error)
      | some (deque []) ↦ (drop_key s key, returns (some value))
      | some v ↦ (s, returns (some value))
    ]

-- The last value of a list and those before it.
unfoldable pub split_last : Text → List Text → List Text × Text
split_last x [] = ([], x)
split_last x (y ∷ ys) = (x ∷ (split_last y ys).0, (split_last y ys).1)

-- `lpop(key)`.
unfoldable pub lpop : Store → Text → ℕ → Store × Reply (Option Text)
lpop s key now = evict_if_expired s key now then_do λ s _.
    (s, list_or_new (Dict.get s.data_map key)) then_do λ s items. elim items [
      | [] ↦ (s, returns none)
      | x ∷ left ↦ popped s key left x (codes "LPOP")
    ]

-- `rpop(key)`.
unfoldable pub rpop : Store → Text → ℕ → Store × Reply (Option Text)
rpop s key now = evict_if_expired s key now then_do λ s _.
    (s, list_or_new (Dict.get s.data_map key)) then_do λ s items. elim items [
      | [] ↦ (s, returns none)
      | x ∷ rest ↦ popped s key (split_last x rest).0 (split_last x rest).1 (codes "RPOP")
    ]

-- The first position of `lrange`: a negative one counts from the tail, clamped to the head.
unfoldable pub start_of : ℕ → ℤ → ℕ
start_of len (pos n) = n
start_of len (negsuc n) = len - (n + 1)

-- The position behind the last of `lrange`, 0 for a stop before the head.
unfoldable pub end_of : ℕ → ℤ → ℕ
end_of len (pos n) = if leb len n then len else n + 1
end_of len (negsuc n) = len - n

-- `lrange(key, start, stop)`.
unfoldable pub lrange : Store → Text → ℤ → ℤ → ℕ → Store × Reply (List Text)
lrange s key start stop now = evict_if_expired s key now then_do λ s _.
    let s = touch_read s key in
    (s, list_or_new (Dict.get s.data_map key)) then_do λ s items.
    let from = start_of (length items) start in
    let to = end_of (length items) stop in
    (s, returns (if leb to from then [] else drop from (take to items)))

-- `set.update(items)`.
unfoldable pub update : List Text → List Text → List Text
update held [] = held
update held (x ∷ items) = update (if tracks held x then held else held ++ x ∷ []) items

-- `set.difference_update(items)`.
unfoldable pub difference_update : List Text → List Text → List Text
difference_update held [] = held
difference_update held (x ∷ items) = difference_update (forget held x) items

-- `sadd(key, *members)`.
unfoldable pub sadd : Store → Text → List Text → ℕ → Store × Reply ℕ
sadd s key items now = evict_if_expired s key now then_do λ s _.
    (s, set_or_new (Dict.get s.data_map key)) then_do λ s held.
    let grown = update held items in
    let added = length grown - length held in
    let s = hold s key (members grown) in
    let s = if ltb 0 added then log_operation s (codes "SADD" ∷ key ∷ items) else s in
    (touch_write s key, returns added)

-- `srem` where members went: the record and the tracker.
unfoldable pub removed_state : Store → Text → List Text → List Text → Bool → Store
removed_state s key left items true =
    touch_write (log_operation (hold s key (members left)) (codes "SREM" ∷ key ∷ items)) key
removed_state s key left items false = hold s key (members left)

-- The end of `srem`: an empty set goes whole. `len` raises where the write evicted the key.
unfoldable pub left_state : Store → Text → ℕ → Store × Reply ℕ
left_state s key removed = elim (Dict.get s.data_map key) [
  | none ↦ (s, key_error)
  | some (members []) ↦ (drop_key s key, returns removed)
  | some v ↦ (s, returns removed)
]

-- `srem(key, *members)`. A key that is missing is no error.
unfoldable pub srem : Store → Text → List Text → ℕ → Store × Reply ℕ
srem s key items now = evict_if_expired s key now then_do λ s _. elim (Dict.get s.data_map key) [
  | none ↦ (s, returns 0)
  | some (members held) ↦
      let left = difference_update held items in
      let removed = length held - length left in
      left_state (removed_state s key left items (ltb 0 removed)) key removed
  | some v ↦ (s, wrong_type)
]

-- `smembers(key)`.
unfoldable pub smembers : Store → Text → ℕ → Store × Reply (List Text)
smembers s key now = evict_if_expired s key now then_do λ s _.
    let s = touch_read s key in (s, set_or_new (Dict.get s.data_map key))

-- `hset(key, field, value)`.
unfoldable pub hset : Store → Text → Text → Text → ℕ → Store × Reply ℕ
hset s key field value now = evict_if_expired s key now then_do λ s _.
    (s, hash_or_new (Dict.get s.data_map key)) then_do λ s fields.
    let s = hold s key (hash (Dict.put fields field value)) in
    let s = log_operation s (codes "HSET" ∷ key ∷ field ∷ value ∷ []) in
    (touch_write s key, returns (if Dict.has fields field then 0 else 1))

-- `hget(key, field)`, which answers None on another type.
unfoldable pub field_at : Option Value → Text → Option Text
field_at (some (hash fields)) field = Dict.get fields field
field_at v field = none

unfoldable pub hget : Store → Text → Text → ℕ → Store × Reply (Option Text)
hget s key field now = evict_if_expired s key now then_do λ s _.
    let s = touch_read s key in (s, returns (field_at (Dict.get s.data_map key) field))

-- `hgetall(key)`.
unfoldable pub hgetall : Store → Text → ℕ → Store × Reply (Dict Text Text)
hgetall s key now = evict_if_expired s key now then_do λ s _.
    let s = touch_read s key in (s, hash_or_new (Dict.get s.data_map key))
