-- ===== src/Store/State.antt =====
-- The state of `KedisStore` (kedis_python/store.py) and the internals that every command uses: the
-- version counters, the append-only log, expiry on access and the tracker that bounds the engine.
-- The clock is a number of ticks, and a method takes the readings that it makes.

use kedis_python.Prelude.{
  ℕ, ◌+◌, Bool, true, false, ◌||◌, Option, none, some, List, [], ◌∷◌, ◌++◌, ltb, leb, if◌then◌else◌,
  length, Text, text_eq, codes,
}
use kedis_python.Dict
use kedis_python.Dict.{Dict, text_key}
use kedis_python.Stream.Entries.{Stream}

-- What a key holds: a `str`, a `deque`, a `set` as its members in some order, a `dict`, a `Stream`,
-- a `HyperLogLog` as its registers.
pub data Value : Type 0 where
  string : Text → Value
  deque : List Text → Value
  members : List Text → Value
  hash : Dict Text Text → Value
  stream : Stream → Value
  hyperloglog : List ℕ → Value

-- A record of the log. The time of EXPIREAT is kept as the number that the source prints, and the
-- fields of XADDB64 as the list that its blob encodes, base64 of JSON.
pub data Record : Type 0 where
  add_blob : Text → Text → List Text → Record
  command : List Text → Record
  expire_at : Text → ℕ → Record

pub record Store : Type 0 where
  pub data_map : Dict Text Value
  pub expires : Dict Text ℕ
  pub versions : Dict Text ℕ
  pub tracker : List Text
  pub lru_maxsize : ℕ
  pub lru_hits : ℕ
  pub lru_misses : ℕ
  pub is_recovering : Bool
  pub log : List Record
  pub group_outbox : List (List Text)

-- What a method does: it returns, or it raises a TypeError, a KeyError, a ValueError or a StreamError.
pub data Reply {ℓ} (A : Type ℓ) : Type ℓ where
  returns : A → Reply A
  wrong_type key_error value_error : Reply A
  stream_error : Text → Reply A

-- The state stays as it is when a method raises.
infixl 5 ◌then_do◌
abbrev pub ◌then_do◌ {ℓ κ} :
    {A : Type ℓ} {B : Type κ} → Store × Reply A → (Store → A → Store × Reply B) → Store × Reply B
(s, returns a) then_do f = f s a
(s, wrong_type) then_do f = (s, wrong_type)
(s, key_error) then_do f = (s, key_error)
(s, value_error) then_do f = (s, value_error)
(s, stream_error m) then_do f = (s, stream_error m)

abbrev pub value_or {ℓ} : {A : Type ℓ} → A → Option A → A
value_or a none = a
value_or a (some b) = b

-- `_bump_version(key)`.
unfoldable pub bump_version : Store → Text → Store
bump_version s key = record s {
  versions = Dict.put s.versions key (value_or 0 (Dict.get s.versions key) + 1);
}

-- `_log_operation(*tokens)`.
unfoldable pub log_record : Store → Record → Store
log_record s r = record s { log = if s.is_recovering then s.log else s.log ++ r ∷ [] }

unfoldable pub log_operation : Store → List Text → Store
log_operation s [] = s
log_operation s ([] ∷ tokens) = s
log_operation s ((c ∷ cs) ∷ tokens) = log_record s (command ((c ∷ cs) ∷ tokens))

-- `key in self._lru_tracker`.
unfoldable pub tracks : List Text → Text → Bool
tracks [] k = false
tracks (j ∷ ks) k = text_eq j k || tracks ks k

-- `self._lru_tracker.pop(key, None)`.
unfoldable pub forget : List Text → Text → List Text
forget [] k = []
forget (j ∷ ks) k = let rest = forget ks k in if text_eq j k then rest else j ∷ rest

-- `self._lru_tracker.move_to_end(key)`.
unfoldable pub move_to_end : List Text → Text → List Text
move_to_end ks k = forget ks k ++ k ∷ []

-- `_touch_read(key)`.
unfoldable pub touch_read : Store → Text → Store
touch_read s key =
    if tracks s.tracker key
    then record s { tracker = move_to_end s.tracker key; lru_hits = s.lru_hits + 1 }
    else record s { lru_misses = s.lru_misses + 1 }

-- The end of an eviction: the data of the key that the tracker gave up.
unfoldable pub kill : Store → Text → Store
kill s oldest =
    if Dict.has s.data_map oldest
    then log_operation
        (record s {
          data_map = Dict.remove s.data_map oldest;
          expires = Dict.remove s.expires oldest;
        })
        (codes "DEL" ∷ oldest ∷ [])
    else s

-- `while len(self._lru_tracker) > self._lru_maxsize`, on the tracker's keys, the oldest first.
unfoldable pub evict_oldest : List Text → Store → Store
evict_oldest [] s = record s { tracker = [] }
evict_oldest (k ∷ ks) s = elim (ltb s.lru_maxsize (length (k ∷ ks))) [
  | true ↦ evict_oldest ks (kill s k)
  | false ↦ record s { tracker = k ∷ ks }
]

-- The tracker after a write, before the eviction.
unfoldable pub track : List Text → Text → List Text
track ks key = if tracks ks key then move_to_end ks key else ks ++ key ∷ []

-- `_touch_write(key)`.
unfoldable pub touch_write : Store → Text → Store
touch_write s key = evict_oldest (track s.tracker key) (bump_version s key)

-- `_lru_invalidate(key)`.
unfoldable pub lru_invalidate : Store → Text → Store
lru_invalidate s key = record s { tracker = forget s.tracker key }

-- `_evict_if_expired(key)`, at the time `now`.
unfoldable pub evict_if_expired : Store → Text → ℕ → Store × Reply Bool
evict_if_expired s key now = elim (Dict.get s.expires key) [
  | none ↦ (s, returns false)
  | some at ↦
      if leb at now
      then if Dict.has s.data_map key
        then (
          lru_invalidate
              (record s {
                data_map = Dict.remove s.data_map key;
                expires = Dict.remove s.expires key;
              })
              key,
          returns true,
        )
        else (s, key_error)
      else (s, returns false)
]
