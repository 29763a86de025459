-- ===== src/Store/Keys.antt =====
-- The commands of store.py on keys and on the strings they hold.

use kedis_python.Prelude.{
  ℕ, ◌+◌, Option, none, some, List, [], ◌∷◌, ltb, if◌then◌else◌, Text, codes, ℤ, negsuc, sub_ℕ,
  length,
}
use kedis_python.Dict
use kedis_python.Dict.{Dict, text_key}
use kedis_python.Store.State.{
  Store, Value, string, stream, hyperloglog, expire_at, Reply, returns, wrong_type, ◌then_do◌,
  bump_version, log_record, log_operation, tracks, forget, touch_read, touch_write, lru_invalidate,
  evict_if_expired,
}

-- `set(key, value)`. The entry of the expiry map goes, if there is one.
unfoldable pub set : Store → Text → Text → Store
set s key value =
    let s = log_operation s (codes "SET" ∷ key ∷ value ∷ []) in
    touch_write
      (record s {
        data_map = Dict.put s.data_map key (string value);
        expires = Dict.remove s.expires key;
      })
      key

-- The value that `get` hands out: an object of the engine's own is not one of its strings.
unfoldable pub readable : Option Value → Reply (Option Value)
readable (some (stream v)) = wrong_type
readable (some (hyperloglog v)) = wrong_type
readable v = returns v

-- `get(key)`.
unfoldable pub get : Store → Text → ℕ → Store × Reply (Option Value)
get s key now = evict_if_expired s key now then_do λ s evicted.
    if evicted
    then (touch_read s key, returns none)
    else (let s = touch_read s key in (s, readable (Dict.get s.data_map key)))

-- The body of `delete`, once the key is found; `del self._data[key]` and what goes with it.
unfoldable pub drop_key : Store → Text → Store
drop_key s key =
    lru_invalidate
      (record s { data_map = Dict.remove s.data_map key; expires = Dict.remove s.expires key }) key

-- `delete(key)`.
unfoldable pub delete : Store → Text → ℕ → Store × Reply ℕ
delete s key now = evict_if_expired s key now then_do λ s _.
    if Dict.has s.data_map key
    then (drop_key (log_operation (bump_version s key) (codes "DEL" ∷ key ∷ [])) key, returns 1)
    else (s, returns 0)

-- `exists(key)`.
unfoldable pub exists : Store → Text → ℕ → Store × Reply ℕ
exists s key now = evict_if_expired s key now then_do λ s _.
    let s = touch_read s key in (s, returns (if Dict.has s.data_map key then 1 else 0))

-- `set_expire(key, seconds)`, which reads the clock once for the eviction and once more, `later`.
unfoldable pub set_expire : Store → Text → ℕ → ℕ → ℕ → Store × Reply ℕ
set_expire s key seconds now later = evict_if_expired s key now then_do λ s evicted.
    if evicted
    then (s, returns 0)
    else if Dict.has s.data_map key
    then (
      (let s = log_record s (expire_at key (later + seconds)) in
          record s { expires = Dict.put s.expires key (later + seconds) }),
      returns 1,
    )
    else (s, returns 0)

-- `ttl(key)`: -2 for no key, -1 for a key that does not expire.
unfoldable pub ttl : Store → Text → ℕ → ℕ → Store × Reply ℤ
ttl s key now later = evict_if_expired s key now then_do λ s _.
    if Dict.has s.data_map key
    then (elim (Dict.get s.expires key) [
      | none ↦ (s, returns (negsuc 0))
      | some at ↦ (s, returns (sub_ℕ at later))
    ])
    else (s, returns (negsuc 1))

-- `flushall()`.
unfoldable pub flushall : Store → Store
flushall s =
    let s = log_operation s (codes "FLUSHALL" ∷ []) in
    record s { data_map = []; expires = []; versions = []; tracker = [] }

-- `for key, exp_time in self._expires.items()`: the keys whose time is past.
unfoldable pub past_due : Dict Text ℕ → ℕ → List Text
past_due [] now = []
past_due ((k, at) ∷ expires) now =
    let rest = past_due expires now in if ltb at now then k ∷ rest else rest

unfoldable pub sweep : Store → List Text → Store
sweep s [] = s
sweep s (k ∷ ks) = sweep (log_operation (drop_key s k) (codes "DEL" ∷ k ∷ [])) ks

-- `_evict_all_expired()`: the state after it and how many keys went.
unfoldable pub evict_all_expired : Store → ℕ → Store × ℕ
evict_all_expired s now = let due = past_due s.expires now in (sweep s due, length due)

-- The counts that `housekeeping` returns of the passes below.
pub record Report : Type 0 where
  pub expired : ℕ
  pub expire_orphans : ℕ
  pub lru_orphans : ℕ
  pub lru_adopted : ℕ

-- `[k for k in self._expires if k not in self._data]`.
unfoldable pub orphans : Dict Text ℕ → Dict Text Value → List Text
orphans [] held = []
orphans ((k, at) ∷ expires) held =
    let rest = orphans expires held in if Dict.has held k then rest else k ∷ rest

unfoldable pub remove_all : Dict Text ℕ → List Text → Dict Text ℕ
remove_all d [] = d
remove_all d (k ∷ ks) = remove_all (Dict.remove d k) ks

-- `[k for k in self._lru_tracker if k not in self._data]`.
unfoldable pub ghosts : List Text → Dict Text Value → List Text
ghosts [] held = []
ghosts (k ∷ ks) held = let rest = ghosts ks held in if Dict.has held k then rest else k ∷ rest

unfoldable pub forget_all : List Text → List Text → List Text
forget_all tracker [] = tracker
forget_all tracker (k ∷ ks) = forget_all (forget tracker k) ks

-- `[k for k in self._data if k not in self._lru_tracker]`.
unfoldable pub untracked : Dict Text Value → List Text → List Text
untracked [] tracker = []
untracked ((k, v) ∷ held) tracker =
    let rest = untracked held tracker in if tracks tracker k then rest else k ∷ rest

-- Each adopted key goes to the cold end.
unfoldable pub adopt_all : List Text → List Text → List Text
adopt_all tracker [] = tracker
adopt_all tracker (k ∷ ks) = adopt_all (k ∷ tracker) ks

-- `housekeeping()`, without the rebuilding of containers, which changes no content.
unfoldable pub housekeeping : Store → ℕ → Store × Report
housekeeping s now =
    let (s, expired) = evict_all_expired s now in
    let stale = orphans s.expires s.data_map in
    let lost = ghosts s.tracker s.data_map in
    let kept = forget_all s.tracker lost in
    let found = untracked s.data_map kept in
    (
      record s { expires = remove_all s.expires stale; tracker = adopt_all kept found },
      record {
        expired = expired;
        expire_orphans = length stale;
        lru_orphans = length lost;
        lru_adopted = length found;
      },
    )
