-- ===== src/Store/View.antt =====
-- The abstract view of the engine of store.py: a map from keys to the values that are not expired,
-- with neither the tracker nor the expired keys that nobody has touched yet. Where an engine has room
-- for one more key, its methods act on the view as the methods of a map do.
use kedis_python.Prelude.{
  inl, inr, ℕ, ◌+◌, ◌≤◌, ◌<◌, ◌≡◌, refl, ◌∙◌, ap, Bool, true, false, Option, none, some, List, [],
  ◌∷◌, ltb, leb, arith, if◌then◌else◌, length, Text, text_eq, text_eq_refl, eq_iff, Bool-cases,
  codes, length-append,
}
use kedis_python.Dict
use kedis_python.Dict.{Dict, text_key, get-put, get-remove, has-get, is_some}
use kedis_python.Store.State.{
  Store, Value, string, deque, members, hash, stream, hyperloglog, Reply, returns, wrong_type,
  track, forget, move_to_end, evict_oldest, touch_write, touch_read, lru_invalidate,
  evict_if_expired, bump_version, log_operation, log_record,
}
use kedis_python.Stream.Entries.{Stream}
use kedis_python.Store.Keys.{set, get, readable, delete, drop_key}
use kedis_python.Store.Coherent.{IsCoherent, length-forget-le}

-- What a client finds at a key at a time.
abbrev pub live : Option ℕ → Option Value → ℕ → Option Value
live none v now = v
live (some at) v now = if leb at now then none else v

unfoldable pub view : Store → ℕ → Text → Option Value
view s now k = live (Dict.get s.expires k) (Dict.get s.data_map k) now

abbrev pub HasRoom : Store → Type 0
HasRoom s = length s.tracker < s.lru_maxsize

pub drop_key-view :
    (s : Store) (key : Text) (now : ℕ) (k : Text)
    → view (drop_key s key) now k ≡ (if text_eq key k then none else view s now k)
unfolding view drop_key lru_invalidate
drop_key-view s key now k = ground (arith, get-remove s.data_map key k, get-remove s.expires key k)

-- A removal of what has expired changes nothing that a client can see.
pub evict_if_expired-view :
    (s : Store) (key : Text) (now : ℕ) (k : Text)
    → view (evict_if_expired s key now).0 now k ≡ view s now k
unfolding evict_if_expired view lru_invalidate
evict_if_expired-view s key now k =
    ground (arith, get-remove s.data_map key k, get-remove s.expires key k, eq_iff key k)

-- Behind it, the data at the key is what a client can see there.
pub evict_if_expired-data :
    (s : Store) (key : Text) (now : ℕ)
    → IsCoherent s
    → Dict.get (evict_if_expired s key now).0.data_map key ≡ view s now key
unfolding evict_if_expired view lru_invalidate
evict_if_expired-data s key now c = ground (
  arith,
  text_eq_refl key,
  get-remove s.data_map key key,
  c.ready.expiring key,
  has-get s.expires key,
)

-- Behind it, the key has no time or one to come.
pub evict_if_expired-live :
    (s : Store) (key : Text) (now : ℕ) (v : Option Value)
    → IsCoherent s
    → live (Dict.get (evict_if_expired s key now).0.expires key) v now ≡ v
unfolding evict_if_expired lru_invalidate
evict_if_expired-live s key now v c = ground (
  arith,
  text_eq_refl key,
  get-remove s.expires key key,
  c.ready.expiring key,
  has-get s.expires key,
)

-- Whether a time has come.
abbrev pub is_due : Option ℕ → ℕ → Bool
is_due none now = false
is_due (some at) now = leb at now

pub evict_if_expired-returns :
    (s : Store) (key : Text) (now : ℕ)
    → IsCoherent s
    → (evict_if_expired s key now).1 ≡ returns (is_due (Dict.get s.expires key) now)
unfolding evict_if_expired
evict_if_expired-returns s key now c = ground (arith, c.ready.expiring key, has-get s.expires key)

due-view :
    (s : Store) (key : Text) (now : ℕ)
    → is_due (Dict.get s.expires key) now ≡ true
    → view s now key ≡ none
unfolding view
due-view s key now d = ground (arith, d)

bump_version-view :
    (s : Store) (key : Text) (now : ℕ) (k : Text) → view (bump_version s key) now k ≡ view s now k
unfolding bump_version view
bump_version-view s key now k = refl

pub evict_if_expired-HasRoom :
    (s : Store) (key : Text) (now : ℕ) → HasRoom s → HasRoom (evict_if_expired s key now).0
unfolding evict_if_expired lru_invalidate
evict_if_expired-HasRoom s key now h = ground (arith, h, length-forget-le s.tracker key)

touch_read-view :
    (s : Store) (key : Text) (now : ℕ) (k : Text) → view (touch_read s key) now k ≡ view s now k
unfolding touch_read view
touch_read-view s key now k = ground arith

touch_read-data : (s : Store) (key : Text) → (touch_read s key).data_map ≡ s.data_map
unfolding touch_read
touch_read-data s key = ground arith

pub evict_oldest_fits :
    (ks : List Text) (s : Store)
    → length ks ≤ s.lru_maxsize
    → evict_oldest ks s ≡ record s { tracker = ks }
unfolding evict_oldest
evict_oldest_fits [] s h = refl
evict_oldest_fits (k ∷ ks) s h =
    let fits : ltb s.lru_maxsize (length (k ∷ ks)) ≡ false = ground (arith, h) in
    rw (fits, evict_oldest) refl

pub length-track-le : (ks : List Text) (k : Text) → length (track ks k) ≤ length ks + 1
unfolding track move_to_end
length-track-le ks k =
    ground (
      arith,
      length-append ks (k ∷ []),
      length-append (forget ks k) (k ∷ []),
      length-forget-le ks k,
    )

-- A write evicts nothing where there is room.
pub touch_write-view :
    (s : Store) (key : Text) (now : ℕ) (k : Text)
    → HasRoom s
    → view (touch_write s key) now k ≡ view s now k
unfolding touch_write view bump_version
touch_write-view s key now k h =
    let fits : length (track s.tracker key) ≤ s.lru_maxsize =
      omega (arith, h, length-track-le s.tracker key) in
    rw (evict_oldest_fits (track s.tracker key) (bump_version s key) fits) refl

pub log_operation-view :
    (s : Store) (tokens : List Text) (now : ℕ) (k : Text)
    → view (log_operation s tokens) now k ≡ view s now k
unfolding log_operation log_record view
log_operation-view s [] now k = refl
log_operation-view s ([] ∷ tokens) now k = refl
log_operation-view s ((c ∷ cs) ∷ tokens) now k = refl

put-view :
    (s : Store) (key value : Text) (now : ℕ) (k : Text)
    → live
        (Dict.get (Dict.remove s.expires key) k)
        (Dict.get (Dict.put s.data_map key (string value)) k)
        now
      ≡ (if text_eq key k then some (string value) else view s now k)
unfolding view
put-view s key value now k =
    ground (arith, get-put s.data_map key k (string value), get-remove s.expires key k)

-- On an engine with room, `set` puts the value at its key for every reader at every time, whatever
-- the key held and whenever it was to expire, and changes no other key.
pub set-view :
    (s : Store) (key value : Text) (now : ℕ) (k : Text)
    → HasRoom s
    → view (set s key value) now k ≡ (if text_eq key k then some (string value) else view s now k)
unfolding set log_operation log_record view
set-view s key value now k h = touch_write-view _ key now k h ∙ put-view s key value now k

-- The answer to GET by what a client can see at the key: the value, containers included, but a
-- TypeError for a stream and for a HyperLogLog.
pub data Answers : Option Value → Reply (Option Value) → Type 0 where
  missing : Answers none (returns none)
  of_string : (t : Text) → Answers (some (string t)) (returns (some (string t)))
  of_list : (items : List Text) → Answers (some (deque items)) (returns (some (deque items)))
  of_set : (items : List Text) → Answers (some (members items)) (returns (some (members items)))
  of_hash : (d : Dict Text Text) → Answers (some (hash d)) (returns (some (hash d)))
  of_stream : (v : Stream) → Answers (some (stream v)) wrong_type
  of_hyperloglog : (l : List ℕ) → Answers (some (hyperloglog l)) wrong_type

readable-Answers : (o : Option Value) → Answers o (readable o)
unfolding readable
readable-Answers none = missing
readable-Answers (some (string t)) = of_string t
readable-Answers (some (deque items)) = of_list items
readable-Answers (some (members items)) = of_set items
readable-Answers (some (hash d)) = of_hash d
readable-Answers (some (stream v)) = of_stream v
readable-Answers (some (hyperloglog l)) = of_hyperloglog l

get-readable :
    (s : Store) (key : Text) (now : ℕ)
    → IsCoherent s
    → (get s key now).1 ≡ readable (view s now key)
unfolding get readable
get-readable s key now c =
    let t = (evict_if_expired s key now).0 in
    let v : Dict.get t.data_map key ≡ view s now key = evict_if_expired-data s key now c in
    elim (Bool-cases (is_due (Dict.get s.expires key) now)) [
      | inl d ↦ rw (evict_if_expired-returns s key now c, d) (rw (due-view s key now d) refl)
      | inr d ↦ rw (evict_if_expired-returns s key now c, d) (rw (touch_read-data t key, v) refl)
    ]

get-same :
    (s : Store) (key : Text) (now : ℕ)
    → IsCoherent s
    → (k : Text) → view (get s key now).0 now k ≡ view s now k
unfolding get
get-same s key now c k =
    let t = (evict_if_expired s key now).0 in
    elim (Bool-cases (is_due (Dict.get s.expires key) now)) [
      | inl d ↦
          rw (evict_if_expired-returns s key now c, d)
            (touch_read-view t key now k ∙ evict_if_expired-view s key now k)
      | inr d ↦
          rw (evict_if_expired-returns s key now c, d)
            (touch_read-view t key now k ∙ evict_if_expired-view s key now k)
    ]

-- On a coherent engine, `get` answers nothing where a client can see nothing at the key, a TypeError
-- where it can see a stream or a HyperLogLog, and else the value itself, a list, a set or a hash
-- too; and it changes for no key what a client can see.
pub get-view :
    (s : Store) (key : Text) (now : ℕ)
    → IsCoherent s
    → Answers (view s now key) (get s key now).1
      × ((k : Text) → view (get s key now).0 now k ≡ view s now k)
get-view s key now c =
    (rw (get-readable s key now c) (readable-Answers (view s now key)), get-same s key now c)

-- On a coherent engine, `delete` answers whether its key was to be seen, 1 or 0; after it the key is
-- not, and every other key is as it was.
pub delete-view :
    (s : Store) (key : Text) (now : ℕ)
    → IsCoherent s
    → ((delete s key now).1 ≡ returns (if is_some (view s now key) then 1 else 0))
      × ((k : Text)
          → view (delete s key now).0 now k ≡ (if text_eq key k then none else view s now k))
unfolding delete
delete-view s key now c =
    let t = (evict_if_expired s key now).0 in
    let v : Dict.get t.data_map key ≡ view s now key = evict_if_expired-data s key now c in
    let same = evict_if_expired-view s key now in
    let there : Dict.has t.data_map key ≡ is_some (view s now key) =
      has-get t.data_map key ∙ ap is_some v in
    let missing : is_some (view s now key) ≡ false → view s now key ≡ none =
      λ e. ground (arith, e) in
    elim (Bool-cases (is_some (view s now key))) [
      | inl e ↦
          rw (evict_if_expired-returns s key now c, there, e)
            (
              refl,
              λ k.
                  drop_key-view (log_operation (bump_version t key) (codes "DEL" ∷ key ∷ [])) key
                    now k
                  ∙ ground (
                    arith,
                    same k,
                    log_operation-view (bump_version t key) (codes "DEL" ∷ key ∷ []) now k,
                    bump_version-view t key now k,
                  ),
            )
      | inr e ↦
          rw (evict_if_expired-returns s key now c, there, e)
            (refl, λ k. ground (arith, same k, missing e, eq_iff key k))
    ]
