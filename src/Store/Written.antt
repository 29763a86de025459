-- ===== src/Store/Written.antt =====
-- What a write of store.py leaves in the engine: the object that was written, and the bookkeeping.
use kedis_python.Prelude.{
  text_eq_refl, inl, inr, ◌<◌, ◌≡◌, refl, ◌∙◌, false, some, List, [], ◌∷◌, ◌++◌, ltb, arith, length,
  Text, text_eq, Bool-cases,
}
use kedis_python.Dict
use kedis_python.Dict.{Dict, text_key, has-put, has-remove, get-put, get-remove}
use kedis_python.Store.State.{
  Store, Value, tracks, kill, evict_oldest, touch_write, bump_version, log_operation, log_record,
}
use kedis_python.Store.Containers.{hold}
use kedis_python.Store.Coherent.{IsCoherent, touch_write-IsCoherent}
use kedis_python.Store.Tracker.{track-snoc}

-- An eviction spares every key but the one it gives up.
get-kill :
    (s : Store) (j k : Text)
    → text_eq j k ≡ false
    → Dict.get (kill s j).data_map k ≡ Dict.get s.data_map k
unfolding kill log_operation log_record
get-kill s j k n = ground (arith, n, get-remove s.data_map j k)

capacity-kill : (s : Store) (j : Text) → (kill s j).lru_maxsize ≡ s.lru_maxsize
unfolding kill log_operation log_record
capacity-kill s j = ground arith

-- The eviction stops before it comes to the key at the end.
get-evict_oldest :
    (ks : List Text) (s : Store) (k : Text)
    → tracks ks k ≡ false
    → 0 < s.lru_maxsize
    → Dict.get (evict_oldest (ks ++ k ∷ []) s).data_map k ≡ Dict.get s.data_map k
unfolding evict_oldest tracks
get-evict_oldest [] s k n h =
    let room : ltb s.lru_maxsize 1 ≡ false = ground (arith, h) in rw (room, evict_oldest) refl
get-evict_oldest (j ∷ ks) s k n h =
    let ih =
      get-evict_oldest ks (kill s j) k (ground (arith, n)) (omega (arith, h, capacity-kill s j)) in
    elim (Bool-cases (ltb s.lru_maxsize (length (j ∷ ks ++ k ∷ [])))) [
      | inl e ↦ rw (e, evict_oldest) (ih ∙ get-kill s j k (ground (arith, n)))
      | inr e ↦ rw (e, evict_oldest) refl
    ]

-- The key that is written outlives the eviction that its write starts.
pub get-touch_write :
    (s : Store) (key : Text)
    → 0 < s.lru_maxsize
    → Dict.get (touch_write s key).data_map key ≡ Dict.get s.data_map key
unfolding touch_write bump_version
get-touch_write s key h =
    let (ks, e, n) = track-snoc s.tracker key in
    rw e (get-evict_oldest ks (bump_version s key) key n h)

-- An object put at a key, and the tracker touched.
pub hold-IsCoherent :
    (s : Store) (key : Text) (v : Value)
    → IsCoherent s
    → IsCoherent (touch_write (hold s key v) key)
hold-IsCoherent s key v c =
    let r = c.ready in
    touch_write-IsCoherent (hold s key v) key
      (λ k h. ground (arith, r.expiring k h, has-put s.data_map key k v))
      (λ k. ground (arith, r.held k, has-put s.data_map key k v)) r.unique r.capacity

pub log_operation-hold :
    (s : Store) (key : Text) (v : Value) (tokens : List Text)
    → log_operation (hold s key v) tokens ≡ hold (log_operation s tokens) key v
unfolding log_operation log_record
log_operation-hold s key v [] = refl
log_operation-hold s key v ([] ∷ tokens) = refl
log_operation-hold s key v ((c ∷ cs) ∷ tokens) = refl

pub log_operation-IsCoherent :
    (s : Store) (tokens : List Text) → IsCoherent s → IsCoherent (log_operation s tokens)
unfolding log_operation log_record
log_operation-IsCoherent s [] c = c
log_operation-IsCoherent s ([] ∷ tokens) c = c
log_operation-IsCoherent s ((b ∷ bs) ∷ tokens) c =
    let r = c.ready in
    record {
      ready = record {
        expiring = r.expiring;
        held = r.held;
        unique = r.unique;
        capacity = r.capacity;
      };
      bounded = c.bounded;
    }

-- The end of every write: the object, its record in the log, the tracker.
pub logged-IsCoherent :
    (s : Store) (key : Text) (v : Value) (tokens : List Text)
    → IsCoherent s
    → IsCoherent (touch_write (log_operation (hold s key v) tokens) key)
logged-IsCoherent s key v tokens c =
    rw (log_operation-hold s key v tokens)
      (hold-IsCoherent (log_operation s tokens) key v (log_operation-IsCoherent s tokens c))

pub get-logged :
    (s : Store) (key : Text) (v : Value) (tokens : List Text)
    → IsCoherent s
    → Dict.get (touch_write (log_operation (hold s key v) tokens) key).data_map key ≡ some v
get-logged s key v tokens c =
    let c' = log_operation-IsCoherent s tokens c in
    rw (log_operation-hold s key v tokens) (
      get-touch_write (hold (log_operation s tokens) key v) key c'.ready.capacity
      ∙ ground (arith, get-put (log_operation s tokens).data_map key key v, text_eq_refl key))
