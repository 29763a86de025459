-- ===== src/Store/PushView.antt =====
-- `lpush` and `rpush` of store.py on the view: both ends of a sequence grow.
use mathlib.Core.List.{reverse, reverse-cons, append_assoc}
use mathlib.Core.Path.{subst}
use kedis_python.Prelude.{
  ◌⊎◌, inl, inr, ℕ, ◌≡◌, refl, ◌∙◌, Option, none, some, List, [], ◌∷◌, ◌++◌, arith, if◌then◌else◌,
  length, Text, text_eq, eq_iff, codes,
}
use kedis_python.Dict
use kedis_python.Dict.{Dict, text_key, get-put}
use kedis_python.Store.State.{
  Store, Value, string, deque, members, hash, stream, hyperloglog, Reply, returns, wrong_type,
  key_error, value_error, stream_error, ◌then_do◌, evict_if_expired, log_operation, log_record,
}
use kedis_python.Store.Containers.{hold, list_or_new, lpush, rpush, pushed, push_left, length_at}
use kedis_python.Store.Coherent.{IsCoherent, evict_if_expired-IsKept}
use kedis_python.Store.Written.{get-logged}
use kedis_python.Store.View.{
  live, view, HasRoom, evict_if_expired-view, evict_if_expired-data, evict_if_expired-live,
  evict_if_expired-HasRoom, evict_if_expired-returns, touch_write-view, log_operation-view,
}

-- A map of keys changed at one key.
abbrev pub set_at : (Text → Option Value) → Text → Option Value → Text → Option Value
set_at m key v k = if text_eq key k then v else m k

-- What a push on a map of keys answers and leaves: the list of the key, or an empty one, becomes
-- what `grow` makes of it; another type is an error and stays.
unfoldable pub push_map :
    (Text → Option Value) → Text → (List Text → List Text) → (Text → Option Value) × Reply ℕ
push_map m key grow = elim (list_or_new (m key)) [
  | returns items ↦ (set_at m key (some (deque (grow items))), returns (length (grow items)))
  | wrong_type ↦ (m, wrong_type)
  | key_error ↦ (m, key_error)
  | value_error ↦ (m, value_error)
  | stream_error e ↦ (m, stream_error e)
]

pub hold-view :
    (s : Store) (key : Text) (v : Value) (now : ℕ) (k : Text)
    → live (Dict.get s.expires key) (some v) now ≡ some v
    → view (hold s key v) now k ≡ (if text_eq key k then some v else view s now k)
unfolding view
hold-view s key v now k h = ground (arith, h, get-put s.data_map key k v, eq_iff key k)

room_log :
    (s : Store) (key : Text) (items tokens : List Text)
    → HasRoom s
    → HasRoom (log_operation (hold s key (deque items)) tokens)
unfolding log_operation log_record
room_log s key items [] h = h
room_log s key items ([] ∷ tokens) h = h
room_log s key items ((c ∷ cs) ∷ tokens) h = h

-- The list at a key can be had, or the key holds another type.
list_cases :
    (v : Option Value)
    → (list_or_new v ≡ wrong_type) ⊎ ((items : List Text) × (list_or_new v ≡ returns items))
unfolding list_or_new
list_cases none = inr ([], refl)
list_cases (some (deque items)) = inr (items, refl)
list_cases (some (string t)) = inl refl
list_cases (some (members t)) = inl refl
list_cases (some (hash t)) = inl refl
list_cases (some (stream t)) = inl refl
list_cases (some (hyperloglog t)) = inl refl

pushed-view :
    (s : Store) (key : Text) (items values : List Text) (name : Text) (now : ℕ)
    → IsCoherent s
    → HasRoom s
    → ((v : Option Value) → live (Dict.get s.expires key) v now ≡ v)
    → ((pushed s key items values name).1 ≡ returns (length items))
      × ((k : Text)
          → view (pushed s key items values name).0 now k
            ≡ (if text_eq key k then some (deque items) else view s now k))
unfolding pushed length_at
pushed-view s key items values name now c room h =
    let g = get-logged s key (deque items) (name ∷ key ∷ values) c in
    (
      rw (g, length_at) refl,
      λ k.
          touch_write-view (log_operation (hold s key (deque items)) (name ∷ key ∷ values)) key now
            k (room_log s key items (name ∷ key ∷ values) room)
          ∙ log_operation-view (hold s key (deque items)) (name ∷ key ∷ values) now k
          ∙ hold-view s key (deque items) now k (h (some (deque items))),
    )

push-view :
    (s : Store) (key : Text) (values : List Text) (name : Text) (grow : List Text → List Text)
    (now : ℕ)
    → IsCoherent s
    → HasRoom s
    → let r =
        (evict_if_expired s key now then_do λ t _.
        (t, list_or_new (Dict.get t.data_map key)) then_do λ t items.
        pushed t key (grow items) values name) in
      (r.1 ≡ (push_map (view s now) key grow).1)
      × ((k : Text) → view r.0 now k ≡ (push_map (view s now) key grow).0 k)
unfolding push_map
push-view s key values name grow now c room =
    let t = (evict_if_expired s key now).0 in
    let v : Dict.get t.data_map key ≡ view s now key = evict_if_expired-data s key now c in
    let same = evict_if_expired-view s key now in
    rw (evict_if_expired-returns s key now c, v)
      (elim (list_cases (view s now key)) [
        | inl e ↦ rw (e, push_map) (refl, same)
        | inr (items, e) ↦
            let p =
              pushed-view t key (grow items) values name now (evict_if_expired-IsKept s key now c).0
                (evict_if_expired-HasRoom s key now room)
                (λ v. evict_if_expired-live s key now v c) in
            rw (e, push_map) (p.0, λ k. rw (p.1 k, same k) refl)
      ])

-- On a coherent engine with room, `rpush` appends its values to the list that the view holds at its
-- key, or to an empty one, answers its new length, and changes no other key; where the key holds
-- another type it answers the type error and changes nothing.
pub rpush-view :
    (s : Store) (key : Text) (values : List Text) (now : ℕ)
    → IsCoherent s
    → HasRoom s
    → ((rpush s key values now).1 ≡ (push_map (view s now) key (λ items. items ++ values)).1)
      × ((k : Text)
          → view (rpush s key values now).0 now k
            ≡ (push_map (view s now) key (λ items. items ++ values)).0 k)
unfolding rpush
rpush-view s key values now c room =
    push-view s key values (codes "RPUSH") (λ items. items ++ values) now c room

push_left-reverse : (values items : List Text) → push_left items values ≡ reverse values ++ items
unfolding push_left
push_left-reverse [] items = refl
push_left-reverse (v ∷ values) items =
    push_left-reverse values (v ∷ items)
    ∙ rw (reverse-cons v values, append_assoc (reverse values) (v ∷ []) items) refl

-- On a coherent engine with room, `lpush` puts its values, the last one first, before the list that
-- the view holds at its key, or an empty one, answers its new length, and changes no other key; where
-- the key holds another type it answers the type error and changes nothing.
pub lpush-view :
    (s : Store) (key : Text) (values : List Text) (now : ℕ)
    → IsCoherent s
    → HasRoom s
    → ((lpush s key values now).1
        ≡ (push_map (view s now) key (λ items. reverse values ++ items)).1)
      × ((k : Text)
          → view (lpush s key values now).0 now k
            ≡ (push_map (view s now) key (λ items. reverse values ++ items)).0 k)
unfolding lpush
lpush-view s key values now c room =
    subst
      (λ grow.
        let m = push_map (view s now) key grow in
        ((lpush s key values now).1 ≡ m.1)
        × ((k : Text) → view (lpush s key values now).0 now k ≡ m.0 k))
      (λ i items. push_left-reverse values items i)
      (push-view s key values (codes "LPUSH") (λ items. push_left items values) now c room)
