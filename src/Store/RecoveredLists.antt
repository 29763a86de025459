-- ===== src/Store/RecoveredLists.antt =====
-- The commands of store.py on lists: the log still replays to the data after them.
use kedis_python.Prelude.{
  ◌⊎◌, inl, inr, ℕ, ◌≡◌, refl, ◌∙◌, Option, none, some, List, [], ◌∷◌, ◌++◌, arith, Text, text_eq,
  codes, ℤ,
}
use kedis_python.Dict
use kedis_python.Dict.{Dict, text_key, get-put}
use kedis_python.Store.State.{
  Store, Value, string, deque, members, hash, stream, hyperloglog, command, returns, log_operation,
  touch_read, touch_write, lru_invalidate,
}
use kedis_python.Store.Containers.{hold, list_or_new, push_left, pushed, lpush, rpush, lrange}
use kedis_python.Store.View.{HasRoom}
use kedis_python.Store.Replay.{
  Host, replayed, kind_of, is_lpush, is_rpush, replay_command, replay_record, replay_push,
  replay_pop, drop_empty,
}
use kedis_python.Store.Alike.{hold-IsAlike}
use kedis_python.Store.Recovered.{
  KeepsUpper, IsAwake, evict_if_expired-awake, IsRecovered, IsRecovered-write, IsRecovered-read,
  replay_record-named, then_do-kept,
}

pub list_or_new-returns :
    (o : Option Value) (items : List Text)
    → list_or_new o ≡ returns items
    → ((o ≡ none) × (items ≡ [])) ⊎ (o ≡ some (deque items))
unfolding list_or_new
list_or_new-returns none items e = inl (refl, ground (arith, e))
list_or_new-returns (some (deque held)) items e = inr (ground (arith, e))
list_or_new-returns (some (string t)) items e = absurd (ground (arith, e))
list_or_new-returns (some (members t)) items e = absurd (ground (arith, e))
list_or_new-returns (some (hash t)) items e = absurd (ground (arith, e))
list_or_new-returns (some (stream t)) items e = absurd (ground (arith, e))
list_or_new-returns (some (hyperloglog t)) items e = absurd (ground (arith, e))

replay_push-list :
    (r : Store) (key : Text) (items : List Text) (grow : List Text → List Text)
    → list_or_new (Dict.get r.data_map key) ≡ returns items
    → replay_push r key grow ≡ replayed (touch_write (hold r key (deque (grow items))) key)
unfolding replay_push
replay_push-list r key items grow e = elim (list_or_new-returns (Dict.get r.data_map key) items e) [
  | inl (none', nil) ↦ rw (none', replay_push, nil) refl
  | inr held ↦ rw (held, replay_push) refl
]

pub replay_pop-list :
    (r : Store) (key x : Text) (rest : List Text) (left : Text → List Text → List Text)
    → Dict.get r.data_map key ≡ some (deque (x ∷ rest))
    → replay_pop r key left ≡ drop_empty (touch_write (hold r key (deque (left x rest))) key) key
unfolding replay_pop
replay_pop-list r key x rest left e = rw (e, replay_pop) refl

pub drop_empty-nil :
    (r : Store) (key : Text)
    → Dict.get r.data_map key ≡ some (deque [])
    → drop_empty r key
      ≡ replayed (lru_invalidate (record r { data_map = Dict.remove r.data_map key }) key)
unfolding drop_empty
drop_empty-nil r key e = rw (e, drop_empty) refl

pub drop_empty-cons :
    (r : Store) (key y : Text) (ys : List Text)
    → Dict.get r.data_map key ≡ some (deque (y ∷ ys))
    → drop_empty r key ≡ replayed r
unfolding drop_empty
drop_empty-cons r key y ys e = rw (e, drop_empty) refl

module _ (host : Host) (keeps : KeepsUpper host) (start s : Store)
    (h : IsRecovered host start s) where
  pub same_list :
      (key : Text) (items : List Text)
      → list_or_new (Dict.get s.data_map key) ≡ returns items
      → list_or_new (Dict.get h.image.data_map key) ≡ returns items
  same_list key items e = rw (← h.alike.same_data) e

  pushed-IsRecovered :
      (key : Text) (items values : List Text) (grow : List Text → List Text) (c : ℕ) (cs : Text)
      → HasRoom s
      → list_or_new (Dict.get s.data_map key) ≡ returns items
      → replay_record host h.image (command ((c ∷ cs) ∷ key ∷ values))
        ≡ replay_push h.image key grow
      → IsRecovered host start (pushed s key (grow items) values (c ∷ cs)).0
  unfolding pushed log_operation
  pushed-IsRecovered key items values grow c cs room e k =
      let v = deque (grow items) in
      IsRecovered-write host start s (hold s key v) (hold h.image key v) key
        (command ((c ∷ cs) ∷ key ∷ values)) h room refl h.is_live
        (hold-IsAlike s h.image key v h.alike)
        (k ∙ replay_push-list h.image key items grow (same_list key items e))

  replay_lpush :
      (key v : Text) (vs : List Text)
      → replay_record host h.image (command (codes "LPUSH" ∷ key ∷ v ∷ vs))
        ≡ replay_push h.image key (λ items. push_left items (v ∷ vs))
  unfolding replay_command kind_of text_eq
  replay_lpush key v vs =
      replay_record-named host h.image (codes "LPUSH") is_lpush (key ∷ v ∷ vs)
        (keeps (codes "LPUSH") (refl, (refl, (refl, (refl, (refl, tt)))))) refl

  pub lpush-IsRecovered :
      (key v : Text) (vs : List Text) (now : ℕ)
      → IsAwake s key now
      → HasRoom s
      → IsRecovered host start (lpush s key (v ∷ vs) now).0
  unfolding lpush
  lpush-IsRecovered key v vs now awake room = rw (evict_if_expired-awake s key now awake) (
      then_do-kept (IsRecovered host start) s (list_or_new (Dict.get s.data_map key)) _ h
        (λ items e.
          pushed-IsRecovered key items (v ∷ vs) (λ items. push_left items (v ∷ vs)) b'L'
            (codes "PUSH") room e (replay_lpush key v vs)))

  replay_rpush :
      (key v : Text) (vs : List Text)
      → replay_record host h.image (command (codes "RPUSH" ∷ key ∷ v ∷ vs))
        ≡ replay_push h.image key (λ items. items ++ v ∷ vs)
  unfolding replay_command kind_of text_eq
  replay_rpush key v vs =
      replay_record-named host h.image (codes "RPUSH") is_rpush (key ∷ v ∷ vs)
        (keeps (codes "RPUSH") (refl, (refl, (refl, (refl, (refl, tt)))))) refl

  pub rpush-IsRecovered :
      (key v : Text) (vs : List Text) (now : ℕ)
      → IsAwake s key now
      → HasRoom s
      → IsRecovered host start (rpush s key (v ∷ vs) now).0
  unfolding rpush
  rpush-IsRecovered key v vs now awake room = rw (evict_if_expired-awake s key now awake) (
      then_do-kept (IsRecovered host start) s (list_or_new (Dict.get s.data_map key)) _ h
        (λ items e.
          pushed-IsRecovered key items (v ∷ vs) (λ items. items ++ v ∷ vs) b'R' (codes "PUSH") room
            e (replay_rpush key v vs)))

  pub lrange-IsRecovered :
      (key : Text) (a b : ℤ) (now : ℕ)
      → IsAwake s key now
      → IsRecovered host start (lrange s key a b now).0
  unfolding lrange
  lrange-IsRecovered key a b now awake =
      let read = IsRecovered-read host start s key h in
      rw (evict_if_expired-awake s key now awake) (
        then_do-kept (IsRecovered host start) (touch_read s key)
          (list_or_new (Dict.get (touch_read s key).data_map key)) _ read (λ items e. read))
