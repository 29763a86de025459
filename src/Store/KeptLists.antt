-- ===== src/Store/KeptLists.antt =====
-- The commands of store.py on lists keep the engine's bookkeeping and never raise a
-- KeyError.
use kedis_python.Prelude.{ℕ, ◌≡◌, refl, false, Option, none, some, List, [], ◌∷◌, Text, codes, ℤ}
use kedis_python.Dict
use kedis_python.Dict.{Dict, text_key, has-put, has-get, get-put, is_some}
use kedis_python.Store.State.{
  Store, Value, string, deque, members, hash, stream, hyperloglog, Reply, returns, ◌then_do◌,
  touch_read,
}
use kedis_python.Store.Containers.{
  list_or_new, length_at, pushed, popped, split_last, lpush, rpush, lpop, rpop, lrange,
}
use kedis_python.Store.Coherent.{
  IsCoherent, IsKept, is_key_error, then_do-IsKept, evicting-IsKept, touch_read-IsCoherent,
  drop_key-IsCoherent,
}
use kedis_python.Store.Written.{logged-IsCoherent, get-logged}

list_or_new-kept : (v : Option Value) → is_key_error (list_or_new v) ≡ false
unfolding list_or_new
list_or_new-kept none = refl
list_or_new-kept (some (string t)) = refl
list_or_new-kept (some (deque t)) = refl
list_or_new-kept (some (members t)) = refl
list_or_new-kept (some (hash t)) = refl
list_or_new-kept (some (stream t)) = refl
list_or_new-kept (some (hyperloglog t)) = refl

-- A command that reads the list at its key, or a new one, and goes on.
on_list-IsKept {ℓ} :
    {B : Type ℓ} (s : Store) (key : Text) (f : Store → List Text → Store × Reply B)
    → IsCoherent s
    → ((s : Store) (a : List Text) → IsCoherent s → IsKept (f s a))
    → IsKept ((s, list_or_new (Dict.get s.data_map key)) then_do f)
on_list-IsKept s key f c k =
    then_do-IsKept (s, list_or_new (Dict.get s.data_map key)) f
      (c, list_or_new-kept (Dict.get s.data_map key)) k

pushed-IsKept :
    (s : Store) (key : Text) (items values : List Text) (name : Text)
    → IsCoherent s
    → IsKept (pushed s key items values name)
unfolding pushed length_at
pushed-IsKept s key items values name c =
    let g = get-logged s key (deque items) (name ∷ key ∷ values) c in
    (logged-IsCoherent s key (deque items) (name ∷ key ∷ values) c, rw (g, pushed, length_at) refl)

pub lpush-IsKept :
    (s : Store) (key : Text) (values : List Text) (now : ℕ)
    → IsCoherent s
    → IsKept (lpush s key values now)
unfolding lpush
lpush-IsKept s key values now c =
    evicting-IsKept s key now _ c
      (λ t gone h. on_list-IsKept t key _ h (λ u items k. pushed-IsKept u key _ values _ k))

pub rpush-IsKept :
    (s : Store) (key : Text) (values : List Text) (now : ℕ)
    → IsCoherent s
    → IsKept (rpush s key values now)
unfolding rpush
rpush-IsKept s key values now c =
    evicting-IsKept s key now _ c
      (λ t gone h. on_list-IsKept t key _ h (λ u items k. pushed-IsKept u key _ values _ k))

popped-IsKept :
    (s : Store) (key : Text) (left : List Text) (value name : Text)
    → IsCoherent s
    → IsKept (popped s key left value name)
unfolding popped
popped-IsKept s key [] value name c =
    let g = get-logged s key (deque []) (name ∷ key ∷ []) c in
    rw (g, popped)
      (drop_key-IsCoherent _ key (logged-IsCoherent s key (deque []) (name ∷ key ∷ []) c), refl)
popped-IsKept s key (x ∷ left) value name c =
    let g = get-logged s key (deque (x ∷ left)) (name ∷ key ∷ []) c in
    rw (g, popped) (logged-IsCoherent s key (deque (x ∷ left)) (name ∷ key ∷ []) c, refl)

pop_front-IsKept :
    (s : Store) (key : Text) (items : List Text)
    → IsCoherent s
    → IsKept (elim items as (λ _. Store × Reply (Option Text)) [
      | [] ↦ (s, returns none)
      | x ∷ left ↦ popped s key left x (codes "LPOP")
    ])
pop_front-IsKept s key [] c = (c, refl)
pop_front-IsKept s key (x ∷ left) c = popped-IsKept s key left x _ c

pop_back-IsKept :
    (s : Store) (key : Text) (items : List Text)
    → IsCoherent s
    → IsKept (elim items as (λ _. Store × Reply (Option Text)) [
      | [] ↦ (s, returns none)
      | x ∷ rest ↦ popped s key (split_last x rest).0 (split_last x rest).1 (codes "RPOP")
    ])
pop_back-IsKept s key [] c = (c, refl)
pop_back-IsKept s key (x ∷ left) c = popped-IsKept s key _ _ _ c

pub lpop-IsKept : (s : Store) (key : Text) (now : ℕ) → IsCoherent s → IsKept (lpop s key now)
unfolding lpop
lpop-IsKept s key now c =
    evicting-IsKept s key now _ c
      (λ t gone h. on_list-IsKept t key _ h (λ u items k. pop_front-IsKept u key items k))

pub rpop-IsKept : (s : Store) (key : Text) (now : ℕ) → IsCoherent s → IsKept (rpop s key now)
unfolding rpop
rpop-IsKept s key now c =
    evicting-IsKept s key now _ c
      (λ t gone h. on_list-IsKept t key _ h (λ u items k. pop_back-IsKept u key items k))

pub lrange-IsKept :
    (s : Store) (key : Text) (start stop : ℤ) (now : ℕ)
    → IsCoherent s
    → IsKept (lrange s key start stop now)
unfolding lrange
lrange-IsKept s key start stop now c = evicting-IsKept s key now _ c (λ t gone h.
    on_list-IsKept (touch_read t key) key _ (touch_read-IsCoherent t key h)
      (λ u items k. (k, refl)))
