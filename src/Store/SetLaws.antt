-- ===== src/Store/SetLaws.antt =====
-- What the commands of store.py on sets and hashes make of their object, live and replayed.
use kedis_python.Prelude.{
  ◌⊎◌, inl, inr, ◌≤◌, ◌<◌, ◌≡◌, refl, ap, ◌∙◌, true, false, Option, none, some, List, [], ◌∷◌, ◌++◌,
  arith, Text, length, length-append, Bool-cases,
}
use kedis_python.Dict
use kedis_python.Dict.{Dict, text_key}
use kedis_python.Store.State.{
  Store, Value, string, deque, members, hash, stream, hyperloglog, returns, tracks, forget,
  touch_write, lru_invalidate,
}
use kedis_python.Store.Containers.{hold, set_or_new, hash_or_new, update, difference_update}
use kedis_python.Store.Coherent.{length-forget-lt, length-forget-le}
use kedis_python.Store.Replay.{replayed, replay_sadd, replay_srem, replay_hset, drop_empty}
use kedis_python.Store.Alike.{forget_untracked}

pub length-update-le : (held items : List Text) → length held ≤ length (update held items)
unfolding update
length-update-le held [] = omega arith
length-update-le held (x ∷ items) = elim (Bool-cases (tracks held x)) [
  | inl e ↦ rw (e, update) (length-update-le held items)
  | inr e ↦
      rw (e, update)
        (omega (arith, length-update-le (held ++ x ∷ []) items, length-append held (x ∷ [])))
]

update-held :
    (held : List Text) (x : Text) (items : List Text)
    → tracks held x ≡ true
    → update held (x ∷ items) ≡ update held items
unfolding update
update-held held x items e = rw (e, update) refl

update-fresh :
    (held : List Text) (x : Text) (items : List Text)
    → tracks held x ≡ false
    → update held (x ∷ items) ≡ update (held ++ x ∷ []) items
unfolding update
update-fresh held x items e = rw (e, update) refl

-- A set that has not grown is as it was.
pub update-same :
    (held items : List Text) → length (update held items) ≤ length held → update held items ≡ held
update-same held [] h = unfold update in refl
update-same held (x ∷ items) h = elim (Bool-cases (tracks held x)) [
  | inl e ↦
      let q = update-held held x items e in
      q ∙ update-same held items (omega (arith, h, ap length q))
  | inr e ↦
      let q = update-fresh held x items e in
      absurd (
        omega (
          arith,
          h,
          ap length q,
          length-update-le (held ++ x ∷ []) items,
          length-append held (x ∷ []),
        ))
]

pub update-nonempty : (v : Text) (vs : List Text) → 0 < length (update [] (v ∷ vs))
unfolding update tracks
update-nonempty v vs = omega (arith, length-update-le (v ∷ []) vs)

pub length-difference_update-le :
    (held items : List Text) → length (difference_update held items) ≤ length held
unfolding difference_update
length-difference_update-le held [] = omega arith
length-difference_update-le held (x ∷ items) =
    omega (arith, length-difference_update-le (forget held x) items, length-forget-le held x)

pub difference_update-same :
    (held items : List Text)
    → length held ≤ length (difference_update held items)
    → difference_update held items ≡ held
unfolding difference_update
difference_update-same held [] h = refl
difference_update-same held (x ∷ items) h = elim (Bool-cases (tracks held x)) [
  | inl e ↦ absurd (
      omega
        (arith, h, length-difference_update-le (forget held x) items, length-forget-lt held x e))
  | inr e ↦
      let q = forget_untracked held x e in
      let step : difference_update held (x ∷ items) ≡ difference_update held items =
        ap (λ r. difference_update r items) q in
      step ∙ difference_update-same held items (omega (arith, h, ap length step))
]

pub set_or_new-returns :
    (o : Option Value) (held : List Text)
    → set_or_new o ≡ returns held
    → ((o ≡ none) × (held ≡ [])) ⊎ (o ≡ some (members held))
unfolding set_or_new
set_or_new-returns none held e = inl (refl, ground (arith, e))
set_or_new-returns (some (members t)) held e = inr (ground (arith, e))
set_or_new-returns (some (string t)) held e = absurd (ground (arith, e))
set_or_new-returns (some (deque t)) held e = absurd (ground (arith, e))
set_or_new-returns (some (hash t)) held e = absurd (ground (arith, e))
set_or_new-returns (some (stream t)) held e = absurd (ground (arith, e))
set_or_new-returns (some (hyperloglog t)) held e = absurd (ground (arith, e))

pub hash_or_new-returns :
    (o : Option Value) (fields : Dict Text Text)
    → hash_or_new o ≡ returns fields
    → ((o ≡ none) × (fields ≡ [])) ⊎ (o ≡ some (hash fields))
unfolding hash_or_new
hash_or_new-returns none held e = inl (refl, ground (arith, e))
hash_or_new-returns (some (hash t)) held e = inr (ground (arith, e))
hash_or_new-returns (some (string t)) held e = absurd (ground (arith, e))
hash_or_new-returns (some (deque t)) held e = absurd (ground (arith, e))
hash_or_new-returns (some (members t)) held e = absurd (ground (arith, e))
hash_or_new-returns (some (stream t)) held e = absurd (ground (arith, e))
hash_or_new-returns (some (hyperloglog t)) held e = absurd (ground (arith, e))

pub replay_sadd-set :
    (r : Store) (key : Text) (held items : List Text)
    → set_or_new (Dict.get r.data_map key) ≡ returns held
    → replay_sadd r key items
      ≡ replayed (touch_write (hold r key (members (update held items))) key)
unfolding replay_sadd
replay_sadd-set r key held items e = elim (set_or_new-returns (Dict.get r.data_map key) held e) [
  | inl (absent, nil) ↦ rw (absent, replay_sadd, nil) refl
  | inr found ↦ rw (found, replay_sadd) refl
]

pub replay_hset-hash :
    (r : Store) (key : Text) (fields : Dict Text Text) (field value : Text)
    → hash_or_new (Dict.get r.data_map key) ≡ returns fields
    → replay_hset r key field value
      ≡ replayed (touch_write (hold r key (hash (Dict.put fields field value))) key)
unfolding replay_hset
replay_hset-hash r key fields field value e =
    elim (hash_or_new-returns (Dict.get r.data_map key) fields e) [
      | inl (absent, nil) ↦ rw (absent, replay_hset, nil) refl
      | inr found ↦ rw (found, replay_hset) refl
    ]

pub replay_srem-set :
    (r : Store) (key : Text) (held items : List Text)
    → Dict.get r.data_map key ≡ some (members held)
    → replay_srem r key items
      ≡ drop_empty (touch_write (hold r key (members (difference_update held items))) key) key
unfolding replay_srem
replay_srem-set r key held items e = rw (e, replay_srem) refl

pub drop_empty-nil :
    (r : Store) (key : Text)
    → Dict.get r.data_map key ≡ some (members [])
    → drop_empty r key
      ≡ replayed (lru_invalidate (record r { data_map = Dict.remove r.data_map key }) key)
unfolding drop_empty
drop_empty-nil r key e = rw (e, drop_empty) refl

pub drop_empty-cons :
    (r : Store) (key y : Text) (ys : List Text)
    → Dict.get r.data_map key ≡ some (members (y ∷ ys))
    → drop_empty r key ≡ replayed r
unfolding drop_empty
drop_empty-cons r key y ys e = rw (e, drop_empty) refl
