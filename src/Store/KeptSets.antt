-- ===== src/Store/KeptSets.antt =====
-- The commands of store.py on sets and hashes keep the engine's bookkeeping and never raise a
-- KeyError.
use kedis_python.Prelude.{
  inl, inr, ℕ, ◌-◌, ◌≡◌, refl, Bool, true, false, Option, none, some, List, [], ◌∷◌, ltb, arith,
  if◌then◌else◌, length, Text, text_eq_refl, eq_iff, Option-cases, codes,
}
use kedis_python.Dict
use kedis_python.Dict.{Dict, text_key, has-put, has-get, get-put, is_some}
use kedis_python.Store.State.{
  Store, Value, string, deque, members, hash, stream, hyperloglog, log_operation, touch_write,
}
use kedis_python.Store.Containers.{
  removed_state, left_state, hold, set_or_new, hash_or_new, difference_update, sadd, srem, smembers,
  hset, hget, hgetall,
}
use kedis_python.Store.Coherent.{
  IsCoherent, IsKept, is_key_error, then_do-IsKept, evicting-IsKept, touch_read-IsCoherent,
  drop_key-IsCoherent,
}
use kedis_python.Store.Written.{logged-IsCoherent, get-logged, hold-IsCoherent}

set_or_new-kept : (v : Option Value) → is_key_error (set_or_new v) ≡ false
unfolding set_or_new
set_or_new-kept none = refl
set_or_new-kept (some (string t)) = refl
set_or_new-kept (some (deque t)) = refl
set_or_new-kept (some (members t)) = refl
set_or_new-kept (some (hash t)) = refl
set_or_new-kept (some (stream t)) = refl
set_or_new-kept (some (hyperloglog t)) = refl

hash_or_new-kept : (v : Option Value) → is_key_error (hash_or_new v) ≡ false
unfolding hash_or_new
hash_or_new-kept none = refl
hash_or_new-kept (some (string t)) = refl
hash_or_new-kept (some (deque t)) = refl
hash_or_new-kept (some (members t)) = refl
hash_or_new-kept (some (hash t)) = refl
hash_or_new-kept (some (stream t)) = refl
hash_or_new-kept (some (hyperloglog t)) = refl

touched-IsCoherent :
    (s : Store) (key : Text) (v : Value) (b : Bool) (tokens : List Text)
    → IsCoherent s
    → IsCoherent (touch_write (if b then log_operation (hold s key v) tokens else hold s key v) key)
touched-IsCoherent s key v true tokens c = logged-IsCoherent s key v tokens c
touched-IsCoherent s key v false tokens c = hold-IsCoherent s key v c

pub sadd-IsKept :
    (s : Store) (key : Text) (items : List Text) (now : ℕ)
    → IsCoherent s
    → IsKept (sadd s key items now)
unfolding sadd
sadd-IsKept s key items now c = evicting-IsKept s key now _ c (λ t gone h.
    then_do-IsKept (t, set_or_new (Dict.get t.data_map key)) _
      (h, set_or_new-kept (Dict.get t.data_map key))
      (λ u held k. (touched-IsCoherent u key _ _ _ k, refl)))

pub smembers-IsKept :
    (s : Store) (key : Text) (now : ℕ) → IsCoherent s → IsKept (smembers s key now)
unfolding smembers
smembers-IsKept s key now c =
    evicting-IsKept s key now _ c (λ t gone h. (touch_read-IsCoherent t key h, set_or_new-kept _))

pub hset-IsKept :
    (s : Store) (key field value : Text) (now : ℕ)
    → IsCoherent s
    → IsKept (hset s key field value now)
unfolding hset
hset-IsKept s key field value now c = evicting-IsKept s key now _ c (λ t gone h.
    then_do-IsKept (t, hash_or_new (Dict.get t.data_map key)) _
      (h, hash_or_new-kept (Dict.get t.data_map key))
      (λ u fields k. (logged-IsCoherent u key _ _ k, refl)))

pub hget-IsKept :
    (s : Store) (key field : Text) (now : ℕ) → IsCoherent s → IsKept (hget s key field now)
unfolding hget
hget-IsKept s key field now c =
    evicting-IsKept s key now _ c (λ t gone h. (touch_read-IsCoherent t key h, refl))

pub hgetall-IsKept : (s : Store) (key : Text) (now : ℕ) → IsCoherent s → IsKept (hgetall s key now)
unfolding hgetall
hgetall-IsKept s key now c =
    evicting-IsKept s key now _ c (λ t gone h. (touch_read-IsCoherent t key h, hash_or_new-kept _))

-- An object put back at a key that is there.
hold_there-IsCoherent :
    (s : Store) (key : Text) (v : Value)
    → Dict.has s.data_map key ≡ true
    → IsCoherent s
    → IsCoherent (hold s key v)
hold_there-IsCoherent s key v there c =
    let r = c.ready in
    record {
      ready = record {
        expiring = λ k h. ground (arith, r.expiring k h, has-put s.data_map key k v);
        held = λ k. ground (arith, there, r.held k, has-put s.data_map key k v, eq_iff key k);
        unique = r.unique;
        capacity = r.capacity;
      };
      bounded = c.bounded;
    }

removed_state-IsCoherent :
    (s : Store) (key : Text) (left items : List Text) (b : Bool)
    → Dict.has s.data_map key ≡ true
    → IsCoherent s
    → IsCoherent (removed_state s key left items b)
unfolding removed_state
removed_state-IsCoherent s key left items true there c =
    logged-IsCoherent s key (members left) (codes "SREM" ∷ key ∷ items) c
removed_state-IsCoherent s key left items false there c =
    hold_there-IsCoherent s key (members left) there c

get-removed_state :
    (s : Store) (key : Text) (left items : List Text) (b : Bool)
    → IsCoherent s
    → Dict.get (removed_state s key left items b).data_map key ≡ some (members left)
unfolding removed_state
get-removed_state s key left items true c =
    get-logged s key (members left) (codes "SREM" ∷ key ∷ items) c
get-removed_state s key left items false c =
    ground (arith, get-put s.data_map key key (members left), text_eq_refl key)

left_state-IsKept :
    (s : Store) (key : Text) (removed : ℕ) (left : List Text)
    → Dict.get s.data_map key ≡ some (members left)
    → IsCoherent s
    → IsKept (left_state s key removed)
unfolding left_state
left_state-IsKept s key removed [] g c = rw (g, left_state) (drop_key-IsCoherent s key c, refl)
left_state-IsKept s key removed (x ∷ left) g c = rw (g, left_state) (c, refl)

-- The set that `srem` finds, or another object, or none.
pub srem-IsKept :
    (s : Store) (key : Text) (items : List Text) (now : ℕ)
    → IsCoherent s
    → IsKept (srem s key items now)
unfolding srem
srem-IsKept s key items now c = evicting-IsKept s key now _ c (λ t gone h.
    elim (Option-cases (Dict.get t.data_map key)) [
      | inl g ↦ rw g (h, refl)
      | inr (string v, g) ↦ rw g (h, refl)
      | inr (deque v, g) ↦ rw g (h, refl)
      | inr (members held, g) ↦
          let there : Dict.has t.data_map key ≡ true = rw (has-get t.data_map key, g) refl in
          let left = difference_update held items in
          let gone = ltb 0 (length held - length left) in
          rw g (
            left_state-IsKept (removed_state t key left items gone) key _ left
              (get-removed_state t key left items gone h)
              (removed_state-IsCoherent t key left items gone there h))
      | inr (hash v, g) ↦ rw g (h, refl)
      | inr (stream v, g) ↦ rw g (h, refl)
      | inr (hyperloglog v, g) ↦ rw g (h, refl)
    ])
