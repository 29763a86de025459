-- ===== src/Store/Kept.antt =====
-- The commands of store.py keep the engine's bookkeeping and never raise a KeyError.
use kedis_python.Prelude.{
  inl, inr, ℕ, ◌+◌, ◌≡◌, refl, false, Option, none, some, arith, Text, eq_iff, Bool-cases,
  Option-cases,
}
use kedis_python.Dict
use kedis_python.Dict.{Dict, text_key, has-put, has-remove, has-get, is_some}
use kedis_python.Store.State.{
  Store, Value, string, deque, members, hash, stream, hyperloglog, log_operation, log_record,
  bump_version, touch_read, tracks,
}
use kedis_python.Store.Keys.{set, get, readable, delete, exists, set_expire, ttl, flushall}
use kedis_python.Store.Coherent.{
  IsCoherent, IsKept, is_key_error, evicting-IsKept, touch_read-IsCoherent, drop_key-IsCoherent,
  touch_write-IsCoherent,
}
use kedis_python.Store.Written.{log_operation-IsCoherent}

pub set-IsCoherent : (s : Store) (key value : Text) → IsCoherent s → IsCoherent (set s key value)
unfolding set log_operation log_record
set-IsCoherent s key value c =
    let r = c.ready in
    touch_write-IsCoherent _ key
      (λ k h. ground (
        arith,
        h,
        r.expiring k,
        has-put s.data_map key k (string value),
        has-remove s.expires key k,
      ))
      (λ k. ground (arith, r.held k, has-put s.data_map key k (string value))) r.unique r.capacity

readable-kept : (v : Option Value) → is_key_error (readable v) ≡ false
unfolding readable
readable-kept none = refl
readable-kept (some (string t)) = refl
readable-kept (some (deque t)) = refl
readable-kept (some (members t)) = refl
readable-kept (some (hash t)) = refl
readable-kept (some (stream t)) = refl
readable-kept (some (hyperloglog t)) = refl

pub get-IsKept : (s : Store) (key : Text) (now : ℕ) → IsCoherent s → IsKept (get s key now)
unfolding get
get-IsKept s key now c = evicting-IsKept s key now _ c (λ t gone h. elim (Bool-cases gone) [
  | inl g ↦ rw g (touch_read-IsCoherent t key h, refl)
  | inr g ↦
      rw g (touch_read-IsCoherent t key h, readable-kept (Dict.get (touch_read t key).data_map key))
])

pub exists-IsKept : (s : Store) (key : Text) (now : ℕ) → IsCoherent s → IsKept (exists s key now)
unfolding exists
exists-IsKept s key now c =
    evicting-IsKept s key now _ c (λ t gone h. (touch_read-IsCoherent t key h, refl))

bump_version-IsCoherent : (s : Store) (key : Text) → IsCoherent s → IsCoherent (bump_version s key)
unfolding bump_version
bump_version-IsCoherent s key c =
    let r = c.ready in
    record {
      ready = record {
        expiring = r.expiring;
        held = r.held;
        unique = r.unique;
        capacity = r.capacity;
      };
      bounded = c.bounded;
    }

pub delete-IsKept : (s : Store) (key : Text) (now : ℕ) → IsCoherent s → IsKept (delete s key now)
unfolding delete
delete-IsKept s key now c = evicting-IsKept s key now _ c (λ t gone h.
    elim (Bool-cases (Dict.has t.data_map key)) [
      | inl e ↦ rw e (
        drop_key-IsCoherent (log_operation (bump_version t key) _) key
            (log_operation-IsCoherent (bump_version t key) _ (bump_version-IsCoherent t key h)),
        refl,
      )
      | inr e ↦ rw e (h, refl)
    ])

pub set_expire-IsKept :
    (s : Store) (key : Text) (seconds now later : ℕ)
    → IsCoherent s
    → IsKept (set_expire s key seconds now later)
unfolding set_expire log_record
set_expire-IsKept s key seconds now later c = evicting-IsKept s key now _ c (λ t gone h.
    elim (Bool-cases gone) [
      | inl g ↦ rw g (h, refl)
      | inr g ↦ elim (Bool-cases (Dict.has t.data_map key)) [
        | inl e ↦
            let r = h.ready in
            rw (g, e)
              (
                record {
                  ready = record {
                    expiring = λ k p. ground (
                      arith,
                      p,
                      e,
                      r.expiring k,
                      eq_iff key k,
                      has-put t.expires key k (later + seconds),
                    );
                    held = r.held;
                    unique = r.unique;
                    capacity = r.capacity;
                  };
                  bounded = h.bounded;
                },
                refl,
              )
        | inr e ↦ rw (g, e) (h, refl)
      ]
    ])

pub ttl-IsKept :
    (s : Store) (key : Text) (now later : ℕ) → IsCoherent s → IsKept (ttl s key now later)
unfolding ttl
ttl-IsKept s key now later c = evicting-IsKept s key now _ c (λ t gone h.
    elim (Bool-cases (Dict.has t.data_map key)) [
      | inl e ↦ elim (Option-cases (Dict.get t.expires key)) [
        | inl n ↦ rw (e, n) (h, refl)
        | inr (at, n) ↦ rw (e, n) (h, refl)
      ]
      | inr e ↦ rw e (h, refl)
    ])

pub flushall-IsCoherent : (s : Store) → IsCoherent s → IsCoherent (flushall s)
unfolding flushall log_operation log_record Dict.has tracks
flushall-IsCoherent s c = record {
  ready = record {
    expiring = λ k h. h;
    held = λ k. refl;
    unique = tt;
    capacity = c.ready.capacity;
  };
  bounded = omega arith;
}
