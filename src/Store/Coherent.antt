-- ===== src/Store/Coherent.antt =====
-- The bookkeeping of the engine: what its maps and its tracker owe each other, and the internals of
-- store.py that keep it so.
use mathlib.Core.Path.{subst}
use kedis_python.Prelude.{
  inl, inr, ℕ, ◌≤◌, ◌<◌, ◌≡◌, refl, Bool, true, false, ◌||◌, List, [], ◌∷◌, ltb, leb, arith, length,
  length-append, Text, text_eq, text_eq_refl, eq_iff, Bool-cases, Option-cases,
}
use kedis_python.Dict
use kedis_python.Dict.{Dict, text_key, has-put, has-remove, has-get, is_some}
use kedis_python.Store.State.{
  Store, Reply, returns, wrong_type, key_error, value_error, stream_error, ◌then_do◌, tracks,
  forget, track, kill, move_to_end, evict_oldest, touch_write, touch_read, lru_invalidate,
  evict_if_expired, bump_version, log_operation, log_record,
}
use kedis_python.Store.Keys.{drop_key}
use kedis_python.Store.Tracker.{
  IsUnique, tracks-track, IsUnique-track, tracks-forget, IsUnique-forget,
}

-- A key that expires is there, and the keys that are there are those of the order `ks`, each once.
pub record IsReady (s : Store) (ks : List Text) : Type 0 where
  pub expiring : (k : Text) → Dict.has s.expires k ≡ true → Dict.has s.data_map k ≡ true
  pub held : (k : Text) → Dict.has s.data_map k ≡ tracks ks k
  pub unique : IsUnique ks
  pub capacity : 0 < s.lru_maxsize

-- A state between two commands.
pub record IsCoherent (s : Store) : Type 0 where
  pub ready : IsReady s s.tracker
  pub bounded : length s.tracker ≤ s.lru_maxsize

-- One eviction gives up the key at the head of the order.
kill-IsReady : (s : Store) (k : Text) (ks : List Text) → IsReady s (k ∷ ks) → IsReady (kill s k) ks
unfolding kill tracks log_operation log_record
kill-IsReady s k ks r =
    let there : Dict.has s.data_map k ≡ true = ground (arith, r.held k, text_eq_refl k) in
    rw there (record {
      expiring = λ j h.
          ground (arith, h, r.expiring j, has-remove s.data_map k j, has-remove s.expires k j);
      held = λ j. ground (arith, r.held j, has-remove s.data_map k j, r.unique.0, eq_iff k j);
      unique = r.unique.1;
      capacity = r.capacity;
    })

pub evict_oldest-IsCoherent :
    (ks : List Text) (s : Store) → IsReady s ks → IsCoherent (evict_oldest ks s)
unfolding evict_oldest
evict_oldest-IsCoherent [] s r = record {
  ready = record { expiring = r.expiring; held = r.held; unique = tt; capacity = r.capacity };
  bounded = omega arith;
}
evict_oldest-IsCoherent (k ∷ ks) s r =
    let next = evict_oldest-IsCoherent ks (kill s k) (kill-IsReady s k ks r) in
    elim (Bool-cases (ltb s.lru_maxsize (length (k ∷ ks)))) [
      | inl e ↦ rw (e, evict_oldest) next
      | inr e ↦
          rw (e, evict_oldest)
            (record {
              ready = record {
                expiring = r.expiring;
                held = r.held;
                unique = r.unique;
                capacity = r.capacity;
              };
              bounded = ground (arith, e);
            })
    ]

-- What a write leaves behind before it touches the tracker.
pub touch_write-IsCoherent :
    (s : Store) (key : Text)
    → ((k : Text) → Dict.has s.expires k ≡ true → Dict.has s.data_map k ≡ true)
    → ((k : Text) → Dict.has s.data_map k ≡ (text_eq key k || tracks s.tracker k))
    → IsUnique s.tracker
    → 0 < s.lru_maxsize
    → IsCoherent (touch_write s key)
unfolding touch_write bump_version
touch_write-IsCoherent s key expiring held unique capacity =
    evict_oldest-IsCoherent (track s.tracker key) (bump_version s key) (record {
      expiring = expiring;
      held = λ k. ground (arith, held k, tracks-track s.tracker key k);
      unique = IsUnique-track s.tracker key unique;
      capacity = capacity;
    })

pub length-forget-le : (ks : List Text) (k : Text) → length (forget ks k) ≤ length ks
unfolding forget
length-forget-le [] k = omega arith
length-forget-le (j ∷ ks) k = ground (arith, length-forget-le ks k)

pub length-forget-lt :
    (ks : List Text) (k : Text) → tracks ks k ≡ true → length (forget ks k) < length ks
unfolding forget tracks
length-forget-lt [] k h = absurd (ground arith)
length-forget-lt (j ∷ ks) k h = ground (arith, length-forget-lt ks k, length-forget-le ks k)

-- A key that goes takes its time and its place in the order with it.
pub drop_key-IsCoherent : (s : Store) (key : Text) → IsCoherent s → IsCoherent (drop_key s key)
unfolding drop_key lru_invalidate
drop_key-IsCoherent s key c =
    let r = c.ready in
    record {
      ready = record {
        expiring = λ j h.
            ground
              (arith, h, r.expiring j, has-remove s.data_map key j, has-remove s.expires key j);
        held = λ j.
            ground (arith, r.held j, has-remove s.data_map key j, tracks-forget s.tracker key j);
        unique = IsUnique-forget s.tracker key r.unique;
        capacity = r.capacity;
      };
      bounded = omega (arith, c.bounded, length-forget-le s.tracker key);
    }

abbrev pub is_key_error {ℓ} : {A : Type ℓ} → Reply A → Bool
is_key_error key_error = true
is_key_error r = false

-- What a method does on a coherent engine: it leaves one, and raises no KeyError.
abbrev pub IsKept {ℓ} : {A : Type ℓ} → Store × Reply A → Type 0
IsKept p = IsCoherent p.0 × (is_key_error p.1 ≡ false)

pub then_do-IsKept {ℓ κ} :
    {A : Type ℓ} {B : Type κ} (p : Store × Reply A) (f : Store → A → Store × Reply B)
    → IsKept p
    → ((s : Store) (a : A) → IsCoherent s → IsKept (f s a))
    → IsKept (p then_do f)
then_do-IsKept (s, returns a) f h k = k s a h.0
then_do-IsKept (s, wrong_type) f h k = (h.0, refl)
then_do-IsKept (s, value_error) f h k = h
then_do-IsKept (s, stream_error m) f h k = h
then_do-IsKept (s, key_error) f h k = absurd (ground (arith, h.1))

pub evict_if_expired-IsKept :
    (s : Store) (key : Text) (now : ℕ) → IsCoherent s → IsKept (evict_if_expired s key now)
unfolding evict_if_expired lru_invalidate drop_key
evict_if_expired-IsKept s key now c = elim (Option-cases (Dict.get s.expires key)) [
  | inl e ↦ rw (e, evict_if_expired) (c, refl)
  | inr (at, e) ↦
      let there : Dict.has s.data_map key ≡ true =
        c.ready.expiring key (rw (has-get s.expires key, e) refl) in
      elim (Bool-cases (leb at now)) [
        | inl l ↦ rw (e, evict_if_expired, l, there) (drop_key-IsCoherent s key c, refl)
        | inr l ↦ rw (e, evict_if_expired, l) (c, refl)
      ]
]

-- A command that first evicts its key if that has expired.
pub evicting-IsKept {ℓ} :
    {B : Type ℓ} (s : Store) (key : Text) (now : ℕ) (f : Store → Bool → Store × Reply B)
    → IsCoherent s
    → ((s : Store) (a : Bool) → IsCoherent s → IsKept (f s a))
    → IsKept (evict_if_expired s key now then_do f)
evicting-IsKept s key now f c k =
    then_do-IsKept (evict_if_expired s key now) f (evict_if_expired-IsKept s key now c) k

length-move_to_end-le :
    (ks : List Text) (k : Text) → tracks ks k ≡ true → length (move_to_end ks k) ≤ length ks
unfolding move_to_end
length-move_to_end-le ks k h =
    omega (arith, length-append (forget ks k) (k ∷ []), length-forget-lt ks k h)

pub touch_read-IsCoherent : (s : Store) (key : Text) → IsCoherent s → IsCoherent (touch_read s key)
unfolding touch_read track move_to_end
touch_read-IsCoherent s key c =
    let r = c.ready in
    elim (Bool-cases (tracks s.tracker key)) [
      | inl e ↦
          let moved : track s.tracker key ≡ move_to_end s.tracker key = rw (e, track) refl in
          rw e (record {
            ready = record {
              expiring = r.expiring;
              held = λ j.
                  ground (arith, e, moved, r.held j, tracks-track s.tracker key j, eq_iff key j);
              unique = subst IsUnique moved (IsUnique-track s.tracker key r.unique);
              capacity = r.capacity;
            };
            bounded = omega (arith, c.bounded, length-move_to_end-le s.tracker key e);
          })
      | inr e ↦ rw e (record {
        ready = record {
          expiring = r.expiring;
          held = r.held;
          unique = r.unique;
          capacity = r.capacity;
        };
        bounded = c.bounded;
      })
    ]
