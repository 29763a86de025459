-- ===== src/Store/Alike.antt =====
-- Two engines of store.py that hold the same data with the same expiry times and track the same number
-- of keys, in whatever order; the versions, the counters and the log may differ.
use kedis_python.Prelude.{
  inl, inr, ℕ, ◌+◌, ◌≡◌, refl, ap, true, false, List, [], ◌∷◌, arith, if◌then◌else◌, length,
  length-append, Text, text_eq, eq_iff, Bool-cases,
}
use kedis_python.Dict
use kedis_python.Dict.{Dict, text_key}
use kedis_python.Store.State.{
  Store, Value, Record, tracks, forget, track, move_to_end, bump_version, log_record, touch_read,
  touch_write, lru_invalidate,
}
use kedis_python.Store.Keys.{drop_key}
use kedis_python.Store.Containers.{hold}
use kedis_python.Store.Tracker.{
  IsUnique, IsUnique-forget, IsUnique-track, tracks-forget, tracks-track,
}
use kedis_python.Store.View.{HasRoom, evict_oldest_fits, length-track-le}

pub record IsAlike (s r : Store) : Type 0 where
  pub same_data : s.data_map ≡ r.data_map
  pub same_expires : s.expires ≡ r.expires
  pub same_bound : s.lru_maxsize ≡ r.lru_maxsize
  pub same_count : length s.tracker ≡ length r.tracker
  pub same_keys : (k : Text) → tracks s.tracker k ≡ tracks r.tracker k
  pub unique : IsUnique s.tracker
  pub unique' : IsUnique r.tracker

pub forget_untracked : (ks : List Text) (k : Text) → tracks ks k ≡ false → forget ks k ≡ ks
unfolding tracks forget
forget_untracked [] k h = refl
forget_untracked (j ∷ ks) k h = ground (arith, h, forget_untracked ks k)

-- A removal takes one key, where it is there.
pub length-forget :
    (ks : List Text) (k : Text)
    → IsUnique ks
    → length (forget ks k) + (if tracks ks k then 1 else 0) ≡ length ks
unfolding tracks forget
length-forget [] k h = refl
length-forget (j ∷ ks) k h = elim (Bool-cases (text_eq j k)) [
  | inl e ↦
      let q : tracks ks k ≡ false = ground (arith, h.0, eq_iff j k, e) in
      rw (e, forget_untracked ks k q) (omega arith)
  | inr e ↦ rw e (ground (arith, length-forget ks k h.1))
]

length-track :
    (ks : List Text) (k : Text)
    → IsUnique ks
    → length (track ks k) ≡ length ks + (if tracks ks k then 0 else 1)
unfolding track move_to_end
length-track ks k h =
    ground
      (arith, length-append ks (k ∷ []), length-append (forget ks k) (k ∷ []), length-forget ks k h)

-- A write on an engine with room.
pub touch_write-room :
    (s : Store) (key : Text)
    → HasRoom s
    → touch_write s key ≡ record (bump_version s key) { tracker = track s.tracker key }
unfolding touch_write bump_version
touch_write-room s key h =
    evict_oldest_fits (track s.tracker key) (bump_version s key)
      (omega (arith, h, length-track-le s.tracker key))

pub HasRoom-IsAlike : {s r : Store} → IsAlike s r → HasRoom s → HasRoom r
HasRoom-IsAlike a h = omega (arith, a.same_count, a.same_bound, h)

tracked-IsAlike :
    (s r : Store) (key : Text)
    → IsAlike s r
    → IsAlike
        (record (bump_version s key) { tracker = track s.tracker key })
        (record (bump_version r key) { tracker = track r.tracker key })
unfolding bump_version
tracked-IsAlike s r key a = record {
  same_data = a.same_data;
  same_expires = a.same_expires;
  same_bound = a.same_bound;
  same_count = ground (
    arith,
    length-track s.tracker key a.unique,
    length-track r.tracker key a.unique',
    a.same_count,
    a.same_keys key,
  );
  same_keys = λ k.
      ground (arith, tracks-track s.tracker key k, tracks-track r.tracker key k, a.same_keys k);
  unique = IsUnique-track s.tracker key a.unique;
  unique' = IsUnique-track r.tracker key a.unique';
}

-- A write of the same key on both.
pub touch_write-IsAlike :
    (s r : Store) (key : Text)
    → IsAlike s r
    → HasRoom s
    → IsAlike (touch_write s key) (touch_write r key)
touch_write-IsAlike s r key a h =
    rw (touch_write-room s key h, touch_write-room r key (HasRoom-IsAlike a h))
      (tracked-IsAlike s r key a)

-- A read, or a write that changes nothing, of a key that is there.
pub moved-IsAlike :
    (s r : Store) (key : Text)
    → tracks s.tracker key ≡ true
    → IsAlike s r
    → IsAlike (record s { tracker = track s.tracker key }) r
moved-IsAlike s r key there a = record {
  same_data = a.same_data;
  same_expires = a.same_expires;
  same_bound = a.same_bound;
  same_count = ground (arith, length-track s.tracker key a.unique, a.same_count, there);
  same_keys = λ k. ground (arith, tracks-track s.tracker key k, a.same_keys k, eq_iff key k, there);
  unique = IsUnique-track s.tracker key a.unique;
  unique' = a.unique';
}

pub touch_read-IsAlike : (s r : Store) (key : Text) → IsAlike s r → IsAlike (touch_read s key) r
unfolding touch_read
touch_read-IsAlike s r key a = elim (Bool-cases (tracks s.tracker key)) [
  | inr e ↦ rw e (record {
    same_data = a.same_data;
    same_expires = a.same_expires;
    same_bound = a.same_bound;
    same_count = a.same_count;
    same_keys = a.same_keys;
    unique = a.unique;
    unique' = a.unique';
  })
  | inl e ↦
      let m = moved-IsAlike s r key e a in
      let q : track s.tracker key ≡ move_to_end s.tracker key = unfold track in rw e refl in
      rw (e, ← q)
        (record {
          same_data = m.same_data;
          same_expires = m.same_expires;
          same_bound = m.same_bound;
          same_count = m.same_count;
          same_keys = m.same_keys;
          unique = m.unique;
          unique' = m.unique';
        })
]

pub hold-IsAlike :
    (s r : Store) (key : Text) (v : Value) → IsAlike s r → IsAlike (hold s key v) (hold r key v)
hold-IsAlike s r key v a = record {
  same_data = ap (λ d. Dict.put d key v) a.same_data;
  same_expires = a.same_expires;
  same_bound = a.same_bound;
  same_count = a.same_count;
  same_keys = a.same_keys;
  unique = a.unique;
  unique' = a.unique';
}

-- The log and the versions do not matter.
pub log_record-IsAlike : (s r : Store) (x : Record) → IsAlike s r → IsAlike (log_record s x) r
unfolding log_record
log_record-IsAlike s r x a = record {
  same_data = a.same_data;
  same_expires = a.same_expires;
  same_bound = a.same_bound;
  same_count = a.same_count;
  same_keys = a.same_keys;
  unique = a.unique;
  unique' = a.unique';
}

pub bump_version-IsAlike : (s r : Store) (key : Text) → IsAlike s r → IsAlike (bump_version s key) r
unfolding bump_version
bump_version-IsAlike s r key a = record {
  same_data = a.same_data;
  same_expires = a.same_expires;
  same_bound = a.same_bound;
  same_count = a.same_count;
  same_keys = a.same_keys;
  unique = a.unique;
  unique' = a.unique';
}

pub lru_invalidate-IsAlike :
    (s r : Store) (key : Text) → IsAlike s r → IsAlike (lru_invalidate s key) (lru_invalidate r key)
unfolding lru_invalidate
lru_invalidate-IsAlike s r key a = record {
  same_data = a.same_data;
  same_expires = a.same_expires;
  same_bound = a.same_bound;
  same_count = ground (
    arith,
    length-forget s.tracker key a.unique,
    length-forget r.tracker key a.unique',
    a.same_count,
    a.same_keys key,
  );
  same_keys = λ k.
      ground (arith, tracks-forget s.tracker key k, tracks-forget r.tracker key k, a.same_keys k);
  unique = IsUnique-forget s.tracker key a.unique;
  unique' = IsUnique-forget r.tracker key a.unique';
}

pub drop_key-IsAlike :
    (s r : Store) (key : Text) → IsAlike s r → IsAlike (drop_key s key) (drop_key r key)
unfolding drop_key
drop_key-IsAlike s r key a = lru_invalidate-IsAlike _ _ key (record {
  same_data = ap (λ d. Dict.remove d key) a.same_data;
  same_expires = ap (λ d. Dict.remove d key) a.same_expires;
  same_bound = a.same_bound;
  same_count = a.same_count;
  same_keys = a.same_keys;
  unique = a.unique;
  unique' = a.unique';
})

-- The expiry maps, changed alike.
pub expires-IsAlike :
    (s r : Store) (f : Dict Text ℕ → Dict Text ℕ)
    → IsAlike s r
    → IsAlike (record s { expires = f s.expires }) (record r { expires = f r.expires })
expires-IsAlike s r f a = record {
  same_data = a.same_data;
  same_expires = ap f a.same_expires;
  same_bound = a.same_bound;
  same_count = a.same_count;
  same_keys = a.same_keys;
  unique = a.unique;
  unique' = a.unique';
}
