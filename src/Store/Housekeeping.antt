-- ===== src/Store/Housekeeping.antt =====
-- `housekeeping` of store.py: whatever state it finds, it leaves one whose maps and tracker agree.
use kedis_python.Prelude.{
  inl, inr, ℕ, ◌≡◌, refl, true, false, not, ◌&&◌, ◌||◌, List, [], ◌∷◌, map, arith, if◌then◌else◌,
  Text, text_eq, text_eq_refl, eq_iff, Bool-cases, codes,
}
use kedis_python.Dict
use kedis_python.Dict.{Dict, text_key, has-remove}
use kedis_python.Store.State.{
  Store, Value, tracks, forget, log_operation, log_record, lru_invalidate,
}
use kedis_python.Store.Keys.{
  drop_key, sweep, past_due, evict_all_expired, orphans, remove_all, ghosts, forget_all, untracked,
  adopt_all, housekeeping,
}
use kedis_python.Store.Tracker.{IsUnique, tracks-forget, IsUnique-forget}

module _ {V : Type 0} where
  pub tracks-keys-remove :
      (d : Dict Text V) (k j : Text)
      → tracks (map (λ e. e.0) d) j ≡ false
      → tracks (map (λ e. e.0) (Dict.remove d k)) j ≡ false
  unfolding tracks Dict.remove
  tracks-keys-remove [] k j h = h
  tracks-keys-remove ((i, v) ∷ d) k j h = ground (arith, h, tracks-keys-remove d k j)

  -- A dict holds a key once, and goes on to.
  pub IsUnique-keys-remove :
      (d : Dict Text V) (k : Text)
      → IsUnique (map (λ e. e.0) d)
      → IsUnique (map (λ e. e.0) (Dict.remove d k))
  unfolding Dict.remove
  IsUnique-keys-remove [] k h = tt
  IsUnique-keys-remove ((i, v) ∷ d) k h = elim (Bool-cases (text_eq i k)) [
    | inl e ↦ rw e (IsUnique-keys-remove d k h.1)
    | inr e ↦ rw e (tracks-keys-remove d k i h.0, IsUnique-keys-remove d k h.1)
  ]

has-remove_all :
    (d : Dict Text ℕ) (ks : List Text) (k : Text)
    → Dict.has (remove_all d ks) k ≡ (if tracks ks k then false else Dict.has d k)
unfolding remove_all tracks
has-remove_all d [] k = refl
has-remove_all d (j ∷ ks) k =
    ground (arith, has-remove_all (Dict.remove d j) ks k, has-remove d j k)

tracks-orphans :
    (e : Dict Text ℕ) (d : Dict Text Value) (k : Text)
    → tracks (orphans e d) k ≡ (Dict.has e k && not (Dict.has d k))
unfolding orphans tracks Dict.has
tracks-orphans [] d k = refl
tracks-orphans ((j, at) ∷ e) d k = ground (arith, tracks-orphans e d k, eq_iff j k)

tracks-ghosts :
    (ks : List Text) (d : Dict Text Value) (k : Text)
    → tracks (ghosts ks d) k ≡ (tracks ks k && not (Dict.has d k))
unfolding ghosts tracks
tracks-ghosts [] d k = refl
tracks-ghosts (j ∷ ks) d k = ground (arith, tracks-ghosts ks d k, eq_iff j k)

tracks-forget_all :
    (t ks : List Text) (k : Text)
    → tracks (forget_all t ks) k ≡ (if tracks ks k then false else tracks t k)
unfolding forget_all tracks
tracks-forget_all t [] k = refl
tracks-forget_all t (j ∷ ks) k =
    ground (arith, tracks-forget_all (forget t j) ks k, tracks-forget t j k)

IsUnique-forget_all : (t ks : List Text) → IsUnique t → IsUnique (forget_all t ks)
unfolding forget_all
IsUnique-forget_all t [] h = h
IsUnique-forget_all t (j ∷ ks) h = IsUnique-forget_all (forget t j) ks (IsUnique-forget t j h)

tracks-untracked :
    (d : Dict Text Value) (t : List Text) (k : Text)
    → tracks (untracked d t) k ≡ (Dict.has d k && not (tracks t k))
unfolding untracked tracks Dict.has
tracks-untracked [] t k = refl
tracks-untracked ((j, v) ∷ d) t k = ground (arith, tracks-untracked d t k, eq_iff j k)

has-keys : {V : Type 0} (d : Dict Text V) (k : Text) → tracks (map (λ e. e.0) d) k ≡ Dict.has d k
unfolding tracks Dict.has
has-keys [] k = refl
has-keys ((j, v) ∷ d) k = ground (arith, has-keys d k)

IsUnique-untracked :
    (d : Dict Text Value) (t : List Text) → IsUnique (map (λ e. e.0) d) → IsUnique (untracked d t)
unfolding untracked
IsUnique-untracked [] t h = tt
IsUnique-untracked ((j, v) ∷ d) t h = elim (Bool-cases (tracks t j)) [
  | inl e ↦ rw e (IsUnique-untracked d t h.1)
  | inr e ↦
      rw e (ground (arith, h.0, has-keys d j, tracks-untracked d t j), IsUnique-untracked d t h.1)
]

tracks-adopt_all :
    (t ks : List Text) (k : Text) → tracks (adopt_all t ks) k ≡ (tracks ks k || tracks t k)
unfolding adopt_all tracks
tracks-adopt_all t [] k = refl
tracks-adopt_all t (j ∷ ks) k = ground (arith, tracks-adopt_all (j ∷ t) ks k)

IsUnique-adopt_all :
    (t ks : List Text)
    → IsUnique t
    → IsUnique ks
    → ((k : Text) → tracks ks k ≡ true → tracks t k ≡ false)
    → IsUnique (adopt_all t ks)
unfolding adopt_all tracks
IsUnique-adopt_all t [] h u apart = h
IsUnique-adopt_all t (j ∷ ks) h u apart =
    IsUnique-adopt_all (j ∷ t) ks (apart j (ground (arith, text_eq_refl j)), h) u.1
      (λ k e. ground (arith, e, apart k, u.0, eq_iff j k))

-- What `housekeeping` answers for: the tracker and the expiry map against the data.
pub record IsMended (s : Store) : Type 0 where
  pub expiring : (k : Text) → Dict.has s.expires k ≡ true → Dict.has s.data_map k ≡ true
  pub held : (k : Text) → tracks s.tracker k ≡ Dict.has s.data_map k
  pub unique : IsUnique s.tracker

IsUnique-sweep :
    (s : Store) (ks : List Text)
    → IsUnique (map (λ e. e.0) s.data_map)
    → IsUnique s.tracker
    → IsUnique (map (λ e. e.0) (sweep s ks).data_map) × IsUnique (sweep s ks).tracker
unfolding sweep drop_key lru_invalidate log_operation log_record
IsUnique-sweep s [] h u = (h, u)
IsUnique-sweep s (k ∷ ks) h u =
    IsUnique-sweep (log_operation (drop_key s k) (codes "DEL" ∷ k ∷ [])) ks
      (IsUnique-keys-remove s.data_map k h) (IsUnique-forget s.tracker k u)

-- After a pass of `housekeeping`, from any state of the engine at any time, every key with an expiry
-- is there, and the tracker holds exactly the keys that are there, each once. The state's dict and
-- tracker hold a key once, as a Python dict does.
pub housekeeping-IsMended :
    (s : Store) (now : ℕ)
    → IsUnique (map (λ e. e.0) s.data_map)
    → IsUnique s.tracker
    → IsMended (housekeeping s now).0
unfolding housekeeping evict_all_expired
housekeeping-IsMended s now h u =
    let t = sweep s (past_due s.expires now) in
    let (h', u') = IsUnique-sweep s (past_due s.expires now) h u in
    let lost = ghosts t.tracker t.data_map in
    let kept = forget_all t.tracker lost in
    let found = untracked t.data_map kept in
    record {
      expiring = λ k e. ground (
        arith,
        e,
        has-remove_all t.expires (orphans t.expires t.data_map) k,
        tracks-orphans t.expires t.data_map k,
      );
      held = λ k. ground (
        arith,
        tracks-adopt_all kept found k,
        tracks-untracked t.data_map kept k,
        tracks-forget_all t.tracker lost k,
        tracks-ghosts t.tracker t.data_map k,
      );
      unique =
          IsUnique-adopt_all kept found (IsUnique-forget_all t.tracker lost u')
            (IsUnique-untracked t.data_map kept h')
            (λ k e. ground (arith, e, tracks-untracked t.data_map kept k));
    }
