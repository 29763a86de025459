-- ===== src/Store/RecoveredKeys.antt =====
-- The commands of store.py on keys: the log still replays to the data after them.
use kedis_python.Prelude.{
  inl, inr, ℕ, ◌+◌, refl, [], ◌∷◌, Text, codes, text_eq, Bool-cases, Option-cases,
}
use kedis_python.Dict
use kedis_python.Dict.{Dict, text_key, has-get}
use kedis_python.Store.State.{
  Store, string, command, expire_at, log_record, log_operation, bump_version, lru_invalidate,
}
use kedis_python.Store.Keys.{set, get, delete, drop_key, exists, set_expire, ttl, flushall}
use kedis_python.Store.View.{HasRoom}
use kedis_python.Store.Replay.{
  Host, kind_of, is_set, is_del, is_flushall, join_words, replay_command, replay_record,
}
use kedis_python.Store.Alike.{
  hold-IsAlike, expires-IsAlike, drop_key-IsAlike, log_record-IsAlike, bump_version-IsAlike,
}
use kedis_python.Store.Recovered.{
  KeepsUpper, IsAwake, evict_if_expired-awake, IsRecovered, IsRecovered-record, IsRecovered-write,
  IsRecovered-read, replay_record-named,
}

module _ (host : Host) (keeps : KeepsUpper host) (start s : Store)
    (h : IsRecovered host start s) where
  pub set-IsRecovered : (key value : Text) → HasRoom s → IsRecovered host start (set s key value)
  unfolding set log_operation log_record replay_command join_words
  set-IsRecovered key value room =
      IsRecovered-write host start s _ _ key (command (codes "SET" ∷ key ∷ value ∷ [])) h room refl
        h.is_live
        (expires-IsAlike _ _ (λ d. Dict.remove d key)
          (hold-IsAlike s h.image key (string value) h.alike))
        (replay_record-named host h.image (codes "SET") is_set (key ∷ value ∷ [])
          (keeps (codes "SET") (refl, (refl, (refl, tt)))) (unfold kind_of text_eq in refl))

  pub get-IsRecovered :
      (key : Text) (now : ℕ) → IsAwake s key now → IsRecovered host start (get s key now).0
  unfolding get
  get-IsRecovered key now awake =
      rw (evict_if_expired-awake s key now awake) (IsRecovered-read host start s key h)

  pub exists-IsRecovered :
      (key : Text) (now : ℕ) → IsAwake s key now → IsRecovered host start (exists s key now).0
  unfolding exists
  exists-IsRecovered key now awake =
      rw (evict_if_expired-awake s key now awake) (IsRecovered-read host start s key h)

  pub ttl-IsRecovered :
      (key : Text) (now later : ℕ)
      → IsAwake s key now
      → IsRecovered host start (ttl s key now later).0
  unfolding ttl
  ttl-IsRecovered key now later awake =
      rw (evict_if_expired-awake s key now awake) (elim (Bool-cases (Dict.has s.data_map key)) [
        | inr e ↦ rw e h
        | inl e ↦
            rw e (elim (Option-cases (Dict.get s.expires key)) [
              | inl q ↦ rw q h
              | inr (at, q) ↦ rw q h
            ])
      ])

  delete_found :
      (key : Text)
      → IsRecovered host start
          (drop_key (log_operation (bump_version s key) (codes "DEL" ∷ key ∷ [])) key)
  unfolding log_operation log_record bump_version
  delete_found key =
      let x = command (codes "DEL" ∷ key ∷ []) in
      let t = log_record (bump_version s key) x in
      IsRecovered-record host start s (drop_key t key) (drop_key h.image key) x h
        (unfold replay_command drop_key in
          replay_record-named host h.image (codes "DEL") is_del (key ∷ [])
            (keeps (codes "DEL") (refl, (refl, (refl, tt)))) (unfold kind_of text_eq in refl))
        (unfold drop_key lru_invalidate in rw h.is_live refl)
        (unfold drop_key lru_invalidate in h.is_live)
        (drop_key-IsAlike t h.image key (
          log_record-IsAlike (bump_version s key) h.image x
            (bump_version-IsAlike s h.image key h.alike)))

  pub delete-IsRecovered :
      (key : Text) (now : ℕ) → IsAwake s key now → IsRecovered host start (delete s key now).0
  unfolding delete
  delete-IsRecovered key now awake =
      rw (evict_if_expired-awake s key now awake) (elim (Bool-cases (Dict.has s.data_map key)) [
        | inr e ↦ rw e h
        | inl e ↦ rw e (delete_found key)
      ])

  expire_found :
      (key : Text) (at : ℕ)
      → IsRecovered host start (
          let t = log_record s (expire_at key at) in
          record t { expires = Dict.put t.expires key at })
  unfolding log_record replay_record
  expire_found key at =
      IsRecovered-record host start s _ _ (expire_at key at) h refl (rw h.is_live refl) h.is_live (
        expires-IsAlike (log_record s (expire_at key at)) h.image (λ d. Dict.put d key at)
          (log_record-IsAlike s h.image (expire_at key at) h.alike))

  pub set_expire-IsRecovered :
      (key : Text) (seconds now later : ℕ)
      → IsAwake s key now
      → IsRecovered host start (set_expire s key seconds now later).0
  unfolding set_expire
  set_expire-IsRecovered key seconds now later awake =
      rw (evict_if_expired-awake s key now awake) (elim (Bool-cases (Dict.has s.data_map key)) [
        | inr e ↦ rw e h
        | inl e ↦ rw e (expire_found key (later + seconds))
      ])

  pub flushall-IsRecovered : IsRecovered host start (flushall s)
  unfolding flushall log_operation log_record
  flushall-IsRecovered =
      IsRecovered-record host start s _ (flushall h.image) (command (codes "FLUSHALL" ∷ [])) h
        (unfold replay_command in
          replay_record-named host h.image (codes "FLUSHALL") is_flushall []
            (keeps (codes "FLUSHALL")
              (refl, (refl, (refl, (refl, (refl, (refl, (refl, (refl, tt)))))))))
            (unfold kind_of text_eq in refl))
        (rw h.is_live refl) h.is_live
        (record {
          same_data = refl;
          same_expires = refl;
          same_bound = h.alike.same_bound;
          same_count = refl;
          same_keys = λ k. refl;
          unique = tt;
          unique' = tt;
        })
